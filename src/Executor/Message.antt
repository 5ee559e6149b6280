-- ===== src/Executor/Message.antt =====
-- The messages of Infrastructure/Broker/Executor.ts and the errors that they carry.
use block_listener.Base.{ℕ, String, Option, none, some, get_or}
use block_listener.Base.Task.{Thrown}

pub record SerializedError : Type 0 where
  pub name : String
  pub message : String
  pub stack : String

unfoldable pub serialize_error : Thrown → SerializedError
serialize_error e = record { name = e.name; message = e.message; stack = e.stack }

-- A payload object: the handler's own fields, and the `error` that `{...message.payload, error}`
-- adds to them.
pub record Payload (P : Type 0) : Type 0 where
  pub fields : P
  pub error : Option SerializedError

pub record ExecutorMsgPayload (P : Type 0) : Type 0 where
  pub retries : ℕ
  pub max_retries : ℕ
  pub payload : Payload P
  pub process_after : ℕ
  pub error : Option SerializedError

-- `Partial<IExecutorMsgPayload<T>>`, less the payload, which the constructor overwrites.
pub record MessageOpts : Type 0 where
  pub retries : Option ℕ
  pub max_retries : Option ℕ
  pub process_after : Option ℕ
  pub error : Option SerializedError

abbrev pub no_opts : MessageOpts
no_opts = record { retries = none; max_retries = none; process_after = none; error = none }

-- A whole message passed as the options.
abbrev pub opts_of : {P : Type 0} → ExecutorMsgPayload P → MessageOpts
opts_of m = record {
  retries = some m.retries;
  max_retries = some m.max_retries;
  process_after = some m.process_after;
  error = m.error;
}

pub record ExecutorMessage (P : Type 0) : Type 0 where
  pub channel : String
  pub body : ExecutorMsgPayload P

-- The constructor of `ExecutorMessage`; `now` is its `Date.now()`.
unfoldable pub executor_message :
    {P : Type 0} → String → Payload P → MessageOpts → ℕ → ExecutorMessage P
executor_message channel payload opts now = record {
  channel = channel;
  body = record {
    retries = get_or opts.retries 0;
    max_retries = get_or opts.max_retries 10;
    payload = payload;
    process_after = get_or opts.process_after now;
    error = opts.error;
  };
}

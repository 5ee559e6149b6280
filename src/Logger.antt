-- ===== src/Logger.antt =====
-- Infrastructure/Logger/WinstonLogger/WinstonLoggerClient.ts, over the transports of winston.
use block_listener.Base.{
  ℕ, String, Bool, true, false, List, ◌∷◌, Option, none, some, get_or, ◌>>=◌, ◌≡◌, refl, ap,
}
use block_listener.Http.{get_env}

pub data Level : Type 0 where
  info debug warn error : Level

-- What is logged as an error: an `Error`, its name and message, or any other value.
pub data EntryError (V : Type 0) : Type 0 where
  error_object : (name message stack : String) → EntryError V
  -- `{ name, message }`
  normalized : (name message : String) → EntryError V
  other : V → EntryError V

-- `none` where the entry does not have the key.
pub record LogEntryParams (V C : Type 0) : Type 0 where
  pub message : String
  pub type : String
  pub success : Option Bool
  pub entry_error : Option (EntryError V)
  pub context : Option C

pub record LogEntry (V C : Type 0) : Type 0 where
  pub params : LogEntryParams V C
  pub time : ℕ
  pub level : Level

-- The names that every entry is logged with: `none` where the constructor throws.
abbrev pub default_meta : (String → Option String) → Option (String × String)
default_meta env = get_env (env "APP_NAME") none >>= λ app.
    get_env (env "APP_NAME") none >>= λ default_id.
    get_env (env "HOSTNAME") (some default_id) >>= λ id. some (app, id)

module _ {V : Type 0} where
  -- The lines of the stack are collected and not used.
  abbrev pub normalize_entry_error : EntryError V → EntryError V
  normalize_entry_error (error_object name message stack) = normalized name message
  normalize_entry_error (normalized name message) = normalized name message
  normalize_entry_error (other v) = other v

  abbrev pub normalized_or_none : Option (EntryError V) → Option (EntryError V)
  normalized_or_none none = none
  normalized_or_none (some e) = some (normalize_entry_error e)

  normalized_or_none-twice :
      (e : Option (EntryError V)) → normalized_or_none (normalized_or_none e) ≡ normalized_or_none e
  normalized_or_none-twice none = refl
  normalized_or_none-twice (some (error_object name message stack)) = refl
  normalized_or_none-twice (some (normalized name message)) = refl
  normalized_or_none-twice (some (other v)) = refl

module _ {V C : Type 0} where
  unfoldable pub prepare_entry : LogEntryParams V C → Level → ℕ → LogEntry V C
  prepare_entry entry_params level now = record {
    params = record entry_params { entry_error = normalized_or_none entry_params.entry_error };
    time = now;
    level = level;
  }

  -- `{ success, ...entry }`
  abbrev pub with_success : Bool → LogEntryParams V C → LogEntryParams V C
  with_success success entry = record entry { success = some (get_or entry.success success) }

  -- The methods: what was logged, the latest first.
  abbrev pub log : LogEntryParams V C → ℕ → List (LogEntry V C) → List (LogEntry V C)
  log entry now logged = prepare_entry (with_success true entry) info now ∷ logged

  abbrev pub log_debug : LogEntryParams V C → ℕ → List (LogEntry V C) → List (LogEntry V C)
  log_debug entry now logged = prepare_entry (with_success true entry) debug now ∷ logged

  abbrev pub log_warn : LogEntryParams V C → ℕ → List (LogEntry V C) → List (LogEntry V C)
  log_warn entry now logged = prepare_entry (with_success true entry) warn now ∷ logged

  abbrev pub log_error : LogEntryParams V C → ℕ → List (LogEntry V C) → List (LogEntry V C)
  log_error entry now logged = prepare_entry (with_success false entry) error now ∷ logged

  -- No stack of an error is logged, and an entry that is prepared again stays as it is.
  pub prepare_entry-prepare_entry :
      (entry : LogEntryParams V C) (level : Level) (now : ℕ)
      → prepare_entry (prepare_entry entry level now).params level now
        ≡ prepare_entry entry level now
  unfolding prepare_entry
  prepare_entry-prepare_entry entry level now =
      ap (λ e. record { params = record entry { entry_error = e }; time = now; level = level })
        (normalized_or_none-twice entry.entry_error)

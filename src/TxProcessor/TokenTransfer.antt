-- ===== src/TxProcessor/TokenTransfer.antt =====
-- App/Services/TxProcessor/Strategies/TokenTransferProcessor.ts. The arguments of a decoded call are
-- an object by the names of its parameters, of which `args[0]` is the field "0".
use block_listener.Base.{
  ℕ, String, Bool, true, false, any, List, [], ◌∷◌, Option, none, some, if◌then◌else◌, ◌===◌,
  string_eq, ◌≡◌, arith,
}
use block_listener.Base.Task.{Outcome, returns, throws, Task}
use block_listener.Values.{BlockchainId, TxType}
use block_listener.Rabbitmq.Objects.{lookup}
use block_listener.Entities.Token.{TokenProps}
use block_listener.Entities.Tx.{
  TxProps, TxSchemas, SmartContractCall, TokenTransferData, token_transfer_data, set_type_and_data,
}
use block_listener.TxProcessor.{Processing, Strategy, set_type}

abbrev pub erc20_transfer_methods : List String
erc20_transfer_methods = "transferFrom" ∷ "transfer" ∷ []

-- `to_formatted` is that of BigNumber, on `undefined` too, and a price leaves the last result in the
-- date that it is given, which is the transaction's.
pub record Deps (D : Type 0) : Type 0 where
  pub schemas : TxSchemas
  pub fetch_token_data_with_price : BlockchainId → String → Task D (TokenProps × String)
  pub usd_price : BlockchainId → ℕ → Task D (String × ℕ)
  pub multiplied_by : String → String → String
  pub to_formatted : Option String → ℕ → String

pub record Parties : Type 0 where
  pub from : Option String
  pub to : Option String
  pub amount : Option String

unfoldable pub parties : TxProps → SmartContractCall → Parties
unfolding lookup
parties tx call =
    if call.method === "transferFrom"
    then record {
      from = lookup "0" call.args;
      to = lookup "1" call.args;
      amount = lookup "2" call.args;
    }
    else record {
      from = some tx.raw.from;
      to = lookup "0" call.args;
      amount = lookup "1" call.args;
    }

module _ {D : Type 0} (deps : Deps D) where
  abbrev pub details : Parties → TokenProps → String → String → TokenTransferData
  details p token native_price eth_price = record {
    native_value = native_price;
    usd_value = deps.multiplied_by eth_price native_price;
    from = p.from;
    to = p.to;
    amount = deps.to_formatted p.amount token.decimals;
    token_symbol = token.symbol;
    token_address = token.address;
  }

  -- The data, with the date that the price service left.
  unfoldable pub get_token_transfer_data :
      TxProps → SmartContractCall → Task D (TokenTransferData × ℕ)
  unfolding parties
  get_token_transfer_data tx call d =
      elim (deps.fetch_token_data_with_price tx.blockchain tx.raw.to d) [
        | throws e u ↦ throws e u
        | returns priced u ↦ elim (deps.usd_price tx.blockchain tx.raw.timestamp u) [
          | throws e v ↦ throws e v
          | returns price v ↦
              returns (details (parties tx call) priced.0 priced.1 price.0, price.1) v
        ]
      ]

  abbrev pub transferred : TxProps → Outcome D (TokenTransferData × ℕ) → Outcome (Processing D) Bool
  unfolding set_type_and_data
  transferred tx (throws e d) = throws e (record { db = d; tx = tx })
  transferred tx (returns found d) =
      elim (set_type deps.schemas TxType.dex_swap (token_transfer_data found.0)
        (record { db = d; tx = record tx { raw = record (tx.raw) { timestamp = found.1 } } })) [
          | throws e s ↦ throws e s
          | returns _ s ↦ returns true s
        ]

  abbrev pub by_call : Processing D → Option SmartContractCall → Outcome (Processing D) Bool
  unfolding get_token_transfer_data transferred
  by_call s none = returns false s
  by_call s (some call) =
      if any (λ m. m === call.method) erc20_transfer_methods
      then transferred s.tx (get_token_transfer_data s.tx call s.db)
      else returns false s

  unfoldable pub process_token_transfer : Strategy D
  unfolding by_call
  process_token_transfer s = by_call s s.tx.raw.smart_contract_call

-- A call whose arguments go by their names has no receiver and no amount.
pub parties-named :
    (tx : TxProps) (call : SmartContractCall)
    → lookup "0" call.args ≡ none
    → lookup "1" call.args ≡ none
    → lookup "2" call.args ≡ none
    → ((parties tx call).to ≡ none) × ((parties tx call).amount ≡ none)
unfolding parties
parties-named tx call first second third =
    (ground (arith, first, second, third), ground (arith, first, second, third))

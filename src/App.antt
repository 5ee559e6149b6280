-- ===== src/App.antt =====
-- The world of the use cases: a database with what it answers, and what they send and store.
pub mod Publish
pub mod Steps
pub mod Quiet
use block_listener.Base.{ℕ, String, List, [], ◌∷◌, Option, none, some}
use block_listener.Base.Task.{Thrown, Outcome, returns, throws, Task}
use block_listener.Values.{BlockchainId}
use block_listener.Entities.Wallet.{Wallet}
use block_listener.Entities.Tx.{TxProps}
use block_listener.Entities.Token.{TokenProps, ContractProps, BlockProps}
use block_listener.Messages.{Message}

-- What a use case does to the outside, newest first.
pub data Effect : Type 0 where
  sent : Message → Effect
  stored_wallet : Wallet → Effect
  stored_tx : TxProps → Effect
  stored_token : TokenProps → Effect
  stored_contract : ContractProps → Effect
  stored_block : BlockProps → Effect

pub record App (D : Type 0) : Type 0 where
  pub db : D
  pub effects : List Effect

module _ {D : Type 0} where
  -- A task of the database inside the world.
  abbrev pub in_world : {A : Type 0} → App D → Outcome D A → Outcome (App D) A
  in_world w (returns a d) = returns a (record w { db = d })
  in_world w (throws e d) = throws e (record w { db = d })

  abbrev pub on_db : {A : Type 0} → Task D A → Task (App D) A
  on_db task w = in_world w (task w.db)

  abbrev pub note : Effect → App D → App D
  note effect w = record w { effects = effect ∷ w.effects }

  -- A write to the database, noted if it succeeds.
  abbrev pub noted : Effect → App D → Outcome D (Unit {0}) → Outcome (App D) (Unit {0})
  noted effect w (returns a d) = returns tt (record { db = d; effects = effect ∷ w.effects })
  noted effect w (throws e d) = throws e (record w { db = d })

  abbrev pub store : Effect → Task D (Unit {0}) → Task (App D) (Unit {0})
  store effect task w = noted effect w (task w.db)

  -- `broker.publish`: `publish_error` is what the broker rejects the message with.
  abbrev pub publish : (Message → D → Option Thrown) → Message → Task (App D) (Unit {0})
  publish publish_error message w = elim (publish_error message w.db) [
    | none ↦ returns tt (note (sent message) w)
    | some e ↦ throws e w
  ]

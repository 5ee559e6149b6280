-- ===== src/UseCases/RequeueMissingTokens.antt =====
-- App/UseCases/Tokens/RequeueMissingTokens.ts. A publication that is not awaited is run where it is
-- started, and its error is dropped.
pub mod Missing
pub mod Rounds
use block_listener.Base.{
  ℕ, zero, suc, String, Bool, true, false, not, is_some, List, [], ◌∷◌, Option, none, some,
  if◌then◌else◌,
}
use block_listener.Base.Task.{Thrown, Outcome, returns, throws, Task, pure, ◌>>=◌, ◌>>◌, catch}
use block_listener.Values.{BlockchainId}
use block_listener.Entities.Token.{TokenProps}
use block_listener.Messages.{Message, token_discovered}
use block_listener.Utils.Address.{to_lower_case}
use block_listener.Rabbitmq.Objects.{Object, assign, lookup}
use block_listener.App.{App, on_db, publish}

pub record Deps (D : Type 0) : Type 0 where
  pub enabled_blockchains : List BlockchainId
  pub get_all_tokens_found_in_swaps : BlockchainId → Task D (List String)
  pub find_tokens_by_blockchain_address : List String → BlockchainId → Task D (List TokenProps)
  pub publish_error : Message → D → Option Thrown

abbrev pub tokens_by_addr_reducer : Object TokenProps → TokenProps → Object TokenProps
unfolding assign to_lower_case
tokens_by_addr_reducer object token = assign (to_lower_case token.address) token object

unfoldable pub tokens_by_addr : Object TokenProps → List TokenProps → Object TokenProps
tokens_by_addr object [] = object
tokens_by_addr object (token ∷ tokens) = tokens_by_addr (tokens_by_addr_reducer object token) tokens

module _ {D : Type 0} (deps : Deps D) where
  abbrev pub announce : BlockchainId → String → Task (App D) (Unit {0})
  announce blockchain address =
      catch (publish deps.publish_error (token_discovered blockchain address)) (λ _. pure tt)

  unfoldable pub requeue : BlockchainId → Object TokenProps → List String → Task (App D) (Unit {0})
  unfolding lookup to_lower_case
  requeue blockchain all_tokens_by_addr [] = pure tt
  requeue blockchain all_tokens_by_addr (address ∷ addresses) = do
    (if not (is_some (lookup (to_lower_case address) all_tokens_by_addr))
        then announce blockchain address
        else pure tt)
    requeue blockchain all_tokens_by_addr addresses

  abbrev pub requeue_missing :
      BlockchainId → List String → List TokenProps → Task (App D) (Unit {0})
  unfolding tokens_by_addr requeue
  requeue_missing blockchain addresses tokens =
      requeue blockchain (tokens_by_addr [] tokens) addresses

  abbrev pub requeue_listed : BlockchainId → List String → Task (App D) (Unit {0})
  unfolding requeue_missing
  requeue_listed blockchain addresses =
      on_db (deps.find_tokens_by_blockchain_address addresses blockchain)
      >>= requeue_missing blockchain addresses

  unfoldable pub process_blockchain : BlockchainId → Task (App D) (Unit {0})
  unfolding requeue_listed
  process_blockchain blockchain =
      on_db (deps.get_all_tokens_found_in_swaps blockchain) >>= requeue_listed blockchain

  unfoldable pub process_blockchains : List BlockchainId → Task (App D) (Unit {0})
  unfolding process_blockchain
  process_blockchains [] = pure tt
  process_blockchains (b ∷ bs) = process_blockchain b >> process_blockchains bs

  -- `processAllBlockchainsAndRepeat`, as far as so many timers: how many of them it sets, one after
  -- each round, and what it leaves. The error of a round is dropped.
  unfoldable pub process_all_blockchains_and_repeat : ℕ → App D → ℕ × App D
  unfolding process_blockchains
  process_all_blockchains_and_repeat zero w = (zero, w)
  process_all_blockchains_and_repeat (suc timers) w =
      elim (process_blockchains deps.enabled_blockchains w) [
        | throws e t ↦ (zero, t)
        | returns _ t ↦ let (set, u) = process_all_blockchains_and_repeat timers t in (suc set, u)
      ]

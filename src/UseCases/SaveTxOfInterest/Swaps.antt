-- ===== src/UseCases/SaveTxOfInterest/Swaps.antt =====
-- SaveTxOfInterest.ts: what a swap over the threshold stores and sends.
use block_listener.Base.{◌≡◌, Bool, true, false, List, ◌∷◌, none, some, if◌then◌else◌, arith}
use block_listener.Base.Task.{returns, promise_all}
use block_listener.Entities.Tx.{TxProps, DexSwapData}
use block_listener.Entities.Token.{ContractProps}
use block_listener.Messages.{Message, token_discovered}
use block_listener.Utils.Address.{is_same_address}
use block_listener.App.{App, Effect, sent, stored_tx}
use block_listener.UseCases.SaveTxOfInterest.{
  Deps, sender_wallet, receiver_wallet, save_dex_swap_tx_handler,
}

module _ {D : Type 0} (deps : Deps D) (tx : TxProps) (swap : DexSwapData) (w : App D) (d d' : D)
    (router : ContractProps) (accepts : (m : Message) (s : D) → deps.publish_error m s ≡ none) where
  -- What a swap sends before it is stored, newest first, where `same` says whether the swap pays to
  -- its sender.
  abbrev pub swap_effects : Bool → List Effect
  swap_effects same =
      let before =
        sent (sender_wallet deps tx swap same)
        ∷ sent (token_discovered tx.blockchain swap.output.token)
        ∷ sent (token_discovered tx.blockchain swap.input.token)
        ∷ w.effects in
      stored_tx tx ∷ (if same then sent (receiver_wallet deps tx swap) ∷ before else before)

  -- A swap over the threshold through a known router announces its two tokens and its sender, and
  -- is stored. The receiver is announced, and the sender related to it, exactly when the receiver
  -- is the sender itself.
  pub save_dex_swap_tx_handler_lem :
      (same : Bool)
      → deps.less_than (some swap.usd_value) (deps.min_dex_swap_value_in_usd tx.blockchain) ≡ false
      → is_same_address deps.get_address (some tx.raw.from) (some swap.to) ≡ some same
      → deps.find_contract tx.raw.to tx.blockchain w.db ≡ returns (some router) d
      → deps.save_tx tx d ≡ returns tt d'
      → save_dex_swap_tx_handler deps tx swap w
        ≡ returns true (record { db = d'; effects = swap_effects same })
  unfolding save_dex_swap_tx_handler promise_all
  save_dex_swap_tx_handler_lem true over same found saved = ground (
    arith,
    accepts (token_discovered tx.blockchain swap.input.token) w.db,
    accepts (token_discovered tx.blockchain swap.output.token) w.db,
    accepts (sender_wallet deps tx swap true) w.db,
    accepts (receiver_wallet deps tx swap) d,
  )
  save_dex_swap_tx_handler_lem false over same found saved = ground (
    arith,
    accepts (token_discovered tx.blockchain swap.input.token) w.db,
    accepts (token_discovered tx.blockchain swap.output.token) w.db,
    accepts (sender_wallet deps tx swap false) w.db,
  )

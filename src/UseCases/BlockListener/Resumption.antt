-- ===== src/UseCases/BlockListener/Resumption.antt =====
-- BlockListener.ts and BlockRepository.ts: where the listener goes on after a stop.
use block_listener.Base.{
  ℕ, ◌+◌, ◌<◌, String, true, false, List, [], ◌∷◌, ◌≡◌, ◌===◌, string_eq, arith, ◌∙◌,
}
use block_listener.Base.Task.{returns, Task, ◌>>◌}
use block_listener.Base.Runs.{returns->>=}
use block_listener.Values.{BlockchainId}
use block_listener.Entities.Token.{BlockProps}
use block_listener.App.{App, on_db}
use block_listener.App.Steps.{on_db-returns}
use block_listener.Repository.Blocks.{find_latest_block, text_leb, decimal, AreDigits, decimal-le}
use block_listener.UseCases.BlockListener.{
  Deps, get_start_block, listener_rounds, start_blockchain_listener,
}

-- The listener over the repository of blocks, with `parseInt` on texts of digits.
module _ {D : Type 0} (deps : Deps D) (blockchain : BlockchainId)
    (find_last : BlockchainId → Task D (List BlockProps))
    (stands_on : (b : BlockchainId) (d : D)
      → deps.find_latest_block b d ≡ find_latest_block find_last b d)
    (parses : (s t : String) → AreDigits s t → deps.parse_int t ≡ decimal 0 t) where
  get_start_block-latest :
      (stored latest : BlockProps) (d e : D)
      → find_last blockchain d ≡ returns (latest ∷ []) e
      → latest.height === "" ≡ false
      → AreDigits stored.height latest.height
      → get_start_block deps blockchain d ≡ returns (decimal 0 latest.height) e
  unfolding get_start_block find_latest_block
  get_start_block-latest stored latest d e found full digits =
      ground (arith, stands_on blockchain d, found, full, parses stored.height latest.height digits)

  -- If there is a provider, the listener goes on with the block right after the one that the
  -- database sorts last. If the height of a stored block has as many digits as that block's, it is
  -- below the block that the listener goes on with.
  pub start_blockchain_listener-resumes :
      (stored latest : BlockProps) (fuel rounds : ℕ) (w : App D) (d e : D)
      → find_last blockchain w.db ≡ returns (latest ∷ []) d
      → deps.get_provider blockchain d ≡ returns tt e
      → latest.height === "" ≡ false
      → text_leb stored.height latest.height ≡ true
      → AreDigits stored.height latest.height
      → (start_blockchain_listener deps blockchain fuel rounds w
          ≡ listener_rounds deps blockchain fuel rounds
              (decimal 0 latest.height + 1)
              (record w { db = e }))
        × (decimal 0 stored.height < decimal 0 latest.height + 1)
  unfolding start_blockchain_listener
  start_blockchain_listener-resumes stored latest fuel rounds w d e found provides full last
        digits =
      let n = decimal 0 latest.height in
      let low = decimal-le 0 stored.height latest.height digits last in
      (
        returns->>= (on_db (get_start_block deps blockchain))
              (λ m.
                on_db (deps.get_provider blockchain)
                >> listener_rounds deps blockchain fuel rounds (m + 1))
              w (record w { db = d }) n
              (on_db-returns (get_start_block deps blockchain) w n d
                (get_start_block-latest stored latest w.db d found full digits))
            ∙ returns->>= (on_db (deps.get_provider blockchain))
                (λ _. listener_rounds deps blockchain fuel rounds (n + 1)) (record w { db = d })
                (record w { db = e }) tt
                (on_db-returns (deps.get_provider blockchain) (record w { db = d }) tt e provides),
        omega (arith, low),
      )

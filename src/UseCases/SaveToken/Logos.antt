-- ===== src/UseCases/SaveToken/Logos.antt =====
-- SaveToken.ts: the logo of a token on Ethereum is added once.
use block_listener.Base.{
  String, any, any-append, [], ◌∷◌, Option, none, some, ◌≡◌, ◌∙◌, refl, ◌===◌, string_eq, inl, inr,
  Bool-cases, arith,
}
use block_listener.Base.Task.{returns, or_fail}
use block_listener.Base.Runs.{returns->>=}
use block_listener.App.Steps.{on_db-returns, store-returns, or_fail-returns}
use block_listener.Values.{BlockchainId, blockchain_eq}
use block_listener.Entities.Token.{TokenProps, urls, add_logo}
use block_listener.Utils.Address.{checksumed, invalid_address}
use block_listener.App.{App, on_db, stored_token}
use block_listener.UseCases.SaveToken.{
  Deps, logo_url, with_logo, update_logo, get_logo_from_ether_scan, update_and_save, save_updated,
  save_by_id, save_found, execute,
}

module _ {D : Type 0} (deps : Deps D) where
  -- A logo that the token has is not added again.
  pub with_logo-again :
      (t : TokenProps) (logo : Option String)
      → with_logo deps (with_logo deps t logo) logo ≡ with_logo deps t logo
  unfolding add_logo
  with_logo-again t none = refl
  with_logo-again t (some url) =
      elim (Bool-cases (any (λ v. v === deps.trim url) (urls t.logo_urls))) [
        | inl there ↦ ground (arith, there)
        | inr new ↦ ground (
          arith,
          new,
          any-append (λ v. v === deps.trim url) (urls t.logo_urls) (deps.trim url ∷ []),
          (string_eq.beq_iff (deps.trim url) (deps.trim url)).1 refl,
        )
      ]

  update_logo-ethereum :
      (t : TokenProps) (path : Option String) (d e : D)
      → t.blockchain ≡ BlockchainId.ethereum
      → deps.avatar_path t.address d ≡ returns path e
      → update_logo deps t d ≡ returns (with_logo deps t (logo_url deps path)) e
  unfolding update_logo get_logo_from_ether_scan
  update_logo-ethereum t path d e chain page = ground (arith, chain, page)

  update_and_save_lem :
      (t u : TokenProps) (w : App D) (e f : D)
      → update_logo deps t w.db ≡ returns u e
      → deps.save u e ≡ returns tt f
      → update_and_save deps t w
        ≡ returns tt (record { db = f; effects = stored_token u ∷ w.effects })
  unfolding update_and_save update_logo
  update_and_save_lem t u w e f updated saved =
      returns->>= (on_db (update_logo deps t)) (save_updated deps) w (record w { db = e }) u
        (on_db-returns (update_logo deps t) w u e updated)
      ∙ store-returns (stored_token u) (deps.save u) (record w { db = e }) f saved

  -- A message about a token on Ethereum that is known stores it with the logo that the page names,
  -- if the page, the database and `getAddress` answer.
  pub execute_ethereum :
      (address id : String) (t : TokenProps) (path : Option String) (w : App D) (d e f : D)
      → checksumed deps.service.get_address (some address) ≡ some id
      → deps.find_one id BlockchainId.ethereum w.db ≡ returns (some t) d
      → t.blockchain ≡ BlockchainId.ethereum
      → deps.avatar_path t.address d ≡ returns path e
      → deps.save (with_logo deps t (logo_url deps path)) e ≡ returns tt f
      → execute deps BlockchainId.ethereum address w
        ≡ returns tt (record {
          db = f;
          effects = stored_token (with_logo deps t (logo_url deps path)) ∷ w.effects;
        })
  unfolding execute checksumed save_found update_and_save
  execute_ethereum address id t path w d e f valid found chain page saved =
      let known = record w { db = d } in
      let b = BlockchainId.ethereum in
      returns->>= (or_fail invalid_address (checksumed deps.service.get_address (some address)))
        (save_by_id deps b address) w w id
        (or_fail-returns invalid_address (checksumed deps.service.get_address (some address)) id w
          valid)
      ∙ returns->>= (on_db (deps.find_one id b)) (save_found deps b address) w known (some t)
          (on_db-returns (deps.find_one id b) w (some t) d found)
      ∙ update_and_save_lem t (with_logo deps t (logo_url deps path)) known e f
          (update_logo-ethereum t path d e chain page) saved

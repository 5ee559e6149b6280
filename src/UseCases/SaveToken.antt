-- ===== src/UseCases/SaveToken.antt =====
-- App/UseCases/Tokens/SaveToken.ts
pub mod Logos
use Prim.Native.String.{◌++◌}
use block_listener.Base.{
  String, Bool, true, false, List, [], ◌∷◌, Option, none, some, if◌then◌else◌, ◌===◌, string_eq,
}
use block_listener.Base.Task.{
  Thrown, Outcome, returns, throws, Task, pure, throw, ◌>>=◌, ◌>>◌, or_fail,
}
use block_listener.Values.{BlockchainId, blockchain_eq}
use block_listener.Entities.Token.{TokenProps, add_logo}
use block_listener.Utils.Address.{checksumed, invalid_address}
use block_listener.App.{App, Effect, stored_token, on_db, store}
use block_listener.Tokens as Tokens
use block_listener.Tokens.Fetch.{fetch_tokens_data}
use block_listener.Tokens.PairPrice.{undefined_property}

pub record Deps (D : Type 0) : Type 0 where
  -- The token service, with `getAddress`
  pub service : Tokens.Deps D
  pub find_one : String → BlockchainId → Task D (Option TokenProps)
  pub save : TokenProps → Task D (Unit {0})
  -- The `src` of the page's avatar, and `trim`
  pub avatar_path : String → Task D (Option String)
  pub trim : String → String

abbrev pub base_url : String
base_url = "https://etherscan.io"

module _ {D : Type 0} (deps : Deps D) where
  open deps use {trim}

  abbrev pub logo_url : Option String → Option String
  logo_url none = none
  logo_url (some path) = if trim path === "" then none else some (base_url ++ ("/" ++ path))

  unfoldable pub get_logo_from_ether_scan : TokenProps → Task D (Option String)
  get_logo_from_ether_scan token = do path ← deps.avatar_path token.address; pure (logo_url path)

  abbrev pub with_logo : TokenProps → Option String → TokenProps
  unfolding add_logo
  with_logo token none = token
  with_logo token (some url) = add_logo trim url token

  -- The token that `updateLogo` leaves.
  unfoldable pub update_logo : TokenProps → Task D TokenProps
  unfolding get_logo_from_ether_scan
  update_logo token =
      if token.blockchain === BlockchainId.ethereum
      then (do logo ← get_logo_from_ether_scan token; pure (with_logo token logo))
      else pure token

  abbrev pub save_updated : TokenProps → Task (App D) (Unit {0})
  save_updated updated = store (stored_token updated) (deps.save updated)

  abbrev pub update_and_save : TokenProps → Task (App D) (Unit {0})
  unfolding update_logo
  update_and_save token = on_db (update_logo token) >>= save_updated

  abbrev pub save_fetched : List TokenProps → Task (App D) (Unit {0})
  save_fetched [] = throw undefined_property
  save_fetched (token ∷ tokens) = update_and_save token

  abbrev pub save_found : BlockchainId → String → Option TokenProps → Task (App D) (Unit {0})
  unfolding fetch_tokens_data
  save_found blockchain address (some token) = update_and_save token
  save_found blockchain address none =
      on_db (fetch_tokens_data deps.service blockchain (address ∷ [])) >>= save_fetched

  abbrev pub save_by_id : BlockchainId → String → String → Task (App D) (Unit {0})
  save_by_id blockchain address id =
      on_db (deps.find_one id blockchain) >>= save_found blockchain address

  unfoldable pub execute : BlockchainId → String → Task (App D) (Unit {0})
  unfolding checksumed
  execute blockchain address =
      or_fail invalid_address (checksumed deps.service.get_address (some address))
      >>= save_by_id blockchain address

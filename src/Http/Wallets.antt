-- ===== src/Http/Wallets.antt =====
-- WalletController.ts: what a request with POST leaves.
use block_listener.Base.{
  String, Bool, true, false, ◌||◌, any, [], ◌∷◌, ◌++◌, Option, none, get_or, ◌≡◌, ◌===◌, string_eq,
  arith,
}
use block_listener.Base.Task.{Thrown}
use block_listener.Values.{WalletTagName, tag_eq}
use block_listener.Entities.Wallet.{Wallet}
use block_listener.Entities.Wallet.Merge.{has_tag}
use block_listener.Messages.{Message, wallet_discovered}
use block_listener.App.{App, sent}
use block_listener.Http.{
  next_handler, api_token_auth_middleware, serve, CreateWalletDto, discovered_wallet, create_wallet,
}
use block_listener.UseCases.SaveWallet.{updated}
use block_listener.UseCases.SaveWallet as SaveWallet
use block_listener.UseCases.SaveWallet.Result.{updated_lem}

module _ {D : Type 0} (publish_error : Message → D → Option Thrown)
    (api_token token : Option String)
    (passes : api_token_auth_middleware api_token "POST" token ≡ next_handler) where
  -- A wallet whose body the schema refuses is answered as an error of the server, and nothing is
  -- sent: the controller's `ValidationError` is not the one that the error middleware knows.
  pub serve-create_wallet_invalid :
      (is_valid : CreateWalletDto → Bool) (body : CreateWalletDto) (w : App D)
      → is_valid body ≡ false
      → serve api_token "POST" token (create_wallet publish_error is_valid body) w ≡ (500, w)
  unfolding serve create_wallet
  serve-create_wallet_invalid is_valid body w invalid = ground (arith, passes, invalid)

  -- A wallet that is posted is announced, if its body is valid and the broker takes the message,
  -- and `SaveWallet` tags a wallet that it knows as added manually, and with the tags of the body.
  pub serve-create_wallet :
      {E : Type 0} (deps : SaveWallet.Deps E) (is_valid : CreateWalletDto → Bool)
      (body : CreateWalletDto) (w : App D) (wallet : Wallet) (t : WalletTagName)
      → is_valid body ≡ true
      → publish_error (wallet_discovered (discovered_wallet body)) w.db ≡ none
      → (serve api_token "POST" token (create_wallet publish_error is_valid body) w ≡ (
        202,
        record w { effects = sent (wallet_discovered (discovered_wallet body)) ∷ w.effects },
      ))
        × (has_tag t (
              updated deps wallet
                (get_or (discovered_wallet body).tags [])
                (get_or (discovered_wallet body).relations [])
                (discovered_wallet body).type
                (discovered_wallet body).alias)
            ≡ (has_tag t wallet
                || any (λ x. x === t) (get_or body.tags [] ++ WalletTagName.added_manually ∷ [])))
  unfolding serve create_wallet
  serve-create_wallet deps is_valid body w wallet t valid taken = (
    ground (arith, passes, valid, taken),
    (updated_lem deps wallet (get_or (discovered_wallet body).tags [])
          (get_or (discovered_wallet body).relations []) (discovered_wallet body).type
          (discovered_wallet body).alias).0
        t,
  )

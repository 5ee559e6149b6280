-- ===== src/Price/CryptoCompare.antt =====
-- App/Services/PriceService/CryptoCompareApiService.ts
use Prim.Native.String.{◌++◌}
use block_listener.Base.{ℕ, String}
use block_listener.Base.Task.{Task, pure, ◌>>=◌}
use block_listener.Values.{BlockchainId, native_token_symbol}

-- `axios.get`, of whose answer `new BigNumber` reads `data.USD`, and `multipliedBy`.
pub record Deps (D Price : Type 0) : Type 0 where
  pub get_usd : String → Task D Price
  pub multiplied_by : Price → String → Price

module _ {D Price : Type 0} (deps : Deps D Price) where
  -- The time is not read.
  unfoldable pub get_blockchain_native_token_usd_price : BlockchainId → ℕ → Task D Price
  get_blockchain_native_token_usd_price blockchain time = deps.get_usd (
      "https://min-api.cryptocompare.com/data/price?fsym="
      ++ (native_token_symbol blockchain ++ "&tsyms=USD"))

  unfoldable pub get_blockchain_native_token_usd_value : BlockchainId → String → ℕ → Task D Price
  unfolding get_blockchain_native_token_usd_price
  get_blockchain_native_token_usd_value blockchain amount time = do
    price ← get_blockchain_native_token_usd_price blockchain time
    pure (deps.multiplied_by price amount)

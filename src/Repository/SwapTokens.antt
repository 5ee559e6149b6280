-- ===== src/Repository/SwapTokens.antt =====
-- Infrastructure/Repository/TxRepository.ts: `getAllTokensFoundInSwaps`, over the aggregation that
-- gives, for each blockchain with swaps, the tokens of its swaps, each once.
use block_listener.Base.{String, false, List, [], ◌∷◌}
use block_listener.Base.Task.{Thrown, Task, pure, throw, ◌>>=◌}
use block_listener.Values.{BlockchainId}

-- What `const { addresses } = undefined` throws.
abbrev pub undefined_addresses : Thrown
undefined_addresses = record {
  is_direct_to_dead = false;
  name = "TypeError";
  message = "Cannot destructure property 'addresses' as it is undefined.";
  stack = "";
}

-- The addresses of the first document, as the caller takes them.
abbrev pub first_addresses : {D : Type 0} → List (BlockchainId × List String) → Task D (List String)
first_addresses [] = throw undefined_addresses
first_addresses (doc ∷ docs) = pure doc.1

unfoldable pub get_all_tokens_found_in_swaps :
    {D : Type 0}
    → (BlockchainId → Task D (List (BlockchainId × List String)))
    → BlockchainId
    → Task D (List String)
get_all_tokens_found_in_swaps aggregate blockchain = aggregate blockchain >>= first_addresses

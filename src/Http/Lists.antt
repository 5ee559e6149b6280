-- ===== src/Http/Lists.antt =====
-- The lists of the controllers.
use block_listener.Base.{ℕ, String, true, List, [], ◌∷◌, none, ◌≡◌, ◌∙◌, ap, arith, nat_eq}
use block_listener.Base.Segments.{length, take, take-nil}
use block_listener.Repository.Pages.{Collection, IsCursor, find_all}
use block_listener.Http.{or_number, build_paginated_response, index}

or_number_lem : (a b n : ℕ) → a ≡ n → (n ≡ 0 → b ≡ 0) → or_number a b ≡ n
or_number_lem a b n e h = ground arith

length-take_nil : {A : Type 0} (n : ℕ) (xs : List A) → length xs ≡ 0 → length (take n xs) ≡ 0
length-take_nil n [] h = ap length (take-nil n)
length-take_nil n (x ∷ xs) h = ground (arith, h)

module _ {M F V : Type 0} (c : Collection M F V) (cursor : IsCursor c) (number : String → ℕ) where
  total_lem :
      (filter : F) (m : M)
      → c.find_some filter 0 500 m ≡ take 500 (c.find filter m)
      → or_number (c.count_documents filter m) (length (c.find_some filter 0 500 m))
        ≡ length (c.find filter m)
  total_lem filter m first =
      or_number_lem (c.count_documents filter m) (length (c.find_some filter 0 500 m))
        (length (c.find filter m)) (cursor.count filter m)
        (λ empty. ap length first ∙ length-take_nil 500 (c.find filter m) empty)

  -- A list that is asked for without a page and a size has the first 500 entities, and the number
  -- of all of them as its total.
  pub index-first :
      (filter : F) (m : M)
      → index c number filter none none m ≡ record {
        success = true;
        entities = take 500 (c.find filter m);
        total = length (c.find filter m);
        page = 1;
        page_size = 500;
      }
  unfolding index find_all build_paginated_response
  index-first filter m =
      let first : c.find_some filter 0 500 m ≡ take 500 (c.find filter m) =
        cursor.skip_limit filter 0 499 m in
      ap
        (λ n. record {
          success = true;
          entities = c.find_some filter 0 500 m;
          total = n;
          page = 1;
          page_size = 500;
        })
        (total_lem filter m first)
      ∙ ap
          (λ l. record {
            success = true;
            entities = l;
            total = length (c.find filter m);
            page = 1;
            page_size = 500;
          })
          first

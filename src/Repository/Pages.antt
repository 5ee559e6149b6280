-- ===== src/Repository/Pages.antt =====
-- Infrastructure/Repository/MongoBaseRepository.ts: `findAll` and `saveMany`, over the cursor of a
-- collection.
use block_listener.Base.{
  ℕ, zero, suc, ◌+◌, ◌-◌, ◌*◌, ◌≤◌, List, [], ◌∷◌, ◌++◌, Option, none, some, if◌then◌else◌, get_or,
  ◌===◌, nat_eq, ◌≡◌, ◌∙◌, sym, ap, arith,
}
use native.Mathlib.Nat.{suc-mul}
use block_listener.Base.Segments.{length, take, drop, take-drop, take_at, take_all}
use block_listener.Base.Task.{returns, Task}

pub record FindAllOptions (F : Type 0) : Type 0 where
  pub filter : F
  pub page : Option ℕ
  pub page_size : Option ℕ

pub record FindAllResponse (V : Type 0) : Type 0 where
  pub entities : List V
  pub page : ℕ
  pub page_size : ℕ
  pub total : ℕ

-- The models that a filter finds, all of them and after `skip` and `limit`, and their number.
pub record Collection (M F V : Type 0) : Type 0 where
  pub find : F → M → List V
  pub find_some : F → ℕ → ℕ → M → List V
  pub count_documents : F → M → ℕ
  -- `insertMany`, with the number that it has inserted
  pub insert_many : List V → Task M ℕ

abbrev pub default_page_size : ℕ
default_page_size = 500

module _ {M F V : Type 0} (c : Collection M F V) where
  abbrev pub some_page : F → ℕ → ℕ → M → FindAllResponse V
  some_page filter page page_size m = record {
    entities = c.find_some filter ((page - 1) * page_size) page_size m;
    page = page;
    page_size = page_size;
    total = c.count_documents filter m;
  }

  -- Page 0 is taken for no page.
  unfoldable pub find_all : FindAllOptions F → M → FindAllResponse V
  find_all options m =
      let page = get_or options.page 0 in
      let total = c.count_documents options.filter m in
      if page === 0
      then record { entities = c.find options.filter m; page = 1; page_size = total; total = total }
      else some_page options.filter page (get_or options.page_size default_page_size) m

  unfoldable pub save_many : List V → Task M ℕ
  save_many [] m = returns 0 m
  save_many (item ∷ items) m = c.insert_many (item ∷ items) m

  -- One order of what a filter finds, for every page of it; a limit of 0 is none. `findAll` asks for no
  -- order, and MongoDB documents none without one: this is more than it promises.
  pub record IsCursor : Type 0 where
    pub skip_limit :
        (f : F) (skip limit : ℕ) (m : M)
        → c.find_some f skip (suc limit) m ≡ take (suc limit) (drop skip (c.find f m))
    pub count : (f : F) (m : M) → c.count_documents f m ≡ length (c.find f m)

  -- The data of the pages from the first on, as many as are asked for.
  abbrev pub pages : F → ℕ → ℕ → M → List V
  pages f page_size zero m = []
  pages f page_size (suc k) m =
      pages f page_size k m
      ++ (find_all (record { filter = f; page = some (suc k); page_size = some page_size })
          m).entities

  abbrev pub page_options : F → ℕ → ℕ → FindAllOptions F
  page_options f n k = record { filter = f; page = some (suc k); page_size = some (suc n) }

  page_lem :
      IsCursor
      → (f : F) (n k : ℕ) (m : M)
      → (find_all (record { filter = f; page = some (suc k); page_size = some (suc n) }) m).entities
        ≡ take (suc n) (drop (k * suc n) (c.find f m))
  unfolding find_all
  page_lem cursor f n k m =
      let first : c.find_some f ((suc k - 1) * suc n) (suc n) m
          ≡ take (suc n) (drop (k * suc n) (c.find f m)) =
        cursor.skip_limit f ((suc k - 1) * suc n) n m
        ∙ ap (λ j. take (suc n) (drop (j * suc n) (c.find f m))) (omega arith) in
      ground (arith, first)

  pages_lem :
      IsCursor → (f : F) (n k : ℕ) (m : M) → pages f (suc n) k m ≡ take (k * suc n) (c.find f m)
  pages_lem cursor f n zero m = take_at 0 (0 * suc n) (c.find f m) (omega arith)
  pages_lem cursor f n (suc k) m =
      ap (λ l. l ++ (find_all (page_options f n k) m).entities) (pages_lem cursor f n k m)
      ∙ ap (λ l. take (k * suc n) (c.find f m) ++ l) (page_lem cursor f n k m)
      ∙ take-drop (k * suc n) (suc n) (c.find f m)
      ∙ take_at (k * suc n + suc n) (suc k * suc n) (c.find f m) (sym (suc-mul k (suc n)))

  -- The pages of one size, read one after the other, are what the filter finds, in its order, each
  -- entity once, if they are enough: as many pages as hold the total that every one of them gives.
  pub pages_complete :
      IsCursor
      → (f : F) (n k : ℕ) (m : M)
      → (find_all (record { filter = f; page = some 1; page_size = some (suc n) }) m).total
        ≤ k * suc n
      → pages f (suc n) k m
        ≡ (find_all (record { filter = f; page = none; page_size = none }) m).entities
  unfolding find_all
  pages_complete cursor f n k m enough =
      pages_lem cursor f n k m
      ∙ take_all (k * suc n) (c.find f m) (ground (arith, enough, cursor.count f m))
      ∙ ground arith

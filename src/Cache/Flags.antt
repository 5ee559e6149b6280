-- ===== src/Cache/Flags.antt =====
-- App/Services/FeatureFlagService.ts and Api/Http/Controllers/FeatureFlagController.ts
use Prim.Native.String.{◌++◌}
use block_listener.Base.{
  ℕ, String, Bool, true, Option, none, some, if◌then◌else◌, ltb, ◌≡◌, ◌===◌, string_eq, inl, inr,
  Bool-cases, arith,
}
use block_listener.Base.Task.{returns, Task, pure, ◌>>=◌, ◌>>◌}
use block_listener.Cache.{ICache}
use block_listener.Cache.Expiry.{Keeps}

pub data FeatureFlagStatus : Type 0 where
  enabled disabled undefined_flag : FeatureFlagStatus

abbrev pub flag_text : FeatureFlagStatus → String
flag_text FeatureFlagStatus.enabled = "1"
flag_text FeatureFlagStatus.disabled = "0"
flag_text FeatureFlagStatus.undefined_flag = "U"

unfoldable pub ff_cache_key : String → String
ff_cache_key flag = "ff_" ++ flag

-- `as_text` gives the text that a value is, if it is one.
module _ {D V : Type 0} (cache : ICache D V) (text_value : String → V)
    (as_text : V → Option String) where
  abbrev pub status_of_text : Option String → FeatureFlagStatus
  status_of_text none = FeatureFlagStatus.undefined_flag
  status_of_text (some value) =
      if value === flag_text FeatureFlagStatus.enabled
      then FeatureFlagStatus.enabled
      else if value === flag_text FeatureFlagStatus.disabled
      then FeatureFlagStatus.disabled
      else FeatureFlagStatus.undefined_flag

  abbrev pub status_of : Option V → FeatureFlagStatus
  status_of none = FeatureFlagStatus.undefined_flag
  status_of (some value) = status_of_text (as_text value)

  unfoldable pub get_flag : String → Task D FeatureFlagStatus
  unfolding ff_cache_key
  get_flag flag = do value ← cache.get (ff_cache_key flag); pure (status_of value)

  unfoldable pub set_flag : String → FeatureFlagStatus → Task D (Unit {0})
  unfolding ff_cache_key
  set_flag flag value = do
    cache.set (ff_cache_key flag) (text_value (flag_text value)) none
    pure tt

  abbrev pub requested : String → FeatureFlagStatus
  requested enable =
      if enable === "1" then FeatureFlagStatus.enabled else FeatureFlagStatus.disabled

  unfoldable pub set_feature_flag : String → String → Task D Bool
  unfolding set_flag
  set_feature_flag name enable = set_flag name (requested enable) >> pure true

  status_of_set :
      (status : FeatureFlagStatus)
      → as_text (text_value (flag_text status)) ≡ some (flag_text status)
      → status_of (some (text_value (flag_text status))) ≡ status
  status_of_set FeatureFlagStatus.enabled back = ground (arith, back)
  status_of_set FeatureFlagStatus.disabled back = ground (arith, back)
  status_of_set FeatureFlagStatus.undefined_flag back = ground (arith, back)

  -- The cache takes what is set.
  abbrev pub Takes : Type 0
  Takes =
      (key : String) (value : V) (ttl : Option ℕ) (s : D)
      → (t : D) × (cache.set key value ttl s ≡ returns true t)

  -- A flag that was set reads as it was set, for as long as the cache keeps an entry without a time
  -- of its own, and as undefined afterwards.
  pub get_flag-set_flag :
      (after : ℕ → D → D) (seconds : Option ℕ → ℕ) (Storable : V → Type 0)
      → Keeps cache after seconds Storable
      → Takes
      → ((u : FeatureFlagStatus)
          → Storable (text_value (flag_text u))
            × (as_text (text_value (flag_text u)) ≡ some (flag_text u)))
      → (flag : String) (status : FeatureFlagStatus) (elapsed : ℕ) (s : D)
      → (t : D) × (set_flag flag status s ≡ returns tt t)
        × (get_flag flag (after elapsed t)
            ≡ returns
                (if ltb elapsed (seconds none) then status else FeatureFlagStatus.undefined_flag)
                (after elapsed t))
  unfolding get_flag set_flag
  get_flag-set_flag after seconds Storable keeps takes texts flag status elapsed s =
      let (t, taken) = takes (ff_cache_key flag) (text_value (flag_text status)) none s in
      let (storable, back) = texts status in
      let hit =
        keeps (ff_cache_key flag) (text_value (flag_text status)) none elapsed s t storable taken in
      (
        t,
        ground (arith, taken),
        elim (Bool-cases (ltb elapsed (seconds none))) [
          | inl young ↦ ground (arith, hit, young, status_of_set status back)
          | inr old ↦ ground (arith, hit, old)
        ],
      )

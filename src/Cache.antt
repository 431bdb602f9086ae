-- ===== src/Cache.antt =====
-- The in-process cache with a time to live (src/lib/simple-cache.ts). Times are in milliseconds.
use mathlib.Core.Path.{subst}
use my_detail_os_backend.Prelude.{
  ℕ, ◌+◌, ◌≤◌, String, Option, none, some, ◌≡◌, arith, ltb, Dict, lookup, insert, erase,
  lookup-insert, lookup-erase, [], ap, sym, ◌∙◌, false, if◌then◌else◌,
}
use text.Mathlib.TextPositions.{eq_refl}

-- `CacheEntry`
pub record CacheEntry {ℓ} (V : Type ℓ) : Type ℓ where
  pub value : V
  pub expires_at : ℕ

-- `SimpleCache`: its entries, for a time to live that the operations take.
abbrev pub SimpleCache {ℓ} : Type ℓ → Type ℓ
SimpleCache V = Dict (CacheEntry V)

module _ {ℓ} {V : Type ℓ} where
  -- `get`, with the cache that it leaves
  unfoldable pub get_cached : ℕ → String → SimpleCache V → Option V × SimpleCache V
  get_cached now key store = elim (lookup key store) [
    | none ↦ (none, store)
    | some entry ↦
        if ltb entry.expires_at now then (none, erase key store) else (some entry.value, store)
  ]

  -- `set`
  unfoldable pub set_cached : ℕ → ℕ → String → V → SimpleCache V → SimpleCache V
  set_cached ttl now key value store =
      insert key (record { value = value; expires_at = now + ttl }) store

  -- `invalidate`
  unfoldable pub invalidate : String → SimpleCache V → SimpleCache V
  invalidate key store = erase key store

  -- `invalidateAll`
  abbrev pub invalidate_all : SimpleCache V
  invalidate_all = []

  -- `getOrLoad`: the loader ends at `loaded`, and leaves the cache as `get` did.
  unfoldable pub get_or_load : ℕ → ℕ → ℕ → String → V → SimpleCache V → V × SimpleCache V
  get_or_load ttl now loaded key loader store = elim (get_cached now key store).0 [
    | some value ↦ (value, (get_cached now key store).1)
    | none ↦ (loader, set_cached ttl loaded key loader (get_cached now key store).1)
  ]

  get_cached-hit :
      (now : ℕ) (key : String) (entry : CacheEntry V) (store : SimpleCache V)
      → lookup key store ≡ some entry
      → get_cached now key store
        ≡ (if ltb entry.expires_at now then (none, erase key store) else (some entry.value, store))
  unfolding get_cached
  get_cached-hit now key entry store e = rw (e, get_cached)

  -- A value that is set is what `get` gives for the time to live, the last millisecond included.
  pub get_cached-set :
      (ttl since now : ℕ) (key : String) (value : V) (store : SimpleCache V)
      → now ≤ since + ttl
      → (get_cached now key (set_cached ttl since key value store)).0 ≡ some value
  unfolding set_cached
  get_cached-set ttl since now key value store h =
      let entry : CacheEntry V = record { value = value; expires_at = since + ttl } in
      let found : lookup key (insert key entry store) ≡ some entry =
        rw (lookup-insert key key entry store, eq_refl key) in
      let live : ltb (since + ttl) now ≡ false = ground arith in
      ap (λ x. x.0) (get_cached-hit now key entry (insert key entry store) found) ∙ rw live

  get_or_load-hit :
      (ttl now loaded : ℕ) (key : String) (loader value : V) (store : SimpleCache V)
      → (get_cached now key store).0 ≡ some value
      → (get_or_load ttl now loaded key loader store).0 ≡ value
  unfolding get_or_load
  get_or_load-hit ttl now loaded key loader value store e = rw (e, get_or_load)

  get_or_load-miss :
      (ttl now loaded : ℕ) (key : String) (loader : V) (store : SimpleCache V)
      → (get_cached now key store).0 ≡ none
      → get_or_load ttl now loaded key loader store
        ≡ (loader, set_cached ttl loaded key loader (get_cached now key store).1)
  unfolding get_or_load
  get_or_load-miss ttl now loaded key loader store e = rw (e, get_or_load)

  -- A key that is not in the cache is loaded once: a second call within the time to live gives the
  -- value of the first, whatever its own loader would give.
  pub get_or_load_stable :
      (ttl now loaded later ended : ℕ) (key : String) (first second : V) (store : SimpleCache V)
      → lookup key store ≡ none
      → later ≤ loaded + ttl
      → (get_or_load ttl later ended key second (get_or_load ttl now loaded key first store).1).0
        ≡ first
  unfolding get_cached
  get_or_load_stable ttl now loaded later ended key first second store missing h =
      let miss : (get_cached now key store).0 ≡ none = rw (missing, get_cached) in
      subst (λ x. (get_or_load ttl later ended key second x.1).0 ≡ first)
        (sym (get_or_load-miss ttl now loaded key first store miss))
        (get_or_load-hit ttl later ended key second first _
          (get_cached-set ttl loaded later key first (get_cached now key store).1 h))

  -- Behind an invalidation, the next call gives what its own loader gives.
  pub get_or_load-invalidate :
      (ttl now loaded : ℕ) (key : String) (loader : V) (store : SimpleCache V)
      → (get_or_load ttl now loaded key loader (invalidate key store)).0 ≡ loader
  unfolding get_cached invalidate
  get_or_load-invalidate ttl now loaded key loader store =
      let gone : lookup key (erase key store) ≡ none =
        rw (lookup-erase key key store, eq_refl key) in
      let miss : (get_cached now key (erase key store)).0 ≡ none = rw (gone, get_cached) in
      ap (λ x. x.0) (get_or_load-miss ttl now loaded key loader (erase key store) miss)

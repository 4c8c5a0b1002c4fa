-- ===== src/LruCache.antt =====
-- `LruCache` of source/memhawk/src/impl/lru_cache.h, over any keys with a decidable equality.
--
-- The index is the sequence of the view by order, the least recently used entry first; the view by
-- key is a search in it. What the Boost container leaves undefined is `none`: `modify` of the first
-- entry of an empty container, and `Relocate` of an entry that `modify` has erased because its new
-- key belongs to another entry.
pub mod Entries
pub mod Behaviour
pub mod History
pub mod Contents
mod Tests
use mathlib.Core.Logic.{ite}
use mem_hawk.Prelude.{
  ℕ, List, [], ◌∷◌, ◌++◌, Option, none, some, Bool, true, false, leb, if◌then◌else◌, length,
}

pub record Cache {ℓ} (K V : Type ℓ) : Type ℓ where
  pub index : List (K × V)
  pub capacity : ℕ

abbrev pub empty_cache {ℓ} : {K V : Type ℓ} → ℕ → Cache K V
empty_cache capacity = record { index = []; capacity = capacity }

module _ {ℓ} {K V : Type ℓ} (dec : Discrete K) where
  -- `byKey.find`
  unfoldable pub find : K → List (K × V) → Option V
  find k [] = none
  find k ((j, v) ∷ l) = ite (dec j k) (some v) (find k l)

  unfoldable pub without : K → List (K × V) → List (K × V)
  without k [] = []
  without k ((j, v) ∷ l) = ite (dec j k) l ((j, v) ∷ without k l)

  -- `Relocate` of the entry with key `k` and value `v` to the end of the order.
  abbrev pub relocate : K → V → List (K × V) → List (K × V)
  relocate k v l = without k l ++ ((k, v) ∷ [])

  -- The branch of `Insert` for a full cache, which reuses the first entry.
  unfoldable pub replace_first : K → V → List (K × V) → ℕ → Option (Cache K V × Option K)
  replace_first k v [] capacity = none
  replace_first k v ((j, w) ∷ l) capacity = elim (find k l) [
    | some other ↦ none
    | none ↦ some (record { index = l ++ ((k, v) ∷ []); capacity = capacity }, some j)
  ]

  -- The cache and the evicted key. A key that is there keeps its value.
  unfoldable pub insert : K → V → Cache K V → Option (Cache K V × Option K)
  insert k v c =
      if leb c.capacity (length c.index)
      then replace_first k v c.index c.capacity
      else elim (find k c.index) [
        | some old ↦ some (record c { index = relocate k old c.index }, none)
        | none ↦ some (record c { index = c.index ++ ((k, v) ∷ []) }, none)
      ]

  unfoldable pub touch : K → Cache K V → Cache K V × Option V
  touch k c = elim (find k c.index) [
    | some v ↦ (record c { index = relocate k v c.index }, some v)
    | none ↦ (c, none)
  ]

  unfoldable pub erase : K → Cache K V → Cache K V × Bool
  erase k c = elim (find k c.index) [
    | some v ↦ (record c { index = without k c.index }, true)
    | none ↦ (c, false)
  ]

  unfoldable pub size : Cache K V → ℕ
  size c = length c.index

-- ===== src/Prelude/Maps.antt =====
-- Maps with numbers for keys, as association lists.
use Prim.Native.Nat.{ℕ}
use mathlib.Core.Path.{◌≡◌}
use mathlib.Core.List.{List, [], ◌∷◌}
use mathlib.Core.Option.{Option, none, some}
use native.Mathlib.Omega.{arith}
use mem_hawk.Prelude.Tests.{◌==◌, if◌then◌else◌}

module _ {ℓ} {V : Type ℓ} where
  unfoldable pub find? : ℕ → List (ℕ × V) → Option V
  find? k [] = none
  find? k ((j, v) ∷ m) = if j == k then some v else find? k m

  -- `insert` of the source's maps: a key that is there keeps its value.
  unfoldable pub insert : ℕ → V → List (ℕ × V) → List (ℕ × V)
  insert k v m = elim (find? k m) [ none ↦ (k, v) ∷ m | some w ↦ m ]

  -- A new value for a key that is there.
  unfoldable pub update : ℕ → V → List (ℕ × V) → List (ℕ × V)
  update k v [] = []
  update k v ((j, w) ∷ m) = if j == k then (k, v) ∷ m else (j, w) ∷ update k v m

  pub find?-insert :
      (k j : ℕ) (v : V) (m : List (ℕ × V))
      → find? k m ≡ none
      → find? j (insert k v m) ≡ (if k == j then some v else find? j m)
  unfolding find? insert
  find?-insert k j v m h = ground arith

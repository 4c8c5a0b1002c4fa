-- ===== src/LruCache/Entries.antt =====
-- Searches in, and removals from, the index of source/memhawk/src/impl/lru_cache.h.
use mathlib.Core.Logic.{if_pos, if_neg}
use mem_hawk.Prelude.{
  ◌+◌, ◌≡◌, ◌≢◌, refl, ◌∙◌, arith, List, [], ◌∷◌, ◌++◌, none, some, length, Option-cases, inl, inr,
}
use mem_hawk.LruCache.{find, without}

module _ {ℓ} {K V : Type ℓ} (dec : Discrete K) where
  -- No key stands twice.
  abbrev pub Distinct : List (K × V) → Type ℓ
  Distinct [] = Unit
  Distinct ((j, v) ∷ l) = (find dec j l ≡ none) × Distinct l

  pub find-append_some :
      (k : K) (xs ys : List (K × V)) (v : V)
      → find dec k xs ≡ some v
      → find dec k (xs ++ ys) ≡ some v
  unfolding find
  find-append_some k [] ys v h = absurd (cc)
  find-append_some k ((j, w) ∷ xs) ys v h = ground (arith, find-append_some k xs ys v)

  pub find-append_none :
      (k : K) (xs ys : List (K × V)) → find dec k xs ≡ none → find dec k (xs ++ ys) ≡ find dec k ys
  unfolding find
  find-append_none k [] ys h = refl
  find-append_none k ((j, w) ∷ xs) ys h = ground (arith, find-append_none k xs ys)

  pub without_absent : (k : K) (l : List (K × V)) → find dec k l ≡ none → without dec k l ≡ l
  unfolding find without
  without_absent k [] h = refl
  without_absent k ((j, w) ∷ l) h = ground (arith, without_absent k l)

  pub without-append :
      (k : K) (xs ys : List (K × V))
      → find dec k xs ≡ none
      → without dec k (xs ++ ys) ≡ xs ++ without dec k ys
  unfolding find without
  without-append k [] ys h = refl
  without-append k ((j, w) ∷ xs) ys h = ground (arith, without-append k xs ys)

  pub without-append_absent :
      (k : K) (xs ys : List (K × V))
      → find dec k ys ≡ none
      → without dec k (xs ++ ys) ≡ without dec k xs ++ ys
  unfolding find without
  without-append_absent k [] ys h = without_absent k ys h
  without-append_absent k ((j, w) ∷ xs) ys h = ground (arith, without-append_absent k xs ys)

  pub find-without_ne :
      (k q : K) (l : List (K × V)) → q ≢ k → find dec q (without dec k l) ≡ find dec q l
  unfolding find without
  find-without_ne k q [] h = refl
  find-without_ne k q ((j, w) ∷ l) h = ground (arith, find-without_ne k q l)

  pub find-without_self :
      (k : K) (l : List (K × V)) → Distinct l → find dec k (without dec k l) ≡ none
  unfolding find without
  find-without_self k [] d = refl
  find-without_self k ((j, w) ∷ l) d = elim (dec j k) [
    | yes p ↦ ground arith
    | no p ↦ ground (arith, find-without_self k l d.1)
  ]

  pub length-without :
      (k : K) (l : List (K × V)) (v : V)
      → find dec k l ≡ some v
      → length (without dec k l) + 1 ≡ length l
  unfolding find without
  length-without k [] v h = absurd (cc)
  length-without k ((j, w) ∷ l) v h = ground (arith, length-without k l v)

  pub Distinct-without : (k : K) (l : List (K × V)) → Distinct l → Distinct (without dec k l)
  unfolding find without
  Distinct-without k [] d = tt
  Distinct-without k ((j, w) ∷ l) d = elim (dec j k) [
    | yes p ↦ rw (if_pos (dec j k) p) d.1
    | no p ↦ rw (if_neg (dec j k) p) (find-without_ne k j l p ∙ d.0, Distinct-without k l d.1)
  ]

  pub Distinct-append_last :
      (k : K) (v : V) (l : List (K × V))
      → Distinct l
      → find dec k l ≡ none
      → Distinct (l ++ ((k, v) ∷ []))
  unfolding find
  Distinct-append_last k v [] d h = (refl, tt)
  Distinct-append_last k v ((j, w) ∷ l) d h = (
    find-append_none j l ((k, v) ∷ []) d.0 ∙ ground arith,
    Distinct-append_last k v l d.1 (ground arith),
  )

  -- In a distinct row a key of the second part is not in the first.
  pub Distinct-append_apart :
      (k : K) (xs ys : List (K × V)) (v : V)
      → Distinct (xs ++ ys)
      → find dec k ys ≡ some v
      → find dec k xs ≡ none
  unfolding find
  Distinct-append_apart k [] ys v d h = refl
  Distinct-append_apart k ((j, w) ∷ xs) ys v d h = elim (dec j k) [
    | yes p ↦ elim (Option-cases (find dec k xs)) [
      | inl other ↦ absurd (cc (find-append_none k xs ys other, d.0))
      | inr (u, same) ↦ absurd (cc (find-append_some k xs ys u same, d.0))
    ]
    | no p ↦ ground (arith, Distinct-append_apart k xs ys v d.1 h)
  ]

  pub Distinct-append_right : (xs ys : List (K × V)) → Distinct (xs ++ ys) → Distinct ys
  Distinct-append_right [] ys d = d
  Distinct-append_right (x ∷ xs) ys d = Distinct-append_right xs ys d.1

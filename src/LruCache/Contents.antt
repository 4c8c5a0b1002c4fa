-- ===== src/LruCache/Contents.antt =====
-- What is true of every entry stays true under `Touch`, and under `Insert` of a key that is not there
-- (source/memhawk/src/impl/lru_cache.h).
use mathlib.Core.Logic.{if_neg}
use mem_hawk.Prelude.{
  ℕ, ◌≤◌, ◌<◌, ◌≡◌, sym, subst, ◌∙◌, arith, List, [], ◌∷◌, ◌++◌, Option, none, some, length,
  Option-cases, Bool-cases, inl, inr, length-append, ltb,
}
use mem_hawk.LruCache.{Cache, find, without, relocate, insert, touch}
use mem_hawk.LruCache.Entries.{
  find-append_some, find-append_none, find-without_ne, find-without_self, length-without,
  Distinct-append_last,
}
use mem_hawk.LruCache.Behaviour.{IsCache, insert_full, insert_not_full, use_key-Distinct}

module _ {ℓ} {K V : Type ℓ} (dec : Discrete K) (P : K → V → Type ℓ) where
  abbrev pub AllHold : List (K × V) → Type ℓ
  AllHold l = (q : K) (w : V) → find dec q l ≡ some w → P q w

  AllHold-append_last :
      (k : K) (v : V) (l : List (K × V)) → P k v → AllHold l → AllHold (l ++ ((k, v) ∷ []))
  unfolding find
  AllHold-append_last k v l p h q w e = elim (Option-cases (find dec q l)) [
    | inl new ↦ elim (dec k q) [
      | yes same ↦
          let value : v ≡ w = ground (arith, find-append_none dec q l ((k, v) ∷ []) new) in
          subst (λ u. P q u) value (subst (λ u. P u v) same p)
      | no other ↦ absurd (ground (arith, find-append_none dec q l ((k, v) ∷ []) new))
    ]
    | inr (u, old) ↦ h q w (old ∙ (sym (find-append_some dec q l ((k, v) ∷ []) u old) ∙ e))
  ]

  pub touch_hit-AllHold :
      (k : K) (v : V) (c : Cache K V)
      → IsCache dec c
      → AllHold c.index
      → find dec k c.index ≡ some v
      → (c' : Cache K V) × (touch dec k c ≡ (c', some v)) × IsCache dec c' × AllHold c'.index
  unfolding touch
  touch_hit-AllHold k v c i h hit = (
    record c { index = relocate dec k v c.index },
    ground (arith, hit),
    record {
      positive = i.positive;
      bounded = omega (
        arith,
        i.bounded,
        length-append (without dec k c.index) ((k, v) ∷ []),
        length-without dec k c.index v hit,
      );
      distinct = use_key-Distinct dec k v c.index i.distinct;
    },
    AllHold-append_last k v (without dec k c.index) (h k v hit) kept,
  )
    where
      kept : AllHold (without dec k c.index)
      kept q w e = elim (dec q k) [
        | yes p ↦ absurd (cc (find-without_self dec k c.index i.distinct, p, e))
        | no p ↦ h q w (sym (find-without_ne dec k q c.index p) ∙ e)
      ]

  evict_first-AllHold :
      (k : K) (v : V) (l : List (K × V)) (capacity : ℕ)
      → IsCache dec (record { index = l; capacity = capacity })
      → AllHold l
      → P k v
      → find dec k l ≡ none
      → capacity ≤ length l
      → (c' : Cache K V) × (evicted : Option K) × (insert dec k v
            (record { index = l; capacity = capacity })
          ≡ some (c', evicted))
        × IsCache dec c'
        × AllHold c'.index
  unfolding find
  evict_first-AllHold k v [] capacity i h p miss full = absurd (omega (arith, i.positive))
  evict_first-AllHold k v ((j, w) ∷ rest) capacity i h p miss full = (
    record { index = rest ++ ((k, v) ∷ []); capacity = capacity },
    some j,
    insert_full dec k v j w rest capacity full miss_rest,
    record {
      positive = i.positive;
      bounded = omega (arith, i.bounded, length-append rest ((k, v) ∷ []));
      distinct = Distinct-append_last dec k v rest i.distinct.1 miss_rest;
    },
    AllHold-append_last k v rest p kept,
  )
    where
      miss_rest : find dec k rest ≡ none
      miss_rest = ground arith

      kept : AllHold rest
      kept q u e = elim (dec j q) [
        | yes s ↦ absurd (cc (i.distinct.0, s, e))
        | no s ↦ h q u (rw (if_neg (dec j q) s) e)
      ]

  pub insert_new-AllHold :
      (k : K) (v : V) (c : Cache K V)
      → IsCache dec c
      → AllHold c.index
      → P k v
      → find dec k c.index ≡ none
      → (c' : Cache K V) × (evicted : Option K) × (insert dec k v c ≡ some (c', evicted))
        × IsCache dec c'
        × AllHold c'.index
  insert_new-AllHold k v c i h p miss = elim (Bool-cases (ltb (length c.index) c.capacity)) [
    | inl room ↦ (
      record c { index = c.index ++ ((k, v) ∷ []) },
      none,
      insert_not_full dec k v c (ground arith) miss,
      record {
        positive = i.positive;
        bounded = fits (ground arith);
        distinct = Distinct-append_last dec k v c.index i.distinct miss;
      },
      AllHold-append_last k v c.index p h,
    )
    | inr full ↦ evict_first-AllHold k v c.index c.capacity i h p miss (ground arith)
  ]
    where
      fits : length c.index < c.capacity → length (c.index ++ ((k, v) ∷ [])) ≤ c.capacity
      fits room = omega (arith, length-append c.index ((k, v) ∷ []))

module _ {ℓ} {K V : Type ℓ} (dec : Discrete K) where
  pub touch_miss : (k : K) (c : Cache K V) → find dec k c.index ≡ none → touch dec k c ≡ (c, none)
  unfolding touch
  touch_miss k c miss = ground (arith, miss)

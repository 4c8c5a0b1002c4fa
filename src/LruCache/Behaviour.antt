-- ===== src/LruCache/Behaviour.antt =====
-- What the operations of source/memhawk/src/impl/lru_cache.h do, and the cache against the whole
-- history of its use.
use mem_hawk.Prelude.{
  ℕ, ◌≤◌, ◌<◌, ◌≡◌, ◌⊎◌, refl, sym, ◌∙◌, ap, subst, arith, List, [], ◌∷◌, ◌++◌, Option, none, some,
  length, Option-cases, inl, inr, length-append,
}
use mathlib.Core.List.{append_assoc}
use mem_hawk.LruCache.{Cache, find, without, relocate, replace_first, insert, touch}
use mem_hawk.LruCache.Entries.{
  Distinct, find-append_some, find-append_none, without-append, find-without_ne, find-without_self,
  length-without, Distinct-without, Distinct-append_last, Distinct-append_apart,
}

-- `Touch`, and `Insert` of a computed value on a miss: the use that `SaveTraceId` makes of the cache.
-- The cache after it, and the value that is then known for the key.
unfoldable pub access {ℓ} :
    {K V : Type ℓ} (dec : Discrete K) → K → V → Cache K V → Option (Cache K V × V)
access dec k v c =
    let (c', hit) = touch dec k c in
    elim hit [
      | some w ↦ some (c', w)
      | none ↦ elim (insert dec k v c') [ none ↦ none | some (c'', evicted) ↦ some (c'', v) ]
    ]

module _ {ℓ} {K V : Type ℓ} (dec : Discrete K) where
  pub record IsCache (c : Cache K V) : Type ℓ where
    pub positive : 0 < c.capacity
    pub bounded : length c.index ≤ c.capacity
    pub distinct : Distinct dec c.index

  pub insert_full :
      (k : K) (v : V) (j : K) (w : V) (rest : List (K × V)) (capacity : ℕ)
      → capacity ≤ length ((j, w) ∷ rest)
      → find dec k rest ≡ none
      → insert dec k v (record { index = (j, w) ∷ rest; capacity = capacity })
        ≡ some (record { index = rest ++ ((k, v) ∷ []); capacity = capacity }, some j)
  unfolding insert replace_first
  insert_full k v j w rest capacity full new = ground arith

  pub insert_not_full :
      (k : K) (v : V) (c : Cache K V)
      → length c.index < c.capacity
      → find dec k c.index ≡ none
      → insert dec k v c ≡ some (record c { index = c.index ++ ((k, v) ∷ []) }, none)
  unfolding insert
  insert_not_full k v c room new = ground arith

  -- A key that is used moves to the end of the history.
  abbrev pub use_key : K → V → List (K × V) → List (K × V)
  use_key k v history = without dec k history ++ ((k, v) ∷ [])

  -- The cache is the end of the history, as much as fits, and its values are those of `f`.
  pub record Follows (f : K → V) (history : List (K × V)) (c : Cache K V) : Type ℓ where
    pub older : List (K × V)
    pub split : history ≡ older ++ c.index
    pub filled : (older ≡ []) ⊎ (length c.index ≡ c.capacity)
    pub history_distinct : Distinct dec history
    pub values : (k : K) (w : V) → find dec k c.index ≡ some w → w ≡ f k

  pub use_key-Distinct :
      (k : K) (v : V) (history : List (K × V))
      → Distinct dec history
      → Distinct dec (use_key k v history)
  use_key-Distinct k v history d =
      Distinct-append_last dec k v (without dec k history) (Distinct-without dec k history d)
        (find-without_self dec k history d)

  -- What `access` leaves.
  pub record IsAccessed (f : K → V) (k : K) (history : List (K × V)) (c : Cache K V) : Type ℓ where
    pub out : Cache K V
    pub returns : access dec k (f k) c ≡ some (out, f k)
    pub cache : IsCache out
    pub follows : Follows f (use_key k (f k) history) out
    pub same_capacity : out.capacity ≡ c.capacity

  pub values-append_last :
      (f : K → V) (k : K) (l : List (K × V))
      → ((q : K) (w : V) → find dec q l ≡ some w → w ≡ f q)
      → (q : K) (w : V) → find dec q (l ++ ((k, f k) ∷ [])) ≡ some w
      → w ≡ f q
  unfolding find
  values-append_last f k l h q w e = elim (Option-cases (find dec q l)) [
    | inl new ↦ ground (arith, find-append_none dec q l ((k, f k) ∷ []))
    | inr (u, old) ↦ ground (arith, find-append_some dec q l ((k, f k) ∷ []) u, h q u)
  ]

  pub access_hit :
      (f : K → V) (k : K) (history : List (K × V)) (c : Cache K V)
      → IsCache c
      → Follows f history c
      → find dec k c.index ≡ some (f k)
      → IsAccessed f k history c
  unfolding access touch
  access_hit f k history c v h hit = record {
    out = record c { index = relocate dec k (f k) c.index };
    returns = ground (arith, hit);
    cache = record {
      positive = v.positive;
      bounded = omega (arith, size);
      distinct = use_key-Distinct k (f k) c.index v.distinct;
    };
    follows = record {
      older = h.older;
      split =
          ap (λ (l : List (K × V)). l ++ ((k, f k) ∷ []))
            (ap (without dec k) h.split ∙ without-append dec k h.older c.index apart)
          ∙ append_assoc h.older (without dec k c.index) ((k, f k) ∷ []);
      filled = ground (arith, h.filled, size);
      history_distinct = use_key-Distinct k (f k) history h.history_distinct;
      values = values-append_last f k (without dec k c.index) kept;
    };
    same_capacity = refl;
  }
    where
      size : length (without dec k c.index ++ ((k, f k) ∷ [])) ≡ length c.index
      size = omega (
        arith,
        length-append (without dec k c.index) ((k, f k) ∷ []),
        length-without dec k c.index (f k) hit,
      )

      apart : find dec k h.older ≡ none
      apart =
          Distinct-append_apart dec k h.older c.index (f k)
            (subst (Distinct dec) h.split h.history_distinct) hit

      kept : (q : K) (w : V) → find dec q (without dec k c.index) ≡ some w → w ≡ f q
      kept q w e = elim (dec q k) [
        | yes p ↦ absurd (cc (find-without_self dec k c.index v.distinct, p, e))
        | no p ↦ h.values q w (sym (find-without_ne dec k q c.index p) ∙ e)
      ]

-- ===== src/LruCache/History.antt =====
-- The cache of source/memhawk/src/impl/lru_cache.h holds the most recently used keys.
use mem_hawk.Prelude.{
  ℕ, ◌+◌, ◌≤◌, ◌<◌, ◌≡◌, ◌⊎◌, ◌↔◌, refl, ◌∙◌, ap, arith, List, [], ◌∷◌, ◌++◌, Option, none, some,
  length, map, Option-cases, Bool-cases, inl, inr, length-append, ltb,
}
use mathlib.Core.Logic.{if_neg}
use mathlib.Core.List.{append_assoc}
use mem_hawk.LruCache.{Cache, empty_cache, find, without, insert, replace_first, touch}
use mem_hawk.LruCache.Entries.{without_absent, without-append_absent, Distinct-append_last}
use mem_hawk.LruCache.Behaviour.{
  access, IsCache, Follows, IsAccessed, use_key, insert_full, insert_not_full, use_key-Distinct,
  values-append_last, access_hit,
}

module _ {ℓ} {K V : Type ℓ} (dec : Discrete K) where
  access_new :
      (f : K → V) (k : K) (history : List (K × V)) (c : Cache K V)
      → IsCache dec c
      → Follows dec f history c
      → find dec k c.index ≡ none
      → length c.index < c.capacity
      → IsAccessed dec f k history c
  unfolding access touch
  access_new f k history c v h miss room = record {
    out = record c { index = c.index ++ ((k, f k) ∷ []) };
    returns = ground (arith, miss, insert_not_full dec k (f k) c room miss);
    cache = record {
      positive = v.positive;
      bounded = omega (arith, length-append c.index ((k, f k) ∷ []));
      distinct = Distinct-append_last dec k (f k) c.index v.distinct miss;
    };
    follows = record {
      older = [];
      split =
          ap (λ (l : List (K × V)). l ++ ((k, f k) ∷ []))
            (ap (without dec k) whole ∙ without_absent dec k c.index miss);
      filled = inl refl;
      history_distinct = use_key-Distinct dec k (f k) history h.history_distinct;
      values = values-append_last dec f k c.index h.values;
    };
    same_capacity = refl;
  }
    where
      none_older : h.older ≡ []
      none_older = ground (arith, h.filled)

      whole : history ≡ c.index
      whole = h.split ∙ ap (λ (l : List (K × V)). l ++ c.index) none_older

  access_evict :
      (f : K → V) (k j : K) (w : V) (rest : List (K × V)) (capacity : ℕ) (history : List (K × V))
      → IsCache dec (record { index = (j, w) ∷ rest; capacity = capacity })
      → Follows dec f history (record { index = (j, w) ∷ rest; capacity = capacity })
      → find dec k ((j, w) ∷ rest) ≡ none
      → capacity ≤ length ((j, w) ∷ rest)
      → IsAccessed dec f k history (record { index = (j, w) ∷ rest; capacity = capacity })
  unfolding access touch find
  access_evict f k j w rest capacity history v h miss full = record {
    out = record { index = rest ++ ((k, f k) ∷ []); capacity = capacity };
    returns = ground (arith, miss, insert_full dec k (f k) j w rest capacity full miss_rest);
    cache = record {
      positive = v.positive;
      bounded = omega (arith, size, v.bounded);
      distinct = Distinct-append_last dec k (f k) rest v.distinct.1 miss_rest;
    };
    follows = record {
      older = without dec k h.older ++ ((j, w) ∷ []);
      split =
          ap (λ (l : List (K × V)). l ++ ((k, f k) ∷ []))
            (ap (without dec k) h.split ∙ without-append_absent dec k h.older ((j, w) ∷ rest) miss)
          ∙ regroup (without dec k h.older);
      filled = inr (omega (arith, size, v.bounded));
      history_distinct = use_key-Distinct dec k (f k) history h.history_distinct;
      values = values-append_last dec f k rest kept;
    };
    same_capacity = refl;
  }
    where
      miss_rest : find dec k rest ≡ none
      miss_rest = ground arith

      size : length (rest ++ ((k, f k) ∷ [])) ≡ length rest + 1
      size = omega (arith, length-append rest ((k, f k) ∷ []))

      regroup :
          (o : List (K × V))
          → (o ++ ((j, w) ∷ rest)) ++ ((k, f k) ∷ [])
            ≡ (o ++ ((j, w) ∷ [])) ++ (rest ++ ((k, f k) ∷ []))
      regroup o = simp append_assoc

      kept : (q : K) (u : V) → find dec q rest ≡ some u → u ≡ f q
      kept q u e = elim (dec j q) [
        | yes p ↦ absurd (cc (v.distinct.0, p, e))
        | no p ↦ h.values q u (rw (if_neg (dec j q) p) e)
      ]

  access_full :
      (f : K → V) (k : K) (history : List (K × V)) (l : List (K × V)) (capacity : ℕ)
      → IsCache dec (record { index = l; capacity = capacity })
      → Follows dec f history (record { index = l; capacity = capacity })
      → find dec k l ≡ none
      → capacity ≤ length l
      → IsAccessed dec f k history (record { index = l; capacity = capacity })
  access_full f k history [] capacity v h miss full = absurd (omega (arith, v.positive))
  access_full f k history ((j, w) ∷ rest) capacity v h miss full =
      access_evict f k j w rest capacity history v h miss full

  -- On a cache with room for an entry, `Touch` and `Insert` on a miss never fault, return the
  -- key's value, and keep the cache the end of the history.
  pub access-IsAccessed :
      (f : K → V) (k : K) (history : List (K × V)) (c : Cache K V)
      → IsCache dec c
      → Follows dec f history c
      → IsAccessed dec f k history c
  access-IsAccessed f k history c v h = elim (Option-cases (find dec k c.index)) [
    | inl miss ↦ elim (Bool-cases (ltb (length c.index) c.capacity)) [
      | inl room ↦ access_new f k history c v h miss (ground arith)
      | inr full ↦ access_full f k history c.index c.capacity v h miss (ground arith)
    ]
    | inr (w, hit) ↦ access_hit dec f k history c v h (hit ∙ ap some (h.values k w hit))
  ]

  -- A sequence of uses, with the values that they return.
  unfoldable pub run : (K → V) → List K → Cache K V → Option (Cache K V × List V)
  run f [] c = some (c, [])
  run f (k ∷ ks) c = elim (access dec k (f k) c) [
    | none ↦ none
    | some (c', w) ↦ elim (run f ks c') [ none ↦ none | some (c'', ws) ↦ some (c'', w ∷ ws) ]
  ]

  abbrev pub history_of : (K → V) → List K → List (K × V) → List (K × V)
  history_of f [] history = history
  history_of f (k ∷ ks) history = history_of f ks (use_key dec k (f k) history)

  run-Follows :
      (f : K → V) (ks : List K) (history : List (K × V)) (c : Cache K V)
      → IsCache dec c
      → Follows dec f history c
      → (out : Cache K V) × (run f ks c ≡ some (out, map f ks))
        × IsCache dec out
        × Follows dec f (history_of f ks history) out
        × (out.capacity ≡ c.capacity)
  unfolding run
  run-Follows f [] history c v h = (c, refl, v, h, refl)
  run-Follows f (k ∷ ks) history c v h =
      let a = access-IsAccessed f k history c v h in
      let (out, returns, cache, follows, same) =
        run-Follows f ks (use_key dec k (f k) history) a.out a.cache a.follows in
      (out, ground (arith, a.returns, returns), cache, follows, same ∙ a.same_capacity)

  -- From an empty cache with room for `n` entries, every sequence of uses succeeds and returns the
  -- keys' values, and then the cache holds the `n` most recently used keys, or all of them if they
  -- are fewer, in the order of their last use.
  pub run-history_of :
      (f : K → V) (ks : List K) (n : ℕ)
      → 0 < n
      → (out : Cache K V) × (run f ks (empty_cache n) ≡ some (out, map f ks))
        × (length out.index ≤ n)
        × ((older : List (K × V)) × (history_of f ks [] ≡ older ++ out.index)
            × ((older ≡ []) ⊎ (length out.index ≡ n)))
  unfolding find
  run-history_of f ks n pos =
      let start : Follows dec f [] (empty_cache n) = record {
        older = [];
        split = refl;
        filled = inl refl;
        history_distinct = tt;
        values = λ k w e. absurd (cc);
      } in
      let empty : IsCache dec (empty_cache n) = record {
        positive = pos;
        bounded = omega arith;
        distinct = tt;
      } in
      let (out, returns, cache, follows, same) = run-Follows f ks [] (empty_cache n) empty start in
      (
        out,
        returns,
        omega (arith, cache.bounded),
        (follows.older, follows.split, ground (arith, follows.filled, same)),
      )

  -- A cache with no room for an entry faults at its first use, whatever the key: `Insert` then takes
  -- the first of no entries.
  pub access-empty_cache :
      (k : K) (v : V) (n : ℕ) → (access dec k v (empty_cache n) ≡ none) ↔ (n ≡ 0)
  unfolding access touch insert replace_first find
  access-empty_cache k v n = ground arith

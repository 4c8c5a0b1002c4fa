-- ===== src/Stacktrace/Unwinding.antt =====
-- The constructor of `Stacktrace`, `Unwind` and `UnwindStacktrace` in
-- source/memhawk/src/impl/stacktrace.cpp.
use mem_hawk.Prelude.{
  ℕ, zero, suc, ◌+◌, ◌-◌, ◌≤◌, ◌≡◌, ◌≢◌, true, false, subst, refl, sym, ap, ◌∙◌, List, ◌++◌, Option,
  none, some, Option-cases, Bool-cases, inl, inr, min, ltb, ◌==◌, length, take, drop, arith,
  length-take, length-drop, length-append, get_or-take, get_or-drop, take-min, take-append_all,
}
use mem_hawk.Collapse.{max_unwind_depth, at}
use mem_hawk.Stacktrace.{
  Stacktrace, get_trace, new_stacktrace, drop_nulls, unwind_stacktrace, unwind,
}
use mem_hawk.Stacktrace.Views.{IsStacktrace, get_trace_lem, length-get_trace}

-- A trace made of given frames, over an array of 64 frames that was not initialised, is in order and
-- in range, and its frames are the first 64 of those given.
pub get_trace-new_stacktrace :
    (fresh frames : List ℕ)
    → length fresh ≡ max_unwind_depth
    → IsStacktrace (new_stacktrace fresh frames)
      × (get_trace (new_stacktrace fresh frames) ≡ take max_unwind_depth frames)
unfolding new_stacktrace
get_trace-new_stacktrace fresh frames full =
    let n = min max_unwind_depth (length frames) in
    let used : length (take n frames) ≡ n = omega (arith, length-take n frames) in
    let i : IsStacktrace (new_stacktrace fresh frames) = record {
      ordered = omega arith;
      bounded = omega arith;
      full =
          omega
            (arith, length-append (take n frames) (drop n fresh), used, length-drop n fresh, full);
    } in
    let z : n - 0 ≡ n = omega arith in
    (
      i,
      get_trace_lem (new_stacktrace fresh frames) i
          ∙ (ap (λ k. take k (take n frames ++ drop n fresh)) (z ∙ sym used)
              ∙ (take-append_all (take n frames) (drop n fresh)
                  ∙ take-min max_unwind_depth frames)),
    )

drop_nulls-le : (cells : List ℕ) (n : ℕ) → drop_nulls cells n ≤ n
unfolding drop_nulls
drop_nulls-le cells zero = omega arith
drop_nulls-le cells (suc n) = let rest = drop_nulls-le cells n in ground arith

drop_nulls_null :
    (cells : List ℕ) (n : ℕ)
    → (at cells n == 0) ≡ true
    → drop_nulls cells (suc n) ≡ drop_nulls cells n
unfolding drop_nulls
drop_nulls_null cells n e = rw e refl

drop_nulls_kept :
    (cells : List ℕ) (n : ℕ) → (at cells n == 0) ≡ false → drop_nulls cells (suc n) ≡ suc n
unfolding drop_nulls
drop_nulls_kept cells n e = rw e refl

drop_nulls_last : (cells : List ℕ) (n m : ℕ) → drop_nulls cells n ≡ suc m → at cells m ≢ 0
drop_nulls_last cells zero m h = absurd (nothing h)
  where
    nothing : drop_nulls cells 0 ≡ suc m → ⊥
    nothing e = omega (arith, drop_nulls-le cells 0)
drop_nulls_last cells (suc n) m h = elim (Bool-cases (at cells n == 0)) [
  | inl e ↦ drop_nulls_last cells n m (sym (drop_nulls_null cells n e) ∙ h)
  | inr e ↦
      let same : n ≡ m = omega (arith, drop_nulls_kept cells n e, h) in
      λ z. not_null (ap (at cells) same ∙ z) e
]
  where
    not_null : {x : ℕ} → x ≡ 0 → (x == 0) ≡ false → ⊥
    not_null z e = ground (arith, e)

-- The trace that `UnwindStacktrace` leaves where the result reaches behind the frames to skip.
module _ (cells : List ℕ) (n skip : ℕ) (full : length cells ≡ max_unwind_depth)
    (bound : n ≤ max_unwind_depth) (deep : skip ≤ drop_nulls cells n) where
  abbrev unwound : Stacktrace
  unwound = record { size = drop_nulls cells n; skip = skip; cells = cells }

  unwound-IsStacktrace : IsStacktrace unwound
  unwound-IsStacktrace = record {
    ordered = deep;
    bounded = omega (arith, drop_nulls-le cells n);
    full = full;
  }

  unwound_last : (m : ℕ) → length (get_trace unwound) ≡ suc m → at (get_trace unwound) m ≢ 0
  unwound_last m h =
      let size : drop_nulls cells n ≡ suc (skip + m) =
        omega (arith, length-get_trace unwound unwound-IsStacktrace, h) in
      λ z. drop_nulls_last cells n (skip + m) size (
        sym (get_or-drop skip cells m 0)
        ∙ (sym (get_or-take (drop_nulls cells n - skip) (drop skip cells) m 0 (omega arith))
            ∙ (ap (λ t. at t m) (sym (get_trace_lem unwound unwound-IsStacktrace)) ∙ z)))

module _ (unwinder : ℕ → List ℕ → List ℕ × Option ℕ)
    (length-unwinder : (n : ℕ) (cells : List ℕ)
      → n ≤ length cells
      → length (unwinder n cells).0 ≡ length cells)
    (unwinder_bound : (n k : ℕ) (cells : List ℕ) → (unwinder n cells).1 ≡ some k → k ≤ n)
    (fresh : List ℕ) (full : length fresh ≡ max_unwind_depth) (capacity skip : ℕ) where
  IsUnwound : Stacktrace → Type 0
  IsUnwound s =
      IsStacktrace s
      × (length (get_trace s) ≤ capacity)
      × ((m : ℕ) → length (get_trace s) ≡ suc m → at (get_trace s) m ≢ 0)

  abbrev cells : List ℕ
  cells = (unwinder (min capacity max_unwind_depth) fresh).0

  failed :
      (unwinder (min capacity max_unwind_depth) fresh).1 ≡ none
      → unwind unwinder fresh capacity skip ≡ record { size = 0; skip = 0; cells = cells }
  unfolding unwind unwind_stacktrace
  failed h = rw (unwind_stacktrace, h) refl

  short :
      (k : ℕ)
      → (unwinder (min capacity max_unwind_depth) fresh).1 ≡ some k
      → ltb (drop_nulls cells k) skip ≡ true
      → unwind unwinder fresh capacity skip ≡ record { size = 0; skip = 0; cells = cells }
  unfolding unwind unwind_stacktrace
  short k h e = rw (unwind_stacktrace, h, e) refl

  reached :
      (k : ℕ)
      → (unwinder (min capacity max_unwind_depth) fresh).1 ≡ some k
      → ltb (drop_nulls cells k) skip ≡ false
      → unwind unwinder fresh capacity skip
        ≡ record { size = drop_nulls cells k; skip = skip; cells = cells }
  unfolding unwind unwind_stacktrace
  reached k h e = rw (unwind_stacktrace, h, e) refl

  empty-IsUnwound :
      (xs : List ℕ)
      → length xs ≡ max_unwind_depth
      → IsUnwound (record { size = 0; skip = 0; cells = xs })
  unfolding IsUnwound
  empty-IsUnwound xs h =
      let s : Stacktrace = record { size = 0; skip = 0; cells = xs } in
      let i : IsStacktrace s = record { ordered = omega arith; bounded = omega arith; full = h } in
      (
        i,
        omega (arith, length-get_trace s i),
        λ m e. absurd (omega (arith, length-get_trace s i, e)),
      )

  -- Where an unwinder writes into the array only and returns an error or at most as many frames as
  -- it was given, `Unwind` into an array of 64 frames gives a trace that is in order and in range,
  -- has at most `capacity` frames, and does not end with a null frame.
  pub unwind-IsStacktrace :
      IsStacktrace (unwind unwinder fresh capacity skip)
      × (length (get_trace (unwind unwinder fresh capacity skip)) ≤ capacity)
      × ((m : ℕ)
          → length (get_trace (unwind unwinder fresh capacity skip)) ≡ suc m
          → at (get_trace (unwind unwinder fresh capacity skip)) m ≢ 0)
  unfolding IsUnwound
  unwind-IsStacktrace =
      let n = min capacity max_unwind_depth in
      let length_cells : length cells ≡ max_unwind_depth =
        length-unwinder n fresh (omega (arith, full)) ∙ full in
      let none_left = empty-IsUnwound cells length_cells in
      elim (Option-cases (unwinder n fresh).1) [
        | inl none_found ↦ subst IsUnwound (sym (failed none_found)) (none_left)
        | inr found ↦
            let k = found.0 in
            let le = unwinder_bound n k fresh (found.1) in
            elim (Bool-cases (ltb (drop_nulls cells k) skip)) [
              | inl e ↦ subst IsUnwound (sym (short k found.1 e)) (none_left)
              | inr e ↦
                  let deep : skip ≤ drop_nulls cells k = ground (arith, e) in
                  let i = unwound-IsStacktrace cells k skip length_cells (omega (arith, le)) deep in
                  subst IsUnwound (sym (reached k found.1 e)) (
                    i,
                    omega (
                      arith,
                      le,
                      length-get_trace (unwound cells k skip length_cells (omega (arith, le)) deep)
                          i,
                      drop_nulls-le cells k,
                    ),
                    unwound_last cells k skip length_cells (omega (arith, le)) deep,
                  )
            ]
      ]

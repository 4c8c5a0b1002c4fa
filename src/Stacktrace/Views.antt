-- ===== src/Stacktrace/Views.antt =====
-- The operations of `Stacktrace` in source/memhawk/src/impl/stacktrace.cpp as operations on lists of
-- frames.
use mem_hawk.Prelude.{
  ℕ, suc, ◌+◌, ◌-◌, ◌^◌, ◌≤◌, ◌<◌, ◌≡◌, refl, sym, ap, ◌∙◌, List, [], ◌∷◌, ◌++◌, none, some,
  Bool-cases, inl, inr, u64, sub64, ltb, leb, ◌==◌, if◌then◌else◌, length, take, drop, ◌⊎◌, arith,
  length-take, length-drop, length-append, take-ge, drop-ge, take-take, drop-take, drop-drop,
  take_plus, take-append_all, drop-append_all, take-drop, ltb→lt, leb→le, length-take_eq,
}
use mem_hawk.Collapse.{max_unwind_depth, collapse_recursion_opt, kept_frames}
use mem_hawk.Collapse.Bounds.{kept_frames_lem, length-collapse_recursion_opt}
use mem_hawk.Stacktrace.{
  Stacktrace, get_trace, skip_frames, shrink_by_size, find_frame, shrink_by_ptr, write_span,
  collapse_recursion,
}

-- The invariant: the parts of the array are in order and in range.
pub record IsStacktrace (s : Stacktrace) : Type 0 where
  pub ordered : s.skip ≤ s.size
  pub bounded : s.size ≤ max_unwind_depth
  pub full : length s.cells ≡ max_unwind_depth

pub get_trace_lem :
    (s : Stacktrace) → IsStacktrace s → get_trace s ≡ take (s.size - s.skip) (drop s.skip s.cells)
unfolding get_trace
get_trace_lem s i =
    let n : sub64 s.size s.skip ≡ s.size - s.skip = omega (arith, i.ordered, i.bounded) in rw n refl

pub length-get_trace : (s : Stacktrace) → IsStacktrace s → length (get_trace s) ≡ s.size - s.skip
length-get_trace s i = rw (get_trace_lem s i) (
    omega (
      arith,
      length-take (s.size - s.skip) (drop s.skip s.cells),
      length-drop s.skip s.cells,
      i.ordered,
      i.bounded,
      i.full,
    ))

-- A size that no caller of `Skip` and `ShrinkBySize` exceeds.
abbrev pub IsSmall : ℕ → Type 0
IsSmall n = n < 2 ^ 63

pub skip_frames_lem :
    (n : ℕ) (s : Stacktrace)
    → IsStacktrace s
    → IsSmall n
    → IsStacktrace (skip_frames n s) × (get_trace (skip_frames n s) ≡ drop n (get_trace s))
unfolding skip_frames
skip_frames_lem n s i h =
    let wrap : u64 (s.skip + n) ≡ s.skip + n = omega (arith, i.ordered, i.bounded) in
    elim (Bool-cases (ltb s.size (s.skip + n))) [
      | inl e ↦
          let past : s.size < s.skip + n = ltb→lt s.size (s.skip + n) e in
          let s' : Stacktrace = record s { skip = s.size } in
          let i' : IsStacktrace s' = record {
            ordered = omega arith;
            bounded = i.bounded;
            full = i.full;
          } in
          let z : s.size - s.size ≡ 0 = omega arith in
          rw (wrap, e)
            (
              i',
              get_trace_lem s' i'
                  ∙ (ap (λ k. take k (drop s.size s.cells)) z
                      ∙ sym (drop-ge n (get_trace s) (omega (arith, length-get_trace s i)))),
            )
      | inr e ↦
          let inside : s.skip + n ≤ s.size = ground (arith, e) in
          let s' : Stacktrace = record s { skip = s.skip + n } in
          let i' : IsStacktrace s' = record {
            ordered = inside;
            bounded = i.bounded;
            full = i.full;
          } in
          let k = s.size - (s.skip + n) in
          let parts : s.size - s.skip ≡ n + k = omega arith in
          rw (wrap, e)
            (
              i',
              get_trace_lem s' i'
                  ∙ (ap (take k) (sym (drop-drop n s.skip s.cells))
                      ∙ (sym (drop-take n k (drop s.skip s.cells))
                          ∙ (ap (λ z. drop n (take z (drop s.skip s.cells))) (sym parts)
                              ∙ ap (drop n) (sym (get_trace_lem s i))))),
            )
    ]

pub shrink_by_size_lem :
    (n : ℕ) (s : Stacktrace)
    → IsStacktrace s
    → IsSmall n
    → IsStacktrace (shrink_by_size n s) × (get_trace (shrink_by_size n s) ≡ take n (get_trace s))
unfolding shrink_by_size
shrink_by_size_lem n s i h =
    let wrap : u64 (s.skip + n) ≡ s.skip + n = omega (arith, i.ordered, i.bounded) in
    elim (Bool-cases (leb s.size (s.skip + n))) [
      | inl e ↦
          let past : s.size ≤ s.skip + n = leb→le s.size (s.skip + n) e in
          rw (wrap, e) (i, sym (take-ge (get_trace s) n (omega (arith, length-get_trace s i))))
      | inr e ↦
          let inside : s.skip + n < s.size = ground (arith, e) in
          let s' : Stacktrace = record s { size = s.skip + n } in
          let i' : IsStacktrace s' = record {
            ordered = omega arith;
            bounded = omega (arith, i.bounded);
            full = i.full;
          } in
          let z : s.skip + n - s.skip ≡ n = omega arith in
          rw (wrap, e)
            (
              i',
              get_trace_lem s' i'
                  ∙ (ap (λ k. take k (drop s.skip s.cells)) z
                      ∙ (sym (take-take n (s.size - s.skip) (drop s.skip s.cells) (omega arith))
                          ∙ ap (take n) (sym (get_trace_lem s i)))),
            )
    ]

-- The frames before the first `ptr`.
unfoldable pub before : ℕ → List ℕ → List ℕ
before ptr [] = []
before ptr (x ∷ xs) = if x == ptr then [] else x ∷ before ptr xs

-- Where the loop of `ShrinkByPtr` stops.
find_frame_lem :
    (ptr i : ℕ) (xs : List ℕ)
    → ((find_frame ptr xs i ≡ none) × (before ptr xs ≡ xs))
      ⊎ ((k : ℕ) × (find_frame ptr xs i ≡ some (i + k))
          × (k < length xs)
          × (before ptr xs ≡ take k xs))
unfolding find_frame before
find_frame_lem ptr i [] = inl (refl, refl)
find_frame_lem ptr i (x ∷ xs) = elim (Bool-cases (x == ptr)) [
  | inl e ↦ let z : i + 0 ≡ i = omega arith in inr (0, rw (e, z) refl, omega arith, rw e refl)
  | inr e ↦ elim (find_frame_lem ptr (i + 1) xs) [
    | inl none_found ↦ inl (rw e (none_found.0), rw (e, none_found.1) refl)
    | inr found ↦
        let z : i + suc found.0 ≡ i + 1 + found.0 = omega arith in
        inr (suc found.0, rw (e, z) (found.1), omega (arith, found.2), rw (e, found.3) refl)
  ]
]

pub shrink_by_ptr_lem :
    (ptr : ℕ) (s : Stacktrace)
    → IsStacktrace s
    → IsStacktrace (shrink_by_ptr ptr s)
      × (get_trace (shrink_by_ptr ptr s)
          ≡ take 2 (get_trace s) ++ before ptr (drop 2 (get_trace s)))
unfolding shrink_by_ptr
shrink_by_ptr_lem ptr s i =
    let trace = get_trace s in
    elim (find_frame_lem ptr 2 (drop 2 trace)) [
      | inl none_found ↦
          rw (shrink_by_ptr, none_found.0)
            (i, sym (ap (λ z. take 2 trace ++ z) none_found.1 ∙ take-drop 2 trace))
      | inr found ↦
          let k = found.0 in
          let small : IsSmall (2 + k) =
            omega (arith, found.2, length-drop 2 trace, length-get_trace s i, i.bounded) in
          let (kept, view) = shrink_by_size_lem (2 + k) s i small in
          rw (shrink_by_ptr, found.1)
            (kept, view ∙ (take_plus 2 k trace ∙ ap (λ z. take 2 trace ++ z) (sym found.3)))
    ]

-- A write of as many frames as the trace has.
module _ (frames : List ℕ) (s : Stacktrace) (i : IsStacktrace s)
    (same : length frames ≡ s.size - s.skip) where
  abbrev written : Stacktrace
  written = record s { cells = write_span s.cells s.skip frames }

  before_span : length (take s.skip s.cells) ≡ s.skip
  before_span = length-take_eq s.skip s.cells (omega (arith, i.ordered, i.bounded, i.full))

  write_span-IsStacktrace : IsStacktrace written
  write_span-IsStacktrace = record {
    ordered = i.ordered;
    bounded = i.bounded;
    full = omega (
      arith,
      before_span,
      length-append (take s.skip s.cells) (frames ++ drop (s.skip + length frames) s.cells),
      length-append frames (drop (s.skip + length frames) s.cells),
      length-drop (s.skip + length frames) s.cells,
      same,
      i.ordered,
      i.bounded,
      i.full,
    );
  }

  get_trace-write_span : get_trace written ≡ frames
  get_trace-write_span =
      let rest = frames ++ drop (s.skip + length frames) s.cells in
      get_trace_lem written write_span-IsStacktrace
      ∙ (ap (λ z. take (s.size - s.skip) (drop z (take s.skip s.cells ++ rest))) (sym before_span)
          ∙ (ap (take (s.size - s.skip)) (drop-append_all (take s.skip s.cells) rest)
              ∙ (ap (λ z. take z rest) (sym same)
                  ∙ take-append_all frames (drop (s.skip + length frames) s.cells))))

pub collapse_recursion_lem :
    (depth : ℕ) (s : Stacktrace)
    → IsStacktrace s
    → IsStacktrace (collapse_recursion depth s)
      × (get_trace (collapse_recursion depth s)
          ≡ kept_frames (collapse_recursion_opt (get_trace s) depth))
unfolding collapse_recursion
collapse_recursion_lem depth s i =
    let trace = get_trace s in
    let r = collapse_recursion_opt trace depth in
    let same : length r.0 ≡ s.size - s.skip =
      length-collapse_recursion_opt trace depth ∙ length-get_trace s i in
    let small : IsSmall r.1 =
      omega (arith, (kept_frames_lem trace depth).1, length-get_trace s i, i.bounded) in
    let (kept, view) =
      shrink_by_size_lem r.1 (written r.0 s i same) (write_span-IsStacktrace r.0 s i same) small in
    (kept, view ∙ ap (take r.1) (get_trace-write_span r.0 s i same))

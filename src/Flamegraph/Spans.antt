-- ===== src/Flamegraph/Spans.antt =====
-- The spans of source/flamegraph/src/graph.h: what `size`, `offset`, `first`, `CreatePath` and the
-- loop of `SplitPath` do to the elements of a span.
use mem_hawk.Prelude.{
  ℕ, suc, ◌+◌, ◌-◌, ◌^◌, ◌≤◌, ◌<◌, ◌≡◌, refl, sym, ap, ◌∙◌, List, [], ◌∷◌, ◌++◌, arith, u32, length,
  get_or, take, drop, take-append, take-ge, drop-append, drop-append_all, length-drop, length-take,
  take-take, drop-take, drop-drop, drop_first,
}
use mem_hawk.Flamegraph.{
  PathSpan, CompressedTrie, create_path, span_size, span_elements, offset, first, match_length,
}
use native.Mathlib.Nat.{mod-eq_of_lt}

-- A span of the deque: its ends are in order and in range.
pub record IsInside (n : ℕ) (s : PathSpan) : Type 0 where
  pub ordered : s.begin ≤ s.end
  pub bounded : s.end ≤ n

pub size-IsInside :
    (n : ℕ) (s : PathSpan) → IsInside n s → n < 2 ^ 32 → s.begin + span_size s ≡ s.end
unfolding span_size
size-IsInside n s i h = omega (arith, i.ordered, i.bounded)

module _ (paths : List ℕ) (s : PathSpan) (inside : IsInside (length paths) s)
    (small : length paths < 2 ^ 32) where
  size_lem : s.begin + span_size s ≡ s.end
  size_lem = size-IsInside (length paths) s inside small

  pub length-span_elements : length (span_elements paths s) ≡ span_size s
  unfolding span_elements
  length-span_elements = omega (
    arith,
    length-take (span_size s) (drop s.begin paths),
    length-drop s.begin paths,
    size_lem,
    inside.bounded,
  )

  pub span_elements-append :
      (more : List ℕ) → span_elements (paths ++ more) s ≡ span_elements paths s
  unfolding span_elements
  span_elements-append more =
      rw (drop-append s.begin paths more (omega (arith, inside.ordered, inside.bounded))) (
        take-append (span_size s) (drop s.begin paths) more
          (omega (arith, length-drop s.begin paths, size_lem, inside.bounded)))

  module _ (m : ℕ) (part : m < span_size s) where
    cut : u32 (s.begin + m) ≡ s.begin + m
    cut = mod-eq_of_lt (omega (arith, size_lem, inside.bounded))

    pub first-IsInside : IsInside (length paths) (first s m)
    first-IsInside = record {
      ordered = omega (arith, cut);
      bounded = omega (arith, cut, size_lem, inside.bounded);
    }

    pub offset-IsInside : IsInside (length paths) (offset s m)
    offset-IsInside = record {
      ordered = omega (arith, cut, size_lem, inside.bounded);
      bounded = inside.bounded;
    }

    first_size : span_size (first s m) ≡ m
    first_size = omega (arith, cut, size-IsInside (length paths) (first s m) first-IsInside small)

    offset_size : m + span_size (offset s m) ≡ span_size s
    offset_size =
        omega
          (arith, cut, size_lem, size-IsInside (length paths) (offset s m) offset-IsInside small)

    pub span_elements-first : span_elements paths (first s m) ≡ take m (span_elements paths s)
    unfolding span_elements
    span_elements-first =
        rw first_size (sym (take-take m (span_size s) (drop s.begin paths) (omega arith)))

    pub span_elements-offset : span_elements paths (offset s m) ≡ drop m (span_elements paths s)
    unfolding span_elements
    span_elements-offset =
        let k = span_size (offset s m) in
        ap (λ i. take k (drop i paths)) cut
        ∙ (ap (take k) (sym (drop-drop m s.begin paths))
            ∙ (sym (drop-take m k (drop s.begin paths))
                ∙ ap (λ z. drop m (take z (drop s.begin paths))) offset_size))

    -- The key of a split: the first element that is left over.
    pub drop-span_elements :
        (ks : List ℕ) × (drop m (span_elements paths s) ≡ get_or paths (s.begin + m) 0 ∷ ks)
    unfolding span_elements
    drop-span_elements =
        let (ys, e) = drop_first (s.begin + m) paths 0 (omega (arith, size_lem, inside.bounded)) in
        let k = span_size s - m - 1 in
        let size : span_size s ≡ m + suc k = omega (arith, part) in
        (
          take k ys,
          ap (λ z. drop m (take z (drop s.begin paths))) size
              ∙ (drop-take m (suc k) (drop s.begin paths)
                  ∙ (ap (take (suc k)) (drop-drop m s.begin paths) ∙ ap (take (suc k)) e)),
        )

-- `CreatePath`
module _ (path : List ℕ) (t : CompressedTrie) (small : length t.paths + length path < 2 ^ 32) where
  begin_lem : u32 (length t.paths) ≡ length t.paths
  begin_lem = mod-eq_of_lt (omega arith)

  end_lem : u32 (length t.paths + length path) ≡ length t.paths + length path
  end_lem = mod-eq_of_lt small

  pub create_path-IsInside : IsInside (length t.paths + length path) (create_path path t).1
  unfolding create_path
  create_path-IsInside = record {
    ordered = omega (arith, begin_lem, end_lem);
    bounded = omega (arith, end_lem);
  }

  pub span_elements-create_path :
      span_elements (create_path path t).0.paths (create_path path t).1 ≡ path
  unfolding create_path span_elements
  span_elements-create_path =
      ap (λ b. take (span_size (create_path path t).1) (drop b (t.paths ++ path))) begin_lem
      ∙ (ap (take (span_size (create_path path t).1)) (drop-append_all t.paths path)
          ∙ take-ge path (span_size (create_path path t).1) (
              omega (
                arith,
                begin_lem,
                end_lem,
                size-IsInside (length t.paths + length path) (create_path path t).1
                    create_path-IsInside small,
              )))

-- The loop of `SplitPath` counts the elements that two sequences begin with.
pub match_length-le :
    (xs ys : List ℕ) → (match_length xs ys ≤ length xs) × (match_length xs ys ≤ length ys)
unfolding match_length
match_length-le [] ys = (omega arith, omega arith)
match_length-le (x ∷ xs) [] = (omega arith, omega arith)
match_length-le (x ∷ xs) (y ∷ ys) =
    let (a, b) = match_length-le xs ys in (ground arith, ground arith)

pub take-match_length :
    (xs ys : List ℕ) → take (match_length xs ys) xs ≡ take (match_length xs ys) ys
unfolding match_length
take-match_length [] ys = refl
take-match_length (x ∷ xs) [] = refl
take-match_length (x ∷ xs) (y ∷ ys) = let rest = take-match_length xs ys in grind arith

pub match_length_first :
    (x : ℕ) (xs ys : List ℕ) → match_length (x ∷ xs) (x ∷ ys) ≡ suc (match_length xs ys)
unfolding match_length
match_length_first x xs ys = ground arith

pub match_length_self : (xs : List ℕ) → match_length xs xs ≡ length xs
unfolding match_length
match_length_self [] = refl
match_length_self (x ∷ xs) = let rest = match_length_self xs in ground arith

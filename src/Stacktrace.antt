-- ===== src/Stacktrace.antt =====
-- `Stacktrace` of source/memhawk/src/impl/stacktrace.{h,cpp}: the array of frames of a trace, of which
-- the part from `m_skip` to `m_size` counts.
--
-- Frames are numbers, and the null pointer is 0. The frames that an unwinder writes, its result, and
-- the uninitialised array of a new trace are parameters; a negative result is `none`. The collapse of
-- recursion is `CollapseRecursionOpt`, so a depth below 2 ^ 32 - 1 is meant. Not modelled: Describe, and
-- CoarseToFunctionsStart, which overwrites the frames as the unwinding library says.
pub mod Views
pub mod Sequences
pub mod Unwinding
mod Tests
use mem_hawk.Prelude.{
  ℕ, zero, suc, ◌+◌, ◌-◌, List, [], ◌∷◌, ◌++◌, Option, none, some, min, u64, sub64, ltb, leb, ◌==◌,
  if◌then◌else◌, length, take, drop,
}
use mem_hawk.Collapse.{max_unwind_depth, collapse_recursion_opt, at}

pub record Stacktrace : Type 0 where
  pub size : ℕ
  pub skip : ℕ
  pub cells : List ℕ

-- The constructor: `fresh` is the array before it.
unfoldable pub new_stacktrace : List ℕ → List ℕ → Stacktrace
new_stacktrace fresh frames =
    let size = min max_unwind_depth (length frames) in
    record { size = size; skip = 0; cells = take size frames ++ drop size fresh }

unfoldable pub get_trace : Stacktrace → List ℕ
get_trace s = take (sub64 s.size s.skip) (drop s.skip s.cells)

unfoldable pub skip_frames : ℕ → Stacktrace → Stacktrace
skip_frames size s =
    let skip = u64 (s.skip + size) in
    if ltb s.size skip then record s { skip = s.size } else record s { skip = skip }

unfoldable pub shrink_by_size : ℕ → Stacktrace → Stacktrace
shrink_by_size size s =
    if leb s.size (u64 (s.skip + size)) then s else record s { size = u64 (s.skip + size) }

-- The loop of `ShrinkByPtr` over the frames from index `i` on.
unfoldable pub find_frame : ℕ → List ℕ → ℕ → Option ℕ
find_frame ptr [] i = none
find_frame ptr (x ∷ xs) i =
    let rest = find_frame ptr xs (i + 1) in if x == ptr then some i else rest

unfoldable pub shrink_by_ptr : ℕ → Stacktrace → Stacktrace
shrink_by_ptr ptr s = elim (find_frame ptr (drop 2 (get_trace s)) 2) [
  | none ↦ s
  | some i ↦ shrink_by_size i s
]

-- A write through the span that begins at `skip`.
abbrev write_span : List ℕ → ℕ → List ℕ → List ℕ
write_span cells skip frames = take skip cells ++ (frames ++ drop (skip + length frames) cells)

unfoldable pub collapse_recursion : ℕ → Stacktrace → Stacktrace
collapse_recursion depth s =
    let (frames, new_size) = collapse_recursion_opt (get_trace s) depth in
    shrink_by_size new_size (record s { cells = write_span s.cells s.skip frames })

-- The loop that drops null frames from the end.
unfoldable pub drop_nulls : List ℕ → ℕ → ℕ
drop_nulls cells zero = 0
drop_nulls cells (suc n) = let rest = drop_nulls cells n in if at cells n == 0 then rest else suc n

-- `unwinder` is called with the number of frames that it may write, and gives the array and the result.
unfoldable pub unwind_stacktrace :
    (ℕ → List ℕ → List ℕ × Option ℕ) → ℕ → ℕ → Stacktrace → Stacktrace
unwind_stacktrace unwinder capacity skip s =
    let (cells, result) = unwinder (min capacity max_unwind_depth) s.cells in
    elim result [
      | none ↦ record s { cells = cells }
      | some result_size ↦
          let stripped = drop_nulls cells result_size in
          if ltb stripped skip
          then record s { cells = cells }
          else record { size = stripped; skip = skip; cells = cells }
    ]

-- `Unwind`: `fresh` is the uninitialised array.
unfoldable pub unwind : (ℕ → List ℕ → List ℕ × Option ℕ) → List ℕ → ℕ → ℕ → Stacktrace
unwind unwinder fresh capacity skip =
    unwind_stacktrace unwinder capacity skip (record { size = 0; skip = 0; cells = fresh })

-- The operations that a trace goes through after unwinding.
pub data Op : Type 0 where
  skips : ℕ → Op
  shrinks_to : ℕ → Op
  stops_at : ℕ → Op
  collapses : ℕ → Op

unfoldable pub apply : Op → Stacktrace → Stacktrace
apply (skips n) s = skip_frames n s
apply (shrinks_to n) s = shrink_by_size n s
apply (stops_at ptr) s = shrink_by_ptr ptr s
apply (collapses depth) s = collapse_recursion depth s

unfoldable pub apply_all : List Op → Stacktrace → Stacktrace
apply_all [] s = s
apply_all (op ∷ ops) s = apply_all ops (apply op s)

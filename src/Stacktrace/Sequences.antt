-- ===== src/Stacktrace/Sequences.antt =====
-- Sequences of the operations of `Stacktrace` in source/memhawk/src/impl/stacktrace.cpp.
use mem_hawk.Prelude.{ℕ, ◌≡◌, refl, ap, ◌∙◌, List, [], ◌∷◌, ◌++◌, take, drop}
use mem_hawk.Collapse.{collapse_recursion_opt, kept_frames}
use mem_hawk.Stacktrace.{
  Stacktrace, get_trace, Op, skips, shrinks_to, stops_at, collapses, apply, apply_all,
}
use mem_hawk.Stacktrace.Views.{
  IsStacktrace, IsSmall, before, skip_frames_lem, shrink_by_size_lem, shrink_by_ptr_lem,
  collapse_recursion_lem,
}

-- The operations on the list of frames that a trace stands for.
unfoldable pub apply_frames : Op → List ℕ → List ℕ
apply_frames (skips n) frames = drop n frames
apply_frames (shrinks_to n) frames = take n frames
apply_frames (stops_at ptr) frames = take 2 frames ++ before ptr (drop 2 frames)
apply_frames (collapses depth) frames = kept_frames (collapse_recursion_opt frames depth)

unfoldable pub apply_all_frames : List Op → List ℕ → List ℕ
apply_all_frames [] frames = frames
apply_all_frames (op ∷ ops) frames = apply_all_frames ops (apply_frames op frames)

-- Sizes that the sum with `m_skip` cannot wrap around.
unfoldable pub IsSmallOp : Op → Type 0
IsSmallOp (skips n) = IsSmall n
IsSmallOp (shrinks_to n) = IsSmall n
IsSmallOp (stops_at ptr) = Unit
IsSmallOp (collapses depth) = Unit

unfoldable pub AreSmall : List Op → Type 0
AreSmall [] = Unit
AreSmall (op ∷ ops) = IsSmallOp op × AreSmall ops

apply_lem :
    (op : Op) (s : Stacktrace)
    → IsStacktrace s
    → IsSmallOp op
    → IsStacktrace (apply op s) × (get_trace (apply op s) ≡ apply_frames op (get_trace s))
unfolding apply apply_frames IsSmallOp
apply_lem (skips n) s i h = skip_frames_lem n s i h
apply_lem (shrinks_to n) s i h = shrink_by_size_lem n s i h
apply_lem (stops_at ptr) s i h = shrink_by_ptr_lem ptr s i
apply_lem (collapses depth) s i h = collapse_recursion_lem depth s i

-- From a trace whose parts are in order and in range of the array of 64 frames, any sequence of Skip,
-- ShrinkBySize, ShrinkByPtr and CollapseRecursion, with sizes below 2^63 for the first two, leaves
-- such a trace again, and its frames are those that the same operations on lists give: to drop or to
-- take a number of frames, to take the first two and those up to the first occurrence of the pointer
-- behind them, and to keep what the collapse of the whole list keeps.
pub apply_all_lem :
    (ops : List Op) (s : Stacktrace)
    → IsStacktrace s
    → AreSmall ops
    → IsStacktrace (apply_all ops s)
      × (get_trace (apply_all ops s) ≡ apply_all_frames ops (get_trace s))
unfolding apply_all apply_all_frames AreSmall
apply_all_lem [] s i h = (i, refl)
apply_all_lem (op ∷ ops) s i h =
    let (kept, view) = apply_lem op s i (h.0) in
    let (kept', view') = apply_all_lem ops (apply op s) kept (h.1) in
    (kept', view' ∙ ap (apply_all_frames ops) view)

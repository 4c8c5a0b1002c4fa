-- ===== src/Collapse/Bounds.antt =====
-- `CollapseRecursionOpt` of source/memhawk/src/impl/algo.cpp stays in the array, and never adds a
-- frame.
use mem_hawk.Prelude.{
  ℕ, zero, suc, ◌+◌, ◌≤◌, ◌<◌, ◌≡◌, refl, ◌∙◌, arith, List, length, set, take, length-set,
  length-take, ◌==◌, ◌||◌, ltb, min, Bool-cases, inl, inr,
}
use mem_hawk.Collapse.{at, Compacted, compact, collapse_recursion_opt, kept_frames}

pub length-compact :
    (fuel end cur left : ℕ) (dp frames : List ℕ)
    → length (compact fuel end cur left dp frames).frames ≡ length frames
unfolding compact
length-compact zero end cur left dp frames = refl
length-compact (suc fuel) end cur left dp frames = ground (
  arith,
  length-compact fuel end (cur + 1) (left + 1) dp (set frames (left + 1) (at frames cur)),
  length-set frames (left + 1) (at frames cur),
  length-compact fuel end (cur + at dp cur) left dp frames,
)

compact_left :
    (fuel end cur left : ℕ) (dp frames : List ℕ)
    → left < cur
    → left < end
    → (compact fuel end cur left dp frames).left < end
unfolding compact
compact_left zero end cur left dp frames h k = k
compact_left (suc fuel) end cur left dp frames h k = ground (
  arith,
  compact_left fuel end (cur + 1) (left + 1) dp (set frames (left + 1) (at frames cur)),
  compact_left fuel end (cur + at dp cur) left dp frames,
)

compact_reaches :
    (fuel end cur left : ℕ) (dp frames : List ℕ)
    → end ≤ cur + fuel
    → (end ≤ (compact fuel end cur left dp frames).cur)
      × (cur ≤ (compact fuel end cur left dp frames).cur)
unfolding compact
compact_reaches zero end cur left dp frames h = (omega (arith, h), omega arith)
compact_reaches (suc fuel) end cur left dp frames h = ground (
  arith,
  compact_reaches fuel end (cur + 1) (left + 1) dp (set frames (left + 1) (at frames cur)),
  compact_reaches fuel end (cur + at dp cur) left dp frames,
)

-- The last loop of `CollapseRecursionOpt`, where `maxDp` has a cell for every frame up to the end, ends
-- within as many rounds as there are frames from the current one to the end: after them `cur`, which
-- only grows, has reached the end.
pub compact_ends :
    (fuel end cur left : ℕ) (dp frames : List ℕ)
    → end ≤ length dp
    → end ≤ cur + fuel
    → (end ≤ (compact fuel end cur left dp frames).cur)
      × (cur ≤ (compact fuel end cur left dp frames).cur)
compact_ends fuel end cur left dp frames cells h = compact_reaches fuel end cur left dp frames h

compact_kept :
    (frames dp : List ℕ) (c : Compacted)
    → c ≡ compact (length frames) (length frames) 1 0 dp frames
    → 2 ≤ length frames
    → (length (take (c.left + 1) c.frames) ≡ c.left + 1)
      × (c.left + 1 ≤ length frames)
      × (min 1 (length frames) ≤ c.left + 1)
compact_kept frames dp c e h =
    let inside : c.left < length frames =
      rw e
        (compact_left (length frames) (length frames) 1 0 dp frames (omega arith) (omega arith)) in
    let same : length c.frames ≡ length frames =
      rw e (length-compact (length frames) (length frames) 1 0 dp frames) in
    (omega (arith, length-take (c.left + 1) c.frames), omega arith, omega arith)

pub kept_frames_lem :
    (frames : List ℕ) (depth : ℕ)
    → (length (kept_frames (collapse_recursion_opt frames depth))
        ≡ (collapse_recursion_opt frames depth).1)
      × ((collapse_recursion_opt frames depth).1 ≤ length frames)
      × (min 1 (length frames) ≤ (collapse_recursion_opt frames depth).1)
unfolding collapse_recursion_opt
kept_frames_lem frames depth = elim (Bool-cases (depth == 0 || ltb (length frames) 2)) [
  | inl short ↦
      rw short (length-take (length frames) frames ∙ omega arith, omega arith, omega arith)
  | inr long ↦ rw long (compact_kept frames _ _ refl (ground arith))
]

pub length-collapse_recursion_opt :
    (frames : List ℕ) (depth : ℕ) → length (collapse_recursion_opt frames depth).0 ≡ length frames
unfolding collapse_recursion_opt
length-collapse_recursion_opt frames depth =
    elim (Bool-cases (depth == 0 || ltb (length frames) 2)) [
      | inl short ↦ rw short refl
      | inr long ↦ rw long (length-compact (length frames) (length frames) 1 0 _ frames)
    ]

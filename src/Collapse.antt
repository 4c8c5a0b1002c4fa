-- ===== src/Collapse.antt =====
-- `CollapseRecursionOpt` of source/memhawk/src/impl/algo.cpp, which removes repeated blocks of frames.
--
-- Frames are numbers; the span is a list that the code changes in place. The loops take the number
-- of rounds, or of elements that are left, as fuel. They stand for the code where it has at most 64
-- frames, the cells of `maxDp`, and a depth below 2 ^ 32 - 1, since the shifts are `uint32_t`: with more
-- frames the source leaves `maxDp`, with a larger depth its loop does not end. The AVX variant is in Avx;
-- the naive one is not modelled.
pub mod Bounds
pub mod Avx
pub mod Marks
pub mod Equivalence
pub mod Kept
mod Tests
use mem_hawk.Prelude.{
  ℕ, zero, suc, ◌+◌, ◌-◌, List, u8, ltb, leb, ◌==◌, ◌||◌, if◌then◌else◌, get_or, set, length,
  replicate, take, u32,
}

abbrev pub max_unwind_depth : ℕ
max_unwind_depth = 64

abbrev pub at : List ℕ → ℕ → ℕ
at xs i = get_or xs i 0

-- The variables of the loop over one shift.
pub record Scan : Type 0 where
  pub cur : ℕ
  pub prev_value : ℕ
  pub dp : ℕ
  pub max_dp : List ℕ

module _ (frames : List ℕ) where
  -- A round: `shifted` is `cur + shift - 1` throughout.
  unfoldable pub scan_round : ℕ → Scan → Scan
  scan_round shift s =
      let next_value = at frames (s.cur + shift - 1) in
      let dp = if s.prev_value == next_value then u8 (s.dp + 1) else 0 in
      record {
        cur = s.cur + 1;
        prev_value = at frames s.cur;
        dp = dp;
        max_dp =
            if s.prev_value == next_value
            then (if leb shift dp then set s.max_dp s.cur (u8 shift) else s.max_dp)
            else s.max_dp;
      }

  unfoldable pub scan_loop : ℕ → ℕ → Scan → Scan
  scan_loop zero shift s = s
  scan_loop (suc left) shift s = scan_loop left shift (scan_round shift s)

  -- The body of the loop over the shifts; `shifted` starts at `shift`.
  unfoldable pub scan : ℕ → List ℕ → List ℕ
  scan shift max_dp =
      (scan_loop (length frames - shift) shift
        (record { cur = 1; prev_value = at frames 0; dp = 0; max_dp = max_dp })).max_dp

  -- The loop over the shifts from `shift` on.
  unfoldable pub scan_all : ℕ → ℕ → List ℕ → List ℕ
  scan_all zero shift max_dp = max_dp
  scan_all (suc left) shift max_dp = scan_all left (u32 (shift + 1)) (scan shift max_dp)

-- The variables of the last loop, and its result.
pub record Compacted : Type 0 where
  pub cur : ℕ
  pub left : ℕ
  pub frames : List ℕ

unfoldable pub compact : ℕ → ℕ → ℕ → ℕ → List ℕ → List ℕ → Compacted
compact zero end cur left max_dp frames = record { cur = cur; left = left; frames = frames }
compact (suc fuel) end cur left max_dp frames =
    let keep =
      compact fuel end (cur + 1) (left + 1) max_dp (set frames (left + 1) (at frames cur)) in
    let drop = compact fuel end (cur + at max_dp cur) left max_dp frames in
    if ltb cur end
    then (if at max_dp cur == 0 then keep else drop)
    else record { cur = cur; left = left; frames = frames }

-- The array after the call and the number of frames that are kept.
unfoldable pub collapse_recursion_opt : List ℕ → ℕ → List ℕ × ℕ
collapse_recursion_opt frames depth =
    if depth == 0 || ltb (length frames) 2
    then (frames, length frames)
    else (let first =
          set (replicate max_unwind_depth 0) 0 (if at frames 0 == at frames 1 then 1 else 0) in
        let c =
          compact (length frames) (length frames) 1 0 (scan_all frames depth 1 first) frames in
        (c.frames, c.left + 1))

-- The frames that the caller keeps.
abbrev pub kept_frames : List ℕ × ℕ → List ℕ
kept_frames r = take r.1 r.0

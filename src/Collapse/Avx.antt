-- ===== src/Collapse/Avx.antt =====
-- `CollapseRecursionAvx` of source/memhawk/src/impl/algo.cpp.
--
-- The vectors and the two intrinsics are parameters: `loadu` is `_mm512_loadu_epi64` at an index of
-- the span, `cmpeq_mask` is `_mm512_cmpeq_epi64_mask`. The loops take fuel.
use mem_hawk.Prelude.{
  ℕ, zero, suc, ◌+◌, ◌-◌, ◌/◌, ◌^◌, List, Bool, true, false, u8, u32, ltb, leb, ◌==◌, ◌||◌, not,
  if◌then◌else◌, set, length, replicate, bit_and,
}
use mem_hawk.Collapse.{at, max_unwind_depth, compact}

abbrev pub simd_stride : ℕ
simd_stride = 8

-- The variables of the loop over one shift, without its index.
pub record Dp : Type 0 where
  pub last_dp : ℕ
  pub max_dp : List ℕ

-- The body of both inner loops: the elements at `index` and `index + shift` are equal or not.
unfoldable pub mark : ℕ → ℕ → Bool → Dp → Dp
mark shift index false s = record { last_dp = 0; max_dp = s.max_dp }
mark shift index true s =
    let last_dp = u8 (s.last_dp + 1) in
    record {
      last_dp = last_dp;
      max_dp = if leb shift last_dp then set s.max_dp (index + 1) (u8 shift) else s.max_dp;
    }

-- The rounds over the digits of a mask.
unfoldable pub mark_lanes : ℕ → ℕ → ℕ → ℕ → Dp → Dp
mark_lanes zero shift index mask s = s
mark_lanes (suc left) shift index mask s =
    mark_lanes left shift (index + 1) (mask / 2) (mark shift index (not (bit_and mask 1 == 0)) s)

module _ (frames : List ℕ) where
  -- The loop over the elements that remain.
  unfoldable pub mark_rest : ℕ → ℕ → ℕ → ℕ → Dp → Dp
  mark_rest zero shift max_index i s = s
  mark_rest (suc fuel) shift max_index i s =
      let rest =
        mark_rest fuel shift max_index (i + 1)
          (mark shift i (at frames i == at frames (i + shift)) s) in
      if ltb i max_index then rest else s

module _ (V : Type 0) (loadu : List ℕ → ℕ → V) (cmpeq_mask : V → V → ℕ) (frames : List ℕ) where
  -- The loop over whole vectors: the index behind them, and the state.
  unfoldable pub mark_strides : ℕ → ℕ → ℕ → ℕ → Dp → ℕ × Dp
  mark_strides zero shift max_index i s = (i, s)
  mark_strides (suc fuel) shift max_index i s =
      let mask = u8 (cmpeq_mask (loadu frames i) (loadu frames (i + shift))) in
      let rest =
        mark_strides fuel shift max_index (i + simd_stride)
          (mark_lanes simd_stride shift i mask s) in
      if leb (i + simd_stride) max_index then rest else (i, s)

  unfoldable pub scan_avx : ℕ → ℕ → List ℕ → List ℕ
  scan_avx shift max_index max_dp =
      let (i, s) =
        mark_strides max_index shift max_index 0 (record { last_dp = 0; max_dp = max_dp }) in
      (mark_rest frames max_index shift max_index i s).max_dp

  -- The loop over the shifts from `shift` on, which stops where nothing is left to compare.
  unfoldable pub scan_all_avx : ℕ → ℕ → List ℕ → List ℕ
  scan_all_avx zero shift max_dp = max_dp
  scan_all_avx (suc left) shift max_dp =
      let max_index = u32 (length frames + 2 ^ 64 - shift) in
      let rest = scan_all_avx left (u32 (shift + 1)) (scan_avx shift max_index max_dp) in
      if max_index == 0 then max_dp else rest

  -- The array after the call and the number of frames that are kept.
  unfoldable pub collapse_recursion_avx : ℕ → List ℕ × ℕ
  collapse_recursion_avx depth =
      if depth == 0 || ltb (length frames) 2
      then (frames, length frames)
      else (let c =
            compact (length frames) (length frames) 1 0
              (scan_all_avx depth 1 (replicate max_unwind_depth 0)) frames in
          (c.frames, c.left + 1))

-- ===== src/Collapse/Marks.antt =====
-- The loops over one shift in source/memhawk/src/impl/algo.cpp, of `CollapseRecursionOpt` and of
-- `CollapseRecursionAvx`, against one loop that compares element by element.
use mem_hawk.Prelude.{
  ℕ, zero, suc, ◌+◌, ◌-◌, ◌/◌, ◌≤◌, ◌<◌, ◌≡◌, refl, sym, ap, ◌∙◌, List, Bool-cases, inl, inr, u8,
  ltb, leb, ◌==◌, not, if◌then◌else◌, length, bit_and, arith, leb→le, ltb→lt, lt→ltb,
}
use mem_hawk.Prelude.Bits.{bit, bit-mod, bit_first, bit_rest, bit_and_one}
use mem_hawk.Collapse.{at, Scan, scan_round, scan_loop, scan}
use mem_hawk.Collapse.Avx.{Dp, mark, mark_lanes, mark_strides, mark_rest, scan_avx, simd_stride}

abbrev pack : ℕ → Dp → ℕ × Dp
pack i s = (i, s)

pair : {a b : ℕ} {s s' : Dp} → a ≡ b → s ≡ s' → pack a s ≡ pack b s'
pair e d = λ i. (e i, d i)

module _ (frames : List ℕ) where
  low_bit :
      (mask index shift : ℕ)
      → bit mask 0 ≡ (if at frames (index + 0) == at frames (index + shift + 0) then 1 else 0)
      → not (bit_and mask 1 == 0) ≡ (at frames index == at frames (index + shift))
  low_bit mask index shift h =
      let a : index + 0 ≡ index = omega arith in
      let b : index + shift + 0 ≡ index + shift = omega arith in
      let digit : bit_and mask 1 ≡ (if at frames index == at frames (index + shift) then 1 else 0) =
        bit_and_one mask ∙ (sym (bit_first mask) ∙ (h ∙ rw (a, b) refl)) in
      elim (Bool-cases (at frames index == at frames (index + shift))) [
        | inl e ↦ rw (digit, e) refl
        | inr e ↦ rw (digit, e) refl
      ]

  -- `count` rounds from `index` on.
  unfoldable pub mark_all : ℕ → ℕ → ℕ → Dp → Dp
  mark_all zero shift index s = s
  mark_all (suc count) shift index s =
      mark_all count shift (index + 1)
        (mark shift index (at frames index == at frames (index + shift)) s)

  pub mark_all_add :
      (a b shift index : ℕ) (s : Dp)
      → mark_all (a + b) shift index s ≡ mark_all b shift (index + a) (mark_all a shift index s)
  unfolding mark_all
  mark_all_add zero b shift index s =
      let z : 0 + b ≡ b = omega arith in let i : index + 0 ≡ index = omega arith in rw (z, i) refl
  mark_all_add (suc a) b shift index s =
      let z : suc a + b ≡ suc (a + b) = omega arith in
      let i : index + suc a ≡ index + 1 + a = omega arith in
      rw (z, i)
        (mark_all_add a b shift (index + 1)
          (mark shift index (at frames index == at frames (index + shift)) s))

  abbrev scan_at : ℕ → Dp → Scan
  scan_at index s = record {
    cur = index + 1;
    prev_value = at frames index;
    dp = s.last_dp;
    max_dp = s.max_dp;
  }

  scan_round_lem :
      (shift index : ℕ) (s : Dp)
      → scan_round frames shift (scan_at index s)
        ≡ scan_at (index + 1) (mark shift index (at frames index == at frames (index + shift)) s)
  unfolding scan_round mark
  scan_round_lem shift index s =
      let i : index + 1 + shift - 1 ≡ index + shift = omega arith in
      elim (Bool-cases (at frames index == at frames (index + shift))) [
        | inl e ↦ rw (i, e) refl
        | inr e ↦ rw (i, e) refl
      ]

  pub scan_loop_lem :
      (count shift index : ℕ) (s : Dp)
      → (scan_loop frames count shift (scan_at index s)).max_dp
        ≡ (mark_all count shift index s).max_dp
  unfolding scan_loop mark_all
  scan_loop_lem zero shift index s = refl
  scan_loop_lem (suc count) shift index s =
      ap (λ z. (scan_loop frames count shift z).max_dp) (scan_round_lem shift index s)
      ∙ scan_loop_lem count shift (index + 1)
          (mark shift index (at frames index == at frames (index + shift)) s)

  pub scan_lem :
      (shift : ℕ) (max_dp : List ℕ)
      → scan frames shift max_dp
        ≡ (mark_all
            (length frames - shift)
            shift
            0
            (record { last_dp = 0; max_dp = max_dp })).max_dp
  unfolding scan
  scan_lem shift max_dp =
      scan_loop_lem (length frames - shift) shift 0 (record { last_dp = 0; max_dp = max_dp })

  -- Digit `j` of the mask says whether the elements at `index + j` are equal.
  mark_lanes_lem :
      (left shift index mask : ℕ) (s : Dp)
      → ((j : ℕ)
          → j < left
          → bit mask j ≡ (if at frames (index + j) == at frames (index + shift + j) then 1 else 0))
      → mark_lanes left shift index mask s ≡ mark_all left shift index s
  unfolding mark_lanes mark_all
  mark_lanes_lem zero shift index mask s h = refl
  mark_lanes_lem (suc left) shift index mask s h =
      let here : not (bit_and mask 1 == 0) ≡ (at frames index == at frames (index + shift)) =
        low_bit mask index shift (h 0 (omega arith)) in
      ap (λ b. mark_lanes left shift (index + 1) (mask / 2) (mark shift index b s)) here
      ∙ mark_lanes_lem left shift (index + 1) (mask / 2)
          (mark shift index (at frames index == at frames (index + shift)) s)
          (λ j k.
            let a : index + 1 + j ≡ index + suc j = omega arith in
            let b : index + 1 + shift + j ≡ index + shift + suc j = omega arith in
            rw (a, b) (sym (bit_rest mask j) ∙ h (suc j) (omega arith)))

  pub mark_rest_lem :
      (fuel shift max_index i : ℕ) (s : Dp)
      → max_index ≤ i + fuel
      → mark_rest frames fuel shift max_index i s ≡ mark_all (max_index - i) shift i s
  unfolding mark_rest mark_all
  mark_rest_lem zero shift max_index i s h = let z : max_index - i ≡ 0 = omega arith in rw z refl
  mark_rest_lem (suc fuel) shift max_index i s h =
      let s' = mark shift i (at frames i == at frames (i + shift)) s in
      let rest = mark_rest_lem fuel shift max_index (i + 1) s' (omega arith) in
      elim (Bool-cases (ltb i max_index)) [
        | inl e ↦
            let n : max_index - i ≡ suc (max_index - (i + 1)) =
              omega (arith, ltb→lt i max_index e) in
            rw (e, n) rest
        | inr e ↦ let n : max_index - i ≡ 0 = ground (arith, e) in rw (e, n) refl
      ]

  module _ (V : Type 0) (loadu : List ℕ → ℕ → V) (cmpeq_mask : V → V → ℕ)
      (lanes : (a b j : ℕ)
        → a + 8 ≤ length frames
        → b + 8 ≤ length frames
        → j < 8
        → bit (cmpeq_mask (loadu frames a) (loadu frames b)) j
          ≡ (if at frames (a + j) == at frames (b + j) then 1 else 0)) where
    stride_lem :
        (shift i : ℕ) (s : Dp)
        → i + shift + 8 ≤ length frames
        → mark_lanes simd_stride shift i
            (u8 (cmpeq_mask (loadu frames i) (loadu frames (i + shift))))
            s
          ≡ mark_all simd_stride shift i s
    stride_lem shift i s h =
        mark_lanes_lem simd_stride shift i
          (u8 (cmpeq_mask (loadu frames i) (loadu frames (i + shift)))) s
          (λ j k.
            bit-mod 8 (cmpeq_mask (loadu frames i) (loadu frames (i + shift))) j
            ∙ (rw (lt→ltb j 8 k) refl ∙ lanes i (i + shift) j (omega arith) (omega arith) k))

    pub mark_strides_lem :
        (fuel shift max_index i : ℕ) (s : Dp)
        → i ≤ max_index
        → max_index + shift ≤ length frames
        → (k : ℕ) × (i + k ≤ max_index)
          × (mark_strides V loadu cmpeq_mask frames fuel shift max_index i s
              ≡ (i + k, mark_all k shift i s))
    unfolding mark_strides mark_all
    mark_strides_lem zero shift max_index i s h room =
        (0, omega arith, let z : i + 0 ≡ i = omega arith in rw z refl)
    mark_strides_lem (suc fuel) shift max_index i s h room =
        let s' =
          mark_lanes simd_stride shift i
            (u8 (cmpeq_mask (loadu frames i) (loadu frames (i + shift)))) s in
        elim (Bool-cases (leb (i + simd_stride) max_index)) [
          | inl e ↦
              let fits : i + simd_stride ≤ max_index = leb→le (i + simd_stride) max_index e in
              let (k, le, run) =
                mark_strides_lem fuel shift max_index (i + simd_stride) s' fits room in
              let ends : i + simd_stride + k ≡ i + (simd_stride + k) = omega arith in
              (
                simd_stride + k,
                omega (arith, le),
                rw e (
                    run
                    ∙ pair ends (
                        ap (mark_all k shift (i + simd_stride)) (stride_lem shift i s (omega arith))
                        ∙ sym (mark_all_add simd_stride k shift i s))),
              )
          | inr e ↦ let z : i + 0 ≡ i = omega arith in (0, omega arith, rw (e, z) refl)
        ]

    -- The loops of the AVX variant over one shift.
    pub scan_avx_lem :
        (shift max_index : ℕ) (max_dp : List ℕ)
        → max_index + shift ≤ length frames
        → scan_avx V loadu cmpeq_mask frames shift max_index max_dp
          ≡ (mark_all max_index shift 0 (record { last_dp = 0; max_dp = max_dp })).max_dp
    unfolding scan_avx
    scan_avx_lem shift max_index max_dp room =
        let start : Dp = record { last_dp = 0; max_dp = max_dp } in
        let (k, le, run) = mark_strides_lem max_index shift max_index 0 start (omega arith) room in
        let i : 0 + k ≡ k = omega arith in
        let n : k + (max_index - k) ≡ max_index = omega (arith, le) in
        ap (λ (p : ℕ × Dp). (mark_rest frames max_index shift max_index p.0 p.1).max_dp) run
        ∙ (ap
              (λ z.
                (mark_rest frames max_index shift max_index z (mark_all k shift 0 start)).max_dp)
              i
            ∙ (ap (λ (d : Dp). d.max_dp)
                (mark_rest_lem max_index shift max_index k (mark_all k shift 0 start) (omega arith)
                  ∙ (ap (λ z. mark_all (max_index - k) shift z (mark_all k shift 0 start)) (sym i)
                      ∙ (sym (mark_all_add k (max_index - k) shift 0 start)
                          ∙ ap (λ z. mark_all z shift 0 start) n)))))

-- ===== src/Collapse/Equivalence.antt =====
-- `CollapseRecursionAvx` against `CollapseRecursionOpt`, both of source/memhawk/src/impl/algo.cpp.
use mem_hawk.Prelude.{
  ℕ, zero, suc, ◌+◌, ◌-◌, ◌^◌, ◌≤◌, ◌<◌, ◌≡◌, refl, ap, ◌∙◌, List, ◌∷◌, Bool, Bool-cases, inl, inr,
  true, false, u8, u32, ltb, leb, ◌==◌, ◌||◌, if◌then◌else◌, set, length, replicate, arith,
}
use mem_hawk.Prelude.Bits.{bit}
use mem_hawk.Collapse.{
  at, max_unwind_depth, scan, scan_all, compact, Compacted, collapse_recursion_opt,
}
use mem_hawk.Collapse.Avx.{Dp, mark, scan_avx, scan_all_avx, collapse_recursion_avx}
use mem_hawk.Collapse.Marks.{mark_all, scan_lem, scan_avx_lem}

-- Two arrays that differ at index 0 at most.
pub record AgreeBehind (xs ys : List ℕ) : Type 0 where
  pub head : ℕ
  pub head' : ℕ
  pub tail : List ℕ
  pub left : xs ≡ head ∷ tail
  pub right : ys ≡ head' ∷ tail

at_behind : (xs ys : List ℕ) (i : ℕ) → AgreeBehind xs ys → 0 < i → at xs i ≡ at ys i
at_behind xs ys zero a h = elim h [ ]
at_behind xs ys (suc i) a h = rw (a.left, a.right) refl

set-AgreeBehind :
    (xs ys : List ℕ) (i v : ℕ)
    → AgreeBehind xs ys
    → AgreeBehind (set xs (i + 1) v) (set ys (i + 1) v)
set-AgreeBehind xs ys i v a =
    let e : i + 1 ≡ suc i = omega arith in
    rw (e, a.left, a.right)
      (record { head = a.head; head' = a.head'; tail = set a.tail i v; left = refl; right = refl })

-- A state of a loop over one shift, in the two variants.
record Alike (s s' : Dp) : Type 0 where
  last_dp : s.last_dp ≡ s'.last_dp
  max_dp : AgreeBehind s.max_dp s'.max_dp

mark-Alike :
    (shift index : ℕ) (b : Bool) (s s' : Dp)
    → Alike s s'
    → Alike (mark shift index b s) (mark shift index b s')
unfolding mark
mark-Alike shift index false s s' a = record { last_dp = refl; max_dp = a.max_dp }
mark-Alike shift index true s s' a = elim (Bool-cases (leb shift (u8 (s'.last_dp + 1)))) [
  | inl e ↦
      rw (a.last_dp, e)
        (record {
          last_dp = refl;
          max_dp = set-AgreeBehind s.max_dp s'.max_dp index (u8 shift) a.max_dp;
        })
  | inr e ↦ rw (a.last_dp, e) (record { last_dp = refl; max_dp = a.max_dp })
]

module _ (frames : List ℕ) where
  mark_all-Alike :
      (count shift index : ℕ) (s s' : Dp)
      → Alike s s'
      → Alike (mark_all frames count shift index s) (mark_all frames count shift index s')
  unfolding mark_all
  mark_all-Alike zero shift index s s' a = a
  mark_all-Alike (suc count) shift index s s' a =
      let b = at frames index == at frames (index + shift) in
      mark_all-Alike count shift (index + 1) (mark shift index b s) (mark shift index b s')
        (mark-Alike shift index b s s' a)

  -- No element has one `shift` behind it.
  scan_all_beyond :
      (left shift : ℕ) (max_dp : List ℕ)
      → length frames ≤ shift
      → shift + left < 2 ^ 32
      → scan_all frames left shift max_dp ≡ max_dp
  unfolding scan_all mark_all
  scan_all_beyond zero shift max_dp h room = refl
  scan_all_beyond (suc left) shift max_dp h room =
      let next : u32 (shift + 1) ≡ shift + 1 = omega (arith, room) in
      let none_left : length frames - shift ≡ 0 = omega arith in
      let same : scan frames shift max_dp ≡ max_dp =
        scan_lem frames shift max_dp
        ∙ ap (λ z. (mark_all frames z shift 0 (record { last_dp = 0; max_dp = max_dp })).max_dp)
            none_left in
      rw (same, next) (scan_all_beyond left (shift + 1) max_dp (omega arith) (omega (arith, room)))

-- The last loop does not read index 0 of the array of shifts.
compact-AgreeBehind :
    (fuel end cur left : ℕ) (max_dp max_dp' frames : List ℕ)
    → 0 < cur
    → AgreeBehind max_dp max_dp'
    → compact fuel end cur left max_dp frames ≡ compact fuel end cur left max_dp' frames
unfolding compact
compact-AgreeBehind zero end cur left max_dp max_dp' frames h a = refl
compact-AgreeBehind (suc fuel) end cur left max_dp max_dp' frames h a =
    let same = at_behind max_dp max_dp' cur a h in
    let keep =
      compact-AgreeBehind fuel end (cur + 1) (left + 1) max_dp max_dp'
        (set frames (left + 1) (at frames cur)) (omega arith) a in
    let drop =
      compact-AgreeBehind fuel end (cur + at max_dp' cur) left max_dp max_dp' frames (omega arith)
        a in
    rw (same, keep, drop) refl

module _ (V : Type 0) (loadu : List ℕ → ℕ → V) (lane : V → ℕ → ℕ) (cmpeq_mask : V → V → ℕ)
    (lane-loadu : (xs : List ℕ) (i j : ℕ)
      → i + 8 ≤ length xs
      → j < 8
      → lane (loadu xs i) j ≡ at xs (i + j))
    (bit-cmpeq_mask : (u v : V) (j : ℕ)
      → j < 8
      → bit (cmpeq_mask u v) j ≡ (if lane u j == lane v j then 1 else 0))
    (frames : List ℕ) (fits : length frames ≤ max_unwind_depth) where
  lanes :
      (a b j : ℕ)
      → a + 8 ≤ length frames
      → b + 8 ≤ length frames
      → j < 8
      → bit (cmpeq_mask (loadu frames a) (loadu frames b)) j
        ≡ (if at frames (a + j) == at frames (b + j) then 1 else 0)
  lanes a b j h k l =
      bit-cmpeq_mask (loadu frames a) (loadu frames b) j l
      ∙ (rw (lane-loadu frames a j h l, lane-loadu frames b j k l) refl)

  enough : (depth : ℕ) → (depth == 0 || ltb (length frames) 2) ≡ false → 1 ≤ length frames
  enough depth e = ground (arith, e)

  scan_all_avx-AgreeBehind :
      (left shift : ℕ) (max_dp max_dp' : List ℕ)
      → AgreeBehind max_dp max_dp'
      → shift ≤ length frames
      → shift + left < 2 ^ 32
      → AgreeBehind
          (scan_all_avx V loadu cmpeq_mask frames left shift max_dp)
          (scan_all frames left shift max_dp')
  unfolding scan_all_avx scan_all
  scan_all_avx-AgreeBehind zero shift max_dp max_dp' a h room = a
  scan_all_avx-AgreeBehind (suc left) shift max_dp max_dp' a h room =
      let next : u32 (shift + 1) ≡ shift + 1 = omega (arith, room) in
      let n : u32 (length frames + 2 ^ 64 - shift) ≡ length frames - shift = omega (arith, fits) in
      elim (Bool-cases (length frames - shift == 0)) [
        | inl e ↦
            let beyond : length frames ≤ shift = ground (arith, e) in
            rw (n, e) (rw (scan_all_beyond frames (suc left) shift max_dp' beyond room) a)
        | inr e ↦
            let inside : shift + 1 ≤ length frames = ground (arith, e) in
            let alike =
              mark_all-Alike frames (length frames - shift) shift 0
                (record { last_dp = 0; max_dp = max_dp }) (record { last_dp = 0; max_dp = max_dp' })
                (record { last_dp = refl; max_dp = a }) in
            let one : AgreeBehind
                (scan_avx V loadu cmpeq_mask frames shift (length frames - shift) max_dp)
                (scan frames shift max_dp') =
              rw
                (
                  scan_avx_lem frames V loadu cmpeq_mask lanes shift (length frames - shift) max_dp
                      (omega arith),
                  scan_lem frames shift max_dp',
                )
                alike.max_dp in
            rw (n, e, next)
              (scan_all_avx-AgreeBehind left (shift + 1)
                (scan_avx V loadu cmpeq_mask frames shift (length frames - shift) max_dp)
                (scan frames shift max_dp') one inside (omega (arith, room)))
      ]

  -- Where `_mm512_loadu_epi64` loads the eight elements from its address on, and digit j of the result of
  -- `_mm512_cmpeq_epi64_mask` is 1 exactly where the two vectors agree in lane j, both variants of
  -- the recursion collapse leave the same array and return the same number of frames, for every
  -- depth below 2 ^ 32 - 1 and every span of at most 64 frames.
  pub collapse_recursion_avx-collapse_recursion_opt :
      (depth : ℕ)
      → depth < 2 ^ 32 - 1
      → collapse_recursion_avx V loadu cmpeq_mask frames depth ≡ collapse_recursion_opt frames depth
  unfolding collapse_recursion_avx collapse_recursion_opt
  collapse_recursion_avx-collapse_recursion_opt depth shallow =
      elim (Bool-cases (depth == 0 || ltb (length frames) 2)) [
        | inl e ↦ rw e refl
        | inr e ↦
            let one_le : 0 < 1 = omega arith in
            let first : ℕ = if at frames 0 == at frames 1 then 1 else 0 in
            let zeros : List ℕ = replicate 63 0 in
            let arrays : AgreeBehind (scan_all_avx V loadu cmpeq_mask frames depth 1 (0 ∷ zeros))
                (scan_all frames depth 1 (first ∷ zeros)) =
              scan_all_avx-AgreeBehind depth 1 (0 ∷ zeros) (first ∷ zeros)
                (record { head = 0; head' = first; tail = zeros; left = refl; right = refl })
                (enough depth e) (omega (arith, shallow)) in
            ap
              (λ (c : Compacted).
                if depth == 0 || ltb (length frames) 2
                then (frames, length frames)
                else (c.frames, c.left + 1))
              (compact-AgreeBehind (length frames) (length frames) 1 0
                (scan_all_avx V loadu cmpeq_mask frames depth 1 (0 ∷ zeros))
                (scan_all frames depth 1 (first ∷ zeros)) frames one_le arrays)
      ]

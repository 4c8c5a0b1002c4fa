-- ===== src/Collapse/Tests.antt =====
-- The collapse of concrete traces.
use mem_hawk.Prelude.{
  ℕ, zero, suc, List, ◌≡◌, ◌∙◌, refl, ◌∷◌, [], ◌≤◌, ◌<◌, ◌+◌, ◌*◌, ◌/◌, ◌==◌, if◌then◌else◌, arith,
  length, take, drop, get_or-take, get_or-drop,
}
use mem_hawk.Prelude.Bits.{bit, bit_first, bit_rest}
use mem_hawk.Collapse.Avx.{
  mark, mark_lanes, mark_strides, mark_rest, scan_avx, scan_all_avx, collapse_recursion_avx,
}
use mem_hawk.Collapse.Equivalence.{collapse_recursion_avx-collapse_recursion_opt}
use mathlib.Core.List.{Sublistᴰ}
use mem_hawk.Collapse.Kept.{kept_frames-Sublist}
use mem_hawk.Collapse.Bounds.{compact_ends}
use mem_hawk.Collapse.{
  at, scan_round, scan_loop, scan, scan_all, compact, collapse_recursion_opt, kept_frames,
}

-- `f g f g h` keeps one `f g` at depth 2, and everything at depth 1.
collapsed :
    (kept_frames (collapse_recursion_opt (1 ∷ 2 ∷ 1 ∷ 2 ∷ 3 ∷ []) 2) ≡ 1 ∷ 2 ∷ 3 ∷ [])
    × (kept_frames (collapse_recursion_opt (1 ∷ 2 ∷ 1 ∷ 2 ∷ 3 ∷ []) 1) ≡ 1 ∷ 2 ∷ 1 ∷ 2 ∷ 3 ∷ [])
    × (kept_frames (collapse_recursion_opt (7 ∷ 7 ∷ 7 ∷ 8 ∷ []) 1) ≡ 7 ∷ 8 ∷ [])
unfolding scan_round scan_loop scan scan_all compact collapse_recursion_opt
collapsed = (refl, refl, refl)

kept_frames-Sublist_example :
    Sublistᴰ
      (kept_frames (collapse_recursion_opt (1 ∷ 2 ∷ 1 ∷ 2 ∷ 3 ∷ []) 2))
      (1 ∷ 2 ∷ 1 ∷ 2 ∷ 3 ∷ [])
    × (take 1 (kept_frames (collapse_recursion_opt (1 ∷ 2 ∷ 1 ∷ 2 ∷ 3 ∷ []) 2)) ≡ 1 ∷ [])
    × (length (kept_frames (collapse_recursion_opt (1 ∷ 2 ∷ 1 ∷ 2 ∷ 3 ∷ []) 2))
        ≡ (collapse_recursion_opt (1 ∷ 2 ∷ 1 ∷ 2 ∷ 3 ∷ []) 2).1)
kept_frames-Sublist_example =
    kept_frames-Sublist (1 ∷ 2 ∷ 1 ∷ 2 ∷ 3 ∷ []) 2 (omega arith) (omega arith)

compact_ends_example :
    (3 ≤ (compact 2 3 1 0 (0 ∷ 1 ∷ 0 ∷ []) (7 ∷ 7 ∷ 8 ∷ [])).cur)
    × (1 ≤ (compact 2 3 1 0 (0 ∷ 1 ∷ 0 ∷ []) (7 ∷ 7 ∷ 8 ∷ [])).cur)
compact_ends_example =
    compact_ends 2 3 1 0 (0 ∷ 1 ∷ 0 ∷ []) (7 ∷ 7 ∷ 8 ∷ []) (omega arith) (omega arith)

-- Vectors as lists of eight elements.
abbrev loadu : List ℕ → ℕ → List ℕ
loadu xs i = take 8 (drop i xs)

lane-loadu : (xs : List ℕ) (i j : ℕ) → i + 8 ≤ length xs → j < 8 → at (loadu xs i) j ≡ at xs (i + j)
lane-loadu xs i j h k = get_or-take 8 (drop i xs) j 0 k ∙ get_or-drop i xs j 0

equal_bits : ℕ → ℕ → List ℕ → List ℕ → ℕ
equal_bits zero i u v = 0
equal_bits (suc n) i u v = (if at u i == at v i then 1 else 0) + 2 * equal_bits n (i + 1) u v

bit-equal_bits :
    (n i j : ℕ) (u v : List ℕ)
    → j < n
    → bit (equal_bits n i u v) j ≡ (if at u (i + j) == at v (i + j) then 1 else 0)
unfolding equal_bits
bit-equal_bits zero i j u v h = elim h [ ]
bit-equal_bits (suc n) i zero u v h =
    let z : i + 0 ≡ i = omega arith in bit_first (equal_bits (suc n) i u v) ∙ rw z (ground arith)
bit-equal_bits (suc n) i (suc j) u v h =
    let z : i + suc j ≡ i + 1 + j = omega arith in
    let half : equal_bits (suc n) i u v / 2 ≡ equal_bits n (i + 1) u v = ground arith in
    bit_rest (equal_bits (suc n) i u v) j
    ∙ rw (half, z) (bit-equal_bits n (i + 1) j u v (omega arith))

abbrev repeated : List ℕ
repeated = 1 ∷ 2 ∷ 1 ∷ 2 ∷ 1 ∷ 2 ∷ 3 ∷ 3 ∷ 4 ∷ 5 ∷ 4 ∷ 5 ∷ []

collapse_recursion_avx-collapse_recursion_opt_example :
    collapse_recursion_avx (List ℕ) loadu (equal_bits 8 0) repeated 3
    ≡ collapse_recursion_opt repeated 3
collapse_recursion_avx-collapse_recursion_opt_example =
    collapse_recursion_avx-collapse_recursion_opt (List ℕ) loadu at (equal_bits 8 0) lane-loadu
      (λ u v j h. bit-equal_bits 8 0 j u v h ∙ let z : 0 + j ≡ j = omega arith in rw z refl)
      repeated (omega arith) 3 (omega arith)

-- `repeated` keeps five frames.
collapsed_avx :
    kept_frames (collapse_recursion_avx (List ℕ) loadu (equal_bits 8 0) repeated 3)
    ≡ 1 ∷ 2 ∷ 3 ∷ 4 ∷ 5 ∷ []
unfolding collapse_recursion_avx scan_all_avx scan_avx mark_strides mark_rest mark_lanes mark
    compact equal_bits
collapsed_avx = refl

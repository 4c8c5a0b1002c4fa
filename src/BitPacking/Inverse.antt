-- ===== src/BitPacking/Inverse.antt =====
-- `Decompress` undoes `Compress` (source/memhawk/src/impl/compression.cpp).
use mem_hawk.Prelude.{
  ℕ, ◌+◌, ◌-◌, ◌*◌, ◌/◌, ◌^◌, ◌≤◌, ◌<◌, ◌≡◌, refl, subst, arith, List, [], some, length, get_or,
  replicate, take, length-take, get_or-take, length-replicate, length-append,
}
use mathlib.Core.List.{append-nil}
use mem_hawk.BitPacking.Fields.{mem_bit}
use mem_hawk.BitPacking.Compression.{
  compress_into, compress, resize, decompress, calculate_control_block_size,
  calculate_max_expected_size,
}
use mem_hawk.BitPacking.Blocks.{Holds, Holds-transfer}
use mem_hawk.BitPacking.RoundTrip.{halves, length-halves, AllBelow, decompress_loop-Holds}
use mem_hawk.BitPacking.Packing.{Fits, IsCompressed, compress_into-IsCompressed}

decompress-Holds :
    (xs mem : List ℕ)
    → AllBelow (2 ^ 64) xs
    → get_or mem 0 0 ≡ length xs
    → Holds mem 32 (32 * (1 + calculate_control_block_size (length xs))) (halves 0 xs)
    → decompress mem ≡ some xs
unfolding decompress
decompress-Holds xs mem w header h = rw header (
    decompress_loop-Holds xs 0 _ _ mem (omega arith) w (omega arith) (omega arith)
      (subst (λ p. Holds mem 32 p (halves 0 xs)) (omega arith) h))

-- `Compress` into a caller's array that has room for the worst case, followed by `Decompress`, gives
-- back every array of 64-bit values whose worst-case size is below 2 ^ 32 words.
pub decompress-compress_into :
    (xs out : List ℕ)
    → AllBelow (2 ^ 64) xs
    → Fits xs
    → 1 + length xs * 2 + calculate_control_block_size (length xs) ≤ length out
    → decompress (compress_into xs out).mem ≡ some xs
decompress-compress_into xs out w fits room =
    let c = compress_into-IsCompressed xs out fits room in decompress-Holds xs _ w c.header c.held

resize_shorter : (n : ℕ) (xs : List ℕ) → n ≤ length xs → resize n xs ≡ take n xs
unfolding resize
resize_shorter n xs h =
    let none_left : n - length xs ≡ 0 = omega arith in rw none_left (append-nil (take n xs))

length-resize : (n : ℕ) (xs : List ℕ) → length (resize n xs) ≡ n
unfolding resize
length-resize n xs = omega (
  arith,
  length-append (take n xs) (replicate (n - length xs) 0),
  length-take n xs,
  length-replicate {A = ℕ} (n - length xs) 0,
)

-- A caller's array that has room for the worst case, and the part of it that `Compress` uses.
module _ (xs out : List ℕ) (fits : Fits xs)
    (wide : 1 + length xs * 2 + calculate_control_block_size (length xs) ≤ length out) where
  packed : IsCompressed xs out (compress_into xs out)
  packed = compress_into-IsCompressed xs out fits wide

  size-le : (compress_into xs out).size ≤ length (compress_into xs out).mem
  size-le = omega (arith, packed.size_bound, packed.same_length)

  abbrev used : List ℕ
  used = take (compress_into xs out).size (compress_into xs out).mem

  pub length-used :
      (length used ≡ (compress_into xs out).size)
      × (length used ≤ 1 + length xs * 2 + calculate_control_block_size (length xs))
      × (1 + calculate_control_block_size (length xs) ≤ length used)
  length-used =
      let l = length-take (compress_into xs out).size (compress_into xs out).mem in
      (
        omega (arith, l, size-le),
        omega (arith, l, size-le, packed.size_bound),
        omega (arith, l, size-le, packed.size_covers),
      )

  mem_bit-used :
      (q : ℕ)
      → q < 32 * (compress_into xs out).size
      → mem_bit used q ≡ mem_bit (compress_into xs out).mem q
  mem_bit-used q h =
      rw (get_or-take {A = ℕ} (compress_into xs out).size _ (q / 32) 0 (omega arith)) refl

  -- The used part alone is enough for `Decompress`.
  pub decompress-used : AllBelow (2 ^ 64) xs → decompress used ≡ some xs
  decompress-used w =
      decompress-Holds xs used w
        (rw
          (get_or-take {A = ℕ} (compress_into xs out).size _ 0 0
            (omega (arith, packed.size_covers)))
          packed.header)
        (Holds-transfer (halves 0 xs) (compress_into xs out).mem used _ _
          (λ q a b.
            mem_bit-used q
              (omega (arith, packed.size_covers, length-halves 0 xs, blocks_cover (length xs))))
          (λ q a b. mem_bit-used q (omega (arith, packed.size_covers))) packed.held)
    where
      blocks_cover : (n : ℕ) → 4 * n ≤ 32 * calculate_control_block_size n
      blocks_cover n = unfold calculate_control_block_size in omega arith

-- The vector that `Compress` fills, and the result cut to its size.
module _ (xs : List ℕ) (fits : Fits xs) where
  abbrev room : List ℕ
  room = resize (calculate_max_expected_size xs) []

  max_size :
      calculate_max_expected_size xs ≡ 1 + length xs * 2 + calculate_control_block_size (length xs)
  unfolding calculate_max_expected_size
  max_size = omega arith

  room_wide : 1 + length xs * 2 + calculate_control_block_size (length xs) ≤ length room
  room_wide = omega (arith, max_size, length-resize (calculate_max_expected_size xs) [])

  compress-used : compress xs ≡ used xs room fits room_wide
  unfolding compress
  compress-used = resize_shorter _ _ (size-le xs room fits room_wide)

-- `Decompress` gives back what the vector version of `Compress` was given, for every array of
-- 64-bit values whose worst-case size is below 2 ^ 32 words.
pub decompress-compress :
    (xs : List ℕ) → AllBelow (2 ^ 64) xs → Fits xs → decompress (compress xs) ≡ some xs
decompress-compress xs w fits =
    rw (compress-used xs fits) (decompress-used xs (room xs fits) fits (room_wide xs fits) w)

-- For every array whose worst-case size is below 2 ^ 32 words, the result of the vector version of
-- `Compress` is no longer than `CalculateMaxExpectedSize` says, and at least the size word and the
-- control block.
pub length-compress-le :
    (xs : List ℕ)
    → Fits xs
    → (length (compress xs) ≤ calculate_max_expected_size xs)
      × (1 + calculate_control_block_size (length xs) ≤ length (compress xs))
length-compress-le xs fits =
    let (same, most, least) = length-used xs (room xs fits) fits (room_wide xs fits) in
    rw (compress-used xs fits) (omega (arith, max_size xs fits, most), least)

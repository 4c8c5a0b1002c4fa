-- ===== src/BitPacking/Words.antt =====
-- The helpers on one word of source/memhawk/src/impl/compression.cpp, digit by digit.
use mem_hawk.Prelude.{
  ℕ, ◌+◌, ◌-◌, ◌≤◌, ◌<◌, ◌*◌, ◌^◌, ◌≡◌, arith, u32, ltb, leb, if◌then◌else◌, ◌&&◌, bit_and,
}
use mem_hawk.Prelude.Bits.{
  bit, bit-lt, bit_zero, bit-bit_or, bit-bit_and, bit-div, bit-mul, bit-mod, bit-not, bit_above,
}
use mem_hawk.BitPacking.{
  shift_left, shift_right, clear_bits, put_bits, get_bits, not32, value_bits_mask, sub32,
}

-- All digits of the mask are ones.
bit_mask : (i : ℕ) → i < 32 → bit value_bits_mask i ≡ 1
bit_mask i h = omega (arith, bit-not 32 0 i (omega arith) h, bit_zero i)

bit-not32 : (x i : ℕ) → i < 32 → bit (not32 x) i ≡ 1 - bit x i
bit-not32 x i h = ground (arith, bit-not 32 (u32 x) i (omega arith) h, bit-mod 32 x i)

pub bit-shift_left :
    (x k i : ℕ) → i < 32 → bit (shift_left x k) i ≡ (if ltb i k then 0 else bit x (i - k))
unfolding shift_left
bit-shift_left x k i h = ground (arith, bit-mod 32 (x * 2 ^ k) i, bit-mul k x i, bit_zero i)

pub bit-shift_right :
    (x k i : ℕ) → bit (shift_right x k) i ≡ (if ltb k 32 then bit x (k + i) else 0)
unfolding shift_right
bit-shift_right x k i = ground (arith, bit-div k x i, bit_zero i)

bit-mask_below :
    (to i : ℕ)
    → to ≤ 32
    → 0 < to
    → i < 32
    → bit (shift_right value_bits_mask (sub32 32 to)) i ≡ (if ltb i to then 1 else 0)
bit-mask_below to i p q h = ground (
  arith,
  bit-shift_right value_bits_mask (sub32 32 to) i,
  bit_mask (sub32 32 to + i),
  bit_above 32 value_bits_mask (sub32 32 to + i) (omega arith),
)

-- `ClearBits` clears the digits of [from, to) and no other.
pub bit-clear_bits :
    (x from to i : ℕ)
    → from < to
    → to ≤ 32
    → i < 32
    → bit (clear_bits x from to) i ≡ (if leb from i && ltb i to then 0 else bit x i)
unfolding clear_bits
bit-clear_bits x from to i p q h = ground (
  arith,
  bit-bit_and x (not32 lower) i,
  bit-not32 lower i h,
  bit-bit_and upper (shift_right value_bits_mask (sub32 32 to)) i,
  bit-mask_below to i q (omega arith) h,
  bit-bit_and x (shift_left value_bits_mask from) i,
  bit-shift_left value_bits_mask from i h,
  bit_mask (i - from) (omega arith),
  bit-lt x i,
)
  where
    upper : ℕ
    upper = bit_and x (shift_left value_bits_mask from)

    lower : ℕ
    lower = bit_and upper (shift_right value_bits_mask (sub32 32 to))

bit-low_mask :
    (k i : ℕ) → i < 32 → bit (not32 (shift_left value_bits_mask k)) i ≡ (if ltb i k then 1 else 0)
bit-low_mask k i h = ground (
  arith,
  bit-not32 (shift_left value_bits_mask k) i h,
  bit-shift_left value_bits_mask k i h,
  bit_mask (i - k) (omega arith),
)

-- A round of `EncodeBits` replaces the digits of [index, index + cur) by the low ones of the value.
pub bit-put_bits :
    (word index cur value i : ℕ)
    → 0 < cur
    → index + cur ≤ 32
    → i < 32
    → bit (put_bits word index cur value) i
      ≡ (if leb index i && ltb i (index + cur) then bit value (i - index) else bit word i)
unfolding put_bits
bit-put_bits word index cur value i p q h = ground (
  arith,
  bit-bit_or (clear_bits word index (index + cur)) (shift_left field index) i,
  bit-clear_bits word index (index + cur) i (omega arith) q h,
  bit-shift_left field index i h,
  bit-bit_and value (not32 (shift_left value_bits_mask cur)) (i - index),
  bit-low_mask cur (i - index) (omega arith),
  bit-lt value (i - index),
)
  where
    field : ℕ
    field = bit_and value (not32 (shift_left value_bits_mask cur))

-- A round of `DecodeBits` reads the digits of [index, index + cur).
pub bit-get_bits :
    (word index cur i : ℕ)
    → index + cur ≤ 32
    → 0 < cur
    → i < 32
    → bit (get_bits word index cur) i ≡ (if ltb i cur then bit word (index + i) else 0)
unfolding get_bits
bit-get_bits word index cur i q p h = ground (
  arith,
  bit-bit_and (shift_right word index) (not32 (shift_left value_bits_mask cur)) i,
  bit-low_mask cur i h,
  bit-shift_right word index i,
  bit-lt word (index + i),
)

-- ===== src/BitPacking/Reads.antt =====
-- `DecodeBits` of source/memhawk/src/impl/compression.cpp on the row of digits.
use mem_hawk.Prelude.{
  ℕ, zero, suc, ◌+◌, ◌-◌, ◌/◌, ◌%◌, ◌^◌, ◌≤◌, ◌<◌, max, ◌≡◌, arith, List, ltb, leb, ◌==◌,
  if◌then◌else◌, ◌&&◌, Bool-cases, inl, inr, bit_or,
}
use mem_hawk.Prelude.Bits.{bit, bit-bit_or, bit_or-lt, bit_zero}
use mem_hawk.BitPacking.{
  BitIterator, Read, cur_bits_count, advance_bits, load, get_bits, shift_left, decode_bits_loop,
  decode_bits,
}
use mem_hawk.BitPacking.Words.{bit-get_bits, bit-shift_left}
use mem_hawk.BitPacking.Fields.{
  position, IsIterator, mem_bit, cur_bits_count_bounds, position-advance_bits,
}

-- Digit `i` of what a loop adds to the value that it starts from.
abbrev added : BitIterator → ℕ → ℕ → List ℕ → ℕ → ℕ
added it c decoded mem i =
    if leb decoded i && ltb i (decoded + c) then mem_bit mem (position it + (i - decoded)) else 0

record IsRead (it : BitIterator) (c value decoded : ℕ) (mem : List ℕ) (out : Read) : Type 0 where
  moved : position out.iter ≡ position it + c
  iterator : IsIterator out.iter
  small : out.value < 2 ^ 32
  digits : (i : ℕ) → i < 32 → bit out.value i ≡ max (bit value i) (added it c decoded mem i)

-- One round, and the rest of the loop.
module _ (it : BitIterator) (c value decoded : ℕ) (mem : List ℕ) (v : IsIterator it) (pos : 0 < c)
    (w : decoded + c ≤ 32) (fits : value < 2 ^ 32) where
  abbrev cur : ℕ
  cur = cur_bits_count it c

  abbrev field : ℕ
  field = get_bits (load it mem) it.bit_index cur

  abbrev joined : ℕ
  joined = bit_or value (shift_left field decoded)

  count_bounds : (0 < cur) × (cur ≤ c) × (it.bit_index + cur ≤ 32)
  count_bounds = cur_bits_count_bounds it c v.in_word pos

  next_place :
      (position (advance_bits it cur) ≡ position it + cur) × IsIterator (advance_bits it cur)
  next_place = position-advance_bits it cur v count_bounds.2

  joined-lt : joined < 2 ^ 32
  unfolding shift_left
  joined-lt = bit_or-lt 32 value (shift_left field decoded) fits (ground arith)

  bit-field :
      (i : ℕ) → i < 32 → bit field i ≡ (if ltb i cur then mem_bit mem (position it + i) else 0)
  bit-field i h = elim (Bool-cases (ltb i cur)) [
    | inl inside ↦
        let word : (position it + i) / 32 ≡ it.value = ground (arith, count_bounds, v.in_word) in
        let place : (position it + i) % 32 ≡ it.bit_index + i =
          ground (arith, count_bounds, v.in_word) in
        rw (word, place)
          (bit-get_bits (load it mem) it.bit_index cur i count_bounds.2 count_bounds.0 h)
    | inr outside ↦
        ground
          (arith, bit-get_bits (load it mem) it.bit_index cur i count_bounds.2 count_bounds.0 h)
  ]

  IsRead-step :
      (out : Read)
      → IsRead (advance_bits it cur) (c - cur) joined (decoded + cur) mem out
      → IsRead it c value decoded mem out
  IsRead-step out rest = record {
    moved = omega (arith, next_place, count_bounds, rest.moved);
    iterator = rest.iterator;
    small = rest.small;
    digits = λ i h. ground (
      arith,
      next_place.0,
      count_bounds,
      rest.digits i h,
      bit-bit_or value (shift_left field decoded) i,
      bit-shift_left field decoded i h,
      bit-field (i - decoded) (omega arith),
    );
  }

decode_bits_loop-IsRead :
    (fuel : ℕ) (it : BitIterator) (c value decoded : ℕ) (mem : List ℕ)
    → IsIterator it
    → c ≤ fuel
    → decoded + c ≤ 32
    → value < 2 ^ 32
    → IsRead it c value decoded mem (decode_bits_loop fuel it c value decoded mem)
unfolding decode_bits_loop
decode_bits_loop-IsRead zero it c value decoded mem v h w fits = record {
  moved = omega arith;
  iterator = v;
  small = fits;
  digits = λ i k. ground arith;
}
decode_bits_loop-IsRead (suc fuel) it c value decoded mem v h w fits = elim (Bool-cases (c == 0)) [
  | inl done ↦
      rw done
        (record { moved = ground arith; iterator = v; small = fits; digits = λ i k. ground arith })
  | inr more ↦
      let pos : 0 < c = ground arith in
      let b = count_bounds it c value decoded mem v pos w fits in
      let a = next_place it c value decoded mem v pos w fits in
      rw more (
        IsRead-step it c value decoded mem v pos w fits _ (
          decode_bits_loop-IsRead fuel _ _ _ _ _ a.1 (omega arith) (omega arith)
            (joined-lt it c value decoded mem v pos w fits)))
]

-- `DecodeBits` reads the `c` digits at the iterator's place.
pub record IsField (it : BitIterator) (c : ℕ) (mem : List ℕ) (out : Read) : Type 0 where
  pub moved : position out.iter ≡ position it + c
  pub iterator : IsIterator out.iter
  pub small : out.value < 2 ^ 32
  pub digits :
      (i : ℕ) → i < 32 → bit out.value i ≡ (if ltb i c then mem_bit mem (position it + i) else 0)

pub decode_bits-IsField :
    (it : BitIterator) (c : ℕ) (mem : List ℕ)
    → IsIterator it
    → c ≤ 32
    → IsField it c mem (decode_bits it c mem)
unfolding decode_bits
decode_bits-IsField it c mem v w =
    let r = decode_bits_loop-IsRead c it c 0 0 mem v (omega arith) (omega arith) (omega arith) in
    record {
      moved = r.moved;
      iterator = r.iterator;
      small = r.small;
      digits = λ i h. ground (arith, r.digits i h, bit_zero i);
    }

-- ===== src/BitPacking/Fields.antt =====
-- `EncodeBits` of source/memhawk/src/impl/compression.cpp on the whole array, seen
-- as one row of digits: digit `q` of the array is digit `q % 32` of word `q / 32`.
use mem_hawk.Prelude.{
  ℕ, zero, suc, ◌+◌, ◌-◌, ◌*◌, ◌/◌, ◌%◌, ◌≤◌, ◌<◌, ◌≡◌, refl, arith, List, u32, ltb, leb, ◌==◌,
  if◌then◌else◌, ◌&&◌, get_or, length, length-set, get_or-set_self, get_or-set_ne, Bool-cases, inl,
  inr,
}
use mem_hawk.Prelude.Bits.{bit}
use mem_hawk.BitPacking.{
  BitIterator, Written, cur_bits_count, advance_bits, load, store, put_bits, shift_right,
  encode_bits_loop, encode_bits,
}
use mem_hawk.BitPacking.Words.{bit-put_bits, bit-shift_right}

-- The iterator's place in the row.
abbrev pub position : BitIterator → ℕ
position it = it.value * 32 + it.bit_index

pub record IsIterator (it : BitIterator) : Type 0 where
  pub in_word : it.bit_index < 32
  pub same_place : it.value_pos ≡ u32 it.value

abbrev pub mem_bit : List ℕ → ℕ → ℕ
mem_bit mem q = bit (get_or mem (q / 32) 0) (q % 32)

pub cur_bits_count_bounds :
    (it : BitIterator) (c : ℕ)
    → it.bit_index < 32
    → 0 < c
    → (0 < cur_bits_count it c)
      × (cur_bits_count it c ≤ c)
      × (it.bit_index + cur_bits_count it c ≤ 32)
unfolding cur_bits_count
cur_bits_count_bounds it c h p = ground arith

pub position-advance_bits :
    (it : BitIterator) (cur : ℕ)
    → IsIterator it
    → it.bit_index + cur ≤ 32
    → (position (advance_bits it cur) ≡ position it + cur) × IsIterator (advance_bits it cur)
unfolding advance_bits
position-advance_bits it cur v h = ground arith

value-advance_bits : (it : BitIterator) (cur : ℕ) → it.value ≤ (advance_bits it cur).value
unfolding advance_bits
value-advance_bits it cur = ground arith

mem_bit-store :
    (it : BitIterator) (cur value : ℕ) (mem : List ℕ) (q : ℕ)
    → 0 < cur
    → it.bit_index + cur ≤ 32
    → it.value < length mem
    → mem_bit (store it (put_bits (load it mem) it.bit_index cur value) mem) q ≡ (
        if leb (position it) q && ltb q (position it + cur)
        then bit value (q - position it)
        else mem_bit mem q)
mem_bit-store it cur value mem q p h inside = elim (Bool-cases (it.value == q / 32)) [
  | inl here ↦
      let same : it.value ≡ q / 32 = ground arith in
      let offset : q % 32 - it.bit_index ≡ q - position it = omega arith in
      ground (
        arith,
        get_or-set_self mem it.value (put_bits (load it mem) it.bit_index cur value) 0 inside,
        bit-put_bits (load it mem) it.bit_index cur value (q % 32) p h (omega arith),
      )
  | inr there ↦
      ground (
        arith,
        get_or-set_ne mem it.value (q / 32) (put_bits (load it mem) it.bit_index cur value) 0,
      )
]

-- `out` is `mem` with `c` digits of `value` written from the iterator's place on.
pub record IsWritten (it : BitIterator) (c value : ℕ) (mem : List ℕ) (out : Written) : Type 0 where
  pub moved : position out.iter ≡ position it + c
  pub iterator : IsIterator out.iter
  pub same_length : length out.mem ≡ length mem
  pub before : (j : ℕ) → j < it.value → get_or out.mem j 0 ≡ get_or mem j 0
  pub digits :
      (q : ℕ)
      → mem_bit out.mem q ≡ (
          if leb (position it) q && ltb q (position it + c)
          then bit value (q - position it)
          else mem_bit mem q)

-- One round, and the rest of the loop.
module _ (it : BitIterator) (c value : ℕ) (mem : List ℕ) (v : IsIterator it) (pos : 0 < c)
    (w : c ≤ 32) (inside : position it + c ≤ 32 * length mem) where
  abbrev cur : ℕ
  cur = cur_bits_count it c

  abbrev stored : List ℕ
  stored = store it (put_bits (load it mem) it.bit_index cur value) mem

  count_bounds : (0 < cur) × (cur ≤ c) × (it.bit_index + cur ≤ 32)
  count_bounds = cur_bits_count_bounds it c v.in_word pos

  next_place :
      (position (advance_bits it cur) ≡ position it + cur) × IsIterator (advance_bits it cur)
  next_place = position-advance_bits it cur v count_bounds.2

  length-stored : length stored ≡ length mem
  length-stored = length-set mem it.value _

  IsWritten-step :
      (out : Written)
      → IsWritten (advance_bits it cur) (c - cur) (shift_right value cur) stored out
      → IsWritten it c value mem out
  IsWritten-step out rest = record {
    moved = omega (arith, next_place, count_bounds, rest.moved);
    iterator = rest.iterator;
    same_length = omega (arith, length-stored, rest.same_length);
    before = λ j h. ground (
      arith,
      value-advance_bits it cur,
      rest.before j,
      get_or-set_ne mem it.value j (put_bits (load it mem) it.bit_index cur value) 0,
    );
    digits = λ q. ground (
      arith,
      next_place.0,
      count_bounds,
      rest.digits q,
      mem_bit-store it cur value mem q count_bounds.0 count_bounds.2 (omega arith),
      bit-shift_right value cur (q - position (advance_bits it cur)),
    );
  }

encode_bits_loop-IsWritten :
    (fuel : ℕ) (it : BitIterator) (c value : ℕ) (mem : List ℕ)
    → IsIterator it
    → c ≤ fuel
    → c ≤ 32
    → position it + c ≤ 32 * length mem
    → IsWritten it c value mem (encode_bits_loop fuel it c value mem)
unfolding encode_bits_loop
encode_bits_loop-IsWritten zero it c value mem v h w inside = record {
  moved = omega arith;
  iterator = v;
  same_length = refl;
  before = λ j k. refl;
  digits = λ q. ground arith;
}
encode_bits_loop-IsWritten (suc fuel) it c value mem v h w inside = elim (Bool-cases (c == 0)) [
  | inl done ↦ rw done (record {
    moved = ground arith;
    iterator = v;
    same_length = refl;
    before = λ j k. refl;
    digits = λ q. ground arith;
  })
  | inr more ↦
      let pos : 0 < c = ground arith in
      let b = count_bounds it c value mem v pos w inside in
      let a = next_place it c value mem v pos w inside in
      let l = length-stored it c value mem v pos w inside in
      rw more (
        IsWritten-step it c value mem v pos w inside _
          (encode_bits_loop-IsWritten fuel _ _ _ _ a.1 (omega arith) (omega arith) (omega arith)))
]

-- `EncodeBits` writes the value's low digits at the iterator's place, and changes no other digit.
pub encode_bits-IsWritten :
    (it : BitIterator) (c value : ℕ) (mem : List ℕ)
    → IsIterator it
    → c ≤ 32
    → position it + c ≤ 32 * length mem
    → IsWritten it c value mem (encode_bits it c value mem)
unfolding encode_bits
encode_bits-IsWritten it c value mem v w inside =
    encode_bits_loop-IsWritten c it c value mem v (omega arith) w inside

-- ===== src/BitPacking.antt =====
-- The bit packing of source/memhawk/src/impl/compression.{h,cpp}.
--
-- An array of `uint32_t` is a list of numbers below 2 ^ 32. A `BitIterator`'s pointer is the index
-- of the word that it points to; its position in `valuePos` is kept apart, as in the source.
-- The loops take the number of bits as fuel: a round handles at least one bit.
pub mod Words
pub mod Fields
pub mod Reads
pub mod Compression
pub mod Values
pub mod Blocks
pub mod RoundTrip
pub mod Packing
pub mod Inverse
mod Tests
use mem_hawk.Prelude.{
  ℕ, zero, suc, ◌+◌, ◌-◌, ◌*◌, ◌/◌, ◌^◌, bit_and, bit_or, List, [], ◌∷◌, u32, u64, sub64, ltb, leb,
  ◌==◌, if◌then◌else◌, get_or, set, length, take, replicate,
}

abbrev pub value_bits_size : ℕ
value_bits_size = 32

abbrev pub value_bits_mask : ℕ
value_bits_mask = 0xffff_ffff

pub record BitIterator : Type 0 where
  pub value : ℕ
  pub bit_index : ℕ
  pub value_pos : ℕ

abbrev pub from_data : BitIterator
from_data = record { value = 0; bit_index = 0; value_pos = 0 }

abbrev pub advance_bytes : BitIterator → ℕ → BitIterator
advance_bytes it cnt = record it { value = it.value + cnt; value_pos = u32 (it.value_pos + cnt) }

-- `~value` on `uint32_t`.
abbrev pub not32 : ℕ → ℕ
not32 value = 2 ^ 32 - 1 - u32 value

-- `a - b` on `uint32_t`.
abbrev pub sub32 : ℕ → ℕ → ℕ
sub32 a b = u32 (a + 2 ^ 32 - b)

unfoldable pub shift_left : ℕ → ℕ → ℕ
shift_left value count = if leb value_bits_size count then 0 else u32 (value * 2 ^ count)

unfoldable pub shift_right : ℕ → ℕ → ℕ
shift_right value count = if leb value_bits_size count then 0 else value / 2 ^ count

unfoldable pub clear_bits : ℕ → ℕ → ℕ → ℕ
clear_bits value from to =
    let upper = bit_and value (shift_left value_bits_mask from) in
    let lower = bit_and upper (shift_right value_bits_mask (sub32 value_bits_size to)) in
    bit_and value (not32 lower)

-- `*iter.value`, and a store to it.
abbrev pub load : BitIterator → List ℕ → ℕ
load it mem = get_or mem it.value 0

abbrev pub store : BitIterator → ℕ → List ℕ → List ℕ
store it v mem = set mem it.value v

unfoldable pub clear_unused_bits : BitIterator → List ℕ → List ℕ
clear_unused_bits it mem =
    if it.bit_index == 0
    then mem
    else store it (clear_bits (load it mem) it.bit_index value_bits_size) mem

-- How many of the bits that are left go into, or come from, the current word.
unfoldable pub cur_bits_count : BitIterator → ℕ → ℕ
cur_bits_count it bit_count =
    let max_bit_diff = sub32 value_bits_size it.bit_index in
    if leb bit_count max_bit_diff then bit_count else max_bit_diff

-- The end of a round: the iterator moves on by `cur` bits.
unfoldable pub advance_bits : BitIterator → ℕ → BitIterator
advance_bits it cur =
    if leb value_bits_size (it.bit_index + cur)
    then record { value = it.value + 1; bit_index = 0; value_pos = u32 (it.value_pos + 1) }
    else record it { bit_index = it.bit_index + cur }

-- What a round of `EncodeBits` stores.
unfoldable pub put_bits : ℕ → ℕ → ℕ → ℕ → ℕ
put_bits word index cur value =
    let bits_mask = not32 (shift_left value_bits_mask cur) in
    let cur_bits_value = bit_and value bits_mask in
    bit_or (clear_bits word index (index + cur)) (shift_left cur_bits_value index)

-- What a round of `DecodeBits` reads.
unfoldable pub get_bits : ℕ → ℕ → ℕ → ℕ
get_bits word index cur =
    let bits_mask = not32 (shift_left value_bits_mask cur) in
    bit_and (shift_right word index) bits_mask

pub record Written : Type 0 where
  pub iter : BitIterator
  pub mem : List ℕ

unfoldable pub encode_bits_loop : ℕ → BitIterator → ℕ → ℕ → List ℕ → Written
encode_bits_loop zero it bit_count value mem = record { iter = it; mem = mem }
encode_bits_loop (suc fuel) it bit_count value mem =
    let cur = cur_bits_count it bit_count in
    let rest =
      encode_bits_loop fuel (advance_bits it cur) (bit_count - cur) (shift_right value cur)
        (store it (put_bits (load it mem) it.bit_index cur value) mem) in
    if bit_count == 0 then record { iter = it; mem = mem } else rest

unfoldable pub encode_bits : BitIterator → ℕ → ℕ → List ℕ → Written
encode_bits it bit_count value mem = encode_bits_loop bit_count it bit_count value mem

pub record Read : Type 0 where
  pub iter : BitIterator
  pub value : ℕ

unfoldable pub decode_bits_loop : ℕ → BitIterator → ℕ → ℕ → ℕ → List ℕ → Read
decode_bits_loop zero it bit_count value decoded mem = record { iter = it; value = value }
decode_bits_loop (suc fuel) it bit_count value decoded mem =
    let cur = cur_bits_count it bit_count in
    let cur_bits_value = get_bits (load it mem) it.bit_index cur in
    let rest =
      decode_bits_loop fuel (advance_bits it cur) (bit_count - cur)
        (bit_or value (shift_left cur_bits_value decoded)) (decoded + cur) mem in
    if bit_count == 0 then record { iter = it; value = value } else rest

unfoldable pub decode_bits : BitIterator → ℕ → List ℕ → Read
decode_bits it bit_count mem = decode_bits_loop bit_count it bit_count 0 0 mem

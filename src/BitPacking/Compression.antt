-- ===== src/BitPacking/Compression.antt =====
-- One value, and whole arrays, of source/memhawk/src/impl/compression.cpp.
--
-- The control block and the values stand in one array, which both iterators share.
-- `none` is the unreachable `default` of the switch in `Decode`.
use mem_hawk.Prelude.{
  ℕ, zero, suc, ◌+◌, ◌-◌, ◌*◌, ◌/◌, ◌^◌, bit_or, List, [], ◌∷◌, ◌++◌, Option, none, some, u32, u64,
  add64, sub64, ltb, ◌==◌, if◌then◌else◌, get_or, set, length, take, replicate,
}
use mem_hawk.BitPacking.{
  BitIterator, from_data, advance_bytes, value_bits_size, encode_bits, decode_bits,
  clear_unused_bits,
}

abbrev pub size_zero : ℕ
size_zero = 0

abbrev pub size_two_bytes : ℕ
size_two_bytes = 1

abbrev pub size_three_bytes : ℕ
size_three_bytes = 2

abbrev pub size_four_bytes : ℕ
size_four_bytes = 3

-- The iterators of `Compress` and its array.
pub record Streams : Type 0 where
  pub control : BitIterator
  pub values : BitIterator
  pub mem : List ℕ

-- A branch of `Encode`: the control bits, then the value unless `bit_count` is 0.
unfoldable pub put_value : Streams → ℕ → ℕ → ℕ → Streams
put_value s size_bits bit_count value =
    let c = encode_bits s.control 2 size_bits s.mem in
    let d = encode_bits s.values bit_count value c.mem in
    if bit_count == 0
    then record { control = c.iter; values = s.values; mem = c.mem }
    else record { control = c.iter; values = d.iter; mem = d.mem }

unfoldable pub encode : Streams → ℕ → Streams
encode s value =
    if value == 0
    then put_value s size_zero 0 value
    else if ltb value (2 ^ 16)
    then put_value s size_two_bytes 16 value
    else if ltb value (2 ^ 24)
    then put_value s size_three_bytes 24 value
    else put_value s size_four_bytes 32 value

pub record Decoded : Type 0 where
  pub control : BitIterator
  pub values : BitIterator
  pub value : ℕ

-- A branch of `Decode` that reads `bit_count` bits.
unfoldable pub get_value : BitIterator → BitIterator → ℕ → List ℕ → Option Decoded
get_value control values bit_count mem =
    let d = decode_bits values bit_count mem in
    some (record { control = control; values = d.iter; value = d.value })

unfoldable pub decode : BitIterator → BitIterator → List ℕ → Option Decoded
decode control values mem =
    let c = decode_bits control 2 mem in
    if c.value == size_zero
    then some (record { control = c.iter; values = values; value = 0 })
    else if c.value == size_two_bytes
    then get_value c.iter values 16 mem
    else if c.value == size_three_bytes
    then get_value c.iter values 24 mem
    else if c.value == size_four_bytes
    then get_value c.iter values 32 mem
    else none

unfoldable pub calculate_control_block_size : ℕ → ℕ
calculate_control_block_size size = (size * 2 * 2 + value_bits_size - 1) / value_bits_size

unfoldable pub calculate_max_expected_size : List ℕ → ℕ
unfolding calculate_control_block_size
calculate_max_expected_size xs = u32 (1 + length xs * 2 + calculate_control_block_size (length xs))

-- The loop of `Compress`.
unfoldable pub compress_loop : ℕ → List ℕ → Streams → Streams
compress_loop prev [] s = s
compress_loop prev (cur ∷ xs) s =
    let diff = sub64 cur prev in
    let high = u32 (diff / 2 ^ 32) in
    let low = u32 diff in compress_loop cur xs (encode (encode s low) high)

pub record Compressed : Type 0 where
  pub mem : List ℕ
  pub size : ℕ

-- The end of `Compress`, after its loop.
unfoldable pub finish : Streams → Compressed
finish s =
    let mem = clear_unused_bits s.control (clear_unused_bits s.values s.mem) in
    record {
      mem = mem;
      size = if s.values.bit_index == 0 then s.values.value_pos else u32 (s.values.value_pos + 1);
    }

-- The start of `Compress`.
unfoldable pub start_streams : List ℕ → List ℕ → Streams
start_streams xs out = record {
  control = advance_bytes from_data 1;
  values = advance_bytes from_data (1 + calculate_control_block_size (length xs));
  mem = set out 0 (u32 (length xs));
}

-- `Compress` into an array that the caller gives.
unfoldable pub compress_into : List ℕ → List ℕ → Compressed
compress_into xs out = finish (compress_loop 0 xs (start_streams xs out))

-- `std::vector::resize`, which drops the last elements or adds zeros.
unfoldable pub resize : ℕ → List ℕ → List ℕ
resize n xs = take n xs ++ replicate (n - length xs) 0

-- `Compress` into a vector.
unfoldable pub compress : List ℕ → List ℕ
compress xs =
    let out = resize (calculate_max_expected_size xs) [] in
    let c = compress_into xs out in resize c.size c.mem

-- The loop of `Decompress`, with the values that it stores.
unfoldable pub decompress_loop : ℕ → ℕ → BitIterator → BitIterator → List ℕ → Option (List ℕ)
decompress_loop zero prev control values mem = some []
decompress_loop (suc left) prev control values mem = elim (decode control values mem) [
  | none ↦ none
  | some low ↦ elim (decode low.control low.values mem) [
    | none ↦ none
    | some high ↦
        let diff = bit_or (u64 (high.value * 2 ^ 32)) low.value in
        let cur = add64 prev diff in
        elim (decompress_loop left cur high.control high.values mem) [
          | none ↦ none
          | some rest ↦ some (cur ∷ rest)
        ]
  ]
]

unfoldable pub decompress : List ℕ → Option (List ℕ)
decompress mem =
    let total = get_or mem 0 0 in
    let control = advance_bytes from_data 1 in
    let values = advance_bytes from_data (1 + calculate_control_block_size total) in
    decompress_loop total 0 control values mem

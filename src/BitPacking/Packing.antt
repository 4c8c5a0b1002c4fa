-- ===== src/BitPacking/Packing.antt =====
-- What `Compress` of source/memhawk/src/impl/compression.cpp leaves in the array.
use mem_hawk.Prelude.{
  ℕ, ◌+◌, ◌*◌, ◌/◌, ◌%◌, ◌^◌, ◌≤◌, ◌<◌, ◌≡◌, refl, ◌∙◌, subst, arith, List, length, get_or, ◌⊎◌,
  inl, inr, u32, length-set, get_or-set_self, get_or-set_ne, Bool-cases, ◌==◌,
}
use mem_hawk.BitPacking.{BitIterator, clear_unused_bits, clear_bits, load}
use mem_hawk.BitPacking.Words.{bit-clear_bits}
use mem_hawk.BitPacking.Fields.{position, IsIterator, mem_bit}
use mem_hawk.BitPacking.Compression.{
  Streams, Compressed, compress_into, start_streams, finish, calculate_control_block_size,
}
use mem_hawk.BitPacking.Blocks.{total_width, Holds, Holds-transfer, IsPacked, encode_all-IsPacked}
use mem_hawk.BitPacking.RoundTrip.{
  halves, length-halves, total_width-halves, compress_loop-encode_all,
}

-- `ClearUnusedBits` changes nothing outside the rest of the current word.
record IsCleared (it : BitIterator) (mem out : List ℕ) : Type 0 where
  same_length : length out ≡ length mem
  header : 0 < it.value → get_or out 0 0 ≡ get_or mem 0 0
  others :
      (q : ℕ)
      → (q < position it) ⊎ ((position it + 31) / 32 * 32 ≤ q)
      → mem_bit out q ≡ mem_bit mem q

clear_unused_bits-IsCleared :
    (it : BitIterator) (mem : List ℕ)
    → IsIterator it
    → it.value < length mem ⊎ (it.bit_index ≡ 0)
    → IsCleared it mem (clear_unused_bits it mem)
unfolding clear_unused_bits
clear_unused_bits-IsCleared it mem v h = elim (Bool-cases (it.bit_index == 0)) [
  | inl whole ↦ rw whole (record { same_length = refl; header = λ p. refl; others = λ q p. refl })
  | inr part ↦ rw part (record {
    same_length = length-set mem it.value _;
    header = λ p. get_or-set_ne mem it.value 0 _ 0 (omega arith);
    others = λ q p. elim (Bool-cases (it.value == q / 32)) [
      | inl here ↦
          let same : it.value ≡ q / 32 = ground arith in
          ground (
            arith,
            get_or-set_self mem it.value (clear_bits (load it mem) it.bit_index 32) 0,
            bit-clear_bits (load it mem) it.bit_index 32 (q % 32) v.in_word,
          )
      | inr there ↦
          ground (
            arith,
            get_or-set_ne mem it.value (q / 32) (clear_bits (load it mem) it.bit_index 32) 0,
          )
    ];
  })
]

-- What `Compress` leaves in the caller's array.
pub record IsCompressed (xs : List ℕ) (out : List ℕ) (c : Compressed) : Type 0 where
  pub same_length : length c.mem ≡ length out
  pub header : get_or c.mem 0 0 ≡ length xs
  pub size_bound : c.size ≤ 1 + length xs * 2 + calculate_control_block_size (length xs)
  pub size_covers :
      32 * (1 + calculate_control_block_size (length xs)) + total_width (halves 0 xs) ≤ 32 * c.size
  pub held : Holds c.mem 32 (32 * (1 + calculate_control_block_size (length xs))) (halves 0 xs)

abbrev pub Fits : List ℕ → Type 0
Fits xs = 1 + length xs * 2 + calculate_control_block_size (length xs) < 2 ^ 32

-- The end of `Compress`, given what its loop leaves.
module _ (xs out : List ℕ) (s : Streams) (fits : Fits xs)
    (room : 1 + length xs * 2 + calculate_control_block_size (length xs) ≤ length out)
    (packed : IsPacked (start_streams xs out) (halves 0 xs) s) where
  abbrev blocks : ℕ
  blocks = calculate_control_block_size (length xs)

  blocks_cover : (4 * length xs ≤ 32 * blocks) × (32 * blocks < 4 * length xs + 32)
  unfolding calculate_control_block_size
  blocks_cover = omega arith

  control_place : position s.control ≡ 32 + 4 * length xs
  unfolding start_streams
  control_place = omega (arith, packed.control_moved, length-halves 0 xs)

  values_place : position s.values ≡ 32 * (1 + blocks) + total_width (halves 0 xs)
  unfolding start_streams
  values_place = omega (arith, packed.values_moved)

  length-packed : length s.mem ≡ length out
  unfolding start_streams
  length-packed = packed.same_length ∙ length-set out 0 (u32 (length xs))

  values_in_array : (s.values.value < length s.mem) ⊎ (s.values.bit_index ≡ 0)
  values_in_array = elim (Bool-cases (s.values.bit_index == 0)) [
    | inl whole ↦ inr (ground arith)
    | inr part ↦
        inl (ground (arith, values_place, total_width-halves 0 xs, length-packed, blocks_cover))
  ]

  control_in_array : (s.control.value < length s.mem) ⊎ (s.control.bit_index ≡ 0)
  control_in_array = elim (Bool-cases (s.control.bit_index == 0)) [
    | inl whole ↦ inr (ground arith)
    | inr part ↦ inl (ground (arith, control_place, length-packed, blocks_cover))
  ]

  values-IsCleared : IsCleared s.values s.mem (clear_unused_bits s.values s.mem)
  values-IsCleared =
      clear_unused_bits-IsCleared s.values s.mem packed.values_iterator values_in_array

  control-IsCleared : IsCleared s.control (clear_unused_bits s.values s.mem) (finish s).mem
  unfolding finish
  control-IsCleared =
      clear_unused_bits-IsCleared s.control _ packed.control_iterator
        (ground (arith, control_in_array, values-IsCleared.same_length))

  -- Clearing touches no digit of the row.
  kept :
      (q : ℕ)
      → (q < position s.control) ⊎ (32 * (1 + blocks) ≤ q)
      → q < position s.values
      → mem_bit (finish s).mem q ≡ mem_bit s.mem q
  kept q p r = ground (
    arith,
    control-IsCleared.others q,
    values-IsCleared.others q,
    control_place,
    blocks_cover,
    packed.control_iterator.in_word,
  )

  header_kept : get_or (finish s).mem 0 0 ≡ length xs
  unfolding start_streams
  header_kept = ground (
    arith,
    control-IsCleared.header,
    values-IsCleared.header,
    packed.header,
    get_or-set_self out 0 (u32 (length xs)) 0,
    control_place,
    values_place,
    packed.control_iterator.in_word,
    packed.values_iterator.in_word,
  )

  size_bounds :
      ((finish s).size ≤ 1 + length xs * 2 + blocks) × (position s.values ≤ 32 * (finish s).size)
  unfolding finish
  size_bounds = ground (
    arith,
    values_place,
    total_width-halves 0 xs,
    packed.values_iterator.in_word,
    packed.values_iterator.same_place,
    fits,
  )

  finish-IsCompressed : IsCompressed xs out (finish s)
  unfolding start_streams
  finish-IsCompressed = record {
    same_length =
        omega (arith, control-IsCleared.same_length, values-IsCleared.same_length, length-packed);
    header = header_kept;
    size_bound = size_bounds.0;
    size_covers = omega (arith, size_bounds.1, values_place);
    held =
        Holds-transfer (halves 0 xs) s.mem (finish s).mem 32 (32 * (1 + blocks))
          (λ q p r.
            kept q (inl (omega (arith, control_place, length-halves 0 xs)))
              (omega (arith, values_place, blocks_cover, length-halves 0 xs)))
          (λ q p r. kept q (inr p) (omega (arith, values_place)))
          (subst (λ p. Holds s.mem 32 p (halves 0 xs)) (omega arith) packed.held);
  }

-- In an array with room for the worst case, `Compress` stores the number of elements and then the
-- row of differences, and nothing that it stores is cut off.
pub compress_into-IsCompressed :
    (xs out : List ℕ)
    → Fits xs
    → 1 + length xs * 2 + calculate_control_block_size (length xs) ≤ length out
    → IsCompressed xs out (compress_into xs out)
unfolding compress_into start_streams calculate_control_block_size
compress_into-IsCompressed xs out fits room = finish-IsCompressed xs out _ fits room (
    rw (compress_loop-encode_all 0 xs (start_streams xs out)) (
      encode_all-IsPacked (halves 0 xs) (start_streams xs out) (record {
        control_iterator = omega arith;
        values_iterator = omega arith;
        past_header = omega arith;
        apart = omega (arith, length-halves 0 xs);
        room = omega (arith, total_width-halves 0 xs, length-set out 0 (u32 (length xs)));
      })))

-- ===== src/BitPacking/Tests.antt =====
-- Runs of the bit packing, and its theorems at concrete inputs.
use mem_hawk.Prelude.{ℕ, List, [], ◌∷◌, ◌≡◌, ◌+◌, ◌≤◌, refl, some, arith, replicate, length}
use mem_hawk.BitPacking.Inverse.{decompress-compress, decompress-compress_into, length-compress-le}
use mem_hawk.BitPacking.{
  clear_unused_bits, encode_bits, encode_bits_loop, put_bits, clear_bits, shift_left, shift_right,
  advance_bits, cur_bits_count,
}
use mem_hawk.BitPacking.Compression.{
  compress, compress_into, decompress, resize, finish, start_streams, compress_loop, encode,
  put_value, calculate_max_expected_size, calculate_control_block_size,
}

abbrev frames : List ℕ
frames = 0x7f00_1234_5678 ∷ 0x7f00_1234_0000 ∷ 0x55aa_0000_0010 ∷ 5 ∷ 5 ∷ 0xffff_ffff_ffff_ffff ∷ []

size_of_frames : length (compress frames) ≡ 12
unfolding compress resize compress_into finish clear_unused_bits start_streams compress_loop encode
    put_value encode_bits encode_bits_loop calculate_max_expected_size calculate_control_block_size
    put_bits clear_bits shift_left shift_right advance_bits cur_bits_count
size_of_frames = refl

decompress-compress_example : decompress (compress frames) ≡ some frames
unfolding calculate_control_block_size
decompress-compress_example = decompress-compress frames (omega arith) (omega arith)

decompress-compress_into_example :
    decompress (compress_into frames (replicate 20 7)).mem ≡ some frames
unfolding calculate_control_block_size
decompress-compress_into_example =
    decompress-compress_into frames (replicate 20 7) (omega arith) (omega arith) (omega arith)

length-compress-le_example :
    (length (compress frames) ≤ calculate_max_expected_size frames)
    × (1 + calculate_control_block_size 6 ≤ length (compress frames))
unfolding calculate_control_block_size
length-compress-le_example = length-compress-le frames (omega arith)

-- ===== src/HeaptrackWriter/Tests.antt =====
-- Values written in hexadecimal.
use mem_hawk.Prelude.{◌≡◌, refl, ◌≤◌, List, [], ◌∷◌, ℕ, arith, length}
use mem_hawk.HeaptrackWriter.{
  done, zero_outside, write_hex_value, hex_loop, finish_loop, finish_hex, c_string, hex_char,
}
use mem_hawk.HeaptrackWriter.Reading.{read_hex, read_hex-write_hex_value, write_hex_value_full}

-- 0x10550
written : write_hex_value 66896 ≡ done (49 ∷ 48 ∷ 53 ∷ 53 ∷ 48 ∷ [])
unfolding write_hex_value hex_loop finish_loop finish_hex c_string hex_char
written = refl

read_hex-write_hex_value_example :
    (text : List ℕ) × (write_hex_value 66896 ≡ done text)
    × (read_hex 0 text ≡ 66896)
    × (length text ≤ 15)
read_hex-write_hex_value_example = read_hex-write_hex_value 66896 (omega arith)

write_hex_value_full_example : write_hex_value 18446744073709551615 ≡ zero_outside
write_hex_value_full_example = write_hex_value_full 18446744073709551615 (omega arith) (omega arith)

-- ===== src/HeaptrackWriter.antt =====
-- `WriteHexValue` of source/memhawk/src/impl/writers/heaptrack_writer.cpp for unsigned values.
--
-- Characters are codes, and the buffer of 16 characters is a list. A write outside of it ends the
-- run, as `digit_outside` or `zero_outside`. The loop takes fuel, and says so where it runs out: a round
-- divides the value by 16, and a value has 64 bits.
pub mod Hex
pub mod Reading
mod Tests
use mem_hawk.Prelude.{
  ℕ, zero, suc, ◌+◌, ◌/◌, ◌%◌, List, [], ◌∷◌, ◌++◌, ltb, ◌==◌, if◌then◌else◌, set, take, drop,
  replicate, reverse,
}

unfoldable pub hex_char : ℕ → ℕ
hex_char d = if ltb d 10 then 48 + d else 87 + d

pub record HexBuffer : Type 0 where
  pub buf : List ℕ
  -- The index of `data`.
  pub position : ℕ
  pub value : ℕ

-- A result, or what went wrong: a digit or the terminating zero would stand outside of the buffer, or
-- the fuel ran out.
pub data Outcome (A : Type 0) : Type 0 where
  done : A → Outcome A
  digit_outside : Outcome A
  zero_outside : Outcome A
  unfinished : Outcome A

unfoldable pub hex_loop : ℕ → HexBuffer → Outcome HexBuffer
hex_loop zero s = unfinished
hex_loop (suc fuel) s =
    let next = hex_loop fuel (record {
      buf = set s.buf s.position (hex_char (s.value % 16));
      position = s.position + 1;
      value = s.value / 16;
    }) in
    if ltb 15 s.value then (if ltb s.position 16 then next else digit_outside) else done s

-- What `<<` prints of the buffer.
unfoldable pub c_string : List ℕ → List ℕ
c_string [] = []
c_string (c ∷ cs) = if c == 0 then [] else c ∷ c_string cs

-- The last digit, the reversal and the terminating zero.
unfoldable pub finish_hex : HexBuffer → Outcome (List ℕ)
finish_hex s =
    let buf = set s.buf s.position (hex_char s.value) in
    let end = s.position + 1 in
    let text = c_string (set (reverse (take end buf) ++ drop end buf) end 0) in
    if ltb s.position 16 then (if ltb end 16 then done text else zero_outside) else digit_outside

unfoldable pub finish_loop : Outcome HexBuffer → Outcome (List ℕ)
finish_loop (done s) = finish_hex s
finish_loop digit_outside = digit_outside
finish_loop zero_outside = zero_outside
finish_loop unfinished = unfinished

unfoldable pub write_hex_value : ℕ → Outcome (List ℕ)
write_hex_value value =
    finish_loop (hex_loop 17 (record { buf = replicate 16 0; position = 0; value = value }))

-- ===== src/HeaptrackWriter/Reading.antt =====
-- Numbers written by `WriteHexValue` of source/memhawk/src/impl/writers/heaptrack_writer.cpp, and read
-- back.
use mem_hawk.Prelude.{
  ℕ, zero, suc, ◌+◌, ◌-◌, ◌*◌, ◌/◌, ◌%◌, ◌^◌, ◌≤◌, ◌<◌, ◌≡◌, refl, false, ap, ◌∙◌, inl, inr, List,
  [], ◌∷◌, ◌++◌, Bool-cases, ltb, ltb→lt, lt→ltb, le→ltb, if◌then◌else◌, arith, length, replicate,
  reverse,
}
use mem_hawk.HeaptrackWriter.{
  hex_char, done, zero_outside, hex_loop, finish_hex, finish_loop, write_hex_value,
}
use mathlib.Core.List.{reverse-cons}
use native.Mathlib.Nat.{pow-succ', one-le-pow}
use mem_hawk.HeaptrackWriter.Hex.{
  low_digits, state, List-first, length-snoc, AreChars, hex_loop_step, hex_loop_end,
  low_digits_step, low_digits_end, loop_fits, length-reverse_lem,
}

-- The value of a digit, and of digits, the first one first.
unfoldable pub hex_value : ℕ → ℕ
hex_value c = if ltb c 58 then c - 48 else c - 87

unfoldable pub read_hex : ℕ → List ℕ → ℕ
read_hex n [] = n
read_hex n (c ∷ cs) = read_hex (n * 16 + hex_value c) cs

hex_value-hex_char : (d : ℕ) → d < 16 → hex_value (hex_char d) ≡ d
unfolding hex_value hex_char
hex_value-hex_char d h = ground arith

read_hex-append :
    (n c : ℕ) (cs : List ℕ) → read_hex n (cs ++ (c ∷ [])) ≡ read_hex n cs * 16 + hex_value c
unfolding read_hex
read_hex-append n c [] = refl
read_hex-append n c (x ∷ xs) = read_hex-append (n * 16 + hex_value x) c xs

read_none : read_hex 0 [] ≡ 0
unfolding read_hex
read_none = refl

read_last : (fuel v : ℕ) → v ≤ 15 → read_hex 0 (reverse (low_digits (suc fuel) v)) ≡ v
read_last fuel v h =
    ap (λ t. read_hex 0 (reverse t)) (low_digits_end fuel v h)
    ∙ (read_hex-append 0 (hex_char v) []
        ∙ omega (arith, hex_value-hex_char v (omega arith), read_none))

read_hex-low_digits :
    (k fuel v : ℕ) → v < 16 ^ suc k → k < fuel → read_hex 0 (reverse (low_digits fuel v)) ≡ v
read_hex-low_digits k zero v h f = elim f [ ]
read_hex-low_digits zero (suc fuel) v h f = read_last fuel v (omega arith)
read_hex-low_digits (suc k) (suc fuel) v h f = elim (Bool-cases (ltb 15 v)) [
  | inr short ↦ read_last fuel v (ground (arith, short))
  | inl long ↦
      ap (λ t. read_hex 0 (reverse t)) (low_digits_step fuel v (ltb→lt 15 v long))
      ∙ (ap (read_hex 0) (reverse-cons (hex_char (v % 16)) (low_digits fuel (v / 16)))
          ∙ (read_hex-append 0 (hex_char (v % 16)) (reverse (low_digits fuel (v / 16)))
              ∙ omega (
                arith,
                read_hex-low_digits k fuel (v / 16) (omega (arith, pow-succ' 16 (suc k)))
                    (omega arith),
                hex_value-hex_char (v % 16) (omega arith),
              )))
]

length-low_digits : (k fuel v : ℕ) → v < 16 ^ suc k → k < fuel → length (low_digits fuel v) ≤ suc k
length-low_digits k zero v h f = elim f [ ]
length-low_digits zero (suc fuel) v h f =
    omega (arith, ap length (low_digits_end fuel v (omega arith)))
length-low_digits (suc k) (suc fuel) v h f = elim (Bool-cases (ltb 15 v)) [
  | inr short ↦ omega (arith, ap length (low_digits_end fuel v (ground (arith, short))))
  | inl long ↦ omega (
    arith,
    ap length (low_digits_step fuel v (ltb→lt 15 v long)),
    length-low_digits k fuel (v / 16) (omega (arith, pow-succ' 16 (suc k))) (omega arith),
  )
]

-- A value below 2^60 is written within the buffer, with at most 15 digits, and reading the digits
-- gives it back.
pub read_hex-write_hex_value :
    (v : ℕ)
    → v < 2 ^ 60
    → (text : List ℕ) × (write_hex_value v ≡ done text) × (read_hex 0 text ≡ v) × (length text ≤ 15)
unfolding write_hex_value AreChars
read_hex-write_hex_value v h = (
  reverse (low_digits 17 v),
  loop_fits 14 17 v [] (replicate 16 0) h (omega arith) (omega arith) (omega arith) tt,
  read_hex-low_digits 14 17 v h (omega arith),
  omega (arith, length-reverse_lem (low_digits 17 v), length-low_digits 14 17 v h (omega arith)),
)

finish_hex_full :
    (v : ℕ) (ds zs : List ℕ) → length ds ≡ 15 → finish_hex (state ds zs v) ≡ zero_outside
unfolding finish_hex
finish_hex_full v ds zs h =
    let full : ltb (length ds + 1) 16 ≡ false = le→ltb (length ds + 1) 16 (omega (arith, h)) in
    rw (lt→ltb (length ds) 16 (omega (arith, h)), full) refl

loop_full :
    (k fuel v : ℕ) (ds zs : List ℕ)
    → 16 ^ k ≤ v
    → v < 16 ^ suc k
    → k < fuel
    → length ds + k ≡ 15
    → length ds + length zs ≡ 16
    → finish_loop (hex_loop fuel (state ds zs v)) ≡ zero_outside
unfolding finish_loop
loop_full k zero v ds zs large small fed full room = elim fed [ ]
loop_full zero (suc fuel) v ds zs large small fed full room =
    ap finish_loop (hex_loop_end fuel v ds zs (omega arith)) ∙ finish_hex_full v ds zs (omega arith)
loop_full (suc k) (suc fuel) v ds zs large small fed full room =
    let (z, zs', e) = List-first 0 zs (omega arith) in
    let c = hex_char (v % 16) in
    let high : 15 < v = omega (arith, pow-succ' 16 k, one-le-pow k 16 (omega arith)) in
    ap (λ t. finish_loop (hex_loop (suc fuel) (state ds t v))) e
    ∙ (ap finish_loop (hex_loop_step fuel v z ds zs' high (omega arith))
        ∙ loop_full k fuel (v / 16) (ds ++ (c ∷ [])) zs' (omega (arith, pow-succ' 16 k))
            (omega (arith, pow-succ' 16 (suc k))) (omega arith) (omega (arith, length-snoc ds c))
            (omega (arith, length-snoc ds c, ap length e)))

-- For a 64-bit value of 2^60 or more all the digits are written within the buffer of 16 characters, and
-- fill it: the terminating zero is written outside of it.
pub write_hex_value_full : (v : ℕ) → 2 ^ 60 ≤ v → v < 2 ^ 64 → write_hex_value v ≡ zero_outside
unfolding write_hex_value
write_hex_value_full v h k =
    loop_full 15 17 v [] (replicate 16 0) h k (omega arith) (omega arith) (omega arith)

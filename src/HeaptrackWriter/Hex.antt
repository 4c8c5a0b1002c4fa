-- ===== src/HeaptrackWriter/Hex.antt =====
-- The loop of `WriteHexValue` of source/memhawk/src/impl/writers/heaptrack_writer.cpp, within its
-- buffer.
use mem_hawk.Prelude.{
  ℕ, zero, suc, ◌+◌, ◌/◌, ◌%◌, ◌^◌, ◌≤◌, ◌<◌, ◌≡◌, refl, sym, subst, false, ap, ◌∙◌, inl, inr, List,
  [], ◌∷◌, ◌++◌, Bool-cases, ltb, ltb→lt, lt→ltb, le→ltb, ◌==◌, if◌then◌else◌, arith, length, set,
  take, drop, reverse, length-append, take-append_all, drop-append_all,
}
use mem_hawk.HeaptrackWriter.{
  hex_char, HexBuffer, done, hex_loop, c_string, finish_hex, finish_loop,
}
use mathlib.Core.List.{append_assoc, reverse-cons}
use native.Mathlib.Nat.{pow-succ'}

-- The digits of a value, the last one first.
unfoldable pub low_digits : ℕ → ℕ → List ℕ
low_digits zero v = []
low_digits (suc fuel) v =
    if ltb 15 v then hex_char (v % 16) ∷ low_digits fuel (v / 16) else hex_char v ∷ []

abbrev pub state : List ℕ → List ℕ → ℕ → HexBuffer
state ds zs v = record { buf = ds ++ zs; position = length ds; value = v }

pub List-first : (n : ℕ) (xs : List ℕ) → n < length xs → (y : ℕ) × (ys : List ℕ) × (xs ≡ y ∷ ys)
List-first n [] h = elim h [ ]
List-first n (x ∷ xs) h = (x, xs, refl)

set-append : (ds zs : List ℕ) (z c : ℕ) → set (ds ++ (z ∷ zs)) (length ds) c ≡ ds ++ (c ∷ zs)
set-append [] zs z c = refl
set-append (d ∷ ds) zs z c = rw (set-append ds zs z c) refl

pub length-snoc : (ds : List ℕ) (c : ℕ) → length (ds ++ (c ∷ [])) ≡ length ds + 1
length-snoc ds c = omega (arith, length-append ds (c ∷ []))

snoc : (ds zs : List ℕ) (c : ℕ) → ds ++ (c ∷ zs) ≡ (ds ++ (c ∷ [])) ++ zs
snoc ds zs c = sym (append_assoc ds (c ∷ []) zs)

-- Characters that do not end a string.
unfoldable pub AreChars : List ℕ → Type 0
AreChars [] = Unit
AreChars (c ∷ cs) = (0 < c) × AreChars cs

append-AreChars : (xs ys : List ℕ) → AreChars xs → AreChars ys → AreChars (xs ++ ys)
unfolding AreChars
append-AreChars [] ys h k = k
append-AreChars (x ∷ xs) ys h k = (h.0, append-AreChars xs ys (h.1) k)

hex_char-AreChars : (d : ℕ) → AreChars (hex_char d ∷ [])
unfolding AreChars hex_char
hex_char-AreChars d = (ground arith, tt)

reverse-AreChars : (xs : List ℕ) → AreChars xs → AreChars (reverse xs)
unfolding AreChars
reverse-AreChars [] h = tt
reverse-AreChars (x ∷ xs) h =
    subst AreChars (sym (reverse-cons x xs))
      (append-AreChars (reverse xs) (x ∷ []) (reverse-AreChars xs (h.1)) (h.0, tt))

c_string_lem : (xs zs : List ℕ) → AreChars xs → c_string (xs ++ (0 ∷ zs)) ≡ xs
unfolding c_string AreChars
c_string_lem [] zs h = refl
c_string_lem (x ∷ xs) zs h =
    let other : (x == 0) ≡ false = ground (arith, h.0) in rw (other, c_string_lem xs zs (h.1)) refl

pub length-reverse_lem : (xs : List ℕ) → length (reverse xs) ≡ length xs
length-reverse_lem [] = refl
length-reverse_lem (x ∷ xs) =
    ap length (reverse-cons x xs) ∙ omega (arith, length-snoc (reverse xs) x, length-reverse_lem xs)

-- The round that writes a digit.
pub hex_loop_step :
    (fuel v z : ℕ) (ds zs : List ℕ)
    → 15 < v
    → length ds < 16
    → hex_loop (suc fuel) (state ds (z ∷ zs) v)
      ≡ hex_loop fuel (state (ds ++ (hex_char (v % 16) ∷ [])) zs (v / 16))
unfolding hex_loop
hex_loop_step fuel v z ds zs h k =
    let c = hex_char (v % 16) in
    let cells : set (ds ++ (z ∷ zs)) (length ds) c ≡ (ds ++ (c ∷ [])) ++ zs =
      set-append ds zs z c ∙ snoc ds zs c in
    let end : length ds + 1 ≡ length (ds ++ (c ∷ [])) = sym (length-snoc ds c) in
    rw (lt→ltb 15 v h, lt→ltb (length ds) 16 k)
      (λ i. hex_loop fuel (record { buf = cells i; position = end i; value = v / 16 }))

pub hex_loop_end :
    (fuel v : ℕ) (ds zs : List ℕ)
    → v ≤ 15
    → hex_loop (suc fuel) (state ds zs v) ≡ done (state ds zs v)
unfolding hex_loop
hex_loop_end fuel v ds zs h = rw (le→ltb 15 v h) refl

finish_hex_lem :
    (v z z' : ℕ) (ds zs : List ℕ)
    → length ds + 1 < 16
    → AreChars ds
    → finish_hex (state ds (z ∷ z' ∷ zs) v) ≡ done (reverse (ds ++ (hex_char v ∷ [])))
unfolding finish_hex
finish_hex_lem v z z' ds zs h k =
    let c = hex_char v in
    let xs : List ℕ = ds ++ (c ∷ []) in
    let rest : List ℕ = z' ∷ zs in
    let cells : set (ds ++ (z ∷ rest)) (length ds) c ≡ xs ++ rest =
      set-append ds rest z c ∙ snoc ds rest c in
    let end : length ds + 1 ≡ length xs = sym (length-snoc ds c) in
    let chars = reverse-AreChars xs (append-AreChars ds (c ∷ []) k (hex_char-AreChars v)) in
    rw (lt→ltb (length ds) 16 (omega arith), lt→ltb (length ds + 1) 16 h)
      (ap done (
        (λ i. c_string (set (reverse (take (end i) (cells i)) ++ drop (end i) (cells i)) (end i) 0))
        ∙ (ap (λ t. c_string (set (reverse t ++ drop (length xs) (xs ++ rest)) (length xs) 0))
              (take-append_all xs rest)
            ∙ (ap (λ t. c_string (set (reverse xs ++ t) (length xs) 0)) (drop-append_all xs rest)
                ∙ (ap (λ n. c_string (set (reverse xs ++ rest) n 0)) (sym (length-reverse_lem xs))
                    ∙ (ap c_string (set-append (reverse xs) zs z' 0)
                        ∙ c_string_lem (reverse xs) zs chars))))))

pub low_digits_step :
    (fuel v : ℕ) → 15 < v → low_digits (suc fuel) v ≡ hex_char (v % 16) ∷ low_digits fuel (v / 16)
unfolding low_digits
low_digits_step fuel v h = rw (lt→ltb 15 v h) refl

pub low_digits_end : (fuel v : ℕ) → v ≤ 15 → low_digits (suc fuel) v ≡ hex_char v ∷ []
unfolding low_digits
low_digits_end fuel v h = rw (le→ltb 15 v h) refl

loop_short :
    (fuel v : ℕ) (ds zs : List ℕ)
    → v ≤ 15
    → length ds < 15
    → length ds + length zs ≡ 16
    → AreChars ds
    → finish_loop (hex_loop (suc fuel) (state ds zs v))
      ≡ done (reverse (ds ++ low_digits (suc fuel) v))
unfolding finish_loop
loop_short fuel v ds zs low fits room chars =
    let (z, zs', e) = List-first 0 zs (omega arith) in
    let (z', zs'', e') = List-first 0 zs' (omega (arith, ap length e)) in
    ap finish_loop (hex_loop_end fuel v ds zs low)
    ∙ (ap (λ t. finish_hex (state ds t v)) (e ∙ ap (λ t. z ∷ t) e')
        ∙ (finish_hex_lem v z z' ds zs'' (omega arith) chars
            ∙ ap (λ t. done (reverse (ds ++ t))) (sym (low_digits_end fuel v low))))

-- A value of `k` digits and one, where the buffer has room for them and the terminating zero.
pub loop_fits :
    (k fuel v : ℕ) (ds zs : List ℕ)
    → v < 16 ^ suc k
    → k < fuel
    → length ds + k < 15
    → length ds + length zs ≡ 16
    → AreChars ds
    → finish_loop (hex_loop fuel (state ds zs v)) ≡ done (reverse (ds ++ low_digits fuel v))
loop_fits k zero v ds zs small fed fits room chars = elim fed [ ]
loop_fits zero (suc fuel) v ds zs small fed fits room chars =
    loop_short fuel v ds zs (omega arith) (omega arith) room chars
loop_fits (suc k) (suc fuel) v ds zs small fed fits room chars = elim (Bool-cases (ltb 15 v)) [
  | inr short ↦ loop_short fuel v ds zs (ground (arith, short)) (omega arith) room chars
  | inl long ↦
      let (z, zs', e) = List-first 0 zs (omega arith) in
      let c = hex_char (v % 16) in
      let high : 15 < v = ltb→lt 15 v long in
      ap (λ t. finish_loop (hex_loop (suc fuel) (state ds t v))) e
      ∙ (ap finish_loop (hex_loop_step fuel v z ds zs' high (omega arith))
          ∙ (loop_fits k fuel (v / 16) (ds ++ (c ∷ [])) zs' (omega (arith, pow-succ' 16 (suc k)))
                (omega arith) (omega (arith, length-snoc ds c))
                (omega (arith, length-snoc ds c, ap length e))
                (append-AreChars ds (c ∷ []) chars (hex_char-AreChars (v % 16)))
              ∙ ap (λ t. done (reverse t))
                  (append_assoc ds (c ∷ []) (low_digits fuel (v / 16))
                    ∙ ap (λ t. ds ++ t) (sym (low_digits_step fuel v high)))))
]

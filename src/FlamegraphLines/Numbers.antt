-- ===== src/FlamegraphLines/Numbers.antt =====
-- Decimal numbers printed, and read as by `parse_number` of source/flamegraph/src/main.cpp.
use mem_hawk.Prelude.{
  ℕ, zero, suc, ◌+◌, ◌-◌, ◌*◌, ◌/◌, ◌%◌, ◌^◌, ◌≤◌, ◌<◌, ◌≡◌, refl, sym, ap, ◌∙◌, List, [], ◌∷◌,
  ◌++◌, some, Bool-cases, true, false, inl, inr, ltb, lt→ltb, ltb→lt, ◌==◌, if◌then◌else◌, u64,
  arith,
}
use mem_hawk.FlamegraphLines.{
  is_digit, leading_digits, number_from, check_below, parse_below, negated, parse_int64,
}

abbrev head_or : List ℕ → ℕ
head_or [] = 0
head_or (x ∷ xs) = x

-- The decimal digits of a number.
unfoldable pub decimal_fuel : ℕ → ℕ → List ℕ
decimal_fuel zero n = []
decimal_fuel (suc fuel) n =
    if ltb n 10 then (48 + n) ∷ [] else decimal_fuel fuel (n / 10) ++ ((48 + n % 10) ∷ [])

abbrev pub decimal : ℕ → List ℕ
decimal n = decimal_fuel (suc n) n

unfoldable pub AreDigits : List ℕ → Type 0
AreDigits [] = Unit
AreDigits (c ∷ cs) = (is_digit c ≡ true) × AreDigits cs

append-AreDigits : (xs ys : List ℕ) → AreDigits xs → AreDigits ys → AreDigits (xs ++ ys)
unfolding AreDigits
append-AreDigits [] ys h k = k
append-AreDigits (x ∷ xs) ys h k = (h.0, append-AreDigits xs ys (h.1) k)

digit-AreDigits : (d : ℕ) → d < 10 → AreDigits ((48 + d) ∷ [])
unfolding AreDigits is_digit
digit-AreDigits d h = (ground (arith, h), tt)

decimal_fuel-AreDigits : (fuel n : ℕ) → AreDigits (decimal_fuel fuel n)
unfolding decimal_fuel AreDigits
decimal_fuel-AreDigits zero n = tt
decimal_fuel-AreDigits (suc fuel) n = elim (Bool-cases (ltb n 10)) [
  | inl e ↦ rw e (digit-AreDigits n (ground (arith, e)))
  | inr e ↦ rw e (
      append-AreDigits (decimal_fuel fuel (n / 10)) ((48 + n % 10) ∷ [])
        (decimal_fuel-AreDigits fuel (n / 10)) (digit-AreDigits (n % 10) (omega arith)))
]

leading_digits_lem :
    (ds : List ℕ) (c : ℕ) (rest : List ℕ)
    → AreDigits ds
    → is_digit c ≡ false
    → leading_digits (ds ++ (c ∷ rest)) ≡ (ds, c ∷ rest)
unfolding leading_digits AreDigits
leading_digits_lem [] c rest h k = rw k refl
leading_digits_lem (d ∷ ds) c rest h k = rw (h.0, leading_digits_lem ds c rest (h.1) k) refl

number_from-append :
    (n d : ℕ) (ds : List ℕ) → number_from n (ds ++ (d ∷ [])) ≡ number_from n ds * 10 + (d - 48)
unfolding number_from
number_from-append n d [] = refl
number_from-append n d (x ∷ xs) = number_from-append (n * 10 + (x - 48)) d xs

number_from-decimal_fuel : (fuel n : ℕ) → n < fuel → number_from 0 (decimal_fuel fuel n) ≡ n
unfolding decimal_fuel number_from
number_from-decimal_fuel zero n h = elim h [ ]
number_from-decimal_fuel (suc fuel) n h = elim (Bool-cases (ltb n 10)) [
  | inl e ↦ rw e (omega arith)
  | inr e ↦
      let large : 10 ≤ n = ground (arith, e) in
      rw e (
        number_from-append 0 (48 + n % 10) (decimal_fuel fuel (n / 10))
        ∙ omega (arith, number_from-decimal_fuel fuel (n / 10) (omega arith)))
]

-- A decimal number is not empty, and its first character is a digit.
last_first : (xs : List ℕ) (d : ℕ) → (y : ℕ) × (ys : List ℕ) × (xs ++ (d ∷ []) ≡ y ∷ ys)
last_first [] d = (d, [], refl)
last_first (x ∷ xs) d = (x, xs ++ (d ∷ []), refl)

pub decimal_first : (n : ℕ) → (d : ℕ) × (ds : List ℕ) × (decimal n ≡ d ∷ ds)
unfolding decimal_fuel
decimal_first n = elim (Bool-cases (ltb n 10)) [
  | inl e ↦ (48 + n, [], rw e refl)
  | inr e ↦ let (y, ys, p) = last_first (decimal_fuel n (n / 10)) (48 + n % 10) in (y, ys, rw e p)
]

check_below_lem :
    (limit n d : ℕ) (ds rest : List ℕ)
    → n < limit
    → number_from 0 (d ∷ ds) ≡ n
    → check_below limit (d ∷ ds) rest ≡ some (n, rest)
unfolding check_below
check_below_lem limit n d ds rest h e = rw (e, lt→ltb n limit h) refl

pub parse_below-decimal :
    (limit n c : ℕ) (rest : List ℕ)
    → n < limit
    → is_digit c ≡ false
    → parse_below limit (decimal n ++ (c ∷ rest)) ≡ some (n, c ∷ rest)
unfolding parse_below
parse_below-decimal limit n c rest h k =
    let (d, ds, e) = decimal_first n in
    let digits = decimal_fuel-AreDigits (suc n) n in
    ap (λ (p : List ℕ × List ℕ). check_below limit p.0 p.1)
      (leading_digits_lem (decimal n) c rest digits k)
    ∙ (ap (λ z. check_below limit z (c ∷ rest)) e
        ∙ check_below_lem limit n d ds (c ∷ rest) h
            (ap (number_from 0) (sym e) ∙ number_from-decimal_fuel (suc n) n (omega arith)))

-- The first character of a decimal number.
pub decimal_first_digit : (n d : ℕ) (ds : List ℕ) → decimal n ≡ d ∷ ds → is_digit d ≡ true
unfolding AreDigits
decimal_first_digit n d ds e = first_of (decimal n) (decimal_fuel-AreDigits (suc n) n) e
  where
    first_of : (xs : List ℕ) → AreDigits xs → xs ≡ d ∷ ds → is_digit d ≡ true
    first_of [] h p = absurd (cc)
    first_of (x ∷ xs) h p = ap (λ z. is_digit (head_or z)) (sym p) ∙ h.0

-- A signed number: the digits of a non-negative one, or a minus sign and those of its magnitude.
unfoldable pub print_int64 : ℕ → List ℕ
print_int64 v = if ltb v (2 ^ 63) then decimal v else 45 ∷ decimal (2 ^ 64 - v)

print_int64_plain : (v : ℕ) → ltb v (2 ^ 63) ≡ true → print_int64 v ≡ decimal v
unfolding print_int64
print_int64_plain v e = rw e refl

print_int64_minus : (v : ℕ) → ltb v (2 ^ 63) ≡ false → print_int64 v ≡ 45 ∷ decimal (2 ^ 64 - v)
unfolding print_int64
print_int64_minus v e = rw e refl

parse_int64_plain :
    (d : ℕ) (cs : List ℕ) → is_digit d ≡ true → parse_int64 (d ∷ cs) ≡ parse_below (2 ^ 63) (d ∷ cs)
unfolding parse_int64 is_digit
parse_int64_plain d cs h = let other : (d == 45) ≡ false = ground (arith, h) in rw other refl

parse_int64_minus : (cs : List ℕ) → parse_int64 (45 ∷ cs) ≡ negated (parse_below (2 ^ 63 + 1) cs)
unfolding parse_int64
parse_int64_minus cs = refl

negated_lem :
    (v : ℕ) (rest : List ℕ)
    → v < 2 ^ 64
    → 0 < v
    → negated (some (2 ^ 64 - v, rest)) ≡ some (v, rest)
unfolding negated
negated_lem v rest h k = let back : u64 (2 ^ 64 - (2 ^ 64 - v)) ≡ v = omega arith in rw back refl

pub parse_int64-print_int64 :
    (v c : ℕ) (rest : List ℕ)
    → v < 2 ^ 64
    → is_digit c ≡ false
    → parse_int64 (print_int64 v ++ (c ∷ rest)) ≡ some (v, c ∷ rest)
parse_int64-print_int64 v c rest h k = elim (Bool-cases (ltb v (2 ^ 63))) [
  | inl e ↦
      let (d, ds, first) = decimal_first v in
      ap (λ z. parse_int64 (z ++ (c ∷ rest))) (print_int64_plain v e ∙ first)
      ∙ (parse_int64_plain d (ds ++ (c ∷ rest)) (decimal_first_digit v d ds first)
          ∙ (ap (λ z. parse_below (2 ^ 63) (z ++ (c ∷ rest))) (sym first)
              ∙ parse_below-decimal (2 ^ 63) v c rest (ltb→lt v (2 ^ 63) e) k))
  | inr e ↦
      let big : 2 ^ 63 ≤ v = ground (arith, e) in
      ap (λ z. parse_int64 (z ++ (c ∷ rest))) (print_int64_minus v e)
      ∙ (parse_int64_minus (decimal (2 ^ 64 - v) ++ (c ∷ rest))
          ∙ (ap negated (parse_below-decimal (2 ^ 63 + 1) (2 ^ 64 - v) c rest (omega arith) k)
              ∙ negated_lem v (c ∷ rest) h (omega arith)))
]

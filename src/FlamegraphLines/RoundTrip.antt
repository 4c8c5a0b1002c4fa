-- ===== src/FlamegraphLines/RoundTrip.antt =====
-- Lines printed, and read as by `parse_line` of source/flamegraph/src/main.cpp.
use mem_hawk.Prelude.{
  ℕ, zero, suc, ◌+◌, ◌^◌, ◌≤◌, ◌<◌, ◌≡◌, refl, sym, ap, ◌∙◌, List, [], ◌∷◌, ◌++◌, none, some, true,
  false, ◌||◌, ◌==◌, arith, length, length-append,
}
use mem_hawk.FlamegraphLines.{
  is_digit, parse_below, parse_uint32, parse_int64, LineValue, parse_path, parse_rest, parse_line,
}
use mem_hawk.FlamegraphLines.Numbers.{
  decimal, decimal_first, decimal_first_digit, parse_below-decimal, print_int64,
  parse_int64-print_int64,
}
use mathlib.Core.List.{append_assoc}

-- The elements behind the first, each after a comma, and the closing bracket.
unfoldable pub print_next : List ℕ → List ℕ
print_next [] = 93 ∷ []
print_next (x ∷ xs) = 44 ∷ (decimal x ++ print_next xs)

unfoldable pub print_path : List ℕ → List ℕ
print_path [] = 93 ∷ []
print_path (x ∷ xs) = decimal x ++ print_next xs

-- A value, a tabulator, and the path in brackets.
unfoldable pub print_line : LineValue → List ℕ
print_line v = print_int64 v.value ++ (9 ∷ 91 ∷ print_path v.path)

unfoldable pub AreWords : List ℕ → Type 0
AreWords [] = Unit
AreWords (x ∷ xs) = (x < 2 ^ 32) × AreWords xs

parse_path_step :
    (fuel d val k : ℕ) (cs more path : List ℕ)
    → is_digit d ≡ true
    → parse_uint32 (d ∷ cs) ≡ some (val, k ∷ more)
    → (k == 44 || k == 93) ≡ true
    → parse_path (suc fuel) (d ∷ cs) path ≡ parse_path fuel more (path ++ (val ∷ []))
unfolding parse_path is_digit
parse_path_step fuel d val k cs more path h p e =
    let other : (d == 93) ≡ false = ground (arith, h) in rw (other, p, e) refl

parse_path_end : (fuel : ℕ) (path : List ℕ) → 0 < fuel → parse_path fuel [] path ≡ some path
unfolding parse_path
parse_path_end zero path h = elim h [ ]
parse_path_end (suc fuel) path h = refl

not_digit : is_digit 44 ≡ false
unfolding is_digit
not_digit = refl

-- One element and what follows it.
parse_path_element :
    (fuel x k : ℕ) (more path : List ℕ)
    → x < 2 ^ 32
    → is_digit k ≡ false
    → (k == 44 || k == 93) ≡ true
    → parse_path (suc fuel) (decimal x ++ (k ∷ more)) path ≡ parse_path fuel more (path ++ (x ∷ []))
unfolding parse_uint32
parse_path_element fuel x k more path h n e =
    let (d, ds, first) = decimal_first x in
    ap (λ z. parse_path (suc fuel) (z ++ (k ∷ more)) path) first
    ∙ parse_path_step fuel d x k (ds ++ (k ∷ more)) more path (decimal_first_digit x d ds first)
        (ap (λ z. parse_below (2 ^ 32) (z ++ (k ∷ more))) (sym first)
          ∙ parse_below-decimal (2 ^ 32) x k more h n)
        e

parse_path-print :
    (fuel x : ℕ) (xs path : List ℕ)
    → suc (length xs) < fuel
    → AreWords (x ∷ xs)
    → parse_path fuel (decimal x ++ print_next xs) path ≡ some (path ++ (x ∷ xs))
unfolding print_next AreWords is_digit
parse_path-print zero x xs path h w = elim h [ ]
parse_path-print (suc fuel) x [] path h w =
    parse_path_element fuel x 93 [] path (w.0) refl refl
    ∙ parse_path_end fuel (path ++ (x ∷ [])) (omega arith)
parse_path-print (suc fuel) x (y ∷ ys) path h w =
    parse_path_element fuel x 44 (decimal y ++ print_next ys) path (w.0) refl refl
    ∙ (parse_path-print fuel y ys (path ++ (x ∷ [])) (omega arith) (w.1)
        ∙ ap some (append_assoc path (x ∷ []) (y ∷ ys)))

length-print_next : (xs : List ℕ) → suc (length xs) ≤ length (print_next xs)
unfolding print_next
length-print_next [] = omega arith
length-print_next (x ∷ xs) =
    omega (arith, length-append (decimal x) (print_next xs), length-print_next xs)

length-decimal : (n : ℕ) → 0 < length (decimal n)
length-decimal n = let (d, ds, e) = decimal_first n in omega (arith, ap length e)

nothing_left : parse_path (length (print_path []) + 1) (print_path []) [] ≡ some []
unfolding print_path parse_path
nothing_left = refl

none-some : {p : ℕ × List ℕ} → none ≡ some p → ⊥
none-some h = ground arith

parse_path-print_path :
    (path : List ℕ)
    → AreWords path
    → parse_path (length (print_path path) + 1) (print_path path) [] ≡ some path
unfolding print_path
parse_path-print_path [] w = nothing_left
parse_path-print_path (x ∷ xs) w =
    parse_path-print (length (decimal x ++ print_next xs) + 1) x xs []
      (omega
        (arith, length-append (decimal x) (print_next xs), length-print_next xs, length-decimal x))
      w

parse_line_step :
    (cs rest : List ℕ) (value : ℕ)
    → parse_int64 cs ≡ some (value, rest)
    → parse_line cs ≡ parse_rest value rest
unfolding parse_line parse_int64
parse_line_step [] rest value h = absurd (none-some h)
parse_line_step (c ∷ cs) rest value h = rw (parse_line, h) refl

parse_rest_step :
    (value : ℕ) (cs path : List ℕ)
    → parse_path (length cs + 1) cs [] ≡ some path
    → parse_rest value (9 ∷ 91 ∷ cs) ≡ some (record { value = value; path = path })
unfolding parse_rest
parse_rest_step value cs path h = rw (parse_rest, h) refl

-- Reading a printed line gives its value and its path back, where the value is a 64-bit pattern and
-- the elements of the path are 32-bit words: a non-negative value is printed by its decimal digits, a
-- negative one by those of its magnitude behind a minus sign.
pub parse_line-print_line :
    (v : LineValue) → v.value < 2 ^ 64 → AreWords v.path → parse_line (print_line v) ≡ some v
unfolding print_line is_digit
parse_line-print_line v h w =
    parse_line_step (print_line v) (9 ∷ 91 ∷ print_path v.path) v.value
      (parse_int64-print_int64 v.value 9 (91 ∷ print_path v.path) h refl)
    ∙ parse_rest_step v.value (print_path v.path) v.path (parse_path-print_path v.path w)

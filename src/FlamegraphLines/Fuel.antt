-- ===== src/FlamegraphLines/Fuel.antt =====
-- The loop of `parse_line` in source/flamegraph/src/main.cpp ends within as many rounds as there are
-- characters.
use mem_hawk.Prelude.{
  ℕ, zero, suc, ◌+◌, ◌^◌, ◌<◌, ◌≡◌, refl, sym, ap, ◌∙◌, List, [], ◌∷◌, ◌++◌, Option, none, some,
  Option-cases, Bool-cases, true, false, ◌⊎◌, inl, inr, ◌||◌, ltb, ◌==◌, if◌then◌else◌, arith,
  length,
}
use mem_hawk.FlamegraphLines.{
  is_digit, leading_digits, number_from, check_below, parse_below, parse_uint32, parse_path,
}

length-leading_digits :
    (cs : List ℕ) → length (leading_digits cs).1 + length (leading_digits cs).0 ≡ length cs
unfolding leading_digits
length-leading_digits [] = omega arith
length-leading_digits (c ∷ cs) = elim (Bool-cases (is_digit c)) [
  | inl e ↦ rw e (omega (arith, length-leading_digits cs))
  | inr e ↦ rw e (omega arith)
]

none-some : {p : ℕ × List ℕ} → none ≡ some p → ⊥
none-some h = ground arith

check_below_found :
    (limit d : ℕ) (more rest : List ℕ)
    → ltb (number_from 0 (d ∷ more)) limit ≡ true
    → check_below limit (d ∷ more) rest ≡ some (number_from 0 (d ∷ more), rest)
unfolding check_below
check_below_found limit d more rest e = rw e refl

check_below_large :
    (limit d : ℕ) (more rest : List ℕ)
    → ltb (number_from 0 (d ∷ more)) limit ≡ false
    → check_below limit (d ∷ more) rest ≡ none
unfolding check_below
check_below_large limit d more rest e = rw e refl

abbrev rest_of : List ℕ → Option (ℕ × List ℕ) → List ℕ
rest_of rest none = rest
rest_of rest (some (n, rest')) = rest'

-- A number that was read has a digit.
check_below-lt :
    (limit n : ℕ) (digits rest rest' : List ℕ)
    → check_below limit digits rest ≡ some (n, rest')
    → (0 < length digits) × (rest ≡ rest')
unfolding check_below
check_below-lt limit n [] rest rest' h = absurd (none-some h)
check_below-lt limit n (d ∷ more) rest rest' h =
    elim (Bool-cases (ltb (number_from 0 (d ∷ more)) limit)) [
      | inl e ↦ (omega arith, ap (rest_of rest) (sym (check_below_found limit d more rest e) ∙ h))
      | inr e ↦ absurd (none-some (sym (check_below_large limit d more rest e) ∙ h))
    ]

parse_uint32-lt :
    (cs rest : List ℕ) (val : ℕ) → parse_uint32 cs ≡ some (val, rest) → length rest < length cs
unfolding parse_uint32 parse_below
parse_uint32-lt cs rest val h =
    let (found, same) =
      check_below-lt (2 ^ 32) val (leading_digits cs).0 (leading_digits cs).1 rest h in
    omega (arith, length-leading_digits cs, found, ap length same)

module _ (fuel c : ℕ) (cs path : List ℕ) (open_list : (c == 93) ≡ false) where
  parse_path-none : parse_uint32 (c ∷ cs) ≡ none → parse_path (suc fuel) (c ∷ cs) path ≡ none
  unfolding parse_path
  parse_path-none p = rw (open_list, p) refl

  parse_path_short :
      (val : ℕ)
      → parse_uint32 (c ∷ cs) ≡ some (val, [])
      → parse_path (suc fuel) (c ∷ cs) path ≡ none
  unfolding parse_path
  parse_path_short val p = rw (open_list, p) refl

  parse_path_more :
      (val d : ℕ) (more : List ℕ)
      → parse_uint32 (c ∷ cs) ≡ some (val, d ∷ more)
      → parse_path (suc fuel) (c ∷ cs) path
        ≡ (if d == 44 || d == 93 then parse_path fuel more (path ++ (val ∷ [])) else none)
  unfolding parse_path
  parse_path_more val d more p = rw (open_list, p) refl

List-cases : (xs : List ℕ) → (xs ≡ []) ⊎ ((y : ℕ) × (ys : List ℕ) × (xs ≡ y ∷ ys))
List-cases [] = inl refl
List-cases (x ∷ xs) = inr (x, xs, refl)

parse_path_empty : (fuel : ℕ) (path : List ℕ) → parse_path (suc fuel) [] path ≡ some path
unfolding parse_path
parse_path_empty fuel path = refl

parse_path_closed :
    (fuel c : ℕ) (cs path : List ℕ)
    → (c == 93) ≡ true
    → parse_path (suc fuel) (c ∷ cs) path ≡ some path
unfolding parse_path
parse_path_closed fuel c cs path e = rw e refl

-- As many rounds as there are characters, and one, are enough: more change nothing, for every input.
pub parse_path_fuel :
    (fuel extra : ℕ) (cs path : List ℕ)
    → length cs < fuel
    → parse_path (fuel + extra) cs path ≡ parse_path fuel cs path
parse_path_fuel zero extra cs path h = elim h [ ]
parse_path_fuel (suc fuel) extra [] path h =
    let more_fuel : suc fuel + extra ≡ suc (fuel + extra) = omega arith in
    ap (λ f. parse_path f [] path) more_fuel
    ∙ (parse_path_empty (fuel + extra) path ∙ sym (parse_path_empty fuel path))
parse_path_fuel (suc fuel) extra (c ∷ xs) path h =
    let more_fuel : suc fuel + extra ≡ suc (fuel + extra) = omega arith in
    ap (λ f. parse_path f (c ∷ xs) path) more_fuel ∙ elim (Bool-cases (c == 93)) [
      | inl e ↦
          parse_path_closed (fuel + extra) c xs path e ∙ sym (parse_path_closed fuel c xs path e)
      | inr e ↦ elim (Option-cases (parse_uint32 (c ∷ xs))) [
        | inl p ↦
            parse_path-none (fuel + extra) c xs path e p ∙ sym (parse_path-none fuel c xs path e p)
        | inr found ↦
            let val = found.0.0 in
            let rest = found.0.1 in
            elim (List-cases rest) [
              | inl ends ↦
                  let p = found.1 ∙ ap (λ z. some (val, z)) ends in
                  parse_path_short (fuel + extra) c xs path e val p
                  ∙ sym (parse_path_short fuel c xs path e val p)
              | inr goes_on ↦
                  let d = goes_on.0 in
                  let more = goes_on.1 in
                  let p = found.1 ∙ ap (λ z. some (val, z)) goes_on.2 in
                  parse_path_more (fuel + extra) c xs path e val d more p
                  ∙ (ap (λ z. if d == 44 || d == 93 then z else none)
                        (parse_path_fuel fuel extra more (path ++ (val ∷ []))
                          (omega (arith, parse_uint32-lt (c ∷ xs) (d ∷ more) val p, h)))
                      ∙ sym (parse_path_more fuel c xs path e val d more p))
            ]
      ]
    ]

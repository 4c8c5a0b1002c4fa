-- ===== src/FlamegraphLines.antt =====
-- The reading of a log in source/flamegraph/src/main.cpp: parse_number, parse_line and the loop of
-- process.
--
-- A character is its code. `std::from_chars` reads the decimal digits at the front, after a minus sign
-- for a signed type; a number that is out of range is an error. `none` is a result `false`. An `int64_t`
-- is kept by its bit pattern. The loop over the path takes fuel: a round consumes two characters at
-- least.
pub mod Numbers
pub mod Fuel
pub mod RoundTrip
pub mod Process
mod Tests
use mem_hawk.Prelude.{
  ℕ, zero, suc, ◌+◌, ◌-◌, ◌*◌, ◌^◌, List, [], ◌∷◌, ◌++◌, Option, none, some, Bool, ◌&&◌, ◌||◌, leb,
  ltb, ◌==◌, if◌then◌else◌, u64, length,
}
use mem_hawk.Flamegraph.{CompressedTrie, append}

unfoldable pub is_digit : ℕ → Bool
is_digit c = leb 48 c && leb c 57

-- The digits at the front, and the characters behind them.
unfoldable pub leading_digits : List ℕ → List ℕ × List ℕ
leading_digits [] = ([], [])
leading_digits (c ∷ cs) =
    let (digits, rest) = leading_digits cs in
    if is_digit c then (c ∷ digits, rest) else ([], c ∷ cs)

unfoldable pub number_from : ℕ → List ℕ → ℕ
number_from n [] = n
number_from n (d ∷ digits) = number_from (n * 10 + (d - 48)) digits

-- The digits as a number below `limit`, with the characters behind them.
unfoldable pub check_below : ℕ → List ℕ → List ℕ → Option (ℕ × List ℕ)
check_below limit [] rest = none
check_below limit (d ∷ more) rest =
    if ltb (number_from 0 (d ∷ more)) limit then some (number_from 0 (d ∷ more), rest) else none

unfoldable pub parse_below : ℕ → List ℕ → Option (ℕ × List ℕ)
parse_below limit cs = let (digits, rest) = leading_digits cs in check_below limit digits rest

-- `parse_number` for `uint32_t`
unfoldable pub parse_uint32 : List ℕ → Option (ℕ × List ℕ)
parse_uint32 cs = parse_below (2 ^ 32) cs

-- The bit pattern of a negative number.
unfoldable pub negated : Option (ℕ × List ℕ) → Option (ℕ × List ℕ)
negated none = none
negated (some (n, rest)) = some (u64 (2 ^ 64 - n), rest)

-- `parse_number` for `int64_t`
unfoldable pub parse_int64 : List ℕ → Option (ℕ × List ℕ)
parse_int64 [] = none
parse_int64 (c ∷ cs) =
    if c == 45 then negated (parse_below (2 ^ 63 + 1) cs) else parse_below (2 ^ 63) (c ∷ cs)

pub record LineValue : Type 0 where
  pub value : ℕ
  pub path : List ℕ

-- The loop of `parse_line`. `,` is 44 and `]` is 93.
unfoldable pub parse_path : ℕ → List ℕ → List ℕ → Option (List ℕ)
parse_path zero cs path = none
parse_path (suc fuel) [] path = some path
parse_path (suc fuel) (c ∷ cs) path = if c == 93 then some path else (elim (parse_uint32 (c ∷ cs)) [
  | none ↦ none
  | some (val, rest) ↦ elim rest [
    | [] ↦ none
    | d ∷ more ↦
        let next = parse_path fuel more (path ++ (val ∷ [])) in
        if d == 44 || d == 93 then next else none
  ]
])

-- The part of `parse_line` behind the value. A tabulator is 9 and `[` is 91.
unfoldable pub parse_rest : ℕ → List ℕ → Option LineValue
parse_rest value [] = none
parse_rest value (t ∷ []) = none
parse_rest value (t ∷ b ∷ cs) =
    if t == 9 && b == 91
    then (elim (parse_path (length cs + 1) cs []) [
      | none ↦ none
      | some path ↦ some (record { value = value; path = path })
    ])
    else none

unfoldable pub parse_line : List ℕ → Option LineValue
parse_line [] = some (record { value = 0; path = [] })
parse_line (c ∷ cs) = elim (parse_int64 (c ∷ cs)) [
  | none ↦ none
  | some (value, rest) ↦ parse_rest value rest
]

-- How the loop of `process` ends. `unfinished` stands for an append that ran out of fuel.
pub data Processed : Type 0 where
  read : CompressedTrie → Processed
  incorrect_line : Processed
  missing_root : Processed
  unfinished : Processed

unfoldable pub process_lines : List (List ℕ) → CompressedTrie → Processed
process_lines [] t = read t
process_lines (line ∷ lines) t = elim (parse_line line) [
  | none ↦ incorrect_line
  | some v ↦ elim v.path [
    | [] ↦ missing_root
    | root ∷ path ↦
        if root == 0
        then (elim (append path v.value t) [ none ↦ unfinished | some t' ↦ process_lines lines t' ])
        else missing_root
  ]
]

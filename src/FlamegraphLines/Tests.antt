-- ===== src/FlamegraphLines/Tests.antt =====
-- A few lines.
use mem_hawk.Prelude.{ℕ, ◌≡◌, refl, ◌+◌, ◌*◌, ◌^◌, ◌<◌, List, [], ◌∷◌, none, some, arith, u64}
use mem_hawk.Flamegraph.{CompressedTrie, new_trie, node_at}
use mem_hawk.Flamegraph.Sums.{value_sum}
use mem_hawk.Flamegraph.Splitting.{IsTrie}
use mem_hawk.Flamegraph.Log.{log_size, log_sum, log_total}
use mem_hawk.FlamegraphLines.{
  LineValue, parse_line, parse_rest, parse_path, parse_int64, negated, parse_uint32, parse_below,
  check_below, number_from, leading_digits, is_digit, read, process_lines,
}
use mem_hawk.FlamegraphLines.RoundTrip.{print_line, AreWords, parse_line-print_line}
use mem_hawk.FlamegraphLines.Process.{print_log, IsLog, process_lines-print_log}

-- `-15<tab>[0,42]`, and the same without the opening bracket.
read_line :
    (parse_line (45 ∷ 49 ∷ 53 ∷ 9 ∷ 91 ∷ 48 ∷ 44 ∷ 52 ∷ 50 ∷ 93 ∷ [])
      ≡ some (record { value = 18446744073709551601; path = 0 ∷ 42 ∷ [] }))
    × (parse_line (45 ∷ 49 ∷ 53 ∷ 9 ∷ 48 ∷ 44 ∷ 52 ∷ 50 ∷ 93 ∷ []) ≡ none)
unfolding parse_line parse_rest parse_path parse_int64 negated parse_uint32 parse_below check_below
    number_from leading_digits is_digit
read_line = (refl, refl)

-- A bracket that closes too early, `1<tab>[0]7`, is read as a comma.
early_bracket :
    parse_line (49 ∷ 9 ∷ 91 ∷ 48 ∷ 93 ∷ 55 ∷ 93 ∷ [])
    ≡ some (record { value = 1; path = 0 ∷ 7 ∷ [] })
unfolding parse_line parse_rest parse_path parse_int64 parse_uint32 parse_below check_below
    number_from leading_digits is_digit
early_bracket = refl

abbrev some_line : LineValue
some_line = record { value = 18446744073709551601; path = 0 ∷ 42 ∷ [] }

some_path-AreWords : AreWords (0 ∷ 42 ∷ [])
unfolding AreWords
some_path-AreWords = (omega arith, (omega arith, tt))

parse_line-print_line_example : parse_line (print_line some_line) ≡ some some_line
parse_line-print_line_example = parse_line-print_line some_line (omega arith) some_path-AreWords

abbrev two_lines : List (List ℕ × ℕ)
two_lines = (42 ∷ [], 10) ∷ ([], 18446744073709551601) ∷ []

two_lines-IsLog : IsLog two_lines
unfolding IsLog AreWords
two_lines-IsLog = (omega arith, (omega arith, tt), (omega arith, tt, tt))

two_lines_size : 1 + 2 * log_size two_lines < 2 ^ 32
unfolding log_size
two_lines_size = omega arith

process_lines-print_log_example :
    (addresses : List (List ℕ)) × (t : CompressedTrie) × (process_lines
        (print_log two_lines)
        new_trie
      ≡ read t)
    × IsTrie addresses t
    × ((q : List ℕ) → value_sum q addresses t.nodes ≡ log_sum q two_lines)
    × (u64 (node_at t 0).total ≡ log_total two_lines)
process_lines-print_log_example = process_lines-print_log two_lines two_lines-IsLog two_lines_size

-- ===== src/FlamegraphLines/Process.antt =====
-- The loop of `process` in source/flamegraph/src/main.cpp over a printed log.
use mem_hawk.Prelude.{
  ℕ, ◌+◌, ◌*◌, ◌^◌, ◌<◌, ◌≡◌, refl, sym, ap, ◌∙◌, List, [], ◌∷◌, Option, none, some, Option-cases,
  inl, inr, arith, u64,
}
use mem_hawk.Flamegraph.{CompressedTrie, new_trie, node_at, append, append_all}
use mem_hawk.Flamegraph.Sums.{value_sum}
use mem_hawk.Flamegraph.Splitting.{IsTrie}
use mem_hawk.Flamegraph.Log.{append_next, append-none, log_size, log_sum, log_total, append_all_lem}
use mem_hawk.FlamegraphLines.{LineValue, parse_line, read, process_lines}
use mem_hawk.FlamegraphLines.RoundTrip.{print_line, AreWords, parse_line-print_line}

-- The lines of a log: the id of the root, 0, is in front of each path.
unfoldable pub print_log : List (List ℕ × ℕ) → List (List ℕ)
print_log [] = []
print_log ((path, value) ∷ log) =
    print_line (record { value = value; path = 0 ∷ path }) ∷ print_log log

-- The values are 64-bit patterns, and the elements of the paths 32-bit words.
unfoldable pub IsLog : List (List ℕ × ℕ) → Type 0
IsLog [] = Unit
IsLog ((path, value) ∷ log) = (value < 2 ^ 64) × AreWords path × IsLog log

process_lines_step :
    (line path : List ℕ) (lines : List (List ℕ)) (value : ℕ) (t t' : CompressedTrie)
    → parse_line line ≡ some (record { value = value; path = 0 ∷ path })
    → append path value t ≡ some t'
    → process_lines (line ∷ lines) t ≡ process_lines lines t'
unfolding process_lines
process_lines_step line path lines value t t' h e = rw (process_lines, h, e) refl

none-some : {t : CompressedTrie} → none ≡ some t → ⊥
none-some h = ground arith

some-inj : {t t' : CompressedTrie} → some t ≡ some t' → t ≡ t'
some-inj {t} h = ap (λ (o : Option CompressedTrie). elim o [ none ↦ t | some z ↦ z ]) h

with_root : (path : List ℕ) → AreWords path → AreWords (0 ∷ path)
unfolding AreWords
with_root path w = (omega arith, w)

append_all_step :
    (path : List ℕ) (value : ℕ) (log : List (List ℕ × ℕ)) (t : CompressedTrie)
    (out : CompressedTrie)
    → append_all ((path, value) ∷ log) t ≡ some out
    → (t' : CompressedTrie) × (append path value t ≡ some t') × (append_all log t' ≡ some out)
append_all_step path value log t out h = elim (Option-cases (append path value t)) [
  | inl e ↦ absurd (none-some (sym (append-none path value log t e) ∙ h))
  | inr found ↦ (found.0, found.1, sym (append_next path value log t found.0 found.1) ∙ h)
]

process_lines_read :
    (log : List (List ℕ × ℕ)) (t out : CompressedTrie)
    → IsLog log
    → append_all log t ≡ some out
    → process_lines (print_log log) t ≡ read out
unfolding process_lines print_log IsLog append_all
process_lines_read [] t out l h = ap read (some-inj h)
process_lines_read ((path, value) ∷ log) t out l h =
    let (t', one, rest) = append_all_step path value log t out h in
    let line : LineValue = record { value = value; path = 0 ∷ path } in
    process_lines_step (print_line line) path (print_log log) value t t'
      (parse_line-print_line line (l.0) (with_root path (l.1))) one
    ∙ process_lines_read log t' out (l.2) rest

-- A printed log of 64-bit values and paths of 32-bit words, whose paths have `n` elements together,
-- with 2 n + 1 below 2 ^ 32, is read to its end. The result is a trie whose nodes have addresses such
-- that, for every path, the values of the nodes with this address sum up, in 64 bits, to the values
-- that the log has for the path, and the total of the root is the sum of all values of the log.
pub process_lines-print_log :
    (log : List (List ℕ × ℕ))
    → IsLog log
    → 1 + 2 * log_size log < 2 ^ 32
    → (addresses : List (List ℕ)) × (t : CompressedTrie) × (process_lines (print_log log) new_trie
        ≡ read t)
      × IsTrie addresses t
      × ((q : List ℕ) → value_sum q addresses t.nodes ≡ log_sum q log)
      × (u64 (node_at t 0).total ≡ log_total log)
process_lines-print_log log l room =
    let (addresses, t, run, trie, sums, total) = append_all_lem log room in
    (addresses, t, process_lines_read log new_trie t l run, trie, sums, total)

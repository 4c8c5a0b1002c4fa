-- ===== src/Flamegraph/Tests.antt =====
-- The trie of a few paths.
use mem_hawk.Prelude.{◌+◌, ◌*◌, ◌<◌, ◌^◌, u64, arith, ℕ, ◌≡◌, refl, List, [], ◌∷◌, some}
use mem_hawk.Prelude.Maps.{find?, insert}
use mem_hawk.Flamegraph.Sums.{value_sum}
use mem_hawk.Flamegraph.Splitting.{IsTrie}
use mem_hawk.Flamegraph.Log.{log_size, log_sum, log_total, append_all_lem}
use mem_hawk.Flamegraph.{
  node_at, CompressedTrie, append_all, append, append_loop, next_node, create_node, create_path,
  add_total, split_path, split_node, match_length, span_elements, span_size, new_trie,
}

-- The second path splits the node of the first one.
split_once :
    append_all ((1 ∷ 2 ∷ 3 ∷ [], 10) ∷ (1 ∷ 2 ∷ 4 ∷ [], 5) ∷ (1 ∷ 2 ∷ [], 7) ∷ []) new_trie
    ≡ some (record {
      nodes =
          record {
            path = record { begin = 0; end = 0 };
            edges = (1, 1) ∷ [];
            total = 22;
            value = 0;
          }
          ∷ record {
            path = record { begin = 0; end = 2 };
            edges = (4, 3) ∷ (3, 2) ∷ [];
            total = 22;
            value = 7;
          }
          ∷ record { path = record { begin = 2; end = 3 }; edges = []; total = 10; value = 10 }
          ∷ record { path = record { begin = 3; end = 4 }; edges = []; total = 5; value = 5 }
          ∷ [];
      paths = 1 ∷ 2 ∷ 3 ∷ 4 ∷ [];
    })
unfolding append_all append append_loop next_node create_node create_path add_total split_path
    split_node match_length span_elements span_size find? insert
split_once = refl

abbrev three_lines : List (List ℕ × ℕ)
three_lines = (1 ∷ 2 ∷ 3 ∷ [], 10) ∷ (1 ∷ 2 ∷ 4 ∷ [], 5) ∷ (1 ∷ 2 ∷ [], 7) ∷ []

three_lines_size : 1 + 2 * log_size three_lines < 2 ^ 32
unfolding log_size
three_lines_size = omega arith

append_all_lem_example :
    (addresses : List (List ℕ)) × (t : CompressedTrie) × (append_all three_lines new_trie ≡ some t)
    × IsTrie addresses t
    × ((q : List ℕ) → value_sum q addresses t.nodes ≡ log_sum q three_lines)
    × (u64 (node_at t 0).total ≡ log_total three_lines)
append_all_lem_example = append_all_lem three_lines three_lines_size

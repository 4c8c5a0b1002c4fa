-- ===== src/Flamegraph/Descent.antt =====
-- A node of `CompressedTrie` in source/flamegraph/src/graph.h whose total or value changes: it keeps the
-- invariant, and its sum changes by its value.
use mem_hawk.Prelude.{
  ℕ, ◌<◌, ◌≡◌, ◌≢◌, sym, ap, ◌∙◌, subst, List, [], arith, add64, length, set, length-set,
  get_or-set_self, get_or-set_ne,
}
use mem_hawk.Flamegraph.{CompressedTrie, Node, node_at, empty_node, span_elements}
use mem_hawk.Flamegraph.Spans.{IsInside}
use mem_hawk.Flamegraph.Sums.{value_sum, value_sum-set, share, set_self}
use mem_hawk.Flamegraph.Splitting.{keys_at, edges_at, address_at, IsTrie}
use native.Mathlib.Decide.{ℕ_discrete}

abbrev pub with_node : CompressedTrie → ℕ → Node → CompressedTrie
with_node t r node = record t { nodes = set t.nodes r node }

-- A node with the same span and edges.
module _ (r : ℕ) (node : Node) (addresses : List (List ℕ)) (t : CompressedTrie)
    (trie : IsTrie addresses t) (bound : r < length t.nodes)
    (same_path : node.path ≡ (node_at t r).path)
    (same_edges : node.edges ≡ (node_at t r).edges) where
  pub at_touched : node_at (with_node t r node) r ≡ node
  at_touched = get_or-set_self t.nodes r node empty_node bound

  pub at_untouched : (j : ℕ) → j ≢ r → node_at (with_node t r node) j ≡ node_at t j
  at_untouched j ne = get_or-set_ne t.nodes r j node empty_node (λ e. ne (sym e))

  touched_path : (j : ℕ) → (node_at (with_node t r node) j).path ≡ (node_at t j).path
  touched_path j = elim (ℕ_discrete j r) [
    | yes e ↦
        ap (λ i. (node_at (with_node t r node) i).path) e
        ∙ (ap (λ (z : Node). z.path) at_touched
            ∙ (same_path ∙ ap (λ i. (node_at t i).path) (sym e)))
    | no ne ↦ ap (λ (z : Node). z.path) (at_untouched j ne)
  ]

  touched_edges : (j : ℕ) → edges_at (with_node t r node) j ≡ edges_at t j
  touched_edges j = elim (ℕ_discrete j r) [
    | yes e ↦
        ap (edges_at (with_node t r node)) e
        ∙ (ap (λ (z : Node). z.edges) at_touched ∙ (same_edges ∙ ap (edges_at t) (sym e)))
    | no ne ↦ ap (λ (z : Node). z.edges) (at_untouched j ne)
  ]

  pub touched_keys : (j : ℕ) → keys_at (with_node t r node) j ≡ keys_at t j
  touched_keys j = ap (span_elements t.paths) (touched_path j)

  pub with_node-IsTrie : IsTrie addresses (with_node t r node)
  with_node-IsTrie = record {
    same_length = omega (arith, trie.same_length, length-set t.nodes r node);
    inside = λ i h.
        subst (IsInside (length t.paths)) (sym (touched_path i))
          (trie.inside i (omega (arith, length-set t.nodes r node)));
    tree =
        let keys : keys_at (with_node t r node) ≡ keys_at t = λ i j. touched_keys j i in
        let edges : edges_at (with_node t r node) ≡ edges_at t = λ i j. touched_edges j i in
        rw (length-set t.nodes r node, keys, edges) trie.tree;
  }

  pub value_sum-with_node :
      (q : List ℕ)
      → add64
          (value_sum q addresses (with_node t r node).nodes)
          (share q (address_at addresses r) (node_at t r).value)
        ≡ add64 (value_sum q addresses t.nodes) (share q (address_at addresses r) node.value)
  value_sum-with_node q =
      ap
        (λ z.
          add64 (value_sum q z (with_node t r node).nodes)
            (share q (address_at addresses r) (node_at t r).value))
        (sym (set_self addresses r []))
      ∙ value_sum-set q addresses t.nodes r (address_at addresses r) node empty_node
          trie.same_length bound

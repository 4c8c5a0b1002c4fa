-- ===== src/Flamegraph/Splitting.antt =====
-- `CompressedTrie::SplitPath` of source/flamegraph/src/graph.h: the invariant of a trie, and that the
-- split of a node keeps it and the sums of the values.
use mem_hawk.Prelude.{
  ℕ, suc, ◌+◌, ◌^◌, ◌<◌, ◌≡◌, ◌≢◌, refl, sym, ap, ◌∙◌, subst, List, [], ◌∷◌, ◌++◌, arith, u32,
  length, get_or, set, take, length-set,
}
use mem_hawk.Flamegraph.{
  CompressedTrie, Node, node_at, empty_node, span_elements, span_size, split_node, offset, first,
}
use mem_hawk.Flamegraph.Spans.{
  IsInside, first-IsInside, offset-IsInside, span_elements-first, span_elements-offset,
  drop-span_elements,
}
use mem_hawk.Flamegraph.Sums.{
  value_sum, value_sum-set, value_sum-append, value_sum-small, share_zero, written_here,
  written_last, written_other, length-written,
}
use mem_hawk.Flamegraph.Shape.{IsTree}
use mem_hawk.Flamegraph.ShapeSplit.{IsSplit, split-IsTree, not_root}
use native.Mathlib.Decide.{ℕ_discrete}
use native.Mathlib.Nat.{mod-eq_of_lt}

abbrev pub keys_at : CompressedTrie → ℕ → List ℕ
keys_at t i = span_elements t.paths (node_at t i).path

abbrev pub edges_at : CompressedTrie → ℕ → List (ℕ × ℕ)
edges_at t i = (node_at t i).edges

abbrev pub address_at : List (List ℕ) → ℕ → List ℕ
address_at addresses i = get_or addresses i []

-- A trie whose nodes have the given addresses.
pub record IsTrie (addresses : List (List ℕ)) (t : CompressedTrie) : Type 0 where
  pub same_length : length addresses ≡ length t.nodes
  pub inside : (i : ℕ) → i < length t.nodes → IsInside (length t.paths) (node_at t i).path
  pub tree : IsTree (length t.nodes) (address_at addresses) (keys_at t) (edges_at t)

-- What a step of an append leaves as it is: the sums of all paths, and the total of the root.
pub record IsKept (addresses : List (List ℕ)) (t : CompressedTrie) (addresses' : List (List ℕ))
    (t' : CompressedTrie) : Type 0 where
  pub sums : (q : List ℕ) → value_sum q addresses' t'.nodes ≡ value_sum q addresses t.nodes
  pub root_total : (node_at t' 0).total ≡ (node_at t 0).total

module _ (r m : ℕ) (before : List ℕ) (addresses : List (List ℕ)) (t : CompressedTrie)
    (trie : IsTrie addresses t) (bound : r < length t.nodes) (few : suc (length t.nodes) < 2 ^ 32)
    (small : length t.paths < 2 ^ 32) (part : suc m < span_size (node_at t r).path)
    (address : address_at addresses r ≡ before ++ keys_at t r) where
  unfoldable pub split_addresses : List (List ℕ)
  split_addresses =
      set addresses r (before ++ take (suc m) (keys_at t r)) ++ (address_at addresses r ∷ [])

  abbrev node : Node
  node = node_at t r

  abbrev matched : Node
  matched = record node {
    path = first node.path (suc m);
    edges = (get_or t.paths (node.path.begin + suc m) 0, u32 (length t.nodes)) ∷ [];
    value = 0;
  }

  abbrev leftover : Node
  leftover = record node { path = offset node.path (suc m) }

  at_cut : node_at (split_node r (suc m) t) r ≡ matched
  unfolding split_node
  at_cut = written_here t.nodes r matched leftover empty_node bound

  at_new : node_at (split_node r (suc m) t) (length t.nodes) ≡ leftover
  unfolding split_node
  at_new = written_last t.nodes r matched leftover empty_node bound

  at_other : (j : ℕ) → j < length t.nodes → j ≢ r → node_at (split_node r (suc m) t) j ≡ node_at t j
  unfolding split_node
  at_other = written_other t.nodes r matched leftover empty_node bound

  paths_lem : (split_node r (suc m) t).paths ≡ t.paths
  unfolding split_node
  paths_lem = refl

  pub length-split_node : length (split_node r (suc m) t).nodes ≡ suc (length t.nodes)
  unfolding split_node
  length-split_node = length-written t.nodes r matched leftover empty_node bound

  address_bound : r < length addresses
  address_bound = omega (arith, trie.same_length)

  pub split_address : address_at split_addresses r ≡ before ++ take (suc m) (keys_at t r)
  unfolding split_addresses
  split_address =
      written_here addresses r (before ++ take (suc m) (keys_at t r)) (address_at addresses r) []
        address_bound

  pub split_keys : keys_at (split_node r (suc m) t) r ≡ take (suc m) (keys_at t r)
  unfolding split_node
  split_keys =
      ap (λ (z : Node). span_elements t.paths z.path) at_cut
      ∙ span_elements-first t.paths node.path (trie.inside r bound) small (suc m) part

  split :
      IsSplit
        (length t.nodes)
        r
        m
        (get_or t.paths (node.path.begin + suc m) 0)
        before
        (address_at addresses)
        (keys_at t)
        (address_at split_addresses)
        (keys_at (split_node r (suc m) t))
        (edges_at t)
        (edges_at (split_node r (suc m) t))
  unfolding split_node split_addresses
  split =
      let (ks, starts) =
        drop-span_elements t.paths node.path (trie.inside r bound) small (suc m) part in
      record {
        address = address;
        cut_address = split_address;
        cut_keys = split_keys;
        cut_edges =
            ap (λ (z : Node). z.edges) at_cut
            ∙ ap (λ z. (get_or t.paths (node.path.begin + suc m) 0, z) ∷ [])
                (mod-eq_of_lt (omega arith));
        new_address =
            ap (λ i. address_at split_addresses i) (sym trie.same_length)
            ∙ written_last addresses r (before ++ take (suc m) (keys_at t r))
                (address_at addresses r) [] address_bound;
        new_keys =
            ap (λ (z : Node). span_elements t.paths z.path) at_new
            ∙ span_elements-offset t.paths node.path (trie.inside r bound) small (suc m) part;
        new_edges = ap (λ (z : Node). z.edges) at_new;
        rest = ks;
        starts = starts;
        same = λ j h ne. (
          written_other addresses r (before ++ take (suc m) (keys_at t r)) (address_at addresses r)
              [] address_bound j (omega (arith, trie.same_length)) ne,
          ap (λ (z : Node). span_elements t.paths z.path) (at_other j h ne),
          ap (λ (z : Node). z.edges) (at_other j h ne),
        );
      }

  pub root_ne : r ≢ 0
  root_ne =
      not_root (length t.nodes) r m (get_or t.paths (node.path.begin + suc m) 0) before
        (address_at addresses) (keys_at t) (address_at split_addresses)
        (keys_at (split_node r (suc m) t)) (edges_at t) (edges_at (split_node r (suc m) t))
        trie.tree bound split

  split-IsInside :
      (i : ℕ)
      → i < suc (length t.nodes)
      → IsInside (length t.paths) (node_at (split_node r (suc m) t) i).path
  split-IsInside i h =
      let by =
        λ (z : Node) (e : node_at (split_node r (suc m) t) i ≡ z)
            (p : IsInside (length t.paths) z.path).
          subst (λ (w : Node). IsInside (length t.paths) w.path) (sym e) p in
      elim (ℕ_discrete i (length t.nodes)) [
        | yes e ↦
            by leftover (ap (node_at (split_node r (suc m) t)) e ∙ at_new)
              (offset-IsInside t.paths node.path (trie.inside r bound) small (suc m) part)
        | no old ↦ elim (ℕ_discrete i r) [
          | yes e ↦
              by matched (ap (node_at (split_node r (suc m) t)) e ∙ at_cut)
                (first-IsInside t.paths node.path (trie.inside r bound) small (suc m) part)
          | no other ↦
              by (node_at t i) (at_other i (omega arith) other) (trie.inside i (omega arith))
        ]
      ]

  pub split_node-IsTrie : IsTrie split_addresses (split_node r (suc m) t)
  unfolding split_addresses
  split_node-IsTrie = record {
    same_length = omega (
      arith,
      trie.same_length,
      length-split_node,
      length-written addresses r (before ++ take (suc m) (keys_at t r)) (address_at addresses r) []
          address_bound,
    );
    inside = λ i h. rw paths_lem (split-IsInside i (omega (arith, length-split_node)));
    tree = rw length-split_node (
        split-IsTree (length t.nodes) r m (get_or t.paths (node.path.begin + suc m) 0) before
          (address_at addresses) (keys_at t) (address_at split_addresses)
          (keys_at (split_node r (suc m) t)) (edges_at t) (edges_at (split_node r (suc m) t))
          trie.tree bound split);
  }

  pub split_node-IsKept : IsKept addresses t split_addresses (split_node r (suc m) t)
  unfolding split_addresses split_node
  split_node-IsKept = record {
    sums = λ q.
        let cut = before ++ take (suc m) (keys_at t r) in
        omega (
          arith,
          value_sum-set q addresses t.nodes r cut matched empty_node trie.same_length bound,
          value_sum-append q (set addresses r cut) (set t.nodes r matched) (address_at addresses r)
              leftover
              (omega (
                arith,
                trie.same_length,
                length-set addresses r cut,
                length-set t.nodes r matched,
              )),
          share_zero q cut,
          value_sum-small q addresses t.nodes,
          value_sum-small q (set addresses r cut) (set t.nodes r matched),
        );
    root_total =
        ap (λ (z : Node). z.total) (at_other 0 trie.tree.root_bound (λ e. root_ne (sym e)));
  }

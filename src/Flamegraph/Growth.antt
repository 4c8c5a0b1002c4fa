-- ===== src/Flamegraph/Growth.antt =====
-- `create_node`, the part of `CompressedTrie::Append` of source/flamegraph/src/graph.h that adds a
-- node for the rest of a path: it keeps the invariant and the sums.
use mem_hawk.Prelude.{
  ℕ, suc, ◌+◌, ◌^◌, ◌<◌, ◌≡◌, ◌≢◌, refl, sym, ap, ◌∙◌, subst, List, [], ◌∷◌, ◌++◌, none, arith, u32,
  length, set, length-append, length-set,
}
use mem_hawk.Prelude.Maps.{find?, insert}
use mem_hawk.Flamegraph.{
  CompressedTrie, Node, node_at, empty_node, span_elements, create_node, create_path,
}
use mem_hawk.Flamegraph.Spans.{
  IsInside, span_elements-append, create_path-IsInside, span_elements-create_path,
}
use mem_hawk.Flamegraph.Sums.{
  value_sum-set, value_sum-append, value_sum-small, share_zero, share_small, written_here,
  written_last, written_other, length-written,
}
use mem_hawk.Flamegraph.ShapeGrown.{IsGrown, grown-IsTree}
use mem_hawk.Flamegraph.Splitting.{keys_at, edges_at, address_at, IsTrie, IsKept}
use native.Mathlib.Decide.{ℕ_discrete}
use native.Mathlib.Nat.{mod-eq_of_lt}

-- A node added below node `r`.
module _ (r key : ℕ) (path rest : List ℕ) (addresses : List (List ℕ)) (t : CompressedTrie)
    (trie : IsTrie addresses t) (bound : r < length t.nodes) (few : suc (length t.nodes) < 2 ^ 32)
    (small : length t.paths + length path < 2 ^ 32) (starts : path ≡ key ∷ rest)
    (free : find? key (edges_at t r) ≡ none) where
  unfoldable pub grown_addresses : List (List ℕ)
  grown_addresses =
      set addresses r (address_at addresses r) ++ ((address_at addresses r ++ path) ∷ [])

  abbrev t' : CompressedTrie
  t' = (create_node r key path t).0

  abbrev parent : Node
  parent = record (node_at t r) { edges = insert key (u32 (length t.nodes)) (edges_at t r) }

  abbrev child : Node
  child = record empty_node { path = (create_path path t).1 }

  nodes_lem : t'.nodes ≡ set t.nodes r parent ++ (child ∷ [])
  unfolding create_node create_path
  nodes_lem = refl

  paths_lem : t'.paths ≡ t.paths ++ path
  unfolding create_node create_path
  paths_lem = refl

  pub create_node_id : (create_node r key path t).1 ≡ length t.nodes
  unfolding create_node create_path
  create_node_id = mod-eq_of_lt (omega arith)

  pub length-create_node : length t'.nodes ≡ suc (length t.nodes)
  length-create_node = ap length nodes_lem ∙ length-written t.nodes r parent child empty_node bound

  pub length-create_node_paths : length t'.paths ≡ length t.paths + length path
  length-create_node_paths = ap length paths_lem ∙ length-append t.paths path

  at_parent : node_at t' r ≡ parent
  unfolding create_node create_path
  at_parent = written_here t.nodes r parent child empty_node bound

  pub at_child : node_at t' (length t.nodes) ≡ child
  unfolding create_node create_path
  at_child = written_last t.nodes r parent child empty_node bound

  at_other : (j : ℕ) → j < length t.nodes → j ≢ r → node_at t' j ≡ node_at t j
  unfolding create_node create_path
  at_other = written_other t.nodes r parent child empty_node bound

  -- The spans of the old nodes stay.
  old_path : (j : ℕ) → j < length t.nodes → (node_at t' j).path ≡ (node_at t j).path
  old_path j h = elim (ℕ_discrete j r) [
    | yes e ↦
        ap (λ i. (node_at t' i).path) e
        ∙ (ap (λ (z : Node). z.path) at_parent ∙ ap (λ i. (node_at t i).path) (sym e))
    | no ne ↦ ap (λ (z : Node). z.path) (at_other j h ne)
  ]

  old_keys : (j : ℕ) → j < length t.nodes → keys_at t' j ≡ keys_at t j
  unfolding create_node create_path
  old_keys j h =
      ap (span_elements (t.paths ++ path)) (old_path j h)
      ∙ span_elements-append t.paths (node_at t j).path (trie.inside j h) (omega arith) path

  pub create_node_keys : keys_at t' (length t.nodes) ≡ path
  unfolding create_node
  create_node_keys =
      ap (λ (z : Node). span_elements (create_path path t).0.paths z.path) at_child
      ∙ span_elements-create_path path t small

  address_bound : r < length addresses
  address_bound = omega (arith, trie.same_length)

  pub create_node_address :
      address_at grown_addresses (length t.nodes) ≡ address_at addresses r ++ path
  unfolding grown_addresses
  create_node_address =
      ap (address_at grown_addresses) (sym trie.same_length)
      ∙ written_last addresses r (address_at addresses r) (address_at addresses r ++ path) []
          address_bound

  old_address : (j : ℕ) → j < length t.nodes → address_at grown_addresses j ≡ address_at addresses j
  unfolding grown_addresses
  old_address j h = elim (ℕ_discrete j r) [
    | yes e ↦
        ap (address_at grown_addresses) e
        ∙ (written_here addresses r (address_at addresses r) (address_at addresses r ++ path) []
              address_bound
            ∙ ap (address_at addresses) (sym e))
    | no ne ↦
        written_other addresses r (address_at addresses r) (address_at addresses r ++ path) []
          address_bound j (omega (arith, trie.same_length)) ne
  ]

  grown :
      IsGrown
        (length t.nodes)
        r
        key
        (address_at addresses)
        (keys_at t)
        (address_at grown_addresses)
        (keys_at t')
        (edges_at t)
        (edges_at t')
  grown = record {
    free = free;
    grown_edges =
        ap (λ (z : Node). z.edges) at_parent
        ∙ ap (λ z. insert key z (edges_at t r)) (mod-eq_of_lt (omega arith));
    new_address =
        create_node_address ∙ ap (λ z. address_at addresses r ++ z) (sym create_node_keys);
    new_edges = ap (λ (z : Node). z.edges) at_child;
    rest = rest;
    starts = create_node_keys ∙ starts;
    same_address = old_address;
    same_keys = old_keys;
    same_edges = λ j h ne. ap (λ (z : Node). z.edges) (at_other j h ne);
  }

  created-IsInside :
      (i : ℕ)
      → i < suc (length t.nodes)
      → IsInside (length t.paths + length path) (node_at t' i).path
  created-IsInside i h = elim (ℕ_discrete i (length t.nodes)) [
    | yes e ↦
        subst (IsInside (length t.paths + length path))
          (sym (ap (λ j. (node_at t' j).path) e ∙ ap (λ (z : Node). z.path) at_child))
          (create_path-IsInside path t small)
    | no old ↦
        let p = trie.inside i (omega arith) in
        subst (IsInside (length t.paths + length path)) (sym (old_path i (omega arith)))
          (record { ordered = p.ordered; bounded = omega (arith, p.bounded) })
  ]

  pub create_node-IsTrie : IsTrie grown_addresses t'
  unfolding grown_addresses
  create_node-IsTrie = record {
    same_length = omega (
      arith,
      trie.same_length,
      length-create_node,
      length-written addresses r (address_at addresses r) (address_at addresses r ++ path) []
          address_bound,
    );
    inside =
        λ i h. rw length-create_node_paths (created-IsInside i (omega (arith, length-create_node)));
    tree = rw length-create_node (
        grown-IsTree (length t.nodes) r key (address_at addresses) (keys_at t)
          (address_at grown_addresses) (keys_at t') (edges_at t) (edges_at t') trie.tree bound
          grown);
  }

  root_total : (node_at t' 0).total ≡ (node_at t 0).total
  root_total = elim (ℕ_discrete 0 r) [
    | yes e ↦
        ap (λ i. (node_at t' i).total) e
        ∙ (ap (λ (z : Node). z.total) at_parent ∙ ap (λ i. (node_at t i).total) (sym e))
    | no ne ↦ ap (λ (z : Node). z.total) (at_other 0 trie.tree.root_bound ne)
  ]

  pub create_node-IsKept : IsKept addresses t grown_addresses t'
  unfolding grown_addresses
  create_node-IsKept = record {
    sums = λ q.
        let here = address_at addresses r in
        rw nodes_lem (
          omega (
            arith,
            value_sum-set q addresses t.nodes r here parent empty_node trie.same_length bound,
            value_sum-append q (set addresses r here) (set t.nodes r parent) (here ++ path) child (
                omega (
                  arith,
                  trie.same_length,
                  length-set addresses r here,
                  length-set t.nodes r parent,
                )),
            share_zero q (here ++ path),
            share_small q here (node_at t r).value,
            value_sum-small q addresses t.nodes,
            value_sum-small q (set addresses r here) (set t.nodes r parent),
          ));
    root_total = root_total;
  }

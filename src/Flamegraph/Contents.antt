-- ===== src/Flamegraph/Contents.antt =====
-- `CompressedTrie::Append` of source/flamegraph/src/graph.h as a whole, against a log of the paths
-- and their values.
use mem_hawk.Prelude.{
  ℕ, suc, ◌+◌, ◌*◌, ◌≤◌, ◌<◌, ◌≡◌, refl, sym, ap, ◌∙◌, List, [], ◌∷◌, ◌++◌, Option, some, arith,
  add64, length, length-set,
}
use mem_hawk.Flamegraph.{CompressedTrie, Node, node_at, append, append_loop}
use mem_hawk.Flamegraph.Sums.{value_sum, value_sum-small, share, share_add, share_small}
use mem_hawk.Flamegraph.Splitting.{address_at, IsTrie}
use mem_hawk.Flamegraph.Descent.{
  with_node, with_node-IsTrie, value_sum-with_node, at_touched, at_untouched,
}
use mem_hawk.Flamegraph.Matching.{HasRoom, split_path_root, loop_next}
use mem_hawk.Flamegraph.Appending.{
  value_sum-add_total, length-add_total, add_total_paths, add_total_here,
}
use mem_hawk.Flamegraph.Loop.{descend, append_loop_lem}

-- What one append makes of a trie.
pub record IsAppended (addresses : List (List ℕ)) (t : CompressedTrie) (path : List ℕ) (value : ℕ)
    (out : Option CompressedTrie) : Type 0 where
  pub addresses' : List (List ℕ)
  pub t' : CompressedTrie
  pub result : out ≡ some t'
  pub trie : IsTrie addresses' t'
  pub sums :
      (q : List ℕ)
      → value_sum q addresses' t'.nodes ≡ add64 (value_sum q addresses t.nodes) (share q path value)
  pub root_total : (node_at t' 0).total ≡ add64 (node_at t 0).total value
  pub nodes_le : length t'.nodes ≤ length t.nodes + 2 * length path
  pub paths_le : length t'.paths ≤ length t.paths + length path

-- The last two statements of `Append`.
abbrev paid : ℕ → ℕ → CompressedTrie → Node
paid r value t =
    let node = node_at t r in
    record node { total = add64 node.total value; value = add64 node.value value }

module _ (r value : ℕ) (path : List ℕ) (addresses : List (List ℕ)) (t : CompressedTrie)
    (trie : IsTrie addresses t) (bound : r < length t.nodes)
    (address : address_at addresses r ≡ path) where
  value_sum-paid :
      (q : List ℕ)
      → value_sum q addresses (with_node t r (paid r value t)).nodes
        ≡ add64 (value_sum q addresses t.nodes) (share q path value)
  value_sum-paid q =
      let here = address_at addresses r in
      omega (
        arith,
        value_sum-with_node r (paid r value t) addresses t trie bound refl refl q,
        share_add q here (node_at t r).value value,
        ap (λ a. share q a value) address,
        value_sum-small q addresses t.nodes,
        value_sum-small q addresses (with_node t r (paid r value t)).nodes,
        share_small q here (node_at t r).value,
      )

  paid-IsTrie : IsTrie addresses (with_node t r (paid r value t))
  paid-IsTrie = with_node-IsTrie r (paid r value t) addresses t trie bound refl refl

append_result :
    (path : List ℕ) (value r : ℕ) (t t' : CompressedTrie)
    → append_loop (length path + 2) 0 path value t ≡ some (t', r)
    → append path value t ≡ some (with_node t' r (paid r value t'))
unfolding append
append_result path value r t t' h = rw (append, h) refl

append_loop_empty : (value : ℕ) (t : CompressedTrie) → append_loop 2 0 [] value t ≡ some (t, 0)
unfolding append_loop
append_loop_empty value t = refl

append_empty :
    (value : ℕ) (addresses : List (List ℕ)) (t : CompressedTrie)
    → IsTrie addresses t
    → IsAppended addresses t [] value (append [] value t)
append_empty value addresses t trie =
    let root = trie.tree.root_bound in
    record {
      addresses' = addresses;
      t' = with_node t 0 (paid 0 value t);
      result = append_result [] value 0 t t (append_loop_empty value t);
      trie = paid-IsTrie 0 value [] addresses t trie root trie.tree.root_address;
      sums = value_sum-paid 0 value [] addresses t trie root trie.tree.root_address;
      root_total =
          ap (λ (z : Node). z.total)
            (at_touched 0 (paid 0 value t) addresses t trie root refl refl);
      nodes_le = omega (arith, length-set t.nodes 0 (paid 0 value t));
      paths_le = omega arith;
    }

append_path :
    (x value : ℕ) (xs : List ℕ) (addresses : List (List ℕ)) (t : CompressedTrie)
    → IsTrie addresses t
    → HasRoom (2 * suc (length xs)) (suc (length xs)) t
    → IsAppended addresses t (x ∷ xs) value (append (x ∷ xs) value t)
append_path x value xs addresses t trie room =
    let path = x ∷ xs in
    let root = trie.tree.root_bound in
    let fuel : length path + 2 ≡ suc (length xs + 2) = omega arith in
    let round =
      loop_next (length xs + 2) 0 x value xs t t 0 x xs
        (split_path_root 0 path t (trie.inside 0 root) (omega (arith, room.element_room))
          trie.tree.root_keys)
        refl in
    let end =
      descend (length xs + 2) value 0 x xs addresses t trie root (omega arith) room
        (append_loop_lem (length xs + 2) value) in
    let whole : address_at end.addresses' end.last ≡ path =
      end.address ∙ ap (λ z. z ++ path) trie.tree.root_address in
    let done = paid end.last value end.t' in
    record {
      addresses' = end.addresses';
      t' = with_node end.t' end.last done;
      result =
          append_result path value end.last t end.t'
            (ap (λ f. append_loop f 0 path value t) fuel ∙ (round ∙ end.result));
      trie = paid-IsTrie end.last value path end.addresses' end.t' end.trie end.bound whole;
      sums = λ q.
          value_sum-paid end.last value path end.addresses' end.t' end.trie end.bound whole q
          ∙ ap (λ s. add64 s (share q path value))
              (end.kept.sums q ∙ value_sum-add_total 0 value addresses t trie root q);
      root_total =
          ap (λ (z : Node). z.total)
            (at_untouched end.last done end.addresses' end.t' end.trie end.bound refl refl 0
              (λ z. end.not_root (sym z)))
          ∙ (end.kept.root_total ∙ add_total_here 0 value addresses t trie root);
      nodes_le = omega (
        arith,
        length-set end.t'.nodes end.last done,
        end.nodes_le,
        length-add_total 0 value addresses t trie root,
      );
      paths_le =
          omega (arith, end.paths_le, ap length (add_total_paths 0 value addresses t trie root));
    }

-- An append to a trie with room for two nodes and one element per element of the path ends, keeps
-- the trie well formed, adds the value to the sum of the path and to no other, and adds it to the
-- total of the root.
pub append_lem :
    (path : List ℕ) (value : ℕ) (addresses : List (List ℕ)) (t : CompressedTrie)
    → IsTrie addresses t
    → HasRoom (2 * length path) (length path) t
    → IsAppended addresses t path value (append path value t)
append_lem [] value addresses t trie room = append_empty value addresses t trie
append_lem (x ∷ xs) value addresses t trie room = append_path x value xs addresses t trie room

-- ===== src/Flamegraph/Appending.antt =====
-- A round of `CompressedTrie::Append` in source/flamegraph/src/graph.h after the match: the total of
-- the node, and the child that the loop goes on with.
use mem_hawk.Prelude.{
  ℕ, suc, ◌+◌, ◌*◌, ◌^◌, ◌≤◌, ◌<◌, ◌≡◌, ◌≢◌, refl, sym, ap, ◌∙◌, List, ◌∷◌, ◌++◌, Option, none,
  some, arith, add64, length, length-set,
}
use mem_hawk.Prelude.Maps.{find?}
use mem_hawk.Flamegraph.{CompressedTrie, Node, node_at, append_loop, add_total, create_node}
use mem_hawk.Flamegraph.Sums.{value_sum, value_sum-small, share_small}
use mem_hawk.Flamegraph.Splitting.{keys_at, edges_at, address_at, IsTrie, IsKept}
use mem_hawk.Flamegraph.Descent.{
  with_node, with_node-IsTrie, value_sum-with_node, at_touched, at_untouched,
}
use mem_hawk.Flamegraph.Growth.{
  grown_addresses, create_node-IsTrie, create_node-IsKept, create_node_id, create_node_keys,
  create_node_address, length-create_node, length-create_node_paths,
}
use mem_hawk.Flamegraph.Matching.{HasRoom, loop_whole}
use mathlib.Core.List.{nil≢cons}

-- The loop has ended at a node that is not the root, after `path`, with the sums as they were.
pub record IsEnd (addresses : List (List ℕ)) (t : CompressedTrie) (path : List ℕ) (left : ℕ)
    (out : Option (CompressedTrie × ℕ)) : Type 0 where
  pub addresses' : List (List ℕ)
  pub t' : CompressedTrie
  pub last : ℕ
  pub result : out ≡ some (t', last)
  pub trie : IsTrie addresses' t'
  pub kept : IsKept addresses t addresses' t'
  pub bound : last < length t'.nodes
  pub not_root : last ≢ 0
  pub address : address_at addresses' last ≡ path
  pub nodes_le : length t'.nodes ≤ length t.nodes + 2 * left
  pub paths_le : length t'.paths ≤ length t.paths + left

-- `Append`'s `node.total += value`
module _ (r value : ℕ) (addresses : List (List ℕ)) (t : CompressedTrie) (trie : IsTrie addresses t)
    (bound : r < length t.nodes) where
  pub add_total-IsTrie : IsTrie addresses (add_total r value t)
  unfolding add_total
  add_total-IsTrie =
      with_node-IsTrie r (record (node_at t r) { total = add64 (node_at t r).total value })
        addresses t trie bound refl refl

  pub value_sum-add_total :
      (q : List ℕ)
      → value_sum q addresses (add_total r value t).nodes ≡ value_sum q addresses t.nodes
  unfolding add_total
  value_sum-add_total q =
      let node = record (node_at t r) { total = add64 (node_at t r).total value } in
      omega (
        arith,
        value_sum-with_node r node addresses t trie bound refl refl q,
        value_sum-small q addresses t.nodes,
        value_sum-small q addresses (with_node t r node).nodes,
        share_small q (address_at addresses r) (node_at t r).value,
      )

  pub length-add_total : length (add_total r value t).nodes ≡ length t.nodes
  unfolding add_total
  length-add_total =
      length-set t.nodes r (record (node_at t r) { total = add64 (node_at t r).total value })

  pub add_total_paths : (add_total r value t).paths ≡ t.paths
  unfolding add_total
  add_total_paths = refl

  pub add_total_other : (j : ℕ) → j ≢ r → node_at (add_total r value t) j ≡ node_at t j
  unfolding add_total
  add_total_other =
      at_untouched r (record (node_at t r) { total = add64 (node_at t r).total value }) addresses t
        trie bound refl refl

  pub add_total_here : (node_at (add_total r value t) r).total ≡ add64 (node_at t r).total value
  unfolding add_total
  add_total_here =
      ap (λ (z : Node). z.total)
        (at_touched r (record (node_at t r) { total = add64 (node_at t r).total value }) addresses t
          trie bound refl refl)

-- Enough fuel for the paths that are left.
unfoldable pub EndsAt : ℕ → ℕ → Type 0
EndsAt fuel value =
    (r x : ℕ) (before xs ks : List ℕ) (addresses : List (List ℕ)) (t : CompressedTrie)
    → suc (length xs) ≤ fuel
    → IsTrie addresses t
    → r < length t.nodes
    → r ≢ 0
    → HasRoom (2 * suc (length xs)) (suc (length xs)) t
    → address_at addresses r ≡ before ++ keys_at t r
    → keys_at t r ≡ x ∷ ks
    → IsEnd addresses t (before ++ (x ∷ xs)) (suc (length xs)) (append_loop fuel r (x ∷ xs) value t)

-- The step to a child, which may be a new one.
module _ (fuel value r key : ℕ) (more : List ℕ) (addresses : List (List ℕ)) (t : CompressedTrie)
    (trie : IsTrie addresses t) (bound : r < length t.nodes) (fed : suc (length more) ≤ fuel)
    (room : HasRoom (2 * suc (length more)) (suc (length more)) t) (ends : EndsAt fuel value) where
  abbrev path : List ℕ
  path = key ∷ more

  pub old_child :
      (c : ℕ)
      → find? key (edges_at t r) ≡ some c
      → IsEnd addresses t
          (address_at addresses r ++ path)
          (suc (length more))
          (append_loop fuel c path value t)
  unfolding EndsAt
  old_child c e =
      let edge = trie.tree.edge r key c bound e in
      ends c key (address_at addresses r) more edge.rest addresses t fed trie edge.child_bound
        (λ z. nil≢cons (sym trie.tree.root_keys ∙ (ap (keys_at t) (sym z) ∙ edge.starts))) room
        edge.address edge.starts

  pub new_child :
      find? key (edges_at t r) ≡ none
      → IsEnd addresses t
          (address_at addresses r ++ path)
          (suc (length more))
          (append_loop fuel (create_node r key path t).1 path value (create_node r key path t).0)
  new_child free =
      let few : suc (length t.nodes) < 2 ^ 32 = omega (arith, room.node_room) in
      let small : length t.paths + length path < 2 ^ 32 = omega (arith, room.element_room) in
      let t' = (create_node r key path t).0 in
      let n = length t.nodes in
      let new = create_node-IsTrie r key path more addresses t trie bound few small refl free in
      let keys = create_node_keys r key path more addresses t trie bound few small refl free in
      let nodes = length-create_node r key path more addresses t trie bound few small refl free in
      let elements =
        length-create_node_paths r key path more addresses t trie bound few small refl free in
      let id = create_node_id r key path more addresses t trie bound few small refl free in
      record {
        addresses' = grown_addresses r key path more addresses t trie bound few small refl free;
        t' = t';
        last = n;
        result =
            ap (λ c. append_loop fuel c path value t') id
            ∙ loop_whole fuel n key value more t' (omega (arith, fed))
                (new.inside n (omega (arith, nodes))) (omega (arith, elements, room.element_room))
                keys;
        trie = new;
        kept = create_node-IsKept r key path more addresses t trie bound few small refl free;
        bound = omega (arith, nodes);
        not_root = λ z. omega (arith, bound);
        address = create_node_address r key path more addresses t trie bound few small refl free;
        nodes_le = omega (arith, nodes);
        paths_le = omega (arith, elements);
      }

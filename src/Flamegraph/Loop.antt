-- ===== src/Flamegraph/Loop.antt =====
-- The loop of `CompressedTrie::Append` in source/flamegraph/src/graph.h: it ends at a node whose
-- address is the path, and keeps the invariant and the sums.
use mem_hawk.Prelude.{
  ℕ, zero, suc, ◌+◌, ◌*◌, ◌≤◌, ◌<◌, ◌≡◌, refl, sym, ap, ◌∙◌, subst, List, [], ◌∷◌, ◌++◌, Option,
  none, some, arith, Option-cases, inl, inr, ◌⊎◌, length, take, drop, take-drop, length-drop,
}
use mem_hawk.Prelude.Maps.{find?}
use mem_hawk.Flamegraph.{CompressedTrie, Node, append_loop, next_node, add_total, create_node}
use mem_hawk.Flamegraph.Splitting.{edges_at, address_at, IsTrie, IsKept}
use mem_hawk.Flamegraph.Matching.{HasRoom, split_path_lem, loop_end, loop_next}
use mem_hawk.Flamegraph.Appending.{
  IsEnd, EndsAt, old_child, new_child, add_total-IsTrie, value_sum-add_total, length-add_total,
  add_total_paths, add_total_other,
}
use mathlib.Core.List.{append_assoc, append-nil}

next_node_old :
    (r key value c : ℕ) (path : List ℕ) (t : CompressedTrie)
    → find? key (edges_at (add_total r value t) r) ≡ some c
    → next_node r key path value t ≡ (add_total r value t, c)
unfolding next_node
next_node_old r key value c path t h = rw (next_node, h) refl

next_node_new :
    (r key value : ℕ) (path : List ℕ) (t : CompressedTrie)
    → find? key (edges_at (add_total r value t) r) ≡ none
    → next_node r key path value t ≡ create_node r key path (add_total r value t)
unfolding next_node
next_node_new r key value path t h = rw (next_node, h) refl

List-cases : (xs : List ℕ) → (xs ≡ []) ⊎ ((y : ℕ) × (ys : List ℕ) × (xs ≡ y ∷ ys))
List-cases [] = inl refl
List-cases (x ∷ xs) = inr (x, xs, refl)

-- The rest of a round, and the rounds after it.
pub descend :
    (fuel value r key : ℕ) (more : List ℕ) (addresses : List (List ℕ)) (t : CompressedTrie)
    → IsTrie addresses t
    → r < length t.nodes
    → suc (length more) ≤ fuel
    → HasRoom (2 * suc (length more)) (suc (length more)) t
    → EndsAt fuel value
    → IsEnd addresses
        (add_total r value t)
        (address_at addresses r ++ (key ∷ more))
        (suc (length more))
        (append_loop fuel
          (next_node r key (key ∷ more) value t).1
          (key ∷ more)
          value
          (next_node r key (key ∷ more) value t).0)
descend fuel value r key more addresses t trie bound fed room ends =
    let path = key ∷ more in
    let t' = add_total r value t in
    let trie' = add_total-IsTrie r value addresses t trie bound in
    let nodes = length-add_total r value addresses t trie bound in
    let bound' : r < length t'.nodes = omega (arith, nodes) in
    let room' : HasRoom (2 * suc (length more)) (suc (length more)) t' = record {
      node_room = omega (arith, room.node_room, nodes);
      element_room =
          omega
            (arith, room.element_room, ap length (add_total_paths r value addresses t trie bound));
    } in
    let finish =
      λ (s : CompressedTrie × ℕ) (e : next_node r key path value t ≡ s)
          (p : IsEnd addresses t' (address_at addresses r ++ path) (suc (length more))
            (append_loop fuel s.1 path value s.0)).
        subst
          (λ (z : CompressedTrie × ℕ).
            IsEnd addresses t' (address_at addresses r ++ path) (suc (length more))
              (append_loop fuel z.1 path value z.0))
          (sym e) p in
    elim (Option-cases (find? key (edges_at t' r))) [
      | inl free ↦
          finish (create_node r key path t') (next_node_new r key value path t free)
            (new_child fuel value r key more addresses t' trie' bound' fed room' ends free)
      | inr found ↦
          finish (t', found.0) (next_node_old r key value found.0 path t found.1)
            (old_child fuel value r key more addresses t' trie' bound' fed room' ends found.0
              found.1)
    ]

-- What ends from a trie that keeps the sums ends from the trie before.
kept-IsEnd :
    (addresses addresses' : List (List ℕ)) (t t' : CompressedTrie) (path path' : List ℕ)
    (left left' : ℕ) (out out' : Option (CompressedTrie × ℕ))
    → IsKept addresses t addresses' t'
    → length t'.nodes + 2 * left' ≤ length t.nodes + 2 * left
    → length t'.paths + left' ≤ length t.paths + left
    → path' ≡ path
    → out ≡ out'
    → IsEnd addresses' t' path' left' out'
    → IsEnd addresses t path left out
kept-IsEnd addresses addresses' t t' path path' left left' out out' kept n e same run end = record {
  addresses' = end.addresses';
  t' = end.t';
  last = end.last;
  result = run ∙ end.result;
  trie = end.trie;
  kept = record {
    sums = λ q. end.kept.sums q ∙ kept.sums q;
    root_total = end.kept.root_total ∙ kept.root_total;
  };
  bound = end.bound;
  not_root = end.not_root;
  address = end.address ∙ same;
  nodes_le = omega (arith, end.nodes_le);
  paths_le = omega (arith, end.paths_le);
}

pub append_loop_lem : (fuel value : ℕ) → EndsAt fuel value
unfolding EndsAt
append_loop_lem zero value r x before xs ks addresses t fed trie bound ne room address head =
    absurd (omega (arith, fed))
append_loop_lem (suc fuel) value r x before xs ks addresses t fed trie bound ne room address head =
    let path = x ∷ xs in
    let one : HasRoom 1 0 t = record {
      node_room = omega (arith, room.node_room);
      element_room = omega (arith, room.element_room);
    } in
    let (a', t', m, M) = split_path_lem r x before xs ks addresses t trie bound one address head in
    let whole : (before ++ take m path) ++ drop m path ≡ before ++ path =
      append_assoc before (take m path) (drop m path) ∙ ap (λ z. before ++ z) (take-drop m path) in
    elim (List-cases (drop m path)) [
      | inl d ↦ record {
        addresses' = a';
        t' = t';
        last = r;
        result = loop_end fuel r x value xs t t' m M.result d;
        trie = M.trie;
        kept = M.kept;
        bound = M.bound;
        not_root = ne;
        address =
            M.address
            ∙ (sym (append-nil (before ++ take m path))
                ∙ (ap (λ z. (before ++ take m path) ++ z) (sym d) ∙ whole));
        nodes_le = omega (arith, M.nodes_le);
        paths_le = omega (arith, M.paths_le);
      }
      | inr rest ↦
          let key = rest.0 in
          let more = rest.1 in
          let d = rest.2 in
          let left : suc (length more) + m ≡ suc (length xs) =
            omega (arith, length-drop m path, ap length d, M.matched_le) in
          let room' : HasRoom (2 * suc (length more)) (suc (length more)) t' = record {
            node_room = omega (arith, M.nodes_le, M.progress, room.node_room, left);
            element_room = omega (arith, M.paths_le, room.element_room, left);
          } in
          let kept : IsKept addresses t a' (add_total r value t') = record {
            sums = λ q. value_sum-add_total r value a' t' M.trie M.bound q ∙ M.kept.sums q;
            root_total =
                ap (λ (z : Node). z.total)
                  (add_total_other r value a' t' M.trie M.bound 0 (λ z. ne (sym z)))
                ∙ M.kept.root_total;
          } in
          kept-IsEnd addresses a' t (add_total r value t') (before ++ path)
            (address_at a' r ++ (key ∷ more)) (suc (length xs)) (suc (length more))
            (append_loop (suc fuel) r path value t)
            (append_loop fuel (next_node r key (key ∷ more) value t').1 (key ∷ more) value
              (next_node r key (key ∷ more) value t').0)
            kept
            (omega
              (arith, length-add_total r value a' t' M.trie M.bound, M.nodes_le, M.progress, left))
            (omega
              (arith, ap length (add_total_paths r value a' t' M.trie M.bound), M.paths_le, left))
            (ap (λ z. z ++ (key ∷ more)) M.address
              ∙ (ap (λ z. (before ++ take m path) ++ z) (sym d) ∙ whole))
            (loop_next fuel r x value xs t t' m key more M.result d)
            (descend fuel value r key more a' t' M.trie M.bound
              (omega (arith, fed, left, M.progress)) room' (append_loop_lem fuel value))
    ]

-- ===== src/Flamegraph/ShapeSplit.antt =====
-- The split of a node of `CompressedTrie` in source/flamegraph/src/graph.h keeps the shape of the trie.
use mem_hawk.Prelude.{
  ℕ, suc, ◌<◌, ◌≡◌, ◌≢◌, sym, ap, ◌∙◌, List, [], ◌∷◌, ◌++◌, some, arith, length, take, drop,
  take-drop, length-append,
}
use mathlib.Core.List.{append_assoc, append_cancel_right}
use native.Mathlib.Decide.{ℕ_discrete}
use mem_hawk.Prelude.Maps.{find?}
use mem_hawk.Flamegraph.Shape.{IsEdge, IsTree, find?-single, single}

-- No node has an edge to itself.
irreflexive : (n : ℕ) (addr keys : ℕ → List ℕ) (i k c : ℕ) → IsEdge n addr keys i k c → c ≢ i
irreflexive n addr keys i k c e same = absurd (
    omega (
      arith,
      ap length e.address,
      length-append (addr i) (keys c),
      ap length e.starts,
      ap (λ j. length (addr j)) same,
    ))

-- Node `r` cut after its first `suc m` keys; the rest of them is node `n`.
pub record IsSplit (n r m key : ℕ) (before : List ℕ) (addr keys addr' keys' : ℕ → List ℕ)
    (edges edges' : ℕ → List (ℕ × ℕ)) : Type 0 where
  pub address : addr r ≡ before ++ keys r
  pub cut_address : addr' r ≡ before ++ take (suc m) (keys r)
  pub cut_keys : keys' r ≡ take (suc m) (keys r)
  pub cut_edges : edges' r ≡ (key, n) ∷ []
  pub new_address : addr' n ≡ addr r
  pub new_keys : keys' n ≡ drop (suc m) (keys r)
  pub new_edges : edges' n ≡ edges r
  pub rest : List ℕ
  pub starts : drop (suc m) (keys r) ≡ key ∷ rest
  pub same :
      (j : ℕ) → j < n → j ≢ r → (addr' j ≡ addr j) × (keys' j ≡ keys j) × (edges' j ≡ edges j)

module _ (n r m key : ℕ) (before : List ℕ) (addr keys addr' keys' : ℕ → List ℕ)
    (edges edges' : ℕ → List (ℕ × ℕ)) (tree : IsTree n addr keys edges) (bound : r < n)
    (split : IsSplit n r m key before addr keys addr' keys' edges edges') where
  pub not_root : r ≢ 0
  not_root e =
      let empty : keys r ≡ [] = ap keys e ∙ tree.root_keys in
      let gone : drop (suc m) (keys r) ≡ [] = ap (drop (suc m)) empty in
      let starts = split.starts in absurd (cc)

  -- The edge from the cut node to the new one.
  cut-IsEdge : (i k c : ℕ) → i ≡ r → find? k (edges' i) ≡ some c → IsEdge (suc n) addr' keys' i k c
  cut-IsEdge i k c at e =
      let (ek, ec) =
        find?-single k key n c
          (ap (find? k) (sym split.cut_edges) ∙ (ap (λ j. find? k (edges' j)) (sym at) ∙ e)) in
      record {
        child_bound = omega arith;
        address =
            ap addr' ec
            ∙ (split.new_address
                ∙ (split.address
                    ∙ (ap (λ z. before ++ z) (sym (take-drop (suc m) (keys r)))
                        ∙ (sym (append_assoc before (take (suc m) (keys r)) (drop (suc m) (keys r)))
                            ∙ (ap (λ z. z ++ drop (suc m) (keys r))
                                  (sym split.cut_address ∙ ap addr' (sym at))
                                ∙ ap (λ z. addr' i ++ z)
                                    (sym split.new_keys ∙ ap keys' (sym ec)))))));
        rest = split.rest;
        starts =
            ap keys' ec ∙ (split.new_keys ∙ (split.starts ∙ ap (λ z. z ∷ split.rest) (sym ek)));
      }

  -- The edge of a node that is not the cut one.
  old-IsEdge :
      (i k c : ℕ) → i ≢ r → i < n → IsEdge n addr keys i k c → IsEdge (suc n) addr' keys' i k c
  old-IsEdge i k c other h old =
      let (ai, ki, ei) = split.same i h other in
      elim (ℕ_discrete c r) [
        | yes at ↦
            let above : before ≡ addr i = append_cancel_right before (addr i) (keys r) (
              sym split.address
              ∙ (ap addr (sym at) ∙ (old.address ∙ ap (λ j. addr i ++ keys j) at))) in
            record {
              child_bound = omega (arith, old.child_bound);
              address =
                  ap addr' at
                  ∙ (split.cut_address
                      ∙ (ap (λ z. z ++ take (suc m) (keys r)) (above ∙ sym ai)
                          ∙ ap (λ z. addr' i ++ z) (sym split.cut_keys ∙ ap keys' (sym at))));
              rest = take m old.rest;
              starts =
                  ap keys' at
                  ∙ (split.cut_keys ∙ ap (take (suc m)) (ap keys (sym at) ∙ old.starts));
            }
        | no ne ↦
            let (ac, kc, ec) = split.same c old.child_bound ne in
            record {
              child_bound = omega (arith, old.child_bound);
              address =
                  ac
                  ∙ (old.address
                      ∙ (ap (λ z. z ++ keys c) (sym ai) ∙ ap (λ z. addr' i ++ z) (sym kc)));
              rest = old.rest;
              starts = kc ∙ old.starts;
            }
      ]

  split-IsEdge :
      (i k c : ℕ) → i < suc n → find? k (edges' i) ≡ some c → IsEdge (suc n) addr' keys' i k c
  split-IsEdge i k c h e = elim (ℕ_discrete i n) [
    | yes at ↦
        let old =
          tree.edge r k c bound
            (ap (find? k) (sym split.new_edges) ∙ (ap (λ j. find? k (edges' j)) (sym at) ∙ e)) in
        let (a, ks, es) = split.same c old.child_bound (irreflexive n addr keys r k c old) in
        record {
          child_bound = omega (arith, old.child_bound);
          address =
              a
              ∙ (old.address
                  ∙ (ap (λ z. z ++ keys c) (sym split.new_address ∙ ap addr' (sym at))
                      ∙ ap (λ z. addr' i ++ z) (sym ks)));
          rest = old.rest;
          starts = ks ∙ old.starts;
        }
    | no old_node ↦ elim (ℕ_discrete i r) [
      | yes at ↦ cut-IsEdge i k c at e
      | no other ↦
          let (ai, ki, ei) = split.same i (omega arith) other in
          let old = tree.edge i k c (omega arith) (ap (find? k) (sym ei) ∙ e) in
          old-IsEdge i k c other (omega arith) old
    ]
  ]

  split_parent :
      (c : ℕ) → c < suc n → c ≢ 0 → (i : ℕ) × (k : ℕ) × (i < suc n) × (find? k (edges' i) ≡ some c)
  split_parent c h z = elim (ℕ_discrete c n) [
    | yes e ↦
        (r, key, omega arith, ap (find? key) split.cut_edges ∙ (single key n ∙ ap some (sym e)))
    | no ne ↦
        let (i, k, b, f) = tree.parent c (omega arith) z in
        elim (ℕ_discrete i r) [
          | yes e ↦ (n, k, omega arith, ap (find? k) (split.new_edges ∙ ap edges (sym e)) ∙ f)
          | no other ↦ (i, k, omega arith, ap (find? k) ((split.same i b other).2) ∙ f)
        ]
  ]

  pub split-IsTree : IsTree (suc n) addr' keys' edges'
  split-IsTree =
      let (a, k, e) = split.same 0 tree.root_bound (λ z. not_root (sym z)) in
      record {
        root_bound = omega arith;
        root_address = a ∙ tree.root_address;
        root_keys = k ∙ tree.root_keys;
        edge = split-IsEdge;
        parent = split_parent;
      }

-- ===== src/Flamegraph/ShapeGrown.antt =====
-- A node that is added to `CompressedTrie` of source/flamegraph/src/graph.h keeps the shape of the trie.
use mem_hawk.Prelude.{
  ℕ, suc, ◌<◌, ◌≡◌, ◌≢◌, sym, ap, ◌∙◌, List, [], ◌∷◌, ◌++◌, none, some, arith, inl, inr,
  if◌then◌else◌, ◌==◌,
}
use native.Mathlib.Decide.{ℕ_discrete}
use mem_hawk.Prelude.Maps.{find?, insert, find?-insert}
use mem_hawk.Flamegraph.Shape.{IsEdge, IsTree, find?-empty, none-some, if_same, if-cases}

-- A node `n` added below node `r`, under a key that `r` has no edge for.
pub record IsGrown (n r key : ℕ) (addr keys addr' keys' : ℕ → List ℕ)
    (edges edges' : ℕ → List (ℕ × ℕ)) : Type 0 where
  pub free : find? key (edges r) ≡ none
  pub grown_edges : edges' r ≡ insert key n (edges r)
  pub new_address : addr' n ≡ addr r ++ keys' n
  pub new_edges : edges' n ≡ []
  pub rest : List ℕ
  pub starts : keys' n ≡ key ∷ rest
  pub same_address : (j : ℕ) → j < n → addr' j ≡ addr j
  pub same_keys : (j : ℕ) → j < n → keys' j ≡ keys j
  pub same_edges : (j : ℕ) → j < n → j ≢ r → edges' j ≡ edges j

module _ (n r key : ℕ) (addr keys addr' keys' : ℕ → List ℕ) (edges edges' : ℕ → List (ℕ × ℕ))
    (tree : IsTree n addr keys edges) (bound : r < n)
    (grown : IsGrown n r key addr keys addr' keys' edges edges') where
  kept-IsEdge : (i k c : ℕ) → i < n → IsEdge n addr keys i k c → IsEdge (suc n) addr' keys' i k c
  kept-IsEdge i k c h old = record {
    child_bound = omega (arith, old.child_bound);
    address =
        grown.same_address c old.child_bound
        ∙ (old.address
            ∙ (ap (λ z. z ++ keys c) (sym (grown.same_address i h))
                ∙ ap (λ z. addr' i ++ z) (sym (grown.same_keys c old.child_bound))));
    rest = old.rest;
    starts = grown.same_keys c old.child_bound ∙ old.starts;
  }

  -- The edges of the node that the new one hangs on.
  grown_find? : (k : ℕ) → find? k (edges' r) ≡ (if key == k then some n else find? k (edges r))
  grown_find? k = ap (find? k) grown.grown_edges ∙ find?-insert key k n (edges r) grown.free

  grown-IsEdge :
      (i k c : ℕ) → i < suc n → find? k (edges' i) ≡ some c → IsEdge (suc n) addr' keys' i k c
  grown-IsEdge i k c h e = elim (ℕ_discrete i n) [
    | yes at ↦ absurd (
        find?-empty k c
          (ap (find? k) (sym grown.new_edges) ∙ (ap (λ j. find? k (edges' j)) (sym at) ∙ e)))
    | no old_node ↦ elim (ℕ_discrete i r) [
      | yes at ↦
          elim (if-cases key k n c (find? k (edges r))
            (sym (grown_find? k) ∙ (ap (λ j. find? k (edges' j)) (sym at) ∙ e))) [
              | inl (ek, ec) ↦ record {
                child_bound = omega arith;
                address =
                    ap addr' ec
                    ∙ (grown.new_address
                        ∙ (ap (λ z. z ++ keys' n)
                              (sym (grown.same_address r bound) ∙ ap addr' (sym at))
                            ∙ ap (λ j. addr' i ++ keys' j) (sym ec)));
                rest = grown.rest;
                starts = ap keys' ec ∙ (grown.starts ∙ ap (λ z. z ∷ grown.rest) (sym ek));
              }
              | inr old ↦
                  kept-IsEdge i k c (omega arith)
                    (tree.edge i k c (omega arith) (ap (λ j. find? k (edges j)) at ∙ old))
            ]
      | no other ↦ kept-IsEdge i k c (omega arith) (
          tree.edge i k c (omega arith)
            (ap (find? k) (sym (grown.same_edges i (omega arith) other)) ∙ e))
    ]
  ]

  grown_parent :
      (c : ℕ) → c < suc n → c ≢ 0 → (i : ℕ) × (k : ℕ) × (i < suc n) × (find? k (edges' i) ≡ some c)
  grown_parent c h z = elim (ℕ_discrete c n) [
    | yes e ↦ (
      r,
      key,
      omega arith,
      grown_find? key ∙ (if_same key n (find? key (edges r)) ∙ ap some (sym e)),
    )
    | no ne ↦
        let (i, k, b, f) = tree.parent c (omega arith) z in
        elim (ℕ_discrete i r) [
          | yes e ↦ (
            r,
            k,
            omega arith,
            grown_find? k ∙ unused k c (ap (λ j. find? k (edges j)) (sym e) ∙ f),
          )
          | no other ↦ (i, k, omega arith, ap (find? k) (grown.same_edges i b other) ∙ f)
        ]
  ]
    where
      unused :
          (k c : ℕ)
          → find? k (edges r) ≡ some c
          → (if key == k then some n else find? k (edges r)) ≡ some c
      unused k c f = elim (ℕ_discrete key k) [
        | yes e ↦ absurd (none-some (sym grown.free ∙ (ap (λ j. find? j (edges r)) e ∙ f)))
        | no ne ↦ ground arith
      ]

  pub grown-IsTree : IsTree (suc n) addr' keys' edges'
  grown-IsTree = record {
    root_bound = omega arith;
    root_address = grown.same_address 0 tree.root_bound ∙ tree.root_address;
    root_keys = grown.same_keys 0 tree.root_bound ∙ tree.root_keys;
    edge = grown-IsEdge;
    parent = grown_parent;
  }

-- ===== src/Flamegraph/Shape.antt =====
-- The shape of the trie of source/flamegraph/src/graph.h: where a node stands.
--
-- A trie is given by the number of its nodes, the keys of each node's span, its edges and its
-- address, the keys on the way from the root to its end.
use mem_hawk.Prelude.{
  ℕ, ◌<◌, ◌≡◌, ◌≢◌, List, [], ◌∷◌, ◌++◌, Option, none, some, arith, ◌⊎◌, if◌then◌else◌, ◌==◌,
}
use mem_hawk.Prelude.Maps.{find?}

-- The edge `k` from node `i` to node `c` fits: the keys of `c` begin with `k`.
pub record IsEdge (n : ℕ) (addr keys : ℕ → List ℕ) (i k c : ℕ) : Type 0 where
  pub child_bound : c < n
  pub address : addr c ≡ addr i ++ keys c
  pub rest : List ℕ
  pub starts : keys c ≡ k ∷ rest

pub record IsTree (n : ℕ) (addr keys : ℕ → List ℕ) (edges : ℕ → List (ℕ × ℕ)) : Type 0 where
  pub root_bound : 0 < n
  pub root_address : addr 0 ≡ []
  pub root_keys : keys 0 ≡ []
  pub edge : (i k c : ℕ) → i < n → find? k (edges i) ≡ some c → IsEdge n addr keys i k c
  -- Every node but the root is reached by an edge.
  pub parent : (c : ℕ) → c < n → c ≢ 0 → (i : ℕ) × (k : ℕ) × (i < n) × (find? k (edges i) ≡ some c)

pub find?-single : (k j v c : ℕ) → find? k ((j, v) ∷ []) ≡ some c → (k ≡ j) × (c ≡ v)
unfolding find?
find?-single k j v c h = ground arith

pub find?-empty : (k c : ℕ) → find? k [] ≡ some c → ⊥
unfolding find?
find?-empty k c h = ground arith

pub none-some : {c : ℕ} → none ≡ some c → ⊥
none-some h = ground arith

pub if_same : (key n : ℕ) (o : Option ℕ) → (if key == key then some n else o) ≡ some n
if_same key n o = ground arith

pub if-cases :
    (key k n c : ℕ) (o : Option ℕ)
    → (if key == k then some n else o) ≡ some c
    → ((k ≡ key) × (c ≡ n)) ⊎ (o ≡ some c)
if-cases key k n c o h = ground arith

pub single : (k v : ℕ) → find? k ((k, v) ∷ []) ≡ some v
unfolding find?
single k v = ground arith

-- ===== src/StacktraceTracker/Invariant.antt =====
-- The nodes and the tree of `StacktraceTracker` fit together, and a round of `StacktraceTree::index`
-- keeps them so (source/memhawk/src/impl/stacktrace_tree.h).
use mem_hawk.Prelude.{
  ℕ, ◌+◌, ◌≤◌, ◌<◌, ◌≡◌, refl, arith, List, [], ◌∷◌, some, none, u32, length, get_elem?, ◌^◌,
  Option-cases, inl, inr,
}
use mem_hawk.Prelude.Maps.{find?, insert, find?-insert}
use mem_hawk.StacktraceTree.{Tree, get_ptr_id, find_edge}
use mem_hawk.StacktraceTracker.{TraceNode}

-- The node `n` stands for the frames, innermost first.
abbrev pub IsPath : List TraceNode → Tree → ℕ → List ℕ → Type 0
IsPath nodes t n [] = n ≡ 0
IsPath nodes t n (f ∷ fs) =
    (node : TraceNode) × (get_elem? nodes n ≡ some node)
    × (find? node.id t.rev_ptr_map ≡ some f)
    × (node.parent < n)
    × IsPath nodes t node.parent fs

pub record IsTree (nodes : List TraceNode) (t : Tree) : Type 0 where
  pub counted : t.nodes_counter ≡ length nodes
  pub rooted : 0 < length nodes
  pub edge_node :
      (p x n : ℕ)
      → find_edge p x t.edges ≡ some n
      → (p < n) × (get_elem? nodes n ≡ some (record { id = x; parent = p }))
  pub ptr_rev : (v x : ℕ) → find? v t.ptr_map ≡ some x → find? x t.rev_ptr_map ≡ some v
  pub rev_fresh : (x : ℕ) → length t.ptr_map ≤ x → find? x t.rev_ptr_map ≡ none

-- What is stored stays stored.
pub record Extends (nodes : List TraceNode) (t : Tree) (nodes' : List TraceNode) (t' : Tree)
    : Type 0 where
  pub nodes_kept :
      (i : ℕ) (node : TraceNode) → get_elem? nodes i ≡ some node → get_elem? nodes' i ≡ some node
  pub ptrs_kept : (x v : ℕ) → find? x t.rev_ptr_map ≡ some v → find? x t'.rev_ptr_map ≡ some v
  pub ids_kept : (v x : ℕ) → find? v t.ptr_map ≡ some x → find? v t'.ptr_map ≡ some x
  pub edges_kept : (p x n : ℕ) → find_edge p x t.edges ≡ some n → find_edge p x t'.edges ≡ some n

pub Extends-refl : (nodes : List TraceNode) (t : Tree) → Extends nodes t nodes t
Extends-refl nodes t = record {
  nodes_kept = λ i node h. h;
  ptrs_kept = λ x v h. h;
  ids_kept = λ v x h. h;
  edges_kept = λ p x n h. h;
}

pub Extends-trans :
    {n₁ n₂ n₃ : List TraceNode} {t₁ t₂ t₃ : Tree}
    → Extends n₁ t₁ n₂ t₂
    → Extends n₂ t₂ n₃ t₃
    → Extends n₁ t₁ n₃ t₃
Extends-trans a b = record {
  nodes_kept = λ i node h. b.nodes_kept i node (a.nodes_kept i node h);
  ptrs_kept = λ x v h. b.ptrs_kept x v (a.ptrs_kept x v h);
  ids_kept = λ v x h. b.ids_kept v x (a.ids_kept v x h);
  edges_kept = λ p x n h. b.edges_kept p x n (a.edges_kept p x n h);
}

pub IsPath-extend :
    {nodes nodes' : List TraceNode} {t t' : Tree} (n : ℕ) (fs : List ℕ)
    → Extends nodes t nodes' t'
    → IsPath nodes t n fs
    → IsPath nodes' t' n fs
IsPath-extend n [] e h = h
IsPath-extend n (f ∷ fs) e (node, there, ptr, below, rest) = (
  node,
  e.nodes_kept n node there,
  e.ptrs_kept node.id f ptr,
  below,
  IsPath-extend node.parent fs e rest,
)

-- `GetPtrId` gives an id that stands for the frame.
pub record IsNamed (nodes : List TraceNode) (t : Tree) (ptr : ℕ) (r : Tree × ℕ) : Type 0 where
  pub tree : IsTree nodes r.0
  pub extends : Extends nodes t nodes r.0
  pub named : find? ptr r.0.ptr_map ≡ some r.1
  pub same_edges : r.0.edges ≡ t.edges
  pub ptr_count : length r.0.ptr_map ≤ length t.ptr_map + 1

length-insert_new :
    (k v : ℕ) (m : List (ℕ × ℕ)) → find? k m ≡ none → length (insert k v m) ≡ length m + 1
unfolding insert
length-insert_new k v m h = ground arith

pub get_ptr_id-IsNamed :
    (nodes : List TraceNode) (t : Tree) (ptr : ℕ)
    → IsTree nodes t
    → length t.ptr_map + 1 < 2 ^ 32
    → IsNamed nodes t ptr (get_ptr_id ptr t)
unfolding get_ptr_id
get_ptr_id-IsNamed nodes t ptr v small = elim (Option-cases (find? ptr t.ptr_map)) [
  | inl new ↦
      let id = u32 (length t.ptr_map) in
      let same : id ≡ length t.ptr_map = omega arith in
      let fresh : find? id t.rev_ptr_map ≡ none =
        rw same (v.rev_fresh (length t.ptr_map) (omega arith)) in
      let count = length-insert_new ptr id t.ptr_map new in
      rw (new, get_ptr_id)
        (record {
          tree = record {
            counted = v.counted;
            rooted = v.rooted;
            edge_node = v.edge_node;
            ptr_rev = λ w x h. ground (
              arith,
              find?-insert ptr w id t.ptr_map new,
              find?-insert id x ptr t.rev_ptr_map fresh,
              v.ptr_rev w x,
              fresh,
            );
            rev_fresh = λ x h.
                ground (arith, count, find?-insert id x ptr t.rev_ptr_map fresh, v.rev_fresh x);
          };
          extends = record {
            nodes_kept = λ i node h. h;
            ptrs_kept = λ x w h. ground (arith, find?-insert id x ptr t.rev_ptr_map fresh, fresh);
            ids_kept = λ w x h. ground (arith, find?-insert ptr w id t.ptr_map new);
            edges_kept = λ p x n h. h;
          };
          named = ground (arith, find?-insert ptr ptr id t.ptr_map new);
          same_edges = refl;
          ptr_count = omega (arith, count);
        })
  | inr (id, old) ↦
      rw (old, get_ptr_id)
        (record {
          tree = v;
          extends = Extends-refl nodes t;
          named = old;
          same_edges = refl;
          ptr_count = omega arith;
        })
]

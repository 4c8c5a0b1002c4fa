-- ===== src/StacktraceTracker/Walks.antt =====
-- The loop of `StacktraceTree::index` under the callback of `InsertStacktrace`.
use mem_hawk.Prelude.{
  ℕ, ◌+◌, ◌≤◌, ◌<◌, ◌≡◌, refl, arith, List, [], ◌∷◌, ◌++◌, some, none, false, u32, length,
  get_elem?, ◌^◌, ◌==◌, ◌&&◌, if◌then◌else◌, Option-cases, inl, inr, Bool-cases, length-append,
  get_elem?-append_left, get_elem?-append_last, get_elem?-lt, ◌∙◌,
}
use mem_hawk.Prelude.Maps.{find?}
use mem_hawk.StacktraceTree.{Tree, Walk, get_ptr_id, find_edge, follow, visit, visit_all}
use mem_hawk.StacktraceTracker.{TraceNode, push_node}
use mem_hawk.StacktraceTracker.Invariant.{
  IsPath, IsTree, Extends, Extends-trans, IsPath-extend, IsNamed,
}

-- The edges of the tree lead from a node over the frames to another node; `index` skips frame 0.
pub data Leads (t : Tree) : ℕ → List ℕ → ℕ → Type 0 where
  done : (n : ℕ) → Leads t n [] n
  skip : {n m : ℕ} {ptr : ℕ} {ps : List ℕ} → ptr ≡ 0 → Leads t n ps m → Leads t n (ptr ∷ ps) m
  over :
      {n m : ℕ} {ptr : ℕ} {ps : List ℕ} (id child : ℕ)
      → (ptr == 0) ≡ false
      → find? ptr t.ptr_map ≡ some id
      → find_edge n id t.edges ≡ some child
      → Leads t child ps m
      → Leads t n (ptr ∷ ps) m

pub Leads-extend :
    {nodes nodes' : List TraceNode} {t t' : Tree} {n m : ℕ} {ps : List ℕ}
    → Extends nodes t nodes' t'
    → Leads t n ps m
    → Leads t' n ps m
Leads-extend e (done n) = done n
Leads-extend e (skip z r) = skip z (Leads-extend e r)
Leads-extend e (over {n = n} {ptr = ptr} id child nz named edge r) =
    over id child nz (e.ids_kept ptr id named) (e.edges_kept n id child edge) (Leads-extend e r)

visit_null :
    (t : Tree) (n ptr : ℕ) (nodes : List TraceNode)
    → ptr ≡ 0
    → visit push_node ptr (record { tree = t; out = nodes; node = n })
      ≡ record { tree = t; out = nodes; node = n }
unfolding visit
visit_null t n ptr nodes z = ground arith

visit_known :
    (t : Tree) (n ptr id child : ℕ) (nodes : List TraceNode)
    → (ptr == 0) ≡ false
    → find? ptr t.ptr_map ≡ some id
    → find_edge n id t.edges ≡ some child
    → visit push_node ptr (record { tree = t; out = nodes; node = n })
      ≡ record { tree = t; out = nodes; node = child }
unfolding visit follow get_ptr_id
visit_known t n ptr id child nodes nz named edge = ground arith

-- Frames that are already in the tree add nothing to it.
pub visit_all-Leads :
    {t : Tree} {n m : ℕ} {ps : List ℕ} (nodes : List TraceNode)
    → Leads t n ps m
    → visit_all push_node ps (record { tree = t; out = nodes; node = n })
      ≡ record { tree = t; out = nodes; node = m }
unfolding visit_all
visit_all-Leads nodes (done n) = refl
visit_all-Leads {t} nodes (skip {n = n} {ptr = ptr} z r) =
    rw (visit_null t n ptr nodes z) (visit_all-Leads nodes r)
visit_all-Leads {t} nodes (over {n = n} {ptr = ptr} id child nz named edge r) =
    rw (visit_known t n ptr id child nodes nz named edge) (visit_all-Leads nodes r)

-- What the frames before and after a round stand for.
abbrev pub push_frame : ℕ → List ℕ → List ℕ
push_frame ptr fs = if ptr == 0 then fs else ptr ∷ fs

pub record IsVisited (w : Walk (List TraceNode)) (ptr : ℕ) (fs : List ℕ)
    (w' : Walk (List TraceNode)) : Type 0 where
  pub tree : IsTree w'.out w'.tree
  pub extends : Extends w.out w.tree w'.out w'.tree
  pub path : IsPath w'.out w'.tree w'.node (push_frame ptr fs)
  pub in_nodes : w'.node < length w'.out
  pub leads :
      (nodes : List TraceNode) (t : Tree) (ps : List ℕ) (m : ℕ)
      → Extends w'.out w'.tree nodes t
      → Leads t w'.node ps m
      → Leads t w.node (ptr ∷ ps) m
  pub node_count : length w'.out ≤ length w.out + 1
  pub ptr_count : length w'.tree.ptr_map ≤ length w.tree.ptr_map + 1

-- A new node and the edge to it.
module _ (nodes : List TraceNode) (t : Tree) (node id : ℕ) (v : IsTree nodes t)
    (inside : node < length nodes) (small : length nodes + 1 < 2 ^ 32)
    (new : find_edge node id t.edges ≡ none) where
  abbrev fresh : TraceNode
  fresh = record { id = id; parent = node }

  abbrev grown : Tree
  grown = record t {
    nodes_counter = u32 (t.nodes_counter + 1);
    edges = record { parent = node; ptr = id; child = t.nodes_counter } ∷ t.edges;
  }

  length-grown : length (nodes ++ (fresh ∷ [])) ≡ length nodes + 1
  length-grown = omega (arith, length-append nodes (fresh ∷ []))

  fresh_there : get_elem? (nodes ++ (fresh ∷ [])) t.nodes_counter ≡ some fresh
  fresh_there = rw v.counted (get_elem?-append_last nodes fresh)

  old_there :
      (i : ℕ) (nd : TraceNode)
      → get_elem? nodes i ≡ some nd
      → get_elem? (nodes ++ (fresh ∷ [])) i ≡ some nd
  old_there i nd h = get_elem?-append_left nodes (fresh ∷ []) i (get_elem?-lt nodes i nd h) ∙ h

  grown-Extends : Extends nodes t (nodes ++ (fresh ∷ [])) grown
  unfolding find_edge
  grown-Extends = record {
    nodes_kept = old_there;
    ptrs_kept = λ x w h. h;
    ids_kept = λ w x h. h;
    edges_kept = λ p x n h. ground arith;
  }

  grown-IsTree : IsTree (nodes ++ (fresh ∷ [])) grown
  unfolding find_edge
  grown-IsTree = record {
    counted = omega (arith, v.counted, length-grown);
    rooted = omega (arith, length-grown);
    edge_node = λ p x n h. elim (Bool-cases (node == p && id == x)) [
      | inl here ↦
          let at : n ≡ t.nodes_counter = ground arith in
          (ground (arith, v.counted), ground (arith, fresh_there))
      | inr there ↦ let old = v.edge_node p x n (ground arith) in (old.0, old_there n _ old.1)
    ];
    ptr_rev = v.ptr_rev;
    rev_fresh = v.rev_fresh;
  }

pub follow-IsVisited :
    (w : Walk (List TraceNode)) (ptr id : ℕ) (t : Tree) (fs : List ℕ)
    → (ptr == 0) ≡ false
    → IsNamed w.out w.tree ptr (t, id)
    → IsPath w.out w.tree w.node fs
    → w.node < length w.out
    → length w.out + 1 < 2 ^ 32
    → IsVisited w ptr fs (follow push_node ptr id t w)
unfolding follow find_edge
follow-IsVisited w ptr id t fs nz named path inside small =
    elim (Option-cases (find_edge w.node id t.edges)) [
      | inl new ↦
          let e =
            Extends-trans named.extends
              (grown-Extends w.out t w.node id named.tree inside small new) in
          let l = length-grown w.out t w.node id named.tree inside small new in
          rw (new, follow)
            (record {
              tree = grown-IsTree w.out t w.node id named.tree inside small new;
              extends = e;
              path = rw nz (
                record { id = id; parent = w.node },
                fresh_there w.out t w.node id named.tree inside small new,
                named.tree.ptr_rev ptr id named.named,
                omega (arith, named.tree.counted),
                IsPath-extend w.node fs e path,
              );
              in_nodes = omega (arith, l, named.tree.counted);
              leads = λ ns u ps m x r.
                  over id t.nodes_counter nz (x.ids_kept ptr id named.named)
                    (x.edges_kept w.node id t.nodes_counter (ground arith)) r;
              node_count = omega (arith, l);
              ptr_count = named.ptr_count;
            })
      | inr (child, old) ↦
          let (below, there) = named.tree.edge_node w.node id child old in
          rw (old, follow)
            (record {
              tree = named.tree;
              extends = named.extends;
              path = rw nz (
                record { id = id; parent = w.node },
                there,
                named.tree.ptr_rev ptr id named.named,
                below,
                IsPath-extend w.node fs named.extends path,
              );
              in_nodes = get_elem?-lt w.out child _ there;
              leads = λ ns u ps m x r.
                  over id child nz (x.ids_kept ptr id named.named)
                    (x.edges_kept w.node id child old) r;
              node_count = omega arith;
              ptr_count = named.ptr_count;
            })
    ]

-- ===== src/StacktraceTracker/Insertion.antt =====
-- What `InsertStacktrace` leaves in the storage
-- (source/memhawk/src/impl/trackers/stacktrace_tracker.cpp).
use mem_hawk.Prelude.{
  ℕ, zero, suc, ◌+◌, ◌≤◌, ◌<◌, ◌≡◌, refl, sym, arith, List, [], ◌∷◌, some, true, length, ◌^◌,
  if◌then◌else◌, inl, inr, reverse, ap, get_elem?, length-append, ◌⊎◌, get_elem?-lt, subst,
}
use mathlib.Core.List.{reverse-cons}
use mathlib.Core.Path.{ap₂}
use mem_hawk.StacktraceTree.{Tree, Walk, index, get_ptr_value}
use mem_hawk.StacktraceTracker.{TraceNode, push_node, Storage, contains, insert_stacktrace, walk}
use mem_hawk.StacktraceTracker.Invariant.{IsPath, IsTree, Extends, IsPath-extend}
use mem_hawk.StacktraceTracker.Walks.{Leads}
use mem_hawk.StacktraceTracker.Loop.{visit_all-IsIndexed, IsIndexed, push_frames-reverse, non_null}

-- Every id that was handed out stands for a trace of at most 64 frames.
pub record IsValid (s : Storage) : Type 0 where
  pub tree : IsTree s.nodes s.tree
  pub leafs :
      (i : ℕ)
      → contains i s.leafs_id ≡ true
      → (fs : List ℕ) × IsPath s.nodes s.tree i fs × (length fs ≤ 64) × (i < length s.nodes)

-- `uint32_t` ids are left for every frame of the trace.
abbrev pub HasIdsFor : List ℕ → Storage → Type 0
HasIdsFor frames s =
    (length s.nodes + length frames < 2 ^ 32) × (length s.tree.ptr_map + length frames < 2 ^ 32)

pub length-reverse : (l : List ℕ) → length (reverse l) ≡ length l
length-reverse [] = refl
length-reverse (x ∷ xs) = omega (
  arith,
  ap (λ (l : List ℕ). length l) (reverse-cons x xs),
  length-append (reverse xs) (x ∷ []),
  length-reverse xs,
)

pub length-non_null-le : (frames : List ℕ) → length (non_null frames) ≤ length frames
length-non_null-le [] = omega arith
length-non_null-le (p ∷ ps) = ground (arith, length-non_null-le ps)

-- A walk up from the node of a path collects the path.
pub walk-IsPath :
    (fuel n it : ℕ) (fs : List ℕ) (nodes : List TraceNode) (t : Tree)
    → IsPath nodes t n fs
    → n < fuel
    → it + length fs ≤ 64
    → walk fuel n it nodes t ≡ some fs
unfolding walk get_ptr_value
walk-IsPath zero n it fs nodes t path h k = elim h [ ]
walk-IsPath (suc fuel) n it [] nodes t path h k = ground arith
walk-IsPath (suc fuel) n it (f ∷ fs) nodes t (node, there, ptr, below, rest) h k = ground (
  arith,
  there,
  ptr,
  walk-IsPath fuel node.parent (it + 1) fs nodes t rest (omega arith) (omega arith),
)

pub IsPath-unique :
    (nodes : List TraceNode) (t : Tree) (n : ℕ) (fs gs : List ℕ)
    → IsPath nodes t n fs
    → IsPath nodes t n gs
    → fs ≡ gs
IsPath-unique nodes t n [] [] p q = refl
IsPath-unique nodes t n [] (g ∷ gs) p q = absurd (omega arith)
IsPath-unique nodes t n (f ∷ fs) [] p q = absurd (omega arith)
IsPath-unique nodes t n (f ∷ fs) (g ∷ gs) (node, there, ptr, below, rest)
      (node', there', ptr', below', rest') =
    let same : node ≡ node' = cc in
    let same_ptr : f ≡ g = cc in
    ap₂ ◌∷◌ same_ptr (
      IsPath-unique nodes t node.parent fs gs rest
        (subst (λ (nd : TraceNode). IsPath nodes t nd.parent gs) (sym same) rest'))

get_elem?-of_lt :
    (nodes : List TraceNode) (i : ℕ)
    → i < length nodes
    → (nd : TraceNode) × (get_elem? nodes i ≡ some nd)
get_elem?-of_lt [] i h = elim h [ ]
get_elem?-of_lt (nd ∷ nodes) zero h = (nd, refl)
get_elem?-of_lt (nd ∷ nodes) (suc i) h = get_elem?-of_lt nodes i (omega arith)

get_elem?-bound_kept :
    (nodes nodes' : List TraceNode)
    → ((i : ℕ) (nd : TraceNode) → get_elem? nodes i ≡ some nd → get_elem? nodes' i ≡ some nd)
    → (i : ℕ) → i < length nodes
    → i < length nodes'
get_elem?-bound_kept nodes nodes' kept i h =
    let (nd, there) = get_elem?-of_lt nodes i h in get_elem?-lt nodes' i nd (kept i nd there)

-- What `InsertStacktrace` leaves.
pub record IsInserted (frames : List ℕ) (s : Storage) (r : Storage × ℕ) : Type 0 where
  pub valid : IsValid r.0
  pub extends : Extends s.nodes s.tree r.0.nodes r.0.tree
  pub path : IsPath r.0.nodes r.0.tree r.1 (non_null frames)
  pub leads : Leads r.0.tree 0 (reverse frames) r.1
  pub is_leaf : contains r.1 r.0.leafs_id ≡ true
  pub in_nodes : r.1 < length r.0.nodes
  pub other_leafs : (i : ℕ) → contains i s.leafs_id ≡ true → contains i r.0.leafs_id ≡ true

abbrev add_leaf : ℕ → List ℕ → List ℕ
add_leaf n leafs = if contains n leafs then leafs else n ∷ leafs

contains-add_leaf_self : (n : ℕ) (leafs : List ℕ) → contains n (add_leaf n leafs) ≡ true
unfolding contains
contains-add_leaf_self n leafs = ground arith

contains-add_leaf_old :
    (n i : ℕ) (leafs : List ℕ) → contains i leafs ≡ true → contains i (add_leaf n leafs) ≡ true
unfolding contains
contains-add_leaf_old n i leafs h = ground arith

contains-add_leaf_cases :
    (n i : ℕ) (leafs : List ℕ)
    → contains i (add_leaf n leafs) ≡ true
    → (n ≡ i) ⊎ (contains i leafs ≡ true)
unfolding contains
contains-add_leaf_cases n i leafs h = ground arith

pub insert_stacktrace-IsInserted :
    (frames : List ℕ) (s : Storage)
    → IsValid s
    → length frames ≤ 64
    → HasIdsFor frames s
    → IsInserted frames s (insert_stacktrace frames s)
unfolding insert_stacktrace index
insert_stacktrace-IsInserted frames s v short room = record {
  valid = record {
    tree = x.tree;
    leafs = λ i h. elim (contains-add_leaf_cases w.node i s.leafs_id h) [
      | inl here ↦ (
        non_null frames,
        subst (λ n. IsPath w.out w.tree n (non_null frames)) here path,
        omega (arith, length-non_null-le frames),
        ground (arith, x.in_nodes),
      )
      | inr old ↦
          let (fs, p, l, b) = v.leafs i old in
          (
            fs,
            IsPath-extend i fs x.extends p,
            l,
            get_elem?-bound_kept s.nodes w.out x.extends.nodes_kept i b,
          )
    ];
  };
  extends = x.extends;
  path = path;
  leads = x.leads;
  is_leaf = contains-add_leaf_self w.node s.leafs_id;
  in_nodes = x.in_nodes;
  other_leafs = λ i h. contains-add_leaf_old w.node i s.leafs_id h;
}
  where
    w : Walk (List TraceNode)
    w = index push_node frames s.tree s.nodes

    x : IsIndexed (record { tree = s.tree; out = s.nodes; node = 0 }) (reverse frames) [] w
    x =
        visit_all-IsIndexed (reverse frames) _ [] v.tree refl v.tree.rooted
          (omega (arith, length-reverse frames))

    path : IsPath w.out w.tree w.node (non_null frames)
    path = subst (IsPath w.out w.tree w.node) (push_frames-reverse frames) x.path

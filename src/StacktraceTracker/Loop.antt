-- ===== src/StacktraceTracker/Loop.antt =====
-- The whole loop of `StacktraceTree::index` under the callback of `InsertStacktrace`.
use mem_hawk.Prelude.{
  ℕ, ◌+◌, ◌<◌, ◌≡◌, refl, arith, List, [], ◌∷◌, ◌++◌, length, ◌^◌, ◌==◌, Bool-cases, inl, inr,
  reverse, ◌∙◌, ap,
}
use mathlib.Core.List.{reverse-cons}
use mem_hawk.StacktraceTree.{Walk, visit, visit_all, get_ptr_id}
use mem_hawk.StacktraceTracker.{TraceNode, push_node}
use mem_hawk.StacktraceTracker.Invariant.{
  IsPath, IsTree, Extends, Extends-refl, Extends-trans, get_ptr_id-IsNamed,
}
use mem_hawk.StacktraceTracker.Walks.{Leads, done, skip, IsVisited, follow-IsVisited, push_frame}

-- Both ids still fit `uint32_t` after `k` more frames.
abbrev pub HasRoom : ℕ → Walk (List TraceNode) → Type 0
HasRoom k w = (length w.out + k < 2 ^ 32) × (length w.tree.ptr_map + k < 2 ^ 32)

visit-IsVisited :
    (w : Walk (List TraceNode)) (ptr : ℕ) (fs : List ℕ)
    → IsTree w.out w.tree
    → IsPath w.out w.tree w.node fs
    → w.node < length w.out
    → HasRoom 1 w
    → IsVisited w ptr fs (visit push_node ptr w)
unfolding visit
visit-IsVisited w ptr fs v path inside room = elim (Bool-cases (ptr == 0)) [
  | inl null ↦ rw null (record {
    tree = v;
    extends = Extends-refl w.out w.tree;
    path = rw null path;
    in_nodes = inside;
    leads = λ ns u ps m x r. skip (ground arith) r;
    node_count = omega arith;
    ptr_count = omega arith;
  })
  | inr nz ↦ rw nz (
      follow-IsVisited w ptr (get_ptr_id ptr w.tree).1 (get_ptr_id ptr w.tree).0 fs nz
        (get_ptr_id-IsNamed w.out w.tree ptr v room.1) path inside room.0)
]

-- The frames of the path after the loop has taken `ps`.
abbrev pub push_frames : List ℕ → List ℕ → List ℕ
push_frames [] fs = fs
push_frames (ptr ∷ ps) fs = push_frames ps (push_frame ptr fs)

pub record IsIndexed (w : Walk (List TraceNode)) (ps fs : List ℕ) (w' : Walk (List TraceNode))
    : Type 0 where
  pub tree : IsTree w'.out w'.tree
  pub extends : Extends w.out w.tree w'.out w'.tree
  pub path : IsPath w'.out w'.tree w'.node (push_frames ps fs)
  pub in_nodes : w'.node < length w'.out
  pub leads : Leads w'.tree w.node ps w'.node

pub visit_all-IsIndexed :
    (ps : List ℕ) (w : Walk (List TraceNode)) (fs : List ℕ)
    → IsTree w.out w.tree
    → IsPath w.out w.tree w.node fs
    → w.node < length w.out
    → HasRoom (length ps) w
    → IsIndexed w ps fs (visit_all push_node ps w)
unfolding visit_all
visit_all-IsIndexed [] w fs v path inside room = record {
  tree = v;
  extends = Extends-refl w.out w.tree;
  path = path;
  in_nodes = inside;
  leads = done w.node;
}
visit_all-IsIndexed (ptr ∷ ps) w fs v path inside room =
    let r = visit-IsVisited w ptr fs v path inside (omega arith) in
    let rest =
      visit_all-IsIndexed ps (visit push_node ptr w) (push_frame ptr fs) r.tree r.path r.in_nodes
        (omega (arith, r.node_count, r.ptr_count)) in
    record {
      tree = rest.tree;
      extends = Extends-trans r.extends rest.extends;
      path = rest.path;
      in_nodes = rest.in_nodes;
      leads = r.leads _ _ ps _ rest.extends rest.leads;
    }

push_frames-append :
    (ps qs fs : List ℕ) → push_frames (ps ++ qs) fs ≡ push_frames qs (push_frames ps fs)
push_frames-append [] qs fs = refl
push_frames-append (p ∷ ps) qs fs = push_frames-append ps qs (push_frame p fs)

-- The frames that are not null: what the tracker keeps of a trace.
abbrev pub non_null : List ℕ → List ℕ
non_null [] = []
non_null (p ∷ ps) = push_frame p (non_null ps)

pub push_frames-reverse : (frames : List ℕ) → push_frames (reverse frames) [] ≡ non_null frames
push_frames-reverse [] = refl
push_frames-reverse (p ∷ ps) =
    ap (λ (l : List ℕ). push_frames l []) (reverse-cons p ps)
    ∙ (push_frames-append (reverse ps) (p ∷ []) [] ∙ ap (push_frame p) (push_frames-reverse ps))

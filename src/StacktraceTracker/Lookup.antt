-- ===== src/StacktraceTracker/Lookup.antt =====
-- `GetStacktraceFromId` against `InsertStacktrace`
-- (source/memhawk/src/impl/trackers/stacktrace_tracker.cpp).
use mem_hawk.Prelude.{
  ℕ, suc, ◌≤◌, ◌<◌, ◌≡◌, ◌⊎◌, refl, arith, List, true, length, Bool-cases, inl, inr, reverse,
  take-ge, subst,
}
use mem_hawk.Prelude.Maps.{find?, insert}
use mem_hawk.StacktraceTree.{index, find_edge, get_ptr_id}
use mem_hawk.StacktraceTracker.{
  Storage, contains, insert_stacktrace, get_stacktrace, missing, found, get_stacktrace_from_id,
  postponed_construct,
}
use mem_hawk.StacktraceTracker.Invariant.{IsPath, IsPath-extend}
use mem_hawk.StacktraceTracker.Walks.{Leads, Leads-extend, visit_all-Leads}
use mem_hawk.StacktraceTracker.Loop.{non_null}
use mem_hawk.StacktraceTracker.Insertion.{
  IsValid, HasIdsFor, insert_stacktrace-IsInserted, walk-IsPath, IsPath-unique, length-non_null-le,
}

-- A leaf's path is what the id stands for.
get_stacktrace_from_id-IsPath :
    (i : ℕ) (fs : List ℕ) (s : Storage)
    → contains i s.leafs_id ≡ true
    → IsPath s.nodes s.tree i fs
    → length fs ≤ 64
    → i < length s.nodes
    → get_stacktrace_from_id i s ≡ found fs
unfolding get_stacktrace_from_id get_stacktrace
get_stacktrace_from_id-IsPath i fs s leaf path short inside = ground (
  arith,
  walk-IsPath (suc i) i 0 fs s.nodes s.tree path (omega arith) (omega arith),
  take-ge fs 64 short,
)

-- `PostponedConstruct` builds a valid storage.
pub postponed_construct-IsValid : IsValid postponed_construct
unfolding postponed_construct get_ptr_id find? insert find_edge contains
postponed_construct-IsValid = record {
  tree = record {
    counted = refl;
    rooted = omega arith;
    edge_node = λ p x n h. absurd (cc);
    ptr_rev = λ v x h. ground arith;
    rev_fresh = λ x h. ground arith;
  };
  leafs = λ i h. absurd (cc);
}

-- `InsertStacktrace` of a trace of at most 64 frames keeps the storage valid, as long as `uint32_t`
-- ids are left.
pub insert_stacktrace-IsValid :
    (frames : List ℕ) (s : Storage)
    → IsValid s
    → length frames ≤ 64
    → HasIdsFor frames s
    → IsValid (insert_stacktrace frames s).0
insert_stacktrace-IsValid frames s v short room =
    (insert_stacktrace-IsInserted frames s v short room).valid

-- On a valid storage the id that `InsertStacktrace` returns for a trace of at most 64 frames stands for the trace's
-- non-null frames in their order, as long as `uint32_t` ids are left.
pub get_stacktrace_from_id-insert_stacktrace :
    (frames : List ℕ) (s : Storage)
    → IsValid s
    → length frames ≤ 64
    → HasIdsFor frames s
    → get_stacktrace_from_id (insert_stacktrace frames s).1 (insert_stacktrace frames s).0
      ≡ found (non_null frames)
get_stacktrace_from_id-insert_stacktrace frames s v short room =
    let r = insert_stacktrace-IsInserted frames s v short room in
    get_stacktrace_from_id-IsPath _ (non_null frames) _ r.is_leaf r.path
      (omega (arith, length-non_null-le frames)) r.in_nodes

-- On a valid storage `GetStacktraceFromId` never faults: an id gives a trace or `nullopt`.
pub get_stacktrace_from_id_total :
    (i : ℕ) (s : Storage)
    → IsValid s
    → (get_stacktrace_from_id i s ≡ missing)
      ⊎ ((fs : List ℕ) × (get_stacktrace_from_id i s ≡ found fs) × (length fs ≤ 64))
unfolding get_stacktrace_from_id
get_stacktrace_from_id_total i s v = elim (Bool-cases (contains i s.leafs_id)) [
  | inl leaf ↦
      let (fs, path, short, inside) = v.leafs i leaf in
      inr (fs, get_stacktrace_from_id-IsPath i fs s leaf path short inside, short)
  | inr other ↦ inl (ground arith)
]

-- On a valid storage an id keeps its trace when another trace of at most 64 frames is inserted, as
-- long as `uint32_t` ids are left.
pub get_stacktrace_from_id_stable :
    (i : ℕ) (fs frames : List ℕ) (s : Storage)
    → IsValid s
    → length frames ≤ 64
    → HasIdsFor frames s
    → get_stacktrace_from_id i s ≡ found fs
    → get_stacktrace_from_id i (insert_stacktrace frames s).0 ≡ found fs
get_stacktrace_from_id_stable i fs frames s v short room h =
    elim (Bool-cases (contains i s.leafs_id)) [
      | inl leaf ↦
          let r = insert_stacktrace-IsInserted frames s v short room in
          let (gs, path, gs_short, inside) = v.leafs i leaf in
          let before = get_stacktrace_from_id-IsPath i gs s leaf path gs_short inside in
          let still = r.other_leafs i leaf in
          let (ks, path', ks_short, inside') = r.valid.leafs i still in
          let after =
            get_stacktrace_from_id-IsPath i gs (insert_stacktrace frames s).0 still
              (IsPath-extend i gs r.extends path) gs_short inside' in
          cc
      | inr other ↦ absurd (unfold get_stacktrace_from_id in ground arith)
    ]

-- On a valid storage two traces of at most 64 frames, inserted one after the other while `uint32_t` ids
-- are left, get one id only if their non-null frames are the same.
pub insert_stacktrace_injective :
    (fs gs : List ℕ) (s : Storage)
    → IsValid s
    → length fs ≤ 64
    → length gs ≤ 64
    → HasIdsFor fs s
    → HasIdsFor gs (insert_stacktrace fs s).0
    → (insert_stacktrace gs (insert_stacktrace fs s).0).1 ≡ (insert_stacktrace fs s).1
    → non_null fs ≡ non_null gs
insert_stacktrace_injective fs gs s v fs_short gs_short room room' same =
    let a = insert_stacktrace-IsInserted fs s v fs_short room in
    let b = insert_stacktrace-IsInserted gs (insert_stacktrace fs s).0 a.valid gs_short room' in
    let last = (insert_stacktrace gs (insert_stacktrace fs s).0).0 in
    IsPath-unique last.nodes last.tree (insert_stacktrace fs s).1 (non_null fs) (non_null gs)
      (IsPath-extend _ (non_null fs) b.extends a.path)
      (subst (λ n. IsPath last.nodes last.tree n (non_null gs)) same b.path)

insert_stacktrace_known :
    (frames : List ℕ) (n : ℕ) (s : Storage)
    → Leads s.tree 0 (reverse frames) n
    → contains n s.leafs_id ≡ true
    → insert_stacktrace frames s ≡ (s, n)
unfolding insert_stacktrace index
insert_stacktrace_known frames n s leads leaf = rw (visit_all-Leads s.nodes leads, leaf) refl

-- On a valid storage, for traces of at most 64 frames and while `uint32_t` ids are left, a trace that
-- was inserted before another one gets its old id when it is inserted again, and the storage stays
-- as it is.
pub insert_stacktrace_again :
    (fs gs : List ℕ) (s : Storage)
    → IsValid s
    → length fs ≤ 64
    → length gs ≤ 64
    → HasIdsFor fs s
    → HasIdsFor gs (insert_stacktrace fs s).0
    → insert_stacktrace fs (insert_stacktrace gs (insert_stacktrace fs s).0).0
      ≡ ((insert_stacktrace gs (insert_stacktrace fs s).0).0, (insert_stacktrace fs s).1)
insert_stacktrace_again fs gs s v fs_short gs_short room room' =
    let a = insert_stacktrace-IsInserted fs s v fs_short room in
    let b = insert_stacktrace-IsInserted gs (insert_stacktrace fs s).0 a.valid gs_short room' in
    insert_stacktrace_known fs (insert_stacktrace fs s).1 _ (Leads-extend b.extends a.leads)
      (b.other_leafs _ a.is_leaf)

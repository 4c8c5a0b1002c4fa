-- ===== src/StacktraceTracker.antt =====
-- `StacktraceTracker` of source/memhawk/src/impl/trackers/stacktrace_tracker.{h,cpp}.
--
-- Each public method holds the tracker's lock for its whole body, so a method is one step.
-- The destructor's dump and `Describe` only print.
pub mod Invariant
pub mod Walks
pub mod Loop
pub mod Insertion
pub mod Lookup
mod Tests
use mem_hawk.Prelude.{
  ℕ, zero, suc, ◌+◌, List, [], ◌∷◌, ◌++◌, Option, none, some, Bool, true, false, ◌||◌, ◌==◌, ltb,
  leb, if◌then◌else◌, length, get_elem?, take,
}
use mem_hawk.StacktraceTree.{Tree, Walk, empty, get_ptr_id, get_ptr_value, index}

abbrev pub max_unwind_depth : ℕ
max_unwind_depth = 64

pub record TraceNode : Type 0 where
  pub id : ℕ
  pub parent : ℕ

pub record Storage : Type 0 where
  pub nodes : List TraceNode
  pub tree : Tree
  pub leafs_id : List ℕ

unfoldable pub contains : ℕ → List ℕ → Bool
contains x [] = false
contains x (y ∷ ys) = y == x || contains x ys

unfoldable pub postponed_construct : Storage
unfolding get_ptr_id
postponed_construct =
    let (t, id) = get_ptr_id 0 empty in
    record { nodes = record { id = id; parent = 0 } ∷ []; tree = t; leafs_id = [] }

-- The callback of `InsertStacktrace`.
abbrev pub push_node : ℕ → ℕ → ℕ → List TraceNode → List TraceNode
push_node ptr_value ptr_id parent nodes = nodes ++ (record { id = ptr_id; parent = parent } ∷ [])

-- The storage after the call, and the id that it returns.
unfoldable pub insert_stacktrace : List ℕ → Storage → Storage × ℕ
insert_stacktrace frames s =
    let w = index push_node frames s.tree s.nodes in
    (
      record {
        nodes = w.out;
        tree = w.tree;
        leafs_id = if contains w.node s.leafs_id then s.leafs_id else w.node ∷ s.leafs_id;
      },
      w.node,
    )

-- The loop of `GetStacktrace`, from `trace_it` frames on. `none` stands for what the source does not
-- define: a node or a pointer that is not there, a 65th frame, or a walk longer than the fuel.
unfoldable pub walk : ℕ → ℕ → ℕ → List TraceNode → Tree → Option (List ℕ)
walk zero node_id trace_it nodes t = none
walk (suc fuel) node_id trace_it nodes t =
    if node_id == 0 then some [] else elim (get_elem? nodes node_id) [
      | none ↦ none
      | some node ↦ elim (get_ptr_value node.id t) [
        | none ↦ none
        | some ptr ↦
            let rest = walk fuel node.parent (trace_it + 1) nodes t in
            if leb max_unwind_depth trace_it
            then none
            else elim rest [ none ↦ none | some trace ↦ some (ptr ∷ trace) ]
      ]
    ]

-- `Stacktrace{trace.data(), traceIt}` keeps at most 64 frames.
unfoldable pub get_stacktrace : ℕ → Storage → Option (List ℕ)
get_stacktrace trace_id s = elim (walk (suc trace_id) trace_id 0 s.nodes s.tree) [
  | none ↦ none
  | some trace ↦ some (take max_unwind_depth trace)
]

-- What `GetStacktraceFromId` returns: `nullopt`, a trace, or a fault of `GetStacktrace`.
pub data Found : Type 0 where
  missing fault : Found
  found : List ℕ → Found

unfoldable pub get_stacktrace_from_id : ℕ → Storage → Found
get_stacktrace_from_id trace_id s =
    if leb (length s.nodes) trace_id
    then missing
    else if contains trace_id s.leafs_id
    then elim (get_stacktrace trace_id s) [ none ↦ fault | some trace ↦ found trace ]
    else missing

unfoldable pub stacktraces_count : Storage → ℕ
stacktraces_count s = length s.leafs_id

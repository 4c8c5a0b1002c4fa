-- ===== src/StacktraceTracker/Tests.antt =====
-- Runs of the stacktrace tracker, and its theorems at concrete traces.
use mem_hawk.Prelude.{ℕ, List, [], ◌∷◌, ◌≡◌, ◌⊎◌, ◌≤◌, refl, arith, length}
use mem_hawk.Prelude.Maps.{find?, insert}
use mem_hawk.StacktraceTree.{find_edge, get_ptr_id, follow, visit, visit_all, index, get_ptr_value}
use mem_hawk.StacktraceTracker.{
  Storage, insert_stacktrace, contains, missing, found, get_stacktrace_from_id, get_stacktrace,
  walk, postponed_construct,
}
use mem_hawk.StacktraceTracker.Loop.{non_null}
use mem_hawk.StacktraceTracker.Insertion.{IsValid}
use mem_hawk.StacktraceTracker.Lookup

abbrev inner : List ℕ
inner = 0x30 ∷ 0x20 ∷ 0x10 ∷ []

abbrev sibling : List ℕ
sibling = 0x31 ∷ 0 ∷ 0x20 ∷ 0x10 ∷ []

-- The siblings share two nodes, and the null frame is skipped.
shared_prefix :
    length (insert_stacktrace sibling (insert_stacktrace inner postponed_construct).0).0.nodes ≡ 5
unfolding insert_stacktrace index visit_all visit follow get_ptr_id find? insert find_edge contains
    postponed_construct
shared_prefix = refl

interior_node_missing :
    get_stacktrace_from_id 2 (insert_stacktrace inner postponed_construct).0 ≡ missing
unfolding insert_stacktrace index visit_all visit follow get_ptr_id find? insert find_edge contains
    postponed_construct get_stacktrace_from_id
interior_node_missing = refl

abbrev one : Storage
one = (insert_stacktrace inner postponed_construct).0

one-IsValid : IsValid one
unfolding postponed_construct get_ptr_id find? insert
one-IsValid =
    Lookup.insert_stacktrace-IsValid inner postponed_construct Lookup.postponed_construct-IsValid
      (omega arith) (omega arith)

insert_stacktrace-IsValid_example : IsValid (insert_stacktrace inner postponed_construct).0
unfolding postponed_construct get_ptr_id find? insert
insert_stacktrace-IsValid_example =
    Lookup.insert_stacktrace-IsValid inner postponed_construct Lookup.postponed_construct-IsValid
      (omega arith) (omega arith)

get_stacktrace_from_id-insert_stacktrace_example :
    get_stacktrace_from_id
      (insert_stacktrace sibling postponed_construct).1
      (insert_stacktrace sibling postponed_construct).0
    ≡ found (0x31 ∷ 0x20 ∷ 0x10 ∷ [])
unfolding postponed_construct get_ptr_id find? insert
get_stacktrace_from_id-insert_stacktrace_example =
    Lookup.get_stacktrace_from_id-insert_stacktrace sibling postponed_construct
      Lookup.postponed_construct-IsValid (omega arith) (omega arith)

get_stacktrace_from_id_total_example :
    (get_stacktrace_from_id 3 one ≡ missing)
    ⊎ ((fs : List ℕ) × (get_stacktrace_from_id 3 one ≡ found fs) × (length fs ≤ 64))
get_stacktrace_from_id_total_example = Lookup.get_stacktrace_from_id_total 3 one one-IsValid

three_found : get_stacktrace_from_id 3 one ≡ found inner
unfolding insert_stacktrace index visit_all visit follow get_ptr_id find? insert find_edge contains
    postponed_construct get_stacktrace_from_id get_stacktrace walk get_ptr_value
three_found = refl

get_stacktrace_from_id_stable_example :
    get_stacktrace_from_id 3 (insert_stacktrace sibling one).0 ≡ found inner
unfolding insert_stacktrace index visit_all visit follow get_ptr_id find? insert find_edge contains
    postponed_construct
get_stacktrace_from_id_stable_example =
    Lookup.get_stacktrace_from_id_stable 3 inner sibling one one-IsValid (omega arith) (omega arith)
      three_found

insert_stacktrace_injective_example : non_null inner ≡ non_null inner
unfolding insert_stacktrace index visit_all visit follow get_ptr_id find? insert find_edge contains
    postponed_construct
insert_stacktrace_injective_example =
    Lookup.insert_stacktrace_injective inner inner postponed_construct
      Lookup.postponed_construct-IsValid (omega arith) (omega arith) (omega arith) (omega arith)
      refl

insert_stacktrace_again_example :
    insert_stacktrace inner (insert_stacktrace sibling one).0
    ≡ ((insert_stacktrace sibling one).0, (insert_stacktrace inner postponed_construct).1)
unfolding insert_stacktrace index visit_all visit follow get_ptr_id find? insert find_edge contains
    postponed_construct
insert_stacktrace_again_example =
    Lookup.insert_stacktrace_again inner sibling postponed_construct
      Lookup.postponed_construct-IsValid (omega arith) (omega arith) (omega arith) (omega arith)

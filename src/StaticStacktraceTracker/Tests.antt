-- ===== src/StaticStacktraceTracker/Tests.antt =====
-- Runs of the static tracker, and its theorems at concrete traces.
use mem_hawk.Prelude.{inl, inr, ℕ, ◌≡◌, ◌⊎◌, refl, arith, List, [], ◌∷◌, length}
use mem_hawk.StacktraceTracker.{missing, found}
use mem_hawk.StaticStacktraceTracker.{
  Tracker, new_tracker, insert_stacktrace, get_stacktrace_from_id, unknown_trace_id,
  is_fixed_tracker_id,
}
use mem_hawk.StaticStacktraceTracker.Insertion.{IsValid, HasRoom, new_tracker-IsValid}
use mem_hawk.StaticStacktraceTracker.Lookup.{
  kept, insert_stacktrace-Extends, get_stacktrace_from_id-insert_stacktrace_static,
  get_stacktrace_from_id_static_stable,
}

-- A stand-in for the hash, under which all traces of a size collide.
abbrev size_hash : List ℕ → ℕ
size_hash l = length l

abbrev frames : List ℕ
frames = 0x7f00_1234_5678 ∷ 0x7f00_1234_0000 ∷ 3 ∷ 4 ∷ 5 ∷ 6 ∷ 7 ∷ []

-- The ids of the other tracker are none of this one's.
other_id : get_stacktrace_from_id 0 new_tracker ≡ missing
unfolding get_stacktrace_from_id is_fixed_tracker_id
other_id = refl

get_stacktrace_from_id-insert_stacktrace_static_example :
    (get_stacktrace_from_id
        (insert_stacktrace size_hash frames new_tracker).1
        (insert_stacktrace size_hash frames new_tracker).0
      ≡ found (kept frames))
    ⊎ ((¬ HasRoom new_tracker)
        × (insert_stacktrace size_hash frames new_tracker ≡ (new_tracker, unknown_trace_id))
        × (get_stacktrace_from_id unknown_trace_id new_tracker ≡ missing))
get_stacktrace_from_id-insert_stacktrace_static_example =
    get_stacktrace_from_id-insert_stacktrace_static size_hash frames new_tracker new_tracker-IsValid
      (omega arith)

abbrev one : Tracker
one = (insert_stacktrace size_hash frames new_tracker).0

abbrev one_id : ℕ
one_id = (insert_stacktrace size_hash frames new_tracker).1

one_found : get_stacktrace_from_id one_id one ≡ found (kept frames)
one_found = elim get_stacktrace_from_id-insert_stacktrace_static_example [
  | inl there ↦ there
  | inr (full, same, none_there) ↦ absurd (full (omega arith))
]

one-IsValid : IsValid one
one-IsValid =
    (insert_stacktrace-Extends size_hash frames new_tracker new_tracker-IsValid (omega arith)).0

get_stacktrace_from_id_static_stable_example :
    IsValid (insert_stacktrace size_hash (1 ∷ 2 ∷ []) one).0
    × (get_stacktrace_from_id one_id (insert_stacktrace size_hash (1 ∷ 2 ∷ []) one).0
        ≡ found (kept frames))
get_stacktrace_from_id_static_stable_example =
    get_stacktrace_from_id_static_stable size_hash one_id (kept frames) (1 ∷ 2 ∷ []) one one-IsValid
      (omega arith) one_found

-- ===== src/ThreadTracker/Tests.antt =====
-- A session of a thread, and the theorems on it.
use mem_hawk.Prelude.{ℕ, List, [], ◌∷◌, ◌≡◌, refl, arith, length}
use mem_hawk.LruCache.{find}
use mem_hawk.StacktraceTree.{get_ptr_id}
use mem_hawk.StacktraceTracker.{postponed_construct}
use mem_hawk.StacktraceTracker.Lookup.{postponed_construct-IsValid}
use mem_hawk.ThreadTracker.Caching.{IsCached, IsSaved, save_trace_id-IsSaved}
use mem_hawk.Prelude.Maps.{find?, insert, update}
use mem_hawk.AllocInfo.{AllocInfo, zero_summary, add_summary, add_info, sub_info}
use mem_hawk.ThreadTracker.{
  Step, allocated, deallocated, accounted, new_tracker, run_steps, run_step, track_alloc,
  track_dealloc, consume_diff, worker_account_thread_tracker, change_summary,
}
use mem_hawk.ThreadTracker.Accounts.{sum_summaries}
use mem_hawk.ThreadTracker.Conservation.{
  counted, counted_of, count, count_of, run_steps_lem, AreBalanced, run_steps-AreBalanced,
}

abbrev block : ℕ → ℕ → AllocInfo
block size trace_id = record { size = size; offset = 16; trace_id = trace_id }

-- A block of trace 7 is released after the worker has seen its allocation.
abbrev session : List Step
session =
    allocated (block 100 7)
    ∷ allocated (block 20 8)
    ∷ accounted
    ∷ deallocated (block 100 7)
    ∷ accounted
    ∷ []

live :
    count_of 8 session zero_summary
    ≡ record { size = 20; overhead = 16; active = 1; total_count = 1; total_bytes = 20 }
unfolding add_info sub_info
live = refl

one_is_left :
    counted
      (run_steps session (new_tracker 1 4 2) []).0
      (run_steps session (new_tracker 1 4 2) []).1
    ≡ record { size = 20; overhead = 16; active = 1; total_count = 2; total_bytes = 120 }
unfolding run_steps run_step track_alloc track_dealloc consume_diff worker_account_thread_tracker
    change_summary add_info sub_info add_summary find? insert update
one_is_left = refl

run_steps_lem_example :
    let (t, snapshots) = run_steps session (new_tracker 1 4 2) [] in
    (counted t snapshots ≡ count session zero_summary)
    × (counted_of 8 t snapshots ≡ count_of 8 session zero_summary)
run_steps_lem_example = run_steps_lem session 1 4 2 8

run_steps-AreBalanced_example :
    ((run_steps session (new_tracker 1 4 2) []).0.total
      ≡ sum_summaries (run_steps session (new_tracker 1 4 2) []).0.alloc_summaries)
    × AreBalanced (run_steps session (new_tracker 1 4 2) []).1
run_steps-AreBalanced_example = run_steps-AreBalanced session (new_tracker 1 4 2) [] refl tt

abbrev recursive : List ℕ
recursive = 21 ∷ 22 ∷ 21 ∷ 22 ∷ 23 ∷ []

-- A stand-in for the hash.
abbrev size_hash : List ℕ → ℕ
size_hash l = length l

new_tracker-IsCached : IsCached (new_tracker 1 4 2) postponed_construct
unfolding find
new_tracker-IsCached = record {
  cache = record { positive = omega arith; bounded = omega arith; distinct = tt };
  sound = λ key id e. absurd (cc);
}

save_trace_id-IsSaved_example :
    IsSaved size_hash (block 100 0) recursive (new_tracker 1 4 2) postponed_construct
unfolding postponed_construct get_ptr_id find? insert
save_trace_id-IsSaved_example =
    save_trace_id-IsSaved size_hash (block 100 0) recursive (new_tracker 1 4 2) postponed_construct
      postponed_construct-IsValid (omega arith) (omega arith, omega arith) new_tracker-IsCached

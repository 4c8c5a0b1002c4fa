-- ===== src/ThreadTracker.antt =====
-- `ThreadTracker` of source/memhawk/src/impl/thread_tracker.{h,cpp}, and `CompressedStacktrace` of
-- source/memhawk/src/impl/stacktrace.{h,cpp}.
--
-- A `LockedTracker` holds the tracker's lock while it lives, so each of its methods is one step.
-- A trace is the list of its frames. The tracker of traces, which the threads share, is an argument
-- and a result of `save_trace_id`. The counters are 64-bit words. `none` is a fault of the cache.
-- The hash is a parameter. The traces are collapsed as in a build without AVX-512.
pub mod Accounts
pub mod Conservation
pub mod Caching
mod Tests
use native.Mathlib.Decide.{ℕ_discrete}
use mathlib.Core.List.{List-discrete}
use mem_hawk.Prelude.{ℕ, ◌+◌, List, [], ◌∷◌, Option, none, some, add64, ◌≡◌, ap}
use mem_hawk.Prelude.Maps.{find?, insert, update}
use mem_hawk.AllocInfo.{AllocInfo, AllocSummary, zero_summary, add_summary, add_info, sub_info}
use mem_hawk.LruCache
use mem_hawk.LruCache.{Cache, touch}
use mem_hawk.Collapse.{collapse_recursion_opt, kept_frames}
use mem_hawk.StacktraceTracker.{Storage, insert_stacktrace}

pub record CompressedStacktrace : Type 0 where
  pub trace_data : List ℕ
  pub hash : ℕ

-- `CompressedStacktrace::operator==`
unfoldable pub same_trace : Discrete CompressedStacktrace
same_trace a b = elim (ℕ_discrete a.hash b.hash) [
  | no p ↦ no (λ e. p (ap (λ (c : CompressedStacktrace). c.hash) e))
  | yes p ↦ elim (List-discrete ℕ_discrete a.trace_data b.trace_data) [
    | yes q ↦ yes (λ i. record { trace_data = q i; hash = p i })
    | no q ↦ no (λ e. q (ap (λ (c : CompressedStacktrace). c.trace_data) e))
  ]
]

pub record Tracker : Type 0 where
  pub tracker_id : ℕ
  pub collapse_depth : ℕ
  pub total_allocs : ℕ
  pub total_deallocs : ℕ
  pub cache_misses : ℕ
  pub cache_usages : ℕ
  pub total : AllocSummary
  pub lru_stacktraces : Cache CompressedStacktrace ℕ
  pub local_compressed : CompressedStacktrace
  pub alloc_summaries : List (ℕ × AllocSummary)

abbrev pub no_trace : CompressedStacktrace
no_trace = record { trace_data = []; hash = 0 }

abbrev pub new_tracker : ℕ → ℕ → ℕ → Tracker
new_tracker id capacity collapse_depth = record {
  tracker_id = id;
  collapse_depth = collapse_depth;
  total_allocs = 0;
  total_deallocs = 0;
  cache_misses = 0;
  cache_usages = 0;
  total = zero_summary;
  lru_stacktraces = record { index = []; capacity = capacity };
  local_compressed = no_trace;
  alloc_summaries = [];
}

-- The search, the insertion and the change of a summary, which both events share.
unfoldable pub change_summary :
    (AllocSummary → AllocSummary) → ℕ → List (ℕ × AllocSummary) → List (ℕ × AllocSummary)
change_summary change trace_id summaries = elim (find? trace_id summaries) [
  | some stats ↦ update trace_id (change stats) summaries
  | none ↦ update trace_id (change zero_summary) (insert trace_id zero_summary summaries)
]

unfoldable pub track_alloc : AllocInfo → Tracker → Tracker
track_alloc info t = record t {
  total_allocs = add64 t.total_allocs 1;
  alloc_summaries = change_summary (λ stats. add_info stats info) info.trace_id t.alloc_summaries;
  total = add_info t.total info;
}

unfoldable pub track_dealloc : AllocInfo → Tracker → Tracker
track_dealloc info t = record t {
  total_deallocs = add64 t.total_deallocs 1;
  alloc_summaries = change_summary (λ stats. sub_info stats info) info.trace_id t.alloc_summaries;
  total = sub_info t.total info;
}

-- The tracker, the summaries and the total after the call.
pub record Consumed : Type 0 where
  pub tracker : Tracker
  pub summaries : List (ℕ × AllocSummary)
  pub total : AllocSummary

unfoldable pub consume_diff : Tracker → AllocSummary → Consumed
consume_diff t total = record {
  tracker = record t { alloc_summaries = []; total = zero_summary };
  summaries = t.alloc_summaries;
  total = add_summary total t.total;
}

module _ (xxh3 : List ℕ → ℕ) where
  -- `Stacktrace::Compress`
  abbrev pub compress_trace : List ℕ → CompressedStacktrace
  compress_trace frames = record { trace_data = frames; hash = xxh3 frames }

  pub record Saved : Type 0 where
    pub tracker : Tracker
    pub storage : Storage
    pub info : AllocInfo

  -- `SaveTraceId` after a miss in the cache.
  unfoldable pub save_new_trace : AllocInfo → List ℕ → Tracker → Storage → Option Saved
  save_new_trace info frames t s =
      let (s', id) =
        insert_stacktrace (kept_frames (collapse_recursion_opt frames t.collapse_depth)) s in
      elim (LruCache.insert same_trace t.local_compressed id t.lru_stacktraces) [
        | none ↦ none
        | some (lru, evicted) ↦ some (record {
          tracker = record t {
            cache_misses = add64 t.cache_misses 1;
            lru_stacktraces = lru;
            local_compressed = elim evicted [ some key ↦ key | none ↦ no_trace ];
          };
          storage = s';
          info = record info { trace_id = id };
        })
      ]

  unfoldable pub save_trace_id : AllocInfo → List ℕ → Tracker → Storage → Option Saved
  save_trace_id info frames t s =
      let (lru, hit) = touch same_trace (compress_trace frames) t.lru_stacktraces in
      let used = record t {
        cache_usages = add64 t.cache_usages 1;
        local_compressed = compress_trace frames;
        lru_stacktraces = lru;
      } in
      elim hit [
        | some id ↦
            some (record { tracker = used; storage = s; info = record info { trace_id = id } })
        | none ↦ save_new_trace info frames used s
      ]

-- What a thread reports, and what the worker does, in the order in which they take the lock.
pub data Step : Type 0 where
  allocated : AllocInfo → Step
  deallocated : AllocInfo → Step
  accounted : Step

-- What the writer is given.
pub record Snapshot : Type 0 where
  pub summaries : List (ℕ × AllocSummary)
  pub total : AllocSummary

-- `MemHawk::WorkerAccountThreadTracker`, whose own summary starts at zero. The latest snapshot is
-- the first.
unfoldable pub worker_account_thread_tracker : Tracker → List Snapshot → Tracker × List Snapshot
worker_account_thread_tracker t snapshots =
    let consumed = consume_diff t zero_summary in
    (
      consumed.tracker,
      record { summaries = consumed.summaries; total = consumed.total } ∷ snapshots,
    )

unfoldable pub run_step : Step → Tracker → List Snapshot → Tracker × List Snapshot
run_step (allocated info) t snapshots = (track_alloc info t, snapshots)
run_step (deallocated info) t snapshots = (track_dealloc info t, snapshots)
run_step accounted t snapshots = worker_account_thread_tracker t snapshots

unfoldable pub run_steps : List Step → Tracker → List Snapshot → Tracker × List Snapshot
run_steps [] t snapshots = (t, snapshots)
run_steps (step ∷ steps) t snapshots =
    let (t', snapshots') = run_step step t snapshots in run_steps steps t' snapshots'

-- ===== src/Postponed.antt =====
-- The profiler's own events in source/memhawk/src/impl/memhawk.{h,cpp}: the inner branches of
-- `TrackAlloc` and `TrackDealloc`, `ProcessPostponed`, and the queue of postponed events.
--
-- An event of the profiler's own memory that a thread reports while it is in such a branch already is
-- nested, and postponed; the others wait until the queue has been found empty, and are counted then.
-- A step is what runs under one lock, of the queue or of the inner tracker, so the nested events of a
-- thread and the steps of other threads can come between any two of them. A nested event that arises
-- while the thread counts, under the lock of the inner tracker, only touches the queue: it stands before
-- that step. The trace ids are set before.
pub mod Conservation
pub mod Draining
mod Tests
use mem_hawk.Prelude.{ℕ, zero, suc, List, [], ◌∷◌, ◌++◌, leb, max, if◌then◌else◌, length}
use mem_hawk.AllocInfo.{AllocInfo}
use mem_hawk.ThreadTracker.{Tracker, track_alloc, track_dealloc}

pub data Operation : Type 0 where
  alloc : AllocInfo → Operation
  free : AllocInfo → Operation

pub record Inner : Type 0 where
  pub postponed : List Operation
  pub postponed_capacity : ℕ
  pub max_postponed_size : ℕ
  pub inner_tracker : Tracker

unfoldable pub track_operation : Operation → Tracker → Tracker
track_operation (alloc info) t = track_alloc info t
track_operation (free info) t = track_dealloc info t

-- `PostponeAlloc` and `PostponeDealloc`
unfoldable pub postpone : Operation → Inner → Inner
postpone op s = if leb s.postponed_capacity (length s.postponed) then s else record s {
  postponed = s.postponed ++ (op ∷ []);
  max_postponed_size = max s.max_postponed_size (length (s.postponed ++ (op ∷ [])));
}

-- Where a thread is: not in an inner branch, or there with its own event, in `ProcessPostponed`
-- before the queue is looked at, there with an event it has taken, or behind `ProcessPostponed`.
pub data Place : Type 0 where
  outside : Place
  draining : Operation → Place
  holding : Operation → Operation → Place
  drained : Operation → Place

-- An event reaches the guard of an inner branch.
unfoldable pub report : Operation → Place → Inner → Place × Inner
report op outside s = (draining op, s)
report op (draining own) s = (draining own, postpone op s)
report op (holding own delayed) s = (holding own delayed, postpone op s)
report op (drained own) s = (drained own, postpone op s)

-- The part of a round of `ProcessPostponed` that holds the lock of the queue.
unfoldable pub pop_postponed : Operation → List Operation → Inner → Place × Inner
pop_postponed own [] s = (drained own, s)
pop_postponed own (delayed ∷ rest) s = (holding own delayed, record s { postponed = rest })

-- The rest of the round, which holds the lock of the inner tracker.
unfoldable pub count_delayed : Operation → Operation → Inner → Place × Inner
count_delayed own delayed s =
    (draining own, record s { inner_tracker = track_operation delayed s.inner_tracker })

-- What follows `ProcessPostponed` in the branch.
unfoldable pub count_own : Operation → Inner → Place × Inner
count_own own s = (outside, record s { inner_tracker = track_operation own s.inner_tracker })

-- The next step of a thread.
unfoldable pub proceed : Place → Inner → Place × Inner
proceed outside s = (outside, s)
proceed (draining own) s = pop_postponed own s.postponed s
proceed (holding own delayed) s = count_delayed own delayed s
proceed (drained own) s = count_own own s

pub data Event : Type 0 where
  reports : ℕ → Operation → Event
  proceeds : ℕ → Event

-- A step of the thread with the given number; one that has not run yet is outside.
unfoldable pub at_thread :
    (Place → Inner → Place × Inner) → ℕ → List Place → Inner → List Place × Inner
at_thread step zero [] s = let (p, s') = step outside s in (p ∷ [], s')
at_thread step zero (p ∷ ps) s = let (p', s') = step p s in (p' ∷ ps, s')
at_thread step (suc i) [] s = let (ps, s') = at_thread step i [] s in (outside ∷ ps, s')
at_thread step (suc i) (p ∷ ps) s = let (ps', s') = at_thread step i ps s in (p ∷ ps', s')

unfoldable pub run_event : Event → List Place → Inner → List Place × Inner
run_event (reports i op) threads s = at_thread (report op) i threads s
run_event (proceeds i) threads s = at_thread proceed i threads s

unfoldable pub run_events : List Event → List Place → Inner → List Place × Inner
run_events [] threads s = (threads, s)
run_events (e ∷ events) threads s =
    let (threads', s') = run_event e threads s in run_events events threads' s'

-- ===== src/Registration.antt =====
-- The registration of threads in source/memhawk/src/impl/memhawk.{h,cpp}: which thread uses which
-- tracker.
--
-- A thread is a number, and `gtl_tracker` is part of its state. The finalizer that a thread registers
-- runs `ReclaimTracker` at most once; it has two steps here, since it changes `gtl_tracker` before it
-- takes the lock. `finished` is the deque of the finished trackers, its back first.
pub mod Places
pub mod Taking
pub mod Reclaiming
pub mod Ownership
mod Tests
use mem_hawk.Prelude.{
  ℕ, List, [], ◌∷◌, ◌++◌, Option, none, some, ◌==◌, if◌then◌else◌, u32, length, get_or,
}
use mem_hawk.ThreadTracker.{Tracker, new_tracker}

pub data ThreadState : Type 0 where
  -- `gtl_tracker` is null.
  unregistered : ThreadState
  -- `gtl_tracker` is `m_thTrackers[id]`, and its finalizer is registered.
  registered : ℕ → ThreadState
  -- `ReclaimTracker` has set `gtl_tracker`, and has the tracker still to give back.
  leaving : ℕ → ThreadState
  -- `gtl_tracker` is `m_exitingThreadsTracker`.
  exiting : ThreadState

pub record Registry : Type 0 where
  pub trackers : List Tracker
  pub finished : List ℕ
  pub threads : ℕ → ThreadState

unfoldable pub set_thread : ℕ → ThreadState → (ℕ → ThreadState) → ℕ → ThreadState
set_thread thread state threads u = if u == thread then state else threads u

abbrev pub new_registry : Registry
new_registry = record { trackers = []; finished = []; threads = λ u. unregistered }

abbrev no_tracker : Tracker
no_tracker = new_tracker 0 0 0

module _ (lru_size depth : ℕ) where
  -- `RegisterThread` where `gtl_tracker` is null.
  unfoldable pub take_tracker : ℕ → Registry → List ℕ → Registry
  take_tracker thread r (id ∷ rest) = record r {
    finished = rest;
    threads = set_thread thread (registered id) r.threads;
  }
  take_tracker thread r [] = record r {
    trackers = r.trackers ++ (new_tracker (u32 (length r.trackers)) lru_size depth ∷ []);
    threads = set_thread thread (registered (length r.trackers)) r.threads;
  }

  unfoldable pub register_thread : ℕ → Registry → Registry
  register_thread thread r = elim (r.threads thread) [
    | unregistered ↦ take_tracker thread r r.finished
    | registered id ↦ r
    | leaving id ↦ r
    | exiting ↦ r
  ]

-- The first statement of `ReclaimTracker`.
unfoldable pub leave_tracker : ℕ → Registry → Registry
leave_tracker thread r = elim (r.threads thread) [
  | unregistered ↦ r
  | registered id ↦ record r { threads = set_thread thread (leaving id) r.threads }
  | leaving id ↦ r
  | exiting ↦ r
]

-- The rest of `ReclaimTracker`, which asks the tracker for its id.
unfoldable pub give_back_tracker : ℕ → Registry → Registry
give_back_tracker thread r = elim (r.threads thread) [
  | unregistered ↦ r
  | registered id ↦ r
  | leaving id ↦ record r {
    finished = (get_or r.trackers id no_tracker).tracker_id ∷ r.finished;
    threads = set_thread thread exiting r.threads;
  }
  | exiting ↦ r
]

pub data Event : Type 0 where
  registers : ℕ → Event
  leaves : ℕ → Event
  gives_back : ℕ → Event

module _ (lru_size depth : ℕ) where
  unfoldable pub handle : Event → Registry → Registry
  handle (registers thread) r = register_thread lru_size depth thread r
  handle (leaves thread) r = leave_tracker thread r
  handle (gives_back thread) r = give_back_tracker thread r

  unfoldable pub handle_all : List Event → Registry → Registry
  handle_all [] r = r
  handle_all (e ∷ events) r = handle_all events (handle e r)

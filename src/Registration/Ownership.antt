-- ===== src/Registration/Ownership.antt =====
-- Registration and reclaiming in source/memhawk/src/impl/memhawk.cpp keep every tracker in one place.
use mem_hawk.Prelude.{
  ℕ, suc, ◌+◌, ◌≤◌, ◌<◌, ◌^◌, ◌≡◌, refl, sym, ap, subst, List, [], ◌∷◌, none, arith, length,
  length-append, u32,
}
use mem_hawk.ThreadTracker.{new_tracker}
use mem_hawk.Registration.{
  ThreadState, unregistered, registered, leaving, exiting, Registry, new_registry, take_tracker,
  register_thread, leave_tracker, give_back_tracker, Event, registers, leaves, gives_back, handle,
  handle_all,
}
use mem_hawk.Registration.Places.{occurrences}
use mem_hawk.Registration.Taking.{
  tracker_of, holds, IsRegistry, none-some, moved, reused-IsRegistry, grown-IsRegistry,
}
use mem_hawk.Registration.Reclaiming.{left-IsRegistry, given-IsRegistry, give_back_given}

-- A step keeps the invariant and adds at most one tracker.
pub record IsStep (r r' : Registry) : Type 0 where
  pub kept : IsRegistry r'
  pub trackers_le : length r'.trackers ≤ suc (length r.trackers)

no-IsStep : (r r' : Registry) → IsRegistry r → r' ≡ r → IsStep r r'
no-IsStep r r' i e = subst (IsStep r) (sym e) (record { kept = i; trackers_le = omega arith })

module _ (lru_size depth thread : ℕ) (r : Registry) (i : IsRegistry r) where
  take_tracker-IsStep :
      holds r thread ≡ none
      → length r.trackers < 2 ^ 32
      → (fs : List ℕ) → r.finished ≡ fs
      → IsStep r (take_tracker lru_size depth thread r fs)
  unfolding take_tracker
  take_tracker-IsStep free few (id ∷ rest) e = record {
    kept = reused-IsRegistry r thread id rest i free e;
    trackers_le = omega arith;
  }
  take_tracker-IsStep free few [] e = record {
    kept = grown-IsRegistry r thread lru_size depth i free few;
    trackers_le = omega (
      arith,
      length-append r.trackers (new_tracker (u32 (length r.trackers)) lru_size depth ∷ []),
    );
  }

  register_thread-IsStep :
      length r.trackers < 2 ^ 32
      → (s : ThreadState) → r.threads thread ≡ s
      → IsStep r (register_thread lru_size depth thread r)
  unfolding register_thread take_tracker
  register_thread-IsStep few unregistered e =
      subst (IsStep r) (sym (fresh e)) (take_tracker-IsStep (ap tracker_of e) few r.finished refl)
    where
      fresh :
          r.threads thread ≡ unregistered
          → register_thread lru_size depth thread r
            ≡ take_tracker lru_size depth thread r r.finished
      fresh h = rw (register_thread, h) refl
  register_thread-IsStep few (registered id) e = no-IsStep r _ i (rw (register_thread, e) refl)
  register_thread-IsStep few (leaving id) e = no-IsStep r _ i (rw (register_thread, e) refl)
  register_thread-IsStep few exiting e = no-IsStep r _ i (rw (register_thread, e) refl)

leave_tracker-IsStep :
    (thread : ℕ) (r : Registry)
    → IsRegistry r
    → (s : ThreadState) → r.threads thread ≡ s
    → IsStep r (leave_tracker thread r)
unfolding leave_tracker
leave_tracker-IsStep thread r i (registered id) e =
    subst (IsStep r) (sym (moves e))
      (record { kept = left-IsRegistry thread id r i e; trackers_le = omega arith })
  where
    moves :
        r.threads thread ≡ registered id
        → leave_tracker thread r ≡ moved r thread (leaving id) r.trackers r.finished
    moves h = rw (leave_tracker, h) refl
leave_tracker-IsStep thread r i unregistered e = no-IsStep r _ i (rw (leave_tracker, e) refl)
leave_tracker-IsStep thread r i (leaving id) e = no-IsStep r _ i (rw (leave_tracker, e) refl)
leave_tracker-IsStep thread r i exiting e = no-IsStep r _ i (rw (leave_tracker, e) refl)

give_back_tracker-IsStep :
    (thread : ℕ) (r : Registry)
    → IsRegistry r
    → (s : ThreadState) → r.threads thread ≡ s
    → IsStep r (give_back_tracker thread r)
unfolding give_back_tracker
give_back_tracker-IsStep thread r i (leaving id) e =
    subst (IsStep r) (sym (give_back_given thread id r i e))
      (record { kept = given-IsRegistry thread id r i e; trackers_le = omega arith })
give_back_tracker-IsStep thread r i unregistered e =
    no-IsStep r _ i (rw (give_back_tracker, e) refl)
give_back_tracker-IsStep thread r i (registered id) e =
    no-IsStep r _ i (rw (give_back_tracker, e) refl)
give_back_tracker-IsStep thread r i exiting e = no-IsStep r _ i (rw (give_back_tracker, e) refl)

handle-IsStep :
    (lru_size depth : ℕ) (e : Event) (r : Registry)
    → IsRegistry r
    → length r.trackers < 2 ^ 32
    → IsStep r (handle lru_size depth e r)
unfolding handle
handle-IsStep lru_size depth (registers thread) r i few =
    register_thread-IsStep lru_size depth thread r i few (r.threads thread) refl
handle-IsStep lru_size depth (leaves thread) r i few =
    leave_tracker-IsStep thread r i (r.threads thread) refl
handle-IsStep lru_size depth (gives_back thread) r i few =
    give_back_tracker-IsStep thread r i (r.threads thread) refl

handle_all-IsRegistry_from :
    (lru_size depth : ℕ) (events : List Event) (r : Registry)
    → IsRegistry r
    → length r.trackers + length events < 2 ^ 32
    → IsRegistry (handle_all lru_size depth events r)
unfolding handle_all
handle_all-IsRegistry_from lru_size depth [] r i room = i
handle_all-IsRegistry_from lru_size depth (e ∷ events) r i room =
    let s = handle-IsStep lru_size depth e r i (omega arith) in
    handle_all-IsRegistry_from lru_size depth events (handle lru_size depth e r) s.kept
      (omega (arith, s.trackers_le))

new_registry-IsRegistry : IsRegistry new_registry
unfolding occurrences
new_registry-IsRegistry = record {
  place = λ j h. elim h [ ];
  outside = λ j h. (refl, λ t e. none-some e);
  named = λ j h. elim h [ ];
}

-- After fewer than 2^32 steps of threads that register, leave their tracker and give it back, in any
-- order, every tracker that was made either waits in the deque of the finished ones, once and with no
-- thread that has it, or exactly one thread has it and it is not in the deque: no two threads share a
-- tracker, and none is lost. An id that was not given out is in neither place, and the id of a tracker
-- is its index.
pub handle_all-IsRegistry :
    (lru_size depth : ℕ) (events : List Event)
    → length events < 2 ^ 32
    → IsRegistry (handle_all lru_size depth events new_registry)
handle_all-IsRegistry lru_size depth events few =
    handle_all-IsRegistry_from lru_size depth events new_registry new_registry-IsRegistry
      (omega arith)

-- ===== src/Postponed/Draining.antt =====
-- `ProcessPostponed` of source/memhawk/src/impl/memhawk.cpp ends when nothing is postponed meanwhile.
use mem_hawk.Prelude.{
  ℕ, zero, suc, ◌+◌, ◌*◌, ◌≡◌, refl, ◌∙◌, ap, arith, List, [], ◌∷◌, length, replicate,
}
use mem_hawk.ThreadTracker.{Tracker}
use mem_hawk.Postponed.{
  Operation, Inner, Place, outside, draining, proceeds, track_operation, pop_postponed,
  count_delayed, count_own, proceed, at_thread, run_event, run_events,
}
use mem_hawk.Postponed.Conservation.{track_operations}

abbrev pub place_of : ℕ → List Place → Place
place_of i [] = outside
place_of zero (p ∷ ps) = p
place_of (suc i) (p ∷ ps) = place_of i ps

module _ (step : Place → Inner → Place × Inner) where
  at_thread_lem :
      (i : ℕ) (threads : List Place) (s : Inner)
      → (place_of i (at_thread step i threads s).0 ≡ (step (place_of i threads) s).0)
        × ((at_thread step i threads s).1 ≡ (step (place_of i threads) s).1)
  unfolding at_thread
  at_thread_lem zero [] s = (refl, refl)
  at_thread_lem zero (p ∷ ps) s = (refl, refl)
  at_thread_lem (suc i) [] s = at_thread_lem i [] s
  at_thread_lem (suc i) (p ∷ ps) s = at_thread_lem i ps s

-- Steps of one thread alone.
abbrev pub alone : ℕ → Place → Inner → Place × Inner
alone zero p s = (p, s)
alone (suc n) p s = alone n (proceed p s).0 (proceed p s).1

run_alone :
    (n i : ℕ) (threads : List Place) (s : Inner)
    → (place_of i (run_events (replicate n (proceeds i)) threads s).0
        ≡ (alone n (place_of i threads) s).0)
      × ((run_events (replicate n (proceeds i)) threads s).1 ≡ (alone n (place_of i threads) s).1)
unfolding run_events run_event
run_alone zero i threads s = (refl, refl)
run_alone (suc n) i threads s =
    let (here, inner) = at_thread_lem proceed i threads s in
    let (place, state) =
      run_alone n i (at_thread proceed i threads s).0 (at_thread proceed i threads s).1 in
    (place ∙ λ k. (alone n (here k) (inner k)).0, state ∙ λ k. (alone n (here k) (inner k)).1)

abbrev inner : List Operation → ℕ → ℕ → Tracker → Inner
inner ops capacity most t = record {
  postponed = ops;
  postponed_capacity = capacity;
  max_postponed_size = most;
  inner_tracker = t;
}

alone-draining :
    (own : Operation) (ops : List Operation) (capacity most : ℕ) (t : Tracker)
    → alone (2 * length ops + 2) (draining own) (inner ops capacity most t)
      ≡ (outside, inner [] capacity most (track_operation own (track_operations ops t)))
unfolding proceed count_delayed count_own pop_postponed
alone-draining own [] capacity most t = refl
alone-draining own (op ∷ ops) capacity most t =
    let n : 2 * suc (length ops) + 2 ≡ suc (suc (2 * length ops + 2)) = omega arith in
    ap (λ k. alone k (draining own) (inner (op ∷ ops) capacity most t)) n
    ∙ alone-draining own ops capacity most (track_operation op t)

-- `ProcessPostponed` ends when the thread that runs it is not interrupted: after two steps for each
-- postponed event and two more, the queue is empty, the thread has left its branch, and the inner
-- tracker has been told the postponed events in the order in which they were postponed, and then the
-- thread's own event.
pub run_events-draining :
    (i : ℕ) (own : Operation) (threads : List Place) (s : Inner)
    → place_of i threads ≡ draining own
    → (place_of i (run_events (replicate (2 * length s.postponed + 2) (proceeds i)) threads s).0
        ≡ outside)
      × ((run_events (replicate (2 * length s.postponed + 2) (proceeds i)) threads s).1 ≡ record s {
        postponed = [];
        inner_tracker = track_operation own (track_operations s.postponed s.inner_tracker);
      })
run_events-draining i own threads s here =
    let n = 2 * length s.postponed + 2 in
    let (place, state) = run_alone n i threads s in
    let end =
      ap (λ p. alone n p s) here
      ∙ alone-draining own s.postponed s.postponed_capacity s.max_postponed_size s.inner_tracker in
    (place ∙ ap (λ (r : Place × Inner). r.0) end, state ∙ ap (λ (r : Place × Inner). r.1) end)

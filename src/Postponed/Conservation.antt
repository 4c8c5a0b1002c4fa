-- ===== src/Postponed/Conservation.antt =====
-- No event of the profiler's own memory is lost or counted twice, however the steps of
-- source/memhawk/src/impl/memhawk.cpp interleave.
use mem_hawk.Prelude.{
  ℕ, zero, suc, ◌+◌, ◌≤◌, ◌<◌, ◌≡◌, refl, sym, ◌∙◌, ap, arith, List, [], ◌∷◌, ◌++◌, Bool, false,
  leb, if◌then◌else◌, length, length-append,
}
use mem_hawk.ThreadTracker.{Tracker}
use mem_hawk.Postponed.{
  Operation, Inner, Place, outside, draining, holding, drained, Event, reports, proceeds,
  track_operation, postpone, report, pop_postponed, count_delayed, count_own, proceed, at_thread,
  run_event, run_events,
}

abbrev pub track_operations : List Operation → Tracker → Tracker
track_operations [] t = t
track_operations (op ∷ ops) t = track_operations ops (track_operation op t)

-- The operations that the events report.
abbrev pub reported : List Event → List Operation
reported [] = []
reported (reports i op ∷ events) = op ∷ reported events
reported (proceeds i ∷ events) = reported events

-- The operations that a thread has still to count.
abbrev pub under_way : Place → List Operation
under_way outside = []
under_way (draining own) = own ∷ []
under_way (holding own delayed) = own ∷ delayed ∷ []
under_way (drained own) = own ∷ []

abbrev pub all_under_way : List Place → List Operation
all_under_way [] = []
all_under_way (p ∷ ps) = under_way p ++ all_under_way ps

unfoldable pub how_many : (Operation → Bool) → List Operation → ℕ
how_many p [] = 0
how_many p (op ∷ ops) = (if p op then 1 else 0) + how_many p ops

-- The same operations, each as often, in any order.
pub SameOperations : List Operation → List Operation → Type 0
SameOperations xs ys = (p : Operation → Bool) → how_many p xs ≡ how_many p ys

how_many-append :
    (p : Operation → Bool) (xs ys : List Operation)
    → how_many p (xs ++ ys) ≡ how_many p xs + how_many p ys
unfolding how_many
how_many-append p [] ys = omega arith
how_many-append p (x ∷ xs) ys = omega (arith, how_many-append p xs ys)

track_operations-append :
    (xs ys : List Operation) (t : Tracker)
    → track_operations (xs ++ ys) t ≡ track_operations ys (track_operations xs t)
track_operations-append [] ys t = refl
track_operations-append (x ∷ xs) ys t = track_operations-append xs ys (track_operation x t)

-- From the state `s` with the operations `u` under way to the state `s'` with `u'`, while `ops` were
-- reported and `done` counted.
record IsAccounted (ops u u' : List Operation) (s s' : Inner) : Type 0 where
  done : List Operation
  tracker : s'.inner_tracker ≡ track_operations done s.inner_tracker
  same :
      (p : Operation → Bool)
      → how_many p done + how_many p u' + how_many p s'.postponed
        ≡ how_many p u + how_many p s.postponed + how_many p ops
  capacity : s'.postponed_capacity ≡ s.postponed_capacity
  queue : length s'.postponed ≤ length s.postponed + length ops

then-IsAccounted :
    (xs ys u u' u'' : List Operation) (s s' s'' : Inner)
    → IsAccounted xs u u' s s'
    → IsAccounted ys u' u'' s' s''
    → IsAccounted (xs ++ ys) u u'' s s''
then-IsAccounted xs ys u u' u'' s s' s'' a b = record {
  done = a.done ++ b.done;
  tracker =
      b.tracker
      ∙ (ap (track_operations b.done) a.tracker
          ∙ sym (track_operations-append a.done b.done s.inner_tracker));
  same = λ p.
      omega (arith, a.same p, b.same p, how_many-append p a.done b.done, how_many-append p xs ys);
  capacity = b.capacity ∙ a.capacity;
  queue = omega (arith, a.queue, b.queue, length-append xs ys);
}

-- What other threads have under way does not matter.
before-IsAccounted :
    (ops u u' r : List Operation) (s s' : Inner)
    → IsAccounted ops u u' s s'
    → IsAccounted ops (u ++ r) (u' ++ r) s s'
before-IsAccounted ops u u' r s s' a = record {
  done = a.done;
  tracker = a.tracker;
  same = λ p. omega (arith, a.same p, how_many-append p u r, how_many-append p u' r);
  capacity = a.capacity;
  queue = a.queue;
}

behind-IsAccounted :
    (ops l u u' : List Operation) (s s' : Inner)
    → IsAccounted ops u u' s s'
    → IsAccounted ops (l ++ u) (l ++ u') s s'
behind-IsAccounted ops l u u' s s' a = record {
  done = a.done;
  tracker = a.tracker;
  same = λ p. omega (arith, a.same p, how_many-append p l u, how_many-append p l u');
  capacity = a.capacity;
  queue = a.queue;
}

postpone-IsAccounted :
    (op : Operation) (u : List Operation) (s : Inner)
    → length s.postponed < s.postponed_capacity
    → IsAccounted (op ∷ []) u u s (postpone op s)
unfolding postpone how_many
postpone-IsAccounted op u s room =
    let slot : leb s.postponed_capacity (length s.postponed) ≡ false = ground arith in
    rw slot (record {
      done = [];
      tracker = refl;
      same = λ p. omega (arith, how_many-append p s.postponed (op ∷ []));
      capacity = refl;
      queue = omega (arith, length-append s.postponed (op ∷ []));
    })

report-IsAccounted :
    (op : Operation) (p : Place) (s : Inner)
    → length s.postponed < s.postponed_capacity
    → IsAccounted (op ∷ []) (under_way p) (under_way (report op p s).0) s (report op p s).1
unfolding report how_many
report-IsAccounted op outside s room = record {
  done = [];
  tracker = refl;
  same = λ p. omega arith;
  capacity = refl;
  queue = omega arith;
}
report-IsAccounted op (draining own) s room = postpone-IsAccounted op (own ∷ []) s room
report-IsAccounted op (holding own delayed) s room =
    postpone-IsAccounted op (own ∷ delayed ∷ []) s room
report-IsAccounted op (drained own) s room = postpone-IsAccounted op (own ∷ []) s room

pop_postponed-IsAccounted :
    (own : Operation) (ops : List Operation) (s : Inner)
    → s.postponed ≡ ops
    → IsAccounted []
        (own ∷ [])
        (under_way (pop_postponed own ops s).0)
        s
        (pop_postponed own ops s).1
unfolding pop_postponed how_many
pop_postponed-IsAccounted own [] s e = record {
  done = [];
  tracker = refl;
  same = λ p. omega arith;
  capacity = refl;
  queue = omega arith;
}
pop_postponed-IsAccounted own (delayed ∷ rest) s e = record {
  done = [];
  tracker = refl;
  same = λ p. omega (arith, ap (how_many p) e);
  capacity = refl;
  queue = omega (arith, ap length e);
}

proceed-IsAccounted :
    (p : Place) (s : Inner)
    → IsAccounted [] (under_way p) (under_way (proceed p s).0) s (proceed p s).1
unfolding proceed count_delayed count_own how_many
proceed-IsAccounted outside s = record {
  done = [];
  tracker = refl;
  same = λ p. omega arith;
  capacity = refl;
  queue = omega arith;
}
proceed-IsAccounted (draining own) s = pop_postponed-IsAccounted own s.postponed s refl
proceed-IsAccounted (holding own delayed) s = record {
  done = delayed ∷ [];
  tracker = refl;
  same = λ p. omega arith;
  capacity = refl;
  queue = omega arith;
}
proceed-IsAccounted (drained own) s = record {
  done = own ∷ [];
  tracker = refl;
  same = λ p. omega arith;
  capacity = refl;
  queue = omega arith;
}

module _ (step : Place → Inner → Place × Inner) (ops : List Operation) where
  at_thread-IsAccounted :
      (i : ℕ) (threads : List Place) (s : Inner)
      → ((p : Place) → IsAccounted ops (under_way p) (under_way (step p s).0) s (step p s).1)
      → IsAccounted ops
          (all_under_way threads)
          (all_under_way (at_thread step i threads s).0)
          s
          (at_thread step i threads s).1
  unfolding at_thread
  at_thread-IsAccounted zero [] s h =
      before-IsAccounted ops [] (under_way (step outside s).0) [] s (step outside s).1 (h outside)
  at_thread-IsAccounted zero (p ∷ ps) s h =
      before-IsAccounted ops (under_way p) (under_way (step p s).0) (all_under_way ps) s
        (step p s).1 (h p)
  at_thread-IsAccounted (suc i) [] s h = at_thread-IsAccounted i [] s h
  at_thread-IsAccounted (suc i) (p ∷ ps) s h =
      behind-IsAccounted ops (under_way p) (all_under_way ps)
        (all_under_way (at_thread step i ps s).0) s (at_thread step i ps s).1
        (at_thread-IsAccounted i ps s h)

run_events-IsAccounted :
    (events : List Event) (threads : List Place) (s : Inner)
    → length s.postponed + length (reported events) ≤ s.postponed_capacity
    → IsAccounted
        (reported events)
        (all_under_way threads)
        (all_under_way (run_events events threads s).0)
        s
        (run_events events threads s).1
unfolding run_events run_event how_many
run_events-IsAccounted [] threads s room = record {
  done = [];
  tracker = refl;
  same = λ p. omega arith;
  capacity = refl;
  queue = omega arith;
}
run_events-IsAccounted (reports i op ∷ events) threads s room =
    let (threads', s') = at_thread (report op) i threads s in
    let a =
      at_thread-IsAccounted (report op) (op ∷ []) i threads s
        (λ p. report-IsAccounted op p s (omega arith)) in
    then-IsAccounted (op ∷ []) (reported events) (all_under_way threads) (all_under_way threads') _
      s s' _ a (run_events-IsAccounted events threads' s' (omega (arith, a.queue, a.capacity)))
run_events-IsAccounted (proceeds i ∷ events) threads s room =
    let (threads', s') = at_thread proceed i threads s in
    let a = at_thread-IsAccounted proceed [] i threads s (λ p. proceed-IsAccounted p s) in
    then-IsAccounted [] (reported events) (all_under_way threads) (all_under_way threads') _ s s' _
      a (run_events-IsAccounted events threads' s' (omega (arith, a.queue, a.capacity)))

-- In every interleaving of the steps of any number of threads, of nested events and of others, as long
-- as the queue has room for all the events: the inner tracker is as if it had been told a list of
-- operations one by one, and these together with what is under way in some thread and what is postponed
-- are the operations that were there before and the reported ones, each as often. So no event is lost,
-- and none is counted twice.
pub run_events_lem :
    (events : List Event) (threads : List Place) (s : Inner)
    → length s.postponed + length (reported events) ≤ s.postponed_capacity
    → (done : List Operation) × ((run_events events threads s).1.inner_tracker
        ≡ track_operations done s.inner_tracker)
      × SameOperations
          (done
            ++ (all_under_way (run_events events threads s).0
                ++ (run_events events threads s).1.postponed))
          (all_under_way threads ++ (s.postponed ++ reported events))
unfolding SameOperations
run_events_lem events threads s room =
    let a = run_events-IsAccounted events threads s room in
    let u = all_under_way (run_events events threads s).0 in
    let q = (run_events events threads s).1.postponed in
    (
      a.done,
      a.tracker,
      λ p. omega (
        arith,
        a.same p,
        how_many-append p a.done (u ++ q),
        how_many-append p u q,
        how_many-append p (all_under_way threads) (s.postponed ++ reported events),
        how_many-append p s.postponed (reported events),
      ),
    )

-- ===== src/ThreadTracker/Conservation.antt =====
-- No event is lost or counted twice between the trackers of source/memhawk/src/impl/thread_tracker.cpp
-- and the snapshots that the worker of source/memhawk/src/impl/memhawk.cpp takes.
use mem_hawk.Prelude.{
  ℕ, List, [], ◌∷◌, ◌≡◌, refl, sym, ◌∙◌, ap, arith, ◌==◌, if◌then◌else◌, Bool-cases, inl, inr,
}
use mem_hawk.Prelude.Maps.{find?}
use mem_hawk.AllocInfo.{AllocSummary, zero_summary, add_summary, add_info, sub_info}
use mem_hawk.AllocInfo.Algebra.{
  IsSummary, add_summary_comm, add_summary_assoc, add_summary-zero, add_summary-add_info,
  add_summary-sub_info, add_summary-IsSummary,
}
use mem_hawk.ThreadTracker.{
  Tracker, Step, Snapshot, allocated, deallocated, accounted, track_alloc, track_dealloc,
  consume_diff, worker_account_thread_tracker, run_step, run_steps, new_tracker, change_summary,
}
use mem_hawk.ThreadTracker.Accounts.{
  sum_summaries, summary_of, sum_summaries-change_summary, summary_of-change_summary,
  sum_summaries-IsSummary,
}

-- What the events add up to.
abbrev pub count : List Step → AllocSummary → AllocSummary
count [] s = s
count (allocated info ∷ steps) s = count steps (add_info s info)
count (deallocated info ∷ steps) s = count steps (sub_info s info)
count (accounted ∷ steps) s = count steps s

-- What the events of one trace add up to.
abbrev pub count_of : ℕ → List Step → AllocSummary → AllocSummary
count_of id [] s = s
count_of id (allocated info ∷ steps) s =
    count_of id steps (if info.trace_id == id then add_info s info else s)
count_of id (deallocated info ∷ steps) s =
    count_of id steps (if info.trace_id == id then sub_info s info else s)
count_of id (accounted ∷ steps) s = count_of id steps s

abbrev pub reported : List Snapshot → AllocSummary
reported [] = zero_summary
reported (s ∷ snapshots) = add_summary s.total (reported snapshots)

abbrev pub reported_of : ℕ → List Snapshot → AllocSummary
reported_of id [] = zero_summary
reported_of id (s ∷ snapshots) = add_summary (summary_of id s.summaries) (reported_of id snapshots)

-- Everything that was counted: in the snapshots and in the tracker.
abbrev pub counted : Tracker → List Snapshot → AllocSummary
counted t snapshots = add_summary t.total (reported snapshots)

abbrev pub counted_of : ℕ → Tracker → List Snapshot → AllocSummary
counted_of id t snapshots = add_summary (summary_of id t.alloc_summaries) (reported_of id snapshots)

reported-IsSummary : (l : List Snapshot) → IsSummary (reported l)
reported-IsSummary [] = omega arith
reported-IsSummary (s ∷ l) = add_summary-IsSummary s.total (reported l)

reported_of-IsSummary : (id : ℕ) (l : List Snapshot) → IsSummary (reported_of id l)
reported_of-IsSummary id [] = omega arith
reported_of-IsSummary id (s ∷ l) =
    add_summary-IsSummary (summary_of id s.summaries) (reported_of id l)

zero-add_summary : (a : AllocSummary) → IsSummary a → add_summary zero_summary a ≡ a
zero-add_summary a v = add_summary_comm zero_summary a ∙ add_summary-zero a v

twice_zero :
    (a r : AllocSummary)
    → add_summary zero_summary (add_summary (add_summary zero_summary a) r) ≡ add_summary a r
twice_zero a r =
    ap (add_summary zero_summary) (add_summary_assoc zero_summary a r)
    ∙ (zero-add_summary _ (add_summary-IsSummary zero_summary (add_summary a r))
        ∙ zero-add_summary _ (add_summary-IsSummary a r))

one_change :
    (change : AllocSummary → AllocSummary)
    (acts : (a b : AllocSummary) → add_summary (change a) b ≡ change (add_summary a b)) (id j : ℕ)
    (m : List (ℕ × AllocSummary)) (r : AllocSummary)
    → add_summary (summary_of j (change_summary change id m)) r ≡ (
        if id == j then change (add_summary (summary_of j m) r) else add_summary (summary_of j m) r)
one_change change acts id j m r = elim (Bool-cases (id == j)) [
  | inl same ↦ rw (summary_of-change_summary change acts id j m, same) (acts (summary_of j m) r)
  | inr other ↦ rw (summary_of-change_summary change acts id j m, other) refl
]

run_steps-count :
    (steps : List Step) (t : Tracker) (l : List Snapshot)
    → counted (run_steps steps t l).0 (run_steps steps t l).1 ≡ count steps (counted t l)
unfolding run_steps run_step track_alloc track_dealloc worker_account_thread_tracker consume_diff
run_steps-count [] t l = refl
run_steps-count (allocated info ∷ steps) t l =
    run_steps-count steps (track_alloc info t) l
    ∙ ap (count steps) (add_summary-add_info t.total (reported l) info)
run_steps-count (deallocated info ∷ steps) t l =
    run_steps-count steps (track_dealloc info t) l
    ∙ ap (count steps) (add_summary-sub_info t.total (reported l) info)
run_steps-count (accounted ∷ steps) t l =
    let (t', l') = worker_account_thread_tracker t l in
    run_steps-count steps t' l' ∙ ap (count steps) (twice_zero t.total (reported l))

run_steps-count_of :
    (id : ℕ) (steps : List Step) (t : Tracker) (l : List Snapshot)
    → counted_of id (run_steps steps t l).0 (run_steps steps t l).1
      ≡ count_of id steps (counted_of id t l)
unfolding run_steps run_step track_alloc track_dealloc worker_account_thread_tracker consume_diff
    find?
run_steps-count_of id [] t l = refl
run_steps-count_of id (allocated info ∷ steps) t l =
    run_steps-count_of id steps (track_alloc info t) l
    ∙ ap (count_of id steps) (
        one_change (λ s. add_info s info) (λ a b. add_summary-add_info a b info) info.trace_id id
          t.alloc_summaries (reported_of id l))
run_steps-count_of id (deallocated info ∷ steps) t l =
    run_steps-count_of id steps (track_dealloc info t) l
    ∙ ap (count_of id steps) (
        one_change (λ s. sub_info s info) (λ a b. add_summary-sub_info a b info) info.trace_id id
          t.alloc_summaries (reported_of id l))
run_steps-count_of id (accounted ∷ steps) t l =
    let (t', l') = worker_account_thread_tracker t l in
    run_steps-count_of id steps t' l'
    ∙ ap (count_of id steps) (
        zero-add_summary _
          (add_summary-IsSummary (summary_of id t.alloc_summaries) (reported_of id l)))

-- From a new tracker, whatever a thread reports and whenever the worker takes its snapshots, what
-- the snapshots and the tracker hold adds up to the reported events: in the totals, and in the
-- summaries of every single trace.
pub run_steps_lem :
    (steps : List Step) (id capacity depth trace_id : ℕ)
    → let (t, snapshots) = run_steps steps (new_tracker id capacity depth) [] in
      (counted t snapshots ≡ count steps zero_summary)
      × (counted_of trace_id t snapshots ≡ count_of trace_id steps zero_summary)
unfolding find?
run_steps_lem steps id capacity depth trace_id = (
  run_steps-count steps (new_tracker id capacity depth) []
      ∙ ap (count steps) (zero-add_summary zero_summary (omega arith)),
  run_steps-count_of trace_id steps (new_tracker id capacity depth) []
      ∙ ap (count_of trace_id steps) (zero-add_summary zero_summary (omega arith)),
)

-- The total of a snapshot is the sum of its summaries.
abbrev pub AreBalanced : List Snapshot → Type 0
AreBalanced [] = Unit
AreBalanced (s ∷ l) = (s.total ≡ sum_summaries s.summaries) × AreBalanced l

-- If the total of a `ThreadTracker`, and of the snapshots taken before, is the sum of the summaries,
-- it stays so through every sequence of steps, also for every snapshot that the worker takes.
pub run_steps-AreBalanced :
    (steps : List Step) (t : Tracker) (l : List Snapshot)
    → t.total ≡ sum_summaries t.alloc_summaries
    → AreBalanced l
    → ((run_steps steps t l).0.total ≡ sum_summaries (run_steps steps t l).0.alloc_summaries)
      × AreBalanced (run_steps steps t l).1
unfolding run_steps run_step track_alloc track_dealloc worker_account_thread_tracker consume_diff
run_steps-AreBalanced [] t l h b = (h, b)
run_steps-AreBalanced (allocated info ∷ steps) t l h b =
    run_steps-AreBalanced steps (track_alloc info t) l
      (ap (λ s. add_info s info) h
        ∙ sym (
            sum_summaries-change_summary (λ s. add_info s info)
              (λ a b. add_summary-add_info a b info) info.trace_id t.alloc_summaries))
      b
run_steps-AreBalanced (deallocated info ∷ steps) t l h b =
    run_steps-AreBalanced steps (track_dealloc info t) l
      (ap (λ s. sub_info s info) h
        ∙ sym (
            sum_summaries-change_summary (λ s. sub_info s info)
              (λ a b. add_summary-sub_info a b info) info.trace_id t.alloc_summaries))
      b
run_steps-AreBalanced (accounted ∷ steps) t l h b =
    let (t', l') = worker_account_thread_tracker t l in
    run_steps-AreBalanced steps t' l' refl (
      ap (add_summary zero_summary) h
          ∙ zero-add_summary _ (sum_summaries-IsSummary t.alloc_summaries),
      b,
    )

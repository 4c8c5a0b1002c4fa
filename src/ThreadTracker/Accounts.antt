-- ===== src/ThreadTracker/Accounts.antt =====
-- The summaries of source/memhawk/src/impl/thread_tracker.cpp against the events that they count.
use mem_hawk.Prelude.{
  ℕ, List, [], ◌∷◌, none, some, ◌≡◌, ◌∙◌, ap, arith, ◌==◌, if◌then◌else◌, Option-cases, inl, inr,
  Bool-cases,
}
use mem_hawk.Prelude.Maps.{find?, insert, update}
use mem_hawk.AllocInfo.{AllocSummary, zero_summary, add_summary}
use mem_hawk.AllocInfo.Algebra.{
  IsSummary, add_summary_comm, add_summary-zero, add_summary-IsSummary,
}
use mem_hawk.ThreadTracker.{change_summary}

abbrev pub sum_summaries : List (ℕ × AllocSummary) → AllocSummary
sum_summaries [] = zero_summary
sum_summaries ((id, s) ∷ m) = add_summary s (sum_summaries m)

-- The summary of an id; an id that is not there has counted nothing.
abbrev pub summary_of : ℕ → List (ℕ × AllocSummary) → AllocSummary
summary_of id m = elim (find? id m) [ some s ↦ s | none ↦ zero_summary ]

pub sum_summaries-IsSummary : (m : List (ℕ × AllocSummary)) → IsSummary (sum_summaries m)
sum_summaries-IsSummary [] = omega arith
sum_summaries-IsSummary ((id, s) ∷ m) = add_summary-IsSummary s (sum_summaries m)

find?-update :
    (id j : ℕ) (v : AllocSummary) (s : AllocSummary) (m : List (ℕ × AllocSummary))
    → find? id m ≡ some s
    → find? j (update id v m) ≡ (if id == j then some v else find? j m)
unfolding find? update
find?-update id j v s [] h = absurd (cc)
find?-update id j v s ((k, w) ∷ m) h = ground (arith, find?-update id j v s m)

module _ (change : AllocSummary → AllocSummary)
    (acts : (a b : AllocSummary) → add_summary (change a) b ≡ change (add_summary a b)) where
  pub acts_right : (a b : AllocSummary) → add_summary a (change b) ≡ change (add_summary a b)
  acts_right a b = add_summary_comm a (change b) ∙ acts b a ∙ ap change (add_summary_comm b a)

  sum_summaries-update :
      (id : ℕ) (s : AllocSummary) (m : List (ℕ × AllocSummary))
      → find? id m ≡ some s
      → sum_summaries (update id (change s) m) ≡ change (sum_summaries m)
  unfolding find? update
  sum_summaries-update id s [] h = absurd (cc)
  sum_summaries-update id s ((j, w) ∷ m) h = elim (Bool-cases (j == id)) [
    | inl here ↦ ground (arith, here, acts w (sum_summaries m))
    | inr away ↦ ground (arith, away, sum_summaries-update id s m, acts_right w (sum_summaries m))
  ]

  pub sum_summaries-change_summary :
      (id : ℕ) (m : List (ℕ × AllocSummary))
      → sum_summaries (change_summary change id m) ≡ change (sum_summaries m)
  unfolding change_summary insert update
  sum_summaries-change_summary id m = elim (Option-cases (find? id m)) [
    | inl new ↦ ground (
      arith,
      new,
      acts zero_summary (sum_summaries m),
      add_summary_comm zero_summary (sum_summaries m),
      add_summary-zero (sum_summaries m) (sum_summaries-IsSummary m),
    )
    | inr (s, old) ↦ ground (arith, old, sum_summaries-update id s m old)
  ]

  pub summary_of-change_summary :
      (id j : ℕ) (m : List (ℕ × AllocSummary))
      → summary_of j (change_summary change id m)
        ≡ (if id == j then change (summary_of j m) else summary_of j m)
  unfolding change_summary insert update find?
  summary_of-change_summary id j m = elim (Option-cases (find? id m)) [
    | inl new ↦ ground (arith, new)
    | inr (s, old) ↦ ground (arith, old, find?-update id j (change s) s m old)
  ]

-- ===== src/Registration/Reclaiming.antt =====
-- `ReclaimTracker` in source/memhawk/src/impl/memhawk.cpp keeps every tracker in one place.
use mem_hawk.Prelude.{
  ℕ, ◌≤◌, ◌<◌, ◌≡◌, ◌≢◌, refl, sym, ap, ◌∙◌, ◌⊎◌, inl, inr, subst, ◌∷◌, Option, some, arith, length,
  get_or,
}
use mem_hawk.Registration.{
  registered, leaving, exiting, Registry, no_tracker, give_back_tracker, set_thread,
}
use mem_hawk.Registration.Places.{
  occurrences, occurrences_other, Waits, Held, keep, keep_unheld, give-Waits,
}
use mem_hawk.Registration.Taking.{
  tracker_of, holds, IsRegistry, some_inj, none-some, Nat-cases, moved, holds_others, holds_here,
}
use native.Mathlib.Decide.{ℕ_discrete}

-- The first statement of `ReclaimTracker` leaves the tracker with its thread.
module _ (thread id : ℕ) (r : Registry) (i : IsRegistry r)
    (mine : r.threads thread ≡ registered id) where
  abbrev left : Registry
  left = moved r thread (leaving id) r.trackers r.finished

  same_holds : holds left ≡ holds r
  same_holds = λ j u. pointwise u j
    where
      pointwise : (u : ℕ) → holds left u ≡ holds r u
      pointwise u = elim (ℕ_discrete u thread) [
        | yes e ↦
            ap (holds left) e
            ∙ (holds_here r thread (leaving id) r.trackers r.finished
                ∙ (ap tracker_of (sym mine) ∙ ap (holds r) (sym e)))
        | no ne ↦ holds_others r thread (leaving id) r.trackers r.finished u ne
      ]

  pub left-IsRegistry : IsRegistry left
  left-IsRegistry = record {
    place = λ j h.
        subst (λ (held : ℕ → Option ℕ). Waits r.finished held j ⊎ Held r.finished held j)
          (sym same_holds) (i.place j h);
    outside = λ j h.
        subst
          (λ (held : ℕ → Option ℕ). (occurrences j r.finished ≡ 0) × ((t : ℕ) → held t ≢ some j))
          (sym same_holds) (i.outside j h);
    named = i.named;
  }

-- The rest of `ReclaimTracker`.
module _ (thread id : ℕ) (r : Registry) (i : IsRegistry r)
    (mine : r.threads thread ≡ leaving id) where
  abbrev given : Registry
  given = moved r thread exiting r.trackers (id ∷ r.finished)

  mine_held : holds r thread ≡ some id
  mine_held = ap tracker_of mine

  given_others : (u : ℕ) → u ≢ thread → holds given u ≡ holds r u
  given_others = holds_others r thread exiting r.trackers (id ∷ r.finished)

  given_none : (j : ℕ) → holds given thread ≢ some j
  given_none j e = none-some (sym (holds_here r thread exiting r.trackers (id ∷ r.finished)) ∙ e)

  id_bound : id < length r.trackers
  id_bound = elim (Nat-cases id (length r.trackers)) [
    | inl h ↦ h
    | inr h ↦ absurd ((i.outside id h).1 thread mine_held)
  ]

  held : Held r.finished (holds r) id
  held = elim (i.place id id_bound) [ inl w ↦ absurd (w.unheld thread mine_held) | inr h ↦ h ]

  not_mine : (j : ℕ) → j ≢ id → holds r thread ≢ some j
  not_mine j ne e = ne (sym (some_inj (sym mine_held ∙ e)))

  more_same : (j : ℕ) → j ≢ id → occurrences j (id ∷ r.finished) ≡ occurrences j r.finished
  more_same j ne = occurrences_other j id r.finished (λ e. ne (sym e))

  given_place :
      (j : ℕ)
      → j < length r.trackers
      → Waits (id ∷ r.finished) (holds given) j ⊎ Held (id ∷ r.finished) (holds given) j
  given_place j h = elim (ℕ_discrete j id) [
    | no ne ↦
        keep j thread r.finished (id ∷ r.finished) (holds r) (holds given) given_others
          (not_mine j ne) (given_none j) (more_same j ne) (i.place j h)
    | yes e ↦
        subst
          (λ k. Waits (id ∷ r.finished) (holds given) k ⊎ Held (id ∷ r.finished) (holds given) k)
          (sym e)
          (inl (
            give-Waits id thread r.finished (holds r) (holds given) given_others (given_none id)
              mine_held held))
  ]

  given_outside :
      (j : ℕ)
      → length r.trackers ≤ j
      → (occurrences j (id ∷ r.finished) ≡ 0) × ((t : ℕ) → holds given t ≢ some j)
  given_outside j h =
      let (none_left, unheld) = i.outside j h in
      let ne : j ≢ id = λ e. omega (arith, id_bound, h) in
      (
        more_same j ne ∙ none_left,
        keep_unheld j thread r.finished (id ∷ r.finished) (holds r) (holds given) given_others
            (not_mine j ne) (given_none j) (more_same j ne) unheld,
      )

  pub given-IsRegistry : IsRegistry given
  given-IsRegistry = record { place = given_place; outside = given_outside; named = i.named }

  pub give_back_given : give_back_tracker thread r ≡ given
  unfolding give_back_tracker set_thread
  give_back_given =
      let pushed : give_back_tracker thread r
          ≡ moved r thread exiting r.trackers
              ((get_or r.trackers id no_tracker).tracker_id ∷ r.finished) =
        rw (give_back_tracker, mine) refl in
      pushed ∙ ap (λ k. moved r thread exiting r.trackers (k ∷ r.finished)) (i.named id id_bound)

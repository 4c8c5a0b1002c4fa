-- ===== src/Registration/Taking.antt =====
-- `RegisterThread` in source/memhawk/src/impl/memhawk.cpp keeps every tracker in one place.
use mem_hawk.Prelude.{
  ℕ, suc, ◌≤◌, ◌<◌, ◌^◌, ◌≡◌, ◌≢◌, refl, sym, subst, Bool-cases, ltb, ltb→lt, ap, ◌∙◌, ◌⊎◌, inl,
  inr, List, [], ◌∷◌, ◌++◌, Option, none, some, arith, u32, length, get_or, length-append,
  get_or-append, get_or-append_last,
}
use mem_hawk.ThreadTracker.{Tracker, new_tracker}
use mem_hawk.Registration.{
  ThreadState, unregistered, registered, leaving, exiting, Registry, set_thread, no_tracker,
}
use mem_hawk.Registration.Places.{
  occurrences, occurrences_same, occurrences_other, Waits, Held, keep, keep_unheld, take-Held,
}
use native.Mathlib.Decide.{ℕ_discrete}
use native.Mathlib.Nat.{mod-eq_of_lt}

-- The tracker that a thread has and that is not given back.
abbrev pub tracker_of : ThreadState → Option ℕ
tracker_of unregistered = none
tracker_of (registered id) = some id
tracker_of (leaving id) = some id
tracker_of exiting = none

abbrev pub holds : Registry → ℕ → Option ℕ
holds r t = tracker_of (r.threads t)

-- Every tracker is in one place, ids that were not given out are in none, and a tracker knows its id.
pub record IsRegistry (r : Registry) : Type 0 where
  pub place :
      (id : ℕ)
      → id < length r.trackers
      → Waits r.finished (holds r) id ⊎ Held r.finished (holds r) id
  pub outside :
      (id : ℕ)
      → length r.trackers ≤ id
      → (occurrences id r.finished ≡ 0) × ((t : ℕ) → holds r t ≢ some id)
  pub named : (id : ℕ) → id < length r.trackers → (get_or r.trackers id no_tracker).tracker_id ≡ id

pub some_inj : {a b : ℕ} → some a ≡ some b → a ≡ b
some_inj e = ground arith

pub none-some : {a : ℕ} → none ≡ some a → ⊥
none-some e = ground arith

zero_suc : {a : ℕ} → 0 ≡ suc a → ⊥
zero_suc e = absurd (omega arith)

pub Nat-cases : (a b : ℕ) → (a < b) ⊎ (b ≤ a)
Nat-cases a b = elim (Bool-cases (ltb a b)) [
  | inl e ↦ inl (ltb→lt a b e)
  | inr e ↦ inr (ground (arith, e))
]

set_thread_here :
    (thread : ℕ) (state : ThreadState) (threads : ℕ → ThreadState)
    → set_thread thread state threads thread ≡ state
unfolding set_thread
set_thread_here thread state threads = ground arith

set_thread_other :
    (thread u : ℕ) (state : ThreadState) (threads : ℕ → ThreadState)
    → u ≢ thread
    → set_thread thread state threads u ≡ threads u
unfolding set_thread
set_thread_other thread u state threads ne = ground (arith, ne)

-- A thread whose state changes.
module _ (r : Registry) (thread : ℕ) (state : ThreadState) (trackers : List Tracker)
    (finished : List ℕ) where
  abbrev pub moved : Registry
  moved = record {
    trackers = trackers;
    finished = finished;
    threads = set_thread thread state r.threads;
  }

  pub holds_others : (u : ℕ) → u ≢ thread → holds moved u ≡ holds r u
  holds_others u ne = ap tracker_of (set_thread_other thread u state r.threads ne)

  pub holds_here : holds moved thread ≡ tracker_of state
  holds_here = ap tracker_of (set_thread_here thread state r.threads)

-- `RegisterThread` with a finished tracker.
module _ (r : Registry) (thread id : ℕ) (rest : List ℕ) (i : IsRegistry r)
    (free : holds r thread ≡ none) (finished : r.finished ≡ id ∷ rest) where
  abbrev reused : Registry
  reused = moved r thread (registered id) r.trackers rest

  reused_others : (u : ℕ) → u ≢ thread → holds reused u ≡ holds r u
  reused_others = holds_others r thread (registered id) r.trackers rest

  reused_here : holds reused thread ≡ some id
  reused_here = holds_here r thread (registered id) r.trackers rest

  counted : occurrences id r.finished ≡ suc (occurrences id rest)
  counted = ap (occurrences id) finished ∙ occurrences_same id rest

  waiting : Waits r.finished (holds r) id
  waiting = elim (Nat-cases id (length r.trackers)) [
    | inl h ↦ elim (i.place id h) [
      | inl w ↦ w
      | inr held ↦ absurd (omega (arith, counted, held.absent))
    ]
    | inr h ↦ absurd (omega (arith, counted, (i.outside id h).0))
  ]

  rest_same : (j : ℕ) → j ≢ id → occurrences j rest ≡ occurrences j r.finished
  rest_same j ne = sym (ap (occurrences j) finished ∙ occurrences_other j id rest (λ e. ne (sym e)))

  reused_ne : (j : ℕ) → j ≢ id → holds reused thread ≢ some j
  reused_ne j ne e = ne (sym (some_inj (sym reused_here ∙ e)))

  reused_place :
      (j : ℕ) → j < length r.trackers → Waits rest (holds reused) j ⊎ Held rest (holds reused) j
  reused_place j h = elim (ℕ_discrete j id) [
    | no ne ↦
        keep j thread r.finished rest (holds r) (holds reused) reused_others
          (λ e. none-some (sym free ∙ e)) (reused_ne j ne) (rest_same j ne) (i.place j h)
    | yes e ↦
        subst (λ k. Waits rest (holds reused) k ⊎ Held rest (holds reused) k) (sym e)
          (inr (
            take-Held id thread rest (holds r) (holds reused) reused_others reused_here
              waiting.unheld (omega (arith, counted, waiting.once))))
  ]

  reused_outside :
      (j : ℕ)
      → length r.trackers ≤ j
      → (occurrences j rest ≡ 0) × ((t : ℕ) → holds reused t ≢ some j)
  reused_outside j h =
      let (none_left, unheld) = i.outside j h in
      let ne : j ≢ id =
        λ e. zero_suc (sym none_left ∙ (ap (λ k. occurrences k r.finished) e ∙ counted)) in
      (
        rest_same j ne ∙ none_left,
        keep_unheld j thread r.finished rest (holds r) (holds reused) reused_others
            (λ e. none-some (sym free ∙ e)) (reused_ne j ne) (rest_same j ne) unheld,
      )

  pub reused-IsRegistry : IsRegistry reused
  reused-IsRegistry = record { place = reused_place; outside = reused_outside; named = i.named }

-- `RegisterThread` without one.
module _ (r : Registry) (thread lru_size depth : ℕ) (i : IsRegistry r)
    (free : holds r thread ≡ none) (few : length r.trackers < 2 ^ 32) where
  abbrev n : ℕ
  n = length r.trackers

  abbrev fresh : Tracker
  fresh = new_tracker (u32 n) lru_size depth

  abbrev grown : Registry
  grown = moved r thread (registered n) (r.trackers ++ (fresh ∷ [])) r.finished

  grown_others : (u : ℕ) → u ≢ thread → holds grown u ≡ holds r u
  grown_others = holds_others r thread (registered n) (r.trackers ++ (fresh ∷ [])) r.finished

  grown_here : holds grown thread ≡ some n
  grown_here = holds_here r thread (registered n) (r.trackers ++ (fresh ∷ [])) r.finished

  length_grown : length (r.trackers ++ (fresh ∷ [])) ≡ suc n
  length_grown = omega (arith, length-append r.trackers (fresh ∷ []))

  grown_ne : (j : ℕ) → j ≢ n → holds grown thread ≢ some j
  grown_ne j ne e = ne (sym (some_inj (sym grown_here ∙ e)))

  grown_place :
      (j : ℕ) → j < suc n → Waits r.finished (holds grown) j ⊎ Held r.finished (holds grown) j
  grown_place j h = elim (ℕ_discrete j n) [
    | no ne ↦
        keep j thread r.finished r.finished (holds r) (holds grown) grown_others
          (λ e. none-some (sym free ∙ e)) (grown_ne j ne) refl (i.place j (omega arith))
    | yes e ↦
        let (none_left, unheld) = i.outside n (omega arith) in
        subst (λ k. Waits r.finished (holds grown) k ⊎ Held r.finished (holds grown) k) (sym e)
          (inr (
            take-Held n thread r.finished (holds r) (holds grown) grown_others grown_here unheld
              none_left))
  ]

  grown_outside :
      (j : ℕ) → suc n ≤ j → (occurrences j r.finished ≡ 0) × ((t : ℕ) → holds grown t ≢ some j)
  grown_outside j h =
      let (none_left, unheld) = i.outside j (omega arith) in
      let ne : j ≢ n = λ e. omega (arith, h) in
      (
        none_left,
        keep_unheld j thread r.finished r.finished (holds r) (holds grown) grown_others
            (λ e. none-some (sym free ∙ e)) (grown_ne j ne) refl unheld,
      )

  grown_named :
      (j : ℕ) → j < suc n → (get_or (r.trackers ++ (fresh ∷ [])) j no_tracker).tracker_id ≡ j
  grown_named j h = elim (ℕ_discrete j n) [
    | yes e ↦
        ap (λ k. (get_or (r.trackers ++ (fresh ∷ [])) k no_tracker).tracker_id) e
        ∙ (ap (λ (t : Tracker). t.tracker_id) (get_or-append_last r.trackers fresh no_tracker)
            ∙ (mod-eq_of_lt few ∙ sym e))
    | no ne ↦
        ap (λ (t : Tracker). t.tracker_id)
          (get_or-append r.trackers fresh j no_tracker (omega arith))
        ∙ i.named j (omega arith)
  ]

  pub grown-IsRegistry : IsRegistry grown
  grown-IsRegistry = record {
    place = λ j h. grown_place j (omega (arith, length_grown));
    outside = λ j h. grown_outside j (omega (arith, length_grown));
    named = λ j h. grown_named j (omega (arith, length_grown));
  }

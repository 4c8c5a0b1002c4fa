-- ===== src/Registration/Places.antt =====
-- Where the trackers of source/memhawk/src/impl/memhawk.cpp are: each in the deque of the finished
-- ones, or with one thread.
use mem_hawk.Prelude.{
  ℕ, suc, ◌+◌, ◌≡◌, ◌≢◌, sym, ap, ◌∙◌, ◌⊎◌, inl, inr, List, [], ◌∷◌, Option, some, arith, ◌==◌,
  if◌then◌else◌,
}
use native.Mathlib.Decide.{ℕ_discrete}

unfoldable pub occurrences : ℕ → List ℕ → ℕ
occurrences id [] = 0
occurrences id (x ∷ xs) = (if x == id then 1 else 0) + occurrences id xs

pub occurrences_same : (id : ℕ) (xs : List ℕ) → occurrences id (id ∷ xs) ≡ suc (occurrences id xs)
unfolding occurrences
occurrences_same id xs = ground arith

pub occurrences_other :
    (id x : ℕ) (xs : List ℕ) → x ≢ id → occurrences id (x ∷ xs) ≡ occurrences id xs
unfolding occurrences
occurrences_other id x xs ne = ground (arith, ne)

-- A tracker waits once in the deque, and no thread has it.
pub record Waits (finished : List ℕ) (holds : ℕ → Option ℕ) (id : ℕ) : Type 0 where
  pub once : occurrences id finished ≡ 1
  pub unheld : (t : ℕ) → holds t ≢ some id

-- One thread has it, and it is not in the deque.
pub record Held (finished : List ℕ) (holds : ℕ → Option ℕ) (id : ℕ) : Type 0 where
  pub absent : occurrences id finished ≡ 0
  pub holder : ℕ
  pub holds_it : holds holder ≡ some id
  pub only : (t : ℕ) → holds t ≡ some id → t ≡ holder

-- A change of one thread that concerns other trackers.
module _ (id thread : ℕ) (finished finished' : List ℕ) (holds holds' : ℕ → Option ℕ)
    (others : (u : ℕ) → u ≢ thread → holds' u ≡ holds u) (was : holds thread ≢ some id)
    (is : holds' thread ≢ some id) (same : occurrences id finished' ≡ occurrences id finished) where
  pub keep_unheld : ((t : ℕ) → holds t ≢ some id) → (t : ℕ) → holds' t ≢ some id
  keep_unheld h t = elim (ℕ_discrete t thread) [
    | yes e ↦ λ p. is (ap holds' (sym e) ∙ p)
    | no ne ↦ λ p. h t (sym (others t ne) ∙ p)
  ]

  keep-Held : Held finished holds id → Held finished' holds' id
  keep-Held h =
      let ne : h.holder ≢ thread = λ e. was (ap holds (sym e) ∙ h.holds_it) in
      record {
        absent = same ∙ h.absent;
        holder = h.holder;
        holds_it = others h.holder ne ∙ h.holds_it;
        only = λ t p. elim (ℕ_discrete t thread) [
          | yes e ↦ absurd (is (ap holds' (sym e) ∙ p))
          | no other ↦ h.only t (sym (others t other) ∙ p)
        ];
      }

  pub keep :
      Waits finished holds id ⊎ Held finished holds id
      → Waits finished' holds' id ⊎ Held finished' holds' id
  keep (inl w) = inl (record { once = same ∙ w.once; unheld = keep_unheld w.unheld })
  keep (inr h) = inr (keep-Held h)

-- A thread takes a tracker that no thread has.
pub take-Held :
    (id thread : ℕ) (finished' : List ℕ) (holds holds' : ℕ → Option ℕ)
    → ((u : ℕ) → u ≢ thread → holds' u ≡ holds u)
    → holds' thread ≡ some id
    → ((t : ℕ) → holds t ≢ some id)
    → occurrences id finished' ≡ 0
    → Held finished' holds' id
take-Held id thread finished' holds holds' others is unheld none_left = record {
  absent = none_left;
  holder = thread;
  holds_it = is;
  only = λ t p. elim (ℕ_discrete t thread) [
    | yes e ↦ e
    | no ne ↦ absurd (unheld t (sym (others t ne) ∙ p))
  ];
}

-- A thread gives back the tracker that it has.
pub give-Waits :
    (id thread : ℕ) (finished : List ℕ) (holds holds' : ℕ → Option ℕ)
    → ((u : ℕ) → u ≢ thread → holds' u ≡ holds u)
    → holds' thread ≢ some id
    → holds thread ≡ some id
    → Held finished holds id
    → Waits (id ∷ finished) holds' id
give-Waits id thread finished holds holds' others is was h = record {
  once = omega (arith, occurrences_same id finished, h.absent);
  unheld = λ t p. elim (ℕ_discrete t thread) [
    | yes e ↦ is (ap holds' (sym e) ∙ p)
    | no ne ↦ ne (h.only t (sym (others t ne) ∙ p) ∙ sym (h.only thread was))
  ];
}

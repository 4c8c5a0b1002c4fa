-- ===== src/OwnedGuards/Once.antt =====
-- Every callback of source/memhawk/src/impl/owned_guards.h runs once.
use mem_hawk.Prelude.{
  Bool-cases, inl, inr, ℕ, ◌<◌, ◌≡◌, ◌⊎◌, refl, ap, arith, List, [], ◌∷◌, ◌++◌, true, false, ◌||◌,
  ◌==◌, if◌then◌else◌,
}
use mem_hawk.OwnedGuards.{
  Guards, Action, registers, drains, destroys, executes, contains_id, remove, remove_first,
  no_guards, register, drain, destroy, execute, act, act_all,
}

abbrev pub AreDistinct : List ℕ → Type 0
AreDistinct [] = Unit
AreDistinct (k ∷ l) = (contains_id k l ≡ false) × AreDistinct l

contains_id-append :
    (k : ℕ) (l m : List ℕ) → contains_id k (l ++ m) ≡ (contains_id k l || contains_id k m)
unfolding contains_id
contains_id-append k [] m = refl
contains_id-append k (j ∷ l) m = ground (arith, contains_id-append k l m)

contains_id-remove :
    (j k : ℕ) (l : List ℕ)
    → contains_id j (remove k l) ≡ (if k == j then false else contains_id j l)
unfolding contains_id remove
contains_id-remove j k [] = ground arith
contains_id-remove j k (i ∷ l) = ground (arith, contains_id-remove j k l)

contains_id-remove_first :
    (j k : ℕ) (l : List ℕ)
    → contains_id j l ≡ true
    → (contains_id j (remove_first k l) || k == j) ≡ true
unfolding contains_id remove_first
contains_id-remove_first j k [] h = absurd (cc)
contains_id-remove_first j k (i ∷ l) h = ground (arith, contains_id-remove_first j k l)

-- Every registered callback is in the list, due, or executed, and none was executed twice. A guard
-- that is gone has no callback in the list.
pub record IsKept (s : Guards) : Type 0 where
  pub once : AreDistinct s.executed
  pub kept :
      (k : ℕ)
      → k < s.registered
      → (contains_id k s.callbacks || (contains_id k s.pending || contains_id k s.executed)) ≡ true
  pub guarded : (k : ℕ) → contains_id k s.callbacks ≡ true → contains_id k s.guards ≡ true

register-IsKept : (s : Guards) → IsKept s → IsKept (register s)
unfolding register contains_id
register-IsKept s v = record {
  once = v.once;
  kept = λ k h. ground (arith, v.kept k, contains_id-append k s.callbacks (s.registered ∷ []));
  guarded =
      λ k h. ground (arith, v.guarded k, contains_id-append k s.callbacks (s.registered ∷ []));
}

drain-IsKept : (s : Guards) → IsKept s → IsKept (drain s)
unfolding drain contains_id
drain-IsKept s v = record {
  once = v.once;
  kept = λ k h. ground (arith, v.kept k h, contains_id-append k s.callbacks s.pending);
  guarded = λ k h. absurd (cc);
}

destroy-IsKept : (k : ℕ) (s : Guards) → IsKept s → IsKept (destroy k s)
unfolding destroy contains_id
destroy-IsKept k s v = elim (Bool-cases (contains_id k s.guards)) [
  | inr gone ↦ rw gone v
  | inl live ↦ rw live (record {
    once = v.once;
    kept = λ j h. ground (arith, v.kept j h, contains_id-remove j k s.callbacks);
    guarded = λ j h.
        ground
          (arith, v.guarded j, contains_id-remove j k s.callbacks, contains_id-remove j k s.guards);
  })
]

execute-IsKept : (k : ℕ) (s : Guards) → IsKept s → IsKept (execute k s)
unfolding execute contains_id
execute-IsKept k s v = elim (Bool-cases (contains_id k s.pending)) [
  | inr idle ↦ rw idle v
  | inl due ↦ rw due (record {
    once = elim (Bool-cases (contains_id k s.executed)) [
      | inl done ↦ rw done v.once
      | inr new ↦ rw new (new, v.once)
    ];
    kept = λ j h. ground (arith, v.kept j h, contains_id-remove_first j k s.pending);
    guarded = v.guarded;
  })
]

act_all-IsKept : (actions : List Action) (s : Guards) → IsKept s → IsKept (act_all actions s)
unfolding act_all act
act_all-IsKept [] s v = v
act_all-IsKept (registers ∷ l) s v = act_all-IsKept l (register s) (register-IsKept s v)
act_all-IsKept (drains ∷ l) s v = act_all-IsKept l (drain s) (drain-IsKept s v)
act_all-IsKept (destroys k ∷ l) s v = act_all-IsKept l (destroy k s) (destroy-IsKept k s v)
act_all-IsKept (executes k ∷ l) s v = act_all-IsKept l (execute k s) (execute-IsKept k s v)

IsKept-idle :
    (s : Guards)
    → IsKept s
    → s.pending ≡ []
    → (k : ℕ) → k < s.registered
    → (contains_id k s.guards ≡ false → contains_id k s.executed ≡ true)
      × (s.callbacks ≡ [] → contains_id k s.executed ≡ true)
unfolding contains_id
IsKept-idle s v idle k h =
    let no_call : contains_id k s.pending ≡ false = ap (contains_id k) idle in
    (
      λ gone. ground (arith, v.kept k h, v.guarded k),
      λ empty.
          let no_entry : contains_id k s.callbacks ≡ false = ap (contains_id k) empty in
          ground (arith, v.kept k h),
    )

no_guards-IsKept : IsKept no_guards
unfolding contains_id
no_guards-IsKept = record {
  once = tt;
  kept = λ k h. absurd (omega arith);
  guarded = λ k h. absurd (cc);
}

-- Whatever the order of registrations, drains, destructions of guards and calls of `execute`, no
-- callback runs twice.
pub act_all-AreDistinct : (actions : List Action) → AreDistinct (act_all actions no_guards).executed
act_all-AreDistinct actions = (act_all-IsKept actions no_guards no_guards-IsKept).once

-- Whatever the order of registrations, drains, destructions of guards and calls of `execute`: when no
-- call is due any more, a registered callback has run if its guard is destroyed, or if the list of
-- callbacks is empty, as a last drain leaves it.
pub act_all_lem :
    (actions : List Action) (k : ℕ)
    → (act_all actions no_guards).pending ≡ []
    → k < (act_all actions no_guards).registered
    → (contains_id k (act_all actions no_guards).guards ≡ false)
      ⊎ ((act_all actions no_guards).callbacks ≡ [])
    → contains_id k (act_all actions no_guards).executed ≡ true
act_all_lem actions k idle h (inl gone) =
    (IsKept-idle (act_all actions no_guards) (act_all-IsKept actions no_guards no_guards-IsKept)
        idle k h).0
      gone
act_all_lem actions k idle h (inr empty) =
    (IsKept-idle (act_all actions no_guards) (act_all-IsKept actions no_guards no_guards-IsKept)
        idle k h).1
      empty

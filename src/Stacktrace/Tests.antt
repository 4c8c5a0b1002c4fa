-- ===== src/Stacktrace/Tests.antt =====
-- A trace of five frames.
use mem_hawk.Prelude.{
  ℕ, ◌≡◌, ◌≢◌, refl, ◌≤◌, suc, List, [], ◌∷◌, Option, some, arith, length, replicate,
}
use mem_hawk.Collapse.{at, scan_round, scan_loop, scan, scan_all, compact, collapse_recursion_opt}
use mem_hawk.Stacktrace.{
  new_stacktrace, get_trace, Op, skips, shrinks_to, stops_at, collapses, apply, apply_all, unwind,
  skip_frames, shrink_by_size, find_frame, shrink_by_ptr, collapse_recursion,
}
use mem_hawk.Stacktrace.Views.{IsStacktrace}
use mem_hawk.Stacktrace.Sequences.{IsSmallOp, AreSmall, apply_all_frames, apply_all_lem}
use mem_hawk.Stacktrace.Unwinding.{get_trace-new_stacktrace, unwind-IsStacktrace}

abbrev five : List ℕ
five = 1 ∷ 2 ∷ 2 ∷ 3 ∷ 4 ∷ []

abbrev fresh : List ℕ
fresh = replicate 64 9

abbrev steps : List Op
steps = skips 1 ∷ collapses 2 ∷ stops_at 4 ∷ shrinks_to 7 ∷ []

steps-AreSmall : AreSmall steps
unfolding AreSmall IsSmallOp
steps-AreSmall = (omega arith, (tt, (tt, (omega arith, tt))))

apply_all_lem_example :
    IsStacktrace (apply_all steps (new_stacktrace fresh five))
    × (get_trace (apply_all steps (new_stacktrace fresh five))
        ≡ apply_all_frames steps (get_trace (new_stacktrace fresh five)))
apply_all_lem_example =
    apply_all_lem steps (new_stacktrace fresh five) (get_trace-new_stacktrace fresh five refl).0
      steps-AreSmall

-- The frames that are left.
applied : get_trace (apply_all steps (new_stacktrace fresh five)) ≡ 2 ∷ 3 ∷ []
unfolding apply_all apply skip_frames shrink_by_size find_frame shrink_by_ptr collapse_recursion
    new_stacktrace get_trace scan_round scan_loop scan scan_all compact collapse_recursion_opt
applied = refl

-- An unwinder that writes nothing and finds as many frames as it may.
abbrev idle : ℕ → List ℕ → List ℕ × Option ℕ
idle n cells = (cells, some n)

some_inj : {a b : ℕ} → some a ≡ some b → a ≡ b
some_inj e = ground arith

unwind-IsStacktrace_example :
    IsStacktrace (unwind idle fresh 30 1)
    × (length (get_trace (unwind idle fresh 30 1)) ≤ 30)
    × ((m : ℕ)
        → length (get_trace (unwind idle fresh 30 1)) ≡ suc m
        → at (get_trace (unwind idle fresh 30 1)) m ≢ 0)
unwind-IsStacktrace_example =
    unwind-IsStacktrace idle (λ n cells h. refl) (λ n k cells e. omega (arith, some_inj e)) fresh
      refl 30 1

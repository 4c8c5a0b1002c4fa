-- ===== src/OwnedGuards/Tests.antt =====
-- A drain that meets the destruction of a guard, and the theorem on it.
use mem_hawk.Prelude.{arith, inl, ◌≡◌, refl, List, [], ◌∷◌, true}
use mem_hawk.OwnedGuards.{
  Action, registers, drains, destroys, executes, contains_id, remove, remove_first, no_guards,
  register, drain, destroy, execute, act, act_all,
}
use mem_hawk.OwnedGuards.Once.{AreDistinct, act_all-AreDistinct, act_all_lem}

-- The guard of callback 1 is destroyed between the two halves of a drain.
abbrev race : List Action
race =
    registers
    ∷ registers
    ∷ drains
    ∷ destroys 1
    ∷ executes 1
    ∷ executes 0
    ∷ executes 1
    ∷ destroys 0
    ∷ executes 0
    ∷ []

each_once : (act_all race no_guards).executed ≡ 0 ∷ 1 ∷ []
unfolding act_all act register drain destroy execute contains_id remove remove_first
each_once = refl

act_all-AreDistinct_example : AreDistinct (act_all race no_guards).executed
act_all-AreDistinct_example = act_all-AreDistinct race

act_all_lem_example : contains_id 1 (act_all race no_guards).executed ≡ true
unfolding act_all act register drain destroy execute contains_id remove remove_first
act_all_lem_example = act_all_lem race 1 refl (omega arith) (inl refl)

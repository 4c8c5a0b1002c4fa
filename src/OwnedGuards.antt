-- ===== src/OwnedGuards.antt =====
-- `OwnedGuards` of source/memhawk/src/impl/owned_guards.h: callbacks that run when their guard is
-- destroyed or when all are drained, whichever comes first.
--
-- A callback is the number of its registration. `Drain` and the destructor of a guard first change
-- the list of callbacks under the lock, then call `execute` without it: the calls that are still due
-- are `pending`, and each of them is a step of its own, so that the steps of several threads mix in
-- every order. `executed` holds the callbacks whose flag is set, the latest first: `exchange` sets it,
-- and only the call that does runs the callback.
pub mod Once
mod Tests
use mem_hawk.Prelude.{ℕ, ◌+◌, List, [], ◌∷◌, ◌++◌, Bool, true, false, ◌||◌, ◌==◌, if◌then◌else◌}

unfoldable pub contains_id : ℕ → List ℕ → Bool
contains_id k [] = false
contains_id k (j ∷ l) = j == k || contains_id k l

-- `std::list::remove`
unfoldable pub remove : ℕ → List ℕ → List ℕ
remove k [] = []
remove k (j ∷ l) = if j == k then remove k l else j ∷ remove k l

unfoldable pub remove_first : ℕ → List ℕ → List ℕ
remove_first k [] = []
remove_first k (j ∷ l) = if j == k then l else j ∷ remove_first k l

pub record Guards : Type 0 where
  pub callbacks : List ℕ
  pub guards : List ℕ
  pub pending : List ℕ
  pub executed : List ℕ
  pub registered : ℕ

abbrev pub no_guards : Guards
no_guards = record { callbacks = []; guards = []; pending = []; executed = []; registered = 0 }

unfoldable pub register : Guards → Guards
register s = record s {
  callbacks = s.callbacks ++ (s.registered ∷ []);
  guards = s.registered ∷ s.guards;
  registered = s.registered + 1;
}

-- `Drain` up to its loop.
unfoldable pub drain : Guards → Guards
drain s = record s { callbacks = []; pending = s.callbacks ++ s.pending }

-- `~CallbackGuard` up to its call of `execute`; a guard is destroyed once.
unfoldable pub destroy : ℕ → Guards → Guards
destroy k s =
    if contains_id k s.guards
    then record s {
      guards = remove k s.guards;
      callbacks = remove k s.callbacks;
      pending = k ∷ s.pending;
    }
    else s

-- A call of `CallbackState::execute` that is due.
unfoldable pub execute : ℕ → Guards → Guards
execute k s =
    if contains_id k s.pending
    then record s {
      pending = remove_first k s.pending;
      executed = if contains_id k s.executed then s.executed else k ∷ s.executed;
    }
    else s

pub data Action : Type 0 where
  registers : Action
  drains : Action
  destroys : ℕ → Action
  executes : ℕ → Action

unfoldable pub act : Action → Guards → Guards
act registers s = register s
act drains s = drain s
act (destroys k) s = destroy k s
act (executes k) s = execute k s

unfoldable pub act_all : List Action → Guards → Guards
act_all [] s = s
act_all (action ∷ actions) s = act_all actions (act action s)

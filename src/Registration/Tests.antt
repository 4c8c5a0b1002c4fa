-- ===== src/Registration/Tests.antt =====
-- Three threads, of which one leaves before the last one comes.
use mem_hawk.Prelude.{List, [], ◌∷◌, ◌≡◌, refl, length, arith}
use mem_hawk.Registration.{
  Event, registers, leaves, gives_back, handle_all, handle, new_registry, register_thread,
  take_tracker, leave_tracker, give_back_tracker, set_thread, registered, exiting,
}
use mem_hawk.Registration.Taking.{IsRegistry}
use mem_hawk.Registration.Ownership.{handle_all-IsRegistry}

abbrev three_threads : List Event
three_threads = registers 7 ∷ registers 8 ∷ leaves 7 ∷ gives_back 7 ∷ registers 9 ∷ registers 7 ∷ []

handle_all-IsRegistry_example : IsRegistry (handle_all 16 2 three_threads new_registry)
handle_all-IsRegistry_example = handle_all-IsRegistry 16 2 three_threads (omega arith)

-- The last thread gets the tracker of the first, which stays with the one for exiting threads.
reused :
    ((handle_all 16 2 three_threads new_registry).threads 9 ≡ registered 0)
    × ((handle_all 16 2 three_threads new_registry).threads 7 ≡ exiting)
    × (length (handle_all 16 2 three_threads new_registry).trackers ≡ 2)
unfolding handle_all handle register_thread take_tracker leave_tracker give_back_tracker set_thread
reused = (refl, refl, refl)

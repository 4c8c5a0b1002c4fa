-- ===== src/Postponed/Tests.antt =====
-- Two threads and a nested event, and the theorems on them.
use mem_hawk.Prelude.{◌≡◌, refl, arith, List, [], ◌∷◌, ◌++◌, replicate}
use mem_hawk.AllocInfo.{AllocInfo}
use mem_hawk.ThreadTracker.{new_tracker}
use mem_hawk.Postponed.{
  Operation, Inner, Place, alloc, free, outside, draining, Event, reports, proceeds, postpone,
  report, pop_postponed, count_own, proceed, at_thread, run_event, run_events, track_operation,
}
use mem_hawk.Postponed.Conservation.{
  track_operations, all_under_way, SameOperations, run_events_lem,
}
use mem_hawk.Postponed.Draining.{place_of, run_events-draining}

abbrev info : AllocInfo
info = record { size = 100; offset = 16; trace_id = 7 }

abbrev idle : Inner
idle = record {
  postponed = [];
  postponed_capacity = 4;
  max_postponed_size = 0;
  inner_tracker = new_tracker 0 4 2;
}

-- Thread 0 is about to count an allocation when it postpones a nested one; thread 1 takes that from the
-- queue and holds it while thread 0 counts its own.
abbrev overtaken : List Event
overtaken =
    reports 0 (alloc info)
    ∷ proceeds 0
    ∷ reports 0 (free info)
    ∷ reports 1 (alloc info)
    ∷ proceeds 1
    ∷ proceeds 0
    ∷ []

held : (run_events overtaken [] idle).0 ≡ outside ∷ Place.holding (alloc info) (free info) ∷ []
unfolding run_events run_event at_thread report proceed pop_postponed count_own postpone
held = refl

run_events_lem_example :
    (done : List Operation) × ((run_events overtaken [] idle).1.inner_tracker
      ≡ track_operations done idle.inner_tracker)
    × SameOperations
        (done
          ++ (all_under_way (run_events overtaken [] idle).0
              ++ (run_events overtaken [] idle).1.postponed))
        (alloc info ∷ free info ∷ alloc info ∷ [])
run_events_lem_example = run_events_lem overtaken [] idle (omega arith)

abbrev two_wait : Inner
two_wait = record idle { postponed = alloc info ∷ free info ∷ [] }

run_events-draining_example :
    (place_of 0 (run_events (replicate 6 (proceeds 0)) (draining (alloc info) ∷ []) two_wait).0
      ≡ outside)
    × ((run_events (replicate 6 (proceeds 0)) (draining (alloc info) ∷ []) two_wait).1
        ≡ record two_wait {
          postponed = [];
          inner_tracker =
              track_operation
                (alloc info)
                (track_operations (alloc info ∷ free info ∷ []) (new_tracker 0 4 2));
        })
run_events-draining_example =
    run_events-draining 0 (alloc info) (draining (alloc info) ∷ []) two_wait refl

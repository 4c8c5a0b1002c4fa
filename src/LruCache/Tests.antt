-- ===== src/LruCache/Tests.antt =====
-- Runs of the cache, and its theorems at concrete keys.
use native.Mathlib.Decide.{ℕ_discrete}
use mem_hawk.Prelude.{
  ℕ, ◌*◌, ◌≤◌, ◌≡◌, ◌⊎◌, ◌↔◌, refl, arith, List, [], ◌∷◌, ◌++◌, none, some, length, map,
}
use mem_hawk.LruCache.{Cache, empty_cache, find, without, insert, replace_first, touch}
use mem_hawk.LruCache.Behaviour.{access}
use mem_hawk.LruCache.History.{run, history_of, run-history_of, access-empty_cache}

abbrev ten_times : ℕ → ℕ
ten_times k = k * 10

abbrev uses : List ℕ
uses = 1 ∷ 2 ∷ 1 ∷ 3 ∷ 4 ∷ []

-- Key 2 is evicted, since 1 was used after it.
two_evicted :
    run ℕ_discrete ten_times uses (empty_cache 3)
    ≡ some (
      record { index = (1, 10) ∷ (3, 30) ∷ (4, 40) ∷ []; capacity = 3 },
      10 ∷ 20 ∷ 10 ∷ 30 ∷ 40 ∷ [],
    )
unfolding run access touch insert replace_first find without ℕ_discrete
two_evicted = refl

-- A present key keeps its value where there is room, and faults in a full cache.
present_key :
    (insert {V = ℕ} ℕ_discrete 1 99 (record { index = (1, 10) ∷ []; capacity = 3 })
      ≡ some (record { index = (1, 10) ∷ []; capacity = 3 }, none))
    × (insert {V = ℕ} ℕ_discrete 1 99 (record { index = (2, 20) ∷ (1, 10) ∷ []; capacity = 2 })
        ≡ none)
unfolding insert replace_first find without ℕ_discrete
present_key = (refl, refl)

run-history_of_example :
    (out : Cache ℕ ℕ) × (run ℕ_discrete ten_times uses (empty_cache 3)
      ≡ some (out, map ten_times uses))
    × (length out.index ≤ 3)
    × ((older : List (ℕ × ℕ)) × (history_of ℕ_discrete ten_times uses [] ≡ older ++ out.index)
        × ((older ≡ []) ⊎ (length out.index ≡ 3)))
run-history_of_example = run-history_of ℕ_discrete ten_times uses 3 (omega arith)

access-empty_cache_example :
    (access {V = ℕ} ℕ_discrete 5 50 (empty_cache 0) ≡ none) ↔ (◌≡◌ {A = ℕ} 0 0)
access-empty_cache_example = access-empty_cache ℕ_discrete 5 50 0

-- ===== src/StaticStacktraceTracker/Ids.antt =====
-- The flag of the ids of source/memhawk/src/impl/trackers/stacktrace_tracker_static.h.
use Prim.Native.Nat.{bit_xor}
use mem_hawk.Prelude.{ℕ, zero, suc, ◌<◌, ◌≡◌, refl, arith, Bool, true, ◌&&◌, ◌==◌}
use mem_hawk.StaticStacktraceTracker.{is_fixed_tracker_id, fixed_tracker_id_flag}

-- An index with the flag set is one of this tracker's ids, and loses the flag again.
flag_check : ℕ → Bool
flag_check i =
    bit_xor (bit_xor i fixed_tracker_id_flag) fixed_tracker_id_flag == i
    && is_fixed_tracker_id (bit_xor i fixed_tracker_id_flag)

every_flag : ℕ → Bool
every_flag zero = true
every_flag (suc n) = flag_check n && every_flag n

every_flag-lt : (n i : ℕ) → every_flag n ≡ true → i < n → flag_check i ≡ true
unfolding every_flag
every_flag-lt zero i h p = elim p [ ]
every_flag-lt (suc n) i h p = ground (arith, every_flag-lt n i)

small_flags : every_flag 514 ≡ true
unfolding every_flag flag_check is_fixed_tracker_id
small_flags = refl

pub flagged_index :
    (i : ℕ)
    → i < 514
    → (bit_xor (bit_xor i fixed_tracker_id_flag) fixed_tracker_id_flag ≡ i)
      × (is_fixed_tracker_id (bit_xor i fixed_tracker_id_flag) ≡ true)
unfolding flag_check
flagged_index i h = let c = every_flag-lt 514 i small_flags h in ground (arith, c)

-- ===== src/AllocInfo/Algebra.antt =====
-- The summaries of source/memhawk/src/impl/alloc_info.h as a commutative monoid, on which single
-- allocations and deallocations act.
use mem_hawk.Prelude.{◌^◌, ◌<◌, ◌≡◌, arith, add64}
use mem_hawk.AllocInfo.{AllocInfo, AllocSummary, zero_summary, add_summary, add_info, sub_info}

-- Every field is a 64-bit word.
pub record IsSummary (s : AllocSummary) : Type 0 where
  pub size_fits : s.size < 2 ^ 64
  pub overhead_fits : s.overhead < 2 ^ 64
  pub active_fits : s.active < 2 ^ 64
  pub count_fits : s.total_count < 2 ^ 64
  pub bytes_fits : s.total_bytes < 2 ^ 64

pub summary_ext :
    (a b : AllocSummary)
    → a.size ≡ b.size
    → a.overhead ≡ b.overhead
    → a.active ≡ b.active
    → a.total_count ≡ b.total_count
    → a.total_bytes ≡ b.total_bytes
    → a ≡ b
summary_ext a b p q r s t =
    λ i. record { size = p i; overhead = q i; active = r i; total_count = s i; total_bytes = t i }

pub add_summary-IsSummary : (a b : AllocSummary) → IsSummary (add_summary a b)
unfolding add_summary
add_summary-IsSummary a b = omega arith

pub add_info-IsSummary : (s : AllocSummary) (i : AllocInfo) → IsSummary (add_info s i)
unfolding add_info
add_info-IsSummary s i = omega arith

pub sub_info-IsSummary : (s : AllocSummary) (i : AllocInfo) → IsSummary s → IsSummary (sub_info s i)
unfolding sub_info
sub_info-IsSummary s i v = omega arith

pub add_summary_comm : (a b : AllocSummary) → add_summary a b ≡ add_summary b a
unfolding add_summary
add_summary_comm a b =
    summary_ext _ _ (omega arith) (omega arith) (omega arith) (omega arith) (omega arith)

pub add_summary_assoc :
    (a b c : AllocSummary) → add_summary (add_summary a b) c ≡ add_summary a (add_summary b c)
unfolding add_summary
add_summary_assoc a b c =
    summary_ext _ _ (omega arith) (omega arith) (omega arith) (omega arith) (omega arith)

pub add_summary-zero : (a : AllocSummary) → IsSummary a → add_summary a zero_summary ≡ a
unfolding add_summary
add_summary-zero a v =
    summary_ext _ _ (omega arith) (omega arith) (omega arith) (omega arith) (omega arith)

-- An event may be counted before or after two summaries are joined.
pub add_summary-add_info :
    (a b : AllocSummary) (i : AllocInfo)
    → add_summary (add_info a i) b ≡ add_info (add_summary a b) i
unfolding add_summary add_info
add_summary-add_info a b i =
    summary_ext _ _ (omega arith) (omega arith) (omega arith) (omega arith) (omega arith)

pub add_summary-sub_info :
    (a b : AllocSummary) (i : AllocInfo)
    → add_summary (sub_info a i) b ≡ sub_info (add_summary a b) i
unfolding add_summary sub_info
add_summary-sub_info a b i =
    summary_ext _ _ (omega arith) (omega arith) (omega arith) (omega arith) (omega arith)

-- On a summary of 64-bit fields the deallocation of a block undoes what its allocation added to the live size, overhead and
-- count, in whichever order the two are seen, and leaves the running totals.
pub sub_info-add_info :
    (s : AllocSummary) (i : AllocInfo)
    → IsSummary s
    → (sub_info (add_info s i) i ≡ record s {
      total_count = add64 s.total_count 1;
      total_bytes = add64 s.total_bytes i.size;
    })
      × (sub_info (add_info s i) i ≡ add_info (sub_info s i) i)
unfolding sub_info add_info
sub_info-add_info s i v = (
  summary_ext _ _ (omega arith) (omega arith) (omega arith) (omega arith) (omega arith),
  summary_ext _ _ (omega arith) (omega arith) (omega arith) (omega arith) (omega arith),
)

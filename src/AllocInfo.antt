-- ===== src/AllocInfo.antt =====
-- `AllocInfo` and `AllocSummary` of source/memhawk/src/impl/alloc_info.h.
--
-- The fields are 64-bit words (32-bit for `offset` and `traceId`). An `int64_t` field is kept by its
-- bit pattern, on which the casts from `uint64_t` and `uint32_t` do nothing and `+=` and `-=` are
-- addition and subtraction modulo 2 ^ 64.
pub mod Algebra
mod Tests
use mem_hawk.Prelude.{ℕ, add64, sub64}

pub record AllocInfo : Type 0 where
  pub size : ℕ
  pub offset : ℕ
  pub trace_id : ℕ

pub record AllocSummary : Type 0 where
  pub size : ℕ
  pub overhead : ℕ
  pub active : ℕ
  pub total_count : ℕ
  pub total_bytes : ℕ

abbrev pub zero_summary : AllocSummary
zero_summary = record { size = 0; overhead = 0; active = 0; total_count = 0; total_bytes = 0 }

-- `operator+=(const AllocSummary&)`
unfoldable pub add_summary : AllocSummary → AllocSummary → AllocSummary
add_summary s rhs = record {
  size = add64 s.size rhs.size;
  overhead = add64 s.overhead rhs.overhead;
  active = add64 s.active rhs.active;
  total_count = add64 s.total_count rhs.total_count;
  total_bytes = add64 s.total_bytes rhs.total_bytes;
}

-- `operator+=(const AllocInfo&)`
unfoldable pub add_info : AllocSummary → AllocInfo → AllocSummary
add_info s rhs = record {
  size = add64 s.size rhs.size;
  overhead = add64 s.overhead rhs.offset;
  active = add64 s.active 1;
  total_count = add64 s.total_count 1;
  total_bytes = add64 s.total_bytes rhs.size;
}

-- `operator-=(const AllocInfo&)`
unfoldable pub sub_info : AllocSummary → AllocInfo → AllocSummary
sub_info s rhs = record s {
  size = sub64 s.size rhs.size;
  overhead = sub64 s.overhead rhs.offset;
  active = sub64 s.active 1;
}

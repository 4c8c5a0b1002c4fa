-- ===== src/HawkMalloc/Aligned.antt =====
-- The aligned allocations of source/memhawk/src/hawk_malloc.cpp.
use mem_hawk.Prelude.{
  inl, inr, ℕ, ◌+◌, ◌-◌, ◌*◌, ◌/◌, ◌%◌, ◌^◌, ◌≤◌, ◌<◌, ◌≡◌, ◌≢◌, refl, sym, ap, ◌∙◌, arith, List,
  true, false, add64, sub64, u32, ◌==◌,
}
use native.Mathlib.Nat.{div-add-mod, div-add-mod', mod-lt, mul-mod_left, mul-add-mod_self_left}
use mem_hawk.Prelude.Maps.{find?}
use mem_hawk.AllocInfo.{AllocInfo}
use mem_hawk.HawkMalloc.{
  Call, World, Answers, align_ceil, invalid_trace_id, map_failed, called, put_header, saved_id,
  track_allocation, mmap_alloc_aligned, hawk_aligned_alloc, mmap_call, aligned_alloc_call,
}
use mem_hawk.HawkMalloc.Blocks.{IsUserPtr, header-track_allocation, saved_id-ne}

-- `align_ceil` rounds up to the next multiple.
pub align_ceil_lem :
    (v n : ℕ)
    → 0 < n
    → v + n < 2 ^ 64
    → (v ≤ align_ceil v n) × (align_ceil v n < v + n) × (align_ceil v n % n ≡ 0)
align_ceil_lem v n pos room =
    (omega (arith, value, whole, rest), omega (arith, value, whole, rest), rw value multiple)
  where
    m : ℕ
    m = v + n - 1

    rest : m % n < n
    rest = mod-lt m {m = n} pos

    whole : m / n * n + m % n ≡ m
    whole = div-add-mod' m n

    start : sub64 (add64 v n) 1 ≡ m
    start = omega arith

    value : align_ceil v n ≡ m / n * n
    value = rw start (omega (arith, whole))

    multiple : m / n * n % n ≡ 0
    multiple = mul-mod_left (m / n) n

mod_add : (x y n : ℕ) → x % n ≡ 0 → y % n ≡ 0 → (x + y) % n ≡ 0
mod_add x y n p q =
    let whole : n * (x / n) + y ≡ x + y = omega (arith, div-add-mod x n) in
    ap (λ (t : ℕ). t % n) (sym whole) ∙ (mul-add-mod_self_left n (x / n) y ∙ q)

module _ (a : Answers) (align size : ℕ) (w : World) where
  -- The call of `mmap`, and the user's pointer, of an aligned request before the initialisation.
  abbrev pub mapped_bytes : ℕ
  mapped_bytes = size + 16 + align

  abbrev pub mapped_start : ℕ
  mapped_start = a.mmap w.calls mapped_bytes

  abbrev pub mapped_ptr : ℕ
  mapped_ptr = align_ceil (mapped_start + 16) align

  abbrev mapped_info : AllocInfo
  mapped_info = record {
    size = mapped_bytes - (mapped_ptr - mapped_start);
    offset = mapped_ptr - mapped_start;
    trace_id = invalid_trace_id;
  }

  mmap_alloc_aligned_mapped :
      0 < align
      → align + 16 < 2 ^ 32
      → mapped_start + mapped_bytes < 2 ^ 64
      → mmap_alloc_aligned a size align w ≡ (
        put_header mapped_ptr mapped_info (called (mmap_call mapped_bytes mapped_start) w),
        mapped_ptr,
      )
  unfolding mmap_alloc_aligned
  mmap_alloc_aligned_mapped pos small inside =
      let (above, below, multiple) = align_ceil_lem (mapped_start + 16) align pos (omega arith) in
      let total : add64 (add64 size 16) align ≡ mapped_bytes = omega arith in
      let first : add64 mapped_start 16 ≡ mapped_start + 16 = omega arith in
      let offset : sub64 mapped_ptr mapped_start ≡ mapped_ptr - mapped_start = omega arith in
      let narrow : u32 (mapped_ptr - mapped_start) ≡ mapped_ptr - mapped_start = omega arith in
      let rest : sub64 mapped_bytes (mapped_ptr - mapped_start)
          ≡ mapped_bytes - (mapped_ptr - mapped_start) =
        omega arith in
      let given : (mapped_start == map_failed) ≡ false = ground arith in
      rw (mmap_alloc_aligned, total, first, offset, narrow, rest, given) refl

  -- Before the initialisation an aligned request gets a pointer that is aligned, in a mapped block
  -- that holds the header and the requested bytes; the header accounts for the whole block. The
  -- alignment has to be positive and to leave the offset a `uint32_t`, and the block ends below 2 ^ 64.
  pub mmap_alloc_aligned-IsUserPtr :
      0 < align
      → align + 16 < 2 ^ 32
      → mapped_start + mapped_bytes < 2 ^ 64
      → ((mmap_alloc_aligned a size align w).1 % align ≡ 0)
        × IsUserPtr
            (mmap_alloc_aligned a size align w).1
            size
            (record { start = mapped_start; bytes = mapped_bytes; is_mapped = true })
            (mmap_alloc_aligned a size align w).0
  unfolding find?
  mmap_alloc_aligned-IsUserPtr pos small inside =
      let (above, below, multiple) = align_ceil_lem (mapped_start + 16) align pos (omega arith) in
      rw (mmap_alloc_aligned_mapped pos small inside) (
        multiple,
        record {
          info = mapped_info;
          written = ground arith;
          not_null = omega arith;
          room_for_header = omega arith;
          room_for_user = omega arith;
          usable = omega arith;
          start = omega arith;
          mapped_bytes = inr (omega arith);
          marked = refl;
        },
      )

  -- After the initialisation an aligned request asks the C library for the header rounded up to the
  -- alignment and the requested bytes.
  abbrev pub header_bytes : ℕ
  header_bytes = align_ceil 16 align

  abbrev pub allocated_start : ℕ
  allocated_start = a.aligned_alloc w.calls align (size + header_bytes)

  abbrev allocated : World
  allocated = called (aligned_alloc_call align (size + header_bytes) allocated_start) w

  hawk_aligned_alloc_got :
      w.initialised ≡ true
      → 0 < align
      → align + 16 < 2 ^ 32
      → 0 < allocated_start
      → allocated_start + (size + header_bytes) < 2 ^ 64
      → hawk_aligned_alloc a align size w ≡ (
        track_allocation a (allocated_start + header_bytes) size header_bytes allocated,
        allocated_start + header_bytes,
      )
  unfolding hawk_aligned_alloc
  hawk_aligned_alloc_got ready pos small got inside =
      let (above, below, multiple) = align_ceil_lem 16 align pos (omega arith) in
      let total : add64 size header_bytes ≡ size + header_bytes = omega arith in
      let user : add64 allocated_start header_bytes ≡ allocated_start + header_bytes =
        omega arith in
      let narrow : u32 header_bytes ≡ header_bytes = omega arith in
      let given : (allocated_start == 0) ≡ false = ground arith in
      rw (hawk_aligned_alloc, total, user, narrow, ready, given) refl

  -- After the initialisation an aligned request gets a pointer that is aligned if the C library's
  -- is, in a block that holds the header and the requested bytes. The alignment has to be positive
  -- and to leave the offset a `uint32_t`, the C library has to give a block, which ends below 2 ^ 64,
  -- and the profiler never saves the reserved trace id.
  pub hawk_aligned_alloc-IsUserPtr :
      w.initialised ≡ true
      → 0 < align
      → align + 16 < 2 ^ 32
      → 0 < allocated_start
      → allocated_start + (size + header_bytes) < 2 ^ 64
      → allocated_start % align ≡ 0
      → ((calls : List Call) → a.trace_id calls ≢ invalid_trace_id)
      → ((hawk_aligned_alloc a align size w).1 % align ≡ 0)
        × IsUserPtr
            (hawk_aligned_alloc a align size w).1
            size
            (record { start = allocated_start; bytes = size + header_bytes; is_mapped = false })
            (hawk_aligned_alloc a align size w).0
  hawk_aligned_alloc-IsUserPtr ready pos small got inside whole ids =
      let (above, below, multiple) = align_ceil_lem 16 align pos (omega arith) in
      rw (hawk_aligned_alloc_got ready pos small got inside) (
        mod_add allocated_start header_bytes align whole multiple,
        record {
          info = record { size = size; offset = header_bytes; trace_id = saved_id a allocated };
          written =
              header-track_allocation a (allocated_start + header_bytes) size header_bytes
                allocated;
          not_null = omega arith;
          room_for_header = omega arith;
          room_for_user = omega arith;
          usable = omega arith;
          start = omega arith;
          mapped_bytes = inl refl;
          marked = saved_id-ne a allocated (ids allocated.calls);
        },
      )

-- ===== src/HawkMalloc/Blocks.antt =====
-- The blocks that the hooks of source/memhawk/src/hawk_malloc.cpp hand out.
use mem_hawk.Prelude.{
  ℕ, ◌+◌, ◌^◌, ◌≤◌, ◌<◌, ◌≡◌, ◌≢◌, ◌⊎◌, refl, ap, ◌∙◌, arith, List, Bool, true, false, some, add64,
  sub64, inl, inr, Bool-cases, ◌==◌, if◌then◌else◌,
}
use mem_hawk.Prelude.Maps.{find?}
use mem_hawk.AllocInfo.{AllocInfo}
use mem_hawk.HawkMalloc.{
  Call, World, Answers, invalid_trace_id, header, called, reported, saved_id, track_allocation,
  mmap_malloc, mmap_free, hawk_malloc, hawk_free, free_call, munmap_call, track_dealloc_call,
  mmap_call, malloc_call, put_header,
}

-- A block of the C library or of `mmap`: where it starts, and how many bytes it has.
pub record Block : Type 0 where
  pub start : ℕ
  pub bytes : ℕ
  pub is_mapped : Bool

-- The pointer is a user's pointer into the block: the header in front of it is in the block, so are
-- the bytes that the user asked for, and the header tells how the block is released.
pub record IsUserPtr (ptr size : ℕ) (b : Block) (w : World) : Type 0 where
  pub info : AllocInfo
  pub written : header ptr w ≡ some info
  pub not_null : ptr ≢ 0
  pub room_for_header : b.start + 16 ≤ ptr
  pub room_for_user : ptr + size ≤ b.start + b.bytes
  pub usable : size ≤ info.size
  pub start : sub64 ptr info.offset ≡ b.start
  pub mapped_bytes : (b.is_mapped ≡ false) ⊎ (add64 info.size info.offset ≡ b.bytes)
  pub marked : (info.trace_id == invalid_trace_id) ≡ b.is_mapped

module _ (a : Answers) where
  pub header-track_allocation :
      (ptr size offset : ℕ) (w : World)
      → header ptr (track_allocation a ptr size offset w)
        ≡ some (record { size = size; offset = offset; trace_id = saved_id a w })
  unfolding track_allocation find?
  header-track_allocation ptr size offset w = ground arith

  pub saved_id-ne :
      (w : World)
      → a.trace_id w.calls ≢ invalid_trace_id
      → (saved_id a w == invalid_trace_id) ≡ false
  saved_id-ne w h = ground (arith, h)

  mmap_malloc_mapped :
      (size : ℕ) (w : World)
      → size + 16 < 2 ^ 64
      → a.mmap w.calls (size + 16) + (size + 16) < 2 ^ 64
      → mmap_malloc a size w ≡ (
        put_header
            (a.mmap w.calls (size + 16) + 16)
            (record { size = size; offset = 16; trace_id = invalid_trace_id })
            (called (mmap_call (size + 16) (a.mmap w.calls (size + 16))) w),
        a.mmap w.calls (size + 16) + 16,
      )
  unfolding mmap_malloc
  mmap_malloc_mapped size w fits inside =
      let total : add64 size 16 ≡ size + 16 = omega arith in
      let user : add64 (a.mmap w.calls (size + 16)) 16 ≡ a.mmap w.calls (size + 16) + 16 =
        omega arith in
      rw (total, user) (ground arith)

  hawk_malloc_got :
      (size : ℕ) (w : World)
      → w.initialised ≡ true
      → size + 16 < 2 ^ 64
      → 0 < a.malloc w.calls (size + 16)
      → a.malloc w.calls (size + 16) + (size + 16) < 2 ^ 64
      → hawk_malloc a size w ≡ (
        track_allocation a
            (a.malloc w.calls (size + 16) + 16)
            size
            16
            (called (malloc_call (size + 16) (a.malloc w.calls (size + 16))) w),
        a.malloc w.calls (size + 16) + 16,
      )
  unfolding hawk_malloc
  hawk_malloc_got size w ready fits pos inside =
      let total : add64 size 16 ≡ size + 16 = omega arith in
      let user : add64 (a.malloc w.calls (size + 16)) 16 ≡ a.malloc w.calls (size + 16) + 16 =
        omega arith in
      let given : (a.malloc w.calls (size + 16) == 0) ≡ false = ground arith in
      rw (hawk_malloc, total, user, ready, given) refl

  -- `mmap_malloc`, which serves `hawk_malloc` before the initialisation, hands out a pointer into the
  -- mapped block, which holds the header and the bytes that the user asks for, if the requested size
  -- stays below 2 ^ 64 together with the header's and the block ends below 2 ^ 64.
  pub mmap_malloc-IsUserPtr :
      (size : ℕ) (w : World)
      → size + 16 < 2 ^ 64
      → a.mmap w.calls (size + 16) + (size + 16) < 2 ^ 64
      → IsUserPtr
          (mmap_malloc a size w).1
          size
          (record { start = a.mmap w.calls (size + 16); bytes = size + 16; is_mapped = true })
          (mmap_malloc a size w).0
  unfolding find?
  mmap_malloc-IsUserPtr size w fits inside = rw (mmap_malloc_mapped size w fits inside) (record {
    info = record { size = size; offset = 16; trace_id = invalid_trace_id };
    written = ground arith;
    not_null = omega arith;
    room_for_header = omega arith;
    room_for_user = omega arith;
    usable = omega arith;
    start = omega arith;
    mapped_bytes = inr (omega arith);
    marked = refl;
  })

  -- After the initialisation `hawk_malloc` hands out a pointer into the block that the C library
  -- gives it, which holds the header and the bytes that the user asks for. The requested size has to
  -- stay below 2 ^ 64 together with the header's, the C library has to give a block, which ends below
  -- 2 ^ 64, and the profiler never saves the reserved trace id.
  pub hawk_malloc-IsUserPtr :
      (size : ℕ) (w : World)
      → w.initialised ≡ true
      → size + 16 < 2 ^ 64
      → 0 < a.malloc w.calls (size + 16)
      → a.malloc w.calls (size + 16) + (size + 16) < 2 ^ 64
      → ((calls : List Call) → a.trace_id calls ≢ invalid_trace_id)
      → IsUserPtr
          (hawk_malloc a size w).1
          size
          (record { start = a.malloc w.calls (size + 16); bytes = size + 16; is_mapped = false })
          (hawk_malloc a size w).0
  hawk_malloc-IsUserPtr size w ready fits pos inside ids =
      let raw = a.malloc w.calls (size + 16) in
      let allocated = called (malloc_call (size + 16) raw) w in
      rw (hawk_malloc_got size w ready fits pos inside) (record {
        info = record { size = size; offset = 16; trace_id = saved_id a allocated };
        written = header-track_allocation (raw + 16) size 16 allocated;
        not_null = omega arith;
        room_for_header = omega arith;
        room_for_user = omega arith;
        usable = omega arith;
        start = omega arith;
        mapped_bytes = inl refl;
        marked = saved_id-ne allocated (ids allocated.calls);
      })

  hawk_free_written :
      (ptr : ℕ) (w : World) (info : AllocInfo)
      → w.initialised ≡ true
      → ptr ≢ 0
      → header ptr w ≡ some info
      → hawk_free a ptr w
        ≡ some (
            if info.trace_id == invalid_trace_id
            then called (munmap_call (sub64 ptr info.offset) (add64 info.size info.offset)) w
            else called (free_call (sub64 ptr info.offset)) (reported (track_dealloc_call info) w))
  unfolding hawk_free mmap_free
  hawk_free_written ptr w info ready not_null written =
      let given : (ptr == 0) ≡ false = ground (arith, not_null) in
      elim (Bool-cases (info.trace_id == invalid_trace_id)) [
        | inl mapped ↦ rw (hawk_free, given, written, mapped) refl
        | inr heap ↦ rw (hawk_free, given, written, heap, ready) refl
      ]

  -- After the initialisation `hawk_free` of a user's pointer releases its block and nothing else: a block of the C library by
  -- its start, after the profiler has been told the header, and a mapped block, which it is not told,
  -- by its start and its whole size.
  pub hawk_free-IsUserPtr :
      (ptr size : ℕ) (b : Block) (w : World)
      → w.initialised ≡ true
      → IsUserPtr ptr size b w
      → (info : AllocInfo) × (header ptr w ≡ some info)
        × (hawk_free a ptr w
            ≡ some (
                if b.is_mapped
                then called (munmap_call b.start b.bytes) w
                else called (free_call b.start) (reported (track_dealloc_call info) w)))
  hawk_free-IsUserPtr ptr size b w ready p = (
    p.info,
    p.written,
    hawk_free_written ptr w p.info ready p.not_null p.written ∙ ap some released,
  )
    where
      released :
          (if p.info.trace_id == invalid_trace_id
            then called (munmap_call (sub64 ptr p.info.offset) (add64 p.info.size p.info.offset)) w
            else called
                (free_call (sub64 ptr p.info.offset))
                (reported (track_dealloc_call p.info) w))
          ≡ (if b.is_mapped
              then called (munmap_call b.start b.bytes) w
              else called (free_call b.start) (reported (track_dealloc_call p.info) w))
      released = elim (Bool-cases b.is_mapped) [
        | inl mapped ↦ elim p.mapped_bytes [
          | inl other ↦ absurd (cc)
          | inr bytes ↦ rw (p.marked, p.start, mapped, bytes) refl
        ]
        | inr heap ↦ rw (p.marked, p.start, heap) refl
      ]

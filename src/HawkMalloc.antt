-- ===== src/HawkMalloc.antt =====
-- The allocation hooks of source/memhawk/src/hawk_malloc.cpp.
--
-- The state holds the `AllocInfo` at every header address, whether the profiler is initialised, and
-- the calls made so far, the latest first. Addresses and sizes are 64-bit words with their
-- wrap-around; 0 is `nullptr`. What the C library and `mmap` return is a parameter: an address for
-- every call after every history. The trace id that the profiler saves in a new header is a
-- parameter as well (`trace_id`). The bytes that a user writes are not modelled; the copies of them
-- are calls. An alignment is not 0.
pub mod Blocks
pub mod Aligned
pub mod Moves
mod Tests
use mem_hawk.Prelude.{
  ℕ, ◌+◌, ◌*◌, ◌/◌, ◌^◌, List, [], ◌∷◌, Bool, true, false, Option, none, some, u32, u64, add64,
  sub64, min, ◌==◌, ◌||◌, not, leb, if◌then◌else◌,
}
use mem_hawk.Prelude.Maps.{find?}
use mem_hawk.AllocInfo.{AllocInfo}

abbrev pub invalid_trace_id : ℕ
invalid_trace_id = 0xffff_ffff

-- `MAP_FAILED`
abbrev pub map_failed : ℕ
map_failed = 0xffff_ffff_ffff_ffff

abbrev pub additional_size : ℕ
additional_size = 16

pub data Call : Type 0 where
  malloc_call : ℕ → ℕ → Call
  calloc_call : ℕ → ℕ → Call
  aligned_alloc_call : ℕ → ℕ → ℕ → Call
  posix_memalign_call : ℕ → ℕ → ℕ → Call
  realloc_call : ℕ → ℕ → ℕ → Call
  free_call : ℕ → Call
  mmap_call : ℕ → ℕ → Call
  munmap_call : ℕ → ℕ → Call
  memcpy_call : ℕ → ℕ → ℕ → Call
  track_alloc_call : AllocInfo → Call
  track_dealloc_call : AllocInfo → Call
  track_realloc_call : AllocInfo → AllocInfo → Call

pub record World : Type 0 where
  pub initialised : Bool
  pub memhawk_ready : Bool
  pub headers : List (ℕ × AllocInfo)
  pub calls : List Call

-- What the C library and the kernel answer. The page size is 0 where `getpagesize` fails.
pub record Answers : Type 0 where
  pub malloc : List Call → ℕ → ℕ
  pub calloc : List Call → ℕ → ℕ
  pub aligned_alloc : List Call → ℕ → ℕ → ℕ
  pub posix_memalign : List Call → ℕ → ℕ → ℕ × ℕ
  pub realloc : List Call → ℕ → ℕ → ℕ
  pub mmap : List Call → ℕ → ℕ
  pub page_size : ℕ
  pub trace_id : List Call → ℕ

abbrev pub align_ceil : ℕ → ℕ → ℕ
align_ceil value alignment = u64 (sub64 (add64 value alignment) 1 / alignment * alignment)

abbrev pub put_header : ℕ → AllocInfo → World → World
put_header ptr info w = record w { headers = (sub64 ptr additional_size, info) ∷ w.headers }

abbrev pub called : Call → World → World
called call w = record w { calls = call ∷ w.calls }

-- A call of the profiler, if there is one.
abbrev pub reported : Call → World → World
reported call w = if w.memhawk_ready then called call w else w

-- The header of a user's pointer; `none` where no header was written.
abbrev pub header : ℕ → World → Option AllocInfo
header ptr w = find? (sub64 ptr additional_size) w.headers

module _ (a : Answers) where
  -- A new header has trace id 0; the profiler saves its own.
  abbrev pub saved_id : World → ℕ
  saved_id w = if w.memhawk_ready then a.trace_id w.calls else 0

  unfoldable pub track_allocation : ℕ → ℕ → ℕ → World → World
  track_allocation user_ptr user_size offset w =
      let info : AllocInfo = record { size = user_size; offset = offset; trace_id = saved_id w } in
      reported (track_alloc_call info) (put_header user_ptr info w)

  unfoldable pub track_reallocation : ℕ → ℕ → ℕ → AllocInfo → World → World
  track_reallocation user_ptr user_size offset prev w =
      let info : AllocInfo = record { size = user_size; offset = offset; trace_id = saved_id w } in
      reported (track_realloc_call prev info) (put_header user_ptr info w)

  unfoldable pub mmap_malloc : ℕ → World → World × ℕ
  mmap_malloc size w =
      let total_size = add64 size additional_size in
      let ptr = a.mmap w.calls total_size in
      let mapped = called (mmap_call total_size ptr) w in
      let info : AllocInfo = record {
        size = size;
        offset = additional_size;
        trace_id = invalid_trace_id;
      } in
      let user_ptr = add64 ptr additional_size in
      if ptr == map_failed then (mapped, 0) else (put_header user_ptr info mapped, user_ptr)

  unfoldable pub mmap_free : ℕ → AllocInfo → World → World
  mmap_free ptr info w = called (munmap_call ptr (add64 info.size info.offset)) w

  unfoldable pub mmap_alloc_aligned : ℕ → ℕ → World → World × ℕ
  mmap_alloc_aligned size alignment w =
      let total_size = add64 (add64 size additional_size) alignment in
      let ptr = a.mmap w.calls total_size in
      let mapped = called (mmap_call total_size ptr) w in
      let aligned_ptr = align_ceil (add64 ptr additional_size) alignment in
      let offset = sub64 aligned_ptr ptr in
      let info : AllocInfo = record {
        size = sub64 total_size offset;
        offset = u32 offset;
        trace_id = invalid_trace_id;
      } in
      if ptr == map_failed then (mapped, 0) else (put_header aligned_ptr info mapped, aligned_ptr)

  unfoldable pub hawk_malloc : ℕ → World → World × ℕ
  hawk_malloc size w =
      let total_size = add64 size additional_size in
      let raw = a.malloc w.calls total_size in
      let allocated = called (malloc_call total_size raw) w in
      let user_ptr = add64 raw additional_size in
      let early = mmap_malloc size w in
      if w.initialised
      then (if raw == 0
          then (allocated, 0)
          else (track_allocation user_ptr size additional_size allocated, user_ptr))
      else early

  unfoldable pub hawk_aligned_alloc : ℕ → ℕ → World → World × ℕ
  hawk_aligned_alloc align size w =
      let aligned_size = align_ceil additional_size align in
      let total_size = add64 size aligned_size in
      let raw = a.aligned_alloc w.calls align total_size in
      let allocated = called (aligned_alloc_call align total_size raw) w in
      let user_ptr = add64 raw aligned_size in
      let early = mmap_alloc_aligned size align w in
      if w.initialised
      then (if raw == 0
          then (allocated, 0)
          else (track_allocation user_ptr size (u32 aligned_size) allocated, user_ptr))
      else early

  -- `none` is `abort`, and a header that was never written. The addresses that `mmap_free` and the
  -- hook of `free` are given come from the header.
  unfoldable pub hawk_free : ℕ → World → Option World
  hawk_free ptr w = if ptr == 0 then some w else elim (header ptr w) [
    | none ↦ none
    | some info ↦
        let orig = sub64 ptr info.offset in
        let unmapped = mmap_free orig info w in
        if info.trace_id == invalid_trace_id
        then some unmapped
        else if w.initialised
        then some (called (free_call orig) (reported (track_dealloc_call info) w))
        else none
  ]

  unfoldable pub hawk_calloc : ℕ → ℕ → World → World × ℕ
  hawk_calloc nm size w =
      let total_size = add64 (nm * size) additional_size in
      let raw = a.calloc w.calls total_size in
      let allocated = called (calloc_call total_size raw) w in
      let user_ptr = add64 raw additional_size in
      let early = mmap_malloc (nm * size) w in
      if leb (2 ^ 64) (nm * size)
      then (w, 0)
      else if w.initialised
      then (if raw == 0
          then (allocated, 0)
          else (track_allocation user_ptr (nm * size) additional_size allocated, user_ptr))
      else early

  -- The result code and `*memptr`, which a failed call leaves as the C library does.
  unfoldable pub hawk_posix_memalign : ℕ → ℕ → World → World × (ℕ × ℕ)
  hawk_posix_memalign alignment size w =
      let aligned_size = align_ceil additional_size alignment in
      let total_size = add64 size aligned_size in
      let (res, raw) = a.posix_memalign w.calls alignment total_size in
      let allocated = called (posix_memalign_call alignment total_size raw) w in
      let user_ptr = add64 raw aligned_size in
      let (early, early_ptr) = mmap_alloc_aligned size alignment w in
      if w.initialised
      then (if res == 0
          then (track_allocation user_ptr size (u32 aligned_size) allocated, (res, user_ptr))
          else (allocated, (res, raw)))
      else (early, (0, early_ptr))

  -- A block from before the initialisation, moved to one from `alloc`.
  unfoldable pub move_mapped : (ℕ → World → World × ℕ) → ℕ → ℕ → AllocInfo → World → World × ℕ
  move_mapped alloc ptr size info w =
      let (w', moved) = alloc size w in
      let copied = called (memcpy_call moved ptr (min info.size size)) w' in
      if moved == 0 then (w', 0) else (mmap_free (sub64 ptr info.offset) info copied, moved)

  unfoldable pub mmap_realloc : ℕ → ℕ → World → Option (World × ℕ)
  mmap_realloc ptr size w = if ptr == 0 then some (mmap_malloc size w) else elim (header ptr w) [
    | none ↦ none
    | some info ↦ some (move_mapped mmap_malloc ptr size info w)
  ]

  unfoldable pub hawk_realloc : ℕ → ℕ → World → Option (World × ℕ)
  hawk_realloc ptr size w =
      let early = mmap_realloc ptr size w in
      if w.initialised
      then if ptr == 0 then some (hawk_malloc size w) else elim (header ptr w) [
        | none ↦ none
        | some prev ↦
            let orig = sub64 ptr prev.offset in
            let total_size = add64 size prev.offset in
            let raw = a.realloc w.calls orig total_size in
            let reallocated = called (realloc_call orig total_size raw) w in
            let user_ptr = add64 raw prev.offset in
            if prev.trace_id == invalid_trace_id
            then some (move_mapped hawk_malloc ptr size prev w)
            else if raw == 0
            then some (reallocated, 0)
            else some (track_reallocation user_ptr size prev.offset prev reallocated, user_ptr)
      ]
      else early

  unfoldable pub hawk_valloc : ℕ → World → Option (World × ℕ)
  hawk_valloc size w =
      if not w.initialised || a.page_size == 0
      then none
      else some (hawk_aligned_alloc a.page_size size w)

  unfoldable pub hawk_pvalloc : ℕ → World → Option (World × ℕ)
  hawk_pvalloc size w =
      if not w.initialised || a.page_size == 0
      then none
      else some (hawk_aligned_alloc a.page_size (align_ceil size a.page_size) w)

  unfoldable pub hawk_malloc_usable_size : ℕ → World → Option ℕ
  hawk_malloc_usable_size ptr w = elim (header ptr w) [ none ↦ none | some info ↦ some info.size ]

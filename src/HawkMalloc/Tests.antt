-- ===== src/HawkMalloc/Tests.antt =====
-- The hooks against a C library and a kernel that answer with fixed addresses.
use mem_hawk.Prelude.{ℕ, min, inl, inr, ◌%◌, [], ◌∷◌, ◌≡◌, refl, arith, true, false, some}
use mem_hawk.Prelude.Maps.{find?}
use mem_hawk.AllocInfo.{AllocInfo}
use mem_hawk.HawkMalloc.{
  Answers, World, header, called, reported, hawk_malloc, hawk_free, mmap_malloc, mmap_free,
  mmap_alloc_aligned, hawk_aligned_alloc, malloc_call, mmap_call, munmap_call, free_call,
  track_dealloc_call, track_alloc_call, hawk_realloc, memcpy_call,
}
use mem_hawk.HawkMalloc.Blocks.{
  Block, IsUserPtr, mmap_malloc-IsUserPtr, hawk_malloc-IsUserPtr, hawk_free-IsUserPtr,
}
use mem_hawk.HawkMalloc.Moves.{hawk_realloc_mapped-IsUserPtr}
use mem_hawk.HawkMalloc.Aligned.{mmap_alloc_aligned-IsUserPtr, hawk_aligned_alloc-IsUserPtr}

abbrev answers : Answers
answers = record {
  malloc = λ calls size. 0x1000;
  calloc = λ calls size. 0x2000;
  aligned_alloc = λ calls align size. 0x4000;
  posix_memalign = λ calls align size. (0, 0x5000);
  realloc = λ calls ptr size. 0x6000;
  mmap = λ calls size. 0x7001;
  page_size = 4096;
  trace_id = λ calls. 5;
}

abbrev ready : World
ready = record { initialised = true; memhawk_ready = true; headers = []; calls = [] }

abbrev starting : World
starting = record { initialised = false; memhawk_ready = false; headers = []; calls = [] }

-- A block from before the initialisation is unmapped whole, whenever it is released.
unmapped :
    hawk_free answers 0x7040
      (record (mmap_alloc_aligned answers 40 64 starting).0 { initialised = true })
    ≡ some (record {
      initialised = true;
      memhawk_ready = false;
      headers = (0x7030, record { size = 57; offset = 63; trace_id = 0xffff_ffff }) ∷ [];
      calls = munmap_call 0x7001 120 ∷ mmap_call 120 0x7001 ∷ [];
    })
unfolding hawk_free mmap_alloc_aligned mmap_free find?
unmapped = refl

mmap_malloc-IsUserPtr_example :
    IsUserPtr
      (mmap_malloc answers 40 starting).1
      40
      (record { start = 0x7001; bytes = 56; is_mapped = true })
      (mmap_malloc answers 40 starting).0
mmap_malloc-IsUserPtr_example =
    mmap_malloc-IsUserPtr answers 40 starting (omega arith) (omega arith)

hawk_malloc-IsUserPtr_example :
    IsUserPtr
      (hawk_malloc answers 40 ready).1
      40
      (record { start = 0x1000; bytes = 56; is_mapped = false })
      (hawk_malloc answers 40 ready).0
hawk_malloc-IsUserPtr_example =
    hawk_malloc-IsUserPtr answers 40 ready refl (omega arith) (omega arith) (omega arith)
      (λ calls. omega arith)

-- The block that a request of 40 bytes gets, and its release.
abbrev block : Block
block = record { start = 0x1000; bytes = 56; is_mapped = false }

abbrev after_malloc : World
after_malloc = record {
  initialised = true;
  memhawk_ready = true;
  headers = (0x1000, record { size = 40; offset = 16; trace_id = 5 }) ∷ [];
  calls =
      track_alloc_call (record { size = 40; offset = 16; trace_id = 5 })
      ∷ malloc_call 56 0x1000
      ∷ [];
}

block-IsUserPtr : IsUserPtr 0x1010 40 block after_malloc
unfolding find?
block-IsUserPtr = record {
  info = record { size = 40; offset = 16; trace_id = 5 };
  written = refl;
  not_null = omega arith;
  room_for_header = omega arith;
  room_for_user = omega arith;
  usable = omega arith;
  start = refl;
  mapped_bytes = inl refl;
  marked = refl;
}

hawk_free-IsUserPtr_example :
    (info : AllocInfo) × (header 0x1010 after_malloc ≡ some info)
    × (hawk_free answers 0x1010 after_malloc
        ≡ some (called (free_call 0x1000) (reported (track_dealloc_call info) after_malloc)))
hawk_free-IsUserPtr_example =
    hawk_free-IsUserPtr answers 0x1010 40 block after_malloc refl block-IsUserPtr

mmap_alloc_aligned-IsUserPtr_example :
    ((mmap_alloc_aligned answers 40 64 starting).1 % 64 ≡ 0)
    × IsUserPtr
        (mmap_alloc_aligned answers 40 64 starting).1
        40
        (record { start = 0x7001; bytes = 120; is_mapped = true })
        (mmap_alloc_aligned answers 40 64 starting).0
mmap_alloc_aligned-IsUserPtr_example =
    mmap_alloc_aligned-IsUserPtr answers 64 40 starting (omega arith) (omega arith) (omega arith)

hawk_aligned_alloc-IsUserPtr_example :
    ((hawk_aligned_alloc answers 64 40 ready).1 % 64 ≡ 0)
    × IsUserPtr
        (hawk_aligned_alloc answers 64 40 ready).1
        40
        (record { start = 0x4000; bytes = 104; is_mapped = false })
        (hawk_aligned_alloc answers 64 40 ready).0
hawk_aligned_alloc-IsUserPtr_example =
    hawk_aligned_alloc-IsUserPtr answers 64 40 ready refl (omega arith) (omega arith) (omega arith)
      (omega arith) refl (λ calls. omega arith)

-- The header of a block of 40 bytes from before the initialisation, and of one of the C library.
abbrev early_info : AllocInfo
early_info = record { size = 40; offset = 16; trace_id = 0xffff_ffff }

abbrev heap_info : AllocInfo
heap_info = record { size = 40; offset = 16; trace_id = 5 }

abbrev with_header : ℕ → AllocInfo → World
with_header address info = record ready { headers = (address, info) ∷ [] }

abbrev early_block : Block
early_block = record { start = 0x7000; bytes = 56; is_mapped = true }

abbrev heap_block : Block
heap_block = record { start = 0x1000; bytes = 56; is_mapped = false }

abbrev early_ptr : IsUserPtr 0x7010 40 early_block (with_header 0x7000 early_info)
unfolding find?
early_ptr = record {
  info = early_info;
  written = refl;
  not_null = omega arith;
  room_for_header = omega arith;
  room_for_user = omega arith;
  usable = omega arith;
  start = refl;
  mapped_bytes = inr refl;
  marked = refl;
}

abbrev heap_ptr : IsUserPtr 0x1010 40 heap_block (with_header 0x1000 heap_info)
unfolding find?
heap_ptr = record {
  info = heap_info;
  written = refl;
  not_null = omega arith;
  room_for_header = omega arith;
  room_for_user = omega arith;
  usable = omega arith;
  start = refl;
  mapped_bytes = inl refl;
  marked = refl;
}

hawk_realloc_mapped-IsUserPtr_example :
    (info : AllocInfo) × (header 0x7010 (with_header 0x7000 early_info) ≡ some info)
    × (w' : World) × (new : ℕ) × (hawk_malloc answers 100 (with_header 0x7000 early_info)
        ≡ (w', new))
    × (hawk_realloc answers 0x7010 100 (with_header 0x7000 early_info)
        ≡ some (
          called (munmap_call 0x7000 56) (called (memcpy_call new 0x7010 (min info.size 100)) w'),
          new,
        ))
    × IsUserPtr new 100
        (record { start = 0x1000; bytes = 116; is_mapped = false })
        (called (munmap_call 0x7000 56) (called (memcpy_call new 0x7010 (min info.size 100)) w'))
hawk_realloc_mapped-IsUserPtr_example =
    hawk_realloc_mapped-IsUserPtr answers 0x7010 40 100 early_block (with_header 0x7000 early_info)
      refl early_ptr refl (omega arith) (omega arith) (omega arith) (λ calls. omega arith)

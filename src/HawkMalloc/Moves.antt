-- ===== src/HawkMalloc/Moves.antt =====
-- `hawk_realloc` of source/memhawk/src/hawk_malloc.cpp for blocks that were handed out before the
-- initialisation.
use mem_hawk.Prelude.{
  ℕ, ◌+◌, ◌^◌, ◌<◌, ◌≡◌, ◌≢◌, refl, ap, ◌∙◌, arith, List, Bool, true, false, some, add64, sub64,
  min, inl, inr, ◌==◌, if◌then◌else◌,
}
use mem_hawk.AllocInfo.{AllocInfo}
use mem_hawk.HawkMalloc.{
  Call, World, Answers, invalid_trace_id, header, called, move_mapped, mmap_free, hawk_malloc,
  hawk_realloc, munmap_call, memcpy_call,
}
use mem_hawk.HawkMalloc.Blocks.{Block, IsUserPtr, hawk_malloc-IsUserPtr}

if_true : {A : Type 0} (b : Bool) (x y : A) → b ≡ true → (if b then x else y) ≡ x
if_true b x y e = ap (λ c. if c then x else y) e

module _ (a : Answers) where
  hawk_realloc_moves :
      (ptr size : ℕ) (w : World) (info : AllocInfo)
      → w.initialised ≡ true
      → ptr ≢ 0
      → header ptr w ≡ some info
      → (info.trace_id == invalid_trace_id) ≡ true
      → (hawk_malloc a size w).1 ≢ 0
      → hawk_realloc a ptr size w
        ≡ some (
          called (munmap_call (sub64 ptr info.offset) (add64 info.size info.offset)) (
              called
                (memcpy_call (hawk_malloc a size w).1 ptr (min info.size size))
                (hawk_malloc a size w).0),
          (hawk_malloc a size w).1,
        )
  unfolding hawk_realloc move_mapped mmap_free
  hawk_realloc_moves ptr size w info ready not_null written mapped got =
      let given : (ptr == 0) ≡ false = ground (arith, not_null) in
      let moved : ((hawk_malloc a size w).1 == 0) ≡ false = ground (arith, got) in
      if_true w.initialised _ _ ready ∙ rw (given, written, mapped, moved) refl

  -- After the initialisation `hawk_realloc` of a user's pointer to a mapped block, one that was handed out
  -- before the initialisation, takes a new block from the C library, copies as many bytes into it as
  -- the smaller of the old size in the header and the new size, and then unmaps the old block whole. It returns a user's pointer
  -- into the new block, which holds the header and the bytes that are asked for. The conditions are those of
  -- `hawk_malloc`: the requested size stays below 2 ^ 64 together with the header's, the C library gives a
  -- block, which ends below 2 ^ 64, and the profiler never saves the reserved trace id.
  pub hawk_realloc_mapped-IsUserPtr :
      (ptr old_size size : ℕ) (b : Block) (w : World)
      → w.initialised ≡ true
      → IsUserPtr ptr old_size b w
      → b.is_mapped ≡ true
      → size + 16 < 2 ^ 64
      → 0 < a.malloc w.calls (size + 16)
      → a.malloc w.calls (size + 16) + (size + 16) < 2 ^ 64
      → ((calls : List Call) → a.trace_id calls ≢ invalid_trace_id)
      → (info : AllocInfo) × (header ptr w ≡ some info)
        × (w' : World) × (new : ℕ) × (hawk_malloc a size w ≡ (w', new))
        × (hawk_realloc a ptr size w
            ≡ some (
              called
                  (munmap_call b.start b.bytes)
                  (called (memcpy_call new ptr (min info.size size)) w'),
              new,
            ))
        × IsUserPtr new size
            (record { start = a.malloc w.calls (size + 16); bytes = size + 16; is_mapped = false })
            (called
              (munmap_call b.start b.bytes)
              (called (memcpy_call new ptr (min info.size size)) w'))
  hawk_realloc_mapped-IsUserPtr ptr old_size size b w ready p mapped fits pos inside ids =
      let n = hawk_malloc-IsUserPtr a size w ready fits pos inside ids in
      let bytes : add64 p.info.size p.info.offset ≡ b.bytes = elim p.mapped_bytes [
        | inl other ↦ absurd (cc)
        | inr e ↦ e
      ] in
      (
        p.info,
        p.written,
        (hawk_malloc a size w).0,
        (hawk_malloc a size w).1,
        refl,
        hawk_realloc_moves ptr size w p.info ready p.not_null p.written (p.marked ∙ mapped)
              n.not_null
            ∙ (λ i. some (
              called (munmap_call (p.start i) (bytes i)) (
                  called (memcpy_call (hawk_malloc a size w).1 ptr (min p.info.size size))
                    (hawk_malloc a size w).0),
              (hawk_malloc a size w).1,
            )),
        record {
          info = n.info;
          written = n.written;
          not_null = n.not_null;
          room_for_header = n.room_for_header;
          room_for_user = n.room_for_user;
          usable = n.usable;
          start = n.start;
          mapped_bytes = n.mapped_bytes;
          marked = n.marked;
        },
      )

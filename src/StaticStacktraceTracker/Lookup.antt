-- ===== src/StaticStacktraceTracker/Lookup.antt =====
-- `GetStacktraceFromId` against `InsertStacktrace`
-- (source/memhawk/src/impl/trackers/stacktrace_tracker_static.cpp).
use Prim.Native.Nat.{bit_xor}
use mem_hawk.Prelude.{
  ℕ, ◌^◌, ◌≤◌, ◌<◌, ◌≡◌, ◌⊎◌, refl, ap, ◌∙◌, arith, List, some, length, get_elem?, take,
  length-take, Option-cases, inl, inr, get_elem?-lt, take-ge,
}
use mem_hawk.BitPacking.Compression.{decompress}
use mem_hawk.BitPacking.RoundTrip.{AllBelow}
use mem_hawk.StacktraceTracker.{missing, found}
use mem_hawk.StaticStacktraceTracker.{
  TraceElement, Tracker, words, insert_stacktrace, get_stacktrace, get_stacktrace_from_id,
  fixed_tracker_id_flag, unknown_trace_id, is_fixed_tracker_id,
}
use mem_hawk.StaticStacktraceTracker.Ids.{flagged_index}
use mem_hawk.StaticStacktraceTracker.Insertion.{
  IsValid, Extends, Extends-refl, HasRoom, IsStored, IsRefused, compressed-trace,
  insert_stacktrace_unlocked-IsStored,
}

-- What an id of this tracker stands for.
get_stacktrace_from_id_entry :
    (i : ℕ) (e : TraceElement) (fs : List ℕ) (t : Tracker)
    → i < 512
    → get_elem? t.elements i ≡ some e
    → decompress (words e t.storage) ≡ some fs
    → length fs ≤ 6
    → get_stacktrace_from_id (bit_xor i fixed_tracker_id_flag) t ≡ found fs
unfolding get_stacktrace_from_id get_stacktrace
get_stacktrace_from_id_entry i e fs t small here whole short =
    let (back, flagged) = flagged_index i (omega arith) in
    let inside = get_elem?-lt t.elements i e here in
    let kept = take-ge fs 64 (omega arith) in
    rw (flagged, back) (ground (arith, here, whole, kept, inside))

-- The frames that the tracker keeps of a trace.
abbrev pub kept : List ℕ → List ℕ
kept frames = take 6 frames

Extends-lookup :
    (i : ℕ) (fs : List ℕ) (t t' : Tracker)
    → Extends t t'
    → get_stacktrace_from_id i t ≡ found fs
    → get_stacktrace_from_id i t' ≡ found fs
unfolding get_stacktrace_from_id get_stacktrace
Extends-lookup i fs t t' x h =
    let index = bit_xor i fixed_tracker_id_flag in
    elim (Option-cases (get_elem? t.elements index)) [
      | inl gone ↦ absurd (ground (arith, gone))
      | inr (e, here) ↦
          let there = x.elements_kept index e here in
          ground (
            arith,
            here,
            there,
            ap decompress (x.words_kept index e here),
            get_elem?-lt t'.elements index e there,
          )
    ]

module _ (xxh3 : List ℕ → ℕ) where
  stored-lookup :
      (frames : List ℕ) (t : Tracker)
      → AllBelow (2 ^ 64) (kept frames)
      → (r : IsStored xxh3 (kept frames) t)
      → get_stacktrace_from_id
          (insert_stacktrace xxh3 frames t).1
          (insert_stacktrace xxh3 frames t).0
        ≡ found (kept frames)
  unfolding insert_stacktrace
  stored-lookup frames t w r =
      let short : length (kept frames) ≤ 6 = omega (arith, length-take 6 frames) in
      let whole : decompress (words r.element r.after.storage) ≡ some (kept frames) =
        ap decompress r.holds ∙ (compressed-trace (kept frames) w short).0 in
      let inside : r.index < 512 =
        omega (arith, get_elem?-lt r.after.elements r.index r.element r.here, r.valid.few) in
      rw r.returns (
        get_stacktrace_from_id_entry r.index r.element (kept frames) r.after inside r.here whole
          short)

  refused-lookup :
      (frames : List ℕ) (t : Tracker)
      → IsValid t
      → (r : IsRefused xxh3 (kept frames) t)
      → (insert_stacktrace xxh3 frames t ≡ (t, unknown_trace_id))
        × (get_stacktrace_from_id unknown_trace_id t ≡ missing)
  unfolding insert_stacktrace get_stacktrace_from_id is_fixed_tracker_id
  refused-lookup frames t v r = (rw r.returns refl, ground (arith, v.few))

  -- An `InsertStacktrace` into a valid tracker, of a trace of 64-bit frames, returns an id that stands
  -- for the trace's first 6 frames; or there is no room for another trace, the tracker stays as it
  -- is, and the id is the one that stands for no trace.
  pub get_stacktrace_from_id-insert_stacktrace_static :
      (frames : List ℕ) (t : Tracker)
      → IsValid t
      → AllBelow (2 ^ 64) (kept frames)
      → (get_stacktrace_from_id
            (insert_stacktrace xxh3 frames t).1
            (insert_stacktrace xxh3 frames t).0
          ≡ found (kept frames))
        ⊎ ((¬ HasRoom t)
            × (insert_stacktrace xxh3 frames t ≡ (t, unknown_trace_id))
            × (get_stacktrace_from_id unknown_trace_id t ≡ missing))
  get_stacktrace_from_id-insert_stacktrace_static frames t v w =
      elim (insert_stacktrace_unlocked-IsStored xxh3 (kept frames) t v w
        (omega (arith, length-take 6 frames))) [
          | inl r ↦ inl (stored-lookup frames t w r)
          | inr r ↦
              let (same, none_there) = refused-lookup frames t v r in inr (r.full, same, none_there)
        ]

  pub insert_stacktrace-Extends :
      (frames : List ℕ) (t : Tracker)
      → IsValid t
      → AllBelow (2 ^ 64) (kept frames)
      → IsValid (insert_stacktrace xxh3 frames t).0 × Extends t (insert_stacktrace xxh3 frames t).0
  unfolding insert_stacktrace
  insert_stacktrace-Extends frames t v w =
      elim (insert_stacktrace_unlocked-IsStored xxh3 (kept frames) t v w
        (omega (arith, length-take 6 frames))) [
          | inl r ↦ rw r.returns (r.valid, r.extends)
          | inr r ↦ rw r.returns (v, Extends-refl t)
        ]

  -- `InsertStacktrace` of a trace of 64-bit frames keeps a valid tracker valid, and every id that
  -- stands for a trace still does.
  pub get_stacktrace_from_id_static_stable :
      (i : ℕ) (fs frames : List ℕ) (t : Tracker)
      → IsValid t
      → AllBelow (2 ^ 64) (kept frames)
      → get_stacktrace_from_id i t ≡ found fs
      → IsValid (insert_stacktrace xxh3 frames t).0
        × (get_stacktrace_from_id i (insert_stacktrace xxh3 frames t).0 ≡ found fs)
  get_stacktrace_from_id_static_stable i fs frames t v w h =
      let (valid, extends) = insert_stacktrace-Extends frames t v w in
      (valid, Extends-lookup i fs t (insert_stacktrace xxh3 frames t).0 extends h)

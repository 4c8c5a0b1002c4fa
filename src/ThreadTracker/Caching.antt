-- ===== src/ThreadTracker/Caching.antt =====
-- `SaveTraceId` of source/memhawk/src/impl/thread_tracker.cpp: the cache of trace ids against the
-- tracker of traces.
use mem_hawk.Prelude.{
  ℕ, ◌≤◌, ◌≡◌, ap, ◌∙◌, arith, List, add64, Option, none, some, length, Option-cases, inl, inr,
}
use mem_hawk.AllocInfo.{AllocInfo}
use mem_hawk.LruCache.{Cache, find, touch}
use mem_hawk.LruCache
use mem_hawk.LruCache.Behaviour.{IsCache}
use mem_hawk.LruCache.Contents.{AllHold, touch_hit-AllHold, touch_miss, insert_new-AllHold}
use mem_hawk.Collapse.{collapse_recursion_opt, kept_frames}
use mem_hawk.Collapse.Bounds.{kept_frames_lem}
use mem_hawk.StacktraceTracker.{Storage, found, insert_stacktrace, get_stacktrace_from_id}
use mem_hawk.StacktraceTracker.Loop.{non_null}
use mem_hawk.StacktraceTracker.Insertion.{IsValid, HasIdsFor}
use mem_hawk.StacktraceTracker.Lookup.{
  insert_stacktrace-IsValid, get_stacktrace_from_id-insert_stacktrace,
  get_stacktrace_from_id_stable,
}
use mem_hawk.ThreadTracker.{
  CompressedStacktrace, Tracker, Saved, no_trace, same_trace, compress_trace, save_new_trace,
  save_trace_id,
}

abbrev pub collapsed : ℕ → List ℕ → List ℕ
collapsed depth frames = kept_frames (collapse_recursion_opt frames depth)

-- The frames that the profiler attributes an event to.
abbrev pub attributed : ℕ → List ℕ → List ℕ
attributed depth frames = non_null (collapsed depth frames)

-- An id stands for the collapsed frames.
abbrev pub StandsFor : ℕ → Storage → List ℕ → ℕ → Type 0
StandsFor depth s frames id = get_stacktrace_from_id id s ≡ found (attributed depth frames)

-- Every cached id stands for its key's frames.
pub record IsCached (t : Tracker) (s : Storage) : Type 0 where
  pub cache : IsCache same_trace t.lru_stacktraces
  pub sound :
      AllHold same_trace
        (λ key id. StandsFor t.collapse_depth s key.trace_data id)
        t.lru_stacktraces.index

module _ (xxh3 : List ℕ → ℕ) where
  -- What `SaveTraceId` leaves.
  pub record IsSaved (info : AllocInfo) (frames : List ℕ) (t : Tracker) (s : Storage) : Type 0 where
    pub out : Saved xxh3
    pub returns : save_trace_id xxh3 info frames t s ≡ some out
    pub stands_for : StandsFor t.collapse_depth out.storage frames out.info.trace_id
    pub cached : IsCached out.tracker out.storage
    pub valid : IsValid out.storage

  -- The tracker after the first steps of `SaveTraceId`.
  abbrev used : List ℕ → Cache CompressedStacktrace ℕ → Tracker → Tracker
  used frames lru t = record t {
    cache_usages = add64 t.cache_usages 1;
    local_compressed = compress_trace xxh3 frames;
    lru_stacktraces = lru;
  }

  save_trace_id_touched :
      (info : AllocInfo) (frames : List ℕ) (t : Tracker) (s : Storage) (id : ℕ)
      (lru : Cache CompressedStacktrace ℕ)
      → touch same_trace (compress_trace xxh3 frames) t.lru_stacktraces ≡ (lru, some id)
      → save_trace_id xxh3 info frames t s
        ≡ some (record {
          tracker = used frames lru t;
          storage = s;
          info = record info { trace_id = id };
        })
  unfolding save_trace_id
  save_trace_id_touched info frames t s id lru e = ground (arith, e)

  save_trace_id_missed :
      (info : AllocInfo) (frames : List ℕ) (t : Tracker) (s : Storage)
      → touch same_trace (compress_trace xxh3 frames) t.lru_stacktraces ≡ (t.lru_stacktraces, none)
      → save_trace_id xxh3 info frames t s
        ≡ save_new_trace xxh3 info frames (used frames t.lru_stacktraces t) s
  unfolding save_trace_id
  save_trace_id_missed info frames t s e = ground (arith, e)

  -- What a miss leaves, for the new trace in the storage `s` under the id.
  abbrev new_saved :
      AllocInfo
      → Tracker
      → Storage
      → ℕ
      → Cache CompressedStacktrace ℕ
      → Option CompressedStacktrace
      → Saved xxh3
  new_saved info t s id lru evicted = record {
    tracker = record t {
      cache_misses = add64 t.cache_misses 1;
      lru_stacktraces = lru;
      local_compressed = elim evicted [ some key ↦ key | none ↦ no_trace ];
    };
    storage = s;
    info = record info { trace_id = id };
  }

  save_new_trace_inserted :
      (info : AllocInfo) (frames : List ℕ) (t : Tracker) (s : Storage)
      (lru : Cache CompressedStacktrace ℕ) (evicted : Option CompressedStacktrace)
      → LruCache.insert same_trace t.local_compressed
          (insert_stacktrace (collapsed t.collapse_depth frames) s).1
          t.lru_stacktraces
        ≡ some (lru, evicted)
      → save_new_trace xxh3 info frames t s
        ≡ some (
            new_saved info t
              (insert_stacktrace (collapsed t.collapse_depth frames) s).0
              (insert_stacktrace (collapsed t.collapse_depth frames) s).1
              lru
              evicted)
  unfolding save_new_trace
  save_new_trace_inserted info frames t s lru evicted e =
      ap
        (λ (r : Option (Cache CompressedStacktrace ℕ × Option CompressedStacktrace)). elim r [
          | none ↦ none
          | some (lru', evicted') ↦ some (
              new_saved info t (insert_stacktrace (collapsed t.collapse_depth frames) s).0
                (insert_stacktrace (collapsed t.collapse_depth frames) s).1 lru' evicted')
        ])
        e

  save_trace_id_hit :
      (info : AllocInfo) (frames : List ℕ) (t : Tracker) (s : Storage) (id : ℕ)
      → IsValid s
      → IsCached t s
      → find same_trace (compress_trace xxh3 frames) t.lru_stacktraces.index ≡ some id
      → IsSaved info frames t s
  save_trace_id_hit info frames t s id v c hit =
      let (lru, touched, i, h) =
        touch_hit-AllHold same_trace (λ key j. StandsFor t.collapse_depth s key.trace_data j)
          (compress_trace xxh3 frames) id t.lru_stacktraces c.cache c.sound hit in
      record {
        out = record {
          tracker = used frames lru t;
          storage = s;
          info = record info { trace_id = id };
        };
        returns = save_trace_id_touched info frames t s id lru touched;
        stands_for = c.sound (compress_trace xxh3 frames) id hit;
        cached = record { cache = i; sound = h };
        valid = v;
      }

  save_trace_id_miss :
      (info : AllocInfo) (frames : List ℕ) (t : Tracker) (s : Storage)
      → IsValid s
      → length (collapsed t.collapse_depth frames) ≤ 64
      → HasIdsFor (collapsed t.collapse_depth frames) s
      → IsCached t s
      → find same_trace (compress_trace xxh3 frames) t.lru_stacktraces.index ≡ none
      → IsSaved info frames t s
  save_trace_id_miss info frames t s v short room c miss =
      let trace = collapsed t.collapse_depth frames in
      let (s', id) = insert_stacktrace trace s in
      let stands = get_stacktrace_from_id-insert_stacktrace trace s v short room in
      let (lru, evicted, inserted, i, h) =
        insert_new-AllHold same_trace (λ key j. StandsFor t.collapse_depth s' key.trace_data j)
          (compress_trace xxh3 frames) id t.lru_stacktraces c.cache
          (λ key j e.
            get_stacktrace_from_id_stable j (attributed t.collapse_depth key.trace_data) trace s v
              short room (c.sound key j e))
          stands miss in
      record {
        out = new_saved info (used frames t.lru_stacktraces t) s' id lru evicted;
        returns =
            save_trace_id_missed info frames t s (touch_miss same_trace _ t.lru_stacktraces miss)
            ∙ save_new_trace_inserted info frames (used frames t.lru_stacktraces t) s lru evicted
                inserted;
        stands_for = stands;
        cached = record { cache = i; sound = h };
        valid = insert_stacktrace-IsValid trace s v short room;
      }

  -- With a cache that has room for an entry and holds for every key an id of the key's collapsed
  -- frames, and a valid storage, `SaveTraceId` never faults on a trace of at most 64 frames, as long as `uint32_t` ids are
  -- left. The id that it saves, from the cache or new, stands for the trace's collapsed frames
  -- without the null ones, and the cache and the storage stay so.
  pub save_trace_id-IsSaved :
      (info : AllocInfo) (frames : List ℕ) (t : Tracker) (s : Storage)
      → IsValid s
      → length frames ≤ 64
      → HasIdsFor frames s
      → IsCached t s
      → IsSaved info frames t s
  save_trace_id-IsSaved info frames t s v short room c =
      elim (Option-cases (find same_trace (compress_trace xxh3 frames) t.lru_stacktraces.index)) [
        | inr (id, hit) ↦ save_trace_id_hit info frames t s id v c hit
        | inl miss ↦
            let (kept, fewer, one) = kept_frames_lem frames t.collapse_depth in
            save_trace_id_miss info frames t s v (omega arith)
              (omega (arith, room.0), omega (arith, room.1)) c miss
      ]

-- ===== src/StaticStacktraceTracker.antt =====
-- `StaticStacktraceTracker` of source/memhawk/src/impl/trackers/stacktrace_tracker_static.{h,cpp}.
--
-- Each public method holds the tracker's lock for its whole body, so a method is one step.
-- `elements` and `storage` are the used parts of the two static arrays, so their lengths are the
-- counters `m_size` and `m_storageSize`. A span into the storage is the index of its first word and the
-- number of its words. The arrays for a compressed and for a decompressed trace are cleared at each
-- use, so they are no state. The hash is a parameter. The destructor's dump only prints.
pub mod Ids
pub mod Entries
pub mod Insertion
pub mod Lookup
mod Tests
use mem_hawk.Prelude.{
  ℕ, suc, ◌+◌, ◌*◌, ◌<◌, List, [], ◌∷◌, ◌++◌, Option, none, some, Bool, true, false, ◌&&◌, ◌==◌,
  not, bit_and, ltb, leb, if◌then◌else◌, length, get_elem?, take, drop, replicate,
}
use Prim.Native.Nat.{bit_xor}
use mem_hawk.BitPacking.Compression.{compress_into, decompress}
use mem_hawk.StacktraceTracker.{Found, missing, fault, found}

abbrev pub max_stacktrace_length : ℕ
max_stacktrace_length = 6

abbrev pub elements_count : ℕ
elements_count = 512

abbrev pub storage_size : ℕ
storage_size = elements_count * max_stacktrace_length * 2

abbrev pub fixed_tracker_id_flag : ℕ
fixed_tracker_id_flag = 0x8000_0000

abbrev pub unknown_trace_id : ℕ
unknown_trace_id = bit_xor (elements_count + 1) fixed_tracker_id_flag

pub record TraceElement : Type 0 where
  pub hash : ℕ
  pub begin : ℕ
  pub count : ℕ

pub record Tracker : Type 0 where
  pub elements : List TraceElement
  pub storage : List ℕ

abbrev pub new_tracker : Tracker
new_tracker = record { elements = []; storage = [] }

unfoldable pub is_fixed_tracker_id : ℕ → Bool
is_fixed_tracker_id trace_id = not (bit_and trace_id fixed_tracker_id_flag == 0)

-- The words of a span into the storage.
abbrev pub words : TraceElement → List ℕ → List ℕ
words e storage = take e.count (drop e.begin storage)

-- `==` of two spans.
unfoldable pub same_words : List ℕ → List ℕ → Bool
same_words [] [] = true
same_words [] (y ∷ ys) = false
same_words (x ∷ xs) [] = false
same_words (x ∷ xs) (y ∷ ys) = x == y && same_words xs ys

-- `boost::range::find`: the number of elements where there is none like it.
unfoldable pub find_element : ℕ → List ℕ → List ℕ → List TraceElement → ℕ
find_element hash trace storage [] = 0
find_element hash trace storage (e ∷ es) =
    if e.hash == hash && same_words (words e storage) trace
    then 0
    else suc (find_element hash trace storage es)

-- The words that `Compress` leaves in the cleared array `m_compressedTrace`.
unfoldable pub compressed : List ℕ → List ℕ
compressed span =
    let c = compress_into span (replicate (max_stacktrace_length * 8) 0) in take c.size c.mem

module _ (xxh3 : List ℕ → ℕ) where
  unfoldable pub add_element : List ℕ → Tracker → Tracker
  add_element trace t = record {
    elements =
        t.elements
        ++ (record { hash = xxh3 trace; begin = length t.storage; count = length trace } ∷ []);
    storage = t.storage ++ trace;
  }

  -- The tracker after the call, and the id that it returns.
  unfoldable pub insert_stacktrace_unlocked : List ℕ → Tracker → Tracker × ℕ
  insert_stacktrace_unlocked span t =
      let trace = compressed span in
      let index = find_element (xxh3 trace) trace t.storage t.elements in
      if index == length t.elements
      then (if ltb (length t.storage + length trace) storage_size
            && ltb (length t.elements + 1) elements_count
          then (add_element trace t, index)
          else (t, bit_xor unknown_trace_id fixed_tracker_id_flag))
      else (t, index)

  unfoldable pub insert_stacktrace : List ℕ → Tracker → Tracker × ℕ
  insert_stacktrace frames t =
      let (t', id) = insert_stacktrace_unlocked (take max_stacktrace_length frames) t in
      (t', bit_xor id fixed_tracker_id_flag)

-- `Stacktrace` keeps at most 64 frames. `none` is a fault of `Decompress`, or a missing element.
unfoldable pub get_stacktrace : ℕ → Tracker → Option (List ℕ)
get_stacktrace trace_id t = elim (get_elem? t.elements trace_id) [
  | none ↦ none
  | some e ↦ elim (decompress (words e t.storage)) [
    | none ↦ none
    | some trace ↦ some (take 64 trace)
  ]
]

unfoldable pub get_stacktrace_from_id : ℕ → Tracker → Found
get_stacktrace_from_id trace_id t =
    let index = bit_xor trace_id fixed_tracker_id_flag in
    if is_fixed_tracker_id trace_id
    then (if leb (length t.elements) index
        then missing
        else elim (get_stacktrace index t) [ none ↦ fault | some trace ↦ found trace ])
    else missing

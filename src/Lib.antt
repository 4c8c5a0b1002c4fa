-- ===== src/Lib.antt =====
-- MemHawk: a heap profiler that is preloaded into a process, modelled from its C++ sources.
--
-- A hook of the allocator (source/memhawk/src/hawk_malloc.cpp) puts a header in front of every block
-- and reports the block to the profiler. The report goes to the thread's tracker
-- (source/memhawk/src/impl/thread_tracker.cpp), which finds the id of the stack trace in its LRU cache or
-- asks the tracker of traces for it, and counts the event in the trace's summary. A worker thread
-- (source/memhawk/src/impl/memhawk.cpp) takes the summaries from the trackers as snapshots.
--
-- The files, and the code that they model:
--   Prelude          shared names, lists, words, binary digits, and maps as association lists
--   BitPacking       source/memhawk/src/impl/compression.{h,cpp}: EncodeBits, DecodeBits, Encode, Decode,
--                    Compress and Decompress, on 32-bit words and their wrap-around
--   StacktraceTree   source/memhawk/src/impl/stacktrace_tree.h: the tree of frames; `index` takes the
--                    callback for new nodes as an argument
--   StacktraceTracker  source/memhawk/src/impl/trackers/stacktrace_tracker.{h,cpp}: InsertStacktrace,
--                    GetStacktraceFromId
--   AllocInfo        source/memhawk/src/impl/alloc_info.h: the header of a block, and the summaries
--   LruCache         source/memhawk/src/impl/lru_cache.h: Insert, Touch, Erase, Size
--   Collapse         source/memhawk/src/impl/algo.cpp: CollapseRecursionOpt, CollapseRecursionAvx
--   ThreadTracker    source/memhawk/src/impl/thread_tracker.{h,cpp}: SaveTraceId, TrackAlloc, TrackDealloc,
--                    ConsumeDiff; of source/memhawk/src/impl/stacktrace.cpp, the compressed traces; of
--                    source/memhawk/src/impl/memhawk.cpp, WorkerAccountThreadTracker
--   HawkMalloc       source/memhawk/src/hawk_malloc.cpp: the hooks that allocate and release, before and
--                    after the initialisation
--   OwnedGuards      source/memhawk/src/impl/owned_guards.h: Register, Drain, the destructor of a guard, and
--                    the execution of callbacks, one step each
--   Postponed        source/memhawk/src/impl/memhawk.{h,cpp}: PostponeAlloc, PostponeDealloc, ProcessPostponed,
--                    and the branches of TrackAlloc and TrackDealloc for the profiler's own memory
--   StaticStacktraceTracker  source/memhawk/src/impl/trackers/stacktrace_tracker_static.{h,cpp}: the tracker of
--                    the profiler's own traces, over fixed arrays; it uses the bit packing
--   Stacktrace       source/memhawk/src/impl/stacktrace.{h,cpp}: the array of frames of one trace; Unwind, Skip,
--                    ShrinkBySize, ShrinkByPtr, CollapseRecursion
--   Flamegraph       source/flamegraph/src/graph.h: the compressed trie of the offline flame graph, Append
--   FlamegraphLines  source/flamegraph/src/main.cpp: parse_number, parse_line, and the loop of process over the
--                    lines; `std::from_chars` is written out
--   HeaptrackWriter  source/memhawk/src/impl/writers/heaptrack_writer.cpp: WriteHexValue
--   Registration     source/memhawk/src/impl/memhawk.{h,cpp}: RegisterThread, SetUpThreadTracker, ReclaimTracker
-- Names are the source's, in snake case.
--
-- State is passed explicitly. A method that holds a lock for its whole body is one step, so that the
-- steps of several threads are a sequence of calls; one that takes several locks in turn, as
-- ProcessPostponed does, is a step for each. An abort, and what the source leaves undefined, is `none` or a
-- value of its own, with these exceptions: in BitPacking, Collapse and Flamegraph a load outside of an
-- array is 0 and a store there does nothing, and a signed overflow wraps around.
--
-- Numbers are natural; `u8`, `u32`, `u64` and the operations on them write the wrap-around out. The
-- int64_t fields of a summary are kept by their bit patterns.
--
-- Fuel: the bit loops take the number of bits, since a round handles at least one of them; the walk
-- from a node to the root takes the node's id plus one, since a parent's id is smaller; the loops of
-- CollapseRecursionOpt take the number of rounds or of frames, those of CollapseRecursionAvx as much
-- as there are elements to compare; the loop of Append takes the length of the path plus two, since
-- every round but the first consumes an element; that of parse_line takes the number of characters
-- plus one; that of WriteHexValue one more than a 64-bit value has digits.
--
-- Parameters: the hash XXH3 of a trace; the vectors and intrinsics of AVX-512; the unwinder, and the
-- memory of a new trace; what the C library, mmap and getpagesize answer, and the trace id that the
-- profiler saves in a new header.
--
-- Not modelled: the unwinders, which are a library; the naive variant of the collapse; the external
-- branches of TrackAlloc and TrackRealloc, the worker's loop and the fork handlers of
-- source/memhawk/src/impl/memhawk.cpp; GetTop and RetrieveNodes of source/flamegraph/src/graph.h; the
-- configuration, the writers but for WriteHexValue, the locks themselves, logging, and the Rust
-- programs (source/rust), which process the output. The bytes of user memory are not modelled either.
pub mod Prelude
pub mod BitPacking
pub mod StacktraceTree
pub mod StacktraceTracker
pub mod AllocInfo
pub mod LruCache
pub mod Collapse
pub mod ThreadTracker
pub mod HawkMalloc
pub mod OwnedGuards
pub mod Postponed
pub mod HeaptrackWriter
pub mod StaticStacktraceTracker
pub mod Stacktrace
pub mod Flamegraph
pub mod FlamegraphLines
pub mod Registration

-- ===== src/Lib.antt =====
-- A model of the C template library's core modules: the allocators and the leak detector of
-- src/memory, the containers of src/containers, the range splitting, the queues and the thread
-- pool of src/hpc and the event loop of src/networking, with the matrices and the random numbers
-- of src/math, the data sets of src/ml, the paths of src/systems, the framebuffers of
-- src/rendering and the argument parser of src/cli, with the theorems that make them correct.
--
-- Paths below are from the repository's root. The header of a module (include/*.h) and its
-- implementation (src/*.c) are one file of the model, named for the module; its children hold
-- proofs.
--
--   Prelude            shared names, tests on numbers, lists indexed by native numbers
--   Bits               masks by powers of two, as bitwise operations on numbers of any size
--   Bytes              byte blocks: memcpy in and out, arrays of elements of elem_size bytes
--   Bytes/Heap         what is assumed of malloc
--   Bytes/Window       the elements that a circular buffer holds
--   Core/Error         include/core/error.h
--   Memory/Arena       src/memory/arena.c (arena_init, arena_alloc, arena_reset, arena_destroy)
--   Memory/Pool        src/memory/pool.c; Chain (the free list), Ops, Live (a pool in use), Safe
--   Memory/LeakDetect  src/memory/leak_detect.c; Track (the list as a map), Move (realloc)
--   Memory/Sample      a heap to run the functions on
--   Memory/Allocator   include/memory/allocator.h: a heap as function pointers; what realloc promises
--   Containers/Vec     src/containers/vec.c; Elements (lists of slots), Inv, Grow, Read
--   Containers/StrBuf  src/containers/strbuf.c; Ensure (the storage), Append, Text
--   Containers/StrView src/containers/str.c; Split (splitting), Compare (equality and trimming)
--   Containers/Queue   the bounded FIFO that the ring buffers promise
--   Containers/RingBuf src/containers/ringbuf.c
--   Containers/Hash    src/containers/hash.c
--   Containers/HashMap src/containers/hashmap.c; Slots (what an array of slots means), Probe, Table
--                      and Insert (the invariant), Rehash, Valid, Put, Remove, Iterate
--   Hpc/Parallel       src/hpc/parallel.c
--   Hpc/BlockingQueue  src/hpc/blocking_queue.c; Step (the turns of many threads), Refine and Wake (what a
--                      turn does and whom it wakes), Fifo (whole runs)
--   Hpc/Spsc           src/hpc/spsc.c; Step (the interleaved steps of two threads), Linear and Fifo
--                      (what they do to the queue), Calls (the functions as sequences of steps)
--   Hpc/ThreadPool     src/hpc/thread_pool.c; Step (submitters, workers and shutdown interleaved), Nodes
--                      (the linked list), Turns (one turn), Inv, Workers and Run (the invariant over
--                      whole runs), Effort and Finish (shutdown), Once (every task is run)
--   Math/Rng           src/math/rng.c, the integer part; Range (the rejection loop)
--   Math/MatX          src/math/matx.c; Loops, Elementwise, Tile and Boxes (the inner loops), Product
--   Ml/Dataset         src/ml/dataset.c; Rows (memcpy of rows), Rearrange and Shuffle, Batch
--   Networking/EventLoop  src/networking/event_loop.c; Poll (the round and its callbacks), Table and Unique
--                      (the entries as a map), Registry (add, mod, remove), Dispatch, Bounds
--                      (the capacity of the arrays), Round
--   Systems/Path       src/systems/path.c; Split (dirname, basename, ext), Join
--   Cli/ArgParse       src/cli/argparse.c; Trim and Config (lines of a configuration file), Load and
--                      Parse (the entries of a context), Resolve (where a value comes from), Limits
--   Rendering/Software src/rendering/software_renderer.c; Pixel (one pixel)
--
-- A function keeps its name without its module's prefix (ringbuf_push is RingBuf.push). A field or
-- parameter whose name is a word of the language or of this library is spelled out: `data` is
-- `bytes` and `cap` is `capacity`. The containers use core's error codes; the hash map hashes with
-- FNV-1a.
--
-- State is passed explicitly: an operation returns its result and the struct afterwards. A pointer
-- that the code compares with NULL is an Option, or an address with 0 for NULL. Numbers are
-- native; `size_t` arithmetic is taken modulo 2 ^ 64 where it could wrap, and the invariants show
-- where it does not. In the memory pool, the framebuffers, parallel_reduce, dataset_shuffle and the
-- event loop a write past the end of a block is part of the model: it changes the bytes there, gives
-- no result, or sets a flag. `malloc`, `calloc`, `realloc`, `strdup`, `vsnprintf`, `strtol`,
-- `isspace`, `getenv`, `getopt_long` and `pthread_create` are parameters: what they answer
-- is arbitrary, and what C promises of an answer that is not NULL is a named hypothesis (IsMalloc,
-- IsRealloc, IsStrdup, IsNew, Allocator). What a task of the thread pool does when it is called is
-- left open. The target has 64-bit pointers and a `size_t` of 64 bits.
--
-- The doubling loop of the string builder has 65 rounds, since a capacity of at least 1 doubles at
-- most 64 times before it is too large to double. Loops over slots and chunks recur on the rounds
-- left, as many as the C loop makes at most; the loop around hashmap_next takes fuel, and one
-- round more than there are slots is enough. The loop around poll, which an interrupt repeats, takes
-- fuel, and the theorems suppose that poll answers within it; the rejection loop of rng_range_u32 takes
-- a number of draws, and what is stated covers the case that all of them are discarded.
--
-- Not modelled: weak memory (the steps of the SPSC queue interleave in one order that both threads
-- see; the thread pool and the blocking queue are seen at their mutex) and real scheduling;
-- floating-point numbers (the arithmetic of src/math/matx.c is a parameter; the rest of src/math, of
-- src/ml and src/simulation is left out); input and output (help texts and src/cli/output.c, the
-- rest of src/networking, src/systems and src/rendering).
pub mod Prelude
pub mod Bits
pub mod Bytes
pub mod Core
pub mod Math
pub mod Ml
pub mod Memory
pub mod Networking
pub mod Rendering
pub mod Systems
pub mod Cli
pub mod Containers
pub mod Hpc

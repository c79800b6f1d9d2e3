-- ===== src/Hpc/Parallel.antt =====
-- src/hpc/parallel.c: how parallel_for and parallel_reduce split the range [0, n) into chunks. What
-- the threads library and malloc answer is a parameter; a chunk whose thread cannot be created is
-- run by the caller, and is not joined.
pub mod Partition
pub mod Reduce
mod Tests
use c_comprehensive_template.Prelude.{
  ℕ, zero, suc, ◌+◌, ◌-◌, ◌*◌, ◌/◌, ◌%◌, Bool, true, false, not, ◌&&◌, ◌||◌, List, [], ◌∷◌, map,
  ltb, leb, ◌==◌, if◌then◌else◌, size_max, size_mod, Option, none, some,
}

-- A call of the body: on a new thread, which is joined, or by the caller.
pub data Runner : Type 0 where
  spawned : Runner
  inline : Runner

pub record Chunk : Type 0 where
  pub runner : Runner
  pub start : ℕ
  pub end : ℕ

abbrev pub pthread_size : ℕ
pthread_size = 8

-- sizeof(ChunkArg)
abbrev pub chunk_arg_size : ℕ
chunk_arg_size = 32

-- sizeof(ReduceArg)
abbrev pub reduce_arg_size : ℕ
reduce_arg_size = 40

-- Round i of the loop and those after it, with the rounds left. `create i` is whether
-- pthread_create succeeds.
unfoldable pub chunks_from : (ℕ → Bool) → ℕ → ℕ → ℕ → ℕ → ℕ → List Chunk
chunks_from create zero i off size extra = []
chunks_from create (suc rounds) i off size extra =
    let end = off + size + (if ltb i extra then 1 else 0) in
    record { runner = if create i then spawned else inline; start = off; end = end }
    ∷ chunks_from create rounds (i + 1) end size extra

abbrev pub whole : ℕ → List Chunk
whole n = record { runner = inline; start = 0; end = n } ∷ []

abbrev pub clamp : ℕ → ℕ → ℕ
clamp threads n = if ltb n threads then n else threads

-- The calls of the body, in the order in which they are started. `room` is whether both mallocs
-- succeed.
unfoldable pub parallel_for : (ℕ → Bool) → Bool → ℕ → ℕ → List Chunk
parallel_for create room n threads =
    if n == 0 || threads == 0
    then []
    else let t = clamp threads n in
      if ltb (size_max / pthread_size) t || ltb (size_max / chunk_arg_size) t
      then whole n
      else if not room
      then whole n
      else chunks_from create t 0 0 (n / t) (n % t)

module _ {A : Type 0} (zero_value : A) (fn : ℕ → ℕ → A) (reduce : A → A → A) where
  -- The last loop: the results of the chunks, from the second on, into the running result.
  unfoldable pub fold_from : A → List Chunk → A
  fold_from acc [] = acc
  fold_from acc (c ∷ cs) = fold_from (reduce acc (fn c.start c.end)) cs

  -- The running result starts as 0.0, and round 0 sets it.
  unfoldable pub fold_chunks : List Chunk → A
  fold_chunks [] = zero_value
  fold_chunks (c ∷ cs) = fold_from (fn c.start c.end) cs

  -- `malloc i size` is whether the i-th malloc gives a block of this size. There is no result if the
  -- loop writes past the end of a block.
  unfoldable pub parallel_reduce : (ℕ → Bool) → (ℕ → ℕ → Bool) → ℕ → ℕ → Option A
  parallel_reduce create malloc n threads =
      if n == 0
      then some zero_value
      else if leb threads 1
      then some (fn 0 n)
      else let t = clamp threads n in
        let thread_bytes = t * pthread_size % size_mod in
        let arg_bytes = t * reduce_arg_size % size_mod in
        if not (malloc 0 thread_bytes) || not (malloc 1 arg_bytes)
        then some (fn 0 n)
        else if ltb thread_bytes (t * pthread_size) || ltb arg_bytes (t * reduce_arg_size)
        then none
        else some (fold_chunks (chunks_from create t 0 0 (n / t) (n % t)))

-- ===== src/Memory/Sample.antt =====
-- A heap of a kilobyte on which the functions that allocate can run.
use c_comprehensive_template.Prelude.{
  ℕ, ◌≡◌, Option, none, some, length, arith, replicate, ltb, if◌then◌else◌, length-replicate,
}
use c_comprehensive_template.Bytes.{Block, overwrite, length-overwrite, take-overwrite}
use c_comprehensive_template.Bytes.Heap.{IsMalloc}
use c_comprehensive_template.Memory.Allocator.{Realloc, IsRealloc, bytes_of}

abbrev pub small_heap : ℕ → Option Block
small_heap n = if ltb n 1024 then some (replicate n 0) else none

pub small_heap-IsMalloc : IsMalloc small_heap
small_heap-IsMalloc = record {
  sized = λ n b e. ground (arith, length-replicate {A = ℕ} n 0);
  bounded = λ n b e. ground arith;
}

abbrev pub small_realloc : Realloc
small_realloc o n = if ltb n 1024 then some (overwrite (replicate n 0) (bytes_of o)) else none

pub small_realloc-IsRealloc : IsRealloc small_realloc
small_realloc-IsRealloc = record {
  sized = λ o n b e.
      ground (arith, length-replicate {A = ℕ} n 0, length-overwrite (replicate n 0) (bytes_of o));
  bounded = λ o n b e. ground arith;
  kept = λ o n b e h.
      let sized : length (replicate {A = ℕ} n 0) ≡ n = length-replicate n 0 in
      let same = take-overwrite (replicate n 0) (bytes_of o) (omega (arith, sized)) in
      ground (arith, same);
}

-- ===== src/Memory/Allocator.antt =====
-- include/memory/allocator.h and src/memory/allocator.c: a heap that a container is given, as
-- function pointers that may be NULL (the containers call no `alloc`). A pointer to storage is the block of bytes it leads to, and
-- the context is part of the functions. The heap of the process is a parameter.
use c_comprehensive_template.Prelude.{
  ℕ, ◌≤◌, ◌<◌, ◌^◌, ◌≡◌, Bool, true, Option, none, some, [], take, length,
}
use c_comprehensive_template.Bytes.{Block}

abbrev pub Realloc : Type 0
Realloc = Option Block → ℕ → Option Block

-- `frees` is whether `free` is set.
pub record Allocator : Type 0 where
  pub realloc : Option Realloc
  pub frees : Bool

abbrev pub bytes_of : Option Block → Block
bytes_of none = []
bytes_of (some b) = b

-- What C promises of realloc: a block of the size that was asked for, within PTRDIFF_MAX, which
-- starts with the bytes of the old one.
pub record IsRealloc (realloc : Realloc) : Type 0 where
  pub sized : (o : Option Block) (n : ℕ) (b : Block) → realloc o n ≡ some b → length b ≡ n
  pub bounded : (o : Option Block) (n : ℕ) (b : Block) → realloc o n ≡ some b → n < 2 ^ 63
  pub kept :
      (o : Option Block) (n : ℕ) (b : Block)
      → realloc o n ≡ some b
      → length (bytes_of o) ≤ n
      → take (length (bytes_of o)) b ≡ bytes_of o

-- allocator_libc
abbrev pub allocator_libc : Realloc → Allocator
allocator_libc realloc = record { realloc = some realloc; frees = true }

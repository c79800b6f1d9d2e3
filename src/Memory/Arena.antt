-- ===== src/Memory/Arena.antt =====
-- include/memory/arena.h and src/memory/arena.c: a bump allocator. Pointers are addresses, 0 is
-- NULL; `malloc` is a parameter, the address of a block of the given size, or NULL.
pub mod Bounds
mod Tests
use Prim.Native.Nat.{bit_and}
use c_comprehensive_template.Prelude.{
  ℕ, zero, suc, ◌+◌, ◌-◌, ◌*◌, ◌%◌, Bool, true, false, not, ◌&&◌, ◌||◌, Option, none, some, List,
  [], ◌∷◌, ltb, ◌==◌, if◌then◌else◌, size_max, size_mod,
}
use c_comprehensive_template.Core.Error.{ErrorCode, ok, nomem, invalid_arg}

abbrev pub Ptr : Type 0
Ptr = ℕ

pub record Arena : Type 0 where
  pub buf : Ptr
  pub capacity : ℕ
  pub pos : ℕ

pub init : (ℕ → Ptr) → Option Arena → ℕ → ErrorCode × Option Arena
init malloc none size = (invalid_arg, none)
init malloc (some a) size =
    if size == 0
    then (invalid_arg, some a)
    else if malloc size == 0
    then (nomem, some (record a { buf = 0 }))
    else (ok, some (record { buf = malloc size; capacity = size; pos = 0 }))

-- (pos + align - 1) & ~(align - 1) on a 64-bit `size_t`.
abbrev pub align_up : ℕ → ℕ → ℕ
align_up pos align = bit_and ((pos + align - 1) % size_mod) (size_max - (align - 1))

-- The tests after the NULL checks, in the order of the code; the address, or 0, and the arena.
unfoldable pub bump : Arena → ℕ → ℕ → Ptr × Arena
bump a size align =
    let aligned = align_up a.pos align in
    if align == 0 || not (bit_and align (align - 1) == 0)
    then (0, a)
    else if ltb (size_max - (align - 1)) a.pos
    then (0, a)
    else if ltb a.capacity aligned || ltb (a.capacity - aligned) size
    then (0, a)
    else (a.buf + aligned, record a { pos = aligned + size })

pub alloc : Option Arena → ℕ → ℕ → Ptr × Option Arena
unfolding bump
alloc none size align = (0, none)
alloc (some a) size align =
    if a.buf == 0 || size == 0 then (0, some a) else let (p, a') = bump a size align in (p, some a')

pub reset : Option Arena → Option Arena
reset none = none
reset (some a) = some (record a { pos = 0 })

pub destroy : Option Arena → Option Arena
destroy none = none
destroy (some a) = some (record { buf = 0; capacity = 0; pos = 0 })

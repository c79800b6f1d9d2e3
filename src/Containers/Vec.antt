-- ===== src/Containers/Vec.antt =====
-- include/containers/vec.h and src/containers/vec.c: a growable array of elements of `elem_size`
-- bytes. `realloc_libc` is the realloc of the process.
pub mod Elements
pub mod Inv
pub mod Grow
pub mod Read
mod Tests
use c_comprehensive_template.Prelude.{
  ℕ, ◌+◌, ◌-◌, ◌*◌, ◌/◌, ◌%◌, Bool, true, false, not, Option, none, some, ltb, leb, ◌==◌,
  if◌then◌else◌, size_max, size_mod,
}
use c_comprehensive_template.Bytes.{Block, add_size, slot, set_slot}
use c_comprehensive_template.Core.Error.{ErrorCode, ok, nomem, invalid_arg, overflow, not_found}
use c_comprehensive_template.Memory.Allocator.{Allocator, Realloc, allocator_libc}

pub record Vec : Type 0 where
  pub bytes : Option Block
  pub len : ℕ
  pub capacity : ℕ
  pub elem_size : ℕ
  pub alloc : Option Allocator

abbrev pub initial_cap : ℕ
initial_cap = 8

-- The heap asked for, or the process's for NULL; NULL if it lacks a function.
abbrev pub vec_heap : Realloc → Option Allocator → Option Allocator
vec_heap realloc_libc none = some (allocator_libc realloc_libc)
vec_heap realloc_libc (some a) = elim a.realloc [
  | none ↦ none
  | some r ↦ if not a.frees then none else some a
]

unfoldable pub init_a : Realloc → Option Vec → ℕ → Option Allocator → ErrorCode × Option Vec
init_a realloc_libc none elem_size alloc = (invalid_arg, none)
init_a realloc_libc (some v) elem_size alloc =
    if elem_size == 0 then (invalid_arg, some v) else elim (vec_heap realloc_libc alloc) [
      | none ↦ (invalid_arg, some v)
      | some a ↦ (
        ok,
        some
            (record { bytes = none; len = 0; capacity = 0; elem_size = elem_size; alloc = some a }),
      )
    ]

pub init : Realloc → Option Vec → ℕ → ErrorCode × Option Vec
init realloc_libc v elem_size = init_a realloc_libc v elem_size (some (allocator_libc realloc_libc))

pub destroy : Option Vec → Option Vec
destroy none = none
destroy (some v) =
    some (record { bytes = none; len = 0; capacity = 0; elem_size = 0; alloc = none })

-- `vec_reserve` from its comparison of capacities on.
unfoldable pub grow : Vec → Realloc → ℕ → ErrorCode × Vec
grow v realloc n =
    if leb n v.capacity
    then (ok, v)
    else if ltb (size_max / v.elem_size) n
    then (overflow, v)
    else elim (realloc v.bytes (n * v.elem_size)) [
      | none ↦ (nomem, v)
      | some b ↦ (ok, record v { bytes = some b; capacity = n })
    ]

unfoldable pub reserve_vec : Vec → ℕ → ErrorCode × Vec
reserve_vec v n = if v.elem_size == 0 then (invalid_arg, v) else elim v.alloc [
  | none ↦ (invalid_arg, v)
  | some a ↦ elim a.realloc [ none ↦ (invalid_arg, v) | some r ↦ grow v r n ]
]

unfoldable pub reserve : Option Vec → ℕ → ErrorCode × Option Vec
reserve none n = (invalid_arg, none)
reserve (some v) n = let (e, v') = reserve_vec v n in (e, some v')

-- memcpy of the element behind the last one, and len++.
unfoldable pub append : Vec → Block → Vec
append v x = record v {
  bytes = elim v.bytes [ none ↦ none | some b ↦ some (set_slot b v.elem_size v.len x) ];
  len = add_size v.len 1;
}

-- The capacity that a full vector asks for.
abbrev pub new_cap : ℕ → ℕ
new_cap n = if n == 0 then initial_cap else n * 2 % size_mod

unfoldable pub push_vec : Vec → Block → ErrorCode × Vec
push_vec v x =
    if v.elem_size == 0
    then (invalid_arg, v)
    else if v.len == v.capacity
    then (if leb (new_cap v.capacity) v.capacity
        then (overflow, v)
        else let (e, v') = reserve_vec v (new_cap v.capacity) in
          elim e [ ok ↦ (ok, append v' x) | refused ↦ (refused, v') ])
    else (ok, append v x)

unfoldable pub push : Option Vec → Option Block → ErrorCode × Option Vec
push none elem = (invalid_arg, none)
push (some v) none = (invalid_arg, some v)
push (some v) (some x) = let (e, v') = push_vec v x in (e, some v')

-- `wants` is whether `out` is not NULL; the middle of the result is what was copied to it.
unfoldable pub pop : Option Vec → Bool → ErrorCode × Option Block × Option Vec
pop none wants = (invalid_arg, none, none)
pop (some v) wants = elim v.bytes [
  | none ↦ (invalid_arg, none, some v)
  | some b ↦ if v.len == 0 then (not_found, none, some v) else (
    ok,
    (if wants then some (slot b v.elem_size (v.len - 1)) else none),
    some (record v { len = v.len - 1 }),
  )
]

-- The offset of element i in the storage, or NULL.
unfoldable pub vec_at : Option Vec → ℕ → Option ℕ
vec_at none i = none
vec_at (some v) i = elim v.bytes [
  | none ↦ none
  | some b ↦ if leb v.len i then none else some (i * v.elem_size)
]

pub clear : Option Vec → Option Vec
clear none = none
clear (some v) = some (record v { len = 0 })

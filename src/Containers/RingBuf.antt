-- ===== src/Containers/RingBuf.antt =====
-- include/containers/ringbuf.h and src/containers/ringbuf.c: a circular buffer of elements of
-- `elem_size` bytes. A pointer to a struct that may be NULL is an `Option`; an operation returns
-- what the pointer leads to afterwards. `malloc` is a parameter: the block for a size, or NULL.
pub mod Inv
pub mod Refine
pub mod Run
mod Tests
use c_comprehensive_template.Prelude.{
  ℕ, ◌+◌, ◌-◌, ◌*◌, ◌/◌, ◌%◌, Bool, true, false, Option, none, some, ltb, ◌==◌, ◌&&◌, ◌||◌,
  if◌then◌else◌, size_max, size_mod,
}
use c_comprehensive_template.Bytes.{Block, add_size, slot, set_slot}
use c_comprehensive_template.Core.Error.{ErrorCode, ok, nomem, invalid_arg, overflow, not_found}

pub record RingBuf : Type 0 where
  pub bytes : Option Block
  pub elem_size : ℕ
  pub capacity : ℕ
  pub head : ℕ
  pub len : ℕ

module _ (malloc : ℕ → Option Block) where
  pub init : Option RingBuf → ℕ → ℕ → ErrorCode × Option RingBuf
  init none elem_size capacity = (invalid_arg, none)
  init (some r) elem_size capacity =
      if elem_size == 0 || capacity == 0
      then (invalid_arg, some r)
      else if ltb (size_max / elem_size) capacity
      then (overflow, some r)
      else elim (malloc (capacity * elem_size)) [
        | none ↦ (nomem, some (record r { bytes = none }))
        | some b ↦ (
          ok,
          some (record {
            bytes = some b;
            elem_size = elem_size;
            capacity = capacity;
            head = 0;
            len = 0;
          }),
        )
      ]

pub destroy : Option RingBuf → Option RingBuf
destroy none = none
destroy (some r) = some (record r { bytes = none; capacity = 0; len = 0 })

-- Slot index of the next write position.
abbrev pub tail_index : RingBuf → ℕ
tail_index r = add_size r.head r.len % r.capacity

pub push : Option RingBuf → Option Block → ErrorCode × Option RingBuf
push none elem = (invalid_arg, none)
push (some r) elem = elim r.bytes [
  | none ↦ (invalid_arg, some r)
  | some b ↦ elim elem [
    | none ↦ (invalid_arg, some r)
    | some x ↦ if r.len == r.capacity then (overflow, some r) else (
      ok,
      some (record r {
        bytes = some (set_slot b r.elem_size (tail_index r) x);
        len = add_size r.len 1;
      }),
    )
  ]
]

pub push_overwrite : Option RingBuf → Option Block → ErrorCode × Option RingBuf
unfolding push
push_overwrite none elem = (invalid_arg, none)
push_overwrite (some r) elem = elim r.bytes [
  | none ↦ (invalid_arg, some r)
  | some b ↦ elim elem [
    | none ↦ (invalid_arg, some r)
    | some x ↦ if ltb r.len r.capacity then push (some r) (some x) else (
      ok,
      some (record r {
        bytes = some (set_slot b r.elem_size r.head x);
        head = add_size r.head 1 % r.capacity;
      }),
    )
  ]
]

-- `wants` is whether `out` is not NULL; the middle of the result is what was copied to it.
pub pop : Option RingBuf → Bool → ErrorCode × Option Block × Option RingBuf
pop none wants = (invalid_arg, none, none)
pop (some r) wants = elim r.bytes [
  | none ↦ (invalid_arg, none, some r)
  | some b ↦ if r.len == 0 then (not_found, none, some r) else (
    ok,
    (if wants then some (slot b r.elem_size r.head) else none),
    some (record r { head = add_size r.head 1 % r.capacity; len = r.len - 1 }),
  )
]

pub len : Option RingBuf → ℕ
len none = 0
len (some r) = r.len

pub is_full : Option RingBuf → Bool
is_full none = false
is_full (some r) = r.len == r.capacity

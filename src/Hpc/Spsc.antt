-- ===== src/Hpc/Spsc.antt =====
-- include/hpc/spsc.h and src/hpc/spsc.c: the queue of one producer and one consumer. Its functions
-- stand here as one thread runs them; Hpc/Spsc/Step interleaves their loads, copies and stores.
-- `malloc` is a parameter: the block for a size, or NULL.
pub mod Inv
pub mod Step
pub mod Linear
pub mod Fifo
pub mod Calls
mod Tests
use c_comprehensive_template.Prelude.{
  ℕ, ◌+◌, ◌*◌, ◌/◌, ◌%◌, Bool, true, false, ◌||◌, Option, none, some, ltb, ◌==◌, if◌then◌else◌,
  size_max, size_mod,
}
use c_comprehensive_template.Bytes.{Block, add_size, sub_size, slot, set_slot}
use c_comprehensive_template.Core.Error.{ErrorCode, ok, nomem, invalid_arg, overflow}

pub record SpscQueue : Type 0 where
  pub bytes : Option Block
  pub elem_size : ℕ
  pub slots : ℕ
  pub head : ℕ
  pub tail : ℕ

module _ (malloc : ℕ → Option Block) where
  pub init : Option SpscQueue → ℕ → ℕ → ErrorCode × Option SpscQueue
  init none elem_size capacity = (invalid_arg, none)
  init (some q) elem_size capacity =
      if elem_size == 0 || capacity == 0
      then (invalid_arg, some q)
      else if ltb (size_max / elem_size) (add_size capacity 1)
      then (overflow, some q)
      else elim (malloc (add_size capacity 1 * elem_size % size_mod)) [
        | none ↦ (nomem, some (record q { bytes = none }))
        | some b ↦ (
          ok,
          some (record {
            bytes = some b;
            elem_size = elem_size;
            slots = add_size capacity 1;
            head = 0;
            tail = 0;
          }),
        )
      ]

pub destroy : Option SpscQueue → Option SpscQueue
destroy none = none
destroy (some q) = some (record q { bytes = none; slots = 0 })

-- (i + 1) % q->slots
abbrev pub next_slot : ℕ → ℕ → ℕ
next_slot i slots = add_size i 1 % slots

-- memcpy(q->data + i * q->elem_size, elem, q->elem_size)
abbrev pub copy_in : SpscQueue → ℕ → Block → SpscQueue
copy_in q i elem = record q {
  bytes = elim q.bytes [ none ↦ none | some b ↦ some (set_slot b q.elem_size i elem) ];
}

-- memcpy(out, q->data + i * q->elem_size, q->elem_size)
abbrev pub copy_out : SpscQueue → ℕ → Option Block
copy_out q i = elim q.bytes [ none ↦ none | some b ↦ some (slot b q.elem_size i) ]

pub push : Option SpscQueue → Option Block → Bool × Option SpscQueue
push none elem = (false, none)
push (some q) elem = elim q.bytes [
  | none ↦ (false, some q)
  | some b ↦ elim elem [
    | none ↦ (false, some q)
    | some x ↦
        let next = next_slot q.tail q.slots in
        if next == q.head
        then (false, some q)
        else (true, some (record (copy_in q q.tail x) { tail = next }))
  ]
]

-- `wants` is whether `out` is not NULL; the middle of the result is what was copied to it.
pub pop : Option SpscQueue → Bool → Bool × Option Block × Option SpscQueue
pop none wants = (false, none, none)
pop (some q) wants = elim q.bytes [
  | none ↦ (false, none, some q)
  | some b ↦
      if wants
      then (if q.head == q.tail
          then (false, none, some q)
          else (true, copy_out q q.head, some (record q { head = next_slot q.head q.slots })))
      else (false, none, some q)
]

pub len : Option SpscQueue → ℕ
len none = 0
len (some q) = elim q.bytes [
  | none ↦ 0
  | some b ↦ sub_size (add_size q.tail q.slots) q.head % q.slots
]

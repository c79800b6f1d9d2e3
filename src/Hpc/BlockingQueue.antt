-- ===== src/Hpc/BlockingQueue.antt =====
-- include/hpc/blocking_queue.h and src/hpc/blocking_queue.c: a queue that producers and consumers
-- share under a mutex. What a thread does while it holds the mutex is one turn; a turn ends in an
-- refused or in a wait, after which the loop around pthread_cond_wait takes another turn. Step
-- interleaves the turns. `malloc` is a parameter: the block for a size, or NULL.
pub mod Step
pub mod Refine
pub mod Wake
pub mod Fifo
mod Tests
use c_comprehensive_template.Prelude.{
  ℕ, ◌+◌, ◌-◌, ◌*◌, ◌/◌, ◌%◌, Bool, true, false, not, ◌&&◌, ◌||◌, Option, none, some, ltb, ◌==◌,
  if◌then◌else◌, size_max,
}
use c_comprehensive_template.Bytes.{Block, add_size, slot, set_slot}
use c_comprehensive_template.Core.Error.{
  ErrorCode, ok, nomem, invalid_arg, overflow, not_found, unsupported,
}

pub record BlockingQueue : Type 0 where
  pub bytes : Option Block
  pub elem_size : ℕ
  pub capacity : ℕ
  pub head : ℕ
  pub len : ℕ
  pub closed : Bool

pub init : (ℕ → Option Block) → Option BlockingQueue → ℕ → ℕ → ErrorCode × Option BlockingQueue
init malloc none elem_size capacity = (invalid_arg, none)
init malloc (some q) elem_size capacity =
    if elem_size == 0 || capacity == 0
    then (invalid_arg, some q)
    else if ltb (size_max / elem_size) capacity
    then (overflow, some q)
    else elim (malloc (capacity * elem_size)) [
      | none ↦ (
        nomem,
        some (record {
          bytes = none;
          elem_size = 0;
          capacity = 0;
          head = 0;
          len = 0;
          closed = false;
        }),
      )
      | some b ↦ (
        ok,
        some (record {
          bytes = some b;
          elem_size = elem_size;
          capacity = capacity;
          head = 0;
          len = 0;
          closed = false;
        }),
      )
    ]

pub destroy : Option BlockingQueue → Option BlockingQueue
destroy none = none
destroy (some q) = elim q.bytes [
  | none ↦ some q
  | some b ↦ some (record q { bytes = none; capacity = 0; len = 0 })
]

-- How a turn ends: in pthread_cond_wait; with ERR_OK, an element moved and the other side
-- signalled; or with an error.
pub data Turn : Type 0 where
  wait : Turn
  moved : Turn
  refused : (e : ErrorCode) → Turn

-- A turn of bq_push, once the pointers are known not to be NULL.
unfoldable pub push_turn : BlockingQueue → Block → Turn × BlockingQueue
push_turn q x =
    if q.len == q.capacity && not q.closed
    then (wait, q)
    else if q.closed
    then (refused unsupported, q)
    else (
      moved,
      record q {
        bytes = elim q.bytes [
          | none ↦ none
          | some b ↦ some (set_slot b q.elem_size (add_size q.head q.len % q.capacity) x)
        ];
        len = add_size q.len 1;
      },
    )

-- A turn of bq_pop; the middle of the result is what was copied out.
unfoldable pub pop_turn : BlockingQueue → Turn × Option Block × BlockingQueue
pop_turn q =
    if q.len == 0 && not q.closed
    then (wait, none, q)
    else if q.len == 0
    then (refused not_found, none, q)
    else (
      moved,
      elim q.bytes [ none ↦ none | some b ↦ some (slot b q.elem_size q.head) ],
      record q { head = add_size q.head 1 % q.capacity; len = q.len - 1 },
    )

-- The first turn of a call.
pub push : Option BlockingQueue → Option Block → Turn × Option BlockingQueue
push none elem = (refused invalid_arg, none)
push (some q) elem = elim q.bytes [
  | none ↦ (refused invalid_arg, some q)
  | some b ↦ elim elem [
    | none ↦ (refused invalid_arg, some q)
    | some x ↦ let (t, q') = push_turn q x in (t, some q')
  ]
]

pub pop : Option BlockingQueue → Bool → Turn × Option Block × Option BlockingQueue
pop none wants = (refused invalid_arg, none, none)
pop (some q) wants = elim q.bytes [
  | none ↦ (refused invalid_arg, none, some q)
  | some b ↦
      if wants
      then (let (t, x, q') = pop_turn q in (t, x, some q'))
      else (refused invalid_arg, none, some q)
]

unfoldable pub close : BlockingQueue → BlockingQueue
close q = elim q.bytes [ none ↦ q | some b ↦ record q { closed = true } ]

-- ===== src/Hpc/ThreadPool.antt =====
-- include/hpc/thread_pool.h and src/hpc/thread_pool.c: workers that take tasks from a linked list
-- under a mutex. Addresses are numbers, 0 is NULL; a heap gives the task nodes that are allocated,
-- and reading an address that is none of them is a fault, which makes the result `none`. What a
-- thread does while it holds the mutex is one turn; Step interleaves the turns. What malloc
-- answers is a parameter.
pub mod Nodes
pub mod Step
pub mod Inv
pub mod Workers
pub mod Turns
pub mod Run
pub mod Effort
pub mod Finish
pub mod Once
mod Tests
use c_comprehensive_template.Prelude.{
  ℕ, zero, suc, ◌+◌, ◌*◌, ◌/◌, Bool, true, false, not, ◌&&◌, ◌||◌, Option, none, some, ltb, ◌==◌,
  if◌then◌else◌, size_max,
}
use c_comprehensive_template.Core.Error.{
  ErrorCode, ok, nomem, io, invalid_arg, overflow, unsupported,
}
use c_comprehensive_template.Hpc.BlockingQueue.Step.{Waiters, signal, broadcast, sleep}

-- A task node; `func` and `arg` are what it calls.
pub record Task : Type 0 where
  pub func : ℕ
  pub arg : ℕ
  pub next : ℕ

-- The threads in pthread_cond_wait, and those woken that wait for the mutex, are in `cond`.
pub record ThreadPool : Type 0 where
  pub num_threads : ℕ
  pub queue_head : ℕ
  pub queue_tail : ℕ
  pub cond : Waiters
  pub shutdown : Bool

abbrev pub Heap : Type 0
Heap = ℕ → Option Task

-- Allocates, frees or overwrites the node at an address.
unfoldable pub store : Heap → ℕ → Option Task → Heap
store heap a t b = if b == a then t else heap b

-- How a worker's turn ends: asleep, out of its loop, or with a task in hand.
pub data Turn : Type 0 where
  wait : Turn
  leave : Turn
  take_task : (t : ℕ) → Turn

unfoldable pub worker_turn : ThreadPool → Heap → Option (Turn × ThreadPool)
worker_turn p heap =
    if p.queue_head == 0 && not p.shutdown
    then some (wait, record p { cond = sleep p.cond })
    else if p.shutdown && p.queue_head == 0
    then some (leave, p)
    else elim (heap p.queue_head) [
      | none ↦ none
      | some t ↦ some (
        take_task p.queue_head,
        record p { queue_head = t.next; queue_tail = if t.next == 0 then 0 else p.queue_tail },
      )
    ]

-- The new node behind the last one.
unfoldable pub link : ThreadPool → Heap → ℕ → Option (Heap × ThreadPool)
link p heap t =
    if p.queue_tail == 0
    then some (heap, record p { queue_head = t })
    else elim (heap p.queue_tail) [
      | none ↦ none
      | some last ↦ some (store heap p.queue_tail (some (record last { next = t })), p)
    ]

-- From the lock of the mutex on.
unfoldable pub submit_turn : ThreadPool → Heap → ℕ → Option (ErrorCode × Heap × ThreadPool)
submit_turn p heap t =
    if p.shutdown then some (unsupported, store heap t none, p) else elim (link p heap t) [
      | none ↦ none
      | some (heap', p') ↦ some (ok, heap', record p' { queue_tail = t; cond = signal p'.cond })
    ]

-- `t` is what malloc answers.
unfoldable pub submit :
    ℕ → Heap → Option ThreadPool → Option ℕ → ℕ → Option (ErrorCode × Heap × Option ThreadPool)
submit t heap none func arg = some (invalid_arg, heap, none)
submit t heap (some p) none arg = some (invalid_arg, heap, some p)
submit t heap (some p) (some func) arg =
    if t == 0
    then some (nomem, heap, some p)
    else elim (submit_turn p (store heap t (some (record { func = func; arg = arg; next = 0 })))
        t) [ none ↦ none | some (e, heap', p') ↦ some (e, heap', some p') ]

-- Tells the workers to leave.
unfoldable pub stop : ThreadPool → ThreadPool
stop p = record p { shutdown = true; cond = broadcast p.cond }

-- The threads from i on, with `left` to start: whether pthread_create starts them all.
unfoldable pub starts_all : (ℕ → Bool) → ℕ → ℕ → Bool
starts_all starts zero i = true
starts_all starts (suc left) i = starts i && starts_all starts left (i + 1)

-- Whether the two requests of memory and pthread_create for each thread succeed are parameters.
-- If a thread does not start, the pool that the others share is stopped as in thread_pool_destroy
-- and freed again.
unfoldable pub create : Bool → (ℕ → Bool) → (ℕ → Bool) → Bool → ℕ → ErrorCode × Option ThreadPool
create calloc malloc starts wants n =
    if not wants || n == 0
    then (invalid_arg, none)
    else if ltb (size_max / 8) n
    then (overflow, none)
    else if not calloc
    then (nomem, none)
    else if not (malloc (n * 8))
    then (nomem, none)
    else if starts_all starts n 0
    then (
      ok,
      some (record {
        num_threads = n;
        queue_head = 0;
        queue_tail = 0;
        cond = record { asleep = 0; woken = 0 };
        shutdown = false;
      }),
    )
    else (io, none)

-- The loop that frees the tasks left when the workers have been joined, with the rounds left.
unfoldable pub drain : ℕ → Heap → ℕ → Option Heap
drain zero heap head = if head == 0 then some heap else none
drain (suc rounds) heap head =
    if head == 0
    then some heap
    else elim (heap head) [ none ↦ none | some t ↦ drain rounds (store heap head none) t.next ]

-- ===== src/Hpc/ThreadPool/Step.antt =====
-- Threads that submit tasks and the workers of a pool of src/hpc/thread_pool.c, in any order.
use c_comprehensive_template.Prelude.{ℕ, ◌+◌, ◌-◌, ◌≡◌, ◌≢◌, none, some, List, [], ◌∷◌, ◌++◌}
use c_comprehensive_template.Core.Error.{ErrorCode, ok}
use c_comprehensive_template.Hpc.BlockingQueue.Step.{signal, Caller, fresh, resumed, take_turn}
use c_comprehensive_template.Hpc.ThreadPool.{
  Heap, ThreadPool, Turn, wait, leave, take_task, worker_turn, submit, stop, store, drain,
}
use c_comprehensive_template.Hpc.ThreadPool.Nodes.{Job, job_at}

-- The pool with its workers: those that are about to lock the mutex for the first time or after a
-- task, those that have taken a task, those that run one, and those that have left their loop. The
-- others are in the condition variable.
pub record Shared : Type 0 where
  pub pool : ThreadPool
  pub heap : Heap
  pub ready : ℕ
  pub taken : List ℕ
  pub running : List ℕ
  pub exited : ℕ

abbrev pub IsPresent : Shared → Caller → Type 0
IsPresent s fresh = s.ready ≢ 0
IsPresent s resumed = s.pool.cond.woken ≢ 0

-- A worker gets the mutex.
abbrev pub enter : Shared → Caller → Shared
enter s fresh = record s { ready = s.ready - 1 }
enter s resumed = record s { pool = record s.pool { cond = take_turn s.pool.cond resumed } }

-- Where the worker is after its turn.
abbrev pub after : Turn → Shared → Shared
after wait s = s
after leave s = record s { exited = s.exited + 1 }
after (take_task t) s = record s { taken = t ∷ s.taken }

pub data Event : Type 0 where
  silent : Event
  accepted : (j : Job) → Event
  rejected : (e : ErrorCode) → Event
  took : (j : Job) → Event
  started : (j : Job) → Event
  finished : (j : Job) → Event

abbrev pub answered : ErrorCode → Job → Event
answered ok j = accepted j
answered e j = rejected e

abbrev pub met : Turn → Heap → Event
met wait heap = silent
met leave heap = silent
met (take_task t) heap = took (job_at heap t)

-- What malloc answers is NULL or a new node.
abbrev pub IsNew : Heap → ℕ → Type 0
IsNew heap t = t ≢ 0 → heap t ≡ none

-- A step of a worker.
pub data WorkerStep : Shared → Event → Shared → Type 0 where
  turns :
      (s : Shared) (c : Caller) (turn : Turn) (p : ThreadPool)
      → IsPresent s c
      → worker_turn (enter s c).pool s.heap ≡ some (turn, p)
      → WorkerStep s (met turn s.heap) (after turn (record (enter s c) { pool = p }))
  -- t->func(t->arg) begins.
  starts :
      (s : Shared) (xs : List ℕ) (t : ℕ) (ys : List ℕ)
      → s.taken ≡ xs ++ t ∷ ys
      → WorkerStep s
          (started (job_at s.heap t))
          (record s { taken = xs ++ ys; running = t ∷ s.running })
  -- It returns, and the node is freed.
  finishes :
      (s : Shared) (xs : List ℕ) (t : ℕ) (ys : List ℕ)
      → s.running ≡ xs ++ t ∷ ys
      → WorkerStep s
          (finished (job_at s.heap t))
          (record s { heap = store s.heap t none; ready = s.ready + 1; running = xs ++ ys })

pub data Step : Shared → Event → Shared → Type 0 where
  works : (s : Shared) (e : Event) (s' : Shared) → WorkerStep s e s' → Step s e s'
  submits :
      (s : Shared) (t func arg : ℕ) (e : ErrorCode) (heap : Heap) (p : ThreadPool)
      → IsNew s.heap t
      → submit t s.heap (some s.pool) (some func) arg ≡ some (e, heap, some p)
      → Step s (answered e (func, arg)) (record s { heap = heap; pool = p })
  -- thread_pool_destroy before it joins the workers.
  stops : (s : Shared) → Step s silent (record s { pool = stop s.pool })
  -- pthread_cond_wait may return without a signal.
  wakes :
      (s : Shared) → Step s silent (record s { pool = record s.pool { cond = signal s.pool.cond } })

-- Any number of steps, with their events in order.
pub data Steps : Shared → List Event → Shared → Type 0 where
  none_left : (s : Shared) → Steps s [] s
  one_more :
      (s t u : Shared) (e : Event) (es : List Event)
      → Step s e t
      → Steps t es u
      → Steps s (e ∷ es) u

-- thread_pool_destroy: the pool is stopped, the joins return when all workers have left, and what is
-- still queued is freed.
pub data Destroy : Shared → Heap → Type 0 where
  destroys :
      (s t : Shared) (es : List Event) (rounds : ℕ) (heap : Heap)
      → Steps (record s { pool = stop s.pool }) es t
      → t.exited ≡ t.pool.num_threads
      → drain rounds t.heap t.pool.queue_head ≡ some heap
      → Destroy s heap

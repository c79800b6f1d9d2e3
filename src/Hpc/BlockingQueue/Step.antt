-- ===== src/Hpc/BlockingQueue/Step.antt =====
-- Threads that push to, pop from and close the queue of src/hpc/blocking_queue.c, in any order. A
-- thread in pthread_cond_wait sleeps until a signal or a broadcast, or for no reason at all, wakes
-- it; it then waits for the mutex and takes its next turn.
use c_comprehensive_template.Prelude.{
  ℕ, zero, suc, ◌+◌, ◌-◌, ◌≡◌, ◌≢◌, none, some, List, [], ◌∷◌, length,
}
use c_comprehensive_template.Bytes.{Block}
use c_comprehensive_template.Core.Error.{ErrorCode}
use c_comprehensive_template.Hpc.BlockingQueue.{
  BlockingQueue, wait, moved, refused, push_turn, pop_turn, close,
}

-- The threads of one condition variable: those asleep, and those woken that wait for the mutex.
pub record Waiters : Type 0 where
  pub asleep : ℕ
  pub woken : ℕ

-- pthread_cond_signal
abbrev pub signal : Waiters → Waiters
signal w = elim w.asleep [ zero ↦ w | suc n ↦ record { asleep = n; woken = w.woken + 1 } ]

-- pthread_cond_broadcast
abbrev pub broadcast : Waiters → Waiters
broadcast w = record { asleep = 0; woken = w.woken + w.asleep }

pub record Shared : Type 0 where
  pub queue : BlockingQueue
  pub pushers : Waiters  -- not_full
  pub poppers : Waiters  -- not_empty

-- Whose turn it is: a thread that just called, or one that was woken.
pub data Caller : Type 0 where
  fresh : Caller
  resumed : Caller

abbrev pub IsThere : Waiters → Caller → Type 0
IsThere w fresh = Unit
IsThere w resumed = w.woken ≢ 0

-- A woken thread that takes its turn waits for the mutex no longer.
abbrev pub take_turn : Waiters → Caller → Waiters
take_turn w fresh = w
take_turn w resumed = record w { woken = w.woken - 1 }

abbrev pub sleep : Waiters → Waiters
sleep w = record w { asleep = w.asleep + 1 }

-- What a step means to a caller: nothing yet, or the answer of a call.
pub data Event : Type 0 where
  silent : Event
  pushed : (x : Block) → Event
  popped : (x : Block) → Event
  push_refused : (e : ErrorCode) → Event
  pop_refused : (e : ErrorCode) → Event
  shut : Event

-- The caller of bq_push passes elements of elem_size bytes.
pub data Step : Shared → Event → Shared → Type 0 where
  push_waits :
      (s : Shared) (c : Caller) (x : Block) (q : BlockingQueue)
      → IsThere s.pushers c
      → length x ≡ s.queue.elem_size
      → push_turn s.queue x ≡ (wait, q)
      → Step s silent (record s { queue = q; pushers = sleep (take_turn s.pushers c) })
  push_moves :
      (s : Shared) (c : Caller) (x : Block) (q : BlockingQueue)
      → IsThere s.pushers c
      → length x ≡ s.queue.elem_size
      → push_turn s.queue x ≡ (moved, q)
      → Step s
          (pushed x)
          (record { queue = q; pushers = take_turn s.pushers c; poppers = signal s.poppers })
  push_fails :
      (s : Shared) (c : Caller) (x : Block) (q : BlockingQueue) (e : ErrorCode)
      → IsThere s.pushers c
      → length x ≡ s.queue.elem_size
      → push_turn s.queue x ≡ (refused e, q)
      → Step s (push_refused e) (record s { queue = q; pushers = take_turn s.pushers c })
  pop_waits :
      (s : Shared) (c : Caller) (q : BlockingQueue)
      → IsThere s.poppers c
      → pop_turn s.queue ≡ (wait, none, q)
      → Step s silent (record s { queue = q; poppers = sleep (take_turn s.poppers c) })
  pop_moves :
      (s : Shared) (c : Caller) (x : Block) (q : BlockingQueue)
      → IsThere s.poppers c
      → pop_turn s.queue ≡ (moved, some x, q)
      → Step s
          (popped x)
          (record { queue = q; pushers = signal s.pushers; poppers = take_turn s.poppers c })
  pop_fails :
      (s : Shared) (c : Caller) (q : BlockingQueue) (e : ErrorCode)
      → IsThere s.poppers c
      → pop_turn s.queue ≡ (refused e, none, q)
      → Step s (pop_refused e) (record s { queue = q; poppers = take_turn s.poppers c })
  closes :
      (s : Shared)
      → Step s shut (record {
        queue = close s.queue;
        pushers = broadcast s.pushers;
        poppers = broadcast s.poppers;
      })
  -- pthread_cond_wait may return without a signal.
  wakes_pusher : (s : Shared) → Step s silent (record s { pushers = signal s.pushers })
  wakes_popper : (s : Shared) → Step s silent (record s { poppers = signal s.poppers })

-- Any number of steps, with their events in order.
pub data Steps : Shared → List Event → Shared → Type 0 where
  done : (s : Shared) → Steps s [] s
  more :
      (s t u : Shared) (e : Event) (es : List Event)
      → Step s e t
      → Steps t es u
      → Steps s (e ∷ es) u

-- The elements that were pushed, and those that were popped, in the order of the turns.
abbrev pub pushes : List Event → List Block
pushes [] = []
pushes (silent ∷ es) = pushes es
pushes (pushed x ∷ es) = x ∷ pushes es
pushes (popped x ∷ es) = pushes es
pushes (push_refused e ∷ es) = pushes es
pushes (pop_refused e ∷ es) = pushes es
pushes (shut ∷ es) = pushes es

abbrev pub pops : List Event → List Block
pops [] = []
pops (silent ∷ es) = pops es
pops (pushed x ∷ es) = pops es
pops (popped x ∷ es) = x ∷ pops es
pops (push_refused e ∷ es) = pops es
pops (pop_refused e ∷ es) = pops es
pops (shut ∷ es) = pops es

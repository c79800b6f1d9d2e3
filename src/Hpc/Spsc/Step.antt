-- ===== src/Hpc/Spsc/Step.antt =====
-- The queue of src/hpc/spsc.c used by two threads. Each step is one atomic load, store or copy of
-- spsc_push or spsc_pop, in the order of the code; steps of the two threads interleave freely. The
-- acquire and release pairs of the code make the copies visible in this order, and the copies are
-- single steps because the two threads never copy at one slot (Linear).
use c_comprehensive_template.Prelude.{ℕ, ◌≡◌, ◌≢◌, some, List, [], ◌∷◌, length}
use c_comprehensive_template.Bytes.{Block}
use c_comprehensive_template.Hpc.Spsc.{SpscQueue, copy_in, copy_out, next_slot}

-- Where a call of spsc_push stands: not called; with its own tail loaded; with the slot known to
-- be free; with the element copied.
pub data Producer : Type 0 where
  idle : Producer
  loaded : (x : Block) (tail : ℕ) → Producer
  free : (x : Block) (tail next : ℕ) → Producer
  copied : (x : Block) (tail next : ℕ) → Producer

-- Where a call of spsc_pop stands: not called; with its own head loaded; with the slot known to be
-- filled; with the element copied out.
pub data Consumer : Type 0 where
  waiting : Consumer
  looked : (head : ℕ) → Consumer
  filled : (head : ℕ) → Consumer
  taken : (head : ℕ) (x : Block) → Consumer

pub record Shared : Type 0 where
  pub queue : SpscQueue
  pub producer : Producer
  pub consumer : Consumer

-- What a step means to a caller: nothing yet, or the answer of a call.
pub data Event : Type 0 where
  silent : Event
  pushed : (x : Block) → Event
  refused : Event
  popped : (x : Block) → Event
  nothing : Event

-- The caller of spsc_push passes elements of elem_size bytes.
pub data Step : Shared → Event → Shared → Type 0 where
  push_load :
      (s : Shared) (x : Block)
      → s.producer ≡ idle
      → length x ≡ s.queue.elem_size
      → Step s silent (record s { producer = loaded x s.queue.tail })
  push_full :
      (s : Shared) (x : Block) (t : ℕ)
      → s.producer ≡ loaded x t
      → next_slot t s.queue.slots ≡ s.queue.head
      → Step s refused (record s { producer = idle })
  push_free :
      (s : Shared) (x : Block) (t : ℕ)
      → s.producer ≡ loaded x t
      → next_slot t s.queue.slots ≢ s.queue.head
      → Step s silent (record s { producer = free x t (next_slot t s.queue.slots) })
  push_copy :
      (s : Shared) (x : Block) (t n : ℕ)
      → s.producer ≡ free x t n
      → Step s silent (record s { queue = copy_in s.queue t x; producer = copied x t n })
  push_store :
      (s : Shared) (x : Block) (t n : ℕ)
      → s.producer ≡ copied x t n
      → Step s (pushed x) (record s { queue = record s.queue { tail = n }; producer = idle })
  pop_load :
      (s : Shared)
      → s.consumer ≡ waiting
      → Step s silent (record s { consumer = looked s.queue.head })
  pop_empty :
      (s : Shared) (h : ℕ)
      → s.consumer ≡ looked h
      → h ≡ s.queue.tail
      → Step s nothing (record s { consumer = waiting })
  pop_filled :
      (s : Shared) (h : ℕ)
      → s.consumer ≡ looked h
      → h ≢ s.queue.tail
      → Step s silent (record s { consumer = filled h })
  pop_copy :
      (s : Shared) (h : ℕ) (x : Block)
      → s.consumer ≡ filled h
      → copy_out s.queue h ≡ some x
      → Step s silent (record s { consumer = taken h x })
  pop_store :
      (s : Shared) (h : ℕ) (x : Block)
      → s.consumer ≡ taken h x
      → Step s (popped x) (record s {
        queue = record s.queue { head = next_slot h s.queue.slots };
        consumer = waiting;
      })

-- Any number of steps, with their events in order.
pub data Steps : Shared → List Event → Shared → Type 0 where
  done : (s : Shared) → Steps s [] s
  more :
      (s t u : Shared) (e : Event) (es : List Event)
      → Step s e t
      → Steps t es u
      → Steps s (e ∷ es) u

abbrev pub pushes : List Event → List Block
pushes [] = []
pushes (silent ∷ es) = pushes es
pushes (pushed x ∷ es) = x ∷ pushes es
pushes (refused ∷ es) = pushes es
pushes (popped x ∷ es) = pushes es
pushes (nothing ∷ es) = pushes es

abbrev pub pops : List Event → List Block
pops [] = []
pops (silent ∷ es) = pops es
pops (pushed x ∷ es) = pops es
pops (refused ∷ es) = pops es
pops (popped x ∷ es) = x ∷ pops es
pops (nothing ∷ es) = pops es

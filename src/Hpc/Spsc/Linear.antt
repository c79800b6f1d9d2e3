-- ===== src/Hpc/Spsc/Linear.antt =====
-- The steps of the two threads against the bounded queue: every interleaving answers as if each
-- call had run at once at one of its steps.
use c_comprehensive_template.Prelude.{
  ℕ, ◌-◌, ◌<◌, ◌≡◌, ◌≢◌, ◌↔◌, refl, ap, sym, subst, ◌∙◌, List, [], ◌∷◌, ◌++◌, length, arith,
  ℕ_discrete,
}
use c_comprehensive_template.Bytes.{Block, slot}
use c_comprehensive_template.Bytes.Window.{window}
use c_comprehensive_template.Hpc.Spsc.{SpscQueue, copy_in, next_slot}
use c_comprehensive_template.Hpc.Spsc.Inv.{
  IsValid, block, contents, length-contents, next_injective, full_iff, empty_iff, contents-store,
  slot-copy_in, slot-copy_in_ne, copy_in-IsValid, contents-copy_in, contents_uncons,
}
use c_comprehensive_template.Hpc.Spsc.Step.{
  Producer, idle, loaded, free, copied, Consumer, waiting, looked, filled, taken, Shared, Event,
  silent, pushed, refused, popped, nothing, Step, push_load, push_full, push_free, push_copy,
  push_store, pop_load, pop_empty, pop_filled, pop_copy, pop_store,
}

-- What a call of spsc_push knows, whatever the consumer did since: its own tail, that the next
-- slot is not the consumer's, and what it copied. The elements offered have elem_size bytes.
abbrev pub Knows : SpscQueue → Producer → Type 0
Knows q idle = Unit
Knows q (loaded x t) = (t ≡ q.tail) × (length x ≡ q.elem_size)
Knows q (free x t n) =
    (t ≡ q.tail) × (length x ≡ q.elem_size) × (n ≡ next_slot t q.slots) × (n ≢ q.head)
Knows q (copied x t n) =
    (t ≡ q.tail) × (slot (block q) q.elem_size t ≡ x) × (n ≡ next_slot t q.slots) × (n ≢ q.head)

abbrev pub Sees : SpscQueue → Consumer → Type 0
Sees q waiting = Unit
Sees q (looked h) = h ≡ q.head
Sees q (filled h) = (h ≡ q.head) × (h ≢ q.tail)
Sees q (taken h x) = (h ≡ q.head) × (h ≢ q.tail) × (slot (block q) q.elem_size h ≡ x)

pub record Inv (s : Shared) : Type 0 where
  pub valid : IsValid s.queue
  pub knows : Knows s.queue s.producer
  pub sees : Sees s.queue s.consumer

-- What the bounded queue does at an event, with room for `n` elements.
abbrev pub Allowed : ℕ → List Block → Event → List Block → Type 0
Allowed n q silent q' = q' ≡ q
Allowed n q (pushed x) q' = (length q < n) × (q' ≡ q ++ x ∷ [])
Allowed n q refused q' = (length q ≡ n) × (q' ≡ q)
Allowed n q (popped x) q' = q ≡ x ∷ q'
Allowed n q nothing q' = (q ≡ []) × (q' ≡ q)

module _ {q : SpscQueue} (v : IsValid q) where
  -- The bytes copied in are none that the consumer has seen.
  Sees-copy_in : (x : Block) (c : Consumer) → Sees q c → Sees (copy_in q q.tail x) c
  Sees-copy_in x waiting h = tt
  Sees-copy_in x (looked i) h = h
  Sees-copy_in x (filled i) h = h
  Sees-copy_in x (taken i y) (h, apart, e) = (h, apart, slot-copy_in_ne v x i apart ∙ e)

  Sees-store :
      (c : Consumer)
      → next_slot q.tail q.slots ≢ q.head
      → Sees q c
      → Sees (record q { tail = next_slot q.tail q.slots }) c
  Sees-store waiting room h = tt
  Sees-store (looked i) room h = h
  Sees-store (filled i) room (h, apart) = (h, λ e. room (sym e ∙ h))
  Sees-store (taken i y) room (h, apart, e) = (h, λ p. room (sym p ∙ h), e)

  -- The consumer moves on from a filled slot, so it does not reach the producer's next one.
  Knows-store :
      (p : Producer)
      → q.head ≢ q.tail
      → Knows q p
      → Knows (record q { head = next_slot q.head q.slots }) p
  Knows-store idle some_there h = tt
  Knows-store (loaded x t) some_there h = h
  Knows-store (free x t n) some_there (here, size, next, room) =
      (here, size, next, λ e. some_there (moved t n here next e))
    where
      moved :
          (t n : ℕ)
          → t ≡ q.tail
          → n ≡ next_slot t q.slots
          → n ≡ next_slot q.head q.slots
          → q.head ≡ q.tail
      moved t n here next e =
          next_injective q.slots q.head q.tail v.several v.small v.head_in v.tail_in
            (sym e ∙ next ∙ ap (λ k. next_slot k q.slots) here)
  Knows-store (copied x t n) some_there (here, size, next, room) = (
    here,
    size,
    next,
    λ e. some_there (
        next_injective q.slots q.head q.tail v.several v.small v.head_in v.tail_in
          (sym e ∙ next ∙ ap (λ k. next_slot k q.slots) here)),
  )

  tail-IsValid : (n : ℕ) → n < q.slots → IsValid (record q { tail = n })
  tail-IsValid n h = record {
    storage = v.storage;
    fits = v.fits;
    wide = v.wide;
    several = v.several;
    small = v.small;
    head_in = v.head_in;
    tail_in = h;
  }

  head-IsValid : (n : ℕ) → n < q.slots → IsValid (record q { head = n })
  head-IsValid n h = record {
    storage = v.storage;
    fits = v.fits;
    wide = v.wide;
    several = v.several;
    small = v.small;
    head_in = h;
    tail_in = v.tail_in;
  }

  full_lem : (next_slot q.tail q.slots ≡ q.head) ↔ (length (contents q) ≡ q.slots - 1)
  full_lem =
      rw (length-contents q) (full_iff q.slots q.head q.tail v.several v.small v.head_in v.tail_in)

  few : length (contents q) < q.slots
  few = omega (arith, length-contents q, v.several)

  empty_lem : q.head ≡ q.tail → contents q ≡ []
  empty_lem e =
      ap (window (slot (block q) q.elem_size) q.slots q.head)
        ((empty_iff q.slots q.head q.tail v.several v.small v.head_in v.tail_in).0 e)

-- What a step preserves and does: the invariant afterwards, and the queue's part in it.
abbrev pub Simulates : Shared → Event → Shared → Type 0
Simulates s e t = Inv t × Allowed (s.queue.slots - 1) (contents s.queue) e (contents t.queue)

module _ {s : Shared} (i : Inv s) where
  refuse :
      (t : ℕ)
      → t ≡ s.queue.tail
      → next_slot t s.queue.slots ≡ s.queue.head
      → Simulates s refused (record s { producer = idle })
  refuse t here full = (
    record { valid = i.valid; knows = tt; sees = i.sees },
    ((full_lem i.valid).0 (rw here at full), refl),
  )

  copy :
      (x : Block) (n : ℕ)
      → length x ≡ s.queue.elem_size
      → n ≡ next_slot s.queue.tail s.queue.slots
      → n ≢ s.queue.head
      → Simulates s silent
          (record s { queue = copy_in s.queue s.queue.tail x; producer = copied x s.queue.tail n })
  copy x n size next room = (
    record {
      valid = copy_in-IsValid i.valid x;
      knows = (refl, slot-copy_in i.valid x size, next, room);
      sees = Sees-copy_in i.valid x s.consumer i.sees;
    },
    contents-copy_in i.valid x,
  )

  store :
      (x : Block)
      → slot (block s.queue) s.queue.elem_size s.queue.tail ≡ x
      → next_slot s.queue.tail s.queue.slots ≢ s.queue.head
      → Simulates s (pushed x) (record s {
        queue = record s.queue { tail = next_slot s.queue.tail s.queue.slots };
        producer = idle;
      })
  store x held room = (
    record {
      valid =
          tail-IsValid i.valid (next_slot s.queue.tail s.queue.slots)
            (omega (arith, i.valid.several));
      knows = tt;
      sees = Sees-store i.valid s.consumer room i.sees;
    },
    (spare, contents-store i.valid room ∙ ap (λ y. contents s.queue ++ y ∷ []) held),
  )
    where
      spare : length (contents s.queue) < s.queue.slots - 1
      spare = elim (ℕ_discrete (length (contents s.queue)) (s.queue.slots - 1)) [
        | yes e ↦ absurd (room ((full_lem i.valid).1 e))
        | no ne ↦ omega (arith, few i.valid)
      ]

  release :
      (x : Block)
      → s.queue.head ≢ s.queue.tail
      → slot (block s.queue) s.queue.elem_size s.queue.head ≡ x
      → Simulates s (popped x) (record s {
        queue = record s.queue { head = next_slot s.queue.head s.queue.slots };
        consumer = waiting;
      })
  release x some_there held = (
    record {
      valid =
          head-IsValid i.valid (next_slot s.queue.head s.queue.slots)
            (omega (arith, i.valid.several));
      knows = Knows-store i.valid s.producer some_there i.knows;
      sees = tt;
    },
    contents_uncons i.valid some_there
        ∙ ap (λ y. y ∷ contents (record s.queue { head = next_slot s.queue.head s.queue.slots }))
            held,
  )

-- Every step of either thread, from a state of the invariant, keeps it and does to the contents
-- what its event means for a queue of slots - 1 elements.
pub step_lem : (s t : Shared) (e : Event) → Step s e t → Inv s → Simulates s e t
step_lem s t e (push_load _ x p size) i =
    (record { valid = i.valid; knows = (refl, size); sees = i.sees }, refl)
step_lem s t e (push_full _ x k p full) i = refuse i k (rw p at i.knows).0 full
step_lem s t e (push_free _ x k p room) i =
    let (here, size) = rw p at i.knows in
    (record { valid = i.valid; knows = (here, size, refl, room); sees = i.sees }, refl)
step_lem s t e (push_copy _ x k n p) i =
    let (here, size, next, room) = rw p at i.knows in
    subst
      (λ k. Simulates s silent (record s { queue = copy_in s.queue k x; producer = copied x k n }))
      (sym here) (copy i x n size (rw here at next) room)
step_lem s t e (push_store _ x k n p) i =
    let (here, held, next, room) = rw p at i.knows in
    let next' : n ≡ next_slot s.queue.tail s.queue.slots = rw here at next in
    subst
      (λ n.
        Simulates s (pushed x) (record s { queue = record s.queue { tail = n }; producer = idle }))
      (sym next') (store i x (rw here at held) (rw next' at room))
step_lem s t e (pop_load _ p) i = (record { valid = i.valid; knows = i.knows; sees = refl }, refl)
step_lem s t e (pop_empty _ h p empty) i =
    let here : h ≡ s.queue.head = rw p at i.sees in
    (
      record { valid = i.valid; knows = i.knows; sees = tt },
      (empty_lem i.valid (sym here ∙ empty), refl),
    )
step_lem s t e (pop_filled _ h p room) i =
    let here : h ≡ s.queue.head = rw p at i.sees in
    (record { valid = i.valid; knows = i.knows; sees = (here, room) }, refl)
step_lem s t e (pop_copy _ h x p read) i =
    let (here, room) = rw p at i.sees in
    let held : slot (block s.queue) s.queue.elem_size h ≡ x = ground (arith, i.valid.storage) in
    (record { valid = i.valid; knows = i.knows; sees = (here, room, held) }, refl)
step_lem s t e (pop_store _ h x p) i =
    let (here, room, held) = rw p at i.sees in
    subst
      (λ h. Simulates s (popped x) (record s {
        queue = record s.queue { head = next_slot h s.queue.slots };
        consumer = waiting;
      }))
      (sym here) (release i x (rw here at room) (rw here at held))

-- ===== src/Hpc/BlockingQueue/Refine.antt =====
-- The turns of src/hpc/blocking_queue.c against the bounded queue: the storage is that of a ring
-- buffer, whose theorems give the contents after a turn.
use c_comprehensive_template.Prelude.{
  ◌+◌, ◌-◌, ◌%◌, ◌<◌, ◌≡◌, ◌≢◌, refl, ap, true, false, Option, none, some, List, [], ◌∷◌, ◌++◌,
  length, arith, inl, inr, Bool-cases, ℕ_discrete,
}
use c_comprehensive_template.Bytes.{Block, slot, set_slot, add_size}
use c_comprehensive_template.Bytes.Window.{window}
use c_comprehensive_template.Core.Error.{not_found, unsupported}
use c_comprehensive_template.Containers.RingBuf.{RingBuf, tail_index}
use c_comprehensive_template.Containers.RingBuf.Inv.{block}
use c_comprehensive_template.Containers.RingBuf.Inv
use c_comprehensive_template.Containers.RingBuf.Refine.{
  length-contents, pushed, pushed-Holds, popped-Holds,
}
use c_comprehensive_template.Hpc.BlockingQueue.{
  BlockingQueue, Turn, wait, moved, refused, push_turn, pop_turn,
}

abbrev pub ring : BlockingQueue → RingBuf
ring q = record {
  bytes = q.bytes;
  elem_size = q.elem_size;
  capacity = q.capacity;
  head = q.head;
  len = q.len;
}

abbrev pub IsValid : BlockingQueue → Type 0
IsValid q = Inv.IsValid (ring q)

abbrev pub contents : BlockingQueue → List Block
contents q = Inv.contents (ring q)

-- What a turn leaves as it was.
abbrev pub Same : BlockingQueue → BlockingQueue → Type 0
Same q q' = (q'.capacity ≡ q.capacity) × (q'.elem_size ≡ q.elem_size) × (q'.closed ≡ q.closed)

pub len-contents : (q : BlockingQueue) → length (contents q) ≡ q.len
len-contents q = length-contents (ring q)

-- What bq_push does in a turn.
pub data Pushed (q : BlockingQueue) (x : Block) (out : Turn × BlockingQueue) : Type 0 where
  full : out ≡ (wait, q) → q.len ≡ q.capacity → q.closed ≡ false → Pushed q x out
  shut : out ≡ (refused unsupported, q) → q.closed ≡ true → Pushed q x out
  stored :
      (q' : BlockingQueue)
      → out ≡ (moved, q')
      → q.closed ≡ false
      → q.len < q.capacity
      → IsValid q'
      → contents q' ≡ contents q ++ x ∷ []
      → q'.len ≡ q.len + 1
      → Same q q'
      → Pushed q x out

-- What bq_pop does in a turn.
pub data Popped (q : BlockingQueue) (out : Turn × Option Block × BlockingQueue) : Type 0 where
  empty : out ≡ (wait, none, q) → contents q ≡ [] → q.closed ≡ false → Popped q out
  drained : out ≡ (refused not_found, none, q) → contents q ≡ [] → q.closed ≡ true → Popped q out
  taken :
      (q' : BlockingQueue) (x : Block)
      → out ≡ (moved, some x, q')
      → contents q ≡ x ∷ contents q'
      → IsValid q'
      → q.len ≡ q'.len + 1
      → Same q q'
      → Popped q out

module _ (q : BlockingQueue) (b : Block) (e : q.bytes ≡ some b) where
  push_turn_runs :
      (x : Block)
      → q.closed ≡ false
      → q.len < q.capacity
      → push_turn q x ≡ (
        moved,
        record q {
          bytes = some (set_slot b q.elem_size (add_size q.head q.len % q.capacity) x);
          len = add_size q.len 1;
        },
      )
  unfolding push_turn
  push_turn_runs x open_still room = ground (arith, e)

  pop_turn_runs :
      q.len ≢ 0
      → pop_turn q ≡ (
        moved,
        some (slot b q.elem_size q.head),
        record q { head = add_size q.head 1 % q.capacity; len = q.len - 1 },
      )
  unfolding pop_turn
  pop_turn_runs ne = ground (arith, e)

module _ {q : BlockingQueue} (v : IsValid q) where
  -- A turn of bq_push on a valid queue waits exactly if the queue is full and open, answers
  -- ERR_UNSUPPORTED exactly if it is closed, and otherwise appends the element.
  pub push_turn_lem : (x : Block) → length x ≡ q.elem_size → Pushed q x (push_turn q x)
  unfolding push_turn pushed
  push_turn_lem x size = elim (Bool-cases q.closed) [
    | inl closed ↦ shut (ground arith) closed
    | inr open_still ↦ elim (ℕ_discrete q.len q.capacity) [
      | yes e ↦ full (ground arith) e open_still
      | no ne ↦
          let len_in = v.len_in in
          let small = v.small in
          let room : q.len < q.capacity = omega arith in
          let h = pushed-Holds v x size room in
          stored
            (record q {
              bytes = some (set_slot (block (ring q)) q.elem_size (tail_index (ring q)) x);
              len = add_size q.len 1;
            })
            (push_turn_runs q (block (ring q)) v.storage x open_still room) open_still room h.valid
            h.elements (omega arith) (refl, refl, refl)
    ]
  ]

  -- A turn of bq_pop on a valid queue waits exactly if the queue is empty and open, answers
  -- ERR_NOT_FOUND exactly if it is empty and closed, and otherwise takes the oldest element.
  pub pop_turn_lem : Popped q (pop_turn q)
  unfolding pop_turn
  pop_turn_lem = elim (ℕ_discrete q.len 0) [
    | yes e ↦
        let none_left : contents q ≡ [] =
          ap (window (slot (block (ring q)) q.elem_size) q.capacity q.head) e in
        elim (Bool-cases q.closed) [
          | inl closed ↦ drained (ground arith) none_left closed
          | inr open_still ↦ empty (ground arith) none_left open_still
        ]
    | no ne ↦
        let (split, h) = popped-Holds v ne in
        taken (record q { head = add_size q.head 1 % q.capacity; len = q.len - 1 })
          (slot (block (ring q)) q.elem_size q.head) (pop_turn_runs q (block (ring q)) v.storage ne)
          split h.valid (omega arith) (refl, refl, refl)
  ]

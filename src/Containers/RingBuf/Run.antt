-- ===== src/Containers/RingBuf/Run.antt =====
-- Sequences of calls on one ring: what a client sees of each.
use c_comprehensive_template.Prelude.{
  ℕ, ◌≡◌, refl, ap, ap₂, ◌∙◌, Option, none, some, List, [], ◌∷◌, length, true,
}
use c_comprehensive_template.Bytes.{Block}
use c_comprehensive_template.Core.Error.{ErrorCode}
use c_comprehensive_template.Containers.Queue
use c_comprehensive_template.Containers.RingBuf.{RingBuf, push, push_overwrite, pop}
use c_comprehensive_template.Containers.RingBuf.Inv.{IsValid, contents}
use c_comprehensive_template.Containers.RingBuf.Refine.{
  Holds, push-Refines, push_overwrite-Refines, pop_refines,
}

pub data Op : Type 0 where
  put : Block → Op
  force : Block → Op
  get : Op

abbrev pub Reply : Type 0
Reply = ErrorCode × Option Block

-- The calls in order on the ring, with the code and the element that each gives back.
unfoldable pub run : Option RingBuf → List Op → List Reply
run r [] = []
run r (put x ∷ ops) = let (e, r') = push r (some x) in (e, none) ∷ run r' ops
run r (force x ∷ ops) = let (e, r') = push_overwrite r (some x) in (e, none) ∷ run r' ops
run r (get ∷ ops) = let (e, out, r') = pop r true in (e, out) ∷ run r' ops

-- The same calls on the abstract queue of n elements.
pub run_queue : ℕ → List Block → List Op → List Reply
run_queue n q [] = []
run_queue n q (put x ∷ ops) = let (e, q') = Queue.push n q x in (e, none) ∷ run_queue n q' ops
run_queue n q (force x ∷ ops) =
    let (e, q') = Queue.push_overwrite n q x in (e, none) ∷ run_queue n q' ops
run_queue n q (get ∷ ops) = let (e, out, q') = Queue.pop q in (e, out) ∷ run_queue n q' ops

-- Each element that the calls pass in has es bytes.
abbrev pub Sized : ℕ → List Op → Type 0
Sized es [] = Unit
Sized es (put x ∷ ops) = (length x ≡ es) × Sized es ops
Sized es (force x ∷ ops) = (length x ≡ es) × Sized es ops
Sized es (get ∷ ops) = Sized es ops

resume :
    {r r' : RingBuf} {q : List Block} (ops : List Op)
    → Holds r q r'
    → run (some r') ops ≡ run_queue r'.capacity (contents r') ops
    → run (some r') ops ≡ run_queue r.capacity q ops
resume ops h same = same ∙ ap₂ (λ n q. run_queue n q ops) h.same_capacity h.elements

-- No sequence of calls with elements of the ring's size tells a valid ring from the bounded queue
-- of its contents.
pub run_refines :
    (ops : List Op) (r : RingBuf)
    → IsValid r
    → Sized r.elem_size ops
    → run (some r) ops ≡ run_queue r.capacity (contents r) ops
unfolding run run_queue
run_refines [] r v s = refl
run_refines (put x ∷ ops) r v s =
    let (r', e, h) = push-Refines v x s.0 in
    let rest = resume ops h (run_refines ops r' h.valid (rw h.same_size s.1)) in
    rw e (ap (λ t. ((Queue.push r.capacity (contents r) x).0, none) ∷ t) rest)
run_refines (force x ∷ ops) r v s =
    let (r', e, h) = push_overwrite-Refines v x s.0 in
    let rest = resume ops h (run_refines ops r' h.valid (rw h.same_size s.1)) in
    rw e (ap (λ t. ((Queue.push_overwrite r.capacity (contents r) x).0, none) ∷ t) rest)
run_refines (get ∷ ops) r v s =
    let (r', e, h) = pop_refines v true in
    let rest = resume ops h (run_refines ops r' h.valid (rw h.same_size s)) in
    rw e (ap (λ t. ((Queue.pop (contents r)).0, (Queue.pop (contents r)).1) ∷ t) rest)

-- ===== src/Hpc/Spsc/Fifo.antt =====
-- Whole runs of the two threads of src/hpc/spsc.c: the order of the elements, and the copies.
use c_comprehensive_template.Prelude.{
  ℕ, ◌+◌, ◌-◌, ◌*◌, ◌≤◌, ◌≡◌, ◌≢◌, ap, sym, ◌∙◌, List, [], ◌∷◌, ◌++◌, length, arith, append-nil,
  append_assoc,
}
use c_comprehensive_template.Bytes.{Block}
use c_comprehensive_template.Hpc.Spsc.Inv.{block, contents}
use c_comprehensive_template.Hpc.Spsc.Step.{
  free, filled, Shared, Event, silent, pushed, refused, popped, nothing, Steps, done, more, pushes,
  pops,
}
use c_comprehensive_template.Hpc.Spsc.Linear.{Inv, Allowed, step_lem}

-- One event and the events after it, on queues p, q and r.
chain :
    (n : ℕ) (e : Event) (es : List Event) (p q r : List Block)
    → Allowed n p e q
    → q ++ pushes es ≡ pops es ++ r
    → p ++ pushes (e ∷ es) ≡ pops (e ∷ es) ++ r
chain n silent es p q r h rest = rw (← h) rest
chain n (pushed x) es p q r (room, h) rest =
    sym (append_assoc p (x ∷ []) (pushes es)) ∙ ap (λ l. l ++ pushes es) (sym h) ∙ rest
chain n refused es p q r (full, h) rest = rw (← h) rest
chain n (popped x) es p q r h rest = rw h (ap (λ l. x ∷ l) rest)
chain n nothing es p q r (empty, h) rest = rw (← h) rest

-- Whatever the interleaving, what was in the queue followed by what was pushed is what was popped
-- followed by what is left: nothing is lost, duplicated or reordered.
pub Steps-Inv :
    (s t : Shared) (es : List Event)
    → Steps s es t
    → Inv s
    → Inv t × (contents s.queue ++ pushes es ≡ pops es ++ contents t.queue)
Steps-Inv s t es (done _) i = (i, append-nil (contents s.queue))
Steps-Inv s t es (more _ u _ e rest first later) i =
    let (j, here) = step_lem s u e first i in
    let (k, after) = Steps-Inv u t rest later j in
    (
      k,
      chain (s.queue.slots - 1) e rest (contents s.queue) (contents u.queue) (contents t.queue) here
          after,
    )

-- In no reachable state are the two threads about to copy at the same slot, and both slots lie in
-- the storage.
pub race_free :
    (s u : Shared) (es : List Event)
    → Steps s es u
    → Inv s
    → (x : Block) (t n h : ℕ) → u.producer ≡ free x t n
    → u.consumer ≡ filled h
    → (h ≢ t)
      × (t * u.queue.elem_size + u.queue.elem_size ≤ length (block u.queue))
      × (h * u.queue.elem_size + u.queue.elem_size ≤ length (block u.queue))
race_free s u es run i x t n h p c =
    let j = (Steps-Inv s u es run i).0 in
    let (here, size, next, room) = rw p at j.knows in
    let (there, apart) = rw c at j.sees in
    let fits = j.valid.fits in
    let head_in = j.valid.head_in in
    let tail_in = j.valid.tail_in in (λ e. apart (e ∙ here), grind arith, grind arith)

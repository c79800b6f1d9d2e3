-- ===== src/Hpc/BlockingQueue/Fifo.antt =====
-- Whole runs of the threads of src/hpc/blocking_queue.c.
use c_comprehensive_template.Prelude.{
  ◌≡◌, ◌≢◌, ap, sym, ◌∙◌, true, List, [], ◌∷◌, ◌++◌, arith, append-nil, append_assoc,
}
use c_comprehensive_template.Bytes.{Block}
use c_comprehensive_template.Hpc.BlockingQueue.{BlockingQueue}
use c_comprehensive_template.Hpc.BlockingQueue.Step.{
  Shared, Event, silent, pushed, popped, push_refused, pop_refused, shut, Steps, done, more, pushes,
  pops,
}
use c_comprehensive_template.Hpc.BlockingQueue.Refine.{contents}
use c_comprehensive_template.Hpc.BlockingQueue.Wake.{Inv, Allowed, turn_lem}

-- One event and the events after it, on queues p and q, with r left in the end.
chain :
    (e : Event) (es : List Event) (p q : BlockingQueue) (r : List Block)
    → Allowed p e q
    → contents q ++ pushes es ≡ pops es ++ r
    → contents p ++ pushes (e ∷ es) ≡ pops (e ∷ es) ++ r
chain silent es p q r (h, _) rest = rw (← h) rest
chain (pushed x) es p q r (_, _, h, _) rest =
    sym (append_assoc (contents p) (x ∷ []) (pushes es)) ∙ ap (λ l. l ++ pushes es) (sym h) ∙ rest
chain (popped x) es p q r (h, _) rest = ap (λ l. l ++ pushes es) h ∙ ap (λ l. x ∷ l) rest
chain (push_refused e) es p q r (_, _, h) rest = rw (← h) rest
chain (pop_refused e) es p q r (_, _, _, h) rest = rw (← h) rest
chain shut es p q r (h, _) rest = rw (← h) rest

-- Whatever the interleaving of any number of producers and consumers, what was in the queue
-- followed by what was pushed is what was popped followed by what is left; the invariant holds in
-- the end.
pub bq-Steps-Inv :
    (s t : Shared) (es : List Event)
    → Steps s es t
    → Inv s
    → Inv t × (contents s.queue ++ pushes es ≡ pops es ++ contents t.queue)
bq-Steps-Inv s t es (done _) i = (i, append-nil (contents s.queue))
bq-Steps-Inv s t es (more _ u _ e rest first later) i =
    let (j, here) = turn_lem s u e first i in
    let (k, after) = bq-Steps-Inv u t rest later j in
    (k, chain e rest s.queue u.queue (contents t.queue) here after)

-- No lost wake-up: in every reachable state, a consumer that sleeps while there is an element, a
-- producer that sleeps while there is room, has a woken thread of its kind that will take a turn;
-- and nobody sleeps once the queue is closed.
pub no_lost_wakeup :
    (s t : Shared) (es : List Event)
    → Steps s es t
    → Inv s
    → (t.poppers.asleep ≢ 0 → t.queue.len ≢ 0 → t.poppers.woken ≢ 0)
      × (t.pushers.asleep ≢ 0 → t.queue.len ≢ t.queue.capacity → t.pushers.woken ≢ 0)
      × (t.queue.closed ≡ true → (t.pushers.asleep ≡ 0) × (t.poppers.asleep ≡ 0))
no_lost_wakeup s t es run i =
    let j = (bq-Steps-Inv s t es run i).0 in
    let consumers = j.poppers_heard in
    let producers = j.pushers_heard in
    let len_in = j.valid.len_in in (λ a n. ground arith, λ a n. ground arith, j.quiet)

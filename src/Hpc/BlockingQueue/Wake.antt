-- ===== src/Hpc/BlockingQueue/Wake.antt =====
-- Every interleaving of the threads of src/hpc/blocking_queue.c: the order of the elements, and
-- that no thread sleeps through what it waits for.
use c_comprehensive_template.Prelude.{
  ℕ, suc, ◌+◌, ◌-◌, ◌≤◌, ◌<◌, ◌≡◌, refl, ap, sym, ◌∙◌, Bool, true, false, none, some, [], ◌∷◌, ◌++◌,
  length, arith, inl, inr, ◌⊎◌,
}
use c_comprehensive_template.Bytes.{Block}
use c_comprehensive_template.Core.Error.{ErrorCode, not_found, unsupported}
use c_comprehensive_template.Hpc.BlockingQueue.{
  BlockingQueue, wait, moved, refused, push_turn, pop_turn, close,
}
use c_comprehensive_template.Hpc.BlockingQueue.Step.{
  Waiters, signal, broadcast, Shared, Caller, fresh, resumed, IsThere, take_turn, sleep, Event,
  silent, pushed, popped, push_refused, pop_refused, shut, Step, push_waits, push_moves, push_fails,
  pop_waits, pop_moves, pop_fails, closes, wakes_pusher, wakes_popper,
}
use c_comprehensive_template.Hpc.BlockingQueue.Refine.{
  IsValid, contents, len-contents, Pushed, full, stored, empty, drained, taken, push_turn_lem,
  pop_turn_lem,
}

-- If a thread sleeps, then at least as many threads are woken as there are things to wait for.
abbrev pub Heard : Waiters → ℕ → Type 0
Heard w n = (w.asleep ≡ 0) ⊎ (n ≤ w.woken)

-- A closed queue lets nobody sleep.
abbrev pub Quiet : Bool → Waiters → Waiters → Type 0
Quiet closed v w = closed ≡ true → (v.asleep ≡ 0) × (w.asleep ≡ 0)

pub record Inv (s : Shared) : Type 0 where
  pub valid : IsValid s.queue
  pub poppers_heard : Heard s.poppers s.queue.len
  pub pushers_heard : Heard s.pushers (s.queue.capacity - s.queue.len)
  pub quiet : Quiet s.queue.closed s.pushers s.poppers

-- What the bounded queue with a closed flag does at an event.
abbrev pub Allowed : BlockingQueue → Event → BlockingQueue → Type 0
Allowed q silent q' = (contents q' ≡ contents q) × (q'.closed ≡ q.closed)
Allowed q (pushed x) q' =
    (length (contents q) < q.capacity)
    × (q.closed ≡ false)
    × (contents q' ≡ contents q ++ x ∷ [])
    × (q'.closed ≡ false)
Allowed q (popped x) q' = (contents q ≡ x ∷ contents q') × (q'.closed ≡ q.closed)
Allowed q (push_refused e) q' = (e ≡ unsupported) × (q.closed ≡ true) × (q' ≡ q)
Allowed q (pop_refused e) q' = (e ≡ not_found) × (q.closed ≡ true) × (contents q ≡ []) × (q' ≡ q)
Allowed q shut q' = (contents q' ≡ contents q) × (q'.closed ≡ true)

-- Waking and taking turns.
module _ (w : Waiters) where
  pub signal_asleep : w.asleep ≡ 0 → (signal w).asleep ≡ 0
  signal_asleep e = ground (arith, e)

  pub signal-Heard : (n : ℕ) → Heard w n → Heard (signal w) (suc n)
  signal-Heard n h = ground arith

  pub signal-Heard_same : (n : ℕ) → Heard w n → Heard (signal w) n
  signal-Heard_same n h = ground arith

  pub signal_total : (signal w).asleep + (signal w).woken ≡ w.asleep + w.woken
  signal_total = ground arith

  take_turn-Heard : (c : Caller) (n : ℕ) → IsThere w c → Heard w (suc n) → Heard (take_turn w c) n
  take_turn-Heard fresh n t h = ground arith
  take_turn-Heard resumed n t h = ground arith

  take_turn_asleep : (c : Caller) → (take_turn w c).asleep ≡ w.asleep
  take_turn_asleep fresh = refl
  take_turn_asleep resumed = refl

-- What a step preserves and does.
abbrev pub Simulates : Shared → Event → Shared → Type 0
Simulates s e t = Inv t × Allowed s.queue e t.queue

module _ {s : Shared} (i : Inv s) where
  open i use {valid, poppers_heard, pushers_heard, quiet}

  pushes_lem :
      (c : Caller) (x : Block) (q : BlockingQueue)
      → IsThere s.pushers c
      → length x ≡ s.queue.elem_size
      → push_turn s.queue x ≡ (moved, q)
      → Simulates s
          (pushed x)
          (record { queue = q; pushers = take_turn s.pushers c; poppers = signal s.poppers })
  pushes_lem c x q there size e = elim (push_turn_lem {q = s.queue} valid x size) [
    | full f _ _ ↦ absurd (ground (arith, e, f))
    | Pushed.shut f _ ↦ absurd (ground (arith, e, f))
    | stored q' f open_still room v grown longer (cap_same, size_same, closed_same) ↦
        let same : q ≡ q' = ground (arith, e, f) in
        let more_there : q'.len ≡ suc s.queue.len = omega (arith, longer) in
        let less : s.queue.capacity - s.queue.len ≡ suc (q'.capacity - q'.len) =
          omega (arith, cap_same, longer) in
        rw same (
          record {
            valid = v;
            poppers_heard = rw more_there (signal-Heard s.poppers s.queue.len poppers_heard);
            pushers_heard =
                take_turn-Heard s.pushers c (q'.capacity - q'.len) there (rw less at pushers_heard);
            quiet = λ h. absurd (ground (arith, closed_same, open_still, h));
          },
          (omega (arith, len-contents s.queue), open_still, grown, closed_same ∙ open_still),
        )
  ]

  push_waits_lem :
      (c : Caller) (x : Block) (q : BlockingQueue)
      → length x ≡ s.queue.elem_size
      → push_turn s.queue x ≡ (wait, q)
      → Simulates s silent (record s { queue = q; pushers = sleep (take_turn s.pushers c) })
  push_waits_lem c x q size e = elim (push_turn_lem {q = s.queue} valid x size) [
    | stored q' f _ _ _ _ _ _ ↦ absurd (ground (arith, e, f))
    | Pushed.shut f _ ↦ absurd (ground (arith, e, f))
    | full f at_limit open_still ↦
        let same : q ≡ s.queue = ground (arith, e, f) in
        rw same (
          record {
            valid = valid;
            poppers_heard = poppers_heard;
            pushers_heard = inr (omega arith);
            quiet = λ h. absurd (ground (arith, open_still, h));
          },
          (refl, refl),
        )
  ]

  push_fails_lem :
      (c : Caller) (x : Block) (q : BlockingQueue) (r : ErrorCode)
      → length x ≡ s.queue.elem_size
      → push_turn s.queue x ≡ (refused r, q)
      → Simulates s (push_refused r) (record s { queue = q; pushers = take_turn s.pushers c })
  push_fails_lem c x q r size e = elim (push_turn_lem {q = s.queue} valid x size) [
    | stored q' f _ _ _ _ _ _ ↦ absurd (ground (arith, e, f))
    | full f _ _ ↦ absurd (ground (arith, e, f))
    | Pushed.shut f closed ↦
        let same : q ≡ s.queue = ground (arith, e, f) in
        let (nobody, none_asleep) = quiet closed in
        let still = take_turn_asleep s.pushers c ∙ nobody in
        (
          rw same (record {
            valid = valid;
            poppers_heard = poppers_heard;
            pushers_heard = inl still;
            quiet = λ h. (still, none_asleep);
          }),
          (ground (arith, e, f), closed, same),
        )
  ]

  pops_lem :
      (c : Caller) (x : Block) (q : BlockingQueue)
      → IsThere s.poppers c
      → pop_turn s.queue ≡ (moved, some x, q)
      → Simulates s
          (popped x)
          (record { queue = q; pushers = signal s.pushers; poppers = take_turn s.poppers c })
  pops_lem c x q there e = elim (pop_turn_lem {q = s.queue} valid) [
    | empty f _ _ ↦ absurd (ground (arith, e, f))
    | drained f _ _ ↦ absurd (ground (arith, e, f))
    | taken q' y f split v longer (cap_same, size_same, closed_same) ↦
        let same : q ≡ q' = ground (arith, e, f) in
        let elem : x ≡ y = ground (arith, e, f) in
        let less : s.queue.len ≡ suc q'.len = omega (arith, longer) in
        let len_in = v.len_in in
        let old_in = valid.len_in in
        let more_room : q'.capacity - q'.len ≡ suc (s.queue.capacity - s.queue.len) =
          omega (arith, cap_same, longer) in
        rw same (
          record {
            valid = v;
            poppers_heard = take_turn-Heard s.poppers c q'.len there (rw less at poppers_heard);
            pushers_heard =
                rw more_room
                  (signal-Heard s.pushers (s.queue.capacity - s.queue.len) pushers_heard);
            quiet = λ h.
                let (a, b) = quiet (sym closed_same ∙ h) in
                (signal_asleep s.pushers a, take_turn_asleep s.poppers c ∙ b);
          },
          (rw elem split, closed_same),
        )
  ]

  pop_waits_lem :
      (c : Caller) (q : BlockingQueue)
      → pop_turn s.queue ≡ (wait, none, q)
      → Simulates s silent (record s { queue = q; poppers = sleep (take_turn s.poppers c) })
  pop_waits_lem c q e = elim (pop_turn_lem {q = s.queue} valid) [
    | drained f _ _ ↦ absurd (ground (arith, e, f))
    | taken q' y f _ _ _ _ ↦ absurd (ground (arith, e, f))
    | empty f nothing open_still ↦
        let same : q ≡ s.queue = ground (arith, e, f) in
        let zero_len : s.queue.len ≡ 0 = sym (len-contents s.queue) ∙ ap length nothing in
        rw same (
          record {
            valid = valid;
            poppers_heard = inr (omega (arith, zero_len));
            pushers_heard = pushers_heard;
            quiet = λ h. absurd (ground (arith, open_still, h));
          },
          (refl, refl),
        )
  ]

  pop_fails_lem :
      (c : Caller) (q : BlockingQueue) (r : ErrorCode)
      → pop_turn s.queue ≡ (refused r, none, q)
      → Simulates s (pop_refused r) (record s { queue = q; poppers = take_turn s.poppers c })
  pop_fails_lem c q r e = elim (pop_turn_lem {q = s.queue} valid) [
    | empty f _ _ ↦ absurd (ground (arith, e, f))
    | taken q' y f _ _ _ _ ↦ absurd (ground (arith, e, f))
    | drained f nothing closed ↦
        let same : q ≡ s.queue = ground (arith, e, f) in
        let (nobody, none_asleep) = quiet closed in
        let still = take_turn_asleep s.poppers c ∙ none_asleep in
        (
          rw same (record {
            valid = valid;
            poppers_heard = inl still;
            pushers_heard = pushers_heard;
            quiet = λ h. (nobody, still);
          }),
          (ground (arith, e, f), closed, nothing, same),
        )
  ]

  closes_lem : Simulates s shut (record {
    queue = close s.queue;
    pushers = broadcast s.pushers;
    poppers = broadcast s.poppers;
  })
  unfolding close
  closes_lem =
      let stored_at = valid.storage in
      let same : close s.queue ≡ record s.queue { closed = true } = ground (arith, stored_at) in
      rw same (
        record {
          valid = valid;
          poppers_heard = inl refl;
          pushers_heard = inl refl;
          quiet = λ h. (refl, refl);
        },
        (refl, refl),
      )

-- Every turn of a thread, every wake-up and every close keeps the invariant and does to the
-- contents and to the closed flag what its answer means; a refusal is for a closed queue.
pub turn_lem : (s t : Shared) (e : Event) → Step s e t → Inv s → Simulates s e t
turn_lem s t e (push_waits _ c x q there size h) i = push_waits_lem i c x q size h
turn_lem s t e (push_moves _ c x q there size h) i = pushes_lem i c x q there size h
turn_lem s t e (push_fails _ c x q r there size h) i = push_fails_lem i c x q r size h
turn_lem s t e (pop_waits _ c q there h) i = pop_waits_lem i c q h
turn_lem s t e (pop_moves _ c x q there h) i = pops_lem i c x q there h
turn_lem s t e (pop_fails _ c q r there h) i = pop_fails_lem i c q r h
turn_lem s t e (closes _) i = closes_lem i
turn_lem s t e (wakes_pusher _) i = (
  record {
    valid = i.valid;
    poppers_heard = i.poppers_heard;
    pushers_heard = signal-Heard_same s.pushers (s.queue.capacity - s.queue.len) i.pushers_heard;
    quiet = λ h. let (a, b) = i.quiet h in (signal_asleep s.pushers a, b);
  },
  (refl, refl),
)
turn_lem s t e (wakes_popper _) i = (
  record {
    valid = i.valid;
    poppers_heard = signal-Heard_same s.poppers s.queue.len i.poppers_heard;
    pushers_heard = i.pushers_heard;
    quiet = λ h. let (a, b) = i.quiet h in (a, signal_asleep s.poppers b);
  },
  (refl, refl),
)

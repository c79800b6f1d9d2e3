-- ===== src/Hpc/ThreadPool/Workers.antt =====
-- A step of a worker of src/hpc/thread_pool.c keeps the invariant.
use c_comprehensive_template.Prelude.{
  ℕ, suc, ◌+◌, ◌≡◌, ◌≢◌, refl, ap, sym, subst, ◌∙◌, Bool, true, false, none, some, List, [], ◌∷◌,
  ◌++◌, length, arith, ◌==◌, if◌then◌else◌, ℕ_discrete, inl, inr, append-nil, length-append,
}
use c_comprehensive_template.Hpc.BlockingQueue.Step.{sleep, fresh, resumed}
use c_comprehensive_template.Hpc.ThreadPool.{
  Task, Heap, ThreadPool, Turn, wait, leave, take_task, worker_turn, store,
}
use c_comprehensive_template.Hpc.ThreadPool.Nodes.{
  Job, job_at, jobs, count, count-append, jobs-store, Linked-store, store_self, store_other,
}
use c_comprehensive_template.Hpc.ThreadPool.Turns.{
  IsQueue, Same, sleeps, leaves, takes, worker_turn_lem, Owned, Owned-same,
}
use c_comprehensive_template.Hpc.ThreadPool.Step.{
  Shared, enter, after, Event, silent, took, started, finished, met, WorkerStep, turns, starts,
  finishes,
}
use c_comprehensive_template.Hpc.ThreadPool.Inv.{
  holders, Within, Inv, tally, Does, Simulates, idle, entered,
}

-- A state of the pool that differs in the condition variable and in who left.
module _ (s : Shared) (q : List ℕ) (i : Within 1 s q) where
  open i use {list, owners, threads, heard, quiet, left}

  sleeps-Inv :
      q ≡ []
      → s.pool.shutdown ≡ false
      → Inv (record s { pool = record s.pool { cond = sleep s.pool.cond } }) q
  sleeps-Inv e up = record {
    list = list;
    owners = owners;
    threads = omega (arith, threads);
    heard = inr (rw (e) (omega arith));
    quiet = λ d. absurd (ground (arith, up, d));
    left = left;
  }

  leaves-Inv : q ≡ [] → s.pool.shutdown ≡ true → Inv (record s { exited = s.exited + 1 }) q
  leaves-Inv e down = record {
    list = list;
    owners = owners;
    threads = omega (arith, threads);
    heard = inr (rw (e) (omega arith));
    quiet = quiet;
    left = λ n. (down, e);
  }

  takes-Inv :
      (a : ℕ) (q' : List ℕ) (p : ThreadPool)
      → q ≡ a ∷ q'
      → IsQueue p s.heap q'
      → Same s.pool p
      → Inv (record s { pool = p; taken = a ∷ s.taken }) q'
  takes-Inv a q' p e l (c, d, n) = record {
    list = l;
    owners = λ b. subst (Owned s.heap b) (rw (e) (omega arith)) (owners b);
    threads = omega (arith, threads, n, ap (λ w. w.asleep) c, ap (λ w. w.woken) c);
    heard =
        let shorter : length q ≡ suc (length q') = rw (e) refl in
        let asleep : p.cond.asleep ≡ s.pool.cond.asleep = ap (λ w. w.asleep) c in
        let woken : p.cond.woken ≡ s.pool.cond.woken = ap (λ w. w.woken) c in ground (arith, heard);
    quiet = λ x. ap (λ w. w.asleep) c ∙ quiet (sym d ∙ x);
    left = λ x. absurd (ground (arith, e, (left x).1));
  }

  takes-Does :
      (a : ℕ) (q' : List ℕ) (p : ThreadPool)
      → q ≡ a ∷ q'
      → p.num_threads ≡ s.pool.num_threads
      → Does s q (took (job_at s.heap a)) (record s { pool = p; taken = a ∷ s.taken }) q'
  takes-Does a q' p e n = record {
    size = n;
    order = rw (e) (ap (λ l. job_at s.heap a ∷ l) (append-nil (jobs s.heap q')));
    begun = λ P. omega arith;
    ended = λ P. omega arith;
  }

  turned :
      (turn : Turn) (p : ThreadPool)
      → worker_turn s.pool s.heap ≡ some (turn, p)
      → Simulates s q (met turn s.heap) (after turn (record s { pool = p }))
  turned turn p h = elim (worker_turn_lem s.pool s.heap q list) [
    | sleeps f e up ↦
        let what : turn ≡ wait = ground (arith, h, f) in
        let result : p ≡ record s.pool { cond = sleep s.pool.cond } = ground (arith, h, f) in
        rw (what, result)
          (
            q,
            sleeps-Inv e up,
            idle s (record s { pool = record s.pool { cond = sleep s.pool.cond } }) q silent
                (refl, refl, refl, refl) refl refl refl refl,
          )
    | leaves f e down ↦
        let what : turn ≡ leave = ground (arith, h, f) in
        let result : p ≡ s.pool = ground (arith, h, f) in
        rw (what, result)
          (
            q,
            leaves-Inv e down,
            idle s (record s { exited = s.exited + 1 }) q silent (refl, refl, refl, refl) refl refl
                refl refl,
          )
    | takes a q' p' f e l same ↦
        let what : turn ≡ take_task a = ground (arith, h, f) in
        let result : p ≡ p' = ground (arith, h, f) in
        rw (what, result) (q', takes-Inv a q' p' e l same, takes-Does a q' p' e same.2)
  ]

count-without :
    (b a : ℕ) (xs ys : List ℕ)
    → count b (xs ++ a ∷ ys) ≡ (if a == b then 1 else 0) + count b (xs ++ ys)
count-without b a xs ys = omega (arith, count-append b xs (a ∷ ys), count-append b xs ys)

-- In a list that holds a node once, it is not beside it.
alone :
    (heap : Heap) (a n : ℕ) (xs ys : List ℕ)
    → Owned heap a (n + count a (xs ++ a ∷ ys))
    → (n ≡ 0) × (count a (xs ++ ys) ≡ 0) × ((t : Task) × (heap a ≡ some t))
alone heap a n xs ys (inl (z, h)) = let more = count-without a a xs ys in absurd (ground arith)
alone heap a n xs ys (inr (z, w)) =
    let more = count-without a a xs ys in (ground arith, ground arith, w)

tally-without :
    (P : Job → Bool) (heap : Heap) (a : ℕ) (xs ys : List ℕ)
    → tally P (jobs heap (xs ++ a ∷ ys))
      ≡ (if P (job_at heap a) then 1 else 0) + tally P (jobs heap (xs ++ ys))
tally-without P heap a [] ys = refl
tally-without P heap a (x ∷ xs) ys = omega (arith, tally-without P heap a xs ys)

fewer :
    (s : Shared) (q : List ℕ) (b t : ℕ) (xs ys : List ℕ)
    → b ≢ t
    → count b q + (count b s.taken + count b (xs ++ t ∷ ys))
      ≡ count b q + (count b s.taken + count b (xs ++ ys))
fewer s q b t xs ys n =
    let same : count b (xs ++ t ∷ ys) ≡ count b (xs ++ ys) =
      let less = count-without b t xs ys in ground arith in
    ap (λ k. count b q + (count b s.taken + k)) same

module _ (s : Shared) (q : List ℕ) (i : Inv s q) where
  open i use {list, owners, threads, heard, quiet, left}

  starts-Simulates :
      (xs : List ℕ) (t : ℕ) (ys : List ℕ)
      → s.taken ≡ xs ++ t ∷ ys
      → Simulates s q
          (started (job_at s.heap t))
          (record s { taken = xs ++ ys; running = t ∷ s.running })
  starts-Simulates xs t ys e = (
    q,
    record {
      list = list;
      owners =
          λ b. subst (Owned s.heap b) (rw (e) (omega (arith, count-without b t xs ys))) (owners b);
      threads = omega (arith, threads, ap length e, length-append xs (t ∷ ys), length-append xs ys);
      heard = heard;
      quiet = quiet;
      left = left;
    },
    record {
      size = refl;
      order = append-nil (jobs s.heap q);
      begun = λ P.
          ap (λ l. tally P (jobs s.heap l) + 0) e ∙ omega (arith, tally-without P s.heap t xs ys);
      ended = λ P. omega arith;
    },
  )

  finishes-Simulates :
      (xs : List ℕ) (t : ℕ) (ys : List ℕ)
      → s.running ≡ xs ++ t ∷ ys
      → Simulates s q
          (finished (job_at s.heap t))
          (record s { heap = store s.heap t none; ready = s.ready + 1; running = xs ++ ys })
  finishes-Simulates xs t ys e =
      let mine : (count t q + count t s.taken ≡ 0)
          × (count t (xs ++ ys) ≡ 0)
          × ((u : Task) × (s.heap t ≡ some u)) =
        alone s.heap t (count t q + count t s.taken) xs ys
          (subst (Owned s.heap t) (rw (e) (omega arith)) (owners t)) in
      let in_queue : count t q ≡ 0 = omega (arith, mine.0) in
      let in_taken : count t s.taken ≡ 0 = omega (arith, mine.0) in
      (
        q,
        record {
          list = (Linked-store s.heap t none s.pool.queue_head q in_queue list.0, list.1);
          owners = λ b. elim (ℕ_discrete b t) [
            | yes same ↦ inl (
              rw (same) (omega (arith, mine.0, mine.1)),
              ap (store s.heap t none) same ∙ store_self s.heap t none,
            )
            | no ne ↦
                Owned-same s.heap (store s.heap t none) b
                  (holders (record s { running = xs ++ ys }) q b) (store_other s.heap t none b ne)
                  (subst (Owned s.heap b) (rw (e) (fewer s q b t xs ys ne)) (owners b))
          ];
          threads =
              omega (arith, threads, ap length e, length-append xs (t ∷ ys), length-append xs ys);
          heard = heard;
          quiet = quiet;
          left = left;
        },
        record {
          size = refl;
          order = append-nil (jobs s.heap q) ∙ sym (jobs-store s.heap t none q in_queue);
          begun = λ P. rw (jobs-store s.heap t none s.taken in_taken) (omega arith);
          ended = λ P. rw (jobs-store s.heap t none (xs ++ ys) mine.1) (
              ap (λ l. tally P (jobs s.heap l) + 0) e
              ∙ omega (arith, tally-without P s.heap t xs ys));
        },
      )

-- A step of a worker keeps the invariant and does to the tasks what its event means.
pub worker_lem :
    (s t : Shared) (q : List ℕ) (e : Event) → WorkerStep s e t → Inv s q → Simulates s q e t
worker_lem s t q e (turns _ fresh turn p there h) i =
    let (q', j, d) = turned (enter s fresh) q (entered s q fresh there i).0 turn p h in
    (q', j, record { size = d.size; order = d.order; begun = d.begun; ended = d.ended })
worker_lem s t q e (turns _ resumed turn p there h) i =
    let (q', j, d) = turned (enter s resumed) q (entered s q resumed there i).0 turn p h in
    (q', j, record { size = d.size; order = d.order; begun = d.begun; ended = d.ended })
worker_lem s t q e (starts _ xs a ys h) i = starts-Simulates s q i xs a ys h
worker_lem s t q e (finishes _ xs a ys h) i = finishes-Simulates s q i xs a ys h

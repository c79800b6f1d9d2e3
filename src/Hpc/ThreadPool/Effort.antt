-- ===== src/Hpc/ThreadPool/Effort.antt =====
-- The workers of src/hpc/thread_pool.c once the pool shuts down: each step leaves less to do.
use c_comprehensive_template.Prelude.{
  ℕ, ◌+◌, ◌*◌, ◌≤◌, ◌<◌, ◌≡◌, refl, ap, ◌∙◌, true, some, List, [], ◌∷◌, length, arith, ◌⊎◌, inl,
  inr, length-append, length-map,
}
use c_comprehensive_template.Hpc.BlockingQueue.Step.{Caller, fresh, resumed}
use c_comprehensive_template.Hpc.ThreadPool.{
  Heap, ThreadPool, Turn, wait, leave, take_task, worker_turn,
}
use c_comprehensive_template.Hpc.ThreadPool.Nodes.{job_at, jobs}
use c_comprehensive_template.Hpc.ThreadPool.Turns.{IsQueue, sleeps, leaves, takes, worker_turn_lem}
use c_comprehensive_template.Hpc.ThreadPool.Step.{
  Shared, IsPresent, enter, after, met, Event, WorkerStep, turns, starts, finishes,
}
use c_comprehensive_template.Hpc.ThreadPool.Inv.{Inv, accepts, tooks, Does}
use c_comprehensive_template.Hpc.ThreadPool.Workers.{worker_lem}

-- What is left to do for the workers of a pool that shuts down.
abbrev pub effort : Shared → List ℕ → ℕ
effort s q =
    4 * length q + 3 * length s.taken + 2 * length s.running + (s.ready + s.pool.cond.woken)

-- What a turn can be once the pool shuts down.
Down : ThreadPool → Turn → ThreadPool → Type 0
Down p turn p' =
    ((turn ≡ leave) × (p' ≡ p))
    ⊎ ((a : ℕ) × (turn ≡ take_task a)
        × (p'.cond ≡ p.cond)
        × (p'.shutdown ≡ p.shutdown)
        × (p'.num_threads ≡ p.num_threads))

turn-Down :
    (p : ThreadPool) (heap : Heap) (q : List ℕ) (turn : Turn) (p' : ThreadPool)
    → IsQueue p heap q
    → p.shutdown ≡ true
    → worker_turn p heap ≡ some (turn, p')
    → Down p turn p'
unfolding Down
turn-Down p heap q turn p' l down h = elim (worker_turn_lem p heap q l) [
  | sleeps f _ up ↦ absurd (ground (arith, down, up))
  | leaves f _ _ ↦ inl (ground (arith, h, f), ground (arith, h, f))
  | takes a q' p0 f _ _ (c, d, n) ↦
      let result : p' ≡ p0 = ground (arith, h, f) in
      inr (a, ground (arith, h, f), rw (result) c, rw (result) d, rw (result) n)
]

abbrev pub Falls : Shared → List ℕ → Shared → List ℕ → Type 0
Falls s q t q' =
    (effort t q' < effort s q)
    × (t.pool.shutdown ≡ true)
    × (t.pool.num_threads ≡ s.pool.num_threads)

-- The length of the queue after an event of a worker.
left_over :
    (s t : Shared) (q q' : List ℕ) (e : Event)
    → accepts e ≡ []
    → Does s q e t q'
    → length q ≡ length (tooks e) + length q'
left_over s t q q' e a d = omega (
  arith,
  ap length d.order,
  ap length a,
  length-append (jobs s.heap q) (accepts e),
  length-append (tooks e) (jobs t.heap q'),
  length-map q (job_at s.heap),
  length-map q' (job_at t.heap),
)

no_accepts : (turn : Turn) (heap : Heap) → accepts (met turn heap) ≡ []
no_accepts wait heap = refl
no_accepts leave heap = refl
no_accepts (take_task t) heap = refl

-- The turn of a worker that is counted no longer among those awake.
after_turn :
    (s : Shared) (q q' : List ℕ) (turn : Turn) (p : ThreadPool)
    → s.pool.shutdown ≡ true
    → Down s.pool turn p
    → length q ≡ length (tooks (met turn s.heap)) + length q'
    → (effort (after turn (record s { pool = p })) q' ≤ effort s q)
      × ((after turn (record s { pool = p })).pool.shutdown ≡ true)
      × ((after turn (record s { pool = p })).pool.num_threads ≡ s.pool.num_threads)
unfolding Down
after_turn s q q' turn p down (inl (a, b)) n =
    rw (a, b) ((let m : length q ≡ 0 + length q' = rw a at n in omega arith), down, refl)
after_turn s q q' turn p down (inr (t, a, c, d, k)) n = rw (a) (
  (let m : length q ≡ 1 + length q' = rw a at n in omega (arith, m, ap (λ w. w.woken) c)),
  d ∙ down,
  k,
)

turns-Falls :
    (s : Shared) (q q' : List ℕ) (c : Caller) (turn : Turn) (p : ThreadPool)
    → Inv s q
    → s.pool.shutdown ≡ true
    → IsPresent s c
    → worker_turn (enter s c).pool s.heap ≡ some (turn, p)
    → Does s q (met turn s.heap) (after turn (record (enter s c) { pool = p })) q'
    → Falls s q (after turn (record (enter s c) { pool = p })) q'
turns-Falls s q q' fresh turn p i down there h d =
    let (less, still, same) =
      after_turn (enter s fresh) q q' turn p down
        (turn-Down (enter s fresh).pool s.heap q turn p i.list down h)
        (left_over s (after turn (record (enter s fresh) { pool = p })) q q' (met turn s.heap)
          (no_accepts turn s.heap) d) in
    (omega arith, still, same)
turns-Falls s q q' resumed turn p i down there h d =
    let (less, still, same) =
      after_turn (enter s resumed) q q' turn p down
        (turn-Down (enter s resumed).pool s.heap q turn p i.list down h)
        (left_over s (after turn (record (enter s resumed) { pool = p })) q q' (met turn s.heap)
          (no_accepts turn s.heap) d) in
    (omega arith, still, same)

falls :
    (s t : Shared) (q q' : List ℕ) (e : Event)
    → WorkerStep s e t
    → Inv s q
    → s.pool.shutdown ≡ true
    → Does s q e t q'
    → Falls s q t q'
falls s t q q' e (turns _ c turn p there h) i down d = turns-Falls s q q' c turn p i down there h d
falls s t q q' e (starts _ xs a ys h) i down d = (
  omega (
    arith,
    left_over s t q q' e refl d,
    ap length h,
    length-append xs (a ∷ ys),
    length-append xs ys,
  ),
  down,
  refl,
)
falls s t q q' e (finishes _ xs a ys h) i down d = (
  omega (
    arith,
    left_over s t q q' e refl d,
    ap length h,
    length-append xs (a ∷ ys),
    length-append xs ys,
  ),
  down,
  refl,
)

-- Every step of a worker of a pool that shuts down leaves less to do.
pub effort-Falls :
    (s t : Shared) (q : List ℕ) (e : Event)
    → WorkerStep s e t
    → Inv s q
    → s.pool.shutdown ≡ true
    → (q' : List ℕ) × (Inv t q') × Falls s q t q'
effort-Falls s t q e w i down =
    let (q', j, d) = worker_lem s t q e w i in (q', j, falls s t q q' e w i down d)

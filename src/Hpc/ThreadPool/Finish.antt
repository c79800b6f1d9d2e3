-- ===== src/Hpc/ThreadPool/Finish.antt =====
-- The workers of src/hpc/thread_pool.c when there is work and when the pool shuts down.
use c_comprehensive_template.Prelude.{
  ℕ, suc, ◌+◌, ◌-◌, ◌≤◌, ◌≡◌, ◌≢◌, refl, ap, sym, subst, ◌∙◌, true, none, some, List, [], ◌∷◌,
  length, arith, ◌==◌, ℕ_discrete, ◌⊎◌, inl, inr,
}
use c_comprehensive_template.Hpc.BlockingQueue.Step.{Caller, fresh, resumed}
use c_comprehensive_template.Hpc.BlockingQueue.Wake.{Heard}
use c_comprehensive_template.Hpc.ThreadPool.{Heap, wait, leave, take_task, stop, drain}
use c_comprehensive_template.Hpc.ThreadPool.Nodes.{count, Linked}
use c_comprehensive_template.Hpc.ThreadPool.Turns.{
  IsQueue, Owned, sleeps, leaves, takes, worker_turn_lem,
}
use c_comprehensive_template.Hpc.ThreadPool.Step.{
  Shared, IsPresent, enter, Event, WorkerStep, turns, starts, finishes, Steps, none_left, one_more,
  works, Destroy, destroys,
}
use c_comprehensive_template.Hpc.ThreadPool.Inv.{holders, workers, Inv}
use c_comprehensive_template.Hpc.ThreadPool.Effort.{effort, effort-Falls}
use c_comprehensive_template.Hpc.ThreadPool.Run.{stops-Inv}

abbrev pub CanWork : Shared → Type 0
CanWork s = (e : Event) × ((t : Shared) × WorkerStep s e t)

-- A worker that gets the mutex can take its turn.
takes_turn :
    (s : Shared) (q : List ℕ) (c : Caller)
    → IsPresent s c
    → IsQueue (enter s c).pool s.heap q
    → CanWork s
takes_turn s q c there l = elim (worker_turn_lem (enter s c).pool s.heap q l) [
  | sleeps f _ _ ↦ (_, (_, turns s c wait _ there f))
  | leaves f _ _ ↦ (_, (_, turns s c leave _ there f))
  | takes a q' p f _ _ _ ↦ (_, (_, turns s c (take_task a) p there f))
]

List-cases : (l : List ℕ) → (l ≡ []) ⊎ ((a : ℕ) × ((r : List ℕ) × (l ≡ a ∷ r)))
List-cases [] = inl refl
List-cases (a ∷ r) = inr (a, (r, refl))

-- A worker that is awake can go on.
awake :
    (s : Shared) (q : List ℕ)
    → Inv s q
    → s.ready + s.pool.cond.woken + length s.taken + length s.running ≢ 0
    → CanWork s
awake s q i n = elim (ℕ_discrete s.ready 0) [
  | no there ↦ takes_turn s q fresh there i.list
  | yes r ↦ elim (ℕ_discrete s.pool.cond.woken 0) [
    | no there ↦ takes_turn s q resumed there i.list
    | yes w ↦ elim (List-cases s.taken) [
      | inr (a, (l, e)) ↦ (_, (_, starts s [] a l e))
      | inl x ↦ elim (List-cases s.running) [
        | inr (a, (l, e)) ↦ (_, (_, finishes s [] a l e))
        | inl y ↦ absurd (n (omega (arith, r, w, ap length x, ap length y)))
      ]
    ]
  ]
]

nonempty : (q : List ℕ) → q ≢ [] → length q ≢ 0
nonempty [] n = λ z. n refl
nonempty (a ∷ q) n = ground arith

-- Under the invariant, a worker can go on as long as there is something to do.
pub goes_on :
    (s : Shared) (q : List ℕ)
    → Inv s q
    → s.pool.num_threads ≢ 0
    → (q ≢ []) ⊎ ((s.pool.shutdown ≡ true) × (s.exited ≢ s.pool.num_threads))
    → CanWork s
goes_on s q i some_worker (inl work) =
    let waiting : length q ≢ 0 = nonempty q work in
    let here : s.exited ≡ 0 = elim (ℕ_discrete s.exited 0) [
      | yes z ↦ z
      | no n ↦ absurd (work (i.left n).1)
    ] in
    let everybody : workers s ≡ s.pool.num_threads = omega (arith, i.threads) in
    let listening : Heard s.pool.cond (length q - 0) = i.heard in awake s q i (ground arith)
goes_on s q i some_worker (inr (down, some_left)) =
    let everybody : workers s ≡ s.pool.num_threads = omega (arith, i.threads) in
    let nobody : s.pool.cond.asleep ≡ 0 = i.quiet down in awake s q i (ground arith)

-- Steps of the workers alone, and their number.
pub data WorkerSteps : Shared → ℕ → Shared → Type 0 where
  no_steps : (s : Shared) → WorkerSteps s 0 s
  and_then :
      (s t u : Shared) (e : Event) (n : ℕ)
      → WorkerStep s e t
      → WorkerSteps t n u
      → WorkerSteps s (suc n) u

-- pthread_join has returned for all workers: every node is freed, and none is left to drain.
pub record Joined (s : Shared) : Type 0 where
  pub all_left : s.exited ≡ s.pool.num_threads
  pub all_freed : (a : ℕ) → s.heap a ≡ none
  pub drained : drain 0 s.heap s.pool.queue_head ≡ some s.heap

unowned : (heap : Heap) (a n : ℕ) → n ≡ 0 → Owned heap a n → heap a ≡ none
unowned heap a n z (inl (_, h)) = h
unowned heap a n z (inr (o, h)) = absurd (omega (arith, z, o))

no_holders : (l r : List ℕ) (a : ℕ) → length l + length r ≡ 0 → count a l + count a r ≡ 0
no_holders [] [] a h = refl
no_holders [] (x ∷ r) a h = absurd (omega arith)
no_holders (x ∷ l) r a h = absurd (omega arith)

nothing_left : (heap : Heap) (head : ℕ) → head ≡ 0 → drain 0 heap head ≡ some heap
unfolding drain
nothing_left heap head z = let null : (head == 0) ≡ true = ground arith in rw (drain, null) refl

pub Joined_lem :
    (s : Shared) (q : List ℕ)
    → Inv s q
    → s.pool.num_threads ≢ 0
    → s.exited ≡ s.pool.num_threads
    → Joined s × (length s.taken + length s.running ≡ 0) × (q ≡ [])
Joined_lem s q i some_worker gone =
    let busy : length s.taken + length s.running ≡ 0 = omega (arith, i.threads, gone) in
    let (down, empty) = i.left (ground arith) in
    let no_head : s.pool.queue_head ≡ 0 = subst (Linked s.heap s.pool.queue_head) empty i.list.0 in
    (
      record {
        all_left = gone;
        all_freed = λ a.
            unowned s.heap a (holders s q a)
              (omega (arith, ap (λ l. count a l) empty, no_holders s.taken s.running a busy))
              (i.owners a);
        drained = nothing_left s.heap s.pool.queue_head no_head;
      },
      busy,
      empty,
    )

stays :
    (s t : Shared) (q : List ℕ) (n : ℕ)
    → WorkerSteps s n t
    → Inv s q
    → s.pool.shutdown ≡ true
    → (q' : List ℕ) × (Inv t q')
      × (n + effort t q' ≤ effort s q)
      × (t.pool.shutdown ≡ true)
      × (t.pool.num_threads ≡ s.pool.num_threads)
stays s t q n (no_steps _) i down = (q, i, omega arith, down, refl)
stays s t q n (and_then _ u _ e m first later) i down =
    let (q1, j, (less, still, same)) = effort-Falls s u q e first i down in
    let (q2, k, fewer, down2, same2) = stays u t q1 m later j still in
    (q2, k, omega arith, down2, same2 ∙ same)

as_Steps : (s t : Shared) (n : ℕ) → WorkerSteps s n t → (es : List Event) × Steps s es t
as_Steps s t n (no_steps _) = ([], none_left s)
as_Steps s t n (and_then _ u _ e m first later) =
    let (es, rest) = as_Steps u t m later in (e ∷ es, one_more s u t e es (works s e u first) rest)

-- Once thread_pool_destroy has stopped a pool with at least one worker, its workers take at most
-- `effort` steps; whenever not all of them have left their loop, one can take a step; and when all have,
-- thread_pool_destroy has run to its end and every task node has been freed.
pub destroy_lem :
    (s t : Shared) (q : List ℕ) (n : ℕ)
    → Inv s q
    → s.pool.num_threads ≢ 0
    → WorkerSteps (record s { pool = stop s.pool }) n t
    → (n ≤ effort (record s { pool = stop s.pool }) q)
      × (CanWork t ⊎ (Destroy s t.heap × ((a : ℕ) → t.heap a ≡ none)))
unfolding stop
destroy_lem s t q n i some_worker run =
    let (q', j, less, down, same) =
      stays (record s { pool = stop s.pool }) t q n run (stops-Inv s q i) refl in
    (
      omega arith,
      elim (ℕ_discrete t.exited t.pool.num_threads) [
        | yes gone ↦
            let joined = (Joined_lem t q' j (λ z. some_worker (sym same ∙ z)) gone).0 in
            let (es, steps) = as_Steps (record s { pool = stop s.pool }) t n run in
            inr (destroys s t es 0 t.heap steps gone joined.drained, joined.all_freed)
        | no left ↦ inl (goes_on t q' j (λ z. some_worker (sym same ∙ z)) (inr (down, left)))
      ],
    )

-- ===== src/Hpc/ThreadPool/Once.antt =====
-- Every task that a pool of src/hpc/thread_pool.c accepts is run once, in order.
use c_comprehensive_template.Prelude.{
  ℕ, ◌≡◌, ◌≢◌, refl, ap, sym, subst, ◌∙◌, Bool, true, false, none, some, List, [], ◌∷◌, ◌++◌,
  length, arith, ◌⊎◌, inl, inr, append-nil,
}
use c_comprehensive_template.Core.Error.{ok}
use c_comprehensive_template.Hpc.ThreadPool.{Heap, ThreadPool, create}
use c_comprehensive_template.Hpc.ThreadPool.Nodes.{Job, jobs, Linked}
use c_comprehensive_template.Hpc.ThreadPool.Step.{Shared, Event, Steps}
use c_comprehensive_template.Hpc.ThreadPool.Inv.{Inv, tally, accepts, tooks, ends}
use c_comprehensive_template.Hpc.ThreadPool.Run.{all, pool-Steps-Inv}
use c_comprehensive_template.Hpc.ThreadPool.Finish.{CanWork, goes_on, Joined, Joined_lem}

no_jobs : (P : Job → Bool) (heap : Heap) (l : List ℕ) → length l ≡ 0 → tally P (jobs heap l) ≡ 0
no_jobs P heap [] h = refl
no_jobs P heap (a ∷ l) h = absurd (omega arith)

-- A new pool: its workers have yet to lock the mutex, and no node is allocated.
abbrev pub born : ThreadPool → Shared
born p = record {
  pool = p;
  heap = λ a. none;
  ready = p.num_threads;
  taken = [];
  running = [];
  exited = 0;
}

abbrev new_pool : ℕ → ThreadPool
new_pool n = record {
  num_threads = n;
  queue_head = 0;
  queue_tail = 0;
  cond = record { asleep = 0; woken = 0 };
  shutdown = false;
}

-- A pool that thread_pool_create gives.
pub create_lem :
    (calloc : Bool) (malloc spawned : ℕ → Bool) (wants : Bool) (n : ℕ) (p : ThreadPool)
    → create calloc malloc spawned wants n ≡ (ok, some p)
    → Inv (born p) [] × (p.num_threads ≢ 0)
unfolding create
create_lem calloc malloc spawned wants n p e =
    let result : p ≡ new_pool n = ground (arith, e) in
    let some_worker : n ≢ 0 = ground (arith, e) in
    rw (result) (
      record {
        list = (refl, refl);
        owners = λ a. inl (omega arith, refl);
        threads = omega arith;
        heard = inl refl;
        quiet = λ d. refl;
        left = λ z. absurd (z refl);
      },
      some_worker,
    )

head_queue : (heap : Heap) (head : ℕ) (q : List ℕ) → Linked heap head q → head ≢ 0 → q ≢ []
head_queue heap head q l some_head e = some_head (subst (Linked heap head) e l)

-- With a pool that thread_pool_create gave, whatever the interleaving of submissions, workers and
-- shutdown: as long as a task waits, or the pool shuts down and not all workers have left, some
-- worker can take a step, so no wake-up was lost.
pub worker_can :
    (calloc : Bool) (malloc spawned : ℕ → Bool) (wants : Bool) (n : ℕ) (p : ThreadPool)
    (es : List Event) (t : Shared)
    → create calloc malloc spawned wants n ≡ (ok, some p)
    → Steps (born p) es t
    → (t.pool.queue_head ≢ 0) ⊎ ((t.pool.shutdown ≡ true) × (t.exited ≢ t.pool.num_threads))
    → CanWork t
worker_can calloc malloc spawned wants n p es t made run work =
    let (i, some_worker) = create_lem calloc malloc spawned wants n p made in
    let (q', j, ran) = pool-Steps-Inv (born p) t [] es run i in
    goes_on t q' j (λ z. some_worker (sym ran.size ∙ z))
      (elim work [
        | inl head ↦ inl (head_queue t.heap t.pool.queue_head q' j.list.0 head)
        | inr down ↦ inr down
      ])

-- With a pool that thread_pool_create gave, whatever the interleaving: when all workers have left,
-- the tasks were taken in the order in which they were accepted; as many tasks that pass any
-- test have finished as were accepted; and every task node has been freed.
pub pool_runs_all :
    (calloc : Bool) (malloc spawned : ℕ → Bool) (wants : Bool) (n : ℕ) (p : ThreadPool)
    (es : List Event) (t : Shared)
    → create calloc malloc spawned wants n ≡ (ok, some p)
    → Steps (born p) es t
    → t.exited ≡ t.pool.num_threads
    → (all accepts es ≡ all tooks es)
      × ((P : Job → Bool) → tally P (all accepts es) ≡ tally P (all ends es))
      × Joined t
pool_runs_all calloc malloc spawned wants n p es t made run gone =
    let (i, some_worker) = create_lem calloc malloc spawned wants n p made in
    let (q', j, ran) = pool-Steps-Inv (born p) t [] es run i in
    let (joined, idle, empty) = Joined_lem t q' j (λ z. some_worker (sym ran.size ∙ z)) gone in
    let in_order : all accepts es ≡ all tooks es =
      ran.order ∙ ap (λ l. all tooks es ++ jobs t.heap l) empty ∙ append-nil (all tooks es) in
    (
      in_order,
      λ P. omega (
        arith,
        ap (tally P) in_order,
        ran.begun P,
        ran.ended P,
        no_jobs P t.heap t.taken (omega (arith, idle)),
        no_jobs P t.heap t.running (omega (arith, idle)),
      ),
      joined,
    )

-- ===== src/Hpc/ThreadPool/Inv.antt =====
-- The invariant of the threads around a pool of src/hpc/thread_pool.c, and what an event does to
-- the tasks.
use c_comprehensive_template.Prelude.{
  ℕ, ◌+◌, ◌-◌, ◌≡◌, ◌≢◌, refl, Bool, true, List, [], ◌∷◌, ◌++◌, length, arith, if◌then◌else◌,
  append-nil,
}
use c_comprehensive_template.Hpc.BlockingQueue.Step.{Caller, fresh, resumed}
use c_comprehensive_template.Hpc.BlockingQueue.Wake.{Heard}
use c_comprehensive_template.Hpc.ThreadPool.Nodes.{Job, jobs, count}
use c_comprehensive_template.Hpc.ThreadPool.Turns.{IsQueue, Owned}
use c_comprehensive_template.Hpc.ThreadPool.Step.{
  Shared, IsPresent, enter, Event, accepted, took, started, finished,
}

-- How many lists hold a node.
abbrev pub holders : Shared → List ℕ → ℕ → ℕ
holders s q a = count a q + (count a s.taken + count a s.running)

abbrev pub workers : Shared → ℕ
workers s =
    s.ready
    + (s.pool.cond.asleep + s.pool.cond.woken)
    + (length s.taken + length s.running)
    + s.exited

-- With k workers that hold the mutex, and q the list of the tasks that wait.
pub record Within (k : ℕ) (s : Shared) (q : List ℕ) : Type 0 where
  pub list : IsQueue s.pool s.heap q
  pub owners : (a : ℕ) → Owned s.heap a (holders s q a)
  pub threads : k + workers s ≡ s.pool.num_threads
  pub heard : Heard s.pool.cond (length q - k)
  pub quiet : s.pool.shutdown ≡ true → s.pool.cond.asleep ≡ 0
  pub left : s.exited ≢ 0 → (s.pool.shutdown ≡ true) × (q ≡ [])

abbrev pub Inv : Shared → List ℕ → Type 0
Inv = Within 0

-- How many of the jobs pass a test.
abbrev pub tally : (Job → Bool) → List Job → ℕ
tally P [] = 0
tally P (j ∷ js) = (if P j then 1 else 0) + tally P js

pub tally-append :
    (P : Job → Bool) (xs ys : List Job) → tally P (xs ++ ys) ≡ tally P xs + tally P ys
tally-append P [] ys = omega arith
tally-append P (x ∷ xs) ys = omega (arith, tally-append P xs ys)

abbrev pub accepts : Event → List Job
accepts (accepted j) = j ∷ []
accepts e = []

abbrev pub tooks : Event → List Job
tooks (took j) = j ∷ []
tooks e = []

abbrev pub begins : Event → List Job
begins (started j) = j ∷ []
begins e = []

abbrev pub ends : Event → List Job
ends (finished j) = j ∷ []
ends e = []

-- What an event does: tasks are queued at the end and taken from the front, and each that was taken
-- is started once and finishes once.
pub record Does (s : Shared) (q : List ℕ) (e : Event) (t : Shared) (q' : List ℕ) : Type 0 where
  pub size : t.pool.num_threads ≡ s.pool.num_threads
  pub order : jobs s.heap q ++ accepts e ≡ tooks e ++ jobs t.heap q'
  pub begun :
      (P : Job → Bool)
      → tally P (jobs s.heap s.taken) + tally P (tooks e)
        ≡ tally P (begins e) + tally P (jobs t.heap t.taken)
  pub ended :
      (P : Job → Bool)
      → tally P (jobs s.heap s.running) + tally P (begins e)
        ≡ tally P (ends e) + tally P (jobs t.heap t.running)

abbrev pub Simulates : Shared → List ℕ → Event → Shared → Type 0
Simulates s q e t = (q' : List ℕ) × (Inv t q') × Does s q e t q'

-- Nothing changes for the tasks.
pub idle :
    (s t : Shared) (q : List ℕ) (e : Event)
    → (accepts e ≡ []) × (tooks e ≡ []) × (begins e ≡ []) × (ends e ≡ [])
    → (jobs t.heap q ≡ jobs s.heap q)
    → (jobs t.heap t.taken ≡ jobs s.heap s.taken)
    → (jobs t.heap t.running ≡ jobs s.heap s.running)
    → t.pool.num_threads ≡ s.pool.num_threads
    → Does s q e t q
idle s t q e (a, b, c, d) f g h n = record {
  size = n;
  order = rw (a, b, f) (append-nil (jobs s.heap q));
  begun = λ P. rw (b, c, g) (omega arith);
  ended = λ P. rw (c, d, h) (omega arith);
}

-- A worker gets the mutex.
pub entered :
    (s : Shared) (q : List ℕ) (c : Caller)
    → IsPresent s c
    → Inv s q
    → Within 1 (enter s c) q
      × ((enter s c).heap ≡ s.heap)
      × ((enter s c).taken ≡ s.taken)
      × ((enter s c).running ≡ s.running)
entered s q fresh there i =
    let open_threads : 0 + workers s ≡ s.pool.num_threads = i.threads in
    let open_heard : Heard s.pool.cond (length q - 0) = i.heard in
    (
      record {
        list = i.list;
        owners = i.owners;
        threads = omega (arith, open_threads);
        heard = ground arith;
        quiet = i.quiet;
        left = i.left;
      },
      refl,
      refl,
      refl,
    )
entered s q resumed there i =
    let open_threads : 0 + workers s ≡ s.pool.num_threads = i.threads in
    let open_heard : Heard s.pool.cond (length q - 0) = i.heard in
    (
      record {
        list = i.list;
        owners = i.owners;
        threads = omega (arith, open_threads);
        heard = ground arith;
        quiet = i.quiet;
        left = i.left;
      },
      refl,
      refl,
      refl,
    )

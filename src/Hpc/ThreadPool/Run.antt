-- ===== src/Hpc/ThreadPool/Run.antt =====
-- Whole runs of the threads around a pool of src/hpc/thread_pool.c.
use c_comprehensive_template.Prelude.{
  ℕ, ◌+◌, ◌-◌, ◌≤◌, ◌≡◌, ◌≢◌, refl, ap, sym, subst, fun_ext, ◌∙◌, Bool, false, Option, none, some,
  List, [], ◌∷◌, ◌++◌, length, arith, ℕ_discrete, inl, inr, append-nil, append_assoc, length-append,
}
use c_comprehensive_template.Core.Error.{ErrorCode, ok, nomem, unsupported}
use c_comprehensive_template.Hpc.BlockingQueue.Step.{signal}
use c_comprehensive_template.Hpc.BlockingQueue.Wake.{
  Heard, signal_asleep, signal-Heard, signal-Heard_same, signal_total,
}
use c_comprehensive_template.Hpc.ThreadPool.{Task, Heap, ThreadPool, submit, stop}
use c_comprehensive_template.Hpc.ThreadPool.Nodes.{
  Job, job_at, jobs, count, count-append, count_here, count_other, last_of,
}
use c_comprehensive_template.Hpc.ThreadPool.Turns.{
  IsQueue, Owned, no_memory, too_late, queued, submit_lem,
}
use c_comprehensive_template.Hpc.ThreadPool.Step.{
  Shared, IsNew, Event, silent, accepted, rejected, answered, Step, works, submits, stops, wakes,
  Steps, none_left, one_more,
}
use c_comprehensive_template.Hpc.ThreadPool.Inv.{
  holders, Inv, tally, tally-append, accepts, tooks, begins, ends, Does, Simulates, idle,
}
use c_comprehensive_template.Hpc.ThreadPool.Workers.{worker_lem}

-- A node that nobody holds is new.
new_unheld : (heap : Heap) (t n : ℕ) → heap t ≡ none → Owned heap t n → n ≡ 0
new_unheld heap t n h (inl (z, e)) = z
new_unheld heap t n h (inr (z, (u, e))) = absurd (ground (arith, h, e))

held_once : (heap : Heap) (t n : ℕ) → Owned heap t n → n ≤ 1
held_once heap t n (inl (z, e)) = omega arith
held_once heap t n (inr (z, w)) = omega arith

answer :
    (e e' : ErrorCode) (heap heap' : Heap) (p p' : ThreadPool)
    → ◌≡◌ {A = Option (ErrorCode × Heap × Option ThreadPool)}
        (some (e, heap, some p))
        (some (e', heap', some p'))
    → (e ≡ e') × (heap ≡ heap') × (p ≡ p')
answer e e' heap heap' p p' h = (ground (arith, h), ground (arith, h), ground (arith, h))

jobs-append : (heap : Heap) (xs ys : List ℕ) → jobs heap (xs ++ ys) ≡ jobs heap xs ++ jobs heap ys
jobs-append heap [] ys = refl
jobs-append heap (x ∷ xs) ys = ap (λ l. job_at heap x ∷ l) (jobs-append heap xs ys)

module _ (s : Shared) (q : List ℕ) (i : Inv s q) where
  open i use {list, owners, threads, heard, quiet, left}

  abbrev with_pool : Heap → ThreadPool → Shared
  with_pool heap p = record s { heap = heap; pool = p }

  further :
      {t : ℕ} (b : ℕ)
      → b ≢ t
      → holders s q b ≡ count b (q ++ t ∷ []) + (count b s.taken + count b s.running)
  further {t = t} b ne =
      omega (arith, count-append b q (t ∷ []), count_other b t [] (λ e. ne (sym e)))

  -- A task that was added at the end.
  queued-Inv :
      (heap : Heap) (p : ThreadPool) (t : ℕ)
      → holders s q t ≡ 0
      → s.pool.shutdown ≡ false
      → IsQueue p heap (q ++ t ∷ [])
      → p.cond ≡ signal s.pool.cond
      → (p.shutdown ≡ s.pool.shutdown) × (p.num_threads ≡ s.pool.num_threads)
      → ((b n : ℕ) → b ≢ t → Owned s.heap b n → Owned heap b n)
      → ((task : Task) × (heap t ≡ some task))
      → Inv (with_pool heap p) (q ++ t ∷ [])
  queued-Inv heap p t unheld up l c (d, n) kept new =
      let longer : length (q ++ t ∷ []) ≡ length q + 1 = length-append q (t ∷ []) in
      record {
        list = l;
        owners = λ b. elim (ℕ_discrete b t) [
          | yes same ↦ inr (
            rw (same) (omega (arith, count-append t q (t ∷ []), count_here t [], unheld)),
            subst (λ x. (task : Task) × (heap x ≡ some task)) (sym same) new,
          )
          | no ne ↦
              kept b (holders (with_pool heap p) (q ++ t ∷ []) b) ne
                (subst (Owned s.heap b) (further b ne) (owners b))
        ];
        threads = omega (
          arith,
          threads,
          n,
          ap (λ w. w.asleep) c,
          ap (λ w. w.woken) c,
          signal_total s.pool.cond,
        );
        heard =
            let woken = signal-Heard s.pool.cond (length q) (ground arith) in
            rw (c) (subst (Heard (signal s.pool.cond)) (omega (arith, longer)) woken);
        quiet = λ x. absurd (ground (arith, up, d, x));
        left = λ x. absurd (ground (arith, up, (left x).0));
      }

  queued-Does :
      (heap : Heap) (p : ThreadPool) (t func arg : ℕ)
      → holders s q t ≡ 0
      → ((l : List ℕ) → count t l ≡ 0 → jobs heap l ≡ jobs s.heap l)
      → job_at heap t ≡ (func, arg)
      → p.num_threads ≡ s.pool.num_threads
      → Does s q (accepted (func, arg)) (with_pool heap p) (q ++ t ∷ [])
  queued-Does heap p t func arg unheld same job n = record {
    size = n;
    order = sym (jobs-append heap q (t ∷ []) ∙ rw (same q (omega arith), job) refl);
    begun = λ P. rw (same s.taken (omega arith)) (omega arith);
    ended = λ P. rw (same s.running (omega arith)) (omega arith);
  }

  submits-Simulates :
      (t func arg : ℕ) (e : ErrorCode) (heap : Heap) (p : ThreadPool)
      → IsNew s.heap t
      → submit t s.heap (some s.pool) (some func) arg ≡ some (e, heap, some p)
      → Simulates s q (answered e (func, arg)) (with_pool heap p)
  submits-Simulates t func arg e heap p free h =
      let unheld : t ≢ 0 → holders s q t ≡ 0 =
        λ ne. new_unheld s.heap t (holders s q t) (free ne) (owners t) in
      let same_sum = held_once s.heap (last_of q) (holders s q (last_of q)) (owners (last_of q)) in
      elim (submit_lem s.pool s.heap q t func arg list free (λ ne. omega (arith, unheld ne))
        (omega arith)) [
          | no_memory f z ↦
              let (a, b, c) = answer e nomem heap s.heap p s.pool (sym h ∙ f) in
              rw (a, b, c)
                (q, i, idle s s q (rejected nomem) (refl, refl, refl, refl) refl refl refl refl)
          | too_late heap0 f down same ↦
              let (a, b, c) = answer e unsupported heap heap0 p s.pool (sym h ∙ f) in
              let back : heap ≡ s.heap = b ∙ fun_ext same in
              rw (a, back, c)
                (
                  q,
                  i,
                  idle s s q (rejected unsupported) (refl, refl, refl, refl) refl refl refl refl,
                )
          | queued heap0 p0 f up nonzero l c d jobs_kept job kept new ↦
              let (a, b, k) = answer e ok heap heap0 p p0 (sym h ∙ f) in
              rw (a, b, k)
                (
                  q ++ t ∷ [],
                  queued-Inv heap0 p0 t (unheld nonzero) up l c d kept new,
                  queued-Does heap0 p0 t func arg (unheld nonzero) jobs_kept job d.1,
                )
        ]

  pub stops-Inv : Inv (record s { pool = stop s.pool }) q
  unfolding stop
  stops-Inv = record {
    list = list;
    owners = owners;
    threads = omega (arith, threads);
    heard = inl refl;
    quiet = λ d. refl;
    left = λ n. (refl, (left n).1);
  }

  wakes-Inv : Inv (record s { pool = record s.pool { cond = signal s.pool.cond } }) q
  wakes-Inv = record {
    list = list;
    owners = owners;
    threads = omega (arith, threads, signal_total s.pool.cond);
    heard = signal-Heard_same s.pool.cond (length q - 0) heard;
    quiet = λ d. signal_asleep s.pool.cond (quiet d);
    left = left;
  }

-- Every step keeps the invariant and does to the tasks what its event means.
step_lem : (s t : Shared) (q : List ℕ) (e : Event) → Step s e t → Inv s q → Simulates s q e t
unfolding stop
step_lem s t q e (works _ _ _ w) i = worker_lem s t q e w i
step_lem s t q e (submits _ a func arg code heap p free h) i =
    submits-Simulates s q i a func arg code heap p free h
step_lem s t q e (stops _) i =
    (q, stops-Inv s q i, idle s t q silent (refl, refl, refl, refl) refl refl refl refl)
step_lem s t q e (wakes _) i =
    (q, wakes-Inv s q i, idle s t q silent (refl, refl, refl, refl) refl refl refl refl)

-- The jobs of all events.
abbrev pub all : (Event → List Job) → List Event → List Job
all f [] = []
all f (e ∷ es) = f e ++ all f es

-- What a whole run does to the tasks.
pub record Ran (s : Shared) (q : List ℕ) (es : List Event) (t : Shared) (q' : List ℕ) : Type 0 where
  pub size : t.pool.num_threads ≡ s.pool.num_threads
  pub order : jobs s.heap q ++ all accepts es ≡ all tooks es ++ jobs t.heap q'
  pub begun :
      (P : Job → Bool)
      → tally P (jobs s.heap s.taken) + tally P (all tooks es)
        ≡ tally P (all begins es) + tally P (jobs t.heap t.taken)
  pub ended :
      (P : Job → Bool)
      → tally P (jobs s.heap s.running) + tally P (all begins es)
        ≡ tally P (all ends es) + tally P (jobs t.heap t.running)

chain :
    (s t u : Shared) (q q' r : List ℕ) (e : Event) (es : List Event)
    → Does s q e t q'
    → Ran t q' es u r
    → Ran s q (e ∷ es) u r
chain s t u q q' r e es d rest = record {
  size = rest.size ∙ d.size;
  order =
      sym (append_assoc (jobs s.heap q) (accepts e) (all accepts es))
      ∙ ap (λ l. l ++ all accepts es) d.order
      ∙ append_assoc (tooks e) (jobs t.heap q') (all accepts es)
      ∙ ap (λ l. tooks e ++ l) rest.order
      ∙ sym (append_assoc (tooks e) (all tooks es) (jobs u.heap r));
  begun = λ P. omega (
    arith,
    d.begun P,
    rest.begun P,
    tally-append P (tooks e) (all tooks es),
    tally-append P (begins e) (all begins es),
  );
  ended = λ P. omega (
    arith,
    d.ended P,
    rest.ended P,
    tally-append P (begins e) (all begins es),
    tally-append P (ends e) (all ends es),
  );
}

-- Whatever the interleaving of threads that submit tasks, of the workers, of spurious wake-ups and of
-- thread_pool_destroy, the tasks that waited followed by those accepted are, in this order, those
-- that workers took followed by those that wait; of the tasks that pass any test, as many
-- were taken as were started or are about to be, and as many were started as have finished or still
-- run; and the invariant holds in the end.
pub pool-Steps-Inv :
    (s t : Shared) (q : List ℕ) (es : List Event)
    → Steps s es t
    → Inv s q
    → (q' : List ℕ) × (Inv t q') × Ran s q es t q'
pool-Steps-Inv s t q es (none_left _) i = (
  q,
  i,
  record {
    size = refl;
    order = append-nil (jobs s.heap q);
    begun = λ P. omega arith;
    ended = λ P. omega arith;
  },
)
pool-Steps-Inv s t q es (one_more _ u _ e rest first later) i =
    let (q', j, d) = step_lem s u q e first i in
    let (r, k, ran) = pool-Steps-Inv u t q' rest later j in (r, k, chain s u t q q' r e rest d ran)

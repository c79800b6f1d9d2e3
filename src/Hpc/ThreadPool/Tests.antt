-- ===== src/Hpc/ThreadPool/Tests.antt =====
-- A pool of one worker that runs one task, which calls function 7 on argument 9 from a node at 5.
use c_comprehensive_template.Prelude.{
  ℕ, ◌≤◌, ◌≡◌, ◌⊎◌, inl, refl, Bool, true, false, none, some, List, [], ◌∷◌, arith,
}
use c_comprehensive_template.Core.Error.{ok}
use c_comprehensive_template.Hpc.BlockingQueue.Step.{fresh}
use c_comprehensive_template.Hpc.ThreadPool.{
  Heap, ThreadPool, leave, take_task, create, submit, submit_turn, link, worker_turn, stop, store,
  starts_all,
}
use c_comprehensive_template.Hpc.ThreadPool.Nodes.{Job}
use c_comprehensive_template.Hpc.ThreadPool.Step.{
  Shared, Event, silent, accepted, took, started, finished, turns, starts, finishes, works, submits,
  stops, Steps, none_left, one_more, Destroy,
}
use c_comprehensive_template.Hpc.ThreadPool.Inv.{Inv, tally, accepts, tooks, ends}
use c_comprehensive_template.Hpc.ThreadPool.Run.{all, Ran, pool-Steps-Inv}
use c_comprehensive_template.Hpc.ThreadPool.Effort.{effort}
use c_comprehensive_template.Hpc.ThreadPool.Finish.{CanWork, Joined, no_steps, destroy_lem}
use c_comprehensive_template.Hpc.ThreadPool.Once.{born, create_lem, worker_can, pool_runs_all}

abbrev always : ℕ → Bool
always n = true

abbrev one_worker : ThreadPool
one_worker = record {
  num_threads = 1;
  queue_head = 0;
  queue_tail = 0;
  cond = record { asleep = 0; woken = 0 };
  shutdown = false;
}

made : create true always always true 1 ≡ (ok, some one_worker)
unfolding create starts_all
made = refl

abbrev new : Shared
new = born one_worker

abbrev with_task : Heap
with_task = store (λ a. none) 5 (some (record { func = 7; arg = 9; next = 0 }))

abbrev filled : Shared
filled = record new {
  heap = with_task;
  pool = record one_worker { queue_head = 5; queue_tail = 5 };
}

abbrev in_hand : Shared
in_hand = record new { heap = with_task; ready = 0; taken = 5 ∷ [] }

abbrev busy : Shared
busy = record in_hand { taken = []; running = 5 ∷ [] }

abbrev free_again : Shared
free_again = record new { heap = store with_task 5 none }

abbrev stopped : Shared
stopped = record free_again { pool = record one_worker { shutdown = true } }

abbrev gone : Shared
gone = record stopped { ready = 0; exited = 1 }

-- The task comes to the worker, which runs it.
abbrev working : List Event
working = accepted (7, 9) ∷ took (7, 9) ∷ started (7, 9) ∷ finished (7, 9) ∷ silent ∷ silent ∷ []

run : Steps new working gone
unfolding submit submit_turn link worker_turn stop store
run = one_more new filled gone _ _ (submits new 5 7 9 ok with_task filled.pool (λ n. refl) refl) (
    one_more filled in_hand gone _ _
      (works _ _ _ (turns filled fresh (take_task 5) one_worker (omega arith) refl))
      (one_more in_hand busy gone _ _ (works _ _ _ (starts in_hand [] 5 [] refl)) (
        one_more busy free_again gone _ _ (works _ _ _ (finishes busy [] 5 [] refl)) (
          one_more free_again stopped gone _ _ (stops free_again) (
            one_more stopped gone gone _ _
              (works _ _ _ (turns stopped fresh leave stopped.pool (omega arith) refl))
              (none_left gone))))))

pool-Steps-Inv_example : (q : List ℕ) × (Inv gone q) × Ran new [] working gone q
pool-Steps-Inv_example =
    pool-Steps-Inv new gone [] working run (create_lem true always always true 1 one_worker made).0

pool_runs_all_example :
    (all accepts working ≡ all tooks working)
    × ((P : Job → Bool) → tally P (all accepts working) ≡ tally P (all ends working))
    × Joined gone
pool_runs_all_example =
    pool_runs_all true always always true 1 one_worker working gone made run refl

filling : Steps new (accepted (7, 9) ∷ []) filled
unfolding submit submit_turn link store
filling =
    one_more new filled filled _ _ (submits new 5 7 9 ok with_task filled.pool (λ n. refl) refl)
      (none_left filled)

worker_can_example : CanWork filled
worker_can_example =
    worker_can true always always true 1 one_worker (accepted (7, 9) ∷ []) filled made filling
      (inl (omega arith))

destroy_example :
    (0 ≤ effort (record new { pool = stop one_worker }) [])
    × (CanWork (record new { pool = stop one_worker })
        ⊎ (Destroy new new.heap × ((a : ℕ) → new.heap a ≡ none)))
destroy_example =
    destroy_lem new (record new { pool = stop one_worker }) [] 0
      (create_lem true always always true 1 one_worker made).0 (omega arith)
      (no_steps (record new { pool = stop one_worker }))

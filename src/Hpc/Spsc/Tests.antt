-- ===== src/Hpc/Spsc/Tests.antt =====
-- A producer and a consumer that meet in a queue of two one-byte elements.
use c_comprehensive_template.Prelude.{
  ℕ, ◌+◌, ◌*◌, ◌≤◌, ◌≡◌, ◌≢◌, refl, List, [], ◌∷◌, ◌++◌, length, arith, some, false, replicate,
}
use c_comprehensive_template.Bytes.{Block, slot, set_slot}
use c_comprehensive_template.Hpc.Spsc.{SpscQueue, push}
use c_comprehensive_template.Hpc.Spsc.Inv.{IsValid, contents, block}
use c_comprehensive_template.Hpc.Spsc.Step.{
  idle, loaded, free, copied, waiting, looked, filled, taken, Shared, silent, pushed, popped,
  push_load, push_free, push_copy, push_store, pop_load, pop_filled, pop_copy, pop_store, Steps,
  done, more, Event, pushes, pops,
}
use c_comprehensive_template.Hpc.Spsc.Linear.{Inv, Simulates, step_lem}
use c_comprehensive_template.Hpc.Spsc.Fifo.{Steps-Inv, race_free}

abbrev one : SpscQueue
one = record { bytes = some (7 ∷ 0 ∷ 0 ∷ []); elem_size = 1; slots = 3; head = 0; tail = 1 }

one-IsValid : IsValid one
one-IsValid = record {
  storage = refl;
  fits = omega arith;
  wide = omega arith;
  several = omega arith;
  small = omega arith;
  head_in = omega arith;
  tail_in = omega arith;
}

abbrev start : Shared
start = record { queue = one; producer = idle; consumer = waiting }

abbrev offered : Block
offered = 9 ∷ []

-- Both threads have seen their slots, and none has copied.
abbrev both : Shared
both = record { queue = one; producer = free offered 1 2; consumer = filled 0 }

abbrev overlap : List Event
overlap = silent ∷ silent ∷ silent ∷ silent ∷ []

start-Inv : Inv start
start-Inv = record { valid = one-IsValid; knows = tt; sees = tt }

meeting : Steps start overlap both
meeting = more _ _ _ _ _ (push_load start offered refl refl) (
    more _ _ _ _ _ (pop_load (record start { producer = loaded offered 1 }) refl) (
      more _ _ _ _ _
        (pop_filled (record start { producer = loaded offered 1; consumer = looked 0 }) 0 refl
          (omega arith))
        (more _ _ _ _ _
          (push_free (record start { producer = loaded offered 1; consumer = filled 0 }) offered 1
            refl (omega arith))
          (done both))))

push-full :
    push (some (record one { tail = 2 })) (some offered) ≡ (false, some (record one { tail = 2 }))
unfolding push
push-full = refl

both-Inv : Inv both
both-Inv = record {
  valid = one-IsValid;
  knows = (refl, refl, refl, omega arith);
  sees = (refl, omega arith);
}

step_example : Simulates both silent (record both { consumer = taken 0 (7 ∷ []) })
unfolding slot
step_example =
    step_lem both (record both { consumer = taken 0 (7 ∷ []) }) silent
      (pop_copy both 0 (7 ∷ []) refl refl) both-Inv

abbrev after_copy : SpscQueue
after_copy = record one { bytes = some (7 ∷ 9 ∷ 0 ∷ []) }

abbrev after : SpscQueue
after = record after_copy { head = 1; tail = 2 }

abbrev finish : List Event
finish = silent ∷ silent ∷ popped (7 ∷ []) ∷ pushed offered ∷ []

-- Both copy; the consumer gives the slot back before the producer publishes its own.
finishing : Steps both finish (record start { queue = after })
unfolding slot set_slot
finishing = more _ _ _ _ _ (pop_copy both 0 (7 ∷ []) refl refl) (
    more _ _ _ _ _ (push_copy (record both { consumer = taken 0 (7 ∷ []) }) offered 1 2 refl) (
      more _ _ _ _ _
        (pop_store
          (record {
            queue = after_copy;
            producer = copied offered 1 2;
            consumer = taken 0 (7 ∷ []);
          })
          0 (7 ∷ []) refl)
        (more _ _ _ _ _
          (push_store
            (record {
              queue = record after_copy { head = 1 };
              producer = copied offered 1 2;
              consumer = waiting;
            })
            offered 1 2 refl)
          (done (record start { queue = after })))))

Steps-Inv_example :
    Inv (record start { queue = after })
    × (contents one ++ pushes finish ≡ pops finish ++ contents after)
Steps-Inv_example = Steps-Inv both (record start { queue = after }) finish finishing both-Inv

race_free_example :
    ◌≢◌ {A = ℕ} 0 1 × (1 * 1 + 1 ≤ length (block one)) × (0 * 1 + 1 ≤ length (block one))
race_free_example = race_free start both overlap meeting start-Inv offered 1 2 0 refl refl

abbrev begun : SpscQueue
begun = record { bytes = some (replicate 6 0); elem_size = 2; slots = 3; head = 0; tail = 0 }

-- ===== src/Hpc/BlockingQueue/Tests.antt =====
-- A consumer that sleeps until a producer comes, in a queue of one one-byte element.
use c_comprehensive_template.Prelude.{
  ◌≡◌, ◌≢◌, refl, List, [], ◌∷◌, ◌++◌, arith, some, true, false, inl,
}
use c_comprehensive_template.Bytes.{slot, set_slot}
use c_comprehensive_template.Hpc.BlockingQueue.{BlockingQueue, push_turn, pop_turn}
use c_comprehensive_template.Hpc.BlockingQueue.Step.{
  Waiters, Shared, fresh, resumed, Event, silent, pushed, popped, push_moves, pop_waits, pop_moves,
  Steps, done, more, pushes, pops,
}
use c_comprehensive_template.Hpc.BlockingQueue.Refine.{IsValid, contents}
use c_comprehensive_template.Hpc.BlockingQueue.Wake.{Inv, Simulates, turn_lem}
use c_comprehensive_template.Hpc.BlockingQueue.Fifo.{bq-Steps-Inv, no_lost_wakeup}

abbrev bare : BlockingQueue
bare = record {
  bytes = some (0 ∷ []);
  elem_size = 1;
  capacity = 1;
  head = 0;
  len = 0;
  closed = false;
}

abbrev loaded : BlockingQueue
loaded = record bare { bytes = some (9 ∷ []); len = 1 }

abbrev nobody : Waiters
nobody = record { asleep = 0; woken = 0 }

abbrev start : Shared
start = record { queue = bare; pushers = nobody; poppers = nobody }

abbrev sleeping : Shared
sleeping = record start { poppers = record { asleep = 1; woken = 0 } }

abbrev woken_up : Shared
woken_up = record start { queue = loaded; poppers = record { asleep = 0; woken = 1 } }

abbrev drained_again : Shared
drained_again = record start { queue = record bare { bytes = some (9 ∷ []) } }

bare-IsValid : IsValid bare
bare-IsValid = record {
  storage = refl;
  fits = omega arith;
  wide = omega arith;
  small = omega arith;
  head_in = omega arith;
  len_in = omega arith;
}

start-Inv : Inv start
start-Inv = record {
  valid = bare-IsValid;
  poppers_heard = inl refl;
  pushers_heard = inl refl;
  quiet = λ h. (refl, refl);
}

abbrev meeting : List Event
meeting = silent ∷ pushed (9 ∷ []) ∷ popped (9 ∷ []) ∷ []

-- The consumer finds nothing and sleeps, the producer wakes it, and it takes the element.
met : Steps start meeting drained_again
unfolding push_turn pop_turn slot set_slot
met = more _ _ _ _ _ (pop_waits start fresh bare tt refl) (
    more _ _ _ _ _ (push_moves sleeping fresh (9 ∷ []) loaded tt refl refl) (
      more _ _ _ _ _
        (pop_moves woken_up resumed (9 ∷ []) (record bare { bytes = some (9 ∷ []) }) (omega arith)
          refl)
        (done drained_again)))

turn_example : Simulates start (pushed (9 ∷ [])) (record start { queue = loaded })
unfolding push_turn set_slot
turn_example =
    turn_lem start (record start { queue = loaded }) (pushed (9 ∷ []))
      (push_moves start fresh (9 ∷ []) loaded tt refl refl) start-Inv

bq-Steps-Inv_example :
    Inv drained_again
    × (contents bare ++ pushes meeting ≡ pops meeting ++ contents drained_again.queue)
bq-Steps-Inv_example = bq-Steps-Inv start drained_again meeting met start-Inv

abbrev asleep_then : List Event
asleep_then = silent ∷ pushed (9 ∷ []) ∷ []

asleep_run : Steps start asleep_then woken_up
unfolding push_turn pop_turn set_slot
asleep_run =
    more _ _ _ _ _ (pop_waits start fresh bare tt refl)
      (more _ _ _ _ _ (push_moves sleeping fresh (9 ∷ []) loaded tt refl refl) (done woken_up))

no_lost_wakeup_example :
    (woken_up.poppers.asleep ≢ 0 → loaded.len ≢ 0 → woken_up.poppers.woken ≢ 0)
    × (woken_up.pushers.asleep ≢ 0 → loaded.len ≢ loaded.capacity → woken_up.pushers.woken ≢ 0)
    × (loaded.closed ≡ true → (woken_up.pushers.asleep ≡ 0) × (woken_up.poppers.asleep ≡ 0))
no_lost_wakeup_example = no_lost_wakeup start woken_up asleep_then asleep_run start-Inv

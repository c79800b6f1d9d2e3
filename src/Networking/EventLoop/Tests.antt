-- ===== src/Networking/EventLoop/Tests.antt =====
-- Two readable descriptors; the callback of the first removes the second and adds a third.
use c_comprehensive_template.Prelude.{
  ℕ, ◌≡◌, refl, inl, inr, ◌⊎◌, Bool, true, false, some, List, [], ◌∷◌, map, pos, arith,
}
use c_comprehensive_template.Core.Error.{ErrorCode, ok}
use c_comprehensive_template.Networking.EventLoop.{
  EventEntry, Bits, PollFd, EventLoop, no_bits, find_index, add_loop, make_room, remove_loop,
  compact, interest_to_poll, poll_to_ready,
}
use c_comprehensive_template.Networking.EventLoop.Table.{lookup, Unique}
use c_comprehensive_template.Networking.EventLoop.Registry.{Outcome, perform_lem, Lockstep}
use c_comprehensive_template.Networking.EventLoop.Poll.{
  adds, removes, perform, Script, finish, and_then, Call, Answer, found, asked, poll_retry,
  poll_once, turn, dispatch, answered, exec, filled,
}
use c_comprehensive_template.Networking.EventLoop.Dispatch.{Busy, Called, turn_calls}
use c_comprehensive_template.Networking.EventLoop.Round.{After, poll_once_lem}

abbrev first : EventEntry
first = record { fd = pos 3; events = 1; cb = 100; user_data = 7 }

abbrev second : EventEntry
second = record { fd = pos 4; events = 1; cb = 200; user_data = 8 }

abbrev third : EventEntry
third = record { fd = pos 5; events = 2; cb = 300; user_data = 9 }

abbrev watching : EventLoop
watching = record {
  entries = first ∷ second ∷ [];
  pollfds = [];
  capacity = 8;
  running = false;
  dispatching = false;
  entries_room = 8;
  pollfds_room = 8;
  overrun = false;
}

abbrev readable : Bits
readable = record no_bits { pollin = true }

abbrev memory : ℕ → Bool
memory n = true

abbrev react : Call → ℕ → Script ℕ
react c w =
    and_then (removes (pos 4)) (λ e. and_then (adds (pos 5) 2 300 9) (λ e'. finish (c.user_data)))

abbrev poll : List PollFd → ℕ → Answer × ℕ
poll ps w = (found 2 (λ i. readable), w)

abbrev after_round : EventLoop
after_round = record watching {
  entries = first ∷ third ∷ [];
  pollfds =
      record { fd = pos 3; events = readable; revents = readable }
      ∷ record { fd = pos 4; events = readable; revents = readable }
      ∷ [];
}

round_runs :
    poll_once memory react poll 1 watching 0
    ≡ some (ok, record { fd = pos 3; ready = 1; cb = 100; user_data = 7 } ∷ [], after_round, 7)
unfolding poll_once poll_retry answered dispatch turn exec perform filled asked interest_to_poll
    poll_to_ready add_loop make_room remove_loop find_index compact
round_runs = refl

watching-Unique : Unique watching.entries
unfolding Unique lookup
watching-Unique = (inr refl, (inr refl, tt))

polled :
    poll_retry memory react poll 1 (map asked watching.entries) 0
    ≡ some (found 2 (λ i. readable), 0)
unfolding poll_retry
polled = refl

poll_once_example :
    (r : ErrorCode × List Call × EventLoop × ℕ) × (poll_once memory react poll 1 watching 0
      ≡ some r)
    × After memory react poll watching (found 2 (λ i. readable)) r
poll_once_example =
    poll_once_lem memory react poll 1 (found 2 (λ i. readable)) watching 0 0 watching-Unique
      (refl, omega arith, omega arith, omega arith) refl polled

perform_example :
    Outcome (removes (pos 4)) watching (perform memory (removes (pos 4)) watching) (pos 3)
perform_example = perform_lem memory (removes (pos 4)) watching (pos 3) watching-Unique refl

abbrev busy : EventLoop
busy = record watching { pollfds = after_round.pollfds; dispatching = true }

busy-Busy : Busy after_round.pollfds busy
unfolding Lockstep
busy-Busy = (watching-Unique, refl, refl, (inl refl, (inl refl, tt)))

turn_calls_example :
    (cs : List Call) × (l' : EventLoop) × (w' : ℕ) × (turn memory react poll 0 busy 0
      ≡ some (cs, l', w'))
    × Busy after_round.pollfds l'
    × ((cs ≡ [])
        ⊎ ((c : Call) × (cs ≡ c ∷ [])
            × Called memory react poll c
                (record { fd = pos 3; events = readable; revents = readable })
                busy))
turn_calls_example =
    turn_calls memory react poll after_round.pollfds 0
      (record { fd = pos 3; events = readable; revents = readable }) busy 0 busy-Busy refl

-- ===== src/Networking/EventLoop/Poll.antt =====
-- event_loop_poll_once and event_loop_run: the poll, the dispatch of callbacks, and what a callback
-- does with the loop. W is the state of everything outside the loop.
use c_comprehensive_template.Prelude.{
  ℕ, zero, suc, ◌+◌, Bool, true, false, ◌||◌, ltb, Option, none, some, List, [], ◌∷◌, ◌++◌, length,
  get_elem?, map, ◌==◌, if◌then◌else◌, ℤ, is_negative,
}
use c_comprehensive_template.Core.Error.{ErrorCode, ok, io}
use c_comprehensive_template.Networking.EventLoop.{
  EventEntry, Bits, PollFd, EventLoop, no_bits, interest_to_poll, poll_to_ready, add_loop, mod_loop,
  remove_loop, compact, stop,
}

-- A call of the loop by a callback.
pub data Action : Type 0 where
  adds : (fd : ℤ) (events cb user_data : ℕ) → Action
  mods : (fd : ℤ) (events : ℕ) → Action
  removes : (fd : ℤ) → Action
  stops : Action

unfoldable pub perform : (ℕ → Bool) → Action → EventLoop → ErrorCode × EventLoop
perform realloc (adds fd events cb user_data) l = add_loop realloc l fd events cb user_data
perform realloc (mods fd events) l = mod_loop l fd events
perform realloc (removes fd) l = remove_loop l fd
perform realloc stops l = (ok, stop l)

-- What a callback does: calls of the loop, each of which may depend on the codes before.
pub data Script (W : Type 0) : Type 0 where
  finish : W → Script W
  and_then : Action → (ErrorCode → Script W) → Script W

-- A call of a callback.
pub record Call : Type 0 where
  pub fd : ℤ
  pub ready : ℕ
  pub cb : ℕ
  pub user_data : ℕ

-- What poll(2) answers: it was interrupted, it failed, or it found so many descriptors ready, with
-- the bits of each index.
pub data Answer : Type 0 where
  interrupted : Answer
  failed : Answer
  found : ℕ → (ℕ → Bits) → Answer

unfoldable pub filled : List PollFd → ℕ → (ℕ → Bits) → List PollFd
filled [] i bits = []
filled (p ∷ ps) i bits = record p { revents = bits i } ∷ filled ps (i + 1) bits

unfoldable pub asked : EventEntry → PollFd
asked e = record { fd = e.fd; events = interest_to_poll e.events; revents = no_bits }

module _ {W : Type 0} (realloc : ℕ → Bool) (react : Call → W → Script W)
    (poll : List PollFd → W → Answer × W) where
  unfoldable pub exec : Script W → EventLoop → EventLoop × W
  exec (finish w) l = (l, w)
  exec (and_then a next) l = let (err, l') = perform realloc a l in exec (next err) l'

  -- The body of the dispatch loop for index i; none is an access out of range.
  unfoldable pub turn : ℕ → EventLoop → W → Option (List Call × EventLoop × W)
  turn i l w = elim (get_elem? l.entries i) [
    | none ↦ none
    | some e ↦ if is_negative e.fd then some ([], l, w) else elim (get_elem? l.pollfds i) [
      | none ↦ none
      | some p ↦
          let ready = poll_to_ready p.revents in
          if ready == 0
          then some ([], l, w)
          else let c : Call = record {
            fd = e.fd;
            ready = ready;
            cb = e.cb;
            user_data = e.user_data;
          } in
            let (l', w') = exec (react c w) l in some (c ∷ [], l', w')
    ]
  ]

  -- The dispatch loop from index i on, with so many rounds left.
  unfoldable pub dispatch : ℕ → ℕ → EventLoop → W → Option (List Call × EventLoop × W)
  dispatch zero i l w = some ([], l, w)
  dispatch (suc n) i l w = elim (turn i l w) [
    | none ↦ none
    | some (cs, l', w') ↦ elim (dispatch n (i + 1) l' w') [
      | none ↦ none
      | some (ds, l'', w'') ↦ some (cs ++ ds, l'', w'')
    ]
  ]

  -- The loop around poll, that an interrupt repeats, within a number of tries.
  unfoldable pub poll_retry : ℕ → List PollFd → W → Option (Answer × W)
  poll_retry zero ps w = none
  poll_retry (suc tries) ps w =
      let (answer, w') = poll ps w in
      elim answer [
        | interrupted ↦ poll_retry tries ps w'
        | failed ↦ some (failed, w')
        | found n bits ↦ some (found n bits, w')
      ]

  -- The round that an answer brings; the calls made, in order.
  unfoldable pub answered : Answer → EventLoop → W → Option (ErrorCode × List Call × EventLoop × W)
  answered interrupted l w = none
  answered failed l w = some (io, [], l, w)
  answered (found n bits) l w =
      let l' = record l { pollfds = filled l.pollfds 0 bits } in
      if n == 0
      then some (ok, [], l', w)
      else elim (dispatch (length l.entries) 0 (record l' { dispatching = true }) w) [
        | none ↦ none
        | some (cs, l'', w') ↦
            some (ok, cs, record l'' { entries = compact l''.entries; dispatching = false }, w')
      ]

  -- The first loop writes pollfds[i] for every entry.
  unfoldable pub poll_once : ℕ → EventLoop → W → Option (ErrorCode × List Call × EventLoop × W)
  poll_once tries l w =
      let prepared = if length l.entries == 0 then l else record l {
        pollfds = map asked l.entries;
        overrun = l.overrun || ltb l.pollfds_room (length l.entries);
      } in
      elim (poll_retry tries (if length l.entries == 0 then [] else prepared.pollfds) w) [
        | none ↦ none
        | some (answer, w') ↦
            if length l.entries == 0
            then elim answer [
              | interrupted ↦ none
              | failed ↦ some (io, [], l, w')
              | found n bits ↦ some (ok, [], l, w')
            ]
            else answered answer prepared w'
      ]

  -- The loop of event_loop_run, within a number of rounds.
  unfoldable pub run : ℕ → ℕ → EventLoop → W → Option (ErrorCode × List Call × EventLoop × W)
  run zero tries l w = none
  run (suc rounds) tries l w = elim l.running [
    | false ↦ some (ok, [], l, w)
    | true ↦ elim (poll_once tries l w) [
      | none ↦ none
      | some (err, cs, l', w') ↦ elim err [
        | ok ↦ elim (run rounds tries l' w') [
          | none ↦ none
          | some (code, ds, l'', w'') ↦ some (code, cs ++ ds, l'', w'')
        ]
        | other ↦ some (other, cs, record l' { running = false }, w')
      ]
    ]
  ]

  unfoldable pub run_loop : ℕ → ℕ → EventLoop → W → Option (ErrorCode × List Call × EventLoop × W)
  run_loop rounds tries l w = run rounds tries (record l { running = true }) w

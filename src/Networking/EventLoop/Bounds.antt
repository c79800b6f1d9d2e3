-- ===== src/Networking/EventLoop/Bounds.antt =====
-- The arrays of the event loop: event_loop_add and event_loop_poll_once write no element of `entries`
-- or `pollfds` past the end of the block that realloc gave.
use c_comprehensive_template.Prelude.{
  ℕ, zero, suc, ◌+◌, ◌*◌, ◌/◌, ◌%◌, ◌≤◌, ◌<◌, ◌≡◌, ◌≢◌, inl, inr, refl, ap, subst, ◌-◌, Bool,
  Bool-cases, false, ◌||◌, Option, Option-cases, none, some, List, [], ◌∷◌, length, length-append,
  length-take, length-set, get_elem?, leb, ltb, if◌then◌else◌, size_max, size_mod, ◌==◌, set,
  is_negative, arith,
}
use c_comprehensive_template.Core.Error.{
  ErrorCode, ok, nomem, io, invalid_arg, overflow, not_found, unsupported,
}
use c_comprehensive_template.Networking.EventLoop.{
  EventEntry, PollFd, EventLoop, poll_to_ready, make_room, add_loop, mod_loop, remove_loop, update,
  tombstone, swap_remove, compact, stop,
}
use c_comprehensive_template.Networking.EventLoop.Table.{find-cases}
use c_comprehensive_template.Networking.EventLoop.Poll.{
  Action, adds, mods, removes, stops, perform, Script, finish, and_then, Call, Answer, exec, turn,
  dispatch,
}
use c_comprehensive_template.Networking.EventLoop.Dispatch.{added}

-- No write was out of range, the registrations fit in the capacity, and the capacity in the blocks.
abbrev pub InBounds : EventLoop → Type 0
InBounds l =
    (l.overrun ≡ false)
    × (length l.entries ≤ l.capacity)
    × (l.capacity ≤ l.entries_room)
    × (l.capacity ≤ l.pollfds_room)

abbrev HasRoom : ErrorCode × EventLoop → Type 0
HasRoom r = InBounds r.1 × (r.0 ≡ ok → length r.1.entries < r.1.capacity)

refused : (err : ErrorCode) (l : EventLoop) → err ≢ ok → InBounds l → HasRoom (err, l)
refused err l bad b = (b, λ e. absurd (bad e))

-- After the growth that event_loop_add makes, there is room for one more.
make_room-InBounds :
    (realloc : ℕ → Bool) (l : EventLoop) → InBounds l → HasRoom (make_room realloc l)
unfolding make_room
make_room-InBounds realloc l (clean, fits, store, polls) =
    let b : InBounds l = (clean, fits, store, polls) in
    let n : ℕ = if l.capacity == 0 then 8 else l.capacity * 2 % size_mod in
    elim (Bool-cases (length l.entries == l.capacity)) [
      | inr c ↦ rw (make_room, c) (b, λ e. ground (arith, c, fits))
      | inl c ↦ elim (Bool-cases (ltb (size_max / 2) l.capacity)) [
        | inl c2 ↦ rw (make_room, c, c2) (refused overflow l (ground arith) b)
        | inr c2 ↦
            let more : l.capacity < n = ground (arith, c2) in
            elim (Bool-cases (ltb (size_max / 24) n || ltb (size_max / 8) n)) [
              | inl c3 ↦ rw (make_room, c, c2, c3) (refused overflow l (ground arith) b)
              | inr c3 ↦
                  let small : n ≤ size_max / 24 = ground (arith, c3) in
                  let whole : n * 24 % size_mod / 24 ≡ n = omega (arith, small) in
                  let whole' : n * 8 % size_mod / 8 ≡ n = omega (arith, small) in
                  elim (Bool-cases (realloc (n * 24 % size_mod))) [
                    | inr c4 ↦ rw (make_room, c, c2, c3, c4) (refused nomem l (ground arith) b)
                    | inl c4 ↦ elim (Bool-cases (realloc (n * 8 % size_mod))) [
                      | inr c5 ↦
                          rw (make_room, c, c2, c3, c4, c5)
                            (refused nomem (record l { entries_room = n * 24 % size_mod / 24 })
                              (ground arith)
                              (clean, fits, omega (arith, whole, more, store), polls))
                      | inl c5 ↦
                          rw (make_room, c, c2, c3, c4, c5)
                            (
                              (
                                clean,
                                omega (arith, fits, more),
                                omega (arith, whole),
                                omega (arith, whole'),
                              ),
                              λ e. omega (arith, fits, more),
                            )
                    ]
                  ]
            ]
      ]
    ]

added-InBounds :
    (l : EventLoop) (e : EventEntry) (err : ErrorCode)
    → InBounds l
    → (err ≡ ok → length l.entries < l.capacity)
    → InBounds (added l e err).1
added-InBounds l e ok (clean, fits, store, polls) room =
    let low = room refl in
    let within : leb l.entries_room (length l.entries) ≡ false = ground (arith, low, store) in
    (rw clean (rw within refl), omega (arith, length-append l.entries (e ∷ []), low), store, polls)
added-InBounds l e nomem b room = b
added-InBounds l e io b room = b
added-InBounds l e invalid_arg b room = b
added-InBounds l e overflow b room = b
added-InBounds l e not_found b room = b
added-InBounds l e unsupported b room = b

length-update :
    (es : List EventEntry) (i : ℕ) (f : EventEntry → EventEntry)
    → length (update es i f) ≡ length es
length-update [] i f = refl
length-update (e ∷ es) zero f = refl
length-update (e ∷ es) (suc i) f = ap suc (length-update es i f)

length-swap_remove : (es : List EventEntry) (i : ℕ) → length (swap_remove es i) ≤ length es
unfolding swap_remove
length-swap_remove es i = elim (Option-cases (get_elem? es (length es - 1))) [
  | inl e ↦ rw (swap_remove, e) (omega arith)
  | inr (x, e) ↦
      rw (swap_remove, e)
        (omega (arith, length-take (length es - 1) (set es i x), length-set es i x))
]

length-compact : (es : List EventEntry) → length (compact es) ≤ length es
unfolding compact
length-compact [] = omega arith
length-compact (e ∷ es) = let rest = length-compact es in ground (arith, rest)

perform-InBounds :
    (realloc : ℕ → Bool) (a : Action) (l : EventLoop)
    → InBounds l
    → InBounds (perform realloc a l).1
unfolding perform add_loop mod_loop remove_loop stop
perform-InBounds realloc (adds own events cb user_data) l b =
    elim (Bool-cases (is_negative own || cb == 0 || events == 0)) [
      | inl g ↦ rw g b
      | inr g ↦ elim (find-cases l.entries own) [
        | inr (i, e, n, _, _, _) ↦ rw g (rw n b)
        | inl (n, m) ↦
            let (b', room) = make_room-InBounds realloc l b in
            rw g (
              rw n (
                added-InBounds (make_room realloc l).1
                  (record { fd = own; events = events; cb = cb; user_data = user_data })
                  (make_room realloc l).0 b' room))
      ]
    ]
perform-InBounds realloc (mods own events) l (clean, fits, store, polls) =
    elim (Bool-cases (is_negative own || events == 0)) [
      | inl g ↦ rw g (clean, fits, store, polls)
      | inr g ↦ elim (find-cases l.entries own) [
        | inl (n, m) ↦ rw g (rw n (clean, fits, store, polls))
        | inr (i, e, n, _, _, _) ↦ rw g (
            rw n (
              clean,
              omega (arith, length-update l.entries i (λ e. record e { events = events }), fits),
              store,
              polls,
            ))
      ]
    ]
perform-InBounds realloc (removes own) l (clean, fits, store, polls) =
    elim (Bool-cases (is_negative own)) [
      | inl g ↦ rw g (clean, fits, store, polls)
      | inr g ↦ elim (find-cases l.entries own) [
        | inl (n, m) ↦ rw g (rw n (clean, fits, store, polls))
        | inr (i, e, n, _, _, _) ↦ elim (Bool-cases l.dispatching) [
          | inl d ↦ rw g (
              rw n (
                rw d
                  (clean, omega (arith, length-update l.entries i tombstone, fits), store, polls)))
          | inr d ↦ rw g (
              rw n
                (rw d (clean, omega (arith, length-swap_remove l.entries i, fits), store, polls)))
        ]
      ]
    ]
perform-InBounds realloc stops l b = b

module _ {W : Type 0} (realloc : ℕ → Bool) (react : Call → W → Script W)
    (poll : List PollFd → W → Answer × W) where
  abbrev pub AllInBounds : Option (List Call × EventLoop × W) → Type 0
  AllInBounds none = Unit
  AllInBounds (some (cs, l, w)) = InBounds l

  exec-InBounds :
      (s : Script W) (l : EventLoop) → InBounds l → InBounds (exec realloc react poll s l).0
  unfolding exec
  exec-InBounds (finish w) l b = b
  exec-InBounds (and_then a next) l b =
      exec-InBounds (next (perform realloc a l).0) (perform realloc a l).1
        (perform-InBounds realloc a l b)

  turn-InBounds :
      (i : ℕ) (l : EventLoop) (w : W) → InBounds l → AllInBounds (turn realloc react poll i l w)
  unfolding turn
  turn-InBounds i l w b = elim (Option-cases (get_elem? l.entries i)) [
    | inl none_there ↦ rw (turn, none_there) tt
    | inr (e, at_i) ↦ elim (Bool-cases (is_negative e.fd)) [
      | inl dead ↦ rw (turn, at_i, dead) b
      | inr live ↦ elim (Option-cases (get_elem? l.pollfds i)) [
        | inl none_there ↦ rw (turn, at_i, live, none_there) tt
        | inr (p, h) ↦ elim (Bool-cases (poll_to_ready p.revents == 0)) [
          | inl idle ↦ rw (turn, at_i, live, h, idle) b
          | inr busy ↦
              let c : Call = record {
                fd = e.fd;
                ready = poll_to_ready p.revents;
                cb = e.cb;
                user_data = e.user_data;
              } in
              rw (turn, at_i, live, h, busy) (exec-InBounds (react c w) l b)
        ]
      ]
    ]
  ]

  pub dispatch-InBounds :
      (n i : ℕ) (l : EventLoop) (w : W)
      → InBounds l
      → AllInBounds (dispatch realloc react poll n i l w)
  unfolding dispatch
  dispatch-InBounds zero i l w b = b
  dispatch-InBounds (suc n) i l w b = elim (Option-cases (turn realloc react poll i l w)) [
    | inl e ↦ rw (dispatch, e) tt
    | inr ((cs, l', w'), e) ↦
        let b' : InBounds l' = subst AllInBounds e (turn-InBounds i l w b) in
        elim (Option-cases (dispatch realloc react poll n (i + 1) l' w')) [
          | inl e' ↦ rw (dispatch, e, e') tt
          | inr ((ds, l'', w''), e') ↦
              let b'' : InBounds l'' =
                subst AllInBounds e' (dispatch-InBounds n (i + 1) l' w' b') in
              rw (dispatch, e, e') b''
        ]
  ]

-- What a round leaves, after its callbacks.
pub compact-InBounds :
    (l : EventLoop)
    → InBounds l
    → InBounds (record l { entries = compact l.entries; dispatching = false })
compact-InBounds l (clean, fits, store, polls) =
    (clean, omega (arith, length-compact l.entries, fits), store, polls)

-- ===== src/Networking/EventLoop/Dispatch.antt =====
-- The dispatch of event_loop_poll_once: callbacks may add, change and remove registrations while
-- the loop walks over them.
use c_comprehensive_template.Prelude.{
  ℕ, zero, suc, ◌≡◌, ◌≢◌, ◌⊎◌, inl, inr, refl, sym, subst, ◌∙◌, Bool, Bool-cases, true, false, ◌||◌,
  some, List, [], ◌∷◌, get_elem?, ◌==◌, pos, is_negative, same_int-cases, same_int_self, arith,
}
use c_comprehensive_template.Core.Error.{
  ErrorCode, ok, nomem, io, invalid_arg, overflow, not_found, unsupported,
}
use c_comprehensive_template.Networking.EventLoop.{
  EventEntry, PollFd, EventLoop, registered, poll_to_ready, make_room, add_loop, mod_loop,
  remove_loop, tombstone, stop,
}
use c_comprehensive_template.Networking.EventLoop.Table.{lookup, Unique, find-cases, fresh_behind}
use c_comprehensive_template.Networking.EventLoop.Registry.{
  Lockstep, Lockstep-append, Lockstep-update, make_room_keeps, perform_lem,
}
use c_comprehensive_template.Networking.EventLoop.Poll.{
  Action, adds, mods, removes, stops, perform, Script, finish, and_then, Call, Answer, exec, turn,
}

abbrev pub added : EventLoop → EventEntry → ErrorCode → ErrorCode × EventLoop
added l' e err = elim err [ ok ↦ (ok, registered l' e) | other ↦ (other, l') ]

added-Lockstep :
    (ps : List PollFd) (l l' : EventLoop) (e : EventEntry) (err : ErrorCode)
    → l'.entries ≡ l.entries
    → Lockstep ps l.entries
    → Lockstep ps (added l' e err).1.entries
added-Lockstep ps l l' e ok k s = rw k (Lockstep-append ps l.entries (e ∷ []) s)
added-Lockstep ps l l' e nomem k s = rw k s
added-Lockstep ps l l' e io k s = rw k s
added-Lockstep ps l l' e invalid_arg k s = rw k s
added-Lockstep ps l l' e overflow k s = rw k s
added-Lockstep ps l l' e not_found k s = rw k s
added-Lockstep ps l l' e unsupported k s = rw k s

perform-Lockstep :
    (realloc : ℕ → Bool) (a : Action) (l : EventLoop) (ps : List PollFd)
    → l.dispatching ≡ true
    → Lockstep ps l.entries
    → Lockstep ps (perform realloc a l).1.entries
unfolding perform add_loop mod_loop remove_loop stop
perform-Lockstep realloc (adds own events cb user_data) l ps d s =
    elim (Bool-cases (is_negative own || cb == 0 || events == 0)) [
      | inl g ↦ rw g s
      | inr g ↦ elim (find-cases l.entries own) [
        | inr (i, e, n, _, _, _) ↦ rw g (rw n s)
        | inl (n, m) ↦ rw g (
            rw n (
              added-Lockstep ps l (make_room realloc l).1
                (record { fd = own; events = events; cb = cb; user_data = user_data })
                (make_room realloc l).0 (make_room_keeps realloc l).0 s))
      ]
    ]
perform-Lockstep realloc (mods own events) l ps d s =
    elim (Bool-cases (is_negative own || events == 0)) [
      | inl g ↦ rw g s
      | inr g ↦ elim (find-cases l.entries own) [
        | inl (n, m) ↦ rw g (rw n s)
        | inr (i, e, n, _, _, _) ↦ rw g (
            rw n (
              Lockstep-update ps l.entries i (λ e. record e { events = events }) (λ e. inl refl) s))
      ]
    ]
perform-Lockstep realloc (removes own) l ps d s = elim (Bool-cases (is_negative own)) [
  | inl g ↦ rw g s
  | inr g ↦ elim (find-cases l.entries own) [
    | inl (n, m) ↦ rw g (rw n s)
    | inr (i, e, n, _, _, _) ↦
        rw g (rw n (rw d (Lockstep-update ps l.entries i tombstone (λ e. inr refl) s)))
  ]
]
perform-Lockstep realloc stops l ps d s = s

-- A loop in the middle of its dispatch over the descriptors ps.
abbrev pub Busy : List PollFd → EventLoop → Type 0
Busy ps l = Unique l.entries × (l.dispatching ≡ true) × (l.pollfds ≡ ps) × Lockstep ps l.entries

perform-Busy :
    (realloc : ℕ → Bool) (a : Action) (l : EventLoop) (ps : List PollFd)
    → Busy ps l
    → Busy ps (perform realloc a l).1
perform-Busy realloc a l ps (u, d, p, s) =
    let (u', p', d', _) = perform_lem realloc a l (pos 0) u refl in
    (u', d' ∙ d, p' ∙ p, perform-Lockstep realloc a l ps d s)

Lockstep-at :
    (ps : List PollFd) (es : List EventEntry) (i : ℕ) (p : PollFd)
    → Lockstep ps es
    → get_elem? ps i ≡ some p
    → (e : EventEntry) × (get_elem? es i ≡ some e) × ((e.fd ≡ p.fd) ⊎ (is_negative e.fd ≡ true))
unfolding Lockstep
Lockstep-at [] es i p s h = absurd (ground (arith, h))
Lockstep-at (q ∷ ps) [] i p s h = elim s [ ]
Lockstep-at (q ∷ ps) (e ∷ es) zero p (here, s) h =
    let same : q ≡ p = ground (arith, h) in (e, refl, rw same at here)
Lockstep-at (q ∷ ps) (e ∷ es) (suc i) p (here, s) h = Lockstep-at ps es i p s h

lookup_at :
    (es : List EventEntry) (i : ℕ) (e : EventEntry)
    → Unique es
    → get_elem? es i ≡ some e
    → is_negative e.fd ≡ false
    → lookup es e.fd ≡ some e
unfolding lookup Unique
lookup_at [] i e u h live = absurd (ground (arith, h))
lookup_at (x ∷ es) zero e u h live =
    let same : x ≡ e = ground (arith, h) in rw same (rw (same_int_self e.fd) refl)
lookup_at (x ∷ es) (suc i) e (first, u) h live =
    let rest = lookup_at es i e u h live in
    elim (same_int-cases x.fd e.fd) [
      | inl (same, t) ↦ absurd (ground (arith, sym rest ∙ fresh_behind x es e.fd first live same))
      | inr (_, t) ↦ rw t rest
    ]

module _ {W : Type 0} (realloc : ℕ → Bool) (react : Call → W → Script W)
    (poll : List PollFd → W → Answer × W) where
  exec-Busy :
      (s : Script W) (l : EventLoop) (ps : List PollFd)
      → Busy ps l
      → Busy ps (exec realloc react poll s l).0
  unfolding exec
  exec-Busy (finish w) l ps b = b
  exec-Busy (and_then a next) l ps b =
      exec-Busy (next (perform realloc a l).0) (perform realloc a l).1 ps
        (perform-Busy realloc a l ps b)

  -- A call for the polled descriptor p: the callback that is registered for it at that moment.
  abbrev pub Called : Call → PollFd → EventLoop → Type 0
  Called c p l =
      (c.fd ≡ p.fd)
      × (c.ready ≡ poll_to_ready p.revents)
      × (c.ready ≢ 0)
      × ((e : EventEntry) × (lookup l.entries c.fd ≡ some e)
          × (c.cb ≡ e.cb)
          × (c.user_data ≡ e.user_data))

  -- One round of the dispatch loop: in range, and it runs at most one callback, the one registered
  -- at that moment for the descriptor that was polled at this index.
  pub turn_calls :
      (ps : List PollFd) (i : ℕ) (p : PollFd) (l : EventLoop) (w : W)
      → Busy ps l
      → get_elem? ps i ≡ some p
      → (cs : List Call) × (l' : EventLoop) × (w' : W) × (turn realloc react poll i l w
          ≡ some (cs, l', w'))
        × Busy ps l'
        × ((cs ≡ []) ⊎ ((c : Call) × (cs ≡ c ∷ []) × Called c p l))
  unfolding turn
  turn_calls ps i p l w (u, d, k, s) h =
      let (e, at_i, stands) = Lockstep-at ps l.entries i p s h in
      let h' : get_elem? l.pollfds i ≡ some p = subst (λ q. get_elem? q i ≡ some p) (sym k) h in
      elim (Bool-cases (is_negative e.fd)) [
        | inl dead ↦ ([], l, w, rw (turn, at_i, dead) refl, (u, d, k, s), inl refl)
        | inr live ↦ elim (Bool-cases (poll_to_ready p.revents == 0)) [
          | inl idle ↦ ([], l, w, rw (turn, at_i, live, h', idle) refl, (u, d, k, s), inl refl)
          | inr busy ↦
              let c : Call = record {
                fd = e.fd;
                ready = poll_to_ready p.revents;
                cb = e.cb;
                user_data = e.user_data;
              } in
              let done = exec realloc react poll (react c w) l in
              (
                c ∷ [],
                done.0,
                done.1,
                rw (turn, at_i, live, h', busy) refl,
                exec-Busy (react c w) l ps (u, d, k, s),
                inr (
                  c,
                  refl,
                  (
                    elim stands [
                      | inl same ↦ same
                      | inr dead ↦ absurd (ground (arith, sym live ∙ dead))
                    ],
                    refl,
                    λ z. absurd (ground (arith, busy, z)),
                    (e, lookup_at l.entries i e u at_i live, refl, refl),
                  ),
                ),
              )
        ]
      ]

-- ===== src/Networking/EventLoop/Registry.antt =====
-- event_loop_add, event_loop_mod and event_loop_remove as changes of the map from descriptors to
-- registrations.
use c_comprehensive_template.Prelude.{
  ℕ, zero, suc, ◌≡◌, ◌≢◌, ◌⊎◌, inl, inr, refl, ap, sym, subst, ◌∙◌, Bool, Bool-cases, true, false,
  ◌||◌, Option, none, some, List, [], ◌∷◌, ◌++◌, ◌==◌, if◌then◌else◌, ℤ, is_negative, same_int,
  same_int-cases, arith,
}
use c_comprehensive_template.Core.Error.{
  ErrorCode, ok, nomem, io, invalid_arg, overflow, not_found, unsupported,
}
use c_comprehensive_template.Networking.EventLoop.{
  EventEntry, PollFd, EventLoop, registered, find_index, make_room, add_loop, mod_loop, remove_loop,
  update, swap_remove, stop,
}
use c_comprehensive_template.Networking.EventLoop.Table.{
  lookup, Unique, find-cases, lookup_add, lookup-update, lookup_bury, lookup_swap, swap_remove_lem,
}
use c_comprehensive_template.Networking.EventLoop.Unique.{
  Unique-add, Unique-update, Unique-bury, Unique-swap,
}
use c_comprehensive_template.Networking.EventLoop.Poll.{Action, adds, mods, removes, stops, perform}

abbrev with_events : ℕ → Option EventEntry → Option EventEntry
with_events n none = none
with_events n (some e) = some (record e { events = n })

-- What a call that succeeds means for the registration of the descriptor `fd`.
unfoldable pub meant : Action → ℤ → Option EventEntry → Option EventEntry
meant (adds own events cb user_data) fd o =
    if same_int own fd
    then some (record { fd = own; events = events; cb = cb; user_data = user_data })
    else o
meant (mods own events) fd o = if same_int own fd then with_events events o else o
meant (removes own) fd o = if same_int own fd then none else o
meant stops fd o = o

-- Each polled descriptor still stands at its index, or a tombstone does.
unfoldable pub Lockstep : List PollFd → List EventEntry → Type 0
Lockstep [] es = Unit
Lockstep (p ∷ ps) [] = ⊥
Lockstep (p ∷ ps) (e ∷ es) = ((e.fd ≡ p.fd) ⊎ (is_negative e.fd ≡ true)) × Lockstep ps es

pub Lockstep-append :
    (ps : List PollFd) (es fs : List EventEntry) → Lockstep ps es → Lockstep ps (es ++ fs)
unfolding Lockstep
Lockstep-append [] es fs k = tt
Lockstep-append (p ∷ ps) [] fs k = elim k [ ]
Lockstep-append (p ∷ ps) (e ∷ es) fs (here, k) = (here, Lockstep-append ps es fs k)

pub Lockstep-update :
    (ps : List PollFd) (es : List EventEntry) (i : ℕ) (f : EventEntry → EventEntry)
    → ((e : EventEntry) → ((f e).fd ≡ e.fd) ⊎ (is_negative (f e).fd ≡ true))
    → Lockstep ps es
    → Lockstep ps (update es i f)
unfolding Lockstep
Lockstep-update [] es i f keeps k = tt
Lockstep-update (p ∷ ps) [] i f keeps k = elim k [ ]
Lockstep-update (p ∷ ps) (e ∷ es) zero f keeps (here, k) = (
  elim (keeps e) [
    | inl same ↦ elim here [
      | inl at_p ↦ inl (same ∙ at_p)
      | inr dead ↦ inr (ap is_negative same ∙ dead)
    ]
    | inr dead ↦ inr dead
  ],
  k,
)
Lockstep-update (p ∷ ps) (e ∷ es) (suc i) f keeps (here, k) =
    (here, Lockstep-update ps es i f keeps k)

-- The result of a call: what it leaves alone, and what it means.
abbrev pub Outcome : Action → EventLoop → ErrorCode × EventLoop → ℤ → Type 0
Outcome a l r fd =
    Unique r.1.entries
    × (r.1.pollfds ≡ l.pollfds)
    × (r.1.dispatching ≡ l.dispatching)
    × (((r.0 ≡ ok) × (lookup r.1.entries fd ≡ meant a fd (lookup l.entries fd)))
        ⊎ ((r.0 ≢ ok) × (r.1.entries ≡ l.entries)))

pub make_room_keeps :
    (realloc : ℕ → Bool) (l : EventLoop)
    → ((make_room realloc l).1.entries ≡ l.entries)
      × ((make_room realloc l).1.pollfds ≡ l.pollfds)
      × ((make_room realloc l).1.dispatching ≡ l.dispatching)
unfolding make_room
make_room_keeps realloc l = (ground arith, ground arith, ground arith)

unchanged :
    (a : Action) (l : EventLoop) (fd : ℤ) (err : ErrorCode)
    → err ≢ ok
    → Unique l.entries
    → Outcome a l (err, l) fd
unchanged a l fd err bad u = (u, refl, refl, inr (bad, refl))

pub mods_lem :
    (l : EventLoop) (own fd : ℤ) (events : ℕ)
    → Unique l.entries
    → Outcome (mods own events) l (mod_loop l own events) fd
unfolding mod_loop meant
mods_lem l own fd events u = elim (Bool-cases (is_negative own || events == 0)) [
  | inl g ↦ rw g (unchanged (mods own events) l fd invalid_arg (ground arith) u)
  | inr g ↦ elim (find-cases l.entries own) [
    | inl (n, m) ↦ rw g (rw n (unchanged (mods own events) l fd not_found (ground arith) u))
    | inr (i, e, n, at_i, same, m) ↦
        let (x, found, changed) =
          lookup-update l.entries own fd i (λ e. record e { events = events }) (λ e. refl) n in
        rw g (
          rw n (
            Unique-update l.entries own i (λ e. record e { events = events }) (λ e. refl) u n,
            refl,
            refl,
            inl (
              refl,
              changed ∙ elim (same_int-cases own fd) [
                | inl (z, t) ↦ rw t (
                    sym
                      (ap (with_events events) (subst (λ q. lookup l.entries q ≡ some x) z found)))
                | inr (_, t) ↦ rw t refl
              ],
            ),
          ))
  ]
]

ends_in :
    (es : List EventEntry)
    → (es ≡ []) ⊎ ((xs : List EventEntry) × (l : EventEntry) × (es ≡ xs ++ l ∷ []))
ends_in [] = inl refl
ends_in (e ∷ es) = elim (ends_in es) [
  | inl n ↦ inr ([], e, ap (λ r. e ∷ r) n)
  | inr (xs, l, n) ↦ inr (e ∷ xs, l, ap (λ r. e ∷ r) n)
]

swap_lem :
    (es : List EventEntry) (own fd : ℤ) (i : ℕ)
    → Unique es
    → is_negative own ≡ false
    → is_negative fd ≡ false
    → find_index es own ≡ some i
    → Unique (swap_remove es i)
      × (lookup (swap_remove es i) fd ≡ (if same_int own fd then none else lookup es fd))
unfolding find_index
swap_lem es own fd i u live live' n = elim (ends_in es) [
  | inl e ↦ absurd (ground (arith, rw e at n))
  | inr (xs, l, e) ↦
      let u' = subst Unique e u in
      let n' = subst (λ r. find_index r own ≡ some i) e n in
      subst
        (λ r.
          Unique (swap_remove r i)
          × (lookup (swap_remove r i) fd ≡ (if same_int own fd then none else lookup r fd)))
        (sym e)
        (rw (swap_remove_lem xs l i)
          (Unique-swap xs l own i u' live n', lookup_swap xs l own fd i u' live live' n'))
]

pub removes_lem :
    (l : EventLoop) (own fd : ℤ)
    → Unique l.entries
    → is_negative fd ≡ false
    → Outcome (removes own) l (remove_loop l own) fd
unfolding remove_loop meant
removes_lem l own fd u live = elim (Bool-cases (is_negative own)) [
  | inl g ↦ rw g (unchanged (removes own) l fd invalid_arg (ground arith) u)
  | inr g ↦ elim (find-cases l.entries own) [
    | inl (n, m) ↦ rw g (rw n (unchanged (removes own) l fd not_found (ground arith) u))
    | inr (i, e, n, at_i, same, m) ↦ elim (Bool-cases l.dispatching) [
      | inl d ↦ rw g (
          rw n (
            rw d (
              Unique-bury l.entries own i u g n,
              refl,
              refl,
              inl (refl, lookup_bury l.entries own fd i u g live n),
            )))
      | inr d ↦
          let (unique, swapped) = swap_lem l.entries own fd i u g live n in
          rw g (rw n (rw d (unique, refl, refl, inl (refl, swapped))))
    ]
  ]
]

added_lem :
    (l l' : EventLoop) (e : EventEntry) (fd : ℤ) (err : ErrorCode)
    → (l'.entries ≡ l.entries) × (l'.pollfds ≡ l.pollfds) × (l'.dispatching ≡ l.dispatching)
    → Unique l.entries
    → lookup l.entries e.fd ≡ none
    → Outcome
        (adds e.fd e.events e.cb e.user_data)
        l
        (elim err [ ok ↦ (ok, registered l' e) | other ↦ (other, l') ])
        fd
unfolding meant
added_lem l l' e fd ok (k, kp, kd) u n =
    (rw k (Unique-add l.entries e u n), kp, kd, inl (refl, rw k (lookup_add l.entries e fd n)))
added_lem l l' e fd nomem (k, kp, kd) u n = (rw k u, kp, kd, inr (ground arith, k))
added_lem l l' e fd io (k, kp, kd) u n = (rw k u, kp, kd, inr (ground arith, k))
added_lem l l' e fd invalid_arg (k, kp, kd) u n = (rw k u, kp, kd, inr (ground arith, k))
added_lem l l' e fd overflow (k, kp, kd) u n = (rw k u, kp, kd, inr (ground arith, k))
added_lem l l' e fd not_found (k, kp, kd) u n = (rw k u, kp, kd, inr (ground arith, k))
added_lem l l' e fd unsupported (k, kp, kd) u n = (rw k u, kp, kd, inr (ground arith, k))

pub adds_lem :
    (realloc : ℕ → Bool) (l : EventLoop) (own fd : ℤ) (events cb user_data : ℕ)
    → Unique l.entries
    → Outcome (adds own events cb user_data) l (add_loop realloc l own events cb user_data) fd
unfolding add_loop
adds_lem realloc l own fd events cb user_data u =
    let a = adds own events cb user_data in
    elim (Bool-cases (is_negative own || cb == 0 || events == 0)) [
      | inl g ↦ rw g (unchanged a l fd invalid_arg (ground arith) u)
      | inr g ↦ elim (find-cases l.entries own) [
        | inr (i, e, n, _, _, _) ↦ rw g (rw n (unchanged a l fd invalid_arg (ground arith) u))
        | inl (n, m) ↦ rw g (
            rw n (
              added_lem l (make_room realloc l).1
                (record { fd = own; events = events; cb = cb; user_data = user_data }) fd
                (make_room realloc l).0 (make_room_keeps realloc l) u m))
      ]
    ]

-- A call by a callback or by the loop's owner: when it succeeds, it changes the registration of the
-- descriptor it names as `meant` says and no other; when it fails, it changes no registration.
pub perform_lem :
    (realloc : ℕ → Bool) (a : Action) (l : EventLoop) (fd : ℤ)
    → Unique l.entries
    → is_negative fd ≡ false
    → Outcome a l (perform realloc a l) fd
unfolding perform meant stop
perform_lem realloc (adds own events cb user_data) l fd u live =
    adds_lem realloc l own fd events cb user_data u
perform_lem realloc (mods own events) l fd u live = mods_lem l own fd events u
perform_lem realloc (removes own) l fd u live = removes_lem l own fd u live
perform_lem realloc stops l fd u live = (u, refl, refl, inl (refl, refl))

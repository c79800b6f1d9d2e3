-- ===== src/Networking/EventLoop/Round.antt =====
-- A whole round of the event loop.
use c_comprehensive_template.Prelude.{
  ℕ, zero, suc, ◌+◌, ◌<◌, ◌≡◌, ◌≢◌, ◌⊎◌, inl, inr, refl, ap, subst, Bool, Bool-cases, true, false,
  Option, none, some, List, [], ◌∷◌, ◌++◌, ◌||◌, ltb, length, get_elem?, drop, map, ◌==◌,
  is_negative, arith,
}
use c_comprehensive_template.Core.Error.{ErrorCode, ok, io}
use c_comprehensive_template.Networking.EventLoop.{
  EventEntry, Bits, PollFd, EventLoop, poll_to_ready, compact,
}
use c_comprehensive_template.Networking.EventLoop.Table.{Unique}
use c_comprehensive_template.Networking.EventLoop.Unique.{Unique-compact}
use c_comprehensive_template.Networking.EventLoop.Registry.{Lockstep}
use c_comprehensive_template.Networking.EventLoop.Poll.{
  Script, Call, Answer, interrupted, failed, found, filled, asked, dispatch, poll_retry, answered,
  poll_once,
}
use c_comprehensive_template.Networking.EventLoop.Bounds.{
  InBounds, AllInBounds, dispatch-InBounds, compact-InBounds,
}
use c_comprehensive_template.Networking.EventLoop.Dispatch.{Busy, turn_calls}

-- Calls for some of the polled descriptors, each at most once and in their order, with the bits
-- that poll reported, which are not all clear.
pub data Selected : List Call → List PollFd → Type 0 where
  over : Selected [] []
  skips : (cs : List Call) (p : PollFd) (ps : List PollFd) → Selected cs ps → Selected cs (p ∷ ps)
  takes :
      (c : Call) (cs : List Call) (p : PollFd) (ps : List PollFd)
      → c.fd ≡ p.fd
      → c.ready ≡ poll_to_ready p.revents
      → c.ready ≢ 0
      → Selected cs ps
      → Selected (c ∷ cs) (p ∷ ps)

drop-get :
    (ps : List PollFd) (i : ℕ)
    → i < length ps
    → (p : PollFd) × (get_elem? ps i ≡ some p) × (drop i ps ≡ p ∷ drop (i + 1) ps)
drop-get [] i h = absurd (omega arith)
drop-get (p ∷ ps) zero h = (p, refl, refl)
drop-get (p ∷ ps) (suc i) h =
    let e : suc i + 1 ≡ suc (i + 1) = omega arith in rw e (drop-get ps i (omega arith))

drop_end : (ps : List PollFd) → drop (length ps) ps ≡ []
drop_end [] = refl
drop_end (p ∷ ps) = drop_end ps

Lockstep-asked :
    (es : List EventEntry) (i : ℕ) (bits : ℕ → Bits) → Lockstep (filled (map asked es) i bits) es
unfolding Lockstep filled asked
Lockstep-asked [] i bits = tt
Lockstep-asked (e ∷ es) i bits = (inl refl, Lockstep-asked es (i + 1) bits)

length-asked :
    (es : List EventEntry) (i : ℕ) (bits : ℕ → Bits)
    → length (filled (map asked es) i bits) ≡ length es
unfolding filled
length-asked [] i bits = refl
length-asked (e ∷ es) i bits = ap suc (length-asked es (i + 1) bits)

no_entries :
    (es : List EventEntry) → ((es ≡ []) × ((length es == 0) ≡ true)) ⊎ ((length es == 0) ≡ false)
no_entries [] = inl (refl, refl)
no_entries (e ∷ es) = inr (ground arith)

-- No entry is a tombstone.
pub AllLive : List EventEntry → Type 0
AllLive [] = Unit
AllLive (e ∷ es) = (is_negative e.fd ≡ false) × AllLive es

compact-AllLive : (es : List EventEntry) → AllLive (compact es)
unfolding compact AllLive
compact-AllLive [] = tt
compact-AllLive (e ∷ es) = elim (Bool-cases (is_negative e.fd)) [
  | inl dead ↦ rw dead (compact-AllLive es)
  | inr live ↦ rw live (live, compact-AllLive es)
]

module _ {W : Type 0} (realloc : ℕ → Bool) (react : Call → W → Script W)
    (poll : List PollFd → W → Answer × W) where
  dispatch_lem :
      (ps : List PollFd) (n i : ℕ) (l : EventLoop) (w : W)
      → Busy ps l
      → i + n ≡ length ps
      → (cs : List Call) × (l' : EventLoop) × (w' : W) × (dispatch realloc react poll n i l w
          ≡ some (cs, l', w'))
        × Busy ps l'
        × Selected cs (drop i ps)
  unfolding dispatch
  dispatch_lem ps zero i l w b e =
      let e' : i ≡ length ps = omega arith in ([], l, w, refl, b, rw e' (rw (drop_end ps) over))
  dispatch_lem ps (suc n) i l w b e =
      let (p, at_i, here) = drop-get ps i (omega (arith, e)) in
      let (cs, l', w', runs, b', one) = turn_calls realloc react poll ps i p l w b at_i in
      let (ds, l'', w'', runs', b'', rest) = dispatch_lem ps n (i + 1) l' w' b' (omega arith) in
      (
        cs ++ ds,
        l'',
        w'',
        rw (dispatch, runs, runs') refl,
        b'',
        rw here (elim one [
          | inl e ↦ rw e (skips ds p (drop (i + 1) ps) rest)
          | inr (c, e, (same, ready, some_ready, _)) ↦
              rw e (takes c ds p (drop (i + 1) ps) same ready some_ready rest)
        ]),
      )

  -- What a round leaves and what it called, for an answer of poll.
  abbrev pub After : EventLoop → Answer → ErrorCode × List Call × EventLoop × W → Type 0
  After l answer r =
      Unique r.2.entries
      × InBounds r.2
      × (r.2.dispatching ≡ false)
      × (((answer ≡ failed) × (r.0 ≡ io) × (r.1 ≡ []) × (r.2.entries ≡ l.entries))
          ⊎ ((n : ℕ) × (bits : ℕ → Bits) × (answer ≡ found n bits)
              × (r.0 ≡ ok)
              × (((n ≡ 0) × (r.1 ≡ []) × (r.2.entries ≡ l.entries))
                  ⊎ (AllLive r.2.entries × Selected r.1 (filled (map asked l.entries) 0 bits)))))

  -- A round with registrations.
  answered_lem :
      (answer : Answer) (l : EventLoop) (w : W)
      → answer ≢ interrupted
      → l.pollfds ≡ map asked l.entries
      → Unique l.entries
      → InBounds l
      → l.dispatching ≡ false
      → (r : ErrorCode × List Call × EventLoop × W) × (answered realloc react poll answer l w
          ≡ some r)
        × After l answer r
  unfolding answered
  answered_lem interrupted l w real k u b d = absurd (real refl)
  answered_lem failed l w real k u b d =
      ((io, [], l, w), refl, (u, b, d, inl (refl, refl, refl, refl)))
  answered_lem (found n bits) l w real k u b d =
      let ps = filled (map asked l.entries) 0 bits in
      let polled : EventLoop = record l { pollfds = filled l.pollfds 0 bits } in
      elim (Bool-cases (n == 0)) [
        | inl nothing ↦ (
          (ok, [], polled, w),
          rw nothing refl,
          (u, b, d, inr (n, bits, refl, refl, inl (ground (arith, nothing), refl, refl))),
        )
        | inr some_ready ↦
            let (cs, l', w', runs, (u', _, _, _), calls) =
              dispatch_lem ps (length l.entries) 0 (record polled { dispatching = true }) w
                (u, refl, rw k refl, Lockstep-asked l.entries 0 bits)
                (omega (arith, length-asked l.entries 0 bits)) in
            let b' : InBounds l' = subst (AllInBounds realloc react poll) runs (
              dispatch-InBounds realloc react poll (length l.entries) 0
                (record polled { dispatching = true }) w b) in
            (
              (ok, cs, record l' { entries = compact l'.entries; dispatching = false }, w'),
              rw some_ready (rw runs refl),
              (
                Unique-compact l'.entries u',
                compact-InBounds l' b',
                refl,
                inr (n, bits, refl, refl, inr (compact-AllLive l'.entries, calls)),
              ),
            )
      ]

  try_real :
      (a answer : Answer) (v w' : W) (rest : Option (Answer × W))
      → (rest ≡ some (answer, w') → answer ≢ interrupted)
      → ◌≡◌ {A = Option (Answer × W)}
          (elim a [
            | interrupted ↦ rest
            | failed ↦ some (failed, v)
            | found n bits ↦ some (found n bits, v)
          ])
          (some (answer, w'))
      → answer ≢ interrupted
  try_real interrupted answer v w' rest real h = real h
  try_real failed answer v w' rest real h = λ z. absurd (ground (arith, h, z))
  try_real (found n bits) answer v w' rest real h = λ z. absurd (ground (arith, h, z))

  retry_real :
      (tries : ℕ) (ps : List PollFd) (w w' : W) (answer : Answer)
      → poll_retry realloc react poll tries ps w ≡ some (answer, w')
      → answer ≢ interrupted
  unfolding poll_retry
  retry_real zero ps w w' answer h = absurd (ground (arith, h))
  retry_real (suc tries) ps w w' answer h =
      try_real (poll ps w).0 answer (poll ps w).1 w'
        (poll_retry realloc react poll tries ps (poll ps w).1)
        (retry_real tries ps (poll ps w).1 w' answer) h

  -- Without registrations poll only waits.
  waited_lem :
      (answer : Answer) (l : EventLoop) (w : W)
      → answer ≢ interrupted
      → l.entries ≡ []
      → Unique l.entries
      → InBounds l
      → l.dispatching ≡ false
      → (r : ErrorCode × List Call × EventLoop × W) × (◌≡◌
          {A = Option (ErrorCode × List Call × EventLoop × W)}
          (elim answer [
            | interrupted ↦ none
            | failed ↦ some (io, [], l, w)
            | found n bits ↦ some (ok, [], l, w)
          ])
          (some r))
        × After l answer r
  unfolding AllLive filled
  waited_lem interrupted l w real e u b d = absurd (real refl)
  waited_lem failed l w real e u b d =
      ((io, [], l, w), refl, (u, b, d, inl (refl, refl, refl, refl)))
  waited_lem (found n bits) l w real e u b d =
      ((ok, [], l, w), refl, (u, b, d, inr (n, bits, refl, refl, inr (rw e tt, rw e over))))

  -- event_loop_poll_once, called outside of a callback on a loop with distinct descriptors whose
  -- registrations fit in its capacity, and its capacity in both blocks, when poll answers within the
  -- tries: no entry and no pollfd is read or written out of range, also by what callbacks add, and all
  -- this is kept; ERR_IO if poll failed; else each polled descriptor gets at most one callback, in order,
  -- with the bits poll reported; afterwards no tombstone is left, unless nothing was ready.
  pub poll_once_lem :
      (tries : ℕ) (answer : Answer) (l : EventLoop) (w w' : W)
      → Unique l.entries
      → InBounds l
      → l.dispatching ≡ false
      → poll_retry realloc react poll tries (map asked l.entries) w ≡ some (answer, w')
      → (r : ErrorCode × List Call × EventLoop × W) × (poll_once realloc react poll tries l w
          ≡ some r)
        × After l answer r
  unfolding poll_once
  poll_once_lem tries answer l w w' u (clean, fits, store, polls) d h =
      let real = retry_real tries (map asked l.entries) w w' answer h in
      elim (no_entries l.entries) [
        | inl (e, n) ↦
            let h' =
              subst (λ es. poll_retry realloc react poll tries (map asked es) w ≡ some (answer, w'))
                e h in
            let (r, runs, after) = waited_lem answer l w' real e u (clean, fits, store, polls) d in
            (r, rw (poll_once, n, h', n) runs, after)
        | inr n ↦
            let prepared : EventLoop = record l {
              pollfds = map asked l.entries;
              overrun = l.overrun || ltb l.pollfds_room (length l.entries);
            } in
            let within : ltb l.pollfds_room (length l.entries) ≡ false =
              ground (arith, fits, polls) in
            let b : InBounds prepared = (rw clean (rw within refl), fits, store, polls) in
            let (r, runs, after) = answered_lem answer prepared w' real refl u b d in
            (r, rw (poll_once, n, h, n) runs, after)
      ]

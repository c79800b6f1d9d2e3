-- ===== src/Memory/LeakDetect/Move.antt =====
-- leak_detect_realloc: a record moves to a new pointer.
use c_comprehensive_template.Prelude.{
  ℕ, suc, ◌≡◌, ◌≢◌, refl, ap, sym, ◌∙◌, Bool, none, some, List, [], ◌∷◌, length, arith, inl, inr,
  ◌⊎◌, ℕ_discrete,
}
use c_comprehensive_template.Memory.LeakDetect.{Ptr, AllocRecord, Detector, update, made, realloc}
use c_comprehensive_template.Memory.LeakDetect.Track.{size_of, Distinct, IsValid}

-- The map with p moved to the record `new`.
abbrev pub Moved : List AllocRecord → Ptr → AllocRecord → List AllocRecord → Type 0
Moved rs p new rs' =
    Distinct rs'
    × (size_of rs' new.ptr ≡ some new.size)
    × (p ≢ new.ptr → size_of rs' p ≡ none)
    × ((q : Ptr) → q ≢ p → q ≢ new.ptr → size_of rs' q ≡ size_of rs q)

-- realloc answers the old pointer or one that is not live.
abbrev pub Unused : List AllocRecord → Ptr → Ptr → Type 0
Unused rs p new = (new ≡ p) ⊎ (size_of rs new ≡ none)

module _ (r : AllocRecord) (rs : List AllocRecord) (p new : Ptr) where
  Unused-tail : r.ptr ≢ p → Unused (r ∷ rs) p new → (r.ptr ≢ new) × Unused rs p new
  unfolding size_of
  Unused-tail ne (inl e) = (λ h. ne (h ∙ e), inl e)
  Unused-tail ne (inr e) = (λ h. ground (arith, h, e), inr (ground (arith, e)))

  Unused-here : r.ptr ≡ p → size_of rs r.ptr ≡ none → Unused (r ∷ rs) p new → size_of rs new ≡ none
  unfolding size_of
  Unused-here e fresh (inl q) = ap (size_of rs) (q ∙ sym e) ∙ fresh
  Unused-here e fresh (inr q) = ground (arith, q)

update_lem :
    (rs : List AllocRecord) (p : Ptr) (new : AllocRecord)
    → Distinct rs
    → Unused rs p new.ptr
    → ((update rs p new ≡ none) × (size_of rs p ≡ none))
      ⊎ ((rs' : List AllocRecord) × (update rs p new ≡ some rs')
          × (length rs' ≡ length rs)
          × Moved rs p new rs')
unfolding update size_of
update_lem [] p new d u = inl (refl, refl)
update_lem (r ∷ rs) p new (fresh, d) u = elim (ℕ_discrete r.ptr p) [
  | yes e ↦
      let free = Unused-here r rs p new.ptr e fresh u in
      let gone : size_of rs p ≡ none = ap (size_of rs) (sym e) ∙ fresh in
      inr (
        new ∷ rs,
        ground (arith, e),
        refl,
        ((free, d), ground arith, λ h. ground (arith, gone, h), λ q h k. ground (arith, e, h, k)),
      )
  | no ne ↦
      let (apart, v) = Unused-tail r rs p new.ptr ne u in
      elim (update_lem rs p new d v) [
        | inl (n, s) ↦ inl (ground (arith, n), ground (arith, s))
        | inr (rs', n, l, (d', s, gone, same)) ↦ inr (
          r ∷ rs',
          ground (arith, n),
          ap suc l,
          (
            (same r.ptr ne apart ∙ fresh, d'),
            ground (arith, s, apart),
            λ h. let t = gone h in ground (arith, t),
            λ q h k. let t = same q h k in ground (arith, t),
          ),
        )
      ]
]

-- leak_detect_realloc of a live pointer that is not NULL, on a valid detector, when realloc answers
-- the same pointer or one that is not live: the record moves to it with the new size, no other
-- record changes, and the detector stays valid with the same counters.
pub realloc_lem :
    {d : Detector}
    → IsValid d
    → (room : Bool) (p new : Ptr) (size : ℕ) (file : Ptr) (line : ℕ) → p ≢ 0
    → new ≢ 0
    → size_of d.head p ≢ none
    → Unused d.head p new
    → (rs' : List AllocRecord) × (realloc room new file line d p size
        ≡ (new, record d { head = rs' }))
      × IsValid (record d { head = rs' })
      × Moved d.head p (made room new file line size) rs'
unfolding realloc
realloc_lem {d} v room p new size file line some_p some_new live u =
    elim (update_lem d.head p (made room new file line size) v.distinct u) [
      | inl (n, s) ↦ absurd (live s)
      | inr (rs', n, l, moved) ↦
          let counted = v.counted in
          (
            rs',
            ground (arith, n),
            record { distinct = moved.0; counted = omega (arith, l); small = v.small },
            moved,
          )
    ]

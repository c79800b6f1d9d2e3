-- ===== src/Memory/LeakDetect/Track.antt =====
-- The list of records as a map from live pointers to their sizes.
use c_comprehensive_template.Prelude.{
  ℕ, suc, ◌+◌, ◌<◌, ◌^◌, ◌≡◌, ◌≢◌, refl, ap, sym, ◌∙◌, true, Option, none, some, List, [], ◌∷◌,
  length, arith, inl, inr, ◌⊎◌, ◌==◌, if◌then◌else◌, ℕ_discrete,
}
use c_comprehensive_template.Bytes.{add_size}
use c_comprehensive_template.Memory.LeakDetect.{
  Ptr, AllocRecord, Detector, record_add, unlink, record_remove, made, malloc, free, report_from,
  report,
}

-- The size recorded for a pointer.
unfoldable pub size_of : List AllocRecord → Ptr → Option ℕ
size_of [] p = none
size_of (r ∷ rs) p = let rest = size_of rs p in if r.ptr == p then some r.size else rest

-- No pointer is recorded twice.
abbrev pub Distinct : List AllocRecord → Type 0
Distinct [] = Unit
Distinct (r ∷ rs) = (size_of rs r.ptr ≡ none) × Distinct rs

-- The map without p.
abbrev pub Removed : List AllocRecord → Ptr → List AllocRecord → Type 0
Removed rs p rs' =
    Distinct rs' × (size_of rs' p ≡ none) × ((q : Ptr) → q ≢ p → size_of rs' q ≡ size_of rs q)

unlink_lem :
    (rs : List AllocRecord) (p : Ptr)
    → Distinct rs
    → ((unlink rs p ≡ none) × (size_of rs p ≡ none))
      ⊎ ((rs' : List AllocRecord) × (unlink rs p ≡ some rs')
          × (length rs ≡ suc (length rs'))
          × Removed rs p rs')
unfolding unlink size_of
unlink_lem [] p d = inl (refl, refl)
unlink_lem (r ∷ rs) p (fresh, d) = elim (ℕ_discrete r.ptr p) [
  | yes e ↦ inr (
    rs,
    ground (arith, e),
    refl,
    (d, ap (size_of rs) (sym e) ∙ fresh, λ q ne. ground (arith, e, ne)),
  )
  | no ne ↦ elim (unlink_lem rs p d) [
    | inl (u, s) ↦ inl (ground (arith, u), ground (arith, s))
    | inr (rs', u, l, (d', s, same)) ↦ inr (
      r ∷ rs',
      ground (arith, u),
      ap suc l,
      (
        (same r.ptr ne ∙ fresh, d'),
        ground (arith, s),
        λ q h. let t = same q h in ground (arith, t),
      ),
    )
  ]
]

-- What holds between calls, as long as the counters have not wrapped.
pub record IsValid (d : Detector) : Type 0 where
  pub distinct : Distinct d.head
  pub counted : length d.head + d.total_frees ≡ d.total_allocs
  pub small : d.total_allocs < 2 ^ 64

-- leak_detect_free on a valid detector drops the pointer's record, if it has one, and no other,
-- and keeps the detector valid; NULL changes nothing.
pub free_lem :
    {d : Detector}
    → IsValid d
    → (p : Ptr)
    → IsValid (free d p)
      × ((p ≢ 0) → size_of (free d p).head p ≡ none)
      × ((q : Ptr) → q ≢ p → size_of (free d p).head q ≡ size_of d.head q)
unfolding free record_remove
free_lem {d} v p = elim (ℕ_discrete p 0) [
  | yes e ↦ rw e (v, λ h. absurd (h refl), λ q h. refl)
  | no ne ↦ elim (unlink_lem d.head p v.distinct) [
    | inl (u, s) ↦ let same : free d p ≡ d = ground (arith, u) in rw same (v, λ h. s, λ q h. refl)
    | inr (rs', u, l, (d', s, same)) ↦
        let small = v.small in
        let counted = v.counted in
        let out : free d p ≡ record d { head = rs'; total_frees = add_size d.total_frees 1 } =
          ground (arith, u) in
        rw out (record { distinct = d'; counted = omega arith; small = small }, λ h. s, same)
  ]
]

-- leak_detect_malloc on a valid detector, when the heap gives a pointer that is not live, there is
-- memory for the record and the counter does not wrap: the pointer is recorded with its size, no
-- other record changes, and the detector stays valid.
pub malloc_lem :
    {d : Detector}
    → IsValid d
    → (p : Ptr) (size : ℕ) (file : Ptr) (line : ℕ) → p ≢ 0
    → size_of d.head p ≡ none
    → d.total_allocs + 1 < 2 ^ 64
    → (d' : Detector) × (malloc true p file line d size ≡ (p, d'))
      × IsValid d'
      × (size_of d'.head p ≡ some size)
      × ((q : Ptr) → q ≢ p → size_of d'.head q ≡ size_of d.head q)
unfolding malloc record_add size_of
malloc_lem {d} v p size file line some_p fresh room =
    let counted = v.counted in
    (
      record d {
        head = made true p file line size ∷ d.head;
        total_allocs = add_size d.total_allocs 1;
      },
      ground arith,
      record { distinct = (fresh, v.distinct); counted = omega arith; small = omega arith },
      ground arith,
      λ q ne. ground arith,
    )

report_from_lem :
    (rs : List AllocRecord) (leaks bytes : ℕ)
    → leaks + length rs < 2 ^ 64
    → (report_from rs leaks bytes).0 ≡ leaks + length rs
unfolding report_from
report_from_lem [] leaks bytes h = omega arith
report_from_lem (r ∷ rs) leaks bytes h =
    let next : add_size leaks 1 ≡ leaks + 1 = omega arith in
    report_from_lem rs (add_size leaks 1) (add_size bytes r.size) (omega arith) ∙ omega arith

-- leak_detect_report of a valid detector returns the number of live allocations, which is how many
-- more allocations than frees there were.
pub report_lem :
    {d : Detector}
    → IsValid d
    → (report d ≡ length d.head) × (report d + d.total_frees ≡ d.total_allocs)
unfolding report
report_lem {d} v =
    let small = v.small in
    let counted = v.counted in
    let all : (report_from d.head 0 0).0 ≡ 0 + length d.head =
      report_from_lem d.head 0 0 (omega arith) in
    (omega (arith, all), omega (arith, all))

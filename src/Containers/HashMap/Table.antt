-- ===== src/Containers/HashMap/Table.antt =====
-- The invariant of the slot array: every live slot is where probing for its key finds it.
use native.Mathlib.Nat.{mod-lt}
use c_comprehensive_template.Prelude.{
  ℕ, zero, suc, ◌+◌, ◌-◌, ◌^◌, ◌≤◌, ◌<◌, ◌≡◌, ◌≢◌, refl, ap, sym, ◌∙◌, inl, inr, Bool, true, false,
  none, some, List, length, set, arith, if◌then◌else◌, Bool-cases, dec_lt, ℕ_discrete, length-set,
  get_or-set_self, get_or-set_ne,
}
use c_comprehensive_template.Bytes.Window.{wrap_ne, mod_once}
use c_comprehensive_template.Containers.HashMap.{Key, Slot, empty, is_live, home, probe}
use c_comprehensive_template.Containers.HashMap.Slots.{holds, at, has_key, Absent, scan, scan-cases}
use c_comprehensive_template.Containers.HashMap.Probe.{
  around, Passed, Clear, n_pos, home_lem, probe_hit, probe_miss,
}

-- The probe sequence of the key leads to slot i.
abbrev pub Leads : List Slot → ℕ → Key → ℕ → Type 0
Leads ss n q i = (d : ℕ) × (d < n) × (i ≡ around n (home q n) d) × Clear ss n q (home q n) d

pub record IsTable (ss : List Slot) (n : ℕ) : Type 0 where
  pub bits : ℕ
  pub pow : n ≡ 2 ^ bits
  pub width : length ss ≡ n
  pub reach : (q : Key) (i : ℕ) → holds q (at ss i) ≡ true → Leads ss n q i

least :
    (p : ℕ → Bool) (d : ℕ)
    → p d ≡ false
    → (m : ℕ) × (m ≤ d) × (p m ≡ false) × ((e : ℕ) → e < m → p e ≡ true)
least p zero h = (0, omega arith, h, λ e k. absurd (omega arith))
least p (suc d) h = elim (Bool-cases (p 0)) [
  | inr out ↦ (0, omega arith, out, λ e k. absurd (omega arith))
  | inl here ↦
      let (m, low, out, below) = least (λ e. p (suc e)) d h in
      (suc m, omega arith, out, elim [ zero ↦ λ k. here | suc e ↦ λ k. below e (omega arith) ])
]

-- Every slot is at some distance from every other.
distance : (n h z : ℕ) → h < n → z < n → (d : ℕ) × (d < n) × (around n h d ≡ z)
distance n h z hh hz = elim (dec_lt z h) [
  | yes p ↦ (z + n - h, omega arith, ground (arith, mod_once (h + (z + n - h)) n))
  | no p ↦ (z - h, omega arith, ground (arith, mod_once (h + (z - h)) n))
]

module _ {ss : List Slot} {n : ℕ} (t : IsTable ss n) where
  home-lt : (q : Key) → home q n < n
  home-lt q = (home_lem ss n t.bits t.pow q).1

  at-inside : (q : Key) (i : ℕ) → holds q (at ss i) ≡ true → i < n
  at-inside q i h =
      let (d, low, e, c) = t.reach q i h in rw e (mod-lt (home q n + d) (n_pos ss n t.bits t.pow))

  apart :
      (q : Key) (i j : ℕ) (a : Leads ss n q i) (b : Leads ss n q j)
      → holds q (at ss i) ≡ true
      → a.0 < b.0
      → ⊥
  apart q i j (d, low, e, c) (d', low', e', c') h k = cc (rw (← e) at ((c' d k).1))

  -- A key has at most one live slot.
  pub unique : (q : Key) (i j : ℕ) → holds q (at ss i) ≡ true → holds q (at ss j) ≡ true → i ≡ j
  unique q i j hi hj =
      let a = t.reach q i hi in
      let b = t.reach q j hj in
      elim (dec_lt a.0 b.0) [
        | yes p ↦ absurd (apart q i j a b hi p)
        | no p ↦ elim (dec_lt b.0 a.0) [
          | yes p' ↦ absurd (apart q j i b a hj p')
          | no p' ↦
              let same : a.0 ≡ b.0 = omega arith in a.2 ∙ ap (around n (home q n)) same ∙ sym b.2
        ]
      ]

  -- Probing for a key that is there finds its slot.
  pub probe-live : (q : Key) (i : ℕ) → holds q (at ss i) ≡ true → probe ss n q ≡ some i
  unfolding probe
  probe-live q i h =
      let (d, low, e, c) = t.reach q i h in
      rw (← e) at (probe_hit ss n t.bits t.pow q d n (home q n) none (home-lt q) low c (rw (← e) h))

  -- Probing for a key that is not there, in a table with an unused slot, leads to a free slot.
  pub probe-Absent :
      (q : Key) (z : ℕ)
      → Absent q ss
      → z < n
      → has_key (at ss z) ≡ false
      → (i : ℕ) × (probe ss n q ≡ some i) × (i < n) × (is_live (at ss i) ≡ false) × Leads ss n q i
  unfolding probe
  probe-Absent q z absent hz unused =
      let h = home q n in
      let (d, low, e) = distance n h z (home-lt q) hz in
      let (m, near, out, below) = least (λ k. has_key (at ss (around n h k))) d (rw e unused) in
      let (k, found, (close, free, clear)) =
        probe_miss ss n t.bits t.pow q m n h (home-lt q) (omega arith)
          (λ j p. (below j p, absent (around n h j))) out in
      (
        around n h k,
        found,
        mod-lt (h + k) (n_pos ss n t.bits t.pow),
        free,
        (k, omega arith, refl, clear),
      )

  pub scan-live : (q : Key) (i : ℕ) → holds q (at ss i) ≡ true → scan q ss ≡ some (at ss i).value
  scan-live q i h = elim (scan-cases q ss) [
    | inl (e, absent) ↦ absurd (cc (absent i))
    | inr (j, low, hj, e) ↦ rw (unique q i j h hj) e
  ]

pub scan-Absent : (q : Key) (ss : List Slot) → Absent q ss → scan q ss ≡ none
scan-Absent q ss absent = elim (scan-cases q ss) [
  | inl (e, _) ↦ e
  | inr (j, low, hj, e) ↦ absurd (cc (absent j))
]

-- A write of s' at slot i, and what it has to respect.
module _ {ss : List Slot} {n : ℕ} (t : IsTable ss n) (i : ℕ) (inside : i < n) (s' : Slot) where
  abbrev written : List Slot
  written = set ss i s'

  pub at_self : at written i ≡ s'
  at_self = get_or-set_self ss i s' empty (rw t.width inside)

  pub at_other : (j : ℕ) → j ≢ i → at written j ≡ at ss j
  at_other j h = get_or-set_ne ss i j s' empty (λ e. h (sym e))

  -- Slots of the probe sequence of q, before one that q's sequence leads to.
  module _ (q : Key) (keyed : has_key s' ≡ true) (foreign : holds q s' ≡ false) where
    Passed-set : (j : ℕ) → Passed q (at ss j) → Passed q (at written j)
    Passed-set j p = elim (ℕ_discrete j i) [
      | yes e ↦ rw (e, at_self) (keyed, foreign)
      | no ne ↦ rw (at_other j ne) p
    ]

    Leads-set : (j : ℕ) → Leads ss n q j → Leads written n q j
    Leads-set j (d, low, e, c) = (d, low, e, λ k p. Passed-set (around n (home q n) k) (c k p))

  -- The sequence that leads to i itself does not pass i before.
  Leads-set_self : (q : Key) → Leads ss n q i → Leads written n q i
  Leads-set_self q (d, low, e, c) = (d, low, e, λ k p. before k p)
    where
      before : (k : ℕ) → k < d → Passed q (at written (around n (home q n) k))
      before k p =
          let ne : around n (home q n) k ≢ i = λ (h : around n (home q n) k ≡ i).
            wrap_ne (home q n) k d n (home-lt t q) p low (h ∙ e) in
          rw (at_other (around n (home q n) k) ne) (c k p)

  -- The table stays a table if s' has a key, sits where its key's sequence leads, and is no second
  -- slot for a key.
  pub IsTable-set :
      has_key s' ≡ true
      → ((q : Key) → holds q s' ≡ true → Leads ss n q i)
      → ((q : Key) (j : ℕ) → j ≢ i → holds q (at ss j) ≡ true → holds q s' ≡ false)
      → IsTable written n
  IsTable-set keyed led single = record {
    bits = t.bits;
    pow = t.pow;
    width = length-set ss i s' ∙ t.width;
    reach = λ q j h. elim (ℕ_discrete j i) [
      | yes e ↦ rw e (Leads-set_self q (led q (rw (e, at_self) at h)))
      | no ne ↦
          let old : holds q (at ss j) ≡ true = rw (at_other j ne) at h in
          Leads-set q keyed (single q j ne old) j (t.reach q j old)
    ];
  }

  -- What the scan finds afterwards: s' for the keys that it holds, nothing for a key that only slot
  -- i held, the old value for the others.
  pub scan-set :
      IsTable written n
      → (q : Key)
      → scan q written
        ≡ (if holds q s' then some s'.value else if holds q (at ss i) then none else scan q ss)
  scan-set t' q = elim (Bool-cases (holds q s')) [
    | inl new ↦ rw new (scan-live t' q i (rw at_self new) ∙ ap (λ s. some s.value) at_self)
    | inr old ↦ rw old (elim (Bool-cases (holds q (at ss i))) [
      | inl gone ↦ rw gone (
          scan-Absent q written (λ j. elim (ℕ_discrete j i) [
            | yes e ↦ rw (e, at_self) old
            | no ne ↦ elim (Bool-cases (holds q (at written j))) [
              | inr f ↦ f
              | inl h ↦ absurd (ne (unique t q j i (rw (at_other j ne) at h) gone))
            ]
          ]))
      | inr other ↦ rw other (elim (scan-cases q ss) [
        | inl (e, absent) ↦ rw e (
            scan-Absent q written (λ j. elim (ℕ_discrete j i) [
              | yes p ↦ rw (p, at_self) old
              | no ne ↦ rw (at_other j ne) (absent j)
            ]))
        | inr (j, low, h, e) ↦
            let ne : j ≢ i = λ (p : j ≡ i). absurd (cc) in
            rw e (scan-live t' q j (rw (at_other j ne) h) ∙ ap (λ s. some s.value) (at_other j ne))
      ])
    ])
  ]

-- ===== src/Containers/HashMap/Probe.antt =====
-- The probe sequence: `probe` finds the slot of a key that is there, and otherwise a free slot to
-- which the key's probe sequence leads.
use Prim.Native.Nat.{bit_and}
use native.Mathlib.Nat.{mod-eq_of_lt, mod-lt, add-zero}
use c_comprehensive_template.Prelude.{
  ℕ, zero, suc, ◌+◌, ◌-◌, ◌%◌, ◌^◌, ◌≤◌, ◌<◌, ◌≡◌, ap, sym, ◌∙◌, inl, inr, true, false, Option,
  none, some, List, arith, if◌then◌else◌, Bool-cases,
}
use c_comprehensive_template.Bits.{bit_and-low_mask, pow_pos}
use c_comprehensive_template.Bytes.Window.{wrap_shift}
use c_comprehensive_template.Containers.Hash.{fnv1a_str}
use c_comprehensive_template.Containers.HashMap.{Key, Slot, is_live, first_free, probe_from, home}
use c_comprehensive_template.Containers.HashMap.Slots.{holds, at, has_key}

-- The slot at distance d from i, going round.
abbrev pub around : ℕ → ℕ → ℕ → ℕ
around n i d = (i + d) % n

-- A slot that probing for the key passes over: used, and not live for the key.
abbrev pub Passed : Key → Slot → Type 0
Passed q s = (has_key s ≡ true) × (holds q s ≡ false)

-- The first d slots of the key's probe sequence from i are passed over.
abbrev pub Clear : List Slot → ℕ → Key → ℕ → ℕ → Type 0
Clear ss n q i d = (e : ℕ) → e < d → Passed q (at ss (around n i e))

-- The table has 2 ^ bits slots.
module _ (ss : List Slot) (n bits : ℕ) (pow : n ≡ 2 ^ bits) where
  pub n_pos : 0 < n
  n_pos = omega (arith, pow_pos bits)

  step_mask : (i : ℕ) → bit_and i (n - 1) ≡ i % n
  step_mask i = rw pow (bit_and-low_mask bits i)

  pub home_lem : (q : Key) → (home q n ≡ fnv1a_str (some q) % n) × (home q n < n)
  unfolding home
  home_lem q =
      let e = step_mask (fnv1a_str (some q)) in
      (e, omega (arith, e, mod-lt (fnv1a_str (some q)) n_pos))

  module _ (q : Key) where
    -- One round of the loop at a slot that it passes over.
    probe_pass :
        (rounds i : ℕ) (tomb : Option ℕ)
        → Passed q (at ss i)
        → probe_from (suc rounds) ss n q i tomb
          ≡ probe_from rounds ss n q
              ((i + 1) % n)
              (if (at ss i).dead then first_free tomb i else tomb)
    unfolding probe_from holds
    probe_pass rounds i tomb p = ground (arith, step_mask (i + 1))

    probe_found :
        (rounds i : ℕ) (tomb : Option ℕ)
        → holds q (at ss i) ≡ true
        → probe_from (suc rounds) ss n q i tomb ≡ some i
    unfolding probe_from holds
    probe_found rounds i tomb p = ground arith

    probe_end :
        (rounds i : ℕ) (tomb : Option ℕ)
        → has_key (at ss i) ≡ false
        → probe_from (suc rounds) ss n q i tomb ≡ first_free tomb i
    unfolding probe_from
    probe_end rounds i tomb p = ground arith

    Clear-here : (i d : ℕ) → i < n → Clear ss n q i (suc d) → Passed q (at ss i)
    Clear-here i d h c =
        let e : around n i 0 ≡ i = rw add-zero (mod-eq_of_lt h) in rw e at (c 0 (omega arith))

    Clear-next : (i d : ℕ) → Clear ss n q i (suc d) → Clear ss n q ((i + 1) % n) d
    Clear-next i d c e h = rw (wrap_shift i e n) (c (suc e) (omega arith))

    Clear-cons :
        (i d e : ℕ)
        → i < n
        → Clear ss n q i (suc d)
        → Clear ss n q ((i + 1) % n) e
        → Clear ss n q i (suc e)
    Clear-cons i d e h first rest zero p = first 0 (omega arith)
    Clear-cons i d e h first rest (suc j) p = rw (wrap_shift i j n) at (rest j (omega arith))

    next-lt : (i : ℕ) → (i + 1) % n < n
    next-lt i = mod-lt (i + 1) n_pos

    around-zero : (i : ℕ) → i < n → around n i 0 ≡ i
    around-zero i h = rw add-zero (mod-eq_of_lt h)

    -- A live slot for the key that the sequence reaches is found.
    pub probe_hit :
        (d rounds i : ℕ) (tomb : Option ℕ)
        → i < n
        → d < rounds
        → Clear ss n q i d
        → holds q (at ss (around n i d)) ≡ true
        → probe_from rounds ss n q i tomb ≡ some (around n i d)
    probe_hit d zero i tomb h k c here = absurd (omega arith)
    probe_hit zero (suc rounds) i tomb h k c here =
        rw (around-zero i h) (probe_found rounds i tomb (rw (around-zero i h) at here))
    probe_hit (suc d) (suc rounds) i tomb h k c here =
        probe_pass rounds i tomb (Clear-here i d h c)
        ∙ probe_hit d rounds ((i + 1) % n) (if (at ss i).dead then first_free tomb i else tomb)
            (next-lt i) (omega arith) (Clear-next i d c) (rw (wrap_shift i d n) here)
        ∙ ap some (wrap_shift i d n)

    -- A tombstone that was met first is the answer at the end of the sequence.
    probe_kept :
        (d rounds i t : ℕ)
        → i < n
        → d < rounds
        → Clear ss n q i d
        → has_key (at ss (around n i d)) ≡ false
        → probe_from rounds ss n q i (some t) ≡ some t
    probe_kept d zero i t h k c out = absurd (omega arith)
    probe_kept zero (suc rounds) i t h k c out =
        probe_end rounds i (some t) (rw (around-zero i h) at out)
    probe_kept (suc d) (suc rounds) i t h k c out =
        probe_pass rounds i (some t) (Clear-here i d h c)
        ∙ ap (probe_from rounds ss n q ((i + 1) % n)) same
        ∙ probe_kept d rounds ((i + 1) % n) t (next-lt i) (omega arith) (Clear-next i d c)
            (rw (wrap_shift i d n) out)
      where
        same : (if (at ss i).dead then some t else some t) ≡ some t
        same = ground arith

    -- Where the sequence first meets a free slot.
    abbrev pub FreeAt : ℕ → ℕ → ℕ → Type 0
    FreeAt i d e = (e ≤ d) × (is_live (at ss (around n i e)) ≡ false) × Clear ss n q i e

    pub probe_miss :
        (d rounds i : ℕ)
        → i < n
        → d < rounds
        → Clear ss n q i d
        → has_key (at ss (around n i d)) ≡ false
        → (e : ℕ) × (probe_from rounds ss n q i none ≡ some (around n i e)) × FreeAt i d e
    probe_miss d zero i h k c out = absurd (omega arith)
    probe_miss zero (suc rounds) i h k c out = (
      0,
      rw (around-zero i h) (probe_end rounds i none (rw (around-zero i h) at out)),
      (omega arith, ground arith, λ e p. absurd (omega arith)),
    )
    probe_miss (suc d) (suc rounds) i h k c out = elim (Bool-cases (at ss i).dead) [
      | inl dead ↦
          let first : (if (at ss i).dead then some i else none) ≡ some i = rw dead in
          (
            0,
            probe_pass rounds i none (Clear-here i d h c)
                ∙ ap (probe_from rounds ss n q ((i + 1) % n)) first
                ∙ probe_kept d rounds ((i + 1) % n) i (next-lt i) (omega arith) (Clear-next i d c)
                    (rw (wrap_shift i d n) out)
                ∙ ap some (sym (around-zero i h)),
            (omega arith, rw (around-zero i h) (ground arith), λ e p. absurd (omega arith)),
          )
      | inr live ↦
          let first : (if (at ss i).dead then some i else none) ≡ none = rw live in
          let (e, found, (near, free, clear)) =
            probe_miss d rounds ((i + 1) % n) (next-lt i) (omega arith) (Clear-next i d c)
              (rw (wrap_shift i d n) out) in
          (
            suc e,
            probe_pass rounds i none (Clear-here i d h c)
                ∙ ap (probe_from rounds ss n q ((i + 1) % n)) first
                ∙ found
                ∙ ap some (wrap_shift i e n),
            (omega arith, rw (wrap_shift i e n) at free, Clear-cons i d e h c clear),
          )
    ]

-- ===== src/Containers/HashMap/Insert.antt =====
-- A new entry written to the free slot to which its key's probe sequence leads.
use c_comprehensive_template.Prelude.{
  ℕ, ◌+◌, ◌<◌, ◌≡◌, ◌≢◌, ◌∙◌, sym, inl, inr, true, false, some, List, set, arith, if◌then◌else◌,
  Bool-cases,
}
use c_comprehensive_template.Bytes.{same_text, same_text-eq}
use c_comprehensive_template.Containers.HashMap.{Key, Slot, is_live}
use c_comprehensive_template.Containers.HashMap.Slots.{
  holds, at, has_key, count, count-set, one_if, holds-dead, holds_of_key, Absent, scan,
}
use c_comprehensive_template.Containers.HashMap.Table.{IsTable, IsTable-set, scan-set, Leads}

module _ {ss : List Slot} {n : ℕ} (t : IsTable ss n) (k : Key) (absent : Absent k ss) (i : ℕ)
    (inside : i < n) (free : is_live (at ss i) ≡ false) (led : Leads ss n k i) (s' : Slot)
    (e : s'.key ≡ some k) (alive : s'.dead ≡ false) where
  new-holds : (q : Key) → holds q s' ≡ same_text k q
  new-holds q = holds_of_key q k s' e alive

  new-Leads : (q : Key) → holds q s' ≡ true → Leads ss n q i
  new-Leads q h = let same : k ≡ q = same_text-eq k q (sym (new-holds q) ∙ h) in rw (← same) led

  new-single : (q : Key) (j : ℕ) → j ≢ i → holds q (at ss j) ≡ true → holds q s' ≡ false
  new-single q j ne h = elim (Bool-cases (holds q s')) [
    | inr f ↦ f
    | inl new ↦
        let same : k ≡ q = same_text-eq k q (sym (new-holds q) ∙ new) in
        absurd (cc (absent j, rw (← same) at h))
  ]

  new-keyed : has_key s' ≡ true
  new-keyed = ground arith

  pub IsTable-insert : IsTable (set ss i s') n
  IsTable-insert = IsTable-set t i inside s' new-keyed new-Leads new-single

  -- The new entry is found under its key, and all others as before.
  pub scan-insert :
      (q : Key) → scan q (set ss i s') ≡ (if same_text k q then some s'.value else scan q ss)
  scan-insert q =
      ground
        (arith, scan-set t i inside s' IsTable-insert q, new-holds q, holds-dead q (at ss i) free)

  pub live-insert : count is_live (set ss i s') ≡ count is_live ss + 1
  live-insert = ground (arith, count-set is_live ss i s' (rw t.width inside))

  pub keyed-insert : count has_key (set ss i s') + one_if (has_key (at ss i)) ≡ count has_key ss + 1
  keyed-insert = ground (arith, count-set has_key ss i s' (rw t.width inside))

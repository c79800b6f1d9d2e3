-- ===== src/Containers/HashMap/Slots.antt =====
-- What a slot array means: which slot holds a key, the map from keys to values read by a plain
-- scan, and the two counts that the table keeps.
use c_comprehensive_template.Prelude.{
  ℕ, zero, suc, ◌+◌, ◌<◌, ◌≡◌, refl, ◌⊎◌, inl, inr, Bool, true, false, not, ◌&&◌, Option, none,
  some, List, [], ◌∷◌, length, get_or, set, arith, if◌then◌else◌, Bool-cases, Option-cases, ◌∙◌,
}
use c_comprehensive_template.Bytes.{same_text, same_text-eq, same_text_refl}
use c_comprehensive_template.Containers.HashMap.{Key, Ptr, Slot, empty, is_live}

-- A live slot for the key.
abbrev pub fits : Key → Option Key → Bool → Bool
fits q none dead = false
fits q (some k) dead = not dead && same_text k q

unfoldable pub holds : Key → Slot → Bool
holds q s = fits q s.key s.dead

-- The abstract map: the value of a live slot for the key, with no hashing.
unfoldable pub scan : Key → List Slot → Option Ptr
scan q [] = none
scan q (s ∷ ss) = if holds q s then some s.value else scan q ss

abbrev pub at : List Slot → ℕ → Slot
at ss i = get_or ss i empty

abbrev pub one_if : Bool → ℕ
one_if b = if b then 1 else 0

abbrev pub has_key : Slot → Bool
has_key s = elim s.key [ none ↦ false | some k ↦ true ]

module _ (p : Slot → Bool) where
  -- How many slots pass the test.
  abbrev pub count : List Slot → ℕ
  count [] = 0
  count (s ∷ ss) = one_if (p s) + count ss

  pub count-set :
      (ss : List Slot) (i : ℕ) (s : Slot)
      → i < length ss
      → count (set ss i s) + one_if (p (at ss i)) ≡ count ss + one_if (p s)
  count-set [] i s h = absurd (omega arith)
  count-set (t ∷ ss) zero s h = omega arith
  count-set (t ∷ ss) (suc i) s h = omega (arith, count-set ss i s (omega arith))

  -- A table in which fewer slots pass than there are has one that does not.
  pub fails_somewhere :
      (ss : List Slot) → count ss < length ss → (i : ℕ) × (i < length ss) × (p (at ss i) ≡ false)
  fails_somewhere [] h = absurd (omega arith)
  fails_somewhere (s ∷ ss) h = elim (Bool-cases (p s)) [
    | inr out ↦ (0, omega arith, out)
    | inl passed ↦
        let fewer : count ss < length ss = let e : one_if (p s) ≡ 1 = rw passed in omega arith in
        let (i, low, out) = fails_somewhere ss fewer in (suc i, omega arith, out)
  ]

fits_lem :
    (q : Key) (key : Option Key) (dead : Bool)
    → fits q key dead ≡ true
    → (dead ≡ false) × (key ≡ some q)
fits_lem q none dead h = cc
fits_lem q (some k) dead h = ground (arith, same_text-eq k q)

pub holds-live : (q : Key) (s : Slot) → holds q s ≡ true → (is_live s ≡ true) × (s.key ≡ some q)
unfolding holds
holds-live q s h = ground (arith, fits_lem q s.key s.dead)

-- Absence of a key from all slots.
abbrev pub Absent : Key → List Slot → Type 0
Absent q ss = (i : ℕ) → holds q (at ss i) ≡ false

-- A scan finds a slot that holds the key, unless there is none.
pub scan-cases :
    (q : Key) (ss : List Slot)
    → ((scan q ss ≡ none) × Absent q ss)
      ⊎ ((i : ℕ) × (i < length ss)
          × (holds q (at ss i) ≡ true)
          × (scan q ss ≡ some (at ss i).value))
unfolding scan
scan-cases q [] = inl (refl, λ i. unfold holds in refl)
scan-cases q (s ∷ ss) = elim (Bool-cases (holds q s)) [
  | inl here ↦ inr (0, omega arith, here, rw here)
  | inr other ↦ elim (scan-cases q ss) [
    | inl (e, absent) ↦ inl (rw other e, elim [ zero ↦ other | suc i ↦ absent i ])
    | inr (i, low, h, e) ↦ inr (suc i, omega arith, h, rw other e)
  ]
]

-- A live slot's key, or none.
pub live-cases :
    (s : Slot) → (is_live s ≡ false) ⊎ ((k : Key) × (s.key ≡ some k) × (s.dead ≡ false))
live-cases s = elim (Option-cases s.key) [
  | inl e ↦ inl (ground arith)
  | inr (k, e) ↦ elim (Bool-cases s.dead) [
    | inl dead ↦ inl (ground arith)
    | inr alive ↦ inr (k, e, alive)
  ]
]

pub holds-dead : (q : Key) (s : Slot) → is_live s ≡ false → holds q s ≡ false
unfolding holds
holds-dead q s h = ground arith

pub holds_of_key :
    (q k : Key) (s : Slot) → s.key ≡ some k → s.dead ≡ false → holds q s ≡ same_text k q
unfolding holds
holds_of_key q k s e alive = ground arith

-- A live slot holds its own key.
pub holds_self : (k : Key) (s : Slot) → s.key ≡ some k → s.dead ≡ false → holds k s ≡ true
holds_self k s e alive = holds_of_key k k s e alive ∙ same_text_refl k

-- ===== src/Containers/HashMap/Rehash.antt =====
-- `rehash` moves every live entry into a fresh table, and drops the tombstones.
use c_comprehensive_template.Prelude.{
  ℕ, suc, ◌+◌, ◌<◌, ◌≡◌, refl, sym, ◌∙◌, inl, inr, true, false, Option, none, some, List, [], ◌∷◌,
  set, arith, Bool-cases, ℕ_discrete,
}
use c_comprehensive_template.Bytes.{same_text}
use c_comprehensive_template.Containers.HashMap.{Key, Ptr, Slot, is_live, probe, move_live}
use c_comprehensive_template.Containers.HashMap.Slots.{
  holds, at, has_key, count, fails_somewhere, holds-dead, holds_of_key, holds_self, live-cases,
  Absent, scan,
}
use c_comprehensive_template.Containers.HashMap.Insert.{
  IsTable-insert, scan-insert, live-insert, keyed-insert,
}
use c_comprehensive_template.Containers.HashMap.Table.{
  IsTable, probe-Absent, scan-Absent, at_self, at_other, Leads,
}

move_skip :
    (n : ℕ) (s : Slot) (ss fresh : List Slot)
    → is_live s ≡ false
    → move_live n (s ∷ ss) fresh ≡ move_live n ss fresh
unfolding move_live
move_skip n s ss fresh h = ground arith

abbrev moved : List Slot → ℕ → Key → Slot → Slot
moved fresh j k s = record (at fresh j) { key = some k; value = s.value }

move_keep :
    (n : ℕ) (s : Slot) (ss fresh : List Slot) (k : Key) (j : ℕ)
    → s.key ≡ some k
    → s.dead ≡ false
    → probe fresh n k ≡ some j
    → move_live n (s ∷ ss) fresh ≡ move_live n ss (set fresh j (moved fresh j k s))
unfolding move_live
move_keep n s ss fresh k j e alive found = ground arith

-- No key has two live slots.
abbrev pub Distinct : List Slot → Type 0
Distinct ss = (q : Key) (i j : ℕ) → holds q (at ss i) ≡ true → holds q (at ss j) ≡ true → i ≡ j

-- A table without tombstones.
pub record IsFresh (ss : List Slot) (n : ℕ) : Type 0 where
  pub table : IsTable ss n
  pub clean : (i : ℕ) → (at ss i).dead ≡ false

abbrev pub first_of_two : Option Ptr → Option Ptr → Option Ptr
first_of_two none w = w
first_of_two (some v) w = some v

-- `ss'` has the entries of `rest` and those of `fresh`.
pub record Merges (n : ℕ) (rest fresh ss' : List Slot) : Type 0 where
  pub is_fresh : IsFresh ss' n
  pub keyed : count has_key ss' ≡ count has_key fresh + count is_live rest
  pub live : count is_live ss' ≡ count is_live fresh + count is_live rest
  pub entries : (q : Key) → scan q ss' ≡ first_of_two (scan q rest) (scan q fresh)

-- The slot that an entry of a key that is not there moves to.
target :
    {n : ℕ} {fresh : List Slot} (f : IsFresh fresh n) (k : Key)
    → Absent k fresh
    → count has_key fresh < n
    → (j : ℕ) × (probe fresh n k ≡ some j)
      × (j < n)
      × (is_live (at fresh j) ≡ false)
      × Leads fresh n k j
target f k absent space =
    let (z, low, unused) = fails_somewhere has_key _ (rw f.table.width space) in
    probe-Absent f.table k z absent (rw f.table.width at low) unused

module _ {n : ℕ} {fresh : List Slot} (f : IsFresh fresh n) (k : Key) (absent : Absent k fresh)
    (j : ℕ) (inside : j < n) (free : is_live (at fresh j) ≡ false) (led : Leads fresh n k j)
    (s : Slot) where
  unused_target : has_key (at fresh j) ≡ false
  unused_target = ground (arith, f.clean j)

  IsFresh-moved : IsFresh (set fresh j (moved fresh j k s)) n
  IsFresh-moved = record {
    table = IsTable-insert f.table k absent j inside free led (moved fresh j k s) refl (f.clean j);
    clean = λ i. elim (ℕ_discrete i j) [
      | yes e ↦ rw (e, at_self f.table j inside (moved fresh j k s)) (f.clean j)
      | no ne ↦ rw (at_other f.table j inside (moved fresh j k s) i ne) (f.clean i)
    ];
  }

  keyed-moved : count has_key (set fresh j (moved fresh j k s)) ≡ count has_key fresh + 1
  keyed-moved = ground (
    arith,
    keyed-insert f.table k absent j inside free led (moved fresh j k s) refl (f.clean j),
    unused_target,
  )

-- A fresh table and the slots that are still to move hold no key in common.
abbrev pub Apart : List Slot → List Slot → Type 0
Apart rest fresh =
    (q : Key) (i j : ℕ) → holds q (at rest i) ≡ true → holds q (at fresh j) ≡ true → ⊥

Distinct-tail : (s : Slot) (rest : List Slot) → Distinct (s ∷ rest) → Distinct rest
Distinct-tail s rest d q i j h k = let e = d q (suc i) (suc j) h k in omega arith

-- A tombstone or unused slot adds nothing.
Merges-skip :
    (n : ℕ) (s : Slot) (rest fresh ss' : List Slot)
    → is_live s ≡ false
    → Merges n rest fresh ss'
    → Merges n (s ∷ rest) fresh ss'
unfolding scan
Merges-skip n s rest fresh ss' dead m = record {
  is_fresh = m.is_fresh;
  keyed = ground (arith, m.keyed);
  live = ground (arith, m.live);
  entries = λ q. rw (holds-dead q s dead) (m.entries q);
}

module _ {n : ℕ} {fresh : List Slot} (f : IsFresh fresh n) (k : Key) (s : Slot) (rest : List Slot)
    (key : s.key ≡ some k) (alive : s.dead ≡ false) (d : Distinct (s ∷ rest))
    (a : Apart (s ∷ rest) fresh) where
  Absent-head : Absent k fresh
  Absent-head i = elim (Bool-cases (holds k (at fresh i))) [
    | inr out ↦ out
    | inl h ↦ absurd (a k 0 i (holds_self k s key alive) h)
  ]

  Absent-rest : (q : Key) → same_text k q ≡ true → Absent q rest
  Absent-rest q e i = elim (Bool-cases (holds q (at rest i))) [
    | inr out ↦ out
    | inl h ↦
        let both : 0 ≡ suc i = d q 0 (suc i) (holds_of_key q k s key alive ∙ e) h in
        absurd (omega arith)
  ]

  module _ (j : ℕ) (inside : j < n) (free : is_live (at fresh j) ≡ false)
      (led : Leads fresh n k j) where
    Apart-rest : Apart rest (set fresh j (moved fresh j k s))
    Apart-rest q i i' h h' = elim (ℕ_discrete i' j) [
      | no ne ↦ a q (suc i) i' h (rw (at_other f.table j inside (moved fresh j k s) i' ne) at h')
      | yes e ↦
          let here : holds q (moved fresh j k s) ≡ true =
            rw (e, at_self f.table j inside (moved fresh j k s)) at h' in
          let same : same_text k q ≡ true =
            sym (holds_of_key q k (moved fresh j k s) refl (f.clean j)) ∙ here in
          cc (Absent-rest q same i)
    ]

    Merges-keep :
        (ss' : List Slot)
        → Merges n rest (set fresh j (moved fresh j k s)) ss'
        → Merges n (s ∷ rest) fresh ss'
    unfolding scan
    Merges-keep ss' m = record {
      is_fresh = m.is_fresh;
      keyed = ground (arith, m.keyed, keyed-moved f k Absent-head j inside free led s);
      live = ground (
        arith,
        m.live,
        live-insert f.table k Absent-head j inside free led (moved fresh j k s) refl (f.clean j),
      );
      entries = λ q.
          m.entries q
          ∙ ground (
            arith,
            scan-insert f.table k Absent-head j inside free led (moved fresh j k s) refl (f.clean j)
                q,
            holds_of_key q k s key alive,
            λ (e : same_text k q ≡ true). scan-Absent q rest (Absent-rest q e),
          );
    }

-- The loop: every live entry of the old slots arrives, in a table with room for all of them.
pub move_live_lem :
    (n : ℕ) (rest fresh : List Slot)
    → IsFresh fresh n
    → Distinct rest
    → Apart rest fresh
    → count has_key fresh + count is_live rest < n
    → (ss' : List Slot) × (move_live n rest fresh ≡ some ss') × Merges n rest fresh ss'
move_live_lem n [] fresh f d a space = (
  fresh,
  unfold move_live in refl,
  record {
    is_fresh = f;
    keyed = omega arith;
    live = omega arith;
    entries = λ q. unfold scan in refl;
  },
)
move_live_lem n (s ∷ rest) fresh f d a space = elim (live-cases s) [
  | inl dead ↦
      let (ss', e, m) =
        move_live_lem n rest fresh f (Distinct-tail s rest d) (λ q i. a q (suc i)) (ground arith) in
      (ss', move_skip n s rest fresh dead ∙ e, Merges-skip n s rest fresh ss' dead m)
  | inr (k, key, alive) ↦
      let absent = Absent-head f k s rest key alive d a in
      let (j, found, inside, free, led) = target f k absent (ground arith) in
      let (ss', e, m) =
        move_live_lem n rest (set fresh j (moved fresh j k s))
          (IsFresh-moved f k absent j inside free led s) (Distinct-tail s rest d)
          (Apart-rest f k s rest key alive d a j inside free led)
          (ground (arith, keyed-moved f k absent j inside free led s)) in
      (
        ss',
        move_keep n s rest fresh k j key alive found ∙ e,
        Merges-keep f k s rest key alive d a j inside free led ss' m,
      )
]

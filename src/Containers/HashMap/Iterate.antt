-- ===== src/Containers/HashMap/Iterate.antt =====
-- The loop `while (hashmap_next(&m, &it, &k, &v))` visits each live entry once, in slot order.
use c_comprehensive_template.Prelude.{
  ℕ, zero, suc, ◌+◌, ◌≤◌, ◌<◌, ◌≡◌, refl, sym, ◌∙◌, inl, inr, ◌⊎◌, Option, none, some, List, [],
  ◌∷◌, drop, length, arith, if◌then◌else◌,
}
use c_comprehensive_template.Containers.HashMap.{Key, Ptr, Slot, HashMap, is_live, next_from, next}
use c_comprehensive_template.Containers.HashMap.Slots.{count, live-cases}
use c_comprehensive_template.Containers.HashMap.Valid.{IsValid}

-- The live entries, in slot order.
pub entries : List Slot → List (Key × Ptr)
entries [] = []
entries (s ∷ ss) = elim s.key [
  | none ↦ entries ss
  | some k ↦ if s.dead then entries ss else (k, s.value) ∷ entries ss
]

length-entries : (ss : List Slot) → length (entries ss) ≡ count is_live ss
unfolding entries
length-entries [] = refl
length-entries (s ∷ ss) = ground (arith, length-entries ss)

-- The entries that the loop visits from an index on, within a number of rounds.
pub collect : ℕ → Option HashMap → ℕ → List (Key × Ptr)
collect zero m i = []
collect (suc rounds) m i =
    let (out, it) = next m (some i) in
    elim out [ none ↦ [] | some e ↦ elim it [ none ↦ [] | some j ↦ e ∷ collect rounds m j ] ]

next_from-cases :
    (ss : List Slot) (i : ℕ)
    → ((j : ℕ) × (next_from ss i ≡ (none, j)) × (entries ss ≡ []))
      ⊎ ((d : ℕ) × (e : Key × Ptr) × (d < length ss)
          × (next_from ss i ≡ (some e, i + suc d))
          × (entries ss ≡ e ∷ entries (drop (suc d) ss)))
unfolding next_from entries
next_from-cases [] i = inl (i, refl, refl)
next_from-cases (s ∷ ss) i = elim (live-cases s) [
  | inr (k, e, alive) ↦ inr (0, (k, s.value), omega arith, ground arith, ground arith)
  | inl dead ↦ elim (next_from-cases ss (i + 1)) [
    | inl (j, e, n) ↦ inl (j, ground arith, ground arith)
    | inr (d, e, low, f, n) ↦ inr (suc d, e, omega arith, ground arith, ground arith)
  ]
]

drop-drop {ℓ} : {A : Type ℓ} (i d j : ℕ) (xs : List A) → i + d ≡ j → drop d (drop i xs) ≡ drop j xs
drop-drop zero d j xs e = let q : d ≡ j = omega arith in rw q
drop-drop (suc i) zero zero [] e = refl
drop-drop (suc i) zero (suc j) [] e = refl
drop-drop (suc i) (suc d) zero [] e = refl
drop-drop (suc i) (suc d) (suc j) [] e = refl
drop-drop (suc i) d zero (x ∷ xs) e = absurd (omega arith)
drop-drop (suc i) d (suc j) (x ∷ xs) e = drop-drop i d j xs (omega arith)

drop_all {ℓ} : {A : Type ℓ} (i : ℕ) (xs : List A) → length xs ≤ i → drop i xs ≡ []
drop_all zero [] h = refl
drop_all zero (x ∷ xs) h = absurd (omega arith)
drop_all (suc i) [] h = refl
drop_all (suc i) (x ∷ xs) h = drop_all i xs (omega arith)

collect_lem :
    (rounds i : ℕ) {m : HashMap} {ss : List Slot}
    → IsValid m ss
    → length ss < rounds + i
    → collect rounds (some m) i ≡ entries (drop i ss)
unfolding collect next
collect_lem zero i {m} {ss} w h = unfold entries in rw (drop_all i ss (omega arith))
collect_lem (suc rounds) i {m} {ss} w h = elim (next_from-cases (drop i ss) i) [
  | inl (j, e, nothing) ↦ ground (arith, w.storage)
  | inr (d, e, low, f, rest) ↦ ground (
    arith,
    w.storage,
    drop-drop i (suc d) (i + suc d) ss refl,
    collect_lem rounds (i + suc d) w (omega arith),
  )
]

-- From the start, one round more than there are slots is enough to visit every live entry exactly
-- once, and hashmap_len counts them.
pub collect-eq-entries :
    {m : HashMap} {ss : List Slot}
    → IsValid m ss
    → (collect (length ss + 1) (some m) 0 ≡ entries ss) × (length (entries ss) ≡ m.len)
collect-eq-entries {m} {ss} w =
    (collect_lem (length ss + 1) 0 w (omega arith), length-entries ss ∙ sym w.len_count)

-- ===== src/Networking/EventLoop/Unique.antt =====
-- Each change of the entries leaves a descriptor at most one live entry.
use c_comprehensive_template.Prelude.{
  ℕ, ◌≡◌, ◌⊎◌, inl, inr, refl, ap, sym, ◌∙◌, Bool, Bool-cases, true, false, Option, none, some,
  List, [], ◌∷◌, ◌++◌, set, if◌then◌else◌, ℤ, is_negative, same_int, same_int-cases, same_int_self,
  same_int_ne, arith,
}
use c_comprehensive_template.Networking.EventLoop.{
  EventEntry, find_index, update, tombstone, compact,
}
use c_comprehensive_template.Networking.EventLoop.Table.{
  lookup, Unique, find_index-cases, fresh_behind, lookup_add, lookup-update, lookup_bury,
  lookup_swap, lookup-compact, lookup_rotate, lookup-append,
}

-- An entry that is fresh stays so if the other list has no more registrations.
stays_fresh :
    (x : EventEntry) (es fs : List EventEntry)
    → (is_negative x.fd ≡ true) ⊎ (lookup es x.fd ≡ none)
    → (is_negative x.fd ≡ false → lookup es x.fd ≡ none → lookup fs x.fd ≡ none)
    → (is_negative x.fd ≡ true) ⊎ (lookup fs x.fd ≡ none)
stays_fresh x es fs (inl n) keep = inl n
stays_fresh x es fs (inr n) keep = elim (Bool-cases (is_negative x.fd)) [
  | inl dead ↦ inl dead
  | inr live ↦ inr (keep live n)
]

if_none : (b : Bool) (o : Option EventEntry) → o ≡ none → (if b then none else o) ≡ none
if_none true o h = refl
if_none false o h = h

pub Unique-add :
    (es : List EventEntry) (e : EventEntry)
    → Unique es
    → lookup es e.fd ≡ none
    → Unique (es ++ e ∷ [])
unfolding Unique lookup
Unique-add [] e u h = (inr refl, tt)
Unique-add (x ∷ es) e (first, u) h = elim (same_int-cases x.fd e.fd) [
  | inl (_, t) ↦ absurd (ground (arith, rw t at h))
  | inr (apart, t) ↦
      let fresh : lookup es e.fd ≡ none = rw t at h in
      (
        stays_fresh x es (es ++ e ∷ []) first (λ live n.
            lookup_add es e x.fd fresh ∙ rw (same_int_ne e.fd x.fd (λ z. apart (sym z))) n),
        Unique-add es e u fresh,
      )
]

pub Unique-update :
    (es : List EventEntry) (fd : ℤ) (i : ℕ) (f : EventEntry → EventEntry)
    → ((e : EventEntry) → (f e).fd ≡ e.fd)
    → Unique es
    → find_index es fd ≡ some i
    → Unique (update es i f)
unfolding Unique find_index
Unique-update [] fd i f keeps u h = absurd (ground (arith, h))
Unique-update (x ∷ es) fd i f keeps (first, u) h = elim (find_index-cases x es fd i h) [
  | inl (same, at_0) ↦ rw at_0 (rw (keeps x) (first, u))
  | inr (j, at_j, apart, n) ↦ rw at_j (
    stays_fresh x es (update es j f) first (λ live none_of.
        let (e, found, rest) = lookup-update es fd x.fd j f keeps n in
        rest ∙ rw (same_int_ne fd x.fd (λ z. apart (sym z))) none_of),
    Unique-update es fd j f keeps u n,
  )
]

pub Unique-bury :
    (es : List EventEntry) (fd : ℤ) (i : ℕ)
    → Unique es
    → is_negative fd ≡ false
    → find_index es fd ≡ some i
    → Unique (update es i tombstone)
unfolding Unique find_index
Unique-bury [] fd i u live h = absurd (ground (arith, h))
Unique-bury (x ∷ es) fd i (first, u) live h = elim (find_index-cases x es fd i h) [
  | inl (same, at_0) ↦ rw at_0 (inl refl, u)
  | inr (j, at_j, apart, n) ↦ rw at_j (
    stays_fresh x es (update es j tombstone) first (λ live' none_of.
        lookup_bury es fd x.fd j u live live' n
        ∙ if_none (same_int fd x.fd) (lookup es x.fd) none_of),
    Unique-bury es fd j u live n,
  )
]

Unique-left : (xs : List EventEntry) (l : EventEntry) → Unique (xs ++ l ∷ []) → Unique (l ∷ xs)
unfolding Unique lookup
Unique-left [] l u = (inr refl, tt)
Unique-left (x ∷ xs) l (first, u) =
    let (l_first, rest) = Unique-left xs l u in
    (behind_last l_first, (stays_fresh x (xs ++ l ∷ []) xs first (λ live n. before n), rest))
  where
    before : lookup (xs ++ l ∷ []) x.fd ≡ none → lookup xs x.fd ≡ none
    before n = elim (lookup-append xs (l ∷ []) x.fd) [
      | inl (m, _) ↦ m
      | inr (e, _, m) ↦ absurd (ground (arith, sym m ∙ n))
    ]

    behind_last :
        (is_negative l.fd ≡ true) ⊎ (lookup xs l.fd ≡ none)
        → (is_negative l.fd ≡ true) ⊎ (lookup (x ∷ xs) l.fd ≡ none)
    behind_last (inl dead) = inl dead
    behind_last (inr n) = elim (Bool-cases (is_negative l.fd)) [
      | inl dead ↦ inl dead
      | inr live ↦ elim (same_int-cases x.fd l.fd) [
        | inr (_, t) ↦ inr (rw t n)
        | inl (same, t) ↦ absurd (
            let live' : is_negative x.fd ≡ false = ap is_negative same ∙ live in
            let found : lookup (l ∷ xs) l.fd ≡ some l = rw (same_int_self l.fd) refl in
            let gone = fresh_behind x (xs ++ l ∷ []) l.fd first live same in
            ground (arith, sym found ∙ lookup_rotate xs l l.fd u live ∙ gone))
      ]
    ]

pub Unique-swap :
    (xs : List EventEntry) (l : EventEntry) (fd : ℤ) (i : ℕ)
    → Unique (xs ++ l ∷ [])
    → is_negative fd ≡ false
    → find_index (xs ++ l ∷ []) fd ≡ some i
    → Unique (set xs i l)
unfolding Unique find_index
Unique-swap [] l fd i u live h = tt
Unique-swap (x ∷ xs) l fd i (first, u) live h = elim (find_index-cases x (xs ++ l ∷ []) fd i h) [
  | inl (same, at_0) ↦ rw at_0 (Unique-left xs l u)
  | inr (j, at_j, apart, n) ↦ rw at_j (
    stays_fresh x (xs ++ l ∷ []) (set xs j l) first (λ live' none_of.
        lookup_swap xs l fd x.fd j u live live' n
        ∙ if_none (same_int fd x.fd) (lookup (xs ++ l ∷ []) x.fd) none_of),
    Unique-swap xs l fd j u live n,
  )
]

pub Unique-compact : (es : List EventEntry) → Unique es → Unique (compact es)
unfolding Unique compact
Unique-compact [] u = tt
Unique-compact (x ∷ es) (first, u) = elim (Bool-cases (is_negative x.fd)) [
  | inl dead ↦ rw dead (Unique-compact es u)
  | inr live ↦ rw live (
    stays_fresh x es (compact es) first (λ live' n. lookup-compact es x.fd live' ∙ n),
    Unique-compact es u,
  )
]

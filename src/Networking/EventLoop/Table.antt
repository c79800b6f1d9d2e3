-- ===== src/Networking/EventLoop/Table.antt =====
-- The registrations of an event loop as a map from descriptors, and what each change of the
-- entries does to it.
use c_comprehensive_template.Prelude.{
  ℕ, zero, suc, ◌-◌, ◌≡◌, ◌≢◌, ◌⊎◌, inl, inr, refl, ap, sym, subst, ◌∙◌, Bool-cases, true, false,
  Option, none, some, List, [], ◌∷◌, ◌++◌, length, get_elem?, set, take, length-append,
  if◌then◌else◌, ℤ, pos, negsuc, is_negative, same_int, same_int-cases, same_int_self, same_int_ne,
  arith,
}
use c_comprehensive_template.Networking.EventLoop.{
  EventEntry, find_index, update, tombstone, swap_remove, compact,
}

-- The registration of a descriptor: the first entry that has it.
unfoldable pub lookup : List EventEntry → ℤ → Option EventEntry
lookup [] fd = none
lookup (e ∷ es) fd = if same_int e.fd fd then some e else lookup es fd

-- No descriptor of a live entry stands in two entries.
unfoldable pub Unique : List EventEntry → Type 0
Unique [] = Unit
Unique (e ∷ es) = ((is_negative e.fd ≡ true) ⊎ (lookup es e.fd ≡ none)) × Unique es

pub find-cases :
    (es : List EventEntry) (fd : ℤ)
    → ((find_index es fd ≡ none) × (lookup es fd ≡ none))
      ⊎ ((i : ℕ) × (e : EventEntry) × (find_index es fd ≡ some i)
          × (get_elem? es i ≡ some e)
          × (e.fd ≡ fd)
          × (lookup es fd ≡ some e))
unfolding find_index lookup
find-cases [] fd = inl (refl, refl)
find-cases (e ∷ es) fd = elim (same_int-cases e.fd fd) [
  | inl (same, t) ↦ inr (0, e, rw t refl, refl, same, rw t refl)
  | inr (_, t) ↦ elim (find-cases es fd) [
    | inl (n, m) ↦ inl (rw t (rw n refl), rw t m)
    | inr (i, x, n, g, same, m) ↦ inr (suc i, x, rw t (rw n refl), g, same, rw t m)
  ]
]

pub lookup-append :
    (xs ys : List EventEntry) (fd : ℤ)
    → ((lookup xs fd ≡ none) × (lookup (xs ++ ys) fd ≡ lookup ys fd))
      ⊎ ((e : EventEntry) × (lookup xs fd ≡ some e) × (lookup (xs ++ ys) fd ≡ some e))
unfolding lookup
lookup-append [] ys fd = inl (refl, refl)
lookup-append (x ∷ xs) ys fd = elim (same_int-cases x.fd fd) [
  | inl (_, t) ↦ inr (x, rw t refl, rw t refl)
  | inr (_, t) ↦ elim (lookup-append xs ys fd) [
    | inl (n, m) ↦ inl (rw t n, rw t m)
    | inr (e, n, m) ↦ inr (e, rw t n, rw t m)
  ]
]

-- A new entry at the end.
pub lookup_add :
    (es : List EventEntry) (e : EventEntry) (fd : ℤ)
    → lookup es e.fd ≡ none
    → lookup (es ++ e ∷ []) fd ≡ (if same_int e.fd fd then some e else lookup es fd)
unfolding lookup
lookup_add [] e fd h = refl
lookup_add (x ∷ es) e fd h = elim (same_int-cases x.fd e.fd) [
  | inl (_, t) ↦ absurd (ground (arith, rw t at h))
  | inr (apart, t) ↦
      let rest = lookup_add es e fd (rw t at h) in
      elim (same_int-cases x.fd fd) [
        | inl (same, s) ↦
            let other = same_int_ne e.fd fd (λ z. apart (same ∙ sym z)) in rw s (rw other refl)
        | inr (_, s) ↦ rw s rest
      ]
]

pub find_index-cases :
    (x : EventEntry) (es : List EventEntry) (fd : ℤ) (i : ℕ)
    → find_index (x ∷ es) fd ≡ some i
    → ((x.fd ≡ fd) × (i ≡ 0)) ⊎ ((j : ℕ) × (i ≡ suc j) × (x.fd ≢ fd) × (find_index es fd ≡ some j))
unfolding find_index
find_index-cases x es fd i h = elim (same_int-cases x.fd fd) [
  | inl (same, t) ↦ inl (same, ground (arith, rw t at h))
  | inr (apart, t) ↦ elim (find-cases es fd) [
    | inl (n, m) ↦ absurd (ground (arith, rw n at rw t at h))
    | inr (j, e, n, _, _, _) ↦ inr (j, ground (arith, rw n at rw t at h), apart, n)
  ]
]

-- A change of the entry that find_index found, which keeps its descriptor.
pub lookup-update :
    (es : List EventEntry) (fd other : ℤ) (i : ℕ) (f : EventEntry → EventEntry)
    → ((e : EventEntry) → (f e).fd ≡ e.fd)
    → find_index es fd ≡ some i
    → (e : EventEntry) × (lookup es fd ≡ some e)
      × (lookup (update es i f) other ≡ (if same_int fd other then some (f e) else lookup es other))
unfolding lookup find_index
lookup-update [] fd other i f keeps h = absurd (ground (arith, h))
lookup-update (x ∷ es) fd other i f keeps h = elim (find_index-cases x es fd i h) [
  | inl (same, at_0) ↦
      let k : (f x).fd ≡ fd = keeps x ∙ same in
      (
        x,
        rw same (rw (same_int_self fd) refl),
        rw at_0 (
            rw k (elim (same_int-cases fd other) [
              | inl (_, t) ↦ rw t refl
              | inr (_, t) ↦ rw t (rw same (rw t refl))
            ])),
      )
  | inr (j, at_j, apart, n) ↦
      let (e, found, rest) = lookup-update es fd other j f keeps n in
      (
        e,
        rw (same_int_ne x.fd fd apart) found,
        rw at_j (elim (same_int-cases x.fd other) [
          | inl (same, t) ↦
              let fresh = same_int_ne fd other (λ z. apart (same ∙ sym z)) in rw t (rw fresh refl)
          | inr (_, t) ↦ rw t rest
        ]),
      )
]

tombstone_apart : (fd : ℤ) → is_negative fd ≡ false → same_int (negsuc 0) fd ≡ false
tombstone_apart (pos n) live = refl
tombstone_apart (negsuc n) live = absurd (ground (arith, live))

-- Behind a live entry there is none with its descriptor.
pub fresh_behind :
    (x : EventEntry) (es : List EventEntry) (fd : ℤ)
    → (is_negative x.fd ≡ true) ⊎ (lookup es x.fd ≡ none)
    → is_negative fd ≡ false
    → x.fd ≡ fd
    → lookup es fd ≡ none
fresh_behind x es fd (inl n) live same = absurd (ground (arith, sym n ∙ ap is_negative same ∙ live))
fresh_behind x es fd (inr n) live same = subst (λ z. lookup es z ≡ none) same n

-- A tombstone in place of the entry that find_index found.
pub lookup_bury :
    (es : List EventEntry) (fd other : ℤ) (i : ℕ)
    → Unique es
    → is_negative fd ≡ false
    → is_negative other ≡ false
    → find_index es fd ≡ some i
    → lookup (update es i tombstone) other ≡ (if same_int fd other then none else lookup es other)
unfolding lookup find_index Unique
lookup_bury [] fd other i (unique) live live' h = absurd (ground (arith, h))
lookup_bury (x ∷ es) fd other i (first, unique) live live' h = elim (find_index-cases x es fd i h) [
  | inl (same, at_0) ↦ rw at_0 (elim (same_int-cases fd other) [
    | inl (e, t) ↦
        rw t (rw (tombstone_apart other live') (fresh_behind x es other first live' (same ∙ e)))
    | inr (_, t) ↦ rw t (rw same (rw t (rw (tombstone_apart other live') refl)))
  ])
  | inr (j, at_j, apart, n) ↦
      let rest = lookup_bury es fd other j unique live live' n in
      rw at_j (elim (same_int-cases x.fd other) [
        | inl (same, t) ↦
            let fresh = same_int_ne fd other (λ z. apart (same ∙ sym z)) in rw t (rw fresh refl)
        | inr (_, t) ↦ rw t rest
      ])
]

-- The last entry in place of the one that find_index found, at the end or before it.
get_elem?-last :
    (xs : List EventEntry) (l : EventEntry) → get_elem? (xs ++ l ∷ []) (length xs) ≡ some l
get_elem?-last [] l = refl
get_elem?-last (x ∷ xs) l = get_elem?-last xs l

take-set :
    (xs : List EventEntry) (l : EventEntry) (i : ℕ)
    → take (length xs) (set (xs ++ l ∷ []) i l) ≡ set xs i l
take-set [] l i = refl
take-set (x ∷ xs) l zero = ap (λ r. l ∷ r) (take-all xs l)
  where
    take-all : (xs : List EventEntry) (l : EventEntry) → take (length xs) (xs ++ l ∷ []) ≡ xs
    take-all [] l = refl
    take-all (x ∷ xs) l = ap (λ r. x ∷ r) (take-all xs l)
take-set (x ∷ xs) l (suc i) = ap (λ r. x ∷ r) (take-set xs l i)

pub swap_remove_lem :
    (xs : List EventEntry) (l : EventEntry) (i : ℕ) → swap_remove (xs ++ l ∷ []) i ≡ set xs i l
unfolding swap_remove
swap_remove_lem xs l i =
    let n : length (xs ++ l ∷ []) - 1 ≡ length xs = omega (arith, length-append xs (l ∷ [])) in
    subst
      (λ k.
        elim (get_elem? (xs ++ l ∷ []) k) [
          | none ↦ xs ++ l ∷ []
          | some e ↦ take k (set (xs ++ l ∷ []) i e)
        ]
        ≡ set xs i l)
      (sym n) (rw (get_elem?-last xs l) (take-set xs l i))

-- The last entry can stand first.
pub lookup_rotate :
    (xs : List EventEntry) (l : EventEntry) (fd : ℤ)
    → Unique (xs ++ l ∷ [])
    → is_negative fd ≡ false
    → lookup (l ∷ xs) fd ≡ lookup (xs ++ l ∷ []) fd
unfolding lookup Unique
lookup_rotate [] l fd u live = refl
lookup_rotate (x ∷ xs) l fd (first, u) live =
    let rest = lookup_rotate xs l fd u live in
    elim (same_int-cases x.fd fd) [
      | inl (same, t) ↦ elim (same_int-cases l.fd fd) [
        | inl (same', t') ↦
            let found : lookup (l ∷ xs) fd ≡ some l = rw t' refl in
            absurd
              (ground (arith, sym found ∙ rest ∙ fresh_behind x (xs ++ l ∷ []) fd first live same))
        | inr (_, t') ↦ rw t (rw t' refl)
      ]
      | inr (_, t) ↦ rw t rest
    ]

pub lookup_swap :
    (xs : List EventEntry) (l : EventEntry) (fd other : ℤ) (i : ℕ)
    → Unique (xs ++ l ∷ [])
    → is_negative fd ≡ false
    → is_negative other ≡ false
    → find_index (xs ++ l ∷ []) fd ≡ some i
    → lookup (set xs i l) other ≡ (if same_int fd other then none else lookup (xs ++ l ∷ []) other)
unfolding lookup Unique find_index
lookup_swap [] l fd other i u live live' h = elim (find_index-cases l [] fd i h) [
  | inl (same, _) ↦ elim (same_int-cases fd other) [
    | inl (_, t) ↦ rw t refl
    | inr (_, t) ↦ rw t (rw same (rw t refl))
  ]
  | inr (j, _, _, n) ↦ absurd (ground (arith, n))
]
lookup_swap (x ∷ xs) l fd other i (first, u) live live' h =
    elim (find_index-cases x (xs ++ l ∷ []) fd i h) [
      | inl (same, at_0) ↦ rw at_0 (elim (same_int-cases fd other) [
        | inl (e, t) ↦ rw t (
            lookup_rotate xs l other u live'
            ∙ fresh_behind x (xs ++ l ∷ []) other first live' (same ∙ e))
        | inr (_, t) ↦ rw t (rw same (rw t (lookup_rotate xs l other u live')))
      ])
      | inr (j, at_j, apart, n) ↦
          let rest = lookup_swap xs l fd other j u live live' n in
          rw at_j (elim (same_int-cases x.fd other) [
            | inl (same, t) ↦
                let fresh = same_int_ne fd other (λ z. apart (same ∙ sym z)) in rw t (rw fresh refl)
            | inr (_, t) ↦ rw t rest
          ])
    ]

-- Compaction changes no registration.
pub lookup-compact :
    (es : List EventEntry) (fd : ℤ) → is_negative fd ≡ false → lookup (compact es) fd ≡ lookup es fd
unfolding lookup compact
lookup-compact [] fd live = refl
lookup-compact (x ∷ es) fd live = elim (same_int-cases x.fd fd) [
  | inl (same, t) ↦ let l : is_negative x.fd ≡ false = rw same live in rw l (rw t refl)
  | inr (_, t) ↦ elim (Bool-cases (is_negative x.fd)) [
    | inl n ↦ rw n (rw t (lookup-compact es fd live))
    | inr n ↦ rw n (rw t (lookup-compact es fd live))
  ]
]

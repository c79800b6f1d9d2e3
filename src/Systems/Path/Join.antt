-- ===== src/Systems/Path/Join.antt =====
-- path_join: which path it joins, and when that fits.
use c_comprehensive_template.Prelude.{
  ℕ, suc, ◌+◌, ◌-◌, ◌≤◌, ◌<◌, ◌≡◌, ◌≢◌, ◌⊎◌, inl, inr, refl, ap, ◌∙◌, Bool, Bool-cases, true, false,
  ◌||◌, none, some, [], ◌∷◌, ◌++◌, append_assoc, length, length-append, get_or, drop, ltb, leb,
  ◌==◌, ℕ_discrete, arith,
}
use c_comprehensive_template.Core.Error.{ok, overflow}
use c_comprehensive_template.Systems.Path.{
  Str, slash, last_index, int_max, snprintf_ok, join, basename,
}
use c_comprehensive_template.Systems.Path.Split.{last_index-cases}

last_index-append :
    (c : ℕ) (xs b : Str)
    → ((last_index c b ≡ none) × (last_index c (xs ++ c ∷ b) ≡ some (length xs)))
      ⊎ ((i : ℕ) × (last_index c b ≡ some i)
          × (last_index c (xs ++ c ∷ b) ≡ some (length xs + suc i)))
unfolding last_index
last_index-append c [] b = elim (last_index-cases c b) [
  | inl (e, _) ↦ let t : (c == c) ≡ true = ground arith in inl (e, rw e (rw t refl))
  | inr (xs, ys, e, _, _, _, _) ↦
      let n : suc (length xs) ≡ 0 + suc (length xs) = omega arith in
      inr (length xs, e, rw e (ap some n))
]
last_index-append c (x ∷ xs) b = elim (last_index-append c xs b) [
  | inl (e, e') ↦ inl (e, rw e' refl)
  | inr (i, e, e') ↦
      let n : suc (length xs + suc i) ≡ suc (length xs) + suc i = omega arith in
      inr (i, e, rw e' (ap some n))
]

drop-past : (xs b : Str) (c i : ℕ) → drop (length xs + suc i) (xs ++ c ∷ b) ≡ drop i b
drop-past [] b c i = let n : 0 + suc i ≡ suc i = omega arith in rw n refl
drop-past (x ∷ xs) b c i =
    let n : suc (length xs) + suc i ≡ suc (length xs + suc i) = omega arith in
    rw n (drop-past xs b c i)

-- The final component behind a slash is that of what follows.
basename_behind : (xs b : Str) → basename (some (xs ++ slash ∷ b)) ≡ basename (some b)
unfolding basename
basename_behind xs b = elim (last_index-append slash xs b) [
  | inl (e, e') ↦
      rw (basename, e, e')
        (let n : length xs + 1 ≡ length xs + suc 0 = omega arith in rw n (drop-past xs b slash 0))
  | inr (i, e, e') ↦
      rw (basename, e, e')
        (let n : (length xs + suc i) + 1 ≡ length xs + suc (i + 1) = omega arith in
          rw n (drop-past xs b slash (i + 1)))
]

-- A string that ends in c.
ends_lem :
    (a : Str) (c : ℕ)
    → (length a == 0) ≡ false
    → get_or a (length a - 1) 0 ≡ c
    → (xs : Str) × (a ≡ xs ++ c ∷ [])
ends_lem [] c some_a last = absurd (ground (arith, some_a))
ends_lem (x ∷ []) c some_a last = ([], ap (λ r. r ∷ []) last)
ends_lem (x ∷ y ∷ ys) c some_a last =
    let (xs, e) = ends_lem (y ∷ ys) c (ground arith) (
      let n : suc (suc (length ys)) - 1 ≡ suc (suc (length ys) - 1) = omega arith in
      rw n at last) in
    (x ∷ xs, ap (λ r. x ∷ r) e)

-- What path_join makes of a and b: b alone, if it is absolute or a is empty; a and b, if a ends in a
-- slash; otherwise a, a slash and b. `printed` is whether snprintf writes it.
pub data Joined (a b : Str) : Str → Bool → Type 0 where
  absolute : get_or b 0 0 ≡ slash → Joined a b b false
  empty : a ≡ [] → Joined a b b false
  behind_slash : (xs : Str) → get_or b 0 0 ≢ slash → a ≡ xs ++ slash ∷ [] → Joined a b (a ++ b) true
  separated :
      get_or b 0 0 ≢ slash
      → a ≢ []
      → get_or a (length a - 1) 0 ≢ slash
      → Joined a b (a ++ slash ∷ b) true

Joined-basename :
    (a b r : Str) (printed : Bool) → Joined a b r printed → basename (some r) ≡ basename (some b)
Joined-basename a b _ _ (absolute h) = refl
Joined-basename a b _ _ (empty h) = refl
Joined-basename a b _ _ (behind_slash xs h e) =
    ap (λ r. basename (some (r ++ b))) e
    ∙ ap (λ r. basename (some r)) (append_assoc xs (slash ∷ []) b)
    ∙ basename_behind xs b
Joined-basename a b _ _ (separated h some_a h') = basename_behind a b

no_bytes : (a : Str) → length a ≡ 0 → a ≡ []
no_bytes [] h = refl
no_bytes (x ∷ a) h = absurd (omega (arith, h))

joined_whole : (a b : Str) → (get_or b 0 0 == slash || length a == 0) ≡ true → Joined a b b false
joined_whole a b whole = elim (ℕ_discrete (get_or b 0 0) slash) [
  | yes h ↦ absolute h
  | no h ↦ empty (no_bytes a (ground (arith, whole, h)))
]

-- The path r with its NUL is more than the buffer holds, or snprintf writes it and its length is no
-- int.
abbrev pub Overflows : Str → Bool → ℕ → Type 0
Overflows r printed capacity = (capacity ≤ length r) ⊎ ((printed ≡ true) × (int_max < length r))

-- What the two tests around snprintf say of a text that is not empty.
data Printed (r : Str) (total capacity : ℕ) : Type 0 where
  too_long : ltb capacity total ≡ true → Overflows r true capacity → Printed r total capacity
  no_int :
      ltb capacity total ≡ false
      → snprintf_ok (length r) capacity ≡ false
      → Overflows r true capacity
      → Printed r total capacity
  written :
      ltb capacity total ≡ false
      → snprintf_ok (length r) capacity ≡ true
      → length r < capacity
      → length r ≤ int_max
      → Printed r total capacity

printed_lem :
    (r : Str) (total capacity : ℕ) → total ≡ length r + 1 → 0 < length r → Printed r total capacity
unfolding snprintf_ok
printed_lem r total capacity e some_byte = elim (Bool-cases (ltb capacity total)) [
  | inl t ↦ too_long t (inl (ground (arith, t, e)))
  | inr t ↦ elim (Bool-cases (leb (length r) int_max)) [
    | inl small ↦
        written t (ground (arith, t, e, small, some_byte)) (ground (arith, t, e))
          (ground (arith, small))
    | inr big ↦ no_int t (rw big refl) (inr (refl, ground (arith, big)))
  ]
]

-- path_join with a buffer of at least one byte: the path is b alone if b is absolute or a is empty, a and
-- b if a ends in a slash, and a, a slash and b otherwise. Its final component is that of b. It is
-- written with ERR_OK, and fits with its NUL, and is no longer than INT_MAX if snprintf writes it;
-- or the answer is ERR_OVERFLOW, and it does not fit, or snprintf writes it and it is longer.
pub join_lem :
    (a b : Str) (capacity : ℕ)
    → 0 < capacity
    → (r : Str) × (printed : Bool) × (way : Joined a b r printed) × (basename (some r)
        ≡ basename (some b))
      × (((join (some a) (some b) capacity ≡ (ok, some r))
            × (length r < capacity)
            × (printed ≡ true → length r ≤ int_max))
          ⊎ ((join (some a) (some b) capacity ≡ (overflow, none)) × Overflows r printed capacity))
unfolding join
join_lem a b capacity pos =
    let c0 : (capacity == 0) ≡ false = ground (arith, pos) in
    elim (Bool-cases (get_or b 0 0 == slash || length a == 0)) [
      | inl whole ↦ (
        b,
        false,
        joined_whole a b whole,
        refl,
        elim (Bool-cases (ltb capacity (length b + 1))) [
          | inl t ↦ inr (rw (join, c0, whole, t) refl, inl (ground (arith, t)))
          | inr t ↦
              inl (rw (join, c0, whole, t) refl, ground (arith, t), λ z. absurd (ground (arith, z)))
        ],
      )
      | inr parts ↦
          let relative : get_or b 0 0 ≢ slash = ground (arith, parts) in
          let some_a : (length a == 0) ≡ false = ground (arith, parts) in
          elim (Bool-cases (get_or a (length a - 1) 0 == slash)) [
            | inl ends ↦
                let (xs, e) = ends_lem a slash some_a (ground (arith, ends)) in
                let way : Joined a b (a ++ b) true = behind_slash xs relative e in
                let size : length (a ++ b) ≡ length a + length b = length-append a b in
                let some_byte : 0 < length (a ++ b) = ground (arith, size, some_a) in
                (
                  a ++ b,
                  true,
                  way,
                  Joined-basename a b (a ++ b) true way,
                  elim (printed_lem (a ++ b) (length a + 0 + length b + 1) capacity
                      (omega (arith, size)) some_byte) [
                        | too_long t o ↦ inr (rw (join, c0, parts, ends, t) refl, o)
                        | no_int t u o ↦ inr (rw (join, c0, parts, ends, t, u) refl, o)
                        | written t u h h' ↦ inl (rw (join, c0, parts, ends, t, u) refl, h, λ z. h')
                      ],
                )
            | inr more ↦
                let way : Joined a b (a ++ slash ∷ b) true =
                  separated relative (λ z. absurd (ground (arith, some_a, ap length z)))
                    (ground (arith, more)) in
                let size : length (a ++ slash ∷ b) ≡ length a + suc (length b) =
                  length-append a (slash ∷ b) in
                (
                  a ++ slash ∷ b,
                  true,
                  way,
                  Joined-basename a b (a ++ slash ∷ b) true way,
                  elim (printed_lem (a ++ slash ∷ b) (length a + 1 + length b + 1) capacity
                      (omega (arith, size)) (omega (arith, size))) [
                        | too_long t o ↦ inr (rw (join, c0, parts, more, t) refl, o)
                        | no_int t u o ↦ inr (rw (join, c0, parts, more, t, u) refl, o)
                        | written t u h h' ↦ inl (rw (join, c0, parts, more, t, u) refl, h, λ z. h')
                      ],
                )
          ]
    ]

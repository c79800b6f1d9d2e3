-- ===== src/Systems/Path/Split.antt =====
-- path_dirname, path_basename and path_ext: where they cut a path.
use c_comprehensive_template.Prelude.{
  ℕ, suc, ◌+◌, ◌≤◌, ◌<◌, ◌≡◌, ◌≢◌, ◌⊎◌, inl, inr, refl, ap, sym, subst, ◌∙◌, Bool-cases, false,
  none, some, [], ◌∷◌, ◌++◌, length, length-append, take, drop, ltb, ◌==◌, arith,
}
use c_comprehensive_template.Core.Error.{ok}
use c_comprehensive_template.Systems.Path.{Str, slash, dot, last_index, basename, dirname, ext}

-- No byte of the string is c.
pub Without : ℕ → Str → Type 0
Without c [] = Unit
Without c (b ∷ bs) = (b ≢ c) × Without c bs

pub last_index-cases :
    (c : ℕ) (s : Str)
    → ((last_index c s ≡ none) × Without c s)
      ⊎ ((xs ys : Str) × (last_index c s ≡ some (length xs))
          × (s ≡ xs ++ c ∷ ys)
          × (take (length xs) s ≡ xs)
          × (drop (length xs + 1) s ≡ ys)
          × Without c ys)
unfolding last_index Without
last_index-cases c [] = inl (refl, tt)
last_index-cases c (b ∷ bs) = elim (last_index-cases c bs) [
  | inr (xs, ys, e, split, front, back, w) ↦ inr (
    b ∷ xs,
    ys,
    rw e refl,
    ap (λ r. b ∷ r) split,
    ap (λ r. b ∷ r) front,
    (let e' : suc (length xs) + 1 ≡ suc (length xs + 1) = omega arith in rw e' back),
    w,
  )
  | inl (e, w) ↦ elim (Bool-cases (b == c)) [
    | inl t ↦
        let same : b ≡ c = ground (arith, t) in
        inr ([], bs, rw e (rw t refl), ap (λ r. r ∷ bs) same, refl, refl, w)
    | inr t ↦ inl (rw e (rw t refl), (ground (arith, t), w))
  ]
]

-- What path_basename cuts off.
pub basename-cases :
    (p : Str)
    → (Without slash p × (last_index slash p ≡ none) × (basename (some p) ≡ p))
      ⊎ ((xs : Str) × (last_index slash p ≡ some (length xs))
          × (p ≡ xs ++ slash ∷ basename (some p))
          × (take (length xs) p ≡ xs)
          × Without slash (basename (some p)))
unfolding basename
basename-cases p = elim (last_index-cases slash p) [
  | inl (e, w) ↦ inl (w, e, rw (basename, e) refl)
  | inr (xs, ys, e, split, front, back, w) ↦
      let b : basename (some p) ≡ ys = rw (basename, e) back in
      inr (xs, e, split ∙ ap (λ r. xs ++ slash ∷ r) (sym b), front, subst (Without slash) (sym b) w)
]

-- For a buffer that holds the path and its NUL, and two bytes at least: a path with a slash is its
-- directory, which is not empty, a slash and its final component, or, where the only slash is the
-- first byte, a slash and its final component in the directory "/"; a path without a slash is its
-- final component, in the directory ".". The final component has no slash.
pub split_lem :
    (p : Str) (capacity : ℕ)
    → length p < capacity
    → 2 ≤ capacity
    → Without slash (basename (some p))
      × (((dirname (some p) capacity ≡ (ok, some (dot ∷ []))) × (basename (some p) ≡ p))
          ⊎ ((d : Str) × (dirname (some p) capacity ≡ (ok, some d))
              × (((d ≢ []) × (p ≡ d ++ slash ∷ basename (some p)))
                  ⊎ ((d ≡ slash ∷ []) × (p ≡ slash ∷ basename (some p))))))
unfolding dirname
split_lem p capacity room two =
    let c0 : (capacity == 0) ≡ false = ground (arith, two) in
    let c1 : ltb capacity 2 ≡ false = ground (arith, two) in
    elim (basename-cases p) [
      | inl (w, e, b) ↦ (subst (Without slash) (sym b) w, inl (rw (dirname, c0, e, c1) refl, b))
      | inr ([], e, split, front, w) ↦ (
        w,
        inr (
          slash ∷ [],
          rw (dirname, c0, e, c1) (ap (λ r. (ok, some r)) (ap (take 1) split)),
          inr (refl, split),
        ),
      )
      | inr (x ∷ xs, e, split, front, w) ↦
          let size : length p ≡ suc (length xs) + suc (length (basename (some p))) =
            ap length split ∙ length-append (x ∷ xs) (slash ∷ basename (some p)) in
          let c2 : (suc (length xs) == 0) ≡ false = ground arith in
          let c3 : ltb capacity (suc (length xs) + 1) ≡ false = ground (arith, size, room) in
          (
            w,
            inr (
              x ∷ xs,
              rw (dirname, c0, e, c2, c3) (ap (λ r. (ok, some r)) front),
              inl ((λ z. absurd (omega (arith, ap length z))), split),
            ),
          )
    ]

drop-append : (xs ys : Str) → drop (length xs) (xs ++ ys) ≡ ys
drop-append [] ys = refl
drop-append (x ∷ xs) ys = drop-append xs ys

-- The extension is empty, or a dot and what has no dot behind a part of the final component that
-- is not empty.
pub ext_lem :
    (p : Str)
    → (ext (some p) ≡ [])
      ⊎ ((stem tail : Str) × (stem ≢ [])
          × (ext (some p) ≡ dot ∷ tail)
          × (basename (some p) ≡ stem ++ dot ∷ tail)
          × Without dot tail)
unfolding ext
ext_lem p = elim (last_index-cases dot (basename (some p))) [
  | inl (e, w) ↦ inl (rw (ext, e) refl)
  | inr ([], ys, e, split, front, back, w) ↦ inl (rw (ext, e) refl)
  | inr (x ∷ xs, ys, e, split, front, back, w) ↦
      let c0 : (suc (length xs) == 0) ≡ false = ground arith in
      inr (
        x ∷ xs,
        ys,
        (λ z. absurd (ground (arith, z))),
        rw (ext, e, c0) (ap (drop (suc (length xs))) split ∙ drop-append (x ∷ xs) (dot ∷ ys)),
        split,
        w,
      )
]

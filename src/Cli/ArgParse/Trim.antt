-- ===== src/Cli/ArgParse/Trim.antt =====
-- trim of src/cli/argparse.c takes off the white space at both ends and nothing else.
use c_comprehensive_template.Prelude.{
  ℕ, Bool, true, false, ◌≡◌, refl, ap, ◌∙◌, [], ◌∷◌, ◌++◌, Bool-cases, inl, inr, if◌then◌else◌,
}
use c_comprehensive_template.Cli.ArgParse.{Str, trim_front, trim_back, trim}

module _ (isspace : ℕ → Bool) where
  -- White space only.
  abbrev pub IsBlank : Str → Type 0
  IsBlank [] = Unit
  IsBlank (b ∷ bs) = (isspace b ≡ true) × IsBlank bs

  abbrev pub StartsBare : Str → Type 0
  StartsBare [] = Unit
  StartsBare (b ∷ bs) = isspace b ≡ false

  abbrev pub EndsBare : Str → Type 0
  EndsBare [] = Unit
  EndsBare (b ∷ []) = isspace b ≡ false
  EndsBare (b ∷ c ∷ cs) = EndsBare (c ∷ cs)

  -- No white space at either end.
  abbrev pub IsTrimmed : Str → Type 0
  IsTrimmed s = StartsBare s × EndsBare s

  pub IsBlank-append : (xs ys : Str) → IsBlank xs → IsBlank ys → IsBlank (xs ++ ys)
  IsBlank-append [] ys w v = v
  IsBlank-append (x ∷ xs) ys (w, ws) v = (w, IsBlank-append xs ys ws v)

  trim_front-blank : (xs u : Str) → IsBlank xs → trim_front isspace (xs ++ u) ≡ trim_front isspace u
  unfolding trim_front
  trim_front-blank [] u w = refl
  trim_front-blank (x ∷ xs) u (w, ws) = rw (w) (trim_front-blank xs u ws)

  IsBlank-front : (xs : Str) → IsBlank xs → trim_front isspace xs ≡ []
  unfolding trim_front
  IsBlank-front [] w = refl
  IsBlank-front (x ∷ xs) (w, ws) = rw (w) (IsBlank-front xs ws)

  trim_front-bare : (u : Str) → StartsBare u → trim_front isspace u ≡ u
  unfolding trim_front
  trim_front-bare [] w = refl
  trim_front-bare (b ∷ u) w = rw (w) refl

  trim_back-blank : (ys : Str) → IsBlank ys → trim_back isspace ys ≡ []
  unfolding trim_back
  trim_back-blank [] w = refl
  trim_back-blank (y ∷ ys) (w, ws) = rw (trim_back-blank ys ws, w) refl

  trim_back-around : (t ys : Str) → EndsBare t → IsBlank ys → trim_back isspace (t ++ ys) ≡ t
  unfolding trim_back
  trim_back-around [] ys e w = trim_back-blank ys w
  trim_back-around (b ∷ []) ys e w = rw (trim_back-blank ys w, e) refl
  trim_back-around (b ∷ c ∷ cs) ys e w = rw (trim_back-around (c ∷ cs) ys e w) refl

  -- Whatever white space stands around a text without any at its ends, `trim` gives the text.
  pub trim-around :
      (xs t ys : Str) → IsBlank xs → IsTrimmed t → IsBlank ys → trim isspace (xs ++ (t ++ ys)) ≡ t
  unfolding trim
  trim-around xs [] ys w (f, e) v =
      let empty : trim_front isspace (xs ++ ys) ≡ [] =
        IsBlank-front (xs ++ ys) (IsBlank-append xs ys w v) in
      rw (empty) (trim_back-blank [] tt)
  trim-around xs (b ∷ t) ys w (f, e) v =
      rw (trim_front-blank xs (b ∷ (t ++ ys)) w, trim_front-bare (b ∷ (t ++ ys)) f)
        (trim_back-around (b ∷ t) ys e v)

  data Front (s t : Str) : Type 0 where
    front : (xs : Str) → s ≡ xs ++ t → IsBlank xs → StartsBare t → Front s t

  trim_front_lem : (s : Str) → Front s (trim_front isspace s)
  unfolding trim_front
  trim_front_lem [] = front [] refl tt tt
  trim_front_lem (b ∷ s) = elim (Bool-cases (isspace b)) [
    | inl t ↦ elim (trim_front_lem s) [
      | front xs e w f ↦ rw (t) (front (b ∷ xs) (ap (λ l. b ∷ l) e) (t, w) f)
    ]
    | inr n ↦ rw (n) (front [] refl tt n)
  ]

  pub data Back (s t : Str) : Type 0 where
    back :
        (ys : Str)
        → s ≡ t ++ ys
        → IsBlank ys
        → EndsBare t
        → (StartsBare s → StartsBare t)
        → Back s t

  -- One more byte in front.
  longer :
      (b : ℕ) (s t : Str)
      → Back s t
      → Back (b ∷ s) (elim t [ [] ↦ if isspace b then [] else b ∷ [] | c ∷ cs ↦ b ∷ c ∷ cs ])
  longer b s [] (back ys e w f keeps) = elim (Bool-cases (isspace b)) [
    | inl t ↦ rw (t) (back (b ∷ ys) (ap (λ l. b ∷ l) e) (t, w) tt (λ f. tt))
    | inr n ↦ rw (n) (back ys (ap (λ l. b ∷ l) e) w n (λ f. f))
  ]
  longer b s (c ∷ cs) (back ys e w f keeps) = back ys (ap (λ l. b ∷ l) e) w f (λ f. f)

  pub trim_back_lem : (s : Str) → Back s (trim_back isspace s)
  unfolding trim_back
  trim_back_lem [] = back [] refl tt tt (λ f. f)
  trim_back_lem (b ∷ s) = longer b s (trim_back isspace s) (trim_back_lem s)

  -- What `trim` leaves: the text between the white space at both ends.
  pub data Trims (s t : Str) : Type 0 where
    trims : (xs ys : Str) → s ≡ xs ++ (t ++ ys) → IsBlank xs → IsBlank ys → IsTrimmed t → Trims s t

  -- Every text is what `trim` leaves of it between white space, and what `trim` leaves has no
  -- white space at its ends.
  pub trim_lem : (s : Str) → Trims s (trim isspace s)
  unfolding trim
  trim_lem s = elim (trim_front_lem s) [
    | front xs e w f ↦ elim (trim_back_lem (trim_front isspace s)) [
      | back ys h v b keeps ↦ trims xs ys (e ∙ ap (λ l. xs ++ l) h) w v (keeps f, b)
    ]
  ]

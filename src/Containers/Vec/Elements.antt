-- ===== src/Containers/Vec/Elements.antt =====
-- The first n elements of an array.
use c_comprehensive_template.Prelude.{
  ℕ, zero, suc, ◌<◌, ◌≤◌, ◌≡◌, ◌≢◌, refl, ap, ap₂, List, [], ◌∷◌, ◌++◌, length, get_elem?, some,
  arith, length-append, none, ◌∙◌, ◌-◌, dec_lt, sym,
}

module _ {ℓ} {A : Type ℓ} where
  abbrev pub elements : (ℕ → A) → ℕ → List A
  elements f zero = []
  elements f (suc n) = elements f n ++ f n ∷ []

  pub length-elements : (f : ℕ → A) (n : ℕ) → length (elements f n) ≡ n
  length-elements f zero = refl
  length-elements f (suc n) =
      omega (arith, length-append (elements f n) (f n ∷ []), length-elements f n)

  pub elements_congr :
      (f g : ℕ → A) (n : ℕ) → ((j : ℕ) → j < n → g j ≡ f j) → elements g n ≡ elements f n
  elements_congr f g zero same = refl
  elements_congr f g (suc n) same =
      ap₂ (λ w y. w ++ y ∷ []) (elements_congr f g n (λ j h. same j (omega arith)))
        (same n (omega arith))

  get_elem?-append_low :
      (xs ys : List A) (i : ℕ) → i < length xs → get_elem? (xs ++ ys) i ≡ get_elem? xs i
  get_elem?-append_low [] ys i h = absurd (omega arith)
  get_elem?-append_low (x ∷ xs) ys zero h = refl
  get_elem?-append_low (x ∷ xs) ys (suc i) h = get_elem?-append_low xs ys i (omega arith)

  get_elem?-snoc :
      (xs : List A) (y : A) (i : ℕ) → i ≡ length xs → get_elem? (xs ++ y ∷ []) i ≡ some y
  get_elem?-snoc [] y i e = rw e refl
  get_elem?-snoc (x ∷ xs) y zero e = absurd (omega arith)
  get_elem?-snoc (x ∷ xs) y (suc i) e = get_elem?-snoc xs y i (omega arith)

  pub elements_unsnoc :
      (f : ℕ → A) (n : ℕ) → n ≢ 0 → elements f n ≡ elements f (n - 1) ++ f (n - 1) ∷ []
  elements_unsnoc f zero p = absurd (p refl)
  elements_unsnoc f (suc n) p =
      let e : n ≡ suc n - 1 = omega arith in ap (λ k. elements f k ++ f k ∷ []) e

  pub get_elem?-elements : (f : ℕ → A) (n i : ℕ) → i < n → get_elem? (elements f n) i ≡ some (f i)
  get_elem?-elements f zero i h = absurd (omega arith)
  get_elem?-elements f (suc n) i h = elim (dec_lt i n) [
    | yes low ↦
        get_elem?-append_low (elements f n) (f n ∷ []) i (omega (arith, length-elements f n))
        ∙ get_elem?-elements f n i low
    | no high ↦
        let last : i ≡ n = omega arith in
        get_elem?-snoc (elements f n) (f n) i (last ∙ sym (length-elements f n))
        ∙ ap (λ k. some (f k)) (sym last)
  ]

pub get_elem?-outside {ℓ} :
    {A : Type ℓ} (xs : List A) (i : ℕ) → length xs ≤ i → get_elem? xs i ≡ none
get_elem?-outside [] i h = refl
get_elem?-outside (x ∷ xs) zero h = absurd (omega arith)
get_elem?-outside (x ∷ xs) (suc i) h = get_elem?-outside xs i (omega arith)

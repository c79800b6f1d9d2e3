-- ===== src/Containers/StrView/Compare.antt =====
-- sv_eq and sv_trim on the bytes that a view shows.
use c_comprehensive_template.Prelude.{
  ℕ, zero, suc, ◌-◌, ◌≤◌, ◌<◌, ◌≡◌, ◌↔◌, refl, ap, sym, ◌∙◌, Bool, true, false, Option, some, [],
  ◌∷◌, ◌++◌, length, take, get_or, arith, Bool-cases, inl, inr, length-take, ℕ_discrete, append-nil,
  ◌⊎◌, append_assoc,
}
use c_comprehensive_template.Bytes.{Block, same_text, same_text_iff}
use c_comprehensive_template.Containers.StrView.{
  StrView, pointee, sv_eq, trim_front, trim_back, trim,
}
use c_comprehensive_template.Containers.StrView.Split.{text, IsInside}

length-text : (sv : StrView) → IsInside sv → length (text sv) ≡ sv.len
length-text sv h = omega (arith, length-take sv.len (pointee sv.bytes))

-- Views inside their texts are equal for sv_eq exactly if they show the same bytes.
pub sv_eq_lem : (a b : StrView) → IsInside a → IsInside b → (sv_eq a b ≡ true) ↔ (text a ≡ text b)
unfolding sv_eq
sv_eq_lem a b ha hb = (forth, back)
  where
    forth : sv_eq a b ≡ true → text a ≡ text b
    forth e = elim (ℕ_discrete a.len b.len) [
      | no ne ↦ absurd (ground arith)
      | yes p ↦ elim (ℕ_discrete a.len 0) [
        | yes z ↦ let z' : b.len ≡ 0 = sym p ∙ z in rw (z, z') refl
        | no some_there ↦
            let same : same_text (take a.len (pointee a.bytes)) (take a.len (pointee b.bytes))
                ≡ true =
              ground arith in
            (same_text_iff (take a.len (pointee a.bytes)) (take a.len (pointee b.bytes))).0 same
            ∙ ap (λ k. take k (pointee b.bytes)) p
      ]
    ]

    back : text a ≡ text b → sv_eq a b ≡ true
    back e =
        let p : a.len ≡ b.len = sym (length-text a ha) ∙ ap length e ∙ length-text b hb in
        let same =
          (same_text_iff (take a.len (pointee a.bytes)) (take a.len (pointee b.bytes))).1
            (e ∙ ap (λ k. take k (pointee b.bytes)) (sym p)) in
        ground (arith, p, same)

abbrev pub AllSpace : (ℕ → Bool) → Block → Type 0
AllSpace isspace [] = Unit
AllSpace isspace (x ∷ b) = (isspace x ≡ true) × AllSpace isspace b

-- What the first loop leaves of n bytes: less some white space in front.
pub record Fronted (isspace : ℕ → Bool) (b : Block) (n : ℕ) (sv : StrView) : Type 0 where
  pub before : Block
  pub spaces : AllSpace isspace before
  pub whole : take n b ≡ before ++ text sv
  pub inside : IsInside sv
  pub stops : (sv.len ≡ 0) ⊎ (isspace (get_or (pointee sv.bytes) 0 0) ≡ false)

module _ (isspace : ℕ → Bool) where
  trim_front_lem :
      (b : Block) (n : ℕ) → n ≤ length b → Fronted isspace b n (trim_front isspace (some b) n)
  unfolding trim_front
  trim_front_lem b zero h = record {
    before = [];
    spaces = tt;
    whole = refl;
    inside = omega arith;
    stops = inl refl;
  }
  trim_front_lem [] (suc n) h = absurd (omega arith)
  trim_front_lem (x ∷ b) (suc n) h = elim (Bool-cases (isspace x)) [
    | inl e ↦
        let f = trim_front_lem b n (omega arith) in
        rw e (record {
          before = x ∷ f.before;
          spaces = (e, f.spaces);
          whole = ap (λ l. x ∷ l) f.whole;
          inside = f.inside;
          stops = f.stops;
        })
    | inr e ↦ rw e (record { before = []; spaces = tt; whole = refl; inside = h; stops = inr e })
  ]

  AllSpace-snoc :
      (b : Block) (x : ℕ) → AllSpace isspace b → isspace x ≡ true → AllSpace isspace (b ++ x ∷ [])
  AllSpace-snoc [] x h e = (e, tt)
  AllSpace-snoc (y ∷ b) x (h, hs) e = (h, AllSpace-snoc b x hs e)

take-snoc : (n : ℕ) (b : Block) → n < length b → take (suc n) b ≡ take n b ++ get_or b n 0 ∷ []
take-snoc n [] h = absurd (omega arith)
take-snoc zero (x ∷ b) h = refl
take-snoc (suc n) (x ∷ b) h = ap (λ l. x ∷ l) (take-snoc n b (omega arith))

-- What the second loop leaves of n bytes: less some white space behind.
record Backed (isspace : ℕ → Bool) (b : Block) (n m : ℕ) : Type 0 where
  behind : Block
  spaces_behind : AllSpace isspace behind
  less : take n b ≡ take m b ++ behind
  shorter : m ≤ n
  ends : (m ≡ 0) ⊎ (isspace (get_or b (m - 1) 0) ≡ false)

module _ (isspace : ℕ → Bool) where
  trim_back_lem :
      (p : Option Block) (n : ℕ)
      → n ≤ length (pointee p)
      → Backed isspace (pointee p) n (trim_back isspace p n)
  unfolding trim_back
  trim_back_lem p zero h = record {
    behind = [];
    spaces_behind = tt;
    less = refl;
    shorter = omega arith;
    ends = inl refl;
  }
  trim_back_lem p (suc n) h = elim (Bool-cases (isspace (get_or (pointee p) n 0))) [
    | inl e ↦
        let f = trim_back_lem p n (omega arith) in
        rw e (record {
          behind = f.behind ++ get_or (pointee p) n 0 ∷ [];
          spaces_behind = AllSpace-snoc isspace f.behind (get_or (pointee p) n 0) f.spaces_behind e;
          less =
              take-snoc n (pointee p) (omega arith)
              ∙ ap (λ l. l ++ get_or (pointee p) n 0 ∷ []) f.less
              ∙ append_assoc (take (trim_back isspace p n) (pointee p)) f.behind
                  (get_or (pointee p) n 0 ∷ []);
          shorter = omega (arith, f.shorter);
          ends = f.ends;
        })
    | inr e ↦
        let last : suc n - 1 ≡ n = omega arith in
        rw e (record {
          behind = [];
          spaces_behind = tt;
          less = sym (append-nil (take (suc n) (pointee p)));
          shorter = omega arith;
          ends = inr (rw last e);
        })
  ]

-- What sv_trim shows of n bytes: all but white space on both sides, with none left there.
pub record Trimmed (isspace : ℕ → Bool) (shown : Block) (sv : StrView) : Type 0 where
  pub front : Block
  pub back : Block
  pub front_spaces : AllSpace isspace front
  pub back_spaces : AllSpace isspace back
  pub shown_whole : shown ≡ front ++ (text sv ++ back)
  pub tight :
      (sv.len ≡ 0)
      ⊎ ((isspace (get_or (pointee sv.bytes) 0 0) ≡ false)
          × (isspace (get_or (pointee sv.bytes) (sv.len - 1) 0) ≡ false))

-- sv_trim of n bytes of a text that has them drops white space at the front and at the back, and
-- nothing else, until none is left there.
pub trim_lem :
    (isspace : ℕ → Bool) (b : Block) (n : ℕ)
    → n ≤ length b
    → Trimmed isspace (take n b) (trim isspace (record { bytes = some b; len = n }))
unfolding trim
trim_lem isspace b n h =
    let f = trim_front_lem isspace b n h in
    let sv : StrView = trim_front isspace (some b) n in
    let g = trim_back_lem isspace sv.bytes sv.len f.inside in
    record {
      front = f.before;
      back = g.behind;
      front_spaces = f.spaces;
      back_spaces = g.spaces_behind;
      shown_whole = f.whole ∙ ap (λ l. f.before ++ l) g.less;
      tight = elim g.ends [
        | inl z ↦ inl z
        | inr last ↦ elim f.stops [
          | inl z ↦ inl (omega (arith, g.shorter))
          | inr head ↦ inr (head, last)
        ]
      ];
    }

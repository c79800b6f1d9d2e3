-- ===== src/Containers/StrView/Split.antt =====
-- Splitting a view into tokens loses nothing: the tokens joined by the delimiter are the text.
use c_comprehensive_template.Prelude.{
  ℕ, zero, suc, ◌+◌, ◌-◌, ◌≤◌, ◌<◌, ◌≡◌, ◌≢◌, refl, ap, ap₂, sym, ◌∙◌, Option, none, some, List, [],
  ◌∷◌, ◌++◌, length, take, drop, arith, length-drop, ℕ_discrete,
}
use c_comprehensive_template.Bytes.{Block}
use c_comprehensive_template.Containers.StrView.{StrView, pointee, memchr, split_next}

abbrev pub text : StrView → Block
text sv = take sv.len (pointee sv.bytes)

-- The view lies in the text it points into.
abbrev pub IsInside : StrView → Type 0
IsInside sv = sv.len ≤ length (pointee sv.bytes)

abbrev pub Without : ℕ → Block → Type 0
Without c [] = Unit
Without c (x ∷ b) = (x ≢ c) × Without c b

-- What memchr finds: the first c, after bytes that are not c.
pub data Sought (b : Block) (c n : ℕ) (out : Option ℕ) : Type 0 where
  absent : out ≡ none → Without c (take n b) → Sought b c n out
  here :
      (i : ℕ)
      → out ≡ some i
      → i < n
      → Without c (take i b)
      → take n b ≡ take i b ++ c ∷ take (n - (i + 1)) (drop (i + 1) b)
      → Sought b c n out

module _ (x c : ℕ) (b : Block) where
  first : (n : ℕ) → x ≡ c → x ∷ take n b ≡ c ∷ take (suc n - 1) b
  first n e = let less : n ≡ suc n - 1 = omega arith in ap₂ (λ y k. y ∷ take k b) e less

  later :
      (n i : ℕ)
      → take n b ≡ take i b ++ c ∷ take (n - (i + 1)) (drop (i + 1) b)
      → x ∷ take n b ≡ x ∷ (take i b ++ c ∷ take (suc n - (suc i + 1)) (drop (suc i + 1) (x ∷ b)))
  later n i e =
      let far : suc i + 1 ≡ suc (i + 1) = omega arith in
      let left : n - (i + 1) ≡ suc n - (suc i + 1) = omega arith in
      ap (λ l. x ∷ l) e ∙ ap₂ (λ k m. x ∷ (take i b ++ c ∷ take k (drop m (x ∷ b)))) left (sym far)

memchr_lem : (b : Block) (c n : ℕ) → n ≤ length b → Sought b c n (memchr b c n)
unfolding memchr
memchr_lem b c zero h = absent refl tt
memchr_lem [] c (suc n) h = absurd (omega arith)
memchr_lem (x ∷ b) c (suc n) h = elim (ℕ_discrete x c) [
  | yes e ↦ here 0 (ground arith) (omega arith) tt (first x c b n e)
  | no ne ↦ elim (memchr_lem b c n (omega arith)) [
    | absent m w ↦ absent (ground (arith, m)) (ne, w)
    | here i m low w e ↦ here (suc i) (ground (arith, m)) (omega arith) (ne, w) (later x c b n i e)
  ]
]

-- All the tokens, with the rounds left; `none` if they are not enough.
unfoldable pub tokens : ℕ → StrView → ℕ → Option (List Block)
tokens zero sv c = none
tokens (suc rounds) sv c = elim (split_next sv c) [
  | none ↦ some []
  | some (token, rest) ↦ elim (tokens rounds rest c) [
    | none ↦ none
    | some ts ↦ some (text token ∷ ts)
  ]
]

abbrev pub join : ℕ → List Block → Block
join c [] = []
join c (t ∷ []) = t
join c (t ∷ u ∷ ts) = t ++ c ∷ join c (u ∷ ts)

abbrev pub AllWithout : ℕ → List Block → Type 0
AllWithout c [] = Unit
AllWithout c (t ∷ ts) = Without c t × AllWithout c ts

-- The tokens of n bytes: at least one, none with the delimiter, together the bytes.
pub record Split (b : Block) (n c : ℕ) (out : Option (List Block)) : Type 0 where
  pub first_token : Block
  pub others : List Block
  pub found : out ≡ some (first_token ∷ others)
  pub joined : join c (first_token ∷ others) ≡ take n b
  pub clean : AllWithout c (first_token ∷ others)

abbrev pub view : Block → ℕ → StrView
view b n = record { bytes = some b; len = n }

module _ (c : ℕ) where
  tokens_step :
      (rounds : ℕ) (sv token rest : StrView) (ts : List Block)
      → split_next sv c ≡ some (token, rest)
      → tokens rounds rest c ≡ some ts
      → tokens (suc rounds) sv c ≡ some (text token ∷ ts)
  unfolding tokens
  tokens_step rounds sv token rest ts e r = ground (arith, e, r)

  tokens_end : (rounds : ℕ) → tokens (suc rounds) (record { bytes = none; len = 0 }) c ≡ some []
  unfolding tokens split_next
  tokens_end rounds = refl

  -- The sv_split_next loop over n bytes of a text that has them ends within n + 2 calls; it gives
  -- at least one token, no token holds the delimiter, and the tokens joined by the delimiter are
  -- the n bytes.
  pub tokens_lem :
      (rounds : ℕ) (b : Block) (n : ℕ)
      → n ≤ length b
      → n + 2 ≤ rounds
      → Split b n c (tokens rounds (view b n) c)
  tokens_lem zero b n h few = absurd (omega arith)
  tokens_lem (suc zero) b n h few = absurd (omega arith)
  tokens_lem (suc (suc r)) b n h few = elim (memchr_lem b c n h) [
    | absent m w ↦ record {
      first_token = take n b;
      others = [];
      found =
          tokens_step (suc r) (view b n) (view b n) (record { bytes = none; len = 0 }) []
            (unfold split_next in ground (arith, m)) (tokens_end r);
      joined = refl;
      clean = (w, tt);
    }
    | here i m low w e ↦
        let rest : Block = drop (i + 1) b in
        let left : ℕ = n - (i + 1) in
        let s = tokens_lem (suc r) rest left (omega (arith, length-drop (i + 1) b)) (omega arith) in
        record {
          first_token = take i b;
          others = s.first_token ∷ s.others;
          found =
              tokens_step (suc r) (view b n) (view b i) (view rest left) (s.first_token ∷ s.others)
                (unfold split_next in ground (arith, m)) s.found;
          joined = ap (λ l. take i b ++ c ∷ l) s.joined ∙ sym e;
          clean = (w, s.clean);
        }
  ]

-- ===== src/Cli/ArgParse/Config.antt =====
-- The lines of a configuration file: cli_load_config of src/cli/argparse.c reads back the key and
-- the value that stand on a line, whatever white space is around them.
use c_comprehensive_template.Prelude.{
  ℕ, Bool, true, false, ◌≡◌, ap, sym, ◌∙◌, ◌≢◌, subst, some, [], ◌∷◌, ◌++◌, append_assoc, arith,
  ◌==◌,
}
use c_comprehensive_template.Cli.ArgParse.{Str, trim, trim_back, split_at, line_entry}
use c_comprehensive_template.Cli.ArgParse.Trim.{
  IsBlank, EndsBare, IsTrimmed, IsBlank-append, trim-around, trims, trim_lem, back, trim_back_lem,
}

abbrev pub Lacks : ℕ → Str → Type 0
Lacks c [] = Unit
Lacks c (b ∷ bs) = (b ≢ c) × Lacks c bs

Lacks-append : (c : ℕ) (xs ys : Str) → Lacks c xs → Lacks c ys → Lacks c (xs ++ ys)
Lacks-append c [] ys w v = v
Lacks-append c (x ∷ xs) ys (n, w) v = (n, Lacks-append c xs ys w v)

split_at-here :
    (c : ℕ) (front behind : Str)
    → Lacks c front
    → split_at c (front ++ c ∷ behind) ≡ some (front, behind)
unfolding split_at
split_at-here c [] behind w = ground arith
split_at-here c (b ∷ front) behind (n, w) = ground (arith, split_at-here c front behind w)

module _ (isspace : ℕ → Bool) where
  IsBlank-Lacks : (c : ℕ) (xs : Str) → isspace c ≡ false → IsBlank isspace xs → Lacks c xs
  IsBlank-Lacks c [] n w = tt
  IsBlank-Lacks c (x ∷ xs) n (w, ws) = (
    λ e. let t : isspace c ≡ true = subst (λ b. isspace b ≡ true) e w in cc,
    IsBlank-Lacks c xs n ws,
  )

  EndsBare-behind :
      (front u : Str) (c : ℕ)
      → isspace c ≡ false
      → EndsBare isspace u
      → EndsBare isspace (front ++ c ∷ u)
  EndsBare-behind [] [] c n e = n
  EndsBare-behind [] (x ∷ u) c n e = e
  EndsBare-behind (f ∷ []) u c n e = EndsBare-behind [] u c n e
  EndsBare-behind (f ∷ g ∷ front) u c n e = EndsBare-behind (g ∷ front) u c n e

  -- White space at the end makes no difference.
  trim-end : (u ys : Str) → IsBlank isspace ys → trim isspace (u ++ ys) ≡ trim isspace u
  trim-end u ys w = elim (trim_lem isspace u) [
    | trims xs zs e b v t ↦
        let whole : u ++ ys ≡ xs ++ (trim isspace u ++ (zs ++ ys)) =
          ap (λ l. l ++ ys) e
          ∙ append_assoc xs (trim isspace u ++ zs) ys
          ∙ ap (λ l. xs ++ l) (append_assoc (trim isspace u) zs ys) in
        rw (whole) (
          trim-around isspace xs (trim isspace u) (zs ++ ys) b t (IsBlank-append isspace zs ys v w))
  ]

  -- On a trimmed line.
  line_entry-trimmed :
      (line : Str) (k : ℕ) (ks mid u : Str)
      → isspace b'=' ≡ false
      → k ≢ b'#'
      → Lacks b'=' (k ∷ ks)
      → IsTrimmed isspace (k ∷ ks)
      → IsBlank isspace mid
      → trim isspace line ≡ k ∷ ks ++ mid ++ b'=' ∷ u
      → line_entry isspace line ≡ some (k ∷ ks, trim isspace u)
  unfolding line_entry
  line_entry-trimmed line k ks mid u n c w t m e =
      let other : (k == b'#') ≡ false = ground arith in
      let found : split_at b'=' (k ∷ (ks ++ mid ++ b'=' ∷ u)) ≡ some (k ∷ (ks ++ mid), u) =
        split_at-here b'=' (k ∷ ks ++ mid) u
          (Lacks-append b'=' (k ∷ ks) mid w (IsBlank-Lacks b'=' mid n m)) in
      let key : trim isspace (k ∷ ks ++ mid) ≡ k ∷ ks =
        trim-around isspace [] (k ∷ ks) mid tt t m in
      rw (line_entry, e, other, found) (ap (λ l. some (l, trim isspace u)) key)

  -- A line with a key, `=` and a value, where the key is not empty, has no `=`, does not begin with
  -- `#`, and neither it nor the value has white space at its ends, is read as this key and this
  -- value, whatever white space stands before, between and behind them; `=` is no white space.
  pub line_entry_lem :
      (pre : Str) (k : ℕ) (ks mid gap value post : Str)
      → isspace b'=' ≡ false
      → k ≢ b'#'
      → Lacks b'=' (k ∷ ks)
      → IsTrimmed isspace (k ∷ ks)
      → IsTrimmed isspace value
      → IsBlank isspace pre
      → IsBlank isspace mid
      → IsBlank isspace gap
      → IsBlank isspace post
      → line_entry isspace (pre ++ (k ∷ ks ++ mid ++ b'=' ∷ (gap ++ (value ++ post))))
        ≡ some (k ∷ ks, value)
  line_entry_lem pre k ks mid gap value post n c w t v p m g q =
      let tail : Str = gap ++ (value ++ post) in
      elim (trim_back_lem isspace tail) [
        | back ys e blank ends keeps ↦
            let u : Str = trim_back isspace tail in
            let body : Str = k ∷ ks ++ mid ++ b'=' ∷ u in
            let whole : pre ++ (k ∷ ks ++ mid ++ b'=' ∷ tail) ≡ pre ++ (body ++ ys) =
              ap (λ l. pre ++ (k ∷ ks ++ mid ++ b'=' ∷ l)) e
              ∙ ap (λ l. pre ++ l) (sym (append_assoc (k ∷ ks ++ mid) (b'=' ∷ u) ys)) in
            let bare : IsTrimmed isspace body =
              (t.0, EndsBare-behind (k ∷ ks ++ mid) u b'=' n ends) in
            let line : trim isspace (pre ++ (k ∷ ks ++ mid ++ b'=' ∷ tail)) ≡ body =
              ap (trim isspace) whole ∙ trim-around isspace pre body ys p bare blank in
            let val : trim isspace u ≡ value =
              sym (trim-end u ys blank)
              ∙ ap (trim isspace) (sym e)
              ∙ trim-around isspace gap value post g v q in
            line_entry-trimmed (pre ++ (k ∷ ks ++ mid ++ b'=' ∷ tail)) k ks mid u n c w t m line
            ∙ ap (λ l. some (k ∷ ks, l)) val
      ]

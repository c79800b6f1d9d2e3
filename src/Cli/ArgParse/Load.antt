-- ===== src/Cli/ArgParse/Load.antt =====
-- cli_load_config of src/cli/argparse.c: which entries a context holds afterwards.
use c_comprehensive_template.Prelude.{
  ℕ, suc, ◌+◌, ◌*◌, ◌≤◌, ◌<◌, Bool, true, false, ◌≡◌, refl, ap, sym, subst, ◌∙◌, ◌⊎◌, inl, inr,
  Option, some, none, Option-cases, List, [], ◌∷◌, ◌++◌, append_assoc, append-nil, arith, length,
  length-append, take, take_whole, take-append_full, leb, leb→le, Bool-cases, if◌then◌else◌,
}
use c_comprehensive_template.Core.Error.{ErrorCode, ok, nomem, io, not_found}
use c_comprehensive_template.Cli.ArgParse.{
  Str, CliEntry, CliContext, copies, line_entry, load_lines, load_config, max_config,
}

abbrev pub with_config : CliContext → List CliEntry → CliContext
with_config ctx l = record ctx { config_vals = l }

-- A copy is the same string, or there is none.
abbrev pub IsStrdup : (ℕ → Str → Option Str) → Type 0
IsStrdup strdup = (n : ℕ) (s : Str) → (strdup n s ≡ none) ⊎ (strdup n s ≡ some s)

abbrev entry : Str → Str → CliEntry
entry k v = record { key = k; value = some v }

pub fuller :
    (n : ℕ) (es : List CliEntry) (e : CliEntry)
    → leb n (length es) ≡ false
    → length (es ++ (e ∷ [])) ≤ n
fuller n es e room = ground (arith, length-append es (e ∷ []))

module _ (isspace : ℕ → Bool) where
  -- The entries on the lines of a file.
  abbrev pub entries : List Str → List CliEntry
  entries [] = []
  entries (line ∷ lines) = elim (line_entry isspace line) [
    | none ↦ entries lines
    | some (key, val) ↦ entry key val ∷ entries lines
  ]

  module _ (strdup : ℕ → Str → Option Str) where
    -- The n-th call of strdup, for a key, or the next, for its value, fails.
    abbrev pub NotCopied : ℕ → Str → Str → Type 0
    NotCopied n key val = (strdup n key ≡ none) ⊎ (strdup (n + 1) val ≡ none)

    -- Of the new entries `es`, with two copies for each from the n-th on: all that there is room for, or
    -- those before the one whose copies failed.
    pub data Loaded (n : ℕ) (es : List CliEntry) (ctx : CliContext) (out : Bool × CliContext)
        : Type 0 where
      loaded :
          out ≡ (true, with_config ctx (take max_config (ctx.config_vals ++ es)))
          → Loaded n es ctx out
      failed :
          (before after : List CliEntry) (key val : Str)
          → es ≡ before ++ entry key val ∷ after
          → length ctx.config_vals + length before < max_config
          → NotCopied (n + 2 * length before) key val
          → out ≡ (false, with_config ctx (ctx.config_vals ++ before))
          → Loaded n es ctx out

    copies_lem :
        (n : ℕ) (key val : Str)
        → IsStrdup strdup
        → (NotCopied n key val × (copies (strdup n key) (strdup (n + 1) val) ≡ none))
          ⊎ (copies (strdup n key) (strdup (n + 1) val) ≡ some (entry key val))
    copies_lem n key val dup = elim (dup n key) [
      | inl f ↦ inl (inl f, rw (f) refl)
      | inr g ↦ elim (dup (n + 1) val) [
        | inl f ↦ inl (inr f, rw (g, f) refl)
        | inr h ↦ inr (rw (g, h) refl)
      ]
    ]

    -- One more entry, which the context has no room for.
    skips :
        (n : ℕ) (e : CliEntry) (es : List CliEntry) (ctx : CliContext) (out : Bool × CliContext)
        → length ctx.config_vals ≡ max_config
        → Loaded n es ctx out
        → Loaded n (e ∷ es) ctx out
    skips n e es ctx out full (loaded h) = loaded (
        h
        ∙ ap (λ l. (true, with_config ctx l))
            (take-append_full max_config ctx.config_vals es full
              ∙ sym (take-append_full max_config ctx.config_vals (e ∷ es) full)))
    skips n e es ctx out full (failed before after key val split room f h) = absurd (omega arith)

    stores :
        (n : ℕ) (e : CliEntry) (es : List CliEntry) (ctx : CliContext) (out : Bool × CliContext)
        → Loaded (n + 2) es (with_config ctx (ctx.config_vals ++ (e ∷ []))) out
        → Loaded n (e ∷ es) ctx out
    stores n e es ctx out (loaded h) = loaded (
        h
        ∙ ap (λ l. (true, with_config ctx (take max_config l)))
            (append_assoc ctx.config_vals (e ∷ []) es))
    stores n e es ctx out (failed before after key val split room f h) =
        let one : length (ctx.config_vals ++ (e ∷ [])) ≡ length ctx.config_vals + 1 =
          length-append ctx.config_vals (e ∷ []) in
        let later : (n + 2) + 2 * length before ≡ n + 2 * suc (length before) = omega arith in
        failed (e ∷ before) after key val (ap (λ l. e ∷ l) split) (omega arith)
          (subst (λ m. NotCopied m key val) later f)
          (h ∙ ap (λ l. (false, with_config ctx l)) (append_assoc ctx.config_vals (e ∷ []) before))

    pub load_lines_lem :
        (n : ℕ) (lines : List Str) (ctx : CliContext)
        → IsStrdup strdup
        → length ctx.config_vals ≤ max_config
        → Loaded n (entries lines) ctx (load_lines isspace strdup n lines ctx)
    unfolding load_lines
    load_lines_lem n [] ctx dup fits =
        let same : take max_config (ctx.config_vals ++ []) ≡ ctx.config_vals =
          ap (take max_config) (append-nil ctx.config_vals)
          ∙ take_whole max_config ctx.config_vals fits in
        loaded (ap (λ l. (true, with_config ctx l)) (sym same))
    load_lines_lem n (line ∷ lines) ctx dup fits = elim (Option-cases (line_entry isspace line)) [
      | inl e ↦ rw (entries, load_lines, e) (load_lines_lem n lines ctx dup fits)
      | inr ((key, val), e) ↦ elim (Bool-cases (leb max_config (length ctx.config_vals))) [
        | inl full ↦
            rw (entries, load_lines, e, full)
              (skips n (entry key val) (entries lines) ctx (load_lines isspace strdup n lines ctx)
                (omega (arith, leb→le 128 (length ctx.config_vals) full))
                (load_lines_lem n lines ctx dup fits))
        | inr room ↦ elim (copies_lem n key val dup) [
          | inl (f, c) ↦
              let first : n ≡ n + 2 * 0 = omega arith in
              rw (entries, load_lines, e, room, c)
                (failed [] (entries lines) key val refl (ground arith)
                  (subst (λ m. NotCopied m key val) first f)
                  (ap (λ l. (false, with_config ctx l)) (sym (append-nil ctx.config_vals))))
          | inr c ↦
              rw (entries, load_lines, e, room, c)
                (stores n (entry key val) (entries lines) ctx
                  (load_lines isspace strdup (n + 2) lines
                    (with_config ctx (ctx.config_vals ++ (entry key val ∷ []))))
                  (load_lines_lem (n + 2) lines
                    (with_config ctx (ctx.config_vals ++ (entry key val ∷ []))) dup
                    (fuller max_config ctx.config_vals (entry key val) room)))
        ]
      ]
    ]

    -- What cli_load_config can do to a context.
    pub data ConfigRead (fopen : Str → Option (List Str)) (closes : Bool) (path : Str)
        (ctx : CliContext) (out : ErrorCode × Option CliContext) : Type 0 where
      missing :
          fopen path ≡ none → out ≡ (not_found, some ctx) → ConfigRead fopen closes path ctx out
      complete :
          (lines : List Str)
          → fopen path ≡ some lines
          → out ≡ (
            (if closes then ok else io),
            some (with_config ctx (take max_config (ctx.config_vals ++ entries lines))),
          )
          → ConfigRead fopen closes path ctx out
      short :
          (lines : List Str) (before after : List CliEntry) (key val : Str)
          → fopen path ≡ some lines
          → entries lines ≡ before ++ entry key val ∷ after
          → length ctx.config_vals + length before < max_config
          → NotCopied (2 * length before) key val
          → out ≡ (nomem, some (with_config ctx (ctx.config_vals ++ before)))
          → ConfigRead fopen closes path ctx out

    -- A missing file gives ERR_NOT_FOUND and the context as it was. Otherwise, where a context holds
    -- at most 128 entries and strdup copies or fails, the entries on the lines are added as far as
    -- there is room for 128, with ERR_OK or, if fclose fails, ERR_IO; or at a new entry, for
    -- which there was room, its own call of strdup for the key or for the value failed, exactly the
    -- entries before it were added, and the code is ERR_NOMEM.
    pub load_config_lem :
        (fopen : Str → Option (List Str)) (closes : Bool) (path : Str) (ctx : CliContext)
        → IsStrdup strdup
        → length ctx.config_vals ≤ max_config
        → ConfigRead fopen closes path ctx
            (load_config isspace fopen strdup closes (some path) (some ctx))
    unfolding load_config
    load_config_lem fopen closes path ctx dup fits = elim (Option-cases (fopen path)) [
      | inl e ↦ missing e (rw (load_config, e) refl)
      | inr (lines, e) ↦ elim (load_lines_lem 0 lines ctx dup fits) [
        | loaded h ↦ complete lines e (rw (load_config, e, h) refl)
        | failed before after key val split room f h ↦
            let start : 0 + 2 * length before ≡ 2 * length before = omega arith in
            short lines before after key val e split room (subst (λ m. NotCopied m key val) start f)
              (rw (load_config, e, h) refl)
      ]
    ]

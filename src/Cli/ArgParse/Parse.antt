-- ===== src/Cli/ArgParse/Parse.antt =====
-- cli_parse of src/cli/argparse.c: which options a context holds afterwards.
use c_comprehensive_template.Prelude.{
  ℕ, ◌≤◌, false, ◌≡◌, refl, ap, sym, ◌∙◌, inl, inr, Option, some, none, Option-cases, List, [], ◌∷◌,
  ◌++◌, append_assoc, append-nil, arith, length, take, drop, ltb, take_whole, take-append_full, leb,
  leb→le, Bool-cases, ◌==◌, if◌then◌else◌,
}
use c_comprehensive_template.Core.Error.{ok}
use c_comprehensive_template.Cli.ArgParse.{
  Str, CliEntry, CliContext, CliOption, max_opts, ctx_add_cli, matched, take_options, GetOpt, parse,
  short_str, long_opts,
}
use c_comprehensive_template.Cli.ArgParse.Load.{fuller}

-- The entries that the options on a command line stand for.
abbrev pub given : List CliOption → List (ℕ × Option Str) → List CliEntry
given options [] = []
given options ((c, arg) ∷ events) =
    if c == b'?' then given options events else elim (matched 0 options c) [
      | none ↦ given options events
      | some o ↦ (record { key = o.long_name; value = arg }) ∷ given options events
    ]

abbrev pub with_args : CliContext → List CliEntry → CliContext
with_args ctx l = record ctx { cli_args = l }

abbrev seen : CliOption → Option Str → CliEntry
seen o arg = record { key = o.long_name; value = arg }

-- One more option, which the context has no room for.
no_room :
    (e : CliEntry) (es : List CliEntry) (ctx : CliContext)
    → length ctx.cli_args ≡ max_opts
    → with_args ctx (take max_opts (ctx.cli_args ++ es))
      ≡ with_args ctx (take max_opts (ctx.cli_args ++ (e ∷ es)))
no_room e es ctx full = ap (with_args ctx) (
    take-append_full max_opts ctx.cli_args es full
    ∙ sym (take-append_full max_opts ctx.cli_args (e ∷ es) full))

take_options_lem :
    (events : List (ℕ × Option Str)) (ctx : CliContext)
    → length ctx.cli_args ≤ max_opts
    → take_options events ctx
      ≡ with_args ctx (take max_opts (ctx.cli_args ++ given ctx.options events))
unfolding take_options ctx_add_cli
take_options_lem [] ctx fits =
    let same : take max_opts (ctx.cli_args ++ []) ≡ ctx.cli_args =
      ap (take max_opts) (append-nil ctx.cli_args) ∙ take_whole max_opts ctx.cli_args fits in
    ap (with_args ctx) (sym same)
take_options_lem ((c, arg) ∷ events) ctx fits = elim (Bool-cases (c == b'?')) [
  | inl q ↦ rw (take_options, given, q) (take_options_lem events ctx fits)
  | inr other ↦ elim (Option-cases (matched 0 ctx.options c)) [
    | inl e ↦ rw (take_options, given, other, e) (take_options_lem events ctx fits)
    | inr (o, e) ↦ elim (Bool-cases (leb max_opts (length ctx.cli_args))) [
      | inl full ↦
          rw (take_options, given, other, e, ctx_add_cli, full)
            (take_options_lem events ctx fits
              ∙ no_room (seen o arg) (given ctx.options events) ctx
                  (omega (arith, leb→le 64 (length ctx.cli_args) full)))
      | inr room ↦
          rw (take_options, given, other, e, ctx_add_cli, room)
            (take_options_lem events (with_args ctx (ctx.cli_args ++ (seen o arg ∷ [])))
                (fuller max_opts ctx.cli_args (seen o arg) room)
              ∙ ap (λ l. with_args ctx (take max_opts l))
                  (append_assoc ctx.cli_args (seen o arg ∷ []) (given ctx.options events)))
    ]
  ]
]

-- With at most 64 options, cli_parse gives ERR_OK and a context that holds the first 64 of the
-- options that getopt_long found on the command line, in their order and each under its long
-- name, no entry of a configuration file, and the arguments from optind on.
pub parse_lem :
    (getopt : GetOpt) (argv : List Str) (options : List CliOption) (ctx : CliContext)
    (events : List (ℕ × Option Str)) (optind : ℕ) (argv' : List Str)
    → length options ≤ max_opts
    → getopt argv (short_str options) (long_opts 0 options) ≡ (events, (optind, argv'))
    → parse getopt (some argv) (some options) (some ctx) ≡ (
      ok,
      some (record {
        cli_args = take max_opts (given options events);
        config_vals = [];
        options = options;
        subcommand = none;
        rest = drop optind argv';
      }),
    )
unfolding parse
parse_lem getopt argv options ctx events optind argv' few e =
    let fits : ltb max_opts (length options) ≡ false = ground arith in
    let cleared : CliContext = record {
      cli_args = [];
      config_vals = [];
      options = options;
      subcommand = none;
      rest = [];
    } in
    rw (parse, fits, e, take_options_lem events cleared (omega arith)) refl

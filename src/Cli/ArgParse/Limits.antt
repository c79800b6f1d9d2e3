-- ===== src/Cli/ArgParse/Limits.antt =====
-- The arrays of a CliContext of src/cli/argparse.c have 64 and 128 places: no operation writes
-- behind them.
use c_comprehensive_template.Prelude.{
  ℕ, ◌≤◌, Bool, refl, inl, inr, Option, some, none, List, ◌++◌, arith, length, length-append, ltb,
  Bool-cases, length-take,
}
use c_comprehensive_template.Core.Error.{ErrorCode}
use c_comprehensive_template.Cli.ArgParse.{
  Str, CliContext, CliOption, load_config, max_config, max_opts, GetOpt, parse, short_str,
  long_opts, free,
}
use c_comprehensive_template.Cli.ArgParse.Load.{
  entries, IsStrdup, ConfigRead, missing, complete, short, load_config_lem,
}
use c_comprehensive_template.Cli.ArgParse.Parse.{given, parse_lem}

abbrev pub Fits : Option CliContext → Type 0
Fits none = Unit
Fits (some ctx) = (length ctx.cli_args ≤ max_opts) × (length ctx.config_vals ≤ max_config)

parse-Fits :
    (getopt : GetOpt) (argv : Option (List Str)) (options : Option (List CliOption))
    (ctx : Option CliContext)
    → Fits ctx
    → Fits (parse getopt argv options ctx).1
unfolding parse
parse-Fits getopt none options ctx fits = fits
parse-Fits getopt (some argv) none ctx fits = fits
parse-Fits getopt (some argv) (some options) none fits = tt
parse-Fits getopt (some argv) (some options) (some ctx) fits =
    elim (Bool-cases (ltb max_opts (length options))) [
      | inl many ↦ rw (parse, many) fits
      | inr few ↦
          let (events, (optind, argv')) = getopt argv (short_str options) (long_opts 0 options) in
          rw (parse_lem getopt argv options ctx events optind argv' (ground arith) refl)
            (omega (arith, length-take 64 (given options events)), omega arith)
    ]

module _ (isspace : ℕ → Bool) (strdup : ℕ → Str → Option Str) where
  ConfigRead-Fits :
      (fopen : Str → Option (List Str)) (closes : Bool) (path : Str) (ctx : CliContext)
      (out : ErrorCode × Option CliContext)
      → Fits (some ctx)
      → ConfigRead isspace strdup fopen closes path ctx out
      → Fits out.1
  ConfigRead-Fits fopen closes path ctx out (a, b) (missing e h) = rw (h) (a, b)
  ConfigRead-Fits fopen closes path ctx out (a, b) (complete lines e h) =
      rw (h) (a, omega (arith, length-take 128 (ctx.config_vals ++ entries isspace lines)))
  ConfigRead-Fits fopen closes path ctx out (a, b)
        (short lines before after key val e split room f h) =
      rw (h) (a, omega (arith, length-append ctx.config_vals before))

  load-Fits :
      (fopen : Str → Option (List Str)) (closes : Bool) (path : Option Str)
      (ctx : Option CliContext)
      → IsStrdup strdup
      → Fits ctx
      → Fits (load_config isspace fopen strdup closes path ctx).1
  unfolding load_config
  load-Fits fopen closes none ctx dup fits = fits
  load-Fits fopen closes (some path) none dup fits = tt
  load-Fits fopen closes (some path) (some ctx) dup fits =
      ConfigRead-Fits fopen closes path ctx
        (load_config isspace fopen strdup closes (some path) (some ctx)) fits
        (load_config_lem isspace strdup fopen closes path ctx dup fits.1)

free-Fits : (ctx : Option CliContext) → Fits ctx → Fits (free ctx)
unfolding free
free-Fits none fits = tt
free-Fits (some ctx) (a, b) = (a, omega arith)

-- Where strdup copies or fails, a context with at most 64 options and 128 configured entries
-- still is one after cli_parse, after cli_load_config and after cli_free, whatever they return.
pub context-Fits :
    (getopt : GetOpt) (argv : Option (List Str)) (options : Option (List CliOption))
    (isspace : ℕ → Bool) (strdup : ℕ → Str → Option Str) (fopen : Str → Option (List Str))
    (closes : Bool) (path : Option Str) (ctx : Option CliContext)
    → IsStrdup strdup
    → Fits ctx
    → Fits (parse getopt argv options ctx).1
      × Fits (load_config isspace fopen strdup closes path ctx).1
      × Fits (free ctx)
context-Fits getopt argv options isspace strdup fopen closes path ctx dup fits = (
  parse-Fits getopt argv options ctx fits,
  load-Fits isspace strdup fopen closes path ctx dup fits,
  free-Fits ctx fits,
)

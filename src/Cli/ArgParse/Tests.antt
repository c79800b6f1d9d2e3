-- ===== src/Cli/ArgParse/Tests.antt =====
-- Options `-v` and `--level`, read from a line " k = a b " and from a command line.
use c_comprehensive_template.Prelude.{
  ℕ, ◌+◌, ◌≤◌, Bool, true, ◌≡◌, inr, refl, Option, some, none, List, [], ◌∷◌, length, arith, pos,
  ◌==◌, ◌||◌,
}
use c_comprehensive_template.Bytes.{same_text}
use c_comprehensive_template.Core.Error.{ok}
use c_comprehensive_template.Cli.ArgParse.{
  Str, CliOption, CliContext, CliEntry, GetOpt, no_arg, required_arg, line_entry, trim, trim_front,
  trim_back, split_at, load_lines, load_config, parse, resolve, flag, free, find_entry, find_before,
  take_options, ctx_add_cli, matched, dispatch, find_command, CliSubcommand,
}
use c_comprehensive_template.Cli.ArgParse.Config.{line_entry_lem}
use c_comprehensive_template.Cli.ArgParse.Load.{IsStrdup, ConfigRead, load_config_lem}
use c_comprehensive_template.Cli.ArgParse.Parse.{given}
use c_comprehensive_template.Cli.ArgParse.Resolve.{Holds, holds, resolve-parse}
use c_comprehensive_template.Cli.ArgParse.Limits.{Fits, context-Fits}

abbrev space : ℕ → Bool
space b = b == 32 || b == 10

abbrev dup : ℕ → Str → Option Str
dup n s = some s

abbrev copied : IsStrdup dup
copied n s = inr refl

abbrev level : Str
level = b'l' ∷ b'v' ∷ []

abbrev options : List CliOption
options =
    record {
      long_name = b'v' ∷ [];
      short_name = b'v';
      arg_req = no_arg;
      description = none;
      env_var = none;
      default_val = none;
    }
    ∷ record {
      long_name = level;
      short_name = 0;
      arg_req = required_arg;
      description = none;
      env_var = some (b'L' ∷ []);
      default_val = some (b'0' ∷ []);
    }
    ∷ []

abbrev fresh : CliContext
fresh = record { cli_args = []; config_vals = []; options = options; subcommand = none; rest = [] }

-- `prog --lv 1 -v --lv 2 file`
abbrev args : List Str
args = (b'p' ∷ []) ∷ (b'f' ∷ []) ∷ []

abbrev events : List (ℕ × Option Str)
events = (257, some (b'1' ∷ [])) ∷ (b'v', none) ∷ (257, some (b'2' ∷ [])) ∷ []

abbrev getopt : GetOpt
getopt argv short long = (events, (1, argv))

abbrev line : Str
line = 32 ∷ b'k' ∷ 32 ∷ b'=' ∷ 32 ∷ b'a' ∷ 32 ∷ b'b' ∷ 10 ∷ []

abbrev lines : List Str
lines = (b'#' ∷ b'a' ∷ b'=' ∷ []) ∷ line ∷ (10 ∷ []) ∷ []

abbrev opened : Str → Option (List Str)
opened path = some lines

getenv : Str → Option Str
getenv name = none

load_runs : load_config space opened dup true (some []) (some fresh) ≡ (
  ok,
  some (record fresh {
    config_vals = record { key = b'k' ∷ []; value = some (b'a' ∷ 32 ∷ b'b' ∷ []) } ∷ [];
  }),
)
unfolding load_config load_lines line_entry trim trim_front trim_back split_at
load_runs = refl

flag_runs :
    flag getenv (parse getopt (some args) (some options) (some fresh)).1 (some (b'v' ∷ [])) ≡ true
unfolding flag resolve parse take_options ctx_add_cli matched find_entry find_before same_text
flag_runs = refl

abbrev commands : List CliSubcommand
commands =
    record { name = b'f' ∷ []; description = none; handler = λ argv. pos (length argv + 6) } ∷ []

dispatch_runs : dispatch args commands ≡ pos 7
unfolding dispatch find_command same_text
dispatch_runs = refl

line_entry_example : line_entry space line ≡ some (b'k' ∷ [], b'a' ∷ 32 ∷ b'b' ∷ [])
line_entry_example =
    line_entry_lem space (32 ∷ []) b'k' [] (32 ∷ []) (32 ∷ []) (b'a' ∷ 32 ∷ b'b' ∷ []) (10 ∷ [])
      refl (omega arith) (omega arith, tt) (refl, refl) (refl, refl) (refl, tt) (refl, tt)
      (refl, tt) (refl, tt)

load_config_example :
    ConfigRead space dup opened true [] fresh
      (load_config space opened dup true (some []) (some fresh))
load_config_example = load_config_lem space dup opened true [] fresh copied (omega arith)

few : length (given options events) ≤ 64
unfolding matched
few = omega arith

last_level : Holds (given options events) level (b'2' ∷ [])
unfolding matched
last_level =
    let first : List CliEntry =
      record { key = level; value = some (b'1' ∷ []) }
      ∷ record { key = b'v' ∷ []; value = none }
      ∷ [] in
    holds first (record { key = level; value = some (b'2' ∷ []) }) [] refl refl tt refl

resolve-parse_example :
    resolve getenv (parse getopt (some args) (some options) (some fresh)).1 (some level)
    ≡ some (b'2' ∷ [])
resolve-parse_example =
    resolve-parse getopt getenv args options fresh events 1 args level (b'2' ∷ []) (omega arith)
      refl few last_level

context-Fits_example :
    Fits (parse getopt (some args) (some options) (some fresh)).1
    × Fits (load_config space opened dup true (some []) (some fresh)).1
    × Fits (free (some fresh))
context-Fits_example =
    context-Fits getopt (some args) (some options) space dup opened true (some []) (some fresh)
      copied (omega arith, omega arith)

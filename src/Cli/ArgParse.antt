-- ===== src/Cli/ArgParse.antt =====
-- include/cli/argparse.h and src/cli/argparse.c: options from the command line, the environment, a
-- configuration file and defaults. A string is its bytes before the NUL. The arrays of a context
-- hold the first `cli_count` and `config_count` entries. getopt_long, isspace, getenv, strdup and
-- the lines that fgets reads are parameters; the help texts are not modelled.
pub mod Trim
pub mod Config
pub mod Load
pub mod Parse
pub mod Resolve
pub mod Limits
mod Tests
use c_comprehensive_template.Prelude.{
  ℕ, zero, suc, ◌+◌, Bool, true, false, ◌||◌, Option, none, some, List, [], ◌∷◌, ◌++◌, length,
  get_elem?, drop, ltb, leb, ◌==◌, if◌then◌else◌, ℤ, pos, negsuc,
}
use c_comprehensive_template.Bytes.{same_text}
use c_comprehensive_template.Core.Error.{ErrorCode, ok, nomem, io, invalid_arg, not_found}

abbrev pub Str : Type 0
Str = List ℕ

abbrev pub max_opts : ℕ
max_opts = 64

abbrev pub max_config : ℕ
max_config = 128

pub data ArgReq : Type 0 where
  no_arg : ArgReq
  required_arg : ArgReq
  optional_arg : ArgReq

-- The short name is 0 for none.
pub record CliOption : Type 0 where
  pub long_name : Str
  pub short_name : ℕ
  pub arg_req : ArgReq
  pub description : Option Str
  pub env_var : Option Str
  pub default_val : Option Str

pub record CliSubcommand : Type 0 where
  pub name : Str
  pub description : Option Str
  pub handler : List Str → ℤ

pub record CliEntry : Type 0 where
  pub key : Str
  pub value : Option Str

pub record CliContext : Type 0 where
  pub cli_args : List CliEntry
  pub config_vals : List CliEntry
  pub options : List CliOption
  pub subcommand : Option Str
  pub rest : List Str

unfoldable pub ctx_add_cli : CliContext → Str → Option Str → CliContext
ctx_add_cli ctx key value =
    if leb max_opts (length ctx.cli_args)
    then ctx
    else record ctx { cli_args = ctx.cli_args ++ (record { key = key; value = value } ∷ []) }

abbrev pub or_empty : Option Str → Str
or_empty none = []
or_empty (some v) = v

-- The loop of find_entry, with i entries left.
unfoldable pub find_before : ℕ → List CliEntry → Str → Option Str
find_before zero entries key = none
find_before (suc i) entries key =
    let rest = find_before i entries key in
    elim (get_elem? entries i) [
      | none ↦ none
      | some e ↦ if same_text e.key key then some (or_empty e.value) else rest
    ]

unfoldable pub find_entry : List CliEntry → Str → Option Str
find_entry entries key = find_before (length entries) entries key

unfoldable pub find_option : List CliOption → Str → Option CliOption
find_option [] name = none
find_option (o ∷ opts) name = if same_text o.long_name name then some o else find_option opts name

-- What getopt_long is told of an option.
pub record LongOpt : Type 0 where
  pub name : Str
  pub has_arg : ArgReq
  pub val : ℕ

-- The value of the option with index i.
abbrev pub val_of : CliOption → ℕ → ℕ
val_of o i = if o.short_name == 0 then 256 + i else o.short_name

unfoldable pub long_opts : ℕ → List CliOption → List LongOpt
long_opts i [] = []
long_opts i (o ∷ opts) =
    record { name = o.long_name; has_arg = o.arg_req; val = val_of o i } ∷ long_opts (i + 1) opts

abbrev colons : ArgReq → Str
colons no_arg = []
colons required_arg = b':' ∷ []
colons optional_arg = b':' ∷ b':' ∷ []

unfoldable pub short_str : List CliOption → Str
short_str [] = []
short_str (o ∷ opts) =
    if o.short_name == 0
    then short_str opts
    else o.short_name ∷ (colons o.arg_req ++ short_str opts)

-- Which option a value of getopt_long stands for, from index i on.
unfoldable pub matched : ℕ → List CliOption → ℕ → Option CliOption
matched i [] c = none
matched i (o ∷ opts) c = if c == val_of o i then some o else matched (i + 1) opts c

-- The loop over what getopt_long returns, each with its optarg.
unfoldable pub take_options : List (ℕ × Option Str) → CliContext → CliContext
take_options [] ctx = ctx
take_options ((c, arg) ∷ events) ctx = take_options events (
    if c == b'?'
    then ctx
    else elim (matched 0 ctx.options c) [ none ↦ ctx | some o ↦ ctx_add_cli ctx o.long_name arg ])

-- getopt_long as a whole: what it returns before -1, and then optind and the reordered argv.
abbrev pub GetOpt : Type 0
GetOpt = List Str → Str → List LongOpt → List (ℕ × Option Str) × (ℕ × List Str)

unfoldable pub parse :
    GetOpt
    → Option (List Str)
    → Option (List CliOption)
    → Option CliContext
    → ErrorCode × Option CliContext
parse getopt (some argv) (some options) (some ctx) =
    if ltb max_opts (length options)
    then (invalid_arg, some ctx)
    else let (events, (optind, argv')) = getopt argv (short_str options) (long_opts 0 options) in
      let cleared : CliContext = record {
        cli_args = [];
        config_vals = [];
        options = options;
        subcommand = none;
        rest = [];
      } in
      (ok, some (record (take_options events cleared) { rest = drop optind argv' }))
parse getopt none options ctx = (invalid_arg, ctx)
parse getopt (some argv) none ctx = (invalid_arg, ctx)
parse getopt (some argv) (some options) none = (invalid_arg, none)

unfoldable pub find_command : List CliSubcommand → Str → Option CliSubcommand
find_command [] name = none
find_command (c ∷ cmds) name = if same_text name c.name then some c else find_command cmds name

-- The result of cli_dispatch; argv has the program's name first.
unfoldable pub dispatch : List Str → List CliSubcommand → ℤ
dispatch [] cmds = negsuc 0
dispatch (prog ∷ []) cmds = negsuc 0
dispatch (prog ∷ arg ∷ args) cmds =
    if same_text arg (b'-' ∷ b'-' ∷ b'h' ∷ b'e' ∷ b'l' ∷ b'p' ∷ [])
      || same_text arg (b'-' ∷ b'h' ∷ [])
    then pos 0
    else elim (find_command cmds arg) [ none ↦ negsuc 0 | some c ↦ c.handler (arg ∷ args) ]

-- What strchr finds: the bytes before and behind the first c.
unfoldable pub split_at : ℕ → Str → Option (Str × Str)
split_at c [] = none
split_at c (b ∷ bs) =
    if b == c
    then some ([], bs)
    else elim (split_at c bs) [ none ↦ none | some (front, back) ↦ some (b ∷ front, back) ]

-- The entry of two copies, if neither failed.
abbrev pub copies : Option Str → Option Str → Option CliEntry
copies none v = none
copies (some k) none = none
copies (some k) (some v) = some (record { key = k; value = some v })

module _ (isspace : ℕ → Bool) where
  unfoldable pub trim_front : Str → Str
  trim_front [] = []
  trim_front (b ∷ bs) = if isspace b then trim_front bs else b ∷ bs

  -- The loop that shortens the string from its end.
  unfoldable pub trim_back : Str → Str
  trim_back [] = []
  trim_back (b ∷ bs) = elim (trim_back bs) [
    | [] ↦ if isspace b then [] else b ∷ []
    | c ∷ cs ↦ b ∷ c ∷ cs
  ]

  unfoldable pub trim : Str → Str
  trim s = trim_back (trim_front s)

  -- The key and the value of a line, if it has them.
  unfoldable pub line_entry : Str → Option (Str × Str)
  line_entry line = elim (trim line) [
    | [] ↦ none
    | b ∷ bs ↦ if b == b'#' then none else elim (split_at b'=' (b ∷ bs)) [
      | none ↦ none
      | some (key, val) ↦ some (trim key, trim val)
    ]
  ]

  -- The loop of cli_load_config over the lines; false if strdup fails. `n` counts the calls of
  -- strdup so far.
  unfoldable pub load_lines : (ℕ → Str → Option Str) → ℕ → List Str → CliContext → Bool × CliContext
  load_lines strdup n [] ctx = (true, ctx)
  load_lines strdup n (line ∷ lines) ctx =
      let skipped = load_lines strdup n lines ctx in
      let stored = load_lines strdup (n + 2) lines in
      elim (line_entry line) [
        | none ↦ skipped
        | some (key, val) ↦
            if leb max_config (length ctx.config_vals)
            then skipped
            else elim (copies (strdup n key) (strdup (n + 1) val)) [
              | none ↦ (false, ctx)
              | some e ↦ stored (record ctx { config_vals = ctx.config_vals ++ (e ∷ []) })
            ]
      ]

  -- `fopen` gives the lines of the file, as fgets reads them, or none; `closes` is what fclose says.
  unfoldable pub load_config :
      (Str → Option (List Str))
      → (ℕ → Str → Option Str)
      → Bool
      → Option Str
      → Option CliContext
      → ErrorCode × Option CliContext
  load_config fopen strdup closes none ctx = (invalid_arg, ctx)
  load_config fopen strdup closes (some path) none = (invalid_arg, none)
  load_config fopen strdup closes (some path) (some ctx) = elim (fopen path) [
    | none ↦ (not_found, some ctx)
    | some lines ↦
        let (good, ctx') = load_lines strdup 0 lines ctx in
        if good then ((if closes then ok else io), some ctx') else (nomem, some ctx')
  ]

abbrev pub default_value : Option CliOption → Option Str
default_value none = none
default_value (some o) = o.default_val

module _ (getenv : Str → Option Str) where
  abbrev pub env_value : Option CliOption → Option Str
  env_value none = none
  env_value (some o) = elim o.env_var [ none ↦ none | some name ↦ getenv name ]

  unfoldable pub resolve : Option CliContext → Option Str → Option Str
  resolve none name = none
  resolve (some ctx) none = none
  resolve (some ctx) (some name) = elim (find_entry ctx.cli_args name) [
    | some v ↦ some v
    | none ↦
        let opt = find_option ctx.options name in
        elim (env_value opt) [
          | some v ↦ some v
          | none ↦ elim (find_entry ctx.config_vals name) [
            | some v ↦ some v
            | none ↦ default_value opt
          ]
        ]
  ]

  unfoldable pub flag : Option CliContext → Option Str → Bool
  flag ctx name = elim (resolve ctx name) [
    | none ↦ false
    | some v ↦
        length v == 0
        || same_text v (b'1' ∷ [])
        || same_text v (b't' ∷ b'r' ∷ b'u' ∷ b'e' ∷ [])
        || same_text v (b'y' ∷ b'e' ∷ b's' ∷ [])
  ]

unfoldable pub free : Option CliContext → Option CliContext
free none = none
free (some ctx) = some (record ctx { config_vals = [] })

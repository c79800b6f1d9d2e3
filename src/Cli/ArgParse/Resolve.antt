-- ===== src/Cli/ArgParse/Resolve.antt =====
-- cli_resolve of src/cli/argparse.c: which of the four sources an option's value comes from.
use c_comprehensive_template.Prelude.{
  ℕ, zero, suc, ◌≤◌, ◌<◌, true, false, ◌≡◌, ◌≢◌, refl, ap, sym, subst, ◌∙◌, inl, inr, Option, some,
  none, List, [], ◌∷◌, ◌++◌, arith, length, get_elem?, take_whole, Bool-cases, if◌then◌else◌,
}
use c_comprehensive_template.Bytes.{same_text, same_text-eq, same_text_refl}
use c_comprehensive_template.Cli.ArgParse.{
  Str, CliEntry, CliContext, CliOption, or_empty, find_before, find_entry, find_option, env_value,
  default_value, resolve, GetOpt, parse, max_opts, short_str, long_opts,
}
use c_comprehensive_template.Cli.ArgParse.Parse.{given, parse_lem}

-- No entry has the key.
abbrev pub Unset : List CliEntry → Str → Type 0
Unset [] key = Unit
Unset (e ∷ es) key = (e.key ≢ key) × Unset es key

-- The last entry with the key has the value.
pub data Holds (es : List CliEntry) (key v : Str) : Type 0 where
  holds :
      (xs : List CliEntry) (e : CliEntry) (ys : List CliEntry)
      → es ≡ xs ++ (e ∷ ys)
      → e.key ≡ key
      → Unset ys key
      → v ≡ or_empty e.value
      → Holds es key v

get_below :
    (es : List CliEntry) (i : ℕ) → i < length es → (e : CliEntry) × (get_elem? es i ≡ some e)
get_below [] i h = absurd (omega arith)
get_below (e ∷ es) zero h = (e, refl)
get_below (e ∷ es) (suc i) h = get_below es i (omega arith)

other : (a b : Str) → same_text a b ≡ false → a ≢ b
other a b n e = let t : same_text a b ≡ true = rw (e) (same_text_refl b) in cc

differs : (a b : Str) → a ≢ b → same_text a b ≡ false
differs a b n = elim (Bool-cases (same_text a b)) [
  | inl t ↦ absurd (n (same_text-eq a b t))
  | inr f ↦ f
]

-- The value of an entry, if it has the key.
abbrev value_if : CliEntry → Str → Option Str
value_if e key = if same_text e.key key then some (or_empty e.value) else none

abbrev or_else : Option Str → Option Str → Option Str
or_else none v = v
or_else (some w) v = some w

-- The loop over one entry more in front.
find_before-front :
    (i : ℕ) (e : CliEntry) (es : List CliEntry) (key : Str)
    → i ≤ length es
    → find_before (suc i) (e ∷ es) key ≡ or_else (find_before i es key) (value_if e key)
unfolding find_before
find_before-front zero e es key h = refl
find_before-front (suc i) e es key h =
    let (f, g) = get_below es i (omega arith) in
    elim (Bool-cases (same_text f.key key)) [
      | inl t ↦ rw (find_before, g, t) refl
      | inr n ↦ rw (find_before, g, n) (find_before-front i e es key (omega arith))
    ]

find_entry-front :
    (e : CliEntry) (es : List CliEntry) (key : Str)
    → find_entry (e ∷ es) key ≡ or_else (find_entry es key) (value_if e key)
unfolding find_entry
find_entry-front e es key = find_before-front (length es) e es key (omega arith)

-- What the loop finds.
pub data Found (es : List CliEntry) (key : Str) (out : Option Str) : Type 0 where
  unset : Unset es key → out ≡ none → Found es key out
  last : (v : Str) → Holds es key v → out ≡ some v → Found es key out

pub find_entry_lem : (es : List CliEntry) (key : Str) → Found es key (find_entry es key)
unfolding find_entry find_before
find_entry_lem [] key = unset tt refl
find_entry_lem (e ∷ es) key = elim (find_entry_lem es key) [
  | last v (holds xs f ys p k u w) o ↦
      last v (holds (e ∷ xs) f ys (ap (λ l. e ∷ l) p) k u w)
        (find_entry-front e es key ∙ rw (o) refl)
  | unset u o ↦ elim (Bool-cases (same_text e.key key)) [
    | inl t ↦
        last (or_empty e.value) (holds [] e es refl (same_text-eq e.key key t) u refl)
          (find_entry-front e es key ∙ rw (o, t) refl)
    | inr n ↦ unset (other e.key key n, u) (find_entry-front e es key ∙ rw (o, n) refl)
  ]
]

-- Where the value of an option comes from: the last option of its name on the command line, or
-- else the environment variable of the option, or else the last entry of its name that was
-- configured, or else the default.
pub data Resolved (getenv : Str → Option Str) (ctx : CliContext) (name : Str) (out : Option Str)
    : Type 0 where
  from_args : (v : Str) → Holds ctx.cli_args name v → out ≡ some v → Resolved getenv ctx name out
  from_env :
      (v : Str)
      → Unset ctx.cli_args name
      → env_value getenv (find_option ctx.options name) ≡ some v
      → out ≡ some v
      → Resolved getenv ctx name out
  from_config :
      (v : Str)
      → Unset ctx.cli_args name
      → env_value getenv (find_option ctx.options name) ≡ none
      → Holds ctx.config_vals name v
      → out ≡ some v
      → Resolved getenv ctx name out
  from_default :
      Unset ctx.cli_args name
      → env_value getenv (find_option ctx.options name) ≡ none
      → Unset ctx.config_vals name
      → out ≡ default_value (find_option ctx.options name)
      → Resolved getenv ctx name out

find_entry-Unset : (es : List CliEntry) (key : Str) → Unset es key → find_entry es key ≡ none
unfolding find_entry find_before
find_entry-Unset [] key u = refl
find_entry-Unset (e ∷ es) key (n, u) =
    find_entry-front e es key ∙ rw (find_entry-Unset es key u, differs e.key key n) refl

find_entry-last :
    (xs : List CliEntry) (e : CliEntry) (ys : List CliEntry)
    → Unset ys e.key
    → find_entry (xs ++ (e ∷ ys)) e.key ≡ some (or_empty e.value)
find_entry-last [] e ys u =
    find_entry-front e ys e.key ∙ rw (find_entry-Unset ys e.key u, same_text_refl e.key) refl
find_entry-last (x ∷ xs) e ys u =
    find_entry-front x (xs ++ (e ∷ ys)) e.key ∙ rw (find_entry-last xs e ys u) refl

Holds-find_entry : (es : List CliEntry) (key v : Str) → Holds es key v → find_entry es key ≡ some v
Holds-find_entry es key v (holds xs e ys p k u w) =
    let same : find_entry (xs ++ (e ∷ ys)) key ≡ some (or_empty e.value) =
      subst (λ n. find_entry (xs ++ (e ∷ ys)) n ≡ some (or_empty e.value)) k
        (find_entry-last xs e ys (subst (Unset ys) (sym k) u)) in
    rw (p, w) same

-- The value of the last option of its name on a command line of at most 64 options is
-- what cli_resolve gives after cli_parse, whatever the environment says.
pub resolve-parse :
    (getopt : GetOpt) (getenv : Str → Option Str) (argv : List Str) (options : List CliOption)
    (ctx : CliContext) (events : List (ℕ × Option Str)) (optind : ℕ) (argv' : List Str)
    (name v : Str)
    → length options ≤ max_opts
    → getopt argv (short_str options) (long_opts 0 options) ≡ (events, (optind, argv'))
    → length (given options events) ≤ max_opts
    → Holds (given options events) name v
    → resolve getenv (parse getopt (some argv) (some options) (some ctx)).1 (some name) ≡ some v
unfolding resolve
resolve-parse getopt getenv argv options ctx events optind argv' name v few e fit h =
    rw
      (
        parse_lem getopt argv options ctx events optind argv' few e,
        take_whole max_opts (given options events) fit,
        resolve,
        Holds-find_entry (given options events) name v h,
      )
      refl

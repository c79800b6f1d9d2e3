-- ===== src/Systems/Path.antt =====
-- include/systems/path.h and src/systems/path.c: paths as strings, which are the bytes before the
-- NUL. A result that the C code writes into `out` is the string it writes. stat(2) and mkdir(2) are
-- parameters, over a state W of the file system. path_normalize is not modelled.
pub mod Split
pub mod Join
mod Tests
use c_comprehensive_template.Prelude.{
  ℕ, zero, suc, ◌+◌, ◌-◌, ◌^◌, Bool, true, false, not, ◌&&◌, ◌||◌, Option, none, some, List, [],
  ◌∷◌, ◌++◌, length, get_or, take, drop, ltb, leb, ◌==◌, if◌then◌else◌,
}
use c_comprehensive_template.Core.Error.{ErrorCode, ok, io, invalid_arg, overflow}

abbrev pub Str : Type 0
Str = List ℕ

abbrev pub slash : ℕ
slash = 47

abbrev pub dot : ℕ
dot = 46

-- The index of the last c, as strrchr finds it.
unfoldable pub last_index : ℕ → Str → Option ℕ
last_index c [] = none
last_index c (b ∷ bs) = elim (last_index c bs) [
  | some i ↦ some (suc i)
  | none ↦ if b == c then some 0 else none
]

abbrev pub int_max : ℕ
int_max = 2 ^ 31 - 1

-- The test of the result n of snprintf: it is the number of bytes of the whole text, and negative for
-- a number that is no int.
unfoldable pub snprintf_ok : ℕ → ℕ → Bool
snprintf_ok n capacity = leb n int_max && ltb 0 n && ltb n capacity

unfoldable pub join : Option Str → Option Str → ℕ → ErrorCode × Option Str
join none b capacity = (invalid_arg, none)
join (some a) none capacity = (invalid_arg, none)
join (some a) (some b) capacity =
    if capacity == 0
    then (invalid_arg, none)
    else if get_or b 0 0 == slash || length a == 0
    then (if ltb capacity (length b + 1) then (overflow, none) else (ok, some b))
    else let need_sep = not (get_or a (length a - 1) 0 == slash) in
      let total = length a + (if need_sep then 1 else 0) + length b + 1 in
      if ltb capacity total
      then (overflow, none)
      else let printed = a ++ ((if need_sep then slash ∷ [] else []) ++ b) in
        if snprintf_ok (length printed) capacity then (ok, some printed) else (overflow, none)

unfoldable pub basename : Option Str → Str
basename none = []
basename (some path) = elim (last_index slash path) [ none ↦ path | some i ↦ drop (i + 1) path ]

unfoldable pub dirname : Option Str → ℕ → ErrorCode × Option Str
dirname none capacity = (invalid_arg, none)
dirname (some path) capacity =
    if capacity == 0 then (invalid_arg, none) else elim (last_index slash path) [
      | none ↦ if ltb capacity 2 then (overflow, none) else (ok, some (dot ∷ []))
      | some i ↦
          let n = if i == 0 then 1 else i in
          if ltb capacity (n + 1) then (overflow, none) else (ok, some (take n path))
    ]

unfoldable pub ext : Option Str → Str
ext path =
    let base = basename path in
    elim (last_index dot base) [ none ↦ [] | some i ↦ if i == 0 then [] else drop i base ]

-- What stat finds at a path.
pub data Stat : Type 0 where
  missing : Stat
  other_file : Stat
  directory : Stat

module _ {W : Type 0} (stat : W → Str → Stat) where
  unfoldable pub exists : W → Option Str → Bool
  exists w none = false
  exists w (some path) = elim (stat w path) [
    | missing ↦ false
    | other_file ↦ true
    | directory ↦ true
  ]

  unfoldable pub is_dir : W → Option Str → Bool
  is_dir w none = false
  is_dir w (some path) = elim (stat w path) [
    | missing ↦ false
    | other_file ↦ false
    | directory ↦ true
  ]

-- What mkdir answers.
pub data Made : Type 0 where
  made : Made
  exists_already : Made
  failed : Made

unfoldable pub mkdir_ok : Made → Bool
mkdir_ok made = true
mkdir_ok exists_already = true
mkdir_ok failed = false

module _ {W : Type 0} (stat : W → Str → Stat) (mkdir : W → Str → Made × W) where
  -- The loop of path_mkdirs: `done` is what p has passed, `rest` what lies ahead.
  unfoldable pub prefixes : Str → Str → W → Bool × W
  prefixes done [] w = (true, w)
  prefixes done (c ∷ rest) w =
      let (answer, w') = if c == slash then mkdir w done else (made, w) in
      let later = prefixes (done ++ c ∷ []) rest w' in
      if mkdir_ok answer then later else (false, w')

  unfoldable pub mkdirs : Option Str → W → ErrorCode × W
  mkdirs none w = (invalid_arg, w)
  mkdirs (some path) w =
      if length path == 0
      then (invalid_arg, w)
      else if ltb 1024 (length path + 1)
      then (overflow, w)
      else let (good, w') = prefixes (take 1 path) (drop 1 path) w in
        if not good
        then (io, w')
        else let (answer, w'') = mkdir w' path in
          if not (mkdir_ok answer)
          then (io, w'')
          else if is_dir stat w'' (some path)
          then (ok, w'')
          else (io, w'')

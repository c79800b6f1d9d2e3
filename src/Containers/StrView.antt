-- ===== src/Containers/StrView.antt =====
-- include/containers/str.h and src/containers/str.c: string views. A pointer into a text is the
-- bytes from there on; a C string is the bytes before its NUL. `isspace` and `strtol` are
-- parameters.
pub mod Compare
pub mod Split
mod Tests
use c_comprehensive_template.Prelude.{
  ℕ, zero, suc, ◌+◌, ◌-◌, Bool, true, false, not, ◌&&◌, ◌||◌, Option, none, some, List, [], ◌∷◌,
  ◌++◌, length, take, drop, get_or, ltb, leb, ◌==◌, if◌then◌else◌,
}
use c_comprehensive_template.Bytes.{Block, add_size, same_text, write_at, c_string}
use c_comprehensive_template.Core.Error.{ErrorCode, ok, invalid_arg, overflow}

pub record StrView : Type 0 where
  pub bytes : Option Block
  pub len : ℕ

-- The bytes at a pointer.
abbrev pub pointee : Option Block → Block
pointee none = []
pointee (some b) = b

-- p + n
abbrev pub advance : Option Block → ℕ → Option Block
advance none n = none
advance (some b) n = some (drop n b)

-- memcmp(a, b, n) == 0
abbrev pub same_bytes : Option Block → Option Block → ℕ → Bool
same_bytes a b n = same_text (take n (pointee a)) (take n (pointee b))

unfoldable pub sv_from : Option Block → StrView
sv_from none = record { bytes = none; len = 0 }
sv_from (some s) = record { bytes = some s; len = length s }

pub sv_from_n : Option Block → ℕ → StrView
sv_from_n none n = record { bytes = none; len = 0 }
sv_from_n (some s) n = record { bytes = some s; len = n }

abbrev pub clip : ℕ → ℕ → ℕ
clip n limit = if ltb limit n then limit else n

unfoldable pub slice : StrView → ℕ → ℕ → StrView
slice sv start end =
    let start' = clip start sv.len in
    let end' = clip end sv.len in
    let from = clip start' end' in record { bytes = advance sv.bytes from; len = end' - from }

unfoldable pub sv_eq : StrView → StrView → Bool
sv_eq a b = if a.len == b.len then a.len == 0 || same_bytes a.bytes b.bytes a.len else false

pub sv_eq_cstr : StrView → Option Block → Bool
sv_eq_cstr sv none = false
sv_eq_cstr sv (some s) = sv_eq sv (sv_from (some s))

unfoldable pub starts_with : StrView → Option Block → Bool
starts_with sv none = false
starts_with sv (some p) =
    let n = length p in leb n sv.len && (n == 0 || same_bytes sv.bytes (some p) n)

unfoldable pub ends_with : StrView → Option Block → Bool
ends_with sv none = false
ends_with sv (some p) =
    let n = length p in
    leb n sv.len && (n == 0 || same_bytes (advance sv.bytes (sv.len - n)) (some p) n)

module _ (isspace : ℕ → Bool) where
  -- The first loop of sv_trim, over the length left.
  unfoldable pub trim_front : Option Block → ℕ → StrView
  trim_front p zero = record { bytes = p; len = zero }
  trim_front p (suc n) =
      let rest = trim_front (advance p 1) n in
      if isspace (get_or (pointee p) 0 0) then rest else record { bytes = p; len = suc n }

  -- The second loop of sv_trim, which drops bytes at the end.
  unfoldable pub trim_back : Option Block → ℕ → ℕ
  trim_back p zero = zero
  trim_back p (suc n) =
      let rest = trim_back p n in if isspace (get_or (pointee p) n 0) then rest else suc n

  unfoldable pub trim : StrView → StrView
  trim sv =
      let front = trim_front sv.bytes sv.len in
      record front { len = trim_back front.bytes front.len }

-- memchr(p, c, n): how far from p it points, or NULL.
unfoldable pub memchr : Block → ℕ → ℕ → Option ℕ
memchr b c zero = none
memchr [] c (suc n) = none
memchr (x ∷ b) c (suc n) =
    let rest = memchr b c n in
    if x == c then some 0 else elim rest [ none ↦ none | some i ↦ some (suc i) ]

-- The token and the rest; `none` when the view is exhausted.
unfoldable pub split_next : StrView → ℕ → Option (StrView × StrView)
split_next rest delim = elim rest.bytes [
  | none ↦ none
  | some b ↦ elim (memchr b delim rest.len) [
    | none ↦ some (rest, record { bytes = none; len = 0 })
    | some i ↦ some (
      record { bytes = some b; len = i },
      record { bytes = some (drop (i + 1) b); len = rest.len - (i + 1) },
    )
  ]
]

-- What is in the buffer of `size` bytes afterwards.
unfoldable pub to_cstr : StrView → Option Block → ℕ → ErrorCode × Option Block
to_cstr sv none size = (invalid_arg, none)
to_cstr sv (some buf) size = elim sv.bytes [
  | none ↦
      if ltb 0 sv.len
      then (invalid_arg, some buf)
      else if ltb size (add_size sv.len 1)
      then (overflow, some buf)
      else (ok, some (write_at buf 0 (0 ∷ [])))
  | some b ↦
      if ltb size (add_size sv.len 1)
      then (overflow, some buf)
      else (ok, some (write_at (write_at buf 0 (take sv.len b)) sv.len (0 ∷ [])))
]

-- `strtol` gives the number, how far the parse went and whether errno is ERANGE; `junk` is what
-- the local buffer of 24 bytes held before, and `wants` whether `out` is not NULL.
module _ {L : Type 0} (strtol : Block → L × ℕ × Bool) (junk : Block) where
  pub converted : Block → ErrorCode × Option L
  converted s =
      let (v, end, range) = strtol s in
      if range
      then (overflow, none)
      else if end == 0 || not (end == length s)
      then (invalid_arg, none)
      else (ok, some v)

  pub parse_long : StrView → Bool → ErrorCode × Option L
  parse_long sv wants =
      if not wants
      then (invalid_arg, none)
      else if sv.len == 0
      then (invalid_arg, none)
      else if leb 24 sv.len
      then (overflow, none)
      else let (e, buf) = to_cstr sv (some junk) 24 in
        elim e [ ok ↦ converted (c_string (pointee buf)) | refused ↦ (refused, none) ]

-- ===== src/Containers/StrBuf.antt =====
-- include/containers/strbuf.h and src/containers/strbuf.c: a string builder. `malloc`, `realloc`
-- and what vsnprintf formats are parameters; a C string is the bytes before its NUL.
pub mod Ensure
pub mod Append
pub mod Text
mod Tests
use c_comprehensive_template.Prelude.{
  ℕ, zero, suc, ◌+◌, ◌-◌, ◌*◌, ◌/◌, Bool, true, false, not, ◌&&◌, Option, none, some, List, [], ◌∷◌,
  ◌++◌, length, take, ltb, leb, ◌==◌, if◌then◌else◌, size_max,
}
use c_comprehensive_template.Bytes.{Block, write_at}
use c_comprehensive_template.Core.Error.{ErrorCode, ok, nomem, invalid_arg, overflow}
use c_comprehensive_template.Memory.Allocator.{Realloc}

pub record StrBuf : Type 0 where
  pub bytes : Option Block
  pub len : ℕ
  pub capacity : ℕ

abbrev pub initial_cap : ℕ
initial_cap = 32

-- data[i] = '\0'
abbrev pub end_at : Block → ℕ → Block
end_at b i = write_at b i (0 ∷ [])

module _ (malloc : ℕ → Option Block) where
  unfoldable pub init : Option StrBuf → ErrorCode × Option StrBuf
  init none = (invalid_arg, none)
  init (some sb) = elim (malloc initial_cap) [
    | none ↦ (nomem, some (record sb { bytes = none }))
    | some b ↦ (ok, some (record { bytes = some (end_at b 0); len = 0; capacity = initial_cap }))
  ]

  -- The storage goes to the caller; a failed new start leaves the builder destroyed.
  unfoldable pub take_text : Option StrBuf → Option Block × Option StrBuf
  take_text none = (none, none)
  take_text (some sb) = elim sb.bytes [
    | none ↦ (none, some sb)
    | some b ↦ (some b, (init (some (record { bytes = none; len = 0; capacity = 0 }))).1)
  ]

pub destroy : Option StrBuf → Option StrBuf
destroy none = none
destroy (some sb) = some (record { bytes = none; len = 0; capacity = 0 })

-- How the doubling loop of `ensure` ends.
pub data Doubling : Type 0 where
  settled : (n : ℕ) → Doubling
  too_big : Doubling
  out_of_fuel : Doubling

-- while (new_cap < need), with the rounds left.
unfoldable pub double_until : ℕ → ℕ → ℕ → Doubling
double_until zero n need = out_of_fuel
double_until (suc rounds) n need =
    let rest = double_until rounds (n * 2) need in
    if ltb n need then (if ltb (size_max / 2) n then too_big else rest) else settled n

-- A capacity of at least 1 doubles at most 64 times.
abbrev pub max_rounds : ℕ
max_rounds = 65

abbrev pub behind : Option (ErrorCode × StrBuf) → Option (ErrorCode × Option StrBuf)
behind none = none
behind (some (e, sb)) = some (e, some sb)

-- memcpy(data + len, text, n); len += n; data[len] = '\0'
unfoldable pub put_text : StrBuf → Block → ℕ → StrBuf
put_text sb text n = record sb {
  bytes = elim sb.bytes [
    | none ↦ none
    | some b ↦ some (end_at (write_at b sb.len (take n text)) (sb.len + n))
  ];
  len = sb.len + n;
}

module _ (realloc : Realloc) where
  -- `none`: the loop ran out of rounds.
  unfoldable pub ensure : StrBuf → ℕ → Option (ErrorCode × StrBuf)
  ensure sb extra =
      if ltb (size_max - sb.len - 1) extra
      then some (overflow, sb)
      else if leb (sb.len + extra + 1) sb.capacity
      then some (ok, sb)
      else elim (double_until max_rounds sb.capacity (sb.len + extra + 1)) [
        | out_of_fuel ↦ none
        | too_big ↦ some (overflow, sb)
        | settled n ↦ elim (realloc sb.bytes n) [
          | none ↦ some (nomem, sb)
          | some b ↦ some (ok, record sb { bytes = some b; capacity = n })
        ]
      ]

  unfoldable pub append_bytes : StrBuf → Block → ℕ → Option (ErrorCode × StrBuf)
  append_bytes sb text n = elim (ensure sb n) [
    | none ↦ none
    | some (e, sb') ↦ elim e [ ok ↦ some (ok, put_text sb' text n) | refused ↦ some (refused, sb') ]
  ]

  unfoldable pub append_n : Option StrBuf → Option Block → ℕ → Option (ErrorCode × Option StrBuf)
  append_n none text n = some (invalid_arg, none)
  append_n (some sb) text n = elim sb.bytes [
    | none ↦ some (invalid_arg, some sb)
    | some b ↦ elim text [
      | none ↦ if ltb 0 n then some (invalid_arg, some sb) else behind (append_bytes sb [] n)
      | some t ↦ behind (append_bytes sb t n)
    ]
  ]

  pub append : Option StrBuf → Option Block → Option (ErrorCode × Option StrBuf)
  append sb none = some (invalid_arg, sb)
  append sb (some text) = append_n sb (some text) (length text)

  pub append_char : Option StrBuf → ℕ → Option (ErrorCode × Option StrBuf)
  append_char sb c = append_n sb (some (c ∷ [])) 1

  -- `formatted` is what vsnprintf would write, without the NUL; `none` if it reports an error.
  unfoldable pub appendf : StrBuf → Option Block → Option (ErrorCode × StrBuf)
  appendf sb formatted = elim sb.bytes [
    | none ↦ some (invalid_arg, sb)
    | some b ↦ elim formatted [
      | none ↦ some (invalid_arg, sb)
      | some out ↦ elim (ensure sb (length out)) [
        | none ↦ none
        | some (e, sb') ↦ elim e [
          | ok ↦ some (
            ok,
            record sb' {
              bytes = elim sb'.bytes [
                | none ↦ none
                | some m ↦ some (write_at m sb'.len (out ++ 0 ∷ []))
              ];
              len = sb'.len + length out;
            },
          )
          | refused ↦ some (refused, sb')
        ]
      ]
    ]
  ]

-- The bytes at the pointer returned.
unfoldable pub cstr : Option StrBuf → Block
cstr none = 0 ∷ []
cstr (some sb) = elim sb.bytes [ none ↦ 0 ∷ [] | some b ↦ b ]

unfoldable pub clear : Option StrBuf → Option StrBuf
clear none = none
clear (some sb) = elim sb.bytes [
  | none ↦ some sb
  | some b ↦ some (record sb { bytes = some (end_at b 0); len = 0 })
]

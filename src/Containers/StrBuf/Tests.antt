-- ===== src/Containers/StrBuf/Tests.antt =====
-- A builder of four bytes that holds one letter.
use c_comprehensive_template.Prelude.{◌≡◌, refl, Option, some, [], ◌∷◌, take, arith}
use c_comprehensive_template.Bytes.{Block}
use c_comprehensive_template.Memory.Sample.{small_realloc, small_realloc-IsRealloc}
use c_comprehensive_template.Core.Error.{ErrorCode, ok}
use c_comprehensive_template.Containers.StrBuf.{
  StrBuf, append_n, append_bytes, ensure, put_text, double_until, behind,
}
use c_comprehensive_template.Containers.StrBuf.Ensure.{IsValid}
use c_comprehensive_template.Containers.StrBuf.Append.{Appended, append_n_lem}

abbrev letter : StrBuf
letter = record { bytes = some (65 ∷ 0 ∷ 7 ∷ 7 ∷ []); len = 1; capacity = 4 }

letter-IsValid : IsValid letter
letter-IsValid = record {
  storage = refl;
  fits = refl;
  small = omega arith;
  room = omega arith;
  ended = refl;
}

abbrev word : Block
word = 66 ∷ 67 ∷ 68 ∷ []

append-letter :
    append_n small_realloc (some letter) (some word) 3
    ≡ some (
      ok,
      some
          (record { bytes = some (65 ∷ 66 ∷ 67 ∷ 68 ∷ 0 ∷ 0 ∷ 0 ∷ 0 ∷ []); len = 4; capacity = 8 }),
    )
unfolding append_n append_bytes ensure put_text double_until
append-letter = refl

append_n_example :
    (out : Option (ErrorCode × StrBuf)) × (append_n small_realloc (some letter) (some word) 2
      ≡ behind out)
    × Appended letter (take 2 word) out
append_n_example = append_n_lem small_realloc-IsRealloc letter-IsValid word 2 (omega arith)

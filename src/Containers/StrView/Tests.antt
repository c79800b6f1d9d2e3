-- ===== src/Containers/StrView/Tests.antt =====
-- Views into the text " a,b,".
use c_comprehensive_template.Prelude.{ℕ, ◌≡◌, refl, Bool, some, [], ◌∷◌, take, arith, ◌==◌}
use c_comprehensive_template.Bytes.{Block}
use c_comprehensive_template.Containers.StrView.{trim, split_next, memchr}
use c_comprehensive_template.Containers.StrView.Split.{tokens, Split, view, tokens_lem}
use c_comprehensive_template.Containers.StrView.Compare.{Trimmed, trim_lem}

abbrev line : Block
line = 32 ∷ 97 ∷ 44 ∷ 98 ∷ 44 ∷ []

abbrev is_blank : ℕ → Bool
is_blank c = c == 32

tokens-line : tokens 7 (view line 5) 44 ≡ some ((32 ∷ 97 ∷ []) ∷ (98 ∷ []) ∷ [] ∷ [])
unfolding tokens split_next memchr
tokens-line = refl

tokens_example : Split line 5 44 (tokens 7 (view line 5) 44)
tokens_example = tokens_lem 44 7 line 5 (omega arith) (omega arith)

trim_example : Trimmed is_blank (take 4 line) (trim is_blank (view line 4))
trim_example = trim_lem is_blank line 4 (omega arith)

-- ===== src/Ml/Dataset/Tests.antt =====
-- Features of three rows and labels of one column over the natural numbers.
use c_comprehensive_template.Prelude.{
  ℕ, ◌+◌, ◌-◌, ◌*◌, ◌≤◌, ◌<◌, ◌≡◌, ◌≢◌, ◌⊎◌, refl, Bool, true, Option, some, none, [], ◌∷◌, ltb,
  ◌==◌, if◌then◌else◌, arith,
}
use c_comprehensive_template.Core.Error.{ok, invalid_arg}
use c_comprehensive_template.Math.Rng.{Rng}
use c_comprehensive_template.Math.MatX.{
  FloatOps, Ptr, Memory, MatX, matx_get, row_argmax, count_up, write, clear,
}
use c_comprehensive_template.Ml.Dataset.{
  swap_rows, put, shuffle, batch, one_hot, mark_from, accuracy, correct_from, count_fields,
}
use c_comprehensive_template.Ml.Dataset.Shuffle.{Answer, shuffle_lem}
use c_comprehensive_template.Ml.Dataset.Batch.{Unfit, batch_lem}

abbrev counting : FloatOps ℕ
counting = record {
  zero_f = 0;
  add = λ a b. a + b;
  sub = λ a b. a - b;
  mul = λ a b. a * b;
  greater = λ a b. ltb b a;
}

abbrev features : MatX
features = record { buf = 1; rows = 3; cols = 2; owns_data = true }

abbrev classes_of_rows : MatX
classes_of_rows = record { buf = 2; rows = 3; cols = 1; owns_data = true }

abbrev table : MatX
table = record { buf = 3; rows = 3; cols = 2; owns_data = true }

abbrev pair : MatX
pair = record { buf = 4; rows = 2; cols = 2; owns_data = true }

abbrev contents : Memory ℕ
contents p =
    if p == 1
    then 10 ∷ 11 ∷ 20 ∷ 21 ∷ 30 ∷ 31 ∷ []
    else if p == 2
    then 0 ∷ 1 ∷ 1 ∷ []
    else if p == 3
    then 9 ∷ 9 ∷ 9 ∷ 9 ∷ 9 ∷ 9 ∷ []
    else 0 ∷ 0 ∷ 0 ∷ 0 ∷ []

abbrev yes_always : ℕ → Bool
yes_always n = true

abbrev seeded : Rng
seeded = record { state = 1; inc = 3 }

abbrev class_of : ℕ → ℕ → Option ℕ
class_of classes v = if ltb v classes then some v else none

swap_runs : swap_rows counting features 2 0 contents 1 ≡ 30 ∷ 31 ∷ 20 ∷ 21 ∷ 10 ∷ 11 ∷ []
unfolding swap_rows put
swap_runs = refl

one_hot_runs :
    (one_hot counting class_of 1 classes_of_rows 2 table contents).1 3 ≡ 1 ∷ 0 ∷ 0 ∷ 1 ∷ 0 ∷ 1 ∷ []
unfolding one_hot mark_from clear write
one_hot_runs = refl

accuracy_runs :
    accuracy counting (λ correct rows. correct * 100 + rows) features features contents
    ≡ (ok, some 303)
unfolding accuracy correct_from row_argmax count_up
accuracy_runs = refl

count_fields_runs : count_fields (b'1' ∷ b',' ∷ b'2' ∷ []) ≡ 2
unfolding count_fields
count_fields_runs = refl

shuffle_example :
    Answer counting 5 yes_always features
      (some classes_of_rows)
      seeded
      contents
      (shuffle counting 5 yes_always (some features) (some classes_of_rows) (some seeded) contents)
shuffle_example =
    shuffle_lem counting 5 yes_always features (some classes_of_rows) seeded contents (omega arith)
      (omega arith) (omega arith) (omega arith) refl (refl, omega arith, omega arith, refl)

batch_example :
    ((batch counting features 1 2 pair contents ≡ (invalid_arg, contents))
      × Unfit features 1 2 pair)
    ⊎ ((mem' : Memory ℕ) × (batch counting features 1 2 pair contents ≡ (ok, mem'))
        × (1 + 2 ≤ 3)
        × ((q : Ptr) → q ≢ 4 → mem' q ≡ contents q)
        × ((r c : ℕ)
            → r < 2
            → c < 2
            → matx_get counting mem' pair r c ≡ matx_get counting contents features (1 + r) c))
batch_example = batch_lem counting features pair 1 2 contents refl refl

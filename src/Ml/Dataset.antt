-- ===== src/Ml/Dataset.antt =====
-- include/ml/dataset.h and src/ml/dataset.c: shuffling, batches, one-hot rows and accuracy, on the
-- matrices of Math/MatX. What is asked of a label and the division of the accuracy are parameters,
-- as is whether malloc gives the buffer for a row. The reader of CSV files and the normalization
-- are not modelled.
pub mod Rows
pub mod Rearrange
pub mod Shuffle
pub mod Batch
mod Tests
use c_comprehensive_template.Prelude.{
  ℕ, zero, suc, ◌+◌, ◌-◌, ◌*◌, ◌/◌, ◌%◌, Bool, true, false, not, ◌&&◌, ◌||◌, Option, none, some,
  List, [], ◌∷◌, take, drop, ltb, ◌==◌, if◌then◌else◌, size_mod,
}
use c_comprehensive_template.Core.Error.{ErrorCode, ok, nomem, invalid_arg}
use c_comprehensive_template.Math.Rng.{Rng, range_u32, word}
use c_comprehensive_template.Math.MatX.{
  FloatOps, Ptr, Memory, MatX, matx_get, matx_set, clear, row_argmax, float_size,
}

-- memcpy out of a buffer, of n floats from off on.
abbrev pub copy_out {ℓ} : {F : Type ℓ} → List F → ℕ → ℕ → List F
copy_out mem off n = take n (drop off mem)

-- memcpy into a buffer at off.
abbrev pub copy_in {ℓ} : {F : Type ℓ} → List F → ℕ → List F → List F
copy_in [] off src = []
copy_in (m ∷ mem) zero [] = m ∷ mem
copy_in (m ∷ mem) zero (s ∷ src) = s ∷ copy_in mem zero src
copy_in (m ∷ mem) (suc off) src = m ∷ copy_in mem off src

module _ {F : Type 0} (ops : FloatOps F) where
  -- memcpy(p + off, src, ...)
  unfoldable pub put : Memory F → Ptr → ℕ → List F → Memory F
  put mem p off src q = if q == p then copy_in (mem p) off src else mem q

  -- Exchanges rows i and j by way of the buffer `tmp`, which the row fits in.
  unfoldable pub swap_rows : MatX → ℕ → ℕ → Memory F → Memory F
  swap_rows m i j mem =
      let tmp = copy_out (mem m.buf) (i * m.cols) m.cols in
      let mem' = put mem m.buf (i * m.cols) (copy_out (mem m.buf) (j * m.cols) m.cols) in
      put mem' m.buf (j * m.cols) tmp

  -- The exchange in x and in the labels, with `room` floats in tmp: none if memcpy writes a row past the
  -- end of tmp.
  unfoldable pub swap_both : ℕ → MatX → Option MatX → ℕ → ℕ → Memory F → Option (Memory F)
  swap_both room x none i j mem = if ltb room x.cols then none else some (swap_rows x i j mem)
  swap_both room x (some y) i j mem =
      if ltb room x.cols || ltb room y.cols
      then none
      else some (swap_rows y i j (swap_rows x i j mem))

  -- The loop from i down to 1; none also if rng_range_u32 goes on beyond the draws it has.
  unfoldable pub shuffle_from :
      ℕ → ℕ → MatX → Option MatX → ℕ → Memory F → Rng → Option (Memory F × Rng)
  shuffle_from tries room x y zero mem rng = some (mem, rng)
  shuffle_from tries room x y (suc k) mem rng =
      let rest = shuffle_from tries room x y k in
      elim (range_u32 tries rng ((suc k + 1) % word)) [
        | none ↦ none
        | some (j, rng') ↦
            if j == suc k then rest mem rng' else elim (swap_both room x y (suc k) j mem) [
              | none ↦ none
              | some mem' ↦ rest mem' rng'
            ]
      ]

  abbrev pub max_cols : MatX → Option MatX → ℕ
  max_cols x none = x.cols
  max_cols x (some y) = if ltb x.cols y.cols then y.cols else x.cols

  abbrev pub fits_labels : MatX → Option MatX → Bool
  fits_labels x none = true
  fits_labels x (some y) = not (y.buf == 0 || not (y.rows == x.rows))

  unfoldable pub shuffle :
      ℕ
      → (ℕ → Bool)
      → Option MatX
      → Option MatX
      → Option Rng
      → Memory F
      → Option (ErrorCode × Memory F × Option Rng)
  shuffle tries malloc none y rng mem = some (invalid_arg, mem, rng)
  shuffle tries malloc (some x) y none mem = some (invalid_arg, mem, none)
  shuffle tries malloc (some x) y (some rng) mem =
      if x.buf == 0
      then some (invalid_arg, mem, some rng)
      else if not (fits_labels x y)
      then some (invalid_arg, mem, some rng)
      else if not (malloc (max_cols x y * float_size % size_mod))
      then some (nomem, mem, some rng)
      else let room = (max_cols x y * float_size % size_mod) / float_size in
        elim (shuffle_from tries room x y ((x.rows + (size_mod - 1)) % size_mod) mem rng) [
          | none ↦ none
          | some (mem', rng') ↦ some (ok, mem', some rng')
        ]

  -- The pointers are not NULL here and in the next two.
  unfoldable pub batch : MatX → ℕ → ℕ → MatX → Memory F → ErrorCode × Memory F
  batch src start count dst mem =
      if src.buf == 0 || dst.buf == 0 || count == 0
      then (invalid_arg, mem)
      else if ltb src.rows count || ltb (src.rows - count) start
      then (invalid_arg, mem)
      else if not (dst.rows == count) || not (dst.cols == src.cols)
      then (invalid_arg, mem)
      else (ok, put mem dst.buf 0 (copy_out (mem src.buf) (start * src.cols) (count * src.cols)))

  -- The loop of dataset_one_hot over the rows from r on; `class_of` gives (size_t)v unless v is below 0
  -- or not below the number of classes.
  unfoldable pub mark_from :
      (F → Option ℕ) → F → MatX → MatX → ℕ → ℕ → Memory F → ErrorCode × Memory F
  mark_from class_of one labels out zero r mem = (ok, mem)
  mark_from class_of one labels out (suc left) r mem =
      let rest = mark_from class_of one labels out left (r + 1) in
      elim (class_of (matx_get ops mem labels r 0)) [
        | none ↦ (invalid_arg, mem)
        | some c ↦ rest (matx_set ops mem out r c one)
      ]

  unfoldable pub one_hot :
      (ℕ → F → Option ℕ) → F → MatX → ℕ → MatX → Memory F → ErrorCode × Memory F
  one_hot class_of one labels classes out mem =
      if labels.buf == 0 || not (labels.cols == 1) || classes == 0
      then (invalid_arg, mem)
      else if out.buf == 0 || not (out.rows == labels.rows) || not (out.cols == classes)
      then (invalid_arg, mem)
      else mark_from (class_of classes) one labels out labels.rows 0
          (clear ops mem out.buf (out.rows * out.cols))

  -- How many rows from r on have the same argmax, with an error of matx_row_argmax.
  unfoldable pub correct_from : MatX → MatX → ℕ → ℕ → ℕ → Memory F → ErrorCode × ℕ
  correct_from pred target zero r correct mem = (ok, correct)
  correct_from pred target (suc left) r correct mem =
      let rest = correct_from pred target left (r + 1) in
      let (e, p) = row_argmax ops pred r mem in
      let (e', t) = row_argmax ops target r mem in
      elim p [
        | none ↦ (e, correct)
        | some p' ↦ elim t [
          | none ↦ (e', correct)
          | some t' ↦ rest (if p' == t' then correct + 1 else correct) mem
        ]
      ]

  unfoldable pub accuracy : (ℕ → ℕ → F) → MatX → MatX → Memory F → ErrorCode × Option F
  accuracy ratio pred target mem =
      if pred.buf == 0 || target.buf == 0
      then (invalid_arg, none)
      else if not (pred.rows == target.rows) || not (pred.cols == target.cols)
      then (invalid_arg, none)
      else if pred.rows == 0
      then (invalid_arg, none)
      else let (e, correct) = correct_from pred target pred.rows 0 0 mem in
        elim e [ ok ↦ (ok, some (ratio correct pred.rows)) | other ↦ (other, none) ]

-- count_fields: one more than there are commas.
unfoldable pub count_fields : List ℕ → ℕ
count_fields [] = 1
count_fields (b ∷ line) = let rest = count_fields line in if b == b',' then rest + 1 else rest

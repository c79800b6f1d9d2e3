-- ===== src/Ml/Dataset/Batch.antt =====
-- dataset_batch of src/ml/dataset.c copies the rows that were asked for.
use native.Mathlib.Nat.{mul-le-mul_right, add-mul}
use c_comprehensive_template.Prelude.{
  ℕ, ◌+◌, ◌-◌, ◌*◌, ◌≤◌, ◌<◌, ◌≡◌, ◌≢◌, ap, ◌∙◌, not, ◌||◌, List, length, get_or, arith, ◌==◌, ltb,
  Bool-cases, inl, inr, ◌⊎◌,
}
use c_comprehensive_template.Core.Error.{ok, invalid_arg}
use c_comprehensive_template.Math.MatX.{FloatOps, Ptr, Memory, MatX, matx_get}
use c_comprehensive_template.Math.MatX.Tile.{row_end}
use c_comprehensive_template.Ml.Dataset.{batch, put, copy_out, copy_in}
use c_comprehensive_template.Ml.Dataset.Rows.{
  put_self, put_other, get-copy_in, get-copy_out, length-copy_out,
}

-- Why dataset_batch refuses.
abbrev pub Unfit : MatX → ℕ → ℕ → MatX → Type 0
Unfit src start count dst =
    (src.buf ≡ 0)
    ⊎ (dst.buf ≡ 0)
    ⊎ (count ≡ 0)
    ⊎ (src.rows < start + count)
    ⊎ (dst.rows ≢ count)
    ⊎ (dst.cols ≢ src.cols)

module _ {F : Type 0} (ops : FloatOps F) where
  copied :
      (src dst : MatX) (start count : ℕ) (mem : Memory F)
      → length (mem src.buf) ≡ src.rows * src.cols
      → length (mem dst.buf) ≡ dst.rows * dst.cols
      → start + count ≤ src.rows
      → dst.rows ≡ count
      → dst.cols ≡ src.cols
      → (r c : ℕ) → r < count
      → c < src.cols
      → matx_get ops
          (put ops mem dst.buf 0 (copy_out (mem src.buf) (start * src.cols) (count * src.cols)))
          dst
          r
          c
        ≡ matx_get ops mem src (start + r) c
  copied src dst start count mem size room inside same_rows same_cols r c low left =
      let n : ℕ = count * src.cols in
      let part : List F = copy_out (mem src.buf) (start * src.cols) n in
      let all : (start + count) * src.cols ≤ src.rows * src.cols =
        mul-le-mul_right src.cols inside in
      let part_size : length part ≡ n =
        length-copy_out (mem src.buf) (start * src.cols) n
          (omega (arith, size, all, add-mul start count src.cols)) in
      let index : r * dst.cols + c ≡ 0 + (r * src.cols + c) =
        omega (arith, ap (λ k. r * k) same_cols) in
      let fits : 0 + length part ≤ length (mem dst.buf) =
        omega (
          arith,
          part_size,
          room,
          ap (λ k. k * dst.cols) same_rows,
          ap (λ k. count * k) same_cols,
        ) in
      let there : r * src.cols + c < n = omega (arith, row_end r count src.cols low, left) in
      let place : start * src.cols + (r * src.cols + c) ≡ (start + r) * src.cols + c =
        omega (arith, add-mul start r src.cols) in
      ap (λ l. get_or l (r * dst.cols + c) ops.zero_f) (put_self ops mem dst.buf 0 part)
      ∙ ap (λ i. get_or (copy_in (mem dst.buf) 0 part) i ops.zero_f) index
      ∙ get-copy_in (mem dst.buf) 0 part (r * src.cols + c) ops.zero_f
          (omega (arith, part_size, there)) fits
      ∙ get-copy_out (mem src.buf) (start * src.cols) n (r * src.cols + c) ops.zero_f there
      ∙ ap (λ i. get_or (mem src.buf) i ops.zero_f) place

  -- Between buffers that have their matrices' sizes, dataset_batch accepts a count that is
  -- not 0 and rows from start on that the source has, for a result of as many rows and of as many columns; row r
  -- of the result is then row start + r of the source, and no other buffer changes; and
  -- otherwise it reports ERR_INVALID_ARG and changes nothing.
  pub batch_lem :
      (src dst : MatX) (start count : ℕ) (mem : Memory F)
      → length (mem src.buf) ≡ src.rows * src.cols
      → length (mem dst.buf) ≡ dst.rows * dst.cols
      → ((batch ops src start count dst mem ≡ (invalid_arg, mem)) × Unfit src start count dst)
        ⊎ ((mem' : Memory F) × (batch ops src start count dst mem ≡ (ok, mem'))
            × (start + count ≤ src.rows)
            × ((q : Ptr) → q ≢ dst.buf → mem' q ≡ mem q)
            × ((r c : ℕ)
                → r < count
                → c < src.cols
                → matx_get ops mem' dst r c ≡ matx_get ops mem src (start + r) c))
  unfolding batch
  batch_lem src dst start count mem size room =
      elim (Bool-cases (src.buf == 0 || dst.buf == 0 || count == 0)) [
        | inl t ↦ inl (simp (batch, t), ground (arith, t))
        | inr f ↦ elim (Bool-cases (ltb src.rows count || ltb (src.rows - count) start)) [
          | inl t ↦ inl (simp (batch, f, t), ground (arith, f, t))
          | inr g ↦ elim (Bool-cases (not (dst.rows == count) || not (dst.cols == src.cols))) [
            | inl t ↦ inl (simp (batch, f, g, t), ground (arith, t))
            | inr h ↦
                let inside : start + count ≤ src.rows = ground arith in
                let same_rows : dst.rows ≡ count = ground arith in
                let same_cols : dst.cols ≡ src.cols = ground arith in
                inr (
                  put ops mem dst.buf 0
                      (copy_out (mem src.buf) (start * src.cols) (count * src.cols)),
                  simp (batch, f, g, h),
                  inside,
                  put_other ops mem dst.buf 0
                      (copy_out (mem src.buf) (start * src.cols) (count * src.cols)),
                  copied src dst start count mem size room inside same_rows same_cols,
                )
          ]
        ]
      ]

-- ===== src/Math/MatX/Tile.antt =====
-- The inner loops of the matrix products: how far each element of the result has come. An element
-- is a sum over k in ascending order; the theorems need no law of the floats' arithmetic.
use native.Mathlib.Nat.{mul-le-mul_right}
use c_comprehensive_template.Prelude.{
  ℕ, zero, suc, ◌+◌, ◌*◌, ◌≤◌, ◌<◌, ◌≡◌, ◌≢◌, ◌⊎◌, inl, inr, ap, ap₂, sym, subst, ◌∙◌, length,
  get_or, dec_lt, ℕ_discrete, arith,
}
use c_comprehensive_template.Math.MatX.{
  FloatOps, Ptr, Memory, MatX, read, write, matx_get, accumulate,
}
use c_comprehensive_template.Math.MatX.Loops.{
  read-write_self, read-write_ne, length-write, write_other,
}

pub row_end : (i i' c : ℕ) → i < i' → i * c + c ≤ i' * c
row_end i i' c h =
    let e : (i + 1) * c ≤ i' * c = mul-le-mul_right c (omega arith) in omega (arith, e)

-- Two indices of a matrix are one only if row and column are.
pub apart_lem : (i i' j j' c : ℕ) → j < c → j' < c → (i ≢ i') ⊎ (j ≢ j') → i * c + j ≢ i' * c + j'
apart_lem i i' j j' c h h' d e = elim (dec_lt i i') [
  | yes low ↦ absurd (omega (arith, row_end i i' c low, h, h', e))
  | no h1 ↦ elim (dec_lt i' i) [
    | yes high ↦ absurd (omega (arith, row_end i' i c high, h, h', e))
    | no h2 ↦
        let same : i ≡ i' = omega (arith, h1, h2) in
        elim d [
          | inl rows ↦ rows same
          | inr columns ↦ columns (omega (arith, ap (λ r. r * c) same, e))
        ]
  ]
]

module _ {F : Type 0} (ops : FloatOps F) (a b out : MatX) (start : Memory F) where
  -- The first k products of row i of a and column j of b, summed in order.
  unfoldable pub dot : ℕ → ℕ → ℕ → F
  dot i j zero = ops.zero_f
  dot i j (suc k) =
      ops.add (dot i j k) (ops.mul (matx_get ops start a i k) (matx_get ops start b k j))

  -- Element (i, j) of the result has `done i j` of its products, and no other buffer has changed.
  abbrev pub Sums : (ℕ → ℕ → ℕ) → Memory F → Type 0
  Sums done s =
      (length (s out.buf) ≡ out.rows * out.cols)
      × ((q : Ptr) → q ≢ out.buf → s q ≡ start q)
      × ((i j : ℕ)
          → i < out.rows
          → j < out.cols
          → read ops s out.buf (i * out.cols + j) ≡ dot i j (done i j))

  pub accumulate-Sums :
      (done done' : ℕ → ℕ → ℕ) (i j k : ℕ) (aik : F) (s : Memory F)
      → b.cols ≡ out.cols
      → b.buf ≢ out.buf
      → i < out.rows
      → j < out.cols
      → aik ≡ matx_get ops start a i k
      → done i j ≡ k
      → done' i j ≡ suc k
      → ((i' j' : ℕ) → (i ≢ i') ⊎ (j ≢ j') → done' i' j' ≡ done i' j')
      → Sums done s
      → Sums done' (accumulate ops b out i k aik j s)
  unfolding accumulate dot
  accumulate-Sums done done' i j k aik s width apart low left value had has rest
        (size, others, sums) =
      let index = i * out.cols + j in
      let bkj = read ops s b.buf (k * b.cols + j) in
      let v = ops.add (read ops s out.buf index) (ops.mul aik bkj) in
      let bkj_was : bkj ≡ matx_get ops start b k j =
        ap (λ block. get_or block (k * b.cols + j) ops.zero_f) (others b.buf apart) in
      let v_is : v ≡ dot i j (suc k) =
        ap₂ ops.add (sums i j low left ∙ ap (dot i j) had) (ap₂ ops.mul value bkj_was) in
      let room = row_end i out.rows out.cols low in
      (
        length-write ops s out.buf out.buf index v ∙ size,
        λ q h. write_other ops s out.buf q index v h ∙ others q h,
        λ i' j' low' left'. elim (ℕ_discrete i i') [
          | no h ↦
              untouched i' j' left' (inl h)
              ∙ sums i' j' low' left'
              ∙ ap (dot i' j') (sym (rest i' j' (inl h)))
          | yes ei ↦ elim (ℕ_discrete j j') [
            | no h ↦
                untouched i' j' left' (inr h)
                ∙ sums i' j' low' left'
                ∙ ap (dot i' j') (sym (rest i' j' (inr h)))
            | yes ej ↦
                subst
                  (λ n.
                    read ops (write ops s out.buf index v) out.buf (n * out.cols + j')
                    ≡ dot n j' (done' n j'))
                  ei
                  (subst
                    (λ n.
                      read ops (write ops s out.buf index v) out.buf (i * out.cols + n)
                      ≡ dot i n (done' i n))
                    ej
                    (read-write_self ops s out.buf index v (omega (arith, size, room, left))
                      ∙ v_is
                      ∙ ap (dot i j) (sym has)))
          ]
        ],
      )
    where
      untouched :
          (i' j' : ℕ)
          → j' < out.cols
          → (i ≢ i') ⊎ (j ≢ j')
          → read ops
              (write ops s out.buf (i * out.cols + j) (
                ops.add
                  (read ops s out.buf (i * out.cols + j))
                  (ops.mul aik (read ops s b.buf (k * b.cols + j)))))
              out.buf
              (i' * out.cols + j')
            ≡ read ops s out.buf (i' * out.cols + j')
      untouched i' j' left' d =
          read-write_ne ops s out.buf out.buf (i * out.cols + j) (i' * out.cols + j')
            (ops.add (read ops s out.buf (i * out.cols + j))
              (ops.mul aik (read ops s b.buf (k * b.cols + j))))
            (inr (apart_lem i i' j j' out.cols left left' d))

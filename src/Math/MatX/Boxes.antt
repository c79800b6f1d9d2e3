-- ===== src/Math/MatX/Boxes.antt =====
-- The inner loops, from the innermost out: each takes a box of the result's elements further.
use c_comprehensive_template.Prelude.{
  ℕ, suc, ◌+◌, ◌-◌, ◌*◌, ◌≤◌, ◌<◌, ◌≡◌, ◌≢◌, ◌⊎◌, inl, inr, ap, sym, subst, ◌∙◌, ◌&&◌, get_or, ltb,
  leb, if◌then◌else◌, arith,
}
use c_comprehensive_template.Math.MatX.{
  FloatOps, Memory, MatX, count_up, matx_get, accumulate, tile,
}
use c_comprehensive_template.Math.MatX.Loops.{range_rule}
use c_comprehensive_template.Math.MatX.Tile.{dot, Sums, accumulate-Sums}

-- Rows i to i_end - 1 and columns j to j_end - 1 have v products, the others as many as before.
unfoldable pub box : (ℕ → ℕ → ℕ) → ℕ → ℕ → ℕ → ℕ → ℕ → ℕ → ℕ → ℕ
box done i i_end j j_end v i' j' =
    if leb i i' && ltb i' i_end && (leb j j' && ltb j' j_end) then v else done i' j'

box_before : (done : ℕ → ℕ → ℕ) (i j n v : ℕ) → box done i (i + 1) j n v i n ≡ done i n
unfolding box
box_before done i j n v = ground arith

box_after : (done : ℕ → ℕ → ℕ) (i j n v : ℕ) → j ≤ n → box done i (i + 1) j (n + 1) v i n ≡ v
unfolding box
box_after done i j n v h = ground arith

box_step :
    (done : ℕ → ℕ → ℕ) (i j n v i' j' : ℕ)
    → (i ≢ i') ⊎ (n ≢ j')
    → box done i (i + 1) j (n + 1) v i' j' ≡ box done i (i + 1) j n v i' j'
unfolding box
box_step done i j n v i' j' (inl h) = ground (arith, h)
box_step done i j n v i' j' (inr h) = ground (arith, h)

-- A box without columns, or without rows.
pub box_thin :
    (done : ℕ → ℕ → ℕ) (i i_end j v i' j' : ℕ) → box done i i_end j j v i' j' ≡ done i' j'
unfolding box
box_thin done i i_end j v i' j' = ground arith

pub box_flat :
    (done : ℕ → ℕ → ℕ) (i j j_end v i' j' : ℕ) → box done i i j j_end v i' j' ≡ done i' j'
unfolding box
box_flat done i j j_end v i' j' = ground arith

pub box_inside :
    (done : ℕ → ℕ → ℕ) (i i_end j j_end v i' j' : ℕ)
    → i ≤ i'
    → i' < i_end
    → j ≤ j'
    → j' < j_end
    → box done i i_end j j_end v i' j' ≡ v
unfolding box
box_inside done i i_end j j_end v i' j' h1 h2 h3 h4 = ground arith

pub box_over :
    (done : ℕ → ℕ → ℕ) (i i_end j j_end u v i' j' : ℕ)
    → box (box done i i_end j j_end u) i i_end j j_end v i' j' ≡ box done i i_end j j_end v i' j'
unfolding box
box_over done i i_end j j_end u v i' j' = ground arith

pub box_below :
    (done : ℕ → ℕ → ℕ) (i i_end j j_end v j' : ℕ)
    → box done i i_end j j_end v i_end j' ≡ done i_end j'
unfolding box
box_below done i i_end j j_end v j' = ground arith

-- Boxes that meet at a row, and at a column.
pub box_rows :
    (done : ℕ → ℕ → ℕ) (i m n j j_end v i' j' : ℕ)
    → i ≤ m
    → m ≤ n
    → box (box done i m j j_end v) m n j j_end v i' j' ≡ box done i n j j_end v i' j'
unfolding box
box_rows done i m n j j_end v i' j' h1 h2 = ground arith

pub box_columns :
    (done : ℕ → ℕ → ℕ) (i i_end j m n v i' j' : ℕ)
    → j ≤ m
    → m ≤ n
    → box (box done i i_end j m v) i i_end m n v i' j' ≡ box done i i_end j n v i' j'
unfolding box
box_columns done i i_end j m n v i' j' h1 h2 = ground arith

pub box_right :
    (done : ℕ → ℕ → ℕ) (i i_end j m v i' j' : ℕ)
    → m ≤ j'
    → box done i i_end j m v i' j' ≡ done i' j'
unfolding box
box_right done i i_end j m v i' j' h = ground arith

pub box_lower :
    (done : ℕ → ℕ → ℕ) (i j j_end v i' j' : ℕ) → i ≤ i' → box done 0 i j j_end v i' j' ≡ done i' j'
unfolding box
box_lower done i j j_end v i' j' h = ground arith

-- A box whose elements have as many already.
pub box_same :
    (done : ℕ → ℕ → ℕ) (i i_end j j_end v i' j' : ℕ)
    → (i ≤ i' → i' < i_end → j ≤ j' → j' < j_end → done i' j' ≡ v)
    → box done i i_end j j_end v i' j' ≡ done i' j'
unfolding box
box_same done i i_end j j_end v i' j' h = grind arith

module _ {F : Type 0} (ops : FloatOps F) (a b out : MatX) (start : Memory F) where
  pub Sums-ext :
      (done done' : ℕ → ℕ → ℕ) (s : Memory F)
      → ((i j : ℕ) → i < out.rows → j < out.cols → done' i j ≡ done i j)
      → Sums ops a b out start done s
      → Sums ops a b out start done' s
  Sums-ext done done' s same (size, others, sums) = (
    size,
    others,
    λ i j low left. sums i j low left ∙ ap (dot ops a b out start i j) (sym (same i j low left)),
  )

  abbrev pub Shapes : Type 0
  Shapes = (b.cols ≡ out.cols) × (b.buf ≢ out.buf) × (a.buf ≢ out.buf)

  row-Sums :
      (done : ℕ → ℕ → ℕ) (i k j j_end : ℕ) (aik : F) (s : Memory F)
      → Shapes
      → i < out.rows
      → j ≤ j_end
      → j_end ≤ out.cols
      → aik ≡ matx_get ops start a i k
      → ((j' : ℕ) → j ≤ j' → j' < j_end → done i j' ≡ k)
      → Sums ops a b out start done s
      → Sums ops a b out start
          (box done i (i + 1) j j_end (suc k))
          (count_up (j_end - j) j (accumulate ops b out i k aik) s)
  row-Sums done i k j j_end aik s (width, apart, _) low order left value had sums =
      let e : j + (j_end - j) ≡ j_end = omega (arith, order) in
      subst
        (λ n.
          Sums ops a b out start (box done i (i + 1) j n (suc k))
            (count_up (j_end - j) j (accumulate ops b out i k aik) s))
        e
        (range_rule (λ n. Sums ops a b out start (box done i (i + 1) j n (suc k)))
          (accumulate ops b out i k aik) (j_end - j) j
          (λ n t after before.
            accumulate-Sums ops a b out start (box done i (i + 1) j n (suc k))
              (box done i (i + 1) j (n + 1) (suc k)) i n k aik t width apart low
              (omega (arith, before, left, order)) value
              (box_before done i j n (suc k) ∙ had n after (omega (arith, before, order)))
              (box_after done i j n (suc k) after) (box_step done i j n (suc k)))
          s
          (Sums-ext done (box done i (i + 1) j j (suc k)) s
            (λ i' j' _ _. box_thin done i (i + 1) j (suc k) i' j') sums))

  columns-Sums :
      (done : ℕ → ℕ → ℕ) (i k k_end j j_end : ℕ) (s : Memory F)
      → Shapes
      → i < out.rows
      → k ≤ k_end
      → j ≤ j_end
      → j_end ≤ out.cols
      → ((j' : ℕ) → j ≤ j' → j' < j_end → done i j' ≡ k)
      → Sums ops a b out start done s
      → Sums ops a b out start (box done i (i + 1) j j_end k_end) (
          count_up
            (k_end - k)
            k
            (λ k' t. count_up (j_end - j) j (accumulate ops b out i k' (matx_get ops t a i k')) t)
            s)
  columns-Sums done i k k_end j j_end s shapes low up order left had sums =
      let body = λ (k' : ℕ) (t : Memory F).
        count_up (j_end - j) j (accumulate ops b out i k' (matx_get ops t a i k')) t in
      let e : k + (k_end - k) ≡ k_end = omega (arith, up) in
      subst
        (λ n. Sums ops a b out start (box done i (i + 1) j j_end n) (count_up (k_end - k) k body s))
        e
        (range_rule (λ n. Sums ops a b out start (box done i (i + 1) j j_end n)) body (k_end - k) k
          (λ n t after before sums'.
            let now = box done i (i + 1) j j_end n in
            let value : matx_get ops t a i n ≡ matx_get ops start a i n =
              ap (λ block. get_or block (i * a.cols + n) ops.zero_f) (sums'.1 a.buf shapes.2) in
            Sums-ext (box now i (i + 1) j j_end (suc n)) (box done i (i + 1) j j_end (n + 1))
              (body n t)
              (λ i' j' _ _.
                let e' : n + 1 ≡ suc n = omega arith in
                rw e' (sym (box_over done i (i + 1) j j_end n (suc n) i' j')))
              (row-Sums now i n j j_end (matx_get ops t a i n) t shapes low order left value
                (λ j' h h'.
                  box_inside done i (i + 1) j j_end n i j' (omega arith) (omega arith) h h')
                sums'))
          s
          (Sums-ext done (box done i (i + 1) j j_end k) s
            (λ i' j' _ _. box_same done i (i + 1) j j_end k i' j' (λ h1 h2 h3 h4.
              let e' : i ≡ i' = omega (arith, h1, h2) in
              subst (λ r. done r j' ≡ k) e' (had j' h3 h4)))
            sums))

  pub tile-Sums :
      (done : ℕ → ℕ → ℕ) (i i_end k k_end j j_end : ℕ) (s : Memory F)
      → Shapes
      → i ≤ i_end
      → i_end ≤ out.rows
      → k ≤ k_end
      → j ≤ j_end
      → j_end ≤ out.cols
      → ((i' j' : ℕ) → i ≤ i' → i' < i_end → j ≤ j' → j' < j_end → done i' j' ≡ k)
      → Sums ops a b out start done s
      → Sums ops a b out start
          (box done i i_end j j_end k_end)
          (tile ops a b out i i_end k k_end j j_end s)
  unfolding tile
  tile-Sums done i i_end k k_end j j_end s shapes rows low up order left had sums =
      let body = λ (i' : ℕ).
        count_up {S = Memory F} (k_end - k) k (λ k' t.
          count_up (j_end - j) j (accumulate ops b out i' k' (matx_get ops t a i' k')) t) in
      let e : i + (i_end - i) ≡ i_end = omega (arith, rows) in
      subst
        (λ n. Sums ops a b out start (box done i n j j_end k_end) (count_up (i_end - i) i body s)) e
        (range_rule (λ n. Sums ops a b out start (box done i n j j_end k_end)) body (i_end - i) i
          (λ n t after before sums'.
            let now = box done i n j j_end k_end in
            Sums-ext (box now n (n + 1) j j_end k_end) (box done i (n + 1) j j_end k_end) (body n t)
              (λ i' j' _ _. sym (box_rows done i n (n + 1) j j_end k_end i' j' after (omega arith)))
              (columns-Sums now n k k_end j j_end t shapes (omega (arith, before, low, rows)) up
                order left
                (λ j' h h'.
                  box_below done i n j j_end k_end j'
                  ∙ had n j' after (omega (arith, before, rows)) h h')
                sums'))
          s
          (Sums-ext done (box done i i j j_end k_end) s
            (λ i' j' _ _. box_flat done i j j_end k_end i' j') sums))

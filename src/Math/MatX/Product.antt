-- ===== src/Math/MatX/Product.antt =====
-- matx_mul and matx_mul_blocked.
use c_comprehensive_template.Prelude.{
  ℕ, ◌+◌, ◌*◌, ◌≤◌, ◌<◌, ◌≡◌, refl, ap, sym, ◌∙◌, true, get_or, length, length-replicate,
  get_or-replicate, ◌==◌, if◌then◌else◌, size_mod, arith,
}
use c_comprehensive_template.Math.MatX.{
  FloatOps, Memory, MatX, default_block, for_tiles, read, clear, check_mul, tile, matx_mul,
  mul_blocked,
}
use c_comprehensive_template.Math.MatX.Loops.{tiles_all, clear_other, clear_self}
use c_comprehensive_template.Math.MatX.Tile.{dot, Sums}
use c_comprehensive_template.Math.MatX.Boxes.{
  box, box_inside, box_over, box_columns, box_rows, box_right, box_same, box_flat, box_thin,
  box_lower, Sums-ext, Shapes, tile-Sums,
}

module _ {F : Type 0} (ops : FloatOps F) (a b out : MatX) (mem : Memory F) where
  -- What check_mul makes sure of.
  check_mul_lem :
      check_mul ops a b out ≡ true
      → Shapes ops a b out mem × (out.rows ≡ a.rows) × (out.cols ≡ b.cols)
  unfolding check_mul
  check_mul_lem h = (
    (ground (arith, h), ground (arith, h), ground (arith, h)),
    ground (arith, h),
    ground (arith, h),
  )

  cleared-Sums : Sums ops a b out mem (λ i j. 0) (clear ops mem out.buf (out.rows * out.cols))
  unfolding dot
  cleared-Sums = (
    ap length (clear_self ops mem out.buf (out.rows * out.cols))
        ∙ length-replicate (out.rows * out.cols) ops.zero_f,
    λ q h. clear_other ops mem out.buf q (out.rows * out.cols) h,
    λ i j low left.
        ap (λ block. get_or block (i * out.cols + j) ops.zero_f)
          (clear_self ops mem out.buf (out.rows * out.cols))
        ∙ get_or-replicate (out.rows * out.cols) (i * out.cols + j) ops.zero_f,
  )

  -- The loop over column tiles.
  jj-Sums :
      (done : ℕ → ℕ → ℕ) (size i i_end k k_end : ℕ) (s : Memory F)
      → Shapes ops a b out mem
      → 0 < size
      → size < size_mod
      → out.cols + out.cols < size_mod
      → i ≤ i_end
      → i_end ≤ out.rows
      → k ≤ k_end
      → ((i' j' : ℕ) → i ≤ i' → i' < i_end → j' < out.cols → done i' j' ≡ k)
      → Sums ops a b out mem done s
      → Sums ops a b out mem
          (box done i i_end 0 out.cols k_end)
          (for_tiles out.cols out.cols size 0 (tile ops a b out i i_end k k_end) s)
  jj-Sums done size i i_end k k_end s shapes pos small room rows low up had sums =
      tiles_all (λ n. Sums ops a b out mem (box done i i_end 0 n k_end))
        (tile ops a b out i i_end k k_end) out.cols size pos small room
        (λ jj j_end t before inside sums'.
          let now = box done i i_end 0 jj k_end in
          Sums-ext ops a b out mem (box now i i_end jj j_end k_end) (box done i i_end 0 j_end k_end)
            (tile ops a b out i i_end k k_end jj j_end t)
            (λ i' j' _ _. sym (
              box_columns done i i_end 0 jj j_end k_end i' j' (omega arith)
                (omega (arith, before))))
            (tile-Sums ops a b out mem now i i_end k k_end jj j_end t shapes rows low up
              (omega (arith, before)) inside
              (λ i' j' h1 h2 h3 h4.
                box_right done i i_end 0 jj k_end i' j' h3
                ∙ had i' j' h1 h2 (omega (arith, h4, inside)))
              sums'))
        s
        (Sums-ext ops a b out mem done (box done i i_end 0 0 k_end) s
          (λ i' j' _ _. box_thin done i i_end 0 k_end i' j') sums)

  -- The loop over tiles of the columns of a.
  kk-Sums :
      (done : ℕ → ℕ → ℕ) (size i i_end : ℕ) (s : Memory F)
      → Shapes ops a b out mem
      → 0 < size
      → size < size_mod
      → out.cols + out.cols < size_mod
      → a.cols + a.cols < size_mod
      → i ≤ i_end
      → i_end ≤ out.rows
      → ((i' j' : ℕ) → i ≤ i' → i' < i_end → j' < out.cols → done i' j' ≡ 0)
      → Sums ops a b out mem done s
      → Sums ops a b out mem (box done i i_end 0 out.cols a.cols) (
          for_tiles a.cols a.cols size 0
            (λ kk k_end. for_tiles out.cols out.cols size 0 (tile ops a b out i i_end kk k_end))
            s)
  kk-Sums done size i i_end s shapes pos small room room' rows low had sums =
      let inner = λ (kk k_end : ℕ).
        for_tiles {S = Memory F} out.cols out.cols size 0 (tile ops a b out i i_end kk k_end) in
      tiles_all (λ n. Sums ops a b out mem (box done i i_end 0 out.cols n)) inner a.cols size pos
        small room'
        (λ kk k_end t before inside sums'.
          let now = box done i i_end 0 out.cols kk in
          Sums-ext ops a b out mem (box now i i_end 0 out.cols k_end)
            (box done i i_end 0 out.cols k_end) (inner kk k_end t)
            (λ i' j' _ _. sym (box_over done i i_end 0 out.cols kk k_end i' j'))
            (jj-Sums now size i i_end kk k_end t shapes pos small room rows low
              (omega (arith, before))
              (λ i' j' h1 h2 h3. box_inside done i i_end 0 out.cols kk i' j' h1 h2 (omega arith) h3)
              sums'))
        s
        (Sums-ext ops a b out mem done (box done i i_end 0 out.cols 0) s
          (λ i' j' _ left.
            box_same done i i_end 0 out.cols 0 i' j' (λ h1 h2 h3 h4. had i' j' h1 h2 h4))
          sums)

  ii-Sums :
      (size : ℕ) (s : Memory F)
      → Shapes ops a b out mem
      → 0 < size
      → size < size_mod
      → out.cols + out.cols < size_mod
      → a.cols + a.cols < size_mod
      → out.rows + out.rows < size_mod
      → Sums ops a b out mem (λ i j. 0) s
      → Sums ops a b out mem (box (λ i j. 0) 0 out.rows 0 out.cols a.cols) (
          for_tiles out.rows out.rows size 0
            (λ ii i_end.
              for_tiles a.cols a.cols size 0 (λ kk k_end.
                for_tiles out.cols out.cols size 0 (tile ops a b out ii i_end kk k_end)))
            s)
  ii-Sums size s shapes pos small room room' room'' sums =
      let none_yet : ℕ → ℕ → ℕ = λ i j. 0 in
      let inner = λ (ii i_end : ℕ).
        for_tiles {S = Memory F} a.cols a.cols size 0
          (λ kk k_end. for_tiles out.cols out.cols size 0 (tile ops a b out ii i_end kk k_end)) in
      tiles_all (λ n. Sums ops a b out mem (box none_yet 0 n 0 out.cols a.cols)) inner out.rows size
        pos small room''
        (λ ii i_end t before inside sums'.
          let now = box none_yet 0 ii 0 out.cols a.cols in
          Sums-ext ops a b out mem (box now ii i_end 0 out.cols a.cols)
            (box none_yet 0 i_end 0 out.cols a.cols) (inner ii i_end t)
            (λ i' j' _ _. sym (
              box_rows none_yet 0 ii i_end 0 out.cols a.cols i' j' (omega arith)
                (omega (arith, before))))
            (kk-Sums now size ii i_end t shapes pos small room room' (omega (arith, before)) inside
              (λ i' j' h1 h2 h3. box_lower none_yet ii 0 out.cols a.cols i' j' h1) sums'))
        s
        (Sums-ext ops a b out mem none_yet (box none_yet 0 0 0 out.cols a.cols) s
          (λ i' j' _ _. box_flat none_yet 0 0 out.cols a.cols i' j') sums)

  -- When check_mul accepts the matrices, both products leave in each element of the result the same
  -- sum of products, taken in the order of k, whatever the block size; so they agree to the last bit.
  -- (Sizes are below half of what size_t holds, as those of matrices that matx_init made.)
  pub product_lem :
      (block i j : ℕ)
      → check_mul ops a b out ≡ true
      → block < size_mod
      → a.rows + a.rows < size_mod
      → a.cols + a.cols < size_mod
      → b.cols + b.cols < size_mod
      → i < a.rows
      → j < b.cols
      → (read ops (matx_mul ops a b out mem).1 out.buf (i * out.cols + j)
          ≡ dot ops a b out mem i j a.cols)
        × (read ops (mul_blocked ops a b out block mem).1 out.buf (i * out.cols + j)
            ≡ dot ops a b out mem i j a.cols)
  unfolding matx_mul mul_blocked
  product_lem block i j good small rows cols width low left =
      let (shapes, height, breadth) = check_mul_lem good in
      let low' : i < out.rows = omega (arith, low, height) in
      let left' : j < out.cols = omega (arith, left, breadth) in
      let zeroed = clear ops mem out.buf (out.rows * out.cols) in
      let full =
        box_inside (λ i j. 0) 0 out.rows 0 out.cols a.cols i j (omega arith) low' (omega arith)
          left' in
      let whole =
        tile-Sums ops a b out mem (λ i j. 0) 0 out.rows 0 a.cols 0 out.cols zeroed shapes
          (omega arith) (omega arith) (omega arith) (omega arith) (omega arith)
          (λ _ _ _ _ _ _. refl) cleared-Sums in
      let size : ℕ = if block == 0 then default_block else block in
      let tiled =
        ii-Sums size zeroed shapes (ground arith) (ground (arith, small))
          (omega (arith, breadth, width)) cols (omega (arith, height, rows)) cleared-Sums in
      rw good (
        simp (← height, ← breadth)
          (
            whole.2 i j low' left' ∙ ap (dot ops a b out mem i j) full,
            tiled.2 i j low' left' ∙ ap (dot ops a b out mem i j) full,
          ))

-- ===== src/Ml/Dataset/Rearrange.antt =====
-- Rearranging the rows of the matrices of src/ml/dataset.c: exchanges of rows and what follows from them.
use mathlib.Core.Path.{fun_ext}
use c_comprehensive_template.Prelude.{
  ℕ, ◌+◌, ◌*◌, ◌≤◌, ◌<◌, ◌≡◌, ◌≢◌, refl, ap, sym, subst, false, ◌||◌, ltb, ◌∙◌, Option, none, some,
  length, get_or, arith,
}
use c_comprehensive_template.Math.MatX.{FloatOps, Ptr, Memory, MatX, matx_get}
use c_comprehensive_template.Ml.Dataset.{max_cols, swap_rows, swap_both}
use c_comprehensive_template.Ml.Dataset.Rows.{swapped, swap_rows_lem}

-- A permutation of the numbers below n.
pub record IsPerm (n : ℕ) (σ : ℕ → ℕ) : Type 0 where
  pub below : (r : ℕ) → r < n → σ r < n
  pub injective : (r s : ℕ) → σ r ≡ σ s → r ≡ s

swapped-IsPerm : (n i j : ℕ) → i < n → j < n → IsPerm n (swapped i j)
swapped-IsPerm n i j low high = record {
  below = λ r h. ground arith;
  injective = λ r s e. ground arith;
}

after-IsPerm : (n : ℕ) (σ τ : ℕ → ℕ) → IsPerm n σ → IsPerm n τ → IsPerm n (λ r. σ (τ r))
after-IsPerm n σ τ p q = record {
  below = λ r h. p.below (τ r) (q.below r h);
  injective = λ r s e. q.injective r s (p.injective (τ r) (τ s) e);
}

module _ {F : Type 0} (ops : FloatOps F) where
  abbrev pub IsSized : Memory F → MatX → Type 0
  IsSized mem m = length (mem m.buf) ≡ m.rows * m.cols

  -- The labels have a buffer of their own and as many rows.
  abbrev pub AreLabels : Memory F → MatX → Option MatX → Type 0
  AreLabels mem x none = Unit
  AreLabels mem x (some y) = IsSized mem y × (y.buf ≢ x.buf) × (y.buf ≢ 0) × (y.rows ≡ x.rows)

  -- Row r of the matrix is row σ r of what it was.
  abbrev pub Rearranged : Memory F → Memory F → (ℕ → ℕ) → MatX → Type 0
  Rearranged mem mem' σ m =
      (r c : ℕ) → c < m.cols → matx_get ops mem' m r c ≡ matx_get ops mem m (σ r) c

  abbrev pub AllRearranged : Memory F → Memory F → (ℕ → ℕ) → MatX → Option MatX → Type 0
  AllRearranged mem mem' σ x none = Rearranged mem mem' σ x
  AllRearranged mem mem' σ x (some y) = Rearranged mem mem' σ x × Rearranged mem mem' σ y

  abbrev pub IsOther : Ptr → MatX → Option MatX → Type 0
  IsOther q x none = q ≢ x.buf
  IsOther q x (some y) = (q ≢ x.buf) × (q ≢ y.buf)

  -- What shuffling leaves of memory.
  pub record Shuffled (x : MatX) (y : Option MatX) (mem mem' : Memory F) (σ : ℕ → ℕ) : Type 0 where
    pub permutation : IsPerm x.rows σ
    pub sized : IsSized mem' x
    pub labels : AreLabels mem' x y
    pub rows_moved : AllRearranged mem mem' σ x y
    pub others : (q : Ptr) → IsOther q x y → mem' q ≡ mem q

  pub swap_both_lem :
      (room : ℕ) (x : MatX) (y : Option MatX) (i j : ℕ) (mem : Memory F)
      → IsSized mem x
      → AreLabels mem x y
      → max_cols ops x y ≤ room
      → i < x.rows
      → j < x.rows
      → (mem' : Memory F) × (swap_both ops room x y i j mem ≡ some mem')
        × Shuffled x y mem mem' (swapped i j)
  unfolding swap_both
  swap_both_lem room x none i j mem size labels fits low high =
      let (a, b, c) = swap_rows_lem ops x i j mem size low high in
      let within : ltb room x.cols ≡ false = ground (arith, fits) in
      (
        swap_rows ops x i j mem,
        rw within refl,
        record {
          permutation = swapped-IsPerm x.rows i j low high;
          sized = a;
          labels = tt;
          rows_moved = c;
          others = b;
        },
      )
  swap_both_lem room x (some y) i j mem size (y_size, apart, there, same) fits low high =
      let (a, b, c) = swap_rows_lem ops x i j mem size low high in
      let mem1 : Memory F = swap_rows ops x i j mem in
      let (d, e, f) =
        swap_rows_lem ops y i j mem1 (ap length (b y.buf apart) ∙ y_size) (omega (arith, same))
          (omega (arith, same)) in
      let kept : swap_rows ops y i j mem1 x.buf ≡ mem1 x.buf = e x.buf (λ z. apart (sym z)) in
      let within : (ltb room x.cols || ltb room y.cols) ≡ false = ground (arith, fits) in
      (
        swap_rows ops y i j mem1,
        rw within refl,
        record {
          permutation = swapped-IsPerm x.rows i j low high;
          sized = ap length kept ∙ a;
          labels = (d, apart, there, same);
          rows_moved = (
            λ r k left. ap (λ l. get_or l (r * x.cols + k) ops.zero_f) kept ∙ c r k left,
            λ r k left.
                f r k left
                ∙ ap (λ l. get_or l (swapped i j r * y.cols + k) ops.zero_f) (b y.buf apart),
          );
          others = λ q n. e q n.1 ∙ b q n.0;
        },
      )

  -- Exchanging a row with itself.
  pub Shuffled-swapped_self :
      (x : MatX) (y : Option MatX) (mem mem' : Memory F) (i j : ℕ) (τ : ℕ → ℕ)
      → j ≡ i
      → Shuffled x y mem mem' τ
      → Shuffled x y mem mem' (λ r. swapped i j (τ r))
  Shuffled-swapped_self x y mem mem' i j τ same h =
      let each : (r : ℕ) → r ≡ swapped i j r = λ r. ground (arith, same) in
      subst (λ s. Shuffled x y mem mem' (λ r. s (τ r))) (fun_ext each) h

  unmoved : (mem : Memory F) (x : MatX) (y : Option MatX) → AllRearranged mem mem (λ r. r) x y
  unmoved mem x none = λ r c left. refl
  unmoved mem x (some y) = (λ r c left. refl, λ r c left. refl)

  pub unmoved-Shuffled :
      (x : MatX) (y : Option MatX) (mem : Memory F)
      → IsSized mem x
      → AreLabels mem x y
      → Shuffled x y mem mem (λ r. r)
  unmoved-Shuffled x y mem size labels = record {
    permutation = record { below = λ r h. h; injective = λ r s e. e };
    sized = size;
    labels = labels;
    rows_moved = unmoved mem x y;
    others = λ q n. refl;
  }

  moved_twice :
      (x : MatX) (y : Option MatX) (mem mem' mem'' : Memory F) (σ τ : ℕ → ℕ)
      → AllRearranged mem mem' σ x y
      → AllRearranged mem' mem'' τ x y
      → AllRearranged mem mem'' (λ r. σ (τ r)) x y
  moved_twice x none mem mem' mem'' σ τ a b = λ r c left. b r c left ∙ a (τ r) c left
  moved_twice x (some y) mem mem' mem'' σ τ (a, a') (b, b') =
      (λ r c left. b r c left ∙ a (τ r) c left, λ r c left. b' r c left ∙ a' (τ r) c left)

  pub twice-Shuffled :
      (x : MatX) (y : Option MatX) (mem mem' mem'' : Memory F) (σ τ : ℕ → ℕ)
      → Shuffled x y mem mem' σ
      → Shuffled x y mem' mem'' τ
      → Shuffled x y mem mem'' (λ r. σ (τ r))
  twice-Shuffled x y mem mem' mem'' σ τ a b = record {
    permutation = after-IsPerm x.rows σ τ a.permutation b.permutation;
    sized = b.sized;
    labels = b.labels;
    rows_moved = moved_twice x y mem mem' mem'' σ τ a.rows_moved b.rows_moved;
    others = λ q n. b.others q n ∙ a.others q n;
  }

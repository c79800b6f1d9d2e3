-- ===== src/Ml/Dataset/Rows.antt =====
-- The memcpy calls of src/ml/dataset.c on the rows of a matrix.
use c_comprehensive_template.Prelude.{
  ℕ, zero, suc, ◌+◌, ◌*◌, ◌≤◌, ◌<◌, ◌≡◌, ◌≢◌, refl, ap, ◌∙◌, true, false, ◌⊎◌, inl, inr, List, [],
  ◌∷◌, length, take, drop, get_or, length-take, length-drop, arith, ℕ_discrete, dec_lt, ◌==◌,
  if◌then◌else◌,
}
use c_comprehensive_template.Math.MatX.{FloatOps, Ptr, Memory, MatX, matx_get}
use c_comprehensive_template.Math.MatX.Tile.{row_end}
use c_comprehensive_template.Ml.Dataset.{copy_out, copy_in, put, swap_rows}

module _ {F : Type 0} where
  length-copy_in :
      (mem : List F) (off : ℕ) (src : List F) → length (copy_in mem off src) ≡ length mem
  length-copy_in [] off src = refl
  length-copy_in (m ∷ mem) zero [] = refl
  length-copy_in (m ∷ mem) zero (s ∷ src) = ap suc (length-copy_in mem zero src)
  length-copy_in (m ∷ mem) (suc off) src = ap suc (length-copy_in mem off src)

  -- What was copied in.
  pub get-copy_in :
      (mem : List F) (off : ℕ) (src : List F) (k : ℕ) (d : F)
      → k < length src
      → off + length src ≤ length mem
      → get_or (copy_in mem off src) (off + k) d ≡ get_or src k d
  get-copy_in [] off src k d h room = absurd (omega arith)
  get-copy_in (m ∷ mem) zero [] k d h room = absurd (omega arith)
  get-copy_in (m ∷ mem) zero (s ∷ src) zero d h room = refl
  get-copy_in (m ∷ mem) zero (s ∷ src) (suc k) d h room =
      let there : 0 + suc k ≡ suc (0 + k) = omega arith in
      ap (λ i. get_or (s ∷ copy_in mem zero src) i d) there
      ∙ get-copy_in mem zero src k d (omega arith) (omega arith)
  get-copy_in (m ∷ mem) (suc off) src k d h room =
      let there : suc off + k ≡ suc (off + k) = omega arith in
      ap (λ i. get_or (m ∷ copy_in mem off src) i d) there
      ∙ get-copy_in mem off src k d h (omega arith)

  -- What stands before and behind it.
  get-copy_in_ne :
      (mem : List F) (off : ℕ) (src : List F) (i : ℕ) (d : F)
      → (i < off) ⊎ (off + length src ≤ i)
      → get_or (copy_in mem off src) i d ≡ get_or mem i d
  get-copy_in_ne [] off src i d h = refl
  get-copy_in_ne (m ∷ mem) zero [] i d h = refl
  get-copy_in_ne (m ∷ mem) zero (s ∷ src) zero d h = absurd (ground arith)
  get-copy_in_ne (m ∷ mem) zero (s ∷ src) (suc i) d h =
      get-copy_in_ne mem zero src i d (ground arith)
  get-copy_in_ne (m ∷ mem) (suc off) src zero d h = refl
  get-copy_in_ne (m ∷ mem) (suc off) src (suc i) d h = get-copy_in_ne mem off src i d (ground arith)

  get-take : (n : ℕ) (l : List F) (k : ℕ) (d : F) → k < n → get_or (take n l) k d ≡ get_or l k d
  get-take zero l k d h = absurd (omega arith)
  get-take (suc n) [] k d h = refl
  get-take (suc n) (x ∷ l) zero d h = refl
  get-take (suc n) (x ∷ l) (suc k) d h = get-take n l k d (omega arith)

  get-drop : (n : ℕ) (l : List F) (k : ℕ) (d : F) → get_or (drop n l) k d ≡ get_or l (n + k) d
  get-drop zero l k d = let there : k ≡ 0 + k = omega arith in ap (λ i. get_or l i d) there
  get-drop (suc n) [] k d = refl
  get-drop (suc n) (x ∷ l) k d =
      let there : suc (n + k) ≡ suc n + k = omega arith in
      get-drop n l k d ∙ ap (λ i. get_or (x ∷ l) i d) there

  pub get-copy_out :
      (l : List F) (off n k : ℕ) (d : F)
      → k < n
      → get_or (copy_out l off n) k d ≡ get_or l (off + k) d
  get-copy_out l off n k d h = get-take n (drop off l) k d h ∙ get-drop off l k d

  pub length-copy_out :
      (l : List F) (off n : ℕ) → off + n ≤ length l → length (copy_out l off n) ≡ n
  length-copy_out l off n h = omega (arith, length-take n (drop off l), length-drop off l)

-- The row that comes to row r when rows i and j are exchanged.
abbrev pub swapped : ℕ → ℕ → ℕ → ℕ
swapped i j r = if r == i then j else if r == j then i else r

module _ {F : Type 0} (ops : FloatOps F) where
  pub put_self :
      (mem : Memory F) (p : Ptr) (off : ℕ) (src : List F)
      → put ops mem p off src p ≡ copy_in (mem p) off src
  unfolding put
  put_self mem p off src = let e : (p == p) ≡ true = ground arith in rw (e) refl

  pub put_other :
      (mem : Memory F) (p : Ptr) (off : ℕ) (src : List F) (q : Ptr)
      → q ≢ p
      → put ops mem p off src q ≡ mem q
  unfolding put
  put_other mem p off src q n = let e : (q == p) ≡ false = ground arith in rw (e) refl

  apart :
      (r i c cols : ℕ) (src : List F)
      → length src ≡ cols
      → c < cols
      → r ≢ i
      → (r * cols + c < i * cols) ⊎ (i * cols + length src ≤ r * cols + c)
  apart r i c cols src one left n = elim (dec_lt r i) [
    | yes h ↦ inl (omega (arith, row_end r i cols h))
    | no h ↦ inr (omega (arith, row_end i r cols (omega (arith, h, n))))
  ]

  -- A row is written whole, and no other with it.
  row_of_copy :
      (mem : List F) (src : List F) (rows cols i r c : ℕ) (d : F)
      → length mem ≡ rows * cols
      → length src ≡ cols
      → i < rows
      → c < cols
      → ((r ≡ i) × (get_or (copy_in mem (i * cols) src) (r * cols + c) d ≡ get_or src c d))
        ⊎ ((r ≢ i)
            × (get_or (copy_in mem (i * cols) src) (r * cols + c) d ≡ get_or mem (r * cols + c) d))
  row_of_copy mem src rows cols i r c d size one low left = elim (ℕ_discrete r i) [
    | yes e ↦ inl (
      e,
      ap (λ x. get_or (copy_in mem (i * cols) src) (x * cols + c) d) e
          ∙ get-copy_in mem (i * cols) src c d (omega arith)
              (omega (arith, row_end i rows cols low)),
    )
    | no n ↦
        inr
          (n, get-copy_in_ne mem (i * cols) src (r * cols + c) d (apart r i c cols src one left n))
  ]

  -- The buffer after two rows were exchanged.
  abbrev exchanged : List F → ℕ → ℕ → ℕ → List F
  exchanged mem cols i j =
      copy_in (copy_in mem (i * cols) (copy_out mem (j * cols) cols)) (j * cols)
        (copy_out mem (i * cols) cols)

  exchanged_lem :
      (mem : List F) (rows cols i j r c : ℕ) (d : F)
      → length mem ≡ rows * cols
      → i < rows
      → j < rows
      → c < cols
      → get_or (exchanged mem cols i j) (r * cols + c) d ≡ get_or mem (swapped i j r * cols + c) d
  exchanged_lem mem rows cols i j r c d size low high left =
      let ri : List F = copy_out mem (i * cols) cols in
      let rj : List F = copy_out mem (j * cols) cols in
      let one : List F = copy_in mem (i * cols) rj in
      let ri_size : length ri ≡ cols =
        length-copy_out mem (i * cols) cols (omega (arith, size, row_end i rows cols low)) in
      let rj_size : length rj ≡ cols =
        length-copy_out mem (j * cols) cols (omega (arith, size, row_end j rows cols high)) in
      let one_size : length one ≡ rows * cols = length-copy_in mem (i * cols) rj ∙ size in
      elim (row_of_copy one ri rows cols j r c d one_size ri_size high left) [
        | inl (e, h) ↦
            let from : i ≡ swapped i j r = ground arith in
            h
            ∙ get-copy_out mem (i * cols) cols c d left
            ∙ ap (λ x. get_or mem (x * cols + c) d) from
        | inr (n, h) ↦ elim (row_of_copy mem rj rows cols i r c d size rj_size low left) [
          | inl (e, g) ↦
              let from : j ≡ swapped i j r = ground arith in
              h
              ∙ g
              ∙ get-copy_out mem (j * cols) cols c d left
              ∙ ap (λ x. get_or mem (x * cols + c) d) from
          | inr (k, g) ↦
              let from : r ≡ swapped i j r = ground arith in
              h ∙ g ∙ ap (λ x. get_or mem (x * cols + c) d) from
        ]
      ]

  swap_rows_buffer :
      (m : MatX) (i j : ℕ) (mem : Memory F)
      → swap_rows ops m i j mem m.buf ≡ exchanged (mem m.buf) m.cols i j
  unfolding swap_rows
  swap_rows_buffer m i j mem =
      put_self (put ops mem m.buf (i * m.cols) (copy_out (mem m.buf) (j * m.cols) m.cols)) m.buf
        (j * m.cols) (copy_out (mem m.buf) (i * m.cols) m.cols)
      ∙ ap (λ b. copy_in b (j * m.cols) (copy_out (mem m.buf) (i * m.cols) m.cols))
          (put_self mem m.buf (i * m.cols) (copy_out (mem m.buf) (j * m.cols) m.cols))

  -- Exchanging two rows exchanges their elements and changes nothing else.
  pub swap_rows_lem :
      (m : MatX) (i j : ℕ) (mem : Memory F)
      → length (mem m.buf) ≡ m.rows * m.cols
      → i < m.rows
      → j < m.rows
      → (length (swap_rows ops m i j mem m.buf) ≡ m.rows * m.cols)
        × ((q : Ptr) → q ≢ m.buf → swap_rows ops m i j mem q ≡ mem q)
        × ((r c : ℕ)
            → c < m.cols
            → matx_get ops (swap_rows ops m i j mem) m r c ≡ matx_get ops mem m (swapped i j r) c)
  unfolding swap_rows
  swap_rows_lem m i j mem size low high =
      let buffer = swap_rows_buffer m i j mem in
      (
        ap length buffer
            ∙ length-copy_in
                (copy_in (mem m.buf) (i * m.cols) (copy_out (mem m.buf) (j * m.cols) m.cols))
                (j * m.cols) (copy_out (mem m.buf) (i * m.cols) m.cols)
            ∙ length-copy_in (mem m.buf) (i * m.cols) (copy_out (mem m.buf) (j * m.cols) m.cols)
            ∙ size,
        λ q n.
            put_other (put ops mem m.buf (i * m.cols) (copy_out (mem m.buf) (j * m.cols) m.cols))
              m.buf (j * m.cols) (copy_out (mem m.buf) (i * m.cols) m.cols) q n
            ∙ put_other mem m.buf (i * m.cols) (copy_out (mem m.buf) (j * m.cols) m.cols) q n,
        λ r c left.
            ap (λ b. get_or b (r * m.cols + c) ops.zero_f) buffer
            ∙ exchanged_lem (mem m.buf) m.rows m.cols i j r c ops.zero_f size low high left,
      )

-- ===== src/Math/MatX.antt =====
-- include/math/matx.h and src/math/matx.c: matrices of any size, stored row by row. Memory gives
-- the floats of the buffer at an address, 0 being NULL; two matrices share a buffer exactly if
-- their `buf` is the same. Single-precision arithmetic is a parameter of which nothing is
-- assumed. A read out of range gives zero and a write out of range changes nothing; the theorems
-- are of matrices whose buffers have their size. `calloc` is a parameter. Pointers to matrices and
-- functions are not NULL here; matx_init_arena and matx_random_uniform are not modelled.
pub mod Loops
pub mod Elementwise
pub mod Tile
pub mod Boxes
pub mod Product
mod Tests
use c_comprehensive_template.Prelude.{
  ℕ, zero, suc, ◌+◌, ◌-◌, ◌*◌, ◌/◌, Bool, true, false, not, ◌&&◌, ◌||◌, Option, none, some, List,
  [], ◌∷◌, length, get_or, set, replicate, ltb, leb, ◌==◌, if◌then◌else◌, size_max,
}
use c_comprehensive_template.Bytes.{add_size}
use c_comprehensive_template.Core.Error.{ErrorCode, ok, nomem, invalid_arg, overflow}

pub record FloatOps (F : Type 0) : Type 0 where
  pub zero_f : F
  pub add : F → F → F
  pub sub : F → F → F
  pub mul : F → F → F
  pub greater : F → F → Bool

abbrev pub Ptr : Type 0
Ptr = ℕ

abbrev pub Memory : Type 0 → Type 0
Memory F = Ptr → List F

pub record MatX : Type 0 where
  pub buf : Ptr
  pub rows : ℕ
  pub cols : ℕ
  pub owns_data : Bool

abbrev pub default_block : ℕ
default_block = 32

abbrev pub float_size : ℕ
float_size = 4

-- `for (i = start; ...; i++)` with so many rounds.
unfoldable pub count_up {ℓ} : {S : Type ℓ} (rounds at : ℕ) (step : ℕ → S → S) → S → S
count_up zero at step state = state
count_up (suc rounds) at step state = count_up rounds (at + 1) step (step at state)

-- `for (ii = 0; ii < n; ii += block)` from ii on, within a number of rounds; the body gets the end
-- of the tile too.
unfoldable pub for_tiles {ℓ} : {S : Type ℓ} → ℕ → ℕ → ℕ → ℕ → (ℕ → ℕ → S → S) → S → S
for_tiles zero n block ii body s = s
for_tiles (suc rounds) n block ii body s =
    let next = add_size ii block in
    let end = if ltb next n then next else n in
    let rest = for_tiles rounds n block next body (body ii end s) in if ltb ii n then rest else s

unfoldable pub checked_count : ℕ → ℕ → ErrorCode × ℕ
checked_count rows cols =
    if rows == 0 || cols == 0
    then (invalid_arg, 0)
    else if ltb (size_max / cols) rows
    then (overflow, 0)
    else if ltb (size_max / float_size) (rows * cols)
    then (overflow, 0)
    else (ok, rows * cols)

module _ {F : Type 0} (ops : FloatOps F) where
  abbrev pub read : Memory F → Ptr → ℕ → F
  read mem p i = get_or (mem p) i ops.zero_f

  -- data[i] = v
  unfoldable pub write : Memory F → Ptr → ℕ → F → Memory F
  write mem p i v q = if q == p then set (mem p) i v else mem q

  abbrev pub matx_get : Memory F → MatX → ℕ → ℕ → F
  matx_get mem m r c = read mem m.buf (r * m.cols + c)

  abbrev pub matx_set : Memory F → MatX → ℕ → ℕ → F → Memory F
  matx_set mem m r c v = write mem m.buf (r * m.cols + c) v

  -- memset(data, 0, n * sizeof(float)) of a whole buffer
  unfoldable pub clear : Memory F → Ptr → ℕ → Memory F
  clear mem p n q = if q == p then replicate n ops.zero_f else mem q

  unfoldable pub init : (ℕ → Ptr) → MatX → ℕ → ℕ → Memory F → ErrorCode × MatX × Memory F
  init calloc m rows cols mem =
      let (err, n) = checked_count rows cols in
      elim err [
        | ok ↦
            let p = calloc n in
            if p == 0
            then (nomem, record m { buf = 0 }, mem)
            else (ok, record { buf = p; rows = rows; cols = cols; owns_data = true }, clear mem p n)
        | other ↦ (other, m, mem)
      ]

  unfoldable pub destroy : MatX → MatX
  destroy m = record { buf = 0; rows = 0; cols = 0; owns_data = false }

  unfoldable pub fill : MatX → F → Memory F → ErrorCode × Memory F
  fill m value mem =
      if m.buf == 0
      then (invalid_arg, mem)
      else (ok, count_up (m.rows * m.cols) 0 (λ i s. write s m.buf i value) mem)

  unfoldable pub check_elementwise : MatX → MatX → MatX → Bool
  check_elementwise a b out =
      not (a.buf == 0 || b.buf == 0 || out.buf == 0)
      && (a.rows == b.rows && a.cols == b.cols)
      && (out.rows == a.rows && out.cols == a.cols)

  -- The loop of matx_add, matx_sub and matx_hadamard.
  unfoldable pub elementwise : (F → F → F) → MatX → MatX → MatX → Memory F → Memory F
  elementwise f a b out mem =
      count_up (a.rows * a.cols) 0 (λ i s. write s out.buf i (f (read s a.buf i) (read s b.buf i)))
        mem

  unfoldable pub matx_add : MatX → MatX → MatX → Memory F → ErrorCode × Memory F
  matx_add a b out mem =
      if check_elementwise a b out
      then (ok, elementwise ops.add a b out mem)
      else (invalid_arg, mem)

  unfoldable pub matx_sub : MatX → MatX → MatX → Memory F → ErrorCode × Memory F
  matx_sub a b out mem =
      if check_elementwise a b out
      then (ok, elementwise ops.sub a b out mem)
      else (invalid_arg, mem)

  unfoldable pub matx_hadamard : MatX → MatX → MatX → Memory F → ErrorCode × Memory F
  matx_hadamard a b out mem =
      if check_elementwise a b out
      then (ok, elementwise ops.mul a b out mem)
      else (invalid_arg, mem)

  unfoldable pub matx_map : (F → F) → MatX → MatX → Memory F → ErrorCode × Memory F
  matx_map fn a out mem =
      if a.buf == 0 || out.buf == 0
      then (invalid_arg, mem)
      else if not (out.rows == a.rows && out.cols == a.cols)
      then (invalid_arg, mem)
      else (ok, count_up (a.rows * a.cols) 0 (λ i s. write s out.buf i (fn (read s a.buf i))) mem)

  unfoldable pub matx_scale : MatX → F → MatX → Memory F → ErrorCode × Memory F
  matx_scale a s out mem = matx_map (λ x. ops.mul x s) a out mem

  unfoldable pub add_row : MatX → MatX → MatX → Memory F → ErrorCode × Memory F
  add_row a row out mem =
      if a.buf == 0 || row.buf == 0 || out.buf == 0
      then (invalid_arg, mem)
      else if not (row.rows == 1 && row.cols == a.cols && out.rows == a.rows && out.cols == a.cols)
      then (invalid_arg, mem)
      else (
        ok,
        count_up a.rows 0
            (λ r. count_up a.cols 0 (λ c s.
              write s out.buf (r * a.cols + c)
                (ops.add (read s a.buf (r * a.cols + c)) (read s row.buf c))))
            mem,
      )

  unfoldable pub col_sums : MatX → MatX → Memory F → ErrorCode × Memory F
  col_sums a out mem =
      if a.buf == 0 || out.buf == 0
      then (invalid_arg, mem)
      else if not (out.rows == 1 && out.cols == a.cols) || out.buf == a.buf
      then (invalid_arg, mem)
      else let cleared = count_up a.cols 0 (λ c s. write s out.buf c ops.zero_f) mem in
        (
          ok,
          count_up a.rows 0
              (λ r. count_up a.cols 0 (λ c s.
                write s out.buf c (ops.add (read s out.buf c) (read s a.buf (r * a.cols + c)))))
              cleared,
        )

  unfoldable pub row_argmax : MatX → ℕ → Memory F → ErrorCode × Option ℕ
  row_argmax a r mem = if a.buf == 0 || leb a.rows r then (invalid_arg, none) else (
    ok,
    some (
        count_up (a.cols - 1) 1
          (λ c best. if ops.greater (matx_get mem a r c) (matx_get mem a r best) then c else best)
          0),
  )

  unfoldable pub check_mul : MatX → MatX → MatX → Bool
  check_mul a b out =
      not (a.buf == 0 || b.buf == 0 || out.buf == 0)
      && a.cols == b.rows
      && (out.rows == a.rows && out.cols == b.cols)
      && not (out.buf == a.buf || out.buf == b.buf)

  -- out->data[i * out->cols + j] += aik * b->data[k * b->cols + j]
  unfoldable pub accumulate : MatX → MatX → ℕ → ℕ → F → ℕ → Memory F → Memory F
  accumulate b out i k aik j s =
      write s out.buf (i * out.cols + j)
        (ops.add (read s out.buf (i * out.cols + j)) (ops.mul aik (read s b.buf (k * b.cols + j))))

  -- The three inner loops, over rows from i on, columns of a from k on and columns of b from j on.
  unfoldable pub tile : MatX → MatX → MatX → ℕ → ℕ → ℕ → ℕ → ℕ → ℕ → Memory F → Memory F
  tile a b out i i_end k k_end j j_end = count_up (i_end - i) i (λ i'.
      count_up (k_end - k) k
        (λ k' s. count_up (j_end - j) j (accumulate b out i' k' (matx_get s a i' k')) s))

  unfoldable pub matx_mul : MatX → MatX → MatX → Memory F → ErrorCode × Memory F
  matx_mul a b out mem =
      if check_mul a b out
      then (ok, tile a b out 0 a.rows 0 a.cols 0 b.cols (clear mem out.buf (out.rows * out.cols)))
      else (invalid_arg, mem)

  unfoldable pub mul_blocked : MatX → MatX → MatX → ℕ → Memory F → ErrorCode × Memory F
  mul_blocked a b out block mem =
      if check_mul a b out
      then (let size = if block == 0 then default_block else block in
          (
            ok,
            for_tiles a.rows a.rows size 0
                (λ ii i_end. for_tiles a.cols a.cols size 0 (λ kk k_end.
                  for_tiles b.cols b.cols size 0
                    (λ jj j_end. tile a b out ii i_end kk k_end jj j_end)))
                (clear mem out.buf (out.rows * out.cols)),
          ))
      else (invalid_arg, mem)

  unfoldable pub transpose : MatX → MatX → Memory F → ErrorCode × Memory F
  transpose a out mem =
      if a.buf == 0 || out.buf == 0
      then (invalid_arg, mem)
      else if not (out.rows == a.cols && out.cols == a.rows) || out.buf == a.buf
      then (invalid_arg, mem)
      else (
        ok,
        count_up a.rows 0 (λ r. count_up a.cols 0 (λ c s. matx_set s out c r (matx_get s a r c)))
            mem,
      )

-- ===== src/Math/MatX/Tests.antt =====
-- Matrices of two rows and columns over the natural numbers.
use c_comprehensive_template.Prelude.{
  ℕ, ◌+◌, ◌-◌, ◌*◌, ◌≡◌, refl, true, [], ◌∷◌, ltb, ◌==◌, if◌then◌else◌, arith,
}
use c_comprehensive_template.Math.MatX.{
  FloatOps, Ptr, Memory, MatX, count_up, for_tiles, read, write, clear, check_mul,
  check_elementwise, tile, accumulate, matx_add, matx_sub, matx_hadamard, matx_mul, mul_blocked,
}
use c_comprehensive_template.Math.MatX.Elementwise.{elementwise_lem}
use c_comprehensive_template.Math.MatX.Tile.{dot}
use c_comprehensive_template.Math.MatX.Product.{product_lem}

abbrev natural : FloatOps ℕ
natural = record {
  zero_f = 0;
  add = λ a b. a + b;
  sub = λ a b. a - b;
  mul = λ a b. a * b;
  greater = λ a b. ltb b a;
}

abbrev square : Ptr → MatX
square p = record { buf = p; rows = 2; cols = 2; owns_data = true }

abbrev memory : Memory ℕ
memory p =
    if p == 1 then 1 ∷ 2 ∷ 3 ∷ 4 ∷ [] else if p == 2 then 5 ∷ 6 ∷ 7 ∷ 8 ∷ [] else 0 ∷ 0 ∷ 0 ∷ 0 ∷ []

blocked_runs :
    (mul_blocked natural (square 1) (square 2) (square 3) 1 memory).1 3 ≡ 19 ∷ 22 ∷ 43 ∷ 50 ∷ []
unfolding mul_blocked check_mul clear tile accumulate write count_up for_tiles
blocked_runs = refl

accepted : check_mul natural (square 1) (square 2) (square 3) ≡ true
unfolding check_mul
accepted = refl

product_example :
    (read natural (matx_mul natural (square 1) (square 2) (square 3) memory).1 3 (1 * 2 + 0)
      ≡ dot natural (square 1) (square 2) (square 3) memory 1 0 2)
    × (read natural (mul_blocked natural (square 1) (square 2) (square 3) 1 memory).1 3 (1 * 2 + 0)
        ≡ dot natural (square 1) (square 2) (square 3) memory 1 0 2)
product_example =
    product_lem natural (square 1) (square 2) (square 3) memory 1 1 0 accepted (omega arith)
      (omega arith) (omega arith) (omega arith) (omega arith) (omega arith)

alike : check_elementwise natural (square 1) (square 2) (square 1) ≡ true
unfolding check_elementwise
alike = refl

elementwise_example :
    (read natural (matx_add natural (square 1) (square 2) (square 1) memory).1 1 3
      ≡ natural.add (read natural memory 1 3) (read natural memory 2 3))
    × (read natural (matx_sub natural (square 1) (square 2) (square 1) memory).1 1 3
        ≡ natural.sub (read natural memory 1 3) (read natural memory 2 3))
    × (read natural (matx_hadamard natural (square 1) (square 2) (square 1) memory).1 1 3
        ≡ natural.mul (read natural memory 1 3) (read natural memory 2 3))
    × ((matx_add natural (square 1) (square 2) (square 1) memory).1 2 ≡ memory 2)
    × ((matx_sub natural (square 1) (square 2) (square 1) memory).1 2 ≡ memory 2)
    × ((matx_hadamard natural (square 1) (square 2) (square 1) memory).1 2 ≡ memory 2)
elementwise_example =
    elementwise_lem natural (square 1) (square 2) (square 1) memory 3 2 alike refl (omega arith)
      (λ z. absurd (omega (arith, z)))

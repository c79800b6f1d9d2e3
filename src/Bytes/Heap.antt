-- ===== src/Bytes/Heap.antt =====
-- What the code relies on when it takes storage from the heap.
use c_comprehensive_template.Prelude.{ℕ, ◌*◌, ◌<◌, ◌^◌, ◌≡◌, Option, some, length, arith}
use c_comprehensive_template.Bytes.{Block}

-- What C promises of `malloc`: a block has the size that was asked for, which is at most
-- PTRDIFF_MAX.
pub record IsMalloc (malloc : ℕ → Option Block) : Type 0 where
  pub sized : (n : ℕ) (b : Block) → malloc n ≡ some b → length b ≡ n
  pub bounded : (n : ℕ) (b : Block) → malloc n ≡ some b → n < 2 ^ 63

pub product_bound : (a b : ℕ) → 0 < b → a * b < 2 ^ 63 → a < 2 ^ 63
product_bound a b h k = grind arith

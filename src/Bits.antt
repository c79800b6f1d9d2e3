-- ===== src/Bits.antt =====
-- The masks of the C code: `x & (p - 1)` and `x & ~(p - 1)` for a power of two p, and the test
-- `p & (p - 1)` for one.
use Prim.Native.Nat.{bit_and, bit_and-bitwise, digits}
use native.Mathlib.Nat.{
  pow-suc, div-div-eq-div-mul, mod-eq_of_lt, mod-lt, div-add-mod, add-mul-mod_self_left, mul-one,
  div-one, div-lt_iff_lt-mul,
}
use c_comprehensive_template.Prelude.{
  ℕ, zero, suc, ◌+◌, ◌-◌, ◌*◌, ◌/◌, ◌%◌, ◌^◌, ◌≤◌, ◌<◌, min, ◌≡◌, refl, ap, ◌∙◌, arith, ℕ_discrete,
}

-- Conjunction digit by digit, with n rounds.
abbrev rounds : ℕ → ℕ → ℕ → ℕ
rounds = digits (λ b. zero) min

-- Rounds beyond the digits of `a` add nothing.
rounds_enough : (n m a b : ℕ) → a ≤ n → a ≤ m → rounds n a b ≡ rounds m a b
rounds_enough zero zero a b p q = refl
rounds_enough zero (suc m) zero b p q = refl
rounds_enough (suc n) zero zero b p q = refl
rounds_enough (suc n) (suc m) zero b p q = refl
rounds_enough zero m (suc a) b p q = absurd (omega arith)
rounds_enough (suc n) zero (suc a) b p q = absurd (omega arith)
rounds_enough (suc n) (suc m) (suc a) b p q =
    let half = rounds_enough n m (suc a / 2) (b / 2) (omega arith) (omega arith) in
    omega (arith, half)

zero-bit_and : (b : ℕ) → bit_and 0 b ≡ 0
zero-bit_and = bit_and-bitwise 0

-- One binary digit of a conjunction.
pub bit_and_halves : (a b : ℕ) → bit_and a b ≡ 2 * bit_and (a / 2) (b / 2) + min (a % 2) (b % 2)
bit_and_halves zero b = omega (arith, zero-bit_and b, zero-bit_and (b / 2))
bit_and_halves (suc a) b =
    let low = bit_and-bitwise (suc a) b in
    let high = bit_and-bitwise (suc a / 2) (b / 2) in
    omega (
      arith,
      low,
      high,
      rounds_enough (suc a / 2) a (suc a / 2) (b / 2) (omega arith) (omega arith),
    )

bit_and-zero_below : (n a : ℕ) → a ≤ n → bit_and a 0 ≡ 0
bit_and-zero_below n zero h = zero-bit_and 0
bit_and-zero_below zero (suc a) h = absurd (omega arith)
bit_and-zero_below (suc n) (suc a) h =
    omega (arith, bit_and_halves (suc a) 0, bit_and-zero_below n (suc a / 2) (omega arith))

pub bit_and-zero : (a : ℕ) → bit_and a 0 ≡ 0
bit_and-zero a = bit_and-zero_below a a (omega arith)

bit_and_self_below : (n a : ℕ) → a ≤ n → bit_and a a ≡ a
bit_and_self_below n zero h = zero-bit_and 0
bit_and_self_below zero (suc a) h = absurd (omega arith)
bit_and_self_below (suc n) (suc a) h =
    omega (arith, bit_and_halves (suc a) (suc a), bit_and_self_below n (suc a / 2) (omega arith))

pub bit_and_self : (a : ℕ) → bit_and a a ≡ a
bit_and_self a = bit_and_self_below a a (omega arith)

pub pow_pos : (k : ℕ) → 0 < 2 ^ k
pow_pos zero = omega arith
pow_pos (suc k) = omega (arith, pow-suc 2 k, pow_pos k)

-- The remainder by a doubled modulus, digit by digit.
mod_double : (x p : ℕ) → 0 < p → x % (p * 2) ≡ 2 * (x / 2 % p) + x % 2
mod_double x p h =
    let low : ℕ = 2 * (x / 2 % p) + x % 2 in
    let split : x ≡ low + p * 2 * (x / 2 / p) = omega (arith, div-add-mod (x / 2) p) in
    let small : low < p * 2 = omega (arith, mod-lt (x / 2) h) in
    ap (λ t. t % (p * 2)) split ∙ add-mul-mod_self_left low (p * 2) (x / 2 / p) ∙ mod-eq_of_lt small

-- x & (2 ^ k - 1) is the remainder by 2 ^ k.
pub bit_and-low_mask : (k x : ℕ) → bit_and x (2 ^ k - 1) ≡ x % 2 ^ k
bit_and-low_mask zero x = omega (arith, bit_and-zero x)
bit_and-low_mask (suc k) x = rw (pow-suc 2 k) (
    omega (
      arith,
      bit_and_halves x (2 ^ k * 2 - 1),
      ap (bit_and (x / 2)) half,
      bit_and-low_mask k (x / 2),
      mod_double x (2 ^ k) (pow_pos k),
      pow_pos k,
    ))
  where
    half : (2 ^ k * 2 - 1) / 2 ≡ 2 ^ k - 1
    half = omega (arith, pow_pos k)

-- A mask whose low k digits are 0 clears those digits.
pub bit_and_shifted : (k x m : ℕ) → bit_and x (m * 2 ^ k) ≡ bit_and (x / 2 ^ k) m * 2 ^ k
bit_and_shifted zero x m = simp (mul-one, div-one)
bit_and_shifted (suc k) x m =
    let p : ℕ = 2 ^ k in
    let half : m * (p * 2) / 2 ≡ m * p = omega arith in
    let even : m * (p * 2) % 2 ≡ 0 = omega arith in
    let twice : x / 2 / p ≡ x / (p * 2) =
      div-div-eq-div-mul x 2 p ∙ ap (λ t. x / t) (omega arith) in
    rw (pow-suc 2 k, ← twice)
      (omega (
        arith,
        bit_and_halves x (m * (p * 2)),
        ap (bit_and (x / 2)) half,
        even,
        bit_and_shifted k (x / 2) m,
      ))

-- x & ~(2 ^ k - 1), in words of k + j digits, is the multiple of 2 ^ k at or below x.
pub bit_and-high_mask :
    (k j x : ℕ) → x < 2 ^ k * 2 ^ j → bit_and x ((2 ^ j - 1) * 2 ^ k) ≡ x / 2 ^ k * 2 ^ k
bit_and-high_mask k j x h =
    let small : x / 2 ^ k < 2 ^ j = (div-lt_iff_lt-mul (pow_pos k)).1 (omega arith) in
    bit_and_shifted k x (2 ^ j - 1)
    ∙ ap (λ t. t * 2 ^ k) (bit_and-low_mask j (x / 2 ^ k) ∙ mod-eq_of_lt small)

-- A number that passes the test of the code is a power of two.
pub pow_of_bit_and-pred : (n a : ℕ) → a ≤ n → 0 < a → bit_and a (a - 1) ≡ 0 → (k : ℕ) × (a ≡ 2 ^ k)
pow_of_bit_and-pred zero a h pos test = absurd (omega arith)
pow_of_bit_and-pred (suc n) a h pos test = elim (ℕ_discrete (a % 2) 1) [
  | yes odd ↦
      let same : (a - 1) / 2 ≡ a / 2 = omega arith in
      (0, omega (arith, bit_and_halves a (a - 1), ap (bit_and (a / 2)) same, bit_and_self (a / 2)))
  | no even ↦
      let same : (a - 1) / 2 ≡ a / 2 - 1 = omega arith in
      let (k, e) =
        pow_of_bit_and-pred n (a / 2) (omega arith) (omega arith)
          (omega (arith, bit_and_halves a (a - 1), ap (bit_and (a / 2)) same)) in
      (suc k, omega (arith, pow-suc 2 k))
]

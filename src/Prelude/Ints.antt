-- ===== src/Prelude/Ints.antt =====
-- Integers of either sign over the native numbers, under the library's names.
use Prim.Native.Nat.{ℕ}
use mathlib.Core.Path.{◌≡◌, refl, ap}
use mathlib.Core.Logic.{◌≢◌, ◌⊎◌, inl, inr}
use mathlib.Core.Bool.{Bool, true, false}
use native.Mathlib.Omega.{arith}
use c_comprehensive_template.Prelude.Tests.{◌==◌, ==_iff}

-- negsuc n is - (n + 1)
pub data ℤ : Type 0 where
  pos : ℕ → ℤ
  negsuc : ℕ → ℤ

abbrev pub is_negative : ℤ → Bool
is_negative (pos n) = false
is_negative (negsuc n) = true

abbrev pub same_int : ℤ → ℤ → Bool
same_int (pos a) (pos b) = a == b
same_int (pos a) (negsuc b) = false
same_int (negsuc a) (pos b) = false
same_int (negsuc a) (negsuc b) = a == b

pub same_int_self : (a : ℤ) → same_int a a ≡ true
same_int_self (pos a) = ground arith
same_int_self (negsuc a) = ground arith

pub same_int_eq : (a b : ℤ) → same_int a b ≡ true → a ≡ b
same_int_eq (pos a) (pos b) h = ap pos ((==_iff a b).0 h)
same_int_eq (pos a) (negsuc b) h = absurd (ground (arith, h))
same_int_eq (negsuc a) (pos b) h = absurd (ground (arith, h))
same_int_eq (negsuc a) (negsuc b) h = ap negsuc ((==_iff a b).0 h)

pub same_int-cases :
    (a b : ℤ) → ((a ≡ b) × (same_int a b ≡ true)) ⊎ ((a ≢ b) × (same_int a b ≡ false))
same_int-cases a b = go (same_int a b) refl
  where
    go :
        (t : Bool)
        → same_int a b ≡ t
        → ((a ≡ b) × (same_int a b ≡ true)) ⊎ ((a ≢ b) × (same_int a b ≡ false))
    go true e = inl (same_int_eq a b e, e)
    go false e = inr (λ z. absurd (ground (arith, same_int_self a, rw z at e)), e)

pub same_int_ne : (a b : ℤ) → a ≢ b → same_int a b ≡ false
same_int_ne a b h = elim (same_int-cases a b) [ inl (e, _) ↦ absurd (h e) | inr (_, t) ↦ t ]

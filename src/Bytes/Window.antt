-- ===== src/Bytes/Window.antt =====
-- The elements that a circular buffer of `m` slots holds: `n` of them, from slot `h` on.
use native.Mathlib.Nat.{mod-eq_of_lt, mod-eq-sub-mod, mod-add-mod, add-zero}
use c_comprehensive_template.Prelude.{
  ℕ, zero, suc, ◌+◌, ◌-◌, ◌*◌, ◌%◌, ◌≤◌, ◌<◌, ◌≡◌, refl, ap, ap₂, sym, ◌∙◌, ◌≢◌, List, [], ◌∷◌,
  ◌++◌, length, arith, ltb, if◌then◌else◌, dec_lt,
}

module _ {ℓ} {A : Type ℓ} (f : ℕ → A) (m : ℕ) where
  abbrev pub window : ℕ → ℕ → List A
  window h zero = []
  window h (suc n) = f h ∷ window ((h + 1) % m) n

  pub length-window : (h n : ℕ) → length (window h n) ≡ n
  length-window h zero = refl
  length-window h (suc n) = ap suc (length-window ((h + 1) % m) n)

  -- The code tests `len`, `window` matches on it.
  pub window_uncons : (h n : ℕ) → n ≢ 0 → window h n ≡ f h ∷ window ((h + 1) % m) (n - 1)
  window_uncons h zero p = absurd (p refl)
  window_uncons h (suc n) p = ap (λ k. window h (suc k)) (omega arith)

-- An index below twice the capacity wraps at most once.
pub mod_once : (x m : ℕ) → x < 2 * m → x % m ≡ (if ltb x m then x else x - m)
mod_once x m h = elim (dec_lt x m) [
  | yes p ↦ ground (arith, mod-eq_of_lt p)
  | no p ↦
      let low : (x - m) % m ≡ x - m = mod-eq_of_lt (omega arith) in
      let step : x % m ≡ (x - m) % m = mod-eq-sub-mod (omega arith) in ground arith
]

pub wrap_shift : (h n m : ℕ) → ((h + 1) % m + n) % m ≡ (h + suc n) % m
wrap_shift h n m = mod-add-mod (h + 1) m n ∙ ap (λ k. k % m) (omega arith)

-- Fewer than `m` steps never come back to the start.
pub wrap_ne : (h j k m : ℕ) → h < m → j < k → k < m → (h + j) % m ≢ (h + k) % m
wrap_ne h j k m hh hj hk e = ground (arith, mod_once (h + j) m, mod_once (h + k) m)

module _ {ℓ} {A : Type ℓ} where
  pub window-snoc :
      (f : ℕ → A) (m h n : ℕ)
      → h < m
      → window f m h (suc n) ≡ window f m h n ++ f ((h + n) % m) ∷ []
  window-snoc f m h zero hh = rw (add-zero, mod-eq_of_lt hh)
  window-snoc f m h (suc n) hh =
      ap (λ r. f h ∷ r) (window-snoc f m ((h + 1) % m) n (omega arith) ∙ last)
    where
      last :
          window f m ((h + 1) % m) n ++ f (((h + 1) % m + n) % m) ∷ []
          ≡ window f m ((h + 1) % m) n ++ f ((h + suc n) % m) ∷ []
      last = rw (wrap_shift h n m)

  -- Windows of two buffers that agree off one slot agree if they do not reach it.
  pub window_congr :
      (f g : ℕ → A) (m t : ℕ)
      → ((j : ℕ) → j ≢ t → g j ≡ f j)
      → (h n k : ℕ) → h < m
      → n ≤ k
      → k < m
      → t ≡ (h + k) % m
      → window g m h n ≡ window f m h n
  window_congr f g m t same h zero k hh hn hk e = refl
  window_congr f g m t same h (suc n) zero hh hn hk e = absurd (omega arith)
  window_congr f g m t same h (suc n) (suc k) hh hn hk e = ap₂ ◌∷◌ (same h here) (
      window_congr f g m t same ((h + 1) % m) n k (omega arith) (omega arith) (omega arith)
        (e ∙ sym (wrap_shift h k m)))
    where
      here : h ≢ t
      here q = wrap_ne h 0 (suc k) m hh (omega arith) hk (rw (add-zero, mod-eq_of_lt hh) (q ∙ e))

  -- Storing one more element at the tail appends it.
  pub window-push :
      (f g : ℕ → A) (m t : ℕ) (x : A)
      → ((j : ℕ) → j ≢ t → g j ≡ f j)
      → g t ≡ x
      → (h n : ℕ) → h < m
      → n < m
      → t ≡ (h + n) % m
      → window g m h (suc n) ≡ window f m h n ++ x ∷ []
  window-push f g m t x same new h n hh hn e =
      window-snoc g m h n hh
      ∙ ap₂ (λ w y. w ++ y ∷ []) (window_congr f g m t same h n n hh (omega arith) hn e)
          (ap g (sym e) ∙ new)

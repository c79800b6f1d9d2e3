-- ===== src/Math/MatX/Loops.antt =====
-- Rules for the loops of src/math/matx.c, and buffers as functions of the index.
use native.Mathlib.Nat.{mod-eq_of_lt}
use c_comprehensive_template.Prelude.{
  ℕ, zero, suc, ◌+◌, ◌≤◌, ◌<◌, min, ◌≡◌, ◌≢◌, ◌⊎◌, inl, inr, refl, sym, subst, Bool-cases, true,
  false, length, replicate, length-set, get_or-set_self, get_or-set_ne, ltb, ◌==◌, if◌then◌else◌,
  size_mod, arith,
}
use c_comprehensive_template.Bytes.{add_size}
use c_comprehensive_template.Math.MatX.{
  FloatOps, Ptr, Memory, count_up, for_tiles, read, write, clear,
}

pub range_rule {ℓ κ} :
    {S : Type ℓ} (P : ℕ → S → Type κ) (body : ℕ → S → S) (n start : ℕ)
    → ((i : ℕ) (s : S) → start ≤ i → i < start + n → P i s → P (i + 1) (body i s))
    → (s : S) → P start s
    → P (start + n) (count_up n start body s)
unfolding count_up
range_rule P body zero start step s p = subst (λ i. P i s) (omega arith) p
range_rule P body (suc rounds) start step s p =
    let later =
      range_rule P body rounds (start + 1) (λ i t low high. step i t (omega arith) (omega arith))
        (body start s) (step start s (omega arith) (omega arith) p) in
    subst (λ i. P i (count_up rounds (start + 1) body (body start s))) (omega arith) later

-- Tiles of `block` from ii on do not wrap: ii is 0 or at least a block.
tiles_rule {ℓ κ} :
    {S : Type ℓ} (P : ℕ → S → Type κ) (body : ℕ → ℕ → S → S) (rounds n block ii : ℕ)
    → 0 < block
    → block < size_mod
    → n + n < size_mod
    → (ii ≡ 0) ⊎ (block ≤ ii)
    → n ≤ ii + rounds
    → ((i end : ℕ) (s : S) → i < end → end ≤ n → P i s → P end (body i end s))
    → (s : S) → P (min ii n) s
    → P n (for_tiles rounds n block ii body s)
unfolding for_tiles
tiles_rule P body zero n block ii pos small room from enough step s p =
    let e : min ii n ≡ n = omega arith in rw e at p
tiles_rule P body (suc rounds) n block ii pos small room from enough step s p =
    elim (Bool-cases (ltb ii n)) [
      | inr stops ↦ let e : min ii n ≡ n = ground (arith, stops) in rw stops (rw e at p)
      | inl goes ↦
          let inside : ii < n = ground (arith, goes) in
          let here : min ii n ≡ ii = omega (arith, inside) in
          let sum : add_size ii block ≡ ii + block = mod-eq_of_lt (elim from [
            | inl e ↦ omega (arith, e, small)
            | inr e ↦ omega (arith, e, inside, room)
          ]) in
          let cut : (if ltb (ii + block) n then ii + block else n) ≡ min (ii + block) n =
            ground arith in
          let next =
            step ii (min (ii + block) n) s (omega (arith, inside, pos)) (omega arith)
              (rw here at p) in
          let rest =
            tiles_rule P body rounds n block (ii + block) pos small room (inr (omega arith))
              (omega (arith, enough, pos)) step (body ii (min (ii + block) n) s) next in
          rw goes (rw sum (rw cut rest))
    ]

-- The same from 0 on, with as many rounds as there are indices.
pub tiles_all {ℓ κ} :
    {S : Type ℓ} (P : ℕ → S → Type κ) (body : ℕ → ℕ → S → S) (n block : ℕ)
    → 0 < block
    → block < size_mod
    → n + n < size_mod
    → ((i end : ℕ) (s : S) → i < end → end ≤ n → P i s → P end (body i end s))
    → (s : S) → P 0 s
    → P n (for_tiles n n block 0 body s)
tiles_all P body n block pos small room step s p =
    let e : min 0 n ≡ 0 = omega arith in
    tiles_rule P body n n block 0 pos small room (inl refl) (omega arith) step s
      (subst (λ i. P i s) (sym e) p)

module _ {F : Type 0} (ops : FloatOps F) where
  pub read-write_self :
      (mem : Memory F) (p : Ptr) (i : ℕ) (v : F)
      → i < length (mem p)
      → read ops (write ops mem p i v) p i ≡ v
  unfolding write
  read-write_self mem p i v h =
      let e : (p == p) ≡ true = ground arith in rw e (get_or-set_self (mem p) i v ops.zero_f h)

  pub read-write_ne :
      (mem : Memory F) (p q : Ptr) (i j : ℕ) (v : F)
      → (q ≢ p) ⊎ (i ≢ j)
      → read ops (write ops mem p i v) q j ≡ read ops mem q j
  unfolding write
  read-write_ne mem p q i j v (inl h) = let e : (q == p) ≡ false = ground (arith, h) in rw e refl
  read-write_ne mem p q i j v (inr h) = elim (Bool-cases (q == p)) [
    | inl e ↦
        let same : q ≡ p = ground (arith, e) in
        rw e (rw same (get_or-set_ne (mem p) i j v ops.zero_f h))
    | inr e ↦ rw e refl
  ]

  pub length-write :
      (mem : Memory F) (p q : Ptr) (i : ℕ) (v : F) → length (write ops mem p i v q) ≡ length (mem q)
  unfolding write
  length-write mem p q i v = elim (Bool-cases (q == p)) [
    | inl e ↦ let same : q ≡ p = ground (arith, e) in rw e (rw same (length-set (mem p) i v))
    | inr e ↦ rw e refl
  ]

  pub write_other :
      (mem : Memory F) (p q : Ptr) (i : ℕ) (v : F) → q ≢ p → write ops mem p i v q ≡ mem q
  unfolding write
  write_other mem p q i v h = let e : (q == p) ≡ false = ground (arith, h) in rw e refl

  pub clear_other : (mem : Memory F) (p q : Ptr) (n : ℕ) → q ≢ p → clear ops mem p n q ≡ mem q
  unfolding clear
  clear_other mem p q n h = let e : (q == p) ≡ false = ground (arith, h) in rw e refl

  pub clear_self : (mem : Memory F) (p : Ptr) (n : ℕ) → clear ops mem p n p ≡ replicate n ops.zero_f
  unfolding clear
  clear_self mem p n = let e : (p == p) ≡ true = ground arith in rw e refl

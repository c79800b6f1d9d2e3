-- ===== src/Bytes.antt =====
-- Byte buffers as the C code uses them: `memcpy` into and out of a block, and arrays of elements
-- of `elem_size` bytes. An access out of range reads nothing and writes nothing; the components
-- prove that theirs are in range.
pub mod Heap
pub mod Window
use c_comprehensive_template.Prelude.{
  ℕ, zero, suc, ◌+◌, ◌-◌, ◌*◌, ◌≤◌, ◌<◌, size_mod, ◌%◌, ◌^◌, ◌≡◌, refl, ap, ◌≢◌, Option, some, List,
  [], ◌∷◌, length, take, drop, arith, ◌⊎◌, inl, inr, length-take, dec_lt, Bool-cases, Bool, true,
  false, ◌==◌, ◌&&◌, ◌↔◌, if◌then◌else◌,
}

-- Memory holds bytes.
abbrev pub Block : Type 0
Block = List ℕ

-- `size_t` addition.
abbrev pub add_size : ℕ → ℕ → ℕ
add_size a b = (a + b) % size_mod

-- `size_t` subtraction, of numbers below 2 ^ 64.
abbrev pub sub_size : ℕ → ℕ → ℕ
sub_size a b = (a + (size_mod - b)) % size_mod

abbrev pub overwrite : Block → Block → Block
overwrite mem [] = mem
overwrite [] (s ∷ src) = []
overwrite (m ∷ mem) (s ∷ src) = s ∷ overwrite mem src

-- memcpy(mem + off, src, length src)
abbrev pub write_at : Block → ℕ → Block → Block
write_at mem zero src = overwrite mem src
write_at [] (suc off) src = []
write_at (m ∷ mem) (suc off) src = m ∷ write_at mem off src

-- memcpy(out, mem + off, n)
abbrev pub read_at : Block → ℕ → ℕ → Block
read_at mem off n = take n (drop off mem)

pub length-overwrite : (mem src : Block) → length (overwrite mem src) ≡ length mem
length-overwrite mem [] = refl
length-overwrite [] (s ∷ src) = refl
length-overwrite (m ∷ mem) (s ∷ src) = ap suc (length-overwrite mem src)

pub length-write_at :
    (mem : Block) (off : ℕ) (src : Block) → length (write_at mem off src) ≡ length mem
length-write_at mem zero src = length-overwrite mem src
length-write_at [] (suc off) src = refl
length-write_at (m ∷ mem) (suc off) src = ap suc (length-write_at mem off src)

pub take-overwrite :
    (mem src : Block) → length src ≤ length mem → take (length src) (overwrite mem src) ≡ src
take-overwrite mem [] h = refl
take-overwrite [] (s ∷ src) h = absurd (omega arith)
take-overwrite (m ∷ mem) (s ∷ src) h = ap (λ r. s ∷ r) (take-overwrite mem src (omega arith))

drop-overwrite :
    (mem src : Block) (a : ℕ) → length src ≤ a → drop a (overwrite mem src) ≡ drop a mem
drop-overwrite mem [] a h = refl
drop-overwrite [] (s ∷ src) a h = refl
drop-overwrite (m ∷ mem) (s ∷ src) zero h = absurd (omega arith)
drop-overwrite (m ∷ mem) (s ∷ src) (suc a) h = drop-overwrite mem src a (omega arith)

-- What was copied in is read back.
pub read_at-write_at_self :
    (mem : Block) (off : ℕ) (src : Block)
    → off + length src ≤ length mem
    → read_at (write_at mem off src) off (length src) ≡ src
read_at-write_at_self mem zero src h = take-overwrite mem src (omega arith)
read_at-write_at_self [] (suc off) src h = absurd (omega arith)
read_at-write_at_self (m ∷ mem) (suc off) src h = read_at-write_at_self mem off src (omega arith)

read_at-write_at_above :
    (mem : Block) (off : ℕ) (src : Block) (a n : ℕ)
    → off + length src ≤ a
    → read_at (write_at mem off src) a n ≡ read_at mem a n
read_at-write_at_above mem zero src a n h = ap (take n) (drop-overwrite mem src a (omega arith))
read_at-write_at_above [] (suc off) src a n h = refl
read_at-write_at_above (m ∷ mem) (suc off) src zero n h = absurd (omega arith)
read_at-write_at_above (m ∷ mem) (suc off) src (suc a) n h =
    read_at-write_at_above mem off src a n (omega arith)

read_at-write_at_below :
    (mem : Block) (off : ℕ) (src : Block) (a n : ℕ)
    → a + n ≤ off
    → read_at (write_at mem off src) a n ≡ read_at mem a n
read_at-write_at_below mem zero src zero zero h = refl
read_at-write_at_below mem zero src (suc a) n h = absurd (omega arith)
read_at-write_at_below mem zero src zero (suc n) h = absurd (omega arith)
read_at-write_at_below [] (suc off) src a n h = refl
read_at-write_at_below (m ∷ mem) (suc off) src zero zero h = refl
read_at-write_at_below (m ∷ mem) (suc off) src zero (suc n) h =
    ap (λ r. m ∷ r) (read_at-write_at_below mem off src zero n (omega arith))
read_at-write_at_below (m ∷ mem) (suc off) src (suc a) n h =
    read_at-write_at_below mem off src a n (omega arith)

pub read_at-write_at_ne :
    (mem : Block) (off : ℕ) (src : Block) (a n : ℕ)
    → (a + n ≤ off) ⊎ (off + length src ≤ a)
    → read_at (write_at mem off src) a n ≡ read_at mem a n
read_at-write_at_ne mem off src a n (inl h) = read_at-write_at_below mem off src a n h
read_at-write_at_ne mem off src a n (inr h) = read_at-write_at_above mem off src a n h

-- What lies in the first l bytes is read from them.
pub read_at-take :
    (l : ℕ) (mem : Block) (off n : ℕ) → off + n ≤ l → read_at (take l mem) off n ≡ read_at mem off n
read_at-take l mem off zero h = refl
read_at-take zero mem off (suc n) h = absurd (omega arith)
read_at-take (suc l) [] off (suc n) h = refl
read_at-take (suc l) (m ∷ mem) zero (suc n) h =
    ap (λ r. m ∷ r) (read_at-take l mem zero n (omega arith))
read_at-take (suc l) (m ∷ mem) (suc off) (suc n) h = read_at-take l mem off (suc n) (omega arith)

pub take-length {ℓ} : {A : Type ℓ} (xs : List A) → take (length xs) xs ≡ xs
take-length [] = refl
take-length (x ∷ xs) = ap (λ r. x ∷ r) (take-length xs)

-- Element i of an array of elements of `es` bytes.
unfoldable pub slot : Block → ℕ → ℕ → Block
slot mem es i = read_at mem (i * es) es

-- memcpy(mem + i * es, elem, es)
unfoldable pub set_slot : Block → ℕ → ℕ → Block → Block
set_slot mem es i elem = write_at mem (i * es) (take es elem)

module _ (mem : Block) (es i : ℕ) (x : Block) where
  pub length-set_slot : length (set_slot mem es i x) ≡ length mem
  unfolding set_slot
  length-set_slot = length-write_at mem (i * es) (take es x)

  -- An element is read back where it was stored, in an array of n elements.
  pub slot-set_slot_self :
      (n : ℕ) → i < n → n * es ≤ length mem → length x ≡ es → slot (set_slot mem es i x) es i ≡ x
  unfolding slot set_slot
  slot-set_slot_self n h fits e =
      let all : take es x ≡ x = rw (← e) (take-length x) in
      let room : i * es + length x ≤ length mem = rw e (grind arith) in
      rw all (rw e at (read_at-write_at_self mem (i * es) x room))

  -- Storing one element leaves the others alone.
  pub slot-set_slot_ne : (j : ℕ) → j ≢ i → slot (set_slot mem es i x) es j ≡ slot mem es j
  unfolding slot set_slot
  slot-set_slot_ne j h = read_at-write_at_ne mem (i * es) (take es x) (j * es) es apart
    where
      apart : (j * es + es ≤ i * es) ⊎ (i * es + length (take es x) ≤ j * es)
      apart = elim (dec_lt j i) [
        | yes p ↦ inl (grind arith)
        | no p ↦ inr (
            let few : length (take es x) ≤ es = omega (arith, length-take es x) in
            let gap : i < j = omega arith in grind arith)
      ]

-- What C reads at a pointer: the bytes before the first NUL.
abbrev pub c_string : Block → Block
c_string [] = []
c_string (b ∷ bs) = let rest = c_string bs in if b == 0 then [] else b ∷ rest

-- strcmp(a, b) == 0, on the bytes before the NUL.
unfoldable pub same_text : Block → Block → Bool
same_text [] [] = true
same_text [] (y ∷ ys) = false
same_text (x ∷ xs) [] = false
same_text (x ∷ xs) (y ∷ ys) = x == y && same_text xs ys

pub same_text-eq : (a b : Block) → same_text a b ≡ true → a ≡ b
unfolding same_text
same_text-eq [] [] h = refl
same_text-eq [] (y ∷ ys) h = cc
same_text-eq (x ∷ xs) [] h = cc
same_text-eq (x ∷ xs) (y ∷ ys) h = ground (arith, same_text-eq xs ys)

pub same_text_refl : (a : Block) → same_text a a ≡ true
unfolding same_text
same_text_refl [] = refl
same_text_refl (x ∷ xs) = ground (arith, same_text_refl xs)

pub same_text_iff : (a b : Block) → (same_text a b ≡ true) ↔ (a ≡ b)
same_text_iff a b = (same_text-eq a b, λ e. rw e (same_text_refl b))

-- ===== src/Containers/StrBuf/Ensure.antt =====
-- The representation invariant of `StrBuf`, and how its storage grows.
use native.Mathlib.Nat.{pow-suc, mul_assoc}
use c_comprehensive_template.Prelude.{
  ℕ, zero, suc, ◌+◌, ◌-◌, ◌*◌, ◌/◌, ◌^◌, ◌≤◌, ◌<◌, ◌≡◌, refl, ap, sym, ◌∙◌, Option, some, [], ◌∷◌,
  length, take, arith, dec_lt, Option-cases, inl, inr, ◌⊎◌, size_max,
}
use c_comprehensive_template.Bytes.{Block, read_at, read_at-take}
use c_comprehensive_template.Core.Error.{ErrorCode, ok, nomem, overflow}
use c_comprehensive_template.Memory.Allocator.{Realloc, IsRealloc, bytes_of}
use c_comprehensive_template.Containers.StrBuf.{
  StrBuf, Doubling, settled, too_big, double_until, ensure,
}

abbrev pub text : StrBuf → Block
text sb = take sb.len (bytes_of sb.bytes)

pub record IsValid (sb : StrBuf) : Type 0 where
  pub storage : sb.bytes ≡ some (bytes_of sb.bytes)
  pub fits : length (bytes_of sb.bytes) ≡ sb.capacity
  pub small : sb.capacity < 2 ^ 63
  pub room : sb.len < sb.capacity
  pub ended : read_at (bytes_of sb.bytes) sb.len 1 ≡ 0 ∷ []

-- How the doubling of a capacity n towards `need` ends.
pub data Doubled (n need : ℕ) (out : Doubling) : Type 0 where
  reached : (m : ℕ) → out ≡ settled m → need ≤ m → n ≤ m → Doubled n need out
  no_number : out ≡ too_big → size_max / 2 < need → Doubled n need out

module _ (rounds n need : ℕ) where
  double_stops : ¬ (n < need) → double_until (suc rounds) n need ≡ settled n
  unfolding double_until
  double_stops h = ground arith

  double_overflows : n < need → size_max / 2 < n → double_until (suc rounds) n need ≡ too_big
  unfolding double_until
  double_overflows h large = ground arith

  double_steps :
      n < need
      → ¬ (size_max / 2 < n)
      → double_until (suc rounds) n need ≡ double_until rounds (n * 2) need
  unfolding double_until
  double_steps h small = ground arith

-- With rounds left, the capacity is still so small that they are enough.
double_until_lem :
    (rounds n need : ℕ)
    → 0 < n
    → size_max / 2 < n * 2 ^ rounds
    → Doubled n need (double_until (suc rounds) n need)
unfolding double_until
double_until_lem zero n need pos big = elim (dec_lt n need) [
  | no reach ↦ reached n (ground arith) (omega arith) (omega arith)
  | yes short ↦ no_number (ground arith) (omega arith)
]
double_until_lem (suc rounds) n need pos big = elim (dec_lt n need) [
  | no reach ↦ reached n (double_stops (suc rounds) n need reach) (omega arith) (omega arith)
  | yes short ↦ elim (dec_lt (size_max / 2) n) [
    | yes large ↦ no_number (double_overflows (suc rounds) n need short large) (omega arith)
    | no small ↦
        let next = double_steps (suc rounds) n need short small in
        let later : size_max / 2 < n * 2 * 2 ^ rounds =
          omega (arith, ap (λ k. n * k) (pow-suc 2 rounds), mul_assoc n 2 (2 ^ rounds)) in
        elim (double_until_lem rounds (n * 2) need (omega arith) later) [
          | reached m e high above ↦ reached m (next ∙ e) high (omega arith)
          | no_number e large ↦ no_number (next ∙ e) large
        ]
  ]
]

-- The storage that `ensure` leaves: room for `extra` more bytes, behind the same text.
pub data Ensured (sb : StrBuf) (extra : ℕ) (out : Option (ErrorCode × StrBuf)) : Type 0 where
  roomy :
      (sb' : StrBuf)
      → out ≡ some (ok, sb')
      → IsValid sb'
      → sb'.len ≡ sb.len
      → sb.len + extra < sb'.capacity
      → text sb' ≡ text sb
      → Ensured sb extra out
  refused :
      (e : ErrorCode)
      → out ≡ some (e, sb)
      → (e ≡ overflow) ⊎ (e ≡ nomem)
      → sb.capacity ≤ sb.len + extra
      → Ensured sb extra out

module _ {sb : StrBuf} {realloc : Realloc} (good : IsRealloc realloc) (i : IsValid sb) where
  moved : Block → ℕ → StrBuf
  moved b n = record sb { bytes = some b; capacity = n }

  module _ (n : ℕ) (b : Block) (e : realloc sb.bytes n ≡ some b) (more : sb.capacity ≤ n) where
    kept : (off m : ℕ) → off + m ≤ sb.capacity → read_at b off m ≡ read_at (bytes_of sb.bytes) off m
    kept off m h =
        let l : ℕ = length (bytes_of sb.bytes) in
        sym (read_at-take l b off m (omega (arith, i.fits)))
        ∙ ap (λ c. read_at c off m) (good.kept sb.bytes n b e (omega (arith, i.fits)))

    moved-IsValid : IsValid (moved b n)
    unfolding moved
    moved-IsValid = record {
      storage = refl;
      fits = good.sized sb.bytes n b e;
      small = good.bounded sb.bytes n b e;
      room = omega (arith, i.room);
      ended = kept sb.len 1 (omega (arith, i.room)) ∙ i.ended;
    }

  -- On a valid builder `ensure` makes room for the bytes and a NUL and keeps the text, or reports
  -- ERR_OVERFLOW or ERR_NOMEM and changes nothing; its loop never runs out of rounds.
  pub ensure_lem : (extra : ℕ) → Ensured sb extra (ensure realloc sb extra)
  unfolding ensure
  ensure_lem extra = elim (dec_lt (sb.len + extra) sb.capacity) [
    | yes room ↦ let small = i.small in roomy sb (ground arith) i refl room refl
    | no full ↦ elim (dec_lt (size_max - sb.len - 1) extra) [
      | yes large ↦ refused overflow (ground arith) (inl refl) (omega arith)
      | no fine ↦
          let need : ℕ = sb.len + extra + 1 in
          let room = i.room in
          elim (double_until_lem 64 sb.capacity need (omega arith) (omega arith)) [
            | no_number e large ↦ refused overflow (ground (arith, e)) (inl refl) (omega arith)
            | reached n e high above ↦ elim (Option-cases (realloc sb.bytes n)) [
              | inl r ↦ refused nomem (ground (arith, e, r)) (inr refl) (omega arith)
              | inr (b, r) ↦
                  roomy (moved b n) (unfold moved in ground (arith, e, r))
                    (moved-IsValid n b r above) (unfold moved in refl) (unfold moved in omega arith)
                    (unfold moved in kept n b r above 0 sb.len (omega arith))
            ]
          ]
    ]
  ]

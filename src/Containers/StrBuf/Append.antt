-- ===== src/Containers/StrBuf/Append.antt =====
-- strbuf_append_n, strbuf_appendf and the other operations on the text of a valid builder.
use c_comprehensive_template.Prelude.{
  ℕ, zero, suc, ◌+◌, ◌≤◌, ◌<◌, ◌≡◌, refl, ap, ap₂, sym, ◌∙◌, Option, some, [], ◌∷◌, ◌++◌, length,
  take, arith, length-take, ◌⊎◌, inl, inr,
}
use c_comprehensive_template.Bytes.{
  Block, overwrite, read_at, write_at, length-write_at, read_at-write_at_self, read_at-write_at_ne,
  take-length,
}
use c_comprehensive_template.Core.Error.{ErrorCode, ok, nomem, overflow}
use c_comprehensive_template.Memory.Allocator.{Realloc, IsRealloc, bytes_of}
use c_comprehensive_template.Containers.StrBuf.{
  StrBuf, put_text, append_bytes, append_n, appendf, end_at, behind,
}
use c_comprehensive_template.Containers.StrBuf.Ensure.{IsValid, text, roomy, refused, ensure_lem}

overwrite-append :
    (mem a b : Block) → overwrite mem (a ++ b) ≡ write_at (overwrite mem a) (length a) b
overwrite-append mem [] b = refl
overwrite-append [] (x ∷ a) [] = refl
overwrite-append [] (x ∷ a) (y ∷ b) = refl
overwrite-append (m ∷ mem) (x ∷ a) b = ap (λ r. x ∷ r) (overwrite-append mem a b)

write_at-append :
    (mem : Block) (off : ℕ) (a b : Block)
    → write_at mem off (a ++ b) ≡ write_at (write_at mem off a) (off + length a) b
write_at-append mem zero a b =
    let e : length a ≡ zero + length a = omega arith in
    overwrite-append mem a b ∙ ap (λ k. write_at (overwrite mem a) k b) e
write_at-append [] (suc off) a b =
    let e : suc (off + length a) ≡ suc off + length a = omega arith in ap (λ k. write_at [] k b) e
write_at-append (m ∷ mem) (suc off) a b =
    let e : suc (off + length a) ≡ suc off + length a = omega arith in
    ap (λ r. m ∷ r) (write_at-append mem off a b)
    ∙ ap (λ k. write_at (m ∷ write_at mem off a) k b) e

take-nil : (n : ℕ) → take {A = ℕ} n [] ≡ []
take-nil zero = refl
take-nil (suc n) = refl

take-add : (a n : ℕ) (b : Block) → take (a + n) b ≡ take a b ++ read_at b a n
take-add zero n b = let e : zero + n ≡ n = omega arith in ap (λ k. take k b) e
take-add (suc a) n [] = take-nil (suc a + n) ∙ sym (take-nil n)
take-add (suc a) n (x ∷ b) =
    let e : suc a + n ≡ suc (a + n) = omega arith in
    ap (λ k. take k (x ∷ b)) e ∙ ap (λ r. x ∷ r) (take-add a n b)

module _ {sb : StrBuf} (i : IsValid sb) (s : Block) (n : ℕ) (whole : n ≤ length s)
    (room : sb.len + n < sb.capacity) where
  copied : Block
  copied = write_at (bytes_of sb.bytes) sb.len (take n s)

  length-taken : length (take n s) ≡ n
  length-taken = omega (arith, length-take n s)

  length-copied : length copied ≡ sb.capacity
  unfolding copied
  length-copied = length-write_at (bytes_of sb.bytes) sb.len (take n s) ∙ i.fits

  block_put : bytes_of (put_text sb s n).bytes ≡ end_at copied (sb.len + n)
  unfolding put_text copied
  block_put = let stored = i.storage in ground (arith, stored)

  put_text-IsValid : IsValid (put_text sb s n)
  unfolding put_text
  put_text-IsValid = record {
    storage = let stored = i.storage in ground (arith, stored);
    fits = ap length block_put ∙ length-write_at copied (sb.len + n) (0 ∷ []) ∙ length-copied;
    small = i.small;
    room = room;
    ended =
        ap (λ b. read_at b (sb.len + n) 1) block_put
        ∙ read_at-write_at_self copied (sb.len + n) (0 ∷ []) (omega (arith, length-copied));
  }

  text-put_text : text (put_text sb s n) ≡ text sb ++ take n s
  unfolding put_text copied
  text-put_text =
      let from : ℕ = sb.len in
      let mem : Block = bytes_of sb.bytes in
      let fits : from + length (take n s) ≤ length mem = omega (arith, length-taken, i.fits) in
      ap (take (from + n)) block_put
      ∙ read_at-write_at_ne copied (from + n) (0 ∷ []) 0 (from + n) (inl (omega arith))
      ∙ take-add from n copied
      ∙ ap₂ ◌++◌ (read_at-write_at_ne mem from (take n s) 0 from (inl (omega arith))) (
          ap (read_at copied from) (sym length-taken)
          ∙ read_at-write_at_self mem from (take n s) fits)

-- What an append does: the bytes at the end of the text, or a refusal that changes nothing.
pub data Appended (sb : StrBuf) (added : Block) (out : Option (ErrorCode × StrBuf)) : Type 0 where
  longer :
      (sb' : StrBuf)
      → out ≡ some (ok, sb')
      → IsValid sb'
      → text sb' ≡ text sb ++ added
      → Appended sb added out
  rejected :
      (e : ErrorCode) → out ≡ some (e, sb) → (e ≡ overflow) ⊎ (e ≡ nomem) → Appended sb added out

module _ {sb : StrBuf} {realloc : Realloc} (good : IsRealloc realloc) (i : IsValid sb) where
  append_runs :
      (s : Block) (n : ℕ) (out : Option (ErrorCode × StrBuf))
      → append_bytes realloc sb s n ≡ out
      → append_n realloc (some sb) (some s) n ≡ behind out
  unfolding append_n
  append_runs s n out e = let stored = i.storage in ground (arith, e, stored)

  append_bytes_lem :
      (s : Block) (n : ℕ) → n ≤ length s → Appended sb (take n s) (append_bytes realloc sb s n)
  unfolding append_bytes
  append_bytes_lem s n whole = elim (ensure_lem good i n) [
    | refused e h cause full ↦ elim cause [
      | inl c ↦ rejected e (ground (arith, h, c)) (inl c)
      | inr c ↦ rejected e (ground (arith, h, c)) (inr c)
    ]
    | roomy sb' h j same_len room same ↦
        let fits : sb'.len + n < sb'.capacity = omega arith in
        longer (put_text sb' s n) (ground (arith, h)) (put_text-IsValid j s n whole fits)
          (text-put_text j s n whole fits ∙ ap (λ l. l ++ take n s) same)
  ]

  -- strbuf_append_n of n bytes to a valid builder appends them to its text, keeps it valid and
  -- ended by a NUL, or reports ERR_OVERFLOW or ERR_NOMEM and changes nothing.
  pub append_n_lem :
      (s : Block) (n : ℕ)
      → n ≤ length s
      → (out : Option (ErrorCode × StrBuf)) × (append_n realloc (some sb) (some s) n ≡ behind out)
        × Appended sb (take n s) out
  append_n_lem s n whole =
      (append_bytes realloc sb s n, append_runs s n _ refl, append_bytes_lem s n whole)

  -- strbuf_appendf appends what vsnprintf formats to a valid builder and keeps it valid, or reports
  -- ERR_OVERFLOW or ERR_NOMEM and changes nothing.
  pub appendf_lem : (out : Block) → Appended sb out (appendf realloc sb (some out))
  unfolding appendf put_text
  appendf_lem out = elim (ensure_lem good i (length out)) [
    | refused e h cause full ↦
        let stored = i.storage in
        elim cause [
          | inl c ↦ rejected e (ground (arith, h, c, stored)) (inl c)
          | inr c ↦ rejected e (ground (arith, h, c, stored)) (inr c)
        ]
    | roomy sb' h j same_len room same ↦
        let stored = i.storage in
        let stored' = j.storage in
        let n : ℕ = length out in
        let fits : sb'.len + n < sb'.capacity = omega arith in
        let at_once = write_at-append (bytes_of sb'.bytes) sb'.len out (0 ∷ []) in
        let all : take n out ≡ out = take-length out in
        longer (put_text sb' out n) (ground (arith, h, stored, stored', at_once, all))
          (put_text-IsValid j out n (omega arith) fits)
          (text-put_text j out n (omega arith) fits ∙ ap₂ ◌++◌ same all)
  ]

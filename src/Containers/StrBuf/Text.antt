-- ===== src/Containers/StrBuf/Text.antt =====
-- strbuf_init, strbuf_clear, strbuf_take and strbuf_cstr.
use c_comprehensive_template.Prelude.{
  ℕ, zero, suc, ◌≡◌, ◌≢◌, refl, ap, ◌∙◌, Option, none, some, [], ◌∷◌, take, arith, Option-cases,
  inl, inr, ◌⊎◌,
}
use c_comprehensive_template.Bytes.{
  c_string, Block, read_at, length-write_at, read_at-write_at_self,
}
use c_comprehensive_template.Bytes.Heap.{IsMalloc}
use c_comprehensive_template.Core.Error.{ok}
use c_comprehensive_template.Memory.Allocator.{bytes_of}
use c_comprehensive_template.Containers.StrBuf.{
  StrBuf, init, take_text, clear, cstr, end_at, initial_cap,
}
use c_comprehensive_template.Containers.StrBuf.Ensure.{IsValid, text}

-- A builder that strbuf_init accepted is valid and empty.
pub strbuf_init_lem :
    (malloc : ℕ → Option Block) (sb sb' : StrBuf)
    → IsMalloc malloc
    → init malloc (some sb) ≡ (ok, some sb')
    → IsValid sb' × (text sb' ≡ [])
unfolding init
strbuf_init_lem malloc sb sb' good h = elim (Option-cases (malloc initial_cap)) [
  | inl e ↦ absurd (ground (arith, e))
  | inr (b, e) ↦
      let sized = good.sized initial_cap b e in
      let same : sb' ≡ record { bytes = some (end_at b 0); len = 0; capacity = initial_cap } =
        ground (arith, e) in
      rw same (
        record {
          storage = refl;
          fits = length-write_at b 0 (0 ∷ []) ∙ sized;
          small = omega arith;
          room = omega arith;
          ended = read_at-write_at_self b 0 (0 ∷ []) (omega (arith, sized));
        },
        refl,
      )
]

-- strbuf_clear of a valid builder leaves a valid one with no text and the same storage.
pub clear_lem :
    {sb : StrBuf}
    → IsValid sb
    → (sb' : StrBuf) × (clear (some sb) ≡ some sb')
      × IsValid sb'
      × (text sb' ≡ [])
      × (sb'.capacity ≡ sb.capacity)
unfolding clear
clear_lem {sb} i =
    let stored = i.storage in
    let room = i.room in
    (
      record sb { bytes = some (end_at (bytes_of sb.bytes) 0); len = 0 },
      ground (arith, stored),
      record {
        storage = refl;
        fits = length-write_at (bytes_of sb.bytes) 0 (0 ∷ []) ∙ i.fits;
        small = i.small;
        room = omega arith;
        ended = read_at-write_at_self (bytes_of sb.bytes) 0 (0 ∷ []) (omega (arith, i.fits));
      },
      refl,
      refl,
    )

abbrev pub NoNul : Block → Type 0
NoNul [] = Unit
NoNul (b ∷ bs) = (b ≢ 0) × NoNul bs

c_string_lem :
    (n : ℕ) (mem : Block)
    → NoNul (take n mem)
    → read_at mem n 1 ≡ 0 ∷ []
    → c_string mem ≡ take n mem
c_string_lem zero [] h e = refl
c_string_lem zero (b ∷ mem) h e = ground arith
c_string_lem (suc n) [] h e = refl
c_string_lem (suc n) (b ∷ mem) (h, hs) e = ground (arith, c_string_lem n mem hs e)

-- The C string of a valid builder whose text has no NUL byte is its text.
pub cstr_lem : {sb : StrBuf} → IsValid sb → NoNul (text sb) → c_string (cstr (some sb)) ≡ text sb
unfolding cstr
cstr_lem {sb} i h =
    let stored = i.storage in
    let same : elim sb.bytes [ none ↦ 0 ∷ [] | some b ↦ b ] ≡ bytes_of sb.bytes =
      ground (arith, stored) in
    ap c_string same ∙ c_string_lem sb.len (bytes_of sb.bytes) h i.ended

abbrev destroyed : StrBuf
destroyed = record { bytes = none; len = 0; capacity = 0 }

-- strbuf_take of a valid builder gives its storage away and leaves an empty valid builder, or one
-- without storage if malloc fails.
pub take_text_lem :
    (malloc : ℕ → Option Block) {sb : StrBuf}
    → IsMalloc malloc
    → IsValid sb
    → (sb' : StrBuf) × (take_text malloc (some sb) ≡ (some (bytes_of sb.bytes), some sb'))
      × ((IsValid sb' × (text sb' ≡ [])) ⊎ ((malloc initial_cap ≡ none) × (sb'.bytes ≡ none)))
unfolding take_text init
take_text_lem malloc {sb} good i = elim (Option-cases (malloc initial_cap)) [
  | inl e ↦ let stored = i.storage in (destroyed, ground (arith, stored, e), inr (e, refl))
  | inr (b, e) ↦
      let stored = i.storage in
      let started : StrBuf = record {
        bytes = some (end_at b 0);
        len = 0;
        capacity = initial_cap;
      } in
      let runs : init malloc (some destroyed) ≡ (ok, some started) = ground (arith, e) in
      (started, ground (arith, stored, e), inl (strbuf_init_lem malloc destroyed started good runs))
]

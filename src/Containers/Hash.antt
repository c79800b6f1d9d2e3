-- ===== src/Containers/Hash.antt =====
-- include/containers/hash.h and src/containers/hash.c: FNV-1a and CRC-32, over the words that the C
-- types hold.
use Prim.Native.Nat.{bit_and, bit_xor}
use c_comprehensive_template.Prelude.{
  ℕ, zero, suc, ◌-◌, ◌*◌, ◌/◌, ◌%◌, ◌^◌, ◌≡◌, refl, Option, none, some, [], ◌∷◌, take, length,
}
use c_comprehensive_template.Bytes.{Block}

abbrev pub fnv_offset : ℕ
fnv_offset = 14695981039346656037

abbrev pub fnv_prime : ℕ
fnv_prime = 1099511628211

fnv_loop : ℕ → Block → ℕ
fnv_loop h [] = h
fnv_loop h (b ∷ bs) = fnv_loop (bit_xor h b * fnv_prime % 2 ^ 64) bs

-- A NULL pointer hashes as the empty input.
unfoldable pub fnv1a : Option Block → ℕ → ℕ
unfolding fnv_loop
fnv1a none len = fnv_offset
fnv1a (some p) len = fnv_loop fnv_offset (take len p)

-- The bytes of a C string before its NUL.
unfoldable pub fnv1a_str : Option Block → ℕ
unfolding fnv1a
fnv1a_str none = fnv1a none 0
fnv1a_str (some s) = fnv1a (some s) (length s)

-- One of the eight rounds on a byte: `0u - (crc & 1u)` is all ones or 0.
crc_bit : ℕ → ℕ
crc_bit crc = bit_xor (crc / 2) (bit_and 0xEDB88320 ((2 ^ 32 - bit_and crc 1) % 2 ^ 32))

crc_bits : ℕ → ℕ → ℕ
crc_bits zero crc = crc
crc_bits (suc n) crc = crc_bits n (crc_bit crc)

crc_loop : ℕ → Block → ℕ
crc_loop crc [] = crc
crc_loop crc (b ∷ bs) = crc_loop (crc_bits 8 (bit_xor crc b)) bs

-- `~crc` of a 32-bit word.
unfoldable pub crc32 : Option Block → ℕ → ℕ
unfolding crc_loop crc_bits crc_bit
crc32 none len = 0
crc32 (some p) len = 0xFFFFFFFF - crc_loop 0xFFFFFFFF (take len p)

-- The check values that both algorithms publish.
crc32_check :
    crc32 (some (b'1' ∷ b'2' ∷ b'3' ∷ b'4' ∷ b'5' ∷ b'6' ∷ b'7' ∷ b'8' ∷ b'9' ∷ [])) 9 ≡ 0xCBF43926
unfolding crc32
crc32_check = refl

fnv1a_check : fnv1a_str (some (b'a' ∷ [])) ≡ 0xaf63dc4c8601ec8c
unfolding fnv1a_str
fnv1a_check = refl

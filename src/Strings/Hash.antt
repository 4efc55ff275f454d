-- ===== src/Strings/Hash.antt =====
-- fb_strings/src/string_hash.cpp: the hash functions of a text, in 32 and 64 bits with wrap-around.
use foo_bar.Base.{
  ℕ, zero, suc, ◌+◌, ◌*◌, ◌/◌, ◌%◌, ◌^◌, ◌≡◌, refl, sym, ap, ◌∙◌, true, ◌&&◌, [], ◌∷◌, Bytes, ◌==◌,
  leb, if◌then◌else◌, bit_xor, arith,
}
use foo_bar.Strings.Chars.{to_ascii_lower, is_ascii_upper}
use foo_bar.Strings.Case.{to_lower}
use foo_bar.Strings.Compare.{equals_ignore_case}
use foo_bar.Strings.Compare.IgnoreCase.{equals_ignore_case-eq}

-- The loop of FNV-1a, in a number of bits: `hash ^= c; hash *= prime;`
unfoldable pub fnv1a_from : ℕ → ℕ → ℕ → Bytes → ℕ
fnv1a_from bits prime hash [] = hash
fnv1a_from bits prime hash (c ∷ s) = fnv1a_from bits prime (bit_xor hash c * prime % 2 ^ bits) s

unfoldable pub hash_fnv1a_32 : Bytes → ℕ
hash_fnv1a_32 str = fnv1a_from 32 0x01000193 0x811c9dc5 str

unfoldable pub hash_fnv1a_64 : Bytes → ℕ
hash_fnv1a_64 str = fnv1a_from 64 0x00000100000001b3 0xcbf29ce484222325 str

-- The loop of `hash_djb2`.
unfoldable pub djb2_from : ℕ → Bytes → ℕ
djb2_from hash [] = hash
djb2_from hash (c ∷ s) = djb2_from ((((hash * 2 ^ 5 % 2 ^ 32) + hash) % 2 ^ 32 + c) % 2 ^ 32) s

unfoldable pub hash_djb2 : Bytes → ℕ
hash_djb2 str = djb2_from 5381 str

unfoldable pub to_lower_ascii : ℕ → ℕ
to_lower_ascii c = if leb b'A' c && leb c b'Z' then c + 32 else c

-- The loop of `hash_case_insensitive`.
unfoldable pub case_insensitive_from : ℕ → Bytes → ℕ
case_insensitive_from hash [] = hash
case_insensitive_from hash (c ∷ s) =
    case_insensitive_from (bit_xor hash (to_lower_ascii c) * 0x01000193 % 2 ^ 32) s

unfoldable pub hash_case_insensitive : Bytes → ℕ
hash_case_insensitive str = case_insensitive_from 0x811c9dc5 str

-- An entry of the table, after a number of rounds.
unfoldable pub table_entry : ℕ → ℕ → ℕ
table_entry zero crc = crc
table_entry (suc rounds) crc =
    table_entry rounds (if crc % 2 == 1 then bit_xor (crc / 2) 0xedb88320 else crc / 2)

-- The loop of `crc32`.
unfoldable pub crc_from : ℕ → Bytes → ℕ
crc_from crc [] = crc
crc_from crc (c ∷ s) = crc_from (bit_xor (crc / 2 ^ 8) (table_entry 8 (bit_xor crc c % 256))) s

unfoldable pub crc32 : Bytes → ℕ
crc32 str = bit_xor (crc_from 0xffffffff str) 0xffffffff

-- The hash's own small letters are those of the comparison.
to_lower_ascii-to_ascii_lower : (c : ℕ) → to_lower_ascii c ≡ to_ascii_lower c
unfolding to_lower_ascii to_ascii_lower is_ascii_upper
to_lower_ascii-to_ascii_lower c = ground arith

case_insensitive_from-to_lower :
    (s : Bytes) (hash : ℕ)
    → case_insensitive_from hash s ≡ fnv1a_from 32 0x01000193 hash (to_lower s)
unfolding case_insensitive_from fnv1a_from to_lower
case_insensitive_from-to_lower [] hash = refl
case_insensitive_from-to_lower (c ∷ s) hash =
    ap (λ d. case_insensitive_from (bit_xor hash d * 0x01000193 % 2 ^ 32) s)
      (to_lower_ascii-to_ascii_lower c)
    ∙ case_insensitive_from-to_lower s (bit_xor hash (to_ascii_lower c) * 0x01000193 % 2 ^ 32)

hash_case_insensitive-to_lower : (s : Bytes) → hash_case_insensitive s ≡ hash_fnv1a_32 (to_lower s)
unfolding hash_case_insensitive hash_fnv1a_32
hash_case_insensitive-to_lower s = case_insensitive_from-to_lower s 0x811c9dc5

-- Texts that equals_ignore_case makes equal have the same hash_case_insensitive, and that is
-- the 32 bit FNV-1a hash of the text in small letters.
pub hash_case_insensitive-equals_ignore_case :
    (a b : Bytes)
    → equals_ignore_case a b ≡ true
    → (hash_case_insensitive a ≡ hash_case_insensitive b)
      × (hash_case_insensitive a ≡ hash_fnv1a_32 (to_lower b))
hash_case_insensitive-equals_ignore_case a b same =
    let lower = ap hash_fnv1a_32 ((equals_ignore_case-eq a b).0 same) in
    let whole = hash_case_insensitive-to_lower a ∙ lower in
    (whole ∙ sym (hash_case_insensitive-to_lower b), whole)

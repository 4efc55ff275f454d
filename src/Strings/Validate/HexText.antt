-- ===== src/Strings/Validate/HexText.antt =====
-- fb_strings/src/string_utils.cpp: `from_hex` decodes what `is_hex` accepts, in pairs of digits.
use foo_bar.Base.{
  bit_or, ℕ, ◌*◌, ◌%◌, ◌≡◌, refl, ap, ◌∙◌, true, false, ◌&&◌, ◌||◌, not, [], ◌∷◌, some, Bytes, ◌==◌,
  leb, length, arith, Bool-cases, inl, inr,
}
use foo_bar.Strings.Chars.{is_ascii_digit, hex_value}
use foo_bar.Strings.Hex.{hex_bytes, cons_byte, skip_prefix, from_hex}
use foo_bar.Strings.Replace.{is_nil}
use foo_bar.Strings.Validate.{all_of, is_hex_digit, is_hex, prefixed}

hex_value-is_hex_digit : (c : ℕ) → is_hex_digit c ≡ true → (v : ℕ) × (hex_value c ≡ some v)
unfolding hex_value is_hex_digit
hex_value-is_hex_digit c h = elim (Bool-cases (is_ascii_digit c)) [
  | inl e ↦ rw e (_, refl)
  | inr e ↦ elim (Bool-cases (leb b'a' c && leb c b'f')) [
    | inl e' ↦ rw (e, e') (_, refl)
    | inr e' ↦ elim (Bool-cases (leb b'A' c && leb c b'F')) [
      | inl e'' ↦ rw (e, e', e'') (_, refl)
      | inr e'' ↦ absurd (ground arith)
    ]
  ]
]

all_of-pair :
    (a b : ℕ) (s : Bytes)
    → all_of is_hex_digit (a ∷ b ∷ s) ≡ true
    → (is_hex_digit a ≡ true) × (is_hex_digit b ≡ true) × (all_of is_hex_digit s ≡ true)
unfolding all_of
all_of-pair a b s h = (ground arith, ground arith, ground arith)

-- Two digits give a byte.
hex_bytes-all_of :
    (s : Bytes)
    → all_of is_hex_digit s ≡ true
    → length s % 2 ≡ 0
    → (out : Bytes) × (hex_bytes s ≡ some out) × (length out * 2 ≡ length s)
unfolding hex_bytes cons_byte
hex_bytes-all_of [] h even = ([], refl, refl)
hex_bytes-all_of (a ∷ []) h even = absurd (omega arith)
hex_bytes-all_of (a ∷ b ∷ s) h even =
    let (ha, hb, hs) = all_of-pair a b s h in
    let (high, there) = hex_value-is_hex_digit a ha in
    let (low, there') = hex_value-is_hex_digit b hb in
    let (out, rest, half) = hex_bytes-all_of s hs (omega arith) in
    (
      bit_or (high * 16) low ∷ out,
      ap (λ x. cons_byte x (hex_value b) (hex_bytes s)) there
          ∙ ap (λ y. cons_byte (some high) y (hex_bytes s)) there'
          ∙ ap (cons_byte (some high) (some low)) rest,
      omega (arith, half),
    )

-- The two prefixes are the same.
is_hex-skip_prefix : (s : Bytes) → is_hex s true ≡ true → all_of is_hex_digit (skip_prefix s) ≡ true
unfolding is_hex prefixed skip_prefix is_nil all_of
is_hex-skip_prefix [] h = refl
is_hex-skip_prefix (a ∷ []) h = h
is_hex-skip_prefix (a ∷ b ∷ s) h = ground arith

length-skip_prefix : (s : Bytes) → length (skip_prefix s) % 2 ≡ length s % 2
unfolding skip_prefix
length-skip_prefix [] = refl
length-skip_prefix (a ∷ []) = refl
length-skip_prefix (a ∷ b ∷ s) = elim (Bool-cases (a == b'0' && (b == b'x' || b == b'X'))) [
  | inl e ↦ rw e (omega arith)
  | inr e ↦ rw e refl
]

-- from_hex decodes each text with an even number of characters that is_hex accepts, to a byte
-- for each two digits behind the prefix.
pub from_hex-is_hex :
    (s : Bytes)
    → is_hex s true ≡ true
    → length s % 2 ≡ 0
    → (out : Bytes) × (from_hex s ≡ some out) × (length out * 2 ≡ length (skip_prefix s))
unfolding from_hex
from_hex-is_hex s h even =
    let same = length-skip_prefix s in
    let (out, read, half) =
      hex_bytes-all_of (skip_prefix s) (is_hex-skip_prefix s h) (omega (arith, same)) in
    let paired : not (length (skip_prefix s) % 2 == 0) ≡ false = ground (arith, same) in
    (out, rw paired read, half)

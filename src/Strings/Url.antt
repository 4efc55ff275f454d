-- ===== src/Strings/Url.antt =====
-- fb_strings/src/string_utils.cpp: `url_encode` and `url_decode`.
use foo_bar.Base.{
  ℕ, zero, suc, ◌/◌, ◌≡◌, refl, ap, ◌∙◌, Bool, true, ◌&&◌, ◌||◌, [], ◌∷◌, Option, none, some, Bytes,
  IsByte, All, ◌==◌, if◌then◌else◌, bit_and, arith, Bool-cases, inl, inr,
}
use foo_bar.Strings.Chars.{
  is_ascii_alpha, is_ascii_digit, hex_value, hex_char, holds_below, holds_below_lem,
}
use foo_bar.Strings.Hex.{cons_byte, cons_byte-digits}

unfoldable pub is_unreserved : ℕ → Bool
unfolding is_ascii_alpha is_ascii_digit
is_unreserved c =
    is_ascii_alpha c || is_ascii_digit c || c == b'-' || c == b'_' || c == b'.' || c == b'~'

unfoldable pub url_encode : Bytes → Bytes
url_encode [] = []
url_encode (c ∷ s) =
    let rest = url_encode s in
    if is_unreserved c
    then c ∷ rest
    else b'%' ∷ hex_char (c / 16) true ∷ hex_char (bit_and c 0x0f) true ∷ rest

-- `result.push_back(c)`, with what the later rounds push.
unfoldable pub push : ℕ → Option Bytes → Option Bytes
push c none = none
push c (some rest) = some (c ∷ rest)

-- The byte of the two digits behind a `%`; nothing if fewer than two characters are left.
unfoldable pub escaped_byte : Bytes → Option Bytes → Option Bytes
unfolding cons_byte
escaped_byte (a ∷ b ∷ s) rest = cons_byte (hex_value a) (hex_value b) rest
escaped_byte s rest = none

-- The loop of `url_decode`; the first argument counts the characters that `i += 2` passes over.
unfoldable pub decode_from : ℕ → Bytes → Option Bytes
unfolding push escaped_byte
decode_from skip [] = some []
decode_from (suc skip) (c ∷ s) = decode_from skip s
decode_from zero (c ∷ s) =
    let escaped = escaped_byte s (decode_from 2 s) in
    let rest = decode_from 0 s in
    if c == b'%' then escaped else if c == b'+' then push 0x20 rest else push c rest

unfoldable pub url_decode : Bytes → Option Bytes
url_decode s = decode_from 0 s

decode-unreserved :
    (c : ℕ) (s : Bytes) → is_unreserved c ≡ true → decode_from 0 (c ∷ s) ≡ push c (decode_from 0 s)
unfolding decode_from is_unreserved
decode-unreserved c s h = ground arith

-- Every sequence of bytes is read back from its URL encoding.
pub url_decode-url_encode : (s : Bytes) → All IsByte s → url_decode (url_encode s) ≡ some s
unfolding url_decode url_encode decode_from
url_decode-url_encode [] h = refl
url_decode-url_encode (c ∷ s) (hc, hs) = elim (Bool-cases (is_unreserved c)) [
  | inl e ↦ rw e (decode-unreserved c (url_encode s) e ∙ ap (push c) (url_decode-url_encode s hs))
  | inr e ↦ rw (e, url_decode-url_encode s hs) (cons_byte-digits true c s hc)
]

-- What an encoded text is made of.
url_safe : ℕ → Bool
unfolding is_unreserved
url_safe c = is_unreserved c || c == b'%'

digits_safe : ℕ → Bool
digits_safe c = url_safe (hex_char (c / 16) true) && url_safe (hex_char (bit_and c 0x0f) true)

digits_safe_table : holds_below digits_safe 256 ≡ true
unfolding digits_safe holds_below url_safe hex_char
digits_safe_table = refl

digits :
    (c : ℕ)
    → digits_safe c ≡ true
    → (url_safe (hex_char (c / 16) true) ≡ true)
      × (url_safe (hex_char (bit_and c 0x0f) true) ≡ true)
unfolding digits_safe
digits c h = (ground arith, ground arith)

-- An encoded text holds unreserved characters and `%` alone.
pub url_encode-All :
    (s : Bytes) → All IsByte s → All (λ c. (is_unreserved c || c == b'%') ≡ true) (url_encode s)
unfolding url_encode url_safe
url_encode-All [] h = tt
url_encode-All (c ∷ s) (hc, hs) = elim (Bool-cases (is_unreserved c)) [
  | inl e ↦ rw e (rw e refl, url_encode-All s hs)
  | inr e ↦
      let table = holds_below_lem digits_safe 256 digits_safe_table hc in
      let (high, low) = digits c table in rw e (refl, (high, (low, url_encode-All s hs)))
]

-- ===== src/Strings/Base64.antt =====
-- fb_strings/src/string_utils.cpp: `to_base64` and `from_base64`.
pub mod RoundTrip
use foo_bar.Base.{
  ℕ, zero, suc, ◌+◌, ◌-◌, ◌*◌, ◌/◌, ◌%◌, ◌^◌, ◌<◌, ◌≡◌, refl, sym, ap, ◌∙◌, Bool, true, false, ◌&&◌,
  ◌||◌, not, List, [], ◌∷◌, ◌++◌, Option, none, some, Bytes, IsByte, All, codes, leb, ltb, ◌==◌,
  if◌then◌else◌, bit_and, bit_or, get_elem?, length, arith, Bool-cases, inl, inr, ==_iff,
}
use foo_bar.Base.Bits.{bit_or-shifted, bit_and-mask}
use foo_bar.Strings.Chars.{is_whitespace, holds_below, holds_below_lem}

abbrev pub base64_chars : Bytes
base64_chars = codes "ABCDEFGHIJKLMNOPQRSTUVWXYZabcdefghijklmnopqrstuvwxyz0123456789+/"

-- `BASE64_CHARS[value]`; the callers' values are below 64.
unfoldable pub base64_char : ℕ → ℕ
base64_char value = elim (get_elem? base64_chars value) [ some c ↦ c | none ↦ 0 ]

-- `none` is the result -1.
unfoldable pub base64_index : ℕ → Option ℕ
base64_index c =
    if leb b'A' c && leb c b'Z'
    then some (c - b'A')
    else if leb b'a' c && leb c b'z'
    then some (c - b'a' + 26)
    else if leb b'0' c && leb c b'9'
    then some (c - b'0' + 52)
    else if c == b'+'
    then some 62
    else if c == b'/'
    then some 63
    else none

abbrev pub padding : ℕ
padding = b'='

unfoldable pub triple : ℕ → ℕ → ℕ → ℕ
triple a b c = bit_or (bit_or (a * 2 ^ 16) (b * 2 ^ 8)) c

-- `BASE64_CHARS[(triple >> shift) & 0x3F]`
unfoldable pub sextet : ℕ → ℕ → ℕ
sextet t shift = base64_char (bit_and (t / 2 ^ shift) 0x3f)

-- The loop takes three bytes a round; one or two bytes at the end are padded.
unfoldable pub to_base64 : Bytes → Bytes
to_base64 [] = []
to_base64 (a ∷ []) = let t = a * 2 ^ 16 in sextet t 18 ∷ sextet t 12 ∷ padding ∷ padding ∷ []
to_base64 (a ∷ b ∷ []) =
    let t = bit_or (a * 2 ^ 16) (b * 2 ^ 8) in sextet t 18 ∷ sextet t 12 ∷ sextet t 6 ∷ padding ∷ []
to_base64 (a ∷ b ∷ c ∷ s) =
    let t = triple a b c in sextet t 18 ∷ sextet t 12 ∷ sextet t 6 ∷ sextet t 0 ∷ to_base64 s

-- White space is removed first.
unfoldable pub clean : Bytes → Bytes
clean [] = []
clean (c ∷ s) = let rest = clean s in if is_whitespace c then rest else c ∷ rest

-- The value of a third or fourth character, where padding counts as 0.
unfoldable pub index_or_padding : ℕ → Option ℕ
unfolding base64_index
index_or_padding c = if c == padding then some 0 else base64_index c

-- The 24 bits of four values; nothing if a character stands for none.
unfoldable pub join_sextets : Option ℕ → Option ℕ → Option ℕ → Option ℕ → Option ℕ
join_sextets (some v0) (some v1) (some v2) (some v3) =
    some (bit_or (bit_or (bit_or (v0 * 2 ^ 18) (v1 * 2 ^ 12)) (v2 * 2 ^ 6)) v3)
join_sextets (some v0) (some v1) (some v2) none = none
join_sextets (some v0) (some v1) none v3 = none
join_sextets (some v0) none v2 v3 = none
join_sextets none v1 v2 v3 = none

-- What a round pushes: one byte, and one for each further character that is no padding.
unfoldable pub pushed_bytes : ℕ → ℕ → ℕ → Bytes
pushed_bytes t c d =
    bit_and (t / 2 ^ 16) 0xff ∷ (if c == padding then [] else bit_and (t / 2 ^ 8) 0xff ∷ [])
    ++ (if d == padding then [] else bit_and t 0xff ∷ [])

-- The loop of `from_base64`; with a length divisible by 4 the third clause is not reached.
unfoldable pub groups : Bytes → Option Bytes
groups [] = some []
groups (a ∷ b ∷ c ∷ d ∷ s) =
    elim (join_sextets (base64_index a) (base64_index b) (index_or_padding c)
      (index_or_padding d)) [
        | none ↦ none
        | some t ↦ elim (groups s) [ none ↦ none | some rest ↦ some (pushed_bytes t c d ++ rest) ]
      ]
groups s = none

unfoldable pub from_base64 : Bytes → Option Bytes
from_base64 [] = some []
from_base64 (c ∷ s) =
    let text = clean (c ∷ s) in if not (length text % 4 == 0) then none else groups text

-- ===== src/Strings/Json.antt =====
-- fb_strings/src/string_utils.cpp: `json_escape` and `json_unescape`.
use foo_bar.Base.{
  ℕ, zero, suc, ◌*◌, ◌/◌, ◌^◌, ◌<◌, ◌≡◌, refl, Bool, true, false, [], ◌∷◌, ◌++◌, Option, none, some,
  Bytes, ltb, ◌==◌, if◌then◌else◌, bit_and, bit_or, arith,
}
use foo_bar.Strings.Chars.{hex_value, hex_char, holds_below, holds_below_lem}

abbrev pub backslash : ℕ
backslash = 0x5c

abbrev pub quote : ℕ
quote = 0x22

-- `case` by `case`, what is appended for one character.
unfoldable pub json_entity : ℕ → Bytes
json_entity c =
    if c == quote
    then backslash ∷ quote ∷ []
    else if c == backslash
    then backslash ∷ backslash ∷ []
    else if c == 0x08
    then backslash ∷ b'b' ∷ []
    else if c == 0x0c
    then backslash ∷ b'f' ∷ []
    else if c == 0x0a
    then backslash ∷ b'n' ∷ []
    else if c == 0x0d
    then backslash ∷ b'r' ∷ []
    else if c == 0x09
    then backslash ∷ b't' ∷ []
    else if ltb c 0x20
    then backslash
      ∷ b'u'
      ∷ b'0'
      ∷ b'0'
      ∷ hex_char (c / 16) false
      ∷ hex_char (bit_and c 0x0f) false
      ∷ []
    else c ∷ []

unfoldable pub json_escape : Bytes → Bytes
unfolding json_entity
json_escape [] = []
json_escape (c ∷ s) = json_entity c ++ json_escape s

-- The bytes of a code point below 0x10000.
unfoldable pub utf8_bytes : ℕ → Bytes
utf8_bytes cp =
    if ltb cp 0x80
    then cp ∷ []
    else if ltb cp 0x800
    then bit_or 0xc0 (cp / 2 ^ 6) ∷ bit_or 0x80 (bit_and cp 0x3f) ∷ []
    else bit_or 0xe0 (cp / 2 ^ 12)
      ∷ bit_or 0x80 (bit_and (cp / 2 ^ 6) 0x3f)
      ∷ bit_or 0x80 (bit_and cp 0x3f)
      ∷ []

-- The code point of four digits.
unfoldable pub code_point : Option ℕ → Option ℕ → Option ℕ → Option ℕ → Option ℕ
code_point (some a) (some b) (some c) (some d) =
    some (bit_or (bit_or (bit_or (a * 2 ^ 12) (b * 2 ^ 8)) (c * 2 ^ 4)) d)
code_point (some a) (some b) (some c) none = none
code_point (some a) (some b) none d = none
code_point (some a) none c d = none
code_point none b c d = none

-- `case 'u'`: nothing if fewer than four characters are left, or one is no digit.
unfoldable pub unicode_escape : Bytes → Option Bytes
unfolding code_point utf8_bytes
unicode_escape (a ∷ b ∷ c ∷ d ∷ s) =
    elim (code_point (hex_value a) (hex_value b) (hex_value c) (hex_value d)) [
      | none ↦ none
      | some cp ↦ some (utf8_bytes cp)
    ]
unicode_escape s = none

-- `switch (str[i + 1])`: what is pushed, and by how much `i` moves beside the step of the loop.
unfoldable pub escape_at : ℕ → Bytes → Option (Bytes × ℕ)
unfolding unicode_escape
escape_at c s =
    if c == quote
    then some (quote ∷ [], 1)
    else if c == backslash
    then some (backslash ∷ [], 1)
    else if c == b'/'
    then some (b'/' ∷ [], 1)
    else if c == b'b'
    then some (0x08 ∷ [], 1)
    else if c == b'f'
    then some (0x0c ∷ [], 1)
    else if c == b'n'
    then some (0x0a ∷ [], 1)
    else if c == b'r'
    then some (0x0d ∷ [], 1)
    else if c == b't'
    then some (0x09 ∷ [], 1)
    else if c == b'u'
    then elim (unicode_escape s) [ none ↦ none | some bytes ↦ some (bytes, 5) ]
    else none

-- What a round pushes, in front of what the later rounds push.
unfoldable pub push_all : Bytes → Option Bytes → Option Bytes
push_all pushed none = none
push_all pushed (some rest) = some (pushed ++ rest)

-- A round at character `c` with the rest `s` behind it; a backslash at the end is plain.
unfoldable pub round_at : ℕ → Bytes → Option (Bytes × ℕ)
unfolding escape_at
round_at c [] = some (c ∷ [], 0)
round_at c (d ∷ s) = if c == backslash then escape_at d s else some (c ∷ [], 0)

-- The loop of `json_unescape`; the first argument counts the characters still to be passed over.
unfoldable pub unescape_from : ℕ → Bytes → Option Bytes
unfolding push_all
unescape_from skip [] = some []
unescape_from (suc skip) (c ∷ s) = unescape_from skip s
unescape_from zero (c ∷ s) = elim (round_at c s) [
  | none ↦ none
  | some (pushed, moved) ↦ push_all pushed (unescape_from moved s)
]

unfoldable pub json_unescape : Bytes → Option Bytes
json_unescape s = unescape_from 0 s

-- What a control character is read back from.
control_digits : ℕ → Bool
control_digits c =
    elim (code_point (hex_value b'0') (hex_value b'0') (hex_value (hex_char (c / 16) false))
      (hex_value (hex_char (bit_and c 0x0f) false))) [ none ↦ false | some cp ↦ cp == c ]

control_table : holds_below control_digits 32 ≡ true
unfolding holds_below control_digits code_point hex_value hex_char
control_table = refl

control_code :
    (c : ℕ)
    → c < 32
    → code_point
        (hex_value b'0')
        (hex_value b'0')
        (hex_value (hex_char (c / 16) false))
        (hex_value (hex_char (bit_and c 0x0f) false))
      ≡ some c
unfolding control_digits
control_code c h = let table = holds_below_lem control_digits 32 control_table h in ground arith

unescape-entity :
    (c : ℕ) (rest : Bytes)
    → unescape_from 0 (json_entity c ++ rest) ≡ push_all (c ∷ []) (unescape_from 0 rest)
unfolding unescape_from json_entity round_at
unescape-entity c [] = ground (arith, control_code c)
unescape-entity c (d ∷ rest) = ground (arith, control_code c)

-- Every text is read back from its escaped form, control characters included.
pub json_unescape-json_escape : (s : Bytes) → json_unescape (json_escape s) ≡ some s
unfolding json_unescape json_escape
json_unescape-json_escape [] = unfold unescape_from in refl
json_unescape-json_escape (c ∷ s) =
    rw (unescape-entity c (json_escape s), json_unescape-json_escape s) (unfold push_all in refl)

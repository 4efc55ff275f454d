-- ===== src/Strings/Chars.antt =====
-- fb_strings/src/string_utils.cpp, the internal helpers on one character.
use foo_bar.Base.{
  ℕ, zero, suc, ◌+◌, ◌-◌, ◌<◌, ◌≡◌, Bool, true, ◌&&◌, ◌||◌, Option, none, some, leb, ltb, ◌==◌,
  if◌then◌else◌, arith, false, Bool-cases, inl, inr,
}

unfoldable pub is_whitespace : ℕ → Bool
is_whitespace c = c == 0x20 || c == 0x09 || c == 0x0a || c == 0x0d || c == 0x0c || c == 0x0b

unfoldable pub is_ascii_upper : ℕ → Bool
is_ascii_upper c = leb b'A' c && leb c b'Z'

unfoldable pub is_ascii_lower : ℕ → Bool
is_ascii_lower c = leb b'a' c && leb c b'z'

unfoldable pub is_ascii_digit : ℕ → Bool
is_ascii_digit c = leb b'0' c && leb c b'9'

unfoldable pub is_ascii_alpha : ℕ → Bool
unfolding is_ascii_upper is_ascii_lower
is_ascii_alpha c = is_ascii_upper c || is_ascii_lower c

unfoldable pub to_ascii_upper : ℕ → ℕ
unfolding is_ascii_lower
to_ascii_upper c = if is_ascii_lower c then c - b'a' + b'A' else c

unfoldable pub to_ascii_lower : ℕ → ℕ
unfolding is_ascii_upper
to_ascii_lower c = if is_ascii_upper c then c - b'A' + b'a' else c

-- `none` is the result -1.
unfoldable pub hex_value : ℕ → Option ℕ
unfolding is_ascii_digit
hex_value c =
    if is_ascii_digit c
    then some (c - b'0')
    else if leb b'a' c && leb c b'f'
    then some (c - b'a' + 10)
    else if leb b'A' c && leb c b'F'
    then some (c - b'A' + 10)
    else none

unfoldable pub hex_char : ℕ → Bool → ℕ
hex_char value uppercase =
    if ltb value 10 then b'0' + value else (if uppercase then b'A' else b'a') + value - 10

-- A test that all numbers under a bound pass, so that a fact about bytes is a computation.
unfoldable pub holds_below : (ℕ → Bool) → ℕ → Bool
holds_below test zero = true
holds_below test (suc bound) = if test bound then holds_below test bound else false

pub holds_below_lem :
    (test : ℕ → Bool) (bound : ℕ)
    → holds_below test bound ≡ true
    → {c : ℕ} → c < bound
    → test c ≡ true
unfolding holds_below
holds_below_lem test zero passed below = absurd (omega arith)
holds_below_lem test (suc bound) passed {c} below = elim (Bool-cases (c == bound)) [
  | inl last ↦ ground arith
  | inr earlier ↦ holds_below_lem test bound (ground arith) (ground arith)
]

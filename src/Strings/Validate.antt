-- ===== src/Strings/Validate.antt =====
-- fb_strings/src/string_utils.cpp: the tests of what a text consists of. A `char` from 128 on is
-- neither printable nor an octal digit, whether it is negative or not.
pub mod Accepted
pub mod HexText
use foo_bar.Base.{
  ℕ, ◌≤◌, Bool, true, false, ◌&&◌, ◌||◌, not, [], ◌∷◌, Bytes, ◌==◌, ltb, leb, if◌then◌else◌,
}
use foo_bar.Strings.Chars.{is_whitespace, is_ascii_digit, is_ascii_alpha}
use foo_bar.Strings.Replace.{is_nil}

-- `std::all_of`
unfoldable pub all_of : (ℕ → Bool) → Bytes → Bool
all_of test [] = true
all_of test (c ∷ s) = test c && all_of test s

unfoldable pub is_hex_digit : ℕ → Bool
is_hex_digit c = is_ascii_digit c || (leb b'a' c && leb c b'f') || (leb b'A' c && leb c b'F')

unfoldable pub is_blank : Bytes → Bool
is_blank str = all_of is_whitespace str

unfoldable pub is_numeric : Bytes → Bool
is_numeric str = if is_nil str then false else all_of is_ascii_digit str

unfoldable pub is_integer : Bytes → Bool
is_integer [] = false
is_integer (c ∷ s) =
    if c == b'+' || c == b'-'
    then if is_nil s then false else all_of is_ascii_digit s
    else all_of is_ascii_digit (c ∷ s)

-- `str[pos] == '+' || str[pos] == '-'`, passed over.
unfoldable pub skip_sign : Bytes → Bytes
skip_sign [] = []
skip_sign (c ∷ s) = if c == b'+' || c == b'-' then s else c ∷ s

-- A loop over digits: whether there is one, and the text behind them.
unfoldable pub starts_digit : Bytes → Bool
starts_digit [] = false
starts_digit (c ∷ s) = is_ascii_digit c

unfoldable pub skip_digits : Bytes → Bytes
skip_digits [] = []
skip_digits (c ∷ s) = let later = skip_digits s in if is_ascii_digit c then later else c ∷ s

-- From the exponent on.
unfoldable pub ends_float : Bytes → Bool
ends_float [] = true
ends_float (c ∷ s) =
    let t = skip_sign s in
    if c == b'e' || c == b'E'
    then if not (starts_digit t) then false else is_nil (skip_digits t)
    else false

-- From the decimal point on, behind an integer part with or without digits.
unfoldable pub decimal_float : Bool → Bytes → Bool
decimal_float has_digits [] = has_digits && ends_float []
decimal_float has_digits (c ∷ s) =
    if c == b'.'
    then (has_digits || starts_digit s) && ends_float (skip_digits s)
    else has_digits && ends_float (c ∷ s)

unfoldable pub is_float : Bytes → Bool
is_float str =
    let s = skip_sign str in
    if is_nil str || is_nil s then false else decimal_float (starts_digit s) (skip_digits s)

unfoldable pub is_alpha : Bytes → Bool
is_alpha str = if is_nil str then false else all_of is_ascii_alpha str

unfoldable pub is_alphanumeric : Bytes → Bool
is_alphanumeric str =
    if is_nil str then false else all_of (λ c. is_ascii_alpha c || is_ascii_digit c) str

-- The digits behind the prefix that the letters name, which must not be all.
unfoldable pub prefixed : ℕ → ℕ → (ℕ → Bool) → Bytes → Bool
prefixed lower upper test (a ∷ b ∷ s) =
    if a == b'0' && (b == lower || b == upper)
    then if is_nil s then false else all_of test s
    else all_of test (a ∷ b ∷ s)
prefixed lower upper test s = all_of test s

unfoldable pub is_hex : Bytes → Bool → Bool
is_hex str allow_prefix =
    if is_nil str
    then false
    else if allow_prefix
    then prefixed b'x' b'X' is_hex_digit str
    else all_of is_hex_digit str

unfoldable pub is_binary_digit : ℕ → Bool
is_binary_digit c = c == b'0' || c == b'1'

unfoldable pub is_binary : Bytes → Bool → Bool
is_binary str allow_prefix =
    if is_nil str
    then false
    else if allow_prefix
    then prefixed b'b' b'B' is_binary_digit str
    else all_of is_binary_digit str

unfoldable pub is_octal_digit : ℕ → Bool
is_octal_digit c = leb b'0' c && leb c b'7'

-- The other prefix, a zero, is passed over.
unfoldable pub old_prefix : Bytes → Bytes
old_prefix [] = []
old_prefix (a ∷ []) = a ∷ []
old_prefix (a ∷ b ∷ s) = if a == b'0' then b ∷ s else a ∷ b ∷ s

unfoldable pub octal_from : Bytes → Bool
octal_from (a ∷ b ∷ s) =
    if a == b'0' && (b == b'o' || b == b'O')
    then if is_nil s then false else all_of is_octal_digit s
    else all_of is_octal_digit (old_prefix (a ∷ b ∷ s))
octal_from s = all_of is_octal_digit (old_prefix s)

unfoldable pub is_octal : Bytes → Bool → Bool
is_octal str allow_prefix =
    if is_nil str then false else if allow_prefix then octal_from str else all_of is_octal_digit str

unfoldable pub is_ascii : Bytes → Bool
is_ascii str = all_of (λ c. ltb c 128) str

unfoldable pub is_printable : Bytes → Bool
is_printable str = all_of (λ c. leb 32 c && leb c 126) str

unfoldable pub is_identifier : Bytes → Bool
is_identifier [] = false
is_identifier (c ∷ s) =
    if not (is_ascii_alpha c) && not (c == b'_')
    then false
    else all_of (λ d. is_ascii_alpha d || is_ascii_digit d || d == b'_') s

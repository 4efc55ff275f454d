-- ===== src/Strings/Numbers.antt =====
-- fb_strings/src/string_utils.cpp: texts as whole numbers and whole numbers as texts. `std::from_chars`
-- takes digits as long as they are digits of the base, wants one at least, and refuses a number
-- out of the range of its type; the widths of `long` and of `long long` are arguments.
mod Digits
pub mod RoundTrip
use foo_bar.Base.{
  ℕ, zero, suc, ◌+◌, ◌-◌, ◌*◌, ◌/◌, ◌%◌, ◌^◌, ◌≡◌, Bool, true, false, ◌&&◌, ◌||◌, List, [], ◌∷◌,
  ◌++◌, Option, none, some, Bytes, ◌==◌, ltb, leb, if◌then◌else◌,
}
use foo_bar.Strings.Chars.{is_ascii_digit, is_ascii_lower, is_ascii_upper}
use foo_bar.Strings.Trim.{trim}
use foo_bar.Strings.Replace.{is_nil}

-- `negsuc n` is the number -1 - n.
pub data ℤ : Type 0 where
  pos : ℕ → ℤ
  negsuc : ℕ → ℤ

unfoldable pub negate : ℕ → ℤ
negate zero = pos 0
negate (suc n) = negsuc n

-- The types of numbers, with their widths in bits.
pub data Kind : Type 0 where
  signed : ℕ → Kind
  unsigned : ℕ → Kind

unfoldable pub in_range : Kind → ℤ → Bool
in_range (signed bits) (pos n) = ltb n (2 ^ (bits - 1))
in_range (signed bits) (negsuc n) = ltb n (2 ^ (bits - 1))
in_range (unsigned bits) (pos n) = ltb n (2 ^ bits)
in_range (unsigned bits) (negsuc n) = false

-- A digit's number, and 36 for a character that is a digit in no base.
unfoldable pub digit_number : ℕ → ℕ
digit_number c =
    if is_ascii_digit c
    then c - b'0'
    else if is_ascii_lower c
    then c - b'a' + 10
    else if is_ascii_upper c
    then c - b'A' + 10
    else 36

-- The number that the digits give behind those already read, and the text behind them.
unfoldable pub read_digits : ℕ → ℕ → Bytes → ℕ × Bytes
read_digits base n [] = (n, [])
read_digits base n (c ∷ s) = elim (ltb (digit_number c) base) [
  | true ↦ read_digits base (n * base + digit_number c) s
  | false ↦ (n, c ∷ s)
]

unfoldable pub read_number : ℕ → Bytes → Option (ℕ × Bytes)
read_number base [] = none
read_number base (c ∷ s) =
    if ltb (digit_number c) base then some (read_digits base 0 (c ∷ s)) else none

-- A number that was read, with its sign, where it is in the range of the type.
unfoldable pub check_range : Kind → (ℕ → ℤ) → Option (ℕ × Bytes) → Option (ℤ × Bytes)
check_range kind sign none = none
check_range kind sign (some (n, rest)) =
    if in_range kind (sign n) then some (sign n, rest) else none

unfoldable pub read_in : Kind → (ℕ → ℤ) → ℕ → Bytes → Option (ℤ × Bytes)
read_in kind sign base s = check_range kind sign (read_number base s)

-- `std::from_chars`: the number and the text behind it; `none` is an error.
unfoldable pub from_chars : Kind → ℕ → Bytes → Option (ℤ × Bytes)
from_chars (unsigned bits) base s = read_in (unsigned bits) pos base s
from_chars (signed bits) base [] = none
from_chars (signed bits) base (c ∷ s) =
    if c == b'-'
    then read_in (signed bits) negate base s
    else read_in (signed bits) pos base (c ∷ s)

-- The end of each function: the whole text must be the number.
unfoldable pub at_end : Option (ℤ × Bytes) → Option ℤ
at_end none = none
at_end (some (value, rest)) = if is_nil rest then some value else none

unfoldable pub whole_number : Kind → ℕ → Bytes → Option ℤ
whole_number kind base s = if is_nil s then none else at_end (from_chars kind base s)

unfoldable pub skip_plus : Bytes → Bytes
skip_plus [] = []
skip_plus (c ∷ s) = if c == b'+' then s else c ∷ s

unfoldable pub to_int : Bytes → Option ℤ
to_int str = whole_number (signed 32) 10 (skip_plus (trim str))

-- With base 0, the base is that of the prefix.
unfoldable pub detect_base : Bytes → ℕ × Bytes
detect_base (a ∷ b ∷ s) =
    if a == b'0'
    then if b == b'x' || b == b'X'
      then (16, s)
      else if b == b'b' || b == b'B'
      then (2, s)
      else if b == b'o' || b == b'O'
      then (8, s)
      else (10, a ∷ b ∷ s)
    else (10, a ∷ b ∷ s)
detect_base s = (10, s)

-- With another base, its prefix is skipped.
unfoldable pub skip_base_prefix : ℕ → Bytes → Bytes
skip_base_prefix base (a ∷ b ∷ s) =
    if base == 16 && a == b'0' && (b == b'x' || b == b'X')
    then s
    else if base == 2 && a == b'0' && (b == b'b' || b == b'B')
    then s
    else if base == 8 && a == b'0' && (b == b'o' || b == b'O')
    then s
    else a ∷ b ∷ s
skip_base_prefix base s = s

-- `to_int` with a base.
unfoldable pub to_int_base : Bytes → ℕ → Option ℤ
to_int_base str base =
    if ltb 36 base || base == 1
    then none
    else let trimmed = trim str in
      let (used, digits) =
        if base == 0 then detect_base trimmed else (base, skip_base_prefix base trimmed) in
      whole_number (signed 32) used digits

unfoldable pub to_long : ℕ → Bytes → Option ℤ
to_long bits str = whole_number (signed bits) 10 (trim str)

unfoldable pub to_llong : ℕ → Bytes → Option ℤ
to_llong bits str = whole_number (signed bits) 10 (trim str)

-- A number behind a minus is refused before it is read.
unfoldable pub whole_natural : ℕ → Bytes → Option ℤ
whole_natural bits [] = none
whole_natural bits (c ∷ s) = if c == b'-' then none else whole_number (unsigned bits) 10 (c ∷ s)

unfoldable pub to_ulong : ℕ → Bytes → Option ℤ
to_ulong bits str = whole_natural bits (trim str)

unfoldable pub to_ullong : ℕ → Bytes → Option ℤ
to_ullong bits str = whole_natural bits (trim str)

unfoldable pub digit_char : ℕ → Bool → ℕ
digit_char digit uppercase =
    if ltb digit 10 then b'0' + digit else (if uppercase then b'A' else b'a') + digit - 10

-- The loop of `from_int`: the digits from the last one on, in at most `fuel` rounds.
unfoldable pub push_digits : ℕ → ℕ → Bool → ℕ → Bytes
push_digits zero base uppercase n = []
push_digits (suc fuel) base uppercase n = elim (n == 0) [
  | true ↦ []
  | false ↦ digit_char (n % base) uppercase ∷ push_digits fuel base uppercase (n / base)
]

-- `std::reverse`, in front of a text.
unfoldable pub reverse_onto : Bytes → Bytes → Bytes
reverse_onto [] t = t
reverse_onto (c ∷ s) t = reverse_onto s (c ∷ t)

-- The digits of a number below 2 ^ bits, from the first one on; a digit takes at least one bit.
unfoldable pub digits_of : ℕ → ℕ → Bool → ℤ → Bytes
digits_of bits base uppercase (pos zero) = b'0' ∷ []
digits_of bits base uppercase (pos (suc n)) =
    reverse_onto (push_digits bits base uppercase (suc n)) []
digits_of bits base uppercase (negsuc n) =
    reverse_onto (push_digits bits base uppercase (suc n) ++ b'-' ∷ []) []

-- `from_int` with a base.
unfoldable pub from_int_base : ℤ → ℕ → Bool → Bytes
from_int_base value base uppercase =
    if ltb base 2 || ltb 36 base then [] else digits_of 32 base uppercase value

-- `std::to_string` writes the decimal digits.
unfoldable pub from_int : ℤ → Bytes
from_int value = digits_of 32 10 false value

unfoldable pub from_long : ℕ → ℤ → Bytes
from_long bits value = digits_of bits 10 false value

-- ===== src/Strings/Validate/Accepted.antt =====
-- fb_strings/src/string_utils.cpp: the texts that pass a test, next to those that are read.
use foo_bar.Base.{
  ℕ, ◌+◌, ◌*◌, ◌≡◌, refl, sym, ap, ◌∙◌, Bool, true, false, ◌||◌, [], ◌∷◌, Option, none, some, Bytes,
  ◌==◌, ltb, if◌then◌else◌, arith, Bool-cases, inl, inr,
}
use mathlib.Core.Option.{none-ne-some}
use foo_bar.Strings.Chars.{is_ascii_digit, is_ascii_lower, is_ascii_upper}
use foo_bar.Strings.Trim.{trim}
use foo_bar.Strings.Replace.{is_nil}
use foo_bar.Strings.Numbers.{
  ℤ, pos, negate, Kind, signed, digit_number, read_digits, read_number, read_in, check_range,
  at_end, in_range, from_chars, whole_number, to_long,
}
use foo_bar.Strings.Validate.{
  all_of, is_numeric, is_integer, is_float, skip_sign, starts_digit, skip_digits, decimal_float,
  ends_float,
}

-- Digits that are read as part of a number.
digit_number-is_ascii_digit : (c : ℕ) → ltb (digit_number c) 10 ≡ is_ascii_digit c
unfolding digit_number is_ascii_digit is_ascii_lower is_ascii_upper
digit_number-is_ascii_digit c = ground arith

read_digits_taken :
    (c : ℕ) (s : Bytes) (n : ℕ)
    → ltb (digit_number c) 10 ≡ true
    → read_digits 10 n (c ∷ s) ≡ read_digits 10 (n * 10 + digit_number c) s
unfolding read_digits
read_digits_taken c s n e = ground arith

read_digits_left :
    (c : ℕ) (s : Bytes) (n : ℕ)
    → ltb (digit_number c) 10 ≡ false
    → read_digits 10 n (c ∷ s) ≡ (n, c ∷ s)
unfolding read_digits
read_digits_left c s n e = ground arith

read_digits-all_of :
    (s : Bytes) (n : ℕ) → (read_digits 10 n s).1 ≡ [] → all_of is_ascii_digit s ≡ true
unfolding read_digits all_of
read_digits-all_of [] n h = refl
read_digits-all_of (c ∷ s) n h = elim (Bool-cases (ltb (digit_number c) 10)) [
  | inl e ↦
      let digit = sym (digit_number-is_ascii_digit c) ∙ e in
      let later =
        read_digits-all_of s (n * 10 + digit_number c)
          (ap (λ p. p.1) (sym (read_digits_taken c s n e)) ∙ h) in
      ground (arith, digit, later)
  | inr e ↦ let rest : c ∷ s ≡ [] = ap (λ p. p.1) (sym (read_digits_left c s n e)) ∙ h in cc
]

-- The text is digits, and there is one.
all_of-numeric : (s : Bytes) → is_numeric s ≡ true → is_integer s ≡ true
unfolding is_numeric is_integer all_of is_nil is_ascii_digit
all_of-numeric [] h = h
all_of-numeric (c ∷ s) h = ground arith

all_of_first : (c : ℕ) (s : Bytes) → all_of is_ascii_digit (c ∷ s) ≡ true → is_ascii_digit c ≡ true
unfolding all_of
all_of_first c s h = ground arith

skip_digits-all_of : (s : Bytes) → all_of is_ascii_digit s ≡ true → skip_digits s ≡ []
unfolding skip_digits all_of
skip_digits-all_of [] h = refl
skip_digits-all_of (c ∷ s) h = ground (arith, skip_digits-all_of s)

-- What a text is whose numbers are read to the end.
read_number_taken :
    (c : ℕ) (s : Bytes)
    → read_number 10 (c ∷ s)
      ≡ (if ltb (digit_number c) 10 then some (read_digits 10 0 (c ∷ s)) else none)
unfolding read_number
read_number_taken c s = refl

read_number-all_of : (s : Bytes) (n : ℕ) → read_number 10 s ≡ some (n, []) → is_numeric s ≡ true
unfolding read_number is_numeric is_nil
read_number-all_of [] n h = cc
read_number-all_of (c ∷ s) n h = elim (Bool-cases (ltb (digit_number c) 10)) [
  | inl digit ↦
      let read : some (read_digits 10 0 (c ∷ s)) ≡ some (n, []) =
        sym (ap (λ b. if b then some (read_digits 10 0 (c ∷ s)) else none) digit) ∙ h in
      let behind : (read_digits 10 0 (c ∷ s)).1 ≡ [] = cc in read_digits-all_of (c ∷ s) 0 behind
  | inr other ↦
      let nothing : ◌≡◌ {A = Option (ℕ × Bytes)} none (some (n, [])) =
        sym (ap (λ b. if b then some (read_digits 10 0 (c ∷ s)) else none) other) ∙ h in
      cc
]

-- What a result says of the steps before it.
check_range_read :
    (kind : Kind) (sign : ℕ → ℤ) (read : Option (ℕ × Bytes)) (v : ℤ)
    → check_range kind sign read ≡ some (v, [])
    → (n : ℕ) × (read ≡ some (n, []))
unfolding check_range
check_range_read kind sign none v h = cc
check_range_read kind sign (some (n, rest)) v h = elim (Bool-cases (in_range kind (sign n))) [
  | inl e ↦
      let same : some (sign n, rest) ≡ some (v, []) =
        sym (ap (λ b. if b then some (sign n, rest) else none) e) ∙ h in
      let behind : rest ≡ [] = cc in (n, ap (λ r. some (n, r)) behind)
  | inr e ↦
      let nothing : ◌≡◌ {A = Option (ℤ × Bytes)} none (some (v, [])) =
        sym (ap (λ b. if b then some (sign n, rest) else none) e) ∙ h in
      absurd (none-ne-some (v, []) nothing)
]

at_end_read : (read : Option (ℤ × Bytes)) (v : ℤ) → at_end read ≡ some v → read ≡ some (v, [])
unfolding at_end is_nil
at_end_read none v h = cc
at_end_read (some (w, [])) v h = cc
at_end_read (some (w, c ∷ rest)) v h = cc

read_in-is_numeric :
    (kind : Kind) (sign : ℕ → ℤ) (s : Bytes) (v : ℤ)
    → read_in kind sign 10 s ≡ some (v, [])
    → is_numeric s ≡ true
unfolding read_in
read_in-is_numeric kind sign s v h =
    let (n, read) = check_range_read kind sign (read_number 10 s) v h in read_number-all_of s n read

signed_numeric :
    (c : ℕ) (s : Bytes) → (c == b'-') ≡ true → is_numeric s ≡ true → is_integer (c ∷ s) ≡ true
unfolding is_numeric is_integer
signed_numeric c s e h = ground arith

from_chars-is_integer :
    (bits : ℕ) (s : Bytes) (v : ℤ)
    → from_chars (signed bits) 10 s ≡ some (v, [])
    → is_integer s ≡ true
unfolding from_chars
from_chars-is_integer bits [] v h = cc
from_chars-is_integer bits (c ∷ s) v h =
    let choose = λ (b : Bool).
      if b then read_in (signed bits) negate 10 s else read_in (signed bits) pos 10 (c ∷ s) in
    elim (Bool-cases (c == b'-')) [
      | inl minus ↦
          signed_numeric c s minus
            (read_in-is_numeric (signed bits) negate s v (sym (ap choose minus) ∙ h))
      | inr plain ↦
          all_of-numeric (c ∷ s)
            (read_in-is_numeric (signed bits) pos (c ∷ s) v (sym (ap choose plain) ∙ h))
    ]

whole_number-is_integer :
    (bits : ℕ) (s : Bytes) (v : ℤ) → whole_number (signed bits) 10 s ≡ some v → is_integer s ≡ true
unfolding whole_number is_nil
whole_number-is_integer bits [] v h = cc
whole_number-is_integer bits (c ∷ s) v h =
    from_chars-is_integer bits (c ∷ s) v (at_end_read (from_chars (signed bits) 10 (c ∷ s)) v h)

-- Digits behind a sign are a floating point number without point and exponent.
integer_digits :
    (s : Bytes) → is_integer s ≡ true → (is_nil s ≡ false) × (is_numeric (skip_sign s) ≡ true)
unfolding is_integer is_numeric skip_sign is_nil
integer_digits [] h = cc
integer_digits (c ∷ s) h =
    let choose = λ (b : Bool).
      if b
      then (if is_nil s then false else all_of is_ascii_digit s)
      else all_of is_ascii_digit (c ∷ s) in
    elim (Bool-cases (c == b'+' || c == b'-')) [
      | inl e ↦ (refl, rw e (sym (ap choose e) ∙ h))
      | inr e ↦ (refl, rw e (sym (ap choose e) ∙ h))
    ]

numeric_float :
    (s : Bytes)
    → is_numeric s ≡ true
    → (is_nil s ≡ false) × (decimal_float (starts_digit s) (skip_digits s) ≡ true)
unfolding is_numeric is_nil decimal_float starts_digit ends_float
numeric_float [] h = cc
numeric_float (c ∷ s) h =
    let behind : skip_digits (c ∷ s) ≡ [] = skip_digits-all_of (c ∷ s) h in
    let first : is_ascii_digit c ≡ true = all_of_first c s h in (refl, rw (behind, first) refl)

is_float-is_integer : (s : Bytes) → is_integer s ≡ true → is_float s ≡ true
unfolding is_float
is_float-is_integer s h =
    let (there, digits) = integer_digits s h in
    let (there', float) = numeric_float (skip_sign s) digits in rw (there, there') float

-- A text that to_long reads is, without white space at its ends, one that is_integer and
-- is_float accept.
pub to_long-is_integer :
    (bits : ℕ) (s : Bytes) (v : ℤ)
    → to_long bits s ≡ some v
    → (is_integer (trim s) ≡ true) × (is_float (trim s) ≡ true)
unfolding to_long
to_long-is_integer bits s v h =
    let integer = whole_number-is_integer bits (trim s) v h in
    (integer, is_float-is_integer (trim s) integer)

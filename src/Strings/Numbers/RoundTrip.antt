-- ===== src/Strings/Numbers/RoundTrip.antt =====
-- fb_strings/src/string_utils.cpp: a number that is written and read again.
use foo_bar.Base.{
  ℕ, zero, suc, ◌-◌, ◌^◌, ◌≤◌, ◌<◌, ◌≡◌, refl, sym, ap, ◌∙◌, subst, Bool, true, false, ◌||◌, [],
  ◌∷◌, some, Bytes, All, ◌==◌, ltb, lt→ltb, arith,
}
use foo_bar.Strings.Chars.{is_ascii_digit, is_ascii_lower, is_ascii_upper, is_whitespace}
use foo_bar.Strings.Trim.{trim, trim_left, trim_right, keep_front}
use foo_bar.Strings.Replace.{is_nil}
use foo_bar.Strings.Numbers.{
  ℤ, pos, negsuc, negate, signed, in_range, digit_number, read_digits, read_number, read_in,
  check_range, at_end, from_chars, whole_number, skip_plus, to_int, skip_base_prefix, to_int_base,
  to_long, push_digits, digits_of, from_int_base, from_int, from_long,
}
use foo_bar.Strings.Numbers.Digits.{
  AllDigits, Numeral, reversed_digits-Numeral, reverse_onto-append_last,
}

-- White space is no digit, and neither are the signs.
digit-plain :
    (c : ℕ)
    → digit_number c < 36
    → (is_whitespace c ≡ false) × ((c == b'+') ≡ false) × ((c == b'-') ≡ false)
unfolding digit_number is_whitespace is_ascii_digit is_ascii_lower is_ascii_upper
digit-plain c h = (ground arith, ground arith, ground arith)

trim_right-AllPlain : (s : Bytes) → All (λ c. is_whitespace c ≡ false) s → trim_right s ≡ s
unfolding trim_right keep_front
trim_right-AllPlain [] h = refl
trim_right-AllPlain (c ∷ []) (hc, h) = rw hc refl
trim_right-AllPlain (c ∷ d ∷ s) (hc, h) = ap (keep_front c) (trim_right-AllPlain (d ∷ s) h)

trim-AllPlain : (s : Bytes) → All (λ c. is_whitespace c ≡ false) s → trim s ≡ s
unfolding trim trim_left
trim-AllPlain [] h = trim_right-AllPlain [] h
trim-AllPlain (c ∷ s) (hc, h) = rw hc (trim_right-AllPlain (c ∷ s) (hc, h))

AllDigits-AllPlain :
    (base : ℕ) (s : Bytes) → base ≤ 36 → AllDigits base s → All (λ c. is_whitespace c ≡ false) s
AllDigits-AllPlain base [] h all = tt
AllDigits-AllPlain base (c ∷ s) h (hc, all) =
    let (plain, _, _) = digit-plain c (omega (arith, hc)) in
    (plain, AllDigits-AllPlain base s h all)

-- The second character of a prefix is no digit of its base.
skip_base_prefix-AllDigits :
    (base c : ℕ) (s : Bytes) → AllDigits base s → skip_base_prefix base (c ∷ s) ≡ c ∷ s
unfolding skip_base_prefix digit_number is_ascii_digit is_ascii_lower is_ascii_upper
skip_base_prefix-AllDigits base c [] h = refl
skip_base_prefix-AllDigits base c (d ∷ s) (hd, h) = ground arith

-- What the readers do before they read leaves the text alone, and the text is the number.
record Reads (bits base : ℕ) (s : Bytes) (v : ℤ) : Type 0 where
  plain : trim s ≡ s
  no_plus : skip_plus s ≡ s
  no_prefix : skip_base_prefix base s ≡ s
  number : whole_number (signed bits) base s ≡ some v

Numeral-Reads :
    (bits base n : ℕ) (s : Bytes)
    → base ≤ 36
    → n < 2 ^ (bits - 1)
    → Numeral base n s
    → Reads bits base s (pos n)
unfolding skip_plus whole_number from_chars at_end read_in check_range read_number in_range is_nil
Numeral-Reads bits base n s h below numeral =
    let (hf, hl) : AllDigits base (numeral.first ∷ numeral.later) = numeral.digits in
    let (_, plus, minus) = digit-plain numeral.first (omega (arith, hf)) in
    let digit : ltb (digit_number numeral.first) base ≡ true =
      lt→ltb (digit_number numeral.first) base hf in
    let small : ltb n (2 ^ (bits - 1)) ≡ true = lt→ltb n (2 ^ (bits - 1)) below in
    let read = numeral.value in
    subst (λ s. Reads bits base s (pos n)) (sym numeral.text)
      record {
        plain =
            trim-AllPlain (numeral.first ∷ numeral.later)
              (AllDigits-AllPlain base (numeral.first ∷ numeral.later) h numeral.digits);
        no_plus = rw plus refl;
        no_prefix = skip_base_prefix-AllDigits base numeral.first numeral.later hl;
        number = rw (minus, digit, read, small) refl;
      }

negative-Reads :
    (bits base k : ℕ) (s : Bytes)
    → base ≤ 36
    → k < 2 ^ (bits - 1)
    → Numeral base (suc k) s
    → Reads bits base (b'-' ∷ s) (negsuc k)
unfolding skip_plus whole_number from_chars at_end read_in check_range read_number in_range is_nil
    negate is_whitespace
negative-Reads bits base k s h below numeral =
    let (hf, hl) : AllDigits base (numeral.first ∷ numeral.later) = numeral.digits in
    let digit : ltb (digit_number numeral.first) base ≡ true =
      lt→ltb (digit_number numeral.first) base hf in
    let small : ltb k (2 ^ (bits - 1)) ≡ true = lt→ltb k (2 ^ (bits - 1)) below in
    let read = numeral.value in
    subst (λ s. Reads bits base (b'-' ∷ s) (negsuc k)) (sym numeral.text)
      record {
        plain =
            trim-AllPlain (b'-' ∷ numeral.first ∷ numeral.later)
              (refl, AllDigits-AllPlain base (numeral.first ∷ numeral.later) h numeral.digits);
        no_plus = refl;
        no_prefix =
            skip_base_prefix-AllDigits base b'-' (numeral.first ∷ numeral.later) numeral.digits;
        number = rw (digit, read, small) refl;
      }

zero_digit-Numeral : (base : ℕ) → 2 ≤ base → Numeral base 0 (b'0' ∷ [])
unfolding digit_number read_digits is_ascii_digit
zero_digit-Numeral base h = record {
  first = b'0';
  later = [];
  text = refl;
  digits = (omega arith, tt);
  value = ground arith;
}

digits_of-Reads :
    (b base : ℕ) (u : Bool) (v : ℤ)
    → 2 ≤ base
    → base ≤ 36
    → in_range (signed (suc b)) v ≡ true
    → Reads (suc b) base (digits_of (suc b) base u v) v
unfolding digits_of in_range
digits_of-Reads b base u (pos zero) h h' below =
    Numeral-Reads (suc b) base 0 _ h' (ground arith) (zero_digit-Numeral base h)
digits_of-Reads b base u (pos (suc k)) h h' below =
    Numeral-Reads (suc b) base (suc k) _ h' (ground arith)
      (reversed_digits-Numeral (suc b) base k u h h' (ground arith))
digits_of-Reads b base u (negsuc k) h h' below =
    subst (λ s. Reads (suc b) base s (negsuc k))
      (sym (reverse_onto-append_last (push_digits (suc b) base u (suc k)) [] b'-'))
      (negative-Reads (suc b) base k _ h' (ground arith)
        (reversed_digits-Numeral (suc b) base k u h h' (ground arith)))

-- For a base from 2 to 36, to_int reads in it each 32 bit int back that from_int writes in it,
-- in large and in small letters.
pub to_int_base-from_int_base :
    (v : ℤ) (base : ℕ) (u : Bool)
    → 2 ≤ base
    → base ≤ 36
    → in_range (signed 32) v ≡ true
    → to_int_base (from_int_base v base u) base ≡ some v
unfolding to_int_base from_int_base
to_int_base-from_int_base v base u h h' below =
    let reads = digits_of-Reads 31 base u v h h' below in
    let writes : (ltb base 2 || ltb 36 base) ≡ false = ground arith in
    let accepts : (ltb 36 base || base == 1) ≡ false = ground arith in
    let given : (base == 0) ≡ false = ground arith in
    rw (writes, accepts, given)
      (ap (λ s. whole_number (signed 32) base (skip_base_prefix base s)) reads.plain
        ∙ ap (whole_number (signed 32) base) reads.no_prefix
        ∙ reads.number)

pub to_long-from_long :
    (b : ℕ) (v : ℤ)
    → in_range (signed (suc b)) v ≡ true
    → to_long (suc b) (from_long (suc b) v) ≡ some v
unfolding to_long from_long
to_long-from_long b v below =
    let reads = digits_of-Reads b 10 false v (omega arith) (omega arith) below in
    ap (whole_number (signed (suc b)) 10) reads.plain ∙ reads.number

pub to_int-from_int : (v : ℤ) → in_range (signed 32) v ≡ true → to_int (from_int v) ≡ some v
unfolding to_int from_int
to_int-from_int v below =
    let reads = digits_of-Reads 31 10 false v (omega arith) (omega arith) below in
    ap (λ s. whole_number (signed 32) 10 (skip_plus s)) reads.plain
    ∙ ap (whole_number (signed 32) 10) reads.no_plus
    ∙ reads.number

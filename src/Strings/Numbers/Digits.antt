-- ===== src/Strings/Numbers/Digits.antt =====
-- fb_strings/src/string_utils.cpp: what reading makes of the digits that are written.
use foo_bar.Base.{
  ℕ, zero, suc, ◌+◌, ◌*◌, ◌/◌, ◌%◌, ◌^◌, ◌≤◌, ◌<◌, ◌≡◌, refl, sym, ap, ◌∙◌, subst, Bool, true,
  false, [], ◌∷◌, ◌++◌, Bytes, All, length, arith, List-cases, inl, inr,
}
use native.Mathlib.Nat.{mul-le-mul_left, mul_comm, div-lt_iff_lt-mul, div-add-mod, mod-lt}
use foo_bar.Strings.Chars.{is_ascii_digit, is_ascii_lower, is_ascii_upper}
use foo_bar.Strings.Numbers.{digit_number, read_digits, digit_char, push_digits, reverse_onto}

abbrev pub AllDigits : ℕ → Bytes → Type 0
AllDigits base = All (λ c. digit_number c < base)

digit_number-digit_char : (d : ℕ) (u : Bool) → d < 36 → digit_number (digit_char d u) ≡ d
unfolding digit_number digit_char is_ascii_digit is_ascii_lower is_ascii_upper
digit_number-digit_char d true h = ground arith
digit_number-digit_char d false h = ground arith

-- One round of the loop divides by two at least.
halved : (base n m : ℕ) → 2 ≤ base → n < m + m → n / base < m
halved base n m h below =
    (div-lt_iff_lt-mul (omega arith)).1 (let grown = mul-le-mul_left m h in omega (arith, grown))

read_digits-cons :
    (base n c d : ℕ) (t : Bytes)
    → digit_number c ≡ d
    → d < base
    → read_digits base n (c ∷ t) ≡ read_digits base (n * base + d) t
unfolding read_digits
read_digits-cons base n c d t read small = ground arith

push_digits_first :
    (fuel base k : ℕ) (u : Bool)
    → push_digits (suc fuel) base u (suc k)
      ≡ digit_char (suc k % base) u ∷ push_digits fuel base u (suc k / base)
unfolding push_digits
push_digits_first fuel base k u = ground arith

read_digits-push_digits :
    (fuel base n : ℕ) (u : Bool) (t : Bytes)
    → 2 ≤ base
    → base ≤ 36
    → n < 2 ^ fuel
    → read_digits base 0 (reverse_onto (push_digits fuel base u n) t) ≡ read_digits base n t
unfolding read_digits push_digits reverse_onto
read_digits-push_digits zero base n u t h h' below =
    let none_left : n ≡ 0 = omega arith in rw none_left refl
read_digits-push_digits (suc fuel) base zero u t h h' below = refl
read_digits-push_digits (suc fuel) base (suc k) u t h h' below =
    let n : ℕ = suc k in
    let digit : ℕ = digit_char (n % base) u in
    let small : n % base < base = mod-lt n (omega arith) in
    let read : digit_number digit ≡ n % base =
      digit_number-digit_char (n % base) u (omega (arith, small)) in
    let whole : n / base * base + n % base ≡ n =
      ap (λ m. m + n % base) (mul_comm (n / base) base) ∙ div-add-mod n base in
    ap (λ s. read_digits base 0 (reverse_onto s t)) (push_digits_first fuel base k u)
    ∙ read_digits-push_digits fuel base (n / base) u (digit ∷ t) h h'
        (halved base n (2 ^ fuel) h (omega (arith, below)))
    ∙ read_digits-cons base (n / base) digit (n % base) t read small
    ∙ ap (λ m. read_digits base m t) whole

reverse_onto-All : (P : ℕ → Type 0) (s t : Bytes) → All P s → All P t → All P (reverse_onto s t)
unfolding reverse_onto
reverse_onto-All P [] t hs ht = ht
reverse_onto-All P (c ∷ s) t (hc, hs) ht = reverse_onto-All P s (c ∷ t) hs (hc, ht)

length-reverse_onto : (s t : Bytes) → length (reverse_onto s t) ≡ length s + length t
unfolding reverse_onto
length-reverse_onto [] t = omega arith
length-reverse_onto (c ∷ s) t = omega (arith, length-reverse_onto s (c ∷ t))

pub reverse_onto-append_last :
    (s t : Bytes) (c : ℕ) → reverse_onto (s ++ c ∷ []) t ≡ c ∷ reverse_onto s t
unfolding reverse_onto
reverse_onto-append_last [] t c = refl
reverse_onto-append_last (d ∷ s) t c = reverse_onto-append_last s (d ∷ t) c

push_digits-AllDigits :
    (fuel base n : ℕ) (u : Bool) → 2 ≤ base → base ≤ 36 → AllDigits base (push_digits fuel base u n)
unfolding push_digits
push_digits-AllDigits zero base n u h h' = tt
push_digits-AllDigits (suc fuel) base zero u h h' = tt
push_digits-AllDigits (suc fuel) base (suc k) u h h' =
    let small : suc k % base < base = mod-lt (suc k) (omega arith) in
    let read = digit_number-digit_char (suc k % base) u (omega (arith, small)) in
    subst (AllDigits base) (sym (push_digits_first fuel base k u))
      (omega (arith, read, small), push_digits-AllDigits fuel base (suc k / base) u h h')

-- The digits of a number from the first one on: there is one, and they are read as the number.
pub record Numeral (base n : ℕ) (s : Bytes) : Type 0 where
  pub first : ℕ
  pub later : Bytes
  pub text : s ≡ first ∷ later
  pub digits : AllDigits base (first ∷ later)
  pub value : read_digits base 0 (first ∷ later) ≡ (n, [])

pub reversed_digits-Numeral :
    (bits base k : ℕ) (u : Bool)
    → 2 ≤ base
    → base ≤ 36
    → suc k < 2 ^ bits
    → Numeral base (suc k) (reverse_onto (push_digits bits base u (suc k)) [])
unfolding push_digits read_digits
reversed_digits-Numeral zero base k u h h' below = absurd (omega arith)
reversed_digits-Numeral (suc bits) base k u h h' below =
    let s : Bytes = reverse_onto (push_digits (suc bits) base u (suc k)) [] in
    let all : AllDigits base s =
      reverse_onto-All (λ c. digit_number c < base) _ []
        (push_digits-AllDigits (suc bits) base (suc k) u h h') tt in
    let read : read_digits base 0 s ≡ (suc k, []) =
      read_digits-push_digits (suc bits) base (suc k) u [] h h' below in
    elim (List-cases s) [
      | inl none_there ↦
          let first_there = ap length (push_digits_first bits base k u) in
          let long = length-reverse_onto (push_digits (suc bits) base u (suc k)) [] in
          let short : length s ≡ 0 = ap length none_there in
          absurd (omega (arith, first_there, long, short))
      | inr (first, later, text) ↦ record {
        first = first;
        later = later;
        text = text;
        digits = subst (AllDigits base) text all;
        value = subst (λ s. read_digits base 0 s ≡ (suc k, [])) text read;
      }
    ]

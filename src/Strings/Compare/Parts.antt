-- ===== src/Strings/Compare/Parts.antt =====
-- fb_strings/src/string_utils.cpp: the parts of a text that `natural_compare` compares, its numbers
-- and its other characters, and what a round of its loop does with them.
use foo_bar.Base.{
  ℕ, ◌≤◌, ◌≡◌, refl, sym, ap, ◌∙◌, Bool, true, false, ◌&&◌, List, [], ◌∷◌, Bytes, ◌==◌,
  if◌then◌else◌, length, map, arith, Bool-cases, inl, inr,
}
use foo_bar.Base.Orders.{compare, Ordering, ◌then◌, lexicographic}
use foo_bar.Strings.Chars.{is_ascii_digit}
use foo_bar.Strings.Compare.{
  char_rank, by_rank, skip_zeros, leading_digits, behind_digits, compare_numbers,
}
use foo_bar.Strings.Compare.Numbers.{
  decimal, compare_numbers-decimal, leading_digits-AllDecimal, skip_zeros-NoZero,
  skip_zeros-decimal,
}

-- A run of digits is one part of a text, and each other character is one.
pub data Part : Type 0 where
  number : Bytes → Part
  character : ℕ → Part

unfoldable pub put_digit : ℕ → List Part → List Part
put_digit c [] = number (c ∷ []) ∷ []
put_digit c (number s ∷ later) = number (c ∷ s) ∷ later
put_digit c (character d ∷ later) = number (c ∷ []) ∷ character d ∷ later

unfoldable pub parts : Bytes → List Part
parts [] = []
parts (c ∷ s) =
    let later = parts s in if is_ascii_digit c then put_digit c later else character c ∷ later

-- A number has the place of a digit among the characters, and numbers go by their values.
unfoldable pub place : Bool → Part → ℕ × ℕ
place signed_char (number s) = (char_rank signed_char b'0', decimal s)
place signed_char (character c) = (char_rank signed_char c, 0)

abbrev pub by_place : ℕ × ℕ → ℕ × ℕ → Ordering
by_place p q = compare p.0 q.0 then compare p.1 q.1

unfoldable pub natural_order : Bool → Bytes → Bytes → Ordering
natural_order signed_char a b =
    lexicographic by_place (map (place signed_char) (parts a)) (map (place signed_char) (parts b))

-- A digit in front of a text, and another character.
pub at_digit :
    (c : ℕ) (s : Bytes)
    → is_ascii_digit c ≡ true
    → (parts (c ∷ s) ≡ put_digit c (parts s))
      × (leading_digits (c ∷ s) ≡ c ∷ leading_digits s)
      × (behind_digits (c ∷ s) ≡ behind_digits s)
unfolding parts leading_digits behind_digits
at_digit c s h = (rw h refl, rw h refl, rw h refl)

pub at_other :
    (c : ℕ) (s : Bytes)
    → is_ascii_digit c ≡ false
    → (parts (c ∷ s) ≡ character c ∷ parts s)
      × (leading_digits (c ∷ s) ≡ [])
      × (behind_digits (c ∷ s) ≡ c ∷ s)
unfolding parts leading_digits behind_digits
at_other c s h = (rw h refl, rw h refl, rw h refl)

-- What is in front of a digit joins its run.
put_digit-parts :
    (c : ℕ) (s : Bytes)
    → put_digit c (parts s) ≡ number (c ∷ leading_digits s) ∷ parts (behind_digits s)
unfolding put_digit parts leading_digits behind_digits
put_digit-parts c [] = refl
put_digit-parts c (d ∷ s) = elim (Bool-cases (is_ascii_digit d)) [
  | inl e ↦
      let (run, leading, behind) = at_digit d s e in
      ap (put_digit c) (run ∙ put_digit-parts d s)
      ∙ ap (λ l. number (c ∷ l) ∷ parts (behind_digits s)) (sym leading)
      ∙ ap (λ t. number (c ∷ leading_digits (d ∷ s)) ∷ parts t) (sym behind)
  | inr e ↦
      let (alone, leading, behind) = at_other d s e in
      ap (put_digit c) alone
      ∙ ap (λ l. number (c ∷ []) ∷ l) (sym alone)
      ∙ ap (λ l. number (c ∷ l) ∷ parts (d ∷ s)) (sym leading)
      ∙ ap (λ t. number (c ∷ leading_digits (d ∷ s)) ∷ parts t) (sym behind)
]

pub parts-digits :
    (c : ℕ) (s : Bytes)
    → is_ascii_digit c ≡ true
    → parts (c ∷ s) ≡ number (leading_digits (c ∷ s)) ∷ parts (behind_digits (c ∷ s))
parts-digits c s h =
    let (run, leading, behind) = at_digit c s h in
    run
    ∙ put_digit-parts c s
    ∙ ap (λ l. number l ∷ parts (behind_digits s)) (sym leading)
    ∙ ap (λ t. number (leading_digits (c ∷ s)) ∷ parts t) (sym behind)

-- One round on two numbers.
pub numbers_round :
    (c d : ℕ) (a b : Bytes)
    → compare_numbers (leading_digits (skip_zeros (c ∷ a))) (leading_digits (skip_zeros (d ∷ b)))
      ≡ compare (decimal (leading_digits (c ∷ a))) (decimal (leading_digits (d ∷ b)))
numbers_round c d a b =
    let (same, _) = skip_zeros-decimal (c ∷ a) in
    let (same', _) = skip_zeros-decimal (d ∷ b) in
    compare_numbers-decimal _ _ (leading_digits-AllDecimal _) (leading_digits-AllDecimal _)
      (skip_zeros-NoZero (c ∷ a)) (skip_zeros-NoZero (d ∷ b))
    ∙ ap (λ n. compare n (decimal (leading_digits (skip_zeros (d ∷ b))))) same
    ∙ ap (compare (decimal (leading_digits (c ∷ a)))) same'

-- One round on characters that are not both digits: where they differ, so do the parts they start.
pub unequal_round :
    (signed_char : Bool) (c d : ℕ) (later : Ordering)
    → (c == d) ≡ false
    → (is_ascii_digit c && is_ascii_digit d) ≡ false
    → compare
          (char_rank signed_char (if is_ascii_digit c then b'0' else c))
          (char_rank signed_char (if is_ascii_digit d then b'0' else d))
        then later
      ≡ by_rank signed_char c d
unfolding char_rank by_rank is_ascii_digit
unequal_round true c d later differ h = ground arith
unequal_round false c d later differ h = ground arith

pub length-behind_digits : (s : Bytes) → length (behind_digits s) ≤ length s
unfolding behind_digits
length-behind_digits [] = omega arith
length-behind_digits (c ∷ s) = elim (Bool-cases (is_ascii_digit c)) [
  | inl e ↦ rw e (let later = length-behind_digits s in omega (arith, later))
  | inr e ↦ rw e (omega arith)
]

-- The part that a text starts with, where the other text starts differently.
pub first_place :
    (signed_char : Bool) (c : ℕ) (s : Bytes)
    → (value : ℕ) × (later : List Part) × (map (place signed_char) (parts (c ∷ s))
        ≡ (char_rank signed_char (if is_ascii_digit c then b'0' else c), value)
          ∷ map (place signed_char) later)
unfolding place
first_place sc c s = elim (Bool-cases (is_ascii_digit c)) [
  | inl e ↦
      let run = parts-digits c s e in
      (
        decimal (leading_digits (c ∷ s)),
        parts (behind_digits (c ∷ s)),
        rw e (ap (map (place sc)) run),
      )
  | inr e ↦ let (alone, _, _) = at_other c s e in (0, parts s, rw e (ap (map (place sc)) alone))
]

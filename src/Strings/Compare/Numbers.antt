-- ===== src/Strings/Compare/Numbers.antt =====
-- fb_strings/src/string_utils.cpp: the numbers that `natural_compare` compares digit by digit.
use foo_bar.Base.{
  ℕ, suc, ◌+◌, ◌-◌, ◌*◌, ◌^◌, ◌≤◌, ◌<◌, ◌≡◌, refl, sym, ap, true, [], ◌∷◌, Bytes, All, ◌==◌, ltb,
  length, arith, Bool-cases, inl, inr,
}
use native.Mathlib.Nat.{mul-le-mul_right, pow-le-pow_right, pow-succ'}
use foo_bar.Base.Orders.{compare}
use foo_bar.Strings.Chars.{is_ascii_digit}
use foo_bar.Strings.Compare.{
  skip_zeros, leading_digits, behind_digits, compare_digits, compare_numbers,
}

-- The number that decimal digits stand for.
unfoldable pub decimal : Bytes → ℕ
decimal [] = 0
decimal (c ∷ s) = (c - b'0') * 10 ^ length s + decimal s

abbrev pub AllDecimal : Bytes → Type 0
AllDecimal = All (λ c. is_ascii_digit c ≡ true)

pub digit_range : (c : ℕ) → is_ascii_digit c ≡ true → (48 ≤ c) × (c ≤ 57)
unfolding is_ascii_digit
digit_range c h = (ground arith, ground arith)

decimal_bound : (s : Bytes) → AllDecimal s → decimal s < 10 ^ length s
unfolding decimal
decimal_bound [] h = omega arith
decimal_bound (c ∷ s) (hc, h) =
    let (low, high) = digit_range c hc in
    let later = decimal_bound s h in
    let front = mul-le-mul_right {m = c - 48} {n = 9} (10 ^ length s) (omega arith) in
    let power = pow-succ' 10 (length s) in omega (arith, later, front, power)

first_digit_less : (c d p x y : ℕ) → 48 ≤ c → c < d → x < p → (c - 48) * p + x < (d - 48) * p + y
first_digit_less c d p x y low less small =
    let front = mul-le-mul_right {m = suc (c - 48)} {n = d - 48} p (omega arith) in
    omega (arith, front)

-- Where as many digits are left, the first difference decides.
compare_digits-decimal :
    (a b : Bytes)
    → AllDecimal a
    → AllDecimal b
    → length a ≡ length b
    → compare_digits a b ≡ compare (decimal a) (decimal b)
unfolding compare_digits decimal
compare_digits-decimal [] [] ha hb same = refl
compare_digits-decimal [] (d ∷ b) ha hb same = absurd (omega arith)
compare_digits-decimal (c ∷ a) [] ha hb same = absurd (omega arith)
compare_digits-decimal (c ∷ a) (d ∷ b) (hc, ha) (hd, hb) same =
    let (low, high) = digit_range c hc in
    let (low', high') = digit_range d hd in
    let same' : length a ≡ length b = omega arith in
    let later = compare_digits-decimal a b ha hb same' in
    let bound = decimal_bound a ha in
    let bound' = decimal_bound b hb in
    let power : 10 ^ length b ≡ 10 ^ length a = ap (λ n. 10 ^ n) (sym same') in
    rw power (elim (Bool-cases (c == d)) [
      | inl e ↦ let same_digit : c ≡ d = ground arith in rw same_digit (ground (arith, later))
      | inr e ↦ elim (Bool-cases (ltb c d)) [
        | inl less ↦
            let below =
              first_digit_less c d (10 ^ length a) (decimal a) (decimal b) low (ground arith)
                bound in
            ground (arith, below)
        | inr more ↦
            let below =
              first_digit_less d c (10 ^ length a) (decimal b) (decimal a) low' (ground arith)
                (omega (arith, bound', power)) in
            ground (arith, below)
      ]
    ])

-- A number without a leading zero.
abbrev pub NoZero : Bytes → Type 0
NoZero [] = Unit
NoZero (c ∷ s) = 49 ≤ c

decimal_least : (c : ℕ) (s : Bytes) → 49 ≤ c → 10 ^ length s ≤ decimal (c ∷ s)
unfolding decimal
decimal_least c s h =
    let front = mul-le-mul_right {m = 1} {n = c - 48} (10 ^ length s) (omega arith) in
    omega (arith, front)

decimal_longer :
    (a b : Bytes) → AllDecimal a → NoZero b → length a < length b → decimal a < decimal b
decimal_longer a [] ha hb h = absurd (omega arith)
decimal_longer a (d ∷ b) ha hb h =
    let bound = decimal_bound a ha in
    let least = decimal_least d b hb in
    let grows =
      pow-le-pow_right {n = 10} (omega arith) {i = length a} {j = length b} (omega arith) in
    omega (arith, bound, least, grows)

pub compare_numbers-decimal :
    (a b : Bytes)
    → AllDecimal a
    → AllDecimal b
    → NoZero a
    → NoZero b
    → compare_numbers a b ≡ compare (decimal a) (decimal b)
unfolding compare_numbers
compare_numbers-decimal a b ha hb na nb = elim (Bool-cases (length a == length b)) [
  | inl e ↦ rw e (compare_digits-decimal a b ha hb (ground arith))
  | inr e ↦ elim (Bool-cases (ltb (length a) (length b))) [
    | inl less ↦ let below = decimal_longer a b ha nb (ground arith) in ground arith
    | inr more ↦ let below = decimal_longer b a hb na (ground arith) in ground arith
  ]
]

pub leading_digits-AllDecimal : (s : Bytes) → AllDecimal (leading_digits s)
unfolding leading_digits
leading_digits-AllDecimal [] = tt
leading_digits-AllDecimal (c ∷ s) = elim (Bool-cases (is_ascii_digit c)) [
  | inl e ↦ rw e (e, leading_digits-AllDecimal s)
  | inr e ↦ rw e tt
]

pub skip_zeros-NoZero : (s : Bytes) → NoZero (leading_digits (skip_zeros s))
unfolding skip_zeros leading_digits
skip_zeros-NoZero [] = tt
skip_zeros-NoZero (c ∷ s) = elim (Bool-cases (c == b'0')) [
  | inl e ↦ rw e (skip_zeros-NoZero s)
  | inr e ↦ elim (Bool-cases (is_ascii_digit c)) [
    | inl digit ↦ let (low, high) = digit_range c digit in rw (e, digit) (ground arith)
    | inr other ↦ rw (e, other) tt
  ]
]

-- Leading zeros change neither the number nor what is behind it.
pub skip_zeros-decimal :
    (s : Bytes)
    → (decimal (leading_digits (skip_zeros s)) ≡ decimal (leading_digits s))
      × (behind_digits (skip_zeros s) ≡ behind_digits s)
unfolding skip_zeros leading_digits behind_digits decimal is_ascii_digit
skip_zeros-decimal [] = (refl, refl)
skip_zeros-decimal (c ∷ s) = elim (Bool-cases (c == b'0')) [
  | inl e ↦
      let (same, same') = skip_zeros-decimal s in
      let zero_there : c ≡ 48 = ground arith in rw zero_there (omega (arith, same), same')
  | inr e ↦ rw e (refl, refl)
]

-- ===== src/Strings/Compare.antt =====
-- fb_strings/src/string_utils.cpp: comparing texts. `signed_char` says whether a `char` from 128 on
-- is negative, which is the compiler's choice; the results -1, 0 and 1 are `lt`, `eq` and `gt`.
pub mod IgnoreCase
pub mod Numbers
pub mod Parts
pub mod Natural
use foo_bar.Base.{
  ℕ, zero, suc, ◌+◌, ◌-◌, Bool, true, false, ◌&&◌, not, [], ◌∷◌, Option, none, some, Bytes, ◌==◌,
  ltb, if◌then◌else◌, length,
}
use foo_bar.Base.Orders.{Ordering}
use foo_bar.Strings.Chars.{is_ascii_digit, to_ascii_lower}

-- The place of a character in the order of `char`.
unfoldable pub char_rank : Bool → ℕ → ℕ
char_rank signed_char c =
    if signed_char then (if ltb c 128 then c + 128 else if ltb c 256 then c - 128 else c) else c

-- `ca < cb ? -1 : 1`
unfoldable pub by_rank : Bool → ℕ → ℕ → Ordering
by_rank signed_char ca cb =
    if ltb (char_rank signed_char ca) (char_rank signed_char cb) then Ordering.lt else Ordering.gt

unfoldable pub compare_ignore_case : Bool → Bytes → Bytes → Ordering
compare_ignore_case signed_char [] [] = Ordering.eq
compare_ignore_case signed_char [] (d ∷ b) = Ordering.lt
compare_ignore_case signed_char (c ∷ a) [] = Ordering.gt
compare_ignore_case signed_char (c ∷ a) (d ∷ b) =
    let ca = to_ascii_lower c in
    let cb = to_ascii_lower d in
    let later = compare_ignore_case signed_char a b in
    if ca == cb then later else by_rank signed_char ca cb

-- The loop of `equals_ignore_case`, on texts of the same length.
unfoldable pub same_ignoring_case : Bytes → Bytes → Bool
same_ignoring_case (c ∷ a) (d ∷ b) =
    let later = same_ignoring_case a b in
    if not (to_ascii_lower c == to_ascii_lower d) then false else later
same_ignoring_case a b = true

unfoldable pub equals_ignore_case : Bytes → Bytes → Bool
equals_ignore_case a b = if not (length a == length b) then false else same_ignoring_case a b

unfoldable pub skip_zeros : Bytes → Bytes
skip_zeros [] = []
skip_zeros (c ∷ s) = let later = skip_zeros s in if c == b'0' then later else c ∷ s

-- The digits that a text starts with, and the text behind them.
unfoldable pub leading_digits : Bytes → Bytes
leading_digits [] = []
leading_digits (c ∷ s) = let later = leading_digits s in if is_ascii_digit c then c ∷ later else []

unfoldable pub behind_digits : Bytes → Bytes
behind_digits [] = []
behind_digits (c ∷ s) = let later = behind_digits s in if is_ascii_digit c then later else c ∷ s

-- The first difference of two numbers with as many digits.
unfoldable pub compare_digits : Bytes → Bytes → Ordering
compare_digits (c ∷ a) (d ∷ b) =
    let later = compare_digits a b in
    if not (c == d) then (if ltb c d then Ordering.lt else Ordering.gt) else later
compare_digits a b = Ordering.eq

unfoldable pub compare_numbers : Bytes → Bytes → Ordering
compare_numbers a b =
    if not (length a == length b)
    then (if ltb (length a) (length b) then Ordering.lt else Ordering.gt)
    else compare_digits a b

-- The loop of `natural_compare`, for at most `fuel` rounds, on the texts that are left.
unfoldable pub natural_from : ℕ → Bool → Bytes → Bytes → Option Ordering
natural_from zero signed_char a b = none
natural_from (suc fuel) signed_char [] [] = some Ordering.eq
natural_from (suc fuel) signed_char [] (d ∷ b) = some Ordering.lt
natural_from (suc fuel) signed_char (c ∷ a) [] = some Ordering.gt
natural_from (suc fuel) signed_char (c ∷ a) (d ∷ b) = elim (is_ascii_digit c && is_ascii_digit d) [
  | true ↦
      let i = skip_zeros (c ∷ a) in
      let j = skip_zeros (d ∷ b) in
      elim (compare_numbers (leading_digits i) (leading_digits j)) [
        | Ordering.lt ↦ some Ordering.lt
        | Ordering.eq ↦ natural_from fuel signed_char (behind_digits i) (behind_digits j)
        | Ordering.gt ↦ some Ordering.gt
      ]
  | false ↦ elim (c == d) [
    | true ↦ natural_from fuel signed_char a b
    | false ↦ some (by_rank signed_char c d)
  ]
]

unfoldable pub natural_compare : Bool → Bytes → Bytes → Option Ordering
natural_compare signed_char a b = natural_from (length a + 1) signed_char a b

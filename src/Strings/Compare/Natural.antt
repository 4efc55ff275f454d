-- ===== src/Strings/Compare/Natural.antt =====
-- fb_strings/src/string_utils.cpp: `natural_compare` compares texts by their numbers and by their other
-- characters, and so orders them for `std::sort`.
use foo_bar.Base.{
  ℕ, zero, suc, ◌+◌, ◌<◌, ◌≡◌, refl, sym, ap, ◌∙◌, Bool, true, false, ◌&&◌, List, [], ◌∷◌, Option,
  some, Bytes, ◌==◌, if◌then◌else◌, length, map, arith, Bool-cases, inl, inr,
}
use foo_bar.Base.Orders.{
  compare, Ordering, ◌then◌, then_assoc, Orders, compare-Orders, pulled_Orders, then-Orders,
  lexicographic, lexicographic-Orders,
}
use foo_bar.Strings.Chars.{is_ascii_digit}
use foo_bar.Strings.Compare.{
  char_rank, by_rank, skip_zeros, leading_digits, behind_digits, compare_numbers, natural_from,
  natural_compare,
}
use foo_bar.Strings.Compare.Numbers.{decimal, skip_zeros-decimal}
use foo_bar.Strings.Compare.Parts.{
  Part, number, character, parts, place, by_place, natural_order, at_digit, at_other, parts-digits,
  numbers_round, unequal_round, length-behind_digits, first_place,
}

compare_self : (n : ℕ) → compare n n ≡ Ordering.eq
compare_self n = ground arith

-- Both texts start with a number, or with the same character that is no digit.
order_digits :
    (signed_char : Bool) (c d : ℕ) (a b : Bytes)
    → is_ascii_digit c ≡ true
    → is_ascii_digit d ≡ true
    → natural_order signed_char (c ∷ a) (d ∷ b) ≡ (
        compare (decimal (leading_digits (c ∷ a))) (decimal (leading_digits (d ∷ b)))
        then natural_order signed_char (behind_digits (c ∷ a)) (behind_digits (d ∷ b)))
unfolding natural_order lexicographic place
order_digits sc c d a b hc hd =
    let order = λ (x y : List Part). lexicographic by_place (map (place sc) x) (map (place sc) y) in
    let front = compare (decimal (leading_digits (c ∷ a))) (decimal (leading_digits (d ∷ b))) in
    let later = natural_order sc (behind_digits (c ∷ a)) (behind_digits (d ∷ b)) in
    ap (λ x. order x (parts (d ∷ b))) (parts-digits c a hc)
    ∙ ap (order (number (leading_digits (c ∷ a)) ∷ parts (behind_digits (c ∷ a))))
        (parts-digits d b hd)
    ∙ ap (λ z. (z then front) then later) (compare_self (char_rank sc b'0'))

order_same :
    (signed_char : Bool) (c : ℕ) (a b : Bytes)
    → is_ascii_digit c ≡ false
    → natural_order signed_char (c ∷ a) (c ∷ b) ≡ natural_order signed_char a b
unfolding natural_order lexicographic place
order_same sc c a b h =
    let (alone, _, _) = at_other c a h in
    let (alone', _, _) = at_other c b h in
    let order = λ (x y : List Part). lexicographic by_place (map (place sc) x) (map (place sc) y) in
    ap (λ x. order x (parts (c ∷ b))) alone
    ∙ ap (order (character c ∷ parts a)) alone'
    ∙ ap (λ z. (z then compare 0 0) then natural_order sc a b) (compare_self (char_rank sc c))

order_unequal :
    (signed_char : Bool) (c d : ℕ) (a b : Bytes)
    → (c == d) ≡ false
    → (is_ascii_digit c && is_ascii_digit d) ≡ false
    → natural_order signed_char (c ∷ a) (d ∷ b) ≡ by_rank signed_char c d
unfolding natural_order lexicographic
order_unequal sc c d a b differ h =
    let (v, later, first) = first_place sc c a in
    let (v', later', first') = first_place sc d b in
    let rest = lexicographic by_place (map (place sc) later) (map (place sc) later') in
    ap (λ x. lexicographic by_place x (map (place sc) (parts (d ∷ b)))) first
    ∙ ap
        (lexicographic by_place
          ((char_rank sc (if is_ascii_digit c then b'0' else c), v) ∷ map (place sc) later))
        first'
    ∙ then_assoc
        (compare (char_rank sc (if is_ascii_digit c then b'0' else c))
          (char_rank sc (if is_ascii_digit d then b'0' else d)))
        (compare v v') rest
    ∙ unequal_round sc c d (compare v v' then rest) differ h

-- The loop returns at the first difference.
first_difference :
    (found : Ordering) (rest : Option Ordering) (later : Ordering)
    → rest ≡ some later
    → (elim found [
      | Ordering.lt ↦ some Ordering.lt
      | Ordering.eq ↦ rest
      | Ordering.gt ↦ some Ordering.gt
    ])
      ≡ some (found then later)
first_difference Ordering.lt rest later h = refl
first_difference Ordering.eq rest later h = h
first_difference Ordering.gt rest later h = refl

numbers_first :
    (signed_char : Bool) (c d : ℕ) (a b : Bytes) (rest : Option Ordering)
    → is_ascii_digit c ≡ true
    → is_ascii_digit d ≡ true
    → rest
      ≡ some (
          natural_order signed_char
            (behind_digits (skip_zeros (c ∷ a)))
            (behind_digits (skip_zeros (d ∷ b))))
    → (elim (compare_numbers
        (leading_digits (skip_zeros (c ∷ a)))
        (leading_digits (skip_zeros (d ∷ b)))) [
          | Ordering.lt ↦ some Ordering.lt
          | Ordering.eq ↦ rest
          | Ordering.gt ↦ some Ordering.gt
        ])
      ≡ some (natural_order signed_char (c ∷ a) (d ∷ b))
numbers_first sc c d a b rest hc hd later =
    let (_, behind) = skip_zeros-decimal (c ∷ a) in
    let (_, behind') = skip_zeros-decimal (d ∷ b) in
    let order = natural_order sc in
    first_difference
      (compare_numbers (leading_digits (skip_zeros (c ∷ a))) (leading_digits (skip_zeros (d ∷ b))))
      rest (order (behind_digits (c ∷ a)) (behind_digits (d ∷ b)))
      (later
        ∙ ap (λ t. some (order t (behind_digits (skip_zeros (d ∷ b))))) behind
        ∙ ap (λ t. some (order (behind_digits (c ∷ a)) t)) behind')
    ∙ ap (λ o. some (o then order (behind_digits (c ∷ a)) (behind_digits (d ∷ b))))
        (numbers_round c d a b)
    ∙ ap some (sym (order_digits sc c d a b hc hd))

natural_from-natural_order :
    (fuel : ℕ) (signed_char : Bool) (a b : Bytes)
    → length a < fuel
    → natural_from fuel signed_char a b ≡ some (natural_order signed_char a b)
unfolding natural_from natural_order lexicographic parts
natural_from-natural_order zero sc a b h = absurd (omega arith)
natural_from-natural_order (suc fuel) sc [] [] h = refl
natural_from-natural_order (suc fuel) sc [] (d ∷ b) h =
    let (_, _, first) = first_place sc d b in ap some (sym (ap (lexicographic by_place []) first))
natural_from-natural_order (suc fuel) sc (c ∷ a) [] h =
    let (_, _, first) = first_place sc c a in
    ap some (sym (ap (λ x. lexicographic by_place x []) first))
natural_from-natural_order (suc fuel) sc (c ∷ a) (d ∷ b) h =
    elim (Bool-cases (is_ascii_digit c && is_ascii_digit d)) [
      | inl both ↦
          let hc : is_ascii_digit c ≡ true = ground arith in
          let hd : is_ascii_digit d ≡ true = ground arith in
          let (_, behind) = skip_zeros-decimal (c ∷ a) in
          let (_, _, shorter) = at_digit c a hc in
          let short = length-behind_digits a in
          let less = ap length (behind ∙ shorter) in
          rw (both, natural_from)
            (numbers_first sc c d a b _ hc hd (
              natural_from-natural_order fuel sc (behind_digits (skip_zeros (c ∷ a)))
                (behind_digits (skip_zeros (d ∷ b))) (omega (arith, short, less))))
      | inr either ↦ elim (Bool-cases (c == d)) [
        | inl e ↦
            let same : d ≡ c = ground arith in
            let other : is_ascii_digit c ≡ false = ground arith in
            rw (either, e, natural_from)
              (natural_from-natural_order fuel sc a b (omega arith)
                ∙ ap some (sym (order_same sc c a b other))
                ∙ ap (λ x. some (natural_order sc (c ∷ a) (x ∷ b))) (sym same))
        | inr differ ↦
            rw (either, differ, natural_from)
              (ap some (sym (order_unequal sc c d a b differ either)))
      ]
    ]

natural_compare-natural_order :
    (signed_char : Bool) (a b : Bytes)
    → natural_compare signed_char a b ≡ some (natural_order signed_char a b)
unfolding natural_compare
natural_compare-natural_order sc a b =
    natural_from-natural_order (length a + 1) sc a b (omega arith)

natural_order-Orders : (signed_char : Bool) → Orders (natural_order signed_char)
unfolding natural_order
natural_order-Orders sc =
    pulled_Orders (λ s. map (place sc) (parts s))
      (lexicographic-Orders by_place (then-Orders compare-Orders compare-Orders))

-- natural_compare returns what comparing the parts of two texts one by one gives, where a run
-- of digits is one part, goes by its value and stands among the other characters as a digit
-- does; and that is a total order of classes, as std::sort wants it.
pub natural_compare-Orders :
    (signed_char : Bool) (a b : Bytes)
    → (natural_compare signed_char a b ≡ some (natural_order signed_char a b))
      × Orders (natural_order signed_char)
natural_compare-Orders sc a b = (natural_compare-natural_order sc a b, natural_order-Orders sc)

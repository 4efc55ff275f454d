-- ===== src/Strings/Compare/IgnoreCase.antt =====
-- fb_strings/src/string_utils.cpp: `compare_ignore_case` orders the texts, for `std::sort`.
use foo_bar.Base.{
  ℕ, ◌≡◌, refl, ap, ◌∙◌, Bool, true, false, ◌↔◌, List, [], ◌∷◌, Bytes, ◌==◌, if◌then◌else◌, map,
  arith,
}
use foo_bar.Base.Orders.{
  compare, Ordering, ◌then◌, Orders, carried_Orders, compare-Orders, pulled_Orders, lexicographic,
  lexicographic-Orders,
}
use foo_bar.Strings.Chars.{to_ascii_lower}
use foo_bar.Strings.Case.{
  to_lower, to_upper, capitalize, title_case, swap_case, lower_of_conversions,
}
use foo_bar.Strings.Compare.{
  char_rank, by_rank, compare_ignore_case, same_ignoring_case, equals_ignore_case,
}

-- No two characters have the same place.
char_rank-by_rank :
    (signed_char : Bool) (c d : ℕ) (later : Ordering)
    → (if c == d then later else by_rank signed_char c d)
      ≡ (compare (char_rank signed_char c) (char_rank signed_char d) then later)
unfolding char_rank by_rank
char_rank-by_rank true c d later = ground arith
char_rank-by_rank false c d later = ground arith

ranks : Bool → Bytes → List ℕ
ranks signed_char s = map (char_rank signed_char) (to_lower s)

compare_ignore_case-lexicographic :
    (signed_char : Bool) (a b : Bytes)
    → compare_ignore_case signed_char a b
      ≡ lexicographic compare (ranks signed_char a) (ranks signed_char b)
unfolding compare_ignore_case lexicographic ranks to_lower
compare_ignore_case-lexicographic sc [] [] = refl
compare_ignore_case-lexicographic sc [] (d ∷ b) = refl
compare_ignore_case-lexicographic sc (c ∷ a) [] = refl
compare_ignore_case-lexicographic sc (c ∷ a) (d ∷ b) =
    char_rank-by_rank sc (to_ascii_lower c) (to_ascii_lower d) (compare_ignore_case sc a b)
    ∙ ap (λ z. compare (char_rank sc (to_ascii_lower c)) (char_rank sc (to_ascii_lower d)) then z)
        (compare_ignore_case-lexicographic sc a b)

-- The texts that compare as equal are those with the same lower case text.
lower_same_iff :
    (c d : ℕ) (a b : Bytes)
    → (to_lower (c ∷ a) ≡ to_lower (d ∷ b))
      ↔ ((to_ascii_lower c ≡ to_ascii_lower d) × (to_lower a ≡ to_lower b))
unfolding to_lower
lower_same_iff c d a b = (λ h. (cc, cc), λ (h, h'). cc)

compare_ignore_case-eq :
    (signed_char : Bool) (a b : Bytes)
    → (compare_ignore_case signed_char a b ≡ Ordering.eq) ↔ (to_lower a ≡ to_lower b)
unfolding compare_ignore_case to_lower by_rank
compare_ignore_case-eq sc [] [] = (λ _. refl, λ _. refl)
compare_ignore_case-eq sc [] (d ∷ b) = (λ h. cc, λ h. cc)
compare_ignore_case-eq sc (c ∷ a) [] = (λ h. cc, λ h. cc)
compare_ignore_case-eq sc (c ∷ a) (d ∷ b) =
    let later = compare_ignore_case-eq sc a b in let both = lower_same_iff c d a b in ground arith

-- Whether char is signed or not, compare_ignore_case is the lexicographic comparison of the
-- texts in lower case by the places of their characters, returns 0 exactly if the texts in
-- lower case are equal, and is a total order of classes, as std::sort wants it.
pub compare_ignore_case-Orders :
    (signed_char : Bool) (a b : Bytes)
    → (compare_ignore_case signed_char a b
        ≡ lexicographic compare
            (map (char_rank signed_char) (to_lower a))
            (map (char_rank signed_char) (to_lower b)))
      × ((compare_ignore_case signed_char a b ≡ Ordering.eq) ↔ (to_lower a ≡ to_lower b))
      × Orders (compare_ignore_case signed_char)
unfolding ranks
compare_ignore_case-Orders sc a b = (
  compare_ignore_case-lexicographic sc a b,
  compare_ignore_case-eq sc a b,
  carried_Orders _ _ (compare_ignore_case-lexicographic sc)
      (pulled_Orders (ranks sc) (lexicographic-Orders compare compare-Orders)),
)

equals_ignore_case-cons :
    (c d : ℕ) (a b : Bytes)
    → equals_ignore_case (c ∷ a) (d ∷ b)
      ≡ (if to_ascii_lower c == to_ascii_lower d then equals_ignore_case a b else false)
unfolding equals_ignore_case same_ignoring_case
equals_ignore_case-cons c d a b = ground arith

pub equals_ignore_case-eq :
    (a b : Bytes) → (equals_ignore_case a b ≡ true) ↔ (to_lower a ≡ to_lower b)
unfolding equals_ignore_case same_ignoring_case to_lower
equals_ignore_case-eq [] [] = (λ _. refl, λ _. refl)
equals_ignore_case-eq [] (d ∷ b) = (λ h. ground arith, λ h. cc)
equals_ignore_case-eq (c ∷ a) [] = (λ h. ground arith, λ h. cc)
equals_ignore_case-eq (c ∷ a) (d ∷ b) =
    let later = equals_ignore_case-eq a b in
    let both = lower_same_iff c d a b in let step = equals_ignore_case-cons c d a b in ground arith

-- Two texts are equal for equals_ignore_case exactly if to_lower makes them equal, and
-- compare_ignore_case returns 0 in the same case.
pub equals_ignore_case-compare_ignore_case :
    (signed_char : Bool) (a b : Bytes)
    → ((equals_ignore_case a b ≡ true) ↔ (to_lower a ≡ to_lower b))
      × ((compare_ignore_case signed_char a b ≡ Ordering.eq) ↔ (to_lower a ≡ to_lower b))
equals_ignore_case-compare_ignore_case sc a b =
    (equals_ignore_case-eq a b, compare_ignore_case-eq sc a b)

pub equals_ignore_case-title_case :
    (s : Bytes)
    → (equals_ignore_case (to_upper s) s ≡ true)
      × (equals_ignore_case (to_lower s) s ≡ true)
      × (equals_ignore_case (capitalize s) s ≡ true)
      × (equals_ignore_case (title_case s) s ≡ true)
      × (equals_ignore_case (swap_case s) s ≡ true)
equals_ignore_case-title_case s =
    let (up, low, capital, title, swapped) = lower_of_conversions s in
    (
      (equals_ignore_case-eq _ s).1 up,
      (equals_ignore_case-eq _ s).1 low,
      (equals_ignore_case-eq _ s).1 capital,
      (equals_ignore_case-eq _ s).1 title,
      (equals_ignore_case-eq _ s).1 swapped,
    )

-- ===== src/Strings/Case.antt =====
-- fb_strings/src/string_utils.cpp: the case of letters, in ASCII.
use foo_bar.Base.{
  ℕ, ◌≡◌, refl, ap, ◌∙◌, Bool, true, false, ◌||◌, [], ◌∷◌, Bytes, ◌==◌, if◌then◌else◌, arith,
  Bool-cases, inl, inr,
}
use foo_bar.Strings.Chars.{
  is_whitespace, is_ascii_upper, is_ascii_lower, to_ascii_upper, to_ascii_lower,
}

unfoldable pub to_upper : Bytes → Bytes
to_upper [] = []
to_upper (c ∷ s) = to_ascii_upper c ∷ to_upper s

unfoldable pub to_lower : Bytes → Bytes
to_lower [] = []
to_lower (c ∷ s) = to_ascii_lower c ∷ to_lower s

unfoldable pub capitalize : Bytes → Bytes
unfolding to_lower
capitalize [] = []
capitalize (c ∷ s) = to_ascii_upper c ∷ to_lower s

-- The loop of `title_case`.
unfoldable pub title_from : Bool → Bytes → Bytes
title_from capitalize_next [] = []
title_from capitalize_next (c ∷ s) =
    let breaks = is_whitespace c || c == b'-' || c == b'_' in
    let later = title_from breaks s in
    if breaks
    then c ∷ later
    else if capitalize_next
    then to_ascii_upper c ∷ later
    else to_ascii_lower c ∷ later

unfoldable pub title_case : Bytes → Bytes
unfolding title_from
title_case str = title_from true str

-- What the loop of `swap_case` pushes for a character.
unfoldable pub swap_char : ℕ → ℕ
swap_char c =
    if is_ascii_upper c then to_ascii_lower c else if is_ascii_lower c then to_ascii_upper c else c

unfoldable pub swap_case : Bytes → Bytes
swap_case [] = []
swap_case (c ∷ s) = swap_char c ∷ swap_case s

-- The loops of `is_upper` and `is_lower`: whether a letter was seen.
unfoldable pub upper_from : Bool → Bytes → Bool
upper_from has_letters [] = has_letters
upper_from has_letters (c ∷ s) =
    if is_ascii_lower c then false else upper_from (has_letters || is_ascii_upper c) s

unfoldable pub is_upper : Bytes → Bool
is_upper str = upper_from false str

unfoldable pub lower_from : Bool → Bytes → Bool
lower_from has_letters [] = has_letters
lower_from has_letters (c ∷ s) =
    if is_ascii_upper c then false else lower_from (has_letters || is_ascii_lower c) s

unfoldable pub is_lower : Bytes → Bool
is_lower str = lower_from false str

swap_char-swap_char : (c : ℕ) → swap_char (swap_char c) ≡ c
unfolding swap_char is_ascii_upper is_ascii_lower to_ascii_upper to_ascii_lower
swap_char-swap_char c = ground arith

pub swap_case-swap_case : (s : Bytes) → swap_case (swap_case s) ≡ s
unfolding swap_case
swap_case-swap_case [] = refl
swap_case-swap_case (c ∷ s) =
    ap (λ d. d ∷ swap_case (swap_case s)) (swap_char-swap_char c)
    ∙ ap (λ t. c ∷ t) (swap_case-swap_case s)

-- The lower case letter of a letter in any case.
lower_of_lower : (c : ℕ) → to_ascii_lower (to_ascii_lower c) ≡ to_ascii_lower c
unfolding is_ascii_upper to_ascii_lower
lower_of_lower c = ground arith

lower_of_upper : (c : ℕ) → to_ascii_lower (to_ascii_upper c) ≡ to_ascii_lower c
unfolding is_ascii_upper is_ascii_lower to_ascii_upper to_ascii_lower
lower_of_upper c = ground arith

lower_of_swapped : (c : ℕ) → to_ascii_lower (swap_char c) ≡ to_ascii_lower c
unfolding swap_char
lower_of_swapped c = ground (arith, lower_of_lower c, lower_of_upper c)

-- Equal but for the case.
cons_lower :
    (c d : ℕ) (s t : Bytes)
    → to_ascii_lower c ≡ to_ascii_lower d
    → to_lower s ≡ to_lower t
    → to_lower (c ∷ s) ≡ to_lower (d ∷ t)
unfolding to_lower
cons_lower c d s t h h' = ap (λ x. x ∷ to_lower s) h ∙ ap (λ r. to_ascii_lower d ∷ r) h'

lower_of_title : (up : Bool) (s : Bytes) → to_lower (title_from up s) ≡ to_lower s
unfolding title_from
lower_of_title up [] = refl
lower_of_title up (c ∷ s) =
    let breaks = is_whitespace c || c == b'-' || c == b'_' in
    elim (Bool-cases breaks) [
      | inl e ↦ rw e (cons_lower c c (title_from true s) s refl (lower_of_title true s))
      | inr e ↦ elim (Bool-cases up) [
        | inl u ↦
            rw (e, u)
              (cons_lower (to_ascii_upper c) c (title_from false s) s (lower_of_upper c)
                (lower_of_title false s))
        | inr u ↦
            rw (e, u)
              (cons_lower (to_ascii_lower c) c (title_from false s) s (lower_of_lower c)
                (lower_of_title false s))
      ]
    ]

lower_of_text :
    (s : Bytes) → (to_lower (to_upper s) ≡ to_lower s) × (to_lower (to_lower s) ≡ to_lower s)
unfolding to_upper to_lower
lower_of_text [] = (refl, refl)
lower_of_text (c ∷ s) =
    let (up, low) = lower_of_text s in
    (
      cons_lower (to_ascii_upper c) c (to_upper s) s (lower_of_upper c) up,
      cons_lower (to_ascii_lower c) c (to_lower s) s (lower_of_lower c) low,
    )

lower_of_capitalized : (s : Bytes) → to_lower (capitalize s) ≡ to_lower s
unfolding capitalize
lower_of_capitalized [] = refl
lower_of_capitalized (c ∷ s) =
    let (_, low) = lower_of_text s in
    cons_lower (to_ascii_upper c) c (to_lower s) s (lower_of_upper c) low

lower_of_swap_case : (s : Bytes) → to_lower (swap_case s) ≡ to_lower s
unfolding swap_case
lower_of_swap_case [] = refl
lower_of_swap_case (c ∷ s) =
    cons_lower (swap_char c) c (swap_case s) s (lower_of_swapped c) (lower_of_swap_case s)

-- What the conversions of a text have in common with it.
pub lower_of_conversions :
    (s : Bytes)
    → (to_lower (to_upper s) ≡ to_lower s)
      × (to_lower (to_lower s) ≡ to_lower s)
      × (to_lower (capitalize s) ≡ to_lower s)
      × (to_lower (title_case s) ≡ to_lower s)
      × (to_lower (swap_case s) ≡ to_lower s)
unfolding title_case
lower_of_conversions s =
    let (up, low) = lower_of_text s in
    (up, low, lower_of_capitalized s, lower_of_title true s, lower_of_swap_case s)

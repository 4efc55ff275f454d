-- ===== src/Strings/Characters.antt =====
-- fb_strings/src/string_utils.cpp: the versions for one character and for a set of characters.
use foo_bar.Base.{
  ℕ, suc, ◌+◌, ◌≡◌, refl, sym, ap, ◌∙◌, Bool, true, false, ◌&&◌, ◌||◌, not, [], ◌∷◌, Bytes, Option,
  none, some, ◌==◌, if◌then◌else◌, length, arith, Bool-cases, inl, inr,
}
use foo_bar.Strings.Split.{
  add_front, all_parts, parts_of, kept-all, split, is_one_of, join, join_later,
}

unfoldable pub contains_char : Bytes → ℕ → Bool
contains_char [] ch = false
contains_char (c ∷ s) ch = c == ch || contains_char s ch

unfoldable pub count_char : Bytes → ℕ → ℕ
count_char [] ch = 0
count_char (c ∷ s) ch = let later = count_char s ch in if c == ch then later + 1 else later

-- The first character that is one of a set; `none` is `npos`.
unfoldable pub find_any : Bytes → Bytes → Option ℕ
find_any [] chars = none
find_any (c ∷ s) chars =
    let later = find_any s chars in
    if is_one_of chars c then some 0 else elim later [ none ↦ none | some i ↦ some (suc i) ]

unfoldable pub find_any_last : Bytes → Bytes → Option ℕ
find_any_last [] chars = none
find_any_last (c ∷ s) chars = elim (find_any_last s chars) [
  | none ↦ if is_one_of chars c then some 0 else none
  | some i ↦ some (suc i)
]

unfoldable pub replace_char : Bytes → ℕ → ℕ → Bytes
replace_char [] from to = []
replace_char (c ∷ s) from to = if c == from then to ∷ s else c ∷ replace_char s from to

unfoldable pub replace_all_char : Bytes → ℕ → ℕ → Bytes
replace_all_char [] from to = []
replace_all_char (c ∷ s) from to =
    let later = replace_all_char s from to in if c == from then to ∷ later else c ∷ later

-- The loop of `remove`; behind the first match, everything is kept.
unfoldable pub remove_from : Bool → Bytes → ℕ → Bytes
remove_from found [] ch = []
remove_from found (c ∷ s) ch =
    let later = remove_from (found || c == ch) s ch in
    if c == ch && not found then later else c ∷ later

unfoldable pub remove_char : Bytes → ℕ → Bytes
remove_char str ch = remove_from false str ch

unfoldable pub remove_all_char : Bytes → ℕ → Bytes
remove_all_char [] ch = []
remove_all_char (c ∷ s) ch =
    let later = remove_all_char s ch in if not (c == ch) then c ∷ later else later

-- `trim_left` with a set: the text from `find_first_not_of` on.
unfoldable pub trim_left_of : Bytes → Bytes → Bytes
trim_left_of [] chars = []
trim_left_of (c ∷ s) chars =
    let later = trim_left_of s chars in if is_one_of chars c then later else c ∷ s

-- A character in front of what is left up to `find_last_not_of`.
unfoldable pub keep_front_of : Bytes → ℕ → Bytes → Bytes
keep_front_of chars c [] = if is_one_of chars c then [] else c ∷ []
keep_front_of chars c (d ∷ s) = c ∷ d ∷ s

unfoldable pub trim_right_of : Bytes → Bytes → Bytes
trim_right_of [] chars = []
trim_right_of (c ∷ s) chars = keep_front_of chars c (trim_right_of s chars)

unfoldable pub trim_of : Bytes → Bytes → Bytes
trim_of str chars = trim_right_of (trim_left_of str chars) chars

-- The three loops go over the parts that `split` gives.
over_parts :
    (s : Bytes) (c d : ℕ)
    → (let parts = all_parts (parts_of (λ x. x == c) s) in
        (replace_all_char s c d ≡ join parts (d ∷ []))
        × (remove_all_char s c ≡ join parts [])
        × (count_char s c + 1 ≡ length parts))
unfolding replace_all_char remove_all_char count_char parts_of all_parts add_front join join_later
over_parts [] c d = (refl, refl, refl)
over_parts (x ∷ s) c d =
    let (replaced, removed, counted) = over_parts s c d in
    elim (Bool-cases (x == c)) [
      | inl e ↦ rw e (ap (λ r. d ∷ r) replaced, removed, omega (arith, counted))
      | inr e ↦ rw e (ap (λ r. x ∷ r) replaced, ap (λ r. x ∷ r) removed, counted)
    ]

pub replace_all_char-split :
    (s : Bytes) (c d : ℕ)
    → (replace_all_char s c d ≡ join (split s c true) (d ∷ []))
      × (remove_all_char s c ≡ join (split s c true) [])
      × (count_char s c + 1 ≡ length (split s c true))
unfolding split
replace_all_char-split s c d =
    let (replaced, removed, counted) = over_parts s c d in
    let all = kept-all (all_parts (parts_of (λ x. x == c) s)) in
    (
      replaced ∙ ap (λ l. join l (d ∷ [])) (sym all),
      removed ∙ ap (λ l. join l []) (sym all),
      counted ∙ ap length (sym all),
    )

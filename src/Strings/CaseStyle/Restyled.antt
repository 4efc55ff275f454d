-- ===== src/Strings/CaseStyle/Restyled.antt =====
-- fb_strings/src/string_utils.cpp: the words of a name that is made of words are those words.
use foo_bar.Base.{
  ℕ, ◌≡◌, refl, ap, ◌∙◌, Bool, true, false, List, [], ◌∷◌, ◌++◌, append-nil, Bytes, All, Option,
  none, some, if◌then◌else◌, map, arith,
}
use foo_bar.Strings.Chars.{is_ascii_upper, to_ascii_lower}
use foo_bar.Strings.Case.{to_lower, lower_of_conversions}
use foo_bar.Strings.Split.{join, join_later}
use foo_bar.Strings.Words.{push_word}
use foo_bar.Strings.CaseStyle.{
  is_separator, is_boundary, words_from, split_into_words, to_snake_case, to_kebab_case,
}

-- A character that neither separates words nor starts one.
Plain : ℕ → Type 0
Plain c = (is_separator c ≡ false) × (is_ascii_upper c ≡ false)

-- A word of such characters is not empty.
abbrev PlainWord : Bytes → Type 0
PlainWord [] = ⊥
PlainWord (c ∷ s) = All Plain (c ∷ s)

no_boundary :
    (back : Option ℕ) (c : ℕ) (s : Bytes) → is_ascii_upper c ≡ false → is_boundary back c s ≡ false
unfolding is_boundary
no_boundary none c s h = refl
no_boundary (some back) c s h = rw h refl

-- The word that a text starts with is read to its end.
words_from-append :
    (w t : Bytes) (back : Option ℕ)
    → All Plain w
    → (next : Bytes) (words : List Bytes)
    → ((back' : Option ℕ) → words_from back' t ≡ (next, words))
    → words_from back (w ++ t) ≡ (w ++ next, words)
unfolding words_from Plain
words_from-append [] t back h next words behind = behind back
words_from-append (c ∷ w) t back ((plain, low), h) next words behind =
    let same = no_boundary back c (w ++ t) low in
    rw (plain, same) (ap (λ p. (c ∷ p.0, p.1)) (words_from-append w t (some c) h next words behind))

push_word-plain : (w : Bytes) (ws : List Bytes) → PlainWord w → push_word (w ++ []) ws ≡ w ∷ ws
unfolding push_word
push_word-plain [] ws h = absurd h
push_word-plain (c ∷ w) ws h = ap (λ r. (c ∷ r) ∷ ws) (append-nil w)

PlainWord-All : (w : Bytes) → PlainWord w → All Plain w
PlainWord-All [] h = absurd h
PlainWord-All (c ∷ w) h = h

-- The words behind a separator are read as they are.
words_from-join_later :
    (d : ℕ) (ws : List Bytes) (back : Option ℕ)
    → is_separator d ≡ true
    → All PlainWord ws
    → words_from back (join_later ws (d ∷ [])) ≡ ([], ws)
unfolding words_from join_later
words_from-join_later d [] back sep h = refl
words_from-join_later d (w ∷ ws) back sep (hw, h) =
    let read =
      words_from-append w (join_later ws (d ∷ [])) none (PlainWord-All w hw) [] ws
        (λ back'. words_from-join_later d ws back' sep h) in
    rw sep (ap (λ p. ([], push_word p.0 p.1)) read ∙ ap (λ l. ([], l)) (push_word-plain w ws hw))

split_into_words-join :
    (d : ℕ) (ws : List Bytes)
    → is_separator d ≡ true
    → All PlainWord ws
    → split_into_words (join ws (d ∷ [])) ≡ ws
unfolding split_into_words join push_word words_from
split_into_words-join d [] sep h = refl
split_into_words-join d (w ∷ ws) sep (hw, h) =
    ap (λ p. push_word p.0 p.1)
      (words_from-append w (join_later ws (d ∷ [])) none (PlainWord-All w hw) [] ws
        (λ back. words_from-join_later d ws back sep h))
    ∙ push_word-plain w ws hw

-- The words of any text hold no separator.
NoSeparator : ℕ → Type 0
NoSeparator c = is_separator c ≡ false

abbrev Word : Bytes → Type 0
Word [] = ⊥
Word (c ∷ s) = All NoSeparator (c ∷ s)

push_word-All :
    (w : Bytes) (ws : List Bytes) → All NoSeparator w → All Word ws → All Word (push_word w ws)
unfolding push_word
push_word-All [] ws h hs = hs
push_word-All (c ∷ w) ws h hs = (h, hs)

abbrev Kept : Bytes × List Bytes → Type 0
Kept p = All NoSeparator p.0 × All Word p.1

-- One round of the loop.
round_keeps :
    (sep boundary : Bool) (c : ℕ) (p : Bytes × List Bytes)
    → (sep ≡ false → NoSeparator c)
    → Kept p
    → Kept (
        if sep
        then ([], push_word p.0 p.1)
        else if boundary
        then ([], (c ∷ p.0) ∷ p.1)
        else (c ∷ p.0, p.1))
round_keeps true boundary c p plain (first, later) = (tt, push_word-All p.0 p.1 first later)
round_keeps false true c p plain (first, later) = (tt, ((plain refl, first), later))
round_keeps false false c p plain (first, later) = ((plain refl, first), later)

words_from-All : (back : Option ℕ) (s : Bytes) → Kept (words_from back s)
unfolding words_from NoSeparator
words_from-All back [] = (tt, tt)
words_from-All back (c ∷ s) =
    round_keeps (is_separator c) (is_boundary back c s) c _ (λ h. h)
      (words_from-All (if is_separator c then none else some c) s)

split_into_words-All : (s : Bytes) → All Word (split_into_words s)
unfolding split_into_words
split_into_words-All s = let (first, later) = words_from-All none s in push_word-All _ _ first later

-- In small letters, they are plain.
Plain-to_ascii_lower : (c : ℕ) → NoSeparator c → Plain (to_ascii_lower c)
unfolding Plain NoSeparator is_separator is_ascii_upper to_ascii_lower
Plain-to_ascii_lower c h = (ground arith, ground arith)

to_lower-All : (s : Bytes) → All NoSeparator s → All Plain (to_lower s)
unfolding to_lower
to_lower-All [] h = tt
to_lower-All (c ∷ s) (hc, h) = (Plain-to_ascii_lower c hc, to_lower-All s h)

to_lower-PlainWord : (w : Bytes) → Word w → PlainWord (to_lower w)
unfolding to_lower
to_lower-PlainWord [] h = absurd h
to_lower-PlainWord (c ∷ w) h = to_lower-All (c ∷ w) h

map-PlainWord : (ws : List Bytes) → All Word ws → All PlainWord (map to_lower ws)
map-PlainWord [] h = tt
map-PlainWord (w ∷ ws) (hw, h) = (to_lower-PlainWord w hw, map-PlainWord ws h)

lower_again : (ws : List Bytes) → map to_lower (map to_lower ws) ≡ map to_lower ws
lower_again [] = refl
lower_again (w ∷ ws) =
    let (_, low, _, _, _) = lower_of_conversions w in
    ap (λ v. v ∷ map to_lower (map to_lower ws)) low ∙ ap (λ l. to_lower w ∷ l) (lower_again ws)

-- The restyled name has the words of the name, and so the same name in the other style.
restyled_words :
    (d : ℕ) (s : Bytes)
    → is_separator d ≡ true
    → split_into_words (join (map to_lower (split_into_words s)) (d ∷ []))
      ≡ map to_lower (split_into_words s)
restyled_words d s sep =
    split_into_words-join d _ sep (map-PlainWord (split_into_words s) (split_into_words-All s))

-- The words of the name that to_snake_case returns are those of the text in small letters, and
-- of a name in snake case and in kebab case each can be had from the other.
pub to_snake_case-to_kebab_case :
    (s : Bytes)
    → (split_into_words (to_snake_case s) ≡ map to_lower (split_into_words s))
      × (to_kebab_case (to_snake_case s) ≡ to_kebab_case s)
      × (to_snake_case (to_kebab_case s) ≡ to_snake_case s)
unfolding to_snake_case to_kebab_case is_separator
to_snake_case-to_kebab_case s =
    let underscored = restyled_words b'_' s refl in
    let hyphened = restyled_words b'-' s refl in
    (
      underscored,
      ap (λ ws. join (map to_lower ws) (b'-' ∷ [])) underscored
          ∙ ap (λ ws. join ws (b'-' ∷ [])) (lower_again (split_into_words s)),
      ap (λ ws. join (map to_lower ws) (b'_' ∷ [])) hyphened
          ∙ ap (λ ws. join ws (b'_' ∷ [])) (lower_again (split_into_words s)),
    )

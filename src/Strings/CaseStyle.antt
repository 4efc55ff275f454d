-- ===== src/Strings/CaseStyle.antt =====
-- fb_strings/src/string_utils.cpp: names such as `to_snake_case` of the words that the separators and
-- the case of the letters mark.
pub mod Restyled
use foo_bar.Base.{
  ℕ, Bool, true, false, ◌&&◌, ◌||◌, not, List, [], ◌∷◌, ◌++◌, Bytes, Option, none, some, ◌==◌,
  if◌then◌else◌, map,
}
use foo_bar.Strings.Chars.{is_ascii_upper, is_ascii_lower, to_ascii_upper, to_ascii_lower}
use foo_bar.Strings.Case.{to_lower, to_upper}
use foo_bar.Strings.Split.{join}
use foo_bar.Strings.Words.{push_word}

unfoldable pub is_separator : ℕ → Bool
is_separator c = c == b' ' || c == b'_' || c == b'-'

-- `i + 1 < str.size() && is_ascii_lower(str[i + 1])`
unfoldable pub lower_next : Bytes → Bool
lower_next [] = false
lower_next (c ∷ s) = is_ascii_lower c

-- A word ends in front of a capital, behind a small letter or where a small letter follows.
unfoldable pub is_boundary : Option ℕ → ℕ → Bytes → Bool
is_boundary none c s = false
is_boundary (some back) c s =
    is_ascii_upper c && (is_ascii_lower back || is_ascii_upper back && lower_next s)

-- The loop of `split_into_words`, with the last character of the word begun: what is left of the
-- word, and the words behind it.
unfoldable pub words_from : Option ℕ → Bytes → Bytes × List Bytes
words_from back [] = ([], [])
words_from back (c ∷ s) =
    let (next, words) = words_from (if is_separator c then none else some c) s in
    if is_separator c
    then ([], push_word next words)
    else if is_boundary back c s
    then ([], (c ∷ next) ∷ words)
    else (c ∷ next, words)

unfoldable pub split_into_words : Bytes → List Bytes
split_into_words str = let (first, later) = words_from none str in push_word first later

unfoldable pub to_snake_case : Bytes → Bytes
to_snake_case str = join (map to_lower (split_into_words str)) (b'_' ∷ [])

unfoldable pub to_kebab_case : Bytes → Bytes
to_kebab_case str = join (map to_lower (split_into_words str)) (b'-' ∷ [])

unfoldable pub to_screaming_snake_case : Bytes → Bytes
to_screaming_snake_case str = join (map to_upper (split_into_words str)) (b'_' ∷ [])

-- A word with a capital in front.
unfoldable pub title_word : Bytes → Bytes
title_word [] = []
title_word (c ∷ word) = to_ascii_upper c ∷ to_lower word

unfoldable pub to_pascal_case : Bytes → Bytes
to_pascal_case str = join (map title_word (split_into_words str)) []

-- The first word is not capitalised.
unfoldable pub camel_words : List Bytes → List Bytes
camel_words [] = []
camel_words (word ∷ words) = to_lower word ∷ map title_word words

unfoldable pub to_camel_case : Bytes → Bytes
to_camel_case str = join (camel_words (split_into_words str)) []

-- ===== src/Strings/Replace.antt =====
-- fb_strings/src/string_utils.cpp: searching a text for another one, replacing and removing it, and
-- `split` by it. The loops over `str.find(substr, pos)` go on to the next place at which the text
-- starts with the other one, and then pass over that.
pub mod Cut
use foo_bar.Base.{
  ℕ, zero, suc, ◌+◌, ◌-◌, ◌≡◌, Bool, true, false, ◌&&◌, ◌||◌, not, List, [], ◌∷◌, ◌++◌, Option,
  none, some, Bytes, ◌==◌, if◌then◌else◌, length, take, drop,
}
use foo_bar.Strings.Affix.{starts_with}
use foo_bar.Strings.Split.{kept, all_parts, is_one_of}

-- A list is empty.
unfoldable pub is_nil : Bytes → Bool
is_nil [] = true
is_nil (c ∷ s) = false

-- `str.find(substr)`
unfoldable pub find : Bytes → Bytes → Option ℕ
find [] substr = if is_nil substr then some 0 else none
find (c ∷ s) substr =
    let later = find s substr in
    if starts_with (c ∷ s) substr
    then some 0
    else elim later [ none ↦ none | some i ↦ some (i + 1) ]

unfoldable pub contains : Bytes → Bytes → Bool
contains s substr = elim (find s substr) [ none ↦ false | some i ↦ true ]

-- The text up to the next place at which `substr` starts, and the texts between such places behind
-- it; the number counts the characters of `substr` that are still to be passed over.
unfoldable pub cut : Bytes → ℕ → Bytes → Bytes × List Bytes
cut substr left [] = ([], [])
cut substr (suc left) (c ∷ s) = cut substr left s
cut substr zero (c ∷ s) =
    let (first, later) =
      cut substr (if starts_with (c ∷ s) substr then length substr - 1 else 0) s in
    if starts_with (c ∷ s) substr then ([], first ∷ later) else (c ∷ first, later)

-- The loop of `count`.
unfoldable pub count_places : Bytes → ℕ → Bytes → ℕ
count_places substr left [] = 0
count_places substr (suc left) (c ∷ s) = count_places substr left s
count_places substr zero (c ∷ s) =
    let rest =
      count_places substr (if starts_with (c ∷ s) substr then length substr - 1 else 0) s in
    if starts_with (c ∷ s) substr then rest + 1 else rest

unfoldable pub count : Bytes → Bytes → ℕ
count s substr = if is_nil substr then 0 else count_places substr 0 s

unfoldable pub replace : Bytes → Bytes → Bytes → Bytes
replace s from to = if is_nil from then s else elim (find s from) [
  | none ↦ s
  | some pos ↦ take pos s ++ (to ++ drop (pos + length from) s)
]

-- The loop of `replace_all`.
unfoldable pub replace_from : Bytes → Bytes → ℕ → Bytes → Bytes
replace_from from to left [] = []
replace_from from to (suc left) (c ∷ s) = replace_from from to left s
replace_from from to zero (c ∷ s) =
    let rest = replace_from from to (if starts_with (c ∷ s) from then length from - 1 else 0) s in
    if starts_with (c ∷ s) from then to ++ rest else c ∷ rest

unfoldable pub replace_all : Bytes → Bytes → Bytes → Bytes
replace_all s from to = if is_nil from then s else replace_from from to 0 s

unfoldable pub remove_all : Bytes → Bytes → Bytes
remove_all s substr = replace_all s substr []

unfoldable pub remove_text : Bytes → Bytes → Bytes
remove_text s substr = replace s substr []

unfoldable pub split_by : Bytes → Bytes → Bool → List Bytes
split_by s delimiter keep_empty =
    if is_nil delimiter then s ∷ [] else kept keep_empty (all_parts (cut delimiter 0 s))

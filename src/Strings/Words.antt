-- ===== src/Strings/Words.antt =====
-- fb_strings/src/string_utils.cpp: the words of a text, between white space.
use foo_bar.Base.{
  ℕ, ◌+◌, ◌≡◌, refl, ap, Bool, true, false, ◌&&◌, ◌||◌, not, List, [], ◌∷◌, ◌++◌, Bytes, ◌==◌,
  if◌then◌else◌, length, arith, Bool-cases, inl, inr,
}
use foo_bar.Strings.Chars.{is_whitespace}
use foo_bar.Strings.Split.{join, join_later}

-- `if (pos > start)`: a word that is not empty is pushed.
unfoldable pub push_word : Bytes → List Bytes → List Bytes
push_word [] later = later
push_word (c ∷ word) later = (c ∷ word) ∷ later

-- The word that a text starts with, maybe an empty one, and the words behind it.
unfoldable pub words_of : Bytes → Bytes × List Bytes
words_of [] = ([], [])
words_of (c ∷ s) =
    let (first, later) = words_of s in
    if is_whitespace c then ([], push_word first later) else (c ∷ first, later)

unfoldable pub split_whitespace : Bytes → List Bytes
split_whitespace str = let (first, later) = words_of str in push_word first later

-- The loop of `word_count`.
unfoldable pub count_words : Bool → Bytes → ℕ
count_words in_word [] = 0
count_words in_word (c ∷ s) =
    let later = count_words (not (is_whitespace c)) s in
    if is_whitespace c then later else if not in_word then later + 1 else later

unfoldable pub word_count : Bytes → ℕ
word_count str = count_words false str

-- The loop of `normalize_whitespace`.
unfoldable pub spaced : Bool → Bool → Bytes → Bytes
spaced in_whitespace started [] = []
spaced in_whitespace started (c ∷ s) =
    let later =
      spaced (is_whitespace c && (started || in_whitespace)) (started || not (is_whitespace c)) s in
    if is_whitespace c
    then if started && not in_whitespace then b' ' ∷ later else later
    else c ∷ later

-- `if (!result.empty() && result.back() == ' ') result.pop_back();`
unfoldable pub drop_last_space : Bytes → Bytes
drop_last_space [] = []
drop_last_space (c ∷ []) = if c == b' ' then [] else c ∷ []
drop_last_space (c ∷ d ∷ s) = c ∷ drop_last_space (d ∷ s)

unfoldable pub normalize_whitespace : Bytes → Bytes
normalize_whitespace str = drop_last_space (spaced false false str)

abbrev space : Bytes
space = b' ' ∷ []

plain_not_space : (c : ℕ) → is_whitespace c ≡ false → (c == b' ') ≡ false
unfolding is_whitespace
plain_not_space c h = ground arith

-- In white space behind a word, the words that are left follow, each behind a space; behind the
-- character of a word, the rest of the word and then those.
spaced-words_of :
    (s : Bytes)
    → (drop_last_space (b' ' ∷ spaced true true s) ≡ join_later (split_whitespace s) space)
      × ((x : ℕ)
          → is_whitespace x ≡ false
          → drop_last_space (x ∷ spaced false true s)
            ≡ (let (first, later) = words_of s in x ∷ first ++ join_later later space))
unfolding spaced drop_last_space words_of join_later split_whitespace push_word
spaced-words_of [] = (refl, λ x h. let plain = plain_not_space x h in rw plain refl)
spaced-words_of (c ∷ s) =
    let (between, inside) = spaced-words_of s in
    elim (Bool-cases (is_whitespace c)) [
      | inl e ↦ (rw e between, λ x h. rw e (ap (λ r. x ∷ r) between))
      | inr e ↦ (rw e (ap (λ r. b' ' ∷ r) (inside c e)), λ x h. rw e (ap (λ r. x ∷ r) (inside c e)))
    ]

spaced-split_whitespace :
    (s : Bytes) → drop_last_space (spaced false false s) ≡ join (split_whitespace s) space
unfolding spaced drop_last_space words_of join join_later split_whitespace push_word
spaced-split_whitespace [] = refl
spaced-split_whitespace (c ∷ s) = elim (Bool-cases (is_whitespace c)) [
  | inl e ↦ rw e (spaced-split_whitespace s)
  | inr e ↦ let (_, inside) = spaced-words_of s in rw e (inside c e)
]

count_words-words_of :
    (s : Bytes)
    → (count_words false s ≡ length (split_whitespace s))
      × (count_words true s ≡ (let (first, later) = words_of s in length later))
unfolding count_words words_of split_whitespace push_word
count_words-words_of [] = (refl, refl)
count_words-words_of (c ∷ s) =
    let (outside, inside) = count_words-words_of s in
    elim (Bool-cases (is_whitespace c)) [
      | inl e ↦ rw e (outside, outside)
      | inr e ↦ rw e (omega (arith, inside), inside)
    ]

-- normalize_whitespace gives the words of split_whitespace, joined with a space, and word_count
-- counts them.
pub normalize_whitespace-split_whitespace :
    (s : Bytes)
    → (normalize_whitespace s ≡ join (split_whitespace s) space)
      × (word_count s ≡ length (split_whitespace s))
unfolding normalize_whitespace word_count
normalize_whitespace-split_whitespace s =
    let (outside, _) = count_words-words_of s in (spaced-split_whitespace s, outside)

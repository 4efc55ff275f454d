-- ===== src/Strings/Layout.antt =====
-- fb_strings/src/string_utils.cpp: repeated characters, tabs, margins and quotes.
use foo_bar.Base.{
  ℕ, ◌+◌, ◌-◌, ◌%◌, ◌≡◌, refl, ap, ◌∙◌, Bool, true, false, ◌&&◌, ◌||◌, not, [], ◌∷◌, ◌++◌, Bytes,
  Option, none, some, ◌==◌, ltb, leb, if◌then◌else◌, length, take, take-append, length-append,
  replicate, arith,
}
use foo_bar.Strings.Characters.{remove_all_char}

-- The loop of `squeeze`, behind the character before.
unfoldable pub squeeze_from : ℕ → Bytes → Bytes
squeeze_from before [] = []
squeeze_from before (c ∷ s) =
    let later = squeeze_from c s in if not (c == before) then c ∷ later else later

unfoldable pub squeeze : Bytes → Bytes
squeeze [] = []
squeeze (c ∷ s) = c ∷ squeeze_from c s

-- `squeeze` of one character.
unfoldable pub squeeze_char_from : ℕ → ℕ → Bytes → Bytes
squeeze_char_from ch before [] = []
squeeze_char_from ch before (c ∷ s) =
    let later = squeeze_char_from ch c s in
    if not (c == ch) || not (before == ch) then c ∷ later else later

unfoldable pub squeeze_char : Bytes → ℕ → Bytes
squeeze_char [] ch = []
squeeze_char (c ∷ s) ch = c ∷ squeeze_char_from ch c s

-- The loop of `expand_tabs`, from a column on.
unfoldable pub expand_from : ℕ → ℕ → Bytes → Bytes
expand_from tab_width col [] = []
expand_from tab_width col (c ∷ s) =
    let spaces = tab_width - col % tab_width in
    let next = if c == b'\t' then col + spaces else if c == b'\n' then 0 else col + 1 in
    let later = expand_from tab_width next s in
    if c == b'\t' then replicate spaces b' ' ++ later else c ∷ later

unfoldable pub expand_tabs : Bytes → ℕ → Bytes
expand_tabs str tab_width =
    if tab_width == 0 then remove_all_char str b'\t' else expand_from tab_width 0 str

-- The loop of `indent`.
unfoldable pub indent_from : Bytes → Bytes → Bytes
indent_from indent_str [] = []
indent_from indent_str (c ∷ s) =
    let later = indent_from indent_str s in
    if c == b'\n' then c ∷ (indent_str ++ later) else c ∷ later

unfoldable pub ends_line : Bytes → Bool
ends_line [] = false
ends_line (c ∷ []) = c == b'\n'
ends_line (c ∷ d ∷ s) = ends_line (d ∷ s)

-- The indent behind a line ending at the end is taken off again.
unfoldable pub indent : Bytes → Bytes → Bytes
indent str indent_str =
    let result = indent_str ++ indent_from indent_str str in
    if ends_line str && leb (length indent_str) (length result)
    then take (length result - length indent_str) result
    else result

-- A line's indentation, where a character that is no blank ends it; `none` is `npos`.
unfoldable pub least_of : Option ℕ → ℕ → Option ℕ
least_of none indent_count = some indent_count
least_of (some m) indent_count = if ltb indent_count m then some indent_count else some m

unfoldable pub is_blank_char : ℕ → Bool
is_blank_char c = c == b' ' || c == b'\t'

-- The first loop of `dedent`: the least indentation.
unfoldable pub least_indent : Option ℕ → Bool → ℕ → Bytes → Option ℕ
least_indent min_indent at_line_start indent_count [] = min_indent
least_indent min_indent at_line_start indent_count (c ∷ s) =
    let ended = at_line_start && not (is_blank_char c || c == b'\n') in
    least_indent (if ended then least_of min_indent indent_count else min_indent)
      (c == b'\n' || (at_line_start && is_blank_char c))
      (if c == b'\n'
        then 0
        else if at_line_start && is_blank_char c
        then indent_count + 1
        else indent_count)
      s

-- The second loop: the blanks of the least indentation are left out of each line.
unfoldable pub remove_indent : ℕ → Bool → ℕ → Bytes → Bytes
remove_indent min_indent at_line_start indent_count [] = []
remove_indent min_indent at_line_start indent_count (c ∷ s) =
    let skipped = at_line_start && ltb indent_count min_indent && is_blank_char c in
    let later =
      remove_indent min_indent (skipped || c == b'\n')
        (if skipped then indent_count + 1 else if c == b'\n' then 0 else indent_count) s in
    if skipped then later else c ∷ later

unfoldable pub dedent : Bytes → Bytes
dedent str = elim (least_indent none true 0 str) [
  | none ↦ str
  | some m ↦ if m == 0 then str else remove_indent m true 0 str
]

unfoldable pub quote : Bytes → ℕ → Bytes
quote str quote_char = quote_char ∷ (str ++ quote_char ∷ [])

-- The last character behind a first one, and the text between them.
unfoldable pub last_of : ℕ → Bytes → ℕ
last_of c [] = c
last_of c (d ∷ s) = last_of d s

unfoldable pub unquote : Bytes → Bytes
unquote [] = []
unquote (first ∷ []) = first ∷ []
unquote (first ∷ c ∷ s) =
    let last = last_of c s in
    if first == last && (first == b'"' || first == b'\'' || first == b'`')
    then take (length s) (c ∷ s)
    else first ∷ c ∷ s

last_of-append : (q : ℕ) (s : Bytes) (c : ℕ) → last_of c (s ++ q ∷ []) ≡ q
unfolding last_of
last_of-append q [] c = refl
last_of-append q (d ∷ s) c = last_of-append q s d

pub unquote-quote :
    (s : Bytes) (q : ℕ) → (q == b'"' || q == b'\'' || q == b'`') ≡ true → unquote (quote s q) ≡ s
unfolding unquote quote last_of
unquote-quote [] q mark = let same : (q == q) ≡ true = ground arith in rw (same, mark) refl
unquote-quote (c ∷ s) q mark =
    let same : (q == q) ≡ true = ground arith in
    let size : length (s ++ q ∷ []) ≡ length (c ∷ s) = omega (arith, length-append s (q ∷ [])) in
    let ends = last_of-append q s c in
    rw (ends, same, mark)
      (ap (λ n. take n (c ∷ s ++ q ∷ [])) size ∙ take-append (length (c ∷ s)) (c ∷ s) (q ∷ []) refl)

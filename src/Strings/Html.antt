-- ===== src/Strings/Html.antt =====
-- fb_strings/src/string_utils.cpp: `html_escape` and `html_unescape`.
use foo_bar.Base.{
  ℕ, zero, suc, ◌≡◌, refl, Bool, [], ◌∷◌, ◌++◌, Bytes, ◌==◌, if◌then◌else◌, arith, bytes_eq, codes,
  take,
}

-- `case` by `case`, what is appended for one character.
unfoldable pub html_entity : ℕ → Bytes
html_entity c =
    if c == b'&'
    then codes "&amp;"
    else if c == b'<'
    then codes "&lt;"
    else if c == b'>'
    then codes "&gt;"
    else if c == 0x22
    then codes "&quot;"
    else if c == 0x27
    then codes "&#39;"
    else c ∷ []

unfoldable pub html_escape : Bytes → Bytes
unfolding html_entity
html_escape [] = []
html_escape (c ∷ s) = html_entity c ++ html_escape s

-- `str.substr(i, n) == text`, at the rest of the text from `i` on.
unfoldable pub stands_at : ℕ → Bytes → Bytes → Bool
unfolding bytes_eq
stands_at n text s = bytes_eq (take n s) text

-- What a round at `&` pushes, and by how much it moves `i` on beside the step of the loop.
unfoldable pub entity_at : Bytes → ℕ × ℕ
unfolding stands_at
entity_at s =
    if stands_at 4 (codes "&lt;") s
    then (b'<', 3)
    else if stands_at 4 (codes "&gt;") s
    then (b'>', 3)
    else if stands_at 5 (codes "&amp;") s
    then (b'&', 4)
    else if stands_at 6 (codes "&quot;") s
    then (0x22, 5)
    else if stands_at 6 (codes "&apos;") s
    then (0x27, 5)
    else if stands_at 5 (codes "&#39;") s
    then (0x27, 4)
    else (b'&', 0)

-- The loop of `html_unescape`; the first argument counts the characters still to be passed over.
unfoldable pub unescape_from : ℕ → Bytes → Bytes
unfolding entity_at
unescape_from skip [] = []
unescape_from (suc skip) (c ∷ s) = unescape_from skip s
unescape_from zero (c ∷ s) =
    let (pushed, moved) = entity_at (c ∷ s) in
    let entity = pushed ∷ unescape_from moved s in
    let plain = c ∷ unescape_from 0 s in if c == b'&' then entity else plain

unfoldable pub html_unescape : Bytes → Bytes
html_unescape s = unescape_from 0 s

unescape-entity :
    (c : ℕ) (rest : Bytes) → unescape_from 0 (html_entity c ++ rest) ≡ c ∷ unescape_from 0 rest
unfolding unescape_from html_entity
unescape-entity c rest = ground arith

-- Every text is read back from its escaped form.
pub html_unescape-html_escape : (s : Bytes) → html_unescape (html_escape s) ≡ s
unfolding html_unescape html_escape
html_unescape-html_escape [] = unfold unescape_from in refl
html_unescape-html_escape (c ∷ s) =
    rw (unescape-entity c (html_escape s), html_unescape-html_escape s)

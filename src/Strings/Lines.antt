-- ===== src/Strings/Lines.antt =====
-- fb_strings/src/string_utils.cpp: the lines of a text, which end at LF, CR or CR LF.
use foo_bar.Base.{
  ◌≡◌, refl, sym, ap, ◌∙◌, Bool, true, false, ◌&&◌, ◌||◌, List, [], ◌∷◌, ◌++◌, append_assoc, Bytes,
  ◌==◌, if◌then◌else◌, Bool-cases, inl, inr,
}
use foo_bar.Strings.Replace.{is_nil}
use foo_bar.Strings.Split.{kept, kept-all, all_parts, join, join_later}

-- The text up to the next line ending, and the lines behind it; a LF right behind a CR belongs to it.
unfoldable pub lines_of : Bool → Bytes → Bytes × List Bytes
lines_of after_cr [] = ([], [])
lines_of after_cr (c ∷ s) =
    let later = lines_of (c == b'\r') s in
    if after_cr && c == b'\n'
    then later
    else if c == b'\r' || c == b'\n'
    then ([], all_parts later)
    else (c ∷ later.0, later.1)

-- Behind a line ending at the end, there is an empty line.
unfoldable pub split_lines : Bytes → Bool → List Bytes
split_lines str keep_empty =
    if is_nil str then [] else kept keep_empty (all_parts (lines_of false str))

-- The loop of `normalize_line_endings`.
unfoldable pub endings_from : Bytes → Bool → Bytes → Bytes
endings_from ending after_cr [] = []
endings_from ending after_cr (c ∷ s) =
    let later = endings_from ending (c == b'\r') s in
    if after_cr && c == b'\n'
    then later
    else if c == b'\r' || c == b'\n'
    then ending ++ later
    else c ∷ later

unfoldable pub normalize_line_endings : Bytes → Bytes → Bytes
normalize_line_endings str ending = endings_from ending false str

-- The text is that of its lines, each ended alike.
endings_from-lines_of :
    (ending : Bytes) (after_cr : Bool) (s : Bytes)
    → endings_from ending after_cr s ≡ join (all_parts (lines_of after_cr s)) ending
unfolding endings_from lines_of join join_later all_parts
endings_from-lines_of ending after [] = refl
endings_from-lines_of ending after (c ∷ s) =
    let later = endings_from-lines_of ending (c == b'\r') s in
    elim (Bool-cases (after && c == b'\n')) [
      | inl e ↦ rw e later
      | inr e ↦ elim (Bool-cases (c == b'\r' || c == b'\n')) [
        | inl ends ↦
            let (first, rest) = lines_of (c == b'\r') s in
            rw (e, ends)
              (ap (λ r. ending ++ r) later
                ∙ sym (append_assoc ending first (join_later rest ending)))
        | inr inside ↦ rw (e, inside) (ap (λ r. c ∷ r) later)
      ]
    ]

-- normalize_line_endings gives the lines of split_lines, the empty ones as well, joined with
-- the line ending.
pub normalize_line_endings-split_lines :
    (s ending : Bytes) → normalize_line_endings s ending ≡ join (split_lines s true) ending
unfolding normalize_line_endings split_lines is_nil endings_from join
normalize_line_endings-split_lines [] ending = refl
normalize_line_endings-split_lines (c ∷ s) ending =
    endings_from-lines_of ending false (c ∷ s)
    ∙ ap (λ parts. join parts ending) (sym (kept-all (all_parts (lines_of false (c ∷ s)))))

-- ===== src/Strings/Pattern.antt =====
-- fb_strings/src/string_utils.cpp: `matches_pattern`. A position is the text from there on.
pub mod Glob
pub mod Decided
use foo_bar.Base.{
  ℕ, zero, suc, ◌+◌, ◌*◌, Bool, true, false, ◌||◌, [], ◌∷◌, Option, none, some, Bytes, ◌==◌,
  if◌then◌else◌, length,
}
use foo_bar.Strings.Chars.{to_ascii_lower}

-- What a round does where the pattern goes on: it takes a character, notes a star, or fails.
pub data Move : Type 0 where
  take_one : Move
  branch : Move
  mismatch : Move

unfoldable pub fold_case : Bool → ℕ → ℕ
fold_case case_sensitive c = if case_sensitive then c else to_ascii_lower c

unfoldable pub move : Bool → ℕ → ℕ → Move
move case_sensitive x c =
    let pc = fold_case case_sensitive x in
    let sc = fold_case case_sensitive c in
    if pc == b'?'
    then take_one
    else if pc == b'*'
    then branch
    else if pc == sc
    then take_one
    else mismatch

-- `p = star_p + 1; ++star_s; s = star_s;`, where a star was noted; a round goes on from there.
unfoldable pub backtrack :
    Option (Bytes × Bytes) → (Bytes → Bytes → Option (Bytes × Bytes) → Option Bool) → Option Bool
backtrack none next = some false
backtrack (some (star_p, [])) next = none
backtrack (some (star_p, c ∷ star_s)) next = next star_p star_s (some (star_p, star_s))

-- The pattern is at its end behind the stars that are left.
unfoldable pub only_stars : Bytes → Bool
only_stars [] = true
only_stars (x ∷ p) = if x == b'*' then only_stars p else false

-- The loop, for at most `fuel` rounds: the rests of the pattern and of the text, and what is behind
-- the last star with the rest of the text that it was noted at.
unfoldable pub match_from : ℕ → Bool → Bytes → Bytes → Option (Bytes × Bytes) → Option Bool
match_from zero case_sensitive p s star = none
match_from (suc fuel) case_sensitive p [] star = some (only_stars p)
match_from (suc fuel) case_sensitive [] (c ∷ s) star =
    backtrack star (match_from fuel case_sensitive)
match_from (suc fuel) case_sensitive (x ∷ p) (c ∷ s) star = elim (move case_sensitive x c) [
  | take_one ↦ match_from fuel case_sensitive p s star
  | branch ↦ match_from fuel case_sensitive p (c ∷ s) (some (p, c ∷ s))
  | mismatch ↦ backtrack star (match_from fuel case_sensitive)
]

unfoldable pub matches_pattern : Bytes → Bytes → Bool → Option Bool
matches_pattern str pattern case_sensitive =
    match_from ((length str + 1) * (length pattern + 1)) case_sensitive pattern str none

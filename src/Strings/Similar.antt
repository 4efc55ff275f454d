-- ===== src/Strings/Similar.antt =====
-- fb_strings/src/string_utils.cpp: what two texts have in common, and `reverse`.
use foo_bar.Base.{
  ℕ, suc, ◌+◌, ◌-◌, ◌^◌, ◌≤◌, ◌≡◌, subst, Bool, true, false, not, [], ◌∷◌, ◌++◌, Bytes, ◌==◌, leb,
  if◌then◌else◌, length, drop, arith, Bool-cases, inl, inr,
}
use foo_bar.Strings.Levenshtein.{levenshtein_distance}
use foo_bar.Strings.Levenshtein.Least.{Edits, done, keep, change, levenshtein_distance_le}

unfoldable pub reverse : Bytes → Bytes
reverse [] = []
reverse (c ∷ s) = reverse s ++ c ∷ []

unfoldable pub common_prefix : Bytes → Bytes → Bytes
common_prefix (c ∷ a) (d ∷ b) = let later = common_prefix a b in if c == d then c ∷ later else []
common_prefix a b = []

-- The loop of `common_suffix` goes from the ends: over the texts reversed.
unfoldable pub common_length : Bytes → Bytes → ℕ
common_length (c ∷ a) (d ∷ b) = let later = common_length a b in if c == d then suc later else 0
common_length a b = 0

unfoldable pub common_suffix : Bytes → Bytes → Bytes
common_suffix a b = drop (length a - common_length (reverse a) (reverse b)) a

-- The loop of `hamming_distance`, on texts of the same length.
unfoldable pub differences : Bytes → Bytes → ℕ
differences (c ∷ a) (d ∷ b) =
    let later = differences a b in if not (c == d) then later + 1 else later
differences a b = 0

-- The greatest `size_t` for texts of different lengths.
unfoldable pub hamming_distance : Bytes → Bytes → ℕ
hamming_distance a b = if not (length a == length b) then 2 ^ 64 - 1 else differences a b

unfoldable pub fuzzy_match : Bytes → Bytes → ℕ → Bool
fuzzy_match str target max_distance = leb (levenshtein_distance str target) max_distance

differences-Edits : (a b : Bytes) → length a ≡ length b → Edits (differences a b) a b
unfolding differences
differences-Edits [] [] same = done
differences-Edits [] (d ∷ b) same = absurd (omega arith)
differences-Edits (c ∷ a) [] same = absurd (omega arith)
differences-Edits (c ∷ a) (d ∷ b) same =
    let edits = differences-Edits a b (omega arith) in
    elim (Bool-cases (c == d)) [
      | inl e ↦
          let one : c ≡ d = ground arith in
          rw e (subst (λ x. Edits (differences a b) (c ∷ a) (x ∷ b)) one (keep c edits))
      | inr e ↦
          let more : suc (differences a b) ≡ differences a b + 1 = omega arith in
          rw e (subst (λ n. Edits n (c ∷ a) (d ∷ b)) more (change c d edits))
    ]

-- Texts of the same length are no further apart than the characters in which they differ.
pub fuzzy_match-hamming_distance :
    (a b : Bytes)
    → length a ≡ length b
    → (levenshtein_distance a b ≤ hamming_distance a b)
      × (fuzzy_match a b (hamming_distance a b) ≡ true)
unfolding hamming_distance fuzzy_match
fuzzy_match-hamming_distance a b same =
    let fits : not (length a == length b) ≡ false = ground arith in
    let least = levenshtein_distance_le (differences a b) a b (differences-Edits a b same) in
    rw fits (least, ground (arith, least))

-- ===== src/Strings/Levenshtein.antt =====
-- fb_strings/src/string_utils.cpp: `levenshtein_distance`, with two rows of the table at a time.
pub mod Least
use foo_bar.Base.{
  ℕ, zero, suc, ◌+◌, ◌≤◌, ◌≡◌, refl, sym, ap, ◌∙◌, ◌≢◌, Bool, true, false, List, [], ◌∷◌, ◌++◌,
  none, some, Bytes, min, ◌==◌, if◌then◌else◌, length, get_elem?, arith, Bool-cases, inl, inr,
  subst,
}

-- `prev[j] = j`, from `j` on.
unfoldable pub count_from : ℕ → Bytes → List ℕ
count_from j [] = j ∷ []
count_from j (c ∷ b) = j ∷ count_from (j + 1) b

-- The inner loop for the character `x`: `left` is `curr[j - 1]` and `diagonal` is `prev[j - 1]`.
unfoldable pub fill : ℕ → ℕ → ℕ → List ℕ → Bytes → List ℕ
fill x left diagonal prev [] = []
fill x left diagonal [] (y ∷ b) = []
fill x left diagonal (above ∷ prev) (y ∷ b) =
    let cost = if x == y then 0 else 1 in
    let value = min (min (above + 1) (left + 1)) (diagonal + cost) in
    value ∷ fill x value above prev b

-- One round of the outer loop.
unfoldable pub next_row : ℕ → ℕ → List ℕ → Bytes → List ℕ
next_row i x [] b = []
next_row i x (first ∷ prev) b = i ∷ fill x i first prev b

-- The outer loop from `i` on.
unfoldable pub fill_rows : ℕ → List ℕ → Bytes → Bytes → List ℕ
fill_rows i prev [] b = prev
fill_rows i prev (x ∷ a) b = fill_rows (i + 1) (next_row i x prev b) a b

unfoldable pub levenshtein_distance : Bytes → Bytes → ℕ
levenshtein_distance [] b = length b
levenshtein_distance (x ∷ a) [] = length (x ∷ a)
levenshtein_distance (x ∷ a) (y ∷ b) =
    elim (get_elem? (fill_rows 1 (count_from 0 (y ∷ b)) (x ∷ a) (y ∷ b)) (length (y ∷ b))) [
      | none ↦ 0
      | some distance ↦ distance
    ]

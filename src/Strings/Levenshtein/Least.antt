-- ===== src/Strings/Levenshtein/Least.antt =====
-- fb_strings/src/string_utils.cpp: the table of `levenshtein_distance` holds the least costs.
use foo_bar.Base.{
  ℕ, suc, ◌+◌, ◌≤◌, ◌≡◌, refl, ap, ◌∙◌, List, [], ◌∷◌, ◌++◌, none, some, Bytes, min, ◌==◌,
  if◌then◌else◌, length, get_elem?, arith, Bool-cases, inl, inr, subst, ◌⊎◌, append-nil,
}
use foo_bar.Strings.Levenshtein.{count_from, fill, next_row, fill_rows, levenshtein_distance}

-- A way to turn a text into another, and what it costs.
pub data Edits : ℕ → Bytes → Bytes → Type 0 where
  done : Edits 0 [] []
  keep : {n : ℕ} {u v : Bytes} (x : ℕ) → Edits n u v → Edits n (x ∷ u) (x ∷ v)
  change : {n : ℕ} {u v : Bytes} (x y : ℕ) → Edits n u v → Edits (suc n) (x ∷ u) (y ∷ v)
  delete : {n : ℕ} {u v : Bytes} (x : ℕ) → Edits n u v → Edits (suc n) (x ∷ u) v
  insert : {n : ℕ} {u v : Bytes} (y : ℕ) → Edits n u v → Edits (suc n) u (y ∷ v)

-- The least cost by recursion, for texts that are read from their ends.
unfoldable pub least : Bytes → Bytes → ℕ
least [] v = length v
least (x ∷ u) [] = suc (length u)
least (x ∷ u) (y ∷ v) =
    min (min (least u (y ∷ v) + 1) (least (x ∷ u) v + 1)) (least u v + (if x == y then 0 else 1))

-- The row of the table for what was read of the first text, behind what was read of the second.
row_of : Bytes → Bytes → Bytes → List ℕ
row_of u v [] = []
row_of u v (y ∷ b) = least u (y ∷ v) ∷ row_of u (y ∷ v) b

fill-row_of :
    (x : ℕ) (u v b : Bytes)
    → fill x (least (x ∷ u) v) (least u v) (row_of u v b) b ≡ row_of (x ∷ u) v b
unfolding fill row_of
fill-row_of x u v [] = refl
fill-row_of x u v (y ∷ b) =
    let value : min (min (least u (y ∷ v) + 1) (least (x ∷ u) v + 1))
          (least u v + (if x == y then 0 else 1))
        ≡ least (x ∷ u) (y ∷ v) =
      unfold least in refl in
    rw value (ap (λ r. least (x ∷ u) (y ∷ v) ∷ r) (fill-row_of x u (y ∷ v) b))

least-nil : (u : Bytes) → least u [] ≡ length u
unfolding least
least-nil [] = refl
least-nil (x ∷ u) = refl

-- A text read to its end, in front of what was read before.
abbrev pub rev_append : Bytes → Bytes → Bytes
rev_append [] u = u
rev_append (x ∷ a) u = rev_append a (x ∷ u)

length-rev_append : (a u : Bytes) → length (rev_append a u) ≡ length a + length u
length-rev_append [] u = omega arith
length-rev_append (x ∷ a) u = omega (arith, length-rev_append a (x ∷ u))

rev_append-rev_append : (a u v : Bytes) → rev_append (rev_append a u) v ≡ rev_append u (a ++ v)
rev_append-rev_append [] u v = refl
rev_append-rev_append (x ∷ a) u v = rev_append-rev_append a (x ∷ u) v

count_from-row_of : (v b : Bytes) → count_from (length v) b ≡ length v ∷ row_of [] v b
unfolding count_from row_of least
count_from-row_of v [] = refl
count_from-row_of v (y ∷ b) =
    let next : length v + 1 ≡ length (y ∷ v) = omega arith in
    rw next (ap (λ r. length v ∷ r) (count_from-row_of (y ∷ v) b))

fill_rows-row_of :
    (a u b : Bytes)
    → fill_rows (length u + 1) (least u [] ∷ row_of u [] b) a b
      ≡ least (rev_append a u) [] ∷ row_of (rev_append a u) [] b
unfolding fill_rows next_row
fill_rows-row_of [] u b = refl
fill_rows-row_of (x ∷ a) u b =
    let index : length u + 1 ≡ least (x ∷ u) [] = omega (arith, least-nil (x ∷ u)) in
    let row : (length u + 1) ∷ fill x (length u + 1) (least u []) (row_of u [] b) b
        ≡ least (x ∷ u) [] ∷ row_of (x ∷ u) [] b =
      rw index (ap (λ r. least (x ∷ u) [] ∷ r) (fill-row_of x u [] b)) in
    let next : length u + 1 + 1 ≡ length (x ∷ u) + 1 = omega arith in
    rw (row, next) (fill_rows-row_of a (x ∷ u) b)

get_elem?-row_of :
    (u v b : Bytes)
    → get_elem? (least u v ∷ row_of u v b) (length b) ≡ some (least u (rev_append b v))
unfolding row_of
get_elem?-row_of u v [] = refl
get_elem?-row_of u v (y ∷ b) = get_elem?-row_of u (y ∷ v) b

-- The code computes the least cost for the texts read from their ends.
levenshtein_distance-least :
    (a b : Bytes) → levenshtein_distance a b ≡ least (rev_append a []) (rev_append b [])
unfolding levenshtein_distance
levenshtein_distance-least [] b = unfold least in omega (arith, length-rev_append b [])
levenshtein_distance-least (x ∷ a) [] =
    omega (arith, least-nil (rev_append (x ∷ a) []), length-rev_append (x ∷ a) [])
levenshtein_distance-least (x ∷ a) (y ∷ b) =
    let first : count_from 0 (y ∷ b) ≡ least [] [] ∷ row_of [] [] (y ∷ b) =
      unfold least in count_from-row_of [] (y ∷ b) in
    let size = length (y ∷ b) in
    let rows = fill_rows-row_of (x ∷ a) [] (y ∷ b) in
    let entry =
      ap (λ r. get_elem? (fill_rows 1 r (x ∷ a) (y ∷ b)) size) first
      ∙ ap (λ r. get_elem? r size) rows
      ∙ get_elem?-row_of (rev_append (x ∷ a) []) [] (y ∷ b) in
    ap (λ o. elim o as (λ _. ℕ) [ none ↦ 0 | some distance ↦ distance ]) entry

-- One of the three ways is the cheapest.
three_cases : (a b c : ℕ) → (min (min a b) c ≡ a) ⊎ ((min (min a b) c ≡ b) ⊎ (min (min a b) c ≡ c))
three_cases a b c = ground arith

recount : {n m : ℕ} {u v : Bytes} → n ≡ m → Edits n u v → Edits m u v
recount {u = u} {v = v} e edits = subst (λ n. Edits n u v) e edits

-- A character that is kept costs nothing.
diagonal :
    (x y n m : ℕ) (u v : Bytes)
    → m ≡ n + (if x == y then 0 else 1)
    → Edits n u v
    → Edits m (x ∷ u) (y ∷ v)
diagonal x y n m u v e edits = elim (Bool-cases (x == y)) [
  | inl same ↦
      let one : x ≡ y = ground arith in
      subst (λ z. Edits m (x ∷ u) (z ∷ v)) one (recount (ground arith) (keep x edits))
  | inr other ↦ recount (ground arith) (change x y edits)
]

least-Edits : (u v : Bytes) → Edits (least u v) u v
unfolding least
least-Edits [] [] = done
least-Edits [] (y ∷ v) = insert y (least-Edits [] v)
least-Edits (x ∷ u) [] = delete x (recount (least-nil u) (least-Edits u []))
least-Edits (x ∷ u) (y ∷ v) =
    elim (three_cases (least u (y ∷ v) + 1) (least (x ∷ u) v + 1)
      (least u v + (if x == y then 0 else 1))) [
        | inl e ↦ recount (omega (arith, e)) (delete x (least-Edits u (y ∷ v)))
        | inr (inl e) ↦ recount (omega (arith, e)) (insert y (least-Edits (x ∷ u) v))
        | inr (inr e) ↦ diagonal x y (least u v) (least (x ∷ u) (y ∷ v)) u v e (least-Edits u v)
      ]

least-le : {n : ℕ} {u v : Bytes} → Edits n u v → least u v ≤ n
unfolding least
least-le done = omega arith
least-le (keep x e) = let rest = least-le e in ground arith
least-le (change x y e) = let rest = least-le e in ground arith
least-le {v = []} (delete {u = u} x e) = omega (arith, least-nil u, least-le e)
least-le {v = y ∷ v} (delete x e) = omega (arith, least-le e)
least-le {u = []} (insert y e) = omega (arith, least-le e)
least-le {u = x ∷ u} (insert y e) = omega (arith, least-le e)

-- Edits in the other direction, in front of edits.
rev_append-Edits :
    {n m : ℕ} {u v u' v' : Bytes}
    → Edits n u v
    → Edits m u' v'
    → Edits (n + m) (rev_append u u') (rev_append v v')
rev_append-Edits done behind = recount (omega arith) behind
rev_append-Edits (keep x e) behind = rev_append-Edits e (keep x behind)
rev_append-Edits (change x y e) behind =
    recount (omega arith) (rev_append-Edits e (change x y behind))
rev_append-Edits (delete x e) behind = recount (omega arith) (rev_append-Edits e (delete x behind))
rev_append-Edits (insert y e) behind = recount (omega arith) (rev_append-Edits e (insert y behind))

-- The text can be turned into the other at the cost of the distance.
pub levenshtein_distance-Edits : (a b : Bytes) → Edits (levenshtein_distance a b) a b
levenshtein_distance-Edits a b =
    let back = rev_append-Edits (least-Edits (rev_append a []) (rev_append b [])) done in
    let same_a : rev_append (rev_append a []) [] ≡ a =
      rev_append-rev_append a [] [] ∙ append-nil a in
    let same_b : rev_append (rev_append b []) [] ≡ b =
      rev_append-rev_append b [] [] ∙ append-nil b in
    recount (omega (arith, levenshtein_distance-least a b)) (
      subst (λ v. Edits (least (rev_append a []) (rev_append b []) + 0) a v) same_b
        (subst
          (λ u.
            Edits (least (rev_append a []) (rev_append b []) + 0) u
              (rev_append (rev_append b []) []))
          same_a back))

-- It cannot be done at a lower cost.
pub levenshtein_distance_le : (n : ℕ) (a b : Bytes) → Edits n a b → levenshtein_distance a b ≤ n
levenshtein_distance_le n a b edits =
    omega (arith, levenshtein_distance-least a b, least-le (rev_append-Edits edits done))

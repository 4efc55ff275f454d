-- ===== src/Strings/Split.antt =====
-- fb_strings/src/string_utils.cpp: `split` by a character, `split_any`, `split_n` and `join`.
use foo_bar.Base.{
  ℕ, zero, suc, ◌≤◌, ◌≡◌, refl, ap, Bool, true, false, List, [], ◌∷◌, ◌++◌, Bytes, All, ◌||◌, ◌==◌,
  if◌then◌else◌, length, arith, Bool-cases, inl, inr, append-nil,
}

-- A character in front of the parts of what follows it: a delimiter starts a new part.
unfoldable pub add_front : Bool → ℕ → Bytes × List Bytes → Bytes × List Bytes
add_front true c (first, later) = ([], first ∷ later)
add_front false c (first, later) = (c ∷ first, later)

unfoldable pub all_parts : Bytes × List Bytes → List Bytes
all_parts (first, later) = first ∷ later

-- The substrings between the delimiters: the first one and the later ones.
unfoldable pub parts_of : (ℕ → Bool) → Bytes → Bytes × List Bytes
parts_of is_delimiter [] = ([], [])
parts_of is_delimiter (c ∷ s) = add_front (is_delimiter c) c (parts_of is_delimiter s)

-- `if (keep_empty || pos > start)`
unfoldable pub kept : Bool → List Bytes → List Bytes
kept keep_empty [] = []
kept keep_empty ([] ∷ parts) =
    if keep_empty then [] ∷ kept keep_empty parts else kept keep_empty parts
kept keep_empty ((c ∷ part) ∷ parts) = (c ∷ part) ∷ kept keep_empty parts

unfoldable pub split : Bytes → ℕ → Bool → List Bytes
split s delimiter keep_empty = kept keep_empty (all_parts (parts_of (λ c. c == delimiter) s))

-- `find_first_of`: the character is one of the delimiters.
unfoldable pub is_one_of : Bytes → ℕ → Bool
is_one_of [] c = false
is_one_of (d ∷ delimiters) c = c == d || is_one_of delimiters c

unfoldable pub split_any : Bytes → Bytes → Bool → List Bytes
split_any s delimiters keep_empty = kept keep_empty (all_parts (parts_of (is_one_of delimiters) s))

-- The loop of `split_n`, which may push `left` further parts before the last one.
unfoldable pub limited : ℕ → ℕ → Bytes → Bytes × List Bytes
limited delimiter left [] = ([], [])
limited delimiter zero (c ∷ s) = (c ∷ s, [])
limited delimiter (suc left) (c ∷ s) =
    add_front (c == delimiter) c (limited delimiter (if c == delimiter then left else suc left) s)

unfoldable pub split_n : Bytes → ℕ → ℕ → List Bytes
split_n s delimiter zero = split s delimiter true
split_n s delimiter (suc left) = all_parts (limited delimiter left s)

-- The loop of `join`.
unfoldable pub join_later : List Bytes → Bytes → Bytes
join_later [] delimiter = []
join_later (part ∷ parts) delimiter = delimiter ++ part ++ join_later parts delimiter

unfoldable pub join : List Bytes → Bytes → Bytes
join [] delimiter = []
join (part ∷ parts) delimiter = part ++ join_later parts delimiter

pub kept-all : (parts : List Bytes) → kept true parts ≡ parts
unfolding kept
kept-all [] = refl
kept-all ([] ∷ parts) = ap (λ ps. [] ∷ ps) (kept-all parts)
kept-all ((c ∷ part) ∷ parts) = ap (λ ps. (c ∷ part) ∷ ps) (kept-all parts)

-- What joining a part of one character more gives.
join-add_front :
    (c d : ℕ) (parts : Bytes × List Bytes) (s : Bytes)
    → join (all_parts parts) (d ∷ []) ≡ s
    → join (all_parts (add_front (c == d) c parts)) (d ∷ []) ≡ c ∷ s
unfolding join join_later all_parts add_front
join-add_front c d (first, later) s h = elim (Bool-cases (c == d)) [
  | inl e ↦ let same : d ≡ c = ground arith in rw e (λ i. same i ∷ h i)
  | inr e ↦ rw e (ap (λ r. c ∷ r) h)
]

join-parts_of : (d : ℕ) (s : Bytes) → join (all_parts (parts_of (λ c. c == d) s)) (d ∷ []) ≡ s
unfolding parts_of
join-parts_of d [] = unfold join join_later all_parts in refl
join-parts_of d (c ∷ s) = join-add_front c d (parts_of (λ b. b == d) s) s (join-parts_of d s)

-- Joining all the parts of a text with the delimiter gives the text back.
pub join-split : (s : Bytes) (d : ℕ) → join (split s d true) (d ∷ []) ≡ s
unfolding split
join-split s d = rw (kept-all (all_parts (parts_of (λ c. c == d) s))) (join-parts_of d s)

join-limited : (d left : ℕ) (s : Bytes) → join (all_parts (limited d left s)) (d ∷ []) ≡ s
unfolding limited
join-limited d left [] = unfold join join_later all_parts in refl
join-limited d zero (c ∷ s) = unfold join join_later all_parts in append-nil (c ∷ s)
join-limited d (suc left) (c ∷ s) =
    let next = if c == d then left else suc left in
    join-add_front c d (limited d next s) s (join-limited d next s)

length-add_front :
    (delimits : Bool) (c : ℕ) (parts : Bytes × List Bytes) (n : ℕ)
    → length (all_parts parts) ≤ (if delimits then n else suc n)
    → length (all_parts (add_front delimits c parts)) ≤ suc n
unfolding all_parts add_front
length-add_front true c (first, later) n h = omega arith
length-add_front false c (first, later) n h = h

length-limited : (d left : ℕ) (s : Bytes) → length (all_parts (limited d left s)) ≤ suc left
unfolding limited
length-limited d left [] = unfold all_parts in omega arith
length-limited d zero (c ∷ s) = unfold all_parts in omega arith
length-limited d (suc left) (c ∷ s) =
    let next = if c == d then left else suc left in
    let rest = length-limited d next s in
    length-add_front (c == d) c (limited d next s) (suc left) (ground (arith, rest))

-- `split_n` cuts a text into at most as many parts as asked for, and no character is lost.
pub join-split_n :
    (s : Bytes) (d n : ℕ)
    → (length (split_n s d (suc n)) ≤ suc n) × (join (split_n s d (suc n)) (d ∷ []) ≡ s)
unfolding split_n
join-split_n s d n = (length-limited d n s, join-limited d n s)

-- A part without the delimiter, in front of the parts of a text that the delimiter starts.
parts_of-part :
    (d : ℕ) (part s : Bytes) (later : List Bytes)
    → All (λ c. (c == d) ≡ false) part
    → parts_of (λ c. c == d) s ≡ ([], later)
    → parts_of (λ c. c == d) (part ++ s) ≡ (part, later)
unfolding parts_of
parts_of-part d [] s later clean h = h
parts_of-part d (c ∷ part) s later (c_clean, clean) h =
    rw (c_clean, parts_of-part d part s later clean h) (unfold add_front in refl)

parts_of-join_later :
    (d : ℕ) (parts : List Bytes)
    → All (λ part. All (λ c. (c == d) ≡ false) part) parts
    → parts_of (λ c. c == d) (join_later parts (d ∷ [])) ≡ ([], parts)
unfolding join_later parts_of
parts_of-join_later d [] clean = refl
parts_of-join_later d (part ∷ parts) (first, later) =
    let itself : (d == d) ≡ true = ground arith in
    rw
      (
        itself,
        parts_of-part d part (join_later parts (d ∷ [])) parts first
            (parts_of-join_later d parts later),
      )
      (unfold add_front in refl)

-- Parts that do not hold the delimiter are the parts of what they are joined to.
pub split-join :
    (part : Bytes) (parts : List Bytes) (d : ℕ)
    → All (λ p. All (λ c. (c == d) ≡ false) p) (part ∷ parts)
    → split (join (part ∷ parts) (d ∷ [])) d true ≡ part ∷ parts
unfolding split join all_parts
split-join part parts d (first, later) =
    rw
      (parts_of-part d part (join_later parts (d ∷ [])) parts first
        (parts_of-join_later d parts later))
      (kept-all (part ∷ parts))

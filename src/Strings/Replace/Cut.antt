-- ===== src/Strings/Replace/Cut.antt =====
-- fb_strings/src/string_utils.cpp: what searching, replacing and splitting by a text have in common.
use foo_bar.Base.{
  ℕ, zero, suc, ◌+◌, ◌-◌, ◌≡◌, refl, sym, ap, subst, ◌∙◌, true, false, [], ◌∷◌, ◌++◌, append_assoc,
  Bytes, All, if◌then◌else◌, length, drop, drop-append, arith, Bool-cases, Option-cases, inl, inr,
}
use foo_bar.Strings.Affix.{starts_with, starts_with_iff}
use foo_bar.Strings.Split.{kept-all, all_parts, join, join_later}
use foo_bar.Strings.Replace.{
  is_nil, find, contains, cut, count_places, count, replace_from, replace_all, split_by,
}

-- The characters that are still to be passed over.
cut-drop : (substr s : Bytes) (n : ℕ) → cut substr n s ≡ cut substr 0 (drop n s)
unfolding cut
cut-drop substr [] zero = refl
cut-drop substr [] (suc n) = refl
cut-drop substr (c ∷ s) zero = refl
cut-drop substr (c ∷ s) (suc n) = cut-drop substr s n

-- The loops go the same way as `cut`.
replace_from-cut :
    (from to s : Bytes) (n : ℕ) → replace_from from to n s ≡ join (all_parts (cut from n s)) to
unfolding replace_from cut join join_later all_parts
replace_from-cut from to [] n = refl
replace_from-cut from to (c ∷ s) (suc n) = replace_from-cut from to s n
replace_from-cut from to (c ∷ s) zero = elim (Bool-cases (starts_with (c ∷ s) from)) [
  | inl e ↦
      let (first, later) = cut from (length from - 1) s in
      rw e (
        ap (λ r. to ++ r) (replace_from-cut from to s (length from - 1))
        ∙ sym (append_assoc to first (join_later later to)))
  | inr e ↦ rw e (ap (λ r. c ∷ r) (replace_from-cut from to s 0))
]

count_places-cut :
    (substr s : Bytes) (n : ℕ) → count_places substr n s + 1 ≡ length (all_parts (cut substr n s))
unfolding count_places cut all_parts
count_places-cut substr [] n = refl
count_places-cut substr (c ∷ s) (suc n) = count_places-cut substr s n
count_places-cut substr (c ∷ s) zero = elim (Bool-cases (starts_with (c ∷ s) substr)) [
  | inl e ↦ rw e (let rest = count_places-cut substr s (length substr - 1) in omega arith)
  | inr e ↦ rw e (count_places-cut substr s 0)
]

-- How a text starts with another one, and what is behind it.
starts_with-drop :
    (s prefix : Bytes) → starts_with s prefix ≡ true → s ≡ prefix ++ drop (length prefix) s
unfolding starts_with
starts_with-drop s prefix e =
    let (t, same) = (starts_with_iff s prefix).0 e in
    same
    ∙ ap (λ u. prefix ++ u)
        (sym (ap (drop (length prefix)) same ∙ drop-append (length prefix) prefix t refl))

starts_with-append_behind :
    (s prefix t : Bytes) → starts_with s prefix ≡ true → starts_with (s ++ t) prefix ≡ true
starts_with-append_behind s prefix t e =
    let (u, same) = (starts_with_iff s prefix).0 e in
    (starts_with_iff (s ++ t) prefix).1 (u ++ t, ap (λ r. r ++ t) same ∙ append_assoc prefix u t)

-- Joining the parts with what they were cut at gives the text back.
join-cut : (d : ℕ) (ds s : Bytes) (n : ℕ) → join (all_parts (cut (d ∷ ds) n s)) (d ∷ ds) ≡ drop n s
unfolding cut join join_later all_parts
join-cut d ds [] zero = refl
join-cut d ds [] (suc n) = refl
join-cut d ds (c ∷ s) (suc n) = join-cut d ds s n
join-cut d ds (c ∷ s) zero = elim (Bool-cases (starts_with (c ∷ s) (d ∷ ds))) [
  | inl e ↦
      let left : ℕ = length (d ∷ ds) - 1 in
      let same : left ≡ length ds = omega arith in
      let (first, later) = cut (d ∷ ds) left s in
      rw e (
        append_assoc (d ∷ ds) first (join_later later (d ∷ ds))
        ∙ ap (λ r. (d ∷ ds) ++ r) (join-cut d ds s left ∙ ap (λ n. drop n s) same)
        ∙ sym (starts_with-drop (c ∷ s) (d ∷ ds) e))
  | inr e ↦ rw e (ap (λ r. c ∷ r) (join-cut d ds s 0))
]

contains-cons :
    (c : ℕ) (s substr : Bytes)
    → contains (c ∷ s) substr ≡ (if starts_with (c ∷ s) substr then true else contains s substr)
unfolding contains find
contains-cons c s substr = elim (Bool-cases (starts_with (c ∷ s) substr)) [
  | inl e ↦ rw (e, contains) refl
  | inr e ↦ elim (Option-cases (find s substr)) [
    | inl none_there ↦ rw (e, none_there, contains) refl
    | inr (i, there) ↦ rw (e, there, contains) refl
  ]
]

-- No part holds what the text was cut at.
cut-All :
    (d : ℕ) (ds s : Bytes) (n : ℕ)
    → All (λ part. contains part (d ∷ ds) ≡ false) (all_parts (cut (d ∷ ds) n s))
unfolding cut all_parts
cut-All d ds [] n = (unfold contains find is_nil in refl, tt)
cut-All d ds (c ∷ s) (suc n) = cut-All d ds s n
cut-All d ds (c ∷ s) zero = elim (Bool-cases (starts_with (c ∷ s) (d ∷ ds))) [
  | inl e ↦ rw e (unfold contains find is_nil in refl, cut-All d ds s (length (d ∷ ds) - 1))
  | inr e ↦
      let (first, later) = cut (d ∷ ds) 0 s in
      let (clean, rest) = cut-All d ds s 0 in
      let apart : starts_with (c ∷ first) (d ∷ ds) ≡ false =
        elim (Bool-cases (starts_with (c ∷ first) (d ∷ ds))) [
          | inl there ↦
              let whole : (c ∷ first) ++ join_later later (d ∷ ds) ≡ c ∷ s =
                ap (λ r. c ∷ r) (unfold join all_parts in join-cut d ds s 0) in
              let early =
                subst (λ u. starts_with u (d ∷ ds) ≡ true) whole
                  (starts_with-append_behind (c ∷ first) (d ∷ ds) (join_later later (d ∷ ds))
                    there) in
              ground arith
          | inr off ↦ off
        ] in
      rw e (contains-cons c first (d ∷ ds) ∙ rw apart clean, rest)
]

module _ (d : ℕ) (ds : Bytes) where
  -- Joining the parts that split gives, the empty ones as well, with the delimiter, which is
  -- not empty, gives the text back, and no part contains the delimiter.
  pub split_by-join :
      (s : Bytes)
      → (join (split_by s (d ∷ ds) true) (d ∷ ds) ≡ s)
        × All (λ part. contains part (d ∷ ds) ≡ false) (split_by s (d ∷ ds) true)
  unfolding split_by is_nil
  split_by-join s =
      rw (kept-all (all_parts (cut (d ∷ ds) 0 s))) (join-cut d ds s 0, cut-All d ds s 0)

  -- For a text that is not empty, replace_all joins with the replacement the parts that split
  -- gives, the empty ones as well, and count counts one less than the parts.
  pub replace_all-split_by :
      (s to : Bytes)
      → (replace_all s (d ∷ ds) to ≡ join (split_by s (d ∷ ds) true) to)
        × (count s (d ∷ ds) + 1 ≡ length (split_by s (d ∷ ds) true))
  unfolding replace_all count split_by is_nil
  replace_all-split_by s to =
      rw (kept-all (all_parts (cut (d ∷ ds) 0 s)))
        (replace_from-cut (d ∷ ds) to s 0, count_places-cut (d ∷ ds) s 0)

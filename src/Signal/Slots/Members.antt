-- ===== src/Signal/Slots/Members.antt =====
-- fb_signal/include/fb/detail/slot_list.hpp: which slots a list holds, and how often.
use foo_bar.Base.{
  ℕ, ◌+◌, ◌≤◌, ◌≡◌, refl, Bool, List, [], ◌∷◌, ◌++◌, ◌==◌, if◌then◌else◌, All, arith, Bool-cases,
  inl, inr,
}
use foo_bar.Signal.Slots.{Heap, keep_if, comes_before, insert_sorted, stable_sort}

abbrev pub count : ℕ → List ℕ → ℕ
count r [] = 0
count r (s ∷ rs) = (if s == r then 1 else 0) + count r rs

pub count-append : (r : ℕ) (rs ss : List ℕ) → count r (rs ++ ss) ≡ count r rs + count r ss
count-append r [] ss = omega arith
count-append r (s ∷ rs) ss = omega (arith, count-append r rs ss)

pub count-keep_if : (test : ℕ → Bool) (r : ℕ) (rs : List ℕ) → count r (keep_if test rs) ≤ count r rs
unfolding keep_if
count-keep_if test r [] = omega arith
count-keep_if test r (s ∷ rs) = ground (arith, count-keep_if test r rs)

pub count-kept :
    (test : ℕ → Bool) (r : ℕ) (rs : List ℕ)
    → count r (keep_if test rs) ≡ (if test r then count r rs else 0)
unfolding keep_if
count-kept test r [] = ground arith
count-kept test r (s ∷ rs) = elim (Bool-cases (s == r)) [
  | inl e ↦ let same : s ≡ r = ground arith in rw same (ground (arith, count-kept test r rs))
  | inr e ↦ ground (arith, count-kept test r rs)
]

pub All-keep_if {κ} :
    (P : ℕ → Type κ) (test : ℕ → Bool) (rs : List ℕ) → All P rs → All P (keep_if test rs)
unfolding keep_if
All-keep_if P test [] h = tt
All-keep_if P test (r ∷ rs) (h, hs) = elim (Bool-cases (test r)) [
  | inl e ↦ rw e (h, All-keep_if P test rs hs)
  | inr e ↦ rw e (All-keep_if P test rs hs)
]

pub All-map {κ} : (P Q : ℕ → Type κ) (rs : List ℕ) → ((r : ℕ) → P r → Q r) → All P rs → All Q rs
All-map P Q [] f h = tt
All-map P Q (r ∷ rs) f (h, hs) = (f r h, All-map P Q rs f hs)

module _ {F : Type 0} (h : Heap F) where
  count-insert_sorted :
      (r s : ℕ) (rs : List ℕ)
      → count r (insert_sorted h s rs) ≡ (if s == r then 1 else 0) + count r rs
  unfolding insert_sorted
  count-insert_sorted r s [] = refl
  count-insert_sorted r s (t ∷ rs) = elim (Bool-cases (comes_before h t s)) [
    | inl e ↦ rw e (omega (arith, count-insert_sorted r s rs))
    | inr e ↦ rw e refl
  ]

  -- Sorting keeps each slot as often as it is there.
  pub count-stable_sort : (r : ℕ) (rs : List ℕ) → count r (stable_sort h rs) ≡ count r rs
  unfolding stable_sort
  count-stable_sort r [] = refl
  count-stable_sort r (s ∷ rs) =
      omega (arith, count-insert_sorted r s (stable_sort h rs), count-stable_sort r rs)

  pub All-insert_sorted {κ} :
      (P : ℕ → Type κ) (s : ℕ) (rs : List ℕ) → P s → All P rs → All P (insert_sorted h s rs)
  unfolding insert_sorted
  All-insert_sorted P s [] p ps = (p, tt)
  All-insert_sorted P s (t ∷ rs) p (pt, ps) = elim (Bool-cases (comes_before h t s)) [
    | inl e ↦ rw e (pt, All-insert_sorted P s rs p ps)
    | inr e ↦ rw e (p, (pt, ps))
  ]

  pub All-stable_sort {κ} : (P : ℕ → Type κ) (rs : List ℕ) → All P rs → All P (stable_sort h rs)
  unfolding stable_sort
  All-stable_sort P [] ps = tt
  All-stable_sort P (r ∷ rs) (p, ps) =
      All-insert_sorted P r (stable_sort h rs) p (All-stable_sort P rs ps)

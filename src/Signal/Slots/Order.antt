-- ===== src/Signal/Slots/Order.antt =====
-- fb_signal/include/fb/detail/slot_list.hpp: the order of a list, which is the order of delivery.
use foo_bar.Base.{
  ℕ, ◌≤◌, ◌<◌, ◌≡◌, refl, ◌∙◌, Bool, true, false, List, [], ◌∷◌, length, All, arith, Bool-cases,
  inl, inr,
}
use foo_bar.Signal.Slots.{
  Heap, keep_if, comes_before, insert_sorted, stable_sort, id_at, priority_at,
}
use foo_bar.Signal.Slots.Members.{All-keep_if, All-map, All-insert_sorted}

module _ {F : Type 0} where
  -- No slot has a later slot of higher priority, or of equal priority and a smaller number.
  abbrev pub IsOrdered : Heap F → List ℕ → Type 0
  IsOrdered h [] = Unit
  IsOrdered h (r ∷ rs) = All (λ s. comes_before h s r ≡ false) rs × IsOrdered h rs

  pub comes_before_trans :
      (h : Heap F) (a b c : ℕ)
      → comes_before h b a ≡ false
      → comes_before h c b ≡ false
      → comes_before h c a ≡ false
  unfolding comes_before
  comes_before_trans h a b c e f = ground arith

  comes_before_asym :
      (h : Heap F) (a b : ℕ) → comes_before h a b ≡ true → comes_before h b a ≡ false
  unfolding comes_before
  comes_before_asym h a b e = ground arith

  insert_sorted-IsOrdered :
      (h : Heap F) (r : ℕ) (rs : List ℕ) → IsOrdered h rs → IsOrdered h (insert_sorted h r rs)
  unfolding insert_sorted
  insert_sorted-IsOrdered h r [] o = (tt, tt)
  insert_sorted-IsOrdered h r (s ∷ rs) (before, o) = elim (Bool-cases (comes_before h s r)) [
    | inl e ↦ rw e (
      All-insert_sorted h (λ t. comes_before h t s ≡ false) r rs (comes_before_asym h s r e) before,
      insert_sorted-IsOrdered h r rs o,
    )
    | inr e ↦ rw e (
      (
        e,
        All-map (λ t. comes_before h t s ≡ false) (λ t. comes_before h t r ≡ false) rs
            (λ t. comes_before_trans h r s t e) before,
      ),
      (before, o),
    )
  ]

  pub stable_sort-IsOrdered : (h : Heap F) (rs : List ℕ) → IsOrdered h (stable_sort h rs)
  unfolding stable_sort
  stable_sort-IsOrdered h [] = tt
  stable_sort-IsOrdered h (r ∷ rs) =
      insert_sorted-IsOrdered h r (stable_sort h rs) (stable_sort-IsOrdered h rs)

  pub keep_if-IsOrdered :
      (h : Heap F) (test : ℕ → Bool) (rs : List ℕ) → IsOrdered h rs → IsOrdered h (keep_if test rs)
  unfolding keep_if
  keep_if-IsOrdered h test [] o = tt
  keep_if-IsOrdered h test (r ∷ rs) (before, o) = elim (Bool-cases (test r)) [
    | inl e ↦ rw e (
      All-keep_if (λ s. comes_before h s r ≡ false) test rs before,
      keep_if-IsOrdered h test rs o,
    )
    | inr e ↦ rw e (keep_if-IsOrdered h test rs o)
  ]

  -- What decides the order of a slot, which nothing changes.
  abbrev pub SameKeys : Heap F → Heap F → Type 0
  SameKeys h h' =
      (length h.slots ≤ length h'.slots)
      × ((r : ℕ)
          → r < length h.slots
          → (id_at h' r ≡ id_at h r) × (priority_at h' r ≡ priority_at h r))

  same-before :
      (h h' : Heap F) (a b : ℕ)
      → SameKeys h h'
      → a < length h.slots
      → b < length h.slots
      → comes_before h' a b ≡ comes_before h a b
  unfolding comes_before
  same-before h h' a b (_, same) la lb =
      let (ia, pa) = same a la in let (ib, pb) = same b lb in rw (ia, pa, ib, pb) refl

  before-change :
      (h h' : Heap F) (r : ℕ) (rs : List ℕ)
      → SameKeys h h'
      → r < length h.slots
      → All (λ s. s < length h.slots) rs
      → All (λ s. comes_before h s r ≡ false) rs
      → All (λ s. comes_before h' s r ≡ false) rs
  before-change h h' r [] same lr ls o = tt
  before-change h h' r (s ∷ rs) same lr (l, ls) (e, o) =
      (same-before h h' s r same l lr ∙ e, before-change h h' r rs same lr ls o)

  pub IsOrdered-change :
      (h h' : Heap F) (rs : List ℕ)
      → SameKeys h h'
      → All (λ s. s < length h.slots) rs
      → IsOrdered h rs
      → IsOrdered h' rs
  IsOrdered-change h h' [] same ls o = tt
  IsOrdered-change h h' (r ∷ rs) same (l, ls) (before, o) =
      (before-change h h' r rs same l ls before, IsOrdered-change h h' rs same ls o)

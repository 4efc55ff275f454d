-- ===== src/Signal/Slots/Added.antt =====
-- fb_signal/include/fb/detail/slot_list.hpp, `add`: the list with a new slot.
use foo_bar.Base.{
  ℕ, ◌+◌, ◌<◌, ◌≡◌, ap, ◌∙◌, Bool, false, not, ◌==◌, List, [], ◌∷◌, ◌++◌, length, All, arith,
}
use foo_bar.Signal.Slots.{Heap, SlotList, keep_if, comes_before, insert_slot, id_at}
use foo_bar.Signal.Slots.Members.{count, All-keep_if, All-map}
use foo_bar.Signal.Slots.Order.{keep_if-IsOrdered}
use foo_bar.Signal.Slots.Placed.{ahead, stable_sort-snoc}
use foo_bar.Signal.Slots.Reached.{Reach, Reach-IsValid, IsNumbered}
use foo_bar.Signal.Slots.Numbered.{Reach-IsNumbered}
use foo_bar.Signal.Slots.Live.{keep_if-ext}

module _ {F : Type 0} where
  -- The comparison of numbers is that of places, and no two slots have the same.
  abbrev NumbersAgree : Heap F → ℕ → ℕ → Type 0
  NumbersAgree h r s =
      (comes_before h s r ≡ ahead h r s) × (comes_before h r s ≡ not (comes_before h s r))

  numbers_agree :
      (h : Heap F) (r s : ℕ)
      → id_at h s ≡ s + 1
      → id_at h r ≡ r + 1
      → (s == r) ≡ false
      → NumbersAgree h r s
  unfolding comes_before
  numbers_agree h r s one other differ = (ground arith, ground arith)

  All-agree :
      (h : Heap F) (r : ℕ) (rs : List ℕ)
      → IsNumbered h
      → r < length h.slots
      → All (λ s. s < length h.slots) rs
      → count r rs ≡ 0
      → All (NumbersAgree h r) rs
  All-agree h r [] numbered lt lts none_there = tt
  All-agree h r (s ∷ rs) numbered lt (l, ls) none_there = (
    numbers_agree h r s (numbered.ids s l) (numbered.ids r lt) (ground arith),
    All-agree h r rs numbered lt ls (ground arith),
  )

  -- On a list that is reached, also between the parts of other calls, what add does under the
  -- lock with a slot that was made before and is not in the list: the slots whose flag was
  -- read as inactive are dropped, the new one stands behind exactly those of a higher
  -- priority or of the same priority and made earlier, and the others keep their order.
  pub refs-insert_slot :
      {h : Heap F} {l : SlotList} (r : ℕ) (seen : ℕ → Bool)
      → r < length h.slots
      → count r l.refs ≡ 0
      → Reach h l
      → (insert_slot h l seen r).refs
        ≡ keep_if (ahead h r) (keep_if seen l.refs)
          ++ r ∷ keep_if (λ s. not (ahead h r s)) (keep_if seen l.refs)
  unfolding insert_slot
  refs-insert_slot {h} {l} r seen lt none_there reached =
      let v = Reach-IsValid reached in
      let agree =
        All-keep_if (NumbersAgree h r) seen l.refs
          (All-agree h r l.refs (Reach-IsNumbered reached) lt v.made none_there) in
      let front =
        keep_if-ext (λ s. comes_before h s r) (ahead h r) kept
          (All-map (NumbersAgree h r) (λ s. comes_before h s r ≡ ahead h r s) kept (λ s a. a.0)
            agree) in
      let back =
        keep_if-ext (λ s. not (comes_before h s r)) (λ s. not (ahead h r s)) kept
          (All-map (NumbersAgree h r) (λ s. not (comes_before h s r) ≡ not (ahead h r s)) kept
            (λ s a. ap not a.0) agree) in
      stable_sort-snoc h r kept (keep_if-IsOrdered h seen l.refs v.ordered) (
        All-map (NumbersAgree h r) (λ s. comes_before h r s ≡ not (comes_before h s r)) kept
          (λ s a. a.1) agree)
      ∙ ap (λ x. x ++ r ∷ keep_if (λ s. not (comes_before h s r)) kept) front
      ∙ ap (λ x. keep_if (ahead h r) kept ++ r ∷ x) back
    where
      kept : List ℕ
      kept = keep_if seen l.refs

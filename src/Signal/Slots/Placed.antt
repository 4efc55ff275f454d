-- ===== src/Signal/Slots/Placed.antt =====
-- fb_signal/include/fb/detail/slot_list.hpp, `add`: where the new slot goes.
use foo_bar.Base.{
  ℕ, ◌≡◌, refl, ap, ◌∙◌, Bool, true, false, not, ◌||◌, ◌&&◌, ◌==◌, List, [], ◌∷◌, ◌++◌, Option,
  some, length, ltb, get_elem?, All, All-append, arith, Bool-cases, inl, inr, get_elem?-snoc,
}
use foo_bar.Signal.Slots.{
  Heap, Slot, Policy, keep_if, make_slot, comes_before, insert_sorted, stable_sort, id_at,
  priority_at,
}
use foo_bar.Signal.Slots.Order.{IsOrdered, comes_before_trans}
use foo_bar.Signal.Slots.Members.{All-keep_if}

module _ {F : Type 0} where
  -- Whether `s` is of a higher priority than `r`, or of the same and made earlier: the places are in
  -- the order in which the slots were made.
  abbrev pub ahead : Heap F → ℕ → ℕ → Bool
  ahead h r s =
      ltb (priority_at h r) (priority_at h s) || ((priority_at h s == priority_at h r) && ltb s r)

  -- In front of a slot that no slot of the list comes before.
  insert_sorted-first :
      (h : Heap F) (r : ℕ) (rs : List ℕ)
      → All (λ s. comes_before h s r ≡ false) rs
      → insert_sorted h r rs ≡ r ∷ rs
  unfolding insert_sorted
  insert_sorted-first h r [] o = refl
  insert_sorted-first h r (s ∷ rs) (e, o) = rw e refl

  insert_sorted-second :
      (h : Heap F) (r n : ℕ) (rs : List ℕ)
      → comes_before h n r ≡ true
      → All (λ s. comes_before h s r ≡ false) rs
      → insert_sorted h r (n ∷ rs) ≡ n ∷ r ∷ rs
  unfolding insert_sorted
  insert_sorted-second h r n rs e o = rw e (ap (λ l. n ∷ l) (insert_sorted-first h r rs o))

  -- Behind a slot that stays behind `n`, all slots do.
  none_before :
      (h : Heap F) (n r : ℕ) (rs : List ℕ)
      → comes_before h r n ≡ false
      → All (λ s. comes_before h s r ≡ false) rs
      → (keep_if (λ s. comes_before h s n) rs ≡ [])
        × (keep_if (λ s. not (comes_before h s n)) rs ≡ rs)
  unfolding keep_if
  none_before h n r [] e o = (refl, refl)
  none_before h n r (s ∷ rs) e (b, o) =
      let off = comes_before_trans h n r s e b in
      let (front, back) = none_before h n r rs e o in rw (off, front, back) (refl, refl)

  pub stable_sort-snoc :
      (h : Heap F) (n : ℕ) (rs : List ℕ)
      → IsOrdered h rs
      → All (λ s. comes_before h n s ≡ not (comes_before h s n)) rs
      → stable_sort h (rs ++ n ∷ [])
        ≡ keep_if (λ s. comes_before h s n) rs ++ n ∷ keep_if (λ s. not (comes_before h s n)) rs
  unfolding stable_sort insert_sorted keep_if
  stable_sort-snoc h n [] o x = refl
  stable_sort-snoc h n (r ∷ rs) (before, o) (x, xs) =
      let rest = stable_sort-snoc h n rs o xs in
      elim (Bool-cases (comes_before h r n)) [
        | inl e ↦
            let behind : comes_before h n r ≡ false = x ∙ ap not e in
            rw (rest, e)
              (insert_sorted-first h r _ (
                All-append (λ s. comes_before h s r ≡ false) (keep_if (λ s. comes_before h s n) rs)
                  (n ∷ keep_if (λ s. not (comes_before h s n)) rs)
                  (All-keep_if (λ s. comes_before h s r ≡ false) (λ s. comes_before h s n) rs
                    before)
                  (
                    behind,
                    All-keep_if (λ s. comes_before h s r ≡ false) (λ s. not (comes_before h s n)) rs
                        before,
                  )))
        | inr e ↦
            let (front, back) = none_before h n r rs e before in
            rw (rest, e, front, back) (insert_sorted-second h r n rs (x ∙ ap not e) before)
      ]

  pub make_slot-new :
      (h : Heap F) (f : F) (prio : ℕ) (policy : Policy) (queue : Option ℕ)
      → (id_at (make_slot h f prio policy queue) (length h.slots) ≡ h.next_id)
        × (priority_at (make_slot h f prio policy queue) (length h.slots) ≡ prio)
  unfolding make_slot id_at priority_at
  make_slot-new h f prio policy queue =
      let there : get_elem? (h.slots ++ new ∷ []) (length h.slots) ≡ some new =
        ground (arith, get_elem?-snoc h.slots new (length h.slots)) in
      rw (there, id_at, priority_at) (refl, refl)
    where
      new : Slot F
      new = record {
        callable = f;
        priority = prio;
        id = h.next_id;
        active = true;
        blocked = false;
        policy = policy;
        queue = queue;
      }

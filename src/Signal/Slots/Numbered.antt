-- ===== src/Signal/Slots/Numbered.antt =====
-- fb_signal/include/fb/slot.hpp, `generate_id`: each slot has its own number.
use foo_bar.Base.{
  ℕ, ◌+◌, ◌<◌, ◌≡◌, refl, ◌∙◌, Bool, List, [], ◌∷◌, Option, ◌==◌, length, get_elem?, arith,
  Bool-cases, inl, inr, length-append, length-set, Option-cases,
}
use foo_bar.Signal.Slots.{
  Heap, SlotList, Policy, deactivate, set_blocked, make_slot, remove, clear, deactivate_all,
  find_id,
}
use foo_bar.Signal.Slots.Order.{SameKeys}
use foo_bar.Signal.Slots.Keys.{
  make_slot-SameKeys, deactivate-SameKeys, set_blocked-SameKeys, deactivate_all-SameKeys,
}
use foo_bar.Signal.Slots.Placed.{make_slot-new}
use foo_bar.Signal.Slots.Reached.{
  Reach, start, inserted, filtered, recounted, emptied, removed, cleaned, cleared, disconnected,
  blocked, elsewhere, IsNumbered, length-make_slot,
}

module _ {F : Type 0} where
  -- Nothing but making a slot changes the number of slots or the next number.
  abbrev SameCount : Heap F → Heap F → Type 0
  SameCount h h' = (length h'.slots ≡ length h.slots) × (h'.next_id ≡ h.next_id)

  deactivate-SameCount : (h : Heap F) (r : ℕ) → SameCount h (deactivate h r)
  unfolding deactivate
  deactivate-SameCount h r = elim (Option-cases (get_elem? h.slots r)) [
    | inl e ↦ rw (e, deactivate) (refl, refl)
    | inr (slot, e) ↦ rw (e, deactivate) (length-set h.slots r _, refl)
  ]

  set_blocked-SameCount : (b : Bool) (h : Heap F) (r : ℕ) → SameCount h (set_blocked b h r)
  unfolding set_blocked
  set_blocked-SameCount b h r = elim (Option-cases (get_elem? h.slots r)) [
    | inl e ↦ rw (e, set_blocked) (refl, refl)
    | inr (slot, e) ↦ rw (e, set_blocked) (length-set h.slots r _, refl)
  ]

  deactivate_all-SameCount : (h : Heap F) (rs : List ℕ) → SameCount h (deactivate_all h rs)
  unfolding deactivate_all
  deactivate_all-SameCount h [] = (refl, refl)
  deactivate_all-SameCount h (r ∷ rs) =
      let (n, i) = deactivate-SameCount h r in
      let (n', i') = deactivate_all-SameCount (deactivate h r) rs in (n' ∙ n, i' ∙ i)

  IsNumbered-change :
      (h h' : Heap F) → SameKeys h h' → SameCount h h' → IsNumbered h → IsNumbered h'
  IsNumbered-change h h' (le, same) (n, i) v = record {
    following = (let f = v.following in omega arith);
    ids = λ r lt. let below : r < length h.slots = omega arith in (same r below).0 ∙ v.ids r below;
  }

  make_slot-following :
      (h : Heap F) (f : F) (prio : ℕ) (policy : Policy) (queue : Option ℕ)
      → h.next_id ≡ length h.slots + 1
      → (make_slot h f prio policy queue).next_id
        ≡ length (make_slot h f prio policy queue).slots + 1
  unfolding make_slot
  make_slot-following h f prio policy queue number = omega (arith, length-append h.slots _)

  make_slot-IsNumbered :
      (h : Heap F) (f : F) (prio : ℕ) (policy : Policy) (queue : Option ℕ)
      → IsNumbered h
      → IsNumbered (make_slot h f prio policy queue)
  make_slot-IsNumbered h f prio policy queue v = record {
    following = make_slot-following h f prio policy queue v.following;
    ids = λ r lt. elim (Bool-cases (r == length h.slots)) [
      | inl e ↦
          let here : r ≡ length h.slots = ground arith in
          let number = v.following in
          let new = (make_slot-new h f prio policy queue).0 in rw here (omega arith)
      | inr e ↦
          let below : r < length h.slots = ground (arith, length-make_slot h f prio policy queue) in
          ((make_slot-SameKeys h f prio policy queue).1 r below).0 ∙ v.ids r below
    ];
  }

  remove-IsNumbered :
      (h : Heap F) (l : SlotList) (id : ℕ) → IsNumbered h → IsNumbered (remove h l id).0.0
  unfolding remove
  remove-IsNumbered h l id v = elim (Option-cases (find_id h id l.refs)) [
    | inl e ↦ rw (e, remove) v
    | inr (r, e) ↦
        rw (e, remove)
          (IsNumbered-change h (deactivate h r) (deactivate-SameKeys h r) (deactivate-SameCount h r)
            v)
  ]

  pub Reach-IsNumbered : {h : Heap F} {l : SlotList} → Reach h l → IsNumbered h
  unfolding clear
  Reach-IsNumbered start = record { following = refl; ids = λ r lt. absurd (omega arith) }
  Reach-IsNumbered (inserted _ _ _ _ _ s) = Reach-IsNumbered s
  Reach-IsNumbered (filtered _ _ s) = Reach-IsNumbered s
  Reach-IsNumbered (recounted _ s) = Reach-IsNumbered s
  Reach-IsNumbered (emptied _ s) = Reach-IsNumbered s
  Reach-IsNumbered (removed {h} {l} id s) = remove-IsNumbered h l id (Reach-IsNumbered s)
  Reach-IsNumbered (cleaned s) = Reach-IsNumbered s
  Reach-IsNumbered (cleared {h} {l} s) =
      IsNumbered-change h (deactivate_all h l.refs) (deactivate_all-SameKeys h l.refs)
        (deactivate_all-SameCount h l.refs) (Reach-IsNumbered s)
  Reach-IsNumbered (disconnected {h} r s) =
      IsNumbered-change h (deactivate h r) (deactivate-SameKeys h r) (deactivate-SameCount h r)
        (Reach-IsNumbered s)
  Reach-IsNumbered (blocked {h} b r s) =
      IsNumbered-change h (set_blocked b h r) (set_blocked-SameKeys b h r)
        (set_blocked-SameCount b h r) (Reach-IsNumbered s)
  Reach-IsNumbered (elsewhere {h} f prio policy queue s) =
      make_slot-IsNumbered h f prio policy queue (Reach-IsNumbered s)

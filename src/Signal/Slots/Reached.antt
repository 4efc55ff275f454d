-- ===== src/Signal/Slots/Reached.antt =====
-- fb_signal/include/fb/detail/slot_list.hpp: the lists that the operations lead to, in one piece or
-- in the parts that other threads can come between, while slots are also made for other signals,
-- disconnected and blocked from outside. The list itself is only replaced under its mutex.
use foo_bar.Base.{
  ℕ, ◌+◌, ◌*◌, ◌≤◌, ◌<◌, ◌≡◌, Bool, true, false, List, [], ◌∷◌, ◌++◌, Option, ◌==◌, length, ltb,
  All, All-append, arith, Bool-cases, inl, inr, length-append, Option-cases,
}
use foo_bar.Signal.Slots.{
  Heap, SlotList, Policy, keep_if, is_active, deactivate, set_blocked, make_slot, cleanup, remove,
  find_id, insert_slot, add, clear, id_at,
}
use foo_bar.Signal.Slots.Members.{
  count, count-append, count-keep_if, count-stable_sort, All-keep_if, All-map, All-stable_sort,
}
use foo_bar.Signal.Slots.Order.{
  IsOrdered, SameKeys, stable_sort-IsOrdered, keep_if-IsOrdered, IsOrdered-change,
}
use foo_bar.Signal.Slots.Keys.{deactivate-SameKeys, set_blocked-SameKeys, make_slot-SameKeys}

-- Before the first slot; the numbers start at 1.
abbrev pub no_slots : (F : Type 0) → Heap F
no_slots F = record { slots = []; next_id = 1 }

abbrev pub no_refs : SlotList
no_refs = record { refs = []; inactive_count = 0 }

absent : (n r : ℕ) (rs : List ℕ) → All (λ s. s < n) rs → n ≤ r → count r rs ≡ 0
absent n r [] ls le = omega arith
absent n r (s ∷ rs) (l, ls) le = ground (arith, absent n r rs ls le)

module _ {F : Type 0} where
  pub data Reach : Heap F → SlotList → Type 0 where
    start : Reach (no_slots F) no_refs
    -- The part of `add` under the lock. The slot was made before, by `elsewhere`; a slot that is
    -- active was so when its flag was read.
    inserted :
        {h : Heap F} {l : SlotList} (r : ℕ) (seen : ℕ → Bool)
        → r < length h.slots
        → count r l.refs ≡ 0
        → ((s : ℕ) → is_active h s ≡ true → seen s ≡ true)
        → Reach h l
        → Reach h (insert_slot h l seen r)
    -- The part of the cleanup under the lock, with the flags as they are read one by one.
    filtered :
        {h : Heap F} {l : SlotList} (seen : ℕ → Bool)
        → ((s : ℕ) → is_active h s ≡ true → seen s ≡ true)
        → Reach h l
        → Reach h (record l { refs = keep_if seen l.refs })
    -- `m_inactive_count` is changed apart from the list, to any number.
    recounted :
        {h : Heap F} {l : SlotList} (n : ℕ) → Reach h l → Reach h (record l { inactive_count = n })
    -- The last part of `clear`, once it has deactivated the slots one by one.
    emptied :
        {h : Heap F} {l : SlotList}
        → All (λ r. is_active h r ≡ false) l.refs
        → Reach h l
        → Reach h no_refs
    removed :
        {h : Heap F} {l : SlotList} (id : ℕ)
        → Reach h l
        → Reach (remove h l id).0.0 (remove h l id).0.1
    cleaned : {h : Heap F} {l : SlotList} → Reach h l → Reach h (cleanup h l)
    cleared : {h : Heap F} {l : SlotList} → Reach h l → Reach (clear h l).0 (clear h l).1
    -- Also how `remove` and `clear` deactivate a slot.
    disconnected : {h : Heap F} {l : SlotList} (r : ℕ) → Reach h l → Reach (deactivate h r) l
    blocked :
        {h : Heap F} {l : SlotList} (b : Bool) (r : ℕ) → Reach h l → Reach (set_blocked b h r) l
    -- A slot is made, for another signal or by an `add` that has not locked the list yet.
    elsewhere :
        {h : Heap F} {l : SlotList} (f : F) (prio : ℕ) (policy : Policy) (queue : Option ℕ)
        → Reach h l
        → Reach (make_slot h f prio policy queue) l

  -- The slots of a list were made, stand in order, and once each.
  pub record IsValid (h : Heap F) (l : SlotList) : Type 0 where
    pub made : All (λ r. r < length h.slots) l.refs
    pub ordered : IsOrdered h l.refs
    pub once : (r : ℕ) → count r l.refs ≤ 1

  -- The slots are numbered in the order in which they were made.
  pub record IsNumbered (h : Heap F) : Type 0 where
    pub following : h.next_id ≡ length h.slots + 1
    pub ids : (r : ℕ) → r < length h.slots → id_at h r ≡ r + 1

  IsValid-change : (h h' : Heap F) (l : SlotList) → SameKeys h h' → IsValid h l → IsValid h' l
  IsValid-change h h' l same v = record {
    made =
        All-map (λ r. r < length h.slots) (λ r. r < length h'.slots) l.refs
          (λ r lt. (let le = same.0 in omega arith)) v.made;
    ordered = IsOrdered-change h h' l.refs same v.made v.ordered;
    once = v.once;
  }

  IsValid-keep :
      (h : Heap F) (l : SlotList) (test : ℕ → Bool) (n : ℕ)
      → IsValid h l
      → IsValid h (record { refs = keep_if test l.refs; inactive_count = n })
  IsValid-keep h l test n v = record {
    made = All-keep_if (λ r. r < length h.slots) test l.refs v.made;
    ordered = keep_if-IsOrdered h test l.refs v.ordered;
    once = λ r. (let once = v.once r in omega (arith, count-keep_if test r l.refs));
  }

  cleanup-IsValid : (h : Heap F) (l : SlotList) → IsValid h l → IsValid h (cleanup h l)
  unfolding cleanup
  cleanup-IsValid h l v =
      elim (Bool-cases (length (keep_if (is_active h) l.refs) == length l.refs)) [
        | inl e ↦ rw e (record { made = v.made; ordered = v.ordered; once = v.once })
        | inr e ↦ rw e (IsValid-keep h l (is_active h) 0 v)
      ]

  pub length-make_slot :
      (h : Heap F) (f : F) (prio : ℕ) (policy : Policy) (queue : Option ℕ)
      → length (make_slot h f prio policy queue).slots ≡ length h.slots + 1
  unfolding make_slot
  length-make_slot h f prio policy queue = length-append h.slots _

  insert_slot-IsValid :
      (h : Heap F) (l : SlotList) (seen : ℕ → Bool) (new : ℕ)
      → new < length h.slots
      → count new l.refs ≡ 0
      → IsValid h l
      → IsValid h (insert_slot h l seen new)
  unfolding insert_slot
  insert_slot-IsValid h l seen new lt none_there v =
      let v' = IsValid-keep h l seen 0 v in
      record {
        made =
            All-stable_sort h (λ r. r < length h.slots) (kept ++ new ∷ [])
              (All-append (λ r. r < length h.slots) kept (new ∷ []) v'.made (lt, tt));
        ordered = stable_sort-IsOrdered h (kept ++ new ∷ []);
        once = λ r.
            let others = v'.once r in
            let once : count r (kept ++ new ∷ []) ≤ 1 = elim (Bool-cases (new == r)) [
              | inl e ↦ ground (arith, count-append r kept (new ∷ []), count-keep_if seen r l.refs)
              | inr e ↦ ground (arith, count-append r kept (new ∷ []))
            ] in
            omega (arith, count-stable_sort h r (kept ++ new ∷ []));
      }
    where
      kept : List ℕ
      kept = keep_if seen l.refs

  remove-IsValid :
      (h : Heap F) (l : SlotList) (id : ℕ)
      → IsValid h l
      → IsValid (remove h l id).0.0 (remove h l id).0.1
  unfolding remove
  remove-IsValid h l id v = elim (Option-cases (find_id h id l.refs)) [
    | inl e ↦ rw (e, remove) v
    | inr (r, e) ↦
        let v' = IsValid-change h (deactivate h r) l (deactivate-SameKeys h r) v in
        let counted : IsValid (deactivate h r)
            (record l { inactive_count = l.inactive_count + 1 }) =
          record { made = v'.made; ordered = v'.ordered; once = v'.once } in
        elim (Bool-cases (ltb (length l.refs) (2 * (l.inactive_count + 1)))) [
          | inl over ↦
              rw (e, over, remove)
                (cleanup-IsValid (deactivate h r)
                  (record l { inactive_count = l.inactive_count + 1 }) counted)
          | inr under ↦ rw (e, under, remove) counted
        ]
  ]

  -- In every list that the operations lead to, in one piece or in the parts that other
  -- threads come between, while slots are also made for other signals, disconnected and
  -- blocked from outside, the slots were made, stand in the order of delivery, and once each.
  pub Reach-IsValid : {h : Heap F} {l : SlotList} → Reach h l → IsValid h l
  unfolding clear
  Reach-IsValid start = record { made = tt; ordered = tt; once = λ r. omega arith }
  Reach-IsValid (inserted {h} {l} r seen lt none_there _ s) =
      insert_slot-IsValid h l seen r lt none_there (Reach-IsValid s)
  Reach-IsValid (filtered {h} {l} seen _ s) =
      IsValid-keep h l seen l.inactive_count (Reach-IsValid s)
  Reach-IsValid (recounted n s) =
      let v = Reach-IsValid s in record { made = v.made; ordered = v.ordered; once = v.once }
  Reach-IsValid (emptied _ _) = record { made = tt; ordered = tt; once = λ r. omega arith }
  Reach-IsValid (removed {h} {l} id s) = remove-IsValid h l id (Reach-IsValid s)
  Reach-IsValid (cleaned {h} {l} s) = cleanup-IsValid h l (Reach-IsValid s)
  Reach-IsValid (cleared s) = record { made = tt; ordered = tt; once = λ r. omega arith }
  Reach-IsValid (disconnected {h} {l} r s) =
      IsValid-change h (deactivate h r) l (deactivate-SameKeys h r) (Reach-IsValid s)
  Reach-IsValid (blocked {h} {l} b r s) =
      IsValid-change h (set_blocked b h r) l (set_blocked-SameKeys b h r) (Reach-IsValid s)
  Reach-IsValid (elsewhere {h} {l} f prio policy queue s) =
      IsValid-change h (make_slot h f prio policy queue) l
        (make_slot-SameKeys h f prio policy queue) (Reach-IsValid s)

  -- A call of `add` in one piece.
  pub added :
      {h : Heap F} {l : SlotList} (f : F) (prio : ℕ) (policy : Policy) (queue : Option ℕ)
      → Reach h l
      → Reach (add h l f prio policy queue).0 (add h l f prio policy queue).1
  unfolding add
  added {h} {l} f prio policy queue s =
      inserted (length h.slots) (is_active (make_slot h f prio policy queue))
        (omega (arith, length-make_slot h f prio policy queue))
        (absent (length h.slots) (length h.slots) l.refs (Reach-IsValid s).made (omega arith))
        (λ s e. e) (elsewhere f prio policy queue s)

-- ===== src/Signal/Slots.antt =====
-- fb_signal/include/fb/slot.hpp and fb_signal/include/fb/detail/slot_list.hpp: the slots of the
-- signals of one type, and a signal's list of them. A slot is shared by the lists, by snapshots of
-- them and by connections: they hold its place in the heap. Each operation is the call in one piece.
-- With other threads at work it comes in parts: `add` makes the slot, and draws its number, before it
-- locks the list, and `remove` finds, deactivates and counts without the lock; `clear` and the cleanup
-- lock, but `disconnect` sets a flag at any time. Slots/Reached.antt has the parts as steps.
pub mod Order
pub mod Keys
pub mod Reached
pub mod Numbered
pub mod Placed
pub mod Live
pub mod Added
pub mod Members
use foo_bar.Base.{
  ℕ, suc, ◌+◌, ◌*◌, ◌-◌, ◌≡◌, Bool, true, false, ◌&&◌, not, List, [], ◌∷◌, ◌++◌, Option, none, some,
  ltb, ◌==◌, if◌then◌else◌, length, get_elem?, set,
}

pub data Policy : Type 0 where
  direct queued automatic : Policy

-- `F` is the type of what can be called. A priority is its number plus 1000.
pub record Slot (F : Type 0) : Type 0 where
  pub callable : F
  pub priority : ℕ
  pub id : ℕ
  pub active : Bool
  pub blocked : Bool
  pub policy : Policy
  pub queue : Option ℕ

-- All slots that were made, and the next number of `generate_id`.
pub record Heap (F : Type 0) : Type 0 where
  pub slots : List (Slot F)
  pub next_id : ℕ

pub record SlotList : Type 0 where
  pub refs : List ℕ
  pub inactive_count : ℕ

unfoldable pub keep_if : (ℕ → Bool) → List ℕ → List ℕ
keep_if test [] = []
keep_if test (r ∷ rs) = let rest = keep_if test rs in if test r then r ∷ rest else rest

module _ {F : Type 0} where
  unfoldable pub is_active : Heap F → ℕ → Bool
  is_active h r = elim (get_elem? h.slots r) [ none ↦ false | some slot ↦ slot.active ]

  unfoldable pub is_blocked : Heap F → ℕ → Bool
  is_blocked h r = elim (get_elem? h.slots r) [ none ↦ false | some slot ↦ slot.blocked ]

  unfoldable pub id_at : Heap F → ℕ → ℕ
  id_at h r = elim (get_elem? h.slots r) [ none ↦ 0 | some slot ↦ slot.id ]

  unfoldable pub priority_at : Heap F → ℕ → ℕ
  priority_at h r = elim (get_elem? h.slots r) [ none ↦ 0 | some slot ↦ slot.priority ]

  unfoldable pub deactivate : Heap F → ℕ → Heap F
  deactivate h r = elim (get_elem? h.slots r) [
    | none ↦ h
    | some slot ↦ record h { slots = set h.slots r (record slot { active = false }) }
  ]

  unfoldable pub set_blocked : Bool → Heap F → ℕ → Heap F
  set_blocked b h r = elim (get_elem? h.slots r) [
    | none ↦ h
    | some slot ↦ record h { slots = set h.slots r (record slot { blocked = b }) }
  ]

  -- `slot_entry(func, prio, policy, queue)`; its place is behind the others.
  unfoldable pub make_slot : Heap F → F → ℕ → Policy → Option ℕ → Heap F
  make_slot h f prio policy queue = record {
    slots =
        h.slots
        ++ record {
          callable = f;
          priority = prio;
          id = h.next_id;
          active = true;
          blocked = false;
          policy = policy;
          queue = queue;
        }
          ∷ [];
    next_id = h.next_id + 1;
  }

  -- The comparison that `add` sorts by.
  unfoldable pub comes_before : Heap F → ℕ → ℕ → Bool
  comes_before h a b =
      if priority_at h a == priority_at h b
      then ltb (id_at h a) (id_at h b)
      else ltb (priority_at h b) (priority_at h a)

  -- `std::stable_sort`: each element goes in front of the first one that comes behind it.
  unfoldable pub insert_sorted : Heap F → ℕ → List ℕ → List ℕ
  insert_sorted h r [] = r ∷ []
  insert_sorted h r (s ∷ rs) =
      let behind = insert_sorted h r rs in if comes_before h s r then s ∷ behind else r ∷ s ∷ rs

  unfoldable pub stable_sort : Heap F → List ℕ → List ℕ
  stable_sort h [] = []
  stable_sort h (r ∷ rs) = insert_sorted h r (stable_sort h rs)

  -- What `add` does under the lock: `seen` are the flags as they are read there, one by one, and
  -- `r` is the slot that was made before.
  unfoldable pub insert_slot : Heap F → SlotList → (ℕ → Bool) → ℕ → SlotList
  insert_slot h l seen r =
      let kept = keep_if seen l.refs in
      record { refs = stable_sort h (kept ++ r ∷ []); inactive_count = 0 }

  -- The new slot's place is the number of slots that there were.
  unfoldable pub add : Heap F → SlotList → F → ℕ → Policy → Option ℕ → Heap F × SlotList
  add h l f prio policy queue =
      let h' = make_slot h f prio policy queue in
      (h', insert_slot h' l (is_active h') (length h.slots))

  unfoldable pub cleanup : Heap F → SlotList → SlotList
  cleanup h l =
      let kept = keep_if (is_active h) l.refs in
      if length kept == length l.refs
      then record l { inactive_count = 0 }
      else record { refs = kept; inactive_count = 0 }

  -- The first slot of a snapshot with the number; active or not.
  unfoldable pub find_id : Heap F → ℕ → List ℕ → Option ℕ
  find_id h id [] = none
  find_id h id (r ∷ rs) = if id_at h r == id then some r else find_id h id rs

  -- Without the lock up to the cleanup, which comes once more than half of the slots are counted as
  -- inactive.
  unfoldable pub remove : Heap F → SlotList → ℕ → (Heap F × SlotList) × Bool
  remove h l id = elim (find_id h id l.refs) [
    | none ↦ ((h, l), false)
    | some r ↦
        let h' = deactivate h r in
        let l' = record l { inactive_count = l.inactive_count + 1 } in
        ((h', if ltb (length l.refs) (2 * l'.inactive_count) then cleanup h' l' else l'), true)
  ]

  unfoldable pub deactivate_all : Heap F → List ℕ → Heap F
  deactivate_all h [] = h
  deactivate_all h (r ∷ rs) = deactivate_all (deactivate h r) rs

  unfoldable pub clear : Heap F → SlotList → Heap F × SlotList
  clear h l = (deactivate_all h l.refs, record { refs = []; inactive_count = 0 })

  unfoldable pub size : Heap F → SlotList → ℕ
  size h l = length (keep_if (is_active h) l.refs)

  unfoldable pub find_active : Heap F → ℕ → List ℕ → Option ℕ
  find_active h id [] = none
  find_active h id (r ∷ rs) =
      if (id_at h r == id) && is_active h r then some r else find_active h id rs

  unfoldable pub is_empty : Heap F → List ℕ → Bool
  is_empty h [] = true
  is_empty h (r ∷ rs) = if is_active h r then false else is_empty h rs

-- ===== src/Signal/Slots/Keys.antt =====
-- fb_signal/include/fb/slot.hpp: no operation changes the number or the priority of a slot.
use foo_bar.Base.{
  ℕ, ◌≡◌, refl, ap, ◌∙◌, Bool, true, false, List, [], ◌∷◌, ◌++◌, Option, none, some, ◌==◌,
  get_elem?, set, arith, Bool-cases, inl, inr, length-append, length-set, Option-cases,
  get_elem?-set, get_elem?-snoc, get_elem?-lt,
}
use foo_bar.Signal.Slots.{
  Heap, Slot, Policy, deactivate, set_blocked, make_slot, deactivate_all, id_at, priority_at,
}
use foo_bar.Signal.Slots.Order.{SameKeys}

module _ {F : Type 0} where
  set-SameKeys :
      (h : Heap F) (r : ℕ) (slot slot' : Slot F)
      → get_elem? h.slots r ≡ some slot
      → slot'.id ≡ slot.id
      → slot'.priority ≡ slot.priority
      → SameKeys h (record h { slots = set h.slots r slot' })
  unfolding id_at priority_at
  set-SameKeys h r slot slot' e same_id same_priority = (
    omega (arith, length-set h.slots r slot'),
    λ s l.
        let write = get_elem?-set h.slots r s slot' (get_elem?-lt h.slots r e) in
        elim (Bool-cases (s == r)) [
          | inl at ↦
              let here : s ≡ r = ground arith in
              let written : get_elem? (set h.slots r slot') s ≡ some slot' = ground arith in
              let before : get_elem? h.slots s ≡ some slot = ap (get_elem? h.slots) here ∙ e in
              rw (written, before, id_at, priority_at) (same_id, same_priority)
          | inr at ↦
              let written : get_elem? (set h.slots r slot') s ≡ get_elem? h.slots s =
                ground arith in
              rw (written, id_at, priority_at) (refl, refl)
        ],
  )

  pub deactivate_at :
      (h : Heap F) (r : ℕ) (slot : Slot F)
      → get_elem? h.slots r ≡ some slot
      → deactivate h r ≡ record h { slots = set h.slots r (record slot { active = false }) }
  unfolding deactivate
  deactivate_at h r slot e = rw (e, deactivate) refl

  pub deactivate_nowhere : (h : Heap F) (r : ℕ) → get_elem? h.slots r ≡ none → deactivate h r ≡ h
  unfolding deactivate
  deactivate_nowhere h r e = rw (e, deactivate) refl

  pub deactivate-SameKeys : (h : Heap F) (r : ℕ) → SameKeys h (deactivate h r)
  deactivate-SameKeys h r = elim (Option-cases (get_elem? h.slots r)) [
    | inl e ↦ rw (deactivate_nowhere h r e) (omega arith, λ s l. (refl, refl))
    | inr (slot, e) ↦
        rw (deactivate_at h r slot e)
          (set-SameKeys h r slot (record slot { active = false }) e refl refl)
  ]

  pub set_blocked_at :
      (b : Bool) (h : Heap F) (r : ℕ) (slot : Slot F)
      → get_elem? h.slots r ≡ some slot
      → set_blocked b h r ≡ record h { slots = set h.slots r (record slot { blocked = b }) }
  unfolding set_blocked
  set_blocked_at b h r slot e = rw (e, set_blocked) refl

  pub set_blocked_nowhere :
      (b : Bool) (h : Heap F) (r : ℕ) → get_elem? h.slots r ≡ none → set_blocked b h r ≡ h
  unfolding set_blocked
  set_blocked_nowhere b h r e = rw (e, set_blocked) refl

  pub set_blocked-SameKeys : (b : Bool) (h : Heap F) (r : ℕ) → SameKeys h (set_blocked b h r)
  set_blocked-SameKeys b h r = elim (Option-cases (get_elem? h.slots r)) [
    | inl e ↦ rw (set_blocked_nowhere b h r e) (omega arith, λ s l. (refl, refl))
    | inr (slot, e) ↦
        rw (set_blocked_at b h r slot e)
          (set-SameKeys h r slot (record slot { blocked = b }) e refl refl)
  ]

  pub make_slot-SameKeys :
      (h : Heap F) (f : F) (prio : ℕ) (policy : Policy) (queue : Option ℕ)
      → SameKeys h (make_slot h f prio policy queue)
  unfolding make_slot id_at priority_at
  make_slot-SameKeys h f prio policy queue = (
    omega (arith, length-append h.slots (new ∷ [])),
    λ s l.
        let there : get_elem? (h.slots ++ new ∷ []) s ≡ get_elem? h.slots s =
          ground (arith, get_elem?-snoc h.slots new s) in
        rw (there, id_at, priority_at) (refl, refl),
  )
    where
      new : Slot F
      new = record {
        callable = f;
        priority = prio;
        id = h.next_id;
        active = true;
        blocked = false;
        policy = policy;
        queue = queue;
      }

  pub SameKeys-trans : (h h' h'' : Heap F) → SameKeys h h' → SameKeys h' h'' → SameKeys h h''
  SameKeys-trans h h' h'' (le, same) (le', same') = (
    omega arith,
    λ r l. let (i, p) = same r l in let (i', p') = same' r (omega arith) in (i' ∙ i, p' ∙ p),
  )

  pub deactivate_all-SameKeys : (h : Heap F) (rs : List ℕ) → SameKeys h (deactivate_all h rs)
  unfolding deactivate_all
  deactivate_all-SameKeys h [] = (omega arith, λ s l. (refl, refl))
  deactivate_all-SameKeys h (r ∷ rs) =
      SameKeys-trans h (deactivate h r) (deactivate_all (deactivate h r) rs)
        (deactivate-SameKeys h r) (deactivate_all-SameKeys (deactivate h r) rs)

-- ===== src/Signal/Slots/Live.antt =====
-- fb_signal/include/fb/detail/slot_list.hpp: what the operations do to the active slots of a list,
-- the only ones that an emission can reach.
use foo_bar.Base.{
  ℕ, ◌+◌, ◌*◌, ◌<◌, ◌≡◌, refl, sym, ap, subst, ◌∙◌, Bool, true, false, not, List, [], ◌∷◌, none,
  some, ◌==◌, ◌&&◌, length, ltb, get_elem?, set, All, arith, Bool-cases, inl, inr, Option-cases,
  get_elem?-set, get_elem?-lt,
}
use foo_bar.Signal.Slots.{
  Heap, SlotList, keep_if, is_active, deactivate, remove, cleanup, clear, deactivate_all, find_id,
  id_at,
}
use foo_bar.Signal.Slots.Members.{All-keep_if, All-map}
use foo_bar.Signal.Slots.Keys.{deactivate_nowhere, deactivate_at}
use foo_bar.Signal.Slots.Reached.{Reach, IsNumbered, Reach-IsValid}
use foo_bar.Signal.Slots.Numbered.{Reach-IsNumbered}

pub keep_if-ext :
    (p q : ℕ → Bool) (rs : List ℕ) → All (λ r. p r ≡ q r) rs → keep_if p rs ≡ keep_if q rs
unfolding keep_if
keep_if-ext p q [] same = refl
keep_if-ext p q (r ∷ rs) (e, es) = rw (e, keep_if-ext p q rs es) refl

pub keep_if-keep_if :
    (p q : ℕ → Bool) (rs : List ℕ) → keep_if p (keep_if q rs) ≡ keep_if (λ r. q r && p r) rs
unfolding keep_if
keep_if-keep_if p q [] = refl
keep_if-keep_if p q (r ∷ rs) = elim (Bool-cases (q r)) [
  | inl e ↦ rw (e, keep_if, keep_if-keep_if p q rs) refl
  | inr e ↦ rw (e, keep_if-keep_if p q rs) refl
]

keep_if-All : (test : ℕ → Bool) (rs : List ℕ) → All (λ r. test r ≡ true) rs → keep_if test rs ≡ rs
unfolding keep_if
keep_if-All test [] h = refl
keep_if-All test (r ∷ rs) (e, es) = rw (e, keep_if-All test rs es) refl

module _ {F : Type 0} where
  -- The active slots of a list, in the order of delivery.
  abbrev pub live : Heap F → List ℕ → List ℕ
  live h rs = keep_if (is_active h) rs

  is_active_nowhere : (h : Heap F) (r : ℕ) → get_elem? h.slots r ≡ none → is_active h r ≡ false
  unfolding is_active
  is_active_nowhere h r e = rw (e, is_active) refl

  pub deactivate-is_active :
      (h : Heap F) (r s : ℕ) → is_active (deactivate h r) s ≡ is_active h s && not (s == r)
  unfolding deactivate is_active
  deactivate-is_active h r s = elim (Option-cases (get_elem? h.slots r)) [
    | inl e ↦ elim (Bool-cases (s == r)) [
      | inl at ↦
          let same : s ≡ r = ground arith in
          rw (deactivate_nowhere h r e, same, is_active_nowhere h r e) refl
      | inr at ↦ rw (e, deactivate, at) (ground arith)
    ]
    | inr (slot, e) ↦
        let write =
          get_elem?-set h.slots r s (record slot { active = false }) (get_elem?-lt h.slots r e) in
        elim (Bool-cases (s == r)) [
          | inl at ↦
              let written : get_elem? (set h.slots r (record slot { active = false })) s
                  ≡ some (record slot { active = false }) =
                ground arith in
              rw (deactivate_at h r slot e, written, is_active, at) (ground arith)
          | inr at ↦
              let written : get_elem? (set h.slots r (record slot { active = false })) s
                  ≡ get_elem? h.slots s =
                ground arith in
              rw (deactivate_at h r slot e, written, is_active, at) (ground arith)
        ]
  ]

  pub live-cleanup : (h : Heap F) (l : SlotList) → live h (cleanup h l).refs ≡ live h l.refs
  unfolding cleanup
  live-cleanup h l = elim (Bool-cases (length (keep_if (is_active h) l.refs) == length l.refs)) [
    | inl e ↦ rw (e, cleanup) refl
    | inr e ↦
        rw (e, cleanup)
          (keep_if-keep_if (is_active h) (is_active h) l.refs
            ∙ keep_if-ext _ (is_active h) l.refs (twice l.refs))
  ]
    where
      twice : (rs : List ℕ) → All (λ r. (is_active h r && is_active h r) ≡ is_active h r) rs
      twice [] = tt
      twice (r ∷ rs) = (ground arith, twice rs)

  find_id-some :
      (h : Heap F) (id r : ℕ) (rs : List ℕ)
      → find_id h id rs ≡ some r
      → (P : ℕ → Type 0) → All P rs
      → P r × (id_at h r ≡ id)
  unfolding find_id
  find_id-some h id r [] e P ps = absurd (ground arith)
  find_id-some h id r (s ∷ rs) e P (p, ps) = elim (Bool-cases (id_at h s == id)) [
    | inl here ↦
        let same : s ≡ r = ground arith in
        let number : id_at h s ≡ id = ground arith in
        subst (λ t. P t × (id_at h t ≡ id)) same (p, number)
    | inr there ↦
        let rest : find_id h id rs ≡ some r = ground arith in find_id-some h id r rs rest P ps
  ]

  find_id-none :
      (h : Heap F) (id : ℕ) (rs : List ℕ)
      → find_id h id rs ≡ none
      → All (λ r. (id_at h r == id) ≡ false) rs
  unfolding find_id
  find_id-none h id [] e = tt
  find_id-none h id (s ∷ rs) e = elim (Bool-cases (id_at h s == id)) [
    | inl here ↦ absurd (ground arith)
    | inr there ↦
        let rest : find_id h id rs ≡ none = ground arith in (there, find_id-none h id rs rest)
  ]

  pub live-deactivate :
      (h : Heap F) (r : ℕ) (rs : List ℕ)
      → live (deactivate h r) rs ≡ keep_if (λ s. not (s == r)) (live h rs)
  live-deactivate h r rs =
      keep_if-ext (is_active (deactivate h r)) (λ s. is_active h s && not (s == r)) rs (each rs)
      ∙ sym (keep_if-keep_if (λ s. not (s == r)) (is_active h) rs)
    where
      each :
          (rs : List ℕ) → All (λ s. is_active (deactivate h r) s ≡ is_active h s && not (s == r)) rs
      each [] = tt
      each (s ∷ rs) = (deactivate-is_active h r s, each rs)

  -- The numbers tell the slots apart.
  same_number :
      (h : Heap F) (r id : ℕ) (rs : List ℕ)
      → IsNumbered h
      → r < length h.slots
      → id_at h r ≡ id
      → All (λ s. s < length h.slots) rs
      → All (λ s. not (s == r) ≡ not (id_at h s == id)) rs
  same_number h r id [] v lt e lts = tt
  same_number h r id (s ∷ rs) v lt e (l, lts) =
      let mine = v.ids r lt in
      let other = v.ids s l in (ground arith, same_number h r id rs v lt e lts)

  -- On a list that is reached, the active slots after remove are those of before but the one
  -- with the number, whether or not the list is cleaned up.
  pub live-remove :
      {h : Heap F} {l : SlotList} (id : ℕ)
      → Reach h l
      → live (remove h l id).0.0 (remove h l id).0.1.refs
        ≡ keep_if (λ r. not (id_at h r == id)) (live h l.refs)
  unfolding remove
  live-remove {h} {l} id reached = elim (Option-cases (find_id h id l.refs)) [
    | inl e ↦
        rw (e, remove)
          (sym (
            keep_if-All (λ r. not (id_at h r == id)) (live h l.refs)
              (All-keep_if (λ r. not (id_at h r == id) ≡ true) (is_active h) l.refs
                (All-map (λ r. (id_at h r == id) ≡ false) (λ r. not (id_at h r == id) ≡ true) l.refs
                  (λ r. ap not) (find_id-none h id l.refs e)))))
    | inr (r, e) ↦
        let v = Reach-IsValid reached in
        let (lt, number) = find_id-some h id r l.refs e (λ r. r < length h.slots) v.made in
        let gone : live (deactivate h r) l.refs
            ≡ keep_if (λ s. not (id_at h s == id)) (live h l.refs) =
          live-deactivate h r l.refs
          ∙ keep_if-ext (λ s. not (s == r)) (λ s. not (id_at h s == id)) (live h l.refs)
              (same_number h r id (live h l.refs) (Reach-IsNumbered reached) lt number
                (All-keep_if (λ s. s < length h.slots) (is_active h) l.refs v.made)) in
        elim (Bool-cases (ltb (length l.refs) (2 * (l.inactive_count + 1)))) [
          | inl over ↦
              rw (e, over, remove)
                (live-cleanup (deactivate h r) (record l { inactive_count = l.inactive_count + 1 })
                  ∙ gone)
          | inr under ↦ rw (e, under, remove) gone
        ]
  ]

  stays_off :
      (h : Heap F) (r : ℕ) (rs : List ℕ)
      → is_active h r ≡ false
      → is_active (deactivate_all h rs) r ≡ false
  unfolding deactivate_all
  stays_off h r [] e = e
  stays_off h r (s ∷ rs) e =
      stays_off (deactivate h s) r rs (rw (deactivate-is_active h s r, e) refl)

  each_off : (h : Heap F) (rs : List ℕ) → All (λ r. is_active (deactivate_all h rs) r ≡ false) rs
  unfolding deactivate_all
  each_off h [] = tt
  each_off h (r ∷ rs) =
      let off = deactivate-is_active h r r in
      let gone : is_active (deactivate h r) r ≡ false = ground arith in
      (stays_off (deactivate h r) r rs gone, each_off (deactivate h r) rs)

  -- Nothing that a list held is active after `clear`.
  clear-is_active :
      (h : Heap F) (l : SlotList) → All (λ r. is_active (clear h l).0 r ≡ false) l.refs
  unfolding clear
  clear-is_active h l = each_off h l.refs

-- ===== src/Signal/Emit/Inactive.antt =====
-- fb_signal/include/fb/signal.hpp, `emit`: inactive slots in the list make no difference.
use foo_bar.Base.{
  ℕ, ◌≡◌, refl, sym, ap, ◌∙◌, Bool, false, List, [], ◌∷◌, ◌++◌, get_elem?, Bool-cases, Option-cases,
  inl, inr,
}
use foo_bar.Signal.Slots.{Heap, SlotList, is_active, keep_if, cleanup}
use foo_bar.Signal.Slots.Live.{live, live-cleanup}
use foo_bar.Signal.Emit.{
  World, target, is_open, enqueue_invocation, invoke_unchecked, deliver, deliver_all,
}

shut_if_inactive : {F : Type 0} (h : Heap F) (r : ℕ) → is_active h r ≡ false → is_open h r ≡ false
unfolding is_open
shut_if_inactive h r e = rw e refl

module _ {F A S : Type 0} (body : F → A → World F A S → World F A S)
    (tame : (f : F) (args : A) (w : World F A S) (r : ℕ)
      → is_active w.heap r ≡ false
      → is_active (body f args w).heap r ≡ false) where
  deliver-inactive :
      (thread : ℕ) (args : A) (w : World F A S) (r : ℕ)
      → is_active w.heap r ≡ false
      → deliver body thread args w r ≡ w
  unfolding deliver
  deliver-inactive thread args w r off = elim (Option-cases (get_elem? w.heap.slots r)) [
    | inl e ↦ rw (e, deliver) refl
    | inr (slot, e) ↦ rw (e, shut_if_inactive w.heap r off, deliver) refl
  ]

  invoke_unchecked-inactive :
      (w : World F A S) (r : ℕ) (args : A) (s : ℕ)
      → is_active w.heap s ≡ false
      → is_active (invoke_unchecked body w r args).heap s ≡ false
  unfolding invoke_unchecked
  invoke_unchecked-inactive w r args s off = elim (Option-cases (get_elem? w.heap.slots r)) [
    | inl e ↦ rw (e, invoke_unchecked) off
    | inr (slot, e) ↦
        rw (e, invoke_unchecked)
          (tame slot.callable args
            (record w { calls = w.calls ++ record { slot = r; args = args } ∷ [] }) s off)
  ]

  stays_inactive :
      (thread : ℕ) (args : A) (w : World F A S) (r s : ℕ)
      → is_active w.heap s ≡ false
      → is_active (deliver body thread args w r).heap s ≡ false
  unfolding deliver enqueue_invocation
  stays_inactive thread args w r s off = elim (Option-cases (get_elem? w.heap.slots r)) [
    | inl e ↦ rw (e, deliver) off
    | inr (slot, e) ↦ elim (Bool-cases (is_open w.heap r)) [
      | inl opened ↦ elim (Option-cases (target w.queues thread slot)) [
        | inl now ↦ rw (e, opened, now, deliver) (invoke_unchecked-inactive w r args s off)
        | inr (q, later) ↦ rw (e, opened, later, deliver) off
      ]
      | inr shut ↦ rw (e, shut, deliver) off
    ]
  ]

  -- Slots that a test leaves out may be left out if they are inactive.
  deliver_all-keep_if :
      (thread : ℕ) (args : A) (test : ℕ → Bool) (rs : List ℕ) (w : World F A S)
      → ((r : ℕ) → test r ≡ false → is_active w.heap r ≡ false)
      → deliver_all body thread args w (keep_if test rs) ≡ deliver_all body thread args w rs
  unfolding deliver_all keep_if
  deliver_all-keep_if thread args test [] w out = refl
  deliver_all-keep_if thread args test (r ∷ rs) w out = elim (Bool-cases (test r)) [
    | inl e ↦
        rw (e, keep_if, deliver_all)
          (deliver_all-keep_if thread args test rs (deliver body thread args w r)
            (λ s off. stays_inactive thread args w r s (out s off)))
    | inr e ↦
        rw (e, keep_if, deliver_all, deliver-inactive thread args w r (out r e))
          (deliver_all-keep_if thread args test rs w out)
  ]

  deliver_all-live :
      (thread : ℕ) (args : A) (rs : List ℕ) (w : World F A S)
      → deliver_all body thread args w (live w.heap rs) ≡ deliver_all body thread args w rs
  deliver_all-live thread args rs w =
      deliver_all-keep_if thread args (is_active w.heap) rs w (λ r off. off)

  -- If no callable activates a slot again, the loop of emit does the same on a list before
  -- and after a cleanup.
  pub deliver_all-cleanup :
      (thread : ℕ) (args : A) (w : World F A S) (l : SlotList)
      → deliver_all body thread args w (cleanup w.heap l).refs
        ≡ deliver_all body thread args w l.refs
  deliver_all-cleanup thread args w l =
      sym (deliver_all-live thread args (cleanup w.heap l).refs w)
      ∙ ap (deliver_all body thread args w) (live-cleanup w.heap l)
      ∙ deliver_all-live thread args l.refs w

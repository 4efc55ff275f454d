-- ===== src/Signal/Emit/Silent.antt =====
-- fb_signal/include/fb/signal.hpp: slots that are disconnected while signals are emitted and events
-- processed.
use foo_bar.Base.{
  ℕ, zero, suc, ◌+◌, ◌≡◌, refl, ◌∙◌, true, false, List, [], ◌∷◌, ◌++◌, ◌==◌, if◌then◌else◌,
  get_elem?, arith, Bool-cases, Option-cases, List-cases, inl, inr,
}
use foo_bar.Signal.Ring.{update}
use foo_bar.Signal.Slots.{Heap, is_active}
use foo_bar.Signal.Emit.{
  Event, World, target, is_open, enqueue_invocation, invoke_unchecked, deliver, deliver_all, emit,
  invoke_event, process_pending,
}

-- How often a slot is called.
abbrev pub calls_of : {A : Type 0} → ℕ → List (Event A) → ℕ
calls_of r [] = 0
calls_of r (event ∷ events) = (if event.slot == r then 1 else 0) + calls_of r events

calls_of-append :
    {A : Type 0} (r : ℕ) (xs ys : List (Event A))
    → calls_of r (xs ++ ys) ≡ calls_of r xs + calls_of r ys
calls_of-append r [] ys = omega arith
calls_of-append r (x ∷ xs) ys = omega (arith, calls_of-append r xs ys)

active_of_open : {F : Type 0} (h : Heap F) (r : ℕ) → is_open h r ≡ true → is_active h r ≡ true
unfolding is_open
active_of_open h r e = ground arith

module _ {F A S : Type 0} where
  -- If the slot is inactive in the first world, it is inactive in the second, and not called between.
  abbrev pub IsSilent : ℕ → World F A S → World F A S → Type 0
  IsSilent r w w' =
      is_active w.heap r ≡ false
      → (is_active w'.heap r ≡ false) × (calls_of r w'.calls ≡ calls_of r w.calls)

  IsSilent-trans :
      (r : ℕ) (w w' w'' : World F A S) → IsSilent r w w' → IsSilent r w' w'' → IsSilent r w w''
  IsSilent-trans r w w' w'' first second off =
      let (off', same) = first off in let (off'', same') = second off' in (off'', same' ∙ same)

module _ {F A S : Type 0} (body : F → A → World F A S → World F A S) (r : ℕ)
    (tame : (f : F) (args : A) (w : World F A S) → IsSilent r w (body f args w)) where
  invoke_unchecked-IsSilent :
      (w : World F A S) (s : ℕ) (args : A)
      → is_active w.heap s ≡ true
      → IsSilent r w (invoke_unchecked body w s args)
  unfolding invoke_unchecked
  invoke_unchecked-IsSilent w s args on off = elim (Option-cases (get_elem? w.heap.slots s)) [
    | inl e ↦ rw (e, invoke_unchecked) (off, refl)
    | inr (slot, e) ↦
        let (off', same) =
          tame slot.callable args
            (record w { calls = w.calls ++ record { slot = s; args = args } ∷ [] }) off in
        let other : (s == r) ≡ false = elim (Bool-cases (s == r)) [
          | inl at ↦ let equal : s ≡ r = ground arith in absurd (ground arith)
          | inr apart ↦ apart
        ] in
        let counted : calls_of r (w.calls ++ record { slot = s; args = args } ∷ [])
            ≡ calls_of r w.calls =
          calls_of-append r w.calls (record { slot = s; args = args } ∷ [])
          ∙ rw other (omega arith) in
        rw (e, invoke_unchecked) (off', same ∙ counted)
  ]

  deliver-IsSilent :
      (thread : ℕ) (args : A) (w : World F A S) (s : ℕ)
      → IsSilent r w (deliver body thread args w s)
  unfolding deliver enqueue_invocation
  deliver-IsSilent thread args w s off = elim (Option-cases (get_elem? w.heap.slots s)) [
    | inl e ↦ rw (e, deliver) (off, refl)
    | inr (slot, e) ↦ elim (Bool-cases (is_open w.heap s)) [
      | inl opened ↦ elim (Option-cases (target w.queues thread slot)) [
        | inl now ↦
            rw (e, opened, now, deliver)
              (invoke_unchecked-IsSilent w s args (active_of_open w.heap s opened) off)
        | inr (q, later) ↦ rw (e, opened, later, deliver) (off, refl)
      ]
      | inr shut ↦ rw (e, shut, deliver) (off, refl)
    ]
  ]

  deliver_all-IsSilent :
      (thread : ℕ) (args : A) (rs : List ℕ) (w : World F A S)
      → IsSilent r w (deliver_all body thread args w rs)
  unfolding deliver_all
  deliver_all-IsSilent thread args [] w off = (off, refl)
  deliver_all-IsSilent thread args (s ∷ rs) w off =
      IsSilent-trans r w (deliver body thread args w s)
        (deliver_all body thread args (deliver body thread args w s) rs)
        (deliver-IsSilent thread args w s)
        (deliver_all-IsSilent thread args rs (deliver body thread args w s)) off

  invoke_event-IsSilent :
      (w : World F A S) (event : Event A) → IsSilent r w (invoke_event body w event)
  unfolding invoke_event
  invoke_event-IsSilent w event off = elim (Bool-cases (is_open w.heap event.slot)) [
    | inl opened ↦
        rw (opened, invoke_event)
          (invoke_unchecked-IsSilent w event.slot event.args
            (active_of_open w.heap event.slot opened) off)
    | inr shut ↦ rw (shut, invoke_event) (off, refl)
  ]

  process_pending-IsSilent :
      (max_events : ℕ) (w : World F A S) (q : ℕ)
      → IsSilent r w (process_pending body max_events w q).0
  unfolding process_pending
  process_pending-IsSilent zero w q off = (off, refl)
  process_pending-IsSilent (suc max_events) w q off = elim (List-cases ((w.queues q).pending)) [
    | inl e ↦ rw (e, process_pending) (off, refl)
    | inr (event, rest, e) ↦
        let taken : World F A S = record w {
          queues = update w.queues q (record (w.queues q) { pending = rest });
        } in
        let called : World F A S = invoke_event body taken event in
        rw (e, process_pending)
          (IsSilent-trans r taken called (process_pending body max_events called q).0
            (invoke_event-IsSilent taken event) (process_pending-IsSilent max_events called q) off)
  ]

  -- If no callable activates a slot again or calls it while it is inactive, then an inactive
  -- slot is not called and stays inactive in an emission and in the processing of pending
  -- events.
  pub emit-IsSilent :
      (thread max_events : ℕ) (w : World F A S) (i : ℕ) (args : A)
      → IsSilent r w (emit body thread w i args)
        × IsSilent r w (process_pending body max_events w i).0
  unfolding emit
  emit-IsSilent thread max_events w i args = (
    deliver_all-IsSilent thread args (w.signals i).refs w,
    process_pending-IsSilent max_events w i,
  )

-- ===== src/Signal/Emit/Outcome.antt =====
-- fb_signal/include/fb/signal.hpp, `emit`: the calls and the queues after an emission, when the
-- callables leave the slots, the queues and the record of calls alone.
use foo_bar.Base.{
  ℕ, ◌≡◌, refl, sym, ap, ◌∙◌, Bool, List, [], ◌∷◌, ◌++◌, append_assoc, append-nil, ◌==◌, arith,
  Bool-cases, inl, inr,
}
use foo_bar.Signal.Slots.{Heap, keep_if}
use foo_bar.Signal.Emit.{Event, EventQueue, World, enqueue_invocation, deliver, deliver_all, emit}
use foo_bar.Signal.Emit.Delivery.{
  events, enqueue_all, is_now, is_later, route, Route-cases, enqueue_all-append,
  enqueue_all-owner_thread, SameOwners, route-SameOwners, IsQuiet, deliver-route,
  invoke_unchecked-quiet, route_slot,
}

events-keep_if :
    {A : Type 0} (args : A) (test : ℕ → Bool) (r : ℕ) (rs : List ℕ)
    → events args (keep_if test (r ∷ rs))
      ≡ events args (keep_if test (r ∷ [])) ++ events args (keep_if test rs)
unfolding keep_if
events-keep_if args test r rs = elim (Bool-cases (test r)) [ inl e ↦ rw e refl | inr e ↦ rw e refl ]

module _ {F A : Type 0} where
  -- The calls that an emission makes at once, in order.
  abbrev pub now_events : Heap F → (ℕ → EventQueue A) → ℕ → A → List ℕ → List (Event A)
  now_events h queues thread args rs =
      events args (keep_if (λ r. is_now (route h queues thread r)) rs)

  -- The calls that it leaves to queue `j`, in order.
  abbrev pub later_events : Heap F → (ℕ → EventQueue A) → ℕ → A → ℕ → List ℕ → List (Event A)
  later_events h queues thread args j rs =
      events args (keep_if (λ r. is_later j (route h queues thread r)) rs)

  now_events-SameOwners :
      (h : Heap F) (queues queues' : ℕ → EventQueue A) (thread : ℕ) (args : A) (rs : List ℕ)
      → SameOwners queues queues'
      → now_events h queues' thread args rs ≡ now_events h queues thread args rs
  now_events-SameOwners h queues queues' thread args rs same =
      ap (λ t. events args (keep_if t rs))
        (λ i r. is_now (route-SameOwners h queues queues' thread r same i))

  later_events-SameOwners :
      (h : Heap F) (queues queues' : ℕ → EventQueue A) (thread : ℕ) (args : A) (j : ℕ) (rs : List ℕ)
      → SameOwners queues queues'
      → later_events h queues' thread args j rs ≡ later_events h queues thread args j rs
  later_events-SameOwners h queues queues' thread args j rs same =
      ap (λ t. events args (keep_if t rs))
        (λ i r. is_later j (route-SameOwners h queues queues' thread r same i))

  -- What an emission over the slots `rs` makes of a world.
  abbrev pub IsOutcome : {S : Type 0} → World F A S → ℕ → A → List ℕ → World F A S → Type 0
  IsOutcome w thread args rs w' =
      (w'.heap ≡ w.heap)
      × (w'.calls ≡ w.calls ++ now_events w.heap w.queues thread args rs)
      × ((j : ℕ)
          → w'.queues j ≡ enqueue_all (w.queues j) (later_events w.heap w.queues thread args j rs))

  IsOutcome-SameOwners :
      {S : Type 0} (w : World F A S) (thread : ℕ) (args : A) (rs : List ℕ) (w' : World F A S)
      → IsOutcome w thread args rs w'
      → SameOwners w.queues w'.queues
  IsOutcome-SameOwners w thread args rs w' (_, _, queued) j =
      ap (λ q. q.owner_thread) (queued j)
      ∙ enqueue_all-owner_thread (w.queues j) (later_events w.heap w.queues thread args j rs)

  IsOutcome-cons :
      {S : Type 0} (w : World F A S) (thread : ℕ) (args : A) (r : ℕ) (rs : List ℕ)
      (w' w'' : World F A S)
      → IsOutcome w thread args (r ∷ []) w'
      → IsOutcome w' thread args rs w''
      → IsOutcome w thread args (r ∷ rs) w''
  IsOutcome-cons w thread args r rs w' w'' (heap, calls, queued) (heap', calls', queued') =
      let same = IsOutcome-SameOwners w thread args (r ∷ []) w' (heap, calls, queued) in
      let nows : now_events w'.heap w'.queues thread args rs
          ≡ now_events w.heap w.queues thread args rs =
        ap (λ h. now_events h w'.queues thread args rs) heap
        ∙ now_events-SameOwners w.heap w.queues w'.queues thread args rs same in
      (
        heap' ∙ heap,
        calls'
            ∙ ap (λ c. c ++ now_events w'.heap w'.queues thread args rs) calls
            ∙ append_assoc w.calls (now_events w.heap w.queues thread args (r ∷ []))
                (now_events w'.heap w'.queues thread args rs)
            ∙ ap (λ c. w.calls ++ (now_events w.heap w.queues thread args (r ∷ []) ++ c)) nows
            ∙ ap (λ c. w.calls ++ c)
                (sym (events-keep_if args (λ s. is_now (route w.heap w.queues thread s)) r rs)),
        λ j.
            let laters : later_events w'.heap w'.queues thread args j rs
                ≡ later_events w.heap w.queues thread args j rs =
              ap (λ h. later_events h w'.queues thread args j rs) heap
              ∙ later_events-SameOwners w.heap w.queues w'.queues thread args j rs same in
            queued' j
            ∙ ap (λ q. enqueue_all q (later_events w'.heap w'.queues thread args j rs)) (queued j)
            ∙ ap
                (λ es.
                  enqueue_all
                    (enqueue_all (w.queues j) (later_events w.heap w.queues thread args j (r ∷ [])))
                    es)
                laters
            ∙ sym (
                enqueue_all-append (w.queues j)
                  (later_events w.heap w.queues thread args j (r ∷ []))
                  (later_events w.heap w.queues thread args j rs))
            ∙ ap (enqueue_all (w.queues j))
                (sym (events-keep_if args (λ s. is_later j (route w.heap w.queues thread s)) r rs)),
      )

module _ {F A S : Type 0} (body : F → A → World F A S → World F A S)
    (quiet : (f : F) (args : A) (w : World F A S) → IsQuiet w (body f args w)) where
  deliver-IsOutcome :
      (thread : ℕ) (args : A) (w : World F A S) (r : ℕ)
      → IsOutcome w thread args (r ∷ []) (deliver body thread args w r)
  unfolding keep_if enqueue_invocation
  deliver-IsOutcome thread args w r = elim (Route-cases (route w.heap w.queues thread r)) [
    | inl e ↦
        rw (deliver-route body quiet thread args w r, e, keep_if)
          (refl, sym (append-nil w.calls), λ j. refl)
    | inr (inl e) ↦
        let (slot, found) = route_slot w.heap w.queues thread r e in
        let (heap, queues, calls) = invoke_unchecked-quiet body quiet w r args slot found in
        rw (deliver-route body quiet thread args w r, e, keep_if)
          (heap, calls, λ j. ap (λ queues. queues j) queues)
    | inr (inr (q, e)) ↦
        rw (deliver-route body quiet thread args w r, e, keep_if)
          (
            refl,
            sym (append-nil w.calls),
            λ j. elim (Bool-cases (j == q)) [
              | inl at ↦ let same : j ≡ q = ground arith in rw (at, same) refl
              | inr other ↦ rw other refl
            ],
          )
  ]

  deliver_all-IsOutcome :
      (thread : ℕ) (args : A) (w : World F A S) (rs : List ℕ)
      → IsOutcome w thread args rs (deliver_all body thread args w rs)
  unfolding deliver_all keep_if
  deliver_all-IsOutcome thread args w [] = (refl, sym (append-nil w.calls), λ j. refl)
  deliver_all-IsOutcome thread args w (r ∷ rs) =
      IsOutcome-cons w thread args r rs (deliver body thread args w r)
        (deliver_all body thread args (deliver body thread args w r) rs)
        (deliver-IsOutcome thread args w r)
        (deliver_all-IsOutcome thread args (deliver body thread args w r) rs)

  -- If the callables leave the slots, the queues and the record of calls alone, an emission
  -- calls at once, in the order of the list, the slots of the snapshot that are active, not
  -- blocked and not for a queue, and enqueues the calls of the others that are active and not
  -- blocked in that order.
  pub emit-now_events :
      (thread : ℕ) (w : World F A S) (i : ℕ) (args : A)
      → let w' = emit body thread w i args in
        (w'.calls ≡ w.calls ++ now_events w.heap w.queues thread args (w.signals i).refs)
        × ((j : ℕ)
            → w'.queues j
              ≡ enqueue_all
                  (w.queues j)
                  (later_events w.heap w.queues thread args j (w.signals i).refs))
  unfolding emit
  emit-now_events thread w i args =
      let (_, calls, queued) = deliver_all-IsOutcome thread args w (w.signals i).refs in
      (calls, queued)

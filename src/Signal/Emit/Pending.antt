-- ===== src/Signal/Emit/Pending.antt =====
-- fb_signal/include/fb/event_queue.hpp, `event_queue`: a queue that fills up, and the processing of
-- its events.
use foo_bar.Base.{
  ℕ, zero, suc, ◌+◌, ◌-◌, ◌<◌, ◌≡◌, refl, sym, ap, ◌∙◌, true, false, List, [], ◌∷◌, ◌++◌,
  append_assoc, append-nil, some, ltb, ◌==◌, if◌then◌else◌, length, take, drop, min, get_elem?,
  arith, Bool-cases, Option-cases, List-cases, inl, inr, length-append,
}
use foo_bar.Signal.Ring.{update}
use foo_bar.Signal.Slots.{Heap, Slot, is_active}
use foo_bar.Signal.Emit.{
  Event, EventQueue, World, default_capacity, enqueue, is_open, invoke_event, process_pending,
}
use foo_bar.Signal.Emit.Delivery.{enqueue_all, IsQuiet, invoke_unchecked-quiet}

enqueue_room :
    {A : Type 0} (q : EventQueue A) (event : Event A)
    → length q.pending + 1 < default_capacity
    → enqueue q event ≡ (record q { pending = q.pending ++ event ∷ [] }, true)
unfolding enqueue
enqueue_room q event lt =
    let room : ltb (length q.pending + 1) default_capacity ≡ true = ground arith in
    rw (room, enqueue) refl

enqueue_full :
    {A : Type 0} (q : EventQueue A) (event : Event A)
    → length q.pending + 1 ≡ default_capacity
    → enqueue q event ≡ (record q { dropped_count = q.dropped_count + 1 }, false)
unfolding enqueue
enqueue_full q event e =
    let full : ltb (length q.pending + 1) default_capacity ≡ false = ground arith in
    rw (full, enqueue) refl

-- With room for `n` more events.
enqueue_all_room :
    {A : Type 0} (q : EventQueue A) (es : List (Event A)) (n : ℕ)
    → length q.pending + n + 1 ≡ default_capacity
    → ((enqueue_all q es).pending ≡ q.pending ++ take n es)
      × ((enqueue_all q es).dropped_count ≡ q.dropped_count + (length es - n))
enqueue_all_room q [] zero room = (sym (append-nil q.pending), omega arith)
enqueue_all_room q [] (suc n) room = (sym (append-nil q.pending), omega arith)
enqueue_all_room q (e ∷ es) zero room =
    let (pending, dropped) =
      enqueue_all_room (record q { dropped_count = q.dropped_count + 1 }) es zero room in
    rw (enqueue_full q e (omega arith), enqueue_all) (pending, omega arith)
enqueue_all_room q (e ∷ es) (suc n) room =
    let (pending, dropped) =
      enqueue_all_room (record q { pending = q.pending ++ e ∷ [] }) es n
        (omega (arith, length-append q.pending (e ∷ []))) in
    rw (enqueue_room q e (omega arith), enqueue_all)
      (pending ∙ append_assoc q.pending (e ∷ []) (take n es), omega arith)

-- Of events that are enqueued one after the other, those that there is room for, 4095 less
-- those that are pending, are appended in order, and the others are counted as dropped.
pub enqueue_all-pending :
    {A : Type 0} (q : EventQueue A) (es : List (Event A))
    → length q.pending < default_capacity
    → let room = default_capacity - 1 - length q.pending in
      ((enqueue_all q es).pending ≡ q.pending ++ take room es)
      × ((enqueue_all q es).dropped_count ≡ q.dropped_count + (length es - room))
enqueue_all-pending q es lt =
    enqueue_all_room q es (default_capacity - 1 - length q.pending) (omega arith)

-- The events of active slots that are not blocked.
abbrev pub open_events : {F A : Type 0} → Heap F → List (Event A) → List (Event A)
open_events h [] = []
open_events h (event ∷ rest) =
    if is_open h event.slot then event ∷ open_events h rest else open_events h rest

one_more : {c : ℕ} (m n : ℕ) → c ≡ min m n → c + 1 ≡ min (suc m) (suc n)
one_more m n e = omega arith

open_events_cons :
    {F A : Type 0} (h : Heap F) (event : Event A) (rest : List (Event A))
    → open_events h (event ∷ rest) ≡ open_events h (event ∷ []) ++ open_events h rest
open_events_cons h event rest = elim (Bool-cases (is_open h event.slot)) [
  | inl e ↦ rw e refl
  | inr e ↦ rw e refl
]

open_slot :
    {F : Type 0} (h : Heap F) (r : ℕ)
    → is_open h r ≡ true
    → (slot : Slot F) × (get_elem? h.slots r ≡ some slot)
unfolding is_open is_active
open_slot h r e = elim (Option-cases (get_elem? h.slots r)) [
  | inl gone ↦ absurd (ground arith)
  | inr found ↦ found
]

module _ {F A S : Type 0} (body : F → A → World F A S → World F A S)
    (quiet : (f : F) (args : A) (w : World F A S) → IsQuiet w (body f args w)) where
  invoke_event-quiet :
      (w : World F A S) (event : Event A)
      → let w' = invoke_event body w event in
        (w'.heap ≡ w.heap)
        × (w'.queues ≡ w.queues)
        × (w'.calls ≡ w.calls ++ open_events w.heap (event ∷ []))
  unfolding invoke_event
  invoke_event-quiet w event = elim (Bool-cases (is_open w.heap event.slot)) [
    | inl opened ↦
        let (slot, found) = open_slot w.heap event.slot opened in
        rw (opened, invoke_event)
          (invoke_unchecked-quiet body quiet w event.slot event.args slot found)
    | inr shut ↦ rw (shut, invoke_event) (refl, refl, sym (append-nil w.calls))
  ]

  -- What the processing of at most so many events makes of a world.
  abbrev IsProcessed : ℕ → World F A S → ℕ → World F A S × ℕ → Type 0
  IsProcessed max_events w q (w', count) =
      (w'.calls ≡ w.calls ++ open_events w.heap (take max_events (w.queues q).pending))
      × ((w'.queues q).pending ≡ drop max_events (w.queues q).pending)
      × (count ≡ min max_events (length (w.queues q).pending))
      × (w'.heap ≡ w.heap)

  process_pending-IsProcessed :
      (max_events : ℕ) (w : World F A S) (q : ℕ)
      → IsProcessed max_events w q (process_pending body max_events w q)
  unfolding process_pending
  process_pending-IsProcessed zero w q = (sym (append-nil w.calls), refl, omega arith, refl)
  process_pending-IsProcessed (suc max_events) w q = elim (List-cases ((w.queues q).pending)) [
    | inl e ↦ rw (e, process_pending) (sym (append-nil w.calls), e, omega arith, refl)
    | inr (event, rest, e) ↦
        let taken : World F A S = record w {
          queues = update w.queues q (record (w.queues q) { pending = rest });
        } in
        let called : World F A S = invoke_event body taken event in
        let (heap, queues, calls) = invoke_event-quiet taken event in
        let itself : (q == q) ≡ true = ground arith in
        let left : (called.queues q).pending ≡ rest =
          ap (λ qs. (qs q).pending) queues ∙ rw itself refl in
        let (calls', pending', count', heap') = process_pending-IsProcessed max_events called q in
        let counted = count' ∙ ap (λ p. min max_events (length p)) left in
        rw (e, process_pending)
          (
            calls'
                ∙ ap (λ p. called.calls ++ open_events called.heap (take max_events p)) left
                ∙ ap (λ h. called.calls ++ open_events h (take max_events rest)) heap
                ∙ ap (λ c. c ++ open_events w.heap (take max_events rest)) calls
                ∙ append_assoc w.calls (open_events w.heap (event ∷ []))
                    (open_events w.heap (take max_events rest))
                ∙ ap (λ es. w.calls ++ es)
                    (sym (open_events_cons w.heap event (take max_events rest))),
            pending' ∙ ap (drop max_events) left,
            one_more max_events (length rest) counted,
            heap' ∙ heap,
          )
  ]

  -- If the callables leave the slots, the queues and the record of calls alone,
  -- process_pending calls, oldest first, the events of the first max_events whose slots are
  -- active and not blocked, takes so many events from the queue, and returns their number.
  pub process_pending-open_events :
      (max_events : ℕ) (w : World F A S) (q : ℕ)
      → let (w', count) = process_pending body max_events w q in
        (w'.calls ≡ w.calls ++ open_events w.heap (take max_events (w.queues q).pending))
        × ((w'.queues q).pending ≡ drop max_events (w.queues q).pending)
        × (count ≡ min max_events (length (w.queues q).pending))
  process_pending-open_events max_events w q =
      let (calls, pending, count, _) = process_pending-IsProcessed max_events w q in
      (calls, pending, count)

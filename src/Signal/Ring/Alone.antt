-- ===== src/Signal/Ring/Alone.antt =====
-- fb_signal/include/fb/event_queue.hpp, `ring_buffer`: a call that no other thread gets in the way of.
use foo_bar.Base.{
  ℕ, ◌+◌, ◌^◌, ◌<◌, ◌≡◌, ◌≢◌, refl, sym, ap, ◌∙◌, true, false, some, get_elem?, length, ◌++◌, ◌∷◌,
  [], arith, ◌==◌, if◌then◌else◌, ==_iff, Bool-cases, inl, inr,
}
use foo_bar.Signal.Ring.{Shared, Producer, result, Consumer, resting, update, next}
use foo_bar.Signal.Ring.Slots.{slot, slot-inj, slot-lap, next-slot}
use foo_bar.Signal.Ring.Invariant.{Inv}
use foo_bar.Signal.Ring.{producer_step, consumer_step, call_enqueue, run_producer, run_consumer}

module _ (k : ℕ) {A : Type 0} (m : Shared A) (pc : ℕ → Producer A) where
  -- The two indices meet exactly if one more claim would make a lap.
  full_iff :
      (c : Consumer A)
      → Inv k m pc c
      → (next k m.tail == m.head) ≡ (length m.log + 1 == length m.out + 2 ^ k)
  full_iff c v = elim (Bool-cases (length m.log + 1 == length m.out + 2 ^ k)) [
    | inl full ↦
        let same : next k m.tail ≡ m.head =
          ap (next k) v.tail_is
          ∙ next-slot k (length m.log)
          ∙ ap (slot k) ((==_iff _ _).0 full)
          ∙ slot-lap k (length m.out)
          ∙ sym v.head_is in
        ground arith
    | inr free ↦
        let apart : next k m.tail ≢ m.head = λ same.
          let slots : slot k (length m.out) ≡ slot k (length m.log + 1) =
            sym v.head_is ∙ sym same ∙ ap (next k) v.tail_is ∙ next-slot k (length m.log) in
          let order = v.order in
          let room = v.room in
          let equal =
            slot-inj k (length m.out) (length m.log + 1) (omega arith) (ground arith) slots in
          omega arith in
        ground arith
  ]

  -- A call of `try_enqueue` with no other thread between its steps returns within four of them. It
  -- refuses the item and changes nothing if the queue holds one item less than it has slots, and
  -- else its claim is the next one and its slot is ready.
  pub run_producer-call_enqueue :
      (c : Consumer A) (item : A)
      → Inv k m pc c
      → run_producer k 4 m (call_enqueue m item) ≡ (
          if length m.log + 1 == length m.out + 2 ^ k then (m, result false) else (
            record m {
              tail = next k m.tail;
              log = m.log ++ item ∷ [];
              buffer = update m.buffer m.tail item;
              ready = update m.ready m.tail true;
            },
            result true,
          ))
  unfolding run_producer producer_step call_enqueue
  run_producer-call_enqueue c item v =
      elim (Bool-cases (length m.log + 1 == length m.out + 2 ^ k)) [
        | inl full ↦ let e = full_iff c v ∙ full in rw (full, e) refl
        | inr free ↦
            let e = full_iff c v ∙ free in
            let itself : (m.tail == m.tail) ≡ true = ground arith in rw (free, e, itself) refl
      ]

  -- A call of `try_dequeue` with no other thread between its steps returns within two of them if
  -- nothing is claimed, and changes nothing.
  pub run_consumer_empty :
      Inv k m pc resting → length m.out ≡ length m.log → run_consumer k 2 m resting ≡ (m, resting)
  unfolding run_consumer consumer_step
  run_consumer_empty v e =
      let same : (m.head == m.tail) ≡ true =
        (==_iff _ _).1 (v.head_is ∙ ap (slot k) e ∙ sym v.tail_is) in
      rw same refl

  -- If the oldest claim's slot is ready, a call of `try_dequeue` with no other thread between its
  -- steps returns within six of them, with the item of that claim.
  pub run_consumer-resting :
      Inv k m pc resting
      → length m.out < length m.log
      → m.ready m.head ≡ true
      → (item : A) × (get_elem? m.log (length m.out) ≡ some item)
        × (run_consumer k 6 m resting ≡ (
          record m {
            ready = update m.ready m.head false;
            head = next k m.head;
            out = m.out ++ item ∷ [];
          },
          resting,
        ))
  unfolding run_consumer consumer_step
  run_consumer-resting v more ready =
      let apart : (m.head == m.tail) ≡ false = elim (Bool-cases (m.head == m.tail)) [
        | inl same ↦
            let slots : slot k (length m.out) ≡ slot k (length m.log) =
              sym v.head_is ∙ (==_iff _ _).0 same ∙ v.tail_is in
            let equal = slot-inj k (length m.out) (length m.log) v.order v.room slots in
            absurd (omega arith)
        | inr other ↦ other
      ] in
      (
        m.buffer m.head,
        v.stored (length m.out) (omega arith) more (ap m.ready (sym v.head_is) ∙ ready)
            ∙ ap (λ j. some (m.buffer j)) (sym v.head_is),
        rw (apart, ready) refl,
      )

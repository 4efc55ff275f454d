-- ===== src/Signal/Ring/Fifo.antt =====
-- fb_signal/include/fb/event_queue.hpp, `ring_buffer`: first in, first out.
use foo_bar.Base.{
  ℕ, suc, ◌+◌, ◌^◌, ◌≤◌, ◌<◌, ◌≡◌, refl, sym, ap, subst, ◌∙◌, true, false, some, get_elem?, length,
  ◌++◌, ◌∷◌, [], length-append, arith, ◌==◌, ==_iff, Bool-cases, inl, inr,
}
use foo_bar.Signal.Ring.{
  Shared, Producer, idle, checking, claiming, writing, publishing, result, Consumer, resting,
  polling, spinning, reading, clearing, advancing, update, next,
}
use foo_bar.Signal.Ring.Slots.{slot, slot-lap, next-slot}
use foo_bar.Signal.Ring.Invariant.{Inv, Owns, low, NoLap}
use native.Mathlib.Nat.{zero-mod}
use foo_bar.Base.{List}
use foo_bar.Base.Bits.{two_pow_pos}
use foo_bar.Signal.Ring.{
  System, initial, call, produce, fail, consume, producer_step, consumer_step, call_enqueue,
  fail_spuriously,
}
use foo_bar.Signal.Ring.Invariant.{IsClaiming, Reach, start, called, produced, failed, consumed}
use foo_bar.Signal.Ring.Invariant.Claims.{Inv-replace, Inv-claim}
use foo_bar.Signal.Ring.Invariant.Writes.{Inv-write, Inv-publish}
use foo_bar.Signal.Ring.Invariant.Reads.{Inv-follow, Inv-clear, Inv-advance}

zero-slot : (k : ℕ) → slot k 0 ≡ 0
unfolding slot
zero-slot k = zero-mod (2 ^ k)

-- A list that agrees with another at each of its places starts it.
prefix_of {ℓ} :
    {A : Type ℓ} (xs ys : List A)
    → length xs ≤ length ys
    → ((i : ℕ) → i < length xs → get_elem? xs i ≡ get_elem? ys i)
    → (rest : List A) × (ys ≡ xs ++ rest)
prefix_of [] ys h same = (ys, refl)
prefix_of (x ∷ xs) [] h same = absurd (omega arith)
prefix_of (x ∷ xs) (y ∷ ys) h same =
    let (rest, e) = prefix_of xs ys (omega arith) (λ i lt. same (suc i) (omega arith)) in
    let first : x ≡ y = (let at_zero = same 0 (omega arith) in cc) in (rest, λ i. sym first i ∷ e i)

module _ (k : ℕ) {A : Type 0} where
  -- The check that the queue is not full leaves room for one more claim.
  checked-room :
      (m : Shared A) (pc : ℕ → Producer A) (c : Consumer A) (tail seen : ℕ)
      → Inv k m pc c
      → tail ≡ slot k seen
      → seen ≤ length m.log
      → (next k tail == m.head) ≡ false
      → seen + 1 < length m.out + 2 ^ k
  checked-room m pc c tail seen v e near other =
      elim (Bool-cases (seen + 1 == length m.out + 2 ^ k)) [
        | inl full ↦
            let same : next k tail ≡ m.head =
              ap (next k) e
              ∙ next-slot k seen
              ∙ ap (slot k) ((==_iff _ _).0 full)
              ∙ slot-lap k (length m.out)
              ∙ sym v.head_is in
            ground arith
        | inr free ↦ let room = v.room in ground arith
      ]

  pub producer_step-Inv :
      (m : Shared A) (pc : ℕ → Producer A) (c : Consumer A) (i : ℕ) (p : Producer A)
      → Inv k m pc c
      → pc i ≡ p
      → NoLap k m p
      → Inv k (producer_step k m p).0 (update pc i (producer_step k m p).1) c
  unfolding producer_step
  producer_step-Inv m pc c i idle v e near = Inv-replace k m pc c v i idle tt refl
  producer_step-Inv m pc c i (checking tail seen item) v e near =
      let own : Owns k m (low k (length m.out) c) (checking tail seen item) =
        subst (Owns k m (low k (length m.out) c)) e (v.owns i) in
      elim (Bool-cases (next k tail == m.head)) [
        | inl full ↦ rw full (Inv-replace k m pc c v i (result false) tt refl)
        | inr free ↦
            let room = checked-room m pc c tail seen v own.0 own.1 free in
            rw free (Inv-replace k m pc c v i (claiming tail seen item) (own.0, own.1, room) refl)
      ]
  producer_step-Inv m pc c i (claiming tail seen item) v e near =
      let own : Owns k m (low k (length m.out) c) (claiming tail seen item) =
        subst (Owns k m (low k (length m.out) c)) e (v.owns i) in
      elim (Bool-cases (m.tail == tail)) [
        | inl same ↦ rw same (Inv-claim k m pc c v i tail seen item own near ((==_iff _ _).0 same))
        | inr other ↦ rw other (
            Inv-replace k m pc c v i (checking m.tail (length m.log) item) (v.tail_is, omega arith)
              refl)
      ]
  producer_step-Inv m pc c i (writing tail claim item) v e near =
      let own : Owns k m (low k (length m.out) c) (writing tail claim item) =
        subst (Owns k m (low k (length m.out) c)) e (v.owns i) in
      let at_slot = e ∙ ap (λ t. writing t claim item) own.0 in
      subst
        (λ t.
          Inv k (record m { buffer = update m.buffer t item })
            (update pc i (publishing t claim item)) c)
        (sym own.0) (Inv-write k m pc c v i claim item at_slot)
  producer_step-Inv m pc c i (publishing tail claim item) v e near =
      let own : Owns k m (low k (length m.out) c) (publishing tail claim item) =
        subst (Owns k m (low k (length m.out) c)) e (v.owns i) in
      let at_slot = e ∙ ap (λ t. publishing t claim item) own.0 in
      subst (λ t. Inv k (record m { ready = update m.ready t true }) (update pc i (result true)) c)
        (sym own.0) (Inv-publish k m pc c v i claim item at_slot)
  producer_step-Inv m pc c i (result b) v e near = Inv-replace k m pc c v i (result b) tt refl

  pub consumer_step-Inv :
      (m : Shared A) (pc : ℕ → Producer A) (c : Consumer A)
      → Inv k m pc c
      → Inv k (consumer_step k m c).0 pc (consumer_step k m c).1
  unfolding consumer_step
  consumer_step-Inv m pc resting v = Inv-follow k m pc resting v (polling m.head) refl refl
  consumer_step-Inv m pc (polling head) v = elim (Bool-cases (head == m.tail)) [
    | inl empty ↦ rw empty (Inv-follow k m pc (polling head) v resting refl tt)
    | inr some_left ↦
        let more : length m.out < length m.log = elim (Bool-cases (length m.out == length m.log)) [
          | inl same ↦
              let ends : head ≡ m.tail =
                v.follows ∙ v.head_is ∙ ap (slot k) ((==_iff _ _).0 same) ∙ sym v.tail_is in
              absurd (ground arith)
          | inr other ↦ let order = v.order in ground arith
        ] in
        rw some_left (Inv-follow k m pc (polling head) v (spinning head) refl (v.follows, more))
  ]
  consumer_step-Inv m pc (spinning head) v = elim (Bool-cases (m.ready head)) [
    | inl r ↦
        rw r (Inv-follow k m pc (spinning head) v (reading head) refl (v.follows.0, v.follows.1, r))
    | inr r ↦ rw r v
  ]
  consumer_step-Inv m pc (reading head) v =
      let at_head : head ≡ slot k (length m.out) = v.follows.0 ∙ v.head_is in
      let item : get_elem? m.log (length m.out) ≡ some (m.buffer head) =
        v.stored (length m.out) (omega arith) v.follows.1 (ap m.ready (sym at_head) ∙ v.follows.2)
        ∙ ap (λ j. some (m.buffer j)) (sym at_head) in
      Inv-follow k m pc (reading head) v (clearing head (m.buffer head)) refl
        (v.follows.0, v.follows.1, v.follows.2, item)
  consumer_step-Inv m pc (clearing head item) v =
      subst (λ h. Inv k (record m { ready = update m.ready h false }) pc (advancing h item))
        (sym v.follows.0)
        (Inv-clear k m pc item (subst (λ h. Inv k m pc (clearing h item)) v.follows.0 v))
  consumer_step-Inv m pc (advancing head item) v =
      subst (λ h. Inv k (record m { head = next k h; out = m.out ++ item ∷ [] }) pc resting)
        (sym v.follows.0)
        (Inv-advance k m pc item (subst (λ h. Inv k m pc (advancing h item)) v.follows.0 v))

  pub Inv-initial :
      (blank : A) → Inv k (initial blank).shared (initial blank).producers (initial blank).consumer
  unfolding initial
  Inv-initial blank = record {
    tail_is = sym (zero-slot k);
    head_is = sym (zero-slot k);
    order = omega arith;
    room = omega (arith, two_pow_pos k);
    fifo = λ i h. absurd (omega arith);
    free = λ i h h'. refl;
    stored = λ i h h' r. absurd (omega arith);
    owns = λ i. tt;
    apart = λ i j n ei ej. cc;
    follows = tt;
  }

  fail_spuriously-Inv :
      (m : Shared A) (pc : ℕ → Producer A) (c : Consumer A) (i : ℕ) (p : Producer A)
      → Inv k m pc c
      → IsClaiming p
      → Inv k m (update pc i (fail_spuriously m p)) c
  unfolding fail_spuriously
  fail_spuriously-Inv m pc c i idle v at = elim at [ ]
  fail_spuriously-Inv m pc c i (checking tail seen item) v at = elim at [ ]
  fail_spuriously-Inv m pc c i (writing tail claim item) v at = elim at [ ]
  fail_spuriously-Inv m pc c i (publishing tail claim item) v at = elim at [ ]
  fail_spuriously-Inv m pc c i (result b) v at = elim at [ ]
  fail_spuriously-Inv m pc c i (claiming tail seen item) v at =
      Inv-replace k m pc c v i (checking m.tail (length m.log) item) (v.tail_is, omega arith) refl

  -- The invariant holds in every system that is reached.
  pub Reach-Inv :
      {blank : A} {s : System A} → Reach k blank s → Inv k s.shared s.producers s.consumer
  unfolding call call_enqueue produce fail consume
  Reach-Inv {blank} start = Inv-initial blank
  Reach-Inv (called {s = s} i item free r) =
      let v = Reach-Inv r in
      Inv-replace k s.shared s.producers s.consumer v i
        (checking s.shared.tail (length s.shared.log) item) (v.tail_is, omega arith) refl
  Reach-Inv (produced {s = s} i near r) =
      producer_step-Inv s.shared s.producers s.consumer i (s.producers i) (Reach-Inv r) refl near
  Reach-Inv (failed {s = s} i at r) =
      fail_spuriously-Inv s.shared s.producers s.consumer i (s.producers i) (Reach-Inv r) at
  Reach-Inv (consumed {s = s} r) = consumer_step-Inv s.shared s.producers s.consumer (Reach-Inv r)

  -- In every system that steps of producers and the consumer lead to, if no producer whose
  -- check has passed is overtaken by a whole lap of claims, the items that were taken are the
  -- first of those that were claimed, in the order of the claims, and fewer than 2^k others
  -- are in the queue.
  pub Reach-log :
      {blank : A} {s : System A}
      → Reach k blank s
      → (rest : List A) × (s.shared.log ≡ s.shared.out ++ rest) × (length rest < 2 ^ k)
  Reach-log {s = s} r =
      let v = Reach-Inv r in
      let (rest, e) = prefix_of s.shared.out s.shared.log v.order v.fifo in
      (rest, e, omega (arith, v.room, ap length e, length-append s.shared.out rest))

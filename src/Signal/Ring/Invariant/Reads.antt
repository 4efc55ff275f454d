-- ===== src/Signal/Ring/Invariant/Reads.antt =====
-- fb_signal/include/fb/event_queue.hpp, `try_dequeue`.
use foo_bar.Base.{
  ℕ, suc, ◌+◌, ◌^◌, ◌<◌, ◌≡◌, sym, ap, ◌∙◌, true, false, length, ◌++◌, ◌∷◌, [], get_elem?-snoc,
  length-append, arith, ◌==◌, ==_iff, Bool-cases, inl, inr,
}
use foo_bar.Signal.Ring.{
  Shared, Producer, idle, checking, claiming, writing, publishing, result, Consumer, resting,
  clearing, advancing, update, next,
}
use foo_bar.Signal.Ring.Slots.{slot, slot-lap, next-slot}
use foo_bar.Signal.Ring.Invariant.{Inv, Owns, Follows, low}

module _ (k : ℕ) {A : Type 0} (m : Shared A) (pc : ℕ → Producer A) (c : Consumer A)
    (v : Inv k m pc c) where
  -- The consumer moves on without a change of what is shared.
  pub Inv-follow :
      (c' : Consumer A)
      → low k (length m.out) c' ≡ low k (length m.out) c
      → Follows k m c'
      → Inv k m pc c'
  Inv-follow c' same f = record {
    tail_is = v.tail_is;
    head_is = v.head_is;
    order = v.order;
    room = v.room;
    fifo = v.fifo;
    free = v.free;
    stored = v.stored;
    owns = λ j. rw same (v.owns j);
    apart = v.apart;
    follows = f;
  }

module _ (k : ℕ) {A : Type 0} (m : Shared A) (item : A) where
  -- A slot that is ready is no producer's.
  Owns-clear :
      (p : Producer A)
      → m.head ≡ slot k (length m.out)
      → m.ready m.head ≡ true
      → Owns k m (length m.out) p
      → Owns k (record m { ready = update m.ready m.head false }) (suc (length m.out)) p
  Owns-clear idle e r o = tt
  Owns-clear (checking t seen x) e r o = o
  Owns-clear (claiming t seen x) e r o = o
  Owns-clear (writing t n x) e r o = ground (arith, ap (slot k))
  Owns-clear (publishing t n x) e r o = ground arith
  Owns-clear (result b) e r o = tt

  Owns-advance :
      (p : Producer A)
      → Owns k m (suc (length m.out)) p
      → Owns k
          (record m { head = next k m.head; out = m.out ++ item ∷ [] })
          (length (m.out ++ item ∷ []))
          p
  Owns-advance idle o = tt
  Owns-advance (checking t seen x) o = o
  Owns-advance (claiming t seen x) o = ground (arith, length-append m.out (item ∷ []))
  Owns-advance (writing t n x) o = ground (arith, length-append m.out (item ∷ []))
  Owns-advance (publishing t n x) o = ground (arith, length-append m.out (item ∷ []))
  Owns-advance (result b) o = tt

module _ (k : ℕ) {A : Type 0} (m : Shared A) (pc : ℕ → Producer A) (item : A) where
  -- The slot is given back.
  pub Inv-clear :
      Inv k m pc (clearing m.head item)
      → Inv k (record m { ready = update m.ready m.head false }) pc (advancing m.head item)
  Inv-clear v =
      let known : Follows k m (clearing m.head item) = v.follows in
      record {
        tail_is = v.tail_is;
        head_is = v.head_is;
        order = v.order;
        room = v.room;
        fifo = v.fifo;
        free = λ j h h'. let before = v.free j h h' in ground arith;
        stored = λ j h h' r. ground (arith, v.stored j);
        owns = λ j. Owns-clear k m item (pc j) v.head_is known.2 (v.owns j);
        apart = v.apart;
        follows = ground arith;
      }

  -- The head moves on, and the item is returned.
  pub Inv-advance :
      Inv k m pc (advancing m.head item)
      → Inv k (record m { head = next k m.head; out = m.out ++ item ∷ [] }) pc resting
  Inv-advance v =
      let known : Follows k m (advancing m.head item) = v.follows in
      let out = length m.out in
      let size : length (m.out ++ item ∷ []) ≡ out + 1 = length-append m.out (item ∷ []) in
      record {
        tail_is = v.tail_is;
        head_is = ap (next k) v.head_is ∙ next-slot k out ∙ ap (slot k) (sym size);
        order = omega (arith, size, known);
        room = omega (arith, size, v.room);
        fifo = λ j h. ground (arith, get_elem?-snoc m.out item j, v.fifo j, size, known);
        free = λ j h h'. elim (Bool-cases (j == out + 2 ^ k)) [
          | inl e ↦
              let lap : slot k j ≡ m.head =
                ap (slot k) ((==_iff _ _).0 e) ∙ slot-lap k out ∙ sym v.head_is in
              ap m.ready lap ∙ known.2
          | inr e ↦
              v.free j h (let near : j < out + 1 + 2 ^ k = omega (arith, h', size) in ground arith)
        ];
        stored = λ j h h' r. v.stored j (omega (arith, h, size)) h' r;
        owns = λ j. Owns-advance k m item (pc j) (v.owns j);
        apart = v.apart;
        follows = tt;
      }

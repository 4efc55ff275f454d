-- ===== src/Signal/Ring/Invariant/Claims.antt =====
-- fb_signal/include/fb/event_queue.hpp, `try_enqueue` up to the claim.
use foo_bar.Base.{
  ℕ, ◌+◌, ◌^◌, ◌≤◌, ◌<◌, ◌≡◌, sym, ap, ◌∙◌, none, some, length, ◌++◌, ◌∷◌, [], get_elem?-snoc,
  length-append, arith, ◌==◌, Bool-cases, inl, inr,
}
use foo_bar.Signal.Ring.{
  Shared, Producer, idle, checking, claiming, writing, publishing, result, Consumer, resting,
  polling, spinning, reading, clearing, advancing, update, next,
}
use foo_bar.Signal.Ring.Slots.{slot, slot-inj, next-slot}
use foo_bar.Signal.Ring.Invariant.{Inv, Owns, Follows, low, claim_of}

module _ (k : ℕ) {A : Type 0} (m : Shared A) where
  pub low-le :
      (c : Consumer A)
      → Follows k m c
      → length m.out ≤ length m.log
      → low k (length m.out) c ≤ length m.log
  low-le resting f order = order
  low-le (polling head) f order = order
  low-le (spinning head) f order = order
  low-le (reading head) f order = order
  low-le (clearing head item) f order = order
  low-le (advancing head item) f order = omega arith

  module _ (tail : ℕ) (item : A) where
    abbrev claimed : Shared A
    claimed = record m { tail = tail; log = m.log ++ item ∷ [] }

    Owns-claim : (from : ℕ) (p : Producer A) → Owns k m from p → Owns k claimed from p
    Owns-claim from idle o = tt
    Owns-claim from (checking t seen x) o = ground (arith, length-append m.log (item ∷ []))
    Owns-claim from (claiming t seen x) o = ground (arith, length-append m.log (item ∷ []))
    Owns-claim from (writing t n x) o =
        ground (arith, length-append m.log (item ∷ []), get_elem?-snoc m.log item n)
    Owns-claim from (publishing t n x) o =
        ground (arith, length-append m.log (item ∷ []), get_elem?-snoc m.log item n)
    Owns-claim from (result b) o = tt

    Follows-claim : (c : Consumer A) → Follows k m c → Follows k claimed c
    Follows-claim resting f = tt
    Follows-claim (polling head) f = f
    Follows-claim (spinning head) f = ground (arith, length-append m.log (item ∷ []))
    Follows-claim (reading head) f = ground (arith, length-append m.log (item ∷ []))
    Follows-claim (clearing head x) f =
        ground (arith, length-append m.log (item ∷ []), get_elem?-snoc m.log item (length m.out))
    Follows-claim (advancing head x) f =
        ground (arith, length-append m.log (item ∷ []), get_elem?-snoc m.log item (length m.out))

-- A claim belongs to a slot that it names below.
pub claim-lt :
    (k : ℕ) {A : Type 0} (m : Shared A) (from n : ℕ) (p : Producer A)
    → Owns k m from p
    → claim_of k p ≡ some n
    → n < length m.log
claim-lt k m from n idle o e = cc
claim-lt k m from n (checking t seen x) o e = cc
claim-lt k m from n (claiming t seen x) o e = cc
claim-lt k m from n (writing t a x) o e = ground arith
claim-lt k m from n (publishing t a x) o e = ground arith
claim-lt k m from n (result b) o e = cc

module _ (k : ℕ) {A : Type 0} (m : Shared A) (pc : ℕ → Producer A) (c : Consumer A)
    (v : Inv k m pc c) (i : ℕ) where
  -- A producer that claims nothing takes the place of another state of it.
  pub Inv-replace :
      (p : Producer A)
      → Owns k m (low k (length m.out) c) p
      → claim_of k p ≡ none
      → Inv k m (update pc i p) c
  Inv-replace p o none_claimed = record {
    tail_is = v.tail_is;
    head_is = v.head_is;
    order = v.order;
    room = v.room;
    fifo = v.fifo;
    free = v.free;
    stored = v.stored;
    owns = λ j. elim (Bool-cases (j == i)) [ inl e ↦ rw e o | inr e ↦ rw e (v.owns j) ];
    apart = λ a b n ea eb. ground (arith, v.apart a b n);
    follows = v.follows;
  }

  -- The claim: the tail moves on, and the slot is the producer's.
  pub Inv-claim :
      (tail seen : ℕ) (item : A)
      → Owns k m (low k (length m.out) c) (claiming tail seen item)
      → length m.log < seen + 2 ^ k
      → m.tail ≡ tail
      → Inv k
          (record m { tail = next k tail; log = m.log ++ item ∷ [] })
          (update pc i (writing tail (length m.log) item))
          c
  Inv-claim tail seen item own near e =
      let n = length m.log in
      let size : length (m.log ++ item ∷ []) ≡ n + 1 = length-append m.log (item ∷ []) in
      let now : seen ≡ n = slot-inj k seen n own.1 near (sym own.0 ∙ sym e ∙ v.tail_is) in
      record {
        tail_is = ap (next k) own.0 ∙ next-slot k seen ∙ ap (slot k) (omega (arith, now, size));
        head_is = v.head_is;
        order = omega (arith, size, v.order);
        room = omega (arith, size, own);
        fifo = λ j h. ground (arith, get_elem?-snoc m.log item j, v.fifo j h, v.order);
        free = λ j h h'. v.free j (omega (arith, h, size)) h';
        stored = λ j h h' r.
            ground (arith, get_elem?-snoc m.log item j, v.stored j, v.free j, size, own);
        owns = λ j. elim (Bool-cases (j == i)) [
          | inl same ↦ rw same (
            own.0 ∙ ap (slot k) now,
            low-le k m c v.follows v.order,
            omega (arith, size),
            ground (arith, get_elem?-snoc m.log item n),
            ap m.ready (own.0 ∙ ap (slot k) now) ∙ v.free n (omega arith) v.room,
          )
          | inr other ↦
              rw other
                (Owns-claim k m (next k tail) item (low k (length m.out) c) (pc j) (v.owns j))
        ];
        apart = λ a a' b ea eb.
            let at_a = claim-lt k m (low k (length m.out) c) b (pc a) (v.owns a) in
            let at_b = claim-lt k m (low k (length m.out) c) b (pc a') (v.owns a') in
            ground (arith, v.apart a a' b);
        follows = Follows-claim k m (next k tail) item c v.follows;
      }

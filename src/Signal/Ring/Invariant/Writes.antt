-- ===== src/Signal/Ring/Invariant/Writes.antt =====
-- fb_signal/include/fb/event_queue.hpp, `try_enqueue` from the claim on.
use foo_bar.Base.{
  ℕ, suc, ◌+◌, ◌^◌, ◌≤◌, ◌<◌, ◌≡◌, ◌≢◌, refl, sym, ap, subst, ◌∙◌, true, false, some, length, arith,
  leb, ◌⊎◌, ◌==◌, Bool-cases, inl, inr,
}
use foo_bar.Signal.Ring.{
  Shared, Producer, idle, checking, claiming, writing, publishing, result, Consumer, resting,
  polling, spinning, reading, clearing, advancing, update,
}
use foo_bar.Signal.Ring.Slots.{slot, slot-inj}
use foo_bar.Signal.Ring.Invariant.{Inv, Owns, Follows, low, claim_of}
use foo_bar.Signal.Ring.Invariant.Claims.{claim-lt}

-- A producer's slot is within a lap of the consumer.
pub claim-ge :
    (k : ℕ) {A : Type 0} (m : Shared A) (from n : ℕ) (p : Producer A)
    → Owns k m from p
    → claim_of k p ≡ some n
    → from ≤ n
claim-ge k m from n idle o e = cc
claim-ge k m from n (checking t seen x) o e = cc
claim-ge k m from n (claiming t seen x) o e = cc
claim-ge k m from n (writing t a x) o e = ground arith
claim-ge k m from n (publishing t a x) o e = ground arith
claim-ge k m from n (result b) o e = cc

low-ge : (k : ℕ) {A : Type 0} (returned : ℕ) (c : Consumer A) → returned ≤ low k returned c
low-ge k returned resting = omega arith
low-ge k returned (polling head) = omega arith
low-ge k returned (spinning head) = omega arith
low-ge k returned (reading head) = omega arith
low-ge k returned (clearing head item) = omega arith
low-ge k returned (advancing head item) = omega arith

low-cases :
    (k : ℕ) {A : Type 0} (returned : ℕ) (c : Consumer A)
    → (low k returned c ≡ returned) ⊎ (low k returned c ≡ suc returned)
low-cases k returned resting = inl refl
low-cases k returned (polling head) = inl refl
low-cases k returned (spinning head) = inl refl
low-cases k returned (reading head) = inl refl
low-cases k returned (clearing head item) = inl refl
low-cases k returned (advancing head item) = inr refl

-- Two claims within a lap, with different numbers, have different slots.
slot-apart :
    (k from a b : ℕ)
    → from ≤ a
    → from ≤ b
    → a < from + 2 ^ k
    → b < from + 2 ^ k
    → a ≢ b
    → slot k a ≢ slot k b
slot-apart k from a b ha hb la lb ne e = elim (Bool-cases (leb a b)) [
  | inl le ↦ ne (slot-inj k a b (ground arith) (omega arith) e)
  | inr gt ↦ ne (sym (slot-inj k b a (ground arith) (omega arith) (sym e)))
]

module _ (k : ℕ) {A : Type 0} (m : Shared A) (claim : ℕ) (item : A) where
  abbrev tail : ℕ
  tail = slot k claim

  -- What other producers know stays true when this one writes its item.
  Owns-write :
      (from : ℕ) (p : Producer A)
      → ((n : ℕ) → claim_of k p ≡ some n → slot k n ≢ tail)
      → Owns k m from p
      → Owns k (record m { buffer = update m.buffer tail item }) from p
  Owns-write from idle other o = tt
  Owns-write from (checking t seen x) other o = o
  Owns-write from (claiming t seen x) other o = o
  Owns-write from (writing t n x) other o = o
  Owns-write from (publishing t n x) other o = let apart = other n refl in ground arith
  Owns-write from (result b) other o = tt

  Owns-publish :
      (from : ℕ) (p : Producer A)
      → ((n : ℕ) → claim_of k p ≡ some n → slot k n ≢ tail)
      → Owns k m from p
      → Owns k (record m { ready = update m.ready tail true }) from p
  Owns-publish from idle other o = tt
  Owns-publish from (checking t seen x) other o = o
  Owns-publish from (claiming t seen x) other o = o
  Owns-publish from (writing t n x) other o = let apart = other n refl in ground arith
  Owns-publish from (publishing t n x) other o = let apart = other n refl in ground arith
  Owns-publish from (result b) other o = tt

  -- The consumer's slot, once seen ready, is no producer's.
  Follows-publish :
      (c : Consumer A)
      → m.ready tail ≡ false
      → (tail ≢ m.head) ⊎ (low k (length m.out) c ≡ length m.out)
      → Follows k m c
      → Follows k (record m { ready = update m.ready tail true }) c
  Follows-publish resting r apart f = tt
  Follows-publish (polling head) r apart f = f
  Follows-publish (spinning head) r apart f = f
  Follows-publish (reading head) r apart f = ground arith
  Follows-publish (clearing head x) r apart f = ground arith
  Follows-publish (advancing head x) r apart f = ground arith

  Follows-write :
      (c : Consumer A)
      → Follows k m c
      → Follows k (record m { buffer = update m.buffer tail item }) c
  Follows-write resting f = tt
  Follows-write (polling head) f = f
  Follows-write (spinning head) f = f
  Follows-write (reading head) f = f
  Follows-write (clearing head x) f = f
  Follows-write (advancing head x) f = f

module _ (k : ℕ) {A : Type 0} (m : Shared A) (pc : ℕ → Producer A) (c : Consumer A)
    (v : Inv k m pc c) (i claim : ℕ) (item : A) where
  -- The claims of the others are other claims, so that their slots are other slots.
  others_apart :
      (mine : claim_of k (pc i) ≡ some claim) (j : ℕ)
      → (j == i) ≡ false
      → (n : ℕ) → claim_of k (pc j) ≡ some n
      → slot k n ≢ slot k claim
  others_apart mine j other n theirs =
      let out = length m.out in
      let mine_ge = claim-ge k m (low k out c) claim (pc i) (v.owns i) mine in
      let mine_lt = claim-lt k m (low k out c) claim (pc i) (v.owns i) mine in
      let theirs_ge = claim-ge k m (low k out c) n (pc j) (v.owns j) theirs in
      let theirs_lt = claim-lt k m (low k out c) n (pc j) (v.owns j) theirs in
      let from = low-ge k out c in
      slot-apart k out n claim (omega arith) (omega arith) (omega (arith, v.room))
        (omega (arith, v.room)) (λ same. ground (arith, v.apart j i n))

  -- The item is stored.
  pub Inv-write :
      pc i ≡ writing (slot k claim) claim item
      → Inv k
          (record m { buffer = update m.buffer (slot k claim) item })
          (update pc i (publishing (slot k claim) claim item))
          c
  Inv-write at_i =
      let mine : claim_of k (pc i) ≡ some claim = ap (claim_of k) at_i in
      let own : Owns k m (low k (length m.out) c) (writing (slot k claim) claim item) =
        subst (Owns k m (low k (length m.out) c)) at_i (v.owns i) in
      record {
        tail_is = v.tail_is;
        head_is = v.head_is;
        order = v.order;
        room = v.room;
        fifo = v.fifo;
        free = v.free;
        stored = λ j h h' r. let before = v.stored j h h' r in ground (arith, own);
        owns = λ j. elim (Bool-cases (j == i)) [
          | inl same ↦ rw same (ground (arith, own))
          | inr other ↦ rw other (
              Owns-write k m claim item (low k (length m.out) c) (pc j) (others_apart mine j other)
                (v.owns j))
        ];
        apart = λ a b n ea eb. ground (arith, v.apart a b n, mine);
        follows = Follows-write k m claim item c v.follows;
      }

  -- The slot is marked as ready.
  pub Inv-publish :
      pc i ≡ publishing (slot k claim) claim item
      → Inv k
          (record m { ready = update m.ready (slot k claim) true })
          (update pc i (result true))
          c
  Inv-publish at_i =
      let mine : claim_of k (pc i) ≡ some claim = ap (claim_of k) at_i in
      let own : Owns k m (low k (length m.out) c) (publishing (slot k claim) claim item) =
        subst (Owns k m (low k (length m.out) c)) at_i (v.owns i) in
      let from = low-ge k (length m.out) c in
      let slot_near : (j : ℕ)
          → length m.out ≤ j
          → j < length m.out + 2 ^ k
          → j ≢ claim
          → slot k j ≢ slot k claim =
        λ j h h' ne.
          slot-apart k (length m.out) j claim h (omega (arith, own, from)) h'
            (omega (arith, own, v.room)) ne in
      let side : (slot k claim ≢ m.head) ⊎ (low k (length m.out) c ≡ length m.out) =
        elim (low-cases k (length m.out) c) [
          | inl e ↦ inr e
          | inr e ↦
              let apart =
                slot_near (length m.out) (omega arith) (omega (arith, v.order, v.room))
                  (λ same. omega (arith, own)) in
              inl (λ same. apart (sym v.head_is ∙ sym same))
        ] in
      record {
        tail_is = v.tail_is;
        head_is = v.head_is;
        order = v.order;
        room = v.room;
        fifo = v.fifo;
        free = λ j h h'.
            let apart = slot_near j (omega (arith, v.order)) h' (omega (arith, own)) in
            let before = v.free j h h' in ground arith;
        stored = λ j h h' r. elim (Bool-cases (j == claim)) [
          | inl e ↦ ground (arith, own)
          | inr e ↦
              let apart = slot_near j h (omega (arith, v.room)) (ground arith) in
              ground (arith, v.stored j)
        ];
        owns = λ j. elim (Bool-cases (j == i)) [
          | inl same ↦ rw same tt
          | inr other ↦ rw other (
              Owns-publish k m claim item (low k (length m.out) c) (pc j)
                (others_apart mine j other) (v.owns j))
        ];
        apart = λ a b n ea eb. ground (arith, v.apart a b n);
        follows = Follows-publish k m claim item c own.4 side v.follows;
      }

-- ===== src/Signal/Ring/Invariant.antt =====
-- fb_signal/include/fb/event_queue.hpp, `ring_buffer`: which systems are reached, and what holds in
-- each of them.
pub mod Claims
pub mod Writes
pub mod Reads
use foo_bar.Base.{
  ℕ, suc, ◌+◌, ◌^◌, ◌≤◌, ◌<◌, ◌≡◌, Bool, true, false, Option, none, some, get_elem?, length,
}
use foo_bar.Signal.Ring.{
  Shared, Producer, idle, checking, claiming, writing, publishing, result, Consumer, resting,
  polling, spinning, reading, clearing, advancing, System, initial, call, produce, fail, consume,
}
use foo_bar.Signal.Ring.Slots.{slot}

-- A call can be made where none is under way.
abbrev pub IsFree : {A : Type 0} → Producer A → Type 0
IsFree idle = Unit
IsFree (result b) = Unit
IsFree p = ⊥

-- Where a compare-exchange may fail for no reason.
abbrev pub IsClaiming : {A : Type 0} → Producer A → Type 0
IsClaiming (claiming tail seen item) = Unit
IsClaiming p = ⊥

module _ (k : ℕ) {A : Type 0} where
  -- Fewer claims than there are slots since the producer loaded `m_tail`.
  abbrev pub NoLap : Shared A → Producer A → Type 0
  NoLap m (claiming tail seen item) = length m.log < seen + 2 ^ k
  NoLap m p = Unit

  -- The systems that steps lead to in which no producer is overtaken by a whole lap.
  pub data Reach (blank : A) : System A → Type 0 where
    start : Reach blank (initial blank)
    called :
        {s : System A} (i : ℕ) (item : A)
        → IsFree (s.producers i)
        → Reach blank s
        → Reach blank (call s i item)
    produced :
        {s : System A} (i : ℕ)
        → NoLap s.shared (s.producers i)
        → Reach blank s
        → Reach blank (produce k s i)
    failed :
        {s : System A} (i : ℕ) → IsClaiming (s.producers i) → Reach blank s → Reach blank (fail s i)
    consumed : {s : System A} → Reach blank s → Reach blank (consume k s)

  -- The number of the claim whose slot a producer has to fill.
  abbrev pub claim_of : Producer A → Option ℕ
  claim_of (writing tail claim item) = some claim
  claim_of (publishing tail claim item) = some claim
  claim_of p = none

  -- The first claim whose slot the consumer has not yet given back.
  abbrev pub low : ℕ → Consumer A → ℕ
  low returned (advancing head item) = suc returned
  low returned c = returned

  -- What a producer's locals say about the shared state.
  abbrev pub Owns : Shared A → ℕ → Producer A → Type 0
  Owns m from (checking tail seen item) = (tail ≡ slot k seen) × (seen ≤ length m.log)
  Owns m from (claiming tail seen item) =
      (tail ≡ slot k seen) × (seen ≤ length m.log) × (seen + 1 < length m.out + 2 ^ k)
  Owns m from (writing tail claim item) =
      (tail ≡ slot k claim)
      × (from ≤ claim)
      × (claim < length m.log)
      × (get_elem? m.log claim ≡ some item)
      × (m.ready tail ≡ false)
  Owns m from (publishing tail claim item) =
      (tail ≡ slot k claim)
      × (from ≤ claim)
      × (claim < length m.log)
      × (get_elem? m.log claim ≡ some item)
      × (m.ready tail ≡ false)
      × (m.buffer tail ≡ item)
  Owns m from p = Unit

  -- What the consumer's locals say.
  abbrev pub Follows : Shared A → Consumer A → Type 0
  Follows m resting = Unit
  Follows m (polling head) = head ≡ m.head
  Follows m (spinning head) = (head ≡ m.head) × (length m.out < length m.log)
  Follows m (reading head) = (head ≡ m.head) × (length m.out < length m.log) × (m.ready head ≡ true)
  Follows m (clearing head item) =
      (head ≡ m.head)
      × (length m.out < length m.log)
      × (m.ready head ≡ true)
      × (get_elem? m.log (length m.out) ≡ some item)
  Follows m (advancing head item) =
      (head ≡ m.head)
      × (length m.out < length m.log)
      × (m.ready head ≡ false)
      × (get_elem? m.log (length m.out) ≡ some item)

  pub record Inv (m : Shared A) (pc : ℕ → Producer A) (c : Consumer A) : Type 0 where
    pub tail_is : m.tail ≡ slot k (length m.log)
    pub head_is : m.head ≡ slot k (length m.out)
    pub order : length m.out ≤ length m.log
    pub room : length m.log < length m.out + 2 ^ k
    -- The items go out in the order of their claims.
    pub fifo : (i : ℕ) → i < length m.out → get_elem? m.out i ≡ get_elem? m.log i
    pub free : (i : ℕ) → length m.log ≤ i → i < length m.out + 2 ^ k → m.ready (slot k i) ≡ false
    pub stored :
        (i : ℕ)
        → length m.out ≤ i
        → i < length m.log
        → m.ready (slot k i) ≡ true
        → get_elem? m.log i ≡ some (m.buffer (slot k i))
    pub owns : (i : ℕ) → Owns m (low (length m.out) c) (pc i)
    pub apart : (i j n : ℕ) → claim_of (pc i) ≡ some n → claim_of (pc j) ≡ some n → i ≡ j
    pub follows : Follows m c

-- ===== src/Signal/Ring.antt =====
-- fb_signal/include/fb/event_queue.hpp, `ring_buffer`: producers and one consumer, one shared access
-- at a time, interleaved in any order. The capacity is `2 ^ k`. The arrays are functions of the
-- index. What the code does not have: `log` is the items of the claims in the order of the claims,
-- `out` the items that `try_dequeue` returned, and `seen` and `claim` in a producer how many claims
-- there were when it loaded `m_tail` and when it claimed its slot.
pub mod Slots
pub mod Invariant
pub mod Fifo
pub mod Alone
pub mod Settled
mod Tests
use foo_bar.Base.{
  ℕ, zero, suc, ◌+◌, ◌-◌, ◌^◌, ◌<◌, Bool, true, false, List, [], ◌∷◌, ◌++◌, ◌==◌, if◌then◌else◌,
  bit_and, length,
}

-- `m_buffer[i] = a`
abbrev pub update {ℓ} : {A : Type ℓ} → (ℕ → A) → ℕ → A → ℕ → A
update f i a j = if j == i then a else f j

pub record Shared (A : Type 0) : Type 0 where
  pub head : ℕ
  pub tail : ℕ
  pub buffer : ℕ → A
  pub ready : ℕ → Bool
  pub log : List A
  pub out : List A

-- Where a call of `try_enqueue` stands; `result` is after its return.
pub data Producer (A : Type 0) : Type 0 where
  idle : Producer A
  checking : (tail seen : ℕ) → A → Producer A
  claiming : (tail seen : ℕ) → A → Producer A
  writing : (tail claim : ℕ) → A → Producer A
  publishing : (tail claim : ℕ) → A → Producer A
  result : Bool → Producer A

-- Where a call of `try_dequeue` stands.
pub data Consumer (A : Type 0) : Type 0 where
  resting : Consumer A
  polling : (head : ℕ) → Consumer A
  spinning : (head : ℕ) → Consumer A
  reading : (head : ℕ) → Consumer A
  clearing : (head : ℕ) → A → Consumer A
  advancing : (head : ℕ) → A → Consumer A

pub record System (A : Type 0) : Type 0 where
  pub shared : Shared A
  pub producers : ℕ → Producer A
  pub consumer : Consumer A

module _ {A : Type 0} where
  -- The first load of `m_tail`, when `try_enqueue` is called.
  unfoldable pub call_enqueue : Shared A → A → Producer A
  call_enqueue m item = checking m.tail (length m.log) item

  -- `compare_exchange_weak` may fail although the values agree.
  unfoldable pub fail_spuriously : Shared A → Producer A → Producer A
  fail_spuriously m (claiming tail seen item) = checking m.tail (length m.log) item
  fail_spuriously m idle = idle
  fail_spuriously m (checking tail seen item) = checking tail seen item
  fail_spuriously m (writing tail claim item) = writing tail claim item
  fail_spuriously m (publishing tail claim item) = publishing tail claim item
  fail_spuriously m (result b) = result b

  unfoldable pub initial : A → System A
  initial blank = record {
    shared = record {
      head = 0;
      tail = 0;
      buffer = λ _. blank;
      ready = λ _. false;
      log = [];
      out = [];
    };
    producers = λ _. idle;
    consumer = resting;
  }

  unfoldable pub call : System A → ℕ → A → System A
  unfolding call_enqueue
  call s i item = record s { producers = update s.producers i (call_enqueue s.shared item) }

  unfoldable pub fail : System A → ℕ → System A
  fail s i = record s {
    producers = update s.producers i (fail_spuriously s.shared (s.producers i));
  }

module _ (k : ℕ) where
  -- `(i + 1) & MASK`
  unfoldable pub next : ℕ → ℕ
  next i = bit_and (i + 1) (2 ^ k - 1)

  module _ {A : Type 0} where
    -- Each clause is one shared access of `try_enqueue`; a call that has returned does nothing.
    unfoldable pub producer_step : Shared A → Producer A → Shared A × Producer A
    producer_step m idle = (m, idle)
    producer_step m (checking tail seen item) =
        if next tail == m.head then (m, result false) else (m, claiming tail seen item)
    producer_step m (claiming tail seen item) =
        if m.tail == tail
        then (
          record m { tail = next tail; log = m.log ++ item ∷ [] },
          writing tail (length m.log) item,
        )
        else (m, checking m.tail (length m.log) item)
    producer_step m (writing tail claim item) =
        (record m { buffer = update m.buffer tail item }, publishing tail claim item)
    producer_step m (publishing tail claim item) =
        (record m { ready = update m.ready tail true }, result true)
    producer_step m (result b) = (m, result b)

    -- Each clause is one shared access of `try_dequeue`; it is called again and again.
    unfoldable pub consumer_step : Shared A → Consumer A → Shared A × Consumer A
    consumer_step m resting = (m, polling m.head)
    consumer_step m (polling head) = if head == m.tail then (m, resting) else (m, spinning head)
    consumer_step m (spinning head) = if m.ready head then (m, reading head) else (m, spinning head)
    consumer_step m (reading head) = (m, clearing head (m.buffer head))
    consumer_step m (clearing head item) =
        (record m { ready = update m.ready head false }, advancing head item)
    consumer_step m (advancing head item) =
        (record m { head = next head; out = m.out ++ item ∷ [] }, resting)

  module _ {A : Type 0} where
    unfoldable pub produce : System A → ℕ → System A
    produce s i =
        let (m, p) = producer_step s.shared (s.producers i) in
        record s { shared = m; producers = update s.producers i p }

    unfoldable pub consume : System A → System A
    consume s =
        let (m, c) = consumer_step s.shared s.consumer in record s { shared = m; consumer = c }

    -- So many steps of one thread with no step of another between them.
    unfoldable pub run_producer : ℕ → Shared A → Producer A → Shared A × Producer A
    run_producer zero m p = (m, p)
    run_producer (suc n) m p = let (m', p') = producer_step m p in run_producer n m' p'

    unfoldable pub run_consumer : ℕ → Shared A → Consumer A → Shared A × Consumer A
    run_consumer zero m c = (m, c)
    run_consumer (suc n) m c = let (m', c') = consumer_step m c in run_consumer n m' c'

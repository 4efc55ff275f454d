-- ===== src/Signal/Emit.antt =====
-- fb_signal/include/fb/signal.hpp and `event_queue` of fb_signal/include/fb/event_queue.hpp: the
-- delivery of an emission, at once or through a queue. The signals are those of one type. What a
-- callable does is the parameter `body`: it can do anything to the world, the operations of signals
-- and queues included. `calls` is a record of the calls that the code does not have.
pub mod Silent
pub mod Delivery
pub mod Outcome
pub mod Pending
pub mod Refined
pub mod Inactive
use foo_bar.Base.{
  ℕ, zero, suc, ◌+◌, ◌^◌, Bool, true, false, ◌&&◌, not, List, [], ◌∷◌, ◌++◌, Option, none, some,
  ltb, ◌==◌, if◌then◌else◌, length, get_elem?,
}
use foo_bar.Signal.Ring.{update}
use foo_bar.Signal.Slots.{
  Heap, SlotList, Slot, Policy, direct, queued, automatic, is_active, is_blocked, set_blocked,
  find_active, add, clear, cleanup,
}

-- The arguments of a queued call, and the place of its slot.
pub record Event (A : Type 0) : Type 0 where
  pub slot : ℕ
  pub args : A

pub record EventQueue (A : Type 0) : Type 0 where
  pub pending : List (Event A)
  pub dropped_count : ℕ
  pub owner_thread : ℕ

pub record World (F A S : Type 0) : Type 0 where
  pub heap : Heap F
  pub signals : ℕ → SlotList
  pub queues : ℕ → EventQueue A
  pub calls : List (Event A)
  pub user : S

-- `DEFAULT_CAPACITY`; one slot of the ring stays free.
abbrev pub default_capacity : ℕ
default_capacity = 2 ^ 12

unfoldable pub enqueue : {A : Type 0} → EventQueue A → Event A → EventQueue A × Bool
enqueue q event =
    if ltb (length q.pending + 1) default_capacity
    then (record q { pending = q.pending ++ event ∷ [] }, true)
    else (record q { dropped_count = q.dropped_count + 1 }, false)

-- The `switch` of `emit`, for a slot with a queue.
unfoldable pub use_direct : Policy → (same_thread : Bool) → Bool
use_direct direct same_thread = true
use_direct queued same_thread = false
use_direct automatic same_thread = same_thread

-- Active and not blocked.
unfoldable pub is_open : {F : Type 0} → Heap F → ℕ → Bool
is_open h r = is_active h r && not (is_blocked h r)

-- The queue that a call on a thread goes to, or none if it is made at once.
unfoldable pub target : {F A : Type 0} → (ℕ → EventQueue A) → ℕ → Slot F → Option ℕ
target queues thread slot = elim slot.queue [
  | none ↦ none
  | some q ↦ if use_direct slot.policy (thread == (queues q).owner_thread) then none else some q
]

module _ {F A S : Type 0} where
  unfoldable pub connect : World F A S → ℕ → F → ℕ → Policy → Option ℕ → World F A S
  connect w i f prio policy queue =
      let (h, l) = add w.heap (w.signals i) f prio policy queue in
      record w { heap = h; signals = update w.signals i l }

  -- `disconnect_all` of a signal.
  unfoldable pub disconnect_signal : World F A S → ℕ → World F A S
  disconnect_signal w i =
      let (h, l) = clear w.heap (w.signals i) in
      record w { heap = h; signals = update w.signals i l }

  unfoldable pub cleanup_signal : World F A S → ℕ → World F A S
  cleanup_signal w i = record w { signals = update w.signals i (cleanup w.heap (w.signals i)) }

  -- `block` and `unblock` of a signal, by the number of a connection.
  unfoldable pub set_blocked_by_id : Bool → World F A S → ℕ → ℕ → World F A S
  set_blocked_by_id b w i id = elim (find_active w.heap id (w.signals i).refs) [
    | none ↦ w
    | some r ↦ record w { heap = set_blocked b w.heap r }
  ]

  unfoldable pub enqueue_invocation : World F A S → ℕ → ℕ → A → World F A S
  enqueue_invocation w q r args = record w {
    queues = update w.queues q (enqueue (w.queues q) (record { slot = r; args = args })).0;
  }

module _ {F A S : Type 0} (body : F → A → World F A S → World F A S) where
  unfoldable pub invoke_unchecked : World F A S → ℕ → A → World F A S
  invoke_unchecked w r args = elim (get_elem? w.heap.slots r) [
    | none ↦ w
    | some slot ↦
        body slot.callable args
          (record w { calls = w.calls ++ record { slot = r; args = args } ∷ [] })
  ]

  -- What the loop of `emit` does for one slot.
  unfoldable pub deliver : ℕ → A → World F A S → ℕ → World F A S
  deliver thread args w r = elim (get_elem? w.heap.slots r) [
    | none ↦ w
    | some slot ↦
        if is_open w.heap r
        then elim (target w.queues thread slot) [
          | none ↦ invoke_unchecked w r args
          | some q ↦ enqueue_invocation w q r args
        ]
        else w
  ]

  unfoldable pub deliver_all : ℕ → A → World F A S → List ℕ → World F A S
  deliver_all thread args w [] = w
  deliver_all thread args w (r ∷ rs) = deliver_all thread args (deliver thread args w r) rs

  -- Over the slots of the list as it is when the emission starts.
  unfoldable pub emit : ℕ → World F A S → ℕ → A → World F A S
  emit thread w i args = deliver_all thread args w (w.signals i).refs

  -- The queued function.
  unfoldable pub invoke_event : World F A S → Event A → World F A S
  invoke_event w event =
      if is_open w.heap event.slot then invoke_unchecked w event.slot event.args else w

  -- `process_pending(max_events)`; `process_pending()` is this loop with no bound.
  unfoldable pub process_pending : ℕ → World F A S → ℕ → World F A S × ℕ
  process_pending zero w q = (w, 0)
  process_pending (suc max_events) w q = elim ((w.queues q).pending) [
    | [] ↦ (w, 0)
    | event ∷ rest ↦
        let taken = record w {
          queues = update w.queues q (record (w.queues q) { pending = rest });
        } in
        let (w', count) = process_pending max_events (invoke_event taken event) q in (w', count + 1)
  ]

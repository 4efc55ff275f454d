-- ===== src/Signal/Emit/Refined.antt =====
-- fb_signal/include/fb/event_queue.hpp: the list of an event queue and the ring buffer that it stands for.
use foo_bar.Base.{
  ◌+◌, ◌<◌, ◌≡◌, subst, length-append, Bool, true, false, [], ◌∷◌, arith, ltb, ◌==◌, if◌then◌else◌,
  length, Bool-cases, inl, inr,
}
use foo_bar.Signal.Ring.{Shared, result, call_enqueue, run_producer}
use foo_bar.Signal.Ring.Settled.{IsSettled, run_producer-IsSettled}
use foo_bar.Signal.Emit.{Event, EventQueue, default_capacity, enqueue}

if_true : (X Y : Type 0) {b : Bool} → b ≡ true → (if b then X else Y) → X
if_true X Y e p = subst (λ c. if c then X else Y) e p

if_false : (X Y : Type 0) {b : Bool} → b ≡ false → (if b then X else Y) → Y
if_false X Y e p = subst (λ c. if c then X else Y) e p

module _ {A : Type 0} where
  -- If the ring of 4096 slots stands for the list of an event queue and no other call is
  -- under way, a call of try_enqueue returns within four steps what enqueue on the list
  -- returns, and the ring then stands for the new list.
  pub run_producer-enqueue :
      (m : Shared (Event A)) (q : EventQueue A) (event : Event A)
      → length q.pending < default_capacity
      → IsSettled 12 m q.pending
      → let (m', p) = run_producer 12 4 m (call_enqueue m event) in
        let (q', accepted) = enqueue q event in
        (p ≡ result accepted) × IsSettled 12 m' q'.pending × (length q'.pending < default_capacity)
  unfolding enqueue
  run_producer-enqueue m q event lt s =
      elim (Bool-cases (length q.pending + 1 == default_capacity)) [
        | inl full ↦
            let (refused, settled) =
              if_true _ _ full (run_producer-IsSettled 12 m q.pending event s) in
            let no_room : ltb (length q.pending + 1) default_capacity ≡ false = ground arith in
            rw (no_room, enqueue) (refused, settled, lt)
        | inr free ↦
            let (taken, settled) =
              if_false _ _ free (run_producer-IsSettled 12 m q.pending event s) in
            let room : ltb (length q.pending + 1) default_capacity ≡ true = ground arith in
            let smaller : length q.pending + 1 < default_capacity = ground arith in
            rw (room, enqueue) (taken, settled, omega (arith, length-append q.pending (event ∷ [])))
      ]

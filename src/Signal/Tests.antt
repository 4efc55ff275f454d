-- ===== src/Signal/Tests.antt =====
-- Lists of slots, emissions and connections, and the theorems applied to them.
use foo_bar.Base.{
  ℕ, ◌+◌, ◌<◌, ◌≡◌, refl, true, not, [], ◌∷◌, ◌++◌, none, some, ◌==◌, take, drop, min, length,
  arith,
}
use foo_bar.Signal.Ring.{Shared, initial, resting, result, call_enqueue, run_producer, run_consumer}
use foo_bar.Signal.Ring.Settled.{
  IsSettled, initial-IsSettled, run_producer-IsSettled, run_consumer-IsSettled,
}
use foo_bar.Signal.Slots.{
  Heap, SlotList, direct, queued, automatic, insert_slot, add, remove, make_slot, keep_if,
  is_active, is_blocked, id_at, priority_at, comes_before, insert_sorted, stable_sort,
}
use foo_bar.Signal.Slots.Reached.{
  Reach, start, added, elsewhere, inserted, no_slots, no_refs, IsValid, Reach-IsValid,
}
use foo_bar.Signal.Slots.Placed.{ahead}
use foo_bar.Signal.Slots.Members.{count}
use foo_bar.Signal.Slots.Live.{live, live-remove}
use foo_bar.Signal.Slots.Added.{refs-insert_slot}
use foo_bar.Signal.Connections.{Connection, equal, id}
use foo_bar.Signal.Emit.{
  Event, EventQueue, World, default_capacity, enqueue, emit, deliver, deliver_all, process_pending,
  invoke_unchecked, enqueue_invocation, target, use_direct, is_open,
}
use foo_bar.Signal.Emit.Delivery.{enqueue_all}
use foo_bar.Signal.Emit.Outcome.{now_events, later_events, emit-now_events}
use foo_bar.Signal.Emit.Silent.{IsSilent, emit-IsSilent}
use foo_bar.Signal.Emit.Pending.{open_events, process_pending-open_events}
use foo_bar.Signal.Emit.Refined.{run_producer-enqueue}

abbrev one_slot : Heap ℕ × SlotList
one_slot = add (no_slots ℕ) no_refs 7 1000 direct none

abbrev two_slots : Heap ℕ × SlotList
two_slots = add one_slot.0 one_slot.1 8 1010 queued (some 0)

abbrev three_slots : Heap ℕ × SlotList
three_slots = add two_slots.0 two_slots.1 9 1000 automatic (some 1)

two_slots-Reach : Reach two_slots.0 two_slots.1
two_slots-Reach = added 8 1010 queued (some 0) (added 7 1000 direct none start)

three_slots-Reach : Reach three_slots.0 three_slots.1
three_slots-Reach = added 9 1000 automatic (some 1) two_slots-Reach

three_slots_order : three_slots.1.refs ≡ 1 ∷ 0 ∷ 2 ∷ []
unfolding add make_slot insert_slot keep_if is_active stable_sort insert_sorted comes_before
    priority_at id_at
three_slots_order = refl

Reach-IsValid_example : IsValid three_slots.0 three_slots.1
Reach-IsValid_example = Reach-IsValid three_slots-Reach

-- Two calls of `add` with the same priority: the first to make its slot is the second to lock, and
-- its slot, 1, goes in front of slot 2, which is in the list.
abbrev both_made : Heap ℕ
both_made = make_slot (make_slot one_slot.0 8 1000 queued (some 0)) 9 1000 automatic (some 1)

abbrev overtaken : SlotList
overtaken = insert_slot both_made one_slot.1 (is_active both_made) 2

overtaken_order :
    (overtaken.refs ≡ 0 ∷ 2 ∷ [])
    × ((insert_slot both_made overtaken (is_active both_made) 1).refs ≡ 0 ∷ 1 ∷ 2 ∷ [])
unfolding add make_slot insert_slot keep_if is_active stable_sort insert_sorted comes_before
    priority_at id_at
overtaken_order = (refl, refl)

overtaken_count : count 1 overtaken.refs ≡ 0
unfolding add make_slot insert_slot keep_if is_active stable_sort insert_sorted comes_before
    priority_at id_at
overtaken_count = refl

both_made-Reach : Reach both_made one_slot.1
both_made-Reach =
    elsewhere 9 1000 automatic (some 1)
      (elsewhere 8 1000 queued (some 0) (added 7 1000 direct none start))

made_length : length both_made.slots ≡ 3
unfolding add make_slot
made_length = refl

two_absent : count 2 one_slot.1.refs ≡ 0
unfolding add make_slot insert_slot keep_if is_active stable_sort insert_sorted comes_before
    priority_at id_at
two_absent = refl

overtaken-Reach : Reach both_made overtaken
overtaken-Reach =
    inserted 2 (is_active both_made) (omega (arith, made_length)) two_absent (λ s e. e)
      both_made-Reach

refs-insert_slot_example :
    (insert_slot both_made overtaken (is_active both_made) 1).refs
    ≡ keep_if (ahead both_made 1) (keep_if (is_active both_made) overtaken.refs)
      ++ 1 ∷ keep_if (λ s. not (ahead both_made 1 s)) (keep_if (is_active both_made) overtaken.refs)
refs-insert_slot_example =
    refs-insert_slot 1 (is_active both_made) (omega (arith, made_length)) overtaken_count
      overtaken-Reach

live-remove_example :
    live (remove three_slots.0 three_slots.1 2).0.0 (remove three_slots.0 three_slots.1 2).0.1.refs
    ≡ keep_if (λ r. not (id_at three_slots.0 r == 2)) (live three_slots.0 three_slots.1.refs)
live-remove_example = live-remove 2 three_slots-Reach

-- The callable adds its number to what it is given.
abbrev body : ℕ → ℕ → World ℕ ℕ ℕ → World ℕ ℕ ℕ
body f args w = record w { user = w.user + f + args }

abbrev world : World ℕ ℕ ℕ
world = record {
  heap = three_slots.0;
  signals = λ i. three_slots.1;
  queues = λ q. record { pending = []; dropped_count = 0; owner_thread = q };
  calls = [];
  user = 0;
}

-- On thread 1, the first slot's call waits in queue 0, and the others are made.
emit_order :
    ((emit body 1 world 0 5).calls
      ≡ record { slot = 0; args = 5 } ∷ record { slot = 2; args = 5 } ∷ [])
    × (((emit body 1 world 0 5).queues 0).pending ≡ record { slot = 1; args = 5 } ∷ [])
unfolding add insert_slot make_slot keep_if is_active is_blocked stable_sort insert_sorted
    comes_before priority_at id_at emit deliver deliver_all invoke_unchecked enqueue_invocation
    target use_direct is_open enqueue
emit_order = (refl, refl)

emit-now_events_example :
    let w' = emit body 1 world 0 5 in
    (w'.calls ≡ world.calls ++ now_events world.heap world.queues 1 5 (world.signals 0).refs)
    × ((j : ℕ)
        → w'.queues j
          ≡ enqueue_all
              (world.queues j)
              (later_events world.heap world.queues 1 5 j (world.signals 0).refs))
emit-now_events_example = emit-now_events body (λ f args w. (refl, refl, refl)) 1 world 0 5

emit-IsSilent_example :
    IsSilent 2 world (emit body 1 world 0 5) × IsSilent 2 world (process_pending body 3 world 0).0
emit-IsSilent_example = emit-IsSilent body 2 (λ f args w off. (off, refl)) 1 3 world 0 5

abbrev emitted : World ℕ ℕ ℕ
emitted = emit body 1 world 0 5

process_pending-open_events_example :
    let (w', count) = process_pending body 3 emitted 0 in
    (w'.calls ≡ emitted.calls ++ open_events emitted.heap (take 3 (emitted.queues 0).pending))
    × ((w'.queues 0).pending ≡ drop 3 (emitted.queues 0).pending)
    × (count ≡ min 3 (length (emitted.queues 0).pending))
process_pending-open_events_example =
    process_pending-open_events body (λ f args w. (refl, refl, refl)) 3 emitted 0

abbrev no_events : EventQueue ℕ
no_events = record { pending = []; dropped_count = 0; owner_thread = 0 }

abbrev some_event : Event ℕ
some_event = record { slot = 1; args = 5 }

run_producer-enqueue_example :
    let (m', p) =
      run_producer 12 4
        (initial some_event).shared
        (call_enqueue (initial some_event).shared some_event) in
    let (q', accepted) = enqueue no_events some_event in
    (p ≡ result accepted) × IsSettled 12 m' q'.pending × (length q'.pending < default_capacity)
run_producer-enqueue_example =
    run_producer-enqueue (initial some_event).shared no_events some_event (omega arith)
      (initial-IsSettled 12 some_event)

abbrev one_event : Shared (Event ℕ)
one_event =
    (run_producer 12 4 (initial some_event).shared
      (call_enqueue (initial some_event).shared some_event)).0

one_event-IsSettled : IsSettled 12 one_event (some_event ∷ [])
one_event-IsSettled =
    (run_producer-IsSettled 12 (initial some_event).shared [] some_event
      (initial-IsSettled 12 some_event)).1

run_consumer-IsSettled_example :
    let (m', c) = run_consumer 12 6 one_event resting in
    (c ≡ resting) × (m'.out ≡ one_event.out ++ some_event ∷ []) × IsSettled 12 m' []
run_consumer-IsSettled_example =
    run_consumer-IsSettled 12 one_event some_event [] one_event-IsSettled

abbrev first_slot : Connection
first_slot = some 0

abbrev second_slot : Connection
second_slot = some 1

-- Of two signals of different types, the first connections have the same number and are equal.
first_equal : equal one_slot.0 three_slots.0 first_slot first_slot ≡ true
unfolding add insert_slot make_slot keep_if stable_sort insert_sorted equal id id_at
first_equal = refl

-- ===== src/Signal/Emit/Delivery.antt =====
-- fb_signal/include/fb/signal.hpp, `emit`: which slots are called at once and which calls go to which
-- queue, when the callables leave the slots, the queues and the record of calls alone.
use foo_bar.Base.{
  ℕ, ◌+◌, ◌≡◌, refl, ◌∙◌, Bool, true, false, List, [], ◌∷◌, ◌++◌, map, none, some, ltb, ◌==◌,
  if◌then◌else◌, length, get_elem?, ◌⊎◌, arith, Bool-cases, Option-cases, inl, inr,
}
use foo_bar.Signal.Slots.{Heap, Slot}
use foo_bar.Signal.Emit.{
  Event, EventQueue, World, default_capacity, enqueue, target, is_open, enqueue_invocation,
  invoke_unchecked, deliver,
}

-- What an emission does about one slot.
pub data Route : Type 0 where
  nowhere now : Route
  later : ℕ → Route

-- The events of a list of slots.
abbrev pub events : {A : Type 0} → A → List ℕ → List (Event A)
events args rs = map (λ r. record { slot = r; args = args }) rs

abbrev pub enqueue_all : {A : Type 0} → EventQueue A → List (Event A) → EventQueue A
enqueue_all q [] = q
enqueue_all q (event ∷ rest) = enqueue_all (enqueue q event).0 rest

abbrev pub is_now : Route → Bool
is_now nowhere = false
is_now now = true
is_now (later q) = false

abbrev pub is_later : ℕ → Route → Bool
is_later j nowhere = false
is_later j now = false
is_later j (later q) = j == q

-- The queues belong to the same threads.
abbrev pub SameOwners : {A : Type 0} → (ℕ → EventQueue A) → (ℕ → EventQueue A) → Type 0
SameOwners queues queues' = (j : ℕ) → (queues' j).owner_thread ≡ (queues j).owner_thread

pub Route-cases : (x : Route) → (x ≡ nowhere) ⊎ ((x ≡ now) ⊎ ((q : ℕ) × (x ≡ later q)))
Route-cases nowhere = inl refl
Route-cases now = inr (inl refl)
Route-cases (later q) = inr (inr (q, refl))

pub events-append :
    {A : Type 0} (args : A) (rs ss : List ℕ)
    → events args (rs ++ ss) ≡ events args rs ++ events args ss
events-append args [] ss = refl
events-append args (r ∷ rs) ss = rw (events-append args rs ss) refl

pub enqueue_all-append :
    {A : Type 0} (q : EventQueue A) (xs ys : List (Event A))
    → enqueue_all q (xs ++ ys) ≡ enqueue_all (enqueue_all q xs) ys
enqueue_all-append q [] ys = refl
enqueue_all-append q (x ∷ xs) ys = enqueue_all-append (enqueue q x).0 xs ys

module _ {F A : Type 0} where
  abbrev pub route : Heap F → (ℕ → EventQueue A) → ℕ → ℕ → Route
  route h queues thread r = elim (get_elem? h.slots r) [
    | none ↦ nowhere
    | some slot ↦
        if is_open h r
        then elim (target queues thread slot) [ none ↦ now | some q ↦ later q ]
        else nowhere
  ]

  target-SameOwners :
      (queues queues' : ℕ → EventQueue A) (thread : ℕ) (slot : Slot F)
      → SameOwners queues queues'
      → target queues' thread slot ≡ target queues thread slot
  unfolding target
  target-SameOwners queues queues' thread slot same = elim (Option-cases slot.queue) [
    | inl e ↦ rw (e, target) refl
    | inr (q, e) ↦ rw (e, target, same q) refl
  ]

  pub route-SameOwners :
      (h : Heap F) (queues queues' : ℕ → EventQueue A) (thread r : ℕ)
      → SameOwners queues queues'
      → route h queues' thread r ≡ route h queues thread r
  route-SameOwners h queues queues' thread r same = elim (Option-cases (get_elem? h.slots r)) [
    | inl e ↦ rw (e, route) refl
    | inr (slot, e) ↦ rw (e, route, target-SameOwners queues queues' thread slot same) refl
  ]

  pub route_slot :
      (h : Heap F) (queues : ℕ → EventQueue A) (thread r : ℕ)
      → route h queues thread r ≡ now
      → (slot : Slot F) × (get_elem? h.slots r ≡ some slot)
  route_slot h queues thread r e = elim (Option-cases (get_elem? h.slots r)) [
    | inl gone ↦ absurd (ground arith)
    | inr found ↦ found
  ]

enqueue-owner_thread :
    {A : Type 0} (q : EventQueue A) (event : Event A)
    → (enqueue q event).0.owner_thread ≡ q.owner_thread
unfolding enqueue
enqueue-owner_thread q event = elim (Bool-cases (ltb (length q.pending + 1) default_capacity)) [
  | inl e ↦ rw (e, enqueue) refl
  | inr e ↦ rw (e, enqueue) refl
]

pub enqueue_all-owner_thread :
    {A : Type 0} (q : EventQueue A) (es : List (Event A))
    → (enqueue_all q es).owner_thread ≡ q.owner_thread
enqueue_all-owner_thread q [] = refl
enqueue_all-owner_thread q (e ∷ es) =
    enqueue_all-owner_thread (enqueue q e).0 es ∙ enqueue-owner_thread q e

-- Nothing that an emission works on differs.
abbrev pub IsQuiet : {F A S : Type 0} → World F A S → World F A S → Type 0
IsQuiet w w' = (w'.heap ≡ w.heap) × (w'.queues ≡ w.queues) × (w'.calls ≡ w.calls)

module _ {F A S : Type 0} (body : F → A → World F A S → World F A S)
    (quiet : (f : F) (args : A) (w : World F A S) → IsQuiet w (body f args w)) where
  pub deliver-route :
      (thread : ℕ) (args : A) (w : World F A S) (r : ℕ)
      → deliver body thread args w r ≡ elim (route w.heap w.queues thread r) [
        | nowhere ↦ w
        | now ↦ invoke_unchecked body w r args
        | later q ↦ enqueue_invocation w q r args
      ]
  unfolding deliver
  deliver-route thread args w r = elim (Option-cases (get_elem? w.heap.slots r)) [
    | inl e ↦ rw (e, deliver) refl
    | inr (slot, e) ↦ elim (Bool-cases (is_open w.heap r)) [
      | inl opened ↦ elim (Option-cases (target w.queues thread slot)) [
        | inl t ↦ rw (e, opened, t, deliver) refl
        | inr (q, t) ↦ rw (e, opened, t, deliver) refl
      ]
      | inr shut ↦ rw (e, shut, deliver) refl
    ]
  ]

  pub invoke_unchecked-quiet :
      (w : World F A S) (r : ℕ) (args : A) (slot : Slot F)
      → get_elem? w.heap.slots r ≡ some slot
      → ((invoke_unchecked body w r args).heap ≡ w.heap)
        × ((invoke_unchecked body w r args).queues ≡ w.queues)
        × ((invoke_unchecked body w r args).calls
            ≡ w.calls ++ record { slot = r; args = args } ∷ [])
  unfolding invoke_unchecked
  invoke_unchecked-quiet w r args slot e =
      rw (e, invoke_unchecked)
        (quiet slot.callable args
          (record w { calls = w.calls ++ record { slot = r; args = args } ∷ [] }))

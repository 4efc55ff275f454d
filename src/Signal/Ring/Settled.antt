-- ===== src/Signal/Ring/Settled.antt =====
-- fb_signal/include/fb/event_queue.hpp, `ring_buffer`: calls one after the other, and the list of
-- what is in the queue between them.
use foo_bar.Base.{
  ℕ, zero, suc, ◌+◌, ◌^◌, ◌≤◌, ◌<◌, ◌≡◌, refl, sym, ap, subst, ◌∙◌, true, false, List, [], ◌∷◌,
  ◌++◌, append_assoc, none, some, get_elem?, length, length-append, arith, ◌==◌, if◌then◌else◌,
  ==_iff, Bool-cases, inl, inr,
}
use foo_bar.Base.Bits.{two_pow_pos}
use foo_bar.Signal.Ring.{
  Shared, Producer, idle, checking, claiming, writing, publishing, result, Consumer, resting,
  update, next, initial, producer_step, consumer_step, call_enqueue, run_producer, run_consumer,
}
use foo_bar.Signal.Ring.Slots.{slot, slot-inj}
use foo_bar.Signal.Ring.Invariant.{Inv, Owns, claim_of, NoLap}
use foo_bar.Signal.Ring.Invariant.Claims.{Inv-replace}
use foo_bar.Signal.Ring.Fifo.{producer_step-Inv, consumer_step-Inv, Inv-initial}
use foo_bar.Signal.Ring.Alone.{run_producer-call_enqueue, run_consumer_empty, run_consumer-resting}

-- One producer, and no other call under way.
abbrev only : {A : Type 0} → Producer A → ℕ → Producer A
only p = update (λ _. idle) 0 p

only-update : {A : Type 0} (p q : Producer A) → update (only p) 0 q ≡ only q
only-update p q = λ x j. again j x
  where
    again : (j : ℕ) → update (only p) 0 q j ≡ only q j
    again j = elim (Bool-cases (j == 0)) [ inl e ↦ rw e refl | inr e ↦ rw e refl ]

module _ (k : ℕ) {A : Type 0} where
  -- The producer's `m_tail` is from after the last claim.
  abbrev IsFresh : Shared A → Producer A → Type 0
  IsFresh m (checking tail seen item) = seen ≡ length m.log
  IsFresh m (claiming tail seen item) = seen ≡ length m.log
  IsFresh m p = Unit

  NoLap-IsFresh : (m : Shared A) (p : Producer A) → IsFresh m p → NoLap k m p
  NoLap-IsFresh m idle f = tt
  NoLap-IsFresh m (checking tail seen item) f = tt
  NoLap-IsFresh m (claiming tail seen item) f = let pos = two_pow_pos k in omega arith
  NoLap-IsFresh m (writing tail claim item) f = tt
  NoLap-IsFresh m (publishing tail claim item) f = tt
  NoLap-IsFresh m (result b) f = tt

  producer_step-IsFresh :
      (m : Shared A) (p : Producer A)
      → IsFresh m p
      → IsFresh (producer_step k m p).0 (producer_step k m p).1
  unfolding producer_step
  producer_step-IsFresh m idle f = tt
  producer_step-IsFresh m (checking tail seen item) f = elim (Bool-cases (next k tail == m.head)) [
    | inl e ↦ rw e tt
    | inr e ↦ rw e f
  ]
  producer_step-IsFresh m (claiming tail seen item) f = elim (Bool-cases (m.tail == tail)) [
    | inl e ↦ rw e tt
    | inr e ↦ rw e refl
  ]
  producer_step-IsFresh m (writing tail claim item) f = tt
  producer_step-IsFresh m (publishing tail claim item) f = tt
  producer_step-IsFresh m (result b) f = tt

  run_producer-Inv :
      (n : ℕ) (m : Shared A) (p : Producer A) (c : Consumer A)
      → IsFresh m p
      → Inv k m (only p) c
      → let (m', p') = run_producer k n m p in Inv k m' (only p') c
  unfolding run_producer
  run_producer-Inv zero m p c f v = v
  run_producer-Inv (suc n) m p c f v =
      let step = producer_step-Inv k m (only p) c 0 p v refl (NoLap-IsFresh m p f) in
      run_producer-Inv n (producer_step k m p).0 (producer_step k m p).1 c
        (producer_step-IsFresh m p f)
        (subst (λ pc. Inv k (producer_step k m p).0 pc c) (only-update p (producer_step k m p).1)
          step)

  run_consumer-Inv :
      (n : ℕ) (m : Shared A) (pc : ℕ → Producer A) (c : Consumer A)
      → Inv k m pc c
      → let (m', c') = run_consumer k n m c in Inv k m' pc c'
  unfolding run_consumer
  run_consumer-Inv zero m pc c v = v
  run_consumer-Inv (suc n) m pc c v =
      run_consumer-Inv n (consumer_step k m c).0 pc (consumer_step k m c).1
        (consumer_step-Inv k m pc c v)

  -- No call is under way, and the items are those of the list.
  pub record IsSettled (m : Shared A) (pending : List A) : Type 0 where
    pub inv : Inv k m (only (result true)) resting
    pub holds : m.log ≡ m.out ++ pending
    pub filled : (i : ℕ) → length m.out ≤ i → i < length m.log → m.ready (slot k i) ≡ true

  only-replace :
      (m : Shared A) (p q : Producer A)
      → Inv k m (only p) resting
      → Owns k m (length m.out) q
      → claim_of k q ≡ none
      → Inv k m (only q) resting
  only-replace m p q v owns none_claimed =
      subst (λ pc. Inv k m pc resting) (only-update p q)
        (Inv-replace k m (only p) resting v 0 q owns none_claimed)

  -- Between calls, one more item fits unless the list holds one item less than there are slots.
  pub run_producer-IsSettled :
      (m : Shared A) (pending : List A) (item : A)
      → IsSettled m pending
      → let (m', p) = run_producer k 4 m (call_enqueue m item) in
        if length pending + 1 == 2 ^ k
        then (p ≡ result false) × IsSettled m' pending
        else (p ≡ result true) × IsSettled m' (pending ++ item ∷ [])
  unfolding call_enqueue
  run_producer-IsSettled m pending item s =
      let v = s.inv in
      let sized = ap length s.holds ∙ length-append m.out pending in
      let run = run_producer-call_enqueue k m (only (result true)) resting item v in
      elim (Bool-cases (length pending + 1 == 2 ^ k)) [
        | inl full ↦
            let same : (length m.log + 1 == length m.out + 2 ^ k) ≡ true = ground arith in
            rw (full, run, same) (refl, s)
        | inr free ↦
            let other : (length m.log + 1 == length m.out + 2 ^ k) ≡ false = ground arith in
            let done = run ∙ rw other refl in
            let called =
              only-replace m (result true) (checking m.tail (length m.log) item) v
                (v.tail_is, omega arith) refl in
            rw (free, run, other)
              (
                refl,
                record {
                  inv =
                      subst (λ r. Inv k r.0 (only r.1) resting) done
                        (run_producer-Inv 4 m (checking m.tail (length m.log) item) resting refl
                          called);
                  holds =
                      ap (λ log. log ++ item ∷ []) s.holds ∙ append_assoc m.out pending (item ∷ []);
                  filled = λ i from to. elim (Bool-cases (slot k i == m.tail)) [
                    | inl at ↦ rw at refl
                    | inr off ↦
                        let before : i < length m.log = elim (Bool-cases (i == length m.log)) [
                          | inl last ↦
                              let there : (slot k i == m.tail) ≡ true =
                                (==_iff _ _).1
                                  (ap (slot k) ((==_iff _ _).0 last) ∙ sym v.tail_is) in
                              ground arith
                          | inr earlier ↦ ground (arith, length-append m.log (item ∷ []))
                        ] in
                        rw off (s.filled i from before)
                  ];
                },
              )
      ]

  get_elem?-middle :
      (xs : List A) (a : A) (ys : List A) → get_elem? (xs ++ a ∷ ys) (length xs) ≡ some a
  get_elem?-middle [] a ys = refl
  get_elem?-middle (x ∷ xs) a ys = get_elem?-middle xs a ys

  -- If the ring stands for a list that is not empty and no other call is under way, a call of
  -- try_dequeue returns within six steps with the first item of the list, and the ring then
  -- stands for the rest.
  pub run_consumer-IsSettled :
      (m : Shared A) (item : A) (rest : List A)
      → IsSettled m (item ∷ rest)
      → let (m', c) = run_consumer k 6 m resting in
        (c ≡ resting) × (m'.out ≡ m.out ++ item ∷ []) × IsSettled m' rest
  run_consumer-IsSettled m item rest s =
      let v = s.inv in
      let sized = ap length s.holds ∙ length-append m.out (item ∷ rest) in
      let more : length m.out < length m.log = omega arith in
      let ready = ap m.ready v.head_is ∙ s.filled (length m.out) (omega arith) more in
      let alone = run_consumer-resting k m (only (result true)) v more ready in
      let taken : get_elem? m.log (length m.out) ≡ some item =
        ap (λ log. get_elem? log (length m.out)) s.holds ∙ get_elem?-middle m.out item rest in
      let same : alone.0 ≡ item = (let got = alone.1 in ground arith) in
      rw alone.2 (
        refl,
        ap (λ a. m.out ++ a ∷ []) same,
        record {
          inv =
              subst (λ r. Inv k r.0 (only (result true)) r.1) alone.2
                (run_consumer-Inv 6 m (only (result true)) resting v);
          holds =
              s.holds
              ∙ sym (append_assoc m.out (item ∷ []) rest)
              ∙ ap (λ a. (m.out ++ a ∷ []) ++ rest) (sym same);
          filled = λ i from to. elim (Bool-cases (slot k i == m.head)) [
            | inl at ↦
                let above : length m.out + 1 ≤ i =
                  omega (arith, length-append m.out (alone.0 ∷ [])) in
                let slots : slot k (length m.out) ≡ slot k i =
                  sym v.head_is ∙ sym ((==_iff _ _).0 at) in
                let room = v.room in
                let equal = slot-inj k (length m.out) i (omega arith) (omega arith) slots in
                absurd (omega arith)
            | inr off ↦ rw off (s.filled i (omega (arith, length-append m.out (alone.0 ∷ []))) to)
          ];
        },
      )

  -- Between calls, nothing is taken from an empty list.
  pub run_consumer_nothing :
      (m : Shared A) → IsSettled m [] → run_consumer k 2 m resting ≡ (m, resting)
  run_consumer_nothing m s =
      run_consumer_empty k m (only (result true)) s.inv
        (let sized = ap length s.holds ∙ length-append m.out [] in omega arith)

  -- The queue as it is made.
  pub initial-IsSettled : (blank : A) → IsSettled (initial blank).shared []
  unfolding initial
  initial-IsSettled blank = record {
    inv =
        Inv-replace k (initial blank).shared (λ _. idle) resting (Inv-initial k blank) 0
          (result true) tt refl;
    holds = refl;
    filled = λ i from to. absurd (omega arith);
  }

-- ===== src/CircularBuffer/Refine.antt =====
-- The operations, on a buffer that holds a list of items.
use foo_bar.Base.{
  ℕ, suc, ◌+◌, ◌-◌, ◌<◌, ◌^◌, ◌≡◌, ◌≢◌, refl, ◌∙◌, List, [], ◌∷◌, ◌++◌, none, some, ◌==◌,
  if◌then◌else◌, get_elem?, set, length, length-append, length-set, length-replicate, replicate,
  get_elem?-snoc, get_elem?-none, get_elem?-replicate, get_elem?-set, arith, ok, err, Bool, true,
  false, Bool-cases, inl, inr, ==_iff,
}
use foo_bar.CircularBuffer.{
  Buffer, next_tail, increment_head, increment_tail, push_back, append, overwrite, construct,
  assign, destroy, pop_front, init, reset_positions, raw_slot,
}
use foo_bar.CircularBuffer.Deque
use foo_bar.CircularBuffer.Holds.{Holds, Agrees, offset}

abbrev after : ℕ → ℕ → ℕ
after n head = if head + 1 == n then 0 else head + 1

-- One step of the head brings every other index one nearer.
offset-after :
    (n head i : ℕ) → head < n → i < n → i ≢ head → offset n head i ≡ suc (offset n (after n head) i)
offset-after n head i h k ne = ground arith

offset-after_self : (n head : ℕ) → head < n → offset n (after n head) head ≡ n - 1
offset-after_self n head h = ground arith

get_elem?-after {ℓ} :
    {A : Type ℓ} (y : A) (xs : List A) (n head i : ℕ)
    → head < n
    → i < n
    → i ≢ head
    → get_elem? (y ∷ xs) (offset n head i) ≡ get_elem? xs (offset n (after n head) i)
get_elem?-after y xs n head i h k ne = rw (offset-after n head i h k ne)

module _ {A : Type 0} where
  -- The constructor makes an empty buffer of the capacity.
  pub init-Holds :
      (n : ℕ)
      → 0 < n
      → n < 2 ^ 63
      → (b : Buffer A) × (init n ≡ ok b) × Holds b [] × (b.array_size ≡ n)
  unfolding init next_tail
  init-Holds n pos small = (
    reset_positions blank,
    ground arith,
    record {
      storage = length-replicate n none;
      small = small;
      head_in = ground arith;
      size_is = refl;
      fits = omega arith;
      next_is = ground arith;
      tail_in = pos;
      slot_is = λ i h. get_elem?-replicate n none i h;
    },
    refl,
  )
    where
      blank : Buffer A
      blank = record { slots = replicate n none; array_size = n; head = 0; tail = 0; size = 0 }

  next-lt : (b : Buffer A) (xs : List A) → Holds b xs → next_tail b < b.array_size
  unfolding next_tail
  next-lt b xs v = let t = v.tail_in in ground arith

  append-Holds :
      (b : Buffer A) (xs : List A) (x : A)
      → Holds b xs
      → length xs < b.array_size
      → (b' : Buffer A) × (append b x ≡ ok b')
        × Holds b' (xs ++ x ∷ [])
        × (b'.array_size ≡ b.array_size)
  unfolding append construct
  append-Holds b xs x v room = (
    record (increment_tail b) { slots = set b.slots (next_tail b) (some x) },
    ground (arith, v.slot_is (next_tail b), get_elem?-none xs (length xs)),
    record {
      storage = length-set b.slots (next_tail b) (some x) ∙ v.storage;
      small = v.small;
      head_in = v.head_in;
      size_is = omega (arith, length-append xs (x ∷ []));
      fits = omega (arith, length-append xs (x ∷ []));
      next_is = ground (arith, next-lt b xs v);
      tail_in = next-lt b xs v;
      slot_is = λ i h. ground (
        arith,
        get_elem?-set b.slots (next_tail b) i (some x),
        get_elem?-snoc xs x (offset b.array_size b.head i),
        v.slot_is i h,
        next-lt b xs v,
      );
    },
    refl,
  )

  overwrite-Holds :
      (b : Buffer A) (y x : A) (xs : List A)
      → Holds b (y ∷ xs)
      → b.size ≡ b.array_size
      → (b' : Buffer A) × (overwrite b x ≡ ok b')
        × Holds b' (xs ++ x ∷ [])
        × (b'.array_size ≡ b.array_size)
  unfolding overwrite assign
  overwrite-Holds b y x xs v full = (
    record (increment_tail (increment_head b)) { slots = set b.slots (next_tail b) (some x) },
    ground (arith, v.slot_is (next_tail b), next-lt b (y ∷ xs) v),
    record {
      storage = length-set b.slots (next_tail b) (some x) ∙ v.storage;
      small = v.small;
      head_in = ground arith;
      size_is = omega (arith, length-append xs (x ∷ []));
      fits = omega (arith, length-append xs (x ∷ []));
      next_is = ground (arith, next-lt b (y ∷ xs) v);
      tail_in = next-lt b (y ∷ xs) v;
      slot_is = λ i h. slot i h;
    },
    refl,
  )
    where
      new : Buffer A
      new = record (increment_tail (increment_head b)) {
        slots = set b.slots (next_tail b) (some x);
      }

      slot :
          (i : ℕ)
          → i < b.array_size
          → get_elem? new.slots i ≡ some (get_elem? (xs ++ x ∷ []) (offset b.array_size new.head i))
      slot i h = elim (Bool-cases (i == next_tail b)) [
        | inl e ↦ ground (
          arith,
          get_elem?-set b.slots (next_tail b) i (some x),
          get_elem?-snoc xs x (offset b.array_size new.head i),
          offset-after_self b.array_size b.head,
        )
        | inr e ↦ ground (
          arith,
          get_elem?-set b.slots (next_tail b) i (some x),
          get_elem?-snoc xs x (offset b.array_size new.head i),
          offset-after b.array_size b.head i,
          get_elem?-after y xs b.array_size b.head i,
          v.slot_is i h,
          next-lt b (y ∷ xs) v,
        )
      ]

  pop_front-Holds :
      (b : Buffer A) (y : A) (xs : List A)
      → Holds b (y ∷ xs)
      → (b' : Buffer A) × (pop_front b ≡ ok b') × Holds b' xs × (b'.array_size ≡ b.array_size)
  unfolding pop_front destroy next_tail
  pop_front-Holds b y xs v = (
    record (increment_head b) { slots = set b.slots b.head none },
    ground (arith, v.slot_is b.head),
    record {
      storage = length-set b.slots b.head none ∙ v.storage;
      small = v.small;
      head_in = ground arith;
      size_is = omega arith;
      fits = omega arith;
      next_is = v.next_is ∙ ground arith;
      tail_in = v.tail_in;
      slot_is = λ i h. slot i h;
    },
    refl,
  )
    where
      slot :
          (i : ℕ)
          → i < b.array_size
          → get_elem? (set b.slots b.head none) i
            ≡ some (get_elem? xs (offset b.array_size (after b.array_size b.head) i))
      slot i h = ground (
        arith,
        get_elem?-set b.slots b.head i none,
        offset-after_self b.array_size b.head,
        get_elem?-after y xs b.array_size b.head i,
        get_elem?-none xs (b.array_size - 1),
        v.slot_is i h,
      )

  pop_front-empty : (b : Buffer A) → Holds b [] → pop_front b ≡ err raw_slot
  unfolding pop_front destroy
  pop_front-empty b v = ground (arith, v.slot_is b.head)

  push_back_full :
      (accepts : Bool) (b : Buffer A) (xs : List A) (x : A)
      → Holds b xs
      → b.size ≡ b.array_size
      → Agrees b.array_size
          (if accepts then overwrite b x else ok b)
          (ok (if accepts then Deque.rest_of xs ++ x ∷ [] else xs))
  push_back_full false b xs x v e = (v, refl)
  push_back_full true b [] x v e = absurd (omega arith)
  push_back_full true b (y ∷ xs) x v e =
      let (b', returns, holds, cap) = overwrite-Holds b y x xs v e in rw returns (holds, cap)

  -- On a buffer that holds `xs`, `push_back` returns, without undefined behaviour, a buffer of the
  -- same capacity that holds what the bounded list holds after `push`: the new item behind the
  -- others, and in a full buffer without the oldest one or, by the other policy, not at all.
  pub push_back-Agrees :
      (accepts : Bool) (b : Buffer A) (xs : List A) (x : A)
      → Holds b xs
      → Agrees b.array_size (push_back accepts b x) (ok (Deque.push accepts b.array_size xs x))
  unfolding push_back
  push_back-Agrees accepts b xs x v = elim (Bool-cases (length xs == b.array_size)) [
    | inl e ↦
        let full : (b.size == b.array_size) ≡ true = ground arith in
        rw (full, e) (push_back_full accepts b xs x v (v.size_is ∙ (==_iff _ _).0 e))
    | inr e ↦
        let (b', returns, holds, cap) = append-Holds b xs x v (ground arith) in
        let room : (b.size == b.array_size) ≡ false = ground arith in
        rw (room, e, returns) (holds, cap)
  ]

  -- On a buffer that holds `xs`, `pop_front` removes the oldest item and keeps the capacity; on an
  -- empty buffer it destroys an object where there is none.
  pub pop_front-Agrees :
      (b : Buffer A) (xs : List A) → Holds b xs → Agrees b.array_size (pop_front b) (Deque.pop xs)
  pop_front-Agrees b [] v = rw (pop_front-empty b v) refl
  pop_front-Agrees b (x ∷ xs) v =
      let (b', returns, holds, cap) = pop_front-Holds b x xs v in rw returns (holds, cap)

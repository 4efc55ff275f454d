-- ===== src/CircularBuffer/Grow.antt =====
-- Moving the items to a larger storage.
use foo_bar.Base.{
  ℕ, ◌+◌, ◌≤◌, ◌<◌, ◌^◌, max, ◌≡◌, refl, ◌∙◌, List, [], ◌∷◌, ◌++◌, append-nil, append_assoc, ltb,
  ◌==◌, if◌then◌else◌, length, length-append, subst, arith, ok, err, Bool, true, false, Bool-cases,
  inl, inr,
}
use foo_bar.CircularBuffer.{
  Buffer, Outcome, push_all, push_back, assign_into, reserve, reallocate, grown_capacity,
  push_and_reserve, of_range,
}
use foo_bar.CircularBuffer.Holds.{Holds, Agrees}
use foo_bar.CircularBuffer.Refine.{push_back-Agrees, init-Holds}
use foo_bar.CircularBuffer.Whole.{elements-Holds, destroy_all}

module _ {A : Type 0} where
  -- A buffer that a call returns: it holds `xs` at capacity `cap`.
  abbrev pub Gives : Outcome (Buffer A) → List A → ℕ → Type 0
  Gives o xs cap = (b : Buffer A) × (o ≡ ok b) × Holds b xs × (b.array_size ≡ cap)

  Agrees-Gives :
      (cap : ℕ) (o : Outcome (Buffer A)) (xs : List A) → Agrees cap o (ok xs) → Gives o xs cap
  Agrees-Gives cap (ok b) xs (h, e) = (b, refl, h, e)
  Agrees-Gives cap (err f) xs h = absurd h

  push_back-room :
      (accepts : Bool) (b : Buffer A) (xs : List A) (x : A)
      → Holds b xs
      → length xs < b.array_size
      → Gives (push_back accepts b x) (xs ++ x ∷ []) b.array_size
  push_back-room accepts b xs x v h =
      let room : (length xs == b.array_size) ≡ false = ground arith in
      Agrees-Gives b.array_size (push_back accepts b x) (xs ++ x ∷ []) (
        subst (λ ys. Agrees b.array_size (push_back accepts b x) (ok ys)) (rw room)
          (push_back-Agrees accepts b xs x v))

  push_all-Gives :
      (accepts : Bool) (b : Buffer A) (xs ys : List A)
      → Holds b xs
      → length xs + length ys ≤ b.array_size
      → Gives (push_all accepts b ys) (xs ++ ys) b.array_size
  unfolding push_all
  push_all-Gives accepts b xs [] v h = (b, refl, rw append-nil v, refl)
  push_all-Gives accepts b xs (y ∷ ys) v h =
      let (b', one, v', cap) = push_back-room accepts b xs y v (omega arith) in
      let (b'', rest, v'', cap') =
        push_all-Gives accepts b' (xs ++ y ∷ []) ys v' (omega (arith, length-append xs (y ∷ []))) in
      (b'', rw one rest, subst (Holds b'') (append_assoc xs (y ∷ []) ys) v'', cap' ∙ cap)

  -- An empty buffer is not cleared first.
  assign_into-Gives :
      (accepts : Bool) (b : Buffer A) (xs : List A)
      → Holds b []
      → length xs ≤ b.array_size
      → Gives (assign_into accepts b xs) xs b.array_size
  unfolding assign_into
  assign_into-Gives accepts b xs v h =
      let empty : (b.size == 0) ≡ true = ground arith in
      rw empty (push_all-Gives accepts b [] xs v (omega arith))

  reallocate-Gives :
      (accepts : Bool) (b : Buffer A) (xs : List A) (n : ℕ)
      → Holds b xs
      → b.array_size < n
      → n < 2 ^ 63
      → Gives (reallocate accepts b n) xs n
  unfolding reallocate
  reallocate-Gives accepts b xs n v h small =
      let (e, made, ve, cap) = init-Holds n (omega arith) small in
      let (b', filled, v', cap') = assign_into-Gives accepts e xs ve (omega arith) in
      let (slots, gone, c) = destroy_all b xs v in
      (b', rw (made, elements-Holds b xs v, filled, gone), v', cap' ∙ cap)

  -- `reserve` keeps the items, and the capacity becomes the requested one if that is larger.
  pub reserve-Gives :
      (accepts : Bool) (b : Buffer A) (xs : List A) (n : ℕ)
      → Holds b xs
      → n < 2 ^ 63
      → Gives (reserve accepts b n) xs (max b.array_size n)
  unfolding reserve
  reserve-Gives accepts b xs n v small = elim (Bool-cases (ltb b.array_size n)) [
    | inl e ↦ rw e (
        subst (Gives (reallocate accepts b n) xs) (ground arith)
          (reallocate-Gives accepts b xs n v (ground arith) small))
    | inr e ↦ rw e (b, refl, v, ground arith)
  ]

  grow-Gives :
      (accepts : Bool) (b : Buffer A) (xs : List A)
      → Holds b xs
      → length xs < 2 ^ 62
      → (b' : Buffer A) × ((if b.size == b.array_size
            then reserve accepts b (grown_capacity b.array_size)
            else ok b)
          ≡ ok b')
        × Holds b' xs
        × (length xs < b'.array_size)
  grow-Gives accepts b xs v h = elim (Bool-cases (b.size == b.array_size)) [
    | inl e ↦
        let (b', grown, v', cap) =
          reserve-Gives accepts b xs (grown_capacity b.array_size) v
            (small b v.fits (ground arith) h) in
        rw e (b', grown, v', unfold grown_capacity in omega arith)
    | inr e ↦ rw e (b, refl, v, ground arith)
  ]
    where
      small :
          (b : Buffer A)
          → length xs ≤ b.array_size
          → b.array_size ≡ length xs
          → length xs < 2 ^ 62
          → grown_capacity b.array_size < 2 ^ 63
      small b f e h = unfold grown_capacity in omega arith

  push_and_reserve-Holds :
      (accepts : Bool) (b : Buffer A) (xs ys : List A)
      → Holds b xs
      → length xs + length ys < 2 ^ 62
      → (b' : Buffer A) × (push_and_reserve accepts b ys ≡ ok b') × Holds b' (xs ++ ys)
  unfolding push_and_reserve
  push_and_reserve-Holds accepts b xs [] v h = (b, refl, rw append-nil v)
  push_and_reserve-Holds accepts b xs (y ∷ ys) v h =
      let (b', grown, v', room) = grow-Gives accepts b xs v (omega arith) in
      let (b'', one, v'', _) = push_back-room accepts b' xs y v' room in
      let (c, rest, vc) =
        push_and_reserve-Holds accepts b'' (xs ++ y ∷ []) ys v''
          (omega (arith, length-append xs (y ∷ []))) in
      (c, rw (grown, one) rest, subst (Holds c) (append_assoc xs (y ∷ []) ys) vc)

  -- The constructor from a range returns, without undefined behaviour, a buffer that holds the
  -- whole range in order, for a range of fewer than 2^62 items: growing loses none, by either
  -- policy.
  pub of_range-Holds :
      (accepts : Bool) (items : List A)
      → length items < 2 ^ 62
      → (b : Buffer A) × (of_range accepts items ≡ ok b) × Holds b items
  unfolding of_range
  of_range-Holds accepts items h =
      let (e, made, ve, _) = init-Holds {A = A} 1 (omega arith) (omega arith) in
      rw made (push_and_reserve-Holds accepts e [] items ve (omega arith))

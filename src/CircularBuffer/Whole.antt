-- ===== src/CircularBuffer/Whole.antt =====
-- The operations that walk over a whole buffer: iteration, `clear`, `reserve`, and the constructor
-- from a range.
use native.Mathlib.Numerals.{add-one}
use foo_bar.Base.{
  ℕ, zero, suc, ◌+◌, ◌<◌, ◌≡◌, ◌≢◌, refl, ap, ◌∙◌, List, [], ◌∷◌, Option, none, some, drop, ltb,
  if◌then◌else◌, get_elem?, set, length, get_elem?-set, length-set, get_elem?-some, get_elem?-none,
  subst, arith, ok,
}
use foo_bar.CircularBuffer.{
  Buffer, destroy, read_from, elements, destroy_from, clear, index_to_subscript, next_tail,
  reset_positions,
}
use foo_bar.CircularBuffer.Holds.{Holds, wrap, offset}
use foo_bar.CircularBuffer.Access.{read-Holds, index_to_subscript-wrap, offset-wrap}

offset_ne :
    (size head n i : ℕ)
    → head < size
    → i < size
    → n < size
    → i ≢ wrap size (head + n)
    → offset size head i ≢ n
offset_ne size head n i h k l ne = ground arith

module _ {A : Type 0} where
  get_elem?-drop :
      (xs : List A) (n : ℕ) (x : A) (ys : List A) → drop n xs ≡ x ∷ ys → get_elem? xs n ≡ some x
  get_elem?-drop xs zero x ys h = rw h
  get_elem?-drop [] (suc n) x ys h = cc
  get_elem?-drop (y ∷ xs) (suc n) x ys h = get_elem?-drop xs n x ys h

  drop-suc : (xs : List A) (n : ℕ) (x : A) (ys : List A) → drop n xs ≡ x ∷ ys → drop (n + 1) xs ≡ ys
  drop-suc xs n x ys h = rw add-one (go xs n h)
    where
      go : (xs : List A) (n : ℕ) → drop n xs ≡ x ∷ ys → drop (suc n) xs ≡ ys
      go [] zero h = cc
      go [] (suc n) h = cc
      go (z ∷ zs) zero h = cc
      go (z ∷ zs) (suc n) h = go zs n h

  read_from-Holds :
      (b : Buffer A) (xs ys : List A) (n : ℕ)
      → Holds b xs
      → drop n xs ≡ ys
      → read_from b n (length ys) ≡ ok ys
  unfolding read_from
  read_from-Holds b xs [] n v h = refl
  read_from-Holds b xs (y ∷ ys) n v h = rw (
    read-Holds b xs n y v (get_elem?-drop xs n y ys h),
    read_from-Holds b xs ys (n + 1) v (drop-suc xs n y ys h),
  )

  -- The iterators give the items, oldest first.
  pub elements-Holds : (b : Buffer A) (xs : List A) → Holds b xs → elements b ≡ ok xs
  unfolding elements
  elements-Holds b xs v = ap (read_from b 0) v.size_is ∙ read_from-Holds b xs xs 0 v refl

  -- The slots once the first `n` items are destroyed.
  pub Cleared : Buffer A → List A → ℕ → List (Option A) → Type 0
  Cleared b xs n slots =
      (length slots ≡ b.array_size)
      × ((i : ℕ)
          → i < b.array_size
          → get_elem? slots i
            ≡ some (
                if ltb (offset b.array_size b.head i) n
                then none
                else get_elem? xs (offset b.array_size b.head i)))

  destroy-Cleared :
      (b : Buffer A) (xs : List A) (n : ℕ) (slots : List (Option A))
      → Holds b xs
      → n < length xs
      → Cleared b xs n slots
      → (slots' : List (Option A)) × (destroy slots (index_to_subscript b n) ≡ ok slots')
        × Cleared b xs (n + 1) slots'
  unfolding destroy Cleared
  destroy-Cleared b xs n slots v h (len, c) =
      let j = wrap b.array_size (b.head + n) in
      let here : offset b.array_size b.head j ≡ n =
        offset-wrap b.array_size b.head n v.head_in (omega arith) in
      rw (index_to_subscript-wrap b xs n v h) (
        set slots j none,
        ground (arith, c j, here, get_elem?-some xs n h),
        (
          length-set slots j none ∙ len,
          λ i k.
              ground (
                arith,
                get_elem?-set slots j i none,
                c i k,
                here,
                offset_ne b.array_size b.head n i,
              ),
        ),
      )

  destroy_from-Cleared :
      (b : Buffer A) (xs : List A) (n rounds : ℕ) (slots : List (Option A))
      → Holds b xs
      → n + rounds ≡ length xs
      → Cleared b xs n slots
      → (slots' : List (Option A)) × (destroy_from b n rounds slots ≡ ok slots')
        × Cleared b xs (length xs) slots'
  unfolding destroy_from
  destroy_from-Cleared b xs n zero slots v e c =
      (slots, refl, subst (λ k. Cleared b xs k slots) (omega arith) c)
  destroy_from-Cleared b xs n (suc rounds) slots v e c =
      let (slots', one, c') = destroy-Cleared b xs n slots v (omega arith) c in
      let (slots'', rest, c'') =
        destroy_from-Cleared b xs (n + 1) rounds slots' v (omega arith) c' in
      (slots'', rw one rest, c'')

  pub destroy_all :
      (b : Buffer A) (xs : List A)
      → Holds b xs
      → (slots : List (Option A)) × (destroy_from b 0 b.size b.slots ≡ ok slots)
        × Cleared b xs (length xs) slots
  destroy_all b xs v =
      let (slots, e, c) = destroy_from-Cleared b xs 0 (length xs) b.slots v (omega arith) start in
      (slots, ap (λ k. destroy_from b 0 k b.slots) v.size_is ∙ e, c)
    where
      start : Cleared b xs 0 b.slots
      start = unfold Cleared in (v.storage, λ i h. ground (arith, v.slot_is i h))

  -- `clear` destroys each item once and leaves an empty buffer of the same capacity.
  pub clear-Holds :
      (b : Buffer A) (xs : List A)
      → Holds b xs
      → (b' : Buffer A) × (clear b ≡ ok b') × Holds b' [] × (b'.array_size ≡ b.array_size)
  unfolding clear next_tail
  clear-Holds b xs v =
      let (slots, e, c) = destroy_all b xs v in
      (reset_positions (record b { slots = slots }), rw e, empty slots c, refl)
    where
      empty :
          (slots : List (Option A))
          → Cleared b xs (length xs) slots
          → Holds (reset_positions (record b { slots = slots })) []
      empty slots c =
          unfold Cleared in
          record {
            storage = c.0;
            small = v.small;
            head_in = ground arith;
            size_is = refl;
            fits = omega arith;
            next_is = ground arith;
            tail_in = omega arith;
            slot_is =
                λ i h. ground (arith, c.1 i h, get_elem?-none xs (offset b.array_size b.head i));
          }

-- ===== src/CircularBuffer/Compare.antt =====
-- fb_core/include/fb/circular_buffer.h: `swap` and the comparison operators. The item type's own
-- `operator==` is a parameter.
use foo_bar.Base.{
  ◌≡◌, refl, ap, ◌↔◌, Bool, true, false, not, List, [], ◌∷◌, ◌==◌, if◌then◌else◌, ok, ◌>>=◌, length,
  arith, Bool-cases, inl, inr, subst, Result_ok,
}
use foo_bar.CircularBuffer.{Buffer, Outcome, elements}
use foo_bar.CircularBuffer.Holds.{Holds}
use foo_bar.CircularBuffer.Whole.{elements-Holds}

not-false : (t : Bool) → not t ≡ false → t ≡ true
not-false true h = refl
not-false false h = cc

module _ {A : Type 0} where
  -- Each member of the one buffer changes places with that of the other.
  unfoldable pub swap : Buffer A → Buffer A → Buffer A × Buffer A
  swap this other = (
    record {
      slots = other.slots;
      array_size = other.array_size;
      head = other.head;
      tail = other.tail;
      size = other.size;
    },
    record {
      slots = this.slots;
      array_size = this.array_size;
      head = this.head;
      tail = this.tail;
      size = this.size;
    },
  )

  module _ (same_item : A → A → Bool) where
    -- `std::equal`, which goes on to the end of the first range.
    unfoldable pub equal_ranges : List A → List A → Bool
    equal_ranges [] ys = true
    equal_ranges (x ∷ xs) [] = false
    equal_ranges (x ∷ xs) (y ∷ ys) =
        let rest = equal_ranges xs ys in if same_item x y then rest else false

    -- The ranges of two buffers, compared.
    unfoldable pub ranges_equal : Buffer A → Buffer A → Outcome Bool
    ranges_equal a b = elements a >>= λ xs. elements b >>= λ ys. ok (equal_ranges xs ys)

    -- `operator==`
    unfoldable pub equals : Buffer A → Buffer A → Outcome Bool
    equals a b = if a.size == b.size then ranges_equal a b else ok false

    -- `operator!=`
    unfoldable pub differs : Buffer A → Buffer A → Outcome Bool
    differs a b =
        if not (a.size == b.size) then ok true else ranges_equal a b >>= λ same. ok (not same)

    module _ (same_item_iff : (x y : A) → (same_item x y ≡ true) ↔ (x ≡ y)) where
      equal_ranges_sound :
          (xs ys : List A) → length xs ≡ length ys → equal_ranges xs ys ≡ true → xs ≡ ys
      unfolding equal_ranges
      equal_ranges_sound [] [] h e = refl
      equal_ranges_sound [] (y ∷ ys) h e = absurd (omega arith)
      equal_ranges_sound (x ∷ xs) [] h e = absurd (omega arith)
      equal_ranges_sound (x ∷ xs) (y ∷ ys) h e = elim (Bool-cases (same_item x y)) [
        | inl s ↦
            let one = (same_item_iff x y).0 s in
            let rest = equal_ranges_sound xs ys (omega arith) (ground arith) in λ i. one i ∷ rest i
        | inr s ↦ absurd (ground arith)
      ]

      equal_ranges_self : (xs : List A) → equal_ranges xs xs ≡ true
      unfolding equal_ranges
      equal_ranges_self [] = refl
      equal_ranges_self (x ∷ xs) = rw ((same_item_iff x x).1 refl) (equal_ranges_self xs)

      ranges_equal-Holds :
          (a b : Buffer A) (xs ys : List A)
          → Holds a xs
          → Holds b ys
          → ranges_equal a b ≡ ok (equal_ranges xs ys)
      unfolding ranges_equal
      ranges_equal-Holds a b xs ys va vb = rw (elements-Holds a xs va, elements-Holds b ys vb)

      -- Buffers compare as the lists that they hold, wherever their heads are and whatever their
      -- capacities: `==` is true exactly if the items are the same, and `!=` is false then.
      pub equals-Holds :
          (a b : Buffer A) (xs ys : List A)
          → Holds a xs
          → Holds b ys
          → ((equals a b ≡ ok true) ↔ (xs ≡ ys)) × ((differs a b ≡ ok false) ↔ (xs ≡ ys))
      unfolding equals differs
      equals-Holds a b xs ys va vb =
          let ranges = ranges_equal-Holds a b xs ys va vb in
          elim (Bool-cases (a.size == b.size)) [
            | inl e ↦
                let sizes : length xs ≡ length ys = ground arith in
                let back : xs ≡ ys → equal_ranges xs ys ≡ true =
                  λ h. subst (λ zs. equal_ranges xs zs ≡ true) h (equal_ranges_self xs) in
                rw (e, ranges)
                  (
                    (λ h. equal_ranges_sound xs ys sizes (Result_ok h), λ h. ap ok (back h)),
                    (
                      λ h.
                          equal_ranges_sound xs ys sizes
                            (not-false (equal_ranges xs ys) (Result_ok h)),
                      λ h. ap (λ t. ok (not t)) (back h),
                    ),
                  )
            | inr e ↦
                let apart : xs ≡ ys → ⊥ = λ h. let sizes = ap length h in ground arith in
                rw e
                  ((λ h. absurd cc, λ h. absurd (apart h)), (λ h. absurd cc, λ h. absurd (apart h)))
          ]

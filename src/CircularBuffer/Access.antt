-- ===== src/CircularBuffer/Access.antt =====
-- fb_core/include/fb/circular_buffer.h: access by position.
use native.Mathlib.Nat.{mod-eq_of_lt, mod-eq-sub-mod}
use foo_bar.Base.{
  ℕ, ◌+◌, ◌%◌, ◌<◌, ◌≡◌, ap, ◌∙◌, List, some, leb, get_elem?, length, get_elem?-lt, get_elem?-some,
  Option-cases, arith, ok, Bool-cases, inl, inr,
}
use foo_bar.CircularBuffer.{Buffer, size_max, index_to_subscript, read, at_checked}
use foo_bar.CircularBuffer.Deque
use foo_bar.CircularBuffer.Holds.{Holds, wrap, offset}

pub offset-wrap : (n head i : ℕ) → head < n → i < n → offset n head (wrap n (head + i)) ≡ i
offset-wrap n head i h k = ground arith

module _ {A : Type 0} where
  pub index_to_subscript-wrap :
      (b : Buffer A) (xs : List A) (i : ℕ)
      → Holds b xs
      → i < length xs
      → index_to_subscript b i ≡ wrap b.array_size (b.head + i)
  unfolding index_to_subscript
  index_to_subscript-wrap b xs i v h =
      let exact : (i + b.head) % size_max ≡ b.head + i = omega arith in
      rw exact (elim (Bool-cases (leb b.array_size (b.head + i))) [
        | inl e ↦ rw e (
            mod-eq-sub-mod {n = b.head + i} {m = b.array_size} (ground arith)
            ∙ mod-eq_of_lt (omega arith))
        | inr e ↦ rw e (mod-eq_of_lt (ground arith))
      ])

  -- The object at a position in range.
  pub read-Holds :
      (b : Buffer A) (xs : List A) (i : ℕ) (x : A)
      → Holds b xs
      → get_elem? xs i ≡ some x
      → read b.slots (index_to_subscript b i) ≡ ok x
  unfolding read
  read-Holds b xs i x v e =
      let h = get_elem?-lt xs i e in
      let at_i = v.slot_is (wrap b.array_size (b.head + i)) (ground arith) in
      let stored =
        at_i
        ∙ ap (λ k. some (get_elem? xs k))
            (offset-wrap b.array_size b.head i v.head_in (omega arith))
        ∙ ap some e in
      rw (index_to_subscript-wrap b xs i v h) (ground (arith, stored))

  -- On a buffer that holds `xs`, `at` returns the item at the index, counted from the oldest, and
  -- throws `out_of_range` with the index and the size if there is none.
  pub at_checked-Holds :
      (b : Buffer A) (xs : List A) (i : ℕ) → Holds b xs → at_checked b i ≡ Deque.at xs i
  unfolding at_checked
  at_checked-Holds b xs i v = elim (Option-cases (get_elem? xs i)) [
    | inl e ↦ ground (arith, get_elem?-some xs i)
    | inr (x, e) ↦ ground (arith, read-Holds b xs i x v e, get_elem?-lt xs i e)
  ]

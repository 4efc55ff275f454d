-- ===== src/CircularBuffer/Copy.antt =====
-- The copy constructor gives the new object the positions of the other one before its storage holds
-- an object, and `assign_into` then calls `clear`.
use native.Mathlib.Nat.{mod-lt}
use foo_bar.Base.{
  ℕ, suc, ◌<◌, ◌≡◌, refl, List, ◌∷◌, Option, none, length, replicate, get_elem?-replicate, arith,
  err, Bool, ◌==◌, false, ap, ◌∙◌, ◌+◌, ◌%◌,
}
use foo_bar.CircularBuffer.{
  Buffer, copy, assign_into, clear, destroy_from, destroy, raw_slot, size_max,
}
use foo_bar.CircularBuffer.Holds.{Holds}
use foo_bar.CircularBuffer.Whole.{elements-Holds}

module _ {A : Type 0} where
  destroy-raw : (n i : ℕ) → i < n → destroy (replicate {A = Option A} n none) i ≡ err raw_slot
  unfolding destroy
  destroy-raw n i h = ground (arith, get_elem?-replicate {A = Option A} n none i h)

  destroy_from-raw :
      (b : Buffer A) (n : ℕ)
      → 0 < b.array_size
      → destroy_from b 0 (suc n) (replicate b.array_size none) ≡ err raw_slot
  unfolding destroy_from
  destroy_from-raw b n pos =
      rw (destroy-raw b.array_size ((0 + b.head) % size_max % b.array_size) (mod-lt _ pos))

  -- `clear`, on a buffer of raw memory whose size is not zero.
  clear-raw :
      (b : Buffer A) (n : ℕ)
      → b.slots ≡ replicate b.array_size none
      → 0 < b.array_size
      → b.size ≡ suc n
      → clear b ≡ err raw_slot
  unfolding clear
  clear-raw b n raw pos size =
      let first : destroy_from b 0 b.size b.slots ≡ err raw_slot =
        ap (λ k. destroy_from b 0 k b.slots) size
        ∙ ap (destroy_from b 0 (suc n)) raw
        ∙ destroy_from-raw b n pos in
      rw first

  -- Copying a well-formed buffer that holds an item destroys an object where there is none.
  pub copy-raw_slot :
      (accepts : Bool) (b : Buffer A) (x : A) (xs : List A)
      → Holds b (x ∷ xs)
      → copy accepts b ≡ err raw_slot
  unfolding copy assign_into
  copy-raw_slot accepts b x xs v =
      let used : (b.size == 0) ≡ false = ground arith in
      let new = record b { slots = replicate b.array_size none } in
      rw (elements-Holds b (x ∷ xs) v, used, clear-raw new (length xs) refl (omega arith) v.size_is)

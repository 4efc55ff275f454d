-- ===== src/CircularBuffer/Deque.antt =====
-- What a circular buffer of capacity `cap` promises: a list of at most `cap` items, oldest first.
use foo_bar.Base.{
  ℕ, Bool, List, [], ◌∷◌, ◌++◌, some, none, ok, err, ◌==◌, if◌then◌else◌, get_elem?, length,
}
use foo_bar.CircularBuffer.{Outcome, raw_slot, out_of_range}

module _ {A : Type 0} where
  abbrev pub rest_of : List A → List A
  rest_of [] = []
  rest_of (x ∷ xs) = xs

  -- A full buffer drops its oldest item, or refuses the new one.
  abbrev pub push : Bool → ℕ → List A → A → List A
  push accepts cap xs x =
      if length xs == cap then if accepts then rest_of xs ++ x ∷ [] else xs else xs ++ x ∷ []

  abbrev pub pop : List A → Outcome (List A)
  pop [] = err raw_slot
  pop (x ∷ xs) = ok xs

  abbrev pub at : List A → ℕ → Outcome A
  at xs i = elim (get_elem? xs i) [ none ↦ err (out_of_range i (length xs)) | some x ↦ ok x ]

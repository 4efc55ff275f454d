-- ===== src/CircularBuffer/Holds.antt =====
-- Which list of items a buffer holds.
use foo_bar.Base.{
  ℕ, ◌+◌, ◌-◌, ◌≤◌, ◌<◌, ◌≡◌, List, some, leb, if◌then◌else◌, get_elem?, length, ok, err, ◌^◌,
}
use foo_bar.CircularBuffer.{Buffer, Outcome, next_tail}

-- A position behind the head, as an index of an array of `n` slots.
abbrev pub wrap : ℕ → ℕ → ℕ
wrap n k = if leb n k then k - n else k

-- How far index `i` lies behind the head.
abbrev pub offset : ℕ → ℕ → ℕ → ℕ
offset n head i = if leb head i then i - head else i + n - head

-- The buffer is well formed and holds the items `xs`, oldest first: the slot that lies `k` behind
-- the head holds the `k`-th item if there is one, and is raw otherwise.
pub record Holds {A : Type 0} (b : Buffer A) (xs : List A) : Type 0 where
  pub storage : length b.slots ≡ b.array_size
  pub small : b.array_size < 2 ^ 63
  pub head_in : b.head < b.array_size
  pub size_is : b.size ≡ length xs
  pub fits : length xs ≤ b.array_size
  pub next_is : next_tail b ≡ wrap b.array_size (b.head + b.size)
  pub tail_in : b.tail < b.array_size
  pub slot_is :
      (i : ℕ)
      → i < b.array_size
      → get_elem? b.slots i ≡ some (get_elem? xs (offset b.array_size b.head i))

-- A call on a buffer of capacity `cap` agrees with a call on the list: both return, the buffer has
-- the same capacity and holds the list, or both end with the same error.
abbrev pub Agrees : {A : Type 0} → ℕ → Outcome (Buffer A) → Outcome (List A) → Type 0
Agrees cap (ok b) (ok xs) = Holds b xs × (b.array_size ≡ cap)
Agrees cap (ok b) (err e) = ⊥
Agrees cap (err e) (ok xs) = ⊥
Agrees cap (err e) (err f) = e ≡ f

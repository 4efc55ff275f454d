-- ===== src/CircularBuffer.antt =====
-- fb_core/include/fb/circular_buffer.h, the class template `circular_buffer<T, policy, Alloc>`. A
-- slot of the storage is raw memory or holds an object, so that an access that the standard leaves
-- undefined is an error value. The proofs are in the modules below.
pub mod Deque
pub mod Holds
pub mod Access
pub mod Whole
pub mod Grow
pub mod Refine
pub mod Copy
pub mod Compare
mod Tests
use foo_bar.Base.{
  ℕ, zero, suc, ◌+◌, ◌-◌, ◌/◌, ◌%◌, ◌^◌, max, Bool, List, [], ◌∷◌, Option, none, some, Result, ok,
  err, leb, ltb, ◌==◌, if◌then◌else◌, ◌>>=◌, get_elem?, set, replicate,
}

pub data Fault : Type 0 where
  -- Undefined behaviour: an object is used where there is none, made where there is one, or the
  -- access is outside the storage.
  raw_slot live_slot outside : Fault
  -- The exceptions `std::out_of_range` and `std::invalid_argument`.
  out_of_range : ℕ → ℕ → Fault
  invalid_capacity : Fault

abbrev pub Outcome : Type 0 → Type 0
Outcome A = Result Fault A

abbrev pub size_max : ℕ
size_max = 2 ^ 64

pub record Buffer (A : Type 0) : Type 0 where
  pub slots : List (Option A)
  pub array_size : ℕ
  pub head : ℕ
  pub tail : ℕ
  pub size : ℕ

-- `static_cast<size_t>(m_arraySize * 1.5)` is exact for the capacities that a `double` holds.
unfoldable pub grown_capacity : ℕ → ℕ
grown_capacity n = max (n + 1) (n + n / 2)

module _ {A : Type 0} where
  -- An object is read where one lives.
  unfoldable pub read : List (Option A) → ℕ → Outcome A
  read slots i = elim (get_elem? slots i) [
    | none ↦ err outside
    | some none ↦ err raw_slot
    | some (some a) ↦ ok a
  ]

  -- `allocator_traits::construct`
  unfoldable pub construct : List (Option A) → ℕ → A → Outcome (List (Option A))
  construct slots i a = elim (get_elem? slots i) [
    | none ↦ err outside
    | some none ↦ ok (set slots i (some a))
    | some (some old) ↦ err live_slot
  ]

  -- `m_data[i] = item`
  unfoldable pub assign : List (Option A) → ℕ → A → Outcome (List (Option A))
  assign slots i a = elim (get_elem? slots i) [
    | none ↦ err outside
    | some none ↦ err raw_slot
    | some (some old) ↦ ok (set slots i (some a))
  ]

  -- `allocator_traits::destroy`
  unfoldable pub destroy : List (Option A) → ℕ → Outcome (List (Option A))
  destroy slots i = elim (get_elem? slots i) [
    | none ↦ err outside
    | some none ↦ err raw_slot
    | some (some old) ↦ ok (set slots i none)
  ]

  unfoldable pub next_tail : Buffer A → ℕ
  next_tail b = if b.tail + 1 == b.array_size then 0 else b.tail + 1

  unfoldable pub increment_tail : Buffer A → Buffer A
  unfolding next_tail
  increment_tail b = record b { size = (b.size + 1) % size_max; tail = next_tail b }

  -- `--m_size` wraps at zero.
  unfoldable pub increment_head : Buffer A → Buffer A
  increment_head b = record b {
    head = if b.head + 1 == b.array_size then 0 else b.head + 1;
    size = (b.size + size_max - 1) % size_max;
  }

  unfoldable pub reset_positions : Buffer A → Buffer A
  reset_positions b = record b { head = if ltb 1 b.array_size then 1 else 0; tail = 0; size = 0 }

  -- `circular_buffer(size_t capacity)`
  unfoldable pub init : ℕ → Outcome (Buffer A)
  unfolding reset_positions
  init capacity =
      if capacity == 0
      then err invalid_capacity
      else ok (
          reset_positions (record {
            slots = replicate capacity none;
            array_size = capacity;
            head = 0;
            tail = 0;
            size = 0;
          }))

  unfoldable pub index_to_subscript : Buffer A → ℕ → ℕ
  index_to_subscript b index = (index + b.head) % size_max % b.array_size

  -- `at`: `validate_index`, then `at_unchecked`.
  unfoldable pub at_checked : Buffer A → ℕ → Outcome A
  unfolding index_to_subscript
  at_checked b index =
      if leb b.size index
      then err (out_of_range index b.size)
      else read b.slots (index_to_subscript b index)

  unfoldable pub front : Buffer A → Outcome A
  front b = read b.slots b.head

  unfoldable pub back : Buffer A → Outcome A
  back b = read b.slots b.tail

  -- `push_back` into a full buffer: the oldest item is replaced.
  unfoldable pub overwrite : Buffer A → A → Outcome (Buffer A)
  unfolding next_tail increment_head increment_tail
  overwrite b item = do
    slots ← assign b.slots (next_tail b) item
    ok (increment_tail (increment_head (record b { slots = slots })))

  -- `push_back` into a buffer with a free slot.
  unfoldable pub append : Buffer A → A → Outcome (Buffer A)
  unfolding next_tail increment_tail
  append b item = do
    slots ← construct b.slots (next_tail b) item
    ok (increment_tail (record b { slots = slots }))

  -- The template argument `always_accept_data_when_full` comes first.
  unfoldable pub push_back : Bool → Buffer A → A → Outcome (Buffer A)
  push_back accepts b item =
      if b.size == b.array_size then if accepts then overwrite b item else ok b else append b item

  unfoldable pub pop_front : Buffer A → Outcome (Buffer A)
  unfolding increment_head
  pop_front b = destroy b.slots b.head >>= λ slots. ok (record (increment_head b) { slots = slots })

  -- The loop of `clear` and of `destroy_all_elements`, from `n` on, with `rounds` rounds left.
  unfoldable pub destroy_from : Buffer A → ℕ → ℕ → List (Option A) → Outcome (List (Option A))
  unfolding index_to_subscript
  destroy_from b n zero slots = ok slots
  destroy_from b n (suc rounds) slots =
      destroy slots (index_to_subscript b n) >>= destroy_from b (n + 1) rounds

  unfoldable pub clear : Buffer A → Outcome (Buffer A)
  unfolding destroy_from reset_positions
  clear b =
      destroy_from b 0 b.size b.slots >>= λ slots. ok (reset_positions (record b { slots = slots }))

  -- What the iterators from position `n` on read, with `rounds` positions left.
  unfoldable pub read_from : Buffer A → ℕ → ℕ → Outcome (List A)
  unfolding index_to_subscript
  read_from b n zero = ok []
  read_from b n (suc rounds) = read b.slots (index_to_subscript b n) >>= λ a.
      read_from b (n + 1) rounds >>= λ rest. ok (a ∷ rest)

  -- `begin()` to `end()`
  unfoldable pub elements : Buffer A → Outcome (List A)
  elements b = read_from b 0 b.size

  unfoldable pub push_all : Bool → Buffer A → List A → Outcome (Buffer A)
  push_all accepts b [] = ok b
  push_all accepts b (a ∷ rest) = push_back accepts b a >>= λ b'. push_all accepts b' rest

  unfoldable pub assign_into : Bool → Buffer A → List A → Outcome (Buffer A)
  assign_into accepts b items =
      (if b.size == 0 then ok b else clear b) >>= λ b'. push_all accepts b' items

  -- The items move to a temporary with the new storage; after `swap` it has the old one, which is
  -- destroyed.
  unfoldable pub reallocate : Bool → Buffer A → ℕ → Outcome (Buffer A)
  reallocate accepts b new_size = do
    empty ← init new_size
    items ← elements b
    b' ← assign_into accepts empty items
    old ← destroy_from b 0 b.size b.slots
    ok b'

  unfoldable pub reserve : Bool → Buffer A → ℕ → Outcome (Buffer A)
  reserve accepts b new_size =
      if ltb b.array_size new_size then reallocate accepts b new_size else ok b

  -- The loop of `assign_and_reserve`.
  unfoldable pub push_and_reserve : Bool → Buffer A → List A → Outcome (Buffer A)
  push_and_reserve accepts b [] = ok b
  push_and_reserve accepts b (a ∷ rest) = do
    b' ← if b.size == b.array_size then reserve accepts b (grown_capacity b.array_size) else ok b
    b'' ← push_back accepts b' a
    push_and_reserve accepts b'' rest

  -- `circular_buffer(InputIterator from, InputIterator to)`: the temporary of capacity 1 takes the
  -- range; the first storage is empty, and is given back.
  unfoldable pub of_range : Bool → List A → Outcome (Buffer A)
  of_range accepts items = init 1 >>= λ b. push_and_reserve accepts b items

  -- The copy constructor: the storage is new, and the positions are those of `other`.
  unfoldable pub copy : Bool → Buffer A → Outcome (Buffer A)
  copy accepts other = elements other >>= λ items.
      assign_into accepts (record other { slots = replicate other.array_size none }) items

-- ===== src/Signal/Storage.antt =====
-- fb_signal/include/fb/event_queue.hpp, `event`, and fb_signal/include/fb/slot.hpp,
-- `callable_storage`: callables in storage. An object has a number and is alive from its construction
-- to its destruction. What is undefined in C++, the use or destruction of an object that is not
-- alive, is counted as a fault. An event is a storage that holds its object inline.
pub mod Owned
mod Tests
use foo_bar.Base.{
  ℕ, ◌+◌, ◌≡◌, Bool, true, false, not, List, [], ◌∷◌, ◌++◌, Option, none, some, length, get_elem?,
  set, if◌then◌else◌, ◌==◌,
}
use foo_bar.Signal.Ring.{update}

pub record Memory : Type 0 where
  pub objects : List Bool
  pub faults : ℕ

unfoldable pub is_alive : Memory → ℕ → Bool
is_alive m o = elim (get_elem? m.objects o) [ none ↦ false | some b ↦ b ]

-- The new object's number is the number of objects that there were.
unfoldable pub construct_object : Memory → Memory
construct_object m = record m { objects = m.objects ++ true ∷ [] }

unfoldable pub use_object : Memory → ℕ → Memory
use_object m o = if is_alive m o then m else record m { faults = m.faults + 1 }

unfoldable pub destroy_object : Memory → ℕ → Memory
destroy_object m o =
    if is_alive m o
    then record m { objects = set m.objects o false }
    else record m { faults = m.faults + 1 }

-- `m_storage` holds the object, or points to it if it is on the heap; or it is all zero. The next two
-- are whether `m_invoke` and `m_destroy` are set.
pub record Storage : Type 0 where
  pub object : ℕ
  pub is_zero : Bool
  pub has_invoke : Bool
  pub has_destroy : Bool
  pub is_heap : Bool

pub record Pool : Type 0 where
  pub memory : Memory
  pub at : ℕ → Storage

unfoldable pub no_callables : Pool
no_callables = record {
  memory = record { objects = []; faults = 0 };
  at = λ i. record {
    object = 0;
    is_zero = true;
    has_invoke = false;
    has_destroy = false;
    is_heap = false;
  };
}

-- `destroy`, and the destructor. Deleting a null pointer does nothing.
unfoldable pub destroy_at : Pool → ℕ → Pool
destroy_at p i =
    if (p.at i).has_destroy
    then record {
      memory = if (p.at i).is_zero then p.memory else destroy_object p.memory (p.at i).object;
      at = update p.at i (record (p.at i) { has_invoke = false; has_destroy = false });
    }
    else p

-- A new object for the storage.
unfoldable pub put_new : Bool → Pool → ℕ → Pool
put_new heap p i = record {
  memory = construct_object p.memory;
  at = update p.at i (record {
    object = length p.memory.objects;
    is_zero = false;
    has_invoke = true;
    has_destroy = true;
    is_heap = heap;
  });
}

unfoldable pub store : Bool → Pool → ℕ → Pool
store heap p i = put_new heap (destroy_at p i) i

-- The move constructor of storage `i` from another one: a pointer is copied, and an object moved.
unfoldable pub move_construct : Pool → ℕ → ℕ → Pool
move_construct p i j =
    if not (p.at j).has_invoke
    then record p { at = update p.at i (record (p.at j) { is_zero = true }) }
    else if (p.at j).is_heap
    then record p {
      at = update (update p.at i (p.at j)) j (record (p.at j) { has_invoke = false });
    }
    else destroy_at (put_new false (record p { memory = use_object p.memory (p.at j).object }) i) j

unfoldable pub move_assign : Pool → ℕ → ℕ → Pool
move_assign p i j = if i == j then p else move_construct (destroy_at p i) i j

unfoldable pub invoke : Pool → ℕ → Pool
invoke p i =
    if (p.at i).has_invoke then record p { memory = use_object p.memory (p.at i).object } else p

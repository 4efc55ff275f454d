-- ===== src/Signal/Storage/Tests.antt =====
-- Runs on storages of callables, and the theorem applied to one.
use foo_bar.Base.{◌≡◌, refl, true, false}
use foo_bar.Signal.Storage.{
  Pool, no_callables, store, move_construct, destroy_at, invoke, put_new, construct_object,
  destroy_object, use_object, is_alive,
}
use foo_bar.Signal.Storage.Owned.{start, stored, moved, invoked, IsOwned, Reach-IsOwned}

-- A callable on the heap is moved and the source destroyed; the target then points to no object.
abbrev moved_from_heap : Pool
moved_from_heap = destroy_at (move_construct (store true no_callables 0) 1 0) 0

moved_from_heap_faults : (invoke moved_from_heap 1).memory.faults ≡ 1
unfolding invoke destroy_at move_construct store no_callables put_new construct_object
    destroy_object use_object is_alive
moved_from_heap_faults = refl

abbrev moved_event : Pool
moved_event = invoke (move_construct (store false no_callables 0) 1 0) 1

Reach-IsOwned_example : IsOwned moved_event
Reach-IsOwned_example = Reach-IsOwned (invoked 1 (moved 1 0 (stored 0 start)))

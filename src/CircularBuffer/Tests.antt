-- ===== src/CircularBuffer/Tests.antt =====
-- A buffer that goes round the end of its storage, and the theorems applied to it.
use foo_bar.Base.{
  ℕ, zero, suc, max, List, [], ◌∷◌, none, some, ok, err, ◌≡◌, refl, true, false, arith,
}
use foo_bar.CircularBuffer.{
  Buffer, push_back, pop_front, at_checked, reserve, copy, raw_slot, next_tail,
}
use foo_bar.CircularBuffer.Deque
use foo_bar.CircularBuffer.Holds.{Holds, Agrees}
use foo_bar.CircularBuffer.Refine.{push_back-Agrees, pop_front-Agrees}
use foo_bar.CircularBuffer.Access.{at_checked-Holds}
use foo_bar.CircularBuffer.Grow.{Gives, reserve-Gives}
use foo_bar.CircularBuffer.Copy.{copy-raw_slot}

abbrev wrapped : Buffer ℕ
wrapped = record {
  slots = some 7 ∷ none ∷ some 5 ∷ [];
  array_size = 3;
  head = 2;
  tail = 0;
  size = 2;
}

abbrev items : List ℕ
items = 5 ∷ 7 ∷ []

wrapped-Holds : Holds wrapped items
unfolding next_tail
wrapped-Holds = record {
  storage = refl;
  small = omega arith;
  head_in = omega arith;
  size_is = refl;
  fits = omega arith;
  next_is = refl;
  tail_in = omega arith;
  slot_is = elim [
    | zero ↦ λ h. refl
    | suc zero ↦ λ h. refl
    | suc (suc zero) ↦ λ h. refl
    | suc (suc (suc i)) ↦ λ h. absurd (omega arith)
  ];
}

push_back-Agrees_example : Agrees 3 (push_back true wrapped 9) (ok (Deque.push true 3 items 9))
push_back-Agrees_example = push_back-Agrees true wrapped items 9 wrapped-Holds

pop_front-Agrees_example : Agrees 3 (pop_front wrapped) (ok (7 ∷ []))
pop_front-Agrees_example = pop_front-Agrees wrapped items wrapped-Holds

at_checked-Holds_example : at_checked wrapped 1 ≡ ok 7
at_checked-Holds_example = at_checked-Holds wrapped items 1 wrapped-Holds

reserve-Gives_example : Gives (reserve false wrapped 8) items (max 3 8)
reserve-Gives_example = reserve-Gives false wrapped items 8 wrapped-Holds (omega arith)

copy-raw_slot_example : copy true wrapped ≡ err raw_slot
copy-raw_slot_example = copy-raw_slot true wrapped 5 (7 ∷ []) wrapped-Holds

-- The same items in another place.
abbrev straight : Buffer ℕ
straight = record {
  slots = none ∷ some 5 ∷ some 7 ∷ none ∷ [];
  array_size = 4;
  head = 1;
  tail = 2;
  size = 2;
}

straight-Holds : Holds straight items
unfolding next_tail
straight-Holds = record {
  storage = refl;
  small = omega arith;
  head_in = omega arith;
  size_is = refl;
  fits = omega arith;
  next_is = refl;
  tail_in = omega arith;
  slot_is = elim [
    | zero ↦ λ h. refl
    | suc zero ↦ λ h. refl
    | suc (suc zero) ↦ λ h. refl
    | suc (suc (suc zero)) ↦ λ h. refl
    | suc (suc (suc (suc i))) ↦ λ h. absurd (omega arith)
  ];
}

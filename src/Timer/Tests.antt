-- ===== src/Timer/Tests.antt =====
-- Runs of a timer, and the theorems applied to them.
use foo_bar.Base.{◌≡◌, refl, true, false, ◌&&◌, not, if◌then◌else◌, arith}
use foo_bar.Timer.{
  Timer, done, terminated, make, start_with, launch, stop_timer_thread, joinable, set_single_shot,
  wake, finish_emission,
}
use foo_bar.Timer.Calls.{started, start_with_outside}
use foo_bar.Timer.Reached.{made, shot_once, started_with, woken, emitted, IsSound, Reach-IsSound}

-- A timer for one timeout after five milliseconds.
abbrev once : Timer
once = set_single_shot true make

abbrev waiting_once : Timer
waiting_once = started 5 0 once

waiting_once_start : start_with false 5 0 once ≡ done waiting_once
unfolding set_single_shot make start_with launch joinable
waiting_once_start = refl

-- The same after its timeout.
abbrev fired : Timer
fired = finish_emission (wake 5000000 5000000 waiting_once)

-- A start of it once more terminates the program.
fired_start : start_with false 5 6000000 fired ≡ terminated
unfolding set_single_shot make start_with launch joinable wake finish_emission stop_timer_thread
fired_start = refl

-- So does a start of a repeating timer from its own slot.
abbrev repeating : Timer
repeating = wake 5000000 5000000 (started 5 0 make)

repeating_start : start_with true 5 6000000 repeating ≡ terminated
unfolding make start_with launch joinable wake stop_timer_thread
repeating_start = refl

start_with_outside_example : start_with false 5 6000000 fired ≡ (
    if joinable fired.thread && not fired.active
    then terminated
    else done (started 5 6000000 fired))
start_with_outside_example = start_with_outside 5 6000000 fired (omega arith)

abbrev waiting_more : Timer
waiting_more = started 5 0 make

Reach-IsSound_example : IsSound fired
Reach-IsSound_example = Reach-IsSound (
    emitted (
      woken 5000000 5000000 (
        started_with {t = once} {t' = waiting_once} false 5 0 waiting_once_start
          (shot_once true made))))

-- ===== src/Timer.antt =====
-- fb_core/include/fb/timer.h: a timer and its thread. A reading of `steady_clock` is a number of
-- nanoseconds and an argument of the operation that reads it. Each call under the control mutex is
-- one step, and so is each stretch of the timer thread between two waits or calls. An interval that
-- is not positive is 0. `inside` says that the timer thread makes the call, from a slot.
pub mod Calls
pub mod Waking
pub mod Reached
mod Tests
use foo_bar.Base.{
  ℕ, zero, suc, ◌+◌, ◌-◌, ◌*◌, ◌/◌, ◌^◌, ◌≡◌, Bool, true, false, ◌&&◌, not, ltb, ◌==◌,
  if◌then◌else◌,
}

-- Where `m_timer_thread` stands; all but the first are joinable.
pub data Thread : Type 0 where
  absent waiting emitting ended : Thread

pub record Timer : Type 0 where
  pub interval : ℕ
  pub single_shot : Bool
  pub active : Bool
  pub stop_requested : Bool
  pub start_time : ℕ
  pub next_timeout : ℕ
  pub thread : Thread

-- `terminated` is `std::terminate`, which the assignment to a joinable `std::thread` calls.
pub data Outcome : Type 0 where
  done : Timer → Outcome
  runtime_error invalid_argument terminated : Outcome

unfoldable pub make : Timer
make = record {
  interval = 0;
  single_shot = false;
  active = false;
  stop_requested = false;
  start_time = 0;
  next_timeout = 0;
  thread = absent;
}

unfoldable pub joinable : Thread → Bool
joinable absent = false
joinable waiting = true
joinable emitting = true
joinable ended = true

abbrev pub milliseconds : ℕ → ℕ
milliseconds ms = ms * 1000000

-- Outside the timer thread, it waits for the thread's end.
unfoldable pub stop_timer_thread : Bool → Timer → Timer
stop_timer_thread inside t =
    if not (joinable t.thread)
    then record t { active = false }
    else if inside
    then record t { active = false; stop_requested = true }
    else record t { active = false; stop_requested = true; thread = absent }

-- `start(interval_ms)` once the timer is stopped.
unfoldable pub launch : ℕ → ℕ → Timer → Outcome
launch interval_ms now t =
    if joinable t.thread
    then terminated
    else done (record t {
      interval = interval_ms;
      stop_requested = false;
      active = true;
      start_time = now;
      next_timeout = now + milliseconds interval_ms;
      thread = waiting;
    })

-- `start(interval_ms)`
unfoldable pub start_with : Bool → ℕ → ℕ → Timer → Outcome
start_with inside interval_ms now t =
    if interval_ms == 0
    then invalid_argument
    else launch interval_ms now (if t.active then stop_timer_thread inside t else t)

unfoldable pub start : Bool → ℕ → Timer → Outcome
start inside now t = if t.interval == 0 then runtime_error else start_with inside t.interval now t

unfoldable pub stop : Bool → Timer → Timer
stop inside t = stop_timer_thread inside t

unfoldable pub restart : Bool → ℕ → Timer → Outcome
restart inside now t =
    if t.interval == 0
    then runtime_error
    else if joinable t.thread && inside
    then done (record t { start_time = now; next_timeout = now + milliseconds t.interval })
    else start_with inside t.interval now (stop inside t)

unfoldable pub set_interval : Bool → ℕ → ℕ → Timer → Outcome
set_interval inside interval_ms now t =
    if interval_ms == 0
    then invalid_argument
    else (let changed = record t { interval = interval_ms } in
        if t.active then restart inside now changed else done changed)

unfoldable pub set_single_shot : Bool → Timer → Timer
set_single_shot single_shot t = record t { single_shot = single_shot }

unfoldable pub remaining_time : ℕ → Timer → ℕ
remaining_time now t = if t.active then (t.next_timeout - now) / 1000000 else 0

-- The loop that skips the timeouts that were missed; the number bounds its rounds.
unfoldable pub catch_up : ℕ → ℕ → ℕ → ℕ → ℕ
catch_up zero interval now next = next
catch_up (suc rounds) interval now next = elim (ltb next now) [
  | true ↦ catch_up rounds interval now (next + interval)
  | false ↦ next
]

-- From the wait to the emission. The clock is read as the wait ends and again before the loop.
unfoldable pub wake : ℕ → ℕ → Timer → Timer
wake now later t = elim t.thread [
  | absent ↦ t
  | waiting ↦
      if t.stop_requested
      then record t { thread = ended }
      else if ltb now t.next_timeout
      then t
      else if t.single_shot
      then record t { thread = emitting }
      else record t {
        next_timeout =
            catch_up later (milliseconds t.interval) later
              (t.next_timeout + milliseconds t.interval);
        thread = emitting;
      }
  | emitting ↦ t
  | ended ↦ t
]

-- From the emission to the next wait.
unfoldable pub finish_emission : Timer → Timer
finish_emission t = elim t.thread [
  | absent ↦ t
  | waiting ↦ t
  | emitting ↦
      if t.single_shot
      then record t { active = false; thread = ended }
      else record t { thread = waiting }
  | ended ↦ t
]

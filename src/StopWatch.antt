-- ===== src/StopWatch.antt =====
-- fb_core/include/fb/stop_watch.h: a stop watch. A reading of `steady_clock` is a number of
-- nanoseconds and an argument of the operation that reads it; each operation is one step, under the
-- mutex.
mod Tests
use foo_bar.Base.{
  ℕ, ◌+◌, ◌-◌, ◌≤◌, ◌≡◌, refl, sym, ap, subst, ◌∙◌, Bool, true, false, List, [], ◌∷◌, if◌then◌else◌,
  arith, Bool-cases, inl, inr,
}

pub record StopWatch : Type 0 where
  pub start_time : ℕ
  pub accumulated : ℕ
  pub is_running : Bool

unfoldable pub start : StopWatch → ℕ → StopWatch
start s now = if s.is_running then s else record s { start_time = now; is_running = true }

unfoldable pub stop : StopWatch → ℕ → StopWatch
stop s now =
    if s.is_running
    then record s { accumulated = s.accumulated + (now - s.start_time); is_running = false }
    else s

unfoldable pub elapsed_time : StopWatch → ℕ → ℕ
elapsed_time s now = if s.is_running then s.accumulated + (now - s.start_time) else s.accumulated

unfoldable pub reset : Bool → StopWatch → ℕ → StopWatch
reset start_immediately s now =
    if start_immediately
    then record { start_time = now; accumulated = 0; is_running = true }
    else record { start_time = 0; accumulated = 0; is_running = false }

-- The constructor.
unfoldable pub make : Bool → ℕ → StopWatch
make start_immediately now =
    let stopped : StopWatch = record { start_time = 0; accumulated = 0; is_running = false } in
    if start_immediately then start stopped now else stopped

pub data Action : Type 0 where
  starting stopping : Action
  resetting : Bool → Action

-- An operation and the reading of the clock at it.
pub record Event : Type 0 where
  pub now : ℕ
  pub action : Action

unfoldable pub act : StopWatch → ℕ → Action → StopWatch
act s now starting = start s now
act s now stopping = stop s now
act s now (resetting b) = reset b s now

unfoldable pub run : StopWatch → List Event → StopWatch
run s [] = s
run s (event ∷ events) = run (act s event.now event.action) events

-- A meter that is read at each operation: the time since the last one counts if it was on.
pub record Meter : Type 0 where
  pub on : Bool
  pub total : ℕ
  pub last : ℕ

abbrev pub total_at : Meter → ℕ → ℕ
total_at m now = if m.on then m.total + (now - m.last) else m.total

abbrev pub meter_act : Meter → ℕ → Action → Meter
meter_act m now starting = record { on = true; total = total_at m now; last = now }
meter_act m now stopping = record { on = false; total = total_at m now; last = now }
meter_act m now (resetting b) = record { on = b; total = 0; last = now }

abbrev pub meter_run : Meter → List Event → Meter
meter_run m [] = m
meter_run m (event ∷ events) = meter_run (meter_act m event.now event.action) events

-- The clock does not go back.
abbrev pub IsSteady : ℕ → List Event → ℕ → Type 0
IsSteady last [] now = last ≤ now
IsSteady last (event ∷ events) now = (last ≤ event.now) × IsSteady event.now events now

-- The meter shows what the stop watch has measured.
record Agree (s : StopWatch) (m : Meter) : Type 0 where
  running : s.is_running ≡ m.on
  off : m.on ≡ false → s.accumulated ≡ m.total
  on : m.on ≡ true → (s.start_time ≤ m.last) × (s.accumulated + (m.last - s.start_time) ≡ m.total)

elapsed_time-Agree :
    (s : StopWatch) (m : Meter) (now : ℕ)
    → Agree s m
    → m.last ≤ now
    → elapsed_time s now ≡ total_at m now
unfolding elapsed_time
elapsed_time-Agree s m now a le = elim (Bool-cases m.on) [
  | inl e ↦ let (before, same) = a.on e in let running = a.running in ground arith
  | inr e ↦ let same = a.off e in let running = a.running in ground arith
]

act-Agree :
    (s : StopWatch) (m : Meter) (now : ℕ) (action : Action)
    → Agree s m
    → m.last ≤ now
    → Agree (act s now action) (meter_act m now action)
unfolding act start stop reset
act-Agree s m now starting a le = elim (Bool-cases m.on) [
  | inl e ↦
      let (before, same) = a.on e in
      let running : s.is_running ≡ true = a.running ∙ e in
      rw (running, e)
        (record {
          running = refl;
          off = λ n. absurd (ground arith);
          on = λ _. (omega arith, omega arith);
        })
  | inr e ↦
      let same = a.off e in
      let running : s.is_running ≡ false = a.running ∙ e in
      rw (running, e)
        (record {
          running = refl;
          off = λ n. absurd (ground arith);
          on = λ _. (omega arith, omega arith);
        })
]
act-Agree s m now stopping a le = elim (Bool-cases m.on) [
  | inl e ↦
      let (before, same) = a.on e in
      let running : s.is_running ≡ true = a.running ∙ e in
      rw (running, e)
        (record { running = refl; off = λ _. omega arith; on = λ n. absurd (ground arith) })
  | inr e ↦
      let same = a.off e in
      let running : s.is_running ≡ false = a.running ∙ e in
      rw (running, e) (record { running = refl; off = λ _. same; on = λ n. absurd (ground arith) })
]
act-Agree s m now (resetting true) a le = record {
  running = refl;
  off = λ n. absurd (ground arith);
  on = λ _. (omega arith, omega arith);
}
act-Agree s m now (resetting false) a le = record {
  running = refl;
  off = λ _. refl;
  on = λ n. absurd (ground arith);
}

last_acted : (m : Meter) (now : ℕ) (action : Action) → (meter_act m now action).last ≡ now
last_acted m now starting = refl
last_acted m now stopping = refl
last_acted m now (resetting b) = refl

run-Agree :
    (s : StopWatch) (m : Meter) (events : List Event) (now : ℕ)
    → Agree s m
    → IsSteady m.last events now
    → elapsed_time (run s events) now ≡ total_at (meter_run m events) now
unfolding run
run-Agree s m [] now a le = elapsed_time-Agree s m now a le
run-Agree s m (event ∷ events) now a (le, steady) =
    run-Agree (act s event.now event.action) (meter_act m event.now event.action) events now
      (act-Agree s m event.now event.action a le)
      (subst (λ last. IsSteady last events now) (sym (last_acted m event.now event.action)) steady)

-- If the clock does not go back, after any operations elapsed_time is what a meter shows that
-- is read at each operation and counts the time since the last one if it was on, from zero
-- after each reset.
pub elapsed_time-run :
    (start_immediately : Bool) (made : ℕ) (events : List Event) (now : ℕ)
    → IsSteady made events now
    → elapsed_time (run (make start_immediately made) events) now
      ≡ total_at (meter_run (record { on = start_immediately; total = 0; last = made }) events) now
unfolding make start
elapsed_time-run true made events now steady =
    run-Agree (make true made) (record { on = true; total = 0; last = made }) events now
      (record {
        running = refl;
        off = λ n. absurd (ground arith);
        on = λ _. (omega arith, omega arith);
      })
      steady
elapsed_time-run false made events now steady =
    run-Agree (make false made) (record { on = false; total = 0; last = made }) events now
      (record { running = refl; off = λ _. refl; on = λ n. absurd (ground arith) }) steady

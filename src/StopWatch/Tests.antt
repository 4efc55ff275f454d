-- ===== src/StopWatch/Tests.antt =====
-- Runs of a stop watch.
use foo_bar.Base.{◌≡◌, refl, true, List, [], ◌∷◌, arith}
use foo_bar.StopWatch.{
  Event, starting, stopping, make, run, act, start, stop, elapsed_time, meter_run, total_at,
  elapsed_time-run,
}

-- Stopped at 10, started at 25 and again at 30.
abbrev paused : List Event
paused =
    record { now = 10; action = stopping }
    ∷ record { now = 25; action = starting }
    ∷ record { now = 30; action = starting }
    ∷ []

paused_time : elapsed_time (run (make true 3) paused) 40 ≡ 22
unfolding make run elapsed_time act start stop
paused_time = refl

elapsed_time-run_example :
    elapsed_time (run (make true 3) paused) 40
    ≡ total_at (meter_run (record { on = true; total = 0; last = 3 }) paused) 40
elapsed_time-run_example =
    elapsed_time-run true 3 paused 40 (omega arith, (omega arith, (omega arith, omega arith)))

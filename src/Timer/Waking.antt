-- ===== src/Timer/Waking.antt =====
-- fb_core/include/fb/timer.h: the timer thread, and the timers that calls and the thread lead to.
use foo_bar.Base.{ℕ, ◌+◌, ◌*◌, ◌≤◌, ◌<◌, ◌≡◌, ◌⊎◌}
use foo_bar.Timer.{Timer}

-- A timeout that is due no earlier than `now`, a whole number of intervals after `next`, and not
-- later than needed.
abbrev IsNext : ℕ → ℕ → ℕ → ℕ → Type 0
IsNext interval now next r =
    (now ≤ r) × ((n : ℕ) × (r ≡ next + n * interval)) × ((r ≡ next) ⊎ (r < now + interval))

-- ===== src/Timer/Calls.antt =====
-- fb_core/include/fb/timer.h: calls that start and stop a timer.
use foo_bar.Base.{
  ℕ, ◌+◌, ◌<◌, ◌≡◌, ◌⊎◌, refl, sym, ap, ◌∙◌, Bool, true, false, ◌&&◌, not, ◌==◌, if◌then◌else◌,
  arith, Bool-cases, inl, inr,
}
use foo_bar.Timer.{
  Timer, Thread, absent, waiting, emitting, ended, done, runtime_error, invalid_argument,
  terminated, joinable, milliseconds, stop_timer_thread, start_with, launch, stop, restart,
}

-- The timer as it is after a start.
abbrev pub started : ℕ → ℕ → Timer → Timer
started interval_ms now t = record t {
  interval = interval_ms;
  active = true;
  stop_requested = false;
  start_time = now;
  next_timeout = now + milliseconds interval_ms;
  thread = waiting;
}

Thread-cases : (x : Thread) → (joinable x ≡ true) ⊎ ((x ≡ absent) × (joinable x ≡ false))
unfolding joinable
Thread-cases absent = inr (refl, refl)
Thread-cases waiting = inl refl
Thread-cases emitting = inl refl
Thread-cases ended = inl refl

-- From outside, a stop leaves no thread.
stop_timer_thread-joinable : (t : Timer) → joinable (stop_timer_thread false t).thread ≡ false
unfolding stop_timer_thread joinable
stop_timer_thread-joinable t = elim (Thread-cases t.thread) [
  | inl e ↦ rw (e, stop_timer_thread) refl
  | inr (_, e) ↦ rw (e, stop_timer_thread) e
]

-- What a start sets anew does not depend on whether the timer was stopped.
started_anew :
    (interval_ms now : ℕ) (t : Timer)
    → started interval_ms now (stop_timer_thread false t) ≡ started interval_ms now t
unfolding stop_timer_thread
started_anew interval_ms now t = elim (Bool-cases (joinable t.thread)) [
  | inl e ↦ rw (e, stop_timer_thread) refl
  | inr e ↦ rw (e, stop_timer_thread) refl
]

positive : (n : ℕ) → 0 < n → (n == 0) ≡ false
positive n lt = ground arith

launch_free :
    (interval_ms now : ℕ) (t : Timer)
    → joinable t.thread ≡ false
    → launch interval_ms now t ≡ done (started interval_ms now t)
unfolding launch
launch_free interval_ms now t e =
    ap (λ b. if b then terminated else done (started interval_ms now t)) e

launch-joinable :
    (interval_ms now : ℕ) (t : Timer)
    → joinable t.thread ≡ true
    → launch interval_ms now t ≡ terminated
unfolding launch
launch-joinable interval_ms now t e =
    ap (λ b. if b then terminated else done (started interval_ms now t)) e

launch_stopped :
    (interval_ms now : ℕ) (t : Timer)
    → launch interval_ms now (stop_timer_thread false t) ≡ done (started interval_ms now t)
launch_stopped interval_ms now t =
    launch_free interval_ms now (stop_timer_thread false t) (stop_timer_thread-joinable t)
    ∙ ap done (started_anew interval_ms now t)

start_with_positive :
    (inside : Bool) (interval_ms now : ℕ) (t : Timer) (on : Bool)
    → 0 < interval_ms
    → t.active ≡ on
    → start_with inside interval_ms now t
      ≡ launch interval_ms now (if on then stop_timer_thread inside t else t)
unfolding start_with
start_with_positive inside interval_ms now t on lt e =
    ap
      (λ b.
        if b
        then invalid_argument
        else launch interval_ms now (if t.active then stop_timer_thread inside t else t))
      (positive interval_ms lt)
    ∙ ap (λ a. launch interval_ms now (if a then stop_timer_thread inside t else t)) e

-- From another thread, a start with a positive interval makes the timer active with the first
-- timeout one interval away, unless the timer is inactive and has a thread that was not joined:
-- then the program is terminated.
pub start_with_outside :
    (interval_ms now : ℕ) (t : Timer)
    → 0 < interval_ms
    → start_with false interval_ms now t
      ≡ (if joinable t.thread && not t.active then terminated else done (started interval_ms now t))
start_with_outside interval_ms now t lt = elim (Bool-cases t.active) [
  | inl on ↦
      start_with_positive false interval_ms now t true lt on
      ∙ launch_stopped interval_ms now t
      ∙ ap (λ b. if b then terminated else done (started interval_ms now t))
          (sym (never (joinable t.thread) t.active on))
  | inr off ↦
      start_with_positive false interval_ms now t false lt off
      ∙ elim (Bool-cases (joinable t.thread)) [
        | inl e ↦
            launch-joinable interval_ms now t e
            ∙ ap (λ b. if b then terminated else done (started interval_ms now t))
                (sym (both (joinable t.thread) t.active e off))
        | inr e ↦
            launch_free interval_ms now t e
            ∙ ap (λ b. if b then terminated else done (started interval_ms now t))
                (sym (neither (joinable t.thread) t.active e))
      ]
]
  where
    never : (a b : Bool) → b ≡ true → a && not b ≡ false
    never a b e = ground arith

    both : (a b : Bool) → a ≡ true → b ≡ false → a && not b ≡ true
    both a b e f = ground arith

    neither : (a b : Bool) → a ≡ false → a && not b ≡ false
    neither a b e = ground arith

-- From another thread, a restart of a timer with a positive interval makes it active with the
-- next timeout one interval away, whatever state it is in.
pub restart_outside :
    (now : ℕ) (t : Timer) → 0 < t.interval → restart false now t ≡ done (started t.interval now t)
unfolding restart stop
restart_outside now t lt =
    ap
      (λ b.
        if b
        then runtime_error
        else if joinable t.thread && false
        then done (record t { start_time = now; next_timeout = now + milliseconds t.interval })
        else start_with false t.interval now (stop_timer_thread false t))
      (positive t.interval lt)
    ∙ ap
        (λ b.
          if b
          then done (record t { start_time = now; next_timeout = now + milliseconds t.interval })
          else start_with false t.interval now (stop_timer_thread false t))
        (out (joinable t.thread))
    ∙ start_with_outside t.interval now (stop_timer_thread false t) lt
    ∙ ap (λ b. if b then terminated else done (started t.interval now (stop_timer_thread false t)))
        (joined (stop_timer_thread false t).active (stop_timer_thread-joinable t))
    ∙ ap done (started_anew t.interval now t)
  where
    out : (a : Bool) → a && false ≡ false
    out a = ground arith

    joined : {a : Bool} (b : Bool) → a ≡ false → a && not b ≡ false
    joined b e = ground arith

-- ===== src/Timer/Reached.antt =====
-- fb_core/include/fb/timer.h: the timers that calls and the timer thread lead to.
use foo_bar.Base.{
  ℕ, ◌<◌, ◌≡◌, ◌⊎◌, refl, sym, ap, subst, Bool, true, ◌&&◌, ltb, ◌==◌, if◌then◌else◌, arith,
  Bool-cases, inl, inr,
}
use foo_bar.Timer.{
  Timer, Thread, absent, waiting, emitting, ended, Outcome, done, runtime_error, invalid_argument,
  terminated, joinable, stop_timer_thread, start_with, launch, start, stop, restart, set_interval,
  set_single_shot, make, wake, finish_emission,
}

-- An active timer has a thread, and a timer with a thread has a positive interval.
abbrev pub IsSound : Timer → Type 0
IsSound t =
    (t.active ≡ true → joinable t.thread ≡ true) × (joinable t.thread ≡ true → 0 < t.interval)

abbrev pub OnDone : (Timer → Type 0) → Outcome → Type 0
OnDone P (done t) = P t
OnDone P runtime_error = Unit
OnDone P invalid_argument = Unit
OnDone P terminated = Unit

launch-OnDone :
    (interval_ms now : ℕ) (t : Timer) → 0 < interval_ms → OnDone IsSound (launch interval_ms now t)
unfolding launch joinable
launch-OnDone interval_ms now t lt = elim (Bool-cases (joinable t.thread)) [
  | inl e ↦ rw (e, launch) tt
  | inr e ↦ rw (e, launch) (λ _. refl, λ _. lt)
]

start_with-OnDone :
    (inside : Bool) (interval_ms now : ℕ) (t : Timer)
    → OnDone IsSound (start_with inside interval_ms now t)
unfolding start_with
start_with-OnDone inside interval_ms now t = elim (Bool-cases (interval_ms == 0)) [
  | inl e ↦ rw (e, start_with) tt
  | inr e ↦
      rw (e, start_with)
        (launch-OnDone interval_ms now (if t.active then stop_timer_thread inside t else t)
          (ground arith))
]

start-OnDone : (inside : Bool) (now : ℕ) (t : Timer) → OnDone IsSound (start inside now t)
unfolding start
start-OnDone inside now t = elim (Bool-cases (t.interval == 0)) [
  | inl e ↦ rw (e, start) tt
  | inr e ↦ rw (e, start) (start_with-OnDone inside t.interval now t)
]

restart-OnDone :
    (inside : Bool) (now : ℕ) (t : Timer) → IsSound t → OnDone IsSound (restart inside now t)
unfolding restart
restart-OnDone inside now t sound = elim (Bool-cases (t.interval == 0)) [
  | inl e ↦ rw (e, restart) tt
  | inr e ↦ elim (Bool-cases (joinable t.thread && inside)) [
    | inl here ↦ rw (e, here, restart) sound
    | inr there ↦ rw (e, there, restart) (start_with-OnDone inside t.interval now (stop inside t))
  ]
]

set_interval-OnDone :
    (inside : Bool) (interval_ms now : ℕ) (t : Timer)
    → IsSound t
    → OnDone IsSound (set_interval inside interval_ms now t)
unfolding set_interval
set_interval-OnDone inside interval_ms now t (has, _) = elim (Bool-cases (interval_ms == 0)) [
  | inl e ↦ rw (e, set_interval) tt
  | inr e ↦
      let lt : 0 < interval_ms = ground arith in
      let changed : Timer = record t { interval = interval_ms } in
      elim (Bool-cases t.active) [
        | inl on ↦
            rw (e, set_interval)
              (subst (λ b. OnDone IsSound (if b then restart inside now changed else done changed))
                (sym on) (restart-OnDone inside now changed (has, λ _. lt)))
        | inr off ↦
            rw (e, set_interval)
              (subst (λ b. OnDone IsSound (if b then restart inside now changed else done changed))
                (sym off) (has, λ _. lt))
      ]
]

Stage-cases : (x : Thread) → (x ≡ waiting) ⊎ ((x ≡ emitting) ⊎ ((x ≡ ended) ⊎ (x ≡ absent)))
Stage-cases waiting = inl refl
Stage-cases emitting = inr (inl refl)
Stage-cases ended = inr (inr (inl refl))
Stage-cases absent = inr (inr (inr refl))

stop_timer_thread-IsSound :
    (inside : Bool) (t : Timer) → IsSound t → IsSound (stop_timer_thread inside t)
unfolding stop_timer_thread joinable
stop_timer_thread-IsSound inside t (has, pos) = elim (Bool-cases (joinable t.thread)) [
  | inl e ↦ elim (Bool-cases inside) [
    | inl i ↦ rw (e, i, stop_timer_thread) (λ off. absurd (ground arith), pos)
    | inr o ↦
        rw (e, o, stop_timer_thread) (λ off. absurd (ground arith), λ none. absurd (ground arith))
  ]
  | inr e ↦ rw (e, stop_timer_thread) (λ off. absurd (ground arith), pos)
]

wake-IsSound : (now later : ℕ) (t : Timer) → IsSound t → IsSound (wake now later t)
unfolding wake joinable
wake-IsSound now later t (has, pos) = elim (Stage-cases t.thread) [
  | inl at ↦
      let on : joinable t.thread ≡ true = ap joinable at in
      elim (Bool-cases t.stop_requested) [
        | inl e ↦ rw (at, e, wake) (λ _. refl, λ _. pos on)
        | inr e ↦ elim (Bool-cases (ltb now t.next_timeout)) [
          | inl early ↦ rw (at, e, early, wake) (has, pos)
          | inr due ↦ elim (Bool-cases t.single_shot) [
            | inl once ↦ rw (at, e, due, once, wake) (λ _. refl, λ _. pos on)
            | inr repeats ↦ rw (at, e, due, repeats, wake) (λ _. refl, λ _. pos on)
          ]
        ]
      ]
  | inr (inl at) ↦ rw (at, wake) (has, pos)
  | inr (inr (inl at)) ↦ rw (at, wake) (has, pos)
  | inr (inr (inr at)) ↦ rw (at, wake) (has, pos)
]

finish_emission-IsSound : (t : Timer) → IsSound t → IsSound (finish_emission t)
unfolding finish_emission joinable
finish_emission-IsSound t (has, pos) = elim (Stage-cases t.thread) [
  | inl at ↦ rw (at, finish_emission) (has, pos)
  | inr (inl at) ↦
      let on : joinable t.thread ≡ true = ap joinable at in
      elim (Bool-cases t.single_shot) [
        | inl once ↦ rw (at, once, finish_emission) (λ _. refl, λ _. pos on)
        | inr repeats ↦ rw (at, repeats, finish_emission) (λ _. refl, λ _. pos on)
      ]
  | inr (inr (inl at)) ↦ rw (at, finish_emission) (has, pos)
  | inr (inr (inr at)) ↦ rw (at, finish_emission) (has, pos)
]

-- The timers that calls which return, from any thread, and the timer thread lead to.
pub data Reach : Timer → Type 0 where
  made : Reach make
  started_with :
      {t t' : Timer} (inside : Bool) (interval_ms now : ℕ)
      → start_with inside interval_ms now t ≡ done t'
      → Reach t
      → Reach t'
  started :
      {t t' : Timer} (inside : Bool) (now : ℕ) → start inside now t ≡ done t' → Reach t → Reach t'
  stopped : {t : Timer} (inside : Bool) → Reach t → Reach (stop inside t)
  restarted :
      {t t' : Timer} (inside : Bool) (now : ℕ) → restart inside now t ≡ done t' → Reach t → Reach t'
  changed :
      {t t' : Timer} (inside : Bool) (interval_ms now : ℕ)
      → set_interval inside interval_ms now t ≡ done t'
      → Reach t
      → Reach t'
  shot_once : {t : Timer} (single_shot : Bool) → Reach t → Reach (set_single_shot single_shot t)
  woken : {t : Timer} (now later : ℕ) → Reach t → Reach (wake now later t)
  emitted : {t : Timer} → Reach t → Reach (finish_emission t)

-- In every timer that calls which return and the timer thread lead to, an active timer has a
-- thread, and a timer with a thread has a positive interval.
pub Reach-IsSound : {t : Timer} → Reach t → IsSound t
unfolding make joinable stop set_single_shot
Reach-IsSound made = (λ off. absurd (ground arith), λ off. absurd (ground arith))
Reach-IsSound (started_with {t} {t'} inside interval_ms now e r) =
    subst (OnDone IsSound) e (start_with-OnDone inside interval_ms now t)
Reach-IsSound (started {t} {t'} inside now e r) =
    subst (OnDone IsSound) e (start-OnDone inside now t)
Reach-IsSound (stopped {t} inside r) = stop_timer_thread-IsSound inside t (Reach-IsSound r)
Reach-IsSound (restarted {t} {t'} inside now e r) =
    subst (OnDone IsSound) e (restart-OnDone inside now t (Reach-IsSound r))
Reach-IsSound (changed {t} {t'} inside interval_ms now e r) =
    subst (OnDone IsSound) e (set_interval-OnDone inside interval_ms now t (Reach-IsSound r))
Reach-IsSound (shot_once single_shot r) = Reach-IsSound r
Reach-IsSound (woken {t} now later r) = wake-IsSound now later t (Reach-IsSound r)
Reach-IsSound (emitted {t} r) = finish_emission-IsSound t (Reach-IsSound r)

-- ===== src/Signal/Ring/Tests.antt =====
-- Runs of the ring buffer's threads, and the theorems applied to them.
use foo_bar.Base.{ℕ, zero, suc, ◌^◌, ◌<◌, ◌≡◌, refl, false, List, [], ◌∷◌, ◌++◌, length, arith}
use foo_bar.Signal.Ring.{
  System, resting, result, initial, call, produce, consume, producer_step, consumer_step,
  call_enqueue, run_consumer, next,
}
use foo_bar.Signal.Ring.Invariant.{Reach, start, called, produced}
use foo_bar.Signal.Ring.Fifo.{Reach-log}

module _ (k : ℕ) where
  unfoldable steps : ℕ → ℕ → System ℕ → System ℕ
  steps i zero s = s
  steps i (suc n) s = steps i n (produce k s i)

  unfoldable put : ℕ → ℕ → System ℕ → System ℕ
  unfolding steps
  put i item s = steps i 4 (call s i item)

  unfoldable get : System ℕ → System ℕ
  get s = consume k (consume k (consume k (consume k (consume k (consume k s)))))

-- Producer 0 loads the tail; producer 1 puts an item, and it is taken. The queue of 4096 slots is
-- empty, and yet producer 0 is refused.
abbrev overtaken : System ℕ
overtaken = produce 12 (get 12 (put 12 1 7 (call (initial 0) 0 5))) 0

overtaken_refused :
    (overtaken.producers 0 ≡ result false)
    × (overtaken.shared.log ≡ 7 ∷ [])
    × (overtaken.shared.out ≡ 7 ∷ [])
unfolding initial call call_enqueue produce producer_step consume consumer_step steps put get next
overtaken_refused = (refl, refl, refl)

-- Producer 0 has passed the check when the others go round a queue of four slots once. Its
-- compare-exchange then succeeds, the indices meet, and the four items on the way are not seen.
abbrev lapped : System ℕ
lapped =
    produce 2
      (put 2 1 4 (get 2 (put 2 1 3 (put 2 1 2 (put 2 1 1 (produce 2 (call (initial 0) 0 9) 0)))))) 0

lapped_lost :
    (lapped.shared.log ≡ 1 ∷ 2 ∷ 3 ∷ 4 ∷ 9 ∷ [])
    × (lapped.shared.out ≡ 1 ∷ [])
    × (run_consumer 2 2 lapped.shared resting ≡ (lapped.shared, resting))
unfolding initial call call_enqueue produce producer_step consume consumer_step steps put get next
    run_consumer
lapped_lost = (refl, refl, refl)

-- Two producers: both have passed the check, the second has claimed, written and published, and the
-- first loads `m_tail` again.
abbrev checked : System ℕ
checked = produce 2 (produce 2 (call (call (initial 0) 0 9) 1 8) 0) 1

abbrev claimed : System ℕ
claimed = produce 2 checked 1

abbrev published : System ℕ
published = produce 2 (produce 2 claimed 1) 1

abbrev half_way : System ℕ
half_way = produce 2 published 0

checked-Reach : Reach 2 0 checked
unfolding call call_enqueue initial produce producer_step next
checked-Reach = produced 1 tt (produced 0 tt (called 1 8 tt (called 0 9 tt start)))

claimed-Reach : Reach 2 0 claimed
unfolding call call_enqueue initial produce producer_step next
claimed-Reach = produced 1 (omega arith) checked-Reach

published-Reach : Reach 2 0 published
unfolding call call_enqueue initial produce producer_step next
published-Reach = produced 1 tt (produced 1 tt claimed-Reach)

half_way-Reach : Reach 2 0 half_way
unfolding call call_enqueue initial produce producer_step next
half_way-Reach = produced 0 (omega arith) published-Reach

half_way_log : half_way.shared.log ≡ 8 ∷ []
unfolding call call_enqueue initial produce producer_step next
half_way_log = refl

Reach-log_example :
    (rest : List ℕ) × (half_way.shared.log ≡ half_way.shared.out ++ rest) × (length rest < 2 ^ 2)
Reach-log_example = Reach-log 2 half_way-Reach

-- ===== src/Signal/Ring/Slots.antt =====
-- fb_signal/include/fb/event_queue.hpp, `ring_buffer`: the index of a claim.
use native.Mathlib.Nat.{div-add-mod, add-mod_right, mod-add-mod}
use foo_bar.Base.{
  ℕ, suc, ◌+◌, ◌-◌, ◌*◌, ◌/◌, ◌%◌, ◌^◌, ◌≤◌, ◌<◌, ◌≡◌, sym, ap, ◌∙◌, arith, ◌⊎◌, inl, inr,
}
use foo_bar.Base.Bits.{bit_and-mask}
use foo_bar.Signal.Ring.{next}

-- The slot of the claim with number `i`.
unfoldable pub slot : ℕ → ℕ → ℕ
slot k i = i % 2 ^ k

pub slot-lap : (k i : ℕ) → slot k (i + 2 ^ k) ≡ slot k i
unfolding slot
slot-lap k i = add-mod_right i (2 ^ k)

compare-cases : (p q : ℕ) → (p < q) ⊎ ((p ≡ q) ⊎ (q < p))
compare-cases p q = ground arith

-- Two numbers with one remainder that are less than `n` apart.
same_lap : (n p q a b r : ℕ) → a ≤ b → b < a + n → a ≡ n * p + r → b ≡ n * q + r → a ≡ b
same_lap n p q a b r h near ea eb = elim (compare-cases p q) [
  | inl less ↦
      absurd
        (let later : q ≡ p + suc (q - p - 1) = omega arith in omega (arith, ap (λ x. n * x) later))
  | inr (inl same) ↦ omega (arith, ap (λ x. n * x) same)
  | inr (inr more) ↦
      absurd
        (let later : p ≡ q + suc (p - q - 1) = omega arith in omega (arith, ap (λ x. n * x) later))
]

-- Claims less than a lap apart have different slots.
pub slot-inj : (k a b : ℕ) → a ≤ b → b < a + 2 ^ k → slot k a ≡ slot k b → a ≡ b
unfolding slot
slot-inj k a b h near e =
    same_lap (2 ^ k) (a / 2 ^ k) (b / 2 ^ k) a b (a % 2 ^ k) h near (sym (div-add-mod a (2 ^ k)))
      (sym (div-add-mod b (2 ^ k)) ∙ ap (λ r. 2 ^ k * (b / 2 ^ k) + r) (sym e))

pub next-slot : (k i : ℕ) → next k (slot k i) ≡ slot k (i + 1)
unfolding next slot
next-slot k i = bit_and-mask k (i % 2 ^ k + 1) ∙ mod-add-mod i (2 ^ k) 1

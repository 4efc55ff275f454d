-- ===== src/Base/Bits.antt =====
-- `|` of numbers with no common binary digit, and `&` with a mask of ones.
use Prim.Native.Nat.{
  ℕ, zero, suc, ◌+◌, ◌-◌, ◌*◌, ◌/◌, ◌%◌, ◌^◌, ◌≤◌, ◌<◌, min, max, bit_and, bit_or, digits,
  bit_and-bitwise, bit_or-bitwise,
}
use mathlib.Core.Path.{◌≡◌, refl, sym, ap, subst, ◌∙◌}
use native.Mathlib.Omega.{arith}
use native.Mathlib.Nat.{pow-suc, mod-lt, div-add-mod, mod-eq_of_lt, add-mul-mod_self_right}

-- The count of digits to go does not matter once it is large enough.
module _ (z : ℕ → ℕ) (f : ℕ → ℕ → ℕ) where
  digits-count : (a b : ℕ) (n m : ℕ) → a ≤ n → a ≤ m → digits z f n a b ≡ digits z f m a b
  digits-count a b zero zero le_n le_m = refl
  digits-count zero b zero (suc m) le_n le_m = refl
  digits-count zero b (suc n) zero le_n le_m = refl
  digits-count zero b (suc n) (suc m) le_n le_m = refl
  digits-count (suc a) b zero (suc m) le_n le_m = absurd (omega arith)
  digits-count (suc a) b (suc n) zero le_n le_m = absurd (omega arith)
  digits-count (suc a) b (suc n) (suc m) le_n le_m =
      omega (arith, digits-count (suc a / 2) (b / 2) n m (omega arith) (omega arith))

bit_or-zero_left : (b : ℕ) → bit_or 0 b ≡ b
bit_or-zero_left = bit_or-bitwise 0

-- The lowest digit apart.
bit_or-halves : (a b : ℕ) → bit_or a b ≡ 2 * bit_or (a / 2) (b / 2) + max (a % 2) (b % 2)
bit_or-halves zero b = omega (arith, bit_or-zero_left b, bit_or-zero_left (b / 2))
bit_or-halves (suc a) b =
    let count =
      digits-count (λ d. d) max (suc a / 2) (b / 2) a (suc a / 2) (omega arith) (omega arith) in
    omega (arith, bit_or-bitwise (suc a) b, bit_or-bitwise (suc a / 2) (b / 2), count)

bit_and-zero_left : (b : ℕ) → bit_and 0 b ≡ 0
bit_and-zero_left = bit_and-bitwise 0

bit_and-halves : (a b : ℕ) → bit_and a b ≡ 2 * bit_and (a / 2) (b / 2) + min (a % 2) (b % 2)
bit_and-halves zero b = omega (arith, bit_and-zero_left b, bit_and-zero_left (b / 2))
bit_and-halves (suc a) b =
    let count =
      digits-count (λ d. 0) min (suc a / 2) (b / 2) a (suc a / 2) (omega arith) (omega arith) in
    omega (arith, bit_and-bitwise (suc a) b, bit_and-bitwise (suc a / 2) (b / 2), count)

below : (n a : ℕ) → a ≤ n → (bit_or a 0 ≡ a) × (bit_and a 0 ≡ 0)
below n zero h = (refl, refl)
below zero (suc a) h = absurd (omega arith)
below (suc n) (suc a) h =
    let (join, meet) = below n (suc a / 2) (omega arith) in
    (omega (arith, bit_or-halves (suc a) 0), omega (arith, bit_and-halves (suc a) 0))

pub two_pow_pos : (k : ℕ) → 0 < 2 ^ k
two_pow_pos zero = omega arith
two_pow_pos (suc k) = omega (arith, pow-suc 2 k, two_pow_pos k)

mod_double : (t a : ℕ) → 0 < t → a % (t * 2) ≡ 2 * (a / 2 % t) + a % 2
mod_double t a pos =
    let rest = 2 * (a / 2 % t) + a % 2 in
    let small : rest < t * 2 = omega (arith, mod-lt (a / 2) pos) in
    let split : a ≡ rest + a / 2 / t * (t * 2) = omega (arith, div-add-mod (a / 2) t) in
    ap (λ x. x % (t * 2)) split
    ∙ add-mul-mod_self_right rest (a / 2 / t) (t * 2)
    ∙ mod-eq_of_lt small

-- `(a << k) | b` is a sum if `b` has at most `k` digits.
pub bit_or-shifted : (k a b : ℕ) → b < 2 ^ k → bit_or (a * 2 ^ k) b ≡ a * 2 ^ k + b
bit_or-shifted zero a b h =
    let none : b ≡ 0 = omega arith in
    let alone = below (a * 2 ^ 0) (a * 2 ^ 0) (omega arith) in
    subst (λ d. bit_or (a * 2 ^ 0) d ≡ a * 2 ^ 0 + d) (sym none) (omega (arith, alone.0))
bit_or-shifted (suc k) a b h =
    let double : 2 ^ suc k ≡ 2 ^ k * 2 = pow-suc 2 k in
    let half : a * (2 ^ k * 2) / 2 ≡ a * 2 ^ k = omega arith in
    rw double (
      omega (
        arith,
        bit_or-halves (a * (2 ^ k * 2)) b,
        ap (λ x. bit_or x (b / 2)) half,
        bit_or-shifted k a (b / 2) (omega (arith, double)),
      ))

-- `a & (2^k - 1)` is the remainder.
pub bit_and-mask : (k a : ℕ) → bit_and a (2 ^ k - 1) ≡ a % 2 ^ k
bit_and-mask zero a = omega (arith, below a a (omega arith))
bit_and-mask (suc k) a =
    let double : 2 ^ suc k ≡ 2 ^ k * 2 = pow-suc 2 k in
    let ones : (2 ^ k * 2 - 1) / 2 ≡ 2 ^ k - 1 = omega (arith, two_pow_pos k) in
    rw double (
      omega (
        arith,
        bit_and-halves a (2 ^ k * 2 - 1),
        ap (bit_and (a / 2)) ones,
        bit_and-mask k (a / 2),
        two_pow_pos k,
        mod_double (2 ^ k) a (two_pow_pos k),
      ))

-- ===== src/Common/Masks.antt =====
-- Masks of low ones at any number: `a & (2^k - 1)` is the remainder by `2^k`.
use Prim.Native.Nat.{
  ℕ, zero, suc, ◌+◌, ◌-◌, ◌*◌, ◌/◌, ◌%◌, ◌^◌, ◌≤◌, ◌<◌, min, bit_and, digits, bit_and-bitwise,
}
use mathlib.Core.Path.{◌≡◌, ap, ◌∙◌}
use native.Mathlib.Omega.{arith}
use native.Mathlib.Decide.{dec_lt}
use native.Mathlib.Nat.{add-mul-mod_self_left, mod-eq_of_lt, mod-lt, div-add-mod, two-pow-succ}

pub two_pow_pos : (k : ℕ) → 0 < 2 ^ k
two_pow_pos zero = omega arith
two_pow_pos (suc k) = omega (arith, two-pow-succ k, two_pow_pos k)

pub two_pow_suc : (k : ℕ) → 2 ^ suc k ≡ 2 * 2 ^ k
two_pow_suc k = omega (arith, two-pow-succ k)

-- The remainder by twice a number, from that of the half.
mod_double : (a m : ℕ) → 0 < m → a % (2 * m) ≡ a / 2 % m * 2 + a % 2
mod_double a m pos =
    ap (λ (x : ℕ). x % (2 * m)) split
    ∙ add-mul-mod_self_left (a / 2 % m * 2 + a % 2) (2 * m) (a / 2 / m)
    ∙ mod-eq_of_lt (omega (arith, mod-lt (a / 2) pos))
  where
    split : a ≡ a / 2 % m * 2 + a % 2 + 2 * m * (a / 2 / m)
    split = omega (arith, div-add-mod (a / 2) m)

and_ones : (n k a : ℕ) → a ≤ n → digits (λ b. zero) min n a (2 ^ k - 1) ≡ a % 2 ^ k
and_ones zero k zero h = omega (arith, mod-eq_of_lt (two_pow_pos k))
and_ones zero k (suc a) h = absurd (omega arith)
and_ones (suc n) k zero h = omega (arith, mod-eq_of_lt (two_pow_pos k))
and_ones (suc n) zero (suc a) h = omega (arith, and_ones n 0 (suc a / 2) (omega arith))
and_ones (suc n) (suc k) (suc a) h =
    let halved : (2 ^ suc k - 1) / 2 ≡ 2 ^ k - 1 = omega (arith, two_pow_suc k, two_pow_pos k) in
    let odd : (2 ^ suc k - 1) % 2 ≡ 1 = omega (arith, two_pow_suc k, two_pow_pos k) in
    rw (halved, odd, and_ones n k (suc a / 2) (omega arith), two_pow_suc k)
      (omega (arith, mod_double (suc a) (2 ^ k) (two_pow_pos k)))

-- `a & (2^k - 1)`.
pub bit_and_ones : (a k : ℕ) → bit_and a (2 ^ k - 1) ≡ a % 2 ^ k
bit_and_ones a k = bit_and-bitwise a (2 ^ k - 1) ∙ and_ones a k a (omega arith)

pub two_pow-le : (j k : ℕ) → j ≤ k → 2 ^ j ≤ 2 ^ k
two_pow-le j zero h = let e : j ≡ 0 = omega arith in rw e (omega arith)
two_pow-le j (suc k) h = elim (dec_lt j (suc k)) [
  | yes lt ↦ omega (arith, two_pow_suc k, two_pow-le j k (omega arith))
  | no ge ↦ let e : j ≡ suc k = omega arith in rw e (omega arith)
]

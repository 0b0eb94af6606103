-- ===== src/Common/Bits.antt =====
-- Masks and shifts on one byte as arithmetic: tables of at most 256 entries, checked by evaluation.
use Prim.Native.Nat.{ℕ, zero, suc, ◌*◌, ◌/◌, ◌%◌, ◌≤◌, ◌<◌, bit_and, compare, Ordering}
use mathlib.Core.Path.{◌≡◌, refl}
use mathlib.Core.Bool.{Bool, true, false, ◌&&◌}
use native.Mathlib.Omega.{arith}

module _ (p : ℕ → Bool) where
  unfoldable pub all_below : ℕ → Bool
  all_below zero = true
  all_below (suc n) = p n && all_below n

  pub all_below_sound : (n x : ℕ) → all_below n ≡ true → x < n → p x ≡ true
  unfolding all_below
  all_below_sound zero x h lt = absurd (omega arith)
  all_below_sound (suc n) x h lt = ground (arith, all_below_sound n x)

abbrev eqb : ℕ → ℕ → Bool
eqb a b = elim (compare a b) [ Ordering.eq ↦ true | _ ↦ false ]

eqb→eq : (a b : ℕ) → eqb a b ≡ true → a ≡ b
eqb→eq a b h = ground arith

-- `buf[0] & 0xc0`: the two top bits.
pub top_two_bits : (b : ℕ) → b < 256 → bit_and b 0xc0 ≡ b / 64 * 64
unfolding all_below
top_two_bits b h =
    eqb→eq _ _ (all_below_sound (λ x. eqb (bit_and x 0xc0) (x / 64 * 64)) 256 b refl h)

-- `num_bits & 3`, for counts of up to 1024 bits.
pub low_two_bits : (n : ℕ) → n ≤ 1024 → bit_and n 3 ≡ n % 4
unfolding all_below
low_two_bits n h =
    eqb→eq _ _ (all_below_sound (λ x. eqb (bit_and x 3) (x % 4)) 1025 n refl (omega arith))

-- ===== src/MediaKey/Masks.antt =====
-- `_calc_v_mask` of aacs.c: the mask above the lowest bit that is set.
use libaacs.Common.{
  ℕ, zero, suc, ◌+◌, ◌-◌, ◌*◌, ◌%◌, ◌^◌, ◌≤◌, ◌<◌, bit_and, ◌≡◌, refl, ap, ◌≢◌, inl, inr, Bool,
  true, false, Option, none, some, arith, ◌==◌, ==_iff, Bool-cases, stuck, Returns, dec_lt,
}
use Prim.Native.Nat.{bit_and-bitwise}
use libaacs.Common.Bits.{all_below, all_below_sound}
use libaacs.Common.Masks.{two_pow-le, bit_and_ones, two_pow_pos, two_pow_suc}
use libaacs.MediaKey.{v_mask_from, calc_v_mask, top_zero, sar32}

-- The 32 bit mask without its `j` low bits.
abbrev pub high_mask : ℕ → ℕ
high_mask j = 2 ^ 32 - 2 ^ j

-- The lowest bit of `uv` that is set is the bit `k`.
abbrev pub IsLowestBit : ℕ → ℕ → Type 0
IsLowestBit uv k = (uv % 2 ^ k ≡ 0) × (uv % 2 ^ suc k ≢ 0)

low_bits_of_mask : (uv j : ℕ) → j ≤ 32 → bit_and uv (0xffff_ffff - high_mask j) ≡ uv % 2 ^ j
low_bits_of_mask uv j h = rw inverted (bit_and_ones uv j)
  where
    inverted : 0xffff_ffff - high_mask j ≡ 2 ^ j - 1
    inverted = omega (arith, two_pow-le j 32 h, two_pow_pos j)

shift_mask : (j : ℕ) → j < 32 → high_mask j * 2 % 2 ^ 32 ≡ high_mask (suc j)
shift_mask j h = omega (arith, two_pow_suc j, two_pow_pos j, two_pow-le (suc j) 32 h)

-- What the loop returns: the mask above the lowest bit.
abbrev pub IsVMask : ℕ → ℕ → Type 0
IsVMask uv v_mask = (k : ℕ) × (k < 32) × IsLowestBit uv k × (v_mask ≡ high_mask (suc k))

v_mask_from-IsVMask :
    (fuel i uv : ℕ)
    → i < 32
    → 32 ≤ fuel + i
    → 0 < uv
    → uv < 2 ^ 32
    → uv % 2 ^ i ≡ 0
    → Returns (IsVMask uv) (v_mask_from fuel uv (high_mask (suc i)))
unfolding v_mask_from
v_mask_from-IsVMask zero i uv few enough some_bit small low = absurd (omega arith)
v_mask_from-IsVMask (suc fuel) i uv few enough some_bit small low =
    rw (low_bits_of_mask uv (suc i) few) (elim (Bool-cases (uv % 2 ^ suc i == 0)) [
      | inl more ↦
          let clear : uv % 2 ^ suc i ≡ 0 = (==_iff _ _).0 more in
          rw more (elim (dec_lt (suc i) 32) [
            | yes lt ↦
                rw (shift_mask (suc i) lt)
                  (v_mask_from-IsVMask fuel (suc i) uv lt (omega arith) some_bit small clear)
            | no ge ↦
                let last : suc i ≡ 32 = omega arith in
                let whole : uv % 2 ^ 32 ≡ 0 = rw last at clear in absurd (omega arith)
          ])
      | inr found ↦ rw found (i, few, (low, ground arith), refl)
    ])

-- For a number that is not 0 the loop ends, and gives the mask of the bits above the lowest one set.
pub calc_v_mask-IsVMask : (uv : ℕ) → 0 < uv → uv < 2 ^ 32 → Returns (IsVMask uv) (calc_v_mask uv)
unfolding calc_v_mask v_mask_from
calc_v_mask-IsVMask uv some_bit small =
    rw first (v_mask_from-IsVMask 32 0 uv (omega arith) (omega arith) some_bit small (omega arith))
  where
    first : (bit_and uv (0xffff_ffff - 0xffff_ffff) == 0) ≡ true
    first = ground (arith, low_bits_of_mask uv 0 (omega arith))

-- For 0 it does not end.
pub v_mask_from_zero : (fuel v_mask : ℕ) → v_mask_from fuel 0 v_mask ≡ stuck
unfolding v_mask_from
v_mask_from_zero zero v_mask = refl
v_mask_from_zero (suc fuel) v_mask =
    rw (zero_and (0xffff_ffff - v_mask)) (v_mask_from_zero fuel (v_mask * 2 % 2 ^ 32))
  where
    zero_and : (m : ℕ) → bit_and 0 m ≡ 0
    zero_and m = bit_and-bitwise 0 m

abbrev is_index : Option ℕ → ℕ → Bool
is_index none i = false
is_index (some z) i = z == i

is_index→eq : (o : Option ℕ) (i : ℕ) → is_index o i ≡ true → o ≡ some i
is_index→eq none i h = cc
is_index→eq (some z) i h = ap some ((==_iff z i).0 h)

top_zero_table : all_below (λ i. is_index (top_zero 32 (high_mask (suc i))) i) 32 ≡ true
unfolding all_below top_zero
top_zero_table = refl

-- The highest zero bit of a mask that lacks `i + 1` low bits is the bit `i`.
pub top_zero-high_mask : (i : ℕ) → i < 32 → top_zero 32 (high_mask (suc i)) ≡ some i
top_zero-high_mask i h = is_index→eq _ i (all_below_sound _ 32 i top_zero_table h)

-- The arithmetic shift adds a one, as long as the top bit is set.
pub sar32-high_mask : (i : ℕ) → i < 31 → sar32 (high_mask (suc i)) ≡ high_mask i
unfolding sar32
sar32-high_mask i h = ground (arith, two_pow_suc i, two_pow_pos i, two_pow-le (suc i) 31)

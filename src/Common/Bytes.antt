-- ===== src/Common/Bytes.antt =====
-- Reads from a byte buffer, and the macros of src/util/macro.h. A pointer into a buffer is an offset.
-- A byte is below 256, so `|` of shifted bytes is `+`.
use Prim.Native.Nat.{ℕ, zero, suc, ◌+◌, ◌-◌, ◌*◌, ◌%◌, ◌^◌, ◌≤◌, ◌<◌}
use mathlib.Core.Path.{◌≡◌, refl}
use mathlib.Core.List.{List, [], ◌∷◌, ◌++◌}
use native.Mathlib.Omega.{arith}
use native.Mathlib.Decide.{dec_lt}
use libaacs.Common.Lists.{length, get_or, All}
use libaacs.Common.Outcome.{Run, ok, fault, ◌>>=◌}

abbrev pub IsByte : ℕ → Type 0
IsByte b = b < 256

-- `size_t` sums and differences.
abbrev pub add64 : ℕ → ℕ → ℕ
add64 a b = (a + b) % 2 ^ 64

abbrev pub sub64 : ℕ → ℕ → ℕ
sub64 a b = (a + 2 ^ 64 - b) % 2 ^ 64

-- A read past the end is a fault.
unfoldable pub byte_at : List ℕ → ℕ → Run ℕ
byte_at [] i = fault
byte_at (x ∷ xs) zero = ok x
byte_at (x ∷ xs) (suc i) = byte_at xs i

unfoldable pub be16 : List ℕ → ℕ → Run ℕ
be16 buf p = do a ← byte_at buf p; b ← byte_at buf (p + 1); ok (a * 2 ^ 8 + b)

unfoldable pub be24 : List ℕ → ℕ → Run ℕ
be24 buf p = do
  a ← byte_at buf p
  b ← byte_at buf (p + 1)
  c ← byte_at buf (p + 2)
  ok (a * 2 ^ 16 + b * 2 ^ 8 + c)

unfoldable pub be32 : List ℕ → ℕ → Run ℕ
be32 buf p = do
  a ← byte_at buf p
  b ← byte_at buf (p + 1)
  c ← byte_at buf (p + 2)
  d ← byte_at buf (p + 3)
  ok (a * 2 ^ 24 + b * 2 ^ 16 + c * 2 ^ 8 + d)

unfoldable pub be48 : List ℕ → ℕ → Run ℕ
be48 buf p = do
  a ← byte_at buf p
  b ← byte_at buf (p + 1)
  c ← byte_at buf (p + 2)
  d ← byte_at buf (p + 3)
  e ← byte_at buf (p + 4)
  f ← byte_at buf (p + 5)
  ok (a * 2 ^ 40 + b * 2 ^ 32 + c * 2 ^ 24 + d * 2 ^ 16 + e * 2 ^ 8 + f)

-- `memcpy(dst, src + p, n)`, the bytes that it reads.
unfoldable pub bytes_at : List ℕ → ℕ → ℕ → Run (List ℕ)
bytes_at buf p zero = ok []
bytes_at buf p (suc n) = do x ← byte_at buf p; xs ← bytes_at buf (p + 1) n; ok (x ∷ xs)

-- The values that the reads give inside of the buffer.
unfoldable pub byte : List ℕ → ℕ → ℕ
byte buf p = get_or buf p 0

unfoldable pub word16 : List ℕ → ℕ → ℕ
word16 buf p = byte buf p * 2 ^ 8 + byte buf (p + 1)

unfoldable pub word24 : List ℕ → ℕ → ℕ
word24 buf p = byte buf p * 2 ^ 16 + byte buf (p + 1) * 2 ^ 8 + byte buf (p + 2)

unfoldable pub word32 : List ℕ → ℕ → ℕ
word32 buf p =
    byte buf p * 2 ^ 24 + byte buf (p + 1) * 2 ^ 16 + byte buf (p + 2) * 2 ^ 8 + byte buf (p + 3)

unfoldable pub word48 : List ℕ → ℕ → ℕ
word48 buf p =
    byte buf p * 2 ^ 40
    + byte buf (p + 1) * 2 ^ 32
    + byte buf (p + 2) * 2 ^ 24
    + byte buf (p + 3) * 2 ^ 16
    + byte buf (p + 4) * 2 ^ 8
    + byte buf (p + 5)

unfoldable pub slice : List ℕ → ℕ → ℕ → List ℕ
slice buf p zero = []
slice buf p (suc n) = byte buf p ∷ slice buf (p + 1) n

pub byte_at_lem : (buf : List ℕ) (p : ℕ) → p < length buf → byte_at buf p ≡ ok (byte buf p)
unfolding byte_at byte
byte_at_lem [] p h = absurd (omega arith)
byte_at_lem (x ∷ xs) zero h = refl
byte_at_lem (x ∷ xs) (suc p) h = byte_at_lem xs p (omega arith)

pub byte_at_past : (buf : List ℕ) (p : ℕ) → length buf ≤ p → byte_at buf p ≡ fault
unfolding byte_at
byte_at_past [] p h = refl
byte_at_past (x ∷ xs) zero h = absurd (omega arith)
byte_at_past (x ∷ xs) (suc p) h = byte_at_past xs p (omega arith)

pub byte_lt : (buf : List ℕ) (p : ℕ) → All IsByte buf → byte buf p < 256
unfolding byte
byte_lt [] p h = omega arith
byte_lt (x ∷ xs) zero h = h.0
byte_lt (x ∷ xs) (suc p) h = byte_lt xs p h.1

pub be16_lem : (buf : List ℕ) (p : ℕ) → p + 2 ≤ length buf → be16 buf p ≡ ok (word16 buf p)
unfolding be16 word16
be16_lem buf p h = rw (byte_at_lem buf p (omega arith), byte_at_lem buf (p + 1) (omega arith)) refl

pub be24_lem : (buf : List ℕ) (p : ℕ) → p + 3 ≤ length buf → be24 buf p ≡ ok (word24 buf p)
unfolding be24 word24
be24_lem buf p h =
    rw
      (
        byte_at_lem buf p (omega arith),
        byte_at_lem buf (p + 1) (omega arith),
        byte_at_lem buf (p + 2) (omega arith),
      )
      refl

pub be32_lem : (buf : List ℕ) (p : ℕ) → p + 4 ≤ length buf → be32 buf p ≡ ok (word32 buf p)
unfolding be32 word32
be32_lem buf p h =
    rw
      (
        byte_at_lem buf p (omega arith),
        byte_at_lem buf (p + 1) (omega arith),
        byte_at_lem buf (p + 2) (omega arith),
        byte_at_lem buf (p + 3) (omega arith),
      )
      refl

pub be48_lem : (buf : List ℕ) (p : ℕ) → p + 6 ≤ length buf → be48 buf p ≡ ok (word48 buf p)
unfolding be48 word48
be48_lem buf p h =
    rw
      (
        byte_at_lem buf p (omega arith),
        byte_at_lem buf (p + 1) (omega arith),
        byte_at_lem buf (p + 2) (omega arith),
        byte_at_lem buf (p + 3) (omega arith),
        byte_at_lem buf (p + 4) (omega arith),
        byte_at_lem buf (p + 5) (omega arith),
      )
      refl

pub bytes_at_lem :
    (buf : List ℕ) (p n : ℕ) → p + n ≤ length buf → bytes_at buf p n ≡ ok (slice buf p n)
unfolding bytes_at slice
bytes_at_lem buf p zero h = refl
bytes_at_lem buf p (suc n) h =
    rw (byte_at_lem buf p (omega arith), bytes_at_lem buf (p + 1) n (omega arith)) refl

pub length-slice : (buf : List ℕ) (p n : ℕ) → length (slice buf p n) ≡ n
unfolding slice
length-slice buf p zero = refl
length-slice buf p (suc n) = omega (arith, length-slice buf (p + 1) n)

pub word16_lt : (buf : List ℕ) (p : ℕ) → All IsByte buf → word16 buf p < 2 ^ 16
unfolding word16
word16_lt buf p h = omega (arith, byte_lt buf p h, byte_lt buf (p + 1) h)

pub word24_lt : (buf : List ℕ) (p : ℕ) → All IsByte buf → word24 buf p < 2 ^ 24
unfolding word24
word24_lt buf p h = omega (arith, byte_lt buf p h, byte_lt buf (p + 1) h, byte_lt buf (p + 2) h)

pub word32_lt : (buf : List ℕ) (p : ℕ) → All IsByte buf → word32 buf p < 2 ^ 32
unfolding word32
word32_lt buf p h =
    omega
      (arith, byte_lt buf p h, byte_lt buf (p + 1) h, byte_lt buf (p + 2) h, byte_lt buf (p + 3) h)

-- Reads behind a prefix.
pub byte-append : (xs ys : List ℕ) (i : ℕ) → byte (xs ++ ys) (length xs + i) ≡ byte ys i
unfolding byte
byte-append [] ys i = rw zero_add refl
  where
    zero_add : 0 + i ≡ i
    zero_add = omega arith
byte-append (x ∷ xs) ys i = rw suc_add (byte-append xs ys i)
  where
    suc_add : suc (length xs) + i ≡ suc (length xs + i)
    suc_add = omega arith

pub word24-append : (xs ys : List ℕ) (i : ℕ) → word24 (xs ++ ys) (length xs + i) ≡ word24 ys i
unfolding word24
word24-append xs ys i =
    rw (shift 1, shift 2, byte-append xs ys i, byte-append xs ys (i + 1), byte-append xs ys (i + 2))
      refl
  where
    shift : (k : ℕ) → length xs + i + k ≡ length xs + (i + k)
    shift k = omega arith

-- A copy that runs past the end is a fault.
pub bytes_at_past : (buf : List ℕ) (p n : ℕ) → length buf < p + n → 0 < n → bytes_at buf p n ≡ fault
unfolding bytes_at
bytes_at_past buf p zero h pos = absurd (omega arith)
bytes_at_past buf p (suc zero) h pos = rw (byte_at_past buf p (omega arith))
bytes_at_past buf p (suc (suc n)) h pos = elim (dec_lt p (length buf)) [
  | yes lt ↦
      rw (byte_at_lem buf p lt, bytes_at_past buf (p + 1) (suc n) (omega arith) (omega arith))
  | no ge ↦ rw (byte_at_past buf p (omega arith))
]

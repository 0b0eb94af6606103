-- ===== src/Cci/Bitcpy.antt =====
-- `_bitcpy` of cci.c: the bytes that it writes, and the bits that it leaves out.
use libaacs.Common.{
  ℕ, ◌+◌, ◌/◌, ◌%◌, ◌≤◌, bit_and, ◌≡◌, List, ◌∷◌, ◌++◌, arith, ◌==◌, if◌then◌else◌, length, drop,
  length-append, ok, Returns, byte, slice, byte_at_lem, bytes_at_lem, length-slice, length-drop,
}
use libaacs.Common.Bits.{low_two_bits}
use libaacs.Cci.{bitcpy, bit_mask}

-- The bytes from `src` on that a copy of so many bits reads.
abbrev pub bytes_read : ℕ → ℕ
bytes_read num_bits = if num_bits % 4 == 0 then num_bits / 8 else num_bits / 8 + 1

-- A copy into 128 bytes of up to 1024 bits reads no more than the bytes that hold them, and keeps the
-- length of the destination.
pub bitcpy-length :
    (dst buf : List ℕ) (src num_bits : ℕ)
    → num_bits ≤ 1024
    → length dst ≡ 128
    → src + bytes_read num_bits ≤ length buf
    → Returns (λ d. length d ≡ 128) (bitcpy dst buf src num_bits)
unfolding bitcpy
bitcpy-length dst buf src num_bits few sized fits = ground (
  arith,
  low_two_bits num_bits,
  bytes_at_lem buf src (num_bits / 8),
  byte_at_lem buf (src + num_bits / 8),
  length-slice buf src (num_bits / 8),
  length-append (slice buf src (num_bits / 8)) (drop (num_bits / 8) dst),
  length-append (slice buf src (num_bits / 8)) (
      bit_and (byte buf (src + num_bits / 8)) (bit_mask (bit_and num_bits 3))
      ∷ drop (num_bits / 8 + 1) dst),
  length-drop (num_bits / 8) dst,
  length-drop (num_bits / 8 + 1) dst,
)

-- Of a number of bits that leaves 0 or 4 modulo 8 only whole bytes are copied: in the second case the
-- last four bits of the source are not in the destination.
pub bitcpy_drops :
    (dst buf : List ℕ) (src num_bits : ℕ)
    → num_bits ≤ 1024
    → num_bits % 4 ≡ 0
    → src + num_bits / 8 ≤ length buf
    → bitcpy dst buf src num_bits ≡ ok (slice buf src (num_bits / 8) ++ drop (num_bits / 8) dst)
unfolding bitcpy
bitcpy_drops dst buf src num_bits few even fits =
    ground (arith, low_two_bits num_bits, bytes_at_lem buf src (num_bits / 8))

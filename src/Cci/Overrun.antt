-- ===== src/Cci/Overrun.antt =====
-- The files on which the parser of cci.c leaves the buffer: the bound on an entry's data length is
-- 12 bytes too large, and the number of bytes left wraps below 0.
use libaacs.Common.{
  ℕ, suc, ◌+◌, ◌-◌, ◌^◌, ◌≤◌, ◌<◌, ◌≡◌, ◌≢◌, List, arith, length, fault, sub64, be16, word16,
  byte_at_past, be16_lem,
}
use libaacs.Cci.{cci_parse_entry, parse_entries, aacs_basic_cci}

be16_past : (buf : List ℕ) (p : ℕ) → length buf ≤ p → be16 buf p ≡ fault
unfolding be16
be16_past buf p h = rw (byte_at_past buf p h)

entry_past :
    (buf : List ℕ) (p size : ℕ) → length buf ≤ p → 6 ≤ size → cci_parse_entry buf p size ≡ fault
unfolding cci_parse_entry
entry_past buf p size h some_bytes = ground (arith, be16_past buf p h)

-- An entry that is no basic CCI, whose data ends 1 to 12 bytes behind the file, is accepted; if
-- another entry is to follow, that is read outside of the file.
pub parse_entries-overrun :
    (n : ℕ) (buf : List ℕ) (p size : ℕ)
    → p + size ≡ length buf
    → 6 ≤ size
    → size < 2 ^ 63
    → word16 buf p ≢ aacs_basic_cci
    → size < 6 + word16 buf (p + 4)
    → word16 buf (p + 4) ≤ size + 6
    → parse_entries (suc (suc n)) buf p size ≡ fault
unfolding parse_entries cci_parse_entry
parse_entries-overrun n buf p size whole header small other over accepted =
    let next_size : sub64 size (6 + word16 buf (p + 4)) ≡ 2 ^ 64 + size - (6 + word16 buf (p + 4)) =
      omega arith in
    ground (
      arith,
      be16_lem buf p,
      be16_lem buf (p + 2),
      be16_lem buf (p + 4),
      be16_past buf (p + (6 + word16 buf (p + 4))),
    )

-- ===== src/Rl/Signed.antt =====
-- What comes out of the cache is a list that was signed.
use libaacs.Common.{
  ℕ, zero, suc, ◌+◌, ◌-◌, ◌*◌, ◌/◌, ◌≤◌, ◌≡◌, refl, inl, inr, Bool, true, false, Option, none, some,
  List, [], ◌∷◌, arith, ltb, leb, Bool-cases, length, Run, ok, fault, stuck, ◌>>=◌, Returns, be32,
  word16, word32, slice, be16_lem, be32_lem, bytes_at_lem,
}
use libaacs.Mmc.Auth.{Curve}
use libaacs.Cache.{CacheRead}
use libaacs.Rl.{
  signed_len, rl_verify_signature, RlEntry, rl_entries, num_records, verified_list, list_in,
}

-- A list in `rl`, and its signature behind it.
abbrev pub IsSignedList : Curve → List ℕ → Type 0
IsSignedList c rl =
    (24 + 8 * word32 rl 20 + 40 ≤ length rl)
    × (c.verify_aacsla (slice rl (24 + 8 * word32 rl 20) 40) (slice rl 0 (24 + 8 * word32 rl 20))
        ≡ true)

abbrev pub Verdict : Curve → List ℕ → Bool → Type 0
Verdict c rl true = IsSignedList c rl
Verdict c rl false = Unit

by_signature :
    (c : Curve) (rl : List ℕ) (n : ℕ)
    → n ≡ 24 + 8 * word32 rl 20
    → n + 40 ≤ length rl
    → Verdict c rl (c.verify_aacsla (slice rl n 40) (slice rl 0 n))
by_signature c rl n e h = elim (Bool-cases (c.verify_aacsla (slice rl n 40) (slice rl 0 n))) [
  | inl valid ↦ rw valid (rw e at h, rw e at valid)
  | inr invalid ↦ rw invalid (record {})
]

signed_len_few : (n : ℕ) → leb ((0xffff_ffff - 24 - 40) / 8) n ≡ false → signed_len n ≡ 24 + 8 * n
unfolding signed_len
signed_len_few n few = ground arith

-- On any bytes the check returns, without a read outside of them, and it accepts only a whole list with a
-- valid signature behind it.
pub rl_verify_signature-Verdict :
    (c : Curve) (rl : List ℕ) → Returns (Verdict c rl) (rl_verify_signature c rl (length rl))
unfolding rl_verify_signature
rl_verify_signature-Verdict c rl = elim (Bool-cases (ltb (length rl) 40)) [
  | inl short ↦ rw short (record {})
  | inr long ↦
      let enough : 40 ≤ length rl = ground arith in
      let entries : be32 rl (12 + 8) ≡ ok (word32 rl 20) = be32_lem rl 20 (omega arith) in
      elim (Bool-cases (leb ((0xffff_ffff - 24 - 40) / 8) (word32 rl 20))) [
        | inl many ↦ rw (long, entries, many) (record {})
        | inr few ↦ elim (Bool-cases (ltb (length rl - 40) (signed_len (word32 rl 20)))) [
          | inl cut ↦ rw (long, entries, few, cut) (record {})
          | inr whole ↦
              let room : signed_len (word32 rl 20) + 40 ≤ length rl =
                within (length rl) (signed_len (word32 rl 20)) enough whole in
              rw
                (
                  long,
                  entries,
                  few,
                  whole,
                  bytes_at_lem rl (signed_len (word32 rl 20)) 40 room,
                  bytes_at_lem rl 0 (signed_len (word32 rl 20)) (omega arith),
                )
                (by_signature c rl (signed_len (word32 rl 20)) (signed_len_few (word32 rl 20) few)
                  room)
        ]
      ]
]
  where
    within : (l n : ℕ) → 40 ≤ l → ltb (l - 40) n ≡ false → n + 40 ≤ l
    within l n h whole = ground arith

-- The entries of a list, eight bytes each.
abbrev pub entries_of : ℕ → List ℕ → ℕ → List RlEntry
entries_of zero rl p = []
entries_of (suc n) rl p =
    (record { range = word16 rl p; id = slice rl (p + 2) 6 }) ∷ entries_of n rl (p + 8)

pub rl_entries-entries_of :
    (n : ℕ) (rl : List ℕ) (p : ℕ)
    → p + 8 * n ≤ length rl
    → rl_entries n rl p ≡ ok (entries_of n rl p)
unfolding rl_entries
rl_entries-entries_of zero rl p h = refl
rl_entries-entries_of (suc n) rl p h =
    rw
      (
        be16_lem rl p (omega arith),
        bytes_at_lem rl (p + 2) 6 (omega arith),
        rl_entries-entries_of n rl (p + 8) (omega arith),
      )
      refl

-- All entries of a signed list, and the version of the file.
abbrev pub IsListOf : Curve → CacheRead → Option (ℕ × List RlEntry) → Type 0
IsListOf c r none = Unit
IsListOf c r (some (version, entries)) =
    (version ≡ r.version)
    × IsSignedList c r.bytes
    × (entries ≡ entries_of (word32 r.bytes 20) r.bytes 24)

verified_list-IsListOf :
    (c : Curve) (r : CacheRead) (valid : Bool) (len : ℕ)
    → length r.bytes ≡ len
    → Verdict c r.bytes valid
    → Returns (IsListOf c r) (verified_list valid r.version r.bytes len)
unfolding verified_list
verified_list-IsListOf c r false len e v = record {}
verified_list-IsListOf c r true len e (long, signed) =
    let n : num_records len (word32 r.bytes 20) ≡ word32 r.bytes 20 =
      unfold num_records in ground arith in
    rw
      (
        be32_lem r.bytes 20 (omega arith),
        n,
        rl_entries-entries_of (word32 r.bytes 20) r.bytes 24 (omega arith),
      )
      (refl, (long, signed), refl)

if_valid :
    (c : Curve) (r : CacheRead) (m : Run Bool)
    → length r.bytes ≡ r.len
    → Returns (Verdict c r.bytes) m
    → Returns (IsListOf c r) (m >>= λ valid. verified_list valid r.version r.bytes r.len)
if_valid c r (ok valid) e v = verified_list-IsListOf c r valid r.len e v
if_valid c r fault e v = v
if_valid c r stuck e v = v

pub list_in-IsListOf :
    (c : Curve) (r : CacheRead)
    → (r.found ≡ true → length r.bytes ≡ r.len)
    → Returns (IsListOf c r) (list_in c r)
unfolding list_in
list_in-IsListOf c r whole = elim (Bool-cases r.found) [
  | inr missing ↦ rw missing (record {})
  | inl found ↦ elim (Bool-cases (ltb 24 r.len)) [
    | inr short ↦ rw (found, short) (record {})
    | inl long ↦
        let all : length r.bytes ≡ r.len = whole found in
        rw (found, long)
          (if_valid c r (rl_verify_signature c r.bytes r.len) all
            (rw all at (rl_verify_signature-Verdict c r.bytes)))
  ]
]

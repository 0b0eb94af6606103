-- ===== src/Mkb/Safety.antt =====
-- The walk of mkb.c over any file image: it stays inside of the buffer, and it ends.
use libaacs.Common.{
  ℕ, zero, suc, ◌+◌, ◌-◌, ◌^◌, ◌≤◌, ◌<◌, ◌≡◌, Option, none, some, arith, length, All, Run, ok,
  fault, stuck, ◌>>=◌, Returns, IsByte, byte, word24, byte_at_lem, be24_lem, be32_lem, word24_lt,
  word32_lt,
}
use libaacs.Mkb.{
  Mkb, find_from, find_record, simple_record, record_body, record_len, long_record, field_or_zero,
  mkb_type_and_version_record, mkb_type, mkb_version,
}

-- The block is what was read from the file. An object is smaller than half of the address space.
pub record IsValid (mkb : Mkb) : Type 0 where
  pub sized : mkb.size ≡ length mkb.buf
  pub small : mkb.size < 2 ^ 63
  pub bytes : All IsByte mkb.buf

-- `r` is none, or a whole record of that type inside of the block.
abbrev pub IsRecord : Mkb → ℕ → Option (ℕ × ℕ) → Type 0
IsRecord mkb type none = Unit {0}
IsRecord mkb type (some (pos, len)) =
    (byte mkb.buf pos ≡ type)
    × (word24 mkb.buf (pos + 1) ≡ len)
    × (pos + 4 ≤ mkb.size)
    × (pos + len ≤ mkb.size)

find_from-IsRecord :
    (fuel : ℕ) (mkb : Mkb) (type pos : ℕ)
    → IsValid mkb
    → pos < 2 ^ 63 + 2 ^ 24
    → mkb.size < fuel + pos
    → 0 < fuel
    → Returns (IsRecord mkb type) (find_from fuel mkb type pos)
unfolding find_from
find_from-IsRecord zero mkb type pos v near enough some_fuel = absurd (omega arith)
find_from-IsRecord (suc fuel) mkb type pos v near enough some_fuel =
    let sized = v.sized in
    let small = v.small in
    let short = word24_lt mkb.buf (pos + 1) v.bytes in
    ground (
      arith,
      be24_lem mkb.buf (pos + 1),
      byte_at_lem mkb.buf pos,
      find_from-IsRecord fuel mkb type (pos + word24 mkb.buf (pos + 1)) v,
    )

-- On any image the search returns, reads nothing outside of it, and finds no record but a whole one
-- of the type asked for.
pub find_record-IsRecord :
    (mkb : Mkb) (type : ℕ) → IsValid mkb → Returns (IsRecord mkb type) (find_record mkb type)
unfolding find_record
find_record-IsRecord mkb type v =
    find_from-IsRecord (suc mkb.size) mkb type 0 v (omega arith) (omega arith) (omega arith)

-- The body that `simple_record` returns lies inside of the block, behind a header of that type.
abbrev pub IsBody : Mkb → ℕ → Option ℕ × ℕ → Type 0
IsBody mkb type (none, len) = Unit {0}
IsBody mkb type (some pos, len) =
    (4 ≤ pos) × (byte mkb.buf (pos - 4) ≡ type) × (pos + len ≤ mkb.size)

record_body-IsBody :
    (mkb : Mkb) (type len : ℕ) (r : Option (ℕ × ℕ))
    → IsRecord mkb type r
    → Returns (IsBody mkb type) (record_body r (record_len r (some len)))
unfolding record_body record_len
record_body-IsBody mkb type len none h = tt
record_body-IsBody mkb type len (some (pos, found)) h = ground arith

-- A step that keeps `P` leads from what returns with `P` to what returns with `Q`.
pub Returns->>= :
    {A B : Type 0} (P : A → Type 0) (Q : B → Type 0) (m : Run A) (f : A → Run B)
    → Returns P m
    → ((a : A) → P a → Returns Q (f a))
    → Returns Q (m >>= f)
Returns->>= P Q (ok a) f h k = k a h
Returns->>= P Q fault f h k = absurd h
Returns->>= P Q stuck f h k = absurd h

-- With an initialised `*len`, `simple_record` returns on any image, and gives NULL or a body that
-- lies inside of it, behind a header of the type asked for.
pub simple_record-IsBody :
    (mkb : Mkb) (type len : ℕ)
    → IsValid mkb
    → Returns (IsBody mkb type) (simple_record mkb type (some len))
unfolding simple_record
simple_record-IsBody mkb type len v =
    Returns->>= (IsRecord mkb type) (IsBody mkb type) (find_record mkb type) _
      (find_record-IsRecord mkb type v) (record_body-IsBody mkb type len)

-- Without one it reads the variable that was never written, wherever the record is missing.
pub simple_record_uninitialised :
    (mkb : Mkb) (type : ℕ) → find_record mkb type ≡ ok none → simple_record mkb type none ≡ fault
unfolding simple_record record_body record_len
simple_record_uninitialised mkb type h = rw h

-- Twelve bytes of the block from the offset on.
abbrev pub HasTwelve : Mkb → Option ℕ → Type 0
HasTwelve mkb none = Unit {0}
HasTwelve mkb (some pos) = pos + 12 ≤ mkb.size

long_record-HasTwelve :
    (mkb : Mkb) (r : Option (ℕ × ℕ)) → IsRecord mkb 0x10 r → HasTwelve mkb (long_record 12 r)
unfolding long_record
long_record-HasTwelve mkb none h = tt
long_record-HasTwelve mkb (some (pos, len)) h = ground arith

pub version_record-HasTwelve :
    (mkb : Mkb) → IsValid mkb → Returns (HasTwelve mkb) (mkb_type_and_version_record mkb)
unfolding mkb_type_and_version_record
version_record-HasTwelve mkb v =
    Returns->>= (IsRecord mkb 0x10) (HasTwelve mkb) (find_record mkb 0x10) _
      (find_record-IsRecord mkb 0x10 v) (long_record-HasTwelve mkb)

field_or_zero-lt :
    (mkb : Mkb) (at : ℕ) (r : Option ℕ)
    → IsValid mkb
    → at ≤ 8
    → HasTwelve mkb r
    → Returns (λ x. x < 2 ^ 32) (field_or_zero mkb r at)
unfolding field_or_zero
field_or_zero-lt mkb at none v h t = omega arith
field_or_zero-lt mkb at (some pos) v h t =
    let sized = v.sized in
    rw (be32_lem mkb.buf (pos + at) (omega arith)) (word32_lt mkb.buf (pos + at) v.bytes)

-- The type and the version are read from inside of any image, and are 32 bit numbers.
pub mkb_type_version-lt :
    (mkb : Mkb)
    → IsValid mkb
    → Returns (λ x. x < 2 ^ 32) (mkb_type mkb) × Returns (λ x. x < 2 ^ 32) (mkb_version mkb)
unfolding mkb_type mkb_version
mkb_type_version-lt mkb v =
    let step = λ (at : ℕ) (h : at ≤ 8).
      Returns->>= (HasTwelve mkb) (λ x. x < 2 ^ 32) (mkb_type_and_version_record mkb)
        (λ r. field_or_zero mkb r at) (version_record-HasTwelve mkb v)
        (λ r t. field_or_zero-lt mkb at r v h t) in
    (step 4 (omega arith), step 8 (omega arith))

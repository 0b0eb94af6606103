-- ===== src/Mkb.antt =====
-- src/libaacs/mkb.c: the media key block, a chain of records in a file image.
-- A `const uint8_t *` into the block is an offset in `buf`, and NULL is `none`. Allocation succeeds.
pub mod Safety
pub mod Lookup
pub mod DataSize
pub mod Revocation
pub mod Dv
mod Examples
use libaacs.Common.{
  ℕ, zero, suc, ◌+◌, ◌-◌, ◌*◌, ◌/◌, ◌%◌, ◌^◌, ◌&&◌, ◌||◌, Option, none, some, List, Run, ok, fault,
  stuck, ◌>>=◌, ltb, leb, ◌==◌, if◌then◌else◌, byte_at, be16, be24, be32, be48, add64,
}

-- `struct mkb`.
pub record Mkb : Type 0 where
  pub size : ℕ
  pub buf : List ℕ

pub mkb_init : List ℕ → ℕ → Mkb
mkb_init bytes len = record { size = len; buf = bytes }

-- The loop of `_record`: a record's offset and length. `*rec_len` is written only where one is found.
find_from : ℕ → Mkb → ℕ → ℕ → Run (Option (ℕ × ℕ))
find_from zero mkb type pos = stuck
find_from (suc fuel) mkb type pos =
    if leb (add64 pos 4) mkb.size
    then (do
      len ← be24 mkb.buf (pos + 1)
      here ← byte_at mkb.buf pos
      let rest = find_from fuel mkb type (add64 pos len)
      if here == type
          then (if ltb (mkb.size - pos) len then ok none else ok (some (pos, len)))
          else (if len == 0 then ok none else rest))
    else ok none

-- Each round but the last moves on by a byte at least.
pub find_record : Mkb → ℕ → Run (Option (ℕ × ℕ))
unfolding find_from
find_record mkb type = find_from (suc mkb.size) mkb type 0

-- The loop of `mkb_data_size`, which has no test for a length of 0.
data_size_from : ℕ → Mkb → ℕ → Run ℕ
data_size_from zero mkb pos = stuck
data_size_from (suc fuel) mkb pos =
    if leb (add64 pos 4) mkb.size
    then (do
      here ← byte_at mkb.buf pos
      len ← be24 mkb.buf (pos + 1)
      let rest = data_size_from fuel mkb (add64 pos len)
      if here == 0 then ok pos else rest)
    else ok pos

pub mkb_data_size : ℕ → Mkb → Run ℕ
unfolding data_size_from
mkb_data_size fuel mkb = do
  pos ← data_size_from fuel mkb 0
  if ltb mkb.size pos then ok mkb.size else ok pos

-- `*len` after the call of `_record`; `none` is a variable that nothing was written to.
record_len : Option (ℕ × ℕ) → Option ℕ → Option ℕ
record_len none len = len
record_len (some (pos, found)) len = some found

-- The end of `_simple_record`, from the test of `*len` on.
record_body : Option (ℕ × ℕ) → Option ℕ → Run (Option ℕ × ℕ)
record_body r none = fault
record_body none (some len) = ok (none, len)
record_body (some (pos, found)) (some len) =
    if ltb len 4 then ok (none, len) else ok (some (pos + 4), len - 4)

-- The body of a record, and `*len` after the call.
pub simple_record : Mkb → ℕ → Option ℕ → Run (Option ℕ × ℕ)
unfolding find_record record_len record_body
simple_record mkb type len = do r ← find_record mkb type; record_body r (record_len r len)

long_record : ℕ → Option (ℕ × ℕ) → Option ℕ
long_record least none = none
long_record least (some (pos, len)) = if ltb len least then none else some pos

-- `len` is 0 before the search, so a missing record is a short one.
pub mkb_type_and_version_record : Mkb → Run (Option ℕ)
unfolding find_record long_record
mkb_type_and_version_record mkb = do r ← find_record mkb 0x10; ok (long_record 12 r)

field_or_zero : Mkb → Option ℕ → ℕ → Run ℕ
field_or_zero mkb none at = ok 0
field_or_zero mkb (some pos) at = be32 mkb.buf (pos + at)

pub mkb_type : Mkb → Run ℕ
unfolding mkb_type_and_version_record field_or_zero
mkb_type mkb = do r ← mkb_type_and_version_record mkb; field_or_zero mkb r 4

pub mkb_version : Mkb → Run ℕ
unfolding mkb_type_and_version_record field_or_zero
mkb_version mkb = do r ← mkb_type_and_version_record mkb; field_or_zero mkb r 8

pub mkb_host_revokation_entries : Mkb → Option ℕ → Run (Option ℕ × ℕ)
unfolding simple_record
mkb_host_revokation_entries mkb len = simple_record mkb 0x21 len

pub mkb_drive_revokation_entries : Mkb → Option ℕ → Run (Option ℕ × ℕ)
unfolding simple_record
mkb_drive_revokation_entries mkb len = simple_record mkb 0x20 len

unfoldable pub mkb_subdiff_records : Mkb → Option ℕ → Run (Option ℕ × ℕ)
mkb_subdiff_records mkb len = simple_record mkb 0x04 len

unfoldable pub mkb_cvalues : Mkb → Option ℕ → Run (Option ℕ × ℕ)
mkb_cvalues mkb len = simple_record mkb 0x05 len

pub mkb_signature : Mkb → Option ℕ → Run (Option ℕ × ℕ)
mkb_signature mkb len = simple_record mkb 0x02 len

-- MKB_20_CATEGORY_C and MKB_21_CATEGORY_C have their own record.
pub dv_record : ℕ → ℕ
dv_record type = if type == 0x48141003 || type == 0x48151003 then 0x86 else 0x81

at_least : ℕ → Option ℕ × ℕ → Option ℕ
at_least least (r, len) = if ltb len least then none else r

-- `len` is not initialised here.
pub mkb_mk_dv : Mkb → Run (Option ℕ)
unfolding dv_record at_least
mkb_mk_dv mkb = do
  type ← mkb_type mkb
  r ← simple_record mkb (dv_record type) none
  ok (at_least 16 r)

-- What `_cert_is_revoked` returns: 0, 1 and -1.
pub data CertStatus : Type 0 where
  not_revoked revoked unknown : CertStatus

-- The loop over the entries. `id + len` is a `uint64_t`, of a 48 bit and a 16 bit number.
revoked_in : ℕ → List ℕ → ℕ → ℕ → Run CertStatus
revoked_in zero buf rl cert_id = ok not_revoked
revoked_in (suc n) buf rl cert_id = do
  len ← be16 buf rl
  first ← be48 buf (rl + 2)
  let rest = revoked_in n buf (rl + 8) cert_id
  if leb first cert_id && leb cert_id (first + len) then ok revoked else rest

-- `4 + 4 + 8 * entries + 40`, computed as a `uint32_t`.
rl_record_len : ℕ → ℕ
rl_record_len entries = (4 + 4 + 8 * entries + 40) % 2 ^ 32

pub cert_is_revoked : List ℕ → ℕ → ℕ → List ℕ → Run CertStatus
unfolding revoked_in rl_record_len
cert_is_revoked buf rl rl_size cert_id_bin =
    if ltb 8 rl_size
    then (do
      cert_id ← be48 cert_id_bin 0
      entries ← be32 buf (rl + 4)
      if leb ((0xffff_ffff - 8 - 40) / 8) entries
          then ok not_revoked
          else if ltb rl_size (rl_record_len entries)
          then ok unknown
          else revoked_in entries buf (rl + 8) cert_id)
    else ok not_revoked

status_in : Mkb → List ℕ → Option ℕ × ℕ → Run CertStatus
status_in mkb cert_id (none, len) = ok unknown
status_in mkb cert_id (some rl, len) = cert_is_revoked mkb.buf rl len cert_id

pub mkb_host_cert_is_revoked : Mkb → List ℕ → Run CertStatus
unfolding mkb_host_revokation_entries status_in cert_is_revoked
mkb_host_cert_is_revoked mkb cert_id = do
  r ← mkb_host_revokation_entries mkb (some 0)
  status_in mkb cert_id r

pub mkb_drive_cert_is_revoked : Mkb → List ℕ → Run CertStatus
unfolding mkb_drive_revokation_entries status_in cert_is_revoked
mkb_drive_cert_is_revoked mkb cert_id = do
  r ← mkb_drive_revokation_entries mkb (some 0)
  status_in mkb cert_id r

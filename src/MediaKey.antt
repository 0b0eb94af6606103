-- ===== src/MediaKey.antt =====
-- src/libaacs/aacs.c, the media key: subset differences, device keys and processing keys.
-- Masks and node numbers are `uint32_t`; the block cipher is a parameter.
pub mod Masks
pub mod Verified
pub mod ByDevices
pub mod Examples
pub mod ProcessingKey
use libaacs.Common.{
  ℕ, zero, suc, ◌+◌, ◌-◌, ◌*◌, ◌/◌, ◌%◌, ◌^◌, bit_and, Bool, not, ◌&&◌, ◌||◌, Option, none, some,
  List, [], ◌∷◌, ◌++◌, ltb, ◌==◌, if◌then◌else◌, same_bytes, take, drop, Run, ok, fault, stuck,
  ◌>>=◌, ◌>>◌, byte_at, be32, bytes_at,
}
use libaacs.ErrorCode.{ErrorCode, success, corrupted_disc, no_pk, no_dk, unknown_error}
use libaacs.Crypto.{Aes, xor_bytes, crypto_aesg3}
use libaacs.Mkb.{Mkb, mkb_subdiff_records, mkb_cvalues, mkb_mk_dv}

-- `struct dk_entry`; a `dk_list` is a list of them.
pub record DeviceKey : Type 0 where
  pub key : List ℕ
  pub node : ℕ
  pub uv : ℕ
  pub u_mask_shift : ℕ

-- `x << s`, which has no meaning in C from 32 on.
pub shl32 : ℕ → ℕ → Run ℕ
shl32 x s = if ltb s 32 then ok (x * 2 ^ s % 2 ^ 32) else fault

-- `((int) x) >> 1`, which keeps the top bit.
pub sar32 : ℕ → ℕ
sar32 x = if ltb x (2 ^ 31) then x / 2 else x / 2 + 2 ^ 31

-- The loop of `_calc_v_mask`: `~v_mask` is the difference to all ones.
pub v_mask_from : ℕ → ℕ → ℕ → Run ℕ
v_mask_from zero uv v_mask = stuck
v_mask_from (suc fuel) uv v_mask =
    let rest = v_mask_from fuel uv (v_mask * 2 % 2 ^ 32) in
    if bit_and uv (0xffff_ffff - v_mask) == 0 then rest else ok v_mask

-- 32 shifts take all ones to 0.
pub calc_v_mask : ℕ → Run ℕ
unfolding v_mask_from
calc_v_mask uv = v_mask_from 33 uv 0xffff_ffff

-- `for (i = 31; i >= 0; i--)` up to the first zero bit; `none` is -1.
pub top_zero : ℕ → ℕ → Option ℕ
top_zero zero mask = none
top_zero (suc i) mask =
    let rest = top_zero i mask in if bit_and mask (2 ^ i) == 0 then some i else rest

pub child : ℕ → Option ℕ → List ℕ → List ℕ → List ℕ
child uv none left right = left
child uv (some i) left right = if bit_and uv (2 ^ i) == 0 then left else right

-- The loop of `_calc_pk`. `none` is `AACS_ERROR_UNKNOWN`.
pub pk_from : ℕ → Aes → ℕ → ℕ → ℕ → List ℕ × List ℕ × List ℕ → Run (Option (List ℕ))
pk_from zero aes uv v_mask dev_key_v_mask keys = stuck
pk_from (suc fuel) aes uv v_mask dev_key_v_mask (left, right, pk) =
    let rest : Run (Option (List ℕ)) =
      elim (crypto_aesg3 aes (child uv (top_zero 32 dev_key_v_mask) left right)) [
        | none ↦ ok none
        | some keys ↦ pk_from fuel aes uv v_mask (sar32 dev_key_v_mask) keys
      ] in
    if dev_key_v_mask == v_mask then ok (some pk) else rest

pub calc_pk : ℕ → Aes → List ℕ → ℕ → ℕ → ℕ → Run (Option (List ℕ))
unfolding pk_from
calc_pk fuel aes dk uv v_mask dev_key_v_mask = elim (crypto_aesg3 aes dk) [
  | none ↦ ok none
  | some keys ↦ pk_from fuel aes uv v_mask dev_key_v_mask keys
]

-- The loop of `_find_dk`: the key that applies, with its v mask.
dk_in : List DeviceKey → ℕ → ℕ → ℕ → Run (Option (DeviceKey × ℕ))
unfolding shl32
dk_in [] device_number uv u_mask = ok none
dk_in (k ∷ ks) device_number uv u_mask =
    let rest = dk_in ks device_number uv u_mask in
    if not (device_number == k.node) || k.uv == 0 then rest else (do
      dev_key_u_mask ← shl32 0xffff_ffff k.u_mask_shift
      dev_key_v_mask ← calc_v_mask k.uv
      if u_mask == dev_key_u_mask && bit_and uv dev_key_v_mask == bit_and k.uv dev_key_v_mask
          then ok (some (k, dev_key_v_mask))
          else rest)

pub find_dk : List DeviceKey → ℕ → ℕ → Run (Option (DeviceKey × ℕ))
unfolding dk_in
find_dk [] uv u_mask = fault
find_dk (k ∷ ks) uv u_mask = dk_in (k ∷ ks) (k.node % 2 ^ 32) uv u_mask

-- A subset difference of the block: its index, its number, and its masks.
pub record Subset : Type 0 where
  pub uvs_idx : ℕ
  pub uv : ℕ
  pub u_mask : ℕ
  pub v_mask : ℕ

-- The device is below the node of the one mask and not below that of the other.
pub applies : ℕ → ℕ → ℕ → ℕ → Bool
applies device_number uv u_mask v_mask =
    bit_and device_number u_mask == bit_and uv u_mask
    && not (bit_and device_number v_mask == bit_and uv v_mask)

-- The search of `_calc_mk_dks` for a subset difference, over `n` of them from `uvs_idx` on.
pub subset_from : ℕ → List ℕ → ℕ → ℕ → ℕ → Run (Option Subset)
unfolding shl32 applies
subset_from zero buf uvs uvs_idx device_number = ok none
subset_from (suc n) buf uvs uvs_idx device_number = do
  let rest = subset_from n buf uvs (uvs_idx + 1) device_number
  u_mask_shift ← byte_at buf (uvs + 5 * uvs_idx)
  uv ← be32 buf (uvs + 1 + 5 * uvs_idx)
  if uv == 0 then rest else if not (bit_and u_mask_shift 0xc0 == 0) then ok none else (do
    u_mask ← shl32 0xffff_ffff u_mask_shift
    v_mask ← calc_v_mask uv
    if applies device_number uv u_mask v_mask
        then ok (some (record { uvs_idx = uvs_idx; uv = uv; u_mask = u_mask; v_mask = v_mask }))
        else rest)

pub verification_data : List ℕ
verification_data = 0x01 ∷ 0x23 ∷ 0x45 ∷ 0x67 ∷ 0x89 ∷ 0xAB ∷ 0xCD ∷ 0xEF ∷ []

-- `_validate_pk`: the result, and `mk` as it was left.
pub validate_pk : Aes → List ℕ → List ℕ → List ℕ → List ℕ → List ℕ → ErrorCode × List ℕ
unfolding verification_data
validate_pk aes pk cvalue uv vd mk = elim (aes.decrypt pk cvalue) [
  | none ↦ (unknown_error, mk)
  | some key ↦
      let mk' = take 12 key ++ xor_bytes (drop 12 key) uv in
      elim (aes.decrypt mk' vd) [
        | none ↦ (unknown_error, mk')
        | some dec_vd ↦
            if same_bytes (take 8 dec_vd) verification_data then (success, mk') else (no_pk, mk')
      ]
]

-- The pointers of `_calc_mk_dks` into the block: subset differences, their number, cvalues and
-- verification data.
pub record Records : Type 0 where
  pub uvs : ℕ
  pub num_uvs : ℕ
  pub cvalues : ℕ
  pub mk_dv : ℕ

-- `_validate_pk` on the entry `a` of the records.
unfoldable pub validate_at : Aes → List ℕ → Records → List ℕ → ℕ → List ℕ → Run (ErrorCode × List ℕ)
unfolding validate_pk
validate_at aes buf r pk a mk = do
  cvalue ← bytes_at buf (r.cvalues + a * 16) 16
  uv ← bytes_at buf (r.uvs + 1 + a * 5) 4
  vd ← bytes_at buf r.mk_dv 16
  ok (validate_pk aes pk cvalue uv vd mk)

-- What one device gives: `none` for "try next device".
device_pk : ℕ → Aes → List ℕ → Records → List DeviceKey → ℕ → Run (Option (List ℕ × ℕ))
unfolding subset_from
device_pk fuel aes buf r keys device_number = do
  s ← subset_from r.num_uvs buf r.uvs 0 device_number
  elim s [
    | none ↦ ok none
    | some subset ↦ do
      dk ← find_dk keys subset.uv subset.u_mask
      elim dk [
        | none ↦ ok none
        | some (key, dev_key_v_mask) ↦ do
          pk ← calc_pk fuel aes key.key subset.uv subset.v_mask dev_key_v_mask
          elim pk [ none ↦ ok none | some p ↦ ok (some (p, subset.uvs_idx)) ]
      ]
  ]

-- The loop of `_calc_mk_dks` over the devices.
pub devices_from :
    ℕ → Aes → List ℕ → Records → ℕ → List DeviceKey → List ℕ → Run (ErrorCode × List ℕ)
unfolding device_pk validate_at
devices_from fuel aes buf r device_number [] mk = ok (no_dk, mk)
devices_from fuel aes buf r device_number (k ∷ ks) mk =
    let next = λ (mk' : List ℕ). devices_from fuel aes buf r (k.node % 2 ^ 32) ks mk' in
    let same = devices_from fuel aes buf r device_number ks mk in
    if device_number == k.node then same else (do
      pk ← device_pk fuel aes buf r (k ∷ ks) (k.node % 2 ^ 32)
      elim pk [
        | none ↦ next mk
        | some (p, uvs_idx) ↦ do
          (code, mk') ← validate_at aes buf r p uvs_idx mk
          elim code [ success ↦ ok (success, mk') | _ ↦ next mk' ]
      ])

-- `num_uvs` comes from `len`, which is the length of the cvalues by then.
pub dks_records : Option ℕ × ℕ → Option ℕ × ℕ → Option ℕ → Option Records
dks_records (some uvs, uvs_len) (some cvalues, len) (some mk_dv) =
    some (record { uvs = uvs; num_uvs = len / 5; cvalues = cvalues; mk_dv = mk_dv })
dks_records _ _ _ = none

pub calc_mk_dks : ℕ → Aes → Mkb → List DeviceKey → List ℕ → Run (ErrorCode × List ℕ)
unfolding dks_records devices_from
calc_mk_dks fuel aes mkb dkl mk = do
  uvs ← mkb_subdiff_records mkb none
  cvalues ← mkb_cvalues mkb (some uvs.1)
  mk_dv ← mkb_mk_dv mkb
  elim (dks_records uvs cvalues mk_dv) [
    | none ↦ ok (corrupted_disc, mk)
    | some r ↦
        if ltb r.num_uvs 1
        then ok (corrupted_disc, mk)
        else devices_from fuel aes mkb.buf r (2 ^ 32 - 1) dkl mk
  ]

-- `while (rec < uvs + len)`: the number of entries before one that has a top bit set.
count_uvs : ℕ → List ℕ → ℕ → ℕ → Run ℕ
count_uvs zero buf rec end = stuck
count_uvs (suc fuel) buf rec end =
    if ltb rec end
    then (do
      let more = (do n ← count_uvs fuel buf (rec + 5) end; ok (suc n))
      first ← byte_at buf rec
      if bit_and first 0xc0 == 0 then more else ok 0)
    else ok 0

-- From NULL the loop reads address 0, unless there is nothing to read.
unfoldable pub num_pks_uvs : List ℕ → Option ℕ × ℕ → Run ℕ
unfolding count_uvs
num_pks_uvs buf (none, len) = if len == 0 then ok 0 else fault
num_pks_uvs buf (some uvs, len) = count_uvs (suc len) buf uvs (uvs + len)

-- The inner loop of `_calc_mk_pks`, over `n` entries from `a` on.
unfoldable pub pk_entries :
    ℕ → Aes → List ℕ → Records → List ℕ → ℕ → List ℕ → Run (ErrorCode × List ℕ)
unfolding validate_at
pk_entries zero aes buf r pk a mk = ok (no_pk, mk)
pk_entries (suc n) aes buf r pk a mk = do
  (code, mk') ← validate_at aes buf r pk a mk
  elim code [ success ↦ ok (success, mk') | _ ↦ pk_entries n aes buf r pk (a + 1) mk' ]

-- The outer loop, over the processing keys.
unfoldable pub pks_from : Aes → List ℕ → Records → List (List ℕ) → List ℕ → Run (ErrorCode × List ℕ)
unfolding pk_entries
pks_from aes buf r [] mk = ok (no_pk, mk)
pks_from aes buf r (pk ∷ pkl) mk = do
  (code, mk') ← pk_entries r.num_uvs aes buf r pk 0 mk
  elim code [ success ↦ ok (success, mk') | _ ↦ pks_from aes buf r pkl mk' ]

-- `uvs` is read only if there are entries.
unfoldable pub uvs_or_null : Option ℕ → ℕ
uvs_or_null none = 0
uvs_or_null (some uvs) = uvs

-- With the cvalues, if there are any.
unfoldable pub with_cvalues :
    Aes → List ℕ → List (List ℕ) → List ℕ → ℕ → ℕ → ℕ → Option ℕ → Run (ErrorCode × List ℕ)
unfolding pks_from
with_cvalues aes buf pkl mk dv uvs num_uvs none = ok (corrupted_disc, mk)
with_cvalues aes buf pkl mk dv uvs num_uvs (some cvalues) =
    let r : Records = record { uvs = uvs; num_uvs = num_uvs; cvalues = cvalues; mk_dv = dv } in
    pks_from aes buf r pkl mk

-- With the verification data, if there is any.
unfoldable pub with_mk_dv : Aes → Mkb → List (List ℕ) → List ℕ → Option ℕ → Run (ErrorCode × List ℕ)
unfolding num_pks_uvs with_cvalues uvs_or_null
with_mk_dv aes mkb pkl mk none = ok (corrupted_disc, mk)
with_mk_dv aes mkb pkl mk (some dv) = do
  uvs ← mkb_subdiff_records mkb none
  num_uvs ← num_pks_uvs mkb.buf uvs
  cvalues ← mkb_cvalues mkb (some uvs.1)
  with_cvalues aes mkb.buf pkl mk dv (uvs_or_null uvs.0) num_uvs cvalues.0

pub calc_mk_pks : Aes → Mkb → List (List ℕ) → List ℕ → Run (ErrorCode × List ℕ)
unfolding with_mk_dv
calc_mk_pks aes mkb pkl mk = do dv ← mkb_mk_dv mkb; with_mk_dv aes mkb pkl mk dv

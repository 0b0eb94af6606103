-- ===== src/MediaKey/ByDevices.antt =====
-- The media key by device keys, `_calc_mk_dks` of aacs.c.
use libaacs.Common.{
  ℕ, ◌-◌, ◌/◌, ◌%◌, ◌^◌, ◌≡◌, Option, none, some, List, [], ◌∷◌, ltb, ◌==◌, if◌then◌else◌, Run, ok,
  fault, stuck, ◌>>=◌,
}
use libaacs.Common.Partial.{WhenOk, WhenOk-if, WhenOk-from}
use libaacs.ErrorCode.{ErrorCode, success, corrupted_disc}
use libaacs.Crypto.{Aes}
use libaacs.Mkb.{Mkb, mkb_subdiff_records, mkb_cvalues, mkb_mk_dv}
use libaacs.MediaKey.{
  DeviceKey, Records, validate_at, device_pk, devices_from, dks_records, calc_mk_dks,
}
use libaacs.MediaKey.Verified.{OnKey, IsKeyAt, IsKeyOf, validate_at-OnKey, or_else, OnKey-map}

-- What one device gives, or else what the next ones give.
or_next :
    (aes : Aes) (buf : List ℕ) (r : Records) (mk : List ℕ) (m : Run (Option (List ℕ × ℕ)))
    (next : List ℕ → Run (ErrorCode × List ℕ))
    → ((mk' : List ℕ) → WhenOk (OnKey (IsKeyAt aes buf r.mk_dv)) (next mk'))
    → WhenOk (OnKey (IsKeyAt aes buf r.mk_dv)) (
        m >>= λ pk. elim pk [
          | none ↦ next mk
          | some (p, a) ↦ validate_at aes buf r p a mk >>= λ x. elim x.0 [
            | success ↦ ok (success, x.1)
            | _ ↦ next x.1
          ]
        ])
or_next aes buf r mk (ok none) next rest = rest mk
or_next aes buf r mk (ok (some (p, a))) next rest =
    or_else (IsKeyAt aes buf r.mk_dv) (validate_at aes buf r p a mk) next
      (validate_at-OnKey aes buf r p a mk) rest
or_next aes buf r mk fault next rest = record {}
or_next aes buf r mk stuck next rest = record {}

devices_from-OnKey :
    (fuel : ℕ) (aes : Aes) (buf : List ℕ) (r : Records) (device_number : ℕ) (dkl : List DeviceKey)
    (mk : List ℕ)
    → WhenOk (OnKey (IsKeyAt aes buf r.mk_dv)) (devices_from fuel aes buf r device_number dkl mk)
unfolding devices_from
devices_from-OnKey fuel aes buf r device_number [] mk = record {}
devices_from-OnKey fuel aes buf r device_number (k ∷ ks) mk =
    WhenOk-if (OnKey (IsKeyAt aes buf r.mk_dv)) (device_number == k.node) _ _
      (devices_from-OnKey fuel aes buf r device_number ks mk)
      (or_next aes buf r mk (device_pk fuel aes buf r (k ∷ ks) (k.node % 2 ^ 32)) _
        (λ mk'. devices_from-OnKey fuel aes buf r (k.node % 2 ^ 32) ks mk'))

-- The verification data of the records is that of the block.
of_records :
    (fuel : ℕ) (aes : Aes) (mkb : Mkb) (dkl : List DeviceKey) (mk : List ℕ)
    (uvs cvalues : Option ℕ × ℕ) (dv : Option ℕ)
    → mkb_mk_dv mkb ≡ ok dv
    → WhenOk (OnKey (IsKeyOf aes mkb)) (elim (dks_records uvs cvalues dv) [
      | none ↦ ok (corrupted_disc, mk)
      | some r ↦
          if ltb r.num_uvs 1
          then ok (corrupted_disc, mk)
          else devices_from fuel aes mkb.buf r (2 ^ 32 - 1) dkl mk
    ])
unfolding dks_records
of_records fuel aes mkb dkl mk (none, n) cvalues dv e = record {}
of_records fuel aes mkb dkl mk (some uvs, n) (none, len) dv e = record {}
of_records fuel aes mkb dkl mk (some uvs, n) (some cvalues, len) none e = record {}
of_records fuel aes mkb dkl mk (some uvs, n) (some cvalues, len) (some dv) e =
    let r : Records = record { uvs = uvs; num_uvs = len / 5; cvalues = cvalues; mk_dv = dv } in
    WhenOk-if (OnKey (IsKeyOf aes mkb)) (ltb (len / 5) 1) _ _ (record {}) (
      OnKey-map (IsKeyAt aes mkb.buf dv) (IsKeyOf aes mkb)
        (devices_from fuel aes mkb.buf r (2 ^ 32 - 1) dkl mk) (λ mk' h. (dv, e, h))
        (devices_from-OnKey fuel aes mkb.buf r (2 ^ 32 - 1) dkl mk))

pub calc_mk_dks-IsKeyOf :
    (fuel : ℕ) (aes : Aes) (mkb : Mkb) (dkl : List DeviceKey) (mk : List ℕ)
    → WhenOk (OnKey (IsKeyOf aes mkb)) (calc_mk_dks fuel aes mkb dkl mk)
unfolding calc_mk_dks
calc_mk_dks-IsKeyOf fuel aes mkb dkl mk =
    WhenOk-from (OnKey (IsKeyOf aes mkb)) (mkb_subdiff_records mkb none) _ (λ uvs _.
      WhenOk-from (OnKey (IsKeyOf aes mkb)) (mkb_cvalues mkb (some uvs.1)) _ (λ cvalues _.
        WhenOk-from (OnKey (IsKeyOf aes mkb)) (mkb_mk_dv mkb) _
          (λ dv e. of_records fuel aes mkb dkl mk uvs cvalues dv e)))

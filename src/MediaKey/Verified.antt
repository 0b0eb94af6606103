-- ===== src/MediaKey/Verified.antt =====
-- `_validate_pk` of aacs.c, and the loops of `_calc_mk_pks` that call it.
use libaacs.Common.{
  ℕ, zero, suc, ◌+◌, ◌*◌, ◌≡◌, refl, Bool, true, false, Option, none, some, List, [], ◌∷◌, ◌++◌,
  if◌then◌else◌, same_bytes, same_bytes→eq, take, drop, Run, ok, fault, stuck, ◌>>=◌, bytes_at,
}
use libaacs.Common.Partial.{WhenOk, WhenOk-from}
use libaacs.ErrorCode.{
  ErrorCode, success, corrupted_disc, no_config, no_pk, no_cert, cert_revoked, mmc_open,
  mmc_failure, no_dk, unknown_error,
}
use libaacs.Crypto.{Aes, xor_bytes}
use libaacs.Mkb.{Mkb, mkb_subdiff_records, mkb_cvalues, mkb_mk_dv}
use libaacs.MediaKey.{
  verification_data, validate_pk, Records, validate_at, pk_entries, pks_from, num_pks_uvs,
  uvs_or_null, with_cvalues, with_mk_dv, calc_mk_pks,
}

-- A media key decrypts the verification data to a block that starts with the fixed bytes.
abbrev pub IsMediaKey : Aes → List ℕ → List ℕ → Type 0
IsMediaKey aes vd mk =
    (dec_vd : List ℕ) × (aes.decrypt mk vd ≡ some dec_vd) × (take 8 dec_vd ≡ verification_data)

abbrev pub OnKey : (List ℕ → Type 0) → ErrorCode × List ℕ → Type 0
OnKey P (success, mk) = P mk
OnKey P (_, mk) = Unit {0}

validate_pk-OnKey :
    (aes : Aes) (pk cvalue uv vd mk : List ℕ)
    → OnKey (IsMediaKey aes vd) (validate_pk aes pk cvalue uv vd mk)
unfolding validate_pk
validate_pk-OnKey aes pk cvalue uv vd mk = of_key (aes.decrypt pk cvalue)
  where
    if_same :
        (mk' dec_vd : List ℕ) (b : Bool)
        → aes.decrypt mk' vd ≡ some dec_vd
        → same_bytes (take 8 dec_vd) verification_data ≡ b
        → OnKey (IsMediaKey aes vd) (if b then (success, mk') else (no_pk, mk'))
    if_same mk' dec_vd true e f = (dec_vd, e, same_bytes→eq (take 8 dec_vd) verification_data f)
    if_same mk' dec_vd false e f = record {}

    of_dec :
        (mk' : List ℕ) (o : Option (List ℕ))
        → aes.decrypt mk' vd ≡ o
        → OnKey (IsMediaKey aes vd) (elim o [
          | none ↦ (unknown_error, mk')
          | some dec_vd ↦
              if same_bytes (take 8 dec_vd) verification_data then (success, mk') else (no_pk, mk')
        ])
    of_dec mk' none e = record {}
    of_dec mk' (some dec_vd) e =
        if_same mk' dec_vd (same_bytes (take 8 dec_vd) verification_data) e refl

    of_key :
        (o : Option (List ℕ))
        → OnKey (IsMediaKey aes vd) (elim o [
          | none ↦ (unknown_error, mk)
          | some key ↦
              let mk' = take 12 key ++ xor_bytes (drop 12 key) uv in
              elim (aes.decrypt mk' vd) [
                | none ↦ (unknown_error, mk')
                | some dec_vd ↦
                    if same_bytes (take 8 dec_vd) verification_data
                    then (success, mk')
                    else (no_pk, mk')
              ]
        ])
    of_key none = record {}
    of_key (some key) =
        let mk' = take 12 key ++ xor_bytes (drop 12 key) uv in of_dec mk' (aes.decrypt mk' vd) refl

-- The same for the verification data at an offset of the block.
abbrev pub IsKeyAt : Aes → List ℕ → ℕ → List ℕ → Type 0
IsKeyAt aes buf mk_dv mk = (vd : List ℕ) × (bytes_at buf mk_dv 16 ≡ ok vd) × IsMediaKey aes vd mk

pub validate_at-OnKey :
    (aes : Aes) (buf : List ℕ) (r : Records) (pk : List ℕ) (a : ℕ) (mk : List ℕ)
    → WhenOk (OnKey (IsKeyAt aes buf r.mk_dv)) (validate_at aes buf r pk a mk)
unfolding validate_at
validate_at-OnKey aes buf r pk a mk = of_cvalue (bytes_at buf (r.cvalues + a * 16) 16)
  where
    of_result :
        (vd : List ℕ) (x : ErrorCode × List ℕ)
        → bytes_at buf r.mk_dv 16 ≡ ok vd
        → OnKey (IsMediaKey aes vd) x
        → OnKey (IsKeyAt aes buf r.mk_dv) x
    of_result vd (success, mk') e h = (vd, e, h)
    of_result vd (corrupted_disc, mk') e h = record {}
    of_result vd (no_config, mk') e h = record {}
    of_result vd (no_pk, mk') e h = record {}
    of_result vd (no_cert, mk') e h = record {}
    of_result vd (cert_revoked, mk') e h = record {}
    of_result vd (mmc_open, mk') e h = record {}
    of_result vd (mmc_failure, mk') e h = record {}
    of_result vd (no_dk, mk') e h = record {}
    of_result vd (unknown_error, mk') e h = record {}

    of_vd :
        (cvalue uv : List ℕ) (m : Run (List ℕ))
        → bytes_at buf r.mk_dv 16 ≡ m
        → WhenOk
            (OnKey (IsKeyAt aes buf r.mk_dv))
            (m >>= λ vd. ok (validate_pk aes pk cvalue uv vd mk))
    of_vd cvalue uv (ok vd) e = of_result vd _ e (validate_pk-OnKey aes pk cvalue uv vd mk)
    of_vd cvalue uv fault e = record {}
    of_vd cvalue uv stuck e = record {}

    of_uv :
        (cvalue : List ℕ) (m : Run (List ℕ))
        → WhenOk
            (OnKey (IsKeyAt aes buf r.mk_dv))
            (m >>= λ uv. bytes_at buf r.mk_dv 16 >>= λ vd. ok (validate_pk aes pk cvalue uv vd mk))
    of_uv cvalue (ok uv) = of_vd cvalue uv (bytes_at buf r.mk_dv 16) refl
    of_uv cvalue fault = record {}
    of_uv cvalue stuck = record {}

    of_cvalue :
        (m : Run (List ℕ))
        → WhenOk (OnKey (IsKeyAt aes buf r.mk_dv)) (
            m >>= λ cvalue. bytes_at buf (r.uvs + 1 + a * 5) 4 >>= λ uv.
            bytes_at buf r.mk_dv 16 >>= λ vd. ok (validate_pk aes pk cvalue uv vd mk))
    of_cvalue (ok cvalue) = of_uv cvalue (bytes_at buf (r.uvs + 1 + a * 5) 4)
    of_cvalue fault = record {}
    of_cvalue stuck = record {}

-- A call that succeeds, or else another one.
pub or_else :
    (P : List ℕ → Type 0) (m : Run (ErrorCode × List ℕ)) (next : List ℕ → Run (ErrorCode × List ℕ))
    → WhenOk (OnKey P) m
    → ((mk : List ℕ) → WhenOk (OnKey P) (next mk))
    → WhenOk (OnKey P) (m >>= λ r. elim r.0 [ success ↦ ok (success, r.1) | _ ↦ next r.1 ])
or_else P (ok (success, mk)) next h rest = h
or_else P (ok (corrupted_disc, mk)) next h rest = rest mk
or_else P (ok (no_config, mk)) next h rest = rest mk
or_else P (ok (no_pk, mk)) next h rest = rest mk
or_else P (ok (no_cert, mk)) next h rest = rest mk
or_else P (ok (cert_revoked, mk)) next h rest = rest mk
or_else P (ok (mmc_open, mk)) next h rest = rest mk
or_else P (ok (mmc_failure, mk)) next h rest = rest mk
or_else P (ok (no_dk, mk)) next h rest = rest mk
or_else P (ok (unknown_error, mk)) next h rest = rest mk
or_else P fault next h rest = record {}
or_else P stuck next h rest = record {}

pk_entries-OnKey :
    (n : ℕ) (aes : Aes) (buf : List ℕ) (r : Records) (pk : List ℕ) (a : ℕ) (mk : List ℕ)
    → WhenOk (OnKey (IsKeyAt aes buf r.mk_dv)) (pk_entries n aes buf r pk a mk)
unfolding pk_entries
pk_entries-OnKey zero aes buf r pk a mk = record {}
pk_entries-OnKey (suc n) aes buf r pk a mk =
    or_else (IsKeyAt aes buf r.mk_dv) (validate_at aes buf r pk a mk)
      (λ mk'. pk_entries n aes buf r pk (a + 1) mk') (validate_at-OnKey aes buf r pk a mk)
      (λ mk'. pk_entries-OnKey n aes buf r pk (a + 1) mk')

pub pks_from-OnKey :
    (aes : Aes) (buf : List ℕ) (r : Records) (pkl : List (List ℕ)) (mk : List ℕ)
    → WhenOk (OnKey (IsKeyAt aes buf r.mk_dv)) (pks_from aes buf r pkl mk)
unfolding pks_from
pks_from-OnKey aes buf r [] mk = record {}
pks_from-OnKey aes buf r (pk ∷ pkl) mk =
    or_else (IsKeyAt aes buf r.mk_dv) (pk_entries r.num_uvs aes buf r pk 0 mk)
      (λ mk'. pks_from aes buf r pkl mk') (pk_entries-OnKey r.num_uvs aes buf r pk 0 mk)
      (λ mk'. pks_from-OnKey aes buf r pkl mk')

pub OnKey-map :
    (P Q : List ℕ → Type 0) (m : Run (ErrorCode × List ℕ))
    → ((mk : List ℕ) → P mk → Q mk)
    → WhenOk (OnKey P) m
    → WhenOk (OnKey Q) m
OnKey-map P Q (ok (success, mk)) f h = f mk h
OnKey-map P Q (ok (corrupted_disc, mk)) f h = record {}
OnKey-map P Q (ok (no_config, mk)) f h = record {}
OnKey-map P Q (ok (no_pk, mk)) f h = record {}
OnKey-map P Q (ok (no_cert, mk)) f h = record {}
OnKey-map P Q (ok (cert_revoked, mk)) f h = record {}
OnKey-map P Q (ok (mmc_open, mk)) f h = record {}
OnKey-map P Q (ok (mmc_failure, mk)) f h = record {}
OnKey-map P Q (ok (no_dk, mk)) f h = record {}
OnKey-map P Q (ok (unknown_error, mk)) f h = record {}
OnKey-map P Q fault f h = record {}
OnKey-map P Q stuck f h = record {}

-- A media key for the verification data record of the block.
abbrev pub IsKeyOf : Aes → Mkb → List ℕ → Type 0
IsKeyOf aes mkb mk = (dv : ℕ) × (mkb_mk_dv mkb ≡ ok (some dv)) × IsKeyAt aes mkb.buf dv mk

with_cvalues-IsKeyOf :
    (aes : Aes) (mkb : Mkb) (pkl : List (List ℕ)) (mk : List ℕ) (dv uvs num_uvs : ℕ) (o : Option ℕ)
    → mkb_mk_dv mkb ≡ ok (some dv)
    → WhenOk (OnKey (IsKeyOf aes mkb)) (with_cvalues aes mkb.buf pkl mk dv uvs num_uvs o)
unfolding with_cvalues
with_cvalues-IsKeyOf aes mkb pkl mk dv uvs num_uvs none e = record {}
with_cvalues-IsKeyOf aes mkb pkl mk dv uvs num_uvs (some cvalues) e =
    let r : Records = record { uvs = uvs; num_uvs = num_uvs; cvalues = cvalues; mk_dv = dv } in
    OnKey-map (IsKeyAt aes mkb.buf dv) (IsKeyOf aes mkb) (pks_from aes mkb.buf r pkl mk)
      (λ mk' h. (dv, e, h)) (pks_from-OnKey aes mkb.buf r pkl mk)

with_mk_dv-IsKeyOf :
    (aes : Aes) (mkb : Mkb) (pkl : List (List ℕ)) (mk : List ℕ) (o : Option ℕ)
    → mkb_mk_dv mkb ≡ ok o
    → WhenOk (OnKey (IsKeyOf aes mkb)) (with_mk_dv aes mkb pkl mk o)
unfolding with_mk_dv
with_mk_dv-IsKeyOf aes mkb pkl mk none e = record {}
with_mk_dv-IsKeyOf aes mkb pkl mk (some dv) e =
    WhenOk-from (OnKey (IsKeyOf aes mkb)) (mkb_subdiff_records mkb none) _ (λ uvs _.
      WhenOk-from (OnKey (IsKeyOf aes mkb)) (num_pks_uvs mkb.buf uvs) _ (λ num_uvs _.
        WhenOk-from (OnKey (IsKeyOf aes mkb)) (mkb_cvalues mkb (some uvs.1)) _ (λ cvalues _.
          with_cvalues-IsKeyOf aes mkb pkl mk dv (uvs_or_null uvs.0) num_uvs cvalues.0 e)))

-- When `_calc_mk_pks` returns success on any block and any processing keys, the media key that it
-- gives decrypts the 16 bytes of the block's verification data to a block that starts with the
-- fixed bytes 01 23 45 67 89 AB CD EF.
pub calc_mk_pks-IsKeyOf :
    (aes : Aes) (mkb : Mkb) (pkl : List (List ℕ)) (mk : List ℕ)
    → WhenOk (OnKey (IsKeyOf aes mkb)) (calc_mk_pks aes mkb pkl mk)
unfolding calc_mk_pks
calc_mk_pks-IsKeyOf aes mkb pkl mk =
    WhenOk-from (OnKey (IsKeyOf aes mkb)) (mkb_mk_dv mkb) _
      (λ o e. with_mk_dv-IsKeyOf aes mkb pkl mk o e)

-- ===== src/Opening/Device.antt =====
-- src/libaacs/aacs.c, the opening of a disc from its files to the keys, and what the player asks for then.
pub mod VidMac
pub mod Ready
pub mod Examples
use libaacs.Common.{
  ℕ, ◌+◌, bit_and, Bool, true, false, not, Option, none, some, List, ◌∷◌, ltb, ◌==◌, if◌then◌else◌,
  length, replicate, Run, ok, ◌>>=◌, ◌>>◌, byte,
}
use libaacs.ErrorCode.{ErrorCode, success, corrupted_disc, no_config}
use libaacs.UnitKey.{UnitKeys, uk_parse}
use libaacs.ContentCert.{ContentCert, cc_parse}
use libaacs.Cache.{keycache_save, keycache_find, disc_id_str}
use libaacs.Mkb.{mkb_init, mkb_version}
use libaacs.MkbFile.{mkb_file}
use libaacs.Cci.{CciEntry, BasicCci, cci_get_basic_cci}
use libaacs.Stream.{cps_unit}
use libaacs.Mmc.{Drive, Mmc}
use libaacs.Mmc.Auth.{MmcResult, mmc_success, data_keys_request, mmc_read_drive_cert}
use libaacs.Keydb.{ConfigFile, HostCert}
use libaacs.Opening.{
  World, unit_key_ro, content000, content001, mkb_ro, Disc, KeyResult, is_empty, overwrite,
  find_key, vid_type, read_auth, open_mmc, calc_mk, read_vid, read_pmsn,
}
use libaacs.Opening.UnitKeys.{read_file, read_cci, calc_uks, set_uk}

-- `_read_cc_any`.
unfoldable pub read_cc_any : World → Run (Option ContentCert)
read_cc_any w =
    let first = read_file w false content000 in
    let bytes = if length first == 0 then read_file w false content001 else first in
    if length bytes == 0 then ok none else cc_parse w.verify_aacscc bytes (length bytes)

-- `_get_bus_encryption_enabled`.
unfoldable pub get_bus_encryption_enabled : Option ContentCert → Bool
get_bus_encryption_enabled none = false
get_bus_encryption_enabled (some cc) = not (cc.bus_encryption_enabled_flag == 0)

unfoldable pub is_aacs2 : Option ContentCert → Bool
is_aacs2 none = false
is_aacs2 (some cc) = cc.aacs2

-- Files of more than 2048 bytes are parsed.
unfoldable pub parse_uk_file : List ℕ → Bool → Option UnitKeys → Run (Option UnitKeys)
parse_uk_file bytes aacs2 uk =
    if ltb 2048 (length bytes) then uk_parse bytes (length bytes) aacs2 else ok uk

-- The unit keys with the bytes that the disc id is made of.
unfoldable pub or_backup :
    World → Bool → List ℕ → Option UnitKeys → Run (Option (UnitKeys × List ℕ))
unfolding parse_uk_file
or_backup w aacs2 bytes (some uk) = ok (some (uk, bytes))
or_backup w aacs2 bytes none = do
  uk ← parse_uk_file (read_file w true unit_key_ro) aacs2 none
  elim uk [ none ↦ ok none | some u ↦ ok (some (u, read_file w true unit_key_ro)) ]

unfoldable pub keep_disc_id : World → Disc → Option (UnitKeys × List ℕ) → Disc × Option UnitKeys
unfolding set_uk
keep_disc_id w d none = (d, none)
keep_disc_id w d (some (uk, bytes)) =
    (record (set_uk d uk) { disc_id = w.title_hash bytes }, some uk)

-- `_calc_title_hash`; no keys for the error.
unfoldable pub calc_title_hash : World → Disc → Run (Disc × Option UnitKeys)
unfolding or_backup keep_disc_id
calc_title_hash w d = do
  uk ← parse_uk_file (read_file w false unit_key_ro) (is_aacs2 d.cc) d.aacs.uk
  found ← or_backup w (is_aacs2 d.cc) (read_file w false unit_key_ro) uk
  ok (keep_disc_id w d found)

-- `_get_bus_encryption_capable`, kept in `bec`.
unfoldable pub keep_bec : World → Disc → Option (MmcResult (List ℕ)) → Disc
keep_bec w d none = record d { aacs = record d.aacs { bec = some false } }
keep_bec w d (some (mmc_success cert)) = record d {
  aacs = record d.aacs { bec = some (bit_and (byte cert 1) 1 == 1) };
  drive_cert_hash = w.title_hash cert;
}
keep_bec w d (some _) = record d {
  aacs = record d.aacs { bec = some false };
  drive_cert_hash = replicate 20 0;
}

unfoldable pub drive_cert_of : World → Option Drive → Option Mmc → Option (MmcResult (List ℕ))
drive_cert_of w (some drive) (some mmc) = some (mmc_read_drive_cert w.curve drive mmc).1
drive_cert_of w _ _ = none

unfoldable pub read_bec : World → Disc → Option Bool → Disc
unfolding keep_bec drive_cert_of
read_bec w d (some capable) = d
read_bec w d none =
    keep_bec w (record d { opened = d.opened + 1 })
      (drive_cert_of w (w.device d.opened) (open_mmc w d))

-- "rdk/" and the hash.
unfoldable pub rdk_type : Disc → List ℕ
rdk_type d = b'r' ∷ b'd' ∷ b'k' ∷ b'/' ∷ disc_id_str d.drive_cert_hash

unfoldable pub put_rdk : Disc → List ℕ → Disc
put_rdk d key = record d { aacs = record d.aacs { read_data_key = key } }

unfoldable pub rdk_if_found : Disc → ErrorCode → List ℕ × Bool → Disc × ErrorCode
unfolding put_rdk
rdk_if_found d code (key, true) = (put_rdk d key, success)
rdk_if_found d code (key, false) = (put_rdk d key, code)

-- "get cached read data key".
unfoldable pub rdk_or_cache : World → Disc → ErrorCode → List ℕ → Run (Disc × ErrorCode)
unfolding put_rdk rdk_if_found rdk_type
rdk_or_cache w d code key = if d.no_cache then ok (put_rdk d key, code) else (do
  r ← keycache_find w.env d.disk (rdk_type d) d.disc_id 16
  ok (rdk_if_found d code (overwrite key r)))

unfoldable pub keep_rdk : World → KeyResult → Run (Disc × ErrorCode)
unfolding put_rdk rdk_or_cache rdk_type
keep_rdk w (d, success, key) =
    let saved = (keycache_save w.env w.os d.disk (rdk_type d) d.disc_id key).0 in
    ok (record (put_rdk d key) { disk = if d.no_cache then d.disk else saved }, success)
keep_rdk w (d, code, key) = rdk_or_cache w d code key

-- `_read_read_data_key`.
unfoldable pub read_read_data_key : World → Disc → List HostCert → Run (Disc × ErrorCode)
unfolding keep_rdk
read_read_data_key w d hcl =
    keep_rdk w (read_auth w d hcl (data_keys_request true false) d.aacs.read_data_key)

unfoldable pub bus_if_capable : World → ConfigFile → Disc → Option Bool → Run (Disc × ErrorCode)
unfolding read_read_data_key
bus_if_capable w cf d (some true) = read_read_data_key w d cf.host_cert_list
bus_if_capable w cf d _ = ok (d, success)

unfoldable pub bus_keys : World → Option ConfigFile → Disc → Run (Disc × ErrorCode)
unfolding bus_if_capable read_bec
bus_keys w none d = ok (d, no_config)
bus_keys w (some cf) d = let d' = read_bec w d d.aacs.bec in bus_if_capable w cf d' d'.aacs.bec

unfoldable pub with_bus : World → Option ConfigFile → Disc × ErrorCode → Run (Disc × ErrorCode)
unfolding bus_keys
with_bus w cf (d, success) = if d.aacs.bee then bus_keys w cf d else ok (d, success)
with_bus w cf (d, code) = ok (d, code)

unfoldable pub open_with_keys :
    World → ℕ → (List ℕ → Option ConfigFile) → Disc × Option UnitKeys → Run (Disc × ErrorCode)
unfolding calc_uks with_bus
open_with_keys w fuel config_load (d, none) = ok (d, corrupted_disc)
open_with_keys w fuel config_load (d, some uk) = do
  r ← calc_uks w fuel d (config_load d.disc_id) uk
  with_bus w (config_load d.disc_id) r

unfoldable pub start_device : Disc → Option ContentCert → Disc
start_device d cc = record d {
  cc = cc;
  aacs = record d.aacs { bee = get_bus_encryption_enabled cc; bec = none };
}

-- `aacs_open_device`; the configuration is loaded for a disc id.
unfoldable pub aacs_open_device :
    World → ℕ → Disc → (List ℕ → Option ConfigFile) → Run (Disc × ErrorCode)
unfolding read_cc_any calc_title_hash open_with_keys start_device
aacs_open_device w fuel d config_load = do
  cc ← read_cc_any w
  t ← calc_title_hash w (start_device d cc)
  open_with_keys w fuel config_load t

unfoldable pub aacs_get_disc_id : Disc → Option (List ℕ)
aacs_get_disc_id d = if is_empty 20 d.disc_id then none else some d.disc_id

unfoldable pub aacs_get_content_cert_id : Disc → Option (List ℕ)
aacs_get_content_cert_id d = elim d.cc [ none ↦ none | some cc ↦ some cc.cc_id ]

unfoldable pub aacs_get_bdj_root_cert_hash : Disc → Option (List ℕ)
aacs_get_bdj_root_cert_hash d = elim d.cc [
  | none ↦ none
  | some cc ↦ if cc.aacs2 then none else some cc.bdj_root_cert_hash
]

unfoldable pub keep_version : Disc → Option (List ℕ) → Run Disc
keep_version d none = ok d
keep_version d (some bytes) = do
  version ← mkb_version (mkb_init bytes (length bytes))
  ok (record d { mkb_version = version })

unfoldable pub aacs_get_mkb_version : World → Disc → Run Disc
unfolding keep_version
aacs_get_mkb_version w d =
    if d.mkb_version == 0
    then (do
      file ← mkb_file (w.disc_file false mkb_ro) (w.disc_file true mkb_ro)
      keep_version d file)
    else ok d

-- The struct, and the key that is returned, if it is not empty.
unfoldable pub mk_or_null : KeyResult → Disc × Option (List ℕ)
mk_or_null (d, success, mk) =
    let d' = record d { mk = mk } in (d', if is_empty 16 mk then none else some mk)
mk_or_null (d, code, mk) = (d, if is_empty 16 d.mk then none else some d.mk)

unfoldable pub aacs_get_mk : World → ℕ → Disc → Option ConfigFile → Run (Disc × Option (List ℕ))
unfolding mk_or_null calc_mk
aacs_get_mk w fuel d none = ok (d, if is_empty 16 d.mk then none else some d.mk)
aacs_get_mk w fuel d (some cf) =
    if is_empty 16 d.mk
    then (do r ← calc_mk w fuel cf.pkl cf.dkl d (replicate 16 0); ok (mk_or_null r))
    else ok (d, some d.mk)

unfoldable pub vid_or_null : Disc → Disc × Option (List ℕ)
vid_or_null d = (d, if is_empty 16 d.vid then none else some d.vid)

unfoldable pub vid_if_found :
    World → Disc → Option ConfigFile → List ℕ × Bool → Disc × Option (List ℕ)
vid_if_found w d cf (vid, true) = (record d { vid = vid }, some vid)
vid_if_found w d none (vid, false) = vid_or_null (record d { vid = vid })
vid_if_found w d (some cf) (vid, false) =
    vid_or_null (read_vid w (record d { vid = vid }) cf.host_cert_list).0

unfoldable pub aacs_get_vid : World → Disc → Option ConfigFile → Run (Disc × Option (List ℕ))
aacs_get_vid w d cf =
    if is_empty 16 d.vid
    then (do r ← find_key w d vid_type d.vid; ok (vid_if_found w d cf r))
    else ok (d, some d.vid)

unfoldable pub aacs_get_pmsn : World → Disc → Option ConfigFile → Disc × Option (List ℕ)
aacs_get_pmsn w d none = (d, if is_empty 16 d.pmsn then none else some d.pmsn)
aacs_get_pmsn w d (some cf) =
    let d' = if is_empty 16 d.pmsn then (read_pmsn w d cf.host_cert_list).0 else d in
    (d', if is_empty 16 d'.pmsn then none else some d'.pmsn)

-- `aacs_get_bus_encryption`: both flags, with the capability read if it is not known.
unfoldable pub aacs_get_bus_encryption : World → Disc → Disc × ℕ
unfolding read_bec
aacs_get_bus_encryption w d =
    let d' = read_bec w d d.aacs.bec in
    let enabled = if d'.aacs.bee then 0x01 else 0 in
    (d', enabled + elim d'.aacs.bec [ some true ↦ 0x02 | _ ↦ 0 ])

-- `aacs_get_basic_cci`: the index of the CPS unit is the number of the file.
unfoldable pub basic_cci_in : Option (List CciEntry) → Option BasicCci
basic_cci_in none = none
basic_cci_in (some cci) = cci_get_basic_cci cci

unfoldable pub basic_cci_of : World → Option ℕ → Run (Option BasicCci)
unfolding basic_cci_in
basic_cci_of w none = ok none
basic_cci_of w (some unit) = do cci ← read_cci w unit; ok (basic_cci_in cci)

unfoldable pub aacs_get_basic_cci : World → Disc → ℕ → Run (Option BasicCci)
unfolding basic_cci_of
aacs_get_basic_cci w d title = do unit ← cps_unit d.aacs title; basic_cci_of w unit

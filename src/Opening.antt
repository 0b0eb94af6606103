-- ===== src/Opening.antt =====
-- src/libaacs/aacs.c, the opening of a disc: the media key and the drive.
pub mod UnitKeys
pub mod Device
pub mod MediaKeyOf
pub mod Player
pub mod Examples
use libaacs.Common.{
  ℕ, ◌+◌, Bool, true, false, not, ◌||◌, Option, none, some, List, [], ◌∷◌, ◌++◌, if◌then◌else◌,
  same_bytes, length, drop, replicate, Run, ok, ◌>>=◌, ◌>>◌,
}
use libaacs.ErrorCode.{
  ErrorCode, success, corrupted_disc, no_pk, no_cert, cert_revoked, mmc_failure,
}
use libaacs.Crypto.{Aes}
use libaacs.Files.{Disk, Os}
use libaacs.Cache.{Env, keycache_find, keycache_save}
use libaacs.Mkb.{Mkb, mkb_init, mkb_version}
use libaacs.MkbFile.{mkb_file}
use libaacs.MediaKey.{DeviceKey, calc_mk_dks, calc_mk_pks}
use libaacs.Mmc.{Drive, Mmc, mmc_report_agid, mmc_invalidate_agids}
use libaacs.Mmc.Auth.{
  Curve, MmcResult, mmc_success, mmc_error, mmc_error_cert_revoked, Request, vid_request,
  pmsn_request, verify_host_cert, mmc_aacs_auth, read_keys, mmc_read_auth, mmc_open,
}
use libaacs.Rl.{update_rl}
use libaacs.ContentCert.{ContentCert}
use libaacs.Stream.{Aacs}
use libaacs.Keydb.{HostCert}

-- A file of the disc, without the directory `AACS`.
pub data DiscFile : Type 0 where
  mkb_ro unit_key_ro content000 content001 : DiscFile
  cps_unit_cci : ℕ → DiscFile

-- What is outside of the library: the system and its environment, libgcrypt, the files of the disc (the
-- ones of the directory `DUPLICATE` for true), and the device and the keys that are created for every time
-- it is opened.
pub record World : Type 0 where
  pub env : Env
  pub os : Os
  pub aes : Aes
  pub curve : Curve
  pub verify_aacscc : List ℕ → List ℕ → Bool
  pub title_hash : List ℕ → List ℕ
  pub disc_file : Bool → DiscFile → Option (List ℕ)
  pub device : ℕ → Option Drive
  pub nonce : ℕ → List ℕ
  pub host_key : ℕ → List ℕ
  pub host_key_point : ℕ → List ℕ

-- `struct aacs`, whose fields for the stream are in `aacs`, with the files of the system and how often the
-- device was opened.
pub record Disc : Type 0 where
  pub aacs : Aacs
  pub mkb_version : ℕ
  pub disc_id : List ℕ
  pub vid : List ℕ
  pub pmsn : List ℕ
  pub mk : List ℕ
  pub no_cache : Bool
  pub drive_cert_hash : List ℕ
  pub cc : Option ContentCert
  pub disk : Disk
  pub opened : ℕ

-- `!memcmp(key, empty_key, n)`.
unfoldable pub is_empty : ℕ → List ℕ → Bool
is_empty n key = same_bytes key (replicate n 0)

-- `keycache_find`, if the cache is used: the 16 bytes of the buffer, and whether the key was found. What was
-- converted before a wrong digit stays in the buffer.
unfoldable pub overwrite : List ℕ → List ℕ × Bool → List ℕ × Bool
overwrite key (bytes, found) = (bytes ++ drop (length bytes) key, found)

unfoldable pub find_key : World → Disc → List ℕ → List ℕ → Run (List ℕ × Bool)
unfolding overwrite
find_key w d type key =
    if d.no_cache
    then ok (key, false)
    else (do r ← keycache_find w.env d.disk type d.disc_id 16; ok (overwrite key r))

-- `keycache_save`, if the cache is used and there is a disc id.
unfoldable pub save_key : World → Disc → List ℕ → List ℕ → Disc
save_key w d type key =
    if d.no_cache || is_empty 20 d.disc_id
    then d
    else record d { disk = (keycache_save w.env w.os d.disk type d.disc_id key).0 }

-- "mk", "vid" and "vuk".
abbrev pub mk_type : List ℕ
mk_type = b'm' ∷ b'k' ∷ []

abbrev pub vid_type : List ℕ
vid_type = b'v' ∷ b'i' ∷ b'd' ∷ []

abbrev pub vuk_type : List ℕ
vuk_type = b'v' ∷ b'u' ∷ b'k' ∷ []

-- A result of `_calc_mk`: the struct, the code, and the buffer of the key.
abbrev pub KeyResult : Type 0
KeyResult = Disc × ErrorCode × List ℕ

-- The media key that was calculated is kept.
unfoldable pub keep_mk : World → Disc → ErrorCode × List ℕ → KeyResult
keep_mk w d (success, mk) = (save_key w (record d { mk = mk }) mk_type mk, success, mk)
keep_mk w d (code, mk) = (d, code, mk)

-- "try device keys first".
unfoldable pub mk_by_dks : ℕ → Aes → Mkb → List DeviceKey → List ℕ → Run (ErrorCode × List ℕ)
mk_by_dks fuel aes mkb [] mk = ok (no_pk, mk)
mk_by_dks fuel aes mkb (k ∷ ks) mk = calc_mk_dks fuel aes mkb (k ∷ ks) mk

unfoldable pub mk_by_pks : Aes → Mkb → List (List ℕ) → ErrorCode × List ℕ → Run (ErrorCode × List ℕ)
mk_by_pks aes mkb pkl (success, mk) = ok (success, mk)
mk_by_pks aes mkb pkl (code, mk) = calc_mk_pks aes mkb pkl mk

unfoldable pub mk_from_mkb :
    World → ℕ → List (List ℕ) → List DeviceKey → Disc → List ℕ → Option (List ℕ) → Run KeyResult
unfolding mk_by_dks mk_by_pks keep_mk
mk_from_mkb w fuel pkl dkl d mk none = ok (d, corrupted_disc, mk)
mk_from_mkb w fuel pkl dkl d mk (some bytes) =
    let mkb = mkb_init bytes (length bytes) in
    do
      version ← mkb_version mkb
      disk ← if d.no_cache then ok d.disk else update_rl w.curve w.env w.os d.disk mkb
      r ← mk_by_dks fuel w.aes mkb dkl mk
      s ← mk_by_pks w.aes mkb pkl r
      ok (keep_mk w (record d { mkb_version = version; disk = disk }) s)

unfoldable pub mk_if_found :
    World → ℕ → List (List ℕ) → List DeviceKey → Disc → List ℕ × Bool → Run KeyResult
unfolding mk_from_mkb
mk_if_found w fuel pkl dkl d (mk, true) = ok (d, success, mk)
mk_if_found w fuel pkl dkl d (mk, false) = do
  file ← mkb_file (w.disc_file false mkb_ro) (w.disc_file true mkb_ro)
  mk_from_mkb w fuel pkl dkl d mk file

-- `_calc_mk`; the fuel is that of `_calc_pk`.
unfoldable pub calc_mk : World → ℕ → List (List ℕ) → List DeviceKey → Disc → List ℕ → Run KeyResult
unfolding mk_if_found
calc_mk w fuel pkl dkl d mk =
    if not (is_empty 16 mk)
    then ok (d, success, mk)
    else (do r ← find_key w d mk_type mk; mk_if_found w fuel pkl dkl d r)

-- What `mmc_read_auth` leaves in the buffer of its caller if it fails: the volume id or the serial number
-- is written there before its MAC is tested.
unfoldable pub block_or : List ℕ → Option (List ℕ × List ℕ) → List ℕ
block_or p none = p
block_or p (some (block, mac)) = block

unfoldable pub left_after_auth : Drive → ℕ → Request → List ℕ → Mmc × MmcResult (List ℕ) → List ℕ
unfolding block_or
left_after_auth drive agid vid_request p (mmc, mmc_success bus_key) =
    block_or p (read_keys drive mmc agid 0x80).1
left_after_auth drive agid pmsn_request p (mmc, mmc_success bus_key) =
    block_or p (read_keys drive mmc agid 0x81).1
left_after_auth drive agid _ p _ = p

unfoldable pub left_after_agid :
    Curve → Drive → HostCert → Request → List ℕ → Mmc × Option ℕ → List ℕ
unfolding left_after_auth
left_after_agid c drive h request p (mmc, none) = p
left_after_agid c drive h request p (mmc, some agid) =
    left_after_auth drive agid request p
      (mmc_aacs_auth c drive mmc agid h.host_priv_key h.host_cert)

-- The loop of `_mmc_read_auth` over the certificates that are left: the code and the buffer.
unfoldable pub try_certs :
    World → Drive → Request → List HostCert → Mmc → ErrorCode → List ℕ → ErrorCode × List ℕ
unfolding left_after_agid
try_certs w drive request [] mmc code p = (code, p)
try_certs w drive request (h ∷ hcl) mmc code p =
    let r = mmc_read_auth w.aes w.curve drive mmc h.host_priv_key h.host_cert request in
    let left =
      left_after_agid w.curve drive h request p
        (mmc_report_agid drive (mmc_invalidate_agids drive mmc)) in
    let skip = try_certs w drive request hcl mmc code p in
    let revoked = try_certs w drive request hcl r.0 cert_revoked left in
    let failed = try_certs w drive request hcl r.0 mmc_failure left in
    if verify_host_cert w.curve h.host_cert
    then elim r.1 [
      | mmc_success bytes ↦ (success, bytes)
      | mmc_error_cert_revoked ↦ revoked
      | mmc_error ↦ failed
    ]
    else skip

unfoldable pub with_mmc :
    World → Request → List HostCert → List ℕ → Option Drive → Option Mmc → ErrorCode × List ℕ
unfolding try_certs
with_mmc w request hcl p (some drive) (some mmc) = try_certs w drive request hcl mmc no_cert p
with_mmc w request hcl p _ _ = (ErrorCode.mmc_open, p)

unfoldable pub open_mmc : World → Disc → Option Mmc
open_mmc w d =
    mmc_open w.curve (w.device d.opened) (w.nonce d.opened) (w.host_key d.opened)
      (w.host_key_point d.opened)

-- `_mmc_read_auth`, with the buffer `p`.
unfoldable pub read_auth : World → Disc → List HostCert → Request → List ℕ → KeyResult
read_auth w d hcl request p =
    let r = with_mmc w request hcl p (w.device d.opened) (open_mmc w d) in
    (record d { opened = d.opened + 1 }, r.0, r.1)

unfoldable pub keep_vid : World → KeyResult → Disc × ErrorCode
unfolding save_key
keep_vid w (d, success, vid) = (save_key w (record d { vid = vid }) vid_type vid, success)
keep_vid w (d, code, vid) = (record d { vid = vid }, code)

-- `_read_vid`.
unfoldable pub read_vid : World → Disc → List HostCert → Disc × ErrorCode
read_vid w d hcl =
    if not (is_empty 16 d.vid)
    then (d, success)
    else keep_vid w (read_auth w d hcl vid_request d.vid)

-- `_read_pmsn`.
unfoldable pub keep_pmsn : KeyResult → Disc × ErrorCode
keep_pmsn (d, code, pmsn) = (record d { pmsn = pmsn }, code)

unfoldable pub read_pmsn : World → Disc → List HostCert → Disc × ErrorCode
unfolding keep_pmsn
read_pmsn w d hcl = keep_pmsn (read_auth w d hcl pmsn_request d.pmsn)

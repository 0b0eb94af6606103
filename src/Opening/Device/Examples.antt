-- ===== src/Opening/Device/Examples.antt =====
-- The theorems on an open disc at a concrete drive and a concrete unit key file.
use libaacs.Common.{
  Run, Returns, byte_at, be16, be32, bytes_at, ℕ, zero, suc, ◌≡◌, refl, Bool, true, false, Option,
  none, some, List, [], ◌∷◌, ◌++◌, arith, same_bytes, replicate, length-append, length-replicate,
  All, ok, IsByte, byte, word16, slice,
}
use libaacs.Crypto.{xor_bytes, crypto_aes_cmac_16}
use libaacs.Mmc.{
  Mmc, answer, device_send_cmd, agid_of, mmc_report_key, mmc_send_key, mmc_report_disc_structure,
  mmc_get_configuration, mmc_invalidate_agid, mmc_invalidate_agids, mmc_report_agid,
}
use libaacs.Mmc.Auth.{
  verify_cert, verify_host_cert, verify_drive_cert, send_host_cert, send_host_key,
  read_drive_cert_challenge, read_drive_key, verify_signature, after_host_key, after_sign,
  after_drive_key, after_drive_cert, after_host_cert, mmc_aacs_auth, read_keys, checked_mac,
  features, check_aacs, reported_cert, mmc_read_drive_cert, mmc_open,
}
use libaacs.Keydb.{ConfigFile, HostCert}
use libaacs.Common.Partial.{WhenOk}
use libaacs.ErrorCode.{ErrorCode, success}
use libaacs.UnitKey.{uk_parse, parse_header, parse_uks, assign_titles}
use libaacs.Stream.{aacs_select_title, aacs_decrypt_unit}
use libaacs.Stream.Ready.{IsReady, LeavesReady}
use libaacs.Opening.Player.{
  gets_bus_encryption, aacs_open2, here, next, sets_key_caching, aacs_set_key_caching,
}
use libaacs.Opening.Player.Ready.{aacs_open2-Plays}
use libaacs.Opening.{find_key, World, DiscFile, unit_key_ro, Disc, is_empty, open_mmc}
use libaacs.Opening.UnitKeys.{calc_vuk, read_file, file_bytes}
use libaacs.Opening.Device.{
  get_bus_encryption_enabled, aacs_get_bus_encryption, is_aacs2, read_cc_any, aacs_open_device,
}
use libaacs.Opening.Device.Ready.{IsUkFile}
use libaacs.Opening.Device.{aacs_get_vid}
use libaacs.Opening.Device.VidMac.{GivesWrongMac, aacs_get_vid-GivesWrongMac}
use libaacs.Opening.Examples.{sample_world, sample_drive, disc_with}

abbrev sample_cert : HostCert
sample_cert = record {
  host_priv_key = replicate 20 5;
  host_cert = 2 ∷ 0 ∷ 0 ∷ 0x5c ∷ replicate 88 1;
}

abbrev cert_config : ConfigFile
cert_config = record { dkl = []; pkl = []; host_cert_list = sample_cert ∷ []; list = [] }

abbrev mmc_in : Option Mmc → Mmc
mmc_in (some mmc) = mmc
mmc_in none = record {
  sent = [];
  host_nonce = [];
  host_key = [];
  host_key_point = [];
  drive_cert = [];
  read_drive_cert = false;
  aacs_version = 0;
}

abbrev mmc_at_first : Mmc
mmc_at_first = mmc_in (open_mmc sample_world (disc_with true))

abbrev mmc_with_agid : Mmc
mmc_with_agid = (mmc_report_agid sample_drive (mmc_invalidate_agids sample_drive mmc_at_first)).0

abbrev mmc_after_auth : Mmc
mmc_after_auth =
    (mmc_aacs_auth sample_world.curve sample_drive mmc_with_agid 0 sample_cert.host_priv_key
      sample_cert.host_cert).0

-- What the drive gives for the id, and the bus key.
abbrev sample_block : List ℕ
sample_block = 0 ∷ 0 ∷ 0 ∷ 0 ∷ 1 ∷ 0x0d ∷ 1 ∷ replicate 9 7

sample_drive-GivesWrongMac : GivesWrongMac sample_world (disc_with true) sample_cert sample_block
unfolding open_mmc mmc_open check_aacs features mmc_get_configuration device_send_cmd answer
    mmc_read_drive_cert reported_cert mmc_report_key mmc_send_key mmc_report_disc_structure agid_of
    mmc_invalidate_agid mmc_invalidate_agids mmc_report_agid verify_cert verify_host_cert
    verify_drive_cert send_host_cert send_host_key read_drive_cert_challenge read_drive_key
    verify_signature after_host_key after_sign after_drive_key after_drive_cert after_host_cert
    mmc_aacs_auth read_keys checked_mac is_empty same_bytes crypto_aes_cmac_16 xor_bytes byte word16
    slice
sample_drive-GivesWrongMac = record {
  drive = sample_drive;
  mmc = mmc_at_first;
  mmc1 = mmc_with_agid;
  mmc2 = mmc_after_auth;
  agid = 0;
  bus_key = sample_block;
  mac = 7 ∷ 7 ∷ 7 ∷ 7 ∷ 1 ∷ 0 ∷ 0 ∷ 0x5c ∷ replicate 8 7;
  device = refl;
  is_open = refl;
  host = refl;
  has_agid = refl;
  auth = refl;
  keys = refl;
  wrong = refl;
  given = refl;
}

nothing_there : is_empty 16 (disc_with true).vid ≡ true
unfolding is_empty same_bytes
nothing_there = refl

aacs_get_vid-GivesWrongMac_example :
    aacs_get_vid sample_world (disc_with true) (some cert_config)
    ≡ ok (record (disc_with true) { opened = 1; vid = sample_block }, some sample_block)
aacs_get_vid-GivesWrongMac_example =
    aacs_get_vid-GivesWrongMac sample_world (disc_with true) sample_cert cert_config sample_block
      sample_drive-GivesWrongMac refl refl nothing_there

-- One key at the byte 48, and no titles.
abbrev header_bytes : List ℕ
header_bytes =
    (0 ∷ 0 ∷ 0 ∷ 48 ∷ replicate 12 0)
    ++ (1 ∷ 1 ∷ 0 ∷ 0 ∷ 0 ∷ 1 ∷ 0 ∷ 1 ∷ replicate 24 0)
    ++ (0 ∷ 1 ∷ [])

abbrev uk_file : List ℕ
uk_file = header_bytes ++ replicate 2100 0

abbrev file_of : DiscFile → Option (List ℕ)
file_of unit_key_ro = some uk_file
file_of _ = none

abbrev uk_world : World
uk_world = record sample_world { disc_file = λ backup file. file_of file }

abbrev new_disc : Disc
new_disc = record (disc_with true) {
  aacs = record (disc_with true).aacs { uk = none };
  disc_id = replicate 20 0;
}

zeros-IsByte : (n : ℕ) → All IsByte (replicate n 0)
zeros-IsByte zero = record {}
zeros-IsByte (suc n) = (omega arith, zeros-IsByte n)

All-append : (xs ys : List ℕ) → All IsByte xs → All IsByte ys → All IsByte (xs ++ ys)
All-append [] ys a b = b
All-append (x ∷ xs) ys (a, rest) b = (a, All-append xs ys rest b)

header_bytes-IsByte : All IsByte header_bytes
header_bytes-IsByte = ground arith

uk_file-IsUkFile : IsUkFile uk_file
uk_file-IsUkFile = (
  All-append header_bytes (replicate 2100 0) header_bytes-IsByte (zeros-IsByte 2100),
  omega (arith, length-append header_bytes (replicate 2100 0), length-replicate {A = ℕ} 2100 0),
)

uk_files-IsUkFile : (backup : Bool) → IsUkFile (read_file uk_world backup unit_key_ro)
unfolding read_file file_bytes
uk_files-IsUkFile backup = uk_file-IsUkFile

no_cert : WhenOk (λ cc. is_aacs2 cc ≡ false) (read_cc_any uk_world)
unfolding read_cc_any read_file file_bytes is_aacs2
no_cert = refl

-- The disc of these files, opened with a new struct.
abbrev opening : Run (Option (Disc × ErrorCode))
opening = aacs_open2 uk_world 0 true true (disc_with true).disk (λ disc_id. none)

abbrev opened_in : Run (Option (Disc × ErrorCode)) → Disc × ErrorCode
opened_in (ok (some r)) = r
opened_in _ = (new_disc, success)

abbrev opened : Disc × ErrorCode
opened = opened_in opening

opening_returns : opening ≡ ok (some (opened.0, opened.1))
unfolding aacs_open2 aacs_open_device read_file uk_parse parse_header byte_at parse_uks be32 be16
    is_aacs2 bytes_at assign_titles calc_vuk is_empty same_bytes find_key get_bus_encryption_enabled
opening_returns = refl

-- Key caching is switched on, and the flags of bus encryption are read.
abbrev switched : Disc
switched = aacs_set_key_caching opened.0 true

aacs_open2-Plays_example :
    Returns IsReady (aacs_select_title (Disc.aacs (aacs_get_bus_encryption uk_world switched).0) 0)
    × Returns LeavesReady (
        aacs_decrypt_unit uk_world.aes
          (λ key bytes. bytes)
          (Disc.aacs (aacs_get_bus_encryption uk_world switched).0)
          (0xff ∷ replicate 6143 0x47))
aacs_open2-Plays_example =
    aacs_open2-Plays uk_world 0 true true (disc_with true).disk (λ disc_id. none)
      (λ key bytes. bytes) opened.0 (aacs_get_bus_encryption uk_world switched).0 opened.1
      uk_files-IsUkFile no_cert (λ disc_id. record {}) (λ key plain. (plain, refl)) opening_returns
      (next (next here (sets_key_caching opened.0 true)) (gets_bus_encryption switched)) 0
      (0xff ∷ replicate 6143 0x47)

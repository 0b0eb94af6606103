-- ===== src/Opening/Device/Ready.antt =====
-- What the opening of a disc leaves in the struct for the stream.
use libaacs.Common.{
  ℕ, ◌+◌, ◌^◌, ◌<◌, ◌≡◌, refl, inl, inr, Bool, true, false, Option, none, some, List, arith, ltb,
  Bool-cases, length, All, Run, ok, fault, stuck, ◌>>=◌, Returns, IsByte,
}
use libaacs.Common.Partial.{WhenOk, WhenOk-bind, WhenOk-then, WhenOk-if, WhenOk-weaken}
use libaacs.ErrorCode.{ErrorCode, success}
use libaacs.UnitKey.{UnitKeys, uk_parse}
use libaacs.UnitKey.Titles.{TitlesMatch}
use libaacs.UnitKey.Parse.{OptWellFormed, uk_parse-IsWellFormed}
use libaacs.UnitKey.Few.{IsFew, OptFew, uk_parse-OptFew}
use libaacs.Cache.{keycache_find}
use libaacs.Mmc.Auth.{MmcResult, mmc_success, data_keys_request}
use libaacs.Keydb.{ConfigFile, HostCert}
use libaacs.Stream.Ready.{IsReady}
use libaacs.Opening.{World, unit_key_ro, Disc, KeyResult, overwrite, read_auth, open_mmc}
use libaacs.Opening.UnitKeys.{read_file, calc_uks, set_uk}
use libaacs.Opening.UnitKeys.Ready.{ReadyAt, FitsUnits, FewKeysIn, DiscReady, calc_uks-DiscReady}
use libaacs.Opening.Device.{
  read_cc_any, is_aacs2, parse_uk_file, or_backup, keep_disc_id, calc_title_hash, keep_bec,
  drive_cert_of, read_bec, rdk_type, put_rdk, rdk_if_found, rdk_or_cache, keep_rdk,
  read_read_data_key, bus_if_capable, bus_keys, with_bus, open_with_keys, start_device,
  aacs_open_device,
}

abbrev pub StaysReady : Disc × ErrorCode → Type 0
StaysReady s = IsReady s.0.aacs

keep_bec-IsReady :
    (w : World) (d : Disc) (o : Option (MmcResult (List ℕ)))
    → IsReady d.aacs
    → IsReady (keep_bec w d o).aacs
unfolding keep_bec
keep_bec-IsReady w d none ready = ready
keep_bec-IsReady w d (some (mmc_success cert)) ready = ready
keep_bec-IsReady w d (some _) ready = ready

pub read_bec-IsReady :
    (w : World) (d : Disc) (o : Option Bool) → IsReady d.aacs → IsReady (read_bec w d o).aacs
unfolding read_bec
read_bec-IsReady w d (some capable) ready = ready
read_bec-IsReady w d none ready =
    keep_bec-IsReady w (record d { opened = d.opened + 1 })
      (drive_cert_of w (w.device d.opened) (open_mmc w d)) ready

rdk_if_found-StaysReady :
    (d : Disc) (code : ErrorCode) (r : List ℕ × Bool)
    → IsReady d.aacs
    → StaysReady (rdk_if_found d code r)
unfolding rdk_if_found put_rdk
rdk_if_found-StaysReady d code (key, true) ready = ready
rdk_if_found-StaysReady d code (key, false) ready = ready

rdk_or_cache-StaysReady :
    (w : World) (d : Disc) (code : ErrorCode) (key : List ℕ)
    → IsReady d.aacs
    → WhenOk StaysReady (rdk_or_cache w d code key)
unfolding rdk_or_cache put_rdk
rdk_or_cache-StaysReady w d code key ready = WhenOk-if StaysReady d.no_cache _ _ ready (
    WhenOk-bind StaysReady (keycache_find w.env d.disk (rdk_type d) d.disc_id 16) _
      (λ r. rdk_if_found-StaysReady d code (overwrite key r) ready))

keep_rdk-StaysReady :
    (w : World) (r : KeyResult) → IsReady r.0.aacs → WhenOk StaysReady (keep_rdk w r)
unfolding keep_rdk put_rdk
keep_rdk-StaysReady w (d, success, key) ready = ready
keep_rdk-StaysReady w (d, code, key) ready = rdk_or_cache-StaysReady w d code key ready

read_read_data_key-StaysReady :
    (w : World) (d : Disc) (hcl : List HostCert)
    → IsReady d.aacs
    → WhenOk StaysReady (read_read_data_key w d hcl)
unfolding read_read_data_key
read_read_data_key-StaysReady w d hcl ready =
    keep_rdk-StaysReady w (read_auth w d hcl (data_keys_request true false) d.aacs.read_data_key)
      (unfold read_auth in ready)

bus_if_capable-StaysReady :
    (w : World) (cf : ConfigFile) (d : Disc) (o : Option Bool)
    → IsReady d.aacs
    → WhenOk StaysReady (bus_if_capable w cf d o)
unfolding bus_if_capable
bus_if_capable-StaysReady w cf d (some true) ready =
    read_read_data_key-StaysReady w d cf.host_cert_list ready
bus_if_capable-StaysReady w cf d (some false) ready = ready
bus_if_capable-StaysReady w cf d none ready = ready

bus_keys-StaysReady :
    (w : World) (cf : Option ConfigFile) (d : Disc)
    → IsReady d.aacs
    → WhenOk StaysReady (bus_keys w cf d)
unfolding bus_keys
bus_keys-StaysReady w none d ready = ready
bus_keys-StaysReady w (some cf) d ready =
    bus_if_capable-StaysReady w cf (read_bec w d d.aacs.bec) (read_bec w d d.aacs.bec).aacs.bec
      (read_bec-IsReady w d d.aacs.bec ready)

with_bus-StaysReady :
    (w : World) (cf : Option ConfigFile) (r : Disc × ErrorCode)
    → IsReady r.0.aacs
    → WhenOk StaysReady (with_bus w cf r)
unfolding with_bus
with_bus-StaysReady w cf (d, success) ready =
    WhenOk-if StaysReady d.aacs.bee (bus_keys w cf d) _ (bus_keys-StaysReady w cf d ready) ready
with_bus-StaysReady w cf (d, _) ready = ready

-- The unit keys that were parsed, if any.
abbrev Good : Option UnitKeys → Type 0
Good none = Unit
Good (some uk) = TitlesMatch uk.title_cps_unit uk.num_titles uk.num_uk × IsFew uk

-- The bytes of a unit key file, below 2 GB.
abbrev pub IsUkFile : List ℕ → Type 0
IsUkFile bytes = All IsByte bytes × (length bytes < 2 ^ 31)

uk_parse-Good : (p : List ℕ) → IsUkFile p → WhenOk Good (uk_parse p (length p) false)
uk_parse-Good p (bytes, small) =
    both (uk_parse p (length p) false) (uk_parse-IsWellFormed p small)
      (uk_parse-OptFew p (length p) false bytes)
  where
    both : (m : Run (Option UnitKeys)) → Returns OptWellFormed m → WhenOk OptFew m → WhenOk Good m
    both (ok none) f g = record {}
    both (ok (some uk)) f g = (f.titles, g)
    both fault f g = record {}
    both stuck f g = record {}

parse_uk_file-Good :
    (bytes : List ℕ) → IsUkFile bytes → WhenOk Good (parse_uk_file bytes false none)
unfolding parse_uk_file
parse_uk_file-Good bytes file = elim (Bool-cases (ltb 2048 (length bytes))) [
  | inl large ↦ rw large (uk_parse-Good bytes file)
  | inr small ↦ rw small (record {})
]

abbrev GoodPair : Option (UnitKeys × List ℕ) → Type 0
GoodPair none = Unit
GoodPair (some (uk, bytes)) = Good (some uk)

or_backup-GoodPair :
    (w : World) (aacs2 : Bool) (bytes : List ℕ) (o : Option UnitKeys)
    → aacs2 ≡ false
    → IsUkFile (read_file w true unit_key_ro)
    → Good o
    → WhenOk GoodPair (or_backup w aacs2 bytes o)
unfolding or_backup
or_backup-GoodPair w aacs2 bytes (some uk) aacs1 file good = good
or_backup-GoodPair w aacs2 bytes none aacs1 file good =
    paired (parse_uk_file (read_file w true unit_key_ro) aacs2 none)
      (rw aacs1 (parse_uk_file-Good (read_file w true unit_key_ro) file))
  where
    paired :
        (m : Run (Option UnitKeys))
        → WhenOk Good m
        → WhenOk GoodPair (
            m >>= λ uk. elim uk [
              | none ↦ ok none
              | some u ↦ ok (some (u, read_file w true unit_key_ro))
            ])
    paired (ok none) g = record {}
    paired (ok (some uk)) g = g
    paired fault g = record {}
    paired stuck g = record {}

-- Ready, at the CPS unit 0, with the keys that are decrypted next.
abbrev KeysFound : Disc × Option UnitKeys → Type 0
KeysFound (d, none) = IsReady d.aacs
KeysFound (d, some uk) = ReadyAt 0 d.aacs × Good (some uk)

keep_disc_id-KeysFound :
    (w : World) (d : Disc) (o : Option (UnitKeys × List ℕ))
    → d.aacs.uk ≡ none
    → d.aacs.current_cps_unit ≡ 0
    → GoodPair o
    → KeysFound (keep_disc_id w d o)
unfolding keep_disc_id set_uk
keep_disc_id-KeysFound w d none no_uk first good = rw no_uk (record {})
keep_disc_id-KeysFound w d (some (uk, bytes)) no_uk first (titles, (few, unset)) =
    (((titles, rw unset (record {}), inr first), first), (titles, (few, unset)))

calc_title_hash-KeysFound :
    (w : World) (d : Disc)
    → ((backup : Bool) → IsUkFile (read_file w backup unit_key_ro))
    → is_aacs2 d.cc ≡ false
    → d.aacs.uk ≡ none
    → d.aacs.current_cps_unit ≡ 0
    → WhenOk KeysFound (calc_title_hash w d)
unfolding calc_title_hash
calc_title_hash-KeysFound w d files aacs1 no_uk first =
    let main = read_file w false unit_key_ro in
    let parsed : WhenOk Good (parse_uk_file main (is_aacs2 d.cc) d.aacs.uk) =
      rw (aacs1, no_uk) (parse_uk_file-Good main (files false)) in
    WhenOk-then Good KeysFound (parse_uk_file main (is_aacs2 d.cc) d.aacs.uk) _ parsed (λ uk good.
      WhenOk-then GoodPair KeysFound (or_backup w (is_aacs2 d.cc) main uk) _
        (or_backup-GoodPair w (is_aacs2 d.cc) main uk aacs1 (files true) good)
        (λ found pair. keep_disc_id-KeysFound w d found no_uk first pair))

calc_uks-StaysReady :
    (w : World) (fuel : ℕ) (d : Disc) (cf : Option ConfigFile) (uk : UnitKeys)
    → FewKeysIn cf
    → ReadyAt 0 d.aacs
    → Good (some uk)
    → WhenOk StaysReady (calc_uks w fuel d cf uk)
calc_uks-StaysReady w fuel d cf uk few ready (titles, (small, unset)) =
    elim (Bool-cases (ltb uk.num_uk 1)) [
      | inl nothing ↦ unfold calc_uks in rw nothing ready.0
      | inr some_keys ↦
          let fits : FitsUnits 0 uk = (titles, ground arith, small, inr refl) in
          WhenOk-weaken (DiscReady 0) StaysReady (calc_uks w fuel d cf uk) (λ r r_ready. r_ready.0)
            (calc_uks-DiscReady w fuel 0 d cf uk fits few ready)
    ]

open_with_keys-StaysReady :
    (w : World) (fuel : ℕ) (config_load : List ℕ → Option ConfigFile) (t : Disc × Option UnitKeys)
    → ((disc_id : List ℕ) → FewKeysIn (config_load disc_id))
    → KeysFound t
    → WhenOk StaysReady (open_with_keys w fuel config_load t)
unfolding open_with_keys
open_with_keys-StaysReady w fuel config_load (d, none) few found = found
open_with_keys-StaysReady w fuel config_load (d, some uk) few (ready, good) =
    WhenOk-then StaysReady StaysReady (calc_uks w fuel d (config_load d.disc_id) uk) _
      (calc_uks-StaysReady w fuel d (config_load d.disc_id) uk (few d.disc_id) ready good)
      (λ r r_ready. with_bus-StaysReady w (config_load d.disc_id) r r_ready)

-- If the struct has no unit keys yet and its CPS unit is 0, the unit key files are bytes and below 2 GB, no
-- content certificate is one of AACS2, and no configuration has an entry of 65536 keys or more, then
-- `aacs_open_device` leaves the struct ready for the stream whenever it returns, whatever its result is.
pub aacs_open_device-StaysReady :
    (w : World) (fuel : ℕ) (d : Disc) (config_load : List ℕ → Option ConfigFile)
    → d.aacs.uk ≡ none
    → d.aacs.current_cps_unit ≡ 0
    → ((backup : Bool) → IsUkFile (read_file w backup unit_key_ro))
    → WhenOk (λ cc. is_aacs2 cc ≡ false) (read_cc_any w)
    → ((disc_id : List ℕ) → FewKeysIn (config_load disc_id))
    → WhenOk StaysReady (aacs_open_device w fuel d config_load)
unfolding aacs_open_device
aacs_open_device-StaysReady w fuel d config_load no_uk first files aacs1 few =
    WhenOk-then (λ cc. is_aacs2 cc ≡ false) StaysReady (read_cc_any w) _ aacs1
      (λ cc aacs1_cc.
        WhenOk-then KeysFound StaysReady (calc_title_hash w (start_device d cc)) _
          (calc_title_hash-KeysFound w (start_device d cc) files (unfold start_device in aacs1_cc)
            (unfold start_device in no_uk) (unfold start_device in first))
          (λ t found. open_with_keys-StaysReady w fuel config_load t few found))

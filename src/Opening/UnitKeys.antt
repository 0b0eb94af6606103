-- ===== src/Opening/UnitKeys.antt =====
-- src/libaacs/aacs.c, the opening of a disc: the volume unique key and the unit keys.
pub mod Cached
pub mod Unreadable
pub mod Keeps
pub mod Ready
pub mod Again
pub mod Examples
use libaacs.Common.{
  ℕ, zero, suc, ◌+◌, ◌-◌, Bool, true, false, not, Option, none, some, List, [], ◌∷◌, ◌++◌, ltb, leb,
  ◌==◌, if◌then◌else◌, same_bytes, length, replicate, Run, ok, fault, ◌>>=◌, ◌>>◌,
}
use libaacs.ErrorCode.{ErrorCode, success, no_config, unknown_error}
use libaacs.Crypto.{xor_bytes}
use libaacs.UnitKey.{UnitKeys, empty_key}
use libaacs.Cci.{CciEntry, cci_parse, cci_is_unencrypted}
use libaacs.Keydb.{DigitKeyPair, TitleEntry, ConfigFile}
use libaacs.Opening.{
  World, DiscFile, cps_unit_cci, Disc, is_empty, find_key, save_key, vuk_type, KeyResult, calc_mk,
  read_vid,
}

-- The struct, the code, and the buffers of the media key and the volume unique key.
pub record VukResult : Type 0 where
  pub disc : Disc
  pub code : ErrorCode
  pub mk : List ℕ
  pub vuk : List ℕ

unfoldable pub decrypt_vuk : World → Disc → List ℕ → List ℕ → Option (List ℕ) → VukResult
decrypt_vuk w d mk vuk none = record { disc = d; code = unknown_error; mk = mk; vuk = vuk }
decrypt_vuk w d mk vuk (some key) =
    let vuk' = xor_bytes key d.vid in
    record { disc = save_key w d vuk_type vuk'; code = success; mk = mk; vuk = vuk' }

unfoldable pub vuk_with_vid : World → List ℕ → List ℕ → Disc × ErrorCode → VukResult
unfolding decrypt_vuk
vuk_with_vid w mk vuk (d, success) = decrypt_vuk w d mk vuk (w.aes.decrypt mk d.vid)
vuk_with_vid w mk vuk (d, code) = record { disc = d; code = code; mk = mk; vuk = vuk }

unfoldable pub vuk_with_mk : World → ConfigFile → List ℕ → KeyResult → VukResult
unfolding vuk_with_vid
vuk_with_mk w cf vuk (d, success, mk) = vuk_with_vid w mk vuk (read_vid w d cf.host_cert_list)
vuk_with_mk w cf vuk (d, code, mk) = record { disc = d; code = code; mk = mk; vuk = vuk }

unfoldable pub vuk_if_found :
    World → ℕ → Disc → List ℕ → Option ConfigFile → List ℕ × Bool → Run VukResult
unfolding vuk_with_mk
vuk_if_found w fuel d mk cf (vuk, true) =
    ok (record { disc = d; code = success; mk = mk; vuk = vuk })
vuk_if_found w fuel d mk none (vuk, false) =
    ok (record { disc = d; code = no_config; mk = mk; vuk = vuk })
vuk_if_found w fuel d mk (some cf) (vuk, false) = do
  r ← calc_mk w fuel cf.pkl cf.dkl d mk
  ok (vuk_with_mk w cf vuk r)

-- `_calc_vuk`.
unfoldable pub calc_vuk : World → ℕ → Disc → List ℕ → List ℕ → Option ConfigFile → Run VukResult
unfolding vuk_if_found
calc_vuk w fuel d mk vuk cf =
    if not (is_empty 16 vuk)
    then ok (record { disc = d; code = success; mk = mk; vuk = vuk })
    else (do r ← find_key w d vuk_type vuk; vuk_if_found w fuel d mk cf r)

-- The first loop of `_find_config_entry`.
unfoldable pub entry_of : List ℕ → List TitleEntry → Option TitleEntry
entry_of disc_id [] = none
entry_of disc_id (ce ∷ list) =
    let rest = entry_of disc_id list in if same_bytes disc_id ce.discid then some ce else rest

unfoldable pub pair_keys : List DigitKeyPair → List (List ℕ)
pair_keys [] = []
pair_keys (p ∷ ps) = p.key ∷ pair_keys ps

unfoldable pub set_uk : Disc → UnitKeys → Disc
set_uk d uk = record d { aacs = record d.aacs { uk = some uk } }

-- "get keys", into the array that is as long as the larger of the two numbers.
unfoldable pub config_uks : UnitKeys → List (List ℕ) → UnitKeys
config_uks uk keys =
    let num_uk = if ltb uk.num_uk (length keys) then length keys else uk.num_uk in
    record uk { num_uk = num_uk; uk = some (keys ++ replicate (num_uk - length keys) empty_key) }

unfoldable pub put_config_uks : UnitKeys → List (List ℕ) → VukResult → VukResult
unfolding set_uk config_uks
put_config_uks uk keys r = record r { disc = set_uk r.disc (config_uks uk keys) }

-- A number of keys that is not that of the disc is taken only without the volume unique key.
unfoldable pub put_unless_vuk : UnitKeys → List (List ℕ) → ErrorCode → VukResult → VukResult
unfolding put_config_uks
put_unless_vuk uk keys success r = r
put_unless_vuk uk keys code r = put_config_uks uk keys r

unfoldable pub entry_uks :
    World → ℕ → ConfigFile → UnitKeys → List (List ℕ) → VukResult → Run VukResult
unfolding put_unless_vuk put_config_uks
entry_uks w fuel cf uk [] r = ok r
entry_uks w fuel cf uk (k ∷ ks) r =
    if length (k ∷ ks) == uk.num_uk then ok (put_config_uks uk (k ∷ ks) r) else (do
      v ← calc_vuk w fuel r.disc r.mk r.vuk (some cf)
      ok (put_unless_vuk uk (k ∷ ks) v.code v))

-- The keys of an entry that are not empty.
unfoldable pub entry_keys : TitleEntry → VukResult → VukResult
entry_keys ce r =
    let with_mk = not (is_empty 16 ce.mk) in
    let d = r.disc in
    record r {
      disc = record d {
        mk = if with_mk then ce.mk else d.mk;
        vid = if is_empty 16 ce.vid then d.vid else ce.vid;
      };
      mk = if with_mk then ce.mk else r.mk;
      vuk = if is_empty 16 ce.vuk then r.vuk else ce.vuk;
    }

unfoldable pub from_entry :
    World → ℕ → ConfigFile → UnitKeys → VukResult → Option TitleEntry → Run VukResult
unfolding entry_uks entry_keys pair_keys
from_entry w fuel cf uk r none = ok r
from_entry w fuel cf uk r (some ce) = entry_uks w fuel cf uk (pair_keys ce.uk) (entry_keys ce r)

-- `_find_config_entry`, where `uk` is `aacs->uk`.
unfoldable pub find_config_entry : World → ℕ → ConfigFile → UnitKeys → VukResult → Run VukResult
unfolding from_entry entry_of
find_config_entry w fuel cf uk r = from_entry w fuel cf uk r (entry_of r.disc.disc_id cf.list)

-- `_read_file`: what the file has, and nothing if it cannot be opened.
unfoldable pub file_bytes : Option (List ℕ) → List ℕ
file_bytes none = []
file_bytes (some bytes) = bytes

unfoldable pub read_file : World → Bool → DiscFile → List ℕ
unfolding file_bytes
read_file w backup file = file_bytes (w.disc_file backup file)

-- A file of less than 2048 bytes is not taken.
unfoldable pub read_cci_file : World → ℕ → List ℕ
read_cci_file w cps_unit =
    let main = read_file w false (cps_unit_cci cps_unit) in
    let backup = read_file w true (cps_unit_cci cps_unit) in
    if leb 2048 (length main) then main else if leb 2048 (length backup) then backup else []

unfoldable pub read_cci : World → ℕ → Run (Option (List CciEntry))
unfolding read_cci_file
read_cci w cps_unit =
    let bytes = read_cci_file w cps_unit in
    if length bytes == 0 then ok none else cci_parse bytes (length bytes)

-- What `_check_cci_unencrypted` gives: `none` is -1.
unfoldable pub unencrypted_in : Option (List CciEntry) → Run (Option Bool)
unencrypted_in none = ok none
unencrypted_in (some cci) = do v ← cci_is_unencrypted cci; ok (some v)

unfoldable pub check_cci_unencrypted : World → ℕ → Run (Option Bool)
unfolding read_cci unencrypted_in
check_cci_unencrypted w cps_unit = do cci ← read_cci w cps_unit; unencrypted_in cci

-- Whether the loop goes on: `!_check_cci_unencrypted()` holds for 0 only.
unfoldable pub goes_on : Option Bool → Bool
goes_on (some false) = false
goes_on _ = true

unfoldable pub may_decrypt : World → ErrorCode → ℕ → Run Bool
unfolding check_cci_unencrypted goes_on
may_decrypt w success cps_unit = ok true
may_decrypt w code cps_unit = do v ← check_cci_unencrypted w cps_unit; ok (goes_on v)

-- One key of the array, of which `n` are left behind it. The array was cleared before.
unfoldable pub put_key :
    ErrorCode
    → ℕ
    → Bool
    → Option (List ℕ)
    → Run (ErrorCode × List (List ℕ))
    → Run (ErrorCode × List (List ℕ))
put_key vuk_code n false key rest = ok (vuk_code, replicate (suc n) empty_key)
put_key vuk_code n true none rest = ok (unknown_error, replicate (suc n) empty_key)
put_key vuk_code n true (some key) rest = do r ← rest; ok (r.0, key ∷ r.1)

-- "decrypt unit keys": `n` of them are left, from the index `i` on.
unfoldable pub decrypt_keys :
    World → List ℕ → ErrorCode → ℕ → ℕ → List (List ℕ) → Run (ErrorCode × List (List ℕ))
unfolding may_decrypt put_key
decrypt_keys w vuk vuk_code zero i encs = ok (success, [])
decrypt_keys w vuk vuk_code (suc n) i [] = fault
decrypt_keys w vuk vuk_code (suc n) i (enc ∷ encs) =
    let rest = decrypt_keys w vuk vuk_code n (i + 1) encs in
    do go ← may_decrypt w vuk_code (i + 1); put_key vuk_code n go (w.aes.decrypt vuk enc) rest

unfoldable pub enc_keys_of : Option (List (List ℕ)) → List (List ℕ)
enc_keys_of none = []
enc_keys_of (some encs) = encs

-- "Calculate CPS unit keys".
unfoldable pub decrypt_uks : World → UnitKeys → VukResult → Run (Disc × ErrorCode)
unfolding decrypt_keys enc_keys_of set_uk
decrypt_uks w uk r = do
  k ← decrypt_keys w r.vuk r.code uk.num_uk 0 (enc_keys_of uk.enc_uk)
  ok (set_uk r.disc (record uk { uk = some k.1 }), k.0)

-- After the search for an entry: "Skip if retrieved from config file".
unfoldable pub has_keys : Option UnitKeys → Bool
has_keys none = false
has_keys (some uk) = elim uk.uk [ none ↦ false | some keys ↦ true ]

unfoldable pub uks_by_entry : World → ℕ → ConfigFile → UnitKeys → VukResult → Run (Disc × ErrorCode)
unfolding has_keys decrypt_uks
uks_by_entry w fuel cf uk r =
    if has_keys r.disc.aacs.uk
    then ok (r.disc, success)
    else (do v ← calc_vuk w fuel r.disc r.mk r.vuk (some cf); decrypt_uks w uk v)

-- After the first try, by the cache only.
unfoldable pub uks_by_vuk :
    World → ℕ → Option ConfigFile → UnitKeys → ErrorCode → VukResult → Run (Disc × ErrorCode)
unfolding uks_by_entry find_config_entry decrypt_uks
uks_by_vuk w fuel cf uk success r = decrypt_uks w uk r
uks_by_vuk w fuel none uk code r = do v ← calc_vuk w fuel r.disc r.mk r.vuk none; decrypt_uks w uk v
uks_by_vuk w fuel (some cf) uk code r = do
  e ← find_config_entry w fuel cf uk r
  uks_by_entry w fuel cf uk e

-- `_calc_uks`, where `uk` is `aacs->uk`.
unfoldable pub calc_uks : World → ℕ → Disc → Option ConfigFile → UnitKeys → Run (Disc × ErrorCode)
unfolding uks_by_vuk
calc_uks w fuel d cf uk = if ltb uk.num_uk 1 then ok (d, success) else (do
  r ← calc_vuk w fuel d (replicate 16 0) (replicate 16 0) none
  uks_by_vuk w fuel cf uk r.code r)

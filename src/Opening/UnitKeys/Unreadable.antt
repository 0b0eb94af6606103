-- ===== src/Opening/UnitKeys/Unreadable.antt =====
-- Unit keys without a volume unique key, where the usage files of the CPS units decide.
use libaacs.Common.{
  ℕ, zero, suc, ◌+◌, ◌<◌, ◌≡◌, refl, Bool, true, false, none, some, List, [], ◌∷◌, arith, ltb,
  same_bytes, length, replicate, ok,
}
use libaacs.ErrorCode.{success, no_config}
use libaacs.UnitKey.{UnitKeys}
use libaacs.Opening.{World, Disc, cps_unit_cci, is_empty, find_key}
use libaacs.Opening.UnitKeys.{
  decrypt_keys, put_key, may_decrypt, check_cci_unencrypted, read_cci, read_cci_file, read_file,
  file_bytes, unencrypted_in, goes_on, decrypt_uks, enc_keys_of, vuk_if_found, calc_vuk, uks_by_vuk,
  calc_uks, set_uk,
}
use libaacs.Opening.UnitKeys.Cached.{DecryptsBy, map_dec}

-- No usage file of the disc can be opened.
abbrev pub NoCciFiles : World → Type 0
NoCciFiles w = (backup : Bool) (unit : ℕ) → w.disc_file backup (cps_unit_cci unit) ≡ none

read_file-NoCciFiles :
    (w : World) (backup : Bool) (unit : ℕ)
    → NoCciFiles w
    → read_file w backup (cps_unit_cci unit) ≡ []
unfolding read_file file_bytes
read_file-NoCciFiles w backup unit missing = rw (missing backup unit) refl

read_cci_file-NoCciFiles : (w : World) (unit : ℕ) → NoCciFiles w → read_cci_file w unit ≡ []
unfolding read_cci_file
read_cci_file-NoCciFiles w unit missing =
    rw (read_file-NoCciFiles w false unit missing, read_file-NoCciFiles w true unit missing) refl

may_decrypt-NoCciFiles :
    (w : World) (unit : ℕ) → NoCciFiles w → may_decrypt w no_config unit ≡ ok true
unfolding may_decrypt
may_decrypt-NoCciFiles w unit missing =
    let no_cci : read_cci w unit ≡ ok none =
      unfold read_cci in rw (read_cci_file-NoCciFiles w unit missing) refl in
    unfold check_cci_unencrypted in rw no_cci (unfold unencrypted_in goes_on in refl)

decrypt_keys-NoCciFiles :
    (w : World) (dec : List ℕ → List ℕ → List ℕ) (vuk : List ℕ) (n i : ℕ) (encs : List (List ℕ))
    → DecryptsBy w.aes dec
    → NoCciFiles w
    → length encs ≡ n
    → decrypt_keys w vuk no_config n i encs ≡ ok (success, map_dec (dec vuk) encs)
unfolding decrypt_keys put_key
decrypt_keys-NoCciFiles w dec vuk zero i [] aes missing len = refl
decrypt_keys-NoCciFiles w dec vuk zero i (enc ∷ encs) aes missing len = absurd (omega arith)
decrypt_keys-NoCciFiles w dec vuk (suc n) i [] aes missing len = absurd (omega arith)
decrypt_keys-NoCciFiles w dec vuk (suc n) i (enc ∷ encs) aes missing len =
    rw
      (
        may_decrypt-NoCciFiles w (i + 1) missing,
        aes vuk enc,
        decrypt_keys-NoCciFiles w dec vuk n (i + 1) encs aes missing (omega arith),
      )
      refl

-- Without a configuration and without the cache there is no volume unique key; if moreover no usage file
-- can be opened, AES does not fail and there are as many encrypted keys as the unit key file counts, 1 or
-- more, then the result is success all the same, with keys that are decrypted by the empty key.
pub calc_uks-NoCciFiles :
    (w : World) (dec : List ℕ → List ℕ → List ℕ) (fuel : ℕ) (d : Disc) (uk : UnitKeys)
    (encs : List (List ℕ))
    → DecryptsBy w.aes dec
    → NoCciFiles w
    → 0 < uk.num_uk
    → uk.enc_uk ≡ some encs
    → length encs ≡ uk.num_uk
    → d.no_cache ≡ true
    → calc_uks w fuel d none uk
      ≡ ok (set_uk d (record uk { uk = some (map_dec (dec (replicate 16 0)) encs) }), success)
unfolding calc_uks calc_vuk vuk_if_found uks_by_vuk decrypt_uks enc_keys_of is_empty same_bytes
    find_key
calc_uks-NoCciFiles w dec fuel d uk encs aes missing some_keys enc len no_cache =
    let many : ltb uk.num_uk 1 ≡ false = ground arith in
    rw
      (
        many,
        no_cache,
        enc,
        decrypt_keys-NoCciFiles w dec (replicate 16 0) uk.num_uk 0 encs aes missing len,
      )
      refl

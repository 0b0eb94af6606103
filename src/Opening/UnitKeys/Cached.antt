-- ===== src/Opening/UnitKeys/Cached.antt =====
-- Unit keys from a volume unique key of the cache.
use libaacs.Common.{
  ℕ, zero, suc, ◌+◌, ◌<◌, ◌≡◌, refl, true, false, Option, some, List, [], ◌∷◌, arith, ltb,
  same_bytes, length, replicate, All, ok, IsByte,
}
use mathlib.Core.List.{append-nil}
use libaacs.ErrorCode.{success}
use libaacs.Crypto.{Aes}
use libaacs.UnitKey.{UnitKeys}
use libaacs.Cache.{keycache_find, keycache_save}
use libaacs.Cache.RoundTrip.{keycache_find-keycache_save}
use libaacs.Keydb.{ConfigFile}
use libaacs.Opening.{World, Disc, is_empty, find_key, overwrite, vuk_type}
use libaacs.Opening.UnitKeys.{
  decrypt_keys, put_key, may_decrypt, decrypt_uks, enc_keys_of, vuk_if_found, calc_vuk, uks_by_vuk,
  calc_uks, set_uk,
}

-- AES gives a block for every key and block.
abbrev pub DecryptsBy : Aes → (List ℕ → List ℕ → List ℕ) → Type 0
DecryptsBy aes dec = (key block : List ℕ) → aes.decrypt key block ≡ some (dec key block)

abbrev pub map_dec : (List ℕ → List ℕ) → List (List ℕ) → List (List ℕ)
map_dec f [] = []
map_dec f (enc ∷ encs) = f enc ∷ map_dec f encs

pub decrypt_keys-success :
    (w : World) (dec : List ℕ → List ℕ → List ℕ) (vuk : List ℕ) (n i : ℕ) (encs : List (List ℕ))
    → DecryptsBy w.aes dec
    → length encs ≡ n
    → decrypt_keys w vuk success n i encs ≡ ok (success, map_dec (dec vuk) encs)
unfolding decrypt_keys may_decrypt put_key
decrypt_keys-success w dec vuk zero i [] aes len = refl
decrypt_keys-success w dec vuk zero i (enc ∷ encs) aes len = absurd (omega arith)
decrypt_keys-success w dec vuk (suc n) i [] aes len = absurd (omega arith)
decrypt_keys-success w dec vuk (suc n) i (enc ∷ encs) aes len =
    rw (aes vuk enc, decrypt_keys-success w dec vuk n (i + 1) encs aes (omega arith)) refl

pub find_key-found :
    (w : World) (d : Disc) (type key : List ℕ)
    → d.no_cache ≡ false
    → length key ≡ 16
    → keycache_find w.env d.disk type d.disc_id 16 ≡ ok (key, true)
    → find_key w d type (replicate 16 0) ≡ ok (key, true)
unfolding find_key overwrite
find_key-found w d type key caching len found = rw (caching, found, len, append-nil key) refl

calc_uks-found :
    (w : World) (dec : List ℕ → List ℕ → List ℕ) (fuel : ℕ) (d : Disc) (cf : Option ConfigFile)
    (uk : UnitKeys) (encs : List (List ℕ)) (vuk : List ℕ)
    → DecryptsBy w.aes dec
    → 0 < uk.num_uk
    → uk.enc_uk ≡ some encs
    → length encs ≡ uk.num_uk
    → find_key w d vuk_type (replicate 16 0) ≡ ok (vuk, true)
    → calc_uks w fuel d cf uk
      ≡ ok (set_uk d (record uk { uk = some (map_dec (dec vuk) encs) }), success)
unfolding calc_uks calc_vuk vuk_if_found uks_by_vuk decrypt_uks enc_keys_of is_empty same_bytes
calc_uks-found w dec fuel d cf uk encs vuk aes some_keys enc len found =
    let many : ltb uk.num_uk 1 ≡ false = ground arith in
    rw (many, found, enc, decrypt_keys-success w dec vuk uk.num_uk 0 encs aes len) refl

-- The struct after a volume unique key was saved for its disc.
abbrev pub with_vuk : World → Disc → List ℕ → Disc
with_vuk w d vuk = record d { disk = (keycache_save w.env w.os d.disk vuk_type d.disc_id vuk).0 }

-- If the cache is used, a volume unique key of 16 bytes was saved for the disc, AES does not fail and
-- there are as many encrypted keys as the unit key file counts, 1 or more, then the unit keys are these keys
-- decrypted by that key, whatever the configuration, the block and the drive are.
pub calc_uks-with_vuk :
    (w : World) (dec : List ℕ → List ℕ → List ℕ) (fuel : ℕ) (d : Disc) (cf : Option ConfigFile)
    (uk : UnitKeys) (encs : List (List ℕ)) (vuk : List ℕ)
    → DecryptsBy w.aes dec
    → 0 < uk.num_uk
    → uk.enc_uk ≡ some encs
    → length encs ≡ uk.num_uk
    → d.no_cache ≡ false
    → All IsByte vuk
    → length vuk ≡ 16
    → (keycache_save w.env w.os d.disk vuk_type d.disc_id vuk).1 ≡ true
    → calc_uks w fuel (with_vuk w d vuk) cf uk
      ≡ ok (set_uk (with_vuk w d vuk) (record uk { uk = some (map_dec (dec vuk) encs) }), success)
calc_uks-with_vuk w dec fuel d cf uk encs vuk aes some_keys enc len caching bytes sixteen saved =
    calc_uks-found w dec fuel (with_vuk w d vuk) cf uk encs vuk aes some_keys enc len (
      find_key-found w (with_vuk w d vuk) vuk_type vuk caching sixteen (
        rw sixteen at
          (keycache_find-keycache_save w.env w.os d.disk vuk_type d.disc_id vuk bytes saved)))

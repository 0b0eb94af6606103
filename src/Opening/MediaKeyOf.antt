-- ===== src/Opening/MediaKeyOf.antt =====
-- Where `_calc_mk` of aacs.c has the media key from.
use libaacs.Common.{
  ℕ, ◌≡◌, refl, ◌⊎◌, inl, inr, Bool, true, false, not, ◌||◌, Option, none, some, List, [], ◌∷◌,
  if◌then◌else◌, length, Run, ok, ◌>>=◌,
}
use libaacs.Common.Partial.{WhenOk, WhenOk-from, WhenOk-then}
use libaacs.ErrorCode.{
  ErrorCode, success, corrupted_disc, no_config, no_pk, no_cert, cert_revoked, mmc_open,
  mmc_failure, no_dk, unknown_error,
}
use libaacs.Crypto.{Aes}
use libaacs.Mkb.{Mkb, mkb_init, mkb_version}
use libaacs.MkbFile.{mkb_file}
use libaacs.MediaKey.{DeviceKey}
use libaacs.MediaKey.Verified.{OnKey, IsKeyOf, calc_mk_pks-IsKeyOf}
use libaacs.MediaKey.ByDevices.{calc_mk_dks-IsKeyOf}
use libaacs.Rl.{update_rl}
use libaacs.Opening.{
  Disk, World, Disc, mkb_ro, is_empty, find_key, save_key, mk_type, KeyResult, keep_mk, mk_by_dks,
  mk_by_pks, mk_from_mkb, mk_if_found, calc_mk,
}

-- The files of the block on the disc.
abbrev pub disc_block : World → Run (Option (List ℕ))
disc_block w = mkb_file (w.disc_file false mkb_ro) (w.disc_file true mkb_ro)

-- The key is that of the caller, is in the cache, or is a media key of the block of the disc, which
-- the struct has then.
abbrev pub IsFrom : World → Disc → List ℕ → Disc → List ℕ → Type 0
IsFrom w d mk d' mk' =
    ((is_empty 16 mk ≡ false) × (mk' ≡ mk) × (d' ≡ d))
    ⊎ (((find_key w d mk_type mk ≡ ok (mk', true)) × (d' ≡ d))
        ⊎ ((bytes : List ℕ) × (disc_block w ≡ ok (some bytes))
            × IsKeyOf w.aes (mkb_init bytes (length bytes)) mk'
            × (d'.mk ≡ mk')))

abbrev pub OnSuccess : World → Disc → List ℕ → KeyResult → Type 0
OnSuccess w d mk (d', success, mk') = IsFrom w d mk d' mk'
OnSuccess w d mk (d', _, mk') = Unit {0}

save_key-mk : (w : World) (d : Disc) (type key : List ℕ) → Disc.mk (save_key w d type key) ≡ d.mk
unfolding save_key
save_key-mk w d type key = of_test (d.no_cache || is_empty 20 d.disc_id) _
  where
    of_test : (b : Bool) (disk : Disk) → Disc.mk (if b then d else record d { disk = disk }) ≡ d.mk
    of_test true disk = refl
    of_test false disk = refl

mk_by_dks-OnKey :
    (fuel : ℕ) (aes : Aes) (mkb : Mkb) (dkl : List DeviceKey) (mk : List ℕ)
    → WhenOk (OnKey (IsKeyOf aes mkb)) (mk_by_dks fuel aes mkb dkl mk)
unfolding mk_by_dks
mk_by_dks-OnKey fuel aes mkb [] mk = record {}
mk_by_dks-OnKey fuel aes mkb (k ∷ ks) mk = calc_mk_dks-IsKeyOf fuel aes mkb (k ∷ ks) mk

mk_by_pks-OnKey :
    (aes : Aes) (mkb : Mkb) (pkl : List (List ℕ)) (r : ErrorCode × List ℕ)
    → OnKey (IsKeyOf aes mkb) r
    → WhenOk (OnKey (IsKeyOf aes mkb)) (mk_by_pks aes mkb pkl r)
unfolding mk_by_pks
mk_by_pks-OnKey aes mkb pkl (success, mk) h = h
mk_by_pks-OnKey aes mkb pkl (corrupted_disc, mk) h = calc_mk_pks-IsKeyOf aes mkb pkl mk
mk_by_pks-OnKey aes mkb pkl (no_config, mk) h = calc_mk_pks-IsKeyOf aes mkb pkl mk
mk_by_pks-OnKey aes mkb pkl (no_pk, mk) h = calc_mk_pks-IsKeyOf aes mkb pkl mk
mk_by_pks-OnKey aes mkb pkl (no_cert, mk) h = calc_mk_pks-IsKeyOf aes mkb pkl mk
mk_by_pks-OnKey aes mkb pkl (cert_revoked, mk) h = calc_mk_pks-IsKeyOf aes mkb pkl mk
mk_by_pks-OnKey aes mkb pkl (mmc_open, mk) h = calc_mk_pks-IsKeyOf aes mkb pkl mk
mk_by_pks-OnKey aes mkb pkl (mmc_failure, mk) h = calc_mk_pks-IsKeyOf aes mkb pkl mk
mk_by_pks-OnKey aes mkb pkl (no_dk, mk) h = calc_mk_pks-IsKeyOf aes mkb pkl mk
mk_by_pks-OnKey aes mkb pkl (unknown_error, mk) h = calc_mk_pks-IsKeyOf aes mkb pkl mk

-- The key of the block is kept.
keep_mk-OnSuccess :
    (w : World) (d d1 : Disc) (mk bytes : List ℕ) (r : ErrorCode × List ℕ)
    → disc_block w ≡ ok (some bytes)
    → OnKey (IsKeyOf w.aes (mkb_init bytes (length bytes))) r
    → OnSuccess w d mk (keep_mk w d1 r)
unfolding keep_mk
keep_mk-OnSuccess w d d1 mk bytes (success, key) e h =
    inr (inr (bytes, e, h, save_key-mk w (record d1 { mk = key }) mk_type key))
keep_mk-OnSuccess w d d1 mk bytes (corrupted_disc, key) e h = record {}
keep_mk-OnSuccess w d d1 mk bytes (no_config, key) e h = record {}
keep_mk-OnSuccess w d d1 mk bytes (no_pk, key) e h = record {}
keep_mk-OnSuccess w d d1 mk bytes (no_cert, key) e h = record {}
keep_mk-OnSuccess w d d1 mk bytes (cert_revoked, key) e h = record {}
keep_mk-OnSuccess w d d1 mk bytes (mmc_open, key) e h = record {}
keep_mk-OnSuccess w d d1 mk bytes (mmc_failure, key) e h = record {}
keep_mk-OnSuccess w d d1 mk bytes (no_dk, key) e h = record {}
keep_mk-OnSuccess w d d1 mk bytes (unknown_error, key) e h = record {}

mk_from_mkb-OnSuccess :
    (w : World) (fuel : ℕ) (pkl : List (List ℕ)) (dkl : List DeviceKey) (d : Disc) (mk mk1 : List ℕ)
    (o : Option (List ℕ))
    → disc_block w ≡ ok o
    → WhenOk (OnSuccess w d mk) (mk_from_mkb w fuel pkl dkl d mk1 o)
unfolding mk_from_mkb
mk_from_mkb-OnSuccess w fuel pkl dkl d mk mk1 none e = record {}
mk_from_mkb-OnSuccess w fuel pkl dkl d mk mk1 (some bytes) e =
    let mkb = mkb_init bytes (length bytes) in
    WhenOk-from (OnSuccess w d mk) (mkb_version mkb) _ (λ version _.
      WhenOk-from (OnSuccess w d mk)
        (if d.no_cache then ok d.disk else update_rl w.curve w.env w.os d.disk mkb) _
        (λ disk _.
          WhenOk-then (OnKey (IsKeyOf w.aes mkb)) (OnSuccess w d mk)
            (mk_by_dks fuel w.aes mkb dkl mk1) _ (mk_by_dks-OnKey fuel w.aes mkb dkl mk1)
            (λ r h.
              WhenOk-then (OnKey (IsKeyOf w.aes mkb)) (OnSuccess w d mk) (mk_by_pks w.aes mkb pkl r)
                _ (mk_by_pks-OnKey w.aes mkb pkl r h)
                (λ s g.
                  keep_mk-OnSuccess w d (record d { mkb_version = version; disk = disk }) mk bytes s
                    e g))))

mk_if_found-OnSuccess :
    (w : World) (fuel : ℕ) (pkl : List (List ℕ)) (dkl : List DeviceKey) (d : Disc) (mk : List ℕ)
    (r : List ℕ × Bool)
    → find_key w d mk_type mk ≡ ok r
    → WhenOk (OnSuccess w d mk) (mk_if_found w fuel pkl dkl d r)
unfolding mk_if_found
mk_if_found-OnSuccess w fuel pkl dkl d mk (key, true) e = inr (inl (e, refl))
mk_if_found-OnSuccess w fuel pkl dkl d mk (key, false) e =
    WhenOk-from (OnSuccess w d mk) (disc_block w) _
      (λ o f. mk_from_mkb-OnSuccess w fuel pkl dkl d mk key o f)

-- Whenever `_calc_mk` returns success, its key is the one of the caller, which is not empty, or the
-- one in the cache of the disc, with the struct as it was; or else it is kept in the struct and
-- decrypts the verification data in the media key block of the disc to the fixed bytes, whether
-- device keys or processing keys led to it.
pub calc_mk-OnSuccess :
    (w : World) (fuel : ℕ) (pkl : List (List ℕ)) (dkl : List DeviceKey) (d : Disc) (mk : List ℕ)
    → WhenOk (OnSuccess w d mk) (calc_mk w fuel pkl dkl d mk)
unfolding calc_mk
calc_mk-OnSuccess w fuel pkl dkl d mk = of_test (is_empty 16 mk) refl
  where
    of_test :
        (b : Bool)
        → is_empty 16 mk ≡ b
        → WhenOk (OnSuccess w d mk) (
            if not b
            then ok (d, success, mk)
            else (find_key w d mk_type mk >>= λ r. mk_if_found w fuel pkl dkl d r))
    of_test false e = inl (e, refl, refl)
    of_test true e =
        WhenOk-from (OnSuccess w d mk) (find_key w d mk_type mk) _
          (λ r f. mk_if_found-OnSuccess w fuel pkl dkl d mk r f)

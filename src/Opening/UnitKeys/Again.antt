-- ===== src/Opening/UnitKeys/Again.antt =====
-- A volume unique key that was calculated, when the disc is opened again.
use libaacs.Common.{
  ℕ, ◌≡◌, refl, ap, ◌∙◌, Bool, true, false, ◌||◌, Option, none, some, List, if◌then◌else◌,
  same_bytes, length, replicate, All, Run, ok, fault, stuck, ◌>>=◌, IsByte,
}
use libaacs.Common.Partial.{WhenOk, WhenOk-then}
use libaacs.ErrorCode.{ErrorCode, success}
use libaacs.Cache.{keycache_save, file_get_cache_home}
use libaacs.Cache.RoundTrip.{keycache_find-keycache_save}
use libaacs.Cache.Saves.{IsWilling, keycache_save-true}
use libaacs.Keydb.{ConfigFile}
use libaacs.Opening.{
  World, Disc, KeyResult, is_empty, find_key, save_key, vuk_type, calc_mk, read_vid,
}
use libaacs.Opening.UnitKeys.{
  VukResult, decrypt_vuk, vuk_with_vid, vuk_with_mk, vuk_if_found, calc_vuk,
}
use libaacs.Opening.UnitKeys.Cached.{find_key-found}
use libaacs.Opening.UnitKeys.Keeps.{fixed, Keeps, calc_mk-Keeps, read_vid-fixed}

-- The cache of a disc can be written: it is used, there is a directory for it, the system refuses nothing,
-- and the disc has an id.
pub record CanCache (w : World) (d : Disc) : Type 0 where
  pub home : List ℕ
  pub willing : IsWilling w.os
  pub has_home : file_get_cache_home w.env ≡ some home
  pub used : d.no_cache ≡ false
  pub has_id : is_empty 20 d.disc_id ≡ false

-- A key of 16 bytes is found in the cache.
abbrev IsFound : World → VukResult → Type 0
IsFound w r =
    r.code ≡ success
    → All IsByte r.vuk
    → length r.vuk ≡ 16
    → find_key w r.disc vuk_type (replicate 16 0) ≡ ok (r.vuk, true)

find_key-save_key :
    (w : World) (d : Disc) (vuk : List ℕ)
    → CanCache w d
    → All IsByte vuk
    → length vuk ≡ 16
    → find_key w (save_key w d vuk_type vuk) vuk_type (replicate 16 0) ≡ ok (vuk, true)
unfolding save_key
find_key-save_key w d vuk can bytes sixteen =
    let saved : Disc = record d {
      disk = (keycache_save w.env w.os d.disk vuk_type d.disc_id vuk).0;
    } in
    let found : find_key w saved vuk_type (replicate 16 0) ≡ ok (vuk, true) =
      find_key-found w saved vuk_type vuk can.used sixteen (
        rw sixteen at (
          keycache_find-keycache_save w.env w.os d.disk vuk_type d.disc_id vuk bytes (
            keycache_save-true w.os can.willing w.env d.disk vuk_type d.disc_id vuk can.home
              can.has_home))) in
    by_tests d.no_cache (is_empty 20 d.disc_id) saved can.used can.has_id found
  where
    by_tests :
        (b c : Bool) (saved : Disc)
        → b ≡ false
        → c ≡ false
        → find_key w saved vuk_type (replicate 16 0) ≡ ok (vuk, true)
        → find_key w (if b || c then d else saved) vuk_type (replicate 16 0) ≡ ok (vuk, true)
    by_tests false false saved e f found = found
    by_tests true c saved e f found = absurd cc
    by_tests false true saved e f found = absurd cc

can_again : (w : World) (d d' : Disc) → CanCache w d → fixed d' ≡ fixed d → CanCache w d'
can_again w d d' can same = record {
  home = can.home;
  willing = can.willing;
  has_home = can.has_home;
  used = ap (λ f. f.1) same ∙ can.used;
  has_id = rw (ap (λ f. f.2) same) can.has_id;
}

decrypt_vuk-IsFound :
    (w : World) (d : Disc) (mk vuk : List ℕ) (o : Option (List ℕ))
    → CanCache w d
    → IsFound w (decrypt_vuk w d mk vuk o)
unfolding decrypt_vuk
decrypt_vuk-IsFound w d mk vuk none can = λ good. absurd cc
decrypt_vuk-IsFound w d mk vuk (some key) can =
    λ good bytes sixteen. find_key-save_key w d _ can bytes sixteen

vuk_with_vid-IsFound :
    (w : World) (mk vuk : List ℕ) (r : Disc × ErrorCode)
    → CanCache w r.0
    → IsFound w (vuk_with_vid w mk vuk r)
unfolding vuk_with_vid
vuk_with_vid-IsFound w mk vuk (d, success) can =
    decrypt_vuk-IsFound w d mk vuk (w.aes.decrypt mk d.vid) can
vuk_with_vid-IsFound w mk vuk (d, _) can = λ good. absurd cc

vuk_with_mk-IsFound :
    (w : World) (cf : ConfigFile) (vuk : List ℕ) (r : KeyResult)
    → CanCache w r.0
    → IsFound w (vuk_with_mk w cf vuk r)
unfolding vuk_with_mk
vuk_with_mk-IsFound w cf vuk (d, success, mk) can =
    vuk_with_vid-IsFound w mk vuk (read_vid w d cf.host_cert_list)
      (can_again w d (read_vid w d cf.host_cert_list).0 can (read_vid-fixed w d cf.host_cert_list))
vuk_with_mk-IsFound w cf vuk (d, _, mk) can = λ good. absurd cc

vuk_if_found-IsFound :
    (w : World) (fuel : ℕ) (d : Disc) (mk : List ℕ) (cf : Option ConfigFile) (r : List ℕ × Bool)
    → CanCache w d
    → find_key w d vuk_type (replicate 16 0) ≡ ok r
    → WhenOk (IsFound w) (vuk_if_found w fuel d mk cf r)
unfolding vuk_if_found
vuk_if_found-IsFound w fuel d mk cf (vuk, true) can found = λ good bytes sixteen. found
vuk_if_found-IsFound w fuel d mk none (vuk, false) can found = λ good. absurd cc
vuk_if_found-IsFound w fuel d mk (some cf) (vuk, false) can found =
    WhenOk-then (Keeps (fixed d)) (IsFound w) (calc_mk w fuel cf.pkl cf.dkl d mk) _
      (calc_mk-Keeps w fuel cf.pkl cf.dkl d mk)
      (λ r keeps. vuk_with_mk-IsFound w cf vuk r (can_again w d r.0 can keeps))

calc_vuk-IsFound :
    (w : World) (fuel : ℕ) (d : Disc) (mk : List ℕ) (cf : Option ConfigFile)
    → CanCache w d
    → WhenOk (IsFound w) (calc_vuk w fuel d mk (replicate 16 0) cf)
unfolding calc_vuk is_empty same_bytes
calc_vuk-IsFound w fuel d mk cf can = after (find_key w d vuk_type (replicate 16 0)) refl
  where
    after :
        (m : Run (List ℕ × Bool))
        → find_key w d vuk_type (replicate 16 0) ≡ m
        → WhenOk (IsFound w) (m >>= λ r. vuk_if_found w fuel d mk cf r)
    after (ok r) e = vuk_if_found-IsFound w fuel d mk cf r can e
    after fault e = record {}
    after stuck e = record {}

-- If the cache of the disc can be written and `_calc_vuk` succeeds with a key of 16 bytes, from the block and
-- the drive or from the cache, then the next call gives the same key, without a configuration too, and
-- changes nothing.
pub calc_vuk_again :
    (w : World) (fuel again : ℕ) (d : Disc) (mk mk' : List ℕ) (cf cf' : Option ConfigFile)
    (r : VukResult)
    → CanCache w d
    → calc_vuk w fuel d mk (replicate 16 0) cf ≡ ok r
    → r.code ≡ success
    → All IsByte r.vuk
    → length r.vuk ≡ 16
    → calc_vuk w again r.disc mk' (replicate 16 0) cf'
      ≡ ok (record { disc = r.disc; code = success; mk = mk'; vuk = r.vuk })
unfolding calc_vuk is_empty same_bytes
calc_vuk_again w fuel again d mk mk' cf cf' r can result good bytes sixteen =
    let found : IsFound w r = rw result at (calc_vuk-IsFound w fuel d mk cf can) in
    rw (found good bytes sixteen) (unfold vuk_if_found in refl)

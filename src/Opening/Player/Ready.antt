-- ===== src/Opening/Player/Ready.antt =====
-- Whatever a player calls after the opening, in any order, the struct is ready for the next call.
use mathlib.Core.Path.{subst}
use libaacs.Common.{
  ℕ, ◌≡◌, refl, ap, Bool, true, false, Option, some, List, Run, ok, fault, stuck, ◌>>=◌, Returns,
}
use libaacs.Common.Partial.{WhenOk}
use libaacs.ErrorCode.{ErrorCode}
use libaacs.Files.{Disk}
use libaacs.Keydb.{ConfigFile}
use libaacs.Stream.{Cbc, aacs_select_title, aacs_decrypt_unit}
use libaacs.Stream.Ready.{
  IsReady, IsEncrypting, LeavesReady, aacs_select_title-IsReady, aacs_decrypt_unit-LeavesReady,
}
use libaacs.Opening.{World, Disc, unit_key_ro}
use libaacs.Opening.UnitKeys.{read_file}
use libaacs.Opening.UnitKeys.Ready.{FewKeysIn}
use libaacs.Opening.Device.{read_cc_any, is_aacs2, aacs_get_bus_encryption, aacs_open_device}
use libaacs.Opening.Device.Ready.{
  IsUkFile, StaysReady, read_bec-IsReady, aacs_open_device-StaysReady,
}
use libaacs.Opening.Player.{
  new_aacs, aacs_init, aacs_set_key_caching, open_made, aacs_open2, Step, selects_title,
  decrypts_unit, sets_key_caching, gets_bus_encryption, Plays, here, next,
}

after_ok : {A : Type 0} (P : A → Type 0) (m : Run A) (a : A) → m ≡ ok a → Returns P m → P a
after_ok P m a e h = rw e at h

Step-IsReady :
    {w : World} {cbc : Cbc} {d e : Disc}
    → IsEncrypting w.aes
    → Step w cbc d e
    → IsReady d.aacs
    → IsReady e.aacs
unfolding aacs_set_key_caching aacs_get_bus_encryption
Step-IsReady total (selects_title d title a e) ready =
    after_ok IsReady (aacs_select_title d.aacs title) a e
      (aacs_select_title-IsReady d.aacs title ready)
Step-IsReady {w} {cbc} total (decrypts_unit d buf a out result e) ready =
    after_ok LeavesReady (aacs_decrypt_unit w.aes cbc d.aacs buf) (a, out, result) e
      (aacs_decrypt_unit-LeavesReady w.aes cbc d.aacs buf total ready)
Step-IsReady total (sets_key_caching d enable) ready = ready
Step-IsReady {w} total (gets_bus_encryption d) ready = read_bec-IsReady w d d.aacs.bec ready

Plays-IsReady :
    {w : World} {cbc : Cbc} {d e : Disc}
    → IsEncrypting w.aes
    → Plays w cbc d e
    → IsReady d.aacs
    → IsReady e.aacs
Plays-IsReady total here ready = ready
Plays-IsReady total (next plays step) ready =
    Step-IsReady total step (Plays-IsReady total plays ready)

open_made-StaysReady :
    (w : World) (fuel : ℕ) (config_load : List ℕ → Option ConfigFile) (d e : Disc)
    (code : ErrorCode)
    → WhenOk StaysReady (aacs_open_device w fuel d config_load)
    → open_made w fuel config_load (some d) ≡ ok (some (e, code))
    → IsReady e.aacs
unfolding open_made
open_made-StaysReady w fuel config_load d e code = of_result (aacs_open_device w fuel d config_load)
  where
    some_of : Run (Option (Disc × ErrorCode)) → Disc × ErrorCode → Disc × ErrorCode
    some_of (ok (some r)) other = r
    some_of m other = other

    of_result :
        (m : Run (Disc × ErrorCode))
        → WhenOk StaysReady m
        → (m >>= λ r. ok (some r)) ≡ ok (some (e, code))
        → IsReady e.aacs
    of_result (ok r) ready same =
        let equal : r ≡ (e, code) = ap (λ m. some_of m r) same in
        subst (λ x. StaysReady x) equal ready
    of_result fault ready same = absurd cc
    of_result stuck ready same = absurd cc

-- If the unit key files are bytes and below 2 GB, no content certificate is one of AACS2, no
-- configuration has an entry of 65536 keys or more and AES encryption does not fail, then
-- whatever `aacs_open2` gives, also with an error, and whatever titles are selected, units
-- decrypted, flags set or read after it, in any number and order, the next title is looked up and
-- the next unit is decrypted without a read outside of the title map and the keys.
pub aacs_open2-Plays :
    (w : World) (fuel : ℕ) (crypto no_cache : Bool) (disk : Disk)
    (config_load : List ℕ → Option ConfigFile) (cbc : Cbc) (d e : Disc) (code : ErrorCode)
    → ((backup : Bool) → IsUkFile (read_file w backup unit_key_ro))
    → WhenOk (λ cc. is_aacs2 cc ≡ false) (read_cc_any w)
    → ((disc_id : List ℕ) → FewKeysIn (config_load disc_id))
    → IsEncrypting w.aes
    → aacs_open2 w fuel crypto no_cache disk config_load ≡ ok (some (d, code))
    → Plays w cbc d e
    → (title : ℕ) (buf : List ℕ)
    → Returns IsReady (aacs_select_title e.aacs title)
      × Returns LeavesReady (aacs_decrypt_unit w.aes cbc e.aacs buf)
unfolding aacs_open2 aacs_init
aacs_open2-Plays w fuel false no_cache disk config_load cbc d e code files aacs1 few total opened
      plays title buf =
    absurd (unfold open_made in cc)
aacs_open2-Plays w fuel true no_cache disk config_load cbc d e code files aacs1 few total opened
      plays title buf =
    let first =
      open_made-StaysReady w fuel config_load (new_aacs no_cache disk) d code
        (aacs_open_device-StaysReady w fuel (new_aacs no_cache disk) config_load
          (unfold new_aacs in refl) (unfold new_aacs in refl) files aacs1 few)
        opened in
    let ready = Plays-IsReady total plays first in
    (
      aacs_select_title-IsReady e.aacs title ready,
      aacs_decrypt_unit-LeavesReady w.aes cbc e.aacs buf total ready,
    )

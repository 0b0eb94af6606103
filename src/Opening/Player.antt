-- ===== src/Opening/Player.antt =====
-- src/libaacs/aacs.c, what a player calls: aacs_init, aacs_set_key_caching, aacs_open2, aacs_open,
-- and the calls on the stream, in any order.
pub mod Ready
use libaacs.Common.{
  ℕ, ◌≡◌, Bool, false, not, Option, none, some, List, if◌then◌else◌, replicate, Run, ok, ◌>>=◌,
  ◌>>◌,
}
use libaacs.ErrorCode.{ErrorCode, success}
use libaacs.Files.{Disk}
use libaacs.Keydb.{ConfigFile}
use libaacs.Stream.{Cbc, UnitResult, Aacs, aacs_select_title, aacs_decrypt_unit}
use libaacs.Opening.{World, Disc}
use libaacs.Opening.Device.{aacs_open_device, aacs_get_bus_encryption}

-- The struct from calloc, for the files of the system. A capability of 0 is "not capable".
unfoldable pub new_aacs : Bool → Disk → Disc
new_aacs no_cache disk = record {
  aacs = record {
    uk = none;
    current_cps_unit = 0;
    cps_unit_selected = false;
    bee = false;
    bec = some false;
    read_data_key = replicate 16 0;
  };
  mkb_version = 0;
  disc_id = replicate 20 0;
  vid = replicate 16 0;
  pmsn = replicate 16 0;
  mk = replicate 16 0;
  no_cache = no_cache;
  drive_cert_hash = replicate 20 0;
  cc = none;
  disk = disk;
  opened = 0;
}

-- Whether `crypto_init` succeeds, and whether `AACS_NO_CACHE` is set.
unfoldable pub aacs_init : Bool → Bool → Disk → Option Disc
unfolding new_aacs
aacs_init crypto no_cache disk = if crypto then some (new_aacs no_cache disk) else none

unfoldable pub aacs_set_key_caching : Disc → Bool → Disc
aacs_set_key_caching d enable = record d { no_cache = not enable }

-- The struct that was made, with the code of `aacs_open_device`.
unfoldable pub open_made :
    World → ℕ → (List ℕ → Option ConfigFile) → Option Disc → Run (Option (Disc × ErrorCode))
unfolding aacs_open_device
open_made w fuel config_load none = ok none
open_made w fuel config_load (some d) = do r ← aacs_open_device w fuel d config_load; ok (some r)

unfoldable pub aacs_open2 :
    World → ℕ → Bool → Bool → Disk → (List ℕ → Option ConfigFile) → Run (Option (Disc × ErrorCode))
unfolding aacs_init open_made
aacs_open2 w fuel crypto no_cache disk config_load =
    open_made w fuel config_load (aacs_init crypto no_cache disk)

-- `aacs_open` closes the struct if there was an error.
unfoldable pub or_closed : Option (Disc × ErrorCode) → Option Disc
or_closed none = none
or_closed (some (d, success)) = some d
or_closed (some (d, _)) = none

unfoldable pub aacs_open :
    World → ℕ → Bool → Bool → Disk → (List ℕ → Option ConfigFile) → Run (Option Disc)
unfolding aacs_open2 or_closed
aacs_open w fuel crypto no_cache disk config_load = do
  r ← aacs_open2 w fuel crypto no_cache disk config_load
  ok (or_closed r)

-- A call of the player that returned.
pub data Step (w : World) (cbc : Cbc) : Disc → Disc → Type 0 where
  selects_title :
      (d : Disc) (title : ℕ) (a : Aacs)
      → aacs_select_title d.aacs title ≡ ok a
      → Step w cbc d (record d { aacs = a })
  decrypts_unit :
      (d : Disc) (buf : List ℕ) (a : Aacs) (out : List ℕ) (result : UnitResult)
      → aacs_decrypt_unit w.aes cbc d.aacs buf ≡ ok (a, out, result)
      → Step w cbc d (record d { aacs = a })
  sets_key_caching : (d : Disc) (enable : Bool) → Step w cbc d (aacs_set_key_caching d enable)
  gets_bus_encryption : (d : Disc) → Step w cbc d (aacs_get_bus_encryption w d).0

-- Calls in any number and order.
pub data Plays (w : World) (cbc : Cbc) (d : Disc) : Disc → Type 0 where
  here : Plays w cbc d d
  next : {e f : Disc} → Plays w cbc d e → Step w cbc e f → Plays w cbc d f

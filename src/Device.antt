-- ===== src/Device.antt =====
-- src/file/mmc_device_linux.c: the drive that belongs to a path, and a command to it. The calls of
-- the system are parameters; a file descriptor is a number.
pub mod Opened
pub mod Examples
use libaacs.Common.{
  ℕ, Bool, not, Option, none, some, List, [], ◌∷◌, ◌++◌, ◌==◌, if◌then◌else◌, same_bytes, take, Run,
  ok, ◌>>=◌, ◌>>◌,
}
use mathlib.Core.List.{reverse}
use libaacs.Path.{Links, aacs_resolve_path}

-- `open`, whether `fstat` says a block device, and the entries `(mnt_dir, mnt_fsname)` of
-- /proc/mounts, if it can be opened.
pub record System : Type 0 where
  pub links : Links
  pub open_ro : List ℕ → Option ℕ
  pub is_block : ℕ → Bool
  pub mounts : Option (List (List ℕ × List ℕ))

-- The calls `open` and `close` that succeed, with their descriptors.
pub data Event : Type 0 where
  opened closed : ℕ → Event

-- "strip trailing '/'s", of the characters from the last one on; the loop takes the one of "/" too.
unfoldable pub strip : List ℕ → List ℕ
strip [] = []
strip (c ∷ r) = let rest = strip r in if c == 47 then rest else c ∷ r

unfoldable pub block_of : System → Option ℕ → List Event × Option ℕ
block_of sys none = ([], none)
block_of sys (some fd) =
    if sys.is_block fd then (opened fd ∷ [], some fd) else (opened fd ∷ closed fd ∷ [], none)

-- `_open_block_device`; `none` is -1.
unfoldable pub open_block_device : System → List ℕ → List Event × Option ℕ
unfolding block_of
open_block_device sys path = block_of sys (sys.open_ro path)

unfoldable pub opened_or : Option ℕ → List Event × Option ℕ → List Event × Option ℕ
opened_or none rest = rest
opened_or (some fd) rest = (opened fd ∷ [], some fd)

-- The loop over the entries that can be opened.
unfoldable pub open_mounted : System → List ℕ → List (List ℕ × List ℕ) → List Event × Option ℕ
unfolding opened_or
open_mounted sys path [] = ([], none)
open_mounted sys path ((dir, fsname) ∷ mounts) =
    let rest = open_mounted sys path mounts in
    if same_bytes dir path then opened_or (sys.open_ro fsname) rest else rest

unfoldable pub mounted_or_none :
    System → List ℕ → Option (List (List ℕ × List ℕ)) → List Event × Option ℕ
unfolding open_mounted
mounted_or_none sys path none = ([], none)
mounted_or_none sys path (some mounts) = open_mounted sys path mounts

unfoldable pub or_mounted : System → List ℕ → List Event × Option ℕ → List Event × Option ℕ
unfolding mounted_or_none
or_mounted sys path (events, some fd) = (events, some fd)
or_mounted sys path (events, none) =
    let r = mounted_or_none sys path sys.mounts in (events ++ r.0, r.1)

unfoldable pub open_resolved : System → Option (List ℕ) → List Event × Option ℕ
unfolding or_mounted open_block_device strip
open_resolved sys none = ([], none)
open_resolved sys (some path) =
    let name = reverse (strip (reverse path)) in or_mounted sys name (open_block_device sys name)

-- What was opened and closed, and the descriptor in the `MMCDEV`; `none` is NULL.
unfoldable pub device_open : System → List ℕ → Run (List Event × Option ℕ)
unfolding open_resolved
device_open sys path = do p ← aacs_resolve_path sys.links path; ok (open_resolved sys p)

-- `CGC_DATA_WRITE`, `CGC_DATA_READ` and `CGC_DATA_NONE`, or the 0 of `memset`.
pub data Direction : Type 0 where
  data_unset data_write data_read data_none : Direction

-- The fields of `struct cdrom_generic_command` that are set.
pub record GenericCommand : Type 0 where
  pub cmd : List ℕ
  pub data_direction : Direction
  pub buflen : ℕ

-- `CDROM_PACKET_SIZE` is 12. `has_buf` is false for a NULL buffer.
unfoldable pub generic_command : List ℕ → Bool → ℕ → ℕ → GenericCommand
generic_command cmd has_buf tx rx =
    let c = take 12 cmd in
    if not has_buf
    then record { cmd = c; data_direction = data_none; buflen = 0 }
    else if not (tx == 0)
    then record { cmd = c; data_direction = data_write; buflen = tx }
    else if not (rx == 0)
    then record { cmd = c; data_direction = data_read; buflen = rx }
    else record { cmd = c; data_direction = data_unset; buflen = 0 }

-- `ioctl` gives whether its result is not negative, and what is in the buffer then.
unfoldable pub device_send_cmd :
    (GenericCommand → Bool × List ℕ) → List ℕ → Bool → ℕ → ℕ → Bool × List ℕ
unfolding generic_command
device_send_cmd ioctl cmd has_buf tx rx = ioctl (generic_command cmd has_buf tx rx)

-- `device_close`; -1 is not there, since it is never stored.
unfoldable pub device_close : Option ℕ → List Event
device_close none = []
device_close (some fd) = closed fd ∷ []

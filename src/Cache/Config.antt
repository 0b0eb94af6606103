-- ===== src/Cache/Config.antt =====
-- `config_save` and `config_get` of keydbcfg.c, and the device binding id of aacs.c that they keep.
use libaacs.Common.{
  ℕ, Bool, false, ◌&&◌, Option, none, some, List, [], ◌∷◌, ltb, leb, ◌==◌, if◌then◌else◌, length,
  take, drop, Run, ok, fault, ◌>>=◌,
}
use libaacs.Files.{Disk, Os}
use libaacs.Cache.{Env, config_file_user, save_at, open_at, le32, word_le32}

unfoldable pub config_save : Env → Os → Disk → List ℕ → List ℕ → Disk × Bool
unfolding config_file_user save_at le32
config_save env os disk name bytes =
    save_at os disk (config_file_user env name) (le32 (length bytes) ∷ bytes ∷ [])

-- What `config_get` writes through its pointers, and its result.
pub record ConfigRead : Type 0 where
  pub len : ℕ
  pub bytes : List ℕ
  pub found : Bool

-- The reads of `config_get` with a buffer of `size` bytes: as many as the file has, up to its length
-- field, go into the buffer.
unfoldable pub config_in : List ℕ → ℕ → Run ConfigRead
unfolding word_le32
config_in contents size =
    let len = word_le32 contents 0 in
    let rest = drop 4 contents in
    if leb 4 (length contents) && leb size len
    then (if ltb size (length (take len rest))
        then fault
        else ok
            (record { len = len; bytes = take len rest; found = length (take len rest) == len }))
    else ok (record { len = len; bytes = []; found = false })

unfoldable pub config_or_none : Option (List ℕ) → ℕ → Run ConfigRead
unfolding config_in
config_or_none none size = ok (record { len = 0; bytes = []; found = false })
config_or_none (some contents) size = config_in contents size

unfoldable pub config_get : Env → Disk → List ℕ → ℕ → Run ConfigRead
unfolding config_or_none open_at config_file_user
config_get env disk name size = config_or_none (open_at disk (config_file_user env name)) size

-- "device_binding_id".
abbrev pub binding_file : List ℕ
binding_file =
    b'd' ∷ b'e' ∷ b'v' ∷ b'i' ∷ b'c' ∷ b'e' ∷ b'_' ∷ b'b' ∷ b'i' ∷ b'n' ∷ b'd' ∷ b'i' ∷ b'n' ∷ b'g'
    ∷ b'_' ∷ b'i' ∷ b'd' ∷ []

-- `aacs_get_device_binding_id`, with the nonce that is created if there is none: the disk, and
-- the id.
unfoldable pub aacs_get_device_binding_id : Env → Os → Disk → List ℕ → Run (Disk × List ℕ)
unfolding config_get config_save
aacs_get_device_binding_id env os disk nonce = do
  r ← config_get env disk binding_file 16
  if r.found && r.len == 16
      then ok (disk, r.bytes)
      else ok ((config_save env os disk binding_file nonce).0, nonce)

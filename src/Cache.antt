-- ===== src/Cache.antt =====
-- src/file/keydbcfg.c, the caches and the saved configuration, in the directories of
-- src/file/dirs_xdg.c.
pub mod RoundTrip
pub mod Saves
pub mod Config
pub mod ConfigSaved
pub mod Examples
use libaacs.Common.{
  ℕ, ◌+◌, ◌*◌, ◌/◌, ◌%◌, ◌^◌, Bool, true, false, not, ◌&&◌, Option, none, some, List, [], ◌∷◌, ◌++◌,
  leb, if◌then◌else◌, length, take, Run, ok, byte,
}
use libaacs.Hex.{str_print_hex, hexstring_to_hex_array}
use libaacs.Files.{Disk, Os, file_mkdirs, save_below, update, file_read}

-- `getenv`: `XDG_CONFIG_HOME`, `XDG_CACHE_HOME` and `HOME`.
pub record Env : Type 0 where
  pub xdg_config_home : Option (List ℕ)
  pub xdg_cache_home : Option (List ℕ)
  pub home : Option (List ℕ)

-- The first of the two variables that is set and not empty, the second one with a suffix.
unfoldable pub home_dir : Option (List ℕ) → Option (List ℕ) → List ℕ → Option (List ℕ)
home_dir (some (c ∷ xdg)) home suffix = some (c ∷ xdg)
home_dir _ (some (c ∷ home)) suffix = some (c ∷ home ++ suffix)
home_dir _ _ suffix = none

-- "/.config" and "/.cache".
unfoldable pub file_get_config_home : Env → Option (List ℕ)
unfolding home_dir
file_get_config_home env =
    home_dir env.xdg_config_home env.home
      (b'/' ∷ b'.' ∷ b'c' ∷ b'o' ∷ b'n' ∷ b'f' ∷ b'i' ∷ b'g' ∷ [])

unfoldable pub file_get_cache_home : Env → Option (List ℕ)
unfolding home_dir
file_get_cache_home env =
    home_dir env.xdg_cache_home env.home (b'/' ∷ b'.' ∷ b'c' ∷ b'a' ∷ b'c' ∷ b'h' ∷ b'e' ∷ [])

-- The format "%s/aacs/%s".
unfoldable pub below_home : Option (List ℕ) → List ℕ → Option (List ℕ)
below_home none name = none
below_home (some dir) name = some (dir ++ (b'/' ∷ b'a' ∷ b'a' ∷ b'c' ∷ b's' ∷ b'/' ∷ name))

unfoldable pub config_file_user : Env → List ℕ → Option (List ℕ)
unfolding file_get_config_home below_home
config_file_user env name = below_home (file_get_config_home env) name

unfoldable pub cache_file : Env → List ℕ → Option (List ℕ)
unfolding file_get_cache_home below_home
cache_file env name = below_home (file_get_cache_home env) name

-- The 40 characters of a disc id in a path.
unfoldable pub disc_id_str : List ℕ → List ℕ
disc_id_str disc_id = take 40 (str_print_hex (take 20 disc_id))

unfoldable pub keycache_file : Env → List ℕ → List ℕ → Option (List ℕ)
unfolding cache_file disc_id_str
keycache_file env type disc_id = cache_file env (type ++ (b'/' ∷ disc_id_str disc_id))

-- A file of these writes at a path, if there is one, and its directories.
unfoldable pub save_at : Os → Disk → Option (List ℕ) → List (List ℕ) → Disk × Bool
unfolding save_below
save_at os disk none chunks = (disk, false)
save_at os disk (some path) chunks = save_below os (file_mkdirs os disk path) path chunks

-- The contents of a file that can be opened.
unfoldable pub open_at : Disk → Option (List ℕ) → Option (List ℕ)
open_at disk none = none
open_at disk (some path) = disk.files path

unfoldable pub keycache_save : Env → Os → Disk → List ℕ → List ℕ → List ℕ → Disk × Bool
unfolding save_at keycache_file
keycache_save env os disk type disc_id key =
    save_at os disk (keycache_file env type disc_id)
      (take (length key * 2) (str_print_hex key) ∷ [])

-- A key of `len` bytes from the characters of a file.
unfoldable pub key_in : ℕ → Option (List ℕ) → Run (List ℕ × Bool)
key_in len none = ok ([], false)
key_in len (some key_str) = hexstring_to_hex_array len key_str

unfoldable pub key_from : ℕ → Option (List ℕ) → Run (List ℕ × Bool)
unfolding key_in file_read
key_from len none = ok ([], false)
key_from len (some contents) = key_in len (file_read contents 0 (len * 2))

-- The bytes that were written to the buffer of the key, and the result.
unfoldable pub keycache_find : Env → Disk → List ℕ → List ℕ → ℕ → Run (List ℕ × Bool)
unfolding key_from open_at keycache_file
keycache_find env disk type disc_id len =
    key_from len (open_at disk (keycache_file env type disc_id))

-- A `uint32_t` in a file, as a little-endian machine writes it. Bytes behind the end leave the
-- zeros that were there.
unfoldable pub le32 : ℕ → List ℕ
le32 n = (n % 2 ^ 8) ∷ (n / 2 ^ 8 % 2 ^ 8) ∷ (n / 2 ^ 16 % 2 ^ 8) ∷ (n / 2 ^ 24 % 2 ^ 8) ∷ []

unfoldable pub word_le32 : List ℕ → ℕ → ℕ
word_le32 buf p =
    byte buf p + byte buf (p + 1) * 2 ^ 8 + byte buf (p + 2) * 2 ^ 16 + byte buf (p + 3) * 2 ^ 24

unfoldable pub cache_save : Env → Os → Disk → List ℕ → ℕ → List ℕ → Disk × Bool
cache_save env os disk name version bytes =
    save_at os disk (cache_file env name) (le32 version ∷ le32 (length bytes) ∷ bytes ∷ [])

-- What `cache_get` writes through its pointers, and its result.
pub record CacheRead : Type 0 where
  pub version : ℕ
  pub len : ℕ
  pub bytes : List ℕ
  pub found : Bool

-- The reads of `cache_get`: `len` is NULL or not, and so is `buf`, which has `buf_size` bytes.
unfoldable pub cached_data : List ℕ → ℕ → ℕ → Bool → Option (List ℕ) → CacheRead
cached_data contents version len wanted none = record {
  version = version;
  len = len;
  bytes = [];
  found = not wanted;
}
cached_data contents version len wanted (some bytes) = record {
  version = version;
  len = len;
  bytes = if wanted then bytes else [];
  found = true;
}

unfoldable pub cached : List ℕ → Bool → Bool → ℕ → CacheRead
unfolding cached_data
cached contents with_len with_buf buf_size =
    let version = word_le32 contents 0 in
    let len = word_le32 contents 4 in
    let failed : ℕ → CacheRead =
      λ n. record { version = version; len = n; bytes = []; found = false } in
    let sized = leb 8 (length contents) && leb len buf_size in
    if not (leb 4 (length contents))
    then failed 0
    else if not with_len
    then record (failed 0) { found = true }
    else if not sized
    then failed len
    else cached_data contents version len with_buf (file_read contents 8 len)

unfoldable pub cached_or_none : Option (List ℕ) → Bool → Bool → ℕ → CacheRead
unfolding cached
cached_or_none none with_len with_buf buf_size = record {
  version = 0;
  len = 0;
  bytes = [];
  found = false;
}
cached_or_none (some contents) with_len with_buf buf_size =
    cached contents with_len with_buf buf_size

unfoldable pub cache_get : Env → Disk → List ℕ → Bool → Bool → ℕ → CacheRead
cache_get env disk name with_len with_buf buf_size =
    cached_or_none (open_at disk (cache_file env name)) with_len with_buf buf_size

-- `file_unlink`, if the system lets it.
unfoldable pub remove_at : Os → Disk → Option (List ℕ) → Disk × Bool
remove_at os disk none = (disk, false)
remove_at os disk (some path) =
    if os.remove path
    then (record disk { files = update disk.files path none }, true)
    else (disk, false)

unfoldable pub cache_remove : Env → Os → Disk → List ℕ → Disk × Bool
unfolding remove_at cache_file update
cache_remove env os disk name = remove_at os disk (cache_file env name)

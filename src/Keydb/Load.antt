-- ===== src/Keydb/Load.antt =====
-- src/file/keydbcfg.c, the configuration from all of its sources: KEYDB.cfg, the files of keys and
-- certificates, and the keys of src/file/keydb.h that are compiled in. The directories of the
-- system are those of src/file/dirs_xdg.c.
pub mod Sized
pub mod Loaded
pub mod Duplicates
pub mod Examples
use libaacs.Common.{
  ℕ, ◌+◌, Bool, true, false, not, ◌&&◌, ◌||◌, Option, none, some, List, [], ◌∷◌, ◌==◌,
  if◌then◌else◌, same_bytes, take, replicate, Run, ok, ◌>>=◌, ◌>>◌, byte, word16, word32, slice,
}
use mathlib.Core.List.{reverse}
use libaacs.Files.{Disk}
use libaacs.MediaKey.{DeviceKey}
use libaacs.Cache.{Env, config_file_user, open_at, below_home}
use libaacs.Keydb.{HostCert, ConfigFile}
use libaacs.Keydb.Files.{
  is_duplicate_pk, is_duplicate_cert, load_pk_file, parse_cert_file, pk_file_name,
}
use libaacs.Keydb.Grammar.Titles.{Parser, keydbcfg_parse_config}

-- "/etc/xdg".
abbrev pub system_cfg_dir : List ℕ
system_cfg_dir = b'/' ∷ b'e' ∷ b't' ∷ b'c' ∷ b'/' ∷ b'x' ∷ b'd' ∷ b'g' ∷ []

-- The strings between the colons, each of which becomes a 0.
unfoldable pub split_dirs : List ℕ → List ℕ × List (List ℕ)
split_dirs [] = ([], [])
split_dirs (c ∷ s) = let r = split_dirs s in if c == 58 then ([], r.0 ∷ r.1) else (c ∷ r.0, r.1)

-- "end of list" is an empty string.
unfoldable pub until_empty : List (List ℕ) → List (List ℕ)
until_empty [] = []
until_empty ([] ∷ dirs) = []
until_empty ((c ∷ dir) ∷ dirs) = (c ∷ dir) ∷ until_empty dirs

-- What `file_get_config_system` gives, called again and again, for a value of `XDG_CONFIG_DIRS`.
unfoldable pub file_get_config_system : Option (List ℕ) → List (List ℕ)
unfolding split_dirs until_empty
file_get_config_system (some (c ∷ xdg)) =
    let dirs = split_dirs (c ∷ xdg) in dirs.0 ∷ until_empty dirs.1
file_get_config_system _ = system_cfg_dir ∷ []

-- `_open_cfg_file_system`: the contents of the first file that can be opened.
unfoldable pub open_cfg_file_system : Disk → List (List ℕ) → List ℕ → Option (List ℕ)
unfolding open_at below_home
open_cfg_file_system disk [] name = none
open_cfg_file_system disk (dir ∷ dirs) name =
    let rest = open_cfg_file_system disk dirs name in
    elim (open_at disk (below_home (some dir) name)) [ none ↦ rest | some bytes ↦ some bytes ]

-- "KEYDB.cfg".
abbrev pub cfg_file_name : List ℕ
cfg_file_name = b'K' ∷ b'E' ∷ b'Y' ∷ b'D' ∷ b'B' ∷ b'.' ∷ b'c' ∷ b'f' ∷ b'g' ∷ []

-- "HostKeyCertificate.txt".
abbrev pub cert_file_name : List ℕ
cert_file_name =
    b'H' ∷ b'o' ∷ b's' ∷ b't' ∷ b'K' ∷ b'e' ∷ b'y' ∷ b'C' ∷ b'e' ∷ b'r' ∷ b't' ∷ b'i' ∷ b'f' ∷ b'i'
    ∷ b'c' ∷ b'a' ∷ b't' ∷ b'e' ∷ b'.' ∷ b't' ∷ b'x' ∷ b't' ∷ []

unfoldable pub parse_cert_file_if : List HostCert → Option (List ℕ) → Run (List HostCert × ℕ)
parse_cert_file_if list none = ok (list, 0)
parse_cert_file_if list (some bytes) = parse_cert_file list bytes

unfoldable pub load_cert_file :
    Env → Disk → Option (List ℕ) → List HostCert → Run (List HostCert × ℕ)
unfolding parse_cert_file_if
load_cert_file env disk system list = do
  user ← parse_cert_file_if list (open_at disk (config_file_user env cert_file_name))
  all ← parse_cert_file_if user.0 system
  ok (all.0, user.1 + all.1)

-- `internal_dk_list`, `internal_pk_list` and `internal_hc_list`: rows of 23, 16 and 112 bytes.
pub record Embedded : Type 0 where
  pub dks : List (List ℕ)
  pub pks : List (List ℕ)
  pub hcs : List (List ℕ)

-- The lists of keydb.h, with a row of zeros each.
unfoldable pub internal_lists : Embedded
internal_lists = record {
  dks = replicate 23 0 ∷ [];
  pks = replicate 16 0 ∷ [];
  hcs = replicate 112 0 ∷ [];
}

unfoldable pub same_dk : DeviceKey → DeviceKey → Bool
same_dk d e =
    same_bytes d.key e.key
    && (d.node == e.node && (d.uv == e.uv && d.u_mask_shift == e.u_mask_shift))

-- `_is_duplicate_dk` compares the whole struct, and so the pointer to the next one too, which is
-- NULL in the new entry, and in the last one of the list.
unfoldable pub is_duplicate_dk : List DeviceKey → DeviceKey → Bool
unfolding same_dk
is_duplicate_dk [] e = false
is_duplicate_dk (d ∷ []) e = same_dk d e
is_duplicate_dk (d ∷ f ∷ list) e = is_duplicate_dk (f ∷ list) e

-- A row of `internal_dk_list`. `decrypt_key` is `memcpy`.
unfoldable pub embedded_dk : List ℕ → DeviceKey
embedded_dk row = record {
  key = take 16 row;
  node = word16 row 16;
  uv = word32 row 18;
  u_mask_shift = byte row 22;
}

unfoldable pub add_embedded_dk : List DeviceKey → DeviceKey → List DeviceKey × ℕ
unfolding is_duplicate_dk
add_embedded_dk dkl e = if e.uv == 0 || is_duplicate_dk dkl e then (dkl, 0) else (e ∷ dkl, 1)

-- The loop over the rows, which are given in the order in which it visits them.
unfoldable pub embedded_dks : List (List ℕ) → List DeviceKey → List DeviceKey × ℕ
unfolding add_embedded_dk embedded_dk
embedded_dks [] dkl = (dkl, 0)
embedded_dks (row ∷ rows) dkl =
    let r = add_embedded_dk dkl (embedded_dk row) in
    let s = embedded_dks rows r.0 in (s.0, r.1 + s.1)

unfoldable pub add_embedded_pk : List (List ℕ) → List ℕ → List (List ℕ) × ℕ
unfolding is_duplicate_pk
add_embedded_pk pkl key =
    if same_bytes key (replicate 16 0) || is_duplicate_pk pkl key then (pkl, 0) else (key ∷ pkl, 1)

unfoldable pub embedded_pks : List (List ℕ) → List (List ℕ) → List (List ℕ) × ℕ
unfolding add_embedded_pk
embedded_pks [] pkl = (pkl, 0)
embedded_pks (row ∷ rows) pkl =
    let r = add_embedded_pk pkl (take 16 row) in let s = embedded_pks rows r.0 in (s.0, r.1 + s.1)

unfoldable pub add_embedded_hc : List HostCert → HostCert → List HostCert × ℕ
unfolding is_duplicate_cert
add_embedded_hc list e =
    if same_bytes e.host_priv_key (replicate 20 0) || is_duplicate_cert list e
    then (list, 0)
    else (e ∷ list, 1)

unfoldable pub embedded_hcs : List (List ℕ) → List HostCert → List HostCert × ℕ
unfolding add_embedded_hc
embedded_hcs [] list = (list, 0)
embedded_hcs (row ∷ rows) list =
    let r =
      add_embedded_hc list (record { host_priv_key = take 20 row; host_cert = slice row 20 92 }) in
    let s = embedded_hcs rows r.0 in (s.0, r.1 + s.1)

-- "reverse order to maintain key positions" for device keys.
unfoldable pub parse_embedded : Embedded → ConfigFile → ConfigFile × ℕ
unfolding embedded_dks embedded_pks embedded_hcs
parse_embedded lists cf =
    let dk = embedded_dks (reverse lists.dks) cf.dkl in
    let pk = embedded_pks lists.pks cf.pkl in
    let hc = embedded_hcs lists.hcs cf.host_cert_list in
    (record cf { dkl = dk.0; pkl = pk.0; host_cert_list = hc.0 }, dk.1 + pk.1 + hc.1)

-- What all sources are read from: the environment, with `XDG_CONFIG_DIRS`, the files, the parser
-- and the lists that are compiled in.
pub record Sources : Type 0 where
  pub env : Env
  pub xdg_config_dirs : Option (List ℕ)
  pub disk : Disk
  pub parser : Parser
  pub embedded : Embedded

unfoldable pub system_file : Sources → List ℕ → Option (List ℕ)
unfolding open_cfg_file_system file_get_config_system
system_file src name =
    open_cfg_file_system src.disk (file_get_config_system src.xdg_config_dirs) name

-- `system` is the second argument of `_load_config_file`.
unfoldable pub load_config_file :
    Sources → ConfigFile → Bool → Option (List ℕ) → Run (ConfigFile × Bool)
unfolding keydbcfg_parse_config system_file
load_config_file src cf true disc_id =
    keydbcfg_parse_config src.parser cf (system_file src cfg_file_name) disc_id false
load_config_file src cf false disc_id =
    keydbcfg_parse_config src.parser cf (open_at src.disk (config_file_user src.env cfg_file_name))
      disc_id false

-- KEYDB.cfg, of a path that is given or of the user and of the system.
unfoldable pub load_keydb :
    Sources → ConfigFile → Option (List ℕ) → Option (List ℕ) → Run (ConfigFile × Bool)
unfolding load_config_file
load_keydb src cf (some path) disc_id =
    keydbcfg_parse_config src.parser cf (src.disk.files path) disc_id false
load_keydb src cf none disc_id = do
  user ← load_config_file src cf false disc_id
  system ← load_config_file src user.0 true disc_id
  ok (system.0, system.1 || user.1)

-- `keydbcfg_new_config_file`.
unfoldable pub keydbcfg_new_config_file : ConfigFile
keydbcfg_new_config_file = record { dkl = []; pkl = []; host_cert_list = []; list = [] }

-- `none` is NULL.
unfoldable pub keydbcfg_config_load :
    Sources → Option (List ℕ) → Option (List ℕ) → Run (Option ConfigFile)
unfolding load_keydb load_cert_file load_pk_file parse_embedded keydbcfg_new_config_file
keydbcfg_config_load src path disc_id = do
  cfg ← load_keydb src keydbcfg_new_config_file path disc_id
  pk ← load_pk_file src.env src.disk (system_file src pk_file_name) (ConfigFile.pkl cfg.0)
  cert ←
      load_cert_file src.env src.disk (system_file src cert_file_name)
        (ConfigFile.host_cert_list cfg.0)
  let all = parse_embedded src.embedded (record (cfg.0) { pkl = pk.0; host_cert_list = cert.0 })
  if cfg.1 || (not (pk.1 == 0) || (not (cert.1 == 0) || not (all.1 == 0)))
      then ok (some all.0)
      else ok none

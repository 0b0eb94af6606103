-- ===== src/Keydb/Load/Loaded.antt =====
-- The configuration that is loaded from all sources together.
use libaacs.Common.{
  ℕ, ◌≡◌, inl, inr, Bool, true, false, ◌||◌, Option, none, some, List, [], ◌∷◌, arith, ◌==◌,
  if◌then◌else◌, Bool-cases, same_bytes, length, take, replicate, All, ok, Returns, IsByte, byte_lt,
  length-slice, word16_lt, word32_lt, length-take, All-reverse,
}
use libaacs.Common.Partial.{Returns-then}
use mathlib.Core.List.{reverse}
use libaacs.MediaKey.{DeviceKey}
use libaacs.Keydb.{HostCert, ConfigFile}
use libaacs.Keydb.Files.{is_duplicate_pk, pk_file_name, is_duplicate_cert, load_pk_file}
use libaacs.Keydb.Grammar.WellFormed.{IsDeviceKey, IsCert, IsConfig}
use libaacs.Keydb.Grammar.Parsed.{GivesDigits, ReadConfig, keydbcfg_parse_config-ReadConfig}
use libaacs.Keydb.Load.{
  Sources, Embedded, load_cert_file, embedded_dk, add_embedded_dk, embedded_dks, is_duplicate_dk,
  add_embedded_pk, embedded_pks, add_embedded_hc, embedded_hcs, parse_embedded, load_config_file,
  load_keydb, keydbcfg_new_config_file, keydbcfg_config_load, system_file, cert_file_name,
}
use libaacs.Keydb.Load.Sized.{
  AreSized, SizedKeys, Certs, load_pk_file-SizedKeys, load_cert_file-Certs,
}

-- Rows of `n` bytes.
abbrev pub AreRows : ℕ → List (List ℕ) → Type 0
AreRows n rows = All (λ row. (length row ≡ n) × All IsByte row) rows

abbrev pub IsEmbedded : Embedded → Type 0
IsEmbedded lists = AreRows 23 lists.dks × AreRows 16 lists.pks × AreRows 112 lists.hcs

embedded_dk-IsDeviceKey :
    (row : List ℕ) → length row ≡ 23 → All IsByte row → IsDeviceKey (embedded_dk row)
unfolding embedded_dk
embedded_dk-IsDeviceKey row len bytes = (
  length-take 16 row (omega arith),
  omega (arith, word16_lt row 16 bytes),
  word32_lt row 18 bytes,
  omega (arith, byte_lt row 22 bytes),
)

add_embedded_dk-AreKeys :
    (dkl : List DeviceKey) (e : DeviceKey)
    → All IsDeviceKey dkl
    → IsDeviceKey e
    → All IsDeviceKey (add_embedded_dk dkl e).0
unfolding add_embedded_dk
add_embedded_dk-AreKeys dkl e keys h = elim (Bool-cases (e.uv == 0 || is_duplicate_dk dkl e)) [
  | inl skipped ↦ rw skipped keys
  | inr new ↦ rw new (h, keys)
]

embedded_dks-AreKeys :
    (rows : List (List ℕ)) (dkl : List DeviceKey)
    → AreRows 23 rows
    → All IsDeviceKey dkl
    → All IsDeviceKey (embedded_dks rows dkl).0
unfolding embedded_dks
embedded_dks-AreKeys [] dkl h keys = keys
embedded_dks-AreKeys (row ∷ rows) dkl ((len, bytes), hs) keys =
    embedded_dks-AreKeys rows (add_embedded_dk dkl (embedded_dk row)).0 hs
      (add_embedded_dk-AreKeys dkl (embedded_dk row) keys (embedded_dk-IsDeviceKey row len bytes))

add_embedded_pk-AreSized :
    (pkl : List (List ℕ)) (key : List ℕ)
    → AreSized pkl
    → length key ≡ 16
    → AreSized (add_embedded_pk pkl key).0
unfolding add_embedded_pk
add_embedded_pk-AreSized pkl key keys h =
    elim (Bool-cases (same_bytes key (replicate 16 0) || is_duplicate_pk pkl key)) [
      | inl skipped ↦ rw skipped keys
      | inr new ↦ rw new (h, keys)
    ]

embedded_pks-AreSized :
    (rows pkl : List (List ℕ)) → AreRows 16 rows → AreSized pkl → AreSized (embedded_pks rows pkl).0
unfolding embedded_pks
embedded_pks-AreSized [] pkl h keys = keys
embedded_pks-AreSized (row ∷ rows) pkl ((len, bytes), hs) keys =
    embedded_pks-AreSized rows (add_embedded_pk pkl (take 16 row)).0 hs
      (add_embedded_pk-AreSized pkl (take 16 row) keys (length-take 16 row (omega arith)))

add_embedded_hc-AreCerts :
    (list : List HostCert) (e : HostCert)
    → All IsCert list
    → IsCert e
    → All IsCert (add_embedded_hc list e).0
unfolding add_embedded_hc
add_embedded_hc-AreCerts list e certs h =
    elim (Bool-cases (same_bytes e.host_priv_key (replicate 20 0) || is_duplicate_cert list e)) [
      | inl skipped ↦ rw skipped certs
      | inr new ↦ rw new (h, certs)
    ]

embedded_hcs-AreCerts :
    (rows : List (List ℕ)) (list : List HostCert)
    → AreRows 112 rows
    → All IsCert list
    → All IsCert (embedded_hcs rows list).0
unfolding embedded_hcs
embedded_hcs-AreCerts [] list h certs = certs
embedded_hcs-AreCerts (row ∷ rows) list ((len, bytes), hs) certs =
    embedded_hcs-AreCerts rows (add_embedded_hc list _).0 hs (
      add_embedded_hc-AreCerts list _ certs
        (length-take 20 row (omega arith), length-slice row 20 92))

parse_embedded-IsConfig :
    (lists : Embedded) (cf : ConfigFile)
    → IsEmbedded lists
    → IsConfig cf
    → IsConfig (parse_embedded lists cf).0
unfolding parse_embedded
parse_embedded-IsConfig lists cf (dk, pk, hc) (dkl, pkl, certs, titles) = (
  embedded_dks-AreKeys (reverse lists.dks) cf.dkl (All-reverse _ lists.dks dk) dkl,
  embedded_pks-AreSized lists.pks cf.pkl pk pkl,
  embedded_hcs-AreCerts lists.hcs cf.host_cert_list hc certs,
  titles,
)

load_config_file-ReadConfig :
    (src : Sources) (cf : ConfigFile) (system : Bool) (disc_id : Option (List ℕ))
    → GivesDigits src.parser
    → IsConfig cf
    → Returns ReadConfig (load_config_file src cf system disc_id)
unfolding load_config_file
load_config_file-ReadConfig src cf true disc_id digits config =
    keydbcfg_parse_config-ReadConfig src.parser cf _ disc_id false digits config
load_config_file-ReadConfig src cf false disc_id digits config =
    keydbcfg_parse_config-ReadConfig src.parser cf _ disc_id false digits config

load_keydb-ReadConfig :
    (src : Sources) (cf : ConfigFile) (path disc_id : Option (List ℕ))
    → GivesDigits src.parser
    → IsConfig cf
    → Returns ReadConfig (load_keydb src cf path disc_id)
unfolding load_keydb
load_keydb-ReadConfig src cf (some path) disc_id digits config =
    keydbcfg_parse_config-ReadConfig src.parser cf _ disc_id false digits config
load_keydb-ReadConfig src cf none disc_id digits config =
    Returns-then ReadConfig ReadConfig (load_config_file src cf false disc_id) _
      (load_config_file-ReadConfig src cf false disc_id digits config)
      (λ user good.
        Returns-then ReadConfig ReadConfig (load_config_file src user.0 true disc_id) _
          (load_config_file-ReadConfig src user.0 true disc_id digits good) (λ system more. more))

abbrev pub OptConfig : Option ConfigFile → Type 0
OptConfig none = Unit {0}
OptConfig (some cf) = IsConfig cf

returned :
    (loaded : Bool) (cf : ConfigFile)
    → IsConfig cf
    → Returns OptConfig (if loaded then ok (some cf) else ok none)
returned true cf config = config
returned false cf config = record {}

-- If the tokens for keys are digits and the compiled lists have rows of their sizes, then the
-- configuration is loaded from any files to an end, without an access outside of a buffer, and is
-- NULL or has keys, ids and certificates of the sizes of their arrays and numbers of the widths of
-- their types.
pub keydbcfg_config_load-OptConfig :
    (src : Sources) (path disc_id : Option (List ℕ))
    → GivesDigits src.parser
    → IsEmbedded src.embedded
    → Returns OptConfig (keydbcfg_config_load src path disc_id)
unfolding keydbcfg_config_load keydbcfg_new_config_file
keydbcfg_config_load-OptConfig src path disc_id digits embedded =
    Returns-then ReadConfig OptConfig (load_keydb src keydbcfg_new_config_file path disc_id) _
      (load_keydb-ReadConfig src keydbcfg_new_config_file path disc_id digits
        (record {}, record {}, record {}, record {}))
      (λ cfg (dkl, pkl, certs, titles).
        Returns-then SizedKeys OptConfig
          (load_pk_file src.env src.disk (system_file src pk_file_name) (ConfigFile.pkl cfg.0)) _
          (load_pk_file-SizedKeys src.env src.disk (system_file src pk_file_name)
            (ConfigFile.pkl cfg.0) pkl)
          (λ pk sized.
            Returns-then Certs OptConfig
              (load_cert_file src.env src.disk (system_file src cert_file_name)
                (ConfigFile.host_cert_list cfg.0))
              _
              (load_cert_file-Certs src.env src.disk (system_file src cert_file_name)
                (ConfigFile.host_cert_list cfg.0) certs)
              (λ cert good.
                returned _ _
                  (parse_embedded-IsConfig src.embedded _ embedded (dkl, sized, good, titles)))))

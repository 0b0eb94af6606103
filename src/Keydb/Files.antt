-- ===== src/Keydb/Files.antt =====
-- The files of processing keys and of the host certificate of src/file/keydbcfg.c.
use libaacs.Common.{
  ℕ, zero, suc, ◌+◌, Bool, true, false, ◌&&◌, ◌||◌, Option, none, some, List, [], ◌∷◌, ◌++◌, ltb,
  ◌==◌, if◌then◌else◌, same_bytes, length, Run, ok, stuck, ◌>>=◌, byte_at,
}
use libaacs.Hex.{str_get_hex_string, hexstring_to_hex_array, str_next_line}
use libaacs.Files.{Disk}
use libaacs.Cache.{Env, config_file_user, open_at}
use libaacs.Keydb.{HostCert}

-- `_load_file`: 20 to 65535 bytes, and a 0 behind them; `none` is NULL.
unfoldable pub load_file : List ℕ → Option (List ℕ)
load_file bytes =
    if ltb (length bytes) 20 || ltb 65535 (length bytes) then none else some (bytes ++ (0 ∷ []))

unfoldable pub is_duplicate_pk : List (List ℕ) → List ℕ → Bool
is_duplicate_pk [] e = false
is_duplicate_pk (key ∷ list) e = let rest = is_duplicate_pk list e in same_bytes key e || rest

-- One key, from what was converted; the list, and the count, in which duplicate and invalid keys
-- are too.
unfoldable pub add_pk : List (List ℕ) → List ℕ × Bool → List (List ℕ) × ℕ
unfolding is_duplicate_pk
add_pk pkl (key, false) = (pkl, 1)
add_pk pkl (key, true) = (if is_duplicate_pk pkl key then pkl else key ∷ pkl, 1)

unfoldable pub add_pk_string : List (List ℕ) → Option (List ℕ) → Run (List (List ℕ) × ℕ)
unfolding add_pk
add_pk_string pkl none = ok (pkl, 0)
add_pk_string pkl (some str) = do key ← hexstring_to_hex_array 16 str; ok (add_pk pkl key)

-- The loop of `_parse_pk_file` over the lines.
unfoldable pub pk_lines : ℕ → List (List ℕ) → List ℕ → Run (List (List ℕ) × ℕ)
pk_lines zero pkl p = stuck
pk_lines (suc fuel) pkl p =
    let rest = λ (r : List (List ℕ) × ℕ) (next : List ℕ). pk_lines fuel r.0 next in
    do
      c ← byte_at p 0
      if c == 0 then ok (pkl, 0) else (do
        str ← str_get_hex_string p 32
        r ← add_pk_string pkl str
        next ← str_next_line p
        s ← rest r next
        ok (s.0, r.1 + s.1))

-- Each round goes on by a character at least.
unfoldable pub pks_in : List (List ℕ) → Option (List ℕ) → Run (List (List ℕ) × ℕ)
pks_in pkl none = ok (pkl, 0)
pks_in pkl (some p) = pk_lines (length p) pkl p

unfoldable pub parse_pk_file : List (List ℕ) → List ℕ → Run (List (List ℕ) × ℕ)
unfolding pks_in load_file
parse_pk_file pkl bytes = pks_in pkl (load_file bytes)

unfoldable pub parse_pk_file_if : List (List ℕ) → Option (List ℕ) → Run (List (List ℕ) × ℕ)
parse_pk_file_if pkl none = ok (pkl, 0)
parse_pk_file_if pkl (some bytes) = parse_pk_file pkl bytes

-- "ProcessingDeviceKeysSimple.txt".
abbrev pub pk_file_name : List ℕ
pk_file_name =
    b'P' ∷ b'r' ∷ b'o' ∷ b'c' ∷ b'e' ∷ b's' ∷ b's' ∷ b'i' ∷ b'n' ∷ b'g' ∷ b'D' ∷ b'e' ∷ b'v' ∷ b'i'
    ∷ b'c' ∷ b'e' ∷ b'K' ∷ b'e' ∷ b'y' ∷ b's' ∷ b'S' ∷ b'i' ∷ b'm' ∷ b'p' ∷ b'l' ∷ b'e' ∷ b'.'
    ∷ b't' ∷ b'x' ∷ b't' ∷ []

-- `_load_pk_file`, the user's file and then the system's.
unfoldable pub load_pk_file : Env → Disk → Option (List ℕ) → List (List ℕ) → Run (List (List ℕ) × ℕ)
load_pk_file env disk system pkl = do
  user ← parse_pk_file_if pkl (open_at disk (config_file_user env pk_file_name))
  all ← parse_pk_file_if user.0 system
  ok (all.0, user.1 + all.1)

unfoldable pub is_duplicate_cert : List HostCert → HostCert → Bool
is_duplicate_cert [] e = false
is_duplicate_cert (h ∷ list) e =
    let rest = is_duplicate_cert list e in
    same_bytes h.host_priv_key e.host_priv_key && same_bytes h.host_cert e.host_cert || rest

unfoldable pub add_cert : List HostCert → HostCert → List HostCert × ℕ
unfolding is_duplicate_cert
add_cert list e = if is_duplicate_cert list e then (list, 0) else (e ∷ list, 1)

unfoldable pub add_cert_bytes :
    List HostCert → List ℕ × Bool → Run (List ℕ × Bool) → Run (List HostCert × ℕ)
unfolding add_cert
add_cert_bytes list (key, false) cert = ok (list, 0)
add_cert_bytes list (key, true) cert = do
  c ← cert
  ok (if c.1 then add_cert list (record { host_priv_key = key; host_cert = c.0 }) else (list, 0))

unfoldable pub add_cert_strings :
    List HostCert → Option (List ℕ) → Option (List ℕ) → Run (List HostCert × ℕ)
unfolding add_cert_bytes
add_cert_strings list (some host_priv_key) (some host_cert) = do
  key ← hexstring_to_hex_array 20 host_priv_key
  add_cert_bytes list key (hexstring_to_hex_array 92 host_cert)
add_cert_strings list _ _ = ok (list, 0)

unfoldable pub cert_in : List HostCert → Option (List ℕ) → Run (List HostCert × ℕ)
unfolding add_cert_strings
cert_in list none = ok (list, 0)
cert_in list (some p) = do
  host_priv_key ← str_get_hex_string p 40
  next ← str_next_line p
  host_cert ← str_get_hex_string next 184
  add_cert_strings list host_priv_key host_cert

unfoldable pub parse_cert_file : List HostCert → List ℕ → Run (List HostCert × ℕ)
unfolding cert_in load_file
parse_cert_file list bytes = cert_in list (load_file bytes)

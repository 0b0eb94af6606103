-- ===== src/Keydb/Load/Sized.antt =====
-- The files of keys and of certificates: what is read has the size of its array.
use libaacs.Common.{
  ℕ, ◌≡◌, inl, inr, Bool, true, false, ◌||◌, Option, none, some, List, [], ◌∷◌, ◌++◌, ltb,
  if◌then◌else◌, Bool-cases, length, All, Run, ok, fault, stuck, Returns,
}
use libaacs.Common.Partial.{Returns-then}
use libaacs.Hex.{str_get_hex_string, hexstring_to_hex_array, str_next_line, skip_line, skip_breaks}
use libaacs.Hex.RoundTrip.{IsTerminated, OptDigits, str_get_hex_string-OptDigits}
use libaacs.Cache.{Env, open_at, config_file_user}
use libaacs.Files.{Disk}
use libaacs.Keydb.{HostCert}
use libaacs.Keydb.Files.{
  add_pk, load_file, parse_pk_file_if, load_pk_file, is_duplicate_pk, pk_file_name,
  is_duplicate_cert, add_cert, add_cert_bytes, add_cert_strings, cert_in, parse_cert_file,
}
use libaacs.Keydb.Distinct.{
  HasLength, EndsWithin, skip_line-EndsWithin, skip_breaks-EndsWithin, ends_in_zero,
  hexstring_to_hex_array-HasLength, parse_pk_file-Holds,
}
use libaacs.Keydb.Grammar.WellFormed.{IsCert}
use libaacs.Keydb.Load.{parse_cert_file_if, load_cert_file, cert_file_name}

abbrev pub AreSized : List (List ℕ) → Type 0
AreSized pkl = All (λ key. length key ≡ 16) pkl

abbrev pub SizedKeys : List (List ℕ) × ℕ → Type 0
SizedKeys r = AreSized r.0

abbrev pub Certs : List HostCert × ℕ → Type 0
Certs r = All IsCert r.0

add_pk-AreSized :
    (pkl : List (List ℕ)) (r : List ℕ × Bool)
    → AreSized pkl
    → HasLength 16 r
    → AreSized (add_pk pkl r).0
unfolding add_pk
add_pk-AreSized pkl (key, false) keys h = keys
add_pk-AreSized pkl (key, true) keys (good, len) = elim (Bool-cases (is_duplicate_pk pkl key)) [
  | inl same ↦ rw same keys
  | inr other ↦ rw other (len, keys)
]

parse_pk_file_if-SizedKeys :
    (pkl : List (List ℕ)) (file : Option (List ℕ))
    → AreSized pkl
    → Returns SizedKeys (parse_pk_file_if pkl file)
unfolding parse_pk_file_if
parse_pk_file_if-SizedKeys pkl none keys = keys
parse_pk_file_if-SizedKeys pkl (some bytes) keys =
    parse_pk_file-Holds AreSized add_pk-AreSized pkl bytes keys

pub load_pk_file-SizedKeys :
    (env : Env) (disk : Disk) (system : Option (List ℕ)) (pkl : List (List ℕ))
    → AreSized pkl
    → Returns SizedKeys (load_pk_file env disk system pkl)
unfolding load_pk_file
load_pk_file-SizedKeys env disk system pkl keys =
    Returns-then SizedKeys SizedKeys
      (parse_pk_file_if pkl (open_at disk (config_file_user env pk_file_name))) _
      (parse_pk_file_if-SizedKeys pkl _ keys)
      (λ user sized.
        Returns-then SizedKeys SizedKeys (parse_pk_file_if user.0 system) _
          (parse_pk_file_if-SizedKeys user.0 system sized) (λ all good. good))

-- The next line of a string that ends is one that ends.
str_next_line-IsTerminated : (p : List ℕ) → IsTerminated p → Returns IsTerminated (str_next_line p)
unfolding str_next_line
str_next_line-IsTerminated p t =
    Returns-then (EndsWithin (length p)) IsTerminated (skip_line p) _ (skip_line-EndsWithin p t)
      (λ q (ends, short). first (skip_breaks q) (skip_breaks-EndsWithin q (length p) ends short))
  where
    first : (m : Run (List ℕ)) → Returns (EndsWithin (length p)) m → Returns IsTerminated m
    first (ok r) h = h.0
    first fault h = h
    first stuck h = h

add_cert-Certs :
    (list : List HostCert) (e : HostCert) → All IsCert list → IsCert e → Certs (add_cert list e)
unfolding add_cert
add_cert-Certs list e certs h = elim (Bool-cases (is_duplicate_cert list e)) [
  | inl same ↦ rw same certs
  | inr other ↦ rw other (h, certs)
]

add_cert_bytes-Certs :
    (list : List HostCert) (key : List ℕ × Bool) (cert : Run (List ℕ × Bool))
    → All IsCert list
    → HasLength 20 key
    → Returns (HasLength 92) cert
    → Returns Certs (add_cert_bytes list key cert)
unfolding add_cert_bytes
add_cert_bytes-Certs list (key, false) cert certs h good = certs
add_cert_bytes-Certs list (key, true) cert certs (e, len) good =
    Returns-then (HasLength 92) Certs cert _ good (λ c h. added c h)
  where
    added :
        (c : List ℕ × Bool)
        → HasLength 92 c
        → Certs (
            if c.1
            then add_cert list (record { host_priv_key = key; host_cert = c.0 })
            else (list, 0))
    added (bytes, false) h = certs
    added (bytes, true) (f, more) = add_cert-Certs list _ certs (len, more)

add_cert_strings-Certs :
    (list : List HostCert) (key cert : Option (List ℕ))
    → All IsCert list
    → OptDigits 40 key
    → OptDigits 184 cert
    → Returns Certs (add_cert_strings list key cert)
unfolding add_cert_strings
add_cert_strings-Certs list (some key) (some cert) certs (hex, len) (hexc, more) =
    Returns-then (HasLength 20) Certs (hexstring_to_hex_array 20 key) _
      (hexstring_to_hex_array-HasLength 20 key hex len)
      (λ k h.
        add_cert_bytes-Certs list k (hexstring_to_hex_array 92 cert) certs h
          (hexstring_to_hex_array-HasLength 92 cert hexc more))
add_cert_strings-Certs list (some key) none certs h k = certs
add_cert_strings-Certs list none cert certs h k = certs

cert_in-Certs :
    (list : List HostCert) (bytes : List ℕ)
    → All IsCert list
    → Returns Certs (cert_in list (load_file bytes))
unfolding cert_in load_file
cert_in-Certs list bytes certs =
    elim (Bool-cases (ltb (length bytes) 20 || ltb 65535 (length bytes))) [
      | inl bad ↦ rw bad certs
      | inr good ↦
          let p = bytes ++ (0 ∷ []) in
          rw good (
            Returns-then (OptDigits 40) Certs (str_get_hex_string p 40) _
              (str_get_hex_string-OptDigits p 40 (ends_in_zero bytes))
              (λ key digits.
                Returns-then IsTerminated Certs (str_next_line p) _
                  (str_next_line-IsTerminated p (ends_in_zero bytes))
                  (λ next ends.
                    Returns-then (OptDigits 184) Certs (str_get_hex_string next 184) _
                      (str_get_hex_string-OptDigits next 184 ends)
                      (λ cert more. add_cert_strings-Certs list key cert certs digits more))))
    ]

parse_cert_file_if-Certs :
    (list : List HostCert) (file : Option (List ℕ))
    → All IsCert list
    → Returns Certs (parse_cert_file_if list file)
unfolding parse_cert_file_if parse_cert_file
parse_cert_file_if-Certs list none certs = certs
parse_cert_file_if-Certs list (some bytes) certs = cert_in-Certs list bytes certs

pub load_cert_file-Certs :
    (env : Env) (disk : Disk) (system : Option (List ℕ)) (list : List HostCert)
    → All IsCert list
    → Returns Certs (load_cert_file env disk system list)
unfolding load_cert_file
load_cert_file-Certs env disk system list certs =
    Returns-then Certs Certs
      (parse_cert_file_if list (open_at disk (config_file_user env cert_file_name))) _
      (parse_cert_file_if-Certs list _ certs)
      (λ user sized.
        Returns-then Certs Certs (parse_cert_file_if user.0 system) _
          (parse_cert_file_if-Certs user.0 system sized) (λ all good. good))

-- ===== src/Mmc/Auth.antt =====
-- The authentication of mmc.c and the keys that are read after it.
use libaacs.Common.{
  ℕ, ◌+◌, bit_and, Bool, false, not, ◌&&◌, ◌||◌, Option, none, some, List, [], ◌∷◌, ◌++◌, ◌==◌,
  if◌then◌else◌, same_bytes, take, replicate, byte, word16, slice,
}
use libaacs.Crypto.{Aes, crypto_aes_cmac_16, ◌>>=?◌}
use libaacs.Mmc.{
  Drive, Mmc, mmc_send_key, mmc_report_key, mmc_report_disc_structure, mmc_get_configuration,
  mmc_report_agid, mmc_invalidate_agid, mmc_invalidate_agids,
}

-- `crypto_aacs_verify_aacsla`, `crypto_aacs_verify`, `crypto_aacs_sign` and
-- `crypto_create_bus_key` of crypto.c, which are elliptic curve arithmetic of libgcrypt. A test is
-- true if the signature (the first argument, behind the certificate) is valid.
pub record Curve : Type 0 where
  pub verify_aacsla : List ℕ → List ℕ → Bool
  pub verify : List ℕ → List ℕ → List ℕ → Bool
  pub sign : List ℕ → List ℕ → List ℕ → List ℕ → Option (List ℕ)
  pub create_bus_key : List ℕ → List ℕ → List ℕ

-- `_aacs_verify_cert`.
unfoldable pub verify_cert : Curve → List ℕ → Bool
verify_cert c cert = word16 cert 2 == 0x5c && c.verify_aacsla (slice cert 52 40) (take 52 cert)

unfoldable pub verify_host_cert : Curve → List ℕ → Bool
unfolding verify_cert
verify_host_cert c cert = byte cert 0 == 0x02 && verify_cert c cert

unfoldable pub verify_drive_cert : Curve → List ℕ → Bool
unfolding verify_cert
verify_drive_cert c cert = byte cert 0 == 0x01 && verify_cert c cert

-- `MMC_SUCCESS` with what the call gives, and the two errors.
pub data MmcResult (A : Type 0) : Type 0 where
  mmc_success : A → MmcResult A
  mmc_error mmc_error_cert_revoked : MmcResult A

-- `_mmc_send_host_cert`, `_mmc_send_host_key`: whether the drive took it.
unfoldable pub send_host_cert : Drive → Mmc → ℕ → List ℕ → List ℕ → Mmc × Option (List ℕ)
send_host_cert drive mmc agid host_nonce host_cert =
    mmc_send_key drive mmc agid 0x01 (0 ∷ 0x72 ∷ 0 ∷ 0 ∷ take 20 host_nonce ++ take 92 host_cert)

unfoldable pub send_host_key : Drive → Mmc → ℕ → List ℕ → List ℕ → Mmc × Option (List ℕ)
send_host_key drive mmc agid point signature =
    mmc_send_key drive mmc agid 0x02 (0 ∷ 0x52 ∷ 0 ∷ 0 ∷ take 40 point ++ take 40 signature)

-- Two fields of the answer, from the byte 4 on.
abbrev pub fields : ℕ → ℕ → Option (List ℕ) → Option (List ℕ × List ℕ)
fields m n none = none
fields m n (some buf) = some (slice buf 4 m, slice buf (4 + m) n)

-- The nonce and the certificate of the drive.
unfoldable pub read_drive_cert_challenge : Drive → Mmc → ℕ → Mmc × Option (List ℕ × List ℕ)
read_drive_cert_challenge drive mmc agid =
    let r = mmc_report_key drive mmc agid 0 0 0x01 116 in (r.0, fields 20 92 r.1)

-- The key point of the drive and its signature.
unfoldable pub read_drive_key : Drive → Mmc → ℕ → Mmc × Option (List ℕ × List ℕ)
read_drive_key drive mmc agid =
    let r = mmc_report_key drive mmc agid 0 0 0x02 84 in (r.0, fields 40 40 r.1)

-- `_verify_signature`.
unfoldable pub verify_signature : Curve → List ℕ → List ℕ → List ℕ → List ℕ → Bool
verify_signature c cert signature nonce point =
    c.verify cert signature (take 20 nonce ++ take 40 point)

-- `_mmc_aacs_auth` after the host key is sent: the bus key.
unfoldable pub after_host_key : Curve → List ℕ → Mmc × Option (List ℕ) → Mmc × MmcResult (List ℕ)
after_host_key c dkp (mmc, none) = (mmc, mmc_error)
after_host_key c dkp (mmc, some _) = (mmc, mmc_success (c.create_bus_key mmc.host_key dkp))

-- After the host signed.
unfoldable pub after_sign :
    Curve → Drive → Mmc → ℕ → List ℕ → List ℕ → List ℕ → Option (List ℕ) → Mmc × MmcResult (List ℕ)
unfolding after_host_key send_host_key verify_signature
after_sign c drive mmc agid host_cert dn dkp none = (mmc, mmc_error)
after_sign c drive mmc agid host_cert dn dkp (some hks) =
    if verify_signature c host_cert hks dn mmc.host_key_point
    then after_host_key c dkp (send_host_key drive mmc agid mmc.host_key_point hks)
    else (mmc, mmc_error)

-- After the key point of the drive and its signature were read.
unfoldable pub after_drive_key :
    Curve
    → Drive
    → ℕ
    → List ℕ
    → List ℕ
    → List ℕ
    → Mmc × Option (List ℕ × List ℕ)
    → Mmc × MmcResult (List ℕ)
unfolding after_sign
after_drive_key c drive agid host_priv_key host_cert dn (mmc, none) = (mmc, mmc_error)
after_drive_key c drive agid host_priv_key host_cert dn (mmc, some (dkp, dks)) =
    if verify_signature c mmc.drive_cert dks mmc.host_nonce dkp
    then after_sign c drive mmc agid host_cert dn dkp
        (c.sign host_cert host_priv_key dn mmc.host_key_point)
    else (mmc, mmc_error)

-- After the nonce and the certificate of the drive were read.
unfoldable pub after_drive_cert :
    Curve → Drive → ℕ → List ℕ → List ℕ → Mmc × Option (List ℕ × List ℕ) → Mmc × MmcResult (List ℕ)
unfolding after_drive_key read_drive_key
after_drive_cert c drive agid host_priv_key host_cert (mmc, none) = (mmc, mmc_error)
after_drive_cert c drive agid host_priv_key host_cert (mmc, some (dn, cert)) =
    let known = record mmc { drive_cert = cert } in
    if byte cert 0 == 0x11 || not (verify_drive_cert c cert)
    then (known, mmc_error)
    else after_drive_key c drive agid host_priv_key host_cert dn (read_drive_key drive known agid)

-- After the certificate of the host was sent.
unfoldable pub after_host_cert :
    Curve → Drive → ℕ → List ℕ → List ℕ → Mmc × Option (List ℕ) → Mmc × MmcResult (List ℕ)
unfolding after_drive_cert read_drive_cert_challenge
after_host_cert c drive agid host_priv_key host_cert (mmc, none) = (mmc, mmc_error_cert_revoked)
after_host_cert c drive agid host_priv_key host_cert (mmc, some _) =
    after_drive_cert c drive agid host_priv_key host_cert (read_drive_cert_challenge drive mmc agid)

unfoldable pub mmc_aacs_auth : Curve → Drive → Mmc → ℕ → List ℕ → List ℕ → Mmc × MmcResult (List ℕ)
unfolding after_host_cert send_host_cert
mmc_aacs_auth c drive mmc agid host_priv_key host_cert =
    after_host_cert c drive agid host_priv_key host_cert
      (send_host_cert drive mmc agid mmc.host_nonce host_cert)

-- `_mmc_read_vid`, `_mmc_read_pmsn`, `_mmc_read_data_keys`.
unfoldable pub read_keys : Drive → Mmc → ℕ → ℕ → Mmc × Option (List ℕ × List ℕ)
read_keys drive mmc agid format =
    let r = mmc_report_disc_structure drive mmc agid format 0 0 36 in (r.0, fields 16 16 r.1)

-- `_read_vid` and `_read_pmsn` after the command: the block if its MAC is right.
unfoldable pub checked_mac : Aes → List ℕ → Option (List ℕ × List ℕ) → MmcResult (List ℕ)
checked_mac aes bus_key none = mmc_error
checked_mac aes bus_key (some (block, mac)) = elim (crypto_aes_cmac_16 aes block bus_key) [
  | none ↦ mmc_error
  | some calc_mac ↦ if same_bytes calc_mac mac then mmc_success block else mmc_error
]

unfoldable pub read_vid : Aes → Drive → Mmc → ℕ → List ℕ → Mmc × MmcResult (List ℕ)
unfolding read_keys checked_mac
read_vid aes drive mmc agid bus_key =
    let r = read_keys drive mmc agid 0x80 in (r.0, checked_mac aes bus_key r.1)

unfoldable pub read_pmsn : Aes → Drive → Mmc → ℕ → List ℕ → Mmc × MmcResult (List ℕ)
unfolding read_keys checked_mac
read_pmsn aes drive mmc agid bus_key =
    let r = read_keys drive mmc agid 0x81 in (r.0, checked_mac aes bus_key r.1)

-- A key that the caller has a buffer for; the first `none` is an error of AES.
unfoldable pub data_key : Aes → List ℕ → Bool → List ℕ → Option (List ℕ)
data_key aes bus_key wanted encrypted = if wanted then aes.decrypt bus_key encrypted else some []

-- `_read_data_keys`: the keys that are wanted, one after the other.
unfoldable pub data_keys :
    Aes → List ℕ → Bool → Bool → Option (List ℕ × List ℕ) → MmcResult (List ℕ)
unfolding data_key
data_keys aes bus_key r w none = mmc_error
data_keys aes bus_key r w (some (read_key, write_key)) =
    elim (data_key aes bus_key r read_key >>=? λ k.
    data_key aes bus_key w write_key >>=? λ l. some (k ++ l)) [
      | none ↦ mmc_error
      | some keys ↦ mmc_success keys
    ]

unfoldable pub read_data_keys :
    Aes → Drive → Mmc → ℕ → List ℕ → Bool → Bool → Mmc × MmcResult (List ℕ)
unfolding read_keys data_keys
read_data_keys aes drive mmc agid bus_key r w =
    let k = read_keys drive mmc agid 0x84 in (k.0, data_keys aes bus_key r w k.1)

-- `MMC_READ_VID`, `MMC_READ_PMSN`, `MMC_READ_DATA_KEYS` (with the buffers that are not NULL), and
-- any other number.
pub data Request : Type 0 where
  vid_request pmsn_request unknown_request : Request
  data_keys_request : Bool → Bool → Request

unfoldable pub serve : Aes → Drive → Mmc → ℕ → List ℕ → Request → Mmc × MmcResult (List ℕ)
unfolding read_vid read_pmsn read_data_keys
serve aes drive mmc agid bus_key vid_request = read_vid aes drive mmc agid bus_key
serve aes drive mmc agid bus_key pmsn_request = read_pmsn aes drive mmc agid bus_key
serve aes drive mmc agid bus_key unknown_request = (mmc, mmc_error)
serve aes drive mmc agid bus_key (data_keys_request r w) =
    read_data_keys aes drive mmc agid bus_key r w

-- After the authentication: the request is served, and the AGID given back in any case.
unfoldable pub session :
    Aes → Drive → ℕ → Request → Mmc × MmcResult (List ℕ) → Mmc × MmcResult (List ℕ)
unfolding serve
session aes drive agid request (mmc, mmc_success bus_key) =
    let r = serve aes drive mmc agid bus_key request in (mmc_invalidate_agid drive r.0 agid, r.1)
session aes drive agid request (mmc, mmc_error) = (mmc_invalidate_agid drive mmc agid, mmc_error)
session aes drive agid request (mmc, mmc_error_cert_revoked) =
    (mmc_invalidate_agid drive mmc agid, mmc_error_cert_revoked)

-- After the drive was asked for an AGID.
unfoldable pub after_agid :
    Aes → Curve → Drive → List ℕ → List ℕ → Request → Mmc × Option ℕ → Mmc × MmcResult (List ℕ)
unfolding session mmc_aacs_auth
after_agid aes c drive host_priv_key host_cert request (mmc, none) = (mmc, mmc_error)
after_agid aes c drive host_priv_key host_cert request (mmc, some agid) =
    session aes drive agid request (mmc_aacs_auth c drive mmc agid host_priv_key host_cert)

unfoldable pub mmc_read_auth :
    Aes → Curve → Drive → Mmc → List ℕ → List ℕ → Request → Mmc × MmcResult (List ℕ)
unfolding after_agid
mmc_read_auth aes c drive mmc host_priv_key host_cert request =
    after_agid aes c drive host_priv_key host_cert request
      (mmc_report_agid drive (mmc_invalidate_agids drive mmc))

-- `_mmc_check_aacs`: whether AACS is active, and the fields that it sets.
unfoldable pub features : Mmc × Option (List ℕ) → Mmc × Bool
features (mmc, none) = (mmc, false)
features (mmc, some buf) =
    if word16 buf 8 == 0x010d
    then (
      record mmc {
        read_drive_cert = not (bit_and (byte buf 12) 0x10 == 0);
        aacs_version = byte buf 15;
      },
      bit_and (byte buf 10) 1 == 1,
    )
    else (mmc, false)

unfoldable pub check_aacs : Drive → Mmc → Mmc × Bool
unfolding features
check_aacs drive mmc = features (mmc_get_configuration drive mmc 0x010d 16)

unfoldable pub reported_cert : Curve → Mmc × Option (List ℕ) → Mmc × MmcResult (List ℕ)
reported_cert c (mmc, none) = (mmc, mmc_error)
reported_cert c (mmc, some buf) =
    let cert = slice buf 4 92 in
    if verify_drive_cert c cert
    then (record mmc { drive_cert = cert }, mmc_success cert)
    else (mmc, mmc_error)

unfoldable pub mmc_read_drive_cert : Curve → Drive → Mmc → Mmc × MmcResult (List ℕ)
unfolding reported_cert
mmc_read_drive_cert c drive mmc =
    if byte mmc.drive_cert 0 == 0x01
    then (mmc, mmc_success (take 92 mmc.drive_cert))
    else reported_cert c (mmc_report_key drive mmc 0 0 0 0x38 116)

unfoldable pub mmc_get_drive_cert : Mmc → Option (List ℕ)
mmc_get_drive_cert mmc = if byte mmc.drive_cert 0 == 0x01 then some mmc.drive_cert else none

-- `mmc_open` on a system other than Windows, with the nonce and the keys that were created. The
-- first argument is NULL, or the drive that `device_open` finds, if any.
unfoldable pub mmc_open : Curve → Option Drive → List ℕ → List ℕ → List ℕ → Option Mmc
unfolding check_aacs mmc_read_drive_cert
mmc_open c none host_nonce host_key host_key_point = none
mmc_open c (some drive) host_nonce host_key host_key_point =
    let (mmc, active) = check_aacs drive (record {
      sent = [];
      host_nonce = host_nonce;
      host_key = host_key;
      host_key_point = host_key_point;
      drive_cert = replicate 92 0;
      read_drive_cert = false;
      aacs_version = 0;
    }) in
    if active
    then some (if mmc.read_drive_cert then (mmc_read_drive_cert c drive mmc).0 else mmc)
    else none

-- ===== src/Mmc/Accepted.antt =====
-- What a successful call of `mmc_read_auth` in mmc.c gives.
use libaacs.Common.{ℕ, ◌≡◌, refl, sym, ap, ◌∙◌, Option, none, some, List, [], slice}
use libaacs.Crypto.{Aes}
use libaacs.Mmc.{
  Command, Drive, Mmc, answer, device_send_cmd, mmc_report_key, mmc_report_disc_structure,
  mmc_report_agid, mmc_invalidate_agid, mmc_invalidate_agids, disc_structure_cmd,
}
use libaacs.Mmc.Auth.{
  Curve, MmcResult, mmc_success, mmc_error, mmc_error_cert_revoked, Request, vid_request,
  pmsn_request, unknown_request, data_keys_request, mmc_aacs_auth, mmc_read_auth, after_agid,
  session, serve, read_vid, read_pmsn, read_data_keys, read_keys, fields,
}
use libaacs.Mmc.Session.{
  OnSuccess, IsAuthenticated, IsAuthentic, HasMac, checked_mac-HasMac,
  mmc_aacs_auth-IsAuthenticated,
}

-- The drive is authenticated, and a volume id or serial number has the MAC that the drive reports
-- under the bus key of this authentication. Unknown requests do not succeed.
abbrev pub IsAccepted : Aes → Curve → Drive → Request → Mmc → List ℕ → Type 0
IsAccepted aes c drive vid_request mmc block =
    (bus_key : List ℕ) × IsAuthenticated c mmc bus_key × IsAuthentic aes drive 0x80 bus_key block
IsAccepted aes c drive pmsn_request mmc block =
    (bus_key : List ℕ) × IsAuthenticated c mmc bus_key × IsAuthentic aes drive 0x81 bus_key block
IsAccepted aes c drive unknown_request mmc block = ⊥
IsAccepted aes c drive (data_keys_request r w) mmc keys =
    (bus_key : List ℕ) × IsAuthenticated c mmc bus_key

abbrev pair_of : Option (List ℕ × List ℕ) → List ℕ × List ℕ
pair_of none = ([], [])
pair_of (some p) = p

keys_lem :
    (Q : Mmc → List ℕ → Type 0) (mmc : Mmc) (r : MmcResult (List ℕ))
    → ((keys : List ℕ) → Q mmc keys)
    → OnSuccess Q (mmc, r)
keys_lem Q mmc (mmc_success keys) auth = auth keys
keys_lem Q mmc mmc_error auth = record {}
keys_lem Q mmc mmc_error_cert_revoked auth = record {}

mac_lem :
    (aes : Aes) (c : Curve) (drive : Drive) (mmc : Mmc) (before : List Command) (agid format : ℕ)
    (bus_key : List ℕ) (o : Option (List ℕ)) (r : MmcResult (List ℕ))
    → IsAuthenticated c mmc bus_key
    → answer 36 (drive before (disc_structure_cmd agid format 0 0 36)) ≡ o
    → HasMac aes bus_key (fields 16 16 o) r
    → OnSuccess
        (λ m block.
          (key : List ℕ) × IsAuthenticated c m key × IsAuthentic aes drive format key block)
        (mmc, r)
mac_lem aes c drive mmc before agid format bus_key none (mmc_success block) auth e (mac, f, g) =
    absurd cc
mac_lem aes c drive mmc before agid format bus_key (some buf) (mmc_success block) auth e
      (mac, f, g) =
    let values : (slice buf 4 16, slice buf 20 16) ≡ (block, mac) =
      ap (λ (o : Option (List ℕ × List ℕ)). pair_of o) f in
    let mac_eq = g ∙ sym (ap some (ap (λ p. p.1) values)) in
    (bus_key, auth, (before, agid, buf, e, sym (ap (λ p. p.0) values), mac_eq))
mac_lem aes c drive mmc before agid format bus_key o mmc_error auth e has = record {}
mac_lem aes c drive mmc before agid format bus_key o mmc_error_cert_revoked auth e has = record {}

session-IsAccepted :
    (aes : Aes) (c : Curve) (drive : Drive) (agid : ℕ) (request : Request)
    (r : Mmc × MmcResult (List ℕ))
    → OnSuccess (IsAuthenticated c) r
    → OnSuccess (IsAccepted aes c drive request) (session aes drive agid request r)
unfolding session mmc_invalidate_agid mmc_report_key device_send_cmd serve read_vid read_pmsn
    read_data_keys read_keys mmc_report_disc_structure
session-IsAccepted aes c drive agid vid_request (mmc, mmc_success bus_key) auth =
    mac_lem aes c drive (session aes drive agid vid_request (mmc, mmc_success bus_key)).0 mmc.sent
      agid 0x80 bus_key _ _ auth refl (checked_mac-HasMac aes bus_key _)
session-IsAccepted aes c drive agid pmsn_request (mmc, mmc_success bus_key) auth =
    mac_lem aes c drive (session aes drive agid pmsn_request (mmc, mmc_success bus_key)).0 mmc.sent
      agid 0x81 bus_key _ _ auth refl (checked_mac-HasMac aes bus_key _)
session-IsAccepted aes c drive agid unknown_request (mmc, mmc_success bus_key) auth = record {}
session-IsAccepted aes c drive agid (data_keys_request r w) (mmc, mmc_success bus_key) auth =
    let result = session aes drive agid (data_keys_request r w) (mmc, mmc_success bus_key) in
    keys_lem (IsAccepted aes c drive (data_keys_request r w)) result.0 result.1
      (λ keys. (bus_key, auth))
session-IsAccepted aes c drive agid request (mmc, mmc_error) auth = record {}
session-IsAccepted aes c drive agid request (mmc, mmc_error_cert_revoked) auth = record {}

after_agid-IsAccepted :
    (aes : Aes) (c : Curve) (drive : Drive) (host_priv_key host_cert : List ℕ) (request : Request)
    (r : Mmc × Option ℕ)
    → OnSuccess
        (IsAccepted aes c drive request)
        (after_agid aes c drive host_priv_key host_cert request r)
unfolding after_agid
after_agid-IsAccepted aes c drive host_priv_key host_cert request (mmc, none) = record {}
after_agid-IsAccepted aes c drive host_priv_key host_cert request (mmc, some agid) =
    session-IsAccepted aes c drive agid request
      (mmc_aacs_auth c drive mmc agid host_priv_key host_cert)
      (mmc_aacs_auth-IsAuthenticated c drive mmc agid host_priv_key host_cert)

-- Whatever the drive answers: if `mmc_read_auth` succeeds, the drive has a certificate signed by the
-- licensor and signed the host's nonce, and a volume id or serial number has the right MAC under
-- the bus key that follows from the drive's signed point. Unknown requests do not succeed.
pub mmc_read_auth-IsAccepted :
    (aes : Aes) (c : Curve) (drive : Drive) (mmc : Mmc) (host_priv_key host_cert : List ℕ)
    (request : Request)
    → OnSuccess
        (IsAccepted aes c drive request)
        (mmc_read_auth aes c drive mmc host_priv_key host_cert request)
unfolding mmc_read_auth
mmc_read_auth-IsAccepted aes c drive mmc host_priv_key host_cert request =
    after_agid-IsAccepted aes c drive host_priv_key host_cert request
      (mmc_report_agid drive (mmc_invalidate_agids drive mmc))

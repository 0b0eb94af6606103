-- ===== src/Mmc/Honest.antt =====
-- The volume id of a drive that follows the protocol of mmc.c, over the signatures and key points of
-- crypto.c on both sides.
pub mod Examples
use libaacs.Common.{
  same_bytes_refl, ℕ, ◌*◌, ◌/◌, ◌^◌, ◌≡◌, refl, ◌∙◌, true, Option, some, List, [], ◌∷◌, ◌++◌, arith,
  length, take, ok, byte, word16, slice,
}
use libaacs.Crypto.{Aes, crypto_aes_cmac_16}
use libaacs.Mmc.{
  Command, Drive, Mmc, answer, device_send_cmd, report_key_cmd, disc_structure_cmd, mmc_report_key,
  mmc_report_disc_structure, mmc_report_agid, mmc_invalidate_agids, agid_of,
}
use libaacs.Mmc.Auth.{
  Curve, mmc_success, verify_cert, verify_drive_cert, verify_signature, mmc_read_auth, session,
  serve, read_vid, read_keys, checked_mac, vid_request,
}
use libaacs.Mmc.Exchange.{
  Reply, HasSizes, Follows, authenticated, fields-answer, mmc_aacs_auth-mmc_success,
}
use libaacs.Ecdsa.{
  Gcrypt, crypto_aacs_sign, crypto_aacs_verify, crypto_create_bus_key, crypto_create_host_key_pair,
}
use libaacs.Ecdsa.Licensor.{crypto_aacs_verify_aacsla}
use libaacs.Ecdsa.Signed.{IsKeyPair, IsVerified, crypto_aacs_sign-IsVerified}
use libaacs.Ecdsa.Agreement.{IsPoint, Commutes, crypto_create_bus_key-agreed}

checked_mac-some :
    (aes : Aes) (bus_key vid mac : List ℕ)
    → crypto_aes_cmac_16 aes vid bus_key ≡ some mac
    → checked_mac aes bus_key (some (vid, mac)) ≡ mmc_success vid
unfolding checked_mac
checked_mac-some aes bus_key vid mac e = rw (e, checked_mac, same_bytes_refl mac) refl

-- The drive gives the AGID `agid`, follows the authentication and sends the volume id with its MAC.
pub record GivesVid (drive : Drive) (agid : ℕ) (mmc : Mmc) (host_cert host_signature : List ℕ)
    (r : Reply) (vid mac : List ℕ) : Type 0 where
  pub gives_agid :
      (before : List Command)
      → drive before (report_key_cmd 0 0 0 0 8)
        ≡ some (0 ∷ 6 ∷ 0 ∷ 0 ∷ 0 ∷ 0 ∷ 0 ∷ (agid * 2 ^ 6) ∷ [])
  pub follows :
      (before : List Command)
      → Follows drive agid mmc.host_nonce mmc.host_key_point host_cert host_signature r before
  pub gives_vid :
      (before : List Command)
      → drive before (disc_structure_cmd agid 0x80 0 0 36)
        ≡ some ((0 ∷ 0x22 ∷ 0 ∷ 0 ∷ []) ++ (vid ++ mac))
  pub vid_size : length vid ≡ 16
  pub mac_size : length mac ≡ 16

session-vid :
    (aes : Aes) (drive : Drive) (agid : ℕ) (mmc m : Mmc) (host_cert host_signature : List ℕ)
    (r : Reply) (vid mac bus_key : List ℕ)
    → GivesVid drive agid mmc host_cert host_signature r vid mac
    → crypto_aes_cmac_16 aes vid bus_key ≡ some mac
    → (session aes drive agid vid_request (m, mmc_success bus_key)).1 ≡ mmc_success vid
unfolding session serve read_vid read_keys mmc_report_disc_structure device_send_cmd checked_mac
    disc_structure_cmd
session-vid aes drive agid mmc m host_cert host_signature r vid mac bus_key gives e =
    rw
      (
        gives.gives_vid m.sent,
        fields-answer (0 ∷ 0x22 ∷ 0 ∷ 0 ∷ []) vid mac 16 16 36 refl gives.vid_size gives.mac_size
            refl,
        checked_mac-some aes bus_key vid mac e,
      )
      refl

mmc_report_agid-some :
    (drive : Drive) (m : Mmc) (agid : ℕ)
    → drive m.sent (report_key_cmd 0 0 0 0 8)
      ≡ some (0 ∷ 6 ∷ 0 ∷ 0 ∷ 0 ∷ 0 ∷ 0 ∷ (agid * 2 ^ 6) ∷ [])
    → mmc_report_agid drive m ≡ (record m { sent = report_key_cmd 0 0 0 0 8 ∷ m.sent }, some agid)
unfolding mmc_report_agid mmc_report_key device_send_cmd answer agid_of report_key_cmd
mmc_report_agid-some drive m agid e =
    let back : agid * 2 ^ 6 / 2 ^ 6 ≡ agid = omega arith in rw (e, back) refl

mmc_read_auth-vid :
    (aes : Aes) (c : Curve) (drive : Drive) (mmc : Mmc) (agid : ℕ)
    (host_priv_key host_cert signature vid mac : List ℕ) (r : Reply)
    → HasSizes r
    → GivesVid drive agid mmc host_cert signature r vid mac
    → verify_drive_cert c r.cert ≡ true
    → verify_signature c r.cert r.signature mmc.host_nonce r.point ≡ true
    → c.sign host_cert host_priv_key r.nonce mmc.host_key_point ≡ some signature
    → verify_signature c host_cert signature r.nonce mmc.host_key_point ≡ true
    → crypto_aes_cmac_16 aes vid (c.create_bus_key mmc.host_key r.point) ≡ some mac
    → (mmc_read_auth aes c drive mmc host_priv_key host_cert vid_request).1 ≡ mmc_success vid
unfolding mmc_read_auth mmc_invalidate_agids
mmc_read_auth-vid aes c drive mmc agid host_priv_key host_cert signature vid mac r sizes gives
      licensed signed signs own e =
    let m0 = mmc_invalidate_agids drive mmc in
    let m1 : Mmc = record m0 { sent = report_key_cmd 0 0 0 0 8 ∷ m0.sent } in
    rw
      (
        mmc_report_agid-some drive m0 agid (gives.gives_agid m0.sent),
        mmc_aacs_auth-mmc_success c drive m1 agid host_priv_key host_cert signature r sizes
            (gives.follows m1.sent) licensed signed signs own,
      )
      (session-vid aes drive agid mmc (authenticated agid m1 host_cert signature r) host_cert
        signature r vid mac (c.create_bus_key mmc.host_key r.point) gives e)

-- The interface of the authentication gives what the functions of crypto.c give where they return.
pub record MadeOf (g : Gcrypt) (c : Curve) : Type 0 where
  pub licenses :
      (signature message : List ℕ)
      → c.verify_aacsla signature message ≡ crypto_aacs_verify_aacsla g signature message
  pub verifies :
      (cert signature message : List ℕ)
      → c.verify cert signature message ≡ crypto_aacs_verify g cert signature message
  pub signs :
      (cert priv_key nonce point : List ℕ) (o : Option (List ℕ))
      → crypto_aacs_sign g cert priv_key nonce point ≡ ok o
      → c.sign cert priv_key nonce point ≡ o
  pub makes_bus_key :
      (key point bus_key : List ℕ)
      → crypto_create_bus_key g key point ≡ ok bus_key
      → c.create_bus_key key point ≡ bus_key

-- A certificate of a drive that the licensor signed.
pub record IsLicensed (g : Gcrypt) (cert : List ℕ) : Type 0 where
  pub of_drive : byte cert 0 ≡ 0x01
  pub has_length : word16 cert 2 ≡ 0x5c
  pub signed : crypto_aacs_verify_aacsla g (slice cert 52 40) (take 52 cert) ≡ true

verify_drive_cert-IsLicensed :
    (g : Gcrypt) (c : Curve) (cert : List ℕ)
    → MadeOf g c
    → IsLicensed g cert
    → verify_drive_cert c cert ≡ true
unfolding verify_drive_cert verify_cert
verify_drive_cert-IsLicensed g c cert made licensed =
    rw
      (
        licensed.of_drive,
        licensed.has_length,
        made.licenses (slice cert 52 40) (take 52 cert),
        licensed.signed,
      )
      refl

-- One side of an authentication: its point belongs to its key, and it signs the nonce of the other
-- side and its point with the private key of its certificate.
pub record IsSide (g : Gcrypt) (key point priv_key cert nonce signature : List ℕ) : Type 0 where
  pub makes_point : crypto_create_host_key_pair g key ≡ ok point
  pub has_coordinates : IsPoint g key
  pub owns : IsKeyPair g cert priv_key
  pub signs : crypto_aacs_sign g cert priv_key nonce point ≡ ok (some signature)

verify_signature-IsSide :
    (g : Gcrypt) (c : Curve) (key point priv_key cert nonce signature : List ℕ)
    → MadeOf g c
    → IsSide g key point priv_key cert nonce signature
    → verify_signature c cert signature nonce point ≡ true
unfolding verify_signature
verify_signature-IsSide g c key point priv_key cert nonce signature made side =
    let valid = crypto_aacs_sign-IsVerified g cert priv_key nonce point side.owns in
    let verified : IsVerified g cert (take 20 nonce ++ take 40 point) (some signature) =
      rw side.signs at valid in
    made.verifies cert signature (take 20 nonce ++ take 40 point) ∙ verified.1

same_bus_key :
    (g : Gcrypt)
    (a b a_point b_point a_priv b_priv a_cert b_cert a_nonce b_nonce a_signature b_signature : List
      ℕ)
    → IsSide g a a_point a_priv a_cert a_nonce a_signature
    → IsSide g b b_point b_priv b_cert b_nonce b_signature
    → Commutes g a b
    → crypto_create_bus_key g a b_point ≡ crypto_create_bus_key g b a_point
same_bus_key g a b a_point b_point a_priv b_priv a_cert b_cert a_nonce b_nonce a_signature
      b_signature one other same =
    let agreed =
      crypto_create_bus_key-agreed g a b one.has_coordinates other.has_coordinates same in
    rw (one.makes_point, other.makes_point) at agreed

-- If a drive follows the protocol, has a certificate of the licensor, signs with its key and sends
-- a volume id with the MAC under the bus key that it makes itself, then `mmc_read_auth` gives this
-- volume id, provided that the host signs with its key too and multiplication of the two keys
-- commutes.
pub mmc_read_auth-mmc_success :
    (g : Gcrypt) (c : Curve) (aes : Aes) (drive : Drive) (mmc : Mmc) (agid : ℕ)
    (host_priv_key host_cert signature drive_priv_key drive_key bus_key vid mac : List ℕ)
    (r : Reply)
    → MadeOf g c
    → HasSizes r
    → GivesVid drive agid mmc host_cert signature r vid mac
    → IsLicensed g r.cert
    → IsSide g mmc.host_key mmc.host_key_point host_priv_key host_cert r.nonce signature
    → IsSide g drive_key r.point drive_priv_key r.cert mmc.host_nonce r.signature
    → Commutes g mmc.host_key drive_key
    → crypto_create_bus_key g drive_key mmc.host_key_point ≡ ok bus_key
    → crypto_aes_cmac_16 aes vid bus_key ≡ some mac
    → (mmc_read_auth aes c drive mmc host_priv_key host_cert vid_request).1 ≡ mmc_success vid
mmc_read_auth-mmc_success g c aes drive mmc agid host_priv_key host_cert signature drive_priv_key
      drive_key bus_key vid mac r made sizes gives licensed host peer same own e =
    let shared =
      same_bus_key g mmc.host_key drive_key mmc.host_key_point r.point host_priv_key drive_priv_key
        host_cert r.cert r.nonce mmc.host_nonce signature r.signature host peer same
      ∙ own in
    let key = made.makes_bus_key mmc.host_key r.point bus_key shared in
    mmc_read_auth-vid aes c drive mmc agid host_priv_key host_cert signature vid mac r sizes gives
      (verify_drive_cert-IsLicensed g c r.cert made licensed)
      (verify_signature-IsSide g c drive_key r.point drive_priv_key r.cert mmc.host_nonce
        r.signature made peer)
      (made.signs host_cert host_priv_key r.nonce mmc.host_key_point (some signature) host.signs)
      (verify_signature-IsSide g c mmc.host_key mmc.host_key_point host_priv_key host_cert r.nonce
        signature made host)
      (rw key e)

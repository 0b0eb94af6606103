-- ===== src/Mmc/Session.antt =====
-- `mmc_read_auth` of mmc.c: the authentication of the drive, and the AGID of the call.
use libaacs.Common.{
  ℕ, ◌≡◌, refl, ap, ◌∙◌, inl, inr, Bool, true, false, not, ◌||◌, Option, none, some, List, ◌∷◌,
  arith, ◌==◌, if◌then◌else◌, Bool-cases, same_bytes, same_bytes→eq, byte, slice,
}
use libaacs.Crypto.{Aes, crypto_aes_cmac_16}
use libaacs.Mmc.{
  Command, Drive, Mmc, answer, device_send_cmd, mmc_report_key, mmc_send_key, mmc_report_agid,
  mmc_invalidate_agid, mmc_invalidate_agids, report_key_cmd, disc_structure_cmd,
}
use libaacs.Mmc.Auth.{
  Curve, MmcResult, mmc_success, mmc_error, mmc_error_cert_revoked, Request, mmc_aacs_auth,
  mmc_read_auth, after_host_key, after_sign, after_drive_key, after_drive_cert, after_host_cert,
  send_host_key, send_host_cert, read_drive_key, verify_signature, checked_mac, after_agid, session,
  verify_drive_cert,
}

-- The last command took the AGID back, or the drive never gave one.
abbrev pub IsReleased : Option ℕ → Mmc × MmcResult (List ℕ) → Type 0
IsReleased none r = r.1 ≡ mmc_error
IsReleased (some agid) r =
    (before : List Command) × (r.0.sent ≡ report_key_cmd agid 0 0 0x3f 2 ∷ before)

session-IsReleased :
    (aes : Aes) (drive : Drive) (agid : ℕ) (request : Request) (r : Mmc × MmcResult (List ℕ))
    → IsReleased (some agid) (session aes drive agid request r)
unfolding session mmc_invalidate_agid mmc_report_key device_send_cmd
session-IsReleased aes drive agid request (mmc, mmc_success bus_key) = (_, refl)
session-IsReleased aes drive agid request (mmc, mmc_error) = (_, refl)
session-IsReleased aes drive agid request (mmc, mmc_error_cert_revoked) = (_, refl)

after_agid-IsReleased :
    (aes : Aes) (c : Curve) (drive : Drive) (host_priv_key host_cert : List ℕ) (request : Request)
    (r : Mmc × Option ℕ)
    → IsReleased r.1 (after_agid aes c drive host_priv_key host_cert request r)
unfolding after_agid
after_agid-IsReleased aes c drive host_priv_key host_cert request (mmc, none) = refl
after_agid-IsReleased aes c drive host_priv_key host_cert request (mmc, some agid) =
    session-IsReleased aes drive agid request _

-- Whatever the drive answers, and on every path, the last command of `mmc_read_auth` invalidates the
-- AGID that the drive gave; if it gave none, the result is an error.
pub mmc_read_auth-IsReleased :
    (aes : Aes) (c : Curve) (drive : Drive) (mmc : Mmc) (host_priv_key host_cert : List ℕ)
    (request : Request)
    → IsReleased
        (mmc_report_agid drive (mmc_invalidate_agids drive mmc)).1
        (mmc_read_auth aes c drive mmc host_priv_key host_cert request)
unfolding mmc_read_auth
mmc_read_auth-IsReleased aes c drive mmc host_priv_key host_cert request =
    after_agid-IsReleased aes c drive host_priv_key host_cert request _

-- What holds of the state and the value when the call succeeds.
abbrev pub OnSuccess : (Mmc → List ℕ → Type 0) → Mmc × MmcResult (List ℕ) → Type 0
OnSuccess P (mmc, mmc_success a) = P mmc a
OnSuccess P (mmc, mmc_error) = Unit {0}
OnSuccess P (mmc, mmc_error_cert_revoked) = Unit {0}

-- The certificate of the drive is signed by the licensor, the drive signed our nonce and its key
-- point with the key of that certificate, and the bus key belongs to that point.
abbrev pub IsAuthenticated : Curve → Mmc → List ℕ → Type 0
IsAuthenticated c mmc bus_key =
    (verify_drive_cert c mmc.drive_cert ≡ true)
    × (dkp : List ℕ) × (dks : List ℕ) × (verify_signature c mmc.drive_cert dks mmc.host_nonce dkp
        ≡ true)
    × (bus_key ≡ c.create_bus_key mmc.host_key dkp)

if_success :
    (P : Mmc → List ℕ → Type 0) (b : Bool) (x y : Mmc × MmcResult (List ℕ))
    → (b ≡ true → OnSuccess P x)
    → (b ≡ false → OnSuccess P y)
    → OnSuccess P (if b then x else y)
if_success P true x y on_true on_false = on_true refl
if_success P false x y on_true on_false = on_false refl

after_host_key-IsAuthenticated :
    (c : Curve) (mmc : Mmc) (dkp dks : List ℕ) (o : Option (List ℕ))
    → verify_drive_cert c mmc.drive_cert ≡ true
    → verify_signature c mmc.drive_cert dks mmc.host_nonce dkp ≡ true
    → OnSuccess (IsAuthenticated c) (after_host_key c dkp (mmc, o))
unfolding after_host_key
after_host_key-IsAuthenticated c mmc dkp dks none cert signed = _
after_host_key-IsAuthenticated c mmc dkp dks (some _) cert signed = (cert, dkp, dks, signed, refl)

after_sign-IsAuthenticated :
    (c : Curve) (drive : Drive) (mmc : Mmc) (agid : ℕ) (host_cert dn dkp dks : List ℕ)
    (o : Option (List ℕ))
    → verify_drive_cert c mmc.drive_cert ≡ true
    → verify_signature c mmc.drive_cert dks mmc.host_nonce dkp ≡ true
    → OnSuccess (IsAuthenticated c) (after_sign c drive mmc agid host_cert dn dkp o)
unfolding after_sign send_host_key mmc_send_key device_send_cmd
after_sign-IsAuthenticated c drive mmc agid host_cert dn dkp dks none cert signed = _
after_sign-IsAuthenticated c drive mmc agid host_cert dn dkp dks (some hks) cert signed =
    let told = send_host_key drive mmc agid mmc.host_key_point hks in
    if_success (IsAuthenticated c) (verify_signature c host_cert hks dn mmc.host_key_point)
      (after_host_key c dkp told) (mmc, mmc_error)
      (λ _. after_host_key-IsAuthenticated c told.0 dkp dks told.1 cert signed) (λ _. record {})

after_drive_key-IsAuthenticated :
    (c : Curve) (drive : Drive) (agid : ℕ) (host_priv_key host_cert dn : List ℕ) (mmc : Mmc)
    (o : Option (List ℕ × List ℕ))
    → verify_drive_cert c mmc.drive_cert ≡ true
    → OnSuccess
        (IsAuthenticated c)
        (after_drive_key c drive agid host_priv_key host_cert dn (mmc, o))
unfolding after_drive_key
after_drive_key-IsAuthenticated c drive agid host_priv_key host_cert dn mmc none cert = _
after_drive_key-IsAuthenticated c drive agid host_priv_key host_cert dn mmc (some (dkp, dks)) cert =
    let hks = c.sign host_cert host_priv_key dn mmc.host_key_point in
    if_success (IsAuthenticated c) (verify_signature c mmc.drive_cert dks mmc.host_nonce dkp)
      (after_sign c drive mmc agid host_cert dn dkp hks) (mmc, mmc_error)
      (λ signed. after_sign-IsAuthenticated c drive mmc agid host_cert dn dkp dks hks cert signed)
      (λ _. record {})

both_false : (a b : Bool) → (a || not b) ≡ false → b ≡ true
both_false a b h = ground arith

after_drive_cert-IsAuthenticated :
    (c : Curve) (drive : Drive) (agid : ℕ) (host_priv_key host_cert : List ℕ) (mmc : Mmc)
    (o : Option (List ℕ × List ℕ))
    → OnSuccess (IsAuthenticated c) (after_drive_cert c drive agid host_priv_key host_cert (mmc, o))
unfolding after_drive_cert read_drive_key mmc_report_key device_send_cmd
after_drive_cert-IsAuthenticated c drive agid host_priv_key host_cert mmc none = _
after_drive_cert-IsAuthenticated c drive agid host_priv_key host_cert mmc (some (dn, cert)) =
    let known = record mmc { drive_cert = cert } in
    let key = read_drive_key drive known agid in
    if_success (IsAuthenticated c) (byte cert 0 == 0x11 || not (verify_drive_cert c cert))
      (known, mmc_error) (after_drive_key c drive agid host_priv_key host_cert dn key)
      (λ _. record {})
      (λ valid.
        after_drive_key-IsAuthenticated c drive agid host_priv_key host_cert dn key.0 key.1
          (both_false (byte cert 0 == 0x11) (verify_drive_cert c cert) valid))

pub mmc_aacs_auth-IsAuthenticated :
    (c : Curve) (drive : Drive) (mmc : Mmc) (agid : ℕ) (host_priv_key host_cert : List ℕ)
    → OnSuccess (IsAuthenticated c) (mmc_aacs_auth c drive mmc agid host_priv_key host_cert)
unfolding mmc_aacs_auth
mmc_aacs_auth-IsAuthenticated c drive mmc agid host_priv_key host_cert =
    of_answer (send_host_cert drive mmc agid mmc.host_nonce host_cert)
  where
    of_answer :
        (r : Mmc × Option (List ℕ))
        → OnSuccess (IsAuthenticated c) (after_host_cert c drive agid host_priv_key host_cert r)
    of_answer (mmc', none) = unfold after_host_cert in _
    of_answer (mmc', some _) =
        unfold after_host_cert in
        after_drive_cert-IsAuthenticated c drive agid host_priv_key host_cert _ _

-- An answer of the drive to the command for a block holds the block and its MAC under the bus key.
abbrev pub IsAuthentic : Aes → Drive → ℕ → List ℕ → List ℕ → Type 0
IsAuthentic aes drive format bus_key block =
    (before : List Command) × (agid : ℕ) × (buf : List ℕ) × (answer 36
        (drive before (disc_structure_cmd agid format 0 0 36))
      ≡ some buf)
    × (block ≡ slice buf 4 16)
    × (crypto_aes_cmac_16 aes block bus_key ≡ some (slice buf 20 16))

-- A result with the mac of a block.
abbrev pub HasMac : Aes → List ℕ → Option (List ℕ × List ℕ) → MmcResult (List ℕ) → Type 0
HasMac aes bus_key o (mmc_success block) =
    (mac : List ℕ) × (o ≡ some (block, mac)) × (crypto_aes_cmac_16 aes block bus_key ≡ some mac)
HasMac aes bus_key o mmc_error = Unit {0}
HasMac aes bus_key o mmc_error_cert_revoked = Unit {0}

pub checked_mac-HasMac :
    (aes : Aes) (bus_key : List ℕ) (o : Option (List ℕ × List ℕ))
    → HasMac aes bus_key o (checked_mac aes bus_key o)
unfolding checked_mac
checked_mac-HasMac aes bus_key none = record {}
checked_mac-HasMac aes bus_key (some (block, mac)) =
    of_mac (crypto_aes_cmac_16 aes block bus_key) refl
  where
    of_mac :
        (m : Option (List ℕ))
        → crypto_aes_cmac_16 aes block bus_key ≡ m
        → HasMac aes bus_key (some (block, mac)) (elim m [
          | none ↦ mmc_error
          | some calc_mac ↦ if same_bytes calc_mac mac then mmc_success block else mmc_error
        ])
    of_mac none e = record {}
    of_mac (some calc_mac) e = elim (Bool-cases (same_bytes calc_mac mac)) [
      | inl same ↦ rw same (mac, refl, (e ∙ ap some (same_bytes→eq calc_mac mac same)))
      | inr differ ↦ rw differ (record {})
    ]

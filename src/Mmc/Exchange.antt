-- ===== src/Mmc/Exchange.antt =====
-- The authentication of mmc.c with a drive that follows the protocol.
use mathlib.Core.List.{append-nil, append_assoc}
use libaacs.Common.{
  ℕ, zero, suc, ◌+◌, ◌≡◌, refl, ap, ◌∙◌, true, false, not, ◌||◌, some, List, [], ◌∷◌, ◌++◌, arith,
  ◌==◌, length, take, replicate, length-append, byte, slice, take-append,
}
use libaacs.Mmc.{
  Command, Drive, Mmc, answer, device_send_cmd, report_key_cmd, send_key_cmd, mmc_send_key,
  mmc_report_key,
}
use libaacs.Mmc.Auth.{
  Curve, mmc_success, fields, verify_drive_cert, verify_signature, send_host_cert, read_drive_key,
  read_drive_cert_challenge, after_host_cert, mmc_aacs_auth,
}

slice-cons : (x : ℕ) (xs : List ℕ) (p n : ℕ) → slice (x ∷ xs) (suc p) n ≡ slice xs p n
unfolding slice byte
slice-cons x xs p zero = refl
slice-cons x xs p (suc n) =
    let next : suc p + 1 ≡ suc (p + 1) = omega arith in
    rw next (ap (λ l. byte xs p ∷ l) (slice-cons x xs (p + 1) n))

slice_start : (xs ys : List ℕ) → slice (xs ++ ys) 0 (length xs) ≡ xs
unfolding slice byte
slice_start [] ys = refl
slice_start (x ∷ xs) ys =
    ap (λ l. x ∷ l) (slice-cons x (xs ++ ys) 0 (length xs) ∙ slice_start xs ys)

slice-append : (pre xs ys : List ℕ) → slice (pre ++ (xs ++ ys)) (length pre) (length xs) ≡ xs
slice-append [] xs ys = slice_start xs ys
slice-append (x ∷ pre) xs ys =
    slice-cons x (pre ++ (xs ++ ys)) (length pre) (length xs) ∙ slice-append pre xs ys

second_field :
    (header a b : List ℕ) → slice (header ++ (a ++ b)) (length (header ++ a)) (length b) ≡ b
second_field header a b =
    let whole : (header ++ a) ++ (b ++ []) ≡ header ++ (a ++ b) =
      rw (append-nil b) (append_assoc header a b) in
    rw (← whole) (slice-append (header ++ a) b [])

-- An answer that fits is taken as it is, with its two fields.
pub fields-answer :
    (header a b : List ℕ) (m n len : ℕ)
    → length header ≡ 4
    → length a ≡ m
    → length b ≡ n
    → 4 + m + n ≡ len
    → fields m n (answer len (some (header ++ (a ++ b)))) ≡ some (a, b)
unfolding answer
fields-answer header a b m n len four ea eb fits =
    let size : length (header ++ (a ++ b)) ≡ len =
      omega (arith, length-append header (a ++ b), length-append a b) in
    let first : slice (header ++ (a ++ b)) 4 m ≡ a = rw (← four, ← ea) (slice-append header a b) in
    let place : 4 + m ≡ length (header ++ a) = omega (arith, length-append header a) in
    let second : slice (header ++ (a ++ b)) (4 + m) n ≡ b =
      rw (place, ← eb) (second_field header a b) in
    rw (take-append len (header ++ (a ++ b)) (replicate len 0) size, first, second) refl

-- What a drive sends: its nonce, its certificate, its key point and its signature.
pub record Reply : Type 0 where
  pub nonce : List ℕ
  pub cert : List ℕ
  pub point : List ℕ
  pub signature : List ℕ

pub record HasSizes (r : Reply) : Type 0 where
  pub nonce_size : length r.nonce ≡ 20
  pub cert_size : length r.cert ≡ 92
  pub point_size : length r.point ≡ 40
  pub signature_size : length r.signature ≡ 40

-- The four commands of an authentication.
abbrev pub challenge : ℕ → List ℕ → List ℕ → Command
challenge agid host_nonce host_cert =
    send_key_cmd agid 0x01 (0 ∷ 0x72 ∷ 0 ∷ 0 ∷ take 20 host_nonce ++ take 92 host_cert)

abbrev pub cert_request : ℕ → Command
cert_request agid = report_key_cmd agid 0 0 0x01 116

abbrev pub key_request : ℕ → Command
key_request agid = report_key_cmd agid 0 0 0x02 84

abbrev pub host_key_cmd : ℕ → List ℕ → List ℕ → Command
host_key_cmd agid point signature =
    send_key_cmd agid 0x02 (0 ∷ 0x52 ∷ 0 ∷ 0 ∷ take 40 point ++ take 40 signature)

-- After the commands `before`, the drive takes what the host sends to it, and sends `r`.
pub record Follows (drive : Drive) (agid : ℕ)
    (host_nonce host_point host_cert host_signature : List ℕ) (r : Reply) (before : List Command)
    : Type 0 where
  pub takes_cert :
      (reply : List ℕ) × (drive before (challenge agid host_nonce host_cert) ≡ some reply)
  pub gives_cert :
      drive (challenge agid host_nonce host_cert ∷ before) (cert_request agid)
      ≡ some ((0 ∷ 0x72 ∷ 0 ∷ 0 ∷ []) ++ (r.nonce ++ r.cert))
  pub gives_key :
      drive (cert_request agid ∷ challenge agid host_nonce host_cert ∷ before) (key_request agid)
      ≡ some ((0 ∷ 0x52 ∷ 0 ∷ 0 ∷ []) ++ (r.point ++ r.signature))
  pub takes_key :
      (reply : List ℕ) × (drive
          (key_request agid ∷ cert_request agid ∷ challenge agid host_nonce host_cert ∷ before)
          (host_key_cmd agid host_point host_signature)
        ≡ some reply)

-- After an authentication that a drive followed.
abbrev pub authenticated : ℕ → Mmc → List ℕ → List ℕ → Reply → Mmc
authenticated agid mmc host_cert host_signature r = record mmc {
  sent =
      host_key_cmd agid mmc.host_key_point host_signature
      ∷ key_request agid
      ∷ cert_request agid
      ∷ challenge agid mmc.host_nonce host_cert
      ∷ mmc.sent;
  drive_cert = r.cert;
}

no_refusal :
    (c : Curve) (cert : List ℕ)
    → verify_drive_cert c cert ≡ true
    → (byte cert 0 == 0x11 || not (verify_drive_cert c cert)) ≡ false
unfolding verify_drive_cert
no_refusal c cert h = ground arith

read_drive_cert_challenge-some :
    (drive : Drive) (mmc : Mmc) (agid : ℕ) (r : Reply)
    → HasSizes r
    → drive mmc.sent (cert_request agid) ≡ some ((0 ∷ 0x72 ∷ 0 ∷ 0 ∷ []) ++ (r.nonce ++ r.cert))
    → read_drive_cert_challenge drive mmc agid
      ≡ (record mmc { sent = cert_request agid ∷ mmc.sent }, some (r.nonce, r.cert))
unfolding read_drive_cert_challenge mmc_report_key device_send_cmd report_key_cmd
read_drive_cert_challenge-some drive mmc agid r sizes e =
    rw
      (
        e,
        fields-answer (0 ∷ 0x72 ∷ 0 ∷ 0 ∷ []) r.nonce r.cert 20 92 116 refl sizes.nonce_size
            sizes.cert_size refl,
      )
      refl

read_drive_key-some :
    (drive : Drive) (mmc : Mmc) (agid : ℕ) (r : Reply)
    → HasSizes r
    → drive mmc.sent (key_request agid) ≡ some ((0 ∷ 0x52 ∷ 0 ∷ 0 ∷ []) ++ (r.point ++ r.signature))
    → read_drive_key drive mmc agid
      ≡ (record mmc { sent = key_request agid ∷ mmc.sent }, some (r.point, r.signature))
unfolding read_drive_key mmc_report_key device_send_cmd report_key_cmd
read_drive_key-some drive mmc agid r sizes e =
    rw
      (
        e,
        fields-answer (0 ∷ 0x52 ∷ 0 ∷ 0 ∷ []) r.point r.signature 40 40 84 refl sizes.point_size
            sizes.signature_size refl,
      )
      refl

module _ (c : Curve) (drive : Drive) (mmc : Mmc) (agid : ℕ)
    (host_priv_key host_cert signature : List ℕ) (r : Reply) (sizes : HasSizes r)
    (follows : Follows drive agid mmc.host_nonce mmc.host_key_point host_cert signature r mmc.sent)
    (licensed : verify_drive_cert c r.cert ≡ true)
    (signed : verify_signature c r.cert r.signature mmc.host_nonce r.point ≡ true)
    (signs : c.sign host_cert host_priv_key r.nonce mmc.host_key_point ≡ some signature)
    (own : verify_signature c host_cert signature r.nonce mmc.host_key_point ≡ true) where
  -- The authentication ends with the bus key for the point of the drive.
  pub mmc_aacs_auth-mmc_success : mmc_aacs_auth c drive mmc agid host_priv_key host_cert ≡ (
    authenticated agid mmc host_cert signature r,
    mmc_success (c.create_bus_key mmc.host_key r.point),
  )
  unfolding mmc_aacs_auth after_host_cert send_host_cert mmc_send_key device_send_cmd answer
  mmc_aacs_auth-mmc_success =
      rw
        (
          follows.takes_cert.1,
          read_drive_cert_challenge-some drive
              (record mmc { sent = challenge agid mmc.host_nonce host_cert ∷ mmc.sent }) agid r
              sizes follows.gives_cert,
          no_refusal c r.cert licensed,
          read_drive_key-some drive
              (record mmc {
                sent = cert_request agid ∷ challenge agid mmc.host_nonce host_cert ∷ mmc.sent;
                drive_cert = r.cert;
              })
              agid r sizes follows.gives_key,
          signed,
          signs,
          own,
          follows.takes_key.1,
        )
        refl

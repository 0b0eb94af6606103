-- ===== src/ContentCert.antt =====
-- src/libaacs/content_cert.c: the parser of content certificates. The signature check is a parameter:
-- `crypto_aacs_verify_aacscc` of crypto.c, on the signature and the signed bytes.
pub mod Examples
use libaacs.Common.{
  ℕ, ◌+◌, ◌-◌, ◌*◌, ◌/◌, ◌^◌, ◌≤◌, ◌≡◌, refl, inl, inr, Bool, true, false, not, Option, none, some,
  List, ◌++◌, arith, ltb, leb, ◌==◌, if◌then◌else◌, leb→le, Bool-cases, length, replicate, Run, ok,
  fault, stuck, ◌>>=◌, ◌>>◌, Returns, byte_at, be16, bytes_at, byte, word16, slice, byte_at_lem,
  be16_lem, bytes_at_lem,
}

-- `struct content_cert`.
pub record ContentCert : Type 0 where
  pub bus_encryption_enabled_flag : ℕ
  pub cc_id : List ℕ
  pub aacs2 : Bool
  pub bdj_root_cert_hash : List ℕ

-- The length of the signature by the type of the certificate.
unfoldable pub signature_size : ℕ → Option ℕ
signature_size kind = if kind == 0x00 then some 40 else if kind == 0x10 then some 64 else none

-- `memcpy` of `n` bytes into the 32 bytes of the hash, which were cleared.
unfoldable pub root_hash : List ℕ → Bool → ℕ → ℕ → Run (List ℕ)
root_hash p present at n =
    if present
    then (do h ← bytes_at p at n; ok (h ++ replicate (32 - n) 0))
    else ok (replicate 32 0)

-- The useful data of a certificate of the type `kind`.
unfoldable pub cert_data : List ℕ → ℕ → ℕ → Run ContentCert
unfolding root_hash
cert_data p kind length_format_specific = do
  flags ← byte_at p 1
  id ← bytes_at p 14 6
  hash ←
      (if kind == 0
        then root_hash p (leb 40 length_format_specific) 46 20
        else root_hash p (leb 66 length_format_specific) 60 32)
  ok (record {
    bus_encryption_enabled_flag = flags / 2 ^ 7;
    cc_id = id;
    aacs2 = not (kind == 0);
    bdj_root_cert_hash = hash;
  })

module _ (verify_aacscc : List ℕ → List ℕ → Bool) where
  -- After the type of the certificate: its length and its signature.
  unfoldable pub signed_cert : List ℕ → ℕ → ℕ → Option ℕ → Run (Option ContentCert)
  unfolding cert_data
  signed_cert p len kind none = ok none
  signed_cert p len kind (some size) = do
    length_format_specific ← be16 p 24
    num_digest ← be16 p 12
    let cert_data_len = 26 + length_format_specific + num_digest * 8
    if ltb len (cert_data_len + size) then ok none else (do
      signature ← bytes_at p cert_data_len size
      data' ← bytes_at p 0 cert_data_len
      if verify_aacscc signature data'
          then (do c ← cert_data p kind length_format_specific; ok (some c))
          else ok none)

  -- `cc_parse`; `none` is NULL.
  unfoldable pub cc_parse : List ℕ → ℕ → Run (Option ContentCert)
  unfolding signed_cert signature_size
  cc_parse p len =
      if ltb len 26
      then ok none
      else (do kind ← byte_at p 0; signed_cert p len kind (signature_size kind))

-- What a certificate that was accepted is: long enough for what it declares, and signed.
abbrev pub IsSigned : (List ℕ → List ℕ → Bool) → List ℕ → Option ContentCert → Type 0
IsSigned verify_aacscc p none = Unit {0}
IsSigned verify_aacscc p (some c) =
    (size : ℕ) × (signature_size (byte p 0) ≡ some size)
    × (26 + word16 p 24 + word16 p 12 * 8 + size ≤ length p)
    × (verify_aacscc (slice p (26 + word16 p 24 + word16 p 12 * 8) size)
          (slice p 0 (26 + word16 p 24 + word16 p 12 * 8))
        ≡ true)
    × (c.cc_id ≡ slice p 14 6)

root_hash-copy :
    (p : List ℕ) (present : Bool) (at n : ℕ)
    → (present ≡ true → at + n ≤ length p)
    → (h : List ℕ) × (root_hash p present at n ≡ ok h)
unfolding root_hash
root_hash-copy p true at n inside =
    (slice p at n ++ replicate (32 - n) 0, rw (bytes_at_lem p at n (inside refl)) refl)
root_hash-copy p false at n inside = (replicate 32 0, refl)

cert_data-id :
    (p : List ℕ) (kind length_format_specific : ℕ)
    → 26 + length_format_specific ≤ length p
    → Returns (λ c. c.cc_id ≡ slice p 14 6) (cert_data p kind length_format_specific)
unfolding cert_data
cert_data-id p kind length_format_specific inside =
    let (h, e) =
      root_hash-copy p (leb 40 length_format_specific) 46 20
        (λ long. ground (arith, leb→le 40 length_format_specific long)) in
    let (h', e') =
      root_hash-copy p (leb 66 length_format_specific) 60 32
        (λ long. ground (arith, leb→le 66 length_format_specific long)) in
    elim (Bool-cases (kind == 0)) [
      | inl aacs1 ↦
          rw (byte_at_lem p 1 (omega arith), bytes_at_lem p 14 6 (omega arith), aacs1, e) refl
      | inr aacs2 ↦
          rw (byte_at_lem p 1 (omega arith), bytes_at_lem p 14 6 (omega arith), aacs2, e') refl
    ]

signed_cert-IsSigned :
    (verify_aacscc : List ℕ → List ℕ → Bool) (p : List ℕ) (o : Option ℕ)
    → 26 ≤ length p
    → signature_size (byte p 0) ≡ o
    → Returns (IsSigned verify_aacscc p) (signed_cert verify_aacscc p (length p) (byte p 0) o)
unfolding signed_cert
signed_cert-IsSigned verify_aacscc p none long e = record {}
signed_cert-IsSigned verify_aacscc p (some size) long e =
    rw (be16_lem p 24 (omega arith), be16_lem p 12 (omega arith))
      (elim (Bool-cases (ltb (length p) (26 + word16 p 24 + word16 p 12 * 8 + size))) [
        | inl cut ↦ rw cut (record {})
        | inr whole ↦
            let room : 26 + word16 p 24 + word16 p 12 * 8 + size ≤ length p = ground arith in
            rw
              (
                whole,
                bytes_at_lem p (26 + word16 p 24 + word16 p 12 * 8) size room,
                bytes_at_lem p 0 (26 + word16 p 24 + word16 p 12 * 8) (omega arith),
              )
              (if_valid _ refl room (cert_data p (byte p 0) (word16 p 24))
                (cert_data-id p (byte p 0) (word16 p 24) (omega arith)))
      ])
  where
    if_valid :
        (b : Bool)
        → verify_aacscc
            (slice p (26 + word16 p 24 + word16 p 12 * 8) size)
            (slice p 0 (26 + word16 p 24 + word16 p 12 * 8))
          ≡ b
        → 26 + word16 p 24 + word16 p 12 * 8 + size ≤ length p
        → (m : Run ContentCert) → Returns (λ c. c.cc_id ≡ slice p 14 6) m
        → Returns (IsSigned verify_aacscc p) (if b then (m >>= λ c. ok (some c)) else ok none)
    if_valid false bad room m id = record {}
    if_valid true valid room (ok c) id = (size, e, room, valid, id)
    if_valid true valid room fault id = absurd id
    if_valid true valid room stuck id = absurd id

-- On any bytes `cc_parse` returns, without a read outside of them; it accepts only a certificate that
-- is as long as it declares and whose signature is valid for the bytes in front of it, and its id
-- is from these.
pub cc_parse-IsSigned :
    (verify_aacscc : List ℕ → List ℕ → Bool) (p : List ℕ)
    → Returns (IsSigned verify_aacscc p) (cc_parse verify_aacscc p (length p))
unfolding cc_parse
cc_parse-IsSigned verify_aacscc p = elim (Bool-cases (ltb (length p) 26)) [
  | inl short ↦ rw short (record {})
  | inr long ↦
      let enough : 26 ≤ length p = ground arith in
      rw (long, byte_at_lem p 0 (omega arith))
        (signed_cert-IsSigned verify_aacscc p (signature_size (byte p 0)) enough refl)
]

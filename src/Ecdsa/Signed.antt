-- ===== src/Ecdsa/Signed.antt =====
-- Signatures that are made and checked with one certificate.
use libaacs.Common.{
  ℕ, ◌-◌, ◌≤◌, ◌≡◌, refl, true, false, Option, none, some, List, ◌++◌, arith, ltb, length, take,
  drop, replicate, length-append, length-replicate, Run, ok, fault, stuck, Returns,
}
use libaacs.Common.{take-append, drop-append, take_all}
use libaacs.Common.Partial.{Returns-then}
use libaacs.Ecdsa.{
  Gcrypt, Key, sha1, aacs1_curve, pad20, sexp_key, sexp_hash, sexp_signature, signature_of,
  crypto_aacs_sign, aacs_verify, crypto_aacs_verify, key_len, curve_of,
}

-- A number is printed in 20 bytes at most, and is read back from them behind zeros.
abbrev pub IsPrinted : Gcrypt → ℕ → Type 0
IsPrinted g n =
    (length (g.print n) ≤ 20) × (g.scan (replicate (20 - length (g.print n)) 0 ++ g.print n) ≡ n)

-- 20 bytes that are read as the number.
abbrev pub IsNumber : Gcrypt → ℕ → List ℕ → Type 0
IsNumber g n bytes = (length bytes ≡ 20) × (g.scan bytes ≡ n)

pub pad20-IsNumber :
    (g : Gcrypt) (n : ℕ) → IsPrinted g n → Returns (IsNumber g n) (pad20 (g.print n))
unfolding pad20
pad20-IsNumber g n (short, back) =
    let fits : ltb 20 (length (g.print n)) ≡ false = ground arith in
    rw fits (
      omega (
        arith,
        length-append (replicate (20 - length (g.print n)) 0) (g.print n),
        length-replicate {A = ℕ} (20 - length (g.print n)) 0,
      ),
      back,
    )

-- The public key in a certificate, and the private key to it.
abbrev pub public_key : Gcrypt → List ℕ → Key
public_key g cert = sexp_key g (drop 12 cert) (drop 32 cert) none aacs1_curve 20

abbrev pub private_key : Gcrypt → List ℕ → List ℕ → Key
private_key g cert priv_key =
    sexp_key g (drop 12 cert) (drop 32 cert) (some priv_key) aacs1_curve 20

-- What libgcrypt signs with the private key has two numbers below 2^160, and is valid for the
-- public key.
abbrev pub IsKeyPair : Gcrypt → List ℕ → List ℕ → Type 0
IsKeyPair g cert priv_key =
    (h r s : ℕ)
    → g.sign (private_key g cert priv_key) h ≡ some (r, s)
    → IsPrinted g r × IsPrinted g s × (g.verify (public_key g cert) h (r, s) ≡ true)

abbrev pub IsVerified : Gcrypt → List ℕ → List ℕ → Option (List ℕ) → Type 0
IsVerified g cert message none = Unit {0}
IsVerified g cert message (some signature) =
    (length signature ≡ 40) × (crypto_aacs_verify g cert signature message ≡ true)

both_numbers :
    (g : Gcrypt) (r s : ℕ) (first second : List ℕ)
    → IsNumber g r first
    → IsNumber g s second
    → sexp_signature g (first ++ second) 20 ≡ (r, s)
unfolding sexp_signature
both_numbers g r s first second (len, e) (more, f) =
    rw
      (
        take-append 20 first second len,
        drop-append 20 first second len,
        take_all 20 second more,
        e,
        f,
      )
      refl

-- Valid for a number under the public key.
abbrev IsValidFor : Gcrypt → List ℕ → ℕ → Option (List ℕ) → Type 0
IsValidFor g cert digest none = Unit {0}
IsValidFor g cert digest (some signature) =
    (length signature ≡ 40)
    × (g.verify (public_key g cert) digest (sexp_signature g signature 20) ≡ true)

signature_of-IsValidFor :
    (g : Gcrypt) (cert : List ℕ) (digest : ℕ) (o : Option (ℕ × ℕ))
    → ((r s : ℕ)
        → o ≡ some (r, s)
        → IsPrinted g r × IsPrinted g s × (g.verify (public_key g cert) digest (r, s) ≡ true))
    → Returns (IsValidFor g cert digest) (signature_of g o)
unfolding signature_of
signature_of-IsValidFor g cert digest none h = record {}
signature_of-IsValidFor g cert digest (some (r, s)) h =
    let (first, second, valid) = h r s refl in
    Returns-then (IsNumber g r) (IsValidFor g cert digest) (pad20 (g.print r)) _
      (pad20-IsNumber g r first)
      (λ x e.
        Returns-then (IsNumber g s) (IsValidFor g cert digest) (pad20 (g.print s)) _
          (pad20-IsNumber g s second)
          (λ y f.
            (omega (arith, length-append x y, e.0, f.0), rw (both_numbers g r s x y e f) valid)))

-- If the private key belongs to the certificate, then whatever is signed is accepted with the
-- certificate, and has 40 bytes, also where its numbers have fewer bytes.
pub crypto_aacs_sign-IsVerified :
    (g : Gcrypt) (cert priv_key nonce point : List ℕ)
    → IsKeyPair g cert priv_key
    → Returns
        (IsVerified g cert (take 20 nonce ++ take 40 point))
        (crypto_aacs_sign g cert priv_key nonce point)
unfolding crypto_aacs_sign crypto_aacs_verify aacs_verify key_len curve_of
crypto_aacs_sign-IsVerified g cert priv_key nonce point pair =
    let digest = sexp_hash g (take 20 nonce ++ take 40 point) sha1 in
    accepted (signature_of g (g.sign (private_key g cert priv_key) digest)) (
      signature_of-IsValidFor g cert digest (g.sign (private_key g cert priv_key) digest)
        (pair digest))
  where
    accepted :
        (m : Run (Option (List ℕ)))
        → Returns (IsValidFor g cert (sexp_hash g (take 20 nonce ++ take 40 point) sha1)) m
        → Returns (IsVerified g cert (take 20 nonce ++ take 40 point)) m
    accepted (ok none) h = h
    accepted (ok (some signature)) h = h
    accepted fault h = h
    accepted stuck h = h

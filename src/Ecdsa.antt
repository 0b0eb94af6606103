-- ===== src/Ecdsa.antt =====
-- src/libaacs/crypto.c, the signatures and key points over libgcrypt. The hashes, signatures and
-- numbers of libgcrypt, and the multiplication of points in src/libaacs/ec.c, which is a copy of a
-- file of libgcrypt, are parameters. A failure to build an expression is one of the call that uses
-- it.
pub mod Agreement
pub mod Licensor
pub mod Signed
pub mod Examples
use libaacs.Common.{
  ℕ, ◌-◌, Bool, Option, none, some, List, [], ◌∷◌, ◌++◌, ltb, if◌then◌else◌, length, take, drop,
  replicate, Run, ok, fault, ◌>>=◌, ◌>>◌,
}

-- `GCRY_MD_SHA1` and `GCRY_MD_SHA256`.
pub data Hash : Type 0 where
  sha1 sha256 : Hash

-- The expressions "(ecdsa (p ...) ...)" of the curve of AACS, and "NIST P-256".
pub data CurveName : Type 0 where
  aacs1_curve aacs2_curve : CurveName

-- The expression of a key: the point "<format>||Q.x||Q.y", and the number `d` of a private key.
pub record Key : Type 0 where
  pub curve : CurveName
  pub q : List ℕ
  pub d : Option ℕ

-- `gcry_md_hash_buffer`, `gcry_mpi_scan` and `gcry_mpi_print` in the format `GCRYMPI_FMT_USG`,
-- `gcry_pk_sign` of a number, which gives `r` and `s`, `gcry_pk_verify`, and
-- `_gcry_mpi_ec_mul_point` with `_gcry_mpi_ec_get_affine` on the curve of AACS.
pub record Gcrypt : Type 0 where
  pub hash : Hash → List ℕ → List ℕ
  pub scan : List ℕ → ℕ
  pub print : ℕ → List ℕ
  pub sign : Key → ℕ → Option (ℕ × ℕ)
  pub verify : Key → ℕ → ℕ × ℕ → Bool
  pub mul : ℕ → ℕ × ℕ → ℕ × ℕ

-- `G_x` and `G_y` of `_aacs_curve_init`.
abbrev pub curve_g_x : List ℕ
curve_g_x =
    0x2E ∷ 0x64 ∷ 0xFC ∷ 0x22 ∷ 0x57 ∷ 0x83 ∷ 0x51 ∷ 0xE6 ∷ 0xF4 ∷ 0xCC ∷ 0xA7 ∷ 0xEB ∷ 0x81 ∷ 0xD0
    ∷ 0xA4 ∷ 0xBD ∷ 0xC5 ∷ 0x4C ∷ 0xCE ∷ 0xC6 ∷ []

abbrev pub curve_g_y : List ℕ
curve_g_y =
    0x09 ∷ 0x14 ∷ 0xA2 ∷ 0x5D ∷ 0xD0 ∷ 0x54 ∷ 0x42 ∷ 0x88 ∷ 0x9D ∷ 0xB4 ∷ 0x55 ∷ 0xC7 ∷ 0xF2 ∷ 0x3C
    ∷ 0x9A ∷ 0x07 ∷ 0x07 ∷ 0xF5 ∷ 0xCB ∷ 0xB9 ∷ []

-- A number that was printed to 20 bytes, moved to their end behind zeros. Where it does not fit,
-- the count of its bytes has no value.
unfoldable pub pad20 : List ℕ → Run (List ℕ)
pad20 bytes = if ltb 20 (length bytes) then fault else ok (replicate (20 - length bytes) 0 ++ bytes)

-- The lowest 128 bits of a number that was printed. With fewer bytes the copy starts in front of
-- the buffer.
unfoldable pub last16 : List ℕ → Run (List ℕ)
last16 bytes = if ltb (length bytes) 16 then fault else ok (drop (length bytes - 16) bytes)

-- `key_len`.
unfoldable pub key_len : Hash → ℕ
key_len sha1 = 20
key_len sha256 = 32

unfoldable pub curve_of : Hash → CurveName
curve_of sha1 = aacs1_curve
curve_of sha256 = aacs2_curve

-- `GPG_ERR_UNSUPPORTED_CERT` and the errors of libgcrypt are false.
module _ (g : Gcrypt) where
  unfoldable pub sexp_key : List ℕ → List ℕ → Option (List ℕ) → CurveName → ℕ → Key
  sexp_key q_x q_y none curve len = record {
    curve = curve;
    q = 0x04 ∷ (take len q_x ++ take len q_y);
    d = none;
  }
  sexp_key q_x q_y (some priv_key) curve len = record {
    curve = curve;
    q = 0x04 ∷ (take len q_x ++ take len q_y);
    d = some (g.scan (take len priv_key));
  }

  unfoldable pub sexp_hash : List ℕ → Hash → ℕ
  sexp_hash block type = g.scan (g.hash type block)

  unfoldable pub sexp_signature : List ℕ → ℕ → ℕ × ℕ
  sexp_signature signature len =
      (g.scan (take len signature), g.scan (take len (drop len signature)))

  -- `r` and `s` as 20 bytes each.
  unfoldable pub signature_of : Option (ℕ × ℕ) → Run (Option (List ℕ))
  unfolding pad20
  signature_of none = ok none
  signature_of (some (r, s)) = do
    first ← pad20 (g.print r)
    second ← pad20 (g.print s)
    ok (some (first ++ second))

  unfoldable pub crypto_aacs_sign : List ℕ → List ℕ → List ℕ → List ℕ → Run (Option (List ℕ))
  unfolding sexp_key sexp_hash signature_of
  crypto_aacs_sign cert priv_key nonce point =
      let key = sexp_key (drop 12 cert) (drop 32 cert) (some priv_key) aacs1_curve 20 in
      signature_of (g.sign key (sexp_hash (take 20 nonce ++ take 40 point) sha1))

  unfoldable pub aacs_verify : List ℕ → Hash → List ℕ → List ℕ → List ℕ → Bool
  unfolding sexp_key sexp_hash sexp_signature key_len curve_of
  aacs_verify signature type q_x q_y message =
      g.verify (sexp_key q_x q_y none (curve_of type) (key_len type)) (sexp_hash message type)
        (sexp_signature signature (key_len type))

  unfoldable pub crypto_aacs_verify : List ℕ → List ℕ → List ℕ → Bool
  unfolding aacs_verify
  crypto_aacs_verify cert signature message =
      aacs_verify signature sha1 (drop 12 cert) (drop 32 cert) message

  -- `priv_key` is a number of 20 bytes, and so are both coordinates of the point.
  unfoldable pub crypto_create_bus_key : List ℕ → List ℕ → Run (List ℕ)
  unfolding last16
  crypto_create_bus_key priv_key drive_key_point =
      let q : ℕ × ℕ =
        (g.scan (take 20 drive_key_point), g.scan (take 20 (drop 20 drive_key_point))) in
      last16 (g.print (g.mul (g.scan (take 20 priv_key)) q).0)

  -- The key point of `host_key`, which is random.
  unfoldable pub crypto_create_host_key_pair : List ℕ → Run (List ℕ)
  unfolding pad20
  crypto_create_host_key_pair host_key = do
    let q = g.mul (g.scan (take 20 host_key)) (g.scan curve_g_x, g.scan curve_g_y)
    x ← pad20 (g.print q.0)
    y ← pad20 (g.print q.1)
    ok (x ++ y)

-- ===== src/Mmc/Honest/Examples.antt =====
-- A drive that follows the protocol, with a toy version of libgcrypt.
use libaacs.Common.{
  ℕ, ◌+◌, ◌*◌, ◌%◌, ◌^◌, bit_and, ◌≡◌, refl, false, ◌&&◌, Option, none, some, List, [], ◌∷◌, ◌++◌,
  arith, ◌==◌, if◌then◌else◌, take, drop, replicate, byte, word16, slice,
}
use libaacs.Crypto.{Aes, crypto_aes_cmac_16, xor_bytes}
use libaacs.Mmc.{Command, Drive, Mmc, report_key_cmd, send_key_cmd, disc_structure_cmd, agid_format}
use libaacs.Mmc.Auth.{Curve, mmc_success, mmc_read_auth, vid_request}
use libaacs.Mmc.Exchange.{Reply, HasSizes, Follows}
use libaacs.Mmc.Honest.{GivesVid, MadeOf, IsLicensed, IsSide, mmc_read_auth-mmc_success}
use libaacs.Ecdsa.{
  Gcrypt, curve_g_x, curve_g_y, crypto_aacs_sign, crypto_aacs_verify, crypto_create_bus_key,
  crypto_create_host_key_pair,
}
use libaacs.Ecdsa.Licensor.{crypto_aacs_verify_aacsla}
use libaacs.Ecdsa.Signed.{IsKeyPair}

number_of : List ℕ → ℕ → ℕ
number_of [] n = n
number_of (c ∷ s) n = number_of s (n * 256 + c)

abbrev bytes20 : ℕ → List ℕ
bytes20 n = replicate 19 0 ++ (n ∷ [])

-- Numbers below 256 in 20 bytes, multiplication modulo 251, and one signature.
abbrev toy : Gcrypt
toy = record {
  hash = λ type block. 1 ∷ [];
  scan = λ bytes. number_of bytes 0;
  print = λ n. bytes20 n;
  sign = λ key h. some (1, 5);
  verify = λ key h sig. sig.0 == 1 && sig.1 == 5;
  mul = λ k q. (k * q.0 % 251, q.1 % 251);
}

abbrev toy_signature : List ℕ
toy_signature = bytes20 1 ++ bytes20 5

abbrev toy_curve : Curve
toy_curve = record {
  verify_aacsla = crypto_aacs_verify_aacsla toy;
  verify = crypto_aacs_verify toy;
  sign = λ cert key nonce point. some toy_signature;
  create_bus_key =
      λ key point. drop 4 (bytes20 (number_of (take 20 key) 0 * number_of (take 20 point) 0 % 251));
}

toy_curve-MadeOf : MadeOf toy toy_curve
unfolding number_of crypto_aacs_sign crypto_create_bus_key
toy_curve-MadeOf = record {
  licenses = λ signature message. refl;
  verifies = λ cert signature message. refl;
  signs = λ cert priv_key nonce point o e. cc e;
  makes_bus_key = λ key point bus_key e. cc e;
}

abbrev toy_aes : Aes
toy_aes = record { encrypt = λ key block. some block; decrypt = λ key block. some block }

-- The point of a small private key.
point_of_key : ℕ → List ℕ
unfolding number_of
point_of_key k = bytes20 (k * number_of curve_g_x 0 % 251) ++ bytes20 (number_of curve_g_y 0 % 251)

abbrev toy_cert : ℕ → List ℕ
toy_cert type = (type ∷ 0 ∷ 0 ∷ 0x5c ∷ replicate 48 0) ++ toy_signature

abbrev host : Mmc
host = record {
  sent = [];
  host_nonce = replicate 20 1;
  host_key = bytes20 6;
  host_key_point = point_of_key 6;
  drive_cert = replicate 92 0;
  read_drive_cert = false;
  aacs_version = 1;
}

abbrev reply : Reply
reply = record {
  nonce = replicate 20 7;
  cert = toy_cert 1;
  point = point_of_key 11;
  signature = toy_signature;
}

abbrev vid : List ℕ
vid = replicate 16 9

abbrev to_report : ℕ → Option (List ℕ)
to_report format =
    if format == 0
    then some (0 ∷ 6 ∷ 0 ∷ 0 ∷ 0 ∷ 0 ∷ 0 ∷ (1 * 2 ^ 6) ∷ [])
    else if format == 1
    then some ((0 ∷ 0x72 ∷ 0 ∷ 0 ∷ []) ++ (reply.nonce ++ reply.cert))
    else if format == 2
    then some ((0 ∷ 0x52 ∷ 0 ∷ 0 ∷ []) ++ (reply.point ++ reply.signature))
    else none

-- The AES of the toy encrypts nothing, and the MAC of the volume id is the id.
abbrev honest : Drive
honest before c =
    if byte c.cmd 0 == 0xa3
    then some []
    else if byte c.cmd 0 == 0xad
    then some ((0 ∷ 0x22 ∷ 0 ∷ 0 ∷ []) ++ (vid ++ vid))
    else to_report (bit_and (byte c.cmd 10) 0x3f)

honest-Follows :
    (before : List Command)
    → Follows honest 1 host.host_nonce host.host_key_point (toy_cert 2) toy_signature reply before
unfolding byte report_key_cmd send_key_cmd agid_format
honest-Follows before = record {
  takes_cert = ([], refl);
  gives_cert = refl;
  gives_key = refl;
  takes_key = ([], refl);
}

honest-GivesVid : GivesVid honest 1 host (toy_cert 2) toy_signature reply vid vid
unfolding byte report_key_cmd disc_structure_cmd agid_format
honest-GivesVid = record {
  gives_agid = λ before. refl;
  follows = honest-Follows;
  gives_vid = λ before. refl;
  vid_size = refl;
  mac_size = refl;
}

reply-HasSizes : HasSizes reply
unfolding point_of_key
reply-HasSizes = record {
  nonce_size = refl;
  cert_size = refl;
  point_size = refl;
  signature_size = refl;
}

cert-IsLicensed : IsLicensed toy (toy_cert 1)
unfolding byte word16 slice crypto_aacs_verify_aacsla number_of
cert-IsLicensed = record { of_drive = refl; has_length = refl; signed = refl }

cert-IsKeyPair : (cert : List ℕ) → IsKeyPair toy cert (replicate 20 1)
unfolding number_of
cert-IsKeyPair cert h a b e =
    let ea : 1 ≡ a = cc e in
    let eb : 5 ≡ b = cc e in rw (← ea) (rw (← eb) ((omega arith, refl), (omega arith, refl), refl))

host-IsSide :
    IsSide toy (bytes20 6) (point_of_key 6) (replicate 20 1) (toy_cert 2) reply.nonce toy_signature
unfolding number_of point_of_key crypto_create_host_key_pair crypto_aacs_sign
host-IsSide = record {
  makes_point = refl;
  has_coordinates = ((omega arith, refl), (omega arith, refl));
  owns = cert-IsKeyPair (toy_cert 2);
  signs = refl;
}

drive-IsSide :
    IsSide toy (bytes20 11) reply.point (replicate 20 1) reply.cert host.host_nonce toy_signature
unfolding number_of point_of_key crypto_create_host_key_pair crypto_aacs_sign
drive-IsSide = record {
  makes_point = refl;
  has_coordinates = ((omega arith, refl), (omega arith, refl));
  owns = cert-IsKeyPair reply.cert;
  signs = refl;
}

abbrev shared_key : List ℕ
shared_key = toy_curve.create_bus_key (bytes20 11) (point_of_key 6)

mmc_read_auth-mmc_success_example :
    (mmc_read_auth toy_aes toy_curve honest host (replicate 20 1) (toy_cert 2) vid_request).1
    ≡ mmc_success vid
unfolding number_of point_of_key crypto_create_bus_key crypto_aes_cmac_16 xor_bytes
mmc_read_auth-mmc_success_example =
    mmc_read_auth-mmc_success toy toy_curve toy_aes honest host 1 (replicate 20 1) (toy_cert 2)
      toy_signature (replicate 20 1) (bytes20 11) shared_key vid vid reply toy_curve-MadeOf
      reply-HasSizes honest-GivesVid cert-IsLicensed host-IsSide drive-IsSide refl refl refl

-- ===== src/Ecdsa/Licensor.antt =====
-- src/libaacs/crypto.c, the signatures of the licensor: certificates and content certificates.
use libaacs.Common.{ℕ, Bool, false, List, [], ◌∷◌, ◌==◌, if◌then◌else◌, Run, ok, ◌>>=◌, byte_at}
use libaacs.Ecdsa.{Gcrypt, sha1, sha256, aacs_verify}

abbrev pub aacs_la_pubkey_x : List ℕ
aacs_la_pubkey_x =
    0x63 ∷ 0xC2 ∷ 0x1D ∷ 0xFF ∷ 0xB2 ∷ 0xB2 ∷ 0x79 ∷ 0x8A ∷ 0x13 ∷ 0xB5 ∷ 0x8D ∷ 0x61 ∷ 0x16 ∷ 0x6C
    ∷ 0x4E ∷ 0x4A ∷ 0xAC ∷ 0x8A ∷ 0x07 ∷ 0x72 ∷ []

abbrev pub aacs_la_pubkey_y : List ℕ
aacs_la_pubkey_y =
    0x13 ∷ 0x7E ∷ 0xC6 ∷ 0x38 ∷ 0x81 ∷ 0x8F ∷ 0xD9 ∷ 0x8F ∷ 0xA4 ∷ 0xC3 ∷ 0x0B ∷ 0x99 ∷ 0x67 ∷ 0x28
    ∷ 0xBF ∷ 0x4B ∷ 0x91 ∷ 0x7F ∷ 0x6A ∷ 0x27 ∷ []

abbrev pub aacs_cc_pubkey_x : List ℕ
aacs_cc_pubkey_x =
    0x78 ∷ 0x4C ∷ 0xF5 ∷ 0xC3 ∷ 0x63 ∷ 0x97 ∷ 0xA4 ∷ 0x39 ∷ 0x04 ∷ 0x06 ∷ 0xA4 ∷ 0x9F ∷ 0x78 ∷ 0x00
    ∷ 0xC7 ∷ 0x7D ∷ 0xE9 ∷ 0x0C ∷ 0xB3 ∷ 0x4C ∷ []

abbrev pub aacs_cc_pubkey_y : List ℕ
aacs_cc_pubkey_y =
    0x00 ∷ 0x1D ∷ 0xF3 ∷ 0x6B ∷ 0x8F ∷ 0x2E ∷ 0xCF ∷ 0x83 ∷ 0xCD ∷ 0xEE ∷ 0x43 ∷ 0x8F ∷ 0x7F ∷ 0xD1
    ∷ 0xF4 ∷ 0x80 ∷ 0x6F ∷ 0xD2 ∷ 0x0D ∷ 0xE7 ∷ []

abbrev pub aacs2_cc_pubkey_x : List ℕ
aacs2_cc_pubkey_x =
    0xE7 ∷ 0x0D ∷ 0x49 ∷ 0xD2 ∷ 0x6F ∷ 0x45 ∷ 0xEA ∷ 0xA7 ∷ 0x36 ∷ 0x93 ∷ 0x9D ∷ 0x72 ∷ 0x88 ∷ 0x2E
    ∷ 0xD8 ∷ 0xFB ∷ 0xA1 ∷ 0x60 ∷ 0x70 ∷ 0x26 ∷ 0x96 ∷ 0x39 ∷ 0x49 ∷ 0x97 ∷ 0x04 ∷ 0x96 ∷ 0xC9
    ∷ 0x10 ∷ 0xEA ∷ 0x5C ∷ 0x9D ∷ 0xC2 ∷ []

abbrev pub aacs2_cc_pubkey_y : List ℕ
aacs2_cc_pubkey_y =
    0xD1 ∷ 0xF5 ∷ 0x89 ∷ 0x7C ∷ 0xEC ∷ 0xB8 ∷ 0x44 ∷ 0x01 ∷ 0x4E ∷ 0x0F ∷ 0xB0 ∷ 0x8C ∷ 0xC7 ∷ 0x6E
    ∷ 0x20 ∷ 0xE8 ∷ 0x54 ∷ 0x5E ∷ 0xCC ∷ 0x27 ∷ 0x1E ∷ 0xE4 ∷ 0x6C ∷ 0x4A ∷ 0xEF ∷ 0x81 ∷ 0xD9
    ∷ 0x16 ∷ 0x9B ∷ 0xF8 ∷ 0x41 ∷ 0x72 ∷ []

module _ (g : Gcrypt) where
  unfoldable pub crypto_aacs_verify_aacsla : List ℕ → List ℕ → Bool
  unfolding aacs_verify
  crypto_aacs_verify_aacsla signature message =
      aacs_verify g signature sha1 aacs_la_pubkey_x aacs_la_pubkey_y message

  -- The first byte says which AACS the certificate is for.
  unfoldable pub crypto_aacs_verify_aacscc : List ℕ → List ℕ → Run Bool
  crypto_aacs_verify_aacscc signature message = do
    type ← byte_at message 0
    if type == 0x00
        then ok (aacs_verify g signature sha1 aacs_cc_pubkey_x aacs_cc_pubkey_y message)
        else if type == 0x10
        then ok (aacs_verify g signature sha256 aacs2_cc_pubkey_x aacs2_cc_pubkey_y message)
        else ok false

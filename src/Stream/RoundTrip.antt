-- ===== src/Stream/RoundTrip.antt =====
-- A unit of a stream, encrypted as a disc and a drive encrypt it, through `aacs_decrypt_unit` of
-- aacs.c.
use libaacs.Common.{
  ℕ, zero, suc, ◌*◌, ◌≤◌, ◌≡◌, refl, ap, ◌∙◌, inl, inr, Bool, ◌&&◌, List, ◌++◌, arith,
  if◌then◌else◌, Bool-cases, length, take, drop, length-append, ok, length-drop, length-take,
  take-append, drop-append,
}
use libaacs.Common.{take-append-drop}
use mathlib.Core.List.{append_assoc}
use libaacs.Crypto.{Aes}
use libaacs.Stream.{
  Aacs, Cbc, verify_ts, unit_key, block_key, decrypt_unit, decrypt_sectors, is_capable,
  decrypt_unit_bus,
}

-- CBC encryption, which decryption takes back, and which keeps the length.
pub record IsInverse (cbc enc : Cbc) : Type 0 where
  pub decrypts : (key bytes : List ℕ) → cbc key (enc key bytes) ≡ bytes
  pub same_length : (key bytes : List ℕ) → length (enc key bytes) ≡ length bytes

-- The disc: all but the first 16 bytes are encrypted with the key of the unit.
abbrev pub encrypt_unit : Cbc → List ℕ → List ℕ → List ℕ
encrypt_unit enc key ts = take 16 ts ++ enc key (drop 16 ts)

-- The drive: so is each sector of 2048 bytes, with the read data key.
abbrev pub encrypt_sectors : ℕ → Cbc → List ℕ → List ℕ → List ℕ
encrypt_sectors zero enc key bytes = bytes
encrypt_sectors (suc n) enc key bytes =
    encrypt_unit enc key (take 2048 bytes) ++ encrypt_sectors n enc key (drop 2048 bytes)

-- A drive encrypts what it sends only if drive and disc have bus encryption.
abbrev pub on_bus : Cbc → Aacs → List ℕ → List ℕ
on_bus enc aacs unit =
    if aacs.bee && is_capable aacs.bec then encrypt_sectors 3 enc aacs.read_data_key unit else unit

decrypt_unit_with :
    (aes : Aes) (cbc : Cbc) (keys : List (List ℕ)) (buf : List ℕ) (i : ℕ) (key block : List ℕ)
    → unit_key keys i ≡ ok key
    → block_key aes key (take 16 buf) ≡ ok block
    → decrypt_unit aes cbc keys buf i ≡ ok (verify_ts (take 16 buf ++ cbc block (drop 16 buf)))
unfolding decrypt_unit
decrypt_unit_with aes cbc keys buf i key block e f =
    let out : List ℕ × Bool = verify_ts (take 16 buf ++ cbc block (drop 16 buf)) in
    let same : decrypt_unit aes cbc keys buf i ≡ ok out = rw (e, f) refl in same

module _ (cbc enc : Cbc) (inverse : IsInverse cbc enc) where
  pub length-encrypt_unit :
      (key ts : List ℕ) → 16 ≤ length ts → length (encrypt_unit enc key ts) ≡ length ts
  length-encrypt_unit key ts h = omega (
    arith,
    length-append (take 16 ts) (enc key (drop 16 ts)),
    length-take 16 ts h,
    inverse.same_length key (drop 16 ts),
    length-drop 16 ts,
  )

  sector_back :
      (key sector rest : List ℕ)
      → length sector ≡ 2048
      → take 16 (encrypt_unit enc key sector ++ rest)
          ++ cbc key (drop 16 (take 2048 (encrypt_unit enc key sector ++ rest)))
        ≡ sector
  sector_back key sector rest len =
      let head : length (take 16 sector) ≡ 16 = length-take 16 sector (omega arith) in
      let size : length (encrypt_unit enc key sector) ≡ 2048 =
        length-encrypt_unit key sector (omega arith) ∙ len in
      rw
        (
          take-append 2048 (encrypt_unit enc key sector) rest size,
          drop-append 16 (take 16 sector) (enc key (drop 16 sector)) head,
          append_assoc (take 16 sector) (enc key (drop 16 sector)) rest,
          take-append 16 (take 16 sector) (enc key (drop 16 sector) ++ rest) head,
          inverse.decrypts key (drop 16 sector),
        )
        (take-append-drop 16 sector)

  decrypt_sectors-encrypt_sectors :
      (n : ℕ) (key bytes : List ℕ)
      → length bytes ≡ n * 2048
      → decrypt_sectors n cbc key (encrypt_sectors n enc key bytes) ≡ bytes
  unfolding decrypt_sectors
  decrypt_sectors-encrypt_sectors zero key bytes len = refl
  decrypt_sectors-encrypt_sectors (suc n) key bytes len =
      let sector = take 2048 bytes in
      let first : length sector ≡ 2048 = length-take 2048 bytes (omega arith) in
      let size : length (encrypt_unit enc key sector) ≡ 2048 =
        length-encrypt_unit key sector (omega arith) ∙ first in
      let rest = encrypt_sectors n enc key (drop 2048 bytes) in
      rw
        (
          drop-append 2048 (encrypt_unit enc key sector) rest size,
          sector_back key sector rest first,
          decrypt_sectors-encrypt_sectors n key (drop 2048 bytes)
              (omega (arith, length-drop 2048 bytes)),
        )
        (take-append-drop 2048 bytes)

  pub decrypt_unit_bus-on_bus :
      (aacs : Aacs) (unit : List ℕ)
      → length unit ≡ 6144
      → decrypt_unit_bus cbc aacs (on_bus enc aacs unit) ≡ unit
  unfolding decrypt_unit_bus
  decrypt_unit_bus-on_bus aacs unit len = elim (Bool-cases (aacs.bee && is_capable aacs.bec)) [
    | inl encrypts ↦ rw encrypts (decrypt_sectors-encrypt_sectors 3 aacs.read_data_key unit len)
    | inr plain ↦ rw plain refl
  ]

  pub decrypt_unit-encrypt_unit :
      (aes : Aes) (keys : List (List ℕ)) (i : ℕ) (key block ts : List ℕ)
      → 16 ≤ length ts
      → unit_key keys i ≡ ok key
      → block_key aes key (take 16 ts) ≡ ok block
      → decrypt_unit aes cbc keys (encrypt_unit enc block ts) i ≡ ok (verify_ts ts)
  decrypt_unit-encrypt_unit aes keys i key block ts h e f =
      let head : length (take 16 ts) ≡ 16 = length-take 16 ts h in
      let plain : take 16 (encrypt_unit enc block ts) ≡ take 16 ts =
        take-append 16 (take 16 ts) (enc block (drop 16 ts)) head in
      let cipher : drop 16 (encrypt_unit enc block ts) ≡ enc block (drop 16 ts) =
        drop-append 16 (take 16 ts) (enc block (drop 16 ts)) head in
      let whole : take 16 (encrypt_unit enc block ts)
            ++ cbc block (drop 16 (encrypt_unit enc block ts))
          ≡ ts =
        rw (plain, cipher, inverse.decrypts block (drop 16 ts)) (take-append-drop 16 ts) in
      decrypt_unit_with aes cbc keys (encrypt_unit enc block ts) i key block e (rw plain f)
      ∙ ap (λ bytes. ok (verify_ts bytes)) whole

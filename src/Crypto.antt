-- ===== src/Crypto.antt =====
-- src/libaacs/crypto.c: the key derivation functions over AES-128. AES is libgcrypt's, so the block
-- cipher is a parameter; `none` is an error code of libgcrypt.
use libaacs.Common.{
  ℕ, ◌+◌, ◌*◌, ◌/◌, ◌%◌, ◌^◌, bit_and, bit_xor, Option, none, some, List, [], ◌∷◌, ◌==◌,
  if◌then◌else◌, get_or, set, replicate,
}

-- The calls of libgcrypt behind `crypto_aes128e` and `crypto_aes128d`: a key and a block, each of 16
-- bytes, to a block.
pub record Aes : Type 0 where
  pub encrypt : List ℕ → List ℕ → Option (List ℕ)
  pub decrypt : List ℕ → List ℕ → Option (List ℕ)

infixl 5 ◌>>=?◌
abbrev pub ◌>>=?◌ {ℓ κ} : {A : Type ℓ} {B : Type κ} → Option A → (A → Option B) → Option B
none >>=? f = none
some a >>=? f = f a

-- `dst[a] ^= src[a]` over the bytes of both.
unfoldable pub xor_bytes : List ℕ → List ℕ → List ℕ
xor_bytes [] ys = []
xor_bytes (x ∷ xs) [] = x ∷ xs
xor_bytes (x ∷ xs) (y ∷ ys) = bit_xor x y ∷ xor_bytes xs ys

-- The seed of AES-G3, its last byte increased by `inc`.
unfoldable pub g3_seed : ℕ → List ℕ
g3_seed inc =
    0x7B
    ∷ 0x10
    ∷ 0x3C
    ∷ 0x5D
    ∷ 0xCB
    ∷ 0x08
    ∷ 0xC4
    ∷ 0xE5
    ∷ 0x1A
    ∷ 0x27
    ∷ 0xB0
    ∷ 0x17
    ∷ 0x99
    ∷ 0x05
    ∷ 0x3B
    ∷ ((0xD9 + inc) % 2 ^ 8)
    ∷ []

module _ (aes : Aes) where
  pub aesg3 : List ℕ → ℕ → Option (List ℕ)
  aesg3 src_key inc =
      aes.decrypt src_key (g3_seed inc) >>=? λ dst. some (xor_bytes dst (g3_seed inc))

  -- The left child, the right child and the processing key.
  unfoldable pub crypto_aesg3 : List ℕ → Option (List ℕ × List ℕ × List ℕ)
  unfolding aesg3
  crypto_aesg3 key = aesg3 key 0 >>=? λ left.
      aesg3 key 1 >>=? λ pk. aesg3 key 2 >>=? λ right. some (left, right, pk)

-- The bit that comes in from the byte behind.
carry : List ℕ → ℕ
carry [] = 0
carry (x ∷ xs) = x / 2 ^ 7

-- `(src[i] << 1) | overflow`, whose lowest bit is free.
pub shl_128 : List ℕ → List ℕ
unfolding carry
shl_128 [] = []
shl_128 (x ∷ xs) = (x * 2 % 2 ^ 8 + carry xs) ∷ shl_128 xs

-- One step of the doubling that makes the subkeys: shift, and reduce if the top bit went out.
double_block : List ℕ → List ℕ
unfolding shl_128
double_block key =
    let shifted = shl_128 key in
    if bit_and (get_or key 0 0) 0x80 == 0
    then shifted
    else set shifted 15 (bit_xor (get_or shifted 15 0) 0x87)

module _ (aes : Aes) where
  -- `_cmac_key`: both subkeys, from the encryption of the empty block.
  cmac_key : List ℕ → Option (List ℕ × List ℕ)
  unfolding double_block
  cmac_key aes_key = aes.encrypt aes_key (replicate 16 0) >>=? λ key.
      let k1 = double_block key in some (k1, double_block k1)

  unfoldable pub crypto_aes_cmac_16 : List ℕ → List ℕ → Option (List ℕ)
  unfolding cmac_key
  crypto_aes_cmac_16 block aes_key =
      cmac_key aes_key >>=? λ keys. aes.encrypt aes_key (xor_bytes block keys.0)

-- ===== src/Stream/Examples.antt =====
-- The theorems on the stream at concrete inputs.
use libaacs.Common.{
  ℕ, zero, suc, ◌+◌, ◌-◌, ◌*◌, ◌<◌, ◌≡◌, refl, ◌∙◌, inl, inr, true, false, none, some, List, [],
  ◌∷◌, ◌++◌, map, arith, length, get_or, take, replicate, length-map, ok, Returns, byte,
  byte-append,
}
use libaacs.Crypto.{Aes, xor_bytes}
use libaacs.UnitKey.{UnitKeys}
use libaacs.Stream.{
  decrypted, is_encrypted, unit_key, block_key, decrypt_unit, Aacs, Cbc, verify_from, verify_ts,
  aacs_decrypt_unit,
}
use libaacs.Stream.Ready.{IsReady, IsEncrypting, LeavesReady, aacs_decrypt_unit-LeavesReady}
use libaacs.Stream.Cleared.{HasSync, IsCleared}
use libaacs.Stream.RoundTrip.{IsInverse, encrypt_unit, on_bus}
use libaacs.Stream.Recovered.{IsChosen, with_unit, aacs_decrypt_unit-encrypt_unit}
use libaacs.Stream.Packets.{AreClear, verify_ts-AreClear}

abbrev plain_aes : Aes
plain_aes = record { encrypt = λ key block. some block; decrypt = λ key block. some block }

plain_aes-IsEncrypting : IsEncrypting plain_aes
plain_aes-IsEncrypting = λ key block. (block, refl)

abbrev plain_cbc : Cbc
plain_cbc = λ key bytes. bytes

-- Two keys, and one title, in the second unit.
abbrev sample : Aacs
sample = record {
  uk = some (record {
    num_bdmv_dir = 1;
    app_type = 1;
    use_skb_mkb = 0;
    num_uk = 2;
    uk = some (replicate 2 (replicate 16 0));
    enc_uk = none;
    num_titles = 1;
    title_cps_unit = some (0 ∷ 0 ∷ 1 ∷ []);
  });
  current_cps_unit = 0;
  cps_unit_selected = false;
  bee = true;
  bec = some true;
  read_data_key = replicate 16 0;
}

sample-IsReady : IsReady sample
sample-IsReady = (
  (refl, (inr refl, (inr refl, (inl (omega arith), record {}))), omega arith),
  (refl, omega arith, omega arith),
  inr refl,
)

aacs_decrypt_unit-LeavesReady_example :
    Returns LeavesReady (aacs_decrypt_unit plain_aes plain_cbc sample (0xff ∷ replicate 300 0x47))
aacs_decrypt_unit-LeavesReady_example =
    aacs_decrypt_unit-LeavesReady plain_aes plain_cbc sample (0xff ∷ replicate 300 0x47)
      plain_aes-IsEncrypting sample-IsReady

-- Packets with the copy permission bits set.
abbrev stream_of : ℕ → List ℕ
stream_of zero = []
stream_of (suc n) = 0xff ∷ 0 ∷ 0 ∷ 0 ∷ 0x47 ∷ replicate 187 0 ++ stream_of n

verify_ts-AreClear_example : AreClear 32 0 (verify_ts (stream_of 32)).0
unfolding verify_ts verify_from byte
verify_ts-AreClear_example = verify_ts-AreClear (stream_of 32) refl

-- Every byte is moved by the first byte of the key, and a block key is the key and the plain bytes.
abbrev moving_aes : Aes
moving_aes = record { encrypt = λ key block. some key; decrypt = λ key block. some block }

abbrev moved_back : Cbc
moved_back = λ key bytes. map (λ c. c - get_or key 0 0) bytes

abbrev moved : Cbc
moved = λ key bytes. map (λ c. c + get_or key 0 0) bytes

map_back : (k : ℕ) (bytes : List ℕ) → map (λ c. c - k) (map (λ c. c + k) bytes) ≡ bytes
map_back k [] = refl
map_back k (c ∷ bytes) = let here : c + k - k ≡ c = omega arith in rw (here, map_back k bytes) refl

moved-IsInverse : IsInverse moved_back moved
moved-IsInverse = record {
  decrypts = λ key bytes. map_back (get_or key 0 0) bytes;
  same_length = λ key bytes. length-map (λ c. c + get_or key 0 0) bytes;
}

abbrev packet : List ℕ
packet = 0xff ∷ 0 ∷ 0 ∷ 0 ∷ 0x47 ∷ replicate 187 0

stream_of-HasSync : (n : ℕ) → HasSync n 0 (stream_of n)
unfolding byte
stream_of-HasSync zero k h = absurd (omega arith)
stream_of-HasSync (suc n) zero h = refl
stream_of-HasSync (suc n) (suc k) h =
    let there : 0 + 192 * suc k + 4 ≡ length packet + (0 + 192 * k + 4) = omega arith in
    rw there
      (byte-append packet (stream_of n) (0 + 192 * k + 4) ∙ stream_of-HasSync n k (omega arith))

-- The second key encrypted the unit.
abbrev two_keys : List (List ℕ)
two_keys = replicate 16 0 ∷ replicate 16 1 ∷ []

abbrev unit_keys : UnitKeys
unit_keys = record {
  num_bdmv_dir = 1;
  app_type = 1;
  use_skb_mkb = 0;
  num_uk = 2;
  uk = some two_keys;
  enc_uk = none;
  num_titles = 1;
  title_cps_unit = some (0 ∷ 0 ∷ 1 ∷ []);
}

abbrev player : Aacs
player = record sample { uk = some unit_keys; read_data_key = replicate 16 3 }

abbrev block : List ℕ
block = xor_bytes (replicate 16 1) (take 16 (stream_of 32))

second-IsChosen :
    IsChosen moving_aes moved_back player 2 two_keys (encrypt_unit moved block (stream_of 32)) 1
unfolding decrypt_unit unit_key block_key xor_bytes verify_ts verify_from byte
second-IsChosen = inr (refl, omega arith, wrong)
  where
    wrong :
        (j : ℕ)
        → j < 1
        → (o : List ℕ) × (decrypt_unit moving_aes moved_back two_keys
              (encrypt_unit moved block (stream_of 32))
              j
            ≡ ok (o, false))
    wrong zero h = (_, refl)
    wrong (suc j) h = absurd (omega arith)

aacs_decrypt_unit-encrypt_unit_example :
    (out : List ℕ) × IsCleared 32 0 (stream_of 32) out
    × (aacs_decrypt_unit moving_aes moved_back player
          (on_bus moved player (encrypt_unit moved block (stream_of 32)))
        ≡ ok (with_unit player 2 1, out, decrypted))
unfolding is_encrypted unit_key block_key xor_bytes byte
aacs_decrypt_unit-encrypt_unit_example =
    aacs_decrypt_unit-encrypt_unit moved_back moved moving_aes player unit_keys two_keys 1
      (replicate 16 1) block (stream_of 32) moved-IsInverse refl refl refl refl refl refl
      (stream_of-HasSync 32) second-IsChosen

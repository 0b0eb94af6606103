-- ===== src/Stream.antt =====
-- src/libaacs/aacs.c, the stream: the title that is selected, and the decryption of aligned units of
-- 6144 bytes.
pub mod Ready
pub mod Examples
pub mod Packets
pub mod Cleared
pub mod RoundTrip
pub mod Recovered
use libaacs.Common.{
  ℕ, zero, suc, ◌+◌, ◌%◌, ◌^◌, bit_and, Bool, true, false, not, ◌&&◌, ◌||◌, Option, none, some,
  List, [], ◌∷◌, ◌++◌, leb, ◌==◌, if◌then◌else◌, set, take, drop, Run, ok, fault, ◌>>=◌, ◌>>◌, byte,
}
use libaacs.Crypto.{Aes, xor_bytes}
use libaacs.UnitKey.{UnitKeys}

-- The fields of `struct aacs` that the stream needs; `bec` is `none` for -1, "unread".
pub record Aacs : Type 0 where
  pub uk : Option UnitKeys
  pub current_cps_unit : ℕ
  pub cps_unit_selected : Bool
  pub bee : Bool
  pub bec : Option Bool
  pub read_data_key : List ℕ

-- `crypto_aacs_decrypt` in place: the bytes after CBC decryption by libgcrypt with a key.
abbrev pub Cbc : Type 0
Cbc = List ℕ → List ℕ → List ℕ

-- The loop of `_verify_ts` over `n` packets from the byte `i` on: the sync byte is checked, and the
-- copy permission bits are cleared.
unfoldable pub verify_from : ℕ → ℕ → List ℕ → List ℕ × Bool
verify_from zero i buf = (buf, true)
verify_from (suc n) i buf =
    let rest = verify_from n (i + 192) (set buf i (bit_and (byte buf i) 0x3f)) in
    if byte buf (i + 4) == 0x47 then rest else (buf, false)

unfoldable pub verify_ts : List ℕ → List ℕ × Bool
unfolding verify_from
verify_ts buf = verify_from 32 0 buf

-- `uk->uk[i].key`.
unfoldable pub unit_key : List (List ℕ) → ℕ → Run (List ℕ)
unit_key [] i = fault
unit_key (k ∷ ks) zero = ok k
unit_key (k ∷ ks) (suc i) = unit_key ks i

-- If AES fails the key is used without a value.
unfoldable pub block_key : Aes → List ℕ → List ℕ → Run (List ℕ)
block_key aes key plain = elim (aes.encrypt key plain) [
  | none ↦ fault
  | some k ↦ ok (xor_bytes k plain)
]

-- `_decrypt_unit`: the bytes of the output, and whether it is a stream.
unfoldable pub decrypt_unit : Aes → Cbc → List (List ℕ) → List ℕ → ℕ → Run (List ℕ × Bool)
unfolding unit_key block_key verify_ts
decrypt_unit aes cbc keys buf curr_uk = do
  uk ← unit_key keys curr_uk
  key ← block_key aes uk (take 16 buf)
  ok (verify_ts (take 16 buf ++ cbc key (drop 16 buf)))

-- A sector of 2048 bytes; its first 16 bytes are plain.
unfoldable pub decrypt_sectors : ℕ → Cbc → List ℕ → List ℕ → List ℕ
decrypt_sectors zero cbc key buf = buf
decrypt_sectors (suc n) cbc key buf =
    take 16 buf ++ cbc key (drop 16 (take 2048 buf)) ++ decrypt_sectors n cbc key (drop 2048 buf)

-- `aacs->bec > 0`.
unfoldable pub is_capable : Option Bool → Bool
is_capable none = false
is_capable (some bec) = bec

unfoldable pub decrypt_unit_bus : Cbc → Aacs → List ℕ → List ℕ
unfolding decrypt_sectors is_capable
decrypt_unit_bus cbc aacs buf =
    if aacs.bee && is_capable aacs.bec then decrypt_sectors 3 cbc aacs.read_data_key buf else buf

-- Whether `buf[0] & 0xc0`.
unfoldable pub is_encrypted : List ℕ → Bool
is_encrypted buf = not (bit_and (byte buf 0) 0xc0 == 0)

unfoldable pub aacs_decrypt_bus : Cbc → Aacs → List ℕ → List ℕ
unfolding decrypt_unit_bus is_encrypted
aacs_decrypt_bus cbc aacs buf = if is_encrypted buf then decrypt_unit_bus cbc aacs buf else buf

-- The results 1, 0 and -1.
pub data UnitResult : Type 0 where
  decrypted failed no_unit_keys : UnitResult

-- The search for the key, over `n` keys from `i` on: its index and the output.
unfoldable pub try_keys : ℕ → Aes → Cbc → List (List ℕ) → List ℕ → ℕ → Run (Option (ℕ × List ℕ))
unfolding decrypt_unit
try_keys zero aes cbc keys buf i = ok none
try_keys (suc n) aes cbc keys buf i = do
  let rest = try_keys n aes cbc keys buf (i + 1)
  (out, valid) ← decrypt_unit aes cbc keys buf i
  if valid then ok (some (i, out)) else rest

-- In place with the known key.
unfoldable pub with_key : List ℕ × Bool → Aacs → Aacs × List ℕ × UnitResult
with_key (out, true) aacs = (aacs, out, decrypted)
with_key (out, false) aacs = (aacs, out, failed)

-- With the key that was found, if any.
unfoldable pub with_found : Option (ℕ × List ℕ) → Aacs → List ℕ → Aacs × List ℕ × UnitResult
with_found none aacs buf = (aacs, buf, failed)
with_found (some (i, out)) aacs buf =
    (record aacs { current_cps_unit = i % 2 ^ 16; cps_unit_selected = true }, out, decrypted)

-- After the bus encryption is removed.
unfoldable pub decrypt_with :
    Aes → Cbc → Aacs → ℕ → List (List ℕ) → List ℕ → Run (Aacs × List ℕ × UnitResult)
unfolding with_key with_found try_keys decrypt_unit
decrypt_with aes cbc aacs num_uk keys buf =
    if aacs.cps_unit_selected || num_uk == 1
    then (do r ← decrypt_unit aes cbc keys buf aacs.current_cps_unit; ok (with_key r aacs))
    else (do found ← try_keys num_uk aes cbc keys buf 0; ok (with_found found aacs buf))

-- `aacs->uk` and `aacs->uk->uk`.
unfoldable pub keys_of : Option UnitKeys → Option (ℕ × List (List ℕ))
keys_of none = none
keys_of (some uk) = elim uk.uk [ none ↦ none | some keys ↦ some (uk.num_uk, keys) ]

unfoldable pub decrypt_keyed :
    Aes → Cbc → Aacs → Option (ℕ × List (List ℕ)) → List ℕ → Run (Aacs × List ℕ × UnitResult)
unfolding decrypt_with decrypt_unit_bus
decrypt_keyed aes cbc aacs none buf = ok (aacs, buf, no_unit_keys)
decrypt_keyed aes cbc aacs (some (num_uk, keys)) buf =
    decrypt_with aes cbc aacs num_uk keys (decrypt_unit_bus cbc aacs buf)

unfoldable pub aacs_decrypt_unit : Aes → Cbc → Aacs → List ℕ → Run (Aacs × List ℕ × UnitResult)
unfolding decrypt_keyed keys_of is_encrypted
aacs_decrypt_unit aes cbc aacs buf =
    if is_encrypted buf
    then decrypt_keyed aes cbc aacs (keys_of aacs.uk) buf
    else ok (aacs, buf, decrypted)

-- An entry of the title map, which a wrong index leaves.
unfoldable pub title_entry : List ℕ → ℕ → Run ℕ
title_entry [] i = fault
title_entry (u ∷ us) zero = ok u
title_entry (u ∷ us) (suc i) = title_entry us i

-- `_cps_unit`; `none` is -1.
unfoldable pub cps_unit_in : UnitKeys → Option (List ℕ) → ℕ → Run (Option ℕ)
unfolding title_entry
cps_unit_in uk none title = ok none
cps_unit_in uk (some units) title =
    if title == 0xffff
    then (do u ← title_entry units 0; ok (some u))
    else if leb title uk.num_titles
    then (do u ← title_entry units ((title + 1) % 2 ^ 32); ok (some u))
    else ok none

unfoldable pub cps_unit : Aacs → ℕ → Run (Option ℕ)
unfolding cps_unit_in
cps_unit aacs title = elim aacs.uk [
  | none ↦ ok none
  | some uk ↦ cps_unit_in uk uk.title_cps_unit title
]

unfoldable pub select_title_in : Aacs → UnitKeys → Option (List ℕ) → ℕ → Run Aacs
unfolding title_entry
select_title_in aacs uk none title = ok aacs
select_title_in aacs uk (some units) title =
    if title == 0xffff
    then (do
      u ← title_entry units 0
      ok (record aacs { current_cps_unit = u; cps_unit_selected = false }))
    else if leb title uk.num_titles
    then (do
      u ← title_entry units ((title + 1) % 2 ^ 32)
      ok (record aacs { current_cps_unit = u; cps_unit_selected = true }))
    else ok aacs

-- `aacs_select_title`, for a title of 32 bits.
unfoldable pub aacs_select_title : Aacs → ℕ → Run Aacs
unfolding select_title_in
aacs_select_title aacs title = elim aacs.uk [
  | none ↦ ok aacs
  | some uk ↦ select_title_in aacs uk uk.title_cps_unit title
]

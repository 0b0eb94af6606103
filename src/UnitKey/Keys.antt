-- ===== src/UnitKey/Keys.antt =====
-- `_parse_uks` of unit_key.c: which bytes of the file become keys, and the reads past its end.
use libaacs.Common.{
  dec_lt, ℕ, zero, suc, ◌+◌, ◌-◌, ◌*◌, ◌/◌, ◌%◌, ◌^◌, ◌≤◌, ◌<◌, ◌≡◌, refl, ap, Bool, true, false,
  Option, none, some, List, [], ◌∷◌, arith, ltb, same_bytes, length, All, ok, fault, Returns,
  word16, word32, slice, be16_lem, be32_lem, bytes_at_lem, length-slice, bytes_at_past,
}
use libaacs.UnitKey.{UnitKeys, empty_key, enc_keys, copy_keys, aacs2_keys, key_storage, parse_uks}

-- The `n` keys of 16 bytes that follow `pos`, 48 bytes (AACS1) or 64 bytes (AACS2) apart.
abbrev pub keys_after : ℕ → List ℕ → ℕ → ℕ → List (List ℕ)
keys_after zero p pos stride = []
keys_after (suc n) p pos stride = slice p (pos + 48) 16 ∷ keys_after n p (pos + stride) stride

pub keys_after_shape :
    (n : ℕ) (p : List ℕ) (pos stride : ℕ)
    → (length (keys_after n p pos stride) ≡ n)
      × All (λ k. length k ≡ 16) (keys_after n p pos stride)
keys_after_shape zero p pos stride = (refl, tt)
keys_after_shape (suc n) p pos stride =
    let (count, sizes) = keys_after_shape n p (pos + stride) stride in
    (ap suc count, (length-slice p (pos + 48) 16, sizes))

enc_keys-aacs1 :
    (n : ℕ) (p : List ℕ) (pos : ℕ)
    → pos + 48 * n + 16 ≤ length p
    → length p < 2 ^ 31
    → enc_keys n p pos false ≡ ok (keys_after n p pos 48)
unfolding enc_keys
enc_keys-aacs1 zero p pos fits small = refl
enc_keys-aacs1 (suc n) p pos fits small =
    let plain : (pos + 48) % 2 ^ 32 ≡ pos + 48 = omega arith in
    rw
      (
        plain,
        bytes_at_lem p (pos + 48) 16 (omega arith),
        enc_keys-aacs1 n p (pos + 48) (omega arith) small,
      )
      refl

enc_keys-aacs2 :
    (n : ℕ) (p : List ℕ) (pos : ℕ)
    → pos + 64 * n ≤ length p
    → length p < 2 ^ 31
    → enc_keys n p pos true ≡ ok (keys_after n p pos 64)
unfolding enc_keys
enc_keys-aacs2 zero p pos fits small = refl
enc_keys-aacs2 (suc n) p pos fits small =
    let plain : (pos + 48) % 2 ^ 32 ≡ pos + 48 = omega arith in
    let next : (pos + 48 + 16) % 2 ^ 32 ≡ pos + 64 = omega arith in
    rw
      (
        plain,
        next,
        bytes_at_lem p (pos + 48) 16 (omega arith),
        enc_keys-aacs2 n p (pos + 64) (omega arith) small,
      )
      refl

-- Keys 64 bytes apart that the file is too short for are read past its end.
enc_keys-fault :
    (n : ℕ) (p : List ℕ) (pos : ℕ)
    → 0 < n
    → length p < pos + 64 * n
    → pos + 64 * n < 2 ^ 32
    → enc_keys n p pos true ≡ fault
unfolding enc_keys
enc_keys-fault zero p pos some_key short small = absurd (omega arith)
enc_keys-fault (suc n) p pos some_key short small =
    let plain : (pos + 48) % 2 ^ 32 ≡ pos + 48 = omega arith in
    let next : (pos + 48 + 16) % 2 ^ 32 ≡ (pos + 64) % 2 ^ 32 = omega arith in
    elim (dec_lt (length p) (pos + 64)) [
      | yes first ↦ rw (plain, bytes_at_past p (pos + 48) 16 (omega arith) (omega arith)) refl
      | no later ↦
          let wrap : (pos + 64) % 2 ^ 32 ≡ pos + 64 = omega arith in
          rw
            (
              plain,
              next,
              wrap,
              bytes_at_lem p (pos + 48) 16 (omega arith),
              enc_keys-fault n p (pos + 64) (omega arith) (omega arith) (omega arith),
            )
            refl
    ]

-- The number of keys that a file declares, and what the file has to hold for them.
abbrev pub declared : List ℕ → ℕ
declared p = word16 p (word32 p 0)

-- The file has room for the number of keys that it declares, 48 bytes each.
abbrev pub HasKeys : List ℕ → Type 0
HasKeys p = (word32 p 0 + 16 + 48 * declared p ≤ length p) × (0 < declared p)

room_lem : (size pos n : ℕ) → pos + 16 + 48 * n ≤ size → ltb ((size - pos - 16) / 48) n ≡ false
room_lem size pos n h = ground arith

-- From an AACS1 file with room for its keys, `_parse_uks` takes the keys 48 bytes apart.
pub parse_uks-aacs1 :
    (uk : UnitKeys) (p : List ℕ)
    → length p < 2 ^ 31
    → HasKeys p
    → parse_uks uk p (length p) false
      ≡ ok (
        record uk {
          num_uk = declared p;
          enc_uk = some (keys_after (declared p) p (word32 p 0) 48);
        },
        true,
      )
unfolding parse_uks key_storage copy_keys
parse_uks-aacs1 uk p small (room, some_key) = ground (
  arith,
  be32_lem p 0,
  be16_lem p (word32 p 0),
  room_lem (length p) (word32 p 0) (declared p),
  enc_keys-aacs1 (declared p) p (word32 p 0),
)

-- An AACS2 file with a key at the expected place that has room for 48 bytes a key but not for 64,
-- passes the checks, and its last key is read past the end of the file.
pub parse_uks-aacs2_fault :
    (uk : UnitKeys) (p : List ℕ)
    → length p < 2 ^ 31
    → HasKeys p
    → 1 < declared p
    → declared p < 2 ^ 16
    → 128 ≤ length p
    → same_bytes empty_key (slice p 112 16) ≡ false
    → length p < word32 p 0 + 64 * declared p
    → parse_uks uk p (length p) true ≡ fault
unfolding parse_uks key_storage aacs2_keys copy_keys
parse_uks-aacs2_fault uk p small (room, some_key) several few long found short = ground (
  arith,
  be32_lem p 0,
  be16_lem p (word32 p 0),
  bytes_at_lem p 112 16,
  room_lem (length p) (word32 p 0) (declared p),
  enc_keys-fault (declared p) p (word32 p 0),
)

-- With room for 64 bytes a key such a file gives the keys 64 bytes apart.
pub parse_uks-aacs2 :
    (uk : UnitKeys) (p : List ℕ)
    → length p < 2 ^ 31
    → HasKeys p
    → 1 < declared p
    → 128 ≤ length p
    → same_bytes empty_key (slice p 112 16) ≡ false
    → word32 p 0 + 64 * declared p ≤ length p
    → parse_uks uk p (length p) true
      ≡ ok (
        record uk {
          num_uk = declared p;
          enc_uk = some (keys_after (declared p) p (word32 p 0) 64);
        },
        true,
      )
unfolding parse_uks key_storage aacs2_keys copy_keys
parse_uks-aacs2 uk p small (room, some_key) several long found fits = ground (
  arith,
  be32_lem p 0,
  be16_lem p (word32 p 0),
  bytes_at_lem p 112 16,
  room_lem (length p) (word32 p 0) (declared p),
  enc_keys-aacs2 (declared p) p (word32 p 0),
)

-- `num_uk` is the number of encrypted keys, and each has 16 bytes.
abbrev pub KeysMatch : Option (List (List ℕ)) → ℕ → Type 0
KeysMatch none num_uk = num_uk ≡ 0
KeysMatch (some keys) num_uk = (length keys ≡ num_uk) × All (λ k. length k ≡ 16) keys

-- What `_parse_uks` leaves in the struct, whatever it returns.
abbrev pub KeysParsed : UnitKeys → UnitKeys × Bool → Type 0
KeysParsed uk (uk', parsed) =
    KeysMatch uk'.enc_uk uk'.num_uk
    × (uk'.num_titles ≡ uk.num_titles)
    × (uk'.title_cps_unit ≡ uk.title_cps_unit)

copy_keys-aacs1 :
    (uk : UnitKeys) (p : List ℕ) (pos num : ℕ)
    → pos + 48 * num + 16 ≤ length p
    → length p < 2 ^ 31
    → Returns (KeysParsed uk) (copy_keys uk p pos num false)
unfolding copy_keys
copy_keys-aacs1 uk p pos num fits small =
    rw (enc_keys-aacs1 num p pos fits small) (keys_after_shape num p pos 48, refl, refl)

-- On any AACS1 file `_parse_uks` returns, reads nothing outside of it, and stores as many keys of 16
-- bytes as it counts.
pub parse_uks-KeysParsed :
    (uk : UnitKeys) (p : List ℕ)
    → length p < 2 ^ 31
    → uk.enc_uk ≡ none
    → Returns (KeysParsed uk) (parse_uks uk p (length p) false)
unfolding parse_uks key_storage
parse_uks-KeysParsed uk p small fresh = ground (
  arith,
  be32_lem p 0,
  be16_lem p (word32 p 0),
  copy_keys-aacs1 (record uk { num_uk = 0 }) p (word32 p 0) (declared p),
)

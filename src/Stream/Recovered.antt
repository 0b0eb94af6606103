-- ===== src/Stream/Recovered.antt =====
-- `aacs_decrypt_unit` of aacs.c gives the stream that was encrypted.
use libaacs.Common.{
  ℕ, zero, suc, ◌+◌, ◌%◌, ◌^◌, ◌<◌, ◌≡◌, refl, ap, ◌∙◌, ◌⊎◌, inl, inr, Bool, true, false, ◌&&◌,
  ◌||◌, some, List, [], ◌∷◌, arith, ◌==◌, if◌then◌else◌, Bool-cases, length, take, ok, byte,
}
use libaacs.Crypto.{Aes}
use libaacs.UnitKey.{UnitKeys}
use libaacs.Stream.{
  Aacs, Cbc, verify_ts, unit_key, block_key, decrypt_unit, is_capable, decrypt_unit_bus,
  is_encrypted, decrypted, try_keys, decrypt_with, keys_of, decrypt_keyed, aacs_decrypt_unit,
}
use libaacs.Stream.Cleared.{HasSync, IsCleared, verify_ts-IsCleared}
use libaacs.Stream.RoundTrip.{
  IsInverse, encrypt_unit, on_bus, length-encrypt_unit, decrypt_unit_bus-on_bus,
  decrypt_unit-encrypt_unit,
}

-- Whether the key of the current unit is used.
abbrev pub knows_key : Aacs → ℕ → Bool
knows_key aacs num_uk = aacs.cps_unit_selected || num_uk == 1

-- The key at `i` is the one of the current unit, or the first one under which the unit is a stream.
abbrev pub IsChosen : Aes → Cbc → Aacs → ℕ → List (List ℕ) → List ℕ → ℕ → Type 0
IsChosen aes cbc aacs num_uk keys unit i =
    ((knows_key aacs num_uk ≡ true) × (aacs.current_cps_unit ≡ i))
    ⊎ ((knows_key aacs num_uk ≡ false)
        × (i < num_uk)
        × ((j : ℕ) → j < i → (o : List ℕ) × (decrypt_unit aes cbc keys unit j ≡ ok (o, false))))

-- A key that was searched for is the current one from then on.
abbrev pub with_unit : Aacs → ℕ → ℕ → Aacs
with_unit aacs num_uk i =
    if knows_key aacs num_uk
    then aacs
    else record aacs { current_cps_unit = i % 2 ^ 16; cps_unit_selected = true }

try_keys-some :
    (n d s : ℕ) (aes : Aes) (cbc : Cbc) (keys : List (List ℕ)) (unit out : List ℕ)
    → d < n
    → ((j : ℕ) → j < d → (o : List ℕ) × (decrypt_unit aes cbc keys unit (s + j) ≡ ok (o, false)))
    → decrypt_unit aes cbc keys unit (s + d) ≡ ok (out, true)
    → try_keys n aes cbc keys unit s ≡ ok (some (s + d, out))
unfolding try_keys
try_keys-some zero d s aes cbc keys unit out h wrong e = absurd (omega arith)
try_keys-some (suc n) zero s aes cbc keys unit out h wrong e =
    let here : s + 0 ≡ s = omega arith in
    let found : decrypt_unit aes cbc keys unit s ≡ ok (out, true) = rw here at e in
    rw (here, found) refl
try_keys-some (suc n) (suc d) s aes cbc keys unit out h wrong e =
    let here : s + 0 ≡ s = omega arith in
    let there : s + suc d ≡ s + 1 + d = omega arith in
    let found : decrypt_unit aes cbc keys unit (s + 1 + d) ≡ ok (out, true) = rw there at e in
    let refused : decrypt_unit aes cbc keys unit s ≡ ok ((wrong 0 (omega arith)).0, false) =
      rw here at ((wrong 0 (omega arith)).1) in
    rw (refused, there) (try_keys-some n d (s + 1) aes cbc keys unit out (omega arith) later found)
  where
    later :
        (j : ℕ)
        → j < d
        → (o : List ℕ) × (decrypt_unit aes cbc keys unit (s + 1 + j) ≡ ok (o, false))
    later j k =
        let next : s + 1 + j ≡ s + suc j = omega arith in rw next (wrong (suc j) (omega arith))

decrypt_with-IsChosen :
    (aes : Aes) (cbc : Cbc) (aacs : Aacs) (num_uk : ℕ) (keys : List (List ℕ)) (unit out : List ℕ)
    (i : ℕ)
    → IsChosen aes cbc aacs num_uk keys unit i
    → decrypt_unit aes cbc keys unit i ≡ ok (out, true)
    → decrypt_with aes cbc aacs num_uk keys unit ≡ ok (with_unit aacs num_uk i, out, decrypted)
unfolding decrypt_with
decrypt_with-IsChosen aes cbc aacs num_uk keys unit out i (inl (known, here)) e =
    rw (known, here, e) refl
decrypt_with-IsChosen aes cbc aacs num_uk keys unit out i (inr (unknown, bound, wrong)) e =
    let start : (j : ℕ) → 0 + j ≡ j = λ (j : ℕ). omega arith in
    let found : try_keys num_uk aes cbc keys unit 0 ≡ ok (some (i, out)) = rw (← start i) (
      try_keys-some num_uk i 0 aes cbc keys unit out bound (λ j h. rw (start j) (wrong j h))
        (rw (start i) e)) in
    rw (unknown, found) refl

decrypt_keyed-some :
    (aes : Aes) (cbc : Cbc) (aacs : Aacs) (num_uk : ℕ) (keys : List (List ℕ)) (buf unit : List ℕ)
    → decrypt_unit_bus cbc aacs buf ≡ unit
    → decrypt_keyed aes cbc aacs (some (num_uk, keys)) buf
      ≡ decrypt_with aes cbc aacs num_uk keys unit
unfolding decrypt_keyed
decrypt_keyed-some aes cbc aacs num_uk keys buf unit e =
    ap (λ bytes. decrypt_with aes cbc aacs num_uk keys bytes) e

keys_of-some :
    (aacs : Aacs) (uk : UnitKeys) (keys : List (List ℕ))
    → aacs.uk ≡ some uk
    → uk.uk ≡ some keys
    → keys_of aacs.uk ≡ some (uk.num_uk, keys)
unfolding keys_of
keys_of-some aacs uk keys e f = rw (e, f, keys_of) refl

aacs_decrypt_unit-some :
    (aes : Aes) (cbc : Cbc) (aacs : Aacs) (num_uk : ℕ) (keys : List (List ℕ)) (buf unit : List ℕ)
    → is_encrypted buf ≡ true
    → keys_of aacs.uk ≡ some (num_uk, keys)
    → decrypt_unit_bus cbc aacs buf ≡ unit
    → aacs_decrypt_unit aes cbc aacs buf ≡ decrypt_with aes cbc aacs num_uk keys unit
unfolding aacs_decrypt_unit
aacs_decrypt_unit-some aes cbc aacs num_uk keys buf unit h e f =
    rw (h, e) (decrypt_keyed-some aes cbc aacs num_uk keys buf unit f)

-- Neither the disc nor the drive encrypts the first byte.
on_bus-is_encrypted :
    (enc : Cbc) (aacs : Aacs) (block ts : List ℕ)
    → 0 < length ts
    → is_encrypted (on_bus enc aacs (encrypt_unit enc block ts)) ≡ is_encrypted ts
unfolding is_encrypted byte
on_bus-is_encrypted enc aacs block [] h = absurd (omega arith)
on_bus-is_encrypted enc aacs block (c ∷ ts) h =
    elim (Bool-cases (aacs.bee && is_capable aacs.bec)) [
      | inl encrypts ↦ rw encrypts refl
      | inr plain ↦ rw plain refl
    ]

-- A unit of 32 packets that has its copy permission bits set, is encrypted with a key of the disc
-- and, where drive and disc have it, with bus encryption, is given back with only these bits
-- cleared. The key is that of the current unit, or the first one under which the unit is a stream,
-- which is the current one from then on.
pub aacs_decrypt_unit-encrypt_unit :
    (cbc enc : Cbc) (aes : Aes) (aacs : Aacs) (uk : UnitKeys) (keys : List (List ℕ)) (i : ℕ)
    (key block ts : List ℕ)
    → IsInverse cbc enc
    → aacs.uk ≡ some uk
    → uk.uk ≡ some keys
    → unit_key keys i ≡ ok key
    → block_key aes key (take 16 ts) ≡ ok block
    → length ts ≡ 6144
    → is_encrypted ts ≡ true
    → HasSync 32 0 ts
    → IsChosen aes cbc aacs uk.num_uk keys (encrypt_unit enc block ts) i
    → (out : List ℕ) × IsCleared 32 0 ts out
      × (aacs_decrypt_unit aes cbc aacs (on_bus enc aacs (encrypt_unit enc block ts))
          ≡ ok (with_unit aacs uk.num_uk i, out, decrypted))
aacs_decrypt_unit-encrypt_unit cbc enc aes aacs uk keys i key block ts inverse e f g h len marked
      sync chosen =
    let (valid, cleared) = verify_ts-IsCleared ts sync in
    let unit = encrypt_unit enc block ts in
    let size : length unit ≡ 6144 =
      length-encrypt_unit cbc enc inverse block ts (omega arith) ∙ len in
    let one : decrypt_unit aes cbc keys unit i ≡ ok ((verify_ts ts).0, true) =
      decrypt_unit-encrypt_unit cbc enc inverse aes keys i key block ts (omega arith) g h
      ∙ ap (λ b. ok ((verify_ts ts).0, b)) valid in
    (
      (verify_ts ts).0,
      cleared,
      aacs_decrypt_unit-some aes cbc aacs uk.num_uk keys (on_bus enc aacs unit) unit
            (on_bus-is_encrypted enc aacs block ts (omega arith) ∙ marked)
            (keys_of-some aacs uk keys e f) (decrypt_unit_bus-on_bus cbc enc inverse aacs unit size)
          ∙ decrypt_with-IsChosen aes cbc aacs uk.num_uk keys unit (verify_ts ts).0 i chosen one,
    )

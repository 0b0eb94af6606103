-- ===== src/Stream/Ready.antt =====
-- The stream functions of aacs.c, and the entries of the key and title arrays that they read.
use libaacs.Common.{
  ℕ, zero, suc, ◌+◌, ◌%◌, ◌^◌, ◌≤◌, ◌<◌, ◌≡◌, refl, inl, inr, Bool, true, false, ◌||◌, Option, none,
  some, List, [], ◌∷◌, ◌++◌, arith, leb, ◌==◌, if◌then◌else◌, leb→le, Bool-cases, length, take,
  drop, All, Run, ok, fault, stuck, ◌>>=◌, Returns,
}
use mathlib.Core.Path.{subst}
use libaacs.Crypto.{Aes, xor_bytes}
use libaacs.UnitKey.{UnitKeys}
use libaacs.UnitKey.Titles.{IsUnit, TitlesMatch}
use libaacs.Stream.{
  Aacs, Cbc, UnitResult, unit_key, block_key, decrypt_unit, try_keys, with_key, with_found,
  decrypt_with, decrypt_keyed, decrypt_unit_bus, keys_of, aacs_decrypt_unit, verify_ts,
  is_encrypted, title_entry, select_title_in, aacs_select_title,
}

abbrev pub KeysReady : Option (List (List ℕ)) → ℕ → Type 0
KeysReady none num_uk = Unit {0}
KeysReady (some keys) num_uk = (length keys ≡ num_uk) × (0 < num_uk) × (num_uk < 2 ^ 16)

abbrev pub ReadyKeys : Option UnitKeys → ℕ → Type 0
ReadyKeys none current = Unit {0}
ReadyKeys (some uk) current =
    TitlesMatch uk.title_cps_unit uk.num_titles uk.num_uk
    × KeysReady uk.uk uk.num_uk
    × IsUnit uk.num_uk current

-- The title map and the keys fit together, and the current unit is the index of a key, or 0.
abbrev pub IsReady : Aacs → Type 0
IsReady aacs = ReadyKeys aacs.uk aacs.current_cps_unit

title_entry-Unit :
    (P : ℕ → Type 0) (units : List ℕ) (i : ℕ)
    → All P units
    → i < length units
    → Returns P (title_entry units i)
unfolding title_entry
title_entry-Unit P [] i all h = absurd (omega arith)
title_entry-Unit P (u ∷ us) zero all h = all.0
title_entry-Unit P (u ∷ us) (suc i) all h = title_entry-Unit P us i all.1 (omega arith)

then_selected :
    (aacs : Aacs) (uk : UnitKeys) (selected : Bool) (m : Run ℕ)
    → aacs.uk ≡ some uk
    → TitlesMatch uk.title_cps_unit uk.num_titles uk.num_uk
    → KeysReady uk.uk uk.num_uk
    → Returns (IsUnit uk.num_uk) m
    → Returns IsReady
        (m >>= λ u. ok (record aacs { current_cps_unit = u; cps_unit_selected = selected }))
then_selected aacs uk selected (ok u) e titles keys unit = rw e (titles, keys, unit)
then_selected aacs uk selected fault e titles keys unit = absurd unit
then_selected aacs uk selected stuck e titles keys unit = absurd unit

select_title_in-IsReady :
    (aacs : Aacs) (uk : UnitKeys) (title : ℕ) (o : Option (List ℕ))
    → aacs.uk ≡ some uk
    → uk.title_cps_unit ≡ o
    → IsReady aacs
    → Returns IsReady (select_title_in aacs uk o title)
unfolding select_title_in
select_title_in-IsReady aacs uk title none e f ready = ready
select_title_in-IsReady aacs uk title (some units) e f ready =
    let (titles, keys, unit) = rw e at ready in
    let (len, all, few) = rw f at titles in
    elim (Bool-cases (title == 0xffff)) [
      | inl first ↦ rw first (
          then_selected aacs uk false _ e titles keys
            (title_entry-Unit (IsUnit uk.num_uk) units 0 all (omega arith)))
      | inr other ↦ elim (Bool-cases (leb title uk.num_titles)) [
        | inl there ↦
            let le : title ≤ uk.num_titles = leb→le _ _ there in
            rw (other, there)
              (then_selected aacs uk true _ e titles keys (
                title_entry-Unit (IsUnit uk.num_uk) units ((title + 1) % 2 ^ 32) all (omega arith)))
        | inr missing ↦ rw (other, missing) ready
      ]
    ]

-- If the struct is ready, a title of any number is looked up inside of the title map, and leaves the
-- struct ready.
pub aacs_select_title-IsReady :
    (aacs : Aacs) (title : ℕ) → IsReady aacs → Returns IsReady (aacs_select_title aacs title)
unfolding aacs_select_title
aacs_select_title-IsReady aacs title ready = of_keys aacs.uk refl
  where
    of_keys :
        (o : Option UnitKeys)
        → aacs.uk ≡ o
        → Returns IsReady
            (elim o [ none ↦ ok aacs | some uk ↦ select_title_in aacs uk uk.title_cps_unit title ])
    of_keys none e = ready
    of_keys (some uk) e = select_title_in-IsReady aacs uk title uk.title_cps_unit e refl ready

-- AES encryption does not fail.
abbrev pub IsEncrypting : Aes → Type 0
IsEncrypting aes = (key plain : List ℕ) → (out : List ℕ) × (aes.encrypt key plain ≡ some out)

unit_key_found :
    (keys : List (List ℕ)) (i : ℕ) → i < length keys → (k : List ℕ) × (unit_key keys i ≡ ok k)
unfolding unit_key
unit_key_found [] i h = absurd (omega arith)
unit_key_found (k ∷ ks) zero h = (k, refl)
unit_key_found (k ∷ ks) (suc i) h = unit_key_found ks i (omega arith)

block_key_found :
    (aes : Aes) (key plain : List ℕ)
    → IsEncrypting aes
    → (k : List ℕ) × (block_key aes key plain ≡ ok k)
unfolding block_key
block_key_found aes key plain total = of_result (aes.encrypt key plain) (total key plain).1
  where
    of_result :
        (o : Option (List ℕ))
        → o ≡ some (total key plain).0
        → (k : List ℕ) × ((elim o [ none ↦ fault | some k' ↦ ok (xor_bytes k' plain) ]) ≡ ok k)
    of_result none e = absurd cc
    of_result (some k') e = (_, refl)

decrypt_unit_returns :
    (aes : Aes) (cbc : Cbc) (keys : List (List ℕ)) (buf : List ℕ) (i : ℕ)
    → IsEncrypting aes
    → i < length keys
    → (r : List ℕ × Bool) × (decrypt_unit aes cbc keys buf i ≡ ok r)
unfolding decrypt_unit
decrypt_unit_returns aes cbc keys buf i total h =
    let (k, e) = unit_key_found keys i h in
    let (b, f) = block_key_found aes k (take 16 buf) total in
    let out : List ℕ × Bool = verify_ts (take 16 buf ++ cbc b (drop 16 buf)) in
    let same : decrypt_unit aes cbc keys buf i ≡ ok out = rw (e, f) refl in (out, same)

abbrev FoundBelow : ℕ → Option (ℕ × List ℕ) → Type 0
FoundBelow bound none = Unit {0}
FoundBelow bound (some (i, out)) = i < bound

try_keys-FoundBelow :
    (n : ℕ) (aes : Aes) (cbc : Cbc) (keys : List (List ℕ)) (buf : List ℕ) (i : ℕ)
    → IsEncrypting aes
    → n + i ≤ length keys
    → Returns (FoundBelow (length keys)) (try_keys n aes cbc keys buf i)
unfolding try_keys
try_keys-FoundBelow zero aes cbc keys buf i total h = record {}
try_keys-FoundBelow (suc n) aes cbc keys buf i total h =
    let (r, e) = decrypt_unit_returns aes cbc keys buf i total (omega arith) in
    rw e (of_valid r.0 r.1 (try_keys-FoundBelow n aes cbc keys buf (i + 1) total (omega arith)))
  where
    of_valid :
        (out : List ℕ) (valid : Bool)
        → Returns (FoundBelow (length keys)) (try_keys n aes cbc keys buf (i + 1))
        → Returns
            (FoundBelow (length keys))
            (if valid then ok (some (i, out)) else try_keys n aes cbc keys buf (i + 1))
    of_valid out true rest = omega arith
    of_valid out false rest = rest

-- The struct after the call is ready.
abbrev pub LeavesReady : Aacs × List ℕ × UnitResult → Type 0
LeavesReady (aacs, out, result) = IsReady aacs

with_key-LeavesReady :
    (out : List ℕ) (valid : Bool) (aacs : Aacs)
    → IsReady aacs
    → LeavesReady (with_key (out, valid) aacs)
unfolding with_key
with_key-LeavesReady out true aacs ready = ready
with_key-LeavesReady out false aacs ready = ready

with_found-LeavesReady :
    (found : Option (ℕ × List ℕ)) (aacs : Aacs) (buf : List ℕ) (uk : UnitKeys)
    → aacs.uk ≡ some uk
    → uk.num_uk < 2 ^ 16
    → FoundBelow uk.num_uk found
    → IsReady aacs
    → LeavesReady (with_found found aacs buf)
unfolding with_found
with_found-LeavesReady none aacs buf uk e few below ready = ready
with_found-LeavesReady (some (i, out)) aacs buf uk e few below ready =
    let (titles, keys, unit) = rw e at ready in rw e (titles, keys, inl (omega arith))

known_key :
    (selected : Bool) (num_uk current : ℕ) → 0 < num_uk → IsUnit num_uk current → current < num_uk
known_key selected num_uk current some_key unit = ground arith

decrypt_with-LeavesReady :
    (aes : Aes) (cbc : Cbc) (aacs : Aacs) (uk : UnitKeys) (keys : List (List ℕ)) (buf : List ℕ)
    → IsEncrypting aes
    → aacs.uk ≡ some uk
    → KeysReady (some keys) uk.num_uk
    → IsReady aacs
    → Returns LeavesReady (decrypt_with aes cbc aacs uk.num_uk keys buf)
unfolding decrypt_with
decrypt_with-LeavesReady aes cbc aacs uk keys buf total e (len, some_key, few) ready =
    let (titles, keys_ready, unit) = rw e at ready in
    let current : aacs.current_cps_unit < length keys =
      rw len (known_key true uk.num_uk aacs.current_cps_unit some_key unit) in
    let (r, f) = decrypt_unit_returns aes cbc keys buf aacs.current_cps_unit total current in
    let below = try_keys-FoundBelow uk.num_uk aes cbc keys buf 0 total (omega arith) in
    elim (Bool-cases (aacs.cps_unit_selected || uk.num_uk == 1)) [
      | inl known ↦ rw (known, f) (with_key-LeavesReady r.0 r.1 aacs ready)
      | inr unknown ↦ rw unknown (
          found_or_not (try_keys uk.num_uk aes cbc keys buf 0)
            (subst (λ n. Returns (FoundBelow n) (try_keys uk.num_uk aes cbc keys buf 0)) len below))
    ]
  where
    found_or_not :
        (m : Run (Option (ℕ × List ℕ)))
        → Returns (FoundBelow uk.num_uk) m
        → Returns LeavesReady (m >>= λ found. ok (with_found found aacs buf))
    found_or_not (ok found) below = with_found-LeavesReady found aacs buf uk e few below ready
    found_or_not fault below = absurd below
    found_or_not stuck below = absurd below

decrypt_keyed-LeavesReady :
    (aes : Aes) (cbc : Cbc) (aacs : Aacs) (o : Option UnitKeys) (buf : List ℕ)
    → IsEncrypting aes
    → aacs.uk ≡ o
    → IsReady aacs
    → Returns LeavesReady (decrypt_keyed aes cbc aacs (keys_of o) buf)
unfolding decrypt_keyed keys_of
decrypt_keyed-LeavesReady aes cbc aacs none buf total e ready = ready
decrypt_keyed-LeavesReady aes cbc aacs (some uk) buf total e ready = of_keys uk.uk refl
  where
    of_keys :
        (o : Option (List (List ℕ)))
        → uk.uk ≡ o
        → Returns LeavesReady (
            decrypt_keyed aes cbc aacs
              (elim o [ none ↦ none | some keys ↦ some (uk.num_uk, keys) ])
              buf)
    of_keys none f = ready
    of_keys (some keys) f =
        let (titles, keys_ready, unit) = rw e at ready in
        decrypt_with-LeavesReady aes cbc aacs uk keys (decrypt_unit_bus cbc aacs buf) total e
          (rw f at keys_ready) ready

-- If the struct is ready and AES encryption does not fail, a unit is decrypted without a read outside
-- of the array of keys, and the struct stays ready, on every path: plain, with a known key, or in
-- search of the key.
pub aacs_decrypt_unit-LeavesReady :
    (aes : Aes) (cbc : Cbc) (aacs : Aacs) (buf : List ℕ)
    → IsEncrypting aes
    → IsReady aacs
    → Returns LeavesReady (aacs_decrypt_unit aes cbc aacs buf)
unfolding aacs_decrypt_unit
aacs_decrypt_unit-LeavesReady aes cbc aacs buf total ready = elim (Bool-cases (is_encrypted buf)) [
  | inl coded ↦ rw coded (decrypt_keyed-LeavesReady aes cbc aacs aacs.uk buf total refl ready)
  | inr plain ↦ rw plain ready
]

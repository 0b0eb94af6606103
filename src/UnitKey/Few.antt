-- ===== src/UnitKey/Few.antt =====
-- The number of keys that unit_key.c counts.
use libaacs.Common.{
  ℕ, zero, suc, ◌+◌, ◌-◌, ◌*◌, ◌/◌, ◌%◌, ◌^◌, ◌<◌, ◌≡◌, refl, inl, inr, Bool, true, false, ◌&&◌,
  Option, none, some, List, [], ◌∷◌, map, arith, ltb, if◌then◌else◌, Bool-cases, same_bytes, All,
  ok, ◌>>=◌, IsByte, byte_at, be16, be32, bytes_at,
}
use libaacs.Common.Partial.{WhenOk, WhenOk-bind, WhenOk-then}
use libaacs.UnitKey.{
  UnitKeys, zeroed, parse_header, assign_titles, enc_keys, copy_keys, aacs2_keys, key_storage,
  parse_uks, after_header, parse, if_parsed, uk_parse, title_units, valid_unit, empty_key,
}

byte_at-IsByte : (buf : List ℕ) (i : ℕ) → All IsByte buf → WhenOk IsByte (byte_at buf i)
unfolding byte_at
byte_at-IsByte [] i all = record {}
byte_at-IsByte (x ∷ xs) zero all = all.0
byte_at-IsByte (x ∷ xs) (suc i) all = byte_at-IsByte xs i all.1

be16-small : (buf : List ℕ) (p : ℕ) → All IsByte buf → WhenOk (λ n. n < 2 ^ 16) (be16 buf p)
unfolding be16
be16-small buf p all =
    WhenOk-then IsByte (λ n. n < 2 ^ 16) (byte_at buf p) _ (byte_at-IsByte buf p all)
      (λ a a_byte.
        WhenOk-then IsByte (λ n. n < 2 ^ 16) (byte_at buf (p + 1)) _
          (byte_at-IsByte buf (p + 1) all) (λ b b_byte. omega arith))

abbrev pub IsFew : UnitKeys → Type 0
IsFew uk = (uk.num_uk < 2 ^ 16) × (uk.uk ≡ none)

abbrev Few : UnitKeys × Bool → Type 0
Few r = IsFew r.0

copy_keys-Few :
    (uk : UnitKeys) (p : List ℕ) (uk_pos num_uk : ℕ) (aacs2 : Bool)
    → IsFew uk
    → num_uk < 2 ^ 16
    → WhenOk Few (copy_keys uk p uk_pos num_uk aacs2)
unfolding copy_keys
copy_keys-Few uk p uk_pos num_uk aacs2 before few =
    WhenOk-bind Few (enc_keys num_uk p uk_pos aacs2) _ (λ keys. (few, before.1))

aacs2_keys-Few :
    (uk : UnitKeys) (p : List ℕ) (size uk_pos num_uk : ℕ)
    → IsFew uk
    → num_uk < 2 ^ 16
    → WhenOk Few (aacs2_keys uk p size uk_pos num_uk)
unfolding aacs2_keys
aacs2_keys-Few uk p size uk_pos num_uk before few =
    WhenOk-bind Few (bytes_at p (48 + 48 + 16) 16) _ (λ expected.
      by_tests (same_bytes empty_key expected) (ltb size ((uk_pos + 64 * uk.num_uk + 16) % 2 ^ 32)))
  where
    by_tests :
        (b c : Bool)
        → WhenOk Few (
            if b
            then copy_keys uk p uk_pos num_uk false
            else if c
            then ok (uk, false)
            else copy_keys uk p uk_pos num_uk true)
    by_tests true c = copy_keys-Few uk p uk_pos num_uk false before few
    by_tests false true = before
    by_tests false false = copy_keys-Few uk p uk_pos num_uk true before few

key_storage-Few :
    (uk : UnitKeys) (p : List ℕ) (size uk_pos : ℕ) (aacs2 : Bool)
    → All IsByte p
    → IsFew uk
    → WhenOk Few (key_storage uk p size uk_pos aacs2)
unfolding key_storage
key_storage-Few uk p size uk_pos aacs2 all before =
    WhenOk-then (λ n. n < 2 ^ 16) Few (be16 p uk_pos) _ (be16-small p uk_pos all)
      (λ num_uk few.
        by_tests num_uk few (ltb num_uk 1) (ltb (size - uk_pos) 16)
          (ltb ((size - uk_pos - 16) / 48) num_uk) (aacs2 && ltb 1 num_uk))
  where
    by_tests :
        (n : ℕ)
        → n < 2 ^ 16
        → (a b c e : Bool)
        → WhenOk Few (
            if a
            then ok (uk, true)
            else if b
            then ok (uk, false)
            else if c
            then ok (uk, false)
            else if e
            then aacs2_keys uk p size uk_pos n
            else copy_keys uk p uk_pos n aacs2)
    by_tests n few true b c e = before
    by_tests n few false true c e = before
    by_tests n few false false true e = before
    by_tests n few false false false true = aacs2_keys-Few uk p size uk_pos n before few
    by_tests n few false false false false = copy_keys-Few uk p uk_pos n aacs2 before few

parse_uks-Few :
    (uk : UnitKeys) (p : List ℕ) (size : ℕ) (aacs2 : Bool)
    → All IsByte p
    → IsFew uk
    → WhenOk Few (parse_uks uk p size aacs2)
unfolding parse_uks
parse_uks-Few uk p size aacs2 all before = elim (Bool-cases (ltb size 4)) [
  | inl short ↦ rw short (omega arith, before.1)
  | inr long ↦
      rw long (WhenOk-bind Few (be32 p 0) _ (λ uk_pos. by_test uk_pos (ltb (size - 2) uk_pos)))
]
  where
    by_test :
        (uk_pos : ℕ) (b : Bool)
        → WhenOk Few (
            if b
            then ok (record uk { num_uk = 0 }, false)
            else key_storage (record uk { num_uk = 0 }) p size uk_pos aacs2)
    by_test uk_pos true = (omega arith, before.1)
    by_test uk_pos false =
        key_storage-Few (record uk { num_uk = 0 }) p size uk_pos aacs2 all (omega arith, before.1)

assign_titles-Few :
    (uk : UnitKeys) (p : List ℕ) (size : ℕ) → IsFew uk → WhenOk Few (assign_titles uk p size)
unfolding assign_titles
assign_titles-Few uk p size few = elim (Bool-cases (ltb size 26)) [
  | inl short ↦ rw short few
  | inr long ↦ rw long (
      WhenOk-bind Few (be16 p 20) _ (λ first_play. WhenOk-bind Few (be16 p 22) _ (λ top_menu.
        WhenOk-bind Few (be16 p 24) _ (λ num_titles.
          by_tests first_play top_menu num_titles (ltb (0xffff - 2) num_titles)
            (ltb size (26 + 4 * num_titles))))))
]
  where
    by_tests :
        (f t n : ℕ) (a b : Bool)
        → WhenOk Few (
            if a
            then ok (uk, false)
            else if b
            then ok (record uk { num_titles = 0 }, false)
            else (do
              units ← title_units n 0 p
              let valid = map (valid_unit uk.num_uk) (f ∷ t ∷ units)
              ok (record uk { num_titles = n; title_cps_unit = some valid }, true)))
    by_tests f t n true b = few
    by_tests f t n false true = few
    by_tests f t n false false = WhenOk-bind Few (title_units n 0 p) _ (λ units. few)

after_header-Few :
    (p : List ℕ) (size : ℕ) (aacs2 : Bool) (r : UnitKeys × Bool)
    → All IsByte p
    → IsFew r.0
    → WhenOk Few (after_header p size aacs2 r)
unfolding after_header
after_header-Few p size aacs2 (uk, false) all few = few
after_header-Few p size aacs2 (uk, true) all few =
    WhenOk-then Few Few (parse_uks uk p size aacs2) _ (parse_uks-Few uk p size aacs2 all few)
      (λ r r_few.
        WhenOk-then Few Few (assign_titles r.0 p size) _ (assign_titles-Few r.0 p size r_few)
          (λ s s_few. s_few))

parse_header-Few : (p : List ℕ) (size : ℕ) → WhenOk Few (parse_header zeroed p size)
unfolding parse_header
parse_header-Few p size = elim (Bool-cases (ltb size 20)) [
  | inl short ↦ rw short (omega arith, refl)
  | inr long ↦ rw long (
      WhenOk-bind Few (byte_at p 16) _ (λ app_type.
        WhenOk-bind Few (byte_at p 17) _
          (λ num_bdmv_dir. WhenOk-bind Few (byte_at p 18) _ (λ skb. (omega arith, refl)))))
]

abbrev pub OptFew : Option UnitKeys → Type 0
OptFew none = Unit
OptFew (some uk) = IsFew uk

if_parsed-OptFew : (r : UnitKeys × Bool) → IsFew r.0 → OptFew (if_parsed r)
unfolding if_parsed
if_parsed-OptFew (uk, false) few = record {}
if_parsed-OptFew (uk, true) few = few

-- A file of bytes gives fewer than 65536 keys, none of which is decrypted.
pub uk_parse-OptFew :
    (p : List ℕ) (size : ℕ) (aacs2 : Bool) → All IsByte p → WhenOk OptFew (uk_parse p size aacs2)
unfolding uk_parse parse
uk_parse-OptFew p size aacs2 all =
    WhenOk-then Few OptFew (parse zeroed p size aacs2) _
      (WhenOk-then Few Few (parse_header zeroed p size) _ (parse_header-Few p size)
        (λ r few. after_header-Few p size aacs2 r all few))
      (λ r few. if_parsed-OptFew r few)

-- ===== src/UnitKey/Parse.antt =====
-- `uk_parse` of unit_key.c on a whole file.
use libaacs.Common.{
  ℕ, ◌+◌, ◌*◌, ◌/◌, ◌^◌, ◌≤◌, ◌<◌, ◌≡◌, refl, ◌∙◌, Bool, true, false, Option, none, some, List, ◌∷◌,
  map, arith, ltb, leb, length, Run, ok, fault, stuck, ◌>>=◌, Returns, byte, word16, word32,
  byte_at_lem,
}
use libaacs.UnitKey.{
  UnitKeys, zeroed, parse_header, after_header, parse, parse_uks, assign_titles, uk_parse,
  if_parsed, valid_unit,
}
use libaacs.UnitKey.Keys.{
  KeysMatch, KeysParsed, HasKeys, declared, keys_after, parse_uks-KeysParsed, parse_uks-aacs1,
}
use libaacs.UnitKey.Titles.{
  TitlesMatch, TitlesAssigned, assign_titles-TitlesAssigned, assign_titles_lem, raw_titles,
}

-- The keys and the title map fit together, and no key is decrypted yet.
pub record IsWellFormed (uk : UnitKeys) : Type 0 where
  pub keys : KeysMatch uk.enc_uk uk.num_uk
  pub titles : TitlesMatch uk.title_cps_unit uk.num_titles uk.num_uk

abbrev pub OptWellFormed : Option UnitKeys → Type 0
OptWellFormed none = Unit {0}
OptWellFormed (some uk) = IsWellFormed uk

abbrev HeaderParsed : UnitKeys × Bool → Type 0
HeaderParsed (uk, parsed) =
    (uk.enc_uk ≡ none) × (uk.num_uk ≡ 0) × (uk.num_titles ≡ 0) × (uk.title_cps_unit ≡ none)

parse_header-HeaderParsed : (p : List ℕ) → Returns HeaderParsed (parse_header zeroed p (length p))
unfolding parse_header
parse_header-HeaderParsed p = ground (arith, byte_at_lem p 16, byte_at_lem p 17, byte_at_lem p 18)

abbrev Parsed : UnitKeys × Bool → Type 0
Parsed (uk, parsed) = IsWellFormed uk

assigned-Parsed :
    (uk : UnitKeys) (parsed : Bool) (r : Run (UnitKeys × Bool))
    → KeysMatch uk.enc_uk uk.num_uk
    → Returns (TitlesAssigned uk) r
    → Returns Parsed (r >>= λ t. ok (t.0, parsed))
assigned-Parsed uk parsed (ok (uk', assigned)) k (titles, nums, encs) = record {
  keys = rw (nums, encs) k;
  titles = titles;
}
assigned-Parsed uk parsed fault k h = h
assigned-Parsed uk parsed stuck k h = h

titles_after-Parsed :
    (p : List ℕ) (uk : UnitKeys) (r : Run (UnitKeys × Bool))
    → uk.num_titles ≡ 0
    → uk.title_cps_unit ≡ none
    → Returns (KeysParsed uk) r
    → Returns Parsed (r >>= λ t. assign_titles t.0 p (length p) >>= λ u. ok (u.0, t.1))
titles_after-Parsed p uk (ok (uk', parsed)) nums units (keys, kept_nums, kept_units) =
    assigned-Parsed uk' parsed (assign_titles uk' p (length p)) keys
      (assign_titles-TitlesAssigned uk' p (kept_units ∙ units) (kept_nums ∙ nums))
titles_after-Parsed p uk fault nums units h = h
titles_after-Parsed p uk stuck nums units h = h

after_header-Parsed :
    (p : List ℕ)
    → length p < 2 ^ 31
    → (r : Run (UnitKeys × Bool)) → Returns HeaderParsed r
    → Returns Parsed (r >>= λ t. after_header p (length p) false t)
unfolding after_header
after_header-Parsed p small (ok (uk, false)) (encs, keys, nums, units) = record {
  keys = rw encs keys;
  titles = rw units nums;
}
after_header-Parsed p small (ok (uk, true)) (encs, keys, nums, units) =
    titles_after-Parsed p uk (parse_uks uk p (length p) false) nums units
      (parse_uks-KeysParsed uk p small encs)
after_header-Parsed p small fault h = h
after_header-Parsed p small stuck h = h

if_parsed-OptWellFormed :
    (r : Run (UnitKeys × Bool))
    → Returns Parsed r
    → Returns OptWellFormed (r >>= λ t. ok (if_parsed t))
unfolding if_parsed
if_parsed-OptWellFormed (ok (uk, false)) h = tt
if_parsed-OptWellFormed (ok (uk, true)) h = h
if_parsed-OptWellFormed fault h = h
if_parsed-OptWellFormed stuck h = h

-- On any AACS1 file below 2 GB `uk_parse` returns and reads nothing outside of it. What it returns,
-- if it is not NULL, has as many encrypted keys of 16 bytes as it counts, and a title map, if any,
-- in which every title has the index of one of the keys, or 0.
pub uk_parse-IsWellFormed :
    (p : List ℕ) → length p < 2 ^ 31 → Returns OptWellFormed (uk_parse p (length p) false)
unfolding uk_parse parse
uk_parse-IsWellFormed p small =
    if_parsed-OptWellFormed (parse zeroed p (length p) false)
      (after_header-Parsed p small (parse_header zeroed p (length p)) (parse_header-HeaderParsed p))

-- The file is long enough for the header, the keys and the titles that it declares.
pub record IsComplete (p : List ℕ) : Type 0 where
  pub small : length p < 2 ^ 31
  pub header : 26 ≤ length p
  pub has_dir : 1 ≤ byte p 17
  pub keys : HasKeys p
  pub few : word16 p 24 ≤ 0xfffd
  pub titles : 26 + 4 * word16 p 24 ≤ length p

-- A complete AACS1 file gives its fields, its keys 48 bytes apart, and its checked title map.
pub uk_parse_complete :
    (p : List ℕ)
    → IsComplete p
    → uk_parse p (length p) false
      ≡ ok (
          some (record {
            num_bdmv_dir = byte p 17;
            app_type = byte p 16;
            use_skb_mkb = byte p 18 / 2 ^ 7;
            num_uk = declared p;
            uk = none;
            enc_uk = some (keys_after (declared p) p (word32 p 0) 48);
            num_titles = word16 p 24;
            title_cps_unit = some (
                map
                  (valid_unit (declared p))
                  (word16 p 20 ∷ word16 p 22 ∷ raw_titles (word16 p 24) 0 p));
          }))
unfolding uk_parse parse parse_header after_header if_parsed
uk_parse_complete p c =
    let header = c.header in
    let dir = c.has_dir in
    let long : ltb (length p) 20 ≡ false = ground arith in
    let some_dir : leb 1 (byte p 17) ≡ true = ground arith in
    rw
      (
        byte_at_lem p 16 (omega arith),
        byte_at_lem p 17 (omega arith),
        byte_at_lem p 18 (omega arith),
        long,
        some_dir,
        parse_uks-aacs1 _ p c.small c.keys,
        assign_titles_lem _ p header c.few c.titles,
      )
      refl

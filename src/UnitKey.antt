-- ===== src/UnitKey.antt =====
-- src/libaacs/unit_key.c: the unit key file (AACS/Unit_Key_RO.inf), its keys and its title map.
-- A NULL array is `none`. Allocation succeeds; what is only logged is left out.
pub mod Keys
pub mod Titles
pub mod Parse
pub mod Few
mod Examples
use libaacs.Common.{
  ℕ, zero, suc, ◌+◌, ◌-◌, ◌*◌, ◌/◌, ◌%◌, ◌^◌, Bool, true, false, ◌&&◌, ◌||◌, Option, none, some,
  List, [], ◌∷◌, map, ltb, leb, if◌then◌else◌, same_bytes, replicate, Run, ok, ◌>>=◌, byte_at, be16,
  be32, bytes_at,
}

-- `struct aacs_uk`. A `UNIT_KEY` is its 16 bytes.
pub record UnitKeys : Type 0 where
  pub num_bdmv_dir : ℕ
  pub app_type : ℕ
  pub use_skb_mkb : ℕ
  pub num_uk : ℕ
  pub uk : Option (List (List ℕ))
  pub enc_uk : Option (List (List ℕ))
  pub num_titles : ℕ
  pub title_cps_unit : Option (List ℕ)

-- `calloc(1, sizeof(*uk))`.
abbrev pub zeroed : UnitKeys
zeroed = record {
  num_bdmv_dir = 0;
  app_type = 0;
  use_skb_mkb = 0;
  num_uk = 0;
  uk = none;
  enc_uk = none;
  num_titles = 0;
  title_cps_unit = none;
}

abbrev pub empty_key : List ℕ
empty_key = replicate 16 0

-- The functions return the struct that they write to, and whether the C result is 0.
unfoldable pub parse_header : UnitKeys → List ℕ → ℕ → Run (UnitKeys × Bool)
parse_header uk p size = if ltb size 20 then ok (uk, false) else (do
  app_type ← byte_at p 16
  num_bdmv_dir ← byte_at p 17
  skb ← byte_at p 18
  let uk' = record uk {
    app_type = app_type;
    num_bdmv_dir = num_bdmv_dir;
    use_skb_mkb = skb / 2 ^ 7;
  }
  ok (uk', leb 1 num_bdmv_dir))

-- `title_cps_unit[i + 2] = MKINT_BE16(p + 26 + 2 + (4 * i))` for `n` titles from the title `i` on.
unfoldable pub title_units : ℕ → ℕ → List ℕ → Run (List ℕ)
title_units zero i p = ok []
title_units (suc n) i p = do
  unit ← be16 p (26 + 2 + 4 * i)
  units ← title_units n (i + 1) p
  ok (unit ∷ units)

-- Numbers from 1 on become indices, others 0.
unfoldable pub valid_unit : ℕ → ℕ → ℕ
valid_unit num_uk unit = if ltb unit 1 || ltb num_uk unit then 0 else unit - 1

unfoldable pub assign_titles : UnitKeys → List ℕ → ℕ → Run (UnitKeys × Bool)
unfolding title_units valid_unit
assign_titles uk p size = if ltb size 26 then ok (uk, false) else (do
  first_play ← be16 p 20
  top_menu ← be16 p 22
  num_titles ← be16 p 24
  if ltb (0xffff - 2) num_titles
      then ok (uk, false)
      else if ltb size (26 + 4 * num_titles)
      then ok (record uk { num_titles = 0 }, false)
      else (do
        units ← title_units num_titles 0 p
        let valid = map (valid_unit uk.num_uk) (first_play ∷ top_menu ∷ units)
        ok (record uk { num_titles = num_titles; title_cps_unit = some valid }, true)))

-- The loop that copies `n` keys; `uk_pos` is a `uint32_t`.
unfoldable pub enc_keys : ℕ → List ℕ → ℕ → Bool → Run (List (List ℕ))
enc_keys zero p uk_pos aacs2 = ok []
enc_keys (suc n) p uk_pos aacs2 = do
  let key_pos = (uk_pos + 48) % 2 ^ 32
  key ← bytes_at p key_pos 16
  let next_pos = if aacs2 then (key_pos + 16) % 2 ^ 32 else key_pos
  keys ← enc_keys n p next_pos aacs2
  ok (key ∷ keys)

unfoldable pub copy_keys : UnitKeys → List ℕ → ℕ → ℕ → Bool → Run (UnitKeys × Bool)
unfolding enc_keys
copy_keys uk p uk_pos num_uk aacs2 = do
  keys ← enc_keys num_uk p uk_pos aacs2
  ok (record uk { num_uk = num_uk; enc_uk = some keys }, true)

-- The checks for AACS2. The second one tests `uk->num_uk`, which is 0 here, for `num_uk`.
unfoldable pub aacs2_keys : UnitKeys → List ℕ → ℕ → ℕ → ℕ → Run (UnitKeys × Bool)
unfolding copy_keys
aacs2_keys uk p size uk_pos num_uk = do
  expected ← bytes_at p (48 + 48 + 16) 16
  if same_bytes empty_key expected
      then copy_keys uk p uk_pos num_uk false
      else if ltb size ((uk_pos + 64 * uk.num_uk + 16) % 2 ^ 32)
      then ok (uk, false)
      else copy_keys uk p uk_pos num_uk true

-- `_parse_uks` from `num_uk = MKINT_BE16(p + uk_pos)` on.
unfoldable pub key_storage : UnitKeys → List ℕ → ℕ → ℕ → Bool → Run (UnitKeys × Bool)
unfolding aacs2_keys copy_keys
key_storage uk p size uk_pos aacs2 = do
  num_uk ← be16 p uk_pos
  if ltb num_uk 1
      then ok (uk, true)
      else if ltb (size - uk_pos) 16
      then ok (uk, false)
      else if ltb ((size - uk_pos - 16) / 48) num_uk
      then ok (uk, false)
      else if aacs2 && ltb 1 num_uk
      then aacs2_keys uk p size uk_pos num_uk
      else copy_keys uk p uk_pos num_uk aacs2

-- `size` is at least 4 where 2 is subtracted.
unfoldable pub parse_uks : UnitKeys → List ℕ → ℕ → Bool → Run (UnitKeys × Bool)
unfolding key_storage
parse_uks uk p size aacs2 =
    let uk' = record uk { num_uk = 0 } in
    if ltb size 4 then ok (uk', false) else (do
      uk_pos ← be32 p 0
      if ltb (size - 2) uk_pos then ok (uk', false) else key_storage uk' p size uk_pos aacs2)

unfoldable pub after_header : List ℕ → ℕ → Bool → UnitKeys × Bool → Run (UnitKeys × Bool)
after_header p size aacs2 (uk, false) = ok (uk, false)
after_header p size aacs2 (uk, true) = do
  (uk', parsed) ← parse_uks uk p size aacs2
  (uk'', assigned) ← assign_titles uk' p size
  ok (uk'', parsed)

unfoldable pub parse : UnitKeys → List ℕ → ℕ → Bool → Run (UnitKeys × Bool)
unfolding after_header
parse uk p size aacs2 = do r ← parse_header uk p size; after_header p size aacs2 r

unfoldable pub if_parsed : UnitKeys × Bool → Option UnitKeys
if_parsed (uk, false) = none
if_parsed (uk, true) = some uk

unfoldable pub uk_parse : List ℕ → ℕ → Bool → Run (Option UnitKeys)
unfolding parse if_parsed
uk_parse p size aacs2 = do r ← parse zeroed p size aacs2; ok (if_parsed r)

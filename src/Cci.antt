-- ===== src/Cci.antt =====
-- src/libaacs/cci.c and cci_data.h: copy control information (AACS/CPSUnitNNNNN.cci).
-- The file is a buffer, and a pointer into it an offset. Allocation succeeds.
pub mod Bitcpy
pub mod Safety
pub mod Overrun
pub mod Unencrypted
pub mod LostTitles
mod Examples
use libaacs.Common.{
  ℕ, zero, suc, ◌+◌, ◌-◌, ◌/◌, ◌%◌, ◌^◌, bit_and, bit_xor, Bool, true, false, not, ◌&&◌, ◌||◌,
  Option, none, some, List, [], ◌∷◌, ◌++◌, ltb, ◌==◌, if◌then◌else◌, drop, replicate, Run, ok,
  ◌>>=◌, add64, sub64, byte_at, be16, bytes_at,
}

-- `AACS_BASIC_CCI`.
pub record BasicCci : Type 0 where
  pub epn : ℕ
  pub cci : ℕ
  pub image_constraint : ℕ
  pub digital_only : ℕ
  pub apstb : ℕ
  pub num_titles : ℕ
  pub title_type : List ℕ

-- `AACS_CCI_ENTRY`.
pub record CciEntry : Type 0 where
  pub type : ℕ
  pub version : ℕ
  pub data_length : ℕ
  pub basic_cci : BasicCci

abbrev pub aacs_basic_cci : ℕ
aacs_basic_cci = 0x0101

abbrev pub aacs_enhanced_title_usage : ℕ
aacs_enhanced_title_usage = 0x0111

-- After `memset(e, 0, sizeof(AACS_CCI_ENTRY))`.
abbrev pub no_basic_cci : BasicCci
no_basic_cci = record {
  epn = 0;
  cci = 0;
  image_constraint = 0;
  digital_only = 0;
  apstb = 0;
  num_titles = 0;
  title_type = replicate 128 0;
}

abbrev pub no_entry : CciEntry
no_entry = record { type = 0; version = 0; data_length = 0; basic_cci = no_basic_cci }

-- `((1 << (8 - bits)) - 1) ^ 0xff`, as a `uint8_t`.
bit_mask : ℕ → ℕ
bit_mask bits = bit_xor (2 ^ (8 - bits) - 1) 0xff % 2 ^ 8

-- `_bitcpy`: the bytes of `dst` afterwards. The number of odd bits is masked by 3.
pub bitcpy : List ℕ → List ℕ → ℕ → ℕ → Run (List ℕ)
unfolding bit_mask
bitcpy dst buf src num_bits = do
  let bytes = num_bits / 2 ^ 3
  let bits = bit_and num_bits 3
  copied ← bytes_at buf src bytes
  if bits == 0 then ok (copied ++ drop bytes dst) else (do
    last ← byte_at buf (src + bytes)
    ok (copied ++ (bit_and last (bit_mask bits) ∷ drop (bytes + 1) dst)))

-- -1, 0 and 1.
pub data EntryResult : Type 0 where
  failed skipped parsed : EntryResult

-- The fields that come from the bytes 6 and 7 and from the number of titles.
abbrev pub basic_fields : ℕ → ℕ → ℕ → BasicCci
basic_fields a b num_titles = record no_basic_cci {
  epn = bit_and a 0x04 / 2 ^ 2;
  cci = bit_and a 0x03;
  image_constraint = bit_and b 0x10 / 2 ^ 4;
  digital_only = bit_and b 0x40 / 2 ^ 3;
  apstb = bit_and b 0x07;
  num_titles = num_titles;
}

parse_basic : CciEntry → List ℕ → ℕ → Run (CciEntry × EntryResult)
unfolding bitcpy
parse_basic e buf p = do
  a ← byte_at buf (p + 6)
  b ← byte_at buf (p + 7)
  num_titles ← be16 buf (p + 8)
  let basic = basic_fields a b num_titles
  if ltb 1024 num_titles then ok (record e { basic_cci = basic }, failed) else (do
    title_type ← bitcpy basic.title_type buf (p + 10) num_titles
    ok (record e { basic_cci = record basic { title_type = title_type } }, parsed))

pub cci_parse_entry : List ℕ → ℕ → ℕ → Run (CciEntry × EntryResult)
unfolding parse_basic
cci_parse_entry buf p size = if ltb size 6 then ok (no_entry, failed) else (do
  type ← be16 buf p
  version ← be16 buf (p + 2)
  data_length ← be16 buf (p + 4)
  let e = record no_entry { type = type; version = version; data_length = data_length }
  if ltb (add64 size 6) data_length
      then ok (e, failed)
      else if type == aacs_basic_cci
      then (if data_length == 0x84 then parse_basic e buf p else ok (e, skipped))
      else if type == aacs_enhanced_title_usage
      then ok (e, parsed)
      else ok (e, skipped))

-- One more entry in front, if the entries behind it were parsed.
put_entry : CciEntry → Option (List CciEntry) → Option (List CciEntry)
put_entry e none = none
put_entry e (some es) = some (e ∷ es)

-- The loop of `cci_parse`. `size` may wrap.
pub parse_entries : ℕ → List ℕ → ℕ → ℕ → Run (Option (List CciEntry))
unfolding put_entry
parse_entries zero buf p size = ok (some [])
parse_entries (suc n) buf p size = do
  (e, r) ← cci_parse_entry buf p size
  let step = 6 + e.data_length
  let rest = (do es ← parse_entries n buf (p + step) (sub64 size step); ok (put_entry e es))
  elim r [ failed ↦ ok none | skipped ↦ rest | parsed ↦ rest ]

-- `struct aacs_cci` is its list of entries.
pub cci_parse : List ℕ → ℕ → Run (Option (List CciEntry))
unfolding parse_entries
cci_parse buf size = if ltb size 16 then ok none else (do
  num_entry ← be16 buf 0
  if ltb num_entry 1 || ltb ((2048 - 16) / 6) num_entry
      then ok none
      else parse_entries num_entry buf 16 (size - 16))

-- The loop over the bytes of `title_type`, from the byte `jj` on: true if all are 0.
basic_titles : ℕ → ℕ → List ℕ → Run Bool
basic_titles zero jj title_type = ok true
basic_titles (suc n) jj title_type = do
  t ← byte_at title_type jj
  let rest = basic_titles n (jj + 1) title_type
  if t == 0 then rest else ok false

copy_freely : CciEntry → Bool
copy_freely e =
    e.version == 0x0100
    && (e.data_length == 0x84
        && (b.cci == 0
            && (b.epn == 1
                && (not (b.image_constraint == 0) && (b.digital_only == 0 && b.apstb == 0)))))
  where
    b : BasicCci
    b = e.basic_cci

pub cci_is_unencrypted : List CciEntry → Run Bool
unfolding basic_titles copy_freely
cci_is_unencrypted [] = ok false
cci_is_unencrypted (e ∷ es) =
    let rest = cci_is_unencrypted es in
    if e.type == aacs_enhanced_title_usage
    then ok false
    else if e.type == aacs_basic_cci
    then (if copy_freely e
        then basic_titles ((e.basic_cci.num_titles + 7) / 8) 0 e.basic_cci.title_type
        else ok false)
    else rest

unfoldable pub cci_get_basic_cci : List CciEntry → Option BasicCci
cci_get_basic_cci [] = none
cci_get_basic_cci (e ∷ es) =
    if e.type == aacs_basic_cci then some e.basic_cci else cci_get_basic_cci es

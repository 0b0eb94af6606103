-- ===== src/Cci/LostTitles.antt =====
-- The title bits that `_bitcpy` of cci.c leaves out, followed to the answer of `cci_is_unencrypted`.
use libaacs.Common.{
  ℕ, zero, suc, ◌+◌, ◌-◌, ◌/◌, ◌%◌, ◌^◌, ◌≤◌, ◌<◌, ◌≡◌, refl, ◌∙◌, true, false, List, ◌∷◌, arith,
  ltb, length, replicate, length-replicate, ok, add64, byte, word16, slice, byte_at_lem, be16_lem,
  replicate-drop,
}
use libaacs.Cci.{
  CciEntry, parsed, aacs_basic_cci, bitcpy, basic_fields, parse_basic, cci_parse_entry,
  basic_titles, copy_freely, cci_is_unencrypted,
}
use libaacs.Cci.Bitcpy.{bitcpy_drops}

byte-replicate_zero : (n i : ℕ) → byte (replicate n 0) i ≡ 0
unfolding byte
byte-replicate_zero zero i = refl
byte-replicate_zero (suc n) zero = refl
byte-replicate_zero (suc n) (suc i) = byte-replicate_zero n i

basic_titles-replicate_zero :
    (n jj m : ℕ) → jj + n ≤ m → basic_titles n jj (replicate m 0) ≡ ok true
unfolding basic_titles
basic_titles-replicate_zero zero jj m h = refl
basic_titles-replicate_zero (suc n) jj m h =
    rw
      (
        byte_at_lem (replicate m 0) jj (omega (arith, length-replicate {0} {A = ℕ} m 0)),
        byte-replicate_zero m jj,
        basic_titles-replicate_zero n (jj + 1) m (omega arith),
      )
      refl

-- A basic CCI of the file that allows copies, with `num` titles of which the full bytes are 0.
pub record IsBasicFile (buf : List ℕ) (p num : ℕ) : Type 0 where
  pub type : word16 buf p ≡ aacs_basic_cci
  pub version : word16 buf (p + 2) ≡ 0x0100
  pub data_length : word16 buf (p + 4) ≡ 0x84
  pub flags : byte buf (p + 6) ≡ 0x04
  pub outputs : byte buf (p + 7) ≡ 0x10
  pub titles : word16 buf (p + 8) ≡ num
  pub basic : slice buf (p + 10) (num / 8) ≡ replicate (num / 8) 0
  pub inside : p + 138 ≤ length buf

-- The entry that the parser makes of it has no title bit set.
abbrev free_entry : ℕ → CciEntry
free_entry num = record {
  type = aacs_basic_cci;
  version = 0x0100;
  data_length = 0x84;
  basic_cci = basic_fields 0x04 0x10 num;
}

titles_copied :
    (buf : List ℕ) (p num : ℕ)
    → IsBasicFile buf p num
    → num ≤ 1024
    → num % 4 ≡ 0
    → bitcpy (replicate 128 0) buf (p + 10) num ≡ ok (replicate 128 0)
titles_copied buf p num f few half =
    let inside = f.inside in
    bitcpy_drops (replicate 128 0) buf (p + 10) num few half (omega arith)
    ∙ rw (f.basic, replicate-drop {0} {A = ℕ} (num / 8) 128 0 (omega arith)) refl

parse_basic-free :
    (buf : List ℕ) (p num : ℕ)
    → IsBasicFile buf p num
    → num ≤ 1024
    → num % 4 ≡ 0
    → length buf < 2 ^ 63
    → cci_parse_entry buf p (length buf - p) ≡ ok (free_entry num, parsed)
unfolding cci_parse_entry parse_basic
parse_basic-free buf p num f few half small =
    let inside = f.inside in
    let long : ltb (length buf - p) 6 ≡ false = ground arith in
    let accepted : ltb (add64 (length buf - p) 6) 0x84 ≡ false = ground arith in
    let counted : ltb 1024 num ≡ false = ground arith in
    rw
      (
        long,
        be16_lem buf p (omega arith),
        be16_lem buf (p + 2) (omega arith),
        be16_lem buf (p + 4) (omega arith),
        f.type,
        f.version,
        f.data_length,
        accepted,
        byte_at_lem buf (p + 6) (omega arith),
        byte_at_lem buf (p + 7) (omega arith),
        be16_lem buf (p + 8) (omega arith),
        f.flags,
        f.outputs,
        f.titles,
        counted,
        titles_copied buf p num f few half,
      )
      refl

cci_is_unencrypted-free :
    (num : ℕ) (es : List CciEntry) → num ≤ 1024 → cci_is_unencrypted (free_entry num ∷ es) ≡ ok true
unfolding cci_is_unencrypted copy_freely
cci_is_unencrypted-free num es few = basic_titles-replicate_zero ((num + 7) / 8) 0 128 (omega arith)

-- A basic CCI that allows copies is taken for one of basic titles only, if its number of titles is
-- 4 modulo 8 and none of its full bytes has a bit set: whatever the byte with the last four titles is,
-- which of them are enhanced is lost.
pub lost_titles :
    (buf : List ℕ) (p num : ℕ) (es : List CciEntry)
    → length buf < 2 ^ 63
    → num ≤ 1024
    → num % 8 ≡ 4
    → IsBasicFile buf p num
    → (e : CciEntry) × (cci_parse_entry buf p (length buf - p) ≡ ok (e, parsed))
      × (cci_is_unencrypted (e ∷ es) ≡ ok true)
lost_titles buf p num es small few half f = (
  free_entry num,
  parse_basic-free buf p num f few (omega arith) small,
  cci_is_unencrypted-free num es few,
)

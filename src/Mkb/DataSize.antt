-- ===== src/Mkb/DataSize.antt =====
-- `mkb_data_size` of mkb.c: what it returns on a block that is laid out as the format says, and the
-- blocks on which its loop does not end.
use libaacs.Common.{
  ℕ, zero, suc, ◌+◌, ◌^◌, ◌≤◌, ◌<◌, ◌≡◌, refl, ◌≢◌, List, [], ◌∷◌, ◌++◌, arith, length,
  length-append, All, ok, stuck, byte, word24, byte_at_lem, be24_lem, word24_lt,
}
use libaacs.Mkb.{Mkb, mkb_init, mkb_data_size, data_size_from}
use libaacs.Mkb.Safety.{IsValid}
use mathlib.Core.List.{append_assoc}
use libaacs.Mkb.Lookup.{
  Entry, Fits, encode, encode_all, image, image_next, header_word24, header_type, length-encode,
}

-- The entries that the loop passes over between two offsets.
pub data Visits (mkb : Mkb) : ℕ → ℕ → Type 0 where
  here : {p : ℕ} → Visits mkb p p
  past :
      {p q : ℕ}
      → p + 4 ≤ mkb.size
      → byte mkb.buf p ≢ 0
      → Visits mkb (p + word24 mkb.buf (p + 1)) q
      → Visits mkb p q

data_size_from-stuck :
    (fuel : ℕ) (mkb : Mkb) (p q : ℕ)
    → IsValid mkb
    → Visits mkb p q
    → q + 4 ≤ mkb.size
    → byte mkb.buf q ≢ 0
    → word24 mkb.buf (q + 1) ≡ 0
    → data_size_from fuel mkb p ≡ stuck
unfolding data_size_from
data_size_from-stuck zero mkb p q v r inside typed empty = refl
data_size_from-stuck (suc fuel) mkb p q v here inside typed empty =
    let sized = v.sized in
    let small = v.small in
    ground (
      arith,
      be24_lem mkb.buf (p + 1),
      byte_at_lem mkb.buf p,
      data_size_from-stuck fuel mkb p p v here inside typed empty,
    )
data_size_from-stuck (suc fuel) mkb p q v (past whole some_type r) inside typed empty =
    let sized = v.sized in
    let small = v.small in
    let short = word24_lt mkb.buf (p + 1) v.bytes in
    ground (
      arith,
      be24_lem mkb.buf (p + 1),
      byte_at_lem mkb.buf p,
      data_size_from-stuck fuel mkb (p + word24 mkb.buf (p + 1)) q v r inside typed empty,
    )

-- If the loop comes to a record of length 0 whose type is not 0, no number of rounds is enough.
pub mkb_data_size-stuck :
    (fuel : ℕ) (mkb : Mkb) (q : ℕ)
    → IsValid mkb
    → Visits mkb 0 q
    → q + 4 ≤ mkb.size
    → byte mkb.buf q ≢ 0
    → word24 mkb.buf (q + 1) ≡ 0
    → mkb_data_size fuel mkb ≡ stuck
unfolding mkb_data_size
mkb_data_size-stuck fuel mkb q v r inside typed empty =
    rw (data_size_from-stuck fuel mkb 0 q v r inside typed empty)

abbrev pub HasType : Entry → Type 0
HasType e = e.type ≢ 0

data_size_from-image :
    (fuel : ℕ) (front : List ℕ) (es : List Entry)
    → All Fits es
    → All HasType es
    → length (front ++ encode_all es) < 2 ^ 63
    → length (encode_all es) < fuel
    → data_size_from fuel (image front es) (length front) ≡ ok (length (front ++ encode_all es))
unfolding data_size_from
data_size_from-image zero front es fits typed small enough = absurd (omega arith)
data_size_from-image (suc fuel) front [] fits typed small enough =
    ground (arith, length-append front [])
data_size_from-image (suc fuel) front (e ∷ es) fits typed small enough =
    let some_type = typed.0 in
    ground (
      arith,
      be24_lem (front ++ encode_all (e ∷ es)) (length front + 1),
      byte_at_lem (front ++ encode_all (e ∷ es)) (length front),
      header_word24 front e es fits.0,
      header_type front e es,
      image_next front e es,
      length-encode front e,
      length-append front (encode_all (e ∷ es)),
      length-append (encode e) (encode_all es),
      append_assoc front (encode e) (encode_all es),
      data_size_from-image fuel (front ++ encode e) es fits.1 typed.1,
    )

-- On a sequence of records whose types are not 0 the result is the length of the block.
pub mkb_data_size-encode_all :
    (fuel : ℕ) (es : List Entry)
    → All Fits es
    → All HasType es
    → length (encode_all es) < 2 ^ 63
    → length (encode_all es) < fuel
    → mkb_data_size fuel (mkb_init (encode_all es) (length (encode_all es)))
      ≡ ok (length (encode_all es))
unfolding mkb_data_size mkb_init
mkb_data_size-encode_all fuel es fits typed small enough =
    ground (arith, data_size_from-image fuel [] es fits typed small enough)

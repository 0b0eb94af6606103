-- ===== src/Mkb/Lookup.antt =====
-- The walk of mkb.c on a block that is laid out as the format says: a sequence of records.
use libaacs.Common.{
  word24-append, ℕ, zero, suc, ◌+◌, ◌/◌, ◌%◌, ◌^◌, ◌<◌, ◌≡◌, refl, ◌∙◌, Option, none, some, List,
  [], ◌∷◌, ◌++◌, arith, ◌==◌, if◌then◌else◌, length, length-append, All, ok, byte, word24,
  byte_at_lem, be24_lem, byte-append,
}
use libaacs.Mkb.{Mkb, mkb_init, find_from, find_record}
use mathlib.Core.List.{append_assoc}

pub record Entry : Type 0 where
  pub type : ℕ
  pub body : List ℕ

abbrev pub entry_len : Entry → ℕ
entry_len e = length e.body + 4

-- One byte of type, three of length, and the body.
abbrev pub encode : Entry → List ℕ
encode e =
    e.type ∷ (entry_len e / 2 ^ 16) ∷ (entry_len e / 2 ^ 8 % 2 ^ 8) ∷ (entry_len e % 2 ^ 8) ∷ e.body

abbrev pub encode_all : List Entry → List ℕ
encode_all [] = []
encode_all (e ∷ es) = encode e ++ encode_all es

abbrev pub Fits : Entry → Type 0
Fits e = entry_len e < 2 ^ 24

-- Where the first entry of a type stands, if the first entry of all stands at `pos`.
abbrev pub locate : ℕ → List Entry → ℕ → Option (ℕ × ℕ)
locate type [] pos = none
locate type (e ∷ es) pos =
    if e.type == type then some (pos, entry_len e) else locate type es (pos + entry_len e)

abbrev pub image : List ℕ → List Entry → Mkb
image front es = record { size = length (front ++ encode_all es); buf = front ++ encode_all es }

pub header_word24 :
    (front : List ℕ) (e : Entry) (es : List Entry)
    → Fits e
    → word24 (front ++ encode_all (e ∷ es)) (length front + 1) ≡ entry_len e
header_word24 front e es h =
    word24-append front (encode_all (e ∷ es)) 1 ∙ unfold word24 byte in omega arith

pub header_type :
    (front : List ℕ) (e : Entry) (es : List Entry)
    → byte (front ++ encode_all (e ∷ es)) (length front) ≡ e.type
unfolding byte
header_type front e es = rw add_nought at (byte-append front (encode_all (e ∷ es)) 0)
  where
    add_nought : length front + 0 ≡ length front
    add_nought = omega arith

-- The layout behind an entry is that of the entries left.
pub image_next :
    (front : List ℕ) (e : Entry) (es : List Entry)
    → image front (e ∷ es) ≡ image (front ++ encode e) es
image_next front e es = rw (append_assoc front (encode e) (encode_all es)) refl

pub length-encode :
    (front : List ℕ) (e : Entry) → length (front ++ encode e) ≡ length front + entry_len e
length-encode front e = omega (arith, length-append front (encode e))

find_from-image :
    (fuel type : ℕ) (front : List ℕ) (es : List Entry)
    → All Fits es
    → length (front ++ encode_all es) < 2 ^ 63
    → length (encode_all es) < fuel
    → find_from fuel (image front es) type (length front) ≡ ok (locate type es (length front))
unfolding find_from
find_from-image zero type front es fits small enough = absurd (omega arith)
find_from-image (suc fuel) type front [] fits small enough = ground (arith, length-append front [])
find_from-image (suc fuel) type front (e ∷ es) fits small enough = ground (
  arith,
  be24_lem (front ++ encode_all (e ∷ es)) (length front + 1),
  byte_at_lem (front ++ encode_all (e ∷ es)) (length front),
  header_word24 front e es fits.0,
  header_type front e es,
  image_next front e es,
  length-encode front e,
  length-append front (encode_all (e ∷ es)),
  length-append (encode e) (encode_all es),
  append_assoc front (encode e) (encode_all es),
  find_from-image fuel type (front ++ encode e) es fits.1,
)

-- On a block that is a sequence of records, the search gives the offset and the length of the first
-- record of the type, and NULL if there is none.
pub find_record-encode_all :
    (type : ℕ) (es : List Entry)
    → All Fits es
    → length (encode_all es) < 2 ^ 63
    → find_record (mkb_init (encode_all es) (length (encode_all es))) type ≡ ok (locate type es 0)
unfolding find_record mkb_init
find_record-encode_all type es fits small =
    find_from-image (suc (length (encode_all es))) type [] es fits small (omega arith)

-- ===== src/Keydb/Grammar/DiscId.antt =====
-- The comparison of disc ids in KEYDB.cfg.
use libaacs.Common.{
  ℕ, zero, suc, ◌+◌, ◌*◌, ◌/◌, ◌%◌, ◌^◌, ◌<◌, bit_or, ◌≡◌, refl, ◌∙◌, Bool, true, false, ◌&&◌,
  Option, none, some, List, [], ◌∷◌, ◌++◌, map, arith, ltb, ◌==◌, same_bytes, length, All, Run, ok,
  fault, stuck, ◌>>=◌, Returns, IsByte, byte,
}
use libaacs.Common.Bits.{all_below, all_below_sound}
use libaacs.Common.{take-append, take_all}
use libaacs.Hex.{hex_value, hex_pair, nibble, hexstring_to_hex_array, str_print_hex}
use libaacs.Keydb.Distinct.{is_xdigit-some}
use libaacs.Keydb.Grammar.Titles.{discid_cmp, is_wanted, want_of}
use libaacs.Keydb.Grammar.Buffer.{IsHex, IsBuffer, hexstring_to_hex_array-front}

is_lower_nibble : ℕ → Bool
is_lower_nibble c = elim (hex_value c) [
  | none ↦ true
  | some v ↦ (bit_or c 0x20 == nibble v) && ltb v 16
]

nibbles_below : all_below is_lower_nibble 128 ≡ true
unfolding all_below is_lower_nibble hex_value nibble
nibbles_below = refl

digit_lt : (c v : ℕ) → hex_value c ≡ some v → c < 128
unfolding hex_value
digit_lt c v e = ground arith

abbrev IsNibble : ℕ → ℕ → Type 0
IsNibble c v = (bit_or c 0x20 ≡ nibble v) × (v < 16)

digit-IsNibble : (c v : ℕ) → hex_value c ≡ some v → IsNibble c v
unfolding is_lower_nibble
digit-IsNibble c v e =
    by_value (hex_value c) e (all_below_sound is_lower_nibble 128 c nibbles_below (digit_lt c v e))
  where
    by_value :
        (o : Option ℕ)
        → o ≡ some v
        → elim o [ none ↦ true | some u ↦ (bit_or c 0x20 == nibble u) && ltb u 16 ] ≡ true
        → IsNibble c v
    by_value none f h = absurd cc
    by_value (some u) f h = let same : u ≡ v = cc f in (ground (arith, same), ground (arith, same))

nibble_eq : (u v : ℕ) → u < 16 → v < 16 → (nibble u == nibble v) ≡ (u == v)
unfolding nibble
nibble_eq u v hu hv = ground arith

byte_eq :
    (x hi lo : ℕ)
    → x < 256
    → hi < 16
    → lo < 16
    → (x / 2 ^ 4 % 16 == hi && x % 16 == lo) ≡ (x == hi * 16 + lo)
byte_eq x hi lo hx hhi hlo = ground arith

and_assoc : (a b c : Bool) → (a && (b && c)) ≡ ((a && b) && c)
and_assoc true b c = refl
and_assoc false b c = refl

pair_eq :
    (x a b hi lo : ℕ)
    → x < 256
    → IsNibble a hi
    → IsNibble b lo
    → (nibble (x / 2 ^ 4 % 16) == bit_or a 0x20 && nibble (x % 16) == bit_or b 0x20)
      ≡ (x == hi * 16 + lo)
pair_eq x a b hi lo hx (ha, hhi) (hb, hlo) =
    rw
      (
        ha,
        hb,
        nibble_eq (x / 2 ^ 4 % 16) hi (omega arith) hhi,
        nibble_eq (x % 16) lo (omega arith) hlo,
        byte_eq x hi lo hx hhi hlo,
      )
      refl

-- The string of bytes without its final 0.
abbrev hex_chars : List ℕ → List ℕ
hex_chars [] = []
hex_chars (x ∷ xs) = nibble (x / 2 ^ 4 % 16) ∷ nibble (x % 16) ∷ hex_chars xs

abbrev lower : List ℕ → List ℕ
lower s = map (λ c. bit_or c 0x20) s

-- The two strings are the same if the bytes are.
abbrev Compares : List ℕ → List ℕ → List ℕ × Bool → Type 0
Compares id s w = same_bytes (hex_chars id) (lower s) ≡ same_bytes id w.0

hex_chars_compare :
    (n : ℕ) (id s : List ℕ)
    → All IsByte id
    → length id ≡ n
    → IsHex s
    → length s ≡ n * 2
    → Returns (Compares id s) (hexstring_to_hex_array n s)
unfolding hexstring_to_hex_array same_bytes
hex_chars_compare zero [] [] bytes len hex size = refl
hex_chars_compare zero [] (a ∷ s) bytes len hex size = absurd (omega arith)
hex_chars_compare zero (x ∷ id) s bytes len hex size = absurd (omega arith)
hex_chars_compare (suc n) [] s bytes len hex size = absurd (omega arith)
hex_chars_compare (suc n) (x ∷ id) [] bytes len hex size = absurd (omega arith)
hex_chars_compare (suc n) (x ∷ id) (a ∷ []) bytes len hex size = absurd (omega arith)
hex_chars_compare (suc n) (x ∷ id) (a ∷ b ∷ s) (byte, bytes) len (ha, (hb, hex)) size =
    let (hi, e) = is_xdigit-some a ha in
    let (lo, f) = is_xdigit-some b hb in
    let same = pair_eq x a b hi lo byte (digit-IsNibble a hi e) (digit-IsNibble b lo f) in
    rw (e, f)
      (unfold hex_pair in
        one_more hi lo same (hexstring_to_hex_array n s)
          (hex_chars_compare n id s bytes (omega arith) hex (omega arith)))
  where
    one_more :
        (hi lo : ℕ)
        → (nibble (x / 2 ^ 4 % 16) == bit_or a 0x20 && nibble (x % 16) == bit_or b 0x20)
          ≡ (x == hi * 16 + lo)
        → (m : Run (List ℕ × Bool)) → Returns (Compares id s) m
        → Returns (Compares (x ∷ id) (a ∷ b ∷ s)) (m >>= λ r. ok ((hi * 16 + lo) ∷ r.0, r.1))
    one_more hi lo same (ok r) h =
        unfold same_bytes in
        and_assoc (nibble (x / 2 ^ 4 % 16) == bit_or a 0x20) (nibble (x % 16) == bit_or b 0x20)
          (same_bytes (hex_chars id) (lower s))
        ∙ rw (same, h) refl
    one_more hi lo same fault h = h
    one_more hi lo same stuck h = h

str_print_hex-hex_chars : (xs : List ℕ) → str_print_hex xs ≡ hex_chars xs ++ (0 ∷ [])
unfolding str_print_hex
str_print_hex-hex_chars [] = refl
str_print_hex-hex_chars (x ∷ xs) = rw (str_print_hex-hex_chars xs) refl

length-hex_chars : (xs : List ℕ) → length (hex_chars xs) ≡ length xs * 2
length-hex_chars [] = refl
length-hex_chars (x ∷ xs) = omega (arith, length-hex_chars xs)

wanted_eq :
    (id s rest : List ℕ)
    → length id ≡ 20
    → length s ≡ 40
    → is_wanted (want_of (some id)) (s ++ (0 ∷ rest)) ≡ same_bytes (hex_chars id) (lower s)
unfolding is_wanted want_of discid_cmp
wanted_eq id s rest len size =
    rw
      (
        take-append 40 s (0 ∷ rest) size,
        take_all 20 id len,
        str_print_hex-hex_chars id,
        take-append 40 (hex_chars id) (0 ∷ []) (omega (arith, length-hex_chars id)),
      )
      refl

abbrev pub SameDisc : List ℕ → List ℕ → List ℕ × Bool → Type 0
SameDisc id hexkey w = is_wanted (want_of (some id)) hexkey ≡ same_bytes id w.0

-- If the buffer has 40 digits, of either case, an entry is for the disc that is wanted exactly if
-- they are the digits of its 20 bytes.
pub is_wanted-SameDisc :
    (id hexkey : List ℕ)
    → length id ≡ 20
    → All IsByte id
    → IsBuffer hexkey 40
    → Returns (SameDisc id hexkey) (hexstring_to_hex_array 20 hexkey)
is_wanted-SameDisc id hexkey len bytes (s, rest, e, size, hex, whole) =
    rw (e, hexstring_to_hex_array-front 20 s (0 ∷ rest) (omega arith))
      (wanted (hexstring_to_hex_array 20 s) (hex_chars_compare 20 id s bytes len hex (omega arith)))
  where
    wanted :
        (m : Run (List ℕ × Bool))
        → Returns (Compares id s) m
        → Returns (SameDisc id (s ++ (0 ∷ rest))) m
    wanted (ok w) h = wanted_eq id s rest len size ∙ h
    wanted fault h = h
    wanted stuck h = h

-- ===== src/Keydb/Grammar/KeyPairs.antt =====
-- One unit key of KEYDB.cfg, from its digits, as keydbcfg-parser.y reads it.
use libaacs.Common.{
  ℕ, ◌+◌, ◌≡◌, refl, ap, ◌∙◌, Bool, true, false, Option, none, some, List, [], ◌∷◌, ◌++◌, arith,
  leb, ◌==◌, le→leb, length, drop, replicate, length-append, All, Run, ok, fault, stuck, ◌>>=◌,
  Returns,
}
use libaacs.Common.Partial.{Returns-both}
use mathlib.Core.List.{append-nil}
use libaacs.Hex.{hexstring_to_hex_array}
use libaacs.Keydb.{DigitKeyPair}
use libaacs.Keydb.Distinct.{HasLength, hexstring_to_hex_array-HasLength}
use libaacs.Keydb.Grammar.{ParserState, start_hexkey, string_in, max_key_size, write_at, written}
use libaacs.Keydb.Grammar.Titles.{new_digit_key_pair_entry}
use libaacs.Keydb.Grammar.Buffer.{
  IsHex, HasBuffer, KeepsPointers, start_hexkey-KeepsPointers, append_assoc, string_in-hex,
}

-- A key that was read has its number, and the bytes of its digits.
abbrev pub IsPairOf : ℕ × List ℕ → DigitKeyPair → Type 0
IsPairOf key pair = (pair.digit ≡ key.0) × (hexstring_to_hex_array 16 key.1 ≡ ok (pair.key, true))

abbrev pub ArePairsOf : List (ℕ × List ℕ) → List DigitKeyPair → Type 0
ArePairsOf [] [] = Unit {0}
ArePairsOf (key ∷ keys) (pair ∷ pairs) = IsPairOf key pair × ArePairsOf keys pairs
ArePairsOf _ _ = ⊥

abbrev pub OptPairOf : ℕ × List ℕ → Option DigitKeyPair → Type 0
OptPairOf key none = ⊥
OptPairOf key (some pair) = IsPairOf key pair

abbrev pub AreKeyDigits : List (ℕ × List ℕ) → Type 0
AreKeyDigits keys = All (λ key. IsHex key.1 × (length key.1 ≡ 32)) keys

pub new_digit_key_pair_entry-OptPairOf :
    (digit : ℕ) (key : List ℕ)
    → IsHex key
    → length key ≡ 32
    → Returns (OptPairOf (digit, key)) (new_digit_key_pair_entry digit key)
unfolding new_digit_key_pair_entry
new_digit_key_pair_entry-OptPairOf digit key hex len =
    let good : (length key == 32) ≡ true = ground arith in
    rw good (
      converted (hexstring_to_hex_array 16 key) refl
        (hexstring_to_hex_array-HasLength 16 key hex (omega arith)))
  where
    converted :
        (m : Run (List ℕ × Bool))
        → hexstring_to_hex_array 16 key ≡ m
        → Returns (HasLength 16) m
        → Returns
            (OptPairOf (digit, key))
            (m >>= λ w. ok (some (record { digit = digit; key = written (replicate 16 0) w })))
    converted (ok (bytes, done)) e (good, size) =
        unfold written in (refl, rw (size, append-nil bytes) (e ∙ ap (λ b. ok (bytes, b)) good))
    converted fault e h = h
    converted stuck e h = h

-- The buffer has the key, and the pointers stay.
abbrev pub HoldsKey : ParserState → List ℕ → ParserState → Type 0
HoldsKey ps key r = KeepsPointers ps r × (string_in r.hexkey ≡ ok key)

pub start_hexkey-HoldsKey :
    (ps : ParserState) (key : List ℕ)
    → HasBuffer ps
    → IsHex key
    → length key ≡ 32
    → Returns (HoldsKey ps key) (start_hexkey ps key)
unfolding start_hexkey write_at
start_hexkey-HoldsKey ps key buffer hex len =
    let short : leb max_key_size (length key) ≡ false = ground arith in
    let size = length-append key (0 ∷ []) in
    let whole = buffer.5 in
    let room : leb (0 + length (key ++ (0 ∷ []))) (length ps.hexkey) ≡ true =
      le→leb (0 + length (key ++ (0 ∷ []))) (length ps.hexkey) (omega arith) in
    Returns-both (KeepsPointers ps) (λ r. string_in r.hexkey ≡ ok key) (start_hexkey ps key)
      (start_hexkey-KeepsPointers ps key buffer hex)
      (rw (short, room)
        (rw (append_assoc key (0 ∷ []) (drop (0 + length (key ++ (0 ∷ []))) ps.hexkey))
          (string_in-hex key (drop (0 + length (key ++ (0 ∷ []))) ps.hexkey) hex)))

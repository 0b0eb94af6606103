-- ===== src/Hex.antt =====
-- src/util/strutl.c: hexadecimal strings. A character is its code, and a pointer into a string is the
-- rest of the string with its final 0; to read behind that is a fault.
pub mod RoundTrip
use libaacs.Common.{
  ℕ, zero, suc, ◌+◌, ◌-◌, ◌*◌, ◌/◌, ◌%◌, ◌^◌, Bool, true, false, not, ◌&&◌, ◌||◌, Option, none,
  some, List, [], ◌∷◌, ltb, leb, ◌==◌, if◌then◌else◌, take, Run, ok, fault, ◌>>=◌, ◌>>◌,
}

-- `_hexstring_to_unsigned_char`, whose cases are `isxdigit` too.
unfoldable pub hex_value : ℕ → Option ℕ
hex_value c =
    if leb 48 c && leb c 57
    then some (c - 48)
    else if leb 97 c && leb c 102
    then some (c - 87)
    else if leb 65 c && leb c 70
    then some (c - 55)
    else none

-- One byte of `hexstring_to_hex_array`: what is written to the array, and the result.
unfoldable pub hex_pair : Option ℕ → Option ℕ → Run (List ℕ × Bool) → Run (List ℕ × Bool)
hex_pair none lo rest = ok ([], false)
hex_pair (some hi) none rest = ok ([], false)
hex_pair (some hi) (some lo) rest = rest >>= λ r. ok ((hi * 16 + lo) ∷ r.0, r.1)

-- `size` bytes of the array. The second digit is not read if the first one is none.
unfoldable pub hexstring_to_hex_array : ℕ → List ℕ → Run (List ℕ × Bool)
unfolding hex_pair hex_value
hexstring_to_hex_array zero s = ok ([], true)
hexstring_to_hex_array (suc size) [] = fault
hexstring_to_hex_array (suc size) (a ∷ []) = hex_pair (hex_value a) (some 0) fault
hexstring_to_hex_array (suc size) (a ∷ b ∷ s) =
    hex_pair (hex_value a) (hex_value b) (hexstring_to_hex_array size s)

-- `nibble[i]`.
unfoldable pub nibble : ℕ → ℕ
nibble i = if ltb i 10 then 48 + i else 87 + i

unfoldable pub str_print_hex : List ℕ → List ℕ
unfolding nibble
str_print_hex [] = 0 ∷ []
str_print_hex (x ∷ xs) = nibble (x / 2 ^ 4 % 16) ∷ nibble (x % 16) ∷ str_print_hex xs

-- The loops of `str_next_line`.
unfoldable pub skip_line : List ℕ → Run (List ℕ)
skip_line [] = fault
skip_line (c ∷ s) =
    let rest = skip_line s in if c == 0 || c == 13 || c == 10 then ok (c ∷ s) else rest

unfoldable pub skip_breaks : List ℕ → Run (List ℕ)
skip_breaks [] = fault
skip_breaks (c ∷ s) =
    let rest = skip_breaks s in if c == 13 || c == 10 || c == 32 then rest else ok (c ∷ s)

unfoldable pub str_next_line : List ℕ → Run (List ℕ)
unfolding skip_line skip_breaks
str_next_line p = skip_line p >>= skip_breaks

unfoldable pub str_skip_space : List ℕ → Run (List ℕ)
str_skip_space [] = fault
str_skip_space (c ∷ s) =
    let rest = str_skip_space s in
    if c == 32 || c == 13 || c == 10 || c == 9 then rest else ok (c ∷ s)

unfoldable pub is_xdigit : ℕ → Bool
unfolding hex_value
is_xdigit c = elim (hex_value c) [ none ↦ false | some _ ↦ true ]

-- Exactly `len` digits.
unfoldable pub str_is_hex_string : ℕ → List ℕ → Run Bool
unfolding is_xdigit
str_is_hex_string len [] = fault
str_is_hex_string zero (c ∷ s) = ok (not (is_xdigit c))
str_is_hex_string (suc len) (c ∷ s) =
    let rest = str_is_hex_string len s in if is_xdigit c then rest else ok false

-- The digits of the copy, or `none` for NULL.
unfoldable pub str_get_hex_string : List ℕ → ℕ → Run (Option (List ℕ))
unfolding str_skip_space str_is_hex_string
str_get_hex_string p n = do
  s ← str_skip_space p
  good ← str_is_hex_string n s
  if good then ok (some (take n s)) else ok none

-- ===== src/Keydb/Grammar/Buffer.antt =====
-- The buffer of the parser of KEYDB.cfg.
use libaacs.Common.{
  ℕ, zero, suc, ◌+◌, ◌*◌, ◌<◌, ◌≡◌, refl, ap, ◌∙◌, inl, inr, Bool, true, false, List, [], ◌∷◌, ◌++◌,
  arith, leb, ◌==◌, le→leb, Bool-cases, length, set, take, drop, length-append, length-set, All, ok,
  Returns, length-drop,
}
use libaacs.Common.{take-append}
use libaacs.Hex.{is_xdigit, hexstring_to_hex_array}
use libaacs.Hex.RoundTrip.{zero_no_digit}
use libaacs.Common.Partial.{Returns-then}
use libaacs.Keydb.Distinct.{HasLength}
use libaacs.Keydb.Grammar.{
  ParserState, max_key_size, write_at, string_in, start_hexkey, more_hexkey, written,
}

abbrev pub IsHex : List ℕ → Type 0
IsHex s = All (λ c. is_xdigit c ≡ true) s

-- The buffer is whole, and starts with a string of `n` digits and a 0.
abbrev pub IsBuffer : List ℕ → ℕ → Type 0
IsBuffer b n =
    (s : List ℕ) × (rest : List ℕ) × (b ≡ s ++ (0 ∷ rest))
    × (length s ≡ n)
    × IsHex s
    × (length b ≡ max_key_size)

pub IsHex-append : (s t : List ℕ) → IsHex s → IsHex t → IsHex (s ++ t)
IsHex-append [] t hs ht = ht
IsHex-append (c ∷ s) t (h, hs) ht = (h, IsHex-append s t hs ht)

pub append_assoc : (s t r : List ℕ) → (s ++ t) ++ r ≡ s ++ (t ++ r)
append_assoc [] t r = refl
append_assoc (c ∷ s) t r = ap (λ x. c ∷ x) (append_assoc s t r)

-- A string that is put behind others with its 0, into a buffer with room.
write_at-IsBuffer :
    (b : List ℕ) (s str old : List ℕ)
    → b ≡ s ++ old
    → IsHex s
    → IsHex str
    → length b ≡ max_key_size
    → length s + length str < max_key_size
    → Returns (λ r. IsBuffer r (length s + length str)) (write_at b (length s) (str ++ (0 ∷ [])))
unfolding write_at
write_at-IsBuffer b s str old e hs ht whole room =
    let len = length-append str (0 ∷ []) in
    rw (le→leb (length s + length (str ++ (0 ∷ []))) (length b) (omega (arith, len))) (
      s ++ str,
      drop (length s + length (str ++ (0 ∷ []))) b,
      layout,
      length-append s str,
      IsHex-append s str hs ht,
      size,
    )
  where
    n : ℕ
    n = length s + length (str ++ (0 ∷ []))

    front : take (length s) b ≡ s
    front = rw e (take-append (length s) s old refl)

    layout :
        take (length s) b ++ ((str ++ (0 ∷ [])) ++ drop (length s + length (str ++ (0 ∷ []))) b)
        ≡ (s ++ str) ++ (0 ∷ drop (length s + length (str ++ (0 ∷ []))) b)
    layout =
        rw
          (
            front,
            append_assoc str (0 ∷ []) (drop (length s + length (str ++ (0 ∷ []))) b),
            append_assoc s str (0 ∷ drop (length s + length (str ++ (0 ∷ []))) b),
          )
          refl

    size :
        length
          (take (length s) b ++ ((str ++ (0 ∷ [])) ++ drop (length s + length (str ++ (0 ∷ []))) b))
        ≡ max_key_size
    size = rw front (
        omega (
          arith,
          length-append s ((str ++ (0 ∷ [])) ++ drop (length s + length (str ++ (0 ∷ []))) b),
          length-append (str ++ (0 ∷ [])) (drop (length s + length (str ++ (0 ∷ []))) b),
          length-append str (0 ∷ []),
          length-drop (length s + length (str ++ (0 ∷ []))) b,
        ))

write_behind :
    (b : List ℕ) (s str old : List ℕ) (n m : ℕ)
    → b ≡ s ++ old
    → IsHex s
    → IsHex str
    → length b ≡ max_key_size
    → length s ≡ n
    → n + length str ≡ m
    → m < max_key_size
    → Returns (λ r. IsBuffer r m) (write_at b n (str ++ (0 ∷ [])))
write_behind b s str old n m e hs ht whole len sum room =
    let total : length s + length str ≡ m = omega arith in
    rw (← total) (rw (← len) (write_at-IsBuffer b s str old e hs ht whole (omega arith)))

abbrev pub HasBuffer : ParserState → Type 0
HasBuffer ps = IsBuffer ps.hexkey ps.hexkey_size

-- The pointers stay.
abbrev pub KeepsPointers : ParserState → ParserState → Type 0
KeepsPointers ps r = HasBuffer r × (r.celist ≡ ps.celist) × (r.dkplist ≡ ps.dkplist)

emptied : (b s rest : List ℕ) → b ≡ s ++ (0 ∷ rest) → (r : List ℕ) × (set b 0 0 ≡ 0 ∷ r)
emptied b [] rest e = rw e (rest, refl)
emptied b (c ∷ s) rest e = rw e (s ++ (0 ∷ rest), refl)

pub start_hexkey-KeepsPointers :
    (ps : ParserState) (str : List ℕ)
    → HasBuffer ps
    → IsHex str
    → Returns (KeepsPointers ps) (start_hexkey ps str)
unfolding start_hexkey
start_hexkey-KeepsPointers ps str (s, rest, e, size, hex, whole) digits =
    elim (Bool-cases (leb max_key_size (length str))) [
      | inl long ↦ rw long (
        (
          [],
          (emptied ps.hexkey s rest e).0,
          (emptied ps.hexkey s rest e).1,
          refl,
          record {},
          length-set ps.hexkey 0 0 ∙ whole,
        ),
        refl,
        refl,
      )
      | inr short ↦ rw short (
          Returns-then (λ r. IsBuffer r (length str)) (KeepsPointers ps)
            (write_at ps.hexkey 0 (str ++ (0 ∷ []))) _
            (write_behind ps.hexkey [] str ps.hexkey 0 (length str) refl (record {}) digits whole
              refl (omega arith) (ground arith))
            (λ b good. (good, refl, refl)))
    ]

pub more_hexkey-KeepsPointers :
    (ps : ParserState) (str : List ℕ)
    → HasBuffer ps
    → IsHex str
    → Returns (KeepsPointers ps) (more_hexkey ps str)
unfolding more_hexkey
more_hexkey-KeepsPointers ps str (s, rest, e, size, hex, whole) digits =
    elim (Bool-cases (leb max_key_size (ps.hexkey_size + length str))) [
      | inl long ↦ rw long ((s, rest, e, size, hex, whole), refl, refl)
      | inr short ↦ rw short (
          Returns-then (λ r. IsBuffer r (ps.hexkey_size + length str)) (KeepsPointers ps)
            (write_at ps.hexkey ps.hexkey_size (str ++ (0 ∷ []))) _
            (write_behind ps.hexkey s str (0 ∷ rest) ps.hexkey_size (ps.hexkey_size + length str) e
              hex digits whole size refl (ground arith))
            (λ b good. (good, refl, refl)))
    ]

digit_not_zero : (c : ℕ) → is_xdigit c ≡ true → (c == 0) ≡ false
digit_not_zero c digit = elim (Bool-cases (c == 0)) [
  | inl end ↦ let e : c ≡ 0 = ground arith in absurd (cc (zero_no_digit, digit, e))
  | inr other ↦ other
]

-- The string of the buffer is what was put there.
pub string_in-hex : (s rest : List ℕ) → IsHex s → string_in (s ++ (0 ∷ rest)) ≡ ok s
unfolding string_in
string_in-hex [] rest hex = refl
string_in-hex (c ∷ s) rest (digit, hex) = rw (digit_not_zero c digit, string_in-hex s rest hex) refl

pub string_in-IsHex :
    (b : List ℕ) (n : ℕ) → IsBuffer b n → Returns (λ s. IsHex s × (length s ≡ n)) (string_in b)
string_in-IsHex b n (s, rest, e, len, hex, whole) = rw (e, string_in-hex s rest hex) (hex, len)

pub hexstring_to_hex_array-front :
    (n : ℕ) (s rest : List ℕ)
    → length s ≡ n * 2
    → hexstring_to_hex_array n (s ++ rest) ≡ hexstring_to_hex_array n s
unfolding hexstring_to_hex_array
hexstring_to_hex_array-front zero s rest len = refl
hexstring_to_hex_array-front (suc n) [] rest len = absurd (omega arith)
hexstring_to_hex_array-front (suc n) (a ∷ []) rest len = absurd (omega arith)
hexstring_to_hex_array-front (suc n) (a ∷ b ∷ s) rest len =
    rw (hexstring_to_hex_array-front n s rest (omega arith)) refl

pub length-written :
    (n : ℕ) (array : List ℕ) (w : List ℕ × Bool)
    → HasLength n w
    → length array ≡ n
    → length (written array w) ≡ n
unfolding written
length-written n array (key, converted) (good, len) size =
    omega (arith, length-append key (drop (length key) array), length-drop (length key) array)

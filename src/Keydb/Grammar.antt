-- ===== src/Keydb/Grammar.antt =====
-- src/file/keydbcfg-parser.y, the actions of the grammar of KEYDB.cfg. Which actions the parser of
-- bison runs, in which order, on the tokens of flex, is a parameter: a list of actions. A string
-- is the list of its characters, without the final 0.
pub mod Titles
pub mod Buffer
pub mod WellFormed
pub mod Discs
pub mod Parsed
pub mod DiscId
pub mod Unended
pub mod LostKeys
pub mod KeyPairs
pub mod UnitKeys
pub mod Examples
use libaacs.Common.{
  ℕ, ◌+◌, ◌-◌, ◌*◌, ◌%◌, ◌^◌, Bool, not, Option, none, some, List, [], ◌∷◌, ◌++◌, ltb, leb, ◌==◌,
  if◌then◌else◌, length, set, take, drop, replicate, Run, ok, fault, ◌>>=◌, ◌>>◌,
}
use libaacs.Hex.{hexstring_to_hex_array, hex_value}
use libaacs.MediaKey.{DeviceKey}
use libaacs.Keydb.{HostCert}

-- A reduction with an action. A `hexstring_list` or `hexkey` is made of tokens `HEXSTRING`.
pub data Action : Type 0 where
  dk_entry :
      List (List ℕ) → List (List ℕ) → Option (List (List ℕ)) → Option (List (List ℕ)) → Action
  pk_entry : List (List ℕ) → Action
  host_cert_entry : List (List ℕ) → List (List ℕ) → Action
  hexkey_start hexkey_more : List ℕ → Action
  disc_info mek_entry vid_entry vuk_entry : Action
  uk_data : ℕ → Action
  -- The end of a list: `bn_entry`, `pak_entry`, `tk_entry` and `uk_entry`.
  end_of_list : Action

-- `parser_state`. `celist` points to an entry of the list, which is given by the number of entries
-- behind it; `dkplist` points to the last key of such an entry. `hexkey` is the buffer.
pub record ParserState : Type 0 where
  pub celist : Option ℕ
  pub dkplist : Option ℕ
  pub want_disc_id : Option (List ℕ)
  pub all_discs : Bool
  pub hexkey_size : ℕ
  pub hexkey : List ℕ

-- `MAX_KEY_SIZE`.
abbrev pub max_key_size : ℕ
max_key_size = 128

-- The rule `hexstring_list`, with `strcpy` and `strcat`.
unfoldable pub hexstring_list : List (List ℕ) → List ℕ
hexstring_list [] = []
hexstring_list (str ∷ strs) = str ++ hexstring_list strs

-- `memcpy` to the offset `p` of a buffer.
unfoldable pub write_at : List ℕ → ℕ → List ℕ → Run (List ℕ)
write_at b p src =
    if leb (p + length src) (length b)
    then ok (take p b ++ (src ++ drop (p + length src) b))
    else fault

-- The string at the start of a buffer.
unfoldable pub string_in : List ℕ → Run (List ℕ)
string_in [] = fault
string_in (c ∷ b) = let rest = string_in b >>= λ s. ok (c ∷ s) in if c == 0 then ok [] else rest

-- An array into which `hexstring_to_hex_array` wrote.
unfoldable pub written : List ℕ → List ℕ × Bool → List ℕ
written array w = w.0 ++ drop (length w.0) array

-- `strtoul` with base 16, of digits: the largest `unsigned long` where the number is too large.
unfoldable pub strtoul16 : List ℕ → ℕ → ℕ
unfolding hex_value
strtoul16 [] n = if ltb n (2 ^ 64) then n else 2 ^ 64 - 1
strtoul16 (c ∷ s) n = elim (hex_value c) [
  | none ↦ if ltb n (2 ^ 64) then n else 2 ^ 64 - 1
  | some v ↦ strtoul16 s (n * 16 + v)
]

unfoldable pub opt_strtoul16 : Option (List (List ℕ)) → ℕ
unfolding strtoul16 hexstring_list
opt_strtoul16 none = 0
opt_strtoul16 (some strs) = strtoul16 (hexstring_list strs) 0

-- An entry at the end of the list.
unfoldable pub add_dk_entry :
    List DeviceKey
    → List ℕ
    → List ℕ
    → Option (List (List ℕ))
    → Option (List (List ℕ))
    → Run (List DeviceKey)
unfolding written opt_strtoul16
add_dk_entry dkl key node uv u_mask_shift =
    if length key == 32
    then (do
      w ← hexstring_to_hex_array 16 key
      ok (
          dkl
          ++ (record {
            key = written (replicate 16 0) w;
            node = strtoul16 node 0;
            uv = opt_strtoul16 uv % 2 ^ 32;
            u_mask_shift = opt_strtoul16 u_mask_shift % 2 ^ 8;
          }
              ∷ [])))
    else ok dkl

unfoldable pub add_pk_entry : List (List ℕ) → List ℕ → Run (List (List ℕ))
unfolding written
add_pk_entry pkl key =
    if length key == 32
    then (do w ← hexstring_to_hex_array 16 key; ok (pkl ++ (written (replicate 16 0) w ∷ [])))
    else ok pkl

unfoldable pub add_cert_entry : List HostCert → List ℕ → List ℕ → Run (List HostCert)
unfolding written
add_cert_entry list host_priv_key host_cert =
    if not (length host_priv_key == 40)
    then ok list
    else if not (length host_cert == 184)
    then ok list
    else (do
      key ← hexstring_to_hex_array 20 host_priv_key
      cert ← hexstring_to_hex_array 92 host_cert
      ok (
          list
          ++ (record {
            host_priv_key = written (replicate 20 0) key;
            host_cert = written (replicate 92 0) cert;
          }
              ∷ [])))

-- The first token of a `hexkey`, and a further one.
unfoldable pub start_hexkey : ParserState → List ℕ → Run ParserState
unfolding write_at
start_hexkey ps str =
    if leb max_key_size (length str)
    then ok (record ps { hexkey = set ps.hexkey 0 0; hexkey_size = 0 })
    else (do
      b ← write_at ps.hexkey 0 (str ++ (0 ∷ []))
      ok (record ps { hexkey = b; hexkey_size = length str }))

unfoldable pub more_hexkey : ParserState → List ℕ → Run ParserState
unfolding write_at
more_hexkey ps str = if leb max_key_size (ps.hexkey_size + length str) then ok ps else (do
  b ← write_at ps.hexkey ps.hexkey_size (str ++ (0 ∷ []))
  ok (record ps { hexkey = b; hexkey_size = ps.hexkey_size + length str }))

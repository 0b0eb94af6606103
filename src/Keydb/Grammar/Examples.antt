-- ===== src/Keydb/Grammar/Examples.antt =====
-- The theorems on KEYDB.cfg at concrete inputs.
use libaacs.Common.{
  ℕ, zero, suc, refl, true, false, none, some, List, [], ◌∷◌, ◌++◌, arith, replicate, All, Returns,
  IsByte,
}
use libaacs.Hex.{is_xdigit, hex_value, hexstring_to_hex_array}
use libaacs.Keydb.{ConfigFile}
use libaacs.Keydb.Grammar.{
  Action, ParserState, pk_entry, hexkey_start, disc_info, vuk_entry, uk_data, end_of_list,
}
use libaacs.Keydb.Grammar.Titles.{Parser, reduce_all, keydbcfg_parse_config}
use libaacs.Keydb.Grammar.Buffer.{IsHex, IsBuffer}
use libaacs.Keydb.Grammar.WellFormed.{IsConfig, IsState, IsAction}
use libaacs.Keydb.Grammar.Parsed.{GivesDigits, ReadConfig, keydbcfg_parse_config-ReadConfig}
use libaacs.Keydb.Grammar.DiscId.{SameDisc, is_wanted-SameDisc}
use libaacs.Keydb.Grammar.UnitKeys.{HasUks, reduce_all-HasUks}
use libaacs.Keydb.Grammar.LostKeys.{uk_list, HasNoUks, reduce_all-lost_uks}

-- Digits `c` and `C`.
abbrev digits_c : ℕ → List ℕ
digits_c n = replicate n b'c'

digits_c-IsHex : (n : ℕ) → IsHex (digits_c n)
unfolding is_xdigit hex_value
digits_c-IsHex zero = record {}
digits_c-IsHex (suc n) = (refl, digits_c-IsHex n)

-- A processing key, and an entry with a unique key and a unit key.
abbrev pub sample_actions : List Action
sample_actions =
    pk_entry (digits_c 32 ∷ [])
    ∷ hexkey_start (digits_c 40)
    ∷ disc_info
    ∷ hexkey_start (digits_c 32)
    ∷ vuk_entry
    ∷ hexkey_start (digits_c 32)
    ∷ uk_data 1
    ∷ end_of_list
    ∷ []

abbrev pub sample_parser : Parser
sample_parser contents = (sample_actions, true)

pub sample_parser-GivesDigits : GivesDigits sample_parser
sample_parser-GivesDigits contents = (
  (digits_c-IsHex 32, record {}),
  (
    digits_c-IsHex 40,
    (
      record {},
      (digits_c-IsHex 32, (record {}, (digits_c-IsHex 32, (record {}, (record {}, record {}))))),
    ),
  ),
)

abbrev empty_config : ConfigFile
empty_config = record { dkl = []; pkl = []; host_cert_list = []; list = [] }

empty_config-IsConfig : IsConfig empty_config
empty_config-IsConfig = (record {}, record {}, record {}, record {})

keydbcfg_parse_config-ReadConfig_example :
    Returns ReadConfig
      (keydbcfg_parse_config sample_parser empty_config (some []) (some (replicate 20 0xcc)) false)
keydbcfg_parse_config-ReadConfig_example =
    keydbcfg_parse_config-ReadConfig sample_parser empty_config (some []) (some (replicate 20 0xcc))
      false sample_parser-GivesDigits empty_config-IsConfig

abbrev sample_id : List ℕ
sample_id = replicate 20 0xcc

bytes_of : (n : ℕ) → All IsByte (replicate n 0xcc)
bytes_of zero = record {}
bytes_of (suc n) = (omega arith, bytes_of n)

-- The digits are written in the other case.
abbrev sample_hexkey : List ℕ
sample_hexkey = replicate 40 b'C' ++ (0 ∷ replicate 87 0)

upper_c-IsHex : (n : ℕ) → IsHex (replicate n b'C')
unfolding is_xdigit hex_value
upper_c-IsHex zero = record {}
upper_c-IsHex (suc n) = (refl, upper_c-IsHex n)

sample_hexkey-IsBuffer : IsBuffer sample_hexkey 40
sample_hexkey-IsBuffer = (replicate 40 b'C', replicate 87 0, refl, refl, upper_c-IsHex 40, refl)

is_wanted-SameDisc_example :
    Returns (SameDisc sample_id sample_hexkey) (hexstring_to_hex_array 20 sample_hexkey)
is_wanted-SameDisc_example =
    is_wanted-SameDisc sample_id sample_hexkey refl (bytes_of 20) sample_hexkey-IsBuffer

-- An entry whose list of unit keys was not ended, and the disc id of the next one.
abbrev one_entry : ConfigFile
one_entry = record empty_config {
  list =
      record {
        discid = replicate 20 1;
        mk = replicate 16 0;
        vid = replicate 16 0;
        vuk = replicate 16 0;
        uk = record { digit = 1; key = replicate 16 1 } ∷ [];
      }
      ∷ [];
}

abbrev behind_bar : ParserState
behind_bar = record {
  celist = some 0;
  dkplist = some 0;
  want_disc_id = none;
  all_discs = true;
  hexkey_size = 40;
  hexkey = sample_hexkey;
}

behind_bar-IsState : IsState (one_entry, behind_bar)
behind_bar-IsState = (
  (record {}, record {}, record {}, ((refl, refl, refl, refl, (refl, record {})), record {})),
  sample_hexkey-IsBuffer,
  omega arith,
  omega arith,
)

abbrev one_key : List (ℕ × List ℕ)
one_key = (1, digits_c 32) ∷ []

-- The volume unique key of the next disc, and its list of unit keys.
abbrev vuk_and_key : List Action
vuk_and_key = hexkey_start (digits_c 32) ∷ vuk_entry ∷ uk_list one_key

vuk_and_key-AreActions : All IsAction vuk_and_key
vuk_and_key-AreActions =
    (digits_c-IsHex 32, (record {}, (digits_c-IsHex 32, (record {}, record {}))))

reduce_all-lost_uks_example :
    Returns HasNoUks (reduce_all (disc_info ∷ vuk_and_key) (one_entry, behind_bar))
reduce_all-lost_uks_example =
    reduce_all-lost_uks one_entry behind_bar 0 vuk_and_key behind_bar-IsState (refl, refl) refl
      vuk_and_key-AreActions (record {}, (record {}, (record {}, (record {}, record {}))))

-- The same entry without a list that is open.
abbrev behind_line : ParserState
behind_line = record behind_bar { dkplist = none }

abbrev two_keys : List (ℕ × List ℕ)
two_keys = (1, digits_c 32) ∷ (2, digits_c 32) ∷ []

reduce_all-HasUks_example :
    Returns
      (HasUks one_entry two_keys)
      (reduce_all (disc_info ∷ uk_list two_keys) (one_entry, behind_line))
reduce_all-HasUks_example =
    reduce_all-HasUks one_entry behind_line two_keys sample_hexkey-IsBuffer (refl, refl) refl
      ((digits_c-IsHex 32, refl), ((digits_c-IsHex 32, refl), record {}))

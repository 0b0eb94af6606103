-- ===== src/Cci/Examples.antt =====
-- The theorems on copy control information at concrete inputs.
use libaacs.Common.{ℕ, refl, List, [], ◌∷◌, ◌++◌, arith, replicate, Returns, byte, word16}
use libaacs.Cci.{CciEntry, no_entry, aacs_basic_cci, basic_fields, cci_parse, cci_is_unencrypted}
use libaacs.Cci.Safety.{EntriesParsed, cci_parse-EntriesParsed}
use libaacs.Cci.Unencrypted.{Verdict, cci_is_unencrypted-Verdict}

-- A header with one entry, and a basic CCI of four titles, all of them enhanced.
abbrev file : List ℕ
file =
    (0 ∷ 1 ∷ replicate 14 0)
    ++ ((1 ∷ 1 ∷ 1 ∷ 0 ∷ 0 ∷ 0x84 ∷ 4 ∷ 0x10 ∷ 0 ∷ 4 ∷ 0xf0 ∷ []) ++ replicate 127 0)

cci_parse-EntriesParsed_example : Returns (EntriesParsed (word16 file 0)) (cci_parse file 154)
unfolding word16 byte
cci_parse-EntriesParsed_example = cci_parse-EntriesParsed file (omega arith) (omega arith)

abbrev free : CciEntry
free = record {
  type = aacs_basic_cci;
  version = 0x0100;
  data_length = 0x84;
  basic_cci = basic_fields 0x04 0x10 12;
}

cci_is_unencrypted-Verdict_example :
    Returns (Verdict (no_entry ∷ free ∷ [])) (cci_is_unencrypted (no_entry ∷ free ∷ []))
cci_is_unencrypted-Verdict_example =
    cci_is_unencrypted-Verdict (no_entry ∷ free ∷ [])
      ((refl, omega arith), ((refl, omega arith), tt))

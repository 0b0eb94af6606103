-- ===== src/Keydb/Examples.antt =====
-- The theorem on the file of processing keys at a concrete input.
use libaacs.Common.{ℕ, refl, List, [], ◌∷◌, ◌++◌, replicate, Returns}
use libaacs.Keydb.Files.{parse_pk_file}
use libaacs.Keydb.Distinct.{AreKeys, Keys, parse_pk_file-Keys}

-- A key in two lines of the file, and another key that was there before.
abbrev sample_file : List ℕ
sample_file = replicate 32 b'a' ++ (10 ∷ (replicate 32 b'a' ++ (10 ∷ [])))

abbrev one_key : List (List ℕ)
one_key = replicate 16 1 ∷ []

one_key-AreKeys : AreKeys one_key
one_key-AreKeys = (refl, record {}, record {})

parse_pk_file-Keys_example : Returns Keys (parse_pk_file one_key sample_file)
parse_pk_file-Keys_example = parse_pk_file-Keys one_key sample_file one_key-AreKeys

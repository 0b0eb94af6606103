-- ===== src/UnitKey/Examples.antt =====
-- The theorems on the unit key file at concrete inputs.
use libaacs.Common.{
  ℕ, ◌/◌, ◌^◌, ◌≡◌, false, none, some, List, ◌∷◌, ◌++◌, map, arith, replicate, ok, Returns, byte,
  word16, word32,
}
use libaacs.UnitKey.{uk_parse, valid_unit}
use libaacs.UnitKey.Keys.{declared, keys_after}
use libaacs.UnitKey.Titles.{raw_titles}
use libaacs.UnitKey.Parse.{OptWellFormed, IsComplete, uk_parse-IsWellFormed, uk_parse_complete}

-- One directory, application type 1; first play unit 1, top menu unit 2, one title of unit 2. Two
-- keys, of bytes 9, behind the offset 40.
abbrev front : List ℕ
front =
    (0 ∷ 0 ∷ 0 ∷ 40 ∷ replicate 12 0)
    ++ ((1 ∷ 1 ∷ 0 ∷ 0 ∷ 0 ∷ 1 ∷ 0 ∷ 2 ∷ 0 ∷ 1 ∷ 0 ∷ 0 ∷ 0 ∷ 2 ∷ replicate 10 0)
        ++ (0 ∷ 2 ∷ replicate 14 0))

abbrev disc : List ℕ
disc = front ++ replicate 96 9

disc-IsComplete : IsComplete disc
unfolding word16 word32 byte
disc-IsComplete = record {
  small = omega arith;
  header = omega arith;
  has_dir = omega arith;
  keys = omega arith;
  few = omega arith;
  titles = omega arith;
}

uk_parse-IsWellFormed_example : Returns OptWellFormed (uk_parse disc 152 false)
uk_parse-IsWellFormed_example = uk_parse-IsWellFormed disc (omega arith)

uk_parse_complete_example :
    uk_parse disc 152 false
    ≡ ok (
        some (record {
          num_bdmv_dir = byte disc 17;
          app_type = byte disc 16;
          use_skb_mkb = byte disc 18 / 2 ^ 7;
          num_uk = declared disc;
          uk = none;
          enc_uk = some (keys_after (declared disc) disc (word32 disc 0) 48);
          num_titles = word16 disc 24;
          title_cps_unit = some (
              map
                (valid_unit (declared disc))
                (word16 disc 20 ∷ word16 disc 22 ∷ raw_titles (word16 disc 24) 0 disc));
        }))
uk_parse_complete_example = uk_parse_complete disc disc-IsComplete

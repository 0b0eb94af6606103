-- ===== src/MkbDump/Examples.antt =====
-- The theorems on the tool at concrete inputs.
use libaacs.Common.{ℕ, List, ◌∷◌, ◌++◌, replicate, Returns}
use libaacs.MkbDump.{dump_aacs1_rl}
use libaacs.MkbDump.Lists.{AreWhole, dump_aacs1_rl-AreWhole}

-- Two blocks of one entry each.
abbrev one_block : List ℕ
one_block = 0 ∷ 0 ∷ 0 ∷ 1 ∷ replicate 48 7

abbrev two_blocks : List ℕ
two_blocks = 0 ∷ 0 ∷ 0 ∷ 2 ∷ (one_block ++ one_block)

dump_aacs1_rl-AreWhole_example : Returns AreWhole (dump_aacs1_rl two_blocks)
dump_aacs1_rl-AreWhole_example = dump_aacs1_rl-AreWhole two_blocks

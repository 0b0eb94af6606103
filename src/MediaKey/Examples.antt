-- ===== src/MediaKey/Examples.antt =====
-- The theorems on masks and processing keys at concrete inputs.
use libaacs.Common.{ℕ, ◌≡◌, refl, some, List, arith, replicate, ok, stuck, ◌∷◌, ◌++◌}
use libaacs.Crypto.{Aes, crypto_aesg3}
use libaacs.MediaKey.{calc_pk, verification_data}
use libaacs.MediaKey.Masks.{high_mask}
use libaacs.MediaKey.ProcessingKey.{node_pk, IsTotal, calc_pk-descend, calc_pk-stuck}

-- A cipher that returns the block.
abbrev plain_aes : Aes
plain_aes = record { encrypt = λ key block. some block; decrypt = λ key block. some block }

plain_aes-IsTotal : IsTotal plain_aes
unfolding crypto_aesg3
plain_aes-IsTotal = λ key. (_, refl)

abbrev sample_key : List ℕ
sample_key = replicate 16 7

calc_pk-descend_example :
    calc_pk 5 plain_aes sample_key 0x800 (high_mask 12) (high_mask 14)
    ≡ ok (node_pk plain_aes sample_key 0x800 12 2)
calc_pk-descend_example =
    calc_pk-descend plain_aes sample_key 0x800 12 2 5 (omega arith) (omega arith)

calc_pk-stuck_example : calc_pk 50 plain_aes sample_key 0x800 (high_mask 12) (high_mask 9) ≡ stuck
calc_pk-stuck_example =
    calc_pk-stuck plain_aes sample_key 0x800 12 9 plain_aes-IsTotal (omega arith) (omega arith) 50

-- A type and version record, the verification data, a subset difference and a cvalue.
abbrev pub sample_block : List ℕ
sample_block =
    0x10 ∷ 0 ∷ 0 ∷ 12 ∷ 0 ∷ 3 ∷ 0x10 ∷ 3 ∷ 0 ∷ 0 ∷ 0 ∷ 7 ∷ 0x81 ∷ 0 ∷ 0 ∷ 20 ∷ verification_data
    ++ replicate 8 0
    ++ (0x04 ∷ 0 ∷ 0 ∷ 9 ∷ 0 ∷ 0 ∷ 0 ∷ 8 ∷ 0 ∷ 0x05 ∷ 0 ∷ 0 ∷ 20 ∷ replicate 16 0)

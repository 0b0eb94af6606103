-- ===== src/MkbFile/Examples.antt =====
-- The theorems on the file of the media key block at concrete inputs.
use libaacs.Common.{ℕ, ◌≤◌, ◌≡◌, some, List, length, take, replicate, Returns}
use libaacs.MkbFile.{read_mkb_file}
use libaacs.MkbFile.Records.{read_mkb_file-Returns}

abbrev nine_bytes : List ℕ
nine_bytes = replicate 9 5

read_mkb_file-Returns_example :
    Returns
      (λ bytes. (n : ℕ) × (n ≤ length nine_bytes) × (bytes ≡ take n nine_bytes))
      (read_mkb_file (some nine_bytes))
read_mkb_file-Returns_example = read_mkb_file-Returns nine_bytes

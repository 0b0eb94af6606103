-- ===== src/ContentCert/Examples.antt =====
-- The theorem on content certificates at a concrete input.
use libaacs.Common.{ℕ, true, List, ◌++◌, length, replicate, Returns}
use libaacs.ContentCert.{cc_parse, IsSigned, cc_parse-IsSigned}

abbrev sample : List ℕ
sample = replicate 14 0 ++ replicate 6 9 ++ replicate 46 0

cc_parse-IsSigned_example :
    Returns
      (IsSigned (λ signature bytes. true) sample)
      (cc_parse (λ signature bytes. true) sample (length sample))
cc_parse-IsSigned_example = cc_parse-IsSigned (λ signature bytes. true) sample

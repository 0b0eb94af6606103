-- ===== src/Keydb/Load/Examples.antt =====
-- The theorems on the configuration at concrete inputs.
use libaacs.Common.{ℕ, zero, suc, refl, none, some, [], ◌∷◌, arith, replicate, All, Returns, IsByte}
use libaacs.Cache.Examples.{sample_env, empty_disk}
use libaacs.Keydb.Load.{Sources, internal_lists, keydbcfg_config_load}
use libaacs.Keydb.Load.Loaded.{IsEmbedded, OptConfig, keydbcfg_config_load-OptConfig}
use libaacs.Keydb.Grammar.Examples.{sample_parser, sample_parser-GivesDigits}

abbrev sample_sources : Sources
sample_sources = record {
  env = sample_env;
  xdg_config_dirs = none;
  disk = record empty_disk { files = λ path. some (b'x' ∷ []) };
  parser = sample_parser;
  embedded = internal_lists;
}

internal_lists-IsEmbedded : IsEmbedded internal_lists
unfolding internal_lists
internal_lists-IsEmbedded =
    (((refl, zeros 23), record {}), ((refl, zeros 16), record {}), ((refl, zeros 112), record {}))
  where
    zeros : (n : ℕ) → All IsByte (replicate n 0)
    zeros zero = record {}
    zeros (suc n) = (omega arith, zeros n)

keydbcfg_config_load-OptConfig_example :
    Returns OptConfig (keydbcfg_config_load sample_sources none (some (replicate 20 0xcc)))
keydbcfg_config_load-OptConfig_example =
    keydbcfg_config_load-OptConfig sample_sources none (some (replicate 20 0xcc))
      sample_parser-GivesDigits internal_lists-IsEmbedded

-- ===== src/Rl/Examples.antt =====
-- The theorems on revocation lists at concrete inputs.
use libaacs.Common.{
  ℕ, ◌≡◌, refl, true, false, some, List, ◌∷◌, ◌++◌, arith, length, take, replicate, ok, Returns,
  byte_at, be32, bytes_at, word32,
}
use libaacs.Files.{
  update, components, path_of, missing_dirs, make_dirs, mkdirs_above, file_mkdirs, write_all,
  save_file, save_below,
}
use libaacs.Mmc.Auth.{Curve}
use libaacs.Cache.{
  home_dir, file_get_cache_home, below_home, cache_file, save_at, le32, cache_save, cache_get,
}
use libaacs.Cache.Examples.{sample_env, willing, empty_disk}
use libaacs.Rl.{signed_len, rl_verify_signature, get_rl, hrl}
use libaacs.Rl.Signed.{IsListOf, entries_of}
use libaacs.Rl.Cached.{get_rl-IsListOf, get_rl-cache_save}

-- Every signature is valid.
abbrev pub trusting : Curve
trusting = record {
  verify_aacsla = λ signature bytes. true;
  verify = λ cert signature bytes. true;
  sign = λ cert key nonce point. some (replicate 40 3);
  create_bus_key = λ key point. take 16 point;
}

-- One entry, and a signature.
abbrev one_entry : List ℕ
one_entry = replicate 20 0 ++ (0 ∷ 0 ∷ 0 ∷ 1 ∷ (0 ∷ 2 ∷ replicate 6 4)) ++ replicate 40 7

get_rl-IsListOf_example :
    Returns
      (IsListOf trusting (
        cache_get sample_env empty_disk hrl true true
          (cache_get sample_env empty_disk hrl true false 0).len))
      (get_rl trusting sample_env empty_disk hrl)
get_rl-IsListOf_example = get_rl-IsListOf trusting sample_env empty_disk hrl

one_entry_valid : rl_verify_signature trusting one_entry (length one_entry) ≡ ok true
unfolding rl_verify_signature signed_len be32 byte_at bytes_at
one_entry_valid = refl

one_entry_saved : (cache_save sample_env willing empty_disk hrl 5 one_entry).1 ≡ true
unfolding cache_save save_at cache_file file_get_cache_home home_dir below_home save_below save_file
    write_all file_mkdirs mkdirs_above components missing_dirs make_dirs path_of update le32
one_entry_saved = refl

get_rl-cache_save_example :
    get_rl trusting sample_env (cache_save sample_env willing empty_disk hrl 5 one_entry).0 hrl
    ≡ ok (some (5, entries_of (word32 one_entry 20) one_entry 24))
get_rl-cache_save_example =
    get_rl-cache_save trusting sample_env willing empty_disk hrl 5 one_entry (omega arith)
      (omega arith) (omega arith) one_entry_valid one_entry_saved

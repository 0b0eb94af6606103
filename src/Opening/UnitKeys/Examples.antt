-- ===== src/Opening/UnitKeys/Examples.antt =====
-- The theorem on a key that was calculated, at a concrete disc.
use libaacs.Common.{
  ℕ, ◌≡◌, refl, false, none, some, List, [], ◌∷◌, arith, same_bytes, length, replicate, All, ok,
  IsByte,
}
use libaacs.ErrorCode.{success}
use libaacs.Crypto.{xor_bytes}
use libaacs.Cache.{
  home_dir, file_get_cache_home, below_home, cache_file, keycache_file, keycache_find, key_from,
  open_at,
}
use libaacs.Keydb.{ConfigFile}
use libaacs.Opening.{
  World, Disc, is_empty, find_key, overwrite, save_key, vuk_type, calc_mk, read_vid,
}
use libaacs.Opening.UnitKeys.{
  VukResult, decrypt_vuk, vuk_with_vid, vuk_with_mk, vuk_if_found, calc_vuk,
}
use libaacs.Opening.UnitKeys.Again.{CanCache, calc_vuk_again}
use libaacs.Opening.Examples.{sample_world, disc_with, sample_vuk, willing-IsWilling, sample_home}

-- A cipher that returns the key.
abbrev key_world : World
key_world = record sample_world {
  aes = record { encrypt = λ key block. some key; decrypt = λ key block. some key };
}

-- The volume id is known.
abbrev disc_with_vid : Disc
disc_with_vid = record (disc_with false) { vid = replicate 16 1 }

abbrev no_keys : ConfigFile
no_keys = record { dkl = []; pkl = []; host_cert_list = []; list = [] }

abbrev new_vuk : List ℕ
new_vuk = xor_bytes sample_vuk (replicate 16 1)

abbrev new_result : VukResult
new_result = record {
  disc = save_key key_world disc_with_vid vuk_type new_vuk;
  code = success;
  mk = sample_vuk;
  vuk = new_vuk;
}

can_cache : CanCache key_world disc_with_vid
unfolding is_empty same_bytes
can_cache = record {
  home = b'/' ∷ b'h' ∷ b'/' ∷ b'.' ∷ b'c' ∷ b'a' ∷ b'c' ∷ b'h' ∷ b'e' ∷ [];
  willing = willing-IsWilling;
  has_home = sample_home;
  used = refl;
  has_id = refl;
}

first_result :
    calc_vuk key_world 0 disc_with_vid sample_vuk (replicate 16 0) (some no_keys) ≡ ok new_result
unfolding calc_vuk vuk_if_found vuk_with_mk vuk_with_vid decrypt_vuk calc_mk read_vid find_key
    overwrite keycache_find open_at keycache_file cache_file below_home file_get_cache_home home_dir
    key_from is_empty same_bytes
first_result = refl

new_vuk-IsByte : All IsByte new_vuk
unfolding xor_bytes
new_vuk-IsByte = ground arith

length-new_vuk : length new_vuk ≡ 16
unfolding xor_bytes
length-new_vuk = refl

calc_vuk_again_example :
    calc_vuk key_world 0 new_result.disc (replicate 16 0) (replicate 16 0) none
    ≡ ok (record { disc = new_result.disc; code = success; mk = replicate 16 0; vuk = new_vuk })
calc_vuk_again_example =
    calc_vuk_again key_world 0 0 disc_with_vid sample_vuk (replicate 16 0) (some no_keys) none
      new_result can_cache first_result refl new_vuk-IsByte length-new_vuk

-- ===== src/Cache/Examples.antt =====
-- The theorems on saved files at concrete inputs.
use libaacs.Common.{ℕ, ◌≡◌, refl, true, false, none, some, List, [], ◌∷◌, arith, ok}
use libaacs.Files.{
  Disk, Os, update, components, path_of, missing_dirs, make_dirs, mkdirs_above, file_mkdirs,
  write_all, save_file, save_below,
}
use libaacs.Cache.{
  Env, home_dir, file_get_cache_home, file_get_config_home, below_home, cache_file,
  config_file_user, save_at, le32, cache_save, cache_get,
}
use libaacs.Cache.RoundTrip.{cache_get-cache_save}
use libaacs.Cache.Config.{config_get, config_save}
use libaacs.Cache.ConfigSaved.{config_get-config_save}

-- The home directory is "/h".
abbrev pub sample_env : Env
sample_env = record {
  xdg_config_home = none;
  xdg_cache_home = none;
  home = some (b'/' ∷ b'h' ∷ []);
}

-- A system that lets everything be written.
abbrev pub willing : Os
willing = record {
  mkdir = λ path. true;
  open_w = λ path. true;
  write = λ path size n. n;
  remove = λ path. true;
}

abbrev pub empty_disk : Disk
empty_disk = record { files = λ path. none; dirs = λ path. false }

-- Every directory is there.
abbrev pub made_disk : Disk
made_disk = record { files = λ path. none; dirs = λ path. true }

abbrev sample_bytes : List ℕ
sample_bytes = 9 ∷ 8 ∷ 7 ∷ []

saved : (cache_save sample_env willing empty_disk (b'd' ∷ []) 5 sample_bytes).1 ≡ true
unfolding cache_save save_at cache_file file_get_cache_home home_dir below_home save_below save_file
    write_all file_mkdirs mkdirs_above components missing_dirs make_dirs path_of update le32
saved = refl

cache_get-cache_save_example :
    cache_get sample_env
      (cache_save sample_env willing empty_disk (b'd' ∷ []) 5 sample_bytes).0
      (b'd' ∷ [])
      true
      true
      10
    ≡ record { version = 5; len = 3; bytes = sample_bytes; found = true }
cache_get-cache_save_example =
    cache_get-cache_save sample_env willing empty_disk (b'd' ∷ []) 5 sample_bytes 10 (omega arith)
      (omega arith) (omega arith) saved

config_saved : (config_save sample_env willing empty_disk (b'd' ∷ []) sample_bytes).1 ≡ true
unfolding config_save save_at config_file_user file_get_config_home home_dir below_home save_below
    save_file write_all file_mkdirs mkdirs_above components missing_dirs make_dirs path_of update
    le32
config_saved = refl

-- Three bytes, for a buffer of three.
config_get-config_save_example :
    config_get sample_env
      (config_save sample_env willing empty_disk (b'd' ∷ []) sample_bytes).0
      (b'd' ∷ [])
      3
    ≡ ok (record { len = 3; bytes = sample_bytes; found = true })
config_get-config_save_example =
    config_get-config_save sample_env willing empty_disk (b'd' ∷ []) sample_bytes 3 (omega arith)
      config_saved

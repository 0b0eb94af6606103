-- ===== src/Opening/Examples.antt =====
-- The theorems on the opening of a disc at concrete inputs.
use libaacs.Common.{
  ℕ, ◌≡◌, refl, Bool, true, false, none, some, List, [], ◌∷◌, ◌++◌, arith, take, replicate, All, ok,
  IsByte,
}
use libaacs.ErrorCode.{success}
use libaacs.Crypto.{Aes}
use libaacs.UnitKey.{UnitKeys}
use libaacs.Mmc.{Drive}
use libaacs.Cache.{home_dir, file_get_cache_home, keycache_save}
use libaacs.Cache.Examples.{sample_env, willing, made_disk}
use libaacs.Cache.Saves.{IsWilling, keycache_save-true}
use libaacs.Rl.Examples.{trusting}
use libaacs.Common.Partial.{WhenOk}
use libaacs.MediaKey.Examples.{sample_block}
use libaacs.Opening.{World, Disc, vuk_type, calc_mk}
use libaacs.Opening.MediaKeyOf.{OnSuccess, calc_mk-OnSuccess}
use libaacs.Opening.UnitKeys.{set_uk, calc_uks}
use libaacs.Opening.UnitKeys.Cached.{DecryptsBy, map_dec, with_vuk, calc_uks-with_vuk}
use libaacs.Opening.UnitKeys.Unreadable.{NoCciFiles, calc_uks-NoCciFiles}

-- A cipher that returns the block.
abbrev plain_aes : Aes
plain_aes = record { encrypt = λ key block. some block; decrypt = λ key block. some block }

-- The bytes that the drive answers to every command: an active AACS feature, and a certificate.
abbrev drive_bytes : List ℕ
drive_bytes =
    replicate 8 0
    ++ (1 ∷ 0x0d ∷ 1 ∷ [])
    ++ replicate 13 7
    ++ (1 ∷ 0 ∷ 0 ∷ 0x5c ∷ [])
    ++ replicate 90 7

abbrev pub sample_drive : Drive
sample_drive = λ before c. some drive_bytes

-- No file of the disc can be opened.
abbrev pub sample_world : World
sample_world = record {
  env = sample_env;
  os = willing;
  aes = plain_aes;
  curve = trusting;
  verify_aacscc = λ signature bytes. true;
  title_hash = λ bytes. take 20 bytes;
  disc_file = λ backup file. none;
  device = λ n. some sample_drive;
  nonce = λ n. replicate 20 1;
  host_key = λ n. replicate 20 2;
  host_key_point = λ n. replicate 40 4;
}

-- Two keys and a title.
abbrev sample_uk : UnitKeys
sample_uk = record {
  num_bdmv_dir = 1;
  app_type = 1;
  use_skb_mkb = 0;
  num_uk = 2;
  uk = none;
  enc_uk = some (replicate 2 (replicate 16 3));
  num_titles = 1;
  title_cps_unit = some (0 ∷ 0 ∷ 1 ∷ []);
}

abbrev pub disc_with : Bool → Disc
disc_with no_cache = record {
  aacs = record {
    uk = some sample_uk;
    current_cps_unit = 0;
    cps_unit_selected = false;
    bee = false;
    bec = none;
    read_data_key = replicate 16 0;
  };
  mkb_version = 0;
  disc_id = replicate 20 6;
  vid = replicate 16 0;
  pmsn = replicate 16 0;
  mk = replicate 16 0;
  no_cache = no_cache;
  drive_cert_hash = replicate 20 0;
  cc = none;
  disk = made_disk;
  opened = 0;
}

abbrev same_block : List ℕ → List ℕ → List ℕ
same_block key block = block

plain_aes-DecryptsBy : DecryptsBy plain_aes same_block
plain_aes-DecryptsBy key block = refl

abbrev pub sample_vuk : List ℕ
sample_vuk = replicate 16 0xab

pub sample_vuk-IsByte : All IsByte sample_vuk
sample_vuk-IsByte = ground arith

pub willing-IsWilling : IsWilling willing
willing-IsWilling = record {
  mkdir = λ path. refl;
  open_w = λ path. refl;
  write = λ path size n. refl;
}

pub sample_home :
    file_get_cache_home sample_env
    ≡ some (b'/' ∷ b'h' ∷ b'/' ∷ b'.' ∷ b'c' ∷ b'a' ∷ b'c' ∷ b'h' ∷ b'e' ∷ [])
unfolding file_get_cache_home home_dir
sample_home = refl

sample_vuk_saved :
    (keycache_save sample_env willing made_disk vuk_type (replicate 20 6) sample_vuk).1 ≡ true
sample_vuk_saved =
    keycache_save-true willing willing-IsWilling sample_env made_disk vuk_type (replicate 20 6)
      sample_vuk (b'/' ∷ b'h' ∷ b'/' ∷ b'.' ∷ b'c' ∷ b'a' ∷ b'c' ∷ b'h' ∷ b'e' ∷ []) sample_home

calc_uks-with_vuk_example :
    calc_uks sample_world 0 (with_vuk sample_world (disc_with false) sample_vuk) none sample_uk
    ≡ ok (
      set_uk (with_vuk sample_world (disc_with false) sample_vuk) (record sample_uk {
        uk = some (map_dec (same_block sample_vuk) (replicate 2 (replicate 16 3)));
      }),
      success,
    )
calc_uks-with_vuk_example =
    calc_uks-with_vuk sample_world same_block 0 (disc_with false) none sample_uk
      (replicate 2 (replicate 16 3)) sample_vuk plain_aes-DecryptsBy (omega arith) refl refl refl
      sample_vuk-IsByte refl sample_vuk_saved

nothing-NoCciFiles : NoCciFiles sample_world
nothing-NoCciFiles backup unit = refl

calc_uks-NoCciFiles_example :
    calc_uks sample_world 0 (disc_with true) none sample_uk
    ≡ ok (
      set_uk (disc_with true) (record sample_uk {
        uk = some (map_dec (same_block (replicate 16 0)) (replicate 2 (replicate 16 3)));
      }),
      success,
    )
calc_uks-NoCciFiles_example =
    calc_uks-NoCciFiles sample_world same_block 0 (disc_with true) sample_uk
      (replicate 2 (replicate 16 3)) plain_aes-DecryptsBy nothing-NoCciFiles (omega arith) refl refl
      refl

-- A disc with a block, and the processing key for it.
abbrev block_world : World
block_world = record sample_world {
  disc_file = λ backup file. some (sample_block ++ replicate 4 0);
}

calc_mk-OnSuccess_example :
    WhenOk
      (OnSuccess block_world (disc_with true) (replicate 16 0))
      (calc_mk block_world 40 (replicate 16 7 ∷ []) [] (disc_with true) (replicate 16 0))
calc_mk-OnSuccess_example =
    calc_mk-OnSuccess block_world 40 (replicate 16 7 ∷ []) [] (disc_with true) (replicate 16 0)

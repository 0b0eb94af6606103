-- ===== src/Cache/ConfigSaved.antt =====
-- A configuration that was saved by keydbcfg.c, and what reading it back does.
use libaacs.Common.{
  ℕ, ◌^◌, ◌<◌, ◌≡◌, refl, inl, inr, true, false, List, [], ◌∷◌, ◌++◌, arith, ltb, leb, ◌==◌,
  if◌then◌else◌, Bool-cases, length, Run, ok, fault,
}
use mathlib.Core.List.{append-nil}
use libaacs.Common.Slices.{take_whole}
use libaacs.Files.{Disk, Os}
use libaacs.Cache.{Env, config_file_user, le32}
use libaacs.Cache.Config.{ConfigRead, config_in, config_or_none, config_get, config_save}
use libaacs.Cache.RoundTrip.{save_at-open_at, word_le32-front}

-- What a buffer of `size` bytes gets of bytes that were saved: a write past its end where it is
-- smaller, all of them where it has their size, and nothing where it is larger.
abbrev pub read_back : List ℕ → ℕ → Run ConfigRead
read_back bytes size =
    if ltb size (length bytes)
    then fault
    else if size == length bytes
    then ok (record { len = length bytes; bytes = bytes; found = true })
    else ok (record { len = length bytes; bytes = []; found = false })

-- The test of the source, and that of the bytes it reads.
config_in-saved :
    (bytes : List ℕ) (size : ℕ)
    → length bytes < 2 ^ 32
    → config_in (le32 (length bytes) ++ bytes) size ≡ read_back bytes size
unfolding config_in
config_in-saved bytes size short =
    let whole : leb 4 (length (le32 (length bytes) ++ bytes)) ≡ true =
      unfold le32 in ground arith in
    rw (word_le32-front (length bytes) bytes short, whole)
      (unfold le32 in
        rw (take_whole bytes) (elim (Bool-cases (ltb size (length bytes))) [
          | inl less ↦
              let passes : leb size (length bytes) ≡ true = ground arith in rw (less, passes) refl
          | inr enough ↦ elim (Bool-cases (size == length bytes)) [
            | inl same ↦
                let passes : leb size (length bytes) ≡ true = ground arith in
                let all : (length bytes == length bytes) ≡ true = ground arith in
                rw (enough, same, passes, all) refl
            | inr differs ↦
                let stops : leb size (length bytes) ≡ false = ground arith in
                rw (enough, differs, stops) refl
          ]
        ]))

-- If bytes were saved, fewer than 2^32, then `config_get` with a buffer of their size gives them
-- all; with a larger buffer it fails, and gives only how many they are; with a smaller one it
-- writes past the end of the buffer.
pub config_get-config_save :
    (env : Env) (os : Os) (disk : Disk) (name bytes : List ℕ) (size : ℕ)
    → length bytes < 2 ^ 32
    → (config_save env os disk name bytes).1 ≡ true
    → config_get env (config_save env os disk name bytes).0 name size ≡ read_back bytes size
unfolding config_get config_save
config_get-config_save env os disk name bytes size short saved =
    rw
      (
        save_at-open_at os disk (config_file_user env name) (le32 (length bytes) ∷ bytes ∷ [])
            saved,
        append-nil bytes,
      )
      (unfold config_or_none in config_in-saved bytes size short)

-- ===== src/Mmc/Examples.antt =====
-- The theorems on the drive at concrete inputs.
use libaacs.Common.{ℕ, true, false, some, List, [], ◌∷◌, arith, take, replicate, Returns, byte}
use libaacs.Crypto.{Aes}
use libaacs.Mmc.{
  Drive, Mmc, answer, device_send_cmd, mmc_report_disc_structure, mmc_report_agid,
  mmc_invalidate_agids,
}
use libaacs.Mmc.Auth.{Curve, vid_request, mmc_read_auth}
use libaacs.Mmc.Pack.{read_mkb, first_answer, FitsPacks, read_mkb-FitsPacks}
use libaacs.Mmc.Session.{IsReleased, OnSuccess, mmc_read_auth-IsReleased}
use libaacs.Mmc.Accepted.{IsAccepted, mmc_read_auth-IsAccepted}

abbrev plain_aes : Aes
plain_aes = record { encrypt = λ key block. some block; decrypt = λ key block. some block }

-- Every signature is valid.
abbrev trusting : Curve
trusting = record {
  verify_aacsla = λ signature bytes. true;
  verify = λ cert signature bytes. true;
  sign = λ cert key nonce point. some (replicate 40 3);
  create_bus_key = λ key point. take 16 point;
}

abbrev sample_mmc : Mmc
sample_mmc = record {
  sent = [];
  host_nonce = replicate 20 1;
  host_key = replicate 20 2;
  host_key_point = replicate 40 4;
  drive_cert = replicate 92 0;
  read_drive_cert = false;
  aacs_version = 1;
}

-- A drive that answers every command with the same bytes: ten bytes of data, and a number of packs.
abbrev bytes_of : ℕ → List ℕ
bytes_of packs = 0 ∷ 12 ∷ 0 ∷ packs ∷ replicate 10 0x5c

abbrev drive_of : ℕ → Drive
drive_of packs = λ before c. some (bytes_of packs)

read_mkb-FitsPacks_example :
    Returns
      (FitsPacks (first_answer (drive_of 2) sample_mmc 1 0))
      (read_mkb (drive_of 2) sample_mmc 1 0)
unfolding mmc_report_disc_structure device_send_cmd answer byte
read_mkb-FitsPacks_example = read_mkb-FitsPacks (drive_of 2) sample_mmc 1 0 (omega arith)

mmc_read_auth-IsReleased_example :
    IsReleased (mmc_report_agid (drive_of 2) (mmc_invalidate_agids (drive_of 2) sample_mmc)).1 (
      mmc_read_auth plain_aes trusting
        (drive_of 2)
        sample_mmc
        (replicate 20 5)
        (replicate 92 2)
        vid_request)
mmc_read_auth-IsReleased_example =
    mmc_read_auth-IsReleased plain_aes trusting (drive_of 2) sample_mmc (replicate 20 5)
      (replicate 92 2) vid_request

mmc_read_auth-IsAccepted_example :
    OnSuccess (IsAccepted plain_aes trusting (drive_of 2) vid_request) (
      mmc_read_auth plain_aes trusting
        (drive_of 2)
        sample_mmc
        (replicate 20 5)
        (replicate 92 2)
        vid_request)
mmc_read_auth-IsAccepted_example =
    mmc_read_auth-IsAccepted plain_aes trusting (drive_of 2) sample_mmc (replicate 20 5)
      (replicate 92 2) vid_request

-- ===== src/Mmc.antt =====
-- src/libaacs/mmc.c: the commands that the library sends to a drive. A drive answers a command as a
-- function of the commands before it, so it may be any machine; the model keeps these commands.
pub mod Auth
pub mod Examples
pub mod Pack
pub mod Session
pub mod Accepted
pub mod Exchange
pub mod Honest
use libaacs.Common.{
  ℕ, ◌*◌, ◌/◌, ◌%◌, ◌^◌, bit_and, bit_or, Bool, Option, none, some, List, [], ◌∷◌, ◌++◌, length,
  get_or, take, replicate,
}

-- The 16 bytes of a command, the data that goes with it, and the size of the buffer for the answer.
pub record Command : Type 0 where
  pub cmd : List ℕ
  pub tx : List ℕ
  pub rx : ℕ

-- `device_send_cmd`: the bytes of the answer, or `none` if the command fails.
abbrev pub Drive : Type 0
Drive = List Command → Command → Option (List ℕ)

-- `struct mmc`; the commands that were sent, the last one first, stand for `dev`.
pub record Mmc : Type 0 where
  pub sent : List Command
  pub host_nonce : List ℕ
  pub host_key : List ℕ
  pub host_key_point : List ℕ
  pub drive_cert : List ℕ
  pub read_drive_cert : Bool
  pub aacs_version : ℕ

-- The buffer of the answer, which was cleared before: it has `len` bytes, whatever the drive sends.
unfoldable pub answer : ℕ → Option (List ℕ) → Option (List ℕ)
answer len none = none
answer len (some bytes) = some (take len (bytes ++ replicate len 0))

unfoldable pub device_send_cmd : Drive → Mmc → Command → Mmc × Option (List ℕ)
unfolding answer
device_send_cmd drive mmc c = (record mmc { sent = c ∷ mmc.sent }, answer c.rx (drive mmc.sent c))

-- The bytes of `cmd[10]`: `(agid << 6) | (format & 0x3f)`.
unfoldable pub agid_format : ℕ → ℕ → ℕ
agid_format agid format = bit_or (agid * 2 ^ 6) (bit_and format 0x3f) % 2 ^ 8

unfoldable pub report_key_cmd : ℕ → ℕ → ℕ → ℕ → ℕ → Command
unfolding agid_format
report_key_cmd agid addr blocks format len = record {
  cmd =
      0xa4
      ∷ 0
      ∷ (addr / 2 ^ 24 % 2 ^ 8)
      ∷ (addr / 2 ^ 16 % 2 ^ 8)
      ∷ (addr / 2 ^ 8 % 2 ^ 8)
      ∷ (addr % 2 ^ 8)
      ∷ blocks
      ∷ 2
      ∷ (len / 2 ^ 8 % 2 ^ 8)
      ∷ (len % 2 ^ 8)
      ∷ agid_format agid format
      ∷ replicate 5 0;
  tx = [];
  rx = len;
}

unfoldable pub send_key_cmd : ℕ → ℕ → List ℕ → Command
unfolding agid_format
send_key_cmd agid format buf = record {
  cmd =
      0xa3 ∷ replicate 6 0
      ++ (2
          ∷ (length buf / 2 ^ 8 % 2 ^ 8)
          ∷ (length buf % 2 ^ 8)
          ∷ agid_format agid format
          ∷ replicate 5 0);
  tx = buf;
  rx = 0;
}

unfoldable pub disc_structure_cmd : ℕ → ℕ → ℕ → ℕ → ℕ → Command
disc_structure_cmd agid format layer address len = record {
  cmd =
      0xad
      ∷ 1
      ∷ (address / 2 ^ 24 % 2 ^ 8)
      ∷ (address / 2 ^ 16 % 2 ^ 8)
      ∷ (address / 2 ^ 8 % 2 ^ 8)
      ∷ (address % 2 ^ 8)
      ∷ layer
      ∷ format
      ∷ (len / 2 ^ 8 % 2 ^ 8)
      ∷ (len % 2 ^ 8)
      ∷ (agid * 2 ^ 6 % 2 ^ 8)
      ∷ replicate 5 0;
  tx = [];
  rx = len;
}

unfoldable pub get_configuration_cmd : ℕ → ℕ → Command
get_configuration_cmd feature len = record {
  cmd =
      0x46
      ∷ 1
      ∷ (feature / 2 ^ 8 % 2 ^ 8)
      ∷ (feature % 2 ^ 8)
      ∷ 0
      ∷ 0
      ∷ 0
      ∷ (len / 2 ^ 8 % 2 ^ 8)
      ∷ (len % 2 ^ 8)
      ∷ replicate 7 0;
  tx = [];
  rx = len;
}

unfoldable pub mmc_report_key : Drive → Mmc → ℕ → ℕ → ℕ → ℕ → ℕ → Mmc × Option (List ℕ)
unfolding device_send_cmd report_key_cmd
mmc_report_key drive mmc agid addr blocks format len =
    device_send_cmd drive mmc (report_key_cmd agid addr blocks format len)

unfoldable pub mmc_send_key : Drive → Mmc → ℕ → ℕ → List ℕ → Mmc × Option (List ℕ)
unfolding device_send_cmd send_key_cmd
mmc_send_key drive mmc agid format buf = device_send_cmd drive mmc (send_key_cmd agid format buf)

unfoldable pub mmc_report_disc_structure : Drive → Mmc → ℕ → ℕ → ℕ → ℕ → ℕ → Mmc × Option (List ℕ)
unfolding device_send_cmd disc_structure_cmd
mmc_report_disc_structure drive mmc agid format layer address len =
    device_send_cmd drive mmc (disc_structure_cmd agid format layer address len)

unfoldable pub mmc_get_configuration : Drive → Mmc → ℕ → ℕ → Mmc × Option (List ℕ)
unfolding device_send_cmd get_configuration_cmd
mmc_get_configuration drive mmc feature len =
    device_send_cmd drive mmc (get_configuration_cmd feature len)

unfoldable pub mmc_invalidate_agid : Drive → Mmc → ℕ → Mmc
unfolding mmc_report_key
mmc_invalidate_agid drive mmc agid = (mmc_report_key drive mmc agid 0 0 0x3f 2).0

unfoldable pub mmc_invalidate_agids : Drive → Mmc → Mmc
unfolding mmc_invalidate_agid
mmc_invalidate_agids drive mmc =
    let first = mmc_invalidate_agid drive (mmc_invalidate_agid drive mmc 0) 1 in
    mmc_invalidate_agid drive (mmc_invalidate_agid drive first 2) 3

unfoldable pub agid_of : Option (List ℕ) → Option ℕ
agid_of none = none
agid_of (some buf) = some (get_or buf 7 0 / 2 ^ 6)

unfoldable pub mmc_report_agid : Drive → Mmc → Mmc × Option ℕ
unfolding mmc_report_key agid_of
mmc_report_agid drive mmc = let r = mmc_report_key drive mmc 0 0 0 0 8 in (r.0, agid_of r.1)

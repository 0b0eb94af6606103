-- ===== src/Keydb.antt =====
-- src/file/keydbcfg.h and src/file/keydbcfg.c, the contents of the configuration files and the
-- files of plain keys and certificates.
pub mod Files
pub mod Distinct
pub mod Grammar
pub mod Load
pub mod Examples
use libaacs.Common.{ℕ, List}
use libaacs.MediaKey.{DeviceKey}

-- `digit_key_pair`.
pub record DigitKeyPair : Type 0 where
  pub digit : ℕ
  pub key : List ℕ

-- `struct cert_entry`.
pub record HostCert : Type 0 where
  pub host_priv_key : List ℕ
  pub host_cert : List ℕ

-- `struct title_entry_t`; NULL is the empty list.
pub record TitleEntry : Type 0 where
  pub discid : List ℕ
  pub mk : List ℕ
  pub vid : List ℕ
  pub vuk : List ℕ
  pub uk : List DigitKeyPair

-- `struct config_file_t`, a list for each pointer.
pub record ConfigFile : Type 0 where
  pub dkl : List DeviceKey
  pub pkl : List (List ℕ)
  pub host_cert_list : List HostCert
  pub list : List TitleEntry

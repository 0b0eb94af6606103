-- ===== src/Opening/Device/VidMac.antt =====
-- A volume id whose MAC is wrong.
use libaacs.Common.{ℕ, ◌+◌, ◌≡◌, refl, true, false, some, List, [], ◌∷◌, ok}
use libaacs.ErrorCode.{no_cert, mmc_failure}
use libaacs.Mmc.{Drive, Mmc, mmc_report_agid, mmc_invalidate_agids}
use libaacs.Mmc.Auth.{
  mmc_success, mmc_error, vid_request, verify_host_cert, mmc_aacs_auth, read_keys, checked_mac,
  serve, session, after_agid, mmc_read_auth,
}
use libaacs.Keydb.{ConfigFile, HostCert}
use libaacs.Opening.{
  World, Disc, is_empty, find_key, vid_type, left_after_auth, left_after_agid, try_certs, with_mmc,
  open_mmc, read_auth, keep_vid, read_vid,
}
use libaacs.Opening.Device.{vid_or_null, vid_if_found, aacs_get_vid}

-- A drive that can be opened and with which the host authenticates, and that gives a volume id that is not
-- empty with a MAC that does not fit.
pub record GivesWrongMac (w : World) (d : Disc) (h : HostCert) (block : List ℕ) : Type 0 where
  pub drive : Drive
  pub mmc : Mmc
  pub mmc1 : Mmc
  pub mmc2 : Mmc
  pub agid : ℕ
  pub bus_key : List ℕ
  pub mac : List ℕ
  pub device : w.device d.opened ≡ some drive
  pub is_open : open_mmc w d ≡ some mmc
  pub host : verify_host_cert w.curve h.host_cert ≡ true
  pub has_agid : mmc_report_agid drive (mmc_invalidate_agids drive mmc) ≡ (mmc1, some agid)
  pub auth :
      mmc_aacs_auth w.curve drive mmc1 agid h.host_priv_key h.host_cert
      ≡ (mmc2, mmc_success bus_key)
  pub keys : (read_keys drive mmc2 agid 0x80).1 ≡ some (block, mac)
  pub wrong : checked_mac w.aes bus_key (some (block, mac)) ≡ mmc_error
  pub given : is_empty 16 block ≡ false

module _ (w : World) (d : Disc) (h : HostCert) (block : List ℕ)
    (g : GivesWrongMac w d h block) where
  fails :
      (mmc_read_auth w.aes w.curve g.drive g.mmc h.host_priv_key h.host_cert vid_request).1
      ≡ mmc_error
  unfolding mmc_read_auth
  fails = rw g.has_agid (
      unfold after_agid in
      rw g.auth (unfold session serve libaacs.Mmc.Auth.read_vid in rw (g.keys, g.wrong) refl))

  left :
      (p : List ℕ)
      → left_after_agid w.curve g.drive h vid_request p
          (mmc_report_agid g.drive (mmc_invalidate_agids g.drive g.mmc))
        ≡ block
  unfolding left_after_agid
  left p = rw (g.has_agid, g.auth) (unfold left_after_auth in rw g.keys refl)

  try_certs-left :
      (p : List ℕ) → try_certs w g.drive vid_request (h ∷ []) g.mmc no_cert p ≡ (mmc_failure, block)
  unfolding try_certs
  try_certs-left p = rw (g.host, fails, left p) refl

  read_auth-left :
      (p : List ℕ)
      → read_auth w d (h ∷ []) vid_request p
        ≡ (record d { opened = d.opened + 1 }, mmc_failure, block)
  unfolding read_auth
  read_auth-left p = rw (g.is_open, g.device) (unfold with_mmc in rw (try_certs-left p) refl)

  read_vid-left :
      is_empty 16 d.vid ≡ true
      → read_vid w d (h ∷ []) ≡ (record d { opened = d.opened + 1; vid = block }, mmc_failure)
  unfolding read_vid
  read_vid-left no_vid = rw (no_vid, read_auth-left d.vid) (unfold keep_vid in refl)

no_key_found :
    (w : World) (d : Disc) (type key : List ℕ)
    → d.no_cache ≡ true
    → find_key w d type key ≡ ok (key, false)
unfolding find_key
no_key_found w d type key no_cache = rw no_cache refl

-- If the cache is not used and the struct has no volume id yet, and the drive gives one that is not empty
-- with a MAC that does not fit, to the one certificate of the configuration, then `aacs_get_vid` returns it.
pub aacs_get_vid-GivesWrongMac :
    (w : World) (d : Disc) (h : HostCert) (cf : ConfigFile) (block : List ℕ)
    → GivesWrongMac w d h block
    → cf.host_cert_list ≡ h ∷ []
    → d.no_cache ≡ true
    → is_empty 16 d.vid ≡ true
    → aacs_get_vid w d (some cf) ≡ ok (record d { opened = d.opened + 1; vid = block }, some block)
unfolding aacs_get_vid
aacs_get_vid-GivesWrongMac w d h cf block g one no_cache no_vid =
    rw (no_vid, no_key_found w d vid_type d.vid no_cache)
      (unfold vid_if_found in
        rw (one, read_vid-left w d h block g no_vid) (unfold vid_or_null in rw g.given refl))

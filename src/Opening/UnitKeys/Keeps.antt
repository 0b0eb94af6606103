-- ===== src/Opening/UnitKeys/Keeps.antt =====
-- The search for the volume unique key, and the fields of the struct that it does not write.
use libaacs.Common.Partial.{WhenOk, WhenOk-bind, WhenOk-then}
use libaacs.Common.{
  ℕ, ◌≡◌, refl, ◌∙◌, inl, inr, Bool, true, false, Option, none, some, List, arith, if◌then◌else◌,
  Bool-cases, length, ok,
}
use libaacs.ErrorCode.{ErrorCode, success}
use libaacs.Keydb.{ConfigFile, HostCert}
use libaacs.Stream.{Aacs}
use libaacs.Opening.{
  DeviceKey, World, Disc, KeyResult, save_key, keep_mk, mk_from_mkb, mk_if_found, calc_mk,
  read_auth, keep_vid, read_vid,
}
use libaacs.MediaKey.{DeviceKey}
use libaacs.Mkb.{mkb_init, mkb_version}
use libaacs.MkbFile.{mkb_file}
use libaacs.Rl.{update_rl}
use libaacs.Opening.{
  mkb_ro, mk_by_dks, mk_by_pks, find_key, mk_type, vuk_type, is_empty, vid_request,
}
use libaacs.Opening.UnitKeys.{
  VukResult, decrypt_vuk, vuk_with_vid, vuk_with_mk, vuk_if_found, calc_vuk,
}

-- The fields that the search does not write.
abbrev pub fixed : Disc → Aacs × Bool × List ℕ
fixed d = (d.aacs, d.no_cache, d.disc_id)

save_key-fixed :
    (w : World) (d : Disc) (type key : List ℕ) → fixed (save_key w d type key) ≡ fixed d
unfolding save_key
save_key-fixed w d type key = ground arith

keep_mk-fixed : (w : World) (d : Disc) (r : ErrorCode × List ℕ) → fixed (keep_mk w d r).0 ≡ fixed d
unfolding keep_mk
keep_mk-fixed w d (success, mk) = save_key-fixed w (record d { mk = mk }) _ mk
keep_mk-fixed w d (_, mk) = refl

abbrev pub Keeps : Aacs × Bool × List ℕ → KeyResult → Type 0
Keeps a r = fixed r.0 ≡ a

mk_from_mkb-Keeps :
    (w : World) (fuel : ℕ) (pkl : List (List ℕ)) (dkl : List DeviceKey) (d : Disc) (mk : List ℕ)
    (file : Option (List ℕ))
    → WhenOk (Keeps (fixed d)) (mk_from_mkb w fuel pkl dkl d mk file)
unfolding mk_from_mkb
mk_from_mkb-Keeps w fuel pkl dkl d mk none = refl
mk_from_mkb-Keeps w fuel pkl dkl d mk (some bytes) =
    let mkb = mkb_init bytes (length bytes) in
    WhenOk-bind (Keeps (fixed d)) (mkb_version mkb) _ (λ version.
      WhenOk-bind (Keeps (fixed d))
        (if d.no_cache then ok d.disk else update_rl w.curve w.env w.os d.disk mkb) _
        (λ disk. WhenOk-bind (Keeps (fixed d)) (mk_by_dks fuel w.aes mkb dkl mk) _ (λ r.
          WhenOk-bind (Keeps (fixed d)) (mk_by_pks w.aes mkb pkl r) _
            (λ s. keep_mk-fixed w (record d { mkb_version = version; disk = disk }) s))))

mk_if_found-Keeps :
    (w : World) (fuel : ℕ) (pkl : List (List ℕ)) (dkl : List DeviceKey) (d : Disc)
    (r : List ℕ × Bool)
    → WhenOk (Keeps (fixed d)) (mk_if_found w fuel pkl dkl d r)
unfolding mk_if_found
mk_if_found-Keeps w fuel pkl dkl d (mk, true) = refl
mk_if_found-Keeps w fuel pkl dkl d (mk, false) =
    WhenOk-bind (Keeps (fixed d)) (mkb_file (w.disc_file false mkb_ro) (w.disc_file true mkb_ro)) _
      (λ file. mk_from_mkb-Keeps w fuel pkl dkl d mk file)

pub calc_mk-Keeps :
    (w : World) (fuel : ℕ) (pkl : List (List ℕ)) (dkl : List DeviceKey) (d : Disc) (mk : List ℕ)
    → WhenOk (Keeps (fixed d)) (calc_mk w fuel pkl dkl d mk)
unfolding calc_mk
calc_mk-Keeps w fuel pkl dkl d mk = elim (Bool-cases (is_empty 16 mk)) [
  | inl empty ↦ rw empty (
      WhenOk-bind (Keeps (fixed d)) (find_key w d mk_type mk) _
        (λ r. mk_if_found-Keeps w fuel pkl dkl d r))
  | inr given ↦ rw given refl
]

keep_vid-fixed : (w : World) (r : KeyResult) → fixed (keep_vid w r).0 ≡ fixed r.0
unfolding keep_vid
keep_vid-fixed w (d, success, vid) = save_key-fixed w (record d { vid = vid }) _ vid
keep_vid-fixed w (d, _, vid) = refl

pub read_vid-fixed :
    (w : World) (d : Disc) (hcl : List HostCert) → fixed (read_vid w d hcl).0 ≡ fixed d
unfolding read_vid
read_vid-fixed w d hcl = elim (Bool-cases (is_empty 16 d.vid)) [
  | inl empty ↦
      rw empty (keep_vid-fixed w (read_auth w d hcl vid_request d.vid) ∙ unfold read_auth in refl)
  | inr given ↦ rw given refl
]

decrypt_vuk-fixed :
    (w : World) (d : Disc) (mk vuk : List ℕ) (o : Option (List ℕ))
    → fixed (decrypt_vuk w d mk vuk o).disc ≡ fixed d
unfolding decrypt_vuk
decrypt_vuk-fixed w d mk vuk none = refl
decrypt_vuk-fixed w d mk vuk (some key) = save_key-fixed w d vuk_type _

vuk_with_vid-fixed :
    (w : World) (mk vuk : List ℕ) (r : Disc × ErrorCode)
    → fixed (vuk_with_vid w mk vuk r).disc ≡ fixed r.0
unfolding vuk_with_vid
vuk_with_vid-fixed w mk vuk (d, success) = decrypt_vuk-fixed w d mk vuk (w.aes.decrypt mk d.vid)
vuk_with_vid-fixed w mk vuk (d, _) = refl

vuk_with_mk-fixed :
    (w : World) (cf : ConfigFile) (vuk : List ℕ) (r : KeyResult)
    → fixed (vuk_with_mk w cf vuk r).disc ≡ fixed r.0
unfolding vuk_with_mk
vuk_with_mk-fixed w cf vuk (d, success, mk) =
    vuk_with_vid-fixed w mk vuk (read_vid w d cf.host_cert_list)
    ∙ read_vid-fixed w d cf.host_cert_list
vuk_with_mk-fixed w cf vuk (d, _, mk) = refl

abbrev pub KeepsFixed : Aacs × Bool × List ℕ → VukResult → Type 0
KeepsFixed a r = fixed r.disc ≡ a

vuk_if_found-KeepsFixed :
    (w : World) (fuel : ℕ) (d : Disc) (mk : List ℕ) (cf : Option ConfigFile) (r : List ℕ × Bool)
    → WhenOk (KeepsFixed (fixed d)) (vuk_if_found w fuel d mk cf r)
unfolding vuk_if_found
vuk_if_found-KeepsFixed w fuel d mk cf (vuk, true) = refl
vuk_if_found-KeepsFixed w fuel d mk none (vuk, false) = refl
vuk_if_found-KeepsFixed w fuel d mk (some cf) (vuk, false) =
    WhenOk-then (Keeps (fixed d)) (KeepsFixed (fixed d)) (calc_mk w fuel cf.pkl cf.dkl d mk) _
      (calc_mk-Keeps w fuel cf.pkl cf.dkl d mk) (λ r keeps. vuk_with_mk-fixed w cf vuk r ∙ keeps)

-- The search for the volume unique key leaves the fields for the stream alone.
pub calc_vuk-KeepsFixed :
    (w : World) (fuel : ℕ) (d : Disc) (mk vuk : List ℕ) (cf : Option ConfigFile)
    → WhenOk (KeepsFixed (fixed d)) (calc_vuk w fuel d mk vuk cf)
unfolding calc_vuk
calc_vuk-KeepsFixed w fuel d mk vuk cf = elim (Bool-cases (is_empty 16 vuk)) [
  | inl empty ↦ rw empty (
      WhenOk-bind (KeepsFixed (fixed d)) (find_key w d vuk_type vuk) _
        (λ r. vuk_if_found-KeepsFixed w fuel d mk cf r))
  | inr given ↦ rw given refl
]

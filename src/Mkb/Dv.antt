-- ===== src/Mkb/Dv.antt =====
-- `mkb_mk_dv` of mkb.c: the verification data, and the length that is read without being written.
use libaacs.Common.{
  ℕ, ◌+◌, ◌≡◌, refl, ◌⊎◌, inl, inr, Option, none, some, arith, ltb, if◌then◌else◌, Run, ok, fault,
  stuck, ◌>>=◌, Returns,
}
use libaacs.Mkb.{
  Mkb, find_record, simple_record, record_body, record_len, at_least, dv_record, mkb_type,
  mkb_mk_dv,
}
use libaacs.Mkb.Safety.{IsValid, IsRecord, find_record-IsRecord}

found_body :
    (pos len : ℕ)
    → (simple : Run (Option ℕ × ℕ)) → simple ≡ record_body (some (pos, len)) (some len)
    → (simple >>= λ r. ok (at_least 16 r)) ≡ ok (if ltb len 20 then none else some (pos + 4))
unfolding record_body at_least
found_body pos len simple e = rw e (ground arith)

-- The search answers NULL or a record on every image.
record_cases :
    (mkb : Mkb) (type : ℕ) (r : Run (Option (ℕ × ℕ)))
    → Returns (IsRecord mkb type) r
    → (r ≡ ok none) ⊎ ((pos : ℕ) × (len : ℕ) × (r ≡ ok (some (pos, len))))
record_cases mkb type (ok none) h = inl refl
record_cases mkb type (ok (some (pos, len))) h = inr (pos, len, refl)
record_cases mkb type fault h = absurd h
record_cases mkb type stuck h = absurd h

-- Without a record of verification data the length is read uninitialised; with one, the result is
-- its body, or NULL if that is shorter than 16 bytes.
pub mkb_mk_dv_cases :
    (mkb : Mkb) (type : ℕ)
    → IsValid mkb
    → mkb_type mkb ≡ ok type
    → ((find_record mkb (dv_record type) ≡ ok none) × (mkb_mk_dv mkb ≡ fault))
      ⊎ ((pos : ℕ) × (len : ℕ) × (find_record mkb (dv_record type) ≡ ok (some (pos, len)))
          × (mkb_mk_dv mkb ≡ ok (if ltb len 20 then none else some (pos + 4))))
unfolding mkb_mk_dv simple_record record_len
mkb_mk_dv_cases mkb type v t =
    elim (record_cases mkb (dv_record type) (find_record mkb (dv_record type))
      (find_record-IsRecord mkb (dv_record type) v)) [
        | inl e ↦ inl (e, rw (t, e) (unfold record_body in refl))
        | inr (pos, len, e) ↦ inr (pos, len, e, rw (t, e) (found_body pos len _ refl))
      ]

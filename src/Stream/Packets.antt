-- ===== src/Stream/Packets.antt =====
-- `_verify_ts` of aacs.c: what a unit that counts as decrypted looks like.
use libaacs.Common.{
  ℕ, zero, suc, ◌+◌, ◌*◌, ◌<◌, bit_and, ◌≡◌, refl, sym, ap, ◌∙◌, ◌≢◌, ◌⊎◌, inl, inr, Bool, true,
  false, List, [], ◌∷◌, arith, ◌==◌, ==_iff, Bool-cases, set, byte,
}
use libaacs.Common.Masks.{bit_and_ones}
use libaacs.Stream.{verify_from, verify_ts}

get_set_same : (buf : List ℕ) (i v : ℕ) → (byte (set buf i v) i ≡ v) ⊎ (byte (set buf i v) i ≡ 0)
unfolding byte
get_set_same [] i v = inr refl
get_set_same (x ∷ xs) zero v = inl refl
get_set_same (x ∷ xs) (suc i) v = get_set_same xs i v

pub get_set_other : (buf : List ℕ) (i j v : ℕ) → i ≢ j → byte (set buf i v) j ≡ byte buf j
unfolding byte
get_set_other [] i j v h = refl
get_set_other (x ∷ xs) zero zero v h = absurd (h refl)
get_set_other (x ∷ xs) zero (suc j) v h = refl
get_set_other (x ∷ xs) (suc i) zero v h = refl
get_set_other (x ∷ xs) (suc i) (suc j) v h = get_set_other xs i j v (λ e. h (ap suc e))

cleared : (buf : List ℕ) (i : ℕ) → byte (set buf i (bit_and (byte buf i) 0x3f)) i < 64
cleared buf i = elim (get_set_same buf i (bit_and (byte buf i) 0x3f)) [
  | inl e ↦ rw (e, bit_and_ones (byte buf i) 6) (omega arith)
  | inr e ↦ rw e (omega arith)
]

-- The packets from the byte `i` on start with cleared copy permission bits and have the sync byte.
abbrev pub AreClear : ℕ → ℕ → List ℕ → Type 0
AreClear n i out =
    (k : ℕ) → k < n → (byte out (i + 192 * k) < 64) × (byte out (i + 192 * k + 4) ≡ 0x47)

-- Bytes in front of `i` are as they were.
abbrev pub IsKept : ℕ → List ℕ → List ℕ → Type 0
IsKept i buf out = (j : ℕ) → j < i → byte out j ≡ byte buf j

pub verify_from_keeps : (n i : ℕ) (buf : List ℕ) → IsKept i buf (verify_from n i buf).0
unfolding verify_from
verify_from_keeps zero i buf j h = refl
verify_from_keeps (suc n) i buf j h = elim (Bool-cases (byte buf (i + 4) == 0x47)) [
  | inl sync ↦ rw sync (
      verify_from_keeps n (i + 192) (set buf i (bit_and (byte buf i) 0x3f)) j (omega arith)
      ∙ get_set_other buf i j (bit_and (byte buf i) 0x3f) (λ e. absurd (omega arith)))
  | inr other ↦ rw other refl
]

packets :
    (n i : ℕ) (buf : List ℕ) (k : ℕ)
    → byte buf (i + 4) ≡ 0x47
    → k < suc n
    → AreClear n (i + 192) (verify_from n (i + 192) (set buf i (bit_and (byte buf i) 0x3f))).0
    → (byte (verify_from n (i + 192) (set buf i (bit_and (byte buf i) 0x3f))).0 (i + 192 * k) < 64)
      × (byte (verify_from n (i + 192) (set buf i (bit_and (byte buf i) 0x3f))).0 (i + 192 * k + 4)
          ≡ 0x47)
packets n i buf zero sync h rest =
    let here : i + 192 * 0 ≡ i = omega arith in
    let buf' = set buf i (bit_and (byte buf i) 0x3f) in
    rw
      (
        here,
        verify_from_keeps n (i + 192) buf' i (omega arith),
        verify_from_keeps n (i + 192) buf' (i + 4) (omega arith),
        get_set_other buf i (i + 4) (bit_and (byte buf i) 0x3f) (λ e. absurd (omega arith)),
      )
      (cleared buf i, sync)
packets n i buf (suc k) sync h rest =
    let there : i + 192 * suc k ≡ i + 192 + 192 * k = omega arith in rw there (rest k (omega arith))

failed_at :
    (n i : ℕ) (buf : List ℕ)
    → (byte buf (i + 4) == 0x47) ≡ false
    → verify_from (suc n) i buf ≡ (buf, false)
unfolding verify_from
failed_at n i buf other = rw other refl

false_not_true : ◌≡◌ {A = Bool} false true → ⊥
false_not_true e = absurd cc

verify_from-AreClear :
    (n i : ℕ) (buf : List ℕ) → (verify_from n i buf).1 ≡ true → AreClear n i (verify_from n i buf).0
unfolding verify_from
verify_from-AreClear zero i buf valid k h = absurd (omega arith)
verify_from-AreClear (suc n) i buf valid k h = elim (Bool-cases (byte buf (i + 4) == 0x47)) [
  | inl sync ↦
      let rest : (verify_from n (i + 192) (set buf i (bit_and (byte buf i) 0x3f))).1 ≡ true =
        rw sync at valid in
      rw sync (
        packets n i buf k ((==_iff (byte buf (i + 4)) 0x47).0 sync) h
          (verify_from-AreClear n (i + 192) (set buf i (bit_and (byte buf i) 0x3f)) rest))
  | inr other ↦ absurd (false_not_true (sym (ap (λ r. r.1) (failed_at n i buf other)) ∙ valid))
]

-- `_verify_ts` accepts a unit only if each of the 32 packets of 192 bytes has the sync byte 0x47, and
-- it then leaves their copy permission bits cleared.
pub verify_ts-AreClear : (buf : List ℕ) → (verify_ts buf).1 ≡ true → AreClear 32 0 (verify_ts buf).0
unfolding verify_ts
verify_ts-AreClear buf valid = verify_from-AreClear 32 0 buf valid

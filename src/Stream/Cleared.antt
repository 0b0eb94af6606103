-- ===== src/Stream/Cleared.antt =====
-- What `_verify_ts` of aacs.c makes of a stream.
use libaacs.Common.{
  ℕ, zero, suc, ◌+◌, ◌*◌, ◌%◌, ◌<◌, bit_and, ◌≡◌, refl, ap, ◌∙◌, ◌≢◌, true, List, [], ◌∷◌, arith,
  ◌==◌, ==_iff, length, set, length-set, byte,
}
use libaacs.Common.Masks.{bit_and_ones}
use libaacs.Stream.{verify_from, verify_ts}
use libaacs.Stream.Packets.{IsKept, get_set_other, verify_from_keeps}

-- `n` packets of 192 bytes from the byte `i` on have the sync byte.
abbrev pub HasSync : ℕ → ℕ → List ℕ → Type 0
HasSync n i ts = (k : ℕ) → k < n → byte ts (i + 192 * k + 4) ≡ 0x47

-- The first bytes of these packets lose their upper two bits, and all others are as they were.
pub record IsCleared (n i : ℕ) (ts out : List ℕ) : Type 0 where
  pub same_length : length out ≡ length ts
  pub cleared : (k : ℕ) → k < n → byte out (i + 192 * k) ≡ byte ts (i + 192 * k) % 64
  pub kept : (j : ℕ) → ((k : ℕ) → k < n → j ≢ i + 192 * k) → byte out j ≡ byte ts j

get_set_bits :
    (buf : List ℕ) (i : ℕ) → byte (set buf i (bit_and (byte buf i) 0x3f)) i ≡ byte buf i % 64
unfolding byte
get_set_bits [] i = refl
get_set_bits (x ∷ xs) zero = bit_and_ones x 6
get_set_bits (x ∷ xs) (suc i) = get_set_bits xs i

-- One packet more in front.
packet-IsCleared :
    (n i : ℕ) (ts out : List ℕ)
    → IsKept (i + 192) (set ts i (bit_and (byte ts i) 0x3f)) out
    → IsCleared n (i + 192) (set ts i (bit_and (byte ts i) 0x3f)) out
    → IsCleared (suc n) i ts out
packet-IsCleared n i ts out keeps rest = record {
  same_length = rest.same_length ∙ length-set ts i (bit_and (byte ts i) 0x3f);
  cleared = first_or_rest;
  kept = λ j other.
      rest.kept j (λ k h e. other (suc k) (omega arith) (omega arith))
      ∙ get_set_other ts i j (bit_and (byte ts i) 0x3f) (λ e. other 0 (omega arith) (omega arith));
}
  where
    first_or_rest : (k : ℕ) → k < suc n → byte out (i + 192 * k) ≡ byte ts (i + 192 * k) % 64
    first_or_rest zero h =
        let here : i + 192 * 0 ≡ i = omega arith in
        rw here (keeps i (omega arith) ∙ get_set_bits ts i)
    first_or_rest (suc k) h =
        let there : i + 192 * suc k ≡ i + 192 + 192 * k = omega arith in
        rw there (
          rest.cleared k (omega arith)
          ∙ ap (λ b. b % 64)
              (get_set_other ts i (i + 192 + 192 * k) (bit_and (byte ts i) 0x3f)
                (λ e. absurd (omega arith))))

zero_offset : (i : ℕ) → i + 192 * 0 + 4 ≡ i + 4
zero_offset i = omega arith

later :
    (n i : ℕ) (ts : List ℕ)
    → HasSync (suc n) i ts
    → HasSync n (i + 192) (set ts i (bit_and (byte ts i) 0x3f))
later n i ts sync k h =
    let there : i + 192 * suc k + 4 ≡ i + 192 + 192 * k + 4 = omega arith in
    get_set_other ts i (i + 192 + 192 * k + 4) (bit_and (byte ts i) 0x3f)
      (λ e. absurd (omega arith))
    ∙ (rw there at (sync (suc k) (omega arith)))

verify_from-IsCleared :
    (n i : ℕ) (ts : List ℕ)
    → HasSync n i ts
    → ((verify_from n i ts).1 ≡ true) × IsCleared n i ts (verify_from n i ts).0
unfolding verify_from
verify_from-IsCleared zero i ts sync =
    (refl, record { same_length = refl; cleared = λ k h. absurd (omega arith); kept = λ j h. refl })
verify_from-IsCleared (suc n) i ts sync =
    let first : (byte ts (i + 4) == 0x47) ≡ true =
      (==_iff (byte ts (i + 4)) 0x47).1 (rw (zero_offset i) at (sync 0 (omega arith))) in
    let (valid, rest) =
      verify_from-IsCleared n (i + 192) (set ts i (bit_and (byte ts i) 0x3f)) (later n i ts sync) in
    rw first (valid, packet-IsCleared n i ts _ (verify_from_keeps n (i + 192) _) rest)

pub verify_ts-IsCleared :
    (ts : List ℕ) → HasSync 32 0 ts → ((verify_ts ts).1 ≡ true) × IsCleared 32 0 ts (verify_ts ts).0
unfolding verify_ts
verify_ts-IsCleared ts sync = verify_from-IsCleared 32 0 ts sync

-- ===== src/MediaKey/ProcessingKey.antt =====
-- `_calc_pk` of aacs.c: the walk from a device key down the tree of keys.
use libaacs.Common.{
  ℕ, zero, suc, ◌+◌, ◌^◌, ◌≤◌, ◌<◌, bit_and, ◌≡◌, refl, ◌∙◌, true, false, Option, none, some, List,
  arith, ◌==◌, if◌then◌else◌, Run, ok, stuck,
}
use libaacs.Crypto.{Aes, crypto_aesg3}
use libaacs.MediaKey.{top_zero, child, sar32, pk_from, calc_pk}
use libaacs.MediaKey.Masks.{high_mask, top_zero-high_mask, sar32-high_mask}
use libaacs.Common.Masks.{two_pow_suc, two_pow_pos, two_pow-le}

-- The keys of the node that is reached from keys at the level `k + d` in `d` steps, with the bits of
-- `uv` from the bit `k + d - 1` down: the right child at a one. A step may fail in AES.
abbrev pub descend : Aes → ℕ → ℕ → ℕ → List ℕ × List ℕ × List ℕ → Option (List ℕ)
descend aes uv k zero (left, right, pk) = some pk
descend aes uv k (suc d) (left, right, pk) =
    elim (crypto_aesg3 aes (if bit_and uv (2 ^ (k + d)) == 0 then left else right)) [
      | none ↦ none
      | some keys ↦ descend aes uv k d keys
    ]

-- The processing key of the node at the level `k`, from a device key `d` levels above it.
abbrev pub node_pk : Aes → List ℕ → ℕ → ℕ → ℕ → Option (List ℕ)
node_pk aes dk uv k d = elim (crypto_aesg3 aes dk) [
  | none ↦ none
  | some keys ↦ descend aes uv k d keys
]

masks_differ : (k d : ℕ) → k + suc d ≤ 32 → (high_mask (k + suc d) == high_mask k) ≡ false
masks_differ k d h =
    let next : k + suc d ≡ suc (k + d) = omega arith in
    rw next (
      ground (
        arith,
        two_pow_suc (k + d),
        two_pow_pos k,
        two_pow-le k (k + d) (omega arith),
        two_pow-le (suc (k + d)) 32 (omega arith),
      ))

same_mask : (m : ℕ) → (m == m) ≡ true
same_mask m = ground arith

child_lem :
    (uv i : ℕ) (left right : List ℕ)
    → child uv (some i) left right ≡ (if bit_and uv (2 ^ i) == 0 then left else right)
unfolding child
child_lem uv i left right = refl

after_mask :
    (fuel : ℕ) (aes : Aes) (uv v_mask mask mask' : ℕ) (o : Option (List ℕ × List ℕ × List ℕ))
    → mask ≡ mask'
    → ◌≡◌ {A = Run (Option (List ℕ))}
        (elim o [ none ↦ ok none | some keys ↦ pk_from fuel aes uv v_mask mask keys ])
        (elim o [ none ↦ ok none | some keys ↦ pk_from fuel aes uv v_mask mask' keys ])
after_mask fuel aes uv v_mask mask mask' none same = refl
after_mask fuel aes uv v_mask mask mask' (some keys) same = rw same refl

next_mask : (k d : ℕ) → k + d < 31 → sar32 (high_mask (k + suc d)) ≡ high_mask (k + d)
next_mask k d h =
    let next : k + suc d ≡ suc (k + d) = omega arith in rw next (sar32-high_mask (k + d) h)

pk_from_step :
    (fuel : ℕ) (aes : Aes) (uv k d : ℕ) (left right pk : List ℕ)
    → k + suc d < 32
    → pk_from (suc fuel) aes uv (high_mask k) (high_mask (k + suc d)) (left, right, pk)
      ≡ (elim (crypto_aesg3 aes (if bit_and uv (2 ^ (k + d)) == 0 then left else right)) [
        | none ↦ ok none
        | some keys ↦ pk_from fuel aes uv (high_mask k) (high_mask (k + d)) keys
      ])
unfolding pk_from
pk_from_step fuel aes uv k d left right pk level =
    let next : k + suc d ≡ suc (k + d) = omega arith in
    rw
      (
        masks_differ k d (omega arith),
        next,
        top_zero-high_mask (k + d) (omega arith),
        child_lem uv (k + d) left right,
      )
      (after_mask fuel aes uv (high_mask k) _ _ _ (next_mask k d (omega arith)))

pk_from_stop :
    (fuel : ℕ) (aes : Aes) (uv m : ℕ) (left right pk : List ℕ)
    → pk_from (suc fuel) aes uv m m (left, right, pk) ≡ ok (some pk)
unfolding pk_from
pk_from_stop fuel aes uv m left right pk = rw (same_mask m) refl

pk_from-descend :
    (d fuel : ℕ) (aes : Aes) (uv k : ℕ) (keys : List ℕ × List ℕ × List ℕ)
    → d < fuel
    → k + d < 32
    → pk_from fuel aes uv (high_mask k) (high_mask (k + d)) keys ≡ ok (descend aes uv k d keys)
pk_from-descend d zero aes uv k keys enough level = absurd (omega arith)
pk_from-descend zero (suc fuel) aes uv k (left, right, pk) enough level =
    let same : k + 0 ≡ k = omega arith in
    rw same (pk_from_stop fuel aes uv (high_mask k) left right pk)
pk_from-descend (suc d) (suc fuel) aes uv k (left, right, pk) enough level =
    pk_from_step fuel aes uv k d left right pk level
    ∙ below (crypto_aesg3 aes (if bit_and uv (2 ^ (k + d)) == 0 then left else right))
        (λ keys. pk_from-descend d fuel aes uv k keys (omega arith) (omega arith))
  where
    below :
        (o : Option (List ℕ × List ℕ × List ℕ))
        → ((keys : List ℕ × List ℕ × List ℕ)
            → pk_from fuel aes uv (high_mask k) (high_mask (k + d)) keys
              ≡ ok (descend aes uv k d keys))
        → ◌≡◌ {A = Run (Option (List ℕ))}
            (elim o [
              | none ↦ ok none
              | some keys ↦ pk_from fuel aes uv (high_mask k) (high_mask (k + d)) keys
            ])
            (ok (elim o [ none ↦ none | some keys ↦ descend aes uv k d keys ]))
    below none rec = refl
    below (some keys) rec = rec keys

-- If the mask of the node lacks the `k` low bits, and that of the device key the `k + d` low bits,
-- fewer than 32, then `calc_pk` ends within `d + 1` rounds, and gives the processing key that is
-- reached in `d` steps down the tree by the bits of `uv`, or the error of a step.
pub calc_pk-descend :
    (aes : Aes) (dk : List ℕ) (uv k d fuel : ℕ)
    → d < fuel
    → k + d < 32
    → calc_pk fuel aes dk uv (high_mask k) (high_mask (k + d)) ≡ ok (node_pk aes dk uv k d)
unfolding calc_pk
calc_pk-descend aes dk uv k d fuel enough level = from (crypto_aesg3 aes dk)
  where
    from :
        (o : Option (List ℕ × List ℕ × List ℕ))
        → ◌≡◌ {A = Run (Option (List ℕ))}
            (elim o [
              | none ↦ ok none
              | some keys ↦ pk_from fuel aes uv (high_mask k) (high_mask (k + d)) keys
            ])
            (ok (elim o [ none ↦ none | some keys ↦ descend aes uv k d keys ]))
    from none = refl
    from (some keys) = pk_from-descend d fuel aes uv k keys enough level

-- AES never fails.
abbrev pub IsTotal : Aes → Type 0
IsTotal aes =
    (key : List ℕ) → (keys : List ℕ × List ℕ × List ℕ) × (crypto_aesg3 aes key ≡ some keys)

pk_from_next :
    (fuel : ℕ) (aes : Aes) (uv v_mask mask mask' : ℕ) (left right pk : List ℕ)
    (keys : List ℕ × List ℕ × List ℕ)
    → (mask == v_mask) ≡ false
    → crypto_aesg3 aes (child uv (top_zero 32 mask) left right) ≡ some keys
    → sar32 mask ≡ mask'
    → pk_from (suc fuel) aes uv v_mask mask (left, right, pk)
      ≡ pk_from fuel aes uv v_mask mask' keys
unfolding pk_from
pk_from_next fuel aes uv v_mask mask mask' left right pk keys differ g3 shift =
    rw (differ, g3, shift) refl

all_ones : sar32 (high_mask 0) ≡ high_mask 0
unfolding sar32
all_ones = refl

below_differ : (j k : ℕ) → j < k → k < 32 → (high_mask j == high_mask k) ≡ false
below_differ j k h small = ground (
  arith,
  two_pow_suc j,
  two_pow_pos j,
  two_pow-le (suc j) k (omega arith),
  two_pow-le k 32 (omega arith),
)

pk_from-stuck :
    (fuel : ℕ) (aes : Aes) (uv k j : ℕ) (keys : List ℕ × List ℕ × List ℕ)
    → IsTotal aes
    → j < k
    → k < 32
    → pk_from fuel aes uv (high_mask k) (high_mask j) keys ≡ stuck
pk_from-stuck zero aes uv k j keys total lower small = unfold pk_from in refl
pk_from-stuck (suc fuel) aes uv k zero (left, right, pk) total lower small =
    let (keys, g3) = total (child uv (top_zero 32 (high_mask 0)) left right) in
    pk_from_next fuel aes uv (high_mask k) _ _ left right pk keys (below_differ 0 k lower small) g3
      all_ones
    ∙ pk_from-stuck fuel aes uv k 0 keys total lower small
pk_from-stuck (suc fuel) aes uv k (suc j) (left, right, pk) total lower small =
    let (keys, g3) = total (child uv (top_zero 32 (high_mask (suc j))) left right) in
    pk_from_next fuel aes uv (high_mask k) _ _ left right pk keys
      (below_differ (suc j) k lower small) g3 (sar32-high_mask j (omega arith))
    ∙ pk_from-stuck fuel aes uv k j keys total (omega arith) small

-- If AES does not fail and the mask of the device key is already below that of the node, the loop of
-- `calc_pk` goes past its end: no number of rounds is enough.
pub calc_pk-stuck :
    (aes : Aes) (dk : List ℕ) (uv k j : ℕ)
    → IsTotal aes
    → j < k
    → k < 32
    → (fuel : ℕ) → calc_pk fuel aes dk uv (high_mask k) (high_mask j) ≡ stuck
unfolding calc_pk
calc_pk-stuck aes dk uv k j total lower small fuel = from (crypto_aesg3 aes dk) (total dk).1
  where
    from :
        (o : Option (List ℕ × List ℕ × List ℕ))
        → o ≡ some (total dk).0
        → ◌≡◌ {A = Run (Option (List ℕ))}
            (elim o [
              | none ↦ ok none
              | some keys ↦ pk_from fuel aes uv (high_mask k) (high_mask j) keys
            ])
            stuck
    from none e = absurd cc
    from (some keys) e = pk_from-stuck fuel aes uv k j keys total lower small

-- ===== src/MkbDump/Lists.antt =====
-- What the tool prints of revocation lists.
use libaacs.Common.{
  ℕ, zero, suc, ◌+◌, ◌-◌, ◌*◌, ◌/◌, ◌^◌, ◌≤◌, ◌<◌, ◌≡◌, refl, ap, ◌∙◌, inl, inr, Bool, true, false,
  ◌&&◌, List, [], ◌∷◌, ◌++◌, arith, ltb, leb, Bool-cases, length, drop, length-append, All, Run, ok,
  ◌>>=◌, Returns, bytes_at, byte, word32, slice, be16_lem, be32_lem, be48_lem, bytes_at_lem,
  length-slice, length-drop,
}
use libaacs.Common.{All-append}
use libaacs.Common.Partial.{Returns-then}
use libaacs.MkbDump.{
  Line, signature, size_mismatch, dump_entries, after_block, dump_blocks, dump_aacs1_rl, sub32,
}

-- A line that stands for a signature has all of its bytes.
abbrev IsWhole : Line → Type 0
IsWhole (signature sig) = length sig ≡ 40
IsWhole _ = Unit

abbrev pub AreWhole : List Line → Type 0
AreWhole lines = All IsWhole lines

-- Entries only, as many as were counted, with the rest of the list behind them.
abbrev EntriesOf : List ℕ → ℕ → List Line × List ℕ → Type 0
EntriesOf rl n (lines, rest) =
    AreWhole lines × (length lines ≡ n) × (length rest + 8 * n ≡ length rl)

dump_entries-EntriesOf :
    (n ii : ℕ) (rl : List ℕ) → 8 * n ≤ length rl → Returns (EntriesOf rl n) (dump_entries n ii rl)
unfolding dump_entries
dump_entries-EntriesOf zero ii rl room = (record {}, refl, omega arith)
dump_entries-EntriesOf (suc n) ii rl room =
    let long : 8 ≤ length rl = omega arith in
    let short = length-drop 8 rl in
    rw (be16_lem rl 0 (omega arith), be48_lem rl 2 (omega arith))
      (Returns-then (EntriesOf (drop 8 rl) n) (EntriesOf rl (suc n))
        (dump_entries n (ii + 1) (drop 8 rl)) _
        (dump_entries-EntriesOf n (ii + 1) (drop 8 rl) (omega arith))
        (λ r (whole, count, size). ((record {}, whole), ap suc count, omega arith)))

after_block-AreWhole :
    (last : Bool) (m : Run (List Line)) → Returns AreWhole m → Returns AreWhole (after_block last m)
unfolding after_block
after_block-AreWhole true m h = h
after_block-AreWhole false m h = (record {}, record {})

-- The entries and the signature of a block.
block-AreWhole :
    (entries : ℕ) (body : List ℕ) (f : List ℕ → Run (List Line))
    → 8 * entries + 40 ≤ length body
    → ((rest : List ℕ) → length rest ≤ length body → Returns AreWhole (f rest))
    → Returns AreWhole (do
      r ← dump_entries entries 0 body
      sig ← bytes_at r.1 0 40
      rest ← f (drop 40 r.1)
      ok (r.0 ++ (signature sig ∷ rest)))
block-AreWhole entries body f room h =
    Returns-then (EntriesOf body entries) AreWhole (dump_entries entries 0 body) _
      (dump_entries-EntriesOf entries 0 body (omega arith))
      (λ r (whole, count, size).
        let short = length-drop 40 r.1 in
        rw (bytes_at_lem r.1 0 40 (omega arith)) (
          Returns-then AreWhole AreWhole (f (drop 40 r.1)) _ (h (drop 40 r.1) (omega arith))
            (λ rest more. All-append IsWhole r.0 _ whole (length-slice r.1 0 40, more))))

dump_blocks-AreWhole :
    (fuel total : ℕ) (rl : List ℕ) → length rl < fuel → Returns AreWhole (dump_blocks fuel total rl)
unfolding dump_blocks
dump_blocks-AreWhole zero total rl h = absurd (omega arith)
dump_blocks-AreWhole (suc fuel) total rl h = elim (Bool-cases (ltb 0 total && leb 4 (length rl))) [
  | inr done ↦ rw done (record {})
  | inl goes ↦
      let long : 4 ≤ length rl = ground arith in
      let short = length-drop 4 rl in
      rw (goes, be32_lem rl 0 (omega arith))
        (elim (Bool-cases (leb ((0xffffffff - 8 - 40) / 8) (word32 rl 0))) [
          | inl large ↦ rw large (record {}, record {})
          | inr small ↦ elim (Bool-cases (ltb (length (drop 4 rl)) (8 * word32 rl 0 + 40))) [
            | inl past ↦ rw (small, past) (record {}, record {})
            | inr fits ↦
                rw (small, fits)
                  (block-AreWhole (word32 rl 0) (drop 4 rl) _ (ground arith) (λ rest within.
                    after_block-AreWhole (leb total (word32 rl 0)) _
                      (dump_blocks-AreWhole fuel (sub32 total (word32 rl 0)) rest (omega arith))))
          ]
        ])
]

-- Any revocation list is printed to an end, without a read outside of it, and a signature is
-- printed with all of its 40 bytes.
pub dump_aacs1_rl-AreWhole : (rl : List ℕ) → Returns AreWhole (dump_aacs1_rl rl)
unfolding dump_aacs1_rl
dump_aacs1_rl-AreWhole rl = elim (Bool-cases (ltb (length rl) 4)) [
  | inl short ↦ rw short (record {})
  | inr long ↦
      rw (long, be32_lem rl 0 (ground arith))
        (elim (Bool-cases (ltb (length (drop 4 rl) / 8) (word32 rl 0))) [
          | inl wrong ↦ rw wrong (record {}, record {})
          | inr fits ↦ rw fits (
              dump_blocks-AreWhole (suc (length (drop 4 rl))) (word32 rl 0) (drop 4 rl)
                (omega arith))
        ])
]

-- A list whose first block has `n` entries, all of them there, and fewer than the list has.
abbrev pub HasMoreBlocks : List ℕ → ℕ → Type 0
HasMoreBlocks rl n =
    (word32 rl 4 ≡ n)
    × (n < word32 rl 0)
    × (word32 rl 0 * 8 + 4 ≤ length rl)
    × (8 * n + 48 ≤ length rl)
    × (length rl < 2 ^ 24)

-- All that is printed is `n` entries, their signature and the message.
abbrev pub IsCutOff : ℕ → List Line → Type 0
IsCutOff n lines =
    (shown : List Line) × (lines ≡ shown ++ (size_mismatch ∷ [])) × (length shown ≡ n + 1)

append_one : (xs : List Line) (a b : Line) → xs ++ (a ∷ b ∷ []) ≡ (xs ++ (a ∷ [])) ++ (b ∷ [])
append_one [] a b = refl
append_one (x ∷ xs) a b = ap (λ ys. x ∷ ys) (append_one xs a b)

word32-drop : (rl : List ℕ) → word32 (drop 4 rl) 0 ≡ word32 rl 4
unfolding word32 byte
word32-drop [] = refl
word32-drop (a ∷ []) = refl
word32-drop (a ∷ b ∷ []) = refl
word32-drop (a ∷ b ∷ c ∷ []) = refl
word32-drop (a ∷ b ∷ c ∷ d ∷ rl) = refl

dump_blocks-IsCutOff :
    (fuel total n : ℕ) (rl : List ℕ)
    → word32 rl 0 ≡ n
    → n < total
    → 8 * n + 44 ≤ length rl
    → length rl < 2 ^ 24
    → Returns (IsCutOff n) (dump_blocks (suc fuel) total rl)
unfolding dump_blocks after_block
dump_blocks-IsCutOff fuel total n rl e more room small =
    let goes : (ltb 0 total && leb 4 (length rl)) ≡ true = ground arith in
    let sized : leb ((0xffffffff - 8 - 40) / 8) n ≡ false = ground arith in
    let short = length-drop 4 rl in
    let fits : ltb (length (drop 4 rl)) (8 * n + 40) ≡ false = ground arith in
    let reversed : leb total n ≡ false = ground arith in
    rw (goes, be32_lem rl 0 (omega arith), e, sized, fits, reversed)
      (Returns-then (EntriesOf (drop 4 rl) n) (IsCutOff n) (dump_entries n 0 (drop 4 rl)) _
        (dump_entries-EntriesOf n 0 (drop 4 rl) (omega arith))
        (λ r (whole, count, size). rw (bytes_at_lem r.1 0 40 (omega arith)) (
          r.0 ++ (signature (slice r.1 0 40) ∷ []),
          append_one r.0 (signature (slice r.1 0 40)) size_mismatch,
          omega (arith, length-append r.0 (signature (slice r.1 0 40) ∷ []), count),
        )))

-- A list of several blocks is not printed: behind the entries and the signature of the first one
-- there is only the message that the sizes do not match.
pub dump_aacs1_rl-IsCutOff :
    (rl : List ℕ) (n : ℕ) → HasMoreBlocks rl n → Returns (IsCutOff n) (dump_aacs1_rl rl)
unfolding dump_aacs1_rl
dump_aacs1_rl-IsCutOff rl n (e, more, whole, room, small) =
    let long : ltb (length rl) 4 ≡ false = ground arith in
    let short = length-drop 4 rl in
    let fits : ltb (length (drop 4 rl) / 8) (word32 rl 0) ≡ false = ground arith in
    rw (long, be32_lem rl 0 (omega arith), fits)
      (dump_blocks-IsCutOff (length (drop 4 rl)) (word32 rl 0) n (drop 4 rl) (word32-drop rl ∙ e)
        more (omega arith) (omega arith))

-- ===== src/MkbDump/Records.antt =====
-- The list of records that the tool prints.
use libaacs.Common.{
  ℕ, zero, suc, ◌+◌, ◌<◌, inl, inr, List, [], ◌∷◌, arith, leb, ◌==◌, Bool-cases, length, Run, ok,
  fault, stuck, Returns, word24, byte_at_lem, be24_lem,
}
use libaacs.Common.Partial.{Returns-then}
use libaacs.MkbDump.{Line, record_line, unknown_rest, list_from, list_records}

-- The sizes that are printed, one after the other.
abbrev pub sizes : List Line → ℕ
sizes [] = 0
sizes (record_line type len ∷ lines) = len + sizes lines
sizes (unknown_rest len ∷ lines) = len + sizes lines
sizes (_ ∷ lines) = sizes lines

-- From `pos` on all bytes but three at most are in the sizes.
abbrev Covers : List ℕ → ℕ → List Line × List ℕ → Type 0
Covers bytes pos r = length bytes < pos + sizes r.0 + 4

list_from-Covers :
    (fuel : ℕ) (bytes : List ℕ) (pos : ℕ)
    → 0 < fuel
    → length bytes < pos + fuel
    → Returns (Covers bytes pos) (list_from fuel bytes pos)
unfolding list_from
list_from-Covers zero bytes pos some_left h = absurd (omega arith)
list_from-Covers (suc fuel) bytes pos some_left h =
    elim (Bool-cases (leb (pos + 4) (length bytes))) [
      | inr done ↦ rw done (ground arith)
      | inl goes ↦
          rw (goes, byte_at_lem bytes pos (ground arith), be24_lem bytes (pos + 1) (ground arith))
            (elim (Bool-cases (word24 bytes (pos + 1) == 0)) [
              | inl empty ↦ rw empty (omega arith)
              | inr more ↦ rw more (
                  Returns-then (Covers bytes (pos + word24 bytes (pos + 1))) (Covers bytes pos)
                    (list_from fuel bytes (pos + word24 bytes (pos + 1))) _
                    (list_from-Covers fuel bytes (pos + word24 bytes (pos + 1)) (ground arith)
                      (ground arith))
                    (λ r covered. omega arith))
            ])
    ]

abbrev pub CoversAll : List ℕ → List Line × List ℕ → Type 0
CoversAll bytes r = length bytes < sizes r.0 + 4

-- The records of any block are listed to an end, without a read outside of it, and with the rest
-- that has no record the sizes add up to all of its bytes but three at most.
pub list_records-CoversAll : (bytes : List ℕ) → Returns (CoversAll bytes) (list_records bytes)
unfolding list_records
list_records-CoversAll bytes =
    from_start (list_from (suc (length bytes)) bytes 0)
      (list_from-Covers (suc (length bytes)) bytes 0 (omega arith) (omega arith))
  where
    from_start :
        (m : Run (List Line × List ℕ)) → Returns (Covers bytes 0) m → Returns (CoversAll bytes) m
    from_start (ok r) h = omega arith
    from_start fault h = h
    from_start stuck h = h

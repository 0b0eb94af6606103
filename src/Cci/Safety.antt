-- ===== src/Cci/Safety.antt =====
-- The parser of cci.c on files whose entries fit: it reads nothing outside of the file, and what it
-- returns can be used. `Cci/Overrun` has the other files.
use libaacs.Common.{
  ℕ, zero, suc, ◌+◌, ◌-◌, ◌^◌, ◌≤◌, ◌<◌, ◌≡◌, refl, ap, inl, inr, Option, none, some, List, arith,
  ltb, Bool-cases, length, replicate, All, Run, ok, fault, stuck, ◌>>=◌, Returns, sub64, byte,
  word16, byte_at_lem, be16_lem,
}
use libaacs.Cci.{
  CciEntry, BasicCci, EntryResult, failed, skipped, parsed, no_entry, bitcpy, parse_basic,
  cci_parse_entry, put_entry, parse_entries, cci_parse, basic_fields,
}
use libaacs.Cci.Bitcpy.{bytes_read, bitcpy-length}

-- What can be read of an entry's titles is there.
abbrev pub HasTitles : CciEntry → Type 0
HasTitles e = (length e.basic_cci.title_type ≡ 128) × (e.basic_cci.num_titles ≤ 1024)

-- What the parser says of an entry that it accepts: the data length of the file, and its titles.
abbrev pub EntryParsed : List ℕ → ℕ → CciEntry × EntryResult → Type 0
EntryParsed buf p (e, failed) = Unit {0}
EntryParsed buf p (e, skipped) =
    HasTitles e × (e.data_length ≡ word16 buf (p + 4)) × (e.type ≡ word16 buf p)
EntryParsed buf p (e, parsed) =
    HasTitles e × (e.data_length ≡ word16 buf (p + 4)) × (e.type ≡ word16 buf p)

titles_read :
    (e : CciEntry) (buf : List ℕ) (p : ℕ) (basic : BasicCci) (r : Run (List ℕ))
    → basic.num_titles ≤ 1024
    → e.data_length ≡ word16 buf (p + 4)
    → e.type ≡ word16 buf p
    → Returns (λ d. length d ≡ 128) r
    → Returns
        (EntryParsed buf p)
        (r >>= λ t. ok (record e { basic_cci = record basic { title_type = t } }, parsed))
titles_read e buf p basic (ok t) few len type h = ((h, few), len, type)
titles_read e buf p basic fault few len type h = h
titles_read e buf p basic stuck few len type h = h

bytes_read-le : (n : ℕ) → n ≤ 1024 → bytes_read n ≤ 128
bytes_read-le n h = ground arith

parse_basic-EntryParsed :
    (e : CciEntry) (buf : List ℕ) (p : ℕ)
    → p + 138 ≤ length buf
    → e.data_length ≡ word16 buf (p + 4)
    → e.type ≡ word16 buf p
    → Returns (EntryParsed buf p) (parse_basic e buf p)
unfolding parse_basic
parse_basic-EntryParsed e buf p fits len type =
    rw
      (
        byte_at_lem buf (p + 6) (omega arith),
        byte_at_lem buf (p + 7) (omega arith),
        be16_lem buf (p + 8) (omega arith),
      )
      (elim (Bool-cases (ltb 1024 (word16 buf (p + 8)))) [
        | inl many ↦ rw many tt
        | inr few ↦
            let le : word16 buf (p + 8) ≤ 1024 = ground arith in
            rw few (
              titles_read e buf p
                (basic_fields (byte buf (p + 6)) (byte buf (p + 7)) (word16 buf (p + 8)))
                (bitcpy (replicate 128 0) buf (p + 10) (word16 buf (p + 8))) le len type
                (bitcpy-length (replicate 128 0) buf (p + 10) (word16 buf (p + 8)) le refl
                  (omega (arith, bytes_read-le (word16 buf (p + 8)) le))))
      ])

-- An entry whose header and data lie inside of the file is parsed inside of it.
pub cci_parse_entry-EntryParsed :
    (buf : List ℕ) (p size : ℕ)
    → p + size ≤ length buf
    → 6 + word16 buf (p + 4) ≤ size
    → size < 2 ^ 63
    → Returns (EntryParsed buf p) (cci_parse_entry buf p size)
unfolding cci_parse_entry
cci_parse_entry-EntryParsed buf p size inside fits small = ground (
  arith,
  be16_lem buf p,
  be16_lem buf (p + 2),
  be16_lem buf (p + 4),
  parse_basic-EntryParsed
      (record no_entry {
        type = word16 buf p;
        version = word16 buf (p + 2);
        data_length = word16 buf (p + 4);
      })
      buf p,
)

-- `n` entries from `p` on lie inside of the next `size` bytes.
abbrev pub Chain : ℕ → List ℕ → ℕ → ℕ → Type 0
Chain zero buf p size = Unit {0}
Chain (suc n) buf p size =
    (6 + word16 buf (p + 4) ≤ size)
    × Chain n buf (p + (6 + word16 buf (p + 4))) (size - (6 + word16 buf (p + 4)))

abbrev pub EntriesParsed : ℕ → Option (List CciEntry) → Type 0
EntriesParsed n none = Unit {0}
EntriesParsed n (some es) = (length es ≡ n) × All HasTitles es

put_entry-EntriesParsed :
    (n : ℕ) (e : CciEntry) (r : Run (Option (List CciEntry)))
    → HasTitles e
    → Returns (EntriesParsed n) r
    → Returns (EntriesParsed (suc n)) (r >>= λ es. ok (put_entry e es))
unfolding put_entry
put_entry-EntriesParsed n e (ok none) h k = tt
put_entry-EntriesParsed n e (ok (some es)) h (len, all) = (ap suc len, (h, all))
put_entry-EntriesParsed n e fault h k = k
put_entry-EntriesParsed n e stuck h k = k

-- The loop on entries that fit, kept step by step.
parse_entries-EntriesParsed :
    (n : ℕ) (buf : List ℕ) (p size : ℕ)
    → p + size ≤ length buf
    → size < 2 ^ 63
    → Chain n buf p size
    → Returns (EntriesParsed n) (parse_entries n buf p size)
unfolding parse_entries
parse_entries-EntriesParsed zero buf p size inside small chain = (refl, tt)
parse_entries-EntriesParsed (suc n) buf p size inside small (fits, chain) =
    step (cci_parse_entry buf p size) (cci_parse_entry-EntryParsed buf p size inside fits small) (
      parse_entries-EntriesParsed n buf (p + (6 + word16 buf (p + 4)))
        (size - (6 + word16 buf (p + 4))) (omega arith) (omega arith) chain)
  where
    next_size : sub64 size (6 + word16 buf (p + 4)) ≡ size - (6 + word16 buf (p + 4))
    next_size = omega arith

    rest :
        (e : CciEntry)
        → HasTitles e
        → e.data_length ≡ word16 buf (p + 4)
        → Returns
            (EntriesParsed n)
            (parse_entries n buf (p + (6 + word16 buf (p + 4))) (size - (6 + word16 buf (p + 4))))
        → Returns (EntriesParsed (suc n)) (
            parse_entries n buf (p + (6 + e.data_length)) (sub64 size (6 + e.data_length)) >>= λ es.
            ok (put_entry e es))
    rest e titles len later = simp (len, next_size) (put_entry-EntriesParsed n e _ titles later)

    step :
        (r : Run (CciEntry × EntryResult))
        → Returns (EntryParsed buf p) r
        → Returns
            (EntriesParsed n)
            (parse_entries n buf (p + (6 + word16 buf (p + 4))) (size - (6 + word16 buf (p + 4))))
        → Returns (EntriesParsed (suc n)) (
            r >>= λ t. elim t.1 [
              | failed ↦ ok none
              | skipped ↦
                  parse_entries n buf (p + (6 + t.0.data_length)) (sub64 size (6 + t.0.data_length))
                  >>= λ es. ok (put_entry t.0 es)
              | parsed ↦
                  parse_entries n buf (p + (6 + t.0.data_length)) (sub64 size (6 + t.0.data_length))
                  >>= λ es. ok (put_entry t.0 es)
            ])
    step (ok (e, failed)) h later = tt
    step (ok (e, skipped)) (titles, len, type) later = rest e titles len later
    step (ok (e, parsed)) (titles, len, type) later = rest e titles len later
    step fault h later = h
    step stuck h later = h

-- A file whose entries fit is parsed without a read outside of it. The result is NULL or as many
-- entries as the file declares, each with its whole title map and no more than 1024 titles.
pub cci_parse-EntriesParsed :
    (buf : List ℕ)
    → length buf < 2 ^ 63
    → Chain (word16 buf 0) buf 16 (length buf - 16)
    → Returns (EntriesParsed (word16 buf 0)) (cci_parse buf (length buf))
unfolding cci_parse
cci_parse-EntriesParsed buf small chain =
    ground
      (arith, be16_lem buf 0, parse_entries-EntriesParsed (word16 buf 0) buf 16 (length buf - 16))

-- ===== src/MkbFile/Records.antt =====
-- `_read_mkb_file` of src/libaacs/aacs.c on files that are laid out as a sequence of records.
use libaacs.Common.{
  ℕ, zero, suc, ◌+◌, ◌-◌, ◌*◌, ◌≤◌, ◌<◌, ◌≡◌, refl, ap, ◌∙◌, Bool, true, false, Option, none, some,
  List, [], ◌∷◌, ◌++◌, arith, ltb, if◌then◌else◌, length, take, length-append, All, Run, ok, fault,
  stuck, ◌>>=◌, Returns, byte, word24, word24-append,
}
use mathlib.Core.List.{append_assoc, append-nil}
use libaacs.Mkb.Lookup.{Entry, entry_len, encode, encode_all, Fits, length-encode}
use libaacs.MkbFile.{read_records, read_bytes, read_mkb_file}

-- Behind the records: a length below 4, which no record has.
abbrev pub EndsRecords : List ℕ → Type 0
EndsRecords tail = (4 ≤ length tail) × (word24 tail 1 < 4)

header_len :
    (front : List ℕ) (e : Entry) (more : List ℕ)
    → Fits e
    → word24 (front ++ (encode e ++ more)) (length front + 1) ≡ entry_len e
header_len front e more h =
    word24-append front (encode e ++ more) 1 ∙ unfold word24 byte in omega arith

next_front :
    (front : List ℕ) (e : Entry) (es : List Entry) (tail : List ℕ)
    → front ++ (encode_all (e ∷ es) ++ tail) ≡ (front ++ encode e) ++ (encode_all es ++ tail)
next_front front e es tail =
    rw
      (
        append_assoc front (encode e) (encode_all es ++ tail),
        append_assoc (encode e) (encode_all es) tail,
      )
      refl

-- One round, behind the header of an entry.
read_records-step :
    (fuel : ℕ) (front : List ℕ) (e : Entry) (es : List Entry) (tail : List ℕ)
    (size data_size chunk : ℕ)
    → Fits e
    → size + chunk ≡ length front + 4
    → length front + 4 ≤ data_size
    → (data_size' : ℕ) × (length (front ++ encode e) + 4 ≤ data_size')
      × (read_records (suc fuel) (front ++ (encode_all (e ∷ es) ++ tail)) size data_size chunk
          ≡ read_records fuel
              ((front ++ encode e) ++ (encode_all es ++ tail))
              (length front + 4)
              data_size'
              (entry_len e))
unfolding read_records
read_records-step fuel front e es tail size data_size chunk fits at room =
    let here : length front + 4 - 3 ≡ length front + 1 = omega arith in
    let more : length (front ++ (encode e ++ (encode_all es ++ tail)))
        ≡ length front + entry_len e + length (encode_all es) + length tail =
      omega (
        arith,
        length-append front (encode e ++ (encode_all es ++ tail)),
        length-append (encode e) (encode_all es ++ tail),
        length-append (encode_all es) tail,
      ) in
    let data_size' : ℕ =
      if ltb data_size (length front + 4 + entry_len e)
      then 2 * (length front + 4) + entry_len e
      else data_size in
    (
      data_size',
      larger (length front + 4) (entry_len e) data_size (length (front ++ encode e) + 4)
          (omega (arith, length-encode front e)),
      rw
          (
            at,
            here,
            append_assoc (encode e) (encode_all es) tail,
            header_len front e (encode_all es ++ tail) fits,
            more,
            ← append_assoc front (encode e) (encode_all es ++ tail),
            le_not_lt (length front + 4) data_size room,
            le_not_lt (length front + 4)
                (length front + entry_len e + length (encode_all es) + length tail) (omega arith),
            le_not_lt (entry_len e)
                (length front
                  + entry_len e
                  + length (encode_all es)
                  + length tail
                  - (length front + 4)
                  + 4)
                (omega arith),
            le_not_lt 4 (entry_len e) (omega arith),
          )
          refl,
    )
  where
    larger :
        (size chunk data_size n : ℕ)
        → n ≡ size + chunk
        → n ≤ (if ltb data_size (size + chunk) then 2 * size + chunk else data_size)
    larger size chunk data_size n e = ground arith

    le_not_lt : (a b : ℕ) → a ≤ b → ltb b a ≡ false
    le_not_lt a b h = ground arith

read_records-tail :
    (fuel : ℕ) (front : List ℕ) (es : List Entry) (tail : List ℕ) (size data_size chunk : ℕ)
    → All Fits es
    → EndsRecords tail
    → size + chunk ≡ length front + 4
    → length front + 4 ≤ data_size
    → length (encode_all es) < fuel
    → read_records fuel (front ++ (encode_all es ++ tail)) size data_size chunk
      ≡ ok (some (length front + length (encode_all es) + 4))
read_records-tail zero front es tail size data_size chunk fits ends at room enough =
    absurd (omega arith)
read_records-tail (suc fuel) front [] tail size data_size chunk fits (long, short) at room enough =
    let here : length front + 4 - 3 ≡ length front + 1 = omega arith in
    let less : word24 (front ++ tail) (length front + 1) < 4 =
      rw (word24-append front tail 1) short in
    unfold read_records in rw (at, here) (ground (arith, length-append front tail))
read_records-tail (suc fuel) front (e ∷ es) tail size data_size chunk fits ends at room enough =
    let step = read_records-step fuel front e es tail size data_size chunk fits.0 at room in
    step.2
    ∙ read_records-tail fuel (front ++ encode e) es tail (length front + 4) step.0 (entry_len e)
        fits.1 ends (omega (arith, length-encode front e)) step.1
        (omega (arith, length-append (encode e) (encode_all es)))
    ∙ ap (λ n. ok (some (n + 4)))
        (omega (arith, length-encode front e, length-append (encode e) (encode_all es)))

-- Nothing is behind the records.
read_records-bare :
    (fuel : ℕ) (front : List ℕ) (es : List Entry) (size data_size chunk : ℕ)
    → All Fits es
    → size + chunk ≡ length front + 4
    → length front + 4 ≤ data_size
    → length (encode_all es) < fuel
    → read_records fuel (front ++ (encode_all es ++ [])) size data_size chunk ≡ ok none
read_records-bare zero front es size data_size chunk fits at room enough = absurd (omega arith)
read_records-bare (suc fuel) front [] size data_size chunk fits at room enough =
    unfold read_records in rw at (ground (arith, length-append front []))
read_records-bare (suc fuel) front (e ∷ es) size data_size chunk fits at room enough =
    let step = read_records-step fuel front e es [] size data_size chunk fits.0 at room in
    step.2
    ∙ read_records-bare fuel (front ++ encode e) es (length front + 4) step.0 (entry_len e) fits.1
        (omega (arith, length-encode front e)) step.1
        (omega (arith, length-append (encode e) (encode_all es)))

take_more : (xs ys : List ℕ) → take (length xs + 4) (xs ++ ys) ≡ xs ++ take 4 ys
take_more [] ys = refl
take_more (x ∷ xs) ys =
    let one : suc (length xs) + 4 ≡ suc (length xs + 4) = omega arith in
    rw one (ap (λ l. x ∷ l) (take_more xs ys))

-- On a sequence of records below 2^24 bytes with at least four bytes behind it, the first four of
-- which give a length below 4, the bytes of the records and four more are returned.
pub read_mkb_file-padded :
    (es : List Entry) (tail : List ℕ)
    → All Fits es
    → EndsRecords tail
    → read_mkb_file (some (encode_all es ++ tail)) ≡ ok (encode_all es ++ take 4 tail)
unfolding read_mkb_file read_bytes
read_mkb_file-padded es tail fits ends =
    let long : ltb (length (encode_all es ++ tail)) 4 ≡ false =
      ground (arith, ends.0, length-append (encode_all es) tail) in
    let zero_add : 0 + length (encode_all es) ≡ length (encode_all es) = omega arith in
    rw
      (
        long,
        read_records-tail (suc (length (encode_all es ++ tail))) [] es tail 0 65536 4 fits ends refl
            (omega arith) (omega (arith, length-append (encode_all es) tail)),
        zero_add,
      )
      (ap ok (take_more (encode_all es) tail))

-- What was read, if the read did not fail, is no more than there is.
abbrev pub AtMost : ℕ → Option ℕ → Type 0
AtMost n none = Unit
AtMost n (some m) = m ≤ n

read_records-AtMost :
    (fuel : ℕ) (file : List ℕ) (size data_size chunk : ℕ)
    → size + chunk ≤ data_size
    → 4 ≤ chunk
    → size ≤ length file
    → length file < fuel + size
    → Returns (AtMost (length file)) (read_records fuel file size data_size chunk)
unfolding read_records
read_records-AtMost zero file size data_size chunk room step inside enough = absurd (omega arith)
read_records-AtMost (suc fuel) file size data_size chunk room step inside enough = ground (
  arith,
  read_records-AtMost fuel file (size + chunk)
      (if ltb data_size (size + chunk + word24 file (size + chunk - 3))
        then 2 * (size + chunk) + word24 file (size + chunk - 3)
        else data_size)
      (word24 file (size + chunk - 3)),
)

-- Any file is read to an end, without a write outside of the buffer, and gives a part of the file from its
-- start.
pub read_mkb_file-Returns :
    (file : List ℕ)
    → Returns
        (λ bytes. (n : ℕ) × (n ≤ length file) × (bytes ≡ take n file))
        (read_mkb_file (some file))
unfolding read_mkb_file
read_mkb_file-Returns file =
    of_size file (ltb (length file) 4) (read_records (suc (length file)) file 0 65536 4) (
      read_records-AtMost (suc (length file)) file 0 65536 4 (omega arith) (omega arith)
        (omega arith) (omega arith))
  where
    of_size :
        (file : List ℕ) (short : Bool) (r : Run (Option ℕ))
        → Returns (AtMost (length file)) r
        → Returns
            (λ bytes. (n : ℕ) × (n ≤ length file) × (bytes ≡ take n file))
            (if short then ok [] else (do size ← r; ok (read_bytes file size)))
    of_size file true r h = (0, omega arith, refl)
    of_size file false (ok none) h = (0, omega arith, unfold read_bytes in refl)
    of_size file false (ok (some n)) h = (n, h, unfold read_bytes in refl)
    of_size file false fault h = h
    of_size file false stuck h = h

-- A file of records below 2^24 bytes alone, with nothing behind the last one, gives nothing.
pub read_mkb_file-bare :
    (es : List Entry) → All Fits es → read_mkb_file (some (encode_all es)) ≡ ok []
unfolding read_mkb_file read_bytes
read_mkb_file-bare es fits =
    let whole : encode_all es ++ [] ≡ encode_all es = append-nil (encode_all es) in
    let bare : read_records (suc (length (encode_all es))) (encode_all es) 0 65536 4 ≡ ok none =
      rw whole at (
        read_records-bare (suc (length (encode_all es))) [] es 0 65536 4 fits refl (omega arith)
          (omega arith)) in
    rw bare (ground arith)

-- ===== src/Datasets/Csv/Laws.antt =====
-- Import after export, and what an import that succeeds has saved.
use arcane_backend.Common.{
  ℕ, ◌+◌, ◌<◌, ◌≤◌, String, Option, none, some, true, false, List, [], ◌∷◌, ◌++◌, map, Result, ok,
  err, chain, ◌≡◌, refl, sym, ap, ◌∙◌, ◌≢◌, leb, same_number, length, length-append, gather,
  gather-append, inl, inr, Bool-cases, arith,
}
use mathlib.Core.List.{append_assoc, append-nil}
use arcane_backend.Datasets.Csv.{
  CsvLibrary, HasWidth, ReadsBack, Dataset, validate_header, export_to_csv, batch_size, Import,
  started, save_full_batch, push_row, read_record_under, read_records, save_rest, finish_import,
  create_from_csv,
}
use arcane_backend.Datasets.Csv.Header.{IsHeader, validate_header_iff}
use arcane_backend.Datasets.Csv.Rows.{fit, build_csv_rows_lem, map-fit-HasWidth}
use arcane_backend.Rbac.Membership.{is_found}

-- The rows of all batches.
abbrev pub all_rows : List (List (List String)) → List (List String)
all_rows = gather (λ (batch : List (List String)). batch)

-- No batch is empty or larger than the size.
abbrev pub AreBatches : List (List (List String)) → Type 0
AreBatches [] = Unit
AreBatches (b ∷ bs) = (0 < length b) × (length b ≤ batch_size) × AreBatches bs

AreBatches-push :
    (bs : List (List (List String))) (b : List (List String))
    → AreBatches bs
    → 0 < length b
    → length b ≤ batch_size
    → AreBatches (bs ++ b ∷ [])
AreBatches-push [] b h k l = (k, l, tt)
AreBatches-push (c ∷ bs) b (m, n, h) k l = (m, n, AreBatches-push bs b h k l)

all_rows-push :
    (bs : List (List (List String))) (b : List (List String))
    → all_rows (bs ++ b ∷ []) ≡ all_rows bs ++ b
unfolding gather
all_rows-push bs b =
    gather-append (λ (c : List (List String)). c) bs (b ∷ [])
    ∙ ap (λ (c : List (List String)). all_rows bs ++ c) (append-nil b)

-- What has been read so far: the header, the rows in order, in batches and waiting.
record HasRead (header : List String) (rows : List (List String)) (i : Import) : Type 0 where
  pub named : i.header ≡ some header
  pub batched : AreBatches i.batches
  pub waiting : length i.rows_to_insert < batch_size
  pub whole : all_rows i.batches ++ i.rows_to_insert ≡ rows

pushed-HasRead :
    (header : List String) (rows : List (List String)) (i : Import) (fields : List String)
    → HasRead header rows i
    → HasRead header (rows ++ fields ∷ []) (save_full_batch (push_row fields i))
pushed-HasRead header rows i fields h =
    elim (Bool-cases (leb batch_size (length (i.rows_to_insert ++ fields ∷ [])))) [
      | inl full ↦ rw full (record {
        named = h.named;
        batched =
            AreBatches-push i.batches (i.rows_to_insert ++ fields ∷ []) h.batched
              (omega (arith, grown)) (omega (arith, grown, h.waiting));
        waiting = omega arith;
        whole = append-nil _ ∙ all_rows-push i.batches (i.rows_to_insert ++ fields ∷ []) ∙ more;
      })
      | inr some_left ↦
          rw some_left
            (record { named = h.named; batched = h.batched; waiting = ground arith; whole = more })
    ]
  where
    grown : length (i.rows_to_insert ++ fields ∷ []) ≡ length i.rows_to_insert + 1
    grown = length-append i.rows_to_insert (fields ∷ [])

    more : all_rows i.batches ++ (i.rows_to_insert ++ fields ∷ []) ≡ rows ++ fields ∷ []
    more =
        sym (append_assoc (all_rows i.batches) i.rows_to_insert (fields ∷ []))
        ∙ ap (λ (l : List (List String)). l ++ fields ∷ []) h.whole

module _ (csv : CsvLibrary) (header : List String) where
  -- The loop once there is a header: it goes through exactly if all records have its width.
  read_records_next :
      (fields : List String) (records : List (List String)) (i : Import)
      → i.header ≡ some header
      → same_number (length fields) (length header) ≡ true
      → read_records csv (fields ∷ records) i
        ≡ read_records csv records (save_full_batch (push_row fields i))
  unfolding read_records read_record_under
  read_records_next fields records i e t = rw (e, t) refl

  read_records_stop :
      (fields : List String) (records : List (List String)) (i j : Import)
      → i.header ≡ some header
      → same_number (length fields) (length header) ≡ false
      → ¬ (read_records csv (fields ∷ records) i ≡ ok j)
  unfolding read_records read_record_under
  read_records_stop fields records i j e t h = cc (rw (e, t) at h)

  read_records-HasRead :
      (records rows : List (List String)) (i j : Import)
      → HasRead header rows i
      → read_records csv records i ≡ ok j
      → HasRead header (rows ++ records) j × HasWidth (length header) records
  unfolding read_records
  read_records-HasRead [] rows i j h e =
      let same : i ≡ j = cc in (rw (append-nil rows, ← same) h, tt)
  read_records-HasRead (fields ∷ records) rows i j h e =
      elim (Bool-cases (same_number (length fields) (length header))) [
        | inr other ↦ absurd (read_records_stop fields records i j h.named other e)
        | inl same ↦
            let (k, w) =
              read_records-HasRead records (rows ++ fields ∷ [])
                (save_full_batch (push_row fields i)) j (pushed-HasRead header rows i fields h)
                (sym (read_records_next fields records i h.named same) ∙ e) in
            (rw (← (append_assoc rows (fields ∷ []) records)) k, (ground arith, w))
      ]

  read_records-total :
      (records rows : List (List String)) (i : Import)
      → HasRead header rows i
      → HasWidth (length header) records
      → (j : Import) × (read_records csv records i ≡ ok j)
  unfolding read_records
  read_records-total [] rows i h w = (i, refl)
  read_records-total (fields ∷ records) rows i h (width, w) =
      let (j, e) =
        read_records-total records (rows ++ fields ∷ []) (save_full_batch (push_row fields i))
          (pushed-HasRead header rows i fields h) w in
      (j, read_records_next fields records i h.named (ground arith) ∙ e)

  -- The last batch is saved after the loop, and nothing waits any more.
  pub record HasSaved (rows : List (List String)) (i : Import) : Type 0 where
    pub named : i.header ≡ some header
    pub batched : AreBatches i.batches
    pub whole : all_rows i.batches ≡ rows

  save_rest-HasSaved :
      (rows : List (List String)) (i : Import)
      → HasRead header rows i
      → HasSaved rows (save_rest csv i)
  save_rest-HasSaved rows i h = go i.rows_to_insert refl
    where
      go :
          (waiting : List (List String))
          → i.rows_to_insert ≡ waiting
          → HasSaved rows (save_rest csv i)
      go [] e = rw e (record {
        named = h.named;
        batched = h.batched;
        whole = sym (append-nil _) ∙ (rw e at h.whole);
      })
      go (r ∷ waiting) e =
          let small = h.waiting in
          let some_row : 0 < length i.rows_to_insert = rw e (omega arith) in
          let found : is_found i.rows_to_insert ≡ true = rw e refl in
          rw found (record {
            named = h.named;
            batched = AreBatches-push i.batches i.rows_to_insert h.batched some_row (omega arith);
            whole = all_rows-push i.batches i.rows_to_insert ∙ h.whole;
          })

module _ (csv : CsvLibrary) where
  first_HasRead :
      (header : List String) → HasRead header [] (record started { header = some header })
  unfolding gather
  first_HasRead header = record { named = refl; batched = tt; waiting = omega arith; whole = refl }

  -- What a text was that an import has saved the rows of.
  pub record IsImported (content : String) (i : Import) : Type 0 where
    pub first : List String
    pub header : List String
    pub records : List (List String)
    pub parsed : csv.parse content ≡ (first ∷ records, none)
    pub trimmed : header ≡ map csv.trim first
    pub valid : IsHeader header
    pub widths : HasWidth (length header) records
    pub saved : HasSaved csv header records i

  -- An import that succeeds has read a text without an error, whose first record is, trimmed, a valid
  -- header, and has saved exactly the other records, in order and as wide as the header, in batches
  -- of one to five hundred.
  pub create_from_csv-IsImported :
      (content : String) (i : Import) → create_from_csv csv content ≡ ok i → IsImported content i
  unfolding create_from_csv read_records read_record_under
  create_from_csv-IsImported content i e = by_parse (csv.parse content) refl
    where
      by_finish :
          (first names : List String) (rest : List (List String)) (failure : Option String)
          (j : Import)
          → csv.parse content ≡ (first ∷ rest, failure)
          → validate_header csv first ≡ ok names
          → HasRead names rest j × HasWidth (length names) rest
          → finish_import csv failure (some names) j ≡ ok i
          → IsImported content i
      by_finish first names rest (some message) j p v h f = cc
      by_finish first names rest none j p v (h, w) f =
          let (trimmed, valid) = (validate_header_iff csv first names).0 v in
          let same : save_rest csv j ≡ i = cc in
          record {
            first = first;
            header = names;
            records = rest;
            parsed = p;
            trimmed = trimmed;
            valid = valid;
            widths = w;
            saved = rw (← same) (save_rest-HasSaved csv names rest j h);
          }

      by_records :
          (first names : List String) (rest : List (List String)) (failure : Option String)
          → csv.parse content ≡ (first ∷ rest, failure)
          → validate_header csv first ≡ ok names
          → (q : Result Import) → read_records csv rest (record started { header = some names }) ≡ q
          → chain q (λ j. finish_import csv failure j.header j) ≡ ok i
          → IsImported content i
      by_records first names rest failure p v (err c) r f = cc
      by_records first names rest failure p v (ok j) r f =
          let read =
            read_records-HasRead csv names rest [] (record started { header = some names }) j
              (first_HasRead names) r in
          by_finish first names rest failure j p v read (
            sym (ap (λ (o : Option (List String)). finish_import csv failure o j) read.0.named) ∙ f)

      by_header :
          (first : List String) (rest : List (List String)) (failure : Option String)
          → csv.parse content ≡ (first ∷ rest, failure)
          → (q : Result (List String)) → validate_header csv first ≡ q
          → IsImported content i
      by_header first rest failure p (err c) v = cc (rw (p, v) at e)
      by_header first rest failure p (ok names) v =
          by_records first names rest failure p v
            (read_records csv rest (record started { header = some names })) refl (rw (p, v) at e)

      by_parse :
          (q : List (List String) × Option String) → csv.parse content ≡ q → IsImported content i
      by_parse ([], none) p = cc (rw p at e)
      by_parse ([], some message) p = cc (rw p at e)
      by_parse (first ∷ rest, failure) p =
          by_header first rest failure p (validate_header csv first) refl

  -- A dataset with a valid header whose names have nothing to trim comes back from its export, with
  -- more fuel than columns: the import of what is exported succeeds, and saves the same header and
  -- the same rows in order, each cut or filled up to the width of the header.
  pub create_from_csv-export_to_csv :
      ReadsBack csv
      → (fuel : ℕ) (dataset : Dataset) → length dataset.header < fuel
      → IsHeader dataset.header
      → map csv.trim dataset.header ≡ dataset.header
      → (content : String) × (i : Import) × (export_to_csv csv fuel dataset ≡ some content)
        × (create_from_csv csv content ≡ ok i)
        × HasSaved csv dataset.header (map (fit (length dataset.header)) dataset.rows) i
  unfolding export_to_csv create_from_csv read_records read_record_under
  create_from_csv-export_to_csv back fuel dataset enough valid trimmed =
      let header = dataset.header in
      let rows = map (fit (length header)) dataset.rows in
      let widths = map-fit-HasWidth (length header) dataset.rows in
      let content = csv.stringify (header ∷ rows) in
      let exported = build_csv_rows_lem fuel dataset enough in
      let parsed = back (length header) (header ∷ rows) (positive header valid.0) (refl, widths) in
      let checked = (validate_header_iff csv header header).1 (sym trimmed, valid) in
      let first = first_HasRead header in
      let (j, r) =
        read_records-total csv header rows [] (record started { header = some header }) first
          widths in
      let (read, _) =
        read_records-HasRead csv header rows [] (record started { header = some header }) j first
          r in
      let named : j.header ≡ some header = read.named in
      (
        content,
        save_rest csv j,
        rw exported refl,
        rw (parsed, checked, r)
            (ap (λ (o : Option (List String)). finish_import csv none o j) named),
        save_rest-HasSaved csv header rows j read,
      )
    where
      positive : (names : List String) → names ≢ [] → 0 < length names
      positive [] h = absurd (h refl)
      positive (n ∷ names) h = omega arith

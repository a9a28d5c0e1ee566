-- ===== src/Datasets/Csv.antt =====
-- datasets/services/datasets-csv.service.ts: the records of a CSV text as they become the rows of a
-- dataset, and back. The text itself is read and written by csv-parse and csv-stringify. An import
-- runs in a transaction, so that what it saves is part of its result. The audit event is left out.
pub mod Header
pub mod Rows
pub mod Laws
use arcane_backend.Common.{
  ℕ, zero, suc, ◌+◌, ◌<◌, String, Option, none, some, Bool, true, false, not, ◌&&◌, ◌==◌, List, [],
  ◌∷◌, ◌++◌, map, Result, ok, err, chain, includes, add, ltb, leb, same_number, length,
  if◌then◌else◌, ◌≡◌,
}
use arcane_backend.Exception.{
  Exception, bad_request, csv_header_empty, csv_header_contains_empty_column_names,
  csv_header_contains_duplicate_column_names, csv_file_must_contain_header_row,
  csv_row_column_mismatch, failed_to_parse_csv,
}
use arcane_backend.Rbac.Membership.{is_found}

-- csv-parse with the options of the import, csv-stringify with those of the export, and `trim`.
pub record CsvLibrary : Type 0 where
  -- the records up to an error, and its message
  pub parse : String → List (List String) × Option String
  pub stringify : List (List String) → String
  pub trim : String → String

-- Every record has the width.
abbrev pub HasWidth : ℕ → List (List String) → Type 0
HasWidth n [] = Unit
HasWidth n (r ∷ rows) = (length r ≡ n) × HasWidth n rows

-- What has been written quoted and escaped is read back, if all records have as many fields.
abbrev pub ReadsBack : CsvLibrary → Type 0
ReadsBack csv =
    (n : ℕ) (rows : List (List String))
    → 0 < n
    → HasWidth n rows
    → csv.parse (csv.stringify rows) ≡ (rows, none)

-- `values.every((value) => value.length === 0)`
unfoldable pub all_empty : List String → Bool
all_empty [] = true
all_empty (v ∷ vs) = v == "" && all_empty vs

-- The loop of `validateHeader`, with the names that it has seen.
unfoldable pub check_names : List String → List String → Result (Unit {0})
unfolding includes
check_names seen [] = ok tt
check_names seen (v ∷ vs) =
    let rest = check_names (add seen v) vs in
    if v == ""
    then err (bad_request csv_header_contains_empty_column_names)
    else if includes seen v
    then err (bad_request csv_header_contains_duplicate_column_names)
    else rest

-- `validateHeader`, once the names are trimmed
unfoldable pub validate_names : List String → Result (List String)
unfolding all_empty check_names
validate_names normalized =
    if not (is_found normalized)
    then err (bad_request csv_header_empty)
    else if all_empty normalized
    then err (bad_request csv_header_empty)
    else chain (check_names [] normalized) (λ _. ok normalized)

unfoldable pub validate_header : CsvLibrary → List String → Result (List String)
unfolding validate_names
validate_header csv header = validate_names (map csv.trim header)

pub record Dataset : Type 0 where
  pub header : List String
  pub rows : List (List String)

-- `while (rowValues.length < width) rowValues.push("")`
unfoldable pub push_empty : ℕ → ℕ → List String → Option (List String)
push_empty zero width values = none
push_empty (suc fuel) width values =
    let rest = push_empty fuel width (values ++ "" ∷ []) in
    if ltb (length values) width then rest else some values

-- `values.slice(0, n)`
abbrev pub take : {A : Type 0} → ℕ → List A → List A
take zero xs = []
take (suc n) [] = []
take (suc n) (x ∷ xs) = x ∷ take n xs

abbrev pub cut : ℕ → Option (List String) → Option (List String)
cut n none = none
cut n (some values) = some (take n values)

-- A row as it is written, with fuel for its padding.
unfoldable pub fit_row : ℕ → List String → List String → Option (List String)
unfolding push_empty
fit_row fuel header values = cut (length header) (push_empty fuel (length header) values)

abbrev pub put_row :
    Option (List String) → Option (List (List String)) → Option (List (List String))
put_row none rows = none
put_row (some r) none = none
put_row (some r) (some rows) = some (r ∷ rows)

unfoldable pub fit_rows : ℕ → List String → List (List String) → Option (List (List String))
unfolding fit_row
fit_rows fuel header [] = some []
fit_rows fuel header (values ∷ rows) =
    put_row (fit_row fuel header values) (fit_rows fuel header rows)

-- `buildCsvRows`
unfoldable pub build_csv_rows : ℕ → Dataset → Option (List (List String))
unfolding fit_rows
build_csv_rows fuel dataset =
    put_row (some dataset.header) (fit_rows fuel dataset.header dataset.rows)

abbrev pub written : CsvLibrary → Option (List (List String)) → Option String
written csv none = none
written csv (some rows) = some (csv.stringify rows)

unfoldable pub export_to_csv : CsvLibrary → ℕ → Dataset → Option String
unfolding build_csv_rows
export_to_csv csv fuel dataset = written csv (build_csv_rows fuel dataset)

-- `batchSize`
abbrev pub batch_size : ℕ
batch_size = 500

-- The variables of `createFromCsv`, and the batches that it has saved.
pub record Import : Type 0 where
  pub header : Option (List String)
  pub rows_to_insert : List (List String)
  pub batches : List (List (List String))
  pub row_count : ℕ

abbrev pub started : Import
started = record { header = none; rows_to_insert = []; batches = []; row_count = 0 }

-- `await rowRepo.save(rowsToInsert); rowsToInsert.length = 0;`
abbrev pub save_batch : Import → Import
save_batch i = record i { batches = i.batches ++ i.rows_to_insert ∷ []; rows_to_insert = [] }

abbrev pub save_full_batch : Import → Import
save_full_batch i = if leb batch_size (length i.rows_to_insert) then save_batch i else i

abbrev pub push_row : List String → Import → Import
push_row fields i = record i {
  rows_to_insert = i.rows_to_insert ++ fields ∷ [];
  row_count = i.row_count + 1;
}

module _ (csv : CsvLibrary) where
  -- The body of the loop, by whether there is a header.
  unfoldable pub read_record_under : Option (List String) → List String → Import → Result Import
  unfolding validate_header
  read_record_under none fields i =
      chain (validate_header csv fields) (λ h. ok (record i { header = some h }))
  read_record_under (some header) fields i =
      if same_number (length fields) (length header)
      then ok (save_full_batch (push_row fields i))
      else err
          (bad_request (csv_row_column_mismatch (i.row_count + 2) (length fields) (length header)))

  unfoldable pub read_records : List (List String) → Import → Result Import
  unfolding read_record_under
  read_records [] i = ok i
  read_records (fields ∷ records) i =
      chain (read_record_under i.header fields i) (read_records records)

  abbrev pub save_rest : Import → Import
  save_rest i = if is_found i.rows_to_insert then save_batch i else i

  -- What follows the loop: a parse error is thrown in it, after the records before it.
  abbrev pub finish_import : Option String → Option (List String) → Import → Result Import
  finish_import (some message) header i = err (bad_request (failed_to_parse_csv message))
  finish_import none none i = err (bad_request csv_file_must_contain_header_row)
  finish_import none (some header) i = ok (save_rest i)

  -- The dataset's header and the batches of rows that `createFromCsv` saves.
  unfoldable pub create_from_csv : String → Result Import
  unfolding read_records
  create_from_csv content =
      let (records, failure) = csv.parse content in
      chain (read_records records started) (λ i. finish_import failure i.header i)

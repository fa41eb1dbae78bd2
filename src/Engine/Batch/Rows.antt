-- ===== src/Engine/Batch/Rows.antt =====
-- engine/batch.py: `BatchCsvRow`, `build_batch_rows` and `build_batch_preview`.
use groupware_migrator.Base.{
  ℕ, suc, ◌-◌, String, Bool, true, not, ◌&&◌, Option, none, some, List, [], ◌∷◌, map, if◌then◌else◌,
  ◌==◌, nat_eq, string_eq, is_some, length, any_where, count_where, Error, value_error, message,
  Result, ok, err, ◌>>=◌, Json, bool, str, obj, Fields, end, field, str_or_null, nat,
}
use groupware_migrator.Base.Text.{strip}
use groupware_migrator.Domain.Types.{MigrationRequest}
use groupware_migrator.Domain.FromDict.{Builtins, request_from_dict}
use groupware_migrator.Engine.Batch.Texts.{RawRow, Row, normalized_row, row_value}
use groupware_migrator.Engine.Batch.Overrides.{apply_row_overrides}

pub record BatchCsvRow : Type 0 where
  pub row_number : ℕ
  pub source_username : String
  pub destination_username : String
  pub job_name : Option String
  pub request : Option MigrationRequest
  pub error : Option String

-- `self.request is not None and not self.error`
unfoldable pub valid : BatchCsvRow → Bool
valid row = is_some row.request && no_error row.error
  where
    no_error : Option String → Bool
    no_error none = true
    no_error (some s) = s == ""

unfoldable pub to_preview_dict : BatchCsvRow → Json
unfolding valid
to_preview_dict row = obj (
    field "row_number" (nat row.row_number) (
      field "source_username" (str row.source_username) (
        field "destination_username" (str row.destination_username) (
          field "job_name" (str_or_null row.job_name)
            (field "valid" (bool (valid row)) (field "error" (str_or_null row.error) end))))))

-- what `csv.DictReader` reads from a text: the header and the rows, or the exception of reading a row
pub record Reader : Type 0 where
  pub fieldnames : String → List String
  pub read : String → List RawRow × Option Error

-- `any(normalized_row.values())`
unfoldable pub has_value : Row → Bool
has_value row = any_where (λ (cell : String × String). not (cell.1 == "")) row

-- `value or None`
abbrev or_none : String → Option String
or_none s = if s == "" then none else some s

module _ (py : Builtins) (base : Fields) where
  unfoldable pub row_of_request : ℕ → Row → Result MigrationRequest → BatchCsvRow
  unfolding row_value
  row_of_request row_number row (ok request) = record {
    row_number = row_number;
    source_username = request.source.connection.username;
    destination_username = request.destination.connection.username;
    job_name = request.job_name;
    request = some request;
    error = none;
  }
  row_of_request row_number row (err exc) = record {
    row_number = row_number;
    source_username = row_value row ("source_username" ∷ []);
    destination_username = row_value row ("destination_username" ∷ []);
    job_name = or_none (row_value row ("job_name" ∷ []));
    request = none;
    error = some (message exc);
  }

  unfoldable pub request_of_row : ℕ → Row → Result MigrationRequest
  request_of_row row_number row = do
    payload ← apply_row_overrides py base row row_number
    request_from_dict py (obj payload)

  -- the loop over `enumerate(reader, start=2)`
  unfoldable pub rows_from : ℕ → List RawRow → List BatchCsvRow
  rows_from row_number [] = []
  rows_from row_number (raw ∷ raws) =
      let rest = rows_from (suc row_number) raws in
      let row = normalized_row py raw in
      if has_value row
      then row_of_request row_number row (request_of_row row_number row) ∷ rest
      else rest

  abbrev pub some_rows : List BatchCsvRow → Result (List BatchCsvRow)
  some_rows [] = err (value_error "CSV contains no data rows.")
  some_rows (row ∷ rows) = ok (row ∷ rows)

  -- An exception of the reader leaves the function.
  abbrev pub read_all : List BatchCsvRow → Option Error → Result (List BatchCsvRow)
  read_all rows none = some_rows rows
  read_all rows (some exc) = err exc

  unfoldable pub build_batch_rows : Reader → String → Result (List BatchCsvRow)
  unfolding strip
  build_batch_rows reader csv_content =
      if strip csv_content == ""
      then err (value_error "CSV content is empty.")
      else if length (reader.fieldnames csv_content) == 0
      then err (value_error "CSV header row is required.")
      else read_all (rows_from 2 (reader.read csv_content).0) (reader.read csv_content).1

pub record BatchPreview : Type 0 where
  pub total_rows : ℕ
  pub valid_rows : ℕ
  pub invalid_rows : ℕ
  pub items : List Json

unfoldable pub build_batch_preview : List BatchCsvRow → BatchPreview
unfolding valid to_preview_dict
build_batch_preview rows = record {
  total_rows = length rows;
  valid_rows = count_where valid rows;
  invalid_rows = length rows - count_where valid rows;
  items = map to_preview_dict rows;
}

-- ===== src/Engine/Batch/Results.antt =====
-- engine/batch.py, `build_batch_rows`: what the rows of its result satisfy.
use mathlib.Core.Path.{subst}
use groupware_migrator.Base.{
  ℕ, suc, ◌+◌, ◌≤◌, String, ◌≡◌, refl, sym, ap, inl, inr, true, false, Option, none, some, List, [],
  ◌∷◌, map, arith, Bool-cases, ◌==◌, nat_eq, string_eq, length, All, count_where-le-length, Error,
  value_error, message, Result, ok, err, bind_ok, ok_same, guard_passed, obj, Fields,
}
use groupware_migrator.Base.Text.{strip}
use groupware_migrator.Domain.Types.{MigrationRequest}
use groupware_migrator.Domain.FromDict.{Builtins, request_from_dict}
use groupware_migrator.Domain.FromDict.RoundTrip.{IsClean}
use groupware_migrator.Domain.FromDict.Clean.{request_from_dict-IsClean}
use groupware_migrator.Engine.Batch.Texts.{RawRow, Row, normalized_row}
use groupware_migrator.Engine.Batch.Overrides.{apply_row_overrides}
use groupware_migrator.Engine.Batch.Rows.{
  BatchCsvRow, valid, Reader, has_value, row_of_request, request_of_row, rows_from, read_all,
  build_batch_rows, to_preview_dict, build_batch_preview,
}

-- A row that has no error has a request, which is as a constructor makes it and says what the row says of
-- it; any other row has an error and no request.
pub data IsRow (py : Builtins) (row : BatchCsvRow) : Type 0 where
  accepted :
      (request : MigrationRequest)
      → row.request ≡ some request
      → row.error ≡ none
      → valid row ≡ true
      → IsClean py request
      → row.source_username ≡ request.source.connection.username
      → row.destination_username ≡ request.destination.connection.username
      → row.job_name ≡ request.job_name
      → IsRow py row
  rejected :
      (text : String)
      → row.request ≡ none
      → row.error ≡ some text
      → valid row ≡ false
      → IsRow py row

-- The numbers increase, from `n` at the least.
pub IsNumbered : ℕ → List BatchCsvRow → Type 0
IsNumbered n [] = Unit {0}
IsNumbered n (row ∷ rows) = (n ≤ row.row_number) × IsNumbered (suc row.row_number) rows

module _ (py : Builtins) (twice : (s : String) → py.lower (py.lower s) ≡ py.lower s) where
  row_of_request-IsRow :
      (base : Fields) (n : ℕ) (row : Row) (made : Result MigrationRequest)
      → ((r : MigrationRequest) → made ≡ ok r → IsClean py r)
      → IsRow py (row_of_request py base n row made)
  unfolding row_of_request valid
  row_of_request-IsRow base n row (ok r) clean =
      accepted r refl refl refl (clean r refl) refl refl refl
  row_of_request-IsRow base n row (err exc) clean = rejected (message exc) refl refl refl

  request_of_row-IsClean :
      (base : Fields) (n : ℕ) (row : Row) (r : MigrationRequest)
      → request_of_row py base n row ≡ ok r
      → IsClean py r
  unfolding request_of_row
  request_of_row-IsClean base n row r h =
      let (payload, made, read) =
        bind_ok (apply_row_overrides py base row n) (λ payload. request_from_dict py (obj payload))
          r h in
      request_from_dict-IsClean py twice (obj payload) r read

  row_number_of :
      (base : Fields) (n : ℕ) (row : Row) (made : Result MigrationRequest)
      → (row_of_request py base n row made).row_number ≡ n
  unfolding row_of_request
  row_number_of base n row (ok r) = refl
  row_number_of base n row (err exc) = refl

  rows_from-IsRow :
      (base : Fields) (n : ℕ) (raws : List RawRow) → All (IsRow py) (rows_from py base n raws)
  unfolding rows_from
  rows_from-IsRow base n [] = tt
  rows_from-IsRow base n (raw ∷ raws) = elim (Bool-cases (has_value (normalized_row py raw))) [
    | inl e ↦ rw e (
      row_of_request-IsRow base n (normalized_row py raw) _
          (request_of_row-IsClean base n (normalized_row py raw)),
      rows_from-IsRow base (suc n) raws,
    )
    | inr e ↦ rw e (rows_from-IsRow base (suc n) raws)
  ]

  IsNumbered-weaken :
      (m n : ℕ) (rows : List BatchCsvRow) → m ≤ n → IsNumbered n rows → IsNumbered m rows
  unfolding IsNumbered
  IsNumbered-weaken m n [] le h = tt
  IsNumbered-weaken m n (row ∷ rows) le h = (omega (arith, le, h.0), h.1)

  rows_from-IsNumbered :
      (base : Fields) (n : ℕ) (raws : List RawRow) → IsNumbered n (rows_from py base n raws)
  unfolding rows_from IsNumbered
  rows_from-IsNumbered base n [] = tt
  rows_from-IsNumbered base n (raw ∷ raws) = elim (Bool-cases (has_value (normalized_row py raw))) [
    | inl e ↦
        let row = normalized_row py raw in
        let same = row_number_of base n row (request_of_row py base n row) in
        rw e (
          omega (arith, same),
          subst (λ m. IsNumbered (suc m) (rows_from py base (suc n) raws)) (sym same)
              (rows_from-IsNumbered base (suc n) raws),
        )
    | inr e ↦
        rw e (IsNumbered-weaken n (suc n) _ (omega arith) (rows_from-IsNumbered base (suc n) raws))
  ]

  -- The rows of a table are numbered from 2 and increase, at least one is there, and each is either
  -- accepted with a request, which is as a constructor makes it, or rejected with an error. Lower case
  -- is idempotent.
  pub build_batch_rows-IsRow :
      (base : Fields) (reader : Reader) (text : String) (rows : List BatchCsvRow)
      → build_batch_rows py base reader text ≡ ok rows
      → (1 ≤ length rows) × IsNumbered 2 rows × All (IsRow py) rows
  unfolding build_batch_rows
  build_batch_rows-IsRow base reader text rows h =
      let made = rows_from py base 2 (reader.read text).0 in
      let same = all_read made (reader.read text).1 (
        guard_passed (length (reader.fieldnames text) == 0)
          (value_error "CSV header row is required.") _ rows
          (guard_passed (strip text == "") (value_error "CSV content is empty.") _ rows h)) in
      (
        same.1,
        subst (IsNumbered 2) same.0 (rows_from-IsNumbered base 2 (reader.read text).0),
        subst (All (IsRow py)) same.0 (rows_from-IsRow base 2 (reader.read text).0),
      )
    where
      all_read :
          (made : List BatchCsvRow) (ending : Option Error)
          → read_all py base made ending ≡ ok rows
          → (made ≡ rows) × (1 ≤ length rows)
      all_read [] none h = absurd cc
      all_read (row ∷ made) none h =
          (ok_same h, subst (λ rows. 1 ≤ length rows) (ok_same h) (omega arith))
      all_read made (some exc) h = absurd cc

pub build_batch_preview-totals :
    (rows : List BatchCsvRow)
    → let preview = build_batch_preview rows in
      (preview.valid_rows + preview.invalid_rows ≡ preview.total_rows)
      × (length preview.items ≡ preview.total_rows)
unfolding build_batch_preview
build_batch_preview-totals rows = (omega (arith, count_where-le-length valid rows), length-map rows)
  where
    length-map : (xs : List BatchCsvRow) → length (map to_preview_dict xs) ≡ length xs
    length-map [] = refl
    length-map (x ∷ xs) = ap suc (length-map xs)

-- ===== src/Tests/Requests.antt =====
-- Requests as dictionaries, rows of a table, the checks before a run, and the steps of a run.
use groupware_migrator.Base.{
  ◌≤◌, String, ◌≡◌, refl, ◌↔◌, true, false, none, some, List, [], ◌∷◌, map, nat_eq, string_eq,
  length, any_where, All, Result, ok, err, Json, str, obj, Fields, end, field, get,
}
use groupware_migrator.Base.Text.{strip}
use groupware_migrator.Base.Dict.{lookup, put}
use groupware_migrator.Domain.ToDict.{
  request_to_dict, source_to_dict, connection_to_dict, auth_value, destination_to_dict,
  workload_value, source_str, source_value, destination_str, destination_value, options_to_dict,
  tls_value, dict, sync_value,
}
use groupware_migrator.Domain.FromDict.{request_from_dict}
use groupware_migrator.Domain.FromDict.RoundTrip.{KeepsValues, IsClean, with_none_texts}
use groupware_migrator.Domain.FromDict.Clean.{request_from_dict-IsClean, request_read_again}
use groupware_migrator.Engine.Batch.Texts.{RawRow, Row, normalized_row, row_value}
use groupware_migrator.Engine.Batch.Overrides.{apply_row_overrides}
use groupware_migrator.Engine.Batch.Rows.{
  BatchCsvRow, rows_from, has_value, Reader, build_batch_rows,
}
use groupware_migrator.Engine.Batch.Results.{IsRow, IsNumbered, build_batch_rows-IsRow}
use groupware_migrator.Engine.Batch.Precedence.{HasUser, apply_row_overrides-HasUser}
use groupware_migrator.Engine.Preflight.{run_preflight}
use groupware_migrator.Engine.Preflight.Agreement.{CanStart, run_preflight-overall_ok}
use groupware_migrator.Engine.Runner.Abstract.{Steps}
use groupware_migrator.Engine.Runner.Items.{process_items, empty_tally}
use groupware_migrator.Engine.Runner.Refinement.{view_of, entry_of, process_items-Steps}
use groupware_migrator.Tests.Fixtures.{
  python, test_library, request, items, inbox, source, mailbox, run_state,
}

process_items-Steps_example :
    Steps false
      (map (entry_of "j1" test_library (mailbox "1") (request false) 25 inbox) items)
      (view_of "j1" run_state.store)
      (view_of "j1"
        (process_items test_library
          (mailbox "1")
          "j1"
          (request false)
          25
          inbox
          items
          none
          run_state
          empty_tally).0.store)
process_items-Steps_example =
    process_items-Steps "j1" test_library (mailbox "1") (request false) 25 inbox items none
      run_state empty_tally

python-KeepsValues : KeepsValues python
python-KeepsValues = record {
  tls = λ t. refl;
  auth = λ a. refl;
  sync = λ m. refl;
  workload = λ w. refl;
}

request_from_dict-IsClean_example : IsClean python (with_none_texts (request false))
unfolding request_from_dict request_to_dict source_to_dict connection_to_dict auth_value
    destination_to_dict workload_value source_str source_value destination_str destination_value
    options_to_dict tls_value dict sync_value
request_from_dict-IsClean_example =
    request_from_dict-IsClean python (λ s. refl) (request_to_dict false (request false))
      (with_none_texts (request false)) refl

preflight_casefold : String → String
preflight_casefold s = s

run_preflight-overall_ok_example :
    (run_preflight
        (λ e. "Error")
        (λ r. ok "key")
        preflight_casefold
        (request false)
        source
        (mailbox "1")
        (some run_state.store)
        []).0.overall_ok
      ≡ true
    ↔ CanStart
        (λ e. "Error")
        (λ r. ok "key")
        preflight_casefold
        (request false)
        source
        (ok tt)
        run_state.store
run_preflight-overall_ok_example =
    run_preflight-overall_ok (λ e. "Error") (λ r. ok "key") preflight_casefold (request false)
      source (mailbox "1") run_state.store []

request_read_again_example :
    request_from_dict python (request_to_dict false (with_none_texts (request false)))
    ≡ ok (with_none_texts (with_none_texts (request false)))
unfolding request_from_dict request_to_dict source_to_dict connection_to_dict auth_value
    destination_to_dict workload_value source_str source_value destination_str destination_value
    options_to_dict tls_value dict sync_value
request_read_again_example =
    request_read_again python (request_to_dict false (request false))
      (with_none_texts (request false)) python-KeepsValues (λ s. refl) refl

abbrev connection : String → Json
connection username = obj (
    field "host" (str "mail.example.org")
      (field "username" (str username) (field "password" (str "secret") end)))

-- what the rows have in common
abbrev common : Fields
common =
    field "source"
      (obj (field "protocol" (str "imap") (field "connection" (connection "nobody") end)))
      (field "destination"
        (obj (field "protocol" (str "imap") (field "connection" (connection "nobody") end))) end)

abbrev cells : RawRow
cells =
    (some "source_username", some "ann")
    ∷ (some "destination_username", some "bob ")
    ∷ (none, some "left over")
    ∷ []

abbrev row : Row
row = ("destination_username", "bob") ∷ ("source_username", "ann") ∷ []

row_example : normalized_row python cells ≡ row
unfolding normalized_row strip put
row_example = refl

abbrev fields_or_end : Result Fields → Fields
fields_or_end (ok fields) = fields
fields_or_end (err exc) = end

apply_row_overrides-HasUser_example :
    HasUser python "source"
      (row_value row ("source_username" ∷ []))
      (fields_or_end (apply_row_overrides python common row 2))
    × HasUser python "destination"
        (row_value row ("destination_username" ∷ []))
        (fields_or_end (apply_row_overrides python common row 2))
unfolding apply_row_overrides row_value strip lookup get
apply_row_overrides-HasUser_example =
    apply_row_overrides-HasUser python common
      (fields_or_end (apply_row_overrides python common row 2)) row 2 (λ e. cc e) (λ e. cc e) refl

abbrev reader : Reader
reader = record {
  fieldnames = λ text. "source_username" ∷ "destination_username" ∷ [];
  read = λ text. (
    cells ∷ ((some "source_username", some "eve") ∷ (some "source_port", some "x") ∷ []) ∷ [],
    none,
  );
}

abbrev rows_or_none : Result (List BatchCsvRow) → List BatchCsvRow
rows_or_none (ok rows) = rows
rows_or_none (err exc) = []

build_batch_rows-IsRow_example :
    let rows = rows_or_none (build_batch_rows python common reader "text") in
    (1 ≤ length rows) × IsNumbered 2 rows × All (IsRow python) rows
unfolding build_batch_rows rows_from has_value any_where normalized_row
build_batch_rows-IsRow_example =
    build_batch_rows-IsRow python (λ s. refl) common reader "text"
      (rows_or_none (build_batch_rows python common reader "text")) refl

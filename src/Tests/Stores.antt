-- ===== src/Tests/Stores.antt =====
-- The data model and the state store at concrete values.
use groupware_migrator.Base.{
  ◌≢◌, ℕ, ◌+◌, String, ◌≡◌, refl, ◌↔◌, true, false, none, some, List, [], ◌∷◌, arith, ltb,
  if◌then◌else◌, nat_eq, string_eq, find_where, select_where, count_where, ok, end, pos,
}
use groupware_migrator.Domain.Types.{
  SourceProtocol, SourceKind, DestinationProtocol, DestinationKind, ConnectionConfig, pending,
  running, completed, failed, cancelled, mail,
}
use groupware_migrator.Domain.Workload.{validate_workload_protocols, Supported, validate-Supported}
use groupware_migrator.Domain.ToDict.{
  request_to_dict, with_connections, SamePublic, request_to_dict-redacted,
}
use groupware_migrator.Engine.Reporting.{JobReport, build_job_report}
use groupware_migrator.Engine.Reporting.Totals.{IsReportOf, build_job_report-IsReportOf}
use groupware_migrator.State.Schema.{AuditEventRow, JobRow, BatchRow, BatchItemRow, Store}
use groupware_migrator.State.Jobs.{get_job, status_is, recover_stuck_jobs}
use groupware_migrator.State.Jobs.Recovery.{
  IsInterrupted, get_job-recover_stuck_jobs, recover_stuck_jobs-counts,
}
use groupware_migrator.State.Batches.{batch_summary_counts, batch_summary_row}
use groupware_migrator.State.Batches.Items.{list_batch_items}
use groupware_migrator.State.Batches.Items.Agreement.{shows, list_batch_items-failed}
use groupware_migrator.State.Batches.Totals.{counts_cancelled, finished_batch, cancelled_batch_runs}
use groupware_migrator.Tests.Fixtures.{account, request, empty_store, job, store_of}

validate-Supported_example :
    (validate_workload_protocols mail
        (SourceKind.known SourceProtocol.pop3)
        (DestinationKind.known DestinationProtocol.imap)
      ≡ ok tt)
    ↔ Supported mail SourceProtocol.pop3 DestinationProtocol.imap
validate-Supported_example = validate-Supported mail SourceProtocol.pop3 DestinationProtocol.imap

abbrev other_account : ConnectionConfig
other_account = record account { password = some "another" }

same_public : SamePublic account other_account
same_public = record {
  host = refl;
  port = refl;
  username = refl;
  use_ssl = refl;
  tls_profile = refl;
  auth_mode = refl;
  oauth_client_id = refl;
  oauth_token_url = refl;
  oauth_scope = refl;
  timeout_seconds = refl;
  has_password = refl;
  has_access_token = refl;
  has_refresh_token = refl;
  has_client_secret = refl;
}

request_to_dict-redacted_example :
    request_to_dict true (with_connections (request false) account account)
    ≡ request_to_dict true (with_connections (request false) other_account other_account)
request_to_dict-redacted_example =
    request_to_dict-redacted (request false) account other_account account other_account same_public
      same_public

abbrev three_jobs : Store
three_jobs = store_of (job "j1" running ∷ job "j2" pending ∷ job "j3" cancelled ∷ [])

abbrev event : String → AuditEventRow
event event_type = record {
  job_id = "j1";
  event_type = event_type;
  event_level = "info";
  payload = end;
  created_at = 950;
}

abbrev reported_store : Store
reported_store = record three_jobs {
  audit_events = event "job_started" ∷ event "item_failed" ∷ event "item_failed" ∷ [];
}

build_job_report-IsReportOf_example :
    (report : JobReport) × (build_job_report 1000 "j1" (pos 200) reported_store ≡ ok report)
    × IsReportOf "j1" (pos 200) reported_store (job "j1" running) report
unfolding get_job find_where
build_job_report-IsReportOf_example =
    build_job_report-IsReportOf 1000 "j1" (pos 200) reported_store (job "j1" running) refl

get_job-recover_stuck_jobs_example :
    (row' : JobRow) × (get_job "j1" (recover_stuck_jobs three_jobs).0 ≡ some row')
    × (running ≡ running → IsInterrupted 1000 (job "j1" running) row')
    × (running ≢ running → row' ≡ job "j1" running)
unfolding get_job find_where
get_job-recover_stuck_jobs_example =
    get_job-recover_stuck_jobs "j1" three_jobs (job "j1" running) refl

recover_stuck_jobs-counts_example :
    (count_where (status_is running) (recover_stuck_jobs three_jobs).0.jobs ≡ 0)
    × (count_where (status_is failed) (recover_stuck_jobs three_jobs).0.jobs
        ≡ count_where (status_is failed) three_jobs.jobs + (recover_stuck_jobs three_jobs).1)
recover_stuck_jobs-counts_example = recover_stuck_jobs-counts three_jobs

abbrev job_1 : String
job_1 = "j1"

abbrev inbox : String
inbox = "INBOX"

abbrev sent : String
sent = "Sent"

abbrev sync_key : String
sync_key = "key"

abbrev fp : String
fp = "fp"

abbrev batch : ℕ → BatchRow
batch total_rows = record {
  batch_id = "b1";
  batch_name = none;
  total_rows = total_rows;
  created_at = 900;
  updated_at = 900;
  user_id = none;
}

abbrev row : ℕ → String → BatchItemRow
row row_number job_id = record {
  batch_id = "b1";
  row_number = row_number;
  job_id = some job_id;
  job_name = none;
  source_username = "ann";
  destination_username = "ann";
  submit_error = none;
  created_at = 900;
  updated_at = 900;
}

abbrev batch_store : List JobRow → List BatchItemRow → Store
batch_store jobs items = record empty_store { jobs = jobs; batch_items = items }

abbrev finished_store : Store
finished_store =
    batch_store (job "j1" completed ∷ job "j2" failed ∷ []) (row 1 "j1" ∷ row 2 "j2" ∷ [])

abbrev cancelled_store : Store
cancelled_store =
    batch_store (job "j1" completed ∷ job "j2" cancelled ∷ []) (row 1 "j1" ∷ row 2 "j2" ∷ [])

list_batch_items-failed_example :
    count_where (shows failed) (list_batch_items "b1" finished_store)
    ≡ (batch_summary_counts "b1" finished_store).failed_rows
unfolding select_where
list_batch_items-failed_example =
    list_batch_items-failed "b1" finished_store ((λ h. cc (h)), ((λ h. cc (h)), tt))

finished_batch_example :
    (batch_summary_row (batch 2) finished_store).status
    ≡ (if ltb 0 (batch_summary_counts "b1" finished_store).failed_rows then failed else completed)
unfolding batch_summary_counts select_where count_where find_where counts_cancelled
finished_batch_example =
    finished_batch (batch 2) finished_store
      (record { full = refl; some_row = omega arith; none_pending = refl; none_running = refl })
      refl

cancelled_batch_runs_example : (batch_summary_row (batch 2) cancelled_store).status ≡ running
unfolding batch_summary_counts select_where count_where find_where counts_cancelled
cancelled_batch_runs_example =
    cancelled_batch_runs (batch 2) cancelled_store
      (record { full = refl; some_row = omega arith; none_pending = refl; none_running = refl })
      ((λ h. cc (h)), ((λ h. cc (h)), tt)) (omega arith)

-- ===== src/Engine/Reporting.antt =====
-- engine/reporting.py: the report of a job. The file that it is written to is not modelled.
pub mod Totals
use groupware_migrator.Base.{
  ℕ, zero, suc, ◌+◌, String, Bool, Option, none, some, List, [], ◌∷◌, ◌≡◌, nat_eq, string_eq, ◌==◌,
  if◌then◌else◌, length, value_error, Result, ok, err, ℤ, Json,
}
use groupware_migrator.Base.Dict.{lookup, put}
use groupware_migrator.Base.Text.{◌<>◌}
use groupware_migrator.Domain.Types.{JobStatus}
use groupware_migrator.State.Schema.{JobRow, AuditEventRow, Store}
use groupware_migrator.State.Jobs.{get_job}
use groupware_migrator.State.Listings.{list_audit_events}

unfoldable pub or_zero : Option ℕ → ℕ
or_zero none = 0
or_zero (some n) = n

-- counts.get(event_type, 0)
unfoldable pub count_of : String → List (String × ℕ) → ℕ
unfolding or_zero
count_of event_type counts = or_zero (lookup event_type counts)

-- the loop of `_event_type_counts`
unfoldable pub count_events : List AuditEventRow → List (String × ℕ) → List (String × ℕ)
unfolding count_of
count_events [] counts = counts
count_events (event ∷ events) counts =
    count_events events (put event.event_type (count_of event.event_type counts + 1) counts)

unfoldable pub event_type_counts : List AuditEventRow → List (String × ℕ)
unfolding count_events
event_type_counts events = count_events events []

pub record JobSection : Type 0 where
  pub job_id : String
  pub job_name : Option String
  pub status : JobStatus
  pub source_protocol : String
  pub destination_protocol : String
  pub dry_run : Bool
  pub created_at : ℕ
  pub updated_at : ℕ
  pub started_at : Option ℕ
  pub finished_at : Option ℕ
  pub last_error : Option String

-- A rate is a pair (m, n) that stands for the float m / n.
pub record Metrics : Type 0 where
  pub migrated_count : ℕ
  pub skipped_count : ℕ
  pub failed_count : ℕ
  pub processed_count : ℕ
  pub success_rate : ℕ × ℕ

pub record AuditSection : Type 0 where
  pub event_count : ℕ
  pub type_counts : List (String × ℕ)
  pub events : List AuditEventRow

pub record JobReport : Type 0 where
  pub generated_at : ℕ
  pub job : JobSection
  pub metrics : Metrics
  pub plan : Json
  pub request : Json
  pub audit : AuditSection

unfoldable pub job_section : JobRow → JobSection
job_section row = record {
  job_id = row.job_id;
  job_name = row.job_name;
  status = row.status;
  source_protocol = row.source_protocol;
  destination_protocol = row.destination_protocol;
  dry_run = row.dry_run;
  created_at = row.created_at;
  updated_at = row.updated_at;
  started_at = row.started_at;
  finished_at = row.finished_at;
  last_error = row.last_error;
}

unfoldable pub metrics_of : JobRow → Metrics
metrics_of row =
    let processed = row.migrated_count + row.skipped_count + row.failed_count in
    record {
      migrated_count = row.migrated_count;
      skipped_count = row.skipped_count;
      failed_count = row.failed_count;
      processed_count = processed;
      success_rate = if processed == 0 then (0, 1) else (row.migrated_count, processed);
    }

unfoldable pub audit_section : List AuditEventRow → AuditSection
unfolding event_type_counts
audit_section events = record {
  event_count = length events;
  type_counts = event_type_counts events;
  events = events;
}

-- `now` is the time of the report.
unfoldable pub report_of : ℕ → JobRow → List AuditEventRow → JobReport
unfolding job_section metrics_of audit_section
report_of now row events = record {
  generated_at = now;
  job = job_section row;
  metrics = metrics_of row;
  plan = row.plan_json;
  request = row.request_json;
  audit = audit_section events;
}

unfoldable pub build_job_report : ℕ → String → ℤ → Store → Result JobReport
unfolding report_of
build_job_report now job_id audit_event_limit s = elim (get_job job_id s) [
  | none ↦ err (value_error ("Job " <> job_id <> " does not exist."))
  | some row ↦ ok (report_of now row (list_audit_events job_id audit_event_limit s))
]

-- ===== src/State/Jobs.antt =====
-- engine/state.py: the operations on the `jobs` and `audit_events` tables.
pub mod Lookup
pub mod Recovery
use groupware_migrator.Base.{
  ℕ, ◌+◌, String, string_eq, Bool, true, false, ◌&&◌, ◌||◌, Option, none, some, [], ◌∷◌, ◌++◌, ltb,
  ◌==◌, is_some, find_where, any_where, update_where, count_where, Result, ok, err, integrity_error,
  ◌>>=◌, Fields, if◌then◌else◌,
}
use groupware_migrator.Domain.Types.{
  JobStatus, pending, running, completed, failed, cancelled, MigrationRequest, MigrationPlan,
}
use groupware_migrator.Domain.ToDict.{
  request_to_dict, plan_to_dict, source_protocol_value, destination_protocol_value,
}
use groupware_migrator.State.Schema.{JobRow, Store}

unfoldable pub is_status : JobStatus → JobStatus → Bool
is_status pending pending = true
is_status running running = true
is_status completed completed = true
is_status failed failed = true
is_status cancelled cancelled = true
is_status _ _ = false

-- WHERE job_id = ?
abbrev pub job_is : String → JobRow → Bool
job_is job_id row = row.job_id == job_id

unfoldable pub has_job : String → Store → Bool
has_job job_id s = any_where (job_is job_id) s.jobs

unfoldable pub get_job : String → Store → Option JobRow
get_job job_id s = find_where (job_is job_id) s.jobs

-- UPDATE jobs SET ... WHERE job_id = ?
unfoldable pub update_job : String → (JobRow → JobRow) → Store → Store
update_job job_id f s = record s { jobs = update_where (job_is job_id) f s.jobs }

-- the row that the INSERT of `create_job` writes; the protocol of a plugin has no `value`
unfoldable pub new_job :
    String → MigrationRequest → MigrationPlan → Option String → String → ℕ → Result JobRow
unfolding source_protocol_value destination_protocol_value
new_job job_id request plan user_id priority now = do
  source_protocol ← source_protocol_value request.source.protocol
  destination_protocol ← destination_protocol_value request.destination.protocol
  ok (record {
    job_id = job_id;
    job_name = request.job_name;
    status = pending;
    source_protocol = source_protocol;
    destination_protocol = destination_protocol;
    request_json = request_to_dict true request;
    plan_json = plan_to_dict plan;
    dry_run = request.options.dry_run;
    migrated_count = 0;
    skipped_count = 0;
    failed_count = 0;
    created_at = now;
    updated_at = now;
    started_at = none;
    finished_at = none;
    last_error = none;
    user_id = user_id;
    retry_count = 0;
    priority = priority;
  })

unfoldable pub insert_job : JobRow → Store → Store
insert_job row s = record s { jobs = s.jobs ++ row ∷ [] }

-- The id is the one that `uuid.uuid4` gives. A row of that id makes the INSERT fail.
unfoldable pub create_job :
    String → MigrationRequest → MigrationPlan → Option String → String → Store → Result Store
unfolding has_job new_job insert_job
create_job job_id request plan user_id priority s = do
  row ← new_job job_id request plan user_id priority s.clock
  (if has_job job_id s
      then err (integrity_error "UNIQUE constraint failed: jobs.job_id")
      else ok (insert_job row s))

unfoldable pub append_audit_event : String → String → String → Fields → Store → Store
append_audit_event job_id event_type event_level payload s = record s {
  audit_events =
      s.audit_events
      ++ record {
        job_id = job_id;
        event_type = event_type;
        event_level = event_level;
        payload = payload;
        created_at = s.clock;
      }
        ∷ [];
}

unfoldable pub update_job_plan : String → MigrationPlan → Store → Store
unfolding update_job
update_job_plan job_id plan s =
    update_job job_id (λ row. record row { plan_json = plan_to_dict plan; updated_at = s.clock }) s

-- the row that `set_job_status` writes
unfoldable pub status_row : ℕ → JobStatus → Option String → Bool → Bool → JobRow → JobRow
status_row now status last_error set_started set_finished row = record row {
  status = status;
  updated_at = now;
  last_error = if is_some last_error then last_error else row.last_error;
  started_at = if set_started then some now else row.started_at;
  finished_at = if set_finished then some now else row.finished_at;
}

unfoldable pub set_job_status : String → JobStatus → Option String → Bool → Bool → Store → Store
unfolding update_job status_row
set_job_status job_id status last_error set_started set_finished s =
    update_job job_id (status_row s.clock status last_error set_started set_finished) s

-- the row that `recover_stuck_jobs` writes
abbrev pub stuck_row : ℕ → JobRow → JobRow
stuck_row now row = record row {
  status = failed;
  last_error = some "Server restarted while job was running.";
  finished_at = some now;
  updated_at = now;
}

abbrev pub status_is : JobStatus → JobRow → Bool
status_is status row = is_status row.status status

unfoldable pub recover_stuck_jobs : Store → Store × ℕ
unfolding is_status
recover_stuck_jobs s = (
  record s { jobs = update_where (status_is running) (stuck_row s.clock) s.jobs },
  count_where (status_is running) s.jobs,
)

unfoldable pub increment_retry_count : String → ℕ → Store → Store
unfolding update_job
increment_retry_count job_id retry_attempt s =
    update_job job_id
      (λ row. record row { retry_count = retry_attempt; status = pending; updated_at = s.clock }) s

abbrev pub cancel_row : ℕ → JobRow → JobRow
cancel_row now row = record row { status = cancelled; finished_at = some now; updated_at = now }

abbrev pub is_pending_job : String → JobRow → Bool
is_pending_job job_id row = job_is job_id row && status_is pending row

-- The flag is `cursor.rowcount > 0`.
unfoldable pub cancel_job : String → Store → Store × Bool
unfolding is_status
cancel_job job_id s = (
  record s { jobs = update_where (is_pending_job job_id) (cancel_row s.clock) s.jobs },
  ltb 0 (count_where (is_pending_job job_id) s.jobs),
)

abbrev pub count_row : ℕ → ℕ → ℕ → ℕ → JobRow → JobRow
count_row now migrated skipped errors row = record row {
  migrated_count = row.migrated_count + migrated;
  skipped_count = row.skipped_count + skipped;
  failed_count = row.failed_count + errors;
  updated_at = now;
}

unfoldable pub increment_counters : String → ℕ → ℕ → ℕ → Store → Store
unfolding update_job
increment_counters job_id migrated skipped errors s =
    update_job job_id (count_row s.clock migrated skipped errors) s

-- ===== src/State/Listings.antt =====
-- engine/state.py: the listings of jobs and events, the statistics, and the clean-up of old records.
pub mod Kept
use groupware_migrator.Base.{
  string_eq, ℕ, ◌+◌, ◌-◌, ◌*◌, String, Bool, true, false, ◌&&◌, Option, none, some, List, [], ◌∷◌,
  ltb, leb, if◌then◌else◌, ◌==◌, length, take, select_where, count_where, delete_where, ℤ,
  at_least_one,
}
use groupware_migrator.Domain.Types.{JobStatus, running, completed, failed, cancelled}
use groupware_migrator.State.Schema.{JobRow, AuditEventRow, AdminAuditRow, BatchRow, Store}
use groupware_migrator.State.Jobs.{is_status, status_is}
use groupware_migrator.State.Accounts.{newest_first, safe_limit}
use groupware_migrator.State.Webhooks.{belongs_to}

-- ORDER BY created_at DESC, by insertion
unfoldable pub insert_newest : JobRow → List JobRow → List JobRow
insert_newest row [] = row ∷ []
insert_newest row (r ∷ rows) =
    let rest = insert_newest row rows in
    if leb r.created_at row.created_at then row ∷ r ∷ rows else r ∷ rest

unfoldable pub by_creation : List JobRow → List JobRow
unfolding insert_newest
by_creation [] = []
by_creation (row ∷ rows) = insert_newest row (by_creation rows)

abbrev pub job_of_user : Option String → JobRow → Bool
job_of_user user_id row = belongs_to user_id row.user_id

unfoldable pub list_jobs : ℤ → Option String → Store → List JobRow
unfolding by_creation safe_limit
list_jobs limit user_id s =
    take (safe_limit limit 500) (by_creation (select_where (job_of_user user_id) s.jobs))

abbrev pub event_of : String → AuditEventRow → Bool
event_of job_id row = row.job_id == job_id

unfoldable pub list_audit_events : String → ℤ → Store → List AuditEventRow
unfolding newest_first safe_limit
list_audit_events job_id limit s =
    take (safe_limit limit 2000) (newest_first (select_where (event_of job_id) s.audit_events))

abbrev pub is_over : JobStatus → Bool
is_over completed = true
is_over failed = true
is_over cancelled = true
is_over _ = false

abbrev before : ℕ → Option ℕ → Bool
before cutoff none = false
before cutoff (some t) = ltb t cutoff

-- status IN (...) AND finished_at IS NOT NULL AND finished_at < ?
abbrev pub is_expired_job : ℕ → JobRow → Bool
is_expired_job cutoff row = is_over row.status && before cutoff row.finished_at

abbrev pub is_expired_batch : ℕ → BatchRow → Bool
is_expired_batch cutoff row = ltb row.updated_at cutoff

abbrev pub is_expired_event : ℕ → AdminAuditRow → Bool
is_expired_event cutoff row = ltb row.created_at cutoff

pub record CleanUp : Type 0 where
  pub jobs_deleted : ℕ
  pub batches_deleted : ℕ
  pub admin_events_deleted : ℕ

abbrev pub day : ℕ
day = 86_400_000_000

-- `now - timedelta(days=max(older_than_days, 1))`
unfoldable pub cutoff_of : ℕ → ℤ → ℕ
cutoff_of now older_than_days = now - at_least_one older_than_days * day

-- Only the three tables of the DELETE statements change: the foreign keys are not enforced.
unfoldable pub cleanup_old_records : ℤ → Store → Store × CleanUp
unfolding cutoff_of
cleanup_old_records older_than_days s =
    let cutoff = cutoff_of s.clock older_than_days in
    (
      record s {
        jobs = delete_where (is_expired_job cutoff) s.jobs;
        batches = delete_where (is_expired_batch cutoff) s.batches;
        admin_audit_events = delete_where (is_expired_event cutoff) s.admin_audit_events;
      },
      record {
        jobs_deleted = count_where (is_expired_job cutoff) s.jobs;
        batches_deleted = count_where (is_expired_batch cutoff) s.batches;
        admin_events_deleted = count_where (is_expired_event cutoff) s.admin_audit_events;
      },
    )

unfoldable pub sum_of {ℓ} : {A : Type ℓ} → (A → ℕ) → List A → ℕ
sum_of f [] = 0
sum_of f (x ∷ xs) = f x + sum_of f xs

-- created_at > ?
abbrev pub created_after : ℕ → JobRow → Bool
created_after cutoff row = ltb cutoff row.created_at

-- The success rates are rounded percentages of `completed` and `jobs`; their two numbers are kept.
pub record SystemStats : Type 0 where
  pub users_total : ℕ
  pub jobs_total : ℕ
  pub jobs_running : ℕ
  pub jobs_completed : ℕ
  pub jobs_failed : ℕ
  pub jobs_cancelled : ℕ
  pub jobs_last_7d : ℕ
  pub completed_last_7d : ℕ
  pub jobs_last_30d : ℕ
  pub completed_last_30d : ℕ
  pub items_migrated_total : ℕ
  pub items_skipped_total : ℕ
  pub items_failed_total : ℕ
  pub scheduled_jobs_total : ℕ
  pub batches_total : ℕ

unfoldable pub system_stats : Store → SystemStats
unfolding is_status sum_of
system_stats s =
    let cutoff_7d = s.clock - 7 * day in
    let cutoff_30d = s.clock - 30 * day in
    record {
      users_total = length s.users;
      jobs_total = length s.jobs;
      jobs_running = count_where (status_is running) s.jobs;
      jobs_completed = count_where (status_is completed) s.jobs;
      jobs_failed = count_where (status_is failed) s.jobs;
      jobs_cancelled = count_where (status_is cancelled) s.jobs;
      jobs_last_7d = count_where (created_after cutoff_7d) s.jobs;
      completed_last_7d =
          count_where (λ row. status_is completed row && created_after cutoff_7d row) s.jobs;
      jobs_last_30d = count_where (created_after cutoff_30d) s.jobs;
      completed_last_30d =
          count_where (λ row. status_is completed row && created_after cutoff_30d row) s.jobs;
      items_migrated_total = sum_of (λ (row : JobRow). row.migrated_count) s.jobs;
      items_skipped_total = sum_of (λ (row : JobRow). row.skipped_count) s.jobs;
      items_failed_total = sum_of (λ (row : JobRow). row.failed_count) s.jobs;
      scheduled_jobs_total = length s.scheduled_jobs;
      batches_total = length s.batches;
    }

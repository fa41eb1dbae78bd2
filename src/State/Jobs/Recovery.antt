-- ===== src/State/Jobs/Recovery.antt =====
-- engine/state.py: the operations that move many jobs, or one job under a condition.
use mathlib.Core.Option
use groupware_migrator.Base.{
  ℕ, ◌+◌, String, ◌≡◌, ◌≢◌, ◌∙◌, refl, some, true, is_some, Bool, ◌&&◌, List, [], ◌∷◌, arith,
  if◌then◌else◌, ◌==◌, nat_eq, string_eq, find_where, update_where, count_where,
}
use groupware_migrator.Domain.Types.{pending, running, failed}
use groupware_migrator.State.Schema.{JobRow, Store}
use groupware_migrator.State.Jobs.{
  is_status, status_is, job_is, get_job, recover_stuck_jobs, stuck_row, cancel_job, cancel_row,
  is_pending_job,
}

find_where-update_where_if :
    {A : Type 0} (q p : A → Bool) (f : A → A) (xs : List A)
    → ((x : A) → q (f x) ≡ q x)
    → find_where q (update_where p f xs)
      ≡ Option.map (λ x. if p x then f x else x) (find_where q xs)
unfolding find_where update_where
find_where-update_where_if q p f [] keep = refl
find_where-update_where_if q p f (x ∷ xs) keep =
    ground (arith, keep x, find_where-update_where_if q p f xs keep)

-- How a job reads after a restart that found it running: failed, finished now, with a message, and
-- otherwise as before.
pub record IsInterrupted (now : ℕ) (row row' : JobRow) : Type 0 where
  pub status : row'.status ≡ failed
  pub finished_at : row'.finished_at ≡ some now
  pub updated_at : row'.updated_at ≡ now
  pub last_error : is_some row'.last_error ≡ true
  pub job_id : row'.job_id ≡ row.job_id
  pub request_json : row'.request_json ≡ row.request_json
  pub plan_json : row'.plan_json ≡ row.plan_json
  pub migrated_count : row'.migrated_count ≡ row.migrated_count
  pub skipped_count : row'.skipped_count ≡ row.skipped_count
  pub failed_count : row'.failed_count ≡ row.failed_count
  pub retry_count : row'.retry_count ≡ row.retry_count

-- After a restart no job is lost. One that was running reads as failed, finished now, with a message, and
-- keeps its request, plan and counters; every other job reads as before.
pub get_job-recover_stuck_jobs :
    (job_id : String) (s : Store) (row : JobRow)
    → get_job job_id s ≡ some row
    → (row' : JobRow) × (get_job job_id (recover_stuck_jobs s).0 ≡ some row')
      × (row.status ≡ running → IsInterrupted s.clock row row')
      × (row.status ≢ running → row' ≡ row)
unfolding get_job recover_stuck_jobs is_status
get_job-recover_stuck_jobs job_id s row found = (
  (if is_status row.status running then stuck_row s.clock row else row),
  find_where-update_where_if (job_is job_id) (status_is running) (stuck_row s.clock) s.jobs
        (λ row. refl)
      ∙ rw found refl,
  (λ is. rw is (record {
    status = refl;
    finished_at = refl;
    updated_at = refl;
    last_error = refl;
    job_id = refl;
    request_json = refl;
    plan_json = refl;
    migrated_count = refl;
    skipped_count = refl;
    failed_count = refl;
    retry_count = refl;
  })),
  (λ differs. ground (arith, differs)),
)

none_left :
    (now : ℕ) (rows : List JobRow)
    → count_where (status_is running) (update_where (status_is running) (stuck_row now) rows) ≡ 0
unfolding count_where update_where is_status
none_left now [] = refl
none_left now (row ∷ rows) = ground (arith, none_left now rows)

failed_grow :
    (now : ℕ) (rows : List JobRow)
    → count_where (status_is failed) (update_where (status_is running) (stuck_row now) rows)
      ≡ count_where (status_is failed) rows + count_where (status_is running) rows
unfolding count_where update_where is_status
failed_grow now [] = omega arith
failed_grow now (row ∷ rows) = ground (arith, failed_grow now rows)

-- After the recovery no job is running, and the number that it returns is by how much the failed jobs
-- have grown.
pub recover_stuck_jobs-counts :
    (s : Store)
    → let (s', recovered) = recover_stuck_jobs s in
      (count_where (status_is running) s'.jobs ≡ 0)
      × (count_where (status_is failed) s'.jobs ≡ count_where (status_is failed) s.jobs + recovered)
unfolding recover_stuck_jobs
recover_stuck_jobs-counts s = (none_left s.clock s.jobs, failed_grow s.clock s.jobs)

-- `cancel_job` cancels the job if it is pending, and leaves every job alone otherwise.
pub get_job-cancel_job :
    (k j : String) (s : Store)
    → get_job j (cancel_job k s).0
      ≡ Option.map
          (λ row.
            if row.job_id == k && is_status row.status pending then cancel_row s.clock row else row)
          (get_job j s)
unfolding get_job cancel_job
get_job-cancel_job k j s =
    find_where-update_where_if (job_is j) (is_pending_job k) (cancel_row s.clock) s.jobs
      (λ row. refl)

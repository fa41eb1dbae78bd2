-- ===== src/Engine/RedisJobs.antt =====
-- engine/redis_jobs.py: the job manager over a Redis queue.
use groupware_migrator.Base.{
  ℕ, String, Bool, false, not, Option, List, [], ◌∷◌, ◌++◌, if◌then◌else◌, ◌==◌, nat_eq, string_eq,
  any_where, value_error, runtime_error, Result, ok, err, ◌>>=◌, Json,
}
use groupware_migrator.Base.Text.{◌<>◌}
use groupware_migrator.Domain.Types.{MigrationRequest}
use groupware_migrator.Domain.ToDict.{request_to_dict}
use groupware_migrator.State.Schema.{Store}
use groupware_migrator.State.Jobs.{has_job, create_job, cancel_job as store_cancel_job}
use groupware_migrator.State.Listings.{system_stats}

-- what `_enqueue` writes as JSON, less the address of the store
pub record Entry : Type 0 where
  pub job_id : String
  pub request : Json

-- The Redis keys are the queue, the set of the jobs to cancel, and that of the jobs that a worker runs,
-- as long as none of them expires.
pub record RedisManager : Type 0 where
  pub store : Store
  pub accepting : Bool
  pub queue : List Entry
  pub cancelling : List String
  pub running_jobs : List String

unfoldable pub enqueue : String → MigrationRequest → RedisManager → RedisManager
enqueue job_id request m = record m {
  queue = m.queue ++ record { job_id = job_id; request = request_to_dict false request } ∷ [];
}

-- `fresh_id` is the id of the new job.
unfoldable pub start_job :
    String → MigrationRequest → Option String → String → RedisManager → Result RedisManager
unfolding enqueue
start_job fresh_id request user_id priority m =
    if not m.accepting
    then err (runtime_error "Job manager is shutting down.")
    else (create_job fresh_id request [] user_id priority m.store >>= λ s.
        ok (enqueue fresh_id request (record m { store = s })))

unfoldable pub resume_job : String → MigrationRequest → RedisManager → Result RedisManager
unfolding enqueue
resume_job job_id request m =
    if not (has_job job_id m.store)
    then err (value_error ("Job " <> job_id <> " does not exist."))
    else if not m.accepting
    then err (runtime_error "Job manager is shutting down.")
    else ok (enqueue job_id request m)

-- The result is `True` in any case.
unfoldable pub cancel_job : String → RedisManager → RedisManager
cancel_job job_id m = record m {
  cancelling = job_id ∷ m.cancelling;
  store = (store_cancel_job job_id m.store).0;
}

unfoldable pub is_running : String → RedisManager → Bool
is_running job_id m = any_where (λ id. id == job_id) m.running_jobs

unfoldable pub running_count : RedisManager → ℕ
running_count m = (system_stats m.store).jobs_running

unfoldable pub shutdown : RedisManager → RedisManager
shutdown m = record m { accepting = false }

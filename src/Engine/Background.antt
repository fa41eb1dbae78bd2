-- ===== src/Engine/Background.antt =====
-- engine/background.py: the job manager over a thread pool.
pub mod Running
pub mod Retries
use groupware_migrator.Base.{
  nat_eq, string_eq, ℕ, suc, ◌+◌, ◌*◌, ◌^◌, ◌<◌, min, String, Bool, true, false, not, ◌||◌, Option,
  none, some, List, [], ◌∷◌, ◌++◌, if◌then◌else◌, ◌==◌, any_where, count_where, delete_where,
  value_error, runtime_error, Result, ok, err, le_ℕ,
}
use groupware_migrator.Base.Dict.{lookup, put, pop}
use groupware_migrator.Base.Text.{◌<>◌}
use groupware_migrator.Domain.Types.{
  JobStatus, running, completed, failed, cancelled, MigrationRequest,
}
use groupware_migrator.State.Schema.{JobRow, Store}
use groupware_migrator.State.Jobs.{
  is_status, get_job, has_job, create_job, increment_retry_count, cancel_job as store_cancel_job,
}

-- `(request, retry_attempt)`
pub record Context : Type 0 where
  pub request : MigrationRequest
  pub retry_attempt : ℕ

-- a `threading.Timer` for `_schedule_retry`
pub record Timer : Type 0 where
  pub delay : ℕ
  pub job_id : String
  pub request : MigrationRequest
  pub retry_attempt : ℕ

-- a call of `fire` of one of the notification managers
pub record Fired : Type 0 where
  pub event_type : String
  pub job_id : String
  pub user_id : Option String

-- A future is a number, and `active` holds those of which the run has not ended, with their jobs.
-- A stop event is the flag that it carries.
pub record Manager : Type 0 where
  pub store : Store
  pub accepting : Bool
  pub futures : List (String × ℕ)
  pub stop_events : List (String × Bool)
  pub job_contexts : List (String × Context)
  pub active : List (ℕ × String)
  pub next_future : ℕ
  pub timers : List Timer
  pub has_webhook_manager : Bool
  pub has_mail_manager : Bool
  pub webhooks_fired : List Fired
  pub mails_fired : List Fired

abbrev pub future_is : ℕ → ℕ × String → Bool
future_is f run = run.0 == f

-- `future.done()`
unfoldable pub done : ℕ → Manager → Bool
done f m = not (any_where (future_is f) m.active)

-- `existing and not existing.done()`
unfoldable pub is_running : String → Manager → Bool
unfolding done lookup
is_running job_id m = elim (lookup job_id m.futures) [ none ↦ false | some f ↦ not (done f m) ]

unfoldable pub submit : String → MigrationRequest → ℕ → Manager → Result Manager
unfolding is_running put
submit job_id request retry_attempt m =
    if not m.accepting
    then err (runtime_error "Job manager is shutting down.")
    else if is_running job_id m
    then err (value_error ("Job " <> job_id <> " is already running."))
    else ok (record m {
      stop_events = put job_id false m.stop_events;
      job_contexts =
          put job_id (record { request = request; retry_attempt = retry_attempt }) m.job_contexts;
      futures = put job_id m.next_future m.futures;
      active = (m.next_future, job_id) ∷ m.active;
      next_future = suc m.next_future;
    })

-- The run of a future has ended. Its callback `on_done` follows, later.
unfoldable pub end_run : ℕ → Store → Manager → Manager
end_run f s m = record m { store = s; active = delete_where (future_is f) m.active }

abbrev pub base_delay : ℕ
base_delay = 30

abbrev pub max_delay : ℕ
max_delay = 300

-- `min(_RETRY_BASE_DELAY * (2 ** retry_attempt), _RETRY_MAX_DELAY)`
unfoldable pub retry_delay : ℕ → ℕ
retry_delay retry_attempt = min (base_delay * 2 ^ retry_attempt) max_delay

unfoldable pub event_type_of : JobStatus → String
event_type_of completed = "job.completed"
event_type_of cancelled = "job.cancelled"
event_type_of _ = "job.failed"

-- `job_row.get("user_id") or None`
abbrev pub user_of : JobRow → Option String
user_of row = elim row.user_id [ none ↦ none | some u ↦ if u == "" then none else some u ]

unfoldable pub notify : String → JobRow → Manager → Manager
unfolding event_type_of
notify job_id row m =
    let fired : Fired = record {
      event_type = event_type_of row.status;
      job_id = job_id;
      user_id = user_of row;
    } in
    record m {
      webhooks_fired =
          if m.has_webhook_manager then m.webhooks_fired ++ fired ∷ [] else m.webhooks_fired;
      mails_fired = if m.has_mail_manager then m.mails_fired ++ fired ∷ [] else m.mails_fired;
    }

-- the end of `_on_done`: a timer for the next attempt, if one is left and the job failed
unfoldable pub plan_retry : String → Context → JobRow → Manager → Manager
unfolding is_status retry_delay
plan_retry job_id context row m =
    if le_ℕ context.request.options.max_retries context.retry_attempt
      || not (is_status row.status failed)
    then m
    else record m {
      timers =
          m.timers
          ++ record {
            delay = retry_delay context.retry_attempt;
            job_id = job_id;
            request = context.request;
            retry_attempt = context.retry_attempt + 1;
          }
            ∷ [];
    }

abbrev pub forget : String → Manager → Manager
forget job_id m = record m {
  futures = pop job_id m.futures;
  stop_events = pop job_id m.stop_events;
  job_contexts = pop job_id m.job_contexts;
}

-- what `_on_done` does after it has forgotten the job
unfoldable pub after_run : String → Option Context → Bool → Option JobRow → Manager → Manager
unfolding notify plan_retry
after_run job_id none raised row m = m
after_run job_id (some context) true row m = m
after_run job_id (some context) false none m = m
after_run job_id (some context) false (some row) m =
    plan_retry job_id context row (notify job_id row m)

-- `raised` says whether the run ended with an exception.
unfoldable pub on_done : String → Bool → Manager → Manager
unfolding after_run get_job lookup pop
on_done job_id raised m =
    after_run job_id (lookup job_id m.job_contexts) raised (get_job job_id m.store)
      (forget job_id m)

abbrev pub or_keep : Manager → Result Manager → Manager
or_keep m (ok m') = m'
or_keep m (err e) = m

-- An exception of `_submit` is logged and dropped; the retry count is written by then.
unfoldable pub schedule_retry : String → MigrationRequest → ℕ → Manager → Manager
unfolding increment_retry_count submit
schedule_retry job_id request retry_attempt m =
    let m' = record m { store = increment_retry_count job_id retry_attempt m.store } in
    if m.accepting then or_keep m' (submit job_id request retry_attempt m') else m

-- the id of a job that `_submit` has accepted, or its exception
abbrev pub or_started : String → Manager → Result Manager → Result String × Manager
or_started job_id m (err e) = (err e, m)
or_started job_id m (ok m') = (ok job_id, m')

-- `start_job` returns the exception beside what it leaves behind; `fresh_id` is the new job's id.
unfoldable pub start_job :
    String → MigrationRequest → Option String → String → Manager → Result String × Manager
start_job fresh_id request user_id priority m =
    elim (create_job fresh_id request [] user_id priority m.store) [
      | err e ↦ (err e, m)
      | ok s ↦
          let m' : Manager = record m { store = s } in
          or_started fresh_id m' (submit fresh_id request 0 m')
    ]

unfoldable pub resume_job : String → MigrationRequest → Manager → Result String × Manager
unfolding has_job submit
resume_job job_id request m =
    if has_job job_id m.store
    then or_started job_id m (submit job_id request 0 m)
    else (err (value_error ("Job " <> job_id <> " does not exist.")), m)

unfoldable pub cancel_job : String → Manager → Bool × Manager
unfolding lookup put store_cancel_job
cancel_job job_id m = elim (lookup job_id m.stop_events) [
  | some flag ↦ (true, record m { stop_events = put job_id true m.stop_events })
  | none ↦ let (s, updated) = store_cancel_job job_id m.store in (updated, record m { store = s })
]

unfoldable pub running_count : Manager → ℕ
unfolding done
running_count m = count_where (λ (entry : String × ℕ). not (done entry.1 m)) m.futures

-- the first statement of `drain`
unfoldable pub stop_accepting : Manager → Manager
stop_accepting m = record m { accepting = false }

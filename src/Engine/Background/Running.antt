-- ===== src/Engine/Background/Running.antt =====
-- engine/background.py: when the manager accepts a run, and what it knows of the runs.
use groupware_migrator.Base.{
  ℕ, suc, String, ◌≡◌, refl, ◌∙◌, ◌⊎◌, inl, inr, Bool, true, false, Option, none, some, [], ◌∷◌,
  arith, Bool-cases, nat_eq, string_eq, ==-refl, any_where, Error, value_error, runtime_error, ok,
  err,
}
use groupware_migrator.Base.Dict.{lookup, put, lookup-put, lookup-pop}
use groupware_migrator.Base.Text.{◌<>◌}
use groupware_migrator.Domain.Types.{pending, MigrationRequest}
use groupware_migrator.State.Schema.{JobRow, Store}
use groupware_migrator.State.Jobs.{get_job, create_job, new_job, increment_retry_count}
use groupware_migrator.State.Jobs.Lookup.{get_job-create_job, new_job-lem, get_job-update_job}
use groupware_migrator.Engine.Background.{
  Context, Manager, done, is_running, submit, notify, plan_retry, after_run, on_done,
  schedule_retry, start_job, forget,
}

-- the manager that an accepted run leaves
unfoldable pub started : String → MigrationRequest → ℕ → Manager → Manager
unfolding put
started job_id request n m = record m {
  stop_events = put job_id false m.stop_events;
  job_contexts = put job_id (record { request = request; retry_attempt = n }) m.job_contexts;
  futures = put job_id m.next_future m.futures;
  active = (m.next_future, job_id) ∷ m.active;
  next_future = suc m.next_future;
}

started-lem :
    (job_id : String) (request : MigrationRequest) (n : ℕ) (m : Manager)
    → (is_running job_id (started job_id request n m) ≡ true)
      × (lookup job_id (started job_id request n m).stop_events ≡ some false)
      × ((started job_id request n m).store ≡ m.store)
unfolding started is_running done any_where
started-lem job_id request n m = (
  rw (is_running, lookup-put job_id job_id m.next_future m.futures)
      (rw (==-refl job_id) (rw (==-refl m.next_future) refl)),
  rw (lookup-put job_id job_id false m.stop_events) (rw (==-refl job_id) refl),
  refl,
)

pub submit-cases :
    (job_id : String) (request : MigrationRequest) (n : ℕ) (m : Manager)
    → ((e : Error) × (submit job_id request n m ≡ err e))
      ⊎ (submit job_id request n m ≡ ok (started job_id request n m))
unfolding submit started
submit-cases job_id request n m = elim (Bool-cases m.accepting) [
  | inr off ↦ inl (runtime_error "Job manager is shutting down.", ground (arith, off))
  | inl on ↦ elim (Bool-cases (is_running job_id m)) [
    | inl busy ↦
        inl (value_error ("Job " <> job_id <> " is already running."), ground (arith, on, busy))
    | inr free ↦ inr (ground (arith, on, free))
  ]
]

-- A run is accepted while the manager is not shutting down and no run of the job is in progress. It is
-- then in progress itself, its stop flag is off, and the stored jobs are as they were.
pub submit-is_running :
    (job_id : String) (request : MigrationRequest) (n : ℕ) (m m' : Manager)
    → submit job_id request n m ≡ ok m'
    → (m.accepting ≡ true)
      × (is_running job_id m ≡ false)
      × (is_running job_id m' ≡ true)
      × (lookup job_id m'.stop_events ≡ some false)
      × (m'.store ≡ m.store)
unfolding submit started
submit-is_running job_id request n m m' h = elim (Bool-cases m.accepting) [
  | inr off ↦ absurd (cc (h, off))
  | inl on ↦ elim (Bool-cases (is_running job_id m)) [
    | inl busy ↦ absurd (cc (h, on, busy))
    | inr free ↦
        let made : started job_id request n m ≡ m' = cc (h, on, free) in
        let facts = started-lem job_id request n m in
        (on, free, rw (← made) facts.0, rw (← made) facts.1, rw (← made) facts.2)
  ]
]

-- what `start_job` does once the job is created
start-refused :
    (id : String) (request : MigrationRequest) (m : Manager) (s : Store)
    → m.accepting ≡ false
    → submit id request 0 (record m { store = s })
      ≡ err (runtime_error "Job manager is shutting down.")
unfolding submit
start-refused id request m s off = ground (arith, off)

-- While the manager shuts down, a start is refused, and the job that it has created stays behind as
-- a pending job.
pub start_job-shutting_down :
    (id : String) (request : MigrationRequest) (user : Option String) (priority : String)
    (m : Manager) (s : Store)
    → m.accepting ≡ false
    → create_job id request [] user priority m.store ≡ ok s
    → (start_job id request user priority m
        ≡ (err (runtime_error "Job manager is shutting down."), record m { store = s }))
      × ((row : JobRow) × (new_job id request [] user priority m.store.clock ≡ ok row)
          × (get_job id s ≡ some row)
          × (row.status ≡ pending))
unfolding start_job submit
start_job-shutting_down id request user priority m s off made =
    let (row, new, found, _) = get_job-create_job id request [] user priority m.store s made in
    (
      rw (start_job, made) (rw (start-refused id request m s off) refl),
      (row, new, found, (new_job-lem id request [] user priority m.store.clock row new).1),
    )

abbrev pub retried_row : ℕ → ℕ → JobRow → JobRow
retried_row now n row = record row { retry_count = n; status = pending; updated_at = now }

is_running-store :
    (j : String) (m : Manager) (s : Store) → is_running j (record m { store = s }) ≡ is_running j m
unfolding is_running done
is_running-store j m s = refl

schedule_retry-busy :
    (job_id : String) (request : MigrationRequest) (n : ℕ) (m : Manager)
    → m.accepting ≡ true
    → is_running job_id (record m { store = increment_retry_count job_id n m.store }) ≡ true
    → schedule_retry job_id request n m
      ≡ record m { store = increment_retry_count job_id n m.store }
unfolding schedule_retry submit
schedule_retry-busy job_id request n m on busy = ground (arith, on, busy)

-- A retry whose job is running again does not start a run, but the job's status becomes pending.
pub schedule_retry-is_running :
    (job_id : String) (request : MigrationRequest) (n : ℕ) (m : Manager) (row : JobRow)
    → m.accepting ≡ true
    → is_running job_id m ≡ true
    → get_job job_id m.store ≡ some row
    → (get_job job_id (schedule_retry job_id request n m).store
        ≡ some (retried_row m.store.clock n row))
      × ((schedule_retry job_id request n m).active ≡ m.active)
unfolding increment_retry_count get_job
schedule_retry-is_running job_id request n m row on busy found =
    let busy' = is_running-store job_id m (increment_retry_count job_id n m.store) ∙ busy in
    let keep =
      get_job-update_job job_id job_id (retried_row m.store.clock n) m.store (λ row. refl) in
    let noted : get_job job_id (increment_retry_count job_id n m.store)
        ≡ some (retried_row m.store.clock n row) =
      rw (increment_retry_count, keep) (rw (==-refl job_id) (rw found refl)) in
    let left = schedule_retry-busy job_id request n m on busy' in (rw left noted, rw left refl)

notify-runs :
    (job_id : String) (row : JobRow) (m : Manager)
    → ((notify job_id row m).futures ≡ m.futures) × ((notify job_id row m).active ≡ m.active)
unfolding notify
notify-runs job_id row m = (refl, refl)

plan_retry-runs :
    (job_id : String) (context : Context) (row : JobRow) (m : Manager)
    → ((plan_retry job_id context row m).futures ≡ m.futures)
      × ((plan_retry job_id context row m).active ≡ m.active)
unfolding plan_retry
plan_retry-runs job_id context row m = (ground arith, ground arith)

after_run-runs :
    (job_id : String) (context : Option Context) (raised : Bool) (row : Option JobRow) (m : Manager)
    → ((after_run job_id context raised row m).futures ≡ m.futures)
      × ((after_run job_id context raised row m).active ≡ m.active)
unfolding after_run
after_run-runs job_id none raised row m = (refl, refl)
after_run-runs job_id (some context) true row m = (refl, refl)
after_run-runs job_id (some context) false none m = (refl, refl)
after_run-runs job_id (some context) false (some row) m =
    let told = notify-runs job_id row m in
    let planned = plan_retry-runs job_id context row (notify job_id row m) in
    (planned.0 ∙ told.0, planned.1 ∙ told.1)

-- The callback of an ended run forgets the job, also when a later run of it is in progress by then:
-- the job counts as not running, while the runs in progress are as before.
pub on_done-is_running :
    (job_id : String) (raised : Bool) (m : Manager)
    → (is_running job_id (on_done job_id raised m) ≡ false)
      × ((on_done job_id raised m).active ≡ m.active)
unfolding on_done is_running
on_done-is_running job_id raised m =
    let runs =
      after_run-runs job_id (lookup job_id m.job_contexts) raised (get_job job_id m.store)
        (forget job_id m) in
    (
      rw (is_running, runs.0) (rw (lookup-pop job_id job_id m.futures) (rw (==-refl job_id) refl)),
      runs.1,
    )

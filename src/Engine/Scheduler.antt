-- ===== src/Engine/Scheduler.antt =====
-- engine/scheduler.py: the jobs that schedules start.
pub mod Times
pub mod Due
pub mod Tick
use groupware_migrator.Base.{
  string_eq, ℕ, suc, ◌+◌, ◌-◌, ◌*◌, ◌/◌, String, Option, none, some, List, [], ◌∷◌, leb,
  if◌then◌else◌, ◌==◌, other, Result, ok, err, ◌>>=◌, ◌>>◌, ℤ, pos, negsuc,
}
use groupware_migrator.Domain.Types.{MigrationRequest}
use groupware_migrator.Domain.FromDict.{Builtins, request_from_dict}
use groupware_migrator.State.Schema.{ScheduleRow}
use groupware_migrator.State.Schedules.{list_due_schedules, update_schedule_after_fire}
use groupware_migrator.Engine.Cron.{Calendar, cron_next, parse_interval_seconds}
use groupware_migrator.Engine.Background.{Manager, start_job}

-- microseconds
abbrev pub second : ℕ
second = 1_000_000

abbrev pub minute : ℕ
minute = 60_000_000

-- `datetime.max`, the end of the year 9999
abbrev pub end_of_time : ℕ
end_of_time = 253_402_300_799_999_999

-- `now + timedelta(seconds=seconds)`. A time before 1970 counts as its beginning.
unfoldable pub after_seconds : ℕ → ℤ → Result ℕ
after_seconds now (pos n) =
    if leb (now + n * second) end_of_time
    then ok (now + n * second)
    else err (other "date value out of range")
after_seconds now (negsuc n) = ok (now - (n + 1) * second)

-- `now` is `datetime.now(timezone.utc)`; `cron_next` counts minutes.
unfoldable pub compute_next_run : Builtins → Calendar → String → String → ℕ → Result ℕ
compute_next_run py cal schedule_type schedule_expr now =
    if schedule_type == "interval"
    then (parse_interval_seconds py schedule_expr >>= λ seconds. after_seconds now seconds)
    else (cron_next py cal schedule_expr (now / minute) >>= λ t. ok (t * minute))

unfoldable pub next_run_after_now : Builtins → Calendar → ScheduleRow → ℕ → Result ℕ
next_run_after_now py cal schedule now =
    compute_next_run py cal schedule.schedule_type schedule.schedule_expr now

-- `schedule.get("user_id") or None`
abbrev pub schedule_user : ScheduleRow → Option String
schedule_user schedule = elim schedule.user_id [
  | none ↦ none
  | some u ↦ if u == "" then none else some u
]

module _ (py : Builtins) (cal : Calendar) where
  unfoldable pub set_next : ScheduleRow → String → Manager → Result ℕ → Result ℕ × Manager
  set_next schedule job_id m (err e) = (err e, m)
  set_next schedule job_id m (ok next_run) = (
    ok next_run,
    record m { store = update_schedule_after_fire schedule.id job_id next_run m.store },
  )

  -- what follows the start of the job
  unfoldable pub after_start : ScheduleRow → Result String × Manager → Result ℕ × Manager
  unfolding set_next
  after_start schedule (err e, m) = (err e, m)
  after_start schedule (ok job_id, m) =
      set_next schedule job_id m (next_run_after_now py cal schedule m.store.clock)

  unfoldable pub try_fire :
      String → ScheduleRow → Manager → Result MigrationRequest → Result ℕ × Manager
  unfolding after_start
  try_fire fresh_id schedule m (err e) = (err e, m)
  try_fire fresh_id schedule m (ok request) =
      after_start schedule (start_job fresh_id request (schedule_user schedule) "normal" m)

  -- The first component is the next run that `_fire` logs, or the exception that it logs.
  unfoldable pub fire : String → ScheduleRow → Manager → Result ℕ × Manager
  unfolding try_fire
  fire fresh_id schedule m =
      try_fire fresh_id schedule m (request_from_dict py schedule.request_json)

  -- `fresh n` is the id that `uuid.uuid4` gives for the n-th job.
  unfoldable pub fire_all :
      (ℕ → String) → ℕ → List ScheduleRow → Manager → List (Result ℕ) × Manager
  fire_all fresh n [] m = ([], m)
  fire_all fresh n (schedule ∷ due) m =
      let (outcome, m') = fire (fresh n) schedule m in
      let (outcomes, m'') = fire_all fresh (suc n) due m' in (outcome ∷ outcomes, m'')

  unfoldable pub tick : (ℕ → String) → Manager → List (Result ℕ) × Manager
  tick fresh m = fire_all fresh 0 (list_due_schedules m.store.clock m.store) m

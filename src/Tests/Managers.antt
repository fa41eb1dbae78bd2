-- ===== src/Tests/Managers.antt =====
-- The job manager on concrete sequences of steps.
use groupware_migrator.Base.{
  String, ◌≡◌, refl, false, some, [], ◌∷◌, nat_eq, string_eq, find_where, any_where, none, ok, err,
  runtime_error,
}
use groupware_migrator.Base.Dict.{lookup}
use groupware_migrator.Domain.Types.{pending, failed}
use groupware_migrator.State.Schema.{JobRow, Store}
use groupware_migrator.State.Jobs.{get_job, create_job, new_job}
use groupware_migrator.Engine.Background.{
  Manager, start_job, is_running, resume_job, end_run, on_done, schedule_retry,
}
use groupware_migrator.Engine.Background.Running.{
  retried_row, start_job-shutting_down, schedule_retry-is_running, on_done-is_running,
}
use groupware_migrator.Engine.Background.Retries.{
  InBudget, here, next, resumes, ends, calls_back, Reachable-InBudget,
}
use groupware_migrator.Tests.Fixtures.{request, job, store_of, manager}

abbrev busy : Manager
busy = record manager { futures = ("j1", 0) ∷ []; active = (0, "j1") ∷ []; next_future = 1 }

schedule_retry-is_running_example :
    (get_job "j1" (schedule_retry "j1" (request false) 1 busy).store
      ≡ some (retried_row 1000 1 (job "j1" pending)))
    × ((schedule_retry "j1" (request false) 1 busy).active ≡ busy.active)
unfolding is_running lookup any_where get_job find_where
schedule_retry-is_running_example =
    schedule_retry-is_running "j1" (request false) 1 busy (job "j1" pending) refl refl refl

on_done-is_running_example :
    (is_running "j1" (on_done "j1" false busy) ≡ false)
    × ((on_done "j1" false busy).active ≡ busy.active)
on_done-is_running_example = on_done-is_running "j1" false busy

abbrev fresh : Manager → String
fresh m = "j9"

abbrev resumed : Manager
resumed = (resume_job "j1" (request false) manager).1

abbrev ended : Manager
ended = end_run 0 (store_of (job "j1" failed ∷ [])) resumed

-- A resumed run fails, and its callback sets a timer for the first retry.
Reachable-InBudget_example : InBudget (on_done "j1" false ended)
Reachable-InBudget_example =
    Reachable-InBudget {fresh = fresh}
      (next
        (next (next here (resumes "j1" (request false) manager))
          (ends 0 (store_of (job "j1" failed ∷ [])) resumed))
        (calls_back "j1" false ended))
      (record { contexts = tt; timers = tt })

-- the store with the job that a refused start has created
abbrev left_behind : Store
left_behind = elim (create_job "j2" (request false) [] none "normal" manager.store) [
  | err e ↦ manager.store
  | ok s ↦ s
]

start_job-shutting_down_example :
    let m : Manager = record manager { accepting = false } in
    (start_job "j2" (request false) none "normal" m
      ≡ (err (runtime_error "Job manager is shutting down."), record m { store = left_behind }))
    × ((row : JobRow) × (new_job "j2" (request false) [] none "normal" 1000 ≡ ok row)
        × (get_job "j2" left_behind ≡ some row)
        × (row.status ≡ pending))
unfolding create_job any_where
start_job-shutting_down_example =
    start_job-shutting_down "j2" (request false) none "normal"
      (record manager { accepting = false }) left_behind refl refl

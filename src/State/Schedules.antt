-- ===== src/State/Schedules.antt =====
-- engine/state.py: the operations on the `scheduled_jobs` table.
use groupware_migrator.Base.{
  ℕ, String, Bool, true, ◌&&◌, Option, none, some, List, [], ◌∷◌, ◌++◌, leb, if◌then◌else◌, ◌==◌,
  nat_eq, string_eq, find_where, select_where, update_where, any_where, delete_where,
  integrity_error, Result, ok, err, Json,
}
use groupware_migrator.State.Schema.{ScheduleRow, Store}

abbrev pub schedule_is : String → ScheduleRow → Bool
schedule_is schedule_id row = row.id == schedule_id

unfoldable pub create_schedule :
    String → String → String → String → Json → ℕ → Option String → Store → Result Store
create_schedule id name schedule_type schedule_expr request_json next_run_at user_id s =
    if any_where (schedule_is id) s.scheduled_jobs
    then err (integrity_error "UNIQUE constraint failed: scheduled_jobs.id")
    else ok (record s {
      scheduled_jobs =
          s.scheduled_jobs
          ++ record {
            id = id;
            name = name;
            schedule_type = schedule_type;
            schedule_expr = schedule_expr;
            request_json = request_json;
            is_active = true;
            user_id = user_id;
            created_at = s.clock;
            updated_at = s.clock;
            next_run_at = next_run_at;
            last_run_at = none;
            last_run_job_id = none;
          }
            ∷ [];
    })

unfoldable pub get_schedule : String → Store → Option ScheduleRow
get_schedule schedule_id s = find_where (schedule_is schedule_id) s.scheduled_jobs

-- the columns that `update_schedule` is given
pub record ScheduleUpdate : Type 0 where
  pub name : Option String
  pub schedule_expr : Option String
  pub is_active : Option Bool
  pub next_run_at : Option ℕ

abbrev or_same {ℓ} : {A : Type ℓ} → A → Option A → A
or_same old none = old
or_same old (some new) = new

unfoldable pub updated_schedule : ℕ → ScheduleUpdate → ScheduleRow → ScheduleRow
updated_schedule now u row = record row {
  name = or_same row.name u.name;
  schedule_expr = or_same row.schedule_expr u.schedule_expr;
  is_active = or_same row.is_active u.is_active;
  next_run_at = or_same row.next_run_at u.next_run_at;
  updated_at = now;
}

unfoldable pub update_schedule : String → ScheduleUpdate → Store → Store × Bool
unfolding updated_schedule
update_schedule schedule_id u s = (
  record s {
    scheduled_jobs =
        update_where (schedule_is schedule_id) (updated_schedule s.clock u) s.scheduled_jobs;
  },
  any_where (schedule_is schedule_id) s.scheduled_jobs,
)

unfoldable pub delete_schedule : String → Store → Store × Bool
delete_schedule schedule_id s = (
  record s { scheduled_jobs = delete_where (schedule_is schedule_id) s.scheduled_jobs },
  any_where (schedule_is schedule_id) s.scheduled_jobs,
)

-- is_active = 1 AND next_run_at <= ?
abbrev pub is_due : ℕ → ScheduleRow → Bool
is_due before row = row.is_active && leb row.next_run_at before

-- ORDER BY next_run_at ASC, by insertion
unfoldable pub insert_by_time : ScheduleRow → List ScheduleRow → List ScheduleRow
insert_by_time row [] = row ∷ []
insert_by_time row (r ∷ rows) =
    let rest = insert_by_time row rows in
    if leb row.next_run_at r.next_run_at then row ∷ r ∷ rows else r ∷ rest

unfoldable pub by_time : List ScheduleRow → List ScheduleRow
unfolding insert_by_time
by_time [] = []
by_time (row ∷ rows) = insert_by_time row (by_time rows)

unfoldable pub list_due_schedules : ℕ → Store → List ScheduleRow
unfolding by_time
list_due_schedules before s = by_time (select_where (is_due before) s.scheduled_jobs)

abbrev pub fired_row : ℕ → String → ℕ → ScheduleRow → ScheduleRow
fired_row now job_id next_run_at row = record row {
  last_run_at = some now;
  last_run_job_id = some job_id;
  next_run_at = next_run_at;
  updated_at = now;
}

unfoldable pub update_schedule_after_fire : String → String → ℕ → Store → Store
update_schedule_after_fire schedule_id job_id next_run_at s = record s {
  scheduled_jobs =
      update_where (schedule_is schedule_id) (fired_row s.clock job_id next_run_at)
        s.scheduled_jobs;
}

-- ===== src/Engine/Scheduler/Tick.antt =====
-- engine/scheduler.py: what a tick leaves in the `scheduled_jobs` table.
use mathlib.Core.Path.{subst}
use groupware_migrator.Base.{
  ℕ, suc, String, ◌≡◌, refl, sym, ap, ◌∙◌, ◌⊎◌, inl, inr, Option, List, [], ◌∷◌, Bool-cases, nat_eq,
  string_eq, update_where, All, Error, Result, ok, err, Result-cases, bind_ok, guard_ok, is_some,
  select_where, true,
}
use groupware_migrator.Domain.Types.{MigrationRequest}
use groupware_migrator.Domain.FromDict.{Builtins, request_from_dict}
use groupware_migrator.State.Schema.{ScheduleRow, Store}
use groupware_migrator.State.Jobs.{create_job, get_job, has_job, new_job, insert_job}
use groupware_migrator.State.Jobs.Lookup.{get_job-create_job}
use groupware_migrator.State.Schedules.{
  schedule_is, is_due, by_time, list_due_schedules, fired_row, update_schedule_after_fire,
}
use groupware_migrator.Engine.Cron.{Calendar}
use groupware_migrator.Engine.Cron.Window.{IsCalendar}
use groupware_migrator.Engine.Background.{Manager, is_running, submit, or_started, start_job}
use groupware_migrator.Engine.Scheduler.{
  next_run_after_now, schedule_user, set_next, after_start, try_fire, fire, fire_all, tick,
}
use groupware_migrator.Engine.Scheduler.Due.{IsPending, due_IsPending, fired_IsPending, none_due}
use groupware_migrator.Engine.Scheduler.Times.{IsForward, next_run_after_now-later}

store_of : Store → Result Manager → Store
store_of s (err e) = s
store_of s (ok m) = m.store

submit-store :
    (id : String) (r : MigrationRequest) (n : ℕ) (m : Manager)
    → store_of m.store (submit id r n m) ≡ m.store
unfolding submit store_of
submit-store id r n m = elim (Bool-cases m.accepting) [
  | inr e ↦ rw e refl
  | inl e ↦ rw e (elim (Bool-cases (is_running id m)) [ inl e' ↦ rw e' refl | inr e' ↦ rw e' refl ])
]

-- Starting a job leaves the schedules and the clock as they are.
abbrev SameSchedules : Store → Store → Type 0
SameSchedules s s' = (s'.scheduled_jobs ≡ s.scheduled_jobs) × (s'.clock ≡ s.clock)

create_job-schedules :
    (id : String) (r : MigrationRequest) (user : Option String) (p : String) (s s' : Store)
    → create_job id r [] user p s ≡ ok s'
    → SameSchedules s s'
unfolding create_job insert_job
create_job-schedules id r user p s s' made =
    let (row, _, rest) = bind_ok (new_job id r [] user p s.clock) _ s' made in
    let (_, h) = guard_ok (has_job id s) _ (insert_job row s) s' rest in
    (sym (ap (λ (t : Store). t.scheduled_jobs) h), sym (ap (λ (t : Store). t.clock) h))

start_job-schedules :
    (id : String) (r : MigrationRequest) (user : Option String) (p : String) (m : Manager)
    → SameSchedules m.store (start_job id r user p m).1.store
unfolding start_job store_of
start_job-schedules id r user p m = elim (Result-cases (create_job id r [] user p m.store)) [
  | inl (e, fails) ↦ rw (fails, start_job) (refl, refl)
  | inr (s, made) ↦
      rw (made, start_job)
        (started (record m { store = s }) (create_job-schedules id r user p m.store s made)
          (Result-cases (submit id r 0 (record m { store = s }))))
]
  where
    started :
        (m' : Manager)
        → SameSchedules m.store m'.store
        → ((exc : Error) × (submit id r 0 m' ≡ err exc))
          ⊎ ((value : Manager) × (submit id r 0 m' ≡ ok value))
        → SameSchedules m.store (or_started id m' (submit id r 0 m')).1.store
    started m' same (inl (e, fails)) = rw fails same
    started m' same (inr (m'', starts)) =
        let kept : m''.store ≡ m'.store =
          sym (ap (store_of m'.store) starts) ∙ submit-store id r 0 m' in
        rw starts (
          ap (λ (s : Store). s.scheduled_jobs) kept ∙ same.0,
          ap (λ (s : Store). s.clock) kept ∙ same.1,
        )

-- A job that was started is among the jobs.
start_job-exists :
    (id : String) (r : MigrationRequest) (user : Option String) (p : String) (m : Manager)
    → (start_job id r user p m).0 ≡ ok id
    → is_some (get_job id (start_job id r user p m).1.store) ≡ true
unfolding start_job store_of
start_job-exists id r user p m = elim (Result-cases (create_job id r [] user p m.store)) [
  | inl (e, fails) ↦ rw (fails, start_job) (λ starts. absurd (cc (starts)))
  | inr (s, made) ↦
      rw (made, start_job)
        (λ starts.
          let (row, _, found, _) = get_job-create_job id r [] user p m.store s made in
          go s (submit id r 0 (record m { store = s }))
            (submit-store id r 0 (record m { store = s })) (ap is_some found))
]
  where
    go :
        (s : Store) (submitted : Result Manager)
        → store_of s submitted ≡ s
        → is_some (get_job id s) ≡ true
        → is_some (get_job id (or_started id (record m { store = s }) submitted).1.store) ≡ true
    go s (err e) same h = h
    go s (ok m') same h = rw same h

module _ (py : Builtins) (cal : Calendar) (laws : IsCalendar cal) where
  -- The rows as a call of `_fire` leaves them: those of the schedule's id get a later time, if it went well.
  abbrev IsFired : ScheduleRow → Result ℕ → Store → Store → Type 0
  IsFired schedule (err e) s s' = SameSchedules s s'
  IsFired schedule (ok t) s s' =
      (s'.clock ≡ s.clock)
      × (next_run_after_now py cal schedule s.clock ≡ ok t)
      × ((job_id : String) × (s'.scheduled_jobs
            ≡ update_where (schedule_is schedule.id) (fired_row s.clock job_id t) s.scheduled_jobs))

  set_next-IsFired :
      (schedule : ScheduleRow) (job_id : String) (s : Store) (m : Manager) (next : Result ℕ)
      → SameSchedules s m.store
      → next_run_after_now py cal schedule m.store.clock ≡ next
      → IsFired schedule
          (set_next py cal schedule job_id m next).0
          s
          (set_next py cal schedule job_id m next).1.store
  unfolding set_next update_schedule_after_fire
  set_next-IsFired schedule job_id s m (err e) same found = same
  set_next-IsFired schedule job_id s m (ok t) same found = (
    same.1,
    ap (next_run_after_now py cal schedule) (sym same.1) ∙ found,
    (job_id, rw (same.0, same.1) refl),
  )

  after_start-IsFired :
      (schedule : ScheduleRow) (s : Store) (started : Result String × Manager)
      → SameSchedules s started.1.store
      → IsFired schedule
          (after_start py cal schedule started).0
          s
          (after_start py cal schedule started).1.store
  unfolding after_start
  after_start-IsFired schedule s (err e, m) same = same
  after_start-IsFired schedule s (ok job_id, m) same =
      set_next-IsFired schedule job_id s m _ same refl

  fire-IsFired :
      (id : String) (schedule : ScheduleRow) (m : Manager)
      → IsFired schedule (fire py cal id schedule m).0 m.store (fire py cal id schedule m).1.store
  unfolding fire try_fire
  fire-IsFired id schedule m = go (request_from_dict py schedule.request_json)
    where
      go :
          (read : Result MigrationRequest)
          → IsFired schedule
              (try_fire py cal id schedule m read).0
              m.store
              (try_fire py cal id schedule m read).1.store
      go (err e) = (refl, refl)
      go (ok r) =
          after_start-IsFired schedule m.store (start_job id r (schedule_user schedule) "normal" m)
            (start_job-schedules id r (schedule_user schedule) "normal" m)

  abbrev pub IsOk : Result ℕ → Type 0
  IsOk r = (t : ℕ) × (r ≡ ok t)

  fire-IsPending :
      (id : String) (d : ScheduleRow) (due : List ScheduleRow) (m : Manager)
      → IsForward py d
      → IsOk (fire py cal id d m).0
      → All (IsPending m.store.clock (d ∷ due)) m.store.scheduled_jobs
      → let s = (fire py cal id d m).1.store in
        (s.clock ≡ m.store.clock) × All (IsPending m.store.clock due) s.scheduled_jobs
  fire-IsPending id d due m forward (t, went) h =
      let (clock, next, moved) =
        subst (λ r. IsFired d r m.store (fire py cal id d m).1.store) went (fire-IsFired id d m) in
      (
        clock,
        subst (All (IsPending m.store.clock due)) (sym moved.1) (
            fired_IsPending m.store.clock t moved.0 d due m.store.scheduled_jobs
              (next_run_after_now-later py cal laws d m.store.clock t forward next) h),
      )

  fire_all-none_due :
      (fresh : ℕ → String) (n : ℕ) (due : List ScheduleRow) (m : Manager)
      → All (IsForward py) due
      → All IsOk (fire_all py cal fresh n due m).0
      → All (IsPending m.store.clock due) m.store.scheduled_jobs
      → list_due_schedules m.store.clock (fire_all py cal fresh n due m).1.store ≡ []
  unfolding fire_all
  fire_all-none_due fresh n [] m forward went h = none_due m.store.clock m.store h
  fire_all-none_due fresh n (d ∷ due) m forward went h =
      let m' = (fire py cal (fresh n) d m).1 in
      let (clock, rest) = fire-IsPending (fresh n) d due m forward.0 went.0 h in
      let left =
        fire_all-none_due fresh (suc n) due m' forward.1 went.1
          (subst (λ now. All (IsPending now due) m'.store.scheduled_jobs) (sym clock) rest) in
      subst (λ now. list_due_schedules now (fire_all py cal fresh (suc n) due m').1.store ≡ [])
        clock left

  -- A tick in which every call of `_fire` goes well leaves no schedule due at its time, if the intervals
  -- of those that were due are positive.
  pub tick-none_due :
      (fresh : ℕ → String) (m : Manager)
      → All (IsForward py) (list_due_schedules m.store.clock m.store)
      → All IsOk (tick py cal fresh m).0
      → list_due_schedules m.store.clock (tick py cal fresh m).1.store ≡ []
  unfolding tick
  tick-none_due fresh m forward went =
      fire_all-none_due fresh 0 (list_due_schedules m.store.clock m.store) m forward went
        (due_IsPending m.store.clock m.store)

  -- A schedule of which the request is read and the job started, but whose next run cannot be computed,
  -- leaves what `start_job` leaves, with the job among the jobs, and the table of the schedules as it
  -- was: if the schedule was due, it still is.
  pub fire-repeats :
      (id : String) (d : ScheduleRow) (m : Manager) (request : MigrationRequest) (e : Error)
      → request_from_dict py d.request_json ≡ ok request
      → (start_job id request (schedule_user d) "normal" m).0 ≡ ok id
      → next_run_after_now py cal d m.store.clock ≡ err e
      → let m' = (fire py cal id d m).1 in
        (m' ≡ (start_job id request (schedule_user d) "normal" m).1)
        × (is_some (get_job id m'.store) ≡ true)
        × (m'.store.scheduled_jobs ≡ m.store.scheduled_jobs)
        × (list_due_schedules m.store.clock m'.store ≡ list_due_schedules m.store.clock m.store)
  unfolding fire try_fire after_start set_next list_due_schedules
  fire-repeats id d m request e read starts fails =
      let started = start_job id request (schedule_user d) "normal" m in
      let same = start_job-schedules id request (schedule_user d) "normal" m in
      let left = go started same starts in
      rw read (
        left,
        ap (λ (n : Manager). is_some (get_job id n.store)) left
            ∙ start_job-exists id request (schedule_user d) "normal" m starts,
        ap (λ (n : Manager). n.store.scheduled_jobs) left ∙ same.0,
        ap (λ (n : Manager). list_due_schedules m.store.clock n.store) left
            ∙ ap (λ rows. by_time (select_where (is_due m.store.clock) rows)) same.0,
      )
    where
      go :
          (started : Result String × Manager)
          → SameSchedules m.store started.1.store
          → started.0 ≡ ok id
          → (after_start py cal d started).1 ≡ started.1
      go (err e', m') same h = refl
      go (ok job_id, m') same h = rw same.1 (rw fails refl)

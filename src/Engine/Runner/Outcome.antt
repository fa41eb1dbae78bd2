-- ===== src/Engine/Runner/Outcome.antt =====
-- engine/runner.py: how a run ends.
use mathlib.Core.Option
use groupware_migrator.Base.{
  ℕ, String, ◌≡◌, refl, ap, ◌∙◌, ◌⊎◌, inl, inr, Bool, true, false, not, ◌&&◌, Option, none, some,
  List, [], ◌∷◌, if◌then◌else◌, Bool-cases, Option-cases, ◌==◌, nat_eq, string_eq, ==-refl, is_some,
  is_none, last, find_where, sym, Result-cases, bind_ok, ok_same, Error, runtime_error, Result, ok,
  err, ◌>>=◌, at_least_one,
}
use groupware_migrator.Base.Text.{◌<>◌}
use groupware_migrator.Domain.Types.{
  JobStatus, running, completed, failed, cancelled, MigrationRequest, MigrationPlan,
  MigrationReport, SourceKind, DestinationKind,
}
use groupware_migrator.Domain.ToDict.{source_protocol_value, destination_protocol_value, no_value}
use groupware_migrator.State.Schema.{JobRow, Store}
use groupware_migrator.State.Jobs.{
  is_status, job_is, get_job, create_job, status_row, count_row, set_job_status, update_job_plan,
  append_audit_event, increment_counters, new_job,
}
use groupware_migrator.State.Jobs.Lookup.{
  get_job-create_job, plan_row, get_job-update_job_plan, get_job-set_job_status,
  get_job-increment_counters,
}
use groupware_migrator.State.Progress.{
  has_fingerprint, record_message, set_checkpoint, get_job_checkpoints, set_sync_cursor,
  set_sync_cursors, update_sync_cursors_from_job, truthy,
}
use groupware_migrator.Engine.Idempotency.{Library}
use groupware_migrator.Engine.Connectors.{SourceConnector, DestinationConnector}
use groupware_migrator.Engine.Planner.{is_incremental, build_plan}
use groupware_migrator.Engine.Runner.Items.{
  build_report, RunState, Flow, next, stopped, raised, build_report,
}
use groupware_migrator.Engine.Runner.Run.{
  save_cursors, after_cursors, after_completion, mark_running, run_started, or_message,
  audit_job_started, audit_job_completed, complete_job, fail_job, stop_job, after_stop, conclude,
  report_row, report, run_body, run_job, begin_created, begin_found, begin_job, run_plan,
  incremental_cursors, run,
}
use groupware_migrator.Engine.Runner.Frame.{Kept, if_ind, run_body-kept, audit_job_started-kept}

-- A run that has ended is in one of three states.
pub data IsFinal : JobStatus → Type 0 where
  completed_final : IsFinal completed
  failed_final : IsFinal failed
  cancelled_final : IsFinal cancelled

abbrev Exists : String → Store → Type 0
Exists job_id s = is_some (get_job job_id s) ≡ true

is_some-map : {A : Type 0} (f : A → A) (o : Option A) → is_some (Option.map f o) ≡ is_some o
is_some-map f none = refl
is_some-map f (some a) = refl

Exists-update :
    (job_id : String) (f : JobRow → JobRow) (s t : Store)
    → get_job job_id t
      ≡ (if job_id == job_id then Option.map f (get_job job_id s) else get_job job_id s)
    → Exists job_id s
    → Exists job_id t
Exists-update job_id f s t e h = rw e (rw (==-refl job_id) (is_some-map f (get_job job_id s) ∙ h))

Exists-Kept : (job_id : String) → Kept job_id (Exists job_id)
unfolding get_job append_audit_event set_checkpoint has_fingerprint record_message set_sync_cursor
Exists-Kept job_id = record {
  counters = λ m k f s h.
      Exists-update job_id (count_row s.clock m k f) s (increment_counters job_id m k f s)
        (get_job-increment_counters job_id job_id m k f s) h;
  checkpoint = λ mailbox id s h. h;
  audit = λ event level payload s h. h;
  message = λ fp mailbox id target result s h.
      if_ind {A = Store × Bool} (λ o. Exists job_id o.0) (has_fingerprint job_id fp s) h h;
  status = λ st error a b s h.
      Exists-update job_id (status_row s.clock st error a b) s
        (set_job_status job_id st error a b s) (get_job-set_job_status job_id job_id st error a b s)
        h;
  plan = λ p s h.
      Exists-update job_id (plan_row s.clock p) s (update_job_plan job_id p s)
        (get_job-update_job_plan job_id job_id p s) h;
  cursor = λ key mailbox id s h. h;
}

-- The store holds the job in a final state.
abbrev pub Ended : String → Store → Type 0
Ended job_id s = (row : JobRow) × (get_job job_id s ≡ some row) × IsFinal row.status

Ended-set_job_status :
    (job_id : String) (st : JobStatus) (error : Option String) (a b : Bool) (s : Store)
    → IsFinal st
    → Exists job_id s
    → Ended job_id (set_job_status job_id st error a b s)
Ended-set_job_status job_id st error a b s final h = elim (Option-cases (get_job job_id s)) [
  | inl e ↦ absurd (cc (h, e))
  | inr (row, e) ↦ (
    status_row s.clock st error a b row,
    rw (get_job-set_job_status job_id job_id st error a b s) (rw (==-refl job_id) (rw e refl)),
    unfold status_row in final,
  )
]

set_sync_cursors-jobs :
    (key : String) (entries : List (String × String)) (s : Store)
    → (set_sync_cursors key entries s).jobs ≡ s.jobs
unfolding set_sync_cursors
set_sync_cursors-jobs key [] s = refl
set_sync_cursors-jobs key ((mailbox, id) ∷ rest) s =
    set_sync_cursors-jobs key rest (set_sync_cursor key mailbox id s)

IsFinal-completed : (st : JobStatus) → is_status st completed ≡ true → IsFinal st
unfolding is_status
IsFinal-completed completed h = completed_final
IsFinal-completed failed h = failed_final
IsFinal-completed cancelled h = cancelled_final
IsFinal-completed _ h = cc

is_some→some : {A : Type 0} (o : Option A) → is_some o ≡ true → (a : A) × (o ≡ some a)
is_some→some none h = cc
is_some→some (some a) h = (a, refl)

audit_Ended :
    (job_id : String) (row : Option JobRow) (s : Store)
    → Ended job_id s
    → Ended job_id (audit_job_completed job_id row s)
unfolding audit_job_completed append_audit_event get_job
audit_Ended job_id none s ended = ended
audit_Ended job_id (some row) s ended = ended

module _ (key : MigrationRequest → Result String) (job_id : String)
    (request : MigrationRequest) where
  save_cursors-jobs : (s s' : Store) → save_cursors key job_id request s ≡ ok s' → s.jobs ≡ s'.jobs
  unfolding save_cursors update_sync_cursors_from_job append_audit_event
  save_cursors-jobs s s' made =
      let (t, cursors, done) =
        bind_ok (update_sync_cursors_from_job key request job_id s) _ s' made in
      let (sync_key, _, moved) = bind_ok (key request) _ t cursors in
      sym (set_sync_cursors-jobs sync_key (get_job_checkpoints job_id s) s)
      ∙ ap (λ (u : Store). u.jobs) (ok_same moved)
      ∙ ap (λ (u : Store). u.jobs) (ok_same done)

  after_cursors-Ended :
      (s : Store) (o : Result Store)
      → Ended job_id s
      → ((s' : Store) → o ≡ ok s' → s.jobs ≡ s'.jobs)
      → Ended job_id (after_cursors job_id s o).0
  unfolding after_cursors get_job
  after_cursors-Ended s (err e) ended same = ended
  after_cursors-Ended s (ok s') ended same =
      audit_Ended job_id _ s'
        (ended.0, sym (ap (find_where (job_is job_id)) (same s' refl)) ∙ ended.1, ended.2)

  complete_job-Ended :
      (texts : List String) (s : Store)
      → Exists job_id s
      → Ended job_id (complete_job key job_id request texts s).0
  unfolding complete_job
  complete_job-Ended texts s h =
      let s₁ = set_job_status job_id completed (last texts) false true s in
      after_cursors-Ended s₁ _
        (Ended-set_job_status job_id completed (last texts) false true s completed_final h)
        (if_ind {A = Result Store} (λ o. (s' : Store) → o ≡ ok s' → s₁.jobs ≡ s'.jobs)
          (is_incremental request.options.sync_mode && not request.options.dry_run)
          (save_cursors-jobs s₁) (λ s' same. ap (λ (u : Store). u.jobs) (ok_same same)))

Exists-Ended : (job_id : String) (s : Store) → Ended job_id s → Exists job_id s
Exists-Ended job_id s ended = ap is_some ended.1

module _ {D : Type 0} (key : MigrationRequest → Result String) (job_id : String)
    (request : MigrationRequest) (max_errors : ℕ) where
  fail_job-Ended :
      (e : Error) (r : RunState D)
      → Exists job_id r.store
      → Ended job_id (fail_job job_id max_errors e r).store
  unfolding fail_job append_audit_event get_job
  fail_job-Ended e r h =
      Ended-set_job_status job_id failed (last (or_message e r.error_messages)) false true r.store
        failed_final h

  after_stop-Ended :
      (row : Option JobRow) (r : RunState D)
      → Ended job_id r.store
      → Ended job_id (after_stop job_id max_errors row r).store
  unfolding after_stop
  after_stop-Ended (some row) r h = h
  after_stop-Ended none r h =
      fail_job-Ended (runtime_error ("Unable to load job state for " <> job_id <> ".")) r
        (rw h.1 refl)

  after_completion-Ended :
      (r : RunState D) (o : Store × Option Error)
      → Ended job_id o.0
      → Ended job_id (after_completion job_id max_errors r o).store
  unfolding after_completion
  after_completion-Ended r (s, none) h = h
  after_completion-Ended r (s, some e) h =
      fail_job-Ended e (record r { store = s }) (Exists-Ended job_id s h)

  conclude-Ended :
      (o : RunState D × Flow)
      → Exists job_id o.0.store
      → Ended job_id (conclude key job_id request max_errors o).store
  unfolding conclude stop_job append_audit_event get_job
  conclude-Ended (r, next) h =
      after_completion-Ended r (complete_job key job_id request r.error_messages r.store)
        (complete_job-Ended key job_id request r.error_messages r.store h)
  conclude-Ended (r, stopped) h =
      let ended = Ended-set_job_status job_id cancelled none false true r.store cancelled_final h in
      after_stop-Ended (get_job job_id (stop_job job_id r.store))
        (record r { store = stop_job job_id r.store }) ended
  conclude-Ended (r, raised e) h = fail_job-Ended e r h

-- The report says what the store says.
abbrev pub Reports : {D : Type 0} → String → Result MigrationReport × Store × D → Type 0
Reports job_id (result, s, d) =
    (report : MigrationReport) × (row : JobRow) × (result ≡ ok report)
    × (get_job job_id s ≡ some row)
    × IsFinal report.status
    × (report.status ≡ row.status)
    × (report.migrated_count ≡ row.migrated_count)
    × (report.skipped_count ≡ row.skipped_count)
    × (report.failed_count ≡ row.failed_count)

report-Reports :
    {D : Type 0} (job_id : String) (r : RunState D)
    → Ended job_id r.store
    → Reports job_id (report job_id r)
unfolding report
report-Reports job_id r (row, found, final) =
    rw (found, report_row)
      (build_report row r.error_messages, row, refl, found, final, refl, refl, refl, refl)

-- Both protocols are ones of the enumerations, so that `.value` gives a text.
abbrev pub HasValues : MigrationRequest → Type 0
HasValues request =
    ((a : String) × (source_protocol_value request.source.protocol ≡ ok a))
    × ((b : String) × (destination_protocol_value request.destination.protocol ≡ ok b))

two_ok :
    {A : Type 0} (f : String → String → A) (x y : Result String)
    → ((a : String) × (x ≡ ok a))
    → ((b : String) × (y ≡ ok b))
    → (c : A) × ((x >>= λ a. y >>= λ b. ok (f a b)) ≡ ok c)
two_ok f (ok a) (ok b) h h' = (f a b, refl)
two_ok f (ok a) (err e) h h' = absurd (cc (h'.1))
two_ok f (err e) y h h' = absurd (cc (h.1))

audit_job_started-HasValues :
    (job_id : String) (request : MigrationRequest) (resume : Bool) (plan : MigrationPlan)
    (s : Store)
    → HasValues request
    → (s' : Store) × (audit_job_started job_id request resume plan s ≡ ok s')
unfolding audit_job_started
audit_job_started-HasValues job_id request resume plan s values =
    two_ok _ (source_protocol_value request.source.protocol)
      (destination_protocol_value request.destination.protocol) values.0 values.1

module _ {D : Type 0} (lib : Library) (key : MigrationRequest → Result String)
    (src : SourceConnector) (dst : DestinationConnector D) (job_id : String)
    (request : MigrationRequest) (cursors : List (String × String)) (stop : ℕ → Bool)
    (plan : MigrationPlan) where
  started-Reports :
      (s₁ s₂ : Store) (d : D)
      → Exists job_id s₂
      → Reports job_id (run_started lib key src dst job_id request cursors stop plan s₁ d (ok s₂))
  unfolding run_started
  started-Reports s₁ s₂ d exists =
      let max_errors = at_least_one request.options.max_errors in
      let start : RunState D = record {
        store = s₂;
        destination = d;
        error_messages = [];
        run_failures = 0;
      } in
      let body = run_body lib src dst job_id request max_errors cursors stop plan start in
      report-Reports job_id (conclude key job_id request max_errors body) (
        conclude-Ended key job_id request max_errors body (
          run_body-kept (Exists-Kept job_id) lib src dst request max_errors cursors stop plan start
            exists))

  -- The row of a job that is marked as running is there, and says so.
  mark_running-IsRunning :
      (mark_started : Bool) (s : Store)
      → Exists job_id s
      → (row : JobRow) × (get_job job_id (mark_running job_id mark_started plan s) ≡ some row)
        × (row.status ≡ running)
  unfolding mark_running status_row
  mark_running-IsRunning mark_started s h =
      let planned = (Exists-Kept job_id).plan plan s h in
      let (row, found) = is_some→some (get_job job_id (update_job_plan job_id plan s)) planned in
      (
        status_row s.clock running none mark_started false row,
        rw
            (get_job-set_job_status job_id job_id running none mark_started false
              (update_job_plan job_id plan s))
            (rw (==-refl job_id) (rw found refl)),
        refl,
      )

  -- A run of a job that is in the store ends with a report, in a final state, and the report's status
  -- and counters are those of the job's row, where both protocols are ones of the enumerations.
  pub run_job-Reports :
      (resume mark_started : Bool) (s : Store) (d : D)
      → is_some (get_job job_id s) ≡ true
      → HasValues request
      → Reports job_id
          (run_job lib key src dst job_id resume mark_started request cursors stop plan s d)
  unfolding run_job
  run_job-Reports resume mark_started s d h values =
      let s₁ = mark_running job_id mark_started plan s in
      let (s₂, made) = audit_job_started-HasValues job_id request resume plan s₁ values in
      let (row, found, _) = mark_running-IsRunning mark_started s h in
      rw made (
        started-Reports s₁ s₂ d (
          audit_job_started-kept (Exists-Kept job_id) request resume plan s₁ s₂ (ap is_some found)
            made))

-- What a run leaves behind that never enters its `try` statement: an exception, the destination as
-- it was, and a row that says running.
abbrev pub Stranded : {D : Type 0} → String → D → Result MigrationReport × Store × D → Type 0
Stranded job_id d (result, s, d') =
    (result ≡ err no_value)
    × (d' ≡ d)
    × ((row : JobRow) × (get_job job_id s ≡ some row) × (row.status ≡ running))

-- One of the protocols is that of a plugin, which has no `value`.
abbrev pub IsPlugin : MigrationRequest → Type 0
IsPlugin request =
    (source_protocol_value request.source.protocol ≡ err no_value)
    ⊎ (destination_protocol_value request.destination.protocol ≡ err no_value)

-- Both texts cannot be had.
abbrev Raises : MigrationRequest → Type 1
Raises request =
    (A : Type 0) (f : String → String → A)
    → (source_protocol_value request.source.protocol >>= λ a.
        destination_protocol_value request.destination.protocol >>= λ b. ok (f a b))
      ≡ err no_value

audit_job_started-Raises :
    (job_id : String) (request : MigrationRequest) (resume : Bool) (plan : MigrationPlan)
    (s : Store)
    → Raises request
    → audit_job_started job_id request resume plan s ≡ err no_value
unfolding audit_job_started
audit_job_started-Raises job_id request resume plan s fails = fails Store _

values_or_IsPlugin :
    (request : MigrationRequest) → HasValues request ⊎ (IsPlugin request × Raises request)
unfolding source_protocol_value destination_protocol_value
values_or_IsPlugin request = go request.source.protocol request.destination.protocol
  where
    go :
        (p : SourceKind) (q : DestinationKind)
        → (((a : String) × (source_protocol_value p ≡ ok a))
            × ((b : String) × (destination_protocol_value q ≡ ok b)))
          ⊎ (((source_protocol_value p ≡ err no_value)
                ⊎ (destination_protocol_value q ≡ err no_value))
              × ((A : Type 0) (f : String → String → A)
                  → (source_protocol_value p >>= λ a.
                      destination_protocol_value q >>= λ b. ok (f a b))
                    ≡ err no_value))
    go (SourceKind.plugin t) q = inr (inl refl, λ A f. refl)
    go (SourceKind.known p) (DestinationKind.plugin t) = inr (inr refl, λ A f. refl)
    go (SourceKind.known p) (DestinationKind.known q) = inl ((_, refl), (_, refl))

-- What `run` returns. An exception, with the store and the destination as they were. Or a report of a
-- job whose row agrees with it. Or, for a resumed job with the protocol of a plugin, an exception and
-- a row that says running.
abbrev pub Outcome :
    {D : Type 0}
    → MigrationRequest
    → Option String
    → Store
    → D
    → Result MigrationReport × Store × D
    → Type 0
Outcome request resume s d o =
    ((e : Error) × (o ≡ (err e, s, d)))
    ⊎ (((job_id : String) × Reports job_id o)
        ⊎ ((job_id : String) × (truthy resume ≡ some job_id)
            × IsPlugin request
            × Stranded job_id d o))

module _ {D : Type 0} (lib : Library) (key : MigrationRequest → Result String)
    (src : SourceConnector) (dst : DestinationConnector D) (fresh_id : String) (stop : ℕ → Bool)
    (request : MigrationRequest) (s : Store) (d : D) where
  job-Outcome :
      (cursors : List (String × String)) (plan : MigrationPlan) (job_id : String)
      (mark_started : Bool)
      → Exists job_id s
      → Reports job_id
          (run_job lib key src dst job_id true mark_started request cursors stop plan s d)
        ⊎ (IsPlugin request
            × Stranded job_id d
                (run_job lib key src dst job_id true mark_started request cursors stop plan s d))
  unfolding run_job
  job-Outcome cursors plan job_id mark_started h = elim (values_or_IsPlugin request) [
    | inl values ↦ inl (
        run_job-Reports lib key src dst job_id request cursors stop plan true mark_started s d h
          values)
    | inr (plugin, fails) ↦ inr (
      plugin,
      rw (stranded fails) (
        refl,
        refl,
        mark_running-IsRunning lib key src dst job_id request cursors stop plan mark_started s h,
      ),
    )
  ]
    where
      stranded :
          Raises request
          → audit_job_started job_id request true plan (mark_running job_id mark_started plan s)
            ≡ err no_value
      stranded fails = audit_job_started-Raises job_id request true plan _ fails

  created-Outcome :
      (cursors : List (String × String)) (plan : MigrationPlan) (resume : Option String)
      (o : Result Store)
      → create_job fresh_id request plan none "normal" s ≡ o
      → Outcome request resume s d
          (begin_created lib key src dst fresh_id request cursors stop plan s d o)
  unfolding begin_created new_job
  created-Outcome cursors plan resume (err e) h = inl (e, refl)
  created-Outcome cursors plan resume (ok t) h =
      let (row, new, found, _) = get_job-create_job fresh_id request plan none "normal" s t h in
      inr (
        inl (
          fresh_id,
          run_job-Reports lib key src dst fresh_id request cursors stop plan false true t d
              (ap is_some found) (new_job-HasValues row new),
        ))
    where
      new_job-HasValues :
          (row : JobRow)
          → new_job fresh_id request plan none "normal" s.clock ≡ ok row
          → HasValues request
      new_job-HasValues row new =
          let (a, source, rest) =
            bind_ok (source_protocol_value request.source.protocol) _ row new in
          let (b, destination, _) =
            bind_ok (destination_protocol_value request.destination.protocol) _ row rest in
          ((a, source), (b, destination))

  found-Outcome :
      (cursors : List (String × String)) (plan : MigrationPlan) (resume : Option String)
      (job_id : String) (o : Option JobRow)
      → truthy resume ≡ some job_id
      → get_job job_id s ≡ o
      → Outcome request resume s d
          (begin_found lib key src dst job_id request cursors stop plan s d o)
  unfolding begin_found build_report
  found-Outcome cursors plan resume job_id none asked h = inl (_, refl)
  found-Outcome cursors plan resume job_id (some row) asked h =
      elim (Bool-cases (is_status row.status completed)) [
        | inl e ↦ rw e (
            inr (
              inl (
                job_id,
                (
                  build_report row [],
                  row,
                  refl,
                  h,
                  IsFinal-completed row.status e,
                  refl,
                  refl,
                  refl,
                  refl,
                ),
              )))
        | inr e ↦
            rw e (elim (job-Outcome cursors plan job_id (is_none row.started_at) (ap is_some h)) [
              | inl reported ↦ inr (inl (job_id, reported))
              | inr (plugin, stranded) ↦ inr (inr (job_id, asked, plugin, stranded))
            ])
      ]

  begin-Outcome :
      (cursors : List (String × String)) (plan : MigrationPlan) (resume : Option String)
      → Outcome request resume s d
          (begin_job lib key src dst fresh_id resume request cursors stop plan s d)
  unfolding begin_job
  begin-Outcome cursors plan resume = go (truthy resume) refl
    where
      go :
          (o : Option String)
          → truthy resume ≡ o
          → Outcome request resume s d (elim o as (λ _. Result MigrationReport × Store × D) [
            | none ↦
                begin_created lib key src dst fresh_id request cursors stop plan s d
                  (create_job fresh_id request plan none "normal" s)
            | some job_id ↦
                begin_found lib key src dst job_id request cursors stop plan s d (get_job job_id s)
          ])
      go none asked =
          created-Outcome cursors plan resume (create_job fresh_id request plan none "normal" s)
            refl
      go (some job_id) asked =
          found-Outcome cursors plan resume job_id (get_job job_id s) asked refl

  planned-Outcome :
      (cursors : List (String × String)) (resume : Option String) (plan : Result MigrationPlan)
      → Outcome request resume s d
          (run_plan lib key src dst fresh_id resume stop request cursors s d plan)
  unfolding run_plan
  planned-Outcome cursors resume (err e) = inl (e, refl)
  planned-Outcome cursors resume (ok plan) = begin-Outcome cursors plan resume

  -- `run` always ends in one of three ways. An exception leaves it, and neither the store nor the
  -- destination has changed. Or it returns a report, and then the job's row is in the store, its status is
  -- completed, failed or cancelled, and the report has that status and the row's counters. Or a job is
  -- resumed with the protocol of a plugin: then an exception leaves it, the destination has not
  -- changed, and the job's row says running.
  pub run-Outcome :
      (resume : Option String)
      → Outcome request resume s d (run lib key src dst fresh_id resume stop request s d)
  unfolding run
  run-Outcome resume = elim (Result-cases (incremental_cursors key request s)) [
    | inl (e, h) ↦ rw (h, run) (inl (e, refl))
    | inr (cursors, h) ↦
        rw (h, run) (planned-Outcome cursors resume (build_plan lib.casefold request src cursors))
  ]

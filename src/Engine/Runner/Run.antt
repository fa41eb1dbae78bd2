-- ===== src/Engine/Runner/Run.antt =====
-- engine/runner.py: the loop over the collections, and `run` around it.
use groupware_migrator.Base.{
  ℕ, suc, String, Bool, true, false, not, ◌&&◌, Option, none, some, List, [], ◌∷◌, if◌then◌else◌,
  nat_eq, string_eq, is_none, length, last, Error, value_error, runtime_error, message, Result, ok,
  err, ◌>>=◌, at_least_one, bool, str, end, field, str_or_null, nat,
}
use groupware_migrator.Base.Text.{◌<>◌}
use groupware_migrator.Domain.Types.{
  running, completed, failed, cancelled, MigrationRequest, MigrationPlan, MigrationPlanItem,
  MigrationReport, dict_get,
}
use groupware_migrator.Domain.ToDict.{source_protocol_value, destination_protocol_value, sync_value}
use groupware_migrator.State.Schema.{JobRow, Store}
use groupware_migrator.State.Jobs.{
  is_status, get_job, create_job, append_audit_event, update_job_plan, set_job_status,
}
use groupware_migrator.State.Progress.{
  set_checkpoint, get_checkpoint, get_job_checkpoints, resolve_incremental_cursors,
  update_sync_cursors_from_job, truthy,
}
use groupware_migrator.Engine.Idempotency.{Library}
use groupware_migrator.Engine.Connectors.{SourceConnector, DestinationConnector}
use groupware_migrator.Engine.Planner.{is_incremental, build_plan}
use groupware_migrator.Engine.Runner.Items.{
  RunState, Tally, empty_tally, Flow, next, stopped, raised, event_prefix, build_report,
  collections, on_store, process_items,
}

-- `_resolve_incremental_cursors`
unfoldable pub incremental_cursors :
    (MigrationRequest → Result String) → MigrationRequest → Store → Result (List (String × String))
unfolding is_incremental resolve_incremental_cursors
incremental_cursors build_sync_key request s =
    if is_incremental request.options.sync_mode
    then resolve_incremental_cursors build_sync_key request request.options.incremental_base_job_id
        s
    else ok []

-- The checkpoint of the job, or else the incremental cursor, which then becomes its checkpoint.
unfoldable pub starting_checkpoint :
    String → List (String × String) → MigrationPlanItem → Store → Option String × Store
unfolding get_checkpoint dict_get set_checkpoint
starting_checkpoint job_id cursors p s = elim (get_checkpoint job_id p.source_collection s) [
  | some id ↦ (some id, s)
  | none ↦ elim (dict_get p.source_collection cursors) [
    | none ↦ (none, s)
    | some id ↦ (some id, set_checkpoint job_id p.source_collection id s)
  ]
]

unfoldable pub audit_started :
    String → MigrationRequest → MigrationPlanItem → Option String → Store → Store
unfolding append_audit_event event_prefix
audit_started job_id request p checkpoint =
    append_audit_event job_id (event_prefix request.workload <> "_started") "info"
      (collections p (field "resume_from" (str_or_null checkpoint) end))

unfoldable pub audit_completed :
    String → MigrationRequest → MigrationPlanItem → Tally → Store → Store
unfolding append_audit_event event_prefix
audit_completed job_id request p t =
    append_audit_event job_id (event_prefix request.workload <> "_completed") "info" (
      collections p (
        field "migrated" (nat t.migrated)
          (field "skipped" (nat t.skipped) (field "failed" (nat t.failed_items) end))))

-- `if value:`, where a value is an exception or none
abbrev flow : Option Error → Flow
flow none = next
flow (some e) = raised e

-- The protocol of a plugin has no `value`: then nothing is written.
unfoldable pub audit_job_started :
    String → MigrationRequest → Bool → MigrationPlan → Store → Result Store
unfolding append_audit_event source_protocol_value destination_protocol_value
audit_job_started job_id request resume plan s = do
  source_protocol ← source_protocol_value request.source.protocol
  destination_protocol ← destination_protocol_value request.destination.protocol
  ok (
      append_audit_event job_id "job_started" "info"
        (field "source_protocol" (str source_protocol) (
          field "destination_protocol" (str destination_protocol) (
            field "dry_run" (bool request.options.dry_run) (
              field "resume" (bool resume) (
                field "collections" (nat (length plan))
                  (field "mailboxes" (nat (length plan)) end))))))
        s)

-- `if job_row:`
unfoldable pub audit_job_completed : String → Option JobRow → Store → Store
unfolding append_audit_event
audit_job_completed job_id none s = s
audit_job_completed job_id (some row) s =
    append_audit_event job_id "job_completed" "info"
      (field "migrated_count" (nat row.migrated_count) (
        field "skipped_count" (nat row.skipped_count)
          (field "failed_count" (nat row.failed_count) end)))
      s

-- The branch of an incremental run: the cursors between jobs, and the event that says so.
unfoldable pub save_cursors :
    (MigrationRequest → Result String) → String → MigrationRequest → Store → Result Store
unfolding update_sync_cursors_from_job get_job_checkpoints append_audit_event
save_cursors build_sync_key job_id request s = do
  s' ← update_sync_cursors_from_job build_sync_key request job_id s
  let cursor_count = length (get_job_checkpoints job_id s')
  ok (
      append_audit_event job_id "sync_cursors_updated" "info"
        (field "cursor_collections" (nat cursor_count) (
          field "cursor_mailboxes" (nat cursor_count)
            (field "sync_mode" (str (sync_value request.options.sync_mode)) end)))
        s')

-- The last event, unless an exception has left the `try` block before it.
unfoldable pub after_cursors : String → Store → Result Store → Store × Option Error
unfolding get_job audit_job_completed
after_cursors job_id s₁ (err e) = (s₁, some e)
after_cursors job_id s₁ (ok s) = (audit_job_completed job_id (get_job job_id s) s, none)

-- What follows the loop when it ran to its end, inside the `try` block.
unfoldable pub complete_job :
    (MigrationRequest → Result String)
    → String
    → MigrationRequest
    → List String
    → Store
    → Store × Option Error
unfolding set_job_status is_incremental save_cursors after_cursors
complete_job build_sync_key job_id request error_messages s =
    let s₁ = set_job_status job_id completed (last error_messages) false true s in
    after_cursors job_id s₁ (
      if is_incremental request.options.sync_mode && not request.options.dry_run
      then save_cursors build_sync_key job_id request s₁
      else ok s₁)

-- The branch of the stop event.
unfoldable pub stop_job : String → Store → Store
unfolding set_job_status append_audit_event
stop_job job_id s =
    append_audit_event job_id "job_cancelled" "info" (field "reason" (str "Cancelled by user.") end)
      (set_job_status job_id cancelled none false true s)

-- `if not error_messages: error_messages.append(str(exc))`
abbrev pub or_message : Error → List String → List String
or_message exc [] = message exc ∷ []
or_message exc (t ∷ ts) = t ∷ ts

-- the row that says RUNNING
unfoldable pub mark_running : String → Bool → MigrationPlan → Store → Store
unfolding update_job_plan set_job_status
mark_running job_id mark_started plan s =
    set_job_status job_id running none mark_started false (update_job_plan job_id plan s)

module _ {D : Type 0} where
  -- `ensure_collection`, unless this is a dry run
  unfoldable pub ensure :
      DestinationConnector D → Bool → String → RunState D → RunState D × Option Error
  ensure dst true name r = (r, none)
  ensure dst false name r =
      let (result, d) = dst.ensure_collection name r.destination in
      elim result [
        | ok u ↦ (record r { destination = d }, none)
        | err e ↦ (record r { destination = d }, some e)
      ]

  -- the items, then the event that ends the collection
  unfoldable pub finish_collection :
      String
      → MigrationRequest
      → MigrationPlanItem
      → RunState D × Tally × Option Error
      → RunState D × Option Error
  unfolding audit_completed
  finish_collection job_id request p (r, t, none) =
      (on_store (audit_completed job_id request p t) r, none)
  finish_collection job_id request p (r, t, some e) = (r, some e)

  -- One collection, once it is known that no stop was asked for.
  unfoldable pub run_collection :
      Library
      → SourceConnector
      → DestinationConnector D
      → String
      → MigrationRequest
      → ℕ
      → List (String × String)
      → MigrationPlanItem
      → RunState D
      → RunState D × Option Error
  unfolding starting_checkpoint audit_started ensure process_items finish_collection
  run_collection lib src dst job_id request max_errors cursors p r =
      let (checkpoint, s) = starting_checkpoint job_id cursors p r.store in
      let s' = audit_started job_id request p checkpoint s in
      let (r', failure) =
        ensure dst request.options.dry_run p.destination_collection (record r { store = s' }) in
      let (items, ending) = src.iter_items p.source_collection checkpoint in
      let done =
        finish_collection job_id request p
          (process_items lib dst job_id request max_errors p items ending r' empty_tally) in
      elim failure [ none ↦ done | some e ↦ (r', some e) ]

  -- The loop goes on after a collection only if no exception left it.
  abbrev pub after_collection :
      RunState D × Option Error → (RunState D → RunState D × Flow) → RunState D × Flow
  after_collection (r, none) k = k r
  after_collection (r, some e) k = (r, raised e)

  -- The stop event is read before each collection: `stop k` is what the read before the k-th says.
  unfoldable pub run_collections :
      Library
      → SourceConnector
      → DestinationConnector D
      → String
      → MigrationRequest
      → ℕ
      → List (String × String)
      → (ℕ → Bool)
      → ℕ
      → MigrationPlan
      → RunState D
      → RunState D × Flow
  unfolding run_collection
  run_collections lib src dst job_id request max_errors cursors stop k [] r = (r, next)
  run_collections lib src dst job_id request max_errors cursors stop k (p ∷ ps) r =
      let rest =
        after_collection (run_collection lib src dst job_id request max_errors cursors p r)
          (run_collections lib src dst job_id request max_errors cursors stop (suc k) ps) in
      if stop k then (r, stopped) else rest

  -- The two `validate` calls, then the loop.
  unfoldable pub run_body :
      Library
      → SourceConnector
      → DestinationConnector D
      → String
      → MigrationRequest
      → ℕ
      → List (String × String)
      → (ℕ → Bool)
      → MigrationPlan
      → RunState D
      → RunState D × Flow
  unfolding run_collections
  run_body lib src dst job_id request max_errors cursors stop plan r = elim src.validate [
    | err e ↦ (r, raised e)
    | ok u ↦
        let (result, d) = dst.validate r.destination in
        elim result [
          | err e ↦ (record r { destination = d }, raised e)
          | ok v ↦
              run_collections lib src dst job_id request max_errors cursors stop 0 plan
                (record r { destination = d })
        ]
  ]

  -- The outer `except` block: `error_messages[-1]` is the text that it stores.
  unfoldable pub fail_job : String → ℕ → Error → RunState D → RunState D
  unfolding set_job_status append_audit_event message
  fail_job job_id max_errors exc r =
      let texts = or_message exc r.error_messages in
      let final = last texts in
      record r {
        store =
            append_audit_event job_id "job_failed" "error"
              (field "error" (str_or_null final) (field "max_errors" (nat max_errors) end))
              (set_job_status job_id failed final false true r.store);
        error_messages = texts;
      }

  -- `complete_job` is left in the regular way, or by an exception.
  unfoldable pub after_completion : String → ℕ → RunState D → Store × Option Error → RunState D
  unfolding fail_job
  after_completion job_id max_errors r (s, none) = record r { store = s }
  after_completion job_id max_errors r (s, some e) =
      fail_job job_id max_errors e (record r { store = s })

  -- `if not job_row: raise RuntimeError(...)`
  unfoldable pub after_stop : String → ℕ → Option JobRow → RunState D → RunState D
  unfolding fail_job
  after_stop job_id max_errors (some row) r = r
  after_stop job_id max_errors none r =
      fail_job job_id max_errors (runtime_error ("Unable to load job state for " <> job_id <> "."))
        r

  -- What the `try` statement leaves behind. The branch of the stop event reads the job row inside
  -- the `try` block, so a missing row takes it to the `except` block.
  unfoldable pub conclude :
      (MigrationRequest → Result String)
      → String
      → MigrationRequest
      → ℕ
      → RunState D × Flow
      → RunState D
  unfolding complete_job after_completion stop_job fail_job get_job after_stop
  conclude build_sync_key job_id request max_errors (r, next) =
      after_completion job_id max_errors r
        (complete_job build_sync_key job_id request r.error_messages r.store)
  conclude build_sync_key job_id request max_errors (r, stopped) =
      after_stop job_id max_errors (get_job job_id (stop_job job_id r.store))
        (on_store (stop_job job_id) r)
  conclude build_sync_key job_id request max_errors (r, raised e) = fail_job job_id max_errors e r

  -- the report of the row that the run leaves
  unfoldable pub report_row :
      String → Option JobRow → RunState D → Result MigrationReport × Store × D
  unfolding build_report
  report_row job_id none r = (
    err (runtime_error ("Unable to load job state for " <> job_id <> ".")),
    r.store,
    r.destination,
  )
  report_row job_id (some row) r = (ok (build_report row r.error_messages), r.store, r.destination)

  unfoldable pub report : String → RunState D → Result MigrationReport × Store × D
  unfolding get_job report_row
  report job_id r = report_row job_id (get_job job_id r.store) r

  -- From the event `job_started`, or the exception that `.value` raises, to the report. The exception
  -- comes before the `try` statement, so that the row goes on saying RUNNING.
  unfoldable pub run_started :
      Library
      → (MigrationRequest → Result String)
      → SourceConnector
      → DestinationConnector D
      → String
      → MigrationRequest
      → List (String × String)
      → (ℕ → Bool)
      → MigrationPlan
      → Store
      → D
      → Result Store
      → Result MigrationReport × Store × D
  unfolding run_body conclude report
  run_started lib build_sync_key src dst job_id request cursors stop plan s₁ d (err e) =
      (err e, s₁, d)
  run_started lib build_sync_key src dst job_id request cursors stop plan s₁ d (ok s₂) =
      let max_errors = at_least_one request.options.max_errors in
      let start : RunState D = record {
        store = s₂;
        destination = d;
        error_messages = [];
        run_failures = 0;
      } in
      report job_id (
        conclude build_sync_key job_id request max_errors
          (run_body lib src dst job_id request max_errors cursors stop plan start))

  -- From the row that says PENDING, or FAILED at a resumption, to the report.
  unfoldable pub run_job :
      Library
      → (MigrationRequest → Result String)
      → SourceConnector
      → DestinationConnector D
      → String
      → Bool
      → Bool
      → MigrationRequest
      → List (String × String)
      → (ℕ → Bool)
      → MigrationPlan
      → Store
      → D
      → Result MigrationReport × Store × D
  unfolding mark_running audit_job_started run_started
  run_job lib build_sync_key src dst job_id resume mark_started request cursors stop plan s d =
      let s₁ = mark_running job_id mark_started plan s in
      run_started lib build_sync_key src dst job_id request cursors stop plan s₁ d
        (audit_job_started job_id request resume plan s₁)

  -- the `else` branch: a new job
  unfoldable pub begin_created :
      Library
      → (MigrationRequest → Result String)
      → SourceConnector
      → DestinationConnector D
      → String
      → MigrationRequest
      → List (String × String)
      → (ℕ → Bool)
      → MigrationPlan
      → Store
      → D
      → Result Store
      → Result MigrationReport × Store × D
  unfolding run_job
  begin_created lib build_sync_key src dst job_id request cursors stop plan s d (err e) =
      (err e, s, d)
  begin_created lib build_sync_key src dst job_id request cursors stop plan s d (ok s') =
      run_job lib build_sync_key src dst job_id false true request cursors stop plan s' d

  -- the `if resume_job_id` branch, with the row that `get_job` finds
  unfoldable pub begin_found :
      Library
      → (MigrationRequest → Result String)
      → SourceConnector
      → DestinationConnector D
      → String
      → MigrationRequest
      → List (String × String)
      → (ℕ → Bool)
      → MigrationPlan
      → Store
      → D
      → Option JobRow
      → Result MigrationReport × Store × D
  unfolding run_job is_status build_report
  begin_found lib build_sync_key src dst job_id request cursors stop plan s d none =
      (err (value_error ("Job " <> job_id <> " does not exist.")), s, d)
  begin_found lib build_sync_key src dst job_id request cursors stop plan s d (some row) =
      let result =
        run_job lib build_sync_key src dst job_id true (is_none row.started_at) request cursors stop
          plan s d in
      if is_status row.status completed then (ok (build_report row []), s, d) else result

  -- What `run` does once it has a plan: it finds or creates the job.
  unfoldable pub begin_job :
      Library
      → (MigrationRequest → Result String)
      → SourceConnector
      → DestinationConnector D
      → String
      → Option String
      → MigrationRequest
      → List (String × String)
      → (ℕ → Bool)
      → MigrationPlan
      → Store
      → D
      → Result MigrationReport × Store × D
  unfolding begin_created begin_found create_job get_job
  begin_job lib build_sync_key src dst fresh_id resume_job_id request cursors stop plan s d =
      elim (truthy resume_job_id) [
        | none ↦
            begin_created lib build_sync_key src dst fresh_id request cursors stop plan s d
              (create_job fresh_id request plan none "normal" s)
        | some job_id ↦
            begin_found lib build_sync_key src dst job_id request cursors stop plan s d
              (get_job job_id s)
      ]

  -- the rest of `run`, after `build_plan`
  unfoldable pub run_plan :
      Library
      → (MigrationRequest → Result String)
      → SourceConnector
      → DestinationConnector D
      → String
      → Option String
      → (ℕ → Bool)
      → MigrationRequest
      → List (String × String)
      → Store
      → D
      → Result MigrationPlan
      → Result MigrationReport × Store × D
  unfolding begin_job
  run_plan lib build_sync_key src dst fresh_id resume_job_id stop request cursors s d (err e) =
      (err e, s, d)
  run_plan lib build_sync_key src dst fresh_id resume_job_id stop request cursors s d (ok plan) =
      begin_job lib build_sync_key src dst fresh_id resume_job_id request cursors stop plan s d

  -- `run`: `fresh_id` is the id that a new job gets, and `stop k` what the stop event says before the
  -- k-th collection.
  unfoldable pub run :
      Library
      → (MigrationRequest → Result String)
      → SourceConnector
      → DestinationConnector D
      → String
      → Option String
      → (ℕ → Bool)
      → MigrationRequest
      → Store
      → D
      → Result MigrationReport × Store × D
  unfolding run_plan incremental_cursors build_plan
  run lib build_sync_key src dst fresh_id resume_job_id stop request s d =
      elim (incremental_cursors build_sync_key request s) [
        | err e ↦ (err e, s, d)
        | ok cursors ↦
            run_plan lib build_sync_key src dst fresh_id resume_job_id stop request cursors s d
              (build_plan lib.casefold request src cursors)
      ]

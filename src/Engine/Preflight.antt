-- ===== src/Engine/Preflight.antt =====
-- engine/preflight.py: the checks of a request before it is run.
pub mod Agreement
use groupware_migrator.Base.{
  string_eq, ℕ, zero, ◌+◌, ◌-◌, String, Bool, true, false, not, ◌&&◌, Option, none, some, List, [],
  ◌∷◌, ◌++◌, if◌then◌else◌, ◌==◌, is_none, length, Error, message, Result, ok, err,
}
use groupware_migrator.Base.Text.{strip}
use groupware_migrator.Domain.Types.{
  WorkloadType, SyncMode, MigrationRequest, MigrationPlan, total_estimated_items,
}
use groupware_migrator.State.Schema.{Store}
use groupware_migrator.State.Progress.{resolve_incremental_cursors, truthy}
use groupware_migrator.Engine.Connectors.{SourceConnector, DestinationConnector}
use groupware_migrator.Engine.Planner.{is_incremental, build_plan}
use groupware_migrator.Engine.Runner.Items.{is_mail}

pub record Check : Type 0 where
  pub passed : Bool
  pub error : Option String

-- The counts of mailboxes and messages are those of collections and items under their old names.
pub record PlanCheck : Type 0 where
  pub passed : Bool
  pub collections : ℕ
  pub estimated_items : ℕ
  pub error : Option String

pub record Incremental : Type 0 where
  pub mode : SyncMode
  pub base_job_id : Option String
  pub resolved_cursors : ℕ
  pub resolution_source : String
  pub sync_key : Option String
  pub error : Option String

pub record Preflight : Type 0 where
  pub overall_ok : Bool
  pub workload : WorkloadType
  pub source : Check
  pub destination : Check
  pub plan : PlanCheck
  pub warnings : List String
  pub incremental : Incremental

-- the cursors, what is reported of them, and the warnings
pub record Cursors : Type 0 where
  pub cursors : List (String × String)
  pub report : Incremental
  pub warnings : List String

abbrev no_plan : String → PlanCheck
no_plan text = record { passed = false; collections = 0; estimated_items = 0; error = some text }

abbrev no_cursor_warning : String
no_cursor_warning =
    "Incremental mode has no existing cursors; first run may estimate from full collection counts."

abbrev warning_if_none : List (String × String) → List String
warning_if_none [] = no_cursor_warning ∷ []
warning_if_none (c ∷ cs) = []

abbrev resolution_of : Option String → List (String × String) → String
resolution_of (some id) cursors = "base_job"
resolution_of none [] = "none"
resolution_of none (c ∷ cs) = "sync_state"

-- `class_name` is `exc.__class__.__name__`, `build_sync_key` is that of the store, and `casefold` is
-- Python's.
module _ (class_name : Error → String) (build_sync_key : MigrationRequest → Result String)
    (casefold : String → String) where
  unfoldable pub exc_message : Error → String
  unfolding strip message
  exc_message exc = if strip (message exc) == "" then class_name exc else strip (message exc)

  abbrev incremental_report : MigrationRequest → String → Option String → Incremental
  incremental_report request resolution_source error = record {
    mode = request.options.sync_mode;
    base_job_id = request.options.incremental_base_job_id;
    resolved_cursors = 0;
    resolution_source = resolution_source;
    sync_key = none;
    error = error;
  }

  abbrev resolved_report : MigrationRequest → List (String × String) → Incremental
  resolved_report request cursors = record (incremental_report request "none" none) {
    resolved_cursors = length cursors;
    resolution_source = resolution_of (truthy request.options.incremental_base_job_id) cursors;
  }

  -- What the `try` block leaves: an exception of the cursors, or else one of the sync key.
  unfoldable pub resolved :
      MigrationRequest → Result (List (String × String)) → Result String → Cursors
  unfolding exc_message
  resolved request (err exc) made_key = record {
    cursors = [];
    report = incremental_report request "none" (some (exc_message exc));
    warnings = [];
  }
  resolved request (ok cursors) (err exc) = record {
    cursors = cursors;
    report = record (resolved_report request cursors) { error = some (exc_message exc) };
    warnings = [];
  }
  resolved request (ok cursors) (ok sync_key) = record {
    cursors = cursors;
    report = record (resolved_report request cursors) { sync_key = some sync_key };
    warnings = warning_if_none cursors;
  }

  unfoldable pub check_cursors : MigrationRequest → Option Store → Cursors
  unfolding is_incremental resolved
  check_cursors request state_store =
      if not (is_incremental request.options.sync_mode)
      then record {
        cursors = [];
        report = incremental_report request "disabled" none;
        warnings = [];
      }
      else elim state_store [
        | none ↦ record {
          cursors = [];
          report =
              incremental_report request "none"
                (some "Incremental mode requires state-backed cursor resolution.");
          warnings = [];
        }
        | some s ↦
            resolved request
              (resolve_incremental_cursors build_sync_key request
                request.options.incremental_base_job_id s)
              (build_sync_key request)
      ]

  unfoldable pub check_of : Result (Unit {0}) → Check
  unfolding exc_message
  check_of (ok done) = record { passed = true; error = none }
  check_of (err exc) = record { passed = false; error = some (exc_message exc) }

  unfoldable pub plan_of : Result MigrationPlan → PlanCheck
  unfolding exc_message total_estimated_items
  plan_of (ok plan) = record {
    passed = true;
    collections = length plan;
    estimated_items = total_estimated_items plan;
    error = none;
  }
  plan_of (err exc) = no_plan (exc_message exc)

  abbrev empty_warning : WorkloadType → Result MigrationPlan → List String
  empty_warning w (err exc) = []
  empty_warning w (ok (item ∷ items)) = []
  empty_warning w (ok []) =
      (if is_mail w then "Source returned zero mailboxes." else "Source returned zero collections.")
      ∷ []

  -- The plan is made only if the source is reached and the cursors are known.
  unfoldable pub check_plan :
      MigrationRequest → SourceConnector → Check → Cursors → PlanCheck × List String
  unfolding plan_of is_mail
  check_plan request source reached c =
      if reached.passed && is_none c.report.error
      then (
        plan_of (build_plan casefold request source c.cursors),
        c.warnings ++ empty_warning request.workload (build_plan casefold request source c.cursors),
      )
      else if is_none c.report.error
      then (no_plan "Skipped because source connection validation failed.", c.warnings)
      else (no_plan "Skipped because incremental cursor resolution failed.", c.warnings)

  unfoldable pub run_preflight :
      {D : Type 0}
      → MigrationRequest
      → SourceConnector
      → DestinationConnector D
      → Option Store
      → D
      → Preflight × D
  unfolding check_cursors check_of check_plan
  run_preflight request source_connector destination_connector state_store d =
      let c = check_cursors request state_store in
      let source = check_of source_connector.validate in
      let (answer, d') = destination_connector.validate d in
      let destination = check_of answer in
      let (plan, warnings) = check_plan request source_connector source c in
      (
        record {
          overall_ok = source.passed && destination.passed && plan.passed;
          workload = request.workload;
          source = source;
          destination = destination;
          plan = plan;
          warnings = warnings;
          incremental = c.report;
        },
        d',
      )

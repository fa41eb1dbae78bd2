-- ===== src/Engine/Preflight/Agreement.antt =====
-- engine/preflight.py and engine/runner.py: the checks pass where the run can be planned.
use groupware_migrator.Base.{
  String, ◌≡◌, refl, sym, ap, ◌∙◌, ◌≢◌, ◌↔◌, inl, inr, Bool, true, false, ◌&&◌, some, List, arith,
  Bool-cases, nat_eq, string_eq, is_none, Error, Result, ok, err, ok_same,
}
use groupware_migrator.Domain.Types.{MigrationRequest, MigrationPlan}
use groupware_migrator.State.Schema.{Store}
use groupware_migrator.State.Progress.{resolve_incremental_cursors}
use groupware_migrator.Engine.Connectors.{SourceConnector, DestinationConnector}
use groupware_migrator.Engine.Planner.{is_incremental, build_plan}
use groupware_migrator.Engine.Runner.Run.{incremental_cursors}
use groupware_migrator.Engine.Preflight.{
  Check, Cursors, resolved, check_cursors, check_of, plan_of, check_plan, run_preflight,
}

true-false : true ≢ false
true-false h = cc

left_of : (a b : Bool) → (a && b) ≡ true → a ≡ true
left_of a b h = ground arith

right_of : (a b : Bool) → (a && b) ≡ true → b ≡ true
right_of a b h = ground arith

all_true : {a b c : Bool} → a ≡ true → b ≡ true → c ≡ true → (a && b && c) ≡ true
all_true ea eb ec = rw (ea, eb, ec) refl

module _ (class_name : Error → String) (build_sync_key : MigrationRequest → Result String)
    (casefold : String → String) (request : MigrationRequest) (source : SourceConnector) where
  -- Both servers answer, and the calls that give the cursors and the plan of a run raise no exception,
  -- nor does, if it is incremental, the call that gives its sync key.
  pub record CanStart (answer : Result (Unit {0})) (s : Store) : Type 0 where
    pub source_answers : source.validate ≡ ok tt
    pub destination_answers : answer ≡ ok tt
    pub cursors : List (String × String)
    pub plan : MigrationPlan
    pub resolved_cursors : incremental_cursors build_sync_key request s ≡ ok cursors
    pub keyed :
        is_incremental request.options.sync_mode ≡ true
        → (sync_key : String) × (build_sync_key request ≡ ok sync_key)
    pub planned : build_plan casefold request source cursors ≡ ok plan

  resolved-needs :
      (made : Result (List (String × String))) (made_key : Result String)
      → let c = resolved class_name build_sync_key casefold request made made_key in
        is_none c.report.error ≡ true
        → (made ≡ ok c.cursors) × ((sync_key : String) × (made_key ≡ ok sync_key))
  unfolding resolved
  resolved-needs (err exc) made_key h = absurd cc
  resolved-needs (ok cursors) (err exc) h = absurd cc
  resolved-needs (ok cursors) (ok sync_key) h = (refl, (sync_key, refl))

  resolved-gives :
      (made : Result (List (String × String))) (made_key : Result String)
      (cursors : List (String × String)) (sync_key : String)
      → made ≡ ok cursors
      → made_key ≡ ok sync_key
      → let c = resolved class_name build_sync_key casefold request made made_key in
        (is_none c.report.error ≡ true) × (c.cursors ≡ cursors)
  unfolding resolved
  resolved-gives (err exc) made_key cursors sync_key h h' = absurd cc
  resolved-gives (ok found) (err exc) cursors sync_key h h' = absurd (cc (h'))
  resolved-gives (ok found) (ok key) cursors sync_key h h' = (refl, ok_same h)

  -- The report has no error only where the run resolves its cursors, which are the same, and the key
  -- can be made.
  check_cursors-needs :
      (s : Store)
      → let c = check_cursors class_name build_sync_key casefold request (some s) in
        is_none c.report.error ≡ true
        → (incremental_cursors build_sync_key request s ≡ ok c.cursors)
          × (is_incremental request.options.sync_mode ≡ true
              → (sync_key : String) × (build_sync_key request ≡ ok sync_key))
  unfolding check_cursors incremental_cursors
  check_cursors-needs s = elim (Bool-cases (is_incremental request.options.sync_mode)) [
    | inr e ↦ rw e (λ h. (refl, λ t. absurd cc))
    | inl e ↦ rw e (λ h.
        let (same, key) =
          resolved-needs
            (resolve_incremental_cursors build_sync_key request
              request.options.incremental_base_job_id s)
            (build_sync_key request) h in
        (same, λ t. key))
  ]

  check_cursors-gives :
      (s : Store) (cursors : List (String × String))
      → incremental_cursors build_sync_key request s ≡ ok cursors
      → (is_incremental request.options.sync_mode ≡ true
          → (sync_key : String) × (build_sync_key request ≡ ok sync_key))
      → let c = check_cursors class_name build_sync_key casefold request (some s) in
        (is_none c.report.error ≡ true) × (c.cursors ≡ cursors)
  unfolding check_cursors incremental_cursors
  check_cursors-gives s cursors = elim (Bool-cases (is_incremental request.options.sync_mode)) [
    | inr e ↦ rw e (λ h keyed. (refl, ok_same h))
    | inl e ↦ rw e (λ h keyed.
        let (sync_key, made) = keyed refl in
        resolved-gives
          (resolve_incremental_cursors build_sync_key request
            request.options.incremental_base_job_id s)
          (build_sync_key request) cursors sync_key h made)
  ]

  passed_ok :
      (answer : Result (Unit {0}))
      → (check_of class_name build_sync_key casefold answer).passed ≡ true
      → answer ≡ ok tt
  unfolding check_of
  passed_ok (ok done) h = refl
  passed_ok (err exc) h = absurd cc

  plan_passed :
      (made : Result MigrationPlan)
      → (plan_of class_name build_sync_key casefold made).passed ≡ true
      → (plan : MigrationPlan) × (made ≡ ok plan)
  unfolding plan_of
  plan_passed (ok plan) h = (plan, refl)
  plan_passed (err exc) h = absurd cc

  check_plan-needs :
      (reached : Check) (c : Cursors)
      → (check_plan class_name build_sync_key casefold request source reached c).0.passed ≡ true
      → (is_none c.report.error ≡ true)
        × ((plan : MigrationPlan) × (build_plan casefold request source c.cursors ≡ ok plan))
  unfolding check_plan
  check_plan-needs reached c h = elim (Bool-cases (reached.passed && is_none c.report.error)) [
    | inl e ↦ (
      right_of reached.passed (is_none c.report.error) e,
      plan_passed (build_plan casefold request source c.cursors) (sym (rw e refl) ∙ h),
    )
    | inr e ↦ elim (Bool-cases (is_none c.report.error)) [
      | inl e' ↦ absurd (true-false (sym h ∙ rw e (rw e' refl)))
      | inr e' ↦ absurd (true-false (sym h ∙ rw e (rw e' refl)))
    ]
  ]

  check_plan-passes :
      (reached : Check) (c : Cursors) (plan : MigrationPlan)
      → reached.passed ≡ true
      → is_none c.report.error ≡ true
      → build_plan casefold request source c.cursors ≡ ok plan
      → (check_plan class_name build_sync_key casefold request source reached c).0.passed ≡ true
  unfolding check_plan plan_of
  check_plan-passes reached c plan e e' made = rw e (rw e' (rw made refl))

  answered :
      (answer : Result (Unit {0}))
      → answer ≡ ok tt
      → (check_of class_name build_sync_key casefold answer).passed ≡ true
  unfolding check_of
  answered (ok done) h = refl
  answered (err exc) h = absurd cc

  module _ {D : Type 0} (destination : DestinationConnector D) where
    run_preflight-CanStart :
        (s : Store) (d : D)
        → (run_preflight class_name build_sync_key casefold request source destination
            (some s)
            d).0.overall_ok
          ≡ true
        → CanStart (destination.validate d).0 s
    unfolding run_preflight
    run_preflight-CanStart s d h =
        let c = check_cursors class_name build_sync_key casefold request (some s) in
        let reached = check_of class_name build_sync_key casefold source.validate in
        let found = check_of class_name build_sync_key casefold (destination.validate d).0 in
        let tested =
          (check_plan class_name build_sync_key casefold request source reached c).0.passed in
        let (known, found_plan) =
          check_plan-needs reached c (right_of (reached.passed && found.passed) tested h) in
        let both = left_of (reached.passed && found.passed) tested h in
        let (made, keyed) = check_cursors-needs s known in
        record {
          source_answers = passed_ok source.validate (left_of reached.passed found.passed both);
          destination_answers =
              passed_ok (destination.validate d).0 (right_of reached.passed found.passed both);
          cursors = c.cursors;
          plan = found_plan.0;
          resolved_cursors = made;
          keyed = keyed;
          planned = found_plan.1;
        }

    CanStart-run_preflight :
        (s : Store) (d : D)
        → CanStart (destination.validate d).0 s
        → (run_preflight class_name build_sync_key casefold request source destination
            (some s)
            d).0.overall_ok
          ≡ true
    unfolding run_preflight
    CanStart-run_preflight s d h =
        let c = check_cursors class_name build_sync_key casefold request (some s) in
        let reached = check_of class_name build_sync_key casefold source.validate in
        let (agrees, same) = check_cursors-gives s h.cursors h.resolved_cursors h.keyed in
        let first = answered source.validate h.source_answers in
        all_true first (answered (destination.validate d).0 h.destination_answers) (
          check_plan-passes reached c h.plan first agrees
            (ap (build_plan casefold request source) same ∙ h.planned))

    -- With a store, the checks pass if and only if both servers answer, the calls with which a run of
    -- the same request gets its cursors and its plan raise no exception, and, if the run is incremental,
    -- neither does the one that gives its sync key.
    pub run_preflight-overall_ok :
        (s : Store) (d : D)
        → (run_preflight class_name build_sync_key casefold request source destination
              (some s)
              d).0.overall_ok
            ≡ true
          ↔ CanStart (destination.validate d).0 s
    run_preflight-overall_ok s d = (run_preflight-CanStart s d, CanStart-run_preflight s d)

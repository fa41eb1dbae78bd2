-- ===== src/Engine/Runner/Threshold.antt =====
-- engine/runner.py: the error threshold, and what a dry run does to the destination.
use mathlib.Core.Path.{subst}
use groupware_migrator.Base.{
  ℕ, suc, ◌+◌, ◌≤◌, ◌<◌, String, ◌≡◌, refl, sym, ◌∙◌, inl, inr, Bool, true, false, Option, none,
  some, List, [], ◌∷◌, arith, leb, if◌then◌else◌, Bool-cases, nat_eq, string_eq, length,
  length-append, Error, Result, ok, err,
}
use groupware_migrator.Domain.Types.{MigrationRequest, MigrationPlan, MigrationPlanItem, SourceItem}
use groupware_migrator.State.Schema.{Store}
use groupware_migrator.Engine.Idempotency.{Library}
use groupware_migrator.Engine.Connectors.{SourceConnector, DestinationConnector}
use groupware_migrator.Engine.Runner.Items.{
  RunState, Tally, empty_tally, Flow, next, raised, skip_item, fail_item, process_item,
  process_items, continue,
}
use groupware_migrator.Engine.Runner.Run.{
  starting_checkpoint, audit_started, ensure, finish_collection, run_collection, after_collection,
  run_collections, run_body,
}
use groupware_migrator.Engine.Runner.ItemCases.{
  Handled, skipped, previewed, migrated, failed, process_item-Handled,
}

-- `run_failures` counts the messages, and is below the threshold as long as no exception ends the run.
pub record IsBelow {D : Type 0} (max_errors : ℕ) (r : RunState D) (stop : Option Error)
    : Type 0 where
  pub one_each : length r.error_messages ≡ r.run_failures
  pub at_most : r.run_failures ≤ max_errors
  pub below : stop ≡ none → r.run_failures < max_errors

not_reached : (a b : ℕ) (e : Error) → (if leb a b then some e else none) ≡ none → b < a
not_reached a b e h = ground (arith, h)

abbrev Before : {D : Type 0} → ℕ → RunState D → Type 0
Before max_errors r = IsBelow max_errors r none

module _ {D : Type 0} (lib : Library) (dst : DestinationConnector D) (job_id : String)
    (request : MigrationRequest) (max_errors : ℕ) (p : MigrationPlanItem) where
  abbrev Below : RunState D × Tally × Option Error → Type 0
  Below o = IsBelow max_errors o.0 o.2

  fail_item-IsBelow :
      (item : SourceItem) (exc : Error) (r : RunState D)
      → Before max_errors r
      → IsBelow max_errors
          (fail_item job_id max_errors p item exc r).0
          (fail_item job_id max_errors p item exc r).1
  unfolding fail_item
  fail_item-IsBelow item exc r h = record {
    one_each = length-append r.error_messages _ ∙ omega (arith, h.one_each);
    at_most = omega (arith, h.below refl);
    below = λ e. not_reached max_errors (r.run_failures + 1) _ e;
  }

  Handled-IsBelow :
      (item : SourceItem) (r : RunState D) (t : Tally) {o : RunState D × Tally × Option Error}
      → Handled lib dst job_id request max_errors p item r t o
      → Before max_errors r
      → Below o
  unfolding skip_item
  Handled-IsBelow item r t (skipped known e) h =
      subst Below (sym e) (record { one_each = h.one_each; at_most = h.at_most; below = h.below })
  Handled-IsBelow item r t (previewed new dry e) h =
      subst Below (sym e) (record { one_each = h.one_each; at_most = h.at_most; below = h.below })
  Handled-IsBelow item r t (migrated id d new live u e) h =
      subst Below (sym e) (record { one_each = h.one_each; at_most = h.at_most; below = h.below })
  Handled-IsBelow item r t (failed exc d new live u e) h = subst Below (sym e) (
      fail_item-IsBelow item exc (record r { destination = d })
        (record { one_each = h.one_each; at_most = h.at_most; below = h.below }))

  process_items-IsBelow :
      (items : List SourceItem) (ending : Option Error) (r : RunState D) (t : Tally)
      → Before max_errors r
      → Below (process_items lib dst job_id request max_errors p items ending r t)
  unfolding process_items
  process_items-IsBelow [] ending r t h = record {
    one_each = h.one_each;
    at_most = h.at_most;
    below = λ e. h.below refl;
  }
  process_items-IsBelow (item ∷ items) ending r t h =
      go (process_item lib dst job_id request max_errors p item r t)
        (Handled-IsBelow item r t
          (process_item-Handled lib dst job_id request max_errors p item r t) h)
        (process_items-IsBelow items ending)
    where
      go :
          (o : RunState D × Tally × Option Error)
          → Below o
          → ((r : RunState D) (t : Tally)
              → Before max_errors r
              → Below (process_items lib dst job_id request max_errors p items ending r t))
          → Below (continue o (process_items lib dst job_id request max_errors p items ending))
      go (r', t', none) h ih = ih r' t' h
      go (r', t', some exc) h ih = h

  finish_collection-IsBelow :
      (o : RunState D × Tally × Option Error)
      → Below o
      → IsBelow max_errors
          (finish_collection job_id request p o).0
          (finish_collection job_id request p o).1
  unfolding finish_collection
  finish_collection-IsBelow (r, t, none) h = record {
    one_each = h.one_each;
    at_most = h.at_most;
    below = h.below;
  }
  finish_collection-IsBelow (r, t, some e) h = h

module _ {D : Type 0} (dst : DestinationConnector D) (max_errors : ℕ) where
  ensure-IsBelow :
      (dry_run : Bool) (name : String) (r : RunState D)
      → Before max_errors r
      → Before max_errors (ensure dst dry_run name r).0
  unfolding ensure
  ensure-IsBelow true name r h = h
  ensure-IsBelow false name r h = go (dst.ensure_collection name r.destination)
    where
      go :
          (o : Result (Unit {0}) × D)
          → Before max_errors
              (let (result, d) = o in
                elim result as (λ _. RunState D × Option Error) [
                  | ok u ↦ (record r { destination = d }, none)
                  | err e ↦ (record r { destination = d }, some e)
                ]).0
      go (ok u, d) = record { one_each = h.one_each; at_most = h.at_most; below = h.below }
      go (err e, d) = record { one_each = h.one_each; at_most = h.at_most; below = h.below }

module _ {D : Type 0} (lib : Library) (src : SourceConnector) (dst : DestinationConnector D)
    (job_id : String) (request : MigrationRequest) (max_errors : ℕ)
    (cursors : List (String × String)) where
  run_collection-IsBelow :
      (p : MigrationPlanItem) (r : RunState D)
      → Before max_errors r
      → let (r', failure) = run_collection lib src dst job_id request max_errors cursors p r in
        IsBelow max_errors r' failure
  unfolding run_collection
  run_collection-IsBelow p r h =
      let (checkpoint, s) = starting_checkpoint job_id cursors p r.store in
      let started : RunState D = record r { store = audit_started job_id request p checkpoint s } in
      let ensured =
        ensure-IsBelow dst max_errors request.options.dry_run p.destination_collection started
          (record { one_each = h.one_each; at_most = h.at_most; below = h.below }) in
      let (r', failure) = ensure dst request.options.dry_run p.destination_collection started in
      let (items, ending) = src.iter_items p.source_collection checkpoint in
      let o = process_items lib dst job_id request max_errors p items ending r' empty_tally in
      go r' failure o ensured (
        finish_collection-IsBelow lib dst job_id request max_errors p o (
          process_items-IsBelow lib dst job_id request max_errors p items ending r' empty_tally
            ensured))
    where
      go :
          (r' : RunState D) (failure : Option Error) (o : RunState D × Tally × Option Error)
          → Before max_errors r'
          → IsBelow max_errors
              (finish_collection job_id request p o).0
              (finish_collection job_id request p o).1
          → let x = elim failure as (λ _. RunState D × Option Error) [
            | none ↦ finish_collection job_id request p o
            | some e ↦ (r', some e)
          ] in
            IsBelow max_errors x.0 x.1
      go r' none o hr ho = ho
      go r' (some e) o hr ho = record {
        one_each = hr.one_each;
        at_most = hr.at_most;
        below = λ e. cc;
      }

  -- What the loop over the collections leaves.
  pub record EndsBelow (r : RunState D) (flow : Flow) : Type 0 where
    pub one_each : length r.error_messages ≡ r.run_failures
    pub at_most : r.run_failures ≤ max_errors
    pub completes : flow ≡ next → r.run_failures < max_errors

  run_collections-EndsBelow :
      (stop : ℕ → Bool) (n : ℕ) (plan : MigrationPlan) (r : RunState D)
      → Before max_errors r
      → let (r', flow) =
          run_collections lib src dst job_id request max_errors cursors stop n plan r in
        EndsBelow r' flow
  unfolding run_collections
  run_collections-EndsBelow stop n [] r h = record {
    one_each = h.one_each;
    at_most = h.at_most;
    completes = λ e. h.below refl;
  }
  run_collections-EndsBelow stop n (p ∷ ps) r h = elim (Bool-cases (stop n)) [
    | inl e ↦ rw e (record { one_each = h.one_each; at_most = h.at_most; completes = λ e. cc })
    | inr e ↦ rw e (
        go (run_collection lib src dst job_id request max_errors cursors p r)
          (run_collection-IsBelow p r h) (run_collections-EndsBelow stop (suc n) ps))
  ]
    where
      go :
          (o : RunState D × Option Error)
          → IsBelow max_errors o.0 o.1
          → ((r : RunState D)
              → Before max_errors r
              → let (r', flow) =
                  run_collections lib src dst job_id request max_errors cursors stop (suc n) ps r in
                EndsBelow r' flow)
          → let (r', flow) =
              after_collection o
                (run_collections lib src dst job_id request max_errors cursors stop (suc n) ps) in
            EndsBelow r' flow
      go (r', none) h ih = ih r' h
      go (r', some e) h ih = record {
        one_each = h.one_each;
        at_most = h.at_most;
        completes = λ e. cc;
      }

  -- A run that starts with no failure and a threshold of at least one has one message for each item
  -- that failed and at most as many as the threshold. If its loop over the collections ran to the end,
  -- so that the job is completed, there were fewer failures than the threshold.
  pub run_body-EndsBelow :
      (stop : ℕ → Bool) (plan : MigrationPlan) (s : Store) (d : D)
      → 0 < max_errors
      → let (r', flow) =
          run_body lib src dst job_id request max_errors cursors stop plan
            (record { store = s; destination = d; error_messages = []; run_failures = 0 }) in
        EndsBelow r' flow
  unfolding run_body
  run_body-EndsBelow stop plan s d positive = go src.validate (dst.validate d)
    where
      go :
          (a : Result (Unit {0})) (b : Result (Unit {0}) × D)
          → let r : RunState D = record {
            store = s;
            destination = d;
            error_messages = [];
            run_failures = 0;
          } in
            let x = elim a as (λ _. RunState D × Flow) [
              | err e ↦ (r, raised e)
              | ok u ↦
                  let (result, d) = b in
                  elim result as (λ _. RunState D × Flow) [
                    | err e ↦ (record r { destination = d }, raised e)
                    | ok v ↦
                        run_collections lib src dst job_id request max_errors cursors stop 0 plan
                          (record r { destination = d })
                  ]
            ] in
            EndsBelow x.0 x.1
      go (err e) b = record { one_each = refl; at_most = omega arith; completes = λ e. cc }
      go (ok u) (err e, d) = record { one_each = refl; at_most = omega arith; completes = λ e. cc }
      go (ok u) (ok v, d) =
          run_collections-EndsBelow stop 0 plan _
            (record { one_each = refl; at_most = omega arith; below = λ e. positive })

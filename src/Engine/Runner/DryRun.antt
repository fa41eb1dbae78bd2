-- ===== src/Engine/Runner/DryRun.antt =====
-- engine/runner.py: a dry run writes nothing to the destination and records no fingerprint.
use mathlib.Core.Path.{subst}
use groupware_migrator.Base.{
  ℕ, suc, String, ◌≡◌, refl, sym, ◌∙◌, inl, inr, Bool, true, Option, none, some, List, [], ◌∷◌,
  arith, Bool-cases, nat_eq, string_eq, Error, ◌⊎◌, Result, ok, err,
}
use groupware_migrator.Domain.Types.{MigrationRequest, MigrationPlan, MigrationPlanItem, SourceItem}
use groupware_migrator.State.Schema.{Store}
use groupware_migrator.State.Jobs.{increment_counters, append_audit_event}
use groupware_migrator.State.Progress.{set_checkpoint}
use groupware_migrator.Engine.Idempotency.{Library}
use groupware_migrator.Engine.Connectors.{SourceConnector, DestinationConnector}
use groupware_migrator.Engine.Runner.Items.{
  RunState, Flow, raised, Tally, empty_tally, skip_item, finish_item, process_item, process_items,
  continue,
}
use groupware_migrator.Engine.Runner.Run.{
  starting_checkpoint, audit_started, audit_completed, ensure, finish_collection, run_collection,
  after_collection, run_collections, run_body,
}
use groupware_migrator.Engine.Runner.ItemCases.{
  Handled, skipped, previewed, migrated, failed, process_item-Handled,
}

-- The destination, the recorded fingerprints and the failures of the run are the same.
pub record Untouched {D : Type 0} (r r' : RunState D) : Type 0 where
  pub destination : r'.destination ≡ r.destination
  pub messages : r'.store.messages ≡ r.store.messages
  pub run_failures : r'.run_failures ≡ r.run_failures

Untouched-refl : {D : Type 0} (r : RunState D) → Untouched r r
Untouched-refl r = record { destination = refl; messages = refl; run_failures = refl }

Untouched-trans : {D : Type 0} {a b c : RunState D} → Untouched a b → Untouched b c → Untouched a c
Untouched-trans h k = record {
  destination = k.destination ∙ h.destination;
  messages = k.messages ∙ h.messages;
  run_failures = k.run_failures ∙ h.run_failures;
}

module _ {D : Type 0} (lib : Library) (dst : DestinationConnector D) (job_id : String)
    (request : MigrationRequest) (max_errors : ℕ) (dry : request.options.dry_run ≡ true) where
  Handled-Untouched :
      (p : MigrationPlanItem) (item : SourceItem) (r : RunState D) (t : Tally)
      {o : RunState D × Tally × Option Error}
      → Handled lib dst job_id request max_errors p item r t o
      → Untouched r o.0
  unfolding skip_item finish_item increment_counters
  Handled-Untouched p item r t (skipped known e) =
      subst (λ (o : RunState D × Tally × Option Error). Untouched r o.0) (sym e)
        (record { destination = refl; messages = refl; run_failures = refl })
  Handled-Untouched p item r t (previewed new dry' e) =
      subst (λ (o : RunState D × Tally × Option Error). Untouched r o.0) (sym e)
        (record { destination = refl; messages = refl; run_failures = refl })
  Handled-Untouched p item r t (migrated id d new live u e) = absurd (cc (dry, live))
  Handled-Untouched p item r t (failed exc d new live u e) = absurd (cc (dry, live))

  process_items-Untouched :
      (p : MigrationPlanItem) (items : List SourceItem) (ending : Option Error) (r : RunState D)
      (t : Tally)
      → Untouched r (process_items lib dst job_id request max_errors p items ending r t).0
  unfolding process_items
  process_items-Untouched p [] ending r t = Untouched-refl r
  process_items-Untouched p (item ∷ items) ending r t =
      go (process_item lib dst job_id request max_errors p item r t)
        (Handled-Untouched p item r t
          (process_item-Handled lib dst job_id request max_errors p item r t))
        (process_items-Untouched p items ending)
    where
      go :
          (o : RunState D × Tally × Option Error)
          → Untouched r o.0
          → ((r : RunState D) (t : Tally)
              → Untouched r (process_items lib dst job_id request max_errors p items ending r t).0)
          → Untouched r
              (continue o (process_items lib dst job_id request max_errors p items ending)).0
      go (r', t', none) h ih = Untouched-trans h (ih r' t')
      go (r', t', some e) h ih = h

  finish_collection-Untouched :
      (p : MigrationPlanItem) (o : RunState D × Tally × Option Error)
      → Untouched o.0 (finish_collection job_id request p o).0
  unfolding finish_collection audit_completed append_audit_event
  finish_collection-Untouched p (r, t, none) = record {
    destination = refl;
    messages = refl;
    run_failures = refl;
  }
  finish_collection-Untouched p (r, t, some e) = Untouched-refl r

ensure-true :
    {D : Type 0} (dst : DestinationConnector D) (name : String) (r : RunState D)
    → ensure dst true name r ≡ (r, none)
unfolding ensure
ensure-true dst name r = refl

module _ (job_id : String) where
  starting_checkpoint-messages :
      (cursors : List (String × String)) (p : MigrationPlanItem) (s : Store)
      → (starting_checkpoint job_id cursors p s).1.messages ≡ s.messages
  unfolding starting_checkpoint set_checkpoint
  starting_checkpoint-messages cursors p s = ground arith

  audit_started-messages :
      (request : MigrationRequest) (p : MigrationPlanItem) (c : Option String) (s : Store)
      → (audit_started job_id request p c s).messages ≡ s.messages
  unfolding audit_started append_audit_event
  audit_started-messages request p c s = refl

module _ {D : Type 0} (lib : Library) (src : SourceConnector) (dst : DestinationConnector D)
    (job_id : String) (request : MigrationRequest) (max_errors : ℕ)
    (cursors : List (String × String)) (dry : request.options.dry_run ≡ true) where
  ensure-Untouched :
      (name : String) (r : RunState D) → Untouched r (ensure dst request.options.dry_run name r).0
  ensure-Untouched name r = simp dry (rw (ensure-true dst name r) (Untouched-refl r))

  run_collection-Untouched :
      (p : MigrationPlanItem) (r : RunState D)
      → Untouched r (run_collection lib src dst job_id request max_errors cursors p r).0
  unfolding run_collection
  run_collection-Untouched p r =
      let (checkpoint, s) = starting_checkpoint job_id cursors p r.store in
      let started : RunState D = record r { store = audit_started job_id request p checkpoint s } in
      let ensured = ensure-Untouched p.destination_collection started in
      let (r', failure) = ensure dst request.options.dry_run p.destination_collection started in
      let (items, ending) = src.iter_items p.source_collection checkpoint in
      let o = process_items lib dst job_id request max_errors p items ending r' empty_tally in
      let begun : Untouched r started = record {
        destination = refl;
        messages =
            audit_started-messages job_id request p checkpoint s
            ∙ starting_checkpoint-messages job_id cursors p r.store;
        run_failures = refl;
      } in
      Untouched-trans begun (
        Untouched-trans ensured (
          go r' failure o (
            Untouched-trans
              (process_items-Untouched lib dst job_id request max_errors dry p items ending r'
                empty_tally)
              (finish_collection-Untouched lib dst job_id request max_errors dry p o))))
    where
      go :
          (r' : RunState D) (failure : Option Error) (o : RunState D × Tally × Option Error)
          → Untouched r' (finish_collection job_id request p o).0
          → Untouched r'
              (elim failure as (λ _. RunState D × Option Error) [
                | none ↦ finish_collection job_id request p o
                | some e ↦ (r', some e)
              ]).0
      go r' none o h = h
      go r' (some e) o h = Untouched-refl r'

  -- The loop over the collections leaves the destination and the recorded fingerprints
  -- as they were, and counts no failure, whatever the source yields and wherever the loop ends.
  run_collections-Untouched :
      (stop : ℕ → Bool) (n : ℕ) (plan : MigrationPlan) (r : RunState D)
      → Untouched r (run_collections lib src dst job_id request max_errors cursors stop n plan r).0
  unfolding run_collections
  run_collections-Untouched stop n [] r = Untouched-refl r
  run_collections-Untouched stop n (p ∷ ps) r = elim (Bool-cases (stop n)) [
    | inl e ↦ rw e (Untouched-refl r)
    | inr e ↦ rw e (
        go (run_collection lib src dst job_id request max_errors cursors p r)
          (run_collection-Untouched p r) (run_collections-Untouched stop (suc n) ps))
  ]
    where
      go :
          (o : RunState D × Option Error)
          → Untouched r o.0
          → ((r : RunState D)
              → Untouched r
                  (run_collections lib src dst job_id request max_errors cursors stop
                    (suc n)
                    ps
                    r).0)
          → Untouched r
              (after_collection o
                (run_collections lib src dst job_id request max_errors cursors stop (suc n) ps)).0
      go (r', none) h ih = Untouched-trans h (ih r')
      go (r', some e) h ih = h

  -- In a dry run the `try` block records no fingerprint and counts no failure, and the only call that it
  -- makes of the destination is `validate`: the destination is as it was, or as `validate` leaves it.
  pub run_body-Untouched :
      (stop : ℕ → Bool) (plan : MigrationPlan) (r : RunState D)
      → let r' = (run_body lib src dst job_id request max_errors cursors stop plan r).0 in
        (r'.store.messages ≡ r.store.messages)
        × (r'.run_failures ≡ r.run_failures)
        × ((r'.destination ≡ r.destination) ⊎ (r'.destination ≡ (dst.validate r.destination).1))
  unfolding run_body
  run_body-Untouched stop plan r = go src.validate (dst.validate r.destination)
    where
      go :
          (a : Result (Unit {0})) (b : Result (Unit {0}) × D)
          → let r' =
              (elim a as (λ _. RunState D × Flow) [
                | err e ↦ (r, raised e)
                | ok u ↦
                    let (result, d) = b in
                    elim result as (λ _. RunState D × Flow) [
                      | err e ↦ (record r { destination = d }, raised e)
                      | ok v ↦
                          run_collections lib src dst job_id request max_errors cursors stop 0 plan
                            (record r { destination = d })
                    ]
              ]).0 in
            (r'.store.messages ≡ r.store.messages)
            × (r'.run_failures ≡ r.run_failures)
            × ((r'.destination ≡ r.destination) ⊎ (r'.destination ≡ b.1))
      go (err e) b = (refl, refl, inl refl)
      go (ok u) (err e, d) = (refl, refl, inr refl)
      go (ok u) (ok v, d) =
          let h = run_collections-Untouched stop 0 plan (record r { destination = d }) in
          (h.messages, h.run_failures, inr h.destination)

-- ===== src/Engine/Runner/ItemCases.antt =====
-- engine/runner.py: the four ways in which one item is handled.
use groupware_migrator.Base.{
  ℕ, String, ◌≡◌, refl, inl, inr, true, false, Option, none, Bool-cases, nat_eq, string_eq, Error,
  Result, ok, err,
}
use groupware_migrator.Domain.Types.{MigrationRequest, MigrationPlanItem, SourceItem}
use groupware_migrator.State.Schema.{Store}
use groupware_migrator.State.Jobs.{increment_counters}
use groupware_migrator.State.Progress.{has_fingerprint, record_message}
use groupware_migrator.Engine.Idempotency.{Library}
use groupware_migrator.Engine.Connectors.{DestinationConnector}
use groupware_migrator.Engine.Runner.Items.{
  RunState, Tally, skip_item, finish_item, fail_item, after_upsert, fingerprint_of, process_item,
  add_migrated, add_skipped, add_failed,
}

-- The store after an item that the destination took.
abbrev pub migrated_store :
    String → MigrationPlanItem → SourceItem → String → Option String → Store → Store
migrated_store job_id p item fp id s = finish_item job_id false p item id (
    increment_counters job_id 1 0 0
      (record_message job_id fp p.source_collection item.source_id p.destination_collection id s).0)

abbrev pub previewed_store : String → MigrationPlanItem → SourceItem → Store → Store
previewed_store job_id p item s =
    finish_item job_id true p item none (increment_counters job_id 1 0 0 s)

module _ {D : Type 0} (lib : Library) (dst : DestinationConnector D) (job_id : String)
    (request : MigrationRequest) (max_errors : ℕ) (p : MigrationPlanItem) where
  -- The outcome of an item, with what the run state, the tally and the exception become.
  pub data Handled (item : SourceItem) (r : RunState D) (t : Tally)
      (o : RunState D × Tally × Option Error) : Type 0 where
    skipped :
        has_fingerprint job_id (fingerprint_of lib request.workload item) r.store ≡ true
        → o ≡ (skip_item job_id p item r, add_skipped t, none)
        → Handled item r t o
    previewed :
        has_fingerprint job_id (fingerprint_of lib request.workload item) r.store ≡ false
        → request.options.dry_run ≡ true
        → o ≡ (record r { store = previewed_store job_id p item r.store }, add_migrated t, none)
        → Handled item r t o
    migrated :
        (id : Option String) (d : D)
        → has_fingerprint job_id (fingerprint_of lib request.workload item) r.store ≡ false
        → request.options.dry_run ≡ false
        → dst.upsert_item p.destination_collection item.source_id item.raw_payload item.metadata
            r.destination
          ≡ (ok id, d)
        → o ≡ (
          record r {
            store =
                migrated_store job_id p item (fingerprint_of lib request.workload item) id r.store;
            destination = d;
          },
          add_migrated t,
          none,
        )
        → Handled item r t o
    failed :
        (e : Error) (d : D)
        → has_fingerprint job_id (fingerprint_of lib request.workload item) r.store ≡ false
        → request.options.dry_run ≡ false
        → dst.upsert_item p.destination_collection item.source_id item.raw_payload item.metadata
            r.destination
          ≡ (err e, d)
        → o ≡ (
            let (r', stop) = fail_item job_id max_errors p item e (record r { destination = d }) in
            (r', add_failed t, stop))
        → Handled item r t o

  after_upsert-Handled :
      (item : SourceItem) (r : RunState D) (t : Tally) (result : Result (Option String)) (d : D)
      → has_fingerprint job_id (fingerprint_of lib request.workload item) r.store ≡ false
      → request.options.dry_run ≡ false
      → dst.upsert_item p.destination_collection item.source_id item.raw_payload item.metadata
          r.destination
        ≡ (result, d)
      → Handled item r t (
          after_upsert job_id max_errors p item
            (fingerprint_of lib request.workload item)
            t
            result
            (record r { destination = d }))
  unfolding after_upsert has_fingerprint
  after_upsert-Handled item r t (ok id) d new live e = migrated id d new live e (rw new refl)
  after_upsert-Handled item r t (err exc) d new live e = failed exc d new live e refl

  -- Every item is handled in one of the four ways.
  pub process_item-Handled :
      (item : SourceItem) (r : RunState D) (t : Tally)
      → Handled item r t (process_item lib dst job_id request max_errors p item r t)
  unfolding process_item
  process_item-Handled item r t =
      let (result, d) =
        dst.upsert_item p.destination_collection item.source_id item.raw_payload item.metadata
          r.destination in
      elim (Bool-cases
        (has_fingerprint job_id (fingerprint_of lib request.workload item) r.store)) [
          | inl known ↦ skipped known (rw known refl)
          | inr new ↦ elim (Bool-cases request.options.dry_run) [
            | inl dry ↦ previewed new dry (rw new (rw dry refl))
            | inr live ↦ rw new (simp live (after_upsert-Handled item r t result d new live refl))
          ]
        ]

-- ===== src/Engine/Runner/Items.antt =====
-- engine/runner.py: the state of a run, and what it does with one item.
use groupware_migrator.Base.{
  ℕ, ◌+◌, String, string_eq, Bool, true, false, Option, none, some, List, [], ◌∷◌, ◌++◌, leb,
  Result, ok, err, Error, message, runtime_error, bool, str, Fields, end, field, str_or_null,
  if◌then◌else◌,
}
use groupware_migrator.Base.Text.{◌<>◌, decimal}
use groupware_migrator.Domain.Types.{
  WorkloadType, mail, MigrationRequest, MigrationPlanItem, MigrationReport, SourceItem, dict_get,
}
use groupware_migrator.State.Schema.{Store, JobRow}
use groupware_migrator.State.Jobs.{append_audit_event, increment_counters}
use groupware_migrator.State.Progress.{has_fingerprint, record_message, set_checkpoint, truthy}
use groupware_migrator.Engine.Idempotency.{
  Library, build_message_fingerprint, build_item_fingerprint,
}
use groupware_migrator.Engine.Connectors.{DestinationConnector}

-- The variables of `run` that change: the store, the destination, `error_messages` and
-- `run_failures`.
pub record RunState (D : Type 0) : Type 0 where
  pub store : Store
  pub destination : D
  pub error_messages : List String
  pub run_failures : ℕ

-- `collection_migrated`, `collection_skipped` and `collection_failed`
pub record Tally : Type 0 where
  pub migrated : ℕ
  pub skipped : ℕ
  pub failed_items : ℕ

abbrev pub empty_tally : Tally
empty_tally = record { migrated = 0; skipped = 0; failed_items = 0 }

-- How the loop over the collections ends: it goes on, a stop was asked for, or an exception left it.
pub data Flow : Type 0 where
  next stopped : Flow
  raised : Error → Flow

unfoldable pub is_mail : WorkloadType → Bool
is_mail mail = true
is_mail _ = false

unfoldable pub event_prefix : WorkloadType → String
unfolding is_mail
event_prefix w = if is_mail w then "mailbox" else "collection"

-- `item_metadata.get("message_id") or item.item_key`
abbrev message_id_of : SourceItem → Option String
message_id_of item = elim (truthy (dict_get "message_id" item.metadata)) [
  | none ↦ item.item_key
  | some id ↦ some id
]

unfoldable pub fingerprint_of : Library → WorkloadType → SourceItem → String
unfolding is_mail dict_get
fingerprint_of lib w item =
    if is_mail w
    then build_message_fingerprint lib item.raw_payload (some item.source_id) (message_id_of item)
    else build_item_fingerprint lib item.source_collection item.source_id item.raw_payload
        item.version_token

unfoldable pub build_report : JobRow → List String → MigrationReport
build_report row error_messages = record {
  job_id = row.job_id;
  status = row.status;
  migrated_count = row.migrated_count;
  skipped_count = row.skipped_count;
  failed_count = row.failed_count;
  dry_run = row.dry_run;
  started_at = row.started_at;
  finished_at = row.finished_at;
  error_messages = error_messages;
}

-- The part of an audit payload that names the two collections.
abbrev pub collections : MigrationPlanItem → Fields → Fields
collections p rest = field "source_collection" (str p.source_collection) (
    field "destination_collection" (str p.destination_collection) (
      field "source_mailbox" (str p.source_collection)
        (field "destination_mailbox" (str p.destination_collection) rest)))

-- The end of the `try` block: the checkpoint and the event of an item that went well.
unfoldable pub finish_item :
    String → Bool → MigrationPlanItem → SourceItem → Option String → Store → Store
unfolding set_checkpoint append_audit_event
finish_item job_id dry_run p item destination_id s =
    append_audit_event job_id "item_migrated" "info"
      (collections p (
        field "source_id" (str item.source_id) (
          field "destination_id" (str_or_null destination_id) (
            field "dry_run" (bool dry_run)
              (field "content_type" (str_or_null item.content_type) end)))))
      (set_checkpoint job_id p.source_collection item.source_id s)

-- `inserted` decides between the two counters.
unfoldable pub record_item :
    String → MigrationPlanItem → SourceItem → String → Option String → Store → Store × Bool
unfolding record_message increment_counters
record_item job_id p item fingerprint destination_id s =
    let (s', inserted) =
      record_message job_id fingerprint p.source_collection item.source_id p.destination_collection
        destination_id s in
    (
      if inserted then increment_counters job_id 1 0 0 s' else increment_counters job_id 0 1 0 s',
      inserted,
    )

abbrev pub add_migrated : Tally → Tally
add_migrated t = record t { migrated = t.migrated + 1 }

abbrev pub add_skipped : Tally → Tally
add_skipped t = record t { skipped = t.skipped + 1 }

abbrev pub add_failed : Tally → Tally
add_failed t = record t { failed_items = t.failed_items + 1 }

module _ {D : Type 0} where
  abbrev pub on_store : (Store → Store) → RunState D → RunState D
  on_store f r = record r { store = f r.store }

  -- The item is known: it is counted as skipped, and the checkpoint moves past it.
  unfoldable pub skip_item : String → MigrationPlanItem → SourceItem → RunState D → RunState D
  unfolding increment_counters set_checkpoint append_audit_event
  skip_item job_id p item = on_store λ s.
      append_audit_event job_id "item_skipped_duplicate" "info"
        (field "source_collection" (str p.source_collection) (
          field "source_mailbox" (str p.source_collection)
            (field "source_id" (str item.source_id) end)))
        (set_checkpoint job_id p.source_collection item.source_id
          (increment_counters job_id 0 1 0 s))

  -- The `except` block of an item. The exception goes on if the threshold is reached.
  unfoldable pub fail_item :
      String → ℕ → MigrationPlanItem → SourceItem → Error → RunState D → RunState D × Option Error
  unfolding increment_counters append_audit_event
  fail_item job_id max_errors p item exc r =
      let text = p.source_collection <> ":" <> item.source_id <> ":" <> message exc in
      (
        record r {
          store =
              append_audit_event job_id "item_failed" "error"
                (collections p
                  (field "source_id" (str item.source_id) (field "error" (str (message exc)) end)))
                (increment_counters job_id 0 0 1 r.store);
          error_messages = r.error_messages ++ text ∷ [];
          run_failures = r.run_failures + 1;
        },
        if leb max_errors (r.run_failures + 1)
            then some
                (runtime_error ("Maximum error threshold reached (" <> decimal max_errors <> ")."))
            else none,
      )

  -- what follows a call of `upsert_item`
  unfoldable pub after_upsert :
      String
      → ℕ
      → MigrationPlanItem
      → SourceItem
      → String
      → Tally
      → Result (Option String)
      → RunState D
      → RunState D × Tally × Option Error
  unfolding record_item finish_item fail_item
  after_upsert job_id max_errors p item fingerprint t (ok destination_id) r =
      let (s, inserted) = record_item job_id p item fingerprint destination_id r.store in
      (
        record r { store = finish_item job_id false p item destination_id s },
        if inserted then add_migrated t else add_skipped t,
        none,
      )
  after_upsert job_id max_errors p item fingerprint t (err exc) r =
      let (r', stop) = fail_item job_id max_errors p item exc r in (r', add_failed t, stop)

  -- An item, from the fingerprint to the end of its `except` block.
  unfoldable pub process_item :
      Library
      → DestinationConnector D
      → String
      → MigrationRequest
      → ℕ
      → MigrationPlanItem
      → SourceItem
      → RunState D
      → Tally
      → RunState D × Tally × Option Error
  unfolding has_fingerprint skip_item after_upsert finish_item increment_counters
  process_item lib dst job_id request max_errors p item r t =
      let fingerprint = fingerprint_of lib request.workload item in
      let live =
        (let (result, d) =
            dst.upsert_item p.destination_collection item.source_id item.raw_payload item.metadata
              r.destination in
          after_upsert job_id max_errors p item fingerprint t result
            (record r { destination = d })) in
      if has_fingerprint job_id fingerprint r.store
      then (skip_item job_id p item r, add_skipped t, none)
      else if request.options.dry_run
      then (
        record r {
          store = finish_item job_id true p item none (increment_counters job_id 1 0 0 r.store);
        },
        add_migrated t,
        none,
      )
      else live

  -- The loop goes on after an item only if no exception left it.
  abbrev pub continue :
      RunState D × Tally × Option Error
      → (RunState D → Tally → RunState D × Tally × Option Error)
      → RunState D × Tally × Option Error
  continue (r, t, none) k = k r t
  continue (r, t, some e) k = (r, t, some e)

  -- `for item in source_connector.iter_items(...)`; `ending` is the exception of the generator.
  unfoldable pub process_items :
      Library
      → DestinationConnector D
      → String
      → MigrationRequest
      → ℕ
      → MigrationPlanItem
      → List SourceItem
      → Option Error
      → RunState D
      → Tally
      → RunState D × Tally × Option Error
  unfolding process_item
  process_items lib dst job_id request max_errors p [] ending r t = (r, t, ending)
  process_items lib dst job_id request max_errors p (item ∷ items) ending r t =
      continue (process_item lib dst job_id request max_errors p item r t)
        (process_items lib dst job_id request max_errors p items ending)

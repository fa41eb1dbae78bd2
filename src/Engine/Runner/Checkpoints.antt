-- ===== src/Engine/Runner/Checkpoints.antt =====
-- engine/runner.py: what an item does to the checkpoint of its collection.
use mathlib.Core.Path.{subst}
use groupware_migrator.Base.{
  ℕ, ◌+◌, String, ◌≡◌, refl, sym, ap, ◌∙◌, ◌⊎◌, inl, inr, Bool, true, false, ◌&&◌, ◌||◌, Option,
  none, some, [], ◌∷◌, arith, leb, ◌==◌, nat_eq, string_eq, ==-refl, Error, ok, err,
}
use groupware_migrator.Domain.Types.{MigrationRequest, MigrationPlanItem, SourceItem}
use groupware_migrator.State.Schema.{Store}
use groupware_migrator.State.Jobs.{increment_counters}
use groupware_migrator.State.Progress.{has_fingerprint, set_checkpoint, get_checkpoint}
use groupware_migrator.State.Progress.Lookup.{
  has_fingerprint-record_message, get_checkpoint-set_checkpoint,
}
use groupware_migrator.Engine.Idempotency.{Library}
use groupware_migrator.Engine.Connectors.{DestinationConnector}
use groupware_migrator.Engine.Runner.Items.{
  after_upsert, fingerprint_of, RunState, Tally, skip_item, finish_item, fail_item, process_item,
  process_items, add_migrated, add_failed,
}
use groupware_migrator.Engine.Runner.ItemCases.{
  Handled, skipped, previewed, migrated, failed, process_item-Handled, migrated_store,
}

set_here :
    (job_id mailbox id : String) (s : Store)
    → get_checkpoint job_id mailbox (set_checkpoint job_id mailbox id s) ≡ some id
set_here job_id mailbox id s =
    rw get_checkpoint-set_checkpoint (rw (==-refl job_id) (rw (==-refl mailbox) refl))

skip_item-checkpoint :
    {D : Type 0} (job_id : String) (p : MigrationPlanItem) (item : SourceItem) (r : RunState D)
    → get_checkpoint job_id p.source_collection (skip_item job_id p item r).store
      ≡ some item.source_id
unfolding skip_item get_checkpoint
skip_item-checkpoint job_id p item r =
    set_here job_id p.source_collection item.source_id (increment_counters job_id 0 1 0 r.store)

finish_item-checkpoint :
    (job_id : String) (dry_run : Bool) (p : MigrationPlanItem) (item : SourceItem)
    (id : Option String) (s : Store)
    → get_checkpoint job_id p.source_collection (finish_item job_id dry_run p item id s)
      ≡ some item.source_id
unfolding finish_item get_checkpoint
finish_item-checkpoint job_id dry_run p item id s =
    set_here job_id p.source_collection item.source_id s

fail_item-checkpoint :
    {D : Type 0} (job_id : String) (max_errors : ℕ) (p : MigrationPlanItem) (item : SourceItem)
    (exc : Error) (r : RunState D)
    → get_checkpoint job_id p.source_collection (fail_item job_id max_errors p item exc r).0.store
      ≡ get_checkpoint job_id p.source_collection r.store
unfolding fail_item get_checkpoint
fail_item-checkpoint job_id max_errors p item exc r = refl

-- The checkpoint after an item.
module _ {D : Type 0} (lib : Library) (dst : DestinationConnector D) (job_id : String)
    (request : MigrationRequest) (max_errors : ℕ) (p : MigrationPlanItem) where
  -- What an item does to the checkpoint of its collection.
  abbrev pub Moved : SourceItem → RunState D → Tally → RunState D × Tally × Option Error → Type 0
  Moved item r t o =
      ((o.1.failed_items ≡ t.failed_items)
        × (get_checkpoint job_id p.source_collection o.0.store ≡ some item.source_id))
      ⊎ ((o.1.failed_items ≡ t.failed_items + 1)
          × (get_checkpoint job_id p.source_collection o.0.store
              ≡ get_checkpoint job_id p.source_collection r.store))

  -- An item that does not fail moves the checkpoint of its collection to itself; one that fails
  -- leaves the checkpoint where it was.
  pub checkpoint-process_item :
      (item : SourceItem) (r : RunState D) (t : Tally)
      → Moved item r t (process_item lib dst job_id request max_errors p item r t)
  checkpoint-process_item item r t =
      go (process_item-Handled lib dst job_id request max_errors p item r t)
    where
      go :
          {o : RunState D × Tally × Option Error}
          → Handled lib dst job_id request max_errors p item r t o
          → Moved item r t o
      go (skipped known e) =
          subst (Moved item r t) (sym e) (inl (refl, skip_item-checkpoint job_id p item r))
      go (previewed new dry e) =
          subst (Moved item r t) (sym e)
            (inl (refl, finish_item-checkpoint job_id true p item none _))
      go (migrated id d new live u e) =
          subst (Moved item r t) (sym e)
            (inl (refl, finish_item-checkpoint job_id false p item id _))
      go (failed exc d new live u e) = subst (Moved item r t) (sym e) (
          inr (
            refl,
            fail_item-checkpoint job_id max_errors p item exc (record r { destination = d }),
          ))

migrated_store-known :
    (job_id : String) (p : MigrationPlanItem) (item : SourceItem) (fp : String) (id : Option String)
    (s : Store) (j fp' : String)
    → has_fingerprint j fp' (migrated_store job_id p item fp id s)
      ≡ (has_fingerprint j fp' s || (job_id == j && fp == fp'))
unfolding finish_item increment_counters has_fingerprint
migrated_store-known job_id p item fp id s j fp' =
    has_fingerprint-record_message job_id fp p.source_collection item.source_id
      p.destination_collection id j fp' s

and_false : (b : Bool) → (false || (b && false)) ≡ false
and_false b = ground arith

module _ {D : Type 0} (job_id : String) (max_errors : ℕ) (p : MigrationPlanItem) (item : SourceItem)
    (exc : Error) (r : RunState D) where
  fail_item-below :
      leb max_errors (r.run_failures + 1) ≡ false
      → (fail_item job_id max_errors p item exc r).1 ≡ none
  unfolding fail_item
  fail_item-below h = rw h refl

  fail_item-known :
      (j fp : String)
      → has_fingerprint j fp (fail_item job_id max_errors p item exc r).0.store
        ≡ has_fingerprint j fp r.store
  unfolding fail_item has_fingerprint
  fail_item-known j fp = refl

module _ {D : Type 0} (lib : Library) (dst : DestinationConnector D) (job_id : String)
    (request : MigrationRequest) (max_errors : ℕ) (p : MigrationPlanItem) where
  item_fails :
      (item : SourceItem) (r : RunState D) (t : Tally) (exc : Error) (d : D)
      → has_fingerprint job_id (fingerprint_of lib request.workload item) r.store ≡ false
      → request.options.dry_run ≡ false
      → dst.upsert_item p.destination_collection item.source_id item.raw_payload item.metadata
          r.destination
        ≡ (err exc, d)
      → process_item lib dst job_id request max_errors p item r t ≡ (
        (fail_item job_id max_errors p item exc (record r { destination = d })).0,
        add_failed t,
        (fail_item job_id max_errors p item exc (record r { destination = d })).1,
      )
  unfolding process_item after_upsert
  item_fails item r t exc d new live fails = rw new (simp live (rw fails refl))

  item_works :
      (item : SourceItem) (r : RunState D) (t : Tally) (id : Option String) (d : D)
      → has_fingerprint job_id (fingerprint_of lib request.workload item) r.store ≡ false
      → request.options.dry_run ≡ false
      → dst.upsert_item p.destination_collection item.source_id item.raw_payload item.metadata
          r.destination
        ≡ (ok id, d)
      → process_item lib dst job_id request max_errors p item r t ≡ (
        record r {
          store =
              migrated_store job_id p item (fingerprint_of lib request.workload item) id r.store;
          destination = d;
        },
        add_migrated t,
        none,
      )
  unfolding process_item after_upsert
  item_works item r t id d new live works = rw new (simp live (rw works (rw new refl)))

  two_items :
      (a b : SourceItem) (r : RunState D) (t : Tally) (r₁ : RunState D) (t₁ : Tally)
      (o : RunState D × Tally × Option Error)
      → process_item lib dst job_id request max_errors p a r t ≡ (r₁, t₁, none)
      → process_item lib dst job_id request max_errors p b r₁ t₁ ≡ (o.0, o.1, none)
      → process_items lib dst job_id request max_errors p (a ∷ b ∷ []) none r t ≡ (o.0, o.1, none)
  unfolding process_items
  two_items a b r t r₁ t₁ o first second = rw first (rw second refl)

-- If an item fails below the error threshold and the next one is migrated, then the loop goes on, and
-- the checkpoint is the id of the second item while the first is not among the recorded fingerprints.
pub failed_item_passed_over :
    {D : Type 0} (lib : Library) (dst : DestinationConnector D) (job_id : String)
    (request : MigrationRequest) (max_errors : ℕ) (p : MigrationPlanItem) (bad good : SourceItem)
    (r : RunState D) (t : Tally) (exc : Error) (id : Option String) (d d' : D)
    → request.options.dry_run ≡ false
    → has_fingerprint job_id (fingerprint_of lib request.workload bad) r.store ≡ false
    → has_fingerprint job_id (fingerprint_of lib request.workload good) r.store ≡ false
    → (fingerprint_of lib request.workload good == fingerprint_of lib request.workload bad) ≡ false
    → dst.upsert_item p.destination_collection bad.source_id bad.raw_payload bad.metadata
        r.destination
      ≡ (err exc, d)
    → dst.upsert_item p.destination_collection good.source_id good.raw_payload good.metadata d
      ≡ (ok id, d')
    → leb max_errors (r.run_failures + 1) ≡ false
    → let (r', t', stop) =
        process_items lib dst job_id request max_errors p (bad ∷ good ∷ []) none r t in
      (stop ≡ none)
      × (get_checkpoint job_id p.source_collection r'.store ≡ some good.source_id)
      × (has_fingerprint job_id (fingerprint_of lib request.workload bad) r'.store ≡ false)
unfolding fail_item
failed_item_passed_over lib dst job_id request max_errors p bad good r t exc id d d' live new new'
      differ fails works below =
    let fp = fingerprint_of lib request.workload good in
    let failed_bad = fail_item job_id max_errors p bad exc (record r { destination = d }) in
    let r₁ = failed_bad.0 in
    let r₂ : RunState _ = record r₁ {
      store = migrated_store job_id p good fp id r₁.store;
      destination = d';
    } in
    let first = item_fails lib dst job_id request max_errors p bad r t exc d new live fails in
    let on = fail_item-below job_id max_errors p bad exc (record r { destination = d }) below in
    let kept = fail_item-known job_id max_errors p bad exc (record r { destination = d }) in
    let second =
      item_works lib dst job_id request max_errors p good r₁ (add_failed t) id d'
        (kept job_id fp ∙ new') live works in
    let fp' = fingerprint_of lib request.workload bad in
    let still_new =
      migrated_store-known job_id p good fp id r₁.store job_id fp'
      ∙ (rw (kept job_id fp') (rw new (rw differ (and_false (job_id == job_id))))) in
    let both =
      two_items lib dst job_id request max_errors p bad good r t r₁ (add_failed t)
        (r₂, add_migrated (add_failed t), none)
        (first ∙ ap (λ (o : Option Error). (r₁, add_failed t, o)) on) second in
    subst
      (λ (o : RunState _ × Tally × Option Error).
        (o.2 ≡ none)
        × (get_checkpoint job_id p.source_collection o.0.store ≡ some good.source_id)
        × (has_fingerprint job_id (fingerprint_of lib request.workload bad) o.0.store ≡ false))
      (sym both) (refl, finish_item-checkpoint job_id false p good id _, still_new)

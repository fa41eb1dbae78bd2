-- ===== src/Engine/Runner/Accounting.antt =====
-- engine/runner.py: the counters of a job and the error threshold.
use mathlib.Core.Path.{subst}
use groupware_migrator.Base.{
  ℕ, suc, ◌+◌, String, ◌≡◌, refl, sym, ap, ◌∙◌, Bool, Option, none, some, List, [], ◌∷◌, arith,
  nat_eq, string_eq, ==-refl, length, Error,
}
use groupware_migrator.Domain.Types.{MigrationRequest, MigrationPlanItem, SourceItem}
use groupware_migrator.State.Schema.{JobRow, Store}
use groupware_migrator.State.Jobs.{get_job, count_row, increment_counters, append_audit_event}
use groupware_migrator.State.Jobs.Lookup.{get_job-increment_counters}
use groupware_migrator.State.Progress.{record_message, set_checkpoint}
use groupware_migrator.Engine.Idempotency.{Library}
use groupware_migrator.Engine.Connectors.{DestinationConnector}
use groupware_migrator.Engine.Runner.Items.{
  fingerprint_of, RunState, Tally, skip_item, finish_item, fail_item, process_item, process_items,
  continue, add_migrated, add_skipped, add_failed,
}
use groupware_migrator.Engine.Runner.Frame.{if_ind}
use groupware_migrator.Engine.Runner.ItemCases.{
  Handled, skipped, previewed, migrated, failed, process_item-Handled, migrated_store,
  previewed_store,
}

-- The counters of the job's row.
pub record HasCounts (job_id : String) (s : Store) (m k f : ℕ) : Type 0 where
  pub row : JobRow
  pub found : get_job job_id s ≡ some row
  pub migrated_count : row.migrated_count ≡ m
  pub skipped_count : row.skipped_count ≡ k
  pub failed_count : row.failed_count ≡ f

HasCounts-increment :
    (job_id : String) (a b c : ℕ) (s : Store) (m k f : ℕ)
    → HasCounts job_id s m k f
    → HasCounts job_id (increment_counters job_id a b c s) (m + a) (k + b) (f + c)
HasCounts-increment job_id a b c s m k f h = record {
  row = count_row s.clock a b c h.row;
  found = rw get_job-increment_counters (rw (==-refl job_id) (rw h.found refl));
  migrated_count = ap (λ n. n + a) h.migrated_count;
  skipped_count = ap (λ n. n + b) h.skipped_count;
  failed_count = ap (λ n. n + c) h.failed_count;
}

abbrev pub total : Tally → ℕ
total t = t.migrated + t.skipped + t.failed_items

-- `base` is what the row counted when the tally was empty.
abbrev Accounted : {D : Type 0} → String → Tally → RunState D → Tally → Type 0
Accounted job_id base r t =
    HasCounts job_id r.store (base.migrated + t.migrated) (base.skipped + t.skipped)
      (base.failed_items + t.failed_items)

-- One increment and writes that leave the row of the job.
counted :
    {D : Type 0} (job_id : String) (base : Tally) (r r' : RunState D) (t t' : Tally) (s : Store)
    (a b c : ℕ)
    → get_job job_id s ≡ get_job job_id r.store
    → get_job job_id r'.store ≡ get_job job_id (increment_counters job_id a b c s)
    → (t'.migrated ≡ t.migrated + a)
      × (t'.skipped ≡ t.skipped + b)
      × (t'.failed_items ≡ t.failed_items + c)
    → Accounted job_id base r t
    → Accounted job_id base r' t'
counted job_id base r r' t t' s a b c same e (em, ek, ef) h =
    let counts : HasCounts job_id s (base.migrated + t.migrated) (base.skipped + t.skipped)
        (base.failed_items + t.failed_items) =
      record {
        row = h.row;
        found = same ∙ h.found;
        migrated_count = h.migrated_count;
        skipped_count = h.skipped_count;
        failed_count = h.failed_count;
      } in
    let after = HasCounts-increment job_id a b c s _ _ _ counts in
    record {
      row = after.row;
      found = e ∙ after.found;
      migrated_count = omega (arith, after.migrated_count);
      skipped_count = omega (arith, after.skipped_count);
      failed_count = omega (arith, after.failed_count);
    }

record_message-jobs :
    (k fp mailbox id target : String) (result : Option String) (s : Store)
    → get_job k (record_message k fp mailbox id target result s).0 ≡ get_job k s
unfolding get_job record_message
record_message-jobs k fp mailbox id target result s =
    if_ind {A = Store × Bool} (λ o. get_job k o.0 ≡ get_job k s) _ refl refl

module _ {D : Type 0} (lib : Library) (dst : DestinationConnector D) (job_id : String)
    (request : MigrationRequest) (max_errors : ℕ) (p : MigrationPlanItem) where
  Handled-Accounted :
      (base : Tally) (item : SourceItem) (r : RunState D) (t : Tally)
      (o : RunState D × Tally × Option Error)
      → Handled lib dst job_id request max_errors p item r t o
      → Accounted job_id base r t
      → Accounted job_id base o.0 o.1
  unfolding skip_item finish_item fail_item get_job append_audit_event set_checkpoint record_message
  Handled-Accounted base item r t o (skipped known e) h =
      subst (λ o. Accounted job_id base o.0 o.1) (sym e)
        (counted job_id base r (skip_item job_id p item r) t (add_skipped t) r.store 0 1 0 refl refl
          (omega arith) h)
  Handled-Accounted base item r t o (previewed new dry e) h =
      subst (λ o. Accounted job_id base o.0 o.1) (sym e)
        (counted job_id base r (record r { store = previewed_store job_id p item r.store }) t
          (add_migrated t) r.store 1 0 0 refl refl (omega arith) h)
  Handled-Accounted base item r t o (migrated id d new live u e) h =
      let fp = fingerprint_of lib request.workload item in
      let s =
        (record_message job_id fp p.source_collection item.source_id p.destination_collection id
          r.store).0 in
      subst (λ o. Accounted job_id base o.0 o.1) (sym e)
        (counted job_id base r
          (record r { store = migrated_store job_id p item fp id r.store; destination = d }) t
          (add_migrated t) s 1 0 0
          (record_message-jobs job_id fp p.source_collection item.source_id p.destination_collection
            id r.store)
          refl (omega arith) h)
  Handled-Accounted base item r t o (failed exc d new live u e) h =
      subst (λ o. Accounted job_id base o.0 o.1) (sym e)
        (counted job_id base r
          (fail_item job_id max_errors p item exc (record r { destination = d })).0 t (add_failed t)
          r.store 0 0 1 refl refl (omega arith) h)

  Handled-total :
      (item : SourceItem) (r : RunState D) (t : Tally) (o : RunState D × Tally × Option Error)
      → Handled lib dst job_id request max_errors p item r t o
      → total o.1 ≡ suc (total t)
  Handled-total item r t o (skipped known e) =
      ap (λ (o : RunState D × Tally × Option Error). total o.1) e ∙ omega arith
  Handled-total item r t o (previewed new dry e) =
      ap (λ (o : RunState D × Tally × Option Error). total o.1) e ∙ omega arith
  Handled-total item r t o (migrated id d new live u e) =
      ap (λ (o : RunState D × Tally × Option Error). total o.1) e ∙ omega arith
  Handled-total item r t o (failed exc d new live u e) =
      ap (λ (o : RunState D × Tally × Option Error). total o.1) e ∙ omega arith

  -- The row's counters exceed the tally by `base`, and a loop that ran to its end has counted `n`
  -- more items than the `before` of its start.
  pub record Counted (base : Tally) (before n : ℕ) (o : RunState D × Tally × Option Error)
      : Type 0 where
    pub counts :
        HasCounts job_id o.0.store
          (base.migrated + o.1.migrated)
          (base.skipped + o.1.skipped)
          (base.failed_items + o.1.failed_items)
    pub complete : o.2 ≡ none → total o.1 ≡ before + n

  -- The row of a job counts what its loop over a collection counts: if the row's counters exceed the
  -- tally by `base` before the loop, they do so after it, whether the loop ran to its end or an
  -- exception left it. A loop that ran to its end has counted every item of the collection, once.
  pub process_items-accounting :
      (base : Tally) (items : List SourceItem) (ending : Option Error) (r : RunState D) (t : Tally)
      → HasCounts job_id r.store
          (base.migrated + t.migrated)
          (base.skipped + t.skipped)
          (base.failed_items + t.failed_items)
      → Counted base
          (total t)
          (length items)
          (process_items lib dst job_id request max_errors p items ending r t)
  unfolding process_items
  process_items-accounting base [] ending r t h = record { counts = h; complete = λ e. omega arith }
  process_items-accounting base (item ∷ items) ending r t h =
      let o = process_item lib dst job_id request max_errors p item r t in
      let handled = process_item-Handled lib dst job_id request max_errors p item r t in
      let counts = Handled-Accounted base item r t o handled h in
      let one = Handled-total item r t o handled in
      rest o one counts (process_items-accounting base items ending)
    where
      rest :
          (o : RunState D × Tally × Option Error)
          → total o.1 ≡ suc (total t)
          → Accounted job_id base o.0 o.1
          → ((r : RunState D) (t : Tally)
              → Accounted job_id base r t
              → Counted base
                  (total t)
                  (length items)
                  (process_items lib dst job_id request max_errors p items ending r t))
          → Counted base
              (total t)
              (suc (length items))
              (continue o (process_items lib dst job_id request max_errors p items ending))
      rest (r', t', none) one counts ih =
          let after = ih r' t' counts in
          record { counts = after.counts; complete = λ e. omega (arith, one, after.complete e) }
      rest (r', t', some exc) one counts ih = record { counts = counts; complete = λ e. cc }

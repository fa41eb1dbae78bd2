-- ===== src/Engine/Runner/Refinement.antt =====
-- engine/runner.py: the loop over the items of a collection makes the steps of `Engine.Runner.Abstract`.
use mathlib.Core.Path.{fun_ext, subst}
use mathlib.Core.Option
use groupware_migrator.Base.{
  ℕ, String, ◌≡◌, refl, sym, ap, ◌∙◌, ◌⊎◌, inl, inr, Bool, true, false, Option, none, some, List,
  [], ◌∷◌, map, Bool-cases, nat_eq, string_eq, ==-refl, any_where, Error, Fields,
}
use groupware_migrator.Domain.Types.{MigrationRequest, MigrationPlanItem, SourceItem}
use groupware_migrator.State.Schema.{JobRow, Store}
use groupware_migrator.State.Jobs.{count_row, get_job, append_audit_event, increment_counters}
use groupware_migrator.State.Jobs.Lookup.{get_job-increment_counters}
use groupware_migrator.State.Progress.{
  message_is, get_checkpoint, set_checkpoint, has_fingerprint, record_message,
}
use groupware_migrator.State.Progress.Lookup.{
  get_checkpoint-set_checkpoint, has_fingerprint-record_message,
}
use groupware_migrator.Engine.Idempotency.{Library}
use groupware_migrator.Engine.Connectors.{DestinationConnector}
use groupware_migrator.Engine.Runner.Items.{
  RunState, Tally, skip_item, finish_item, fail_item, fingerprint_of, process_item, process_items,
  continue,
}
use groupware_migrator.Engine.Runner.ItemCases.{
  Handled, skipped, previewed, migrated, failed, process_item-Handled,
}
use groupware_migrator.Engine.Runner.Abstract.{
  Counts, View, add_counts, count, move, learn, Entry, Step, skipping, previewing, copying, failing,
  Steps, finished, step, given_up,
}

unfoldable counts_of : Option JobRow → Option Counts
counts_of none = none
counts_of (some row) = some (record {
  migrated = row.migrated_count;
  skipped = row.skipped_count;
  failures = row.failed_count;
})

-- What the tables say of a job.
unfoldable pub view_of : String → Store → View
unfolding counts_of
view_of job_id s = record {
  counts = counts_of (get_job job_id s);
  position = λ c. get_checkpoint job_id c s;
  known = λ f. has_fingerprint job_id f s;
}

module _ (job_id : String) where
  counts-count_row :
      (now m k f : ℕ) (row : Option JobRow)
      → counts_of (Option.map (count_row now m k f) row) ≡ add_counts m k f (counts_of row)
  unfolding counts_of add_counts
  counts-count_row now m k f none = refl
  counts-count_row now m k f (some row) = refl

  view_of-increment_counters :
      (m k f : ℕ) (s : Store)
      → view_of job_id (increment_counters job_id m k f s) ≡ count m k f (view_of job_id s)
  unfolding view_of increment_counters get_checkpoint has_fingerprint
  view_of-increment_counters m k f s =
      ap (λ c. record (view_of job_id s) { counts = c })
        (ap counts_of (get_job-increment_counters job_id job_id m k f s ∙ rw (==-refl job_id) refl)
          ∙ counts-count_row s.clock m k f (get_job job_id s))

  view_of-set_checkpoint :
      (c id : String) (s : Store)
      → view_of job_id (set_checkpoint job_id c id s) ≡ move c id (view_of job_id s)
  unfolding view_of set_checkpoint get_job has_fingerprint
  view_of-set_checkpoint c id s =
      ap (λ p. record (view_of job_id s) { position = p })
        (fun_ext
          (λ x. get_checkpoint-set_checkpoint job_id c id job_id x s ∙ rw (==-refl job_id) refl))

  view_of-append_audit_event :
      (t l : String) (fs : Fields) (s : Store)
      → view_of job_id (append_audit_event job_id t l fs s) ≡ view_of job_id s
  unfolding view_of append_audit_event get_job get_checkpoint has_fingerprint
  view_of-append_audit_event t l fs s = refl

  record_message-job :
      (f c id target : String) (result : Option String) (s : Store)
      → get_job job_id (record_message job_id f c id target result s).0 ≡ get_job job_id s
  unfolding record_message get_job
  record_message-job f c id target result s =
      elim (Bool-cases (any_where (message_is job_id f) s.messages)) [
        | inl e ↦ rw e refl
        | inr e ↦ rw e refl
      ]

  record_message-checkpoint :
      (m f c id target : String) (result : Option String) (s : Store)
      → get_checkpoint job_id m (record_message job_id f c id target result s).0
        ≡ get_checkpoint job_id m s
  unfolding record_message get_checkpoint
  record_message-checkpoint m f c id target result s =
      elim (Bool-cases (any_where (message_is job_id f) s.messages)) [
        | inl e ↦ rw e refl
        | inr e ↦ rw e refl
      ]

  view_of-record_message :
      (f c id target : String) (result : Option String) (s : Store)
      → view_of job_id (record_message job_id f c id target result s).0 ≡ learn f (view_of job_id s)
  unfolding view_of
  view_of-record_message f c id target result s =
      ap
        (λ j. record (view_of job_id (record_message job_id f c id target result s).0) {
          counts = counts_of j;
        })
        (record_message-job f c id target result s)
      ∙ ap
          (λ p. record (view_of job_id (record_message job_id f c id target result s).0) {
            counts = counts_of (get_job job_id s);
            position = p;
          })
          (fun_ext (λ m. record_message-checkpoint m f c id target result s))
      ∙ ap (λ k. record (view_of job_id s) { known = k })
          (fun_ext (λ g.
            has_fingerprint-record_message job_id f c id target result job_id g s
            ∙ rw (==-refl job_id) refl))

  view_of-finish_item :
      (dry : Bool) (p : MigrationPlanItem) (item : SourceItem) (id : Option String) (s : Store)
      → view_of job_id (finish_item job_id dry p item id s)
        ≡ move p.source_collection item.source_id (view_of job_id s)
  unfolding finish_item
  view_of-finish_item dry p item id s =
      view_of-append_audit_event _ _ _ _
      ∙ view_of-set_checkpoint p.source_collection item.source_id s

  module _ {D : Type 0} (lib : Library) (dst : DestinationConnector D) (request : MigrationRequest)
      (max_errors : ℕ) (p : MigrationPlanItem) where
    -- the entry of an item
    abbrev pub entry_of : SourceItem → Entry
    entry_of item = record {
      collection = p.source_collection;
      source_id = item.source_id;
      fingerprint = fingerprint_of lib request.workload item;
    }

    moved_on :
        (s s' : Store) (m k f : ℕ) (item : SourceItem) (v : View)
        → view_of job_id s
          ≡ move p.source_collection item.source_id
              (view_of job_id (increment_counters job_id m k f s'))
        → view_of job_id s' ≡ v
        → view_of job_id s ≡ move p.source_collection item.source_id (count m k f v)
    moved_on s s' m k f item v e e' =
        e
        ∙ ap (move p.source_collection item.source_id)
            (view_of-increment_counters m k f s' ∙ ap (count m k f) e')

    view_of-skip_item :
        (item : SourceItem) (r : RunState D)
        → view_of job_id (skip_item job_id p item r).store
          ≡ move p.source_collection item.source_id (count 0 1 0 (view_of job_id r.store))
    unfolding skip_item
    view_of-skip_item item r =
        moved_on _ r.store 0 1 0 item _
          (view_of-append_audit_event _ _ _ _
            ∙ view_of-set_checkpoint p.source_collection item.source_id _)
          refl

    view_of-fail_item :
        (item : SourceItem) (exc : Error) (r : RunState D)
        → view_of job_id (fail_item job_id max_errors p item exc r).0.store
          ≡ count 0 0 1 (view_of job_id r.store)
    unfolding fail_item
    view_of-fail_item item exc r =
        view_of-append_audit_event _ _ _ _ ∙ view_of-increment_counters 0 0 1 r.store

    -- what one item does to the view, and whether the loop goes on
    IsStep : SourceItem → RunState D → RunState D × Tally × Option Error → Type 0
    IsStep item r o =
        (Step request.options.dry_run (entry_of item) (view_of job_id r.store)
            (view_of job_id o.0.store)
          × (o.2 ≡ none))
        ⊎ (((view_of job_id r.store).known (entry_of item).fingerprint ≡ false)
            × (request.options.dry_run ≡ false)
            × (view_of job_id o.0.store ≡ count 0 0 1 (view_of job_id r.store)))

    abbrev view_after : RunState D × Tally × Option Error → View
    view_after o = view_of job_id o.0.store

    abbrev stop_after : RunState D × Tally × Option Error → Option Error
    stop_after o = o.2

    Handled-IsStep :
        (item : SourceItem) (r : RunState D) (t : Tally) (o : RunState D × Tally × Option Error)
        → Handled lib dst job_id request max_errors p item r t o
        → IsStep item r o
    unfolding view_of IsStep
    Handled-IsStep item r t o (skipped known e) = inl (
      subst (Step request.options.dry_run (entry_of item) (view_of job_id r.store))
          (sym (ap view_after e ∙ view_of-skip_item item r)) (skipping known),
      ap stop_after e,
    )
    Handled-IsStep item r t o (previewed new dry e) = inl (
      subst (Step request.options.dry_run (entry_of item) (view_of job_id r.store))
          (sym (
            ap view_after e
            ∙ moved_on _ r.store 1 0 0 item _ (view_of-finish_item true p item none _) refl))
          (previewing new dry),
      ap stop_after e,
    )
    Handled-IsStep item r t o (migrated id d new live took e) = inl (
      subst (Step request.options.dry_run (entry_of item) (view_of job_id r.store))
          (sym (
            ap view_after e
            ∙ moved_on _ _ 1 0 0 item _ (view_of-finish_item false p item id _) (
                view_of-record_message _ p.source_collection item.source_id p.destination_collection
                  id r.store)))
          (copying new live),
      ap stop_after e,
    )
    Handled-IsStep item r t o (failed exc d new live took e) =
        inr (new, live, ap view_after e ∙ view_of-fail_item item exc (record r { destination = d }))

    -- The view after the loop over the items is reached from the view before it by the abstract steps for
    -- these items, in their order.
    pub process_items-Steps :
        (items : List SourceItem) (ending : Option Error) (r : RunState D) (t : Tally)
        → Steps request.options.dry_run (map entry_of items) (view_of job_id r.store) (
            view_of job_id
              (process_items lib dst job_id request max_errors p items ending r t).0.store)
    unfolding process_items IsStep
    process_items-Steps [] ending r t = finished _
    process_items-Steps (item ∷ items) ending r t =
        go (process_item lib dst job_id request max_errors p item r t)
          (Handled-IsStep item r t _
            (process_item-Handled lib dst job_id request max_errors p item r t))
          (process_items-Steps items ending)
      where
        go :
            (o : RunState D × Tally × Option Error)
            → IsStep item r o
            → ((r' : RunState D) (t' : Tally)
                → Steps request.options.dry_run (map entry_of items) (view_of job_id r'.store) (
                    view_of job_id
                      (process_items lib dst job_id request max_errors p items ending r'
                        t').0.store))
            → Steps request.options.dry_run (map entry_of (item ∷ items)) (view_of job_id r.store) (
                view_of job_id
                  (continue o
                    (process_items lib dst job_id request max_errors p items ending)).0.store)
        go (r', t', none) (inl (first, goes)) rest =
            step (entry_of item) (map entry_of items) _ _ _ first (rest r' t')
        go (r', t', some e) (inl (first, goes)) rest = absurd cc
        go (r', t', none) (inr (new, live, e)) rest =
            step (entry_of item) (map entry_of items) _ _ _
              (subst (Step request.options.dry_run (entry_of item) (view_of job_id r.store)) (sym e)
                (failing new live))
              (rest r' t')
        go (r', t', some exc) (inr (new, live, e)) rest =
            subst
              (Steps request.options.dry_run (map entry_of (item ∷ items)) (view_of job_id r.store))
              (sym e)
              (given_up (entry_of item) (map entry_of items) (view_of job_id r.store) new live)

-- ===== src/Engine/Runner/Frame.antt =====
-- engine/runner.py: what every store operation of a run keeps, the whole run keeps.
use mathlib.Core.Path.{subst}
use groupware_migrator.Base.{
  ℕ, suc, String, Bool, true, false, not, ◌&&◌, Option, none, some, List, [], ◌∷◌, last, Result, ok,
  err, ◌>>=◌, ◌≡◌, refl, bind_ok, ok_same, length, nat, str, field, end, Error, runtime_error,
  Fields, at_least_one, if◌then◌else◌,
}
use groupware_migrator.Base.Text.{◌<>◌}
use groupware_migrator.Domain.Types.{
  JobStatus, running, completed, failed, cancelled, MigrationRequest, MigrationPlan,
  MigrationPlanItem, SourceItem, dict_get,
}
use groupware_migrator.Domain.ToDict.{source_protocol_value, destination_protocol_value, sync_value}
use groupware_migrator.State.Schema.{Store, JobRow}
use groupware_migrator.State.Jobs.{
  get_job, append_audit_event, update_job_plan, set_job_status, increment_counters,
}
use groupware_migrator.State.Progress.{
  has_fingerprint, record_message, set_checkpoint, get_checkpoint, get_job_checkpoints,
  set_sync_cursor, set_sync_cursors, update_sync_cursors_from_job,
}
use groupware_migrator.Engine.Idempotency.{Library}
use groupware_migrator.Engine.Connectors.{SourceConnector, DestinationConnector}
use groupware_migrator.Engine.Planner.{is_incremental}
use groupware_migrator.Engine.Runner.Items.{
  RunState, Tally, empty_tally, Flow, next, stopped, raised, finish_item, fail_item, record_item,
  after_upsert, fingerprint_of, process_item, process_items, continue,
}
use groupware_migrator.Engine.Runner.Run.{
  starting_checkpoint, audit_started, audit_completed, audit_job_started, ensure, finish_collection,
  run_collection, after_collection, run_collections, run_body, save_cursors, after_cursors,
  after_completion, mark_running, run_started, complete_job, fail_job, stop_job, or_message,
  audit_job_completed, after_stop, conclude, report_row, report, run_job,
}

pub if_ind {ℓ κ} :
    {A : Type ℓ} (Q : A → Type κ) (b : Bool) {x y : A} → Q x → Q y → Q (if b then x else y)
if_ind Q true hx hy = hx
if_ind Q false hx hy = hy

-- `P` is kept by every write that a run of this job makes.
pub record Kept (job_id : String) (P : Store → Type 0) : Type 0 where
  pub counters : (m k f : ℕ) (s : Store) → P s → P (increment_counters job_id m k f s)
  pub checkpoint : (mailbox id : String) (s : Store) → P s → P (set_checkpoint job_id mailbox id s)
  pub audit :
      (event level : String) (payload : Fields) (s : Store)
      → P s
      → P (append_audit_event job_id event level payload s)
  pub message :
      (fp mailbox id target : String) (result : Option String) (s : Store)
      → P s
      → P (record_message job_id fp mailbox id target result s).0
  pub status :
      (st : JobStatus) (error : Option String) (a b : Bool) (s : Store)
      → P s
      → P (set_job_status job_id st error a b s)
  pub plan : (p : MigrationPlan) (s : Store) → P s → P (update_job_plan job_id p s)
  pub cursor : (key mailbox id : String) (s : Store) → P s → P (set_sync_cursor key mailbox id s)

module _ {job_id : String} {P : Store → Type 0} (k : Kept job_id P) where
  pub finish_item-kept :
      (dry_run : Bool) (p : MigrationPlanItem) (item : SourceItem) (id : Option String) (s : Store)
      → P s
      → P (finish_item job_id dry_run p item id s)
  unfolding finish_item
  finish_item-kept dry_run p item id s h =
      k.audit _ _ _ _ (k.checkpoint p.source_collection item.source_id s h)

  counted-kept :
      (b : Bool) (s : Store)
      → P s
      → P (if b then increment_counters job_id 1 0 0 s else increment_counters job_id 0 1 0 s)
  counted-kept true s h = k.counters 1 0 0 s h
  counted-kept false s h = k.counters 0 1 0 s h

  record_item-kept :
      (p : MigrationPlanItem) (item : SourceItem) (fp : String) (id : Option String) (s : Store)
      → P s
      → P (record_item job_id p item fp id s).0
  unfolding record_item
  record_item-kept p item fp id s h =
      let (s', inserted) =
        record_message job_id fp p.source_collection item.source_id p.destination_collection id s in
      counted-kept inserted s'
        (k.message fp p.source_collection item.source_id p.destination_collection id s h)

  set_sync_cursors-kept :
      (key : String) (entries : List (String × String)) (s : Store)
      → P s
      → P (set_sync_cursors key entries s)
  unfolding set_sync_cursors
  set_sync_cursors-kept key [] s h = h
  set_sync_cursors-kept key ((mailbox, id) ∷ rest) s h =
      set_sync_cursors-kept key rest (set_sync_cursor key mailbox id s)
        (k.cursor key mailbox id s h)

  starting_checkpoint-kept :
      (cursors : List (String × String)) (p : MigrationPlanItem) (s : Store)
      → P s
      → P (starting_checkpoint job_id cursors p s).1
  unfolding starting_checkpoint
  starting_checkpoint-kept cursors p s h =
      go (get_checkpoint job_id p.source_collection s) (dict_get p.source_collection cursors)
    where
      go :
          (a b : Option String)
          → P
              (elim a as (λ _. Option String × Store) [
                | some id ↦ (some id, s)
                | none ↦ elim b as (λ _. Option String × Store) [
                  | none ↦ (none, s)
                  | some id ↦ (some id, set_checkpoint job_id p.source_collection id s)
                ]
              ]).1
      go (some id) b = h
      go none none = h
      go none (some id) = k.checkpoint p.source_collection id s h

  audit_job_completed-kept :
      (row : Option JobRow) (s : Store) → P s → P (audit_job_completed job_id row s)
  unfolding audit_job_completed
  audit_job_completed-kept none s h = h
  audit_job_completed-kept (some row) s h = k.audit _ _ _ _ h

  save_cursors-kept :
      (key : MigrationRequest → Result String) (request : MigrationRequest) (s s' : Store)
      → P s
      → save_cursors key job_id request s ≡ ok s'
      → P s'
  unfolding save_cursors update_sync_cursors_from_job
  save_cursors-kept key request s s' h = go (key request)
    where
      go :
          (made : Result String)
          → ((made >>= λ k. ok (set_sync_cursors k (get_job_checkpoints job_id s) s)) >>= λ t. ok (
              append_audit_event job_id "sync_cursors_updated" "info"
                (field "cursor_collections" (nat (length (get_job_checkpoints job_id t))) (
                  field "cursor_mailboxes"
                    (nat (length (get_job_checkpoints job_id t)))
                    (field "sync_mode" (str (sync_value request.options.sync_mode)) end)))
                t))
            ≡ ok s'
          → P s'
      go (err e) made = absurd cc
      go (ok sync_key) made =
          subst P (ok_same made)
            (k.audit _ _ _ _ (set_sync_cursors-kept sync_key (get_job_checkpoints job_id s) s h))

  after_cursors-kept :
      (s : Store) (o : Result Store)
      → P s
      → ((s' : Store) → o ≡ ok s' → P s')
      → P (after_cursors job_id s o).0
  unfolding after_cursors
  after_cursors-kept s (err e) h kept = h
  after_cursors-kept s (ok s') h kept = audit_job_completed-kept _ _ (kept s' refl)

  complete_job-kept :
      (key : MigrationRequest → Result String) (request : MigrationRequest) (texts : List String)
      (s : Store)
      → P s
      → P (complete_job key job_id request texts s).0
  unfolding complete_job
  complete_job-kept key request texts s h =
      let s₁ = set_job_status job_id completed (last texts) false true s in
      let h₁ : P s₁ = k.status completed (last texts) false true s h in
      after_cursors-kept s₁ _ h₁ (
        if_ind {A = Result Store} (λ o. (s' : Store) → o ≡ ok s' → P s')
          (is_incremental request.options.sync_mode && not request.options.dry_run)
          (λ s' made. save_cursors-kept key request s₁ s' h₁ made)
          (λ s' same. subst P (ok_same same) h₁))

  -- The writes before the `try` statement.
  pub mark_running-kept :
      (mark_started : Bool) (plan : MigrationPlan) (s : Store)
      → P s
      → P (mark_running job_id mark_started plan s)
  unfolding mark_running
  mark_running-kept mark_started plan s h =
      k.status running none mark_started false (update_job_plan job_id plan s) (k.plan plan s h)

  pub audit_job_started-kept :
      (request : MigrationRequest) (resume : Bool) (plan : MigrationPlan) (s s' : Store)
      → P s
      → audit_job_started job_id request resume plan s ≡ ok s'
      → P s'
  unfolding audit_job_started
  audit_job_started-kept request resume plan s s' h made =
      let (source, _, rest) = bind_ok (source_protocol_value request.source.protocol) _ s' made in
      let (destination, _, done) =
        bind_ok (destination_protocol_value request.destination.protocol) _ s' rest in
      subst P (ok_same done) (k.audit _ _ _ _ h)

  stop_job-kept : (s : Store) → P s → P (stop_job job_id s)
  unfolding stop_job
  stop_job-kept s h = k.audit _ _ _ _ (k.status cancelled none false true s h)

module _ {job_id : String} {P : Store → Type 0} (k : Kept job_id P) {D : Type 0} where
  abbrev Good : RunState D → Type 0
  Good r = P r.store

  after_upsert-kept :
      (max_errors : ℕ) (p : MigrationPlanItem) (item : SourceItem) (fp : String) (t : Tally)
      (result : Result (Option String)) (r : RunState D)
      → Good r
      → Good (after_upsert job_id max_errors p item fp t result r).0
  unfolding after_upsert fail_item
  after_upsert-kept max_errors p item fp t (ok id) r h =
      finish_item-kept k false p item id (record_item job_id p item fp id r.store).0
        (record_item-kept k p item fp id r.store h)
  after_upsert-kept max_errors p item fp t (err e) r h =
      k.audit _ _ _ _ (k.counters 0 0 1 r.store h)

  module _ (lib : Library) (dst : DestinationConnector D) (request : MigrationRequest)
      (max_errors : ℕ) (p : MigrationPlanItem) where
    pub process_item-kept :
        (item : SourceItem) (r : RunState D) (t : Tally)
        → Good r
        → Good (process_item lib dst job_id request max_errors p item r t).0
    unfolding process_item
    process_item-kept item r t h =
        let fp = fingerprint_of lib request.workload item in
        let (result, d) =
          dst.upsert_item p.destination_collection item.source_id item.raw_payload item.metadata
            r.destination in
        if_ind {A = RunState D × Tally × Option Error} (λ o. P o.0.store)
          (has_fingerprint job_id fp r.store)
          (k.audit _ _ _ _
            (k.checkpoint p.source_collection item.source_id _ (k.counters 0 1 0 r.store h)))
          (if_ind {A = RunState D × Tally × Option Error} (λ o. P o.0.store) request.options.dry_run
            (finish_item-kept k true p item none _ (k.counters 1 0 0 r.store h))
            (after_upsert-kept max_errors p item fp t result (record r { destination = d }) h))

    pub process_items-kept :
        (items : List SourceItem) (ending : Option Error) (r : RunState D) (t : Tally)
        → Good r
        → Good (process_items lib dst job_id request max_errors p items ending r t).0
    unfolding process_items
    process_items-kept [] ending r t h = h
    process_items-kept (item ∷ items) ending r t h =
        go (process_item lib dst job_id request max_errors p item r t)
          (process_item-kept item r t h) (process_items-kept items ending)
      where
        go :
            (o : RunState D × Tally × Option Error)
            → P o.0.store
            → ((r : RunState D) (t : Tally)
                → P r.store
                → P (process_items lib dst job_id request max_errors p items ending r t).0.store)
            → P
                (continue o
                  (process_items lib dst job_id request max_errors p items ending)).0.store
        go (r, t, none) h ih = ih r t h
        go (r, t, some e) h ih = h

  ensure-kept :
      (dst : DestinationConnector D) (dry_run : Bool) (name : String) (r : RunState D)
      → Good r
      → Good (ensure dst dry_run name r).0
  unfolding ensure
  ensure-kept dst true name r h = h
  ensure-kept dst false name r h = go (dst.ensure_collection name r.destination)
    where
      go :
          (o : Result (Unit {0}) × D)
          → P
              (let (result, d) = o in
                elim result as (λ _. RunState D × Option Error) [
                  | ok u ↦ (record r { destination = d }, none)
                  | err e ↦ (record r { destination = d }, some e)
                ]).0.store
      go (ok u, d) = h
      go (err e, d) = h

  finish_collection-kept :
      (request : MigrationRequest) (p : MigrationPlanItem) (o : RunState D × Tally × Option Error)
      → Good o.0
      → Good (finish_collection job_id request p o).0
  unfolding finish_collection audit_completed
  finish_collection-kept request p (r, t, none) h = k.audit _ _ _ _ h
  finish_collection-kept request p (r, t, some e) h = h

  module _ (lib : Library) (src : SourceConnector) (dst : DestinationConnector D)
      (request : MigrationRequest) (max_errors : ℕ) (cursors : List (String × String)) where
    run_collection-kept :
        (p : MigrationPlanItem) (r : RunState D)
        → Good r
        → Good (run_collection lib src dst job_id request max_errors cursors p r).0
    unfolding run_collection audit_started
    run_collection-kept p r h =
        let (checkpoint, s) = starting_checkpoint job_id cursors p r.store in
        let s' = audit_started job_id request p checkpoint s in
        let kept : P s' = k.audit _ _ _ _ (starting_checkpoint-kept k cursors p r.store h) in
        let ensured =
          ensure-kept dst request.options.dry_run p.destination_collection (record r { store = s' })
            kept in
        let (r', failure) =
          ensure dst request.options.dry_run p.destination_collection (record r { store = s' }) in
        let (items, ending) = src.iter_items p.source_collection checkpoint in
        go r' failure
          (process_items lib dst job_id request max_errors p items ending r' empty_tally) ensured
          (process_items-kept lib dst request max_errors p items ending r' empty_tally ensured)
      where
        go :
            (r' : RunState D) (failure : Option Error) (o : RunState D × Tally × Option Error)
            → P r'.store
            → P o.0.store
            → P
                (elim failure as (λ _. RunState D × Option Error) [
                  | none ↦ finish_collection job_id request p o
                  | some e ↦ (r', some e)
                ]).0.store
        go r' none o hr ho = finish_collection-kept request p o ho
        go r' (some e) o hr ho = hr

    after_collection-kept :
        (o : RunState D × Option Error) (rest : RunState D → RunState D × Flow)
        → Good o.0
        → ((r : RunState D) → Good r → Good (rest r).0)
        → Good (after_collection o rest).0
    after_collection-kept (r, none) rest h ih = ih r h
    after_collection-kept (r, some e) rest h ih = h

    run_collections-kept :
        (stop : ℕ → Bool) (n : ℕ) (plan : MigrationPlan) (r : RunState D)
        → Good r
        → Good (run_collections lib src dst job_id request max_errors cursors stop n plan r).0
    unfolding run_collections
    run_collections-kept stop n [] r h = h
    run_collections-kept stop n (p ∷ ps) r h =
        if_ind {A = RunState D × Flow} (λ o. P o.0.store) (stop n) h
          (after_collection-kept (run_collection lib src dst job_id request max_errors cursors p r)
            (run_collections lib src dst job_id request max_errors cursors stop (suc n) ps)
            (run_collection-kept p r h) (run_collections-kept stop (suc n) ps))

    pub run_body-kept :
        (stop : ℕ → Bool) (plan : MigrationPlan) (r : RunState D)
        → Good r
        → Good (run_body lib src dst job_id request max_errors cursors stop plan r).0
    unfolding run_body
    run_body-kept stop plan r h = go src.validate (dst.validate r.destination)
      where
        go :
            (a : Result (Unit {0})) (b : Result (Unit {0}) × D)
            → P
                (elim a as (λ _. RunState D × Flow) [
                  | err e ↦ (r, raised e)
                  | ok u ↦
                      let (result, d) = b in
                      elim result as (λ _. RunState D × Flow) [
                        | err e ↦ (record r { destination = d }, raised e)
                        | ok v ↦
                            run_collections lib src dst job_id request max_errors cursors stop 0
                              plan
                              (record r { destination = d })
                      ]
                ]).0.store
        go (err e) b = h
        go (ok u) (err e, d) = h
        go (ok u) (ok v, d) = run_collections-kept stop 0 plan (record r { destination = d }) h

  fail_job-kept :
      (max_errors : ℕ) (e : Error) (r : RunState D) → Good r → Good (fail_job job_id max_errors e r)
  unfolding fail_job
  fail_job-kept max_errors e r h =
      k.audit _ _ _ _ (k.status failed (last (or_message e r.error_messages)) false true r.store h)

  after_stop-kept :
      (max_errors : ℕ) (row : Option JobRow) (r : RunState D)
      → Good r
      → Good (after_stop job_id max_errors row r)
  unfolding after_stop
  after_stop-kept max_errors (some row) r h = h
  after_stop-kept max_errors none r h =
      fail_job-kept max_errors (runtime_error ("Unable to load job state for " <> job_id <> ".")) r
        h

  after_completion-kept :
      (max_errors : ℕ) (r : RunState D) (o : Store × Option Error)
      → P o.0
      → Good (after_completion job_id max_errors r o)
  unfolding after_completion
  after_completion-kept max_errors r (s, none) h = h
  after_completion-kept max_errors r (s, some e) h =
      fail_job-kept max_errors e (record r { store = s }) h

  conclude-kept :
      (key : MigrationRequest → Result String) (request : MigrationRequest) (max_errors : ℕ)
      (o : RunState D × Flow)
      → Good o.0
      → Good (conclude key job_id request max_errors o)
  unfolding conclude
  conclude-kept key request max_errors (r, next) h =
      after_completion-kept max_errors r (complete_job key job_id request r.error_messages r.store)
        (complete_job-kept k key request r.error_messages r.store h)
  conclude-kept key request max_errors (r, stopped) h =
      after_stop-kept max_errors (get_job job_id (stop_job job_id r.store))
        (record r { store = stop_job job_id r.store }) (stop_job-kept k r.store h)
  conclude-kept key request max_errors (r, raised e) h = fail_job-kept max_errors e r h

  report_row-kept : (row : Option JobRow) (r : RunState D) → Good r → P (report_row job_id row r).1
  unfolding report_row
  report_row-kept none r h = h
  report_row-kept (some row) r h = h

  run_started-kept :
      (lib : Library) (key : MigrationRequest → Result String) (src : SourceConnector)
      (dst : DestinationConnector D) (request : MigrationRequest) (cursors : List (String × String))
      (stop : ℕ → Bool) (plan : MigrationPlan) (s : Store) (d : D) (o : Result Store)
      → P s
      → ((s' : Store) → o ≡ ok s' → P s')
      → P (run_started lib key src dst job_id request cursors stop plan s d o).1
  unfolding run_started report
  run_started-kept lib key src dst request cursors stop plan s d (err e) h kept = h
  run_started-kept lib key src dst request cursors stop plan s d (ok s₂) h kept =
      let max_errors = at_least_one request.options.max_errors in
      let start : RunState D = record {
        store = s₂;
        destination = d;
        error_messages = [];
        run_failures = 0;
      } in
      let body = run_body lib src dst job_id request max_errors cursors stop plan start in
      report_row-kept (get_job job_id (conclude key job_id request max_errors body).store)
        (conclude key job_id request max_errors body)
        (conclude-kept key request max_errors body
          (run_body-kept lib src dst request max_errors cursors stop plan start (kept s₂ refl)))

  -- A property that every single write of a run keeps is kept by the whole run of a job, however it
  -- ends.
  pub run_job-kept :
      (lib : Library) (key : MigrationRequest → Result String) (src : SourceConnector)
      (dst : DestinationConnector D) (resume mark_started : Bool) (request : MigrationRequest)
      (cursors : List (String × String)) (stop : ℕ → Bool) (plan : MigrationPlan) (s : Store)
      (d : D)
      → P s
      → P (run_job lib key src dst job_id resume mark_started request cursors stop plan s d).1
  unfolding run_job
  run_job-kept lib key src dst resume mark_started request cursors stop plan s d h =
      let h₁ = mark_running-kept k mark_started plan s h in
      let s₁ = mark_running job_id mark_started plan s in
      run_started-kept lib key src dst request cursors stop plan s₁ d
        (audit_job_started job_id request resume plan s₁) h₁
        (λ s' made. audit_job_started-kept k request resume plan s₁ s' h₁ made)

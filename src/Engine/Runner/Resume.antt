-- ===== src/Engine/Runner/Resume.antt =====
-- engine/runner.py: what a second pass over the same items does.
use mathlib.Core.Path.{subst}
use groupware_migrator.Base.{
  ℕ, suc, ◌+◌, ◌≤◌, String, ◌≡◌, refl, sym, ap, ◌∙◌, Bool, true, false, ◌&&◌, ◌||◌, Option, none,
  some, List, [], ◌∷◌, arith, ◌==◌, nat_eq, string_eq, ==-refl, length, All, Error,
}
use groupware_migrator.Domain.Types.{MigrationRequest, MigrationPlanItem, SourceItem}
use groupware_migrator.State.Schema.{Store}
use groupware_migrator.State.Jobs.{
  increment_counters, append_audit_event, set_job_status, update_job_plan,
}
use groupware_migrator.State.Progress.{
  has_fingerprint, record_message, set_checkpoint, set_sync_cursor,
}
use groupware_migrator.State.Progress.Lookup.{has_fingerprint-record_message}
use groupware_migrator.Engine.Idempotency.{Library}
use groupware_migrator.Engine.Connectors.{DestinationConnector}
use groupware_migrator.Engine.Runner.Items.{
  fingerprint_of, RunState, Tally, skip_item, process_item, process_items, continue, add_skipped,
}
use groupware_migrator.Engine.Runner.Frame.{
  Kept, finish_item-kept, process_item-kept, process_items-kept,
}
use groupware_migrator.Engine.Runner.ItemCases.{
  Handled, skipped, previewed, migrated, failed, process_item-Handled,
}

-- No write of a run forgets a fingerprint.
pub Fingerprint-Kept : (job_id j fp : String) → Kept job_id (λ s. has_fingerprint j fp s ≡ true)
unfolding has_fingerprint increment_counters set_checkpoint append_audit_event set_job_status
    update_job_plan set_sync_cursor
Fingerprint-Kept job_id j fp = record {
  counters = λ m k f s h. h;
  checkpoint = λ mailbox id s h. h;
  audit = λ event level payload s h. h;
  message = λ fp' mailbox id target result s h.
      has_fingerprint-record_message job_id fp' mailbox id target result j fp s
      ∙ ap (λ b. b || (job_id == j && fp' == fp)) h;
  status = λ st error a b s h. h;
  plan = λ p s h. h;
  cursor = λ key mailbox id s h. h;
}

module _ {D : Type 0} (job_id : String) (p : MigrationPlanItem) (item : SourceItem)
    (r : RunState D) where
  skip_item-known :
      (j fp : String)
      → has_fingerprint j fp r.store ≡ true
      → has_fingerprint j fp (skip_item job_id p item r).store ≡ true
  unfolding skip_item has_fingerprint
  skip_item-known j fp h = h

  skip_item-rest :
      ((skip_item job_id p item r).destination ≡ r.destination)
      × ((skip_item job_id p item r).error_messages ≡ r.error_messages)
      × ((skip_item job_id p item r).run_failures ≡ r.run_failures)
  unfolding skip_item
  skip_item-rest = (refl, refl, refl)

or_true : (b : Bool) → (b || true) ≡ true
or_true b = ground arith

recorded :
    (k fp mailbox id target : String) (result : Option String) (s : Store)
    → has_fingerprint k fp (record_message k fp mailbox id target result s).0 ≡ true
recorded k fp mailbox id target result s =
    rw has_fingerprint-record_message
      (rw (==-refl k) (rw (==-refl fp) (or_true (has_fingerprint k fp s))))

module _ {D : Type 0} (lib : Library) (dst : DestinationConnector D) (job_id : String)
    (request : MigrationRequest) (max_errors : ℕ) (p : MigrationPlanItem) where
  -- The fingerprint of the item is among those that the job has recorded.
  abbrev pub IsKnown : Store → SourceItem → Type 0
  IsKnown s item = has_fingerprint job_id (fingerprint_of lib request.workload item) s ≡ true

  failed_items_mono :
      (item : SourceItem) (r : RunState D) (t : Tally) (o : RunState D × Tally × Option Error)
      → Handled lib dst job_id request max_errors p item r t o
      → t.failed_items ≤ o.1.failed_items
  failed_items_mono item r t o (skipped known e) =
      omega (arith, ap (λ (o : RunState D × Tally × Option Error). o.1.failed_items) e)
  failed_items_mono item r t o (previewed new dry e) =
      omega (arith, ap (λ (o : RunState D × Tally × Option Error). o.1.failed_items) e)
  failed_items_mono item r t o (migrated id d new live u e) =
      omega (arith, ap (λ (o : RunState D × Tally × Option Error). o.1.failed_items) e)
  failed_items_mono item r t o (failed exc d new live u e) =
      omega (arith, ap (λ (o : RunState D × Tally × Option Error). o.1.failed_items) e)

  process_items-failed_items :
      (items : List SourceItem) (ending : Option Error) (r : RunState D) (t : Tally)
      → t.failed_items
        ≤ (process_items lib dst job_id request max_errors p items ending r t).1.failed_items
  unfolding process_items
  process_items-failed_items [] ending r t = omega arith
  process_items-failed_items (item ∷ items) ending r t =
      go (process_item lib dst job_id request max_errors p item r t)
        (failed_items_mono item r t _
          (process_item-Handled lib dst job_id request max_errors p item r t))
        (process_items-failed_items items ending)
    where
      go :
          (o : RunState D × Tally × Option Error)
          → t.failed_items ≤ o.1.failed_items
          → ((r : RunState D) (t : Tally)
              → t.failed_items
                ≤ (process_items lib dst job_id request max_errors p items ending r
                    t).1.failed_items)
          → t.failed_items
            ≤ (continue o
                (process_items lib dst job_id request max_errors p items ending)).1.failed_items
      go (r', t', none) h ih = omega (arith, ih r' t')
      go (r', t', some exc) h ih = h

  -- An item that did not fail is known afterwards.
  Handled-IsKnown :
      (item : SourceItem) (r : RunState D) (t : Tally) (o : RunState D × Tally × Option Error)
      → request.options.dry_run ≡ false
      → Handled lib dst job_id request max_errors p item r t o
      → (IsKnown r.store item → IsKnown o.0.store item)
      → o.1.failed_items ≡ t.failed_items
      → IsKnown o.0.store item
  Handled-IsKnown item r t o live (skipped known e) keep same = keep known
  Handled-IsKnown item r t o live (previewed new dry e) keep same = absurd (cc (live, dry))
  Handled-IsKnown item r t o live (migrated id d new live' u e) keep same =
      let fp = fingerprint_of lib request.workload item in
      let k = Fingerprint-Kept job_id job_id fp in
      let s =
        (record_message job_id fp p.source_collection item.source_id p.destination_collection id
          r.store).0 in
      subst (λ (o : RunState D × Tally × Option Error). IsKnown o.0.store item) (sym e)
        (finish_item-kept k false p item id (increment_counters job_id 1 0 0 s) (
          k.counters 1 0 0 s (
            recorded job_id fp p.source_collection item.source_id p.destination_collection id
              r.store)))
  Handled-IsKnown item r t o live (failed exc d new live' u e) keep same =
      absurd (omega (arith, ap (λ (o : RunState D × Tally × Option Error). o.1.failed_items) e))

  known_item_skipped :
      (item : SourceItem) (r : RunState D) (t : Tally)
      → IsKnown r.store item
      → process_item lib dst job_id request max_errors p item r t
        ≡ (skip_item job_id p item r, add_skipped t, none)
  known_item_skipped item r t known =
      elim (process_item-Handled lib dst job_id request max_errors p item r t) [
        | skipped h e ↦ e
        | previewed new dry e ↦ absurd (cc (known, new))
        | migrated id d new live u e ↦ absurd (cc (known, new))
        | failed exc d new live u e ↦ absurd (cc (known, new))
      ]

  -- All the items of a list are known.
  abbrev pub AllKnown : Store → List SourceItem → Type 0
  AllKnown s items = All (IsKnown s) items

  -- A pass in which no item fails and that no exception leaves makes every item known.
  process_items-AllKnown :
      (items : List SourceItem) (ending : Option Error) (r : RunState D) (t : Tally)
      → request.options.dry_run ≡ false
      → let (r', t', stop) = process_items lib dst job_id request max_errors p items ending r t in
        stop ≡ none → t'.failed_items ≡ t.failed_items → AllKnown r'.store items
  unfolding process_items
  process_items-AllKnown [] ending r t live = λ e same. tt
  process_items-AllKnown (item ∷ items) ending r t live =
      let handled = process_item-Handled lib dst job_id request max_errors p item r t in
      let o = process_item lib dst job_id request max_errors p item r t in
      let fp = fingerprint_of lib request.workload item in
      go o (failed_items_mono item r t o handled)
        (Handled-IsKnown item r t o live handled (
          process_item-kept (Fingerprint-Kept job_id job_id fp) lib dst request max_errors p item r
            t))
        (λ r' t'. process_items-AllKnown items ending r' t' live)
        (λ r' t'. process_items-failed_items items ending r' t')
    where
      go :
          (o : RunState D × Tally × Option Error)
          → t.failed_items ≤ o.1.failed_items
          → (o.1.failed_items ≡ t.failed_items → IsKnown o.0.store item)
          → ((r : RunState D) (t : Tally)
              → let (r', t', stop) =
                  process_items lib dst job_id request max_errors p items ending r t in
                stop ≡ none → t'.failed_items ≡ t.failed_items → AllKnown r'.store items)
          → ((r : RunState D) (t : Tally)
              → t.failed_items
                ≤ (process_items lib dst job_id request max_errors p items ending r
                    t).1.failed_items)
          → let (r', t', stop) =
              continue o (process_items lib dst job_id request max_errors p items ending) in
            stop ≡ none → t'.failed_items ≡ t.failed_items → AllKnown r'.store (item ∷ items)
      go (r', t', some exc) le known ih mono e same = absurd (cc (e))
      go (r', t', none) le known ih mono e same =
          let unchanged : t'.failed_items ≡ t.failed_items = omega (arith, mono r' t') in
          (
            process_items-kept
                (Fingerprint-Kept job_id job_id (fingerprint_of lib request.workload item)) lib dst
                request max_errors p items ending r' t' (known unchanged),
            ih r' t' e (same ∙ sym unchanged),
          )

  AllKnown-mono :
      (s s' : Store) (items : List SourceItem)
      → ((item : SourceItem) → IsKnown s item → IsKnown s' item)
      → AllKnown s items
      → AllKnown s' items
  AllKnown-mono s s' [] f h = tt
  AllKnown-mono s s' (item ∷ items) f h = (f item h.0, AllKnown-mono s s' items f h.1)

  -- Nothing but the store has changed, and every item of `n` was counted as skipped.
  pub record OnlySkipped (n : ℕ) (r : RunState D) (t : Tally) (ending : Option Error)
      (o : RunState D × Tally × Option Error) : Type 0 where
    pub destination : o.0.destination ≡ r.destination
    pub error_messages : o.0.error_messages ≡ r.error_messages
    pub run_failures : o.0.run_failures ≡ r.run_failures
    pub skipped_items : o.1.skipped ≡ t.skipped + n
    pub others : (o.1.migrated ≡ t.migrated) × (o.1.failed_items ≡ t.failed_items)
    pub ended : o.2 ≡ ending

  process_items-OnlySkipped :
      (items : List SourceItem) (ending : Option Error) (r : RunState D) (t : Tally)
      → AllKnown r.store items
      → OnlySkipped
          (length items)
          r
          t
          ending
          (process_items lib dst job_id request max_errors p items ending r t)
  unfolding process_items
  process_items-OnlySkipped [] ending r t h = record {
    destination = refl;
    error_messages = refl;
    run_failures = refl;
    skipped_items = omega arith;
    others = (refl, refl);
    ended = refl;
  }
  process_items-OnlySkipped (item ∷ items) ending r t h =
      let r' = skip_item job_id p item r in
      let known = AllKnown-mono r.store r'.store items (λ x k. kept x k) h.1 in
      let rest = process_items-OnlySkipped items ending r' (add_skipped t) known in
      subst
        (λ o.
          OnlySkipped (suc (length items)) r t ending
            (continue o (process_items lib dst job_id request max_errors p items ending)))
        (sym (skips h.0))
        (record {
          destination = rest.destination ∙ unchanged.0;
          error_messages = rest.error_messages ∙ unchanged.1;
          run_failures = rest.run_failures ∙ unchanged.2;
          skipped_items = omega (arith, rest.skipped_items);
          others = rest.others;
          ended = rest.ended;
        })
    where
      skips :
          IsKnown r.store item
          → process_item lib dst job_id request max_errors p item r t
            ≡ (skip_item job_id p item r, add_skipped t, none)
      skips known = known_item_skipped item r t known

      kept : (x : SourceItem) → IsKnown r.store x → IsKnown (skip_item job_id p item r).store x
      kept x k = skip_item-known job_id p item r job_id (fingerprint_of lib request.workload x) k

      unchanged :
          ((skip_item job_id p item r).destination ≡ r.destination)
          × ((skip_item job_id p item r).error_messages ≡ r.error_messages)
          × ((skip_item job_id p item r).run_failures ≡ r.run_failures)
      unchanged = skip_item-rest job_id p item r

-- If a pass over the items of a collection ran to its end and no item failed, and this is no dry run,
-- then a later pass over the same items, to any destination, skips them all: it leaves the
-- destination and the failures of the run as they are, and counts every item as skipped.
pub second_pass :
    {D : Type 0} (lib : Library) (dst dst' : DestinationConnector D) (job_id : String)
    (request : MigrationRequest) (max_errors : ℕ) (p : MigrationPlanItem) (items : List SourceItem)
    (r : RunState D) (t t₂ : Tally)
    → request.options.dry_run ≡ false
    → (process_items lib dst job_id request max_errors p items none r t).2 ≡ none
    → (process_items lib dst job_id request max_errors p items none r t).1.failed_items
      ≡ t.failed_items
    → let r' = (process_items lib dst job_id request max_errors p items none r t).0 in
      OnlySkipped lib dst' job_id request max_errors p
        (length items)
        r'
        t₂
        none
        (process_items lib dst' job_id request max_errors p items none r' t₂)
second_pass lib dst dst' job_id request max_errors p items r t t₂ live ended same =
    process_items-OnlySkipped lib dst' job_id request max_errors p items none _ t₂
      (process_items-AllKnown lib dst job_id request max_errors p items none r t live ended same)

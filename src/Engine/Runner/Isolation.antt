-- ===== src/Engine/Runner/Isolation.antt =====
-- engine/runner.py: what a run of one job leaves alone in the store.
use groupware_migrator.Base.{
  Result, ℕ, String, ◌≡◌, refl, ◌∙◌, Bool, false, ◌||◌, Option, List, arith, ◌==◌, nat_eq,
  string_eq,
}
use groupware_migrator.Domain.Types.{MigrationRequest, MigrationPlan}
use groupware_migrator.State.Schema.{JobRow, Store}
use groupware_migrator.State.Jobs.{
  get_job, increment_counters, append_audit_event, set_job_status, update_job_plan,
}
use groupware_migrator.State.Jobs.Lookup.{
  get_job-increment_counters, get_job-set_job_status, get_job-update_job_plan,
}
use groupware_migrator.State.Progress.{
  has_fingerprint, record_message, set_checkpoint, get_checkpoint, set_sync_cursor,
}
use groupware_migrator.State.Progress.Lookup.{
  has_fingerprint-record_message, get_checkpoint-set_checkpoint,
}
use groupware_migrator.Engine.Idempotency.{Library}
use groupware_migrator.Engine.Connectors.{SourceConnector, DestinationConnector}
use groupware_migrator.Engine.Runner.Run.{run_job}
use groupware_migrator.Engine.Runner.Frame.{Kept, if_ind, run_job-kept}

-- What another job sees of the two stores is the same: its row, its checkpoints, its fingerprints.
pub record SameJob (job : String) (s s' : Store) : Type 0 where
  pub row : get_job job s' ≡ get_job job s
  pub checkpoints :
      (mailbox : String) → get_checkpoint job mailbox s' ≡ get_checkpoint job mailbox s
  pub fingerprints : (fp : String) → has_fingerprint job fp s' ≡ has_fingerprint job fp s

or_nothing : (b : Bool) → (b || false) ≡ b
or_nothing b = ground arith

module _ (job_id job : String) (differ : (job_id == job) ≡ false) where
  row_Kept : (o : Option JobRow) → Kept job_id (λ s. get_job job s ≡ o)
  unfolding get_job append_audit_event set_checkpoint record_message set_sync_cursor has_fingerprint
  row_Kept o = record {
    counters = λ m k f s h. rw (get_job-increment_counters job_id job m k f s) (rw differ h);
    checkpoint = λ mailbox id s h. h;
    audit = λ event level payload s h. h;
    message = λ fp mailbox id target result s h.
        if_ind {A = Store × Bool} (λ x. get_job job x.0 ≡ o) (has_fingerprint job_id fp s) h h;
    status =
        λ st error a b s h. rw (get_job-set_job_status job_id job st error a b s) (rw differ h);
    plan = λ p s h. rw (get_job-update_job_plan job_id job p s) (rw differ h);
    cursor = λ key mailbox id s h. h;
  }

  checkpoint_Kept :
      (mailbox : String) (o : Option String) → Kept job_id (λ s. get_checkpoint job mailbox s ≡ o)
  unfolding get_checkpoint increment_counters append_audit_event record_message set_job_status
      update_job_plan set_sync_cursor has_fingerprint
  checkpoint_Kept mailbox o = record {
    counters = λ m k f s h. h;
    checkpoint = λ mailbox' id s h.
        rw (get_checkpoint-set_checkpoint job_id mailbox' id job mailbox s) (rw differ h);
    audit = λ event level payload s h. h;
    message = λ fp mailbox' id target result s h.
        if_ind {A = Store × Bool} (λ x. get_checkpoint job mailbox x.0 ≡ o)
          (has_fingerprint job_id fp s) h h;
    status = λ st error a b s h. h;
    plan = λ p s h. h;
    cursor = λ key mailbox' id s h. h;
  }

  fingerprint_Kept : (fp : String) (b : Bool) → Kept job_id (λ s. has_fingerprint job fp s ≡ b)
  unfolding has_fingerprint increment_counters append_audit_event set_checkpoint set_job_status
      update_job_plan set_sync_cursor
  fingerprint_Kept fp b = record {
    counters = λ m k f s h. h;
    checkpoint = λ mailbox id s h. h;
    audit = λ event level payload s h. h;
    message = λ fp' mailbox id target result s h.
        rw (has_fingerprint-record_message job_id fp' mailbox id target result job fp s)
          (rw differ (or_nothing _ ∙ h));
    status = λ st error a' b' s h. h;
    plan = λ p s h. h;
    cursor = λ key mailbox id s h. h;
  }

-- A run of one job changes neither the row nor the checkpoints nor the fingerprints of any other job.
pub run_job-SameJob :
    {D : Type 0} (lib : Library) (key : MigrationRequest → Result String) (src : SourceConnector)
    (dst : DestinationConnector D) (job_id job : String) (resume mark_started : Bool)
    (request : MigrationRequest) (cursors : List (String × String)) (stop : ℕ → Bool)
    (plan : MigrationPlan) (s : Store) (d : D)
    → (job_id == job) ≡ false
    → SameJob job s
        (run_job lib key src dst job_id resume mark_started request cursors stop plan s d).1
run_job-SameJob lib key src dst job_id job resume mark_started request cursors stop plan s d
      differ =
    record {
      row =
          run_job-kept (row_Kept job_id job differ _) lib key src dst resume mark_started request
            cursors stop plan s d refl;
      checkpoints = λ mailbox.
          run_job-kept (checkpoint_Kept job_id job differ mailbox _) lib key src dst resume
            mark_started request cursors stop plan s d refl;
      fingerprints = λ fp.
          run_job-kept (fingerprint_Kept job_id job differ fp _) lib key src dst resume mark_started
            request cursors stop plan s d refl;
    }

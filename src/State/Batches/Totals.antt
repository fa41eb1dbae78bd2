-- ===== src/State/Batches/Totals.antt =====
-- engine/state.py: the sums of a batch, and the status that they give.
use groupware_migrator.Base.{
  ℕ, ◌+◌, ◌≤◌, ◌<◌, String, ◌≡◌, ap, ◌∙◌, ◌≢◌, inl, inr, Bool, true, false, ◌&&◌, none, some, List,
  [], ◌∷◌, arith, ltb, if◌then◌else◌, Bool-cases, ◌==◌, nat_eq, string_eq, is_some, is_none, length,
  count_where, All,
}
use groupware_migrator.Domain.Types.{running, completed, failed, cancelled}
use groupware_migrator.State.Schema.{BatchRow, BatchItemRow, Store}
use groupware_migrator.State.Jobs.{is_status}
use groupware_migrator.State.Batches.{
  derive_batch_status, joined_job, counts_pending, counts_running, counts_completed, counts_failed,
  batch_rows, batch_summary_counts, batch_summary_row,
}

-- A row of which the job was cancelled, or that was refused although its job runs or is completed.
unfoldable pub counts_cancelled : Store → BatchItemRow → Bool
unfolding joined_job is_status
counts_cancelled s item = elim (joined_job item s) [
  | none ↦ false
  | some job ↦ is_none item.submit_error && is_status job.status cancelled
]

-- A refused row has no job. The rows that `create_batch` writes when the submission of a created job fails
-- do have one.
abbrev pub IsRefusedClean : Store → BatchItemRow → Type 0
IsRefusedClean s item = is_some item.submit_error ≡ true → joined_job item s ≡ none

one : Bool → ℕ
one true = 1
one false = 0

row_once :
    (s : Store) (item : BatchItemRow)
    → IsRefusedClean s item
    → one (counts_pending s item)
        + one (counts_running s item)
        + one (counts_completed s item)
        + one (counts_failed s item)
        + one (counts_cancelled s item)
      ≡ 1
unfolding counts_pending counts_running counts_completed counts_failed counts_cancelled one
row_once s item clean = ground (arith, clean)

count_cons :
    {A : Type 0} (p : A → Bool) (x : A) (xs : List A)
    → count_where p (x ∷ xs) ≡ one (p x) + count_where p xs
unfolding count_where one
count_cons p x xs = elim (Bool-cases (p x)) [
  | inl e ↦ rw e (omega arith)
  | inr e ↦ rw e (omega arith)
]

rows_once :
    (s : Store) (items : List BatchItemRow)
    → All (IsRefusedClean s) items
    → count_where (counts_pending s) items
        + count_where (counts_running s) items
        + count_where (counts_completed s) items
        + count_where (counts_failed s) items
        + count_where (counts_cancelled s) items
      ≡ length items
unfolding count_where
rows_once s [] h = omega arith
rows_once s (x ∷ xs) h = omega (
  arith,
  row_once s x h.0,
  rows_once s xs h.1,
  count_cons (counts_pending s) x xs,
  count_cons (counts_running s) x xs,
  count_cons (counts_completed s) x xs,
  count_cons (counts_failed s) x xs,
  count_cons (counts_cancelled s) x xs,
)

-- Every row of a batch is counted in exactly one of the four sums of its summary, or its job was
-- cancelled: the sums and the cancelled rows make up the rows of the batch. The rows that were refused
-- at submission have no job.
pub batch_summary_counts-total :
    (batch_id : String) (s : Store)
    → All (IsRefusedClean s) (batch_rows batch_id s)
    → let c = batch_summary_counts batch_id s in
      c.pending_rows
        + c.running_rows
        + c.completed_rows
        + c.failed_rows
        + count_where (counts_cancelled s) (batch_rows batch_id s)
      ≡ c.total_rows_actual
unfolding batch_summary_counts
batch_summary_counts-total batch_id s h = rows_once s (batch_rows batch_id s) h

row_covered :
    (s : Store) (item : BatchItemRow)
    → 1
      ≤ one (counts_pending s item)
        + one (counts_running s item)
        + one (counts_completed s item)
        + one (counts_failed s item)
        + one (counts_cancelled s item)
unfolding counts_pending counts_running counts_completed counts_failed counts_cancelled one
row_covered s item = ground arith

-- Whether or not a refused row has a job, every row is counted at least once.
batch_summary_counts-covers :
    (s : Store) (items : List BatchItemRow)
    → length items
      ≤ count_where (counts_pending s) items
        + count_where (counts_running s) items
        + count_where (counts_completed s) items
        + count_where (counts_failed s) items
        + count_where (counts_cancelled s) items
unfolding count_where
batch_summary_counts-covers s [] = omega arith
batch_summary_counts-covers s (x ∷ xs) = omega (
  arith,
  row_covered s x,
  batch_summary_counts-covers s xs,
  count_cons (counts_pending s) x xs,
  count_cons (counts_running s) x xs,
  count_cons (counts_completed s) x xs,
  count_cons (counts_failed s) x xs,
  count_cons (counts_cancelled s) x xs,
)

stored_total : (n m : ℕ) → n ≢ 0 → (if n == 0 then m else n) ≡ n
stored_total n m h = ground (arith, h)

module _ (base : BatchRow) (s : Store) where
  -- The batch has as many rows as it was created for, at least one, and no row waits or runs.
  pub record IsOver : Type 0 where
    pub full : base.total_rows ≡ (batch_summary_counts base.batch_id s).total_rows_actual
    pub some_row : 0 < base.total_rows
    pub none_pending : (batch_summary_counts base.batch_id s).pending_rows ≡ 0
    pub none_running : (batch_summary_counts base.batch_id s).running_rows ≡ 0

  abbrev pub cancelled_rows : ℕ
  cancelled_rows = count_where (counts_cancelled s) (batch_rows base.batch_id s)

  summary_status :
      base.total_rows ≢ 0
      → (batch_summary_row base s).status
        ≡ derive_batch_status base.total_rows
            (batch_summary_counts base.batch_id s).pending_rows
            (batch_summary_counts base.batch_id s).running_rows
            (batch_summary_counts base.batch_id s).completed_rows
            (batch_summary_counts base.batch_id s).failed_rows
  unfolding batch_summary_row
  summary_status h =
      let c = batch_summary_counts base.batch_id s in
      ap
        (λ (n : ℕ).
          derive_batch_status n c.pending_rows c.running_rows c.completed_rows c.failed_rows)
        (stored_total base.total_rows c.total_rows_actual h)

  -- A batch that is over and has no cancelled row is failed if one of its rows failed, and completed
  -- otherwise.
  pub finished_batch :
      IsOver
      → cancelled_rows ≡ 0
      → (batch_summary_row base s).status
        ≡ (if ltb 0 (batch_summary_counts base.batch_id s).failed_rows then failed else completed)
  unfolding derive_batch_status batch_summary_counts
  finished_batch over none_cancelled =
      summary_status (λ e. omega (arith, over.some_row))
      ∙ ground
          (arith, over, none_cancelled, batch_summary_counts-covers s (batch_rows base.batch_id s))

  -- A batch that is over, has a cancelled row, and in which no row that was refused at submission has
  -- a job, is reported as running.
  pub cancelled_batch_runs :
      IsOver
      → All (IsRefusedClean s) (batch_rows base.batch_id s)
      → 0 < cancelled_rows
      → (batch_summary_row base s).status ≡ running
  unfolding derive_batch_status
  cancelled_batch_runs over clean some_cancelled =
      summary_status (λ e. omega (arith, over.some_row))
      ∙ ground (arith, over, batch_summary_counts-total base.batch_id s clean)

-- ===== src/State/Batches.antt =====
-- engine/state.py: batches, their rows, and the status that is derived from those.
pub mod Totals
pub mod Items
use groupware_migrator.Base.{
  ℕ, ◌+◌, String, string_eq, nat_eq, Bool, false, ◌&&◌, ◌||◌, Option, none, some, List, [], ◌∷◌,
  ◌++◌, leb, ltb, ◌==◌, is_some, is_none, find_where, any_where, count_where, select_where, length,
  Result, ok, err, integrity_error, if◌then◌else◌,
}
use groupware_migrator.Domain.Types.{JobStatus, pending, running, completed, failed}
use groupware_migrator.State.Schema.{JobRow, BatchRow, BatchItemRow, Store}
use groupware_migrator.State.Jobs.{is_status, get_job}

unfoldable pub derive_batch_status : ℕ → ℕ → ℕ → ℕ → ℕ → JobStatus
derive_batch_status total_rows pending_rows running_rows completed_rows failed_rows =
    if leb total_rows 0
    then pending
    else if leb total_rows (completed_rows + failed_rows)
    then (if ltb 0 failed_rows then failed else completed)
    else if ltb 0 running_rows
    then running
    else if ltb 0 pending_rows
    then pending
    else running

abbrev pub batch_is : String → BatchRow → Bool
batch_is batch_id row = row.batch_id == batch_id

abbrev pub item_of : String → BatchItemRow → Bool
item_of batch_id row = row.batch_id == batch_id

-- The id is the one that `uuid.uuid4` gives.
unfoldable pub create_batch : String → Option String → ℕ → Option String → Store → Result Store
create_batch batch_id batch_name total_rows user_id s =
    if any_where (batch_is batch_id) s.batches
    then err (integrity_error "UNIQUE constraint failed: batches.batch_id")
    else ok (record s {
      batches =
          s.batches
          ++ record {
            batch_id = batch_id;
            batch_name = batch_name;
            total_rows = total_rows;
            created_at = s.clock;
            updated_at = s.clock;
            user_id = user_id;
          }
            ∷ [];
    })

unfoldable pub has_batch : String → Store → Bool
has_batch batch_id s = any_where (batch_is batch_id) s.batches

abbrev same_item : String → ℕ → BatchItemRow → Bool
same_item batch_id row_number row = row.batch_id == batch_id && row.row_number == row_number

unfoldable pub add_batch_item :
    String
    → ℕ
    → String
    → String
    → Option String
    → Option String
    → Option String
    → Store
    → Result Store
add_batch_item batch_id row_number source_username destination_username job_id job_name submit_error
      s =
    if any_where (same_item batch_id row_number) s.batch_items
    then err
        (integrity_error "UNIQUE constraint failed: batch_items.batch_id, batch_items.row_number")
    else ok (record s {
      batch_items =
          s.batch_items
          ++ record {
            batch_id = batch_id;
            row_number = row_number;
            job_id = job_id;
            job_name = job_name;
            source_username = source_username;
            destination_username = destination_username;
            submit_error = submit_error;
            created_at = s.clock;
            updated_at = s.clock;
          }
            ∷ [];
    })

-- LEFT JOIN jobs j ON j.job_id = bi.job_id
unfoldable pub joined_job : BatchItemRow → Store → Option JobRow
unfolding get_job
joined_job item s = elim item.job_id [ none ↦ none | some id ↦ get_job id s ]

abbrev has_status : JobStatus → Option JobRow → Bool
has_status status none = false
has_status status (some job) = is_status job.status status

-- The CASE tests of the four sums.
unfoldable pub counts_pending : Store → BatchItemRow → Bool
unfolding joined_job is_status
counts_pending s item =
    is_none item.submit_error
    && (is_none (joined_job item s) || has_status pending (joined_job item s))

unfoldable pub counts_running : Store → BatchItemRow → Bool
unfolding joined_job is_status
counts_running s item = has_status running (joined_job item s)

unfoldable pub counts_completed : Store → BatchItemRow → Bool
unfolding joined_job is_status
counts_completed s item = has_status completed (joined_job item s)

unfoldable pub counts_failed : Store → BatchItemRow → Bool
unfolding joined_job is_status
counts_failed s item = is_some item.submit_error || has_status failed (joined_job item s)

-- SUM(COALESCE(j.column, 0))
unfoldable pub sum_jobs : Store → (JobRow → ℕ) → List BatchItemRow → ℕ
unfolding joined_job
sum_jobs s column [] = 0
sum_jobs s column (item ∷ items) =
    elim (joined_job item s) [ none ↦ 0 | some job ↦ column job ] + sum_jobs s column items

pub record Counts : Type 0 where
  pub total_rows_actual : ℕ
  pub pending_rows : ℕ
  pub running_rows : ℕ
  pub completed_rows : ℕ
  pub failed_rows : ℕ
  pub migrated_count : ℕ
  pub skipped_count : ℕ
  pub message_failed_count : ℕ

-- WHERE bi.batch_id = ?
abbrev pub batch_rows : String → Store → List BatchItemRow
batch_rows batch_id s = select_where (item_of batch_id) s.batch_items

unfoldable pub batch_summary_counts : String → Store → Counts
unfolding counts_pending counts_running counts_completed counts_failed sum_jobs
batch_summary_counts batch_id s =
    let items = batch_rows batch_id s in
    record {
      total_rows_actual = length items;
      pending_rows = count_where (counts_pending s) items;
      running_rows = count_where (counts_running s) items;
      completed_rows = count_where (counts_completed s) items;
      failed_rows = count_where (counts_failed s) items;
      migrated_count = sum_jobs s (λ job. job.migrated_count) items;
      skipped_count = sum_jobs s (λ job. job.skipped_count) items;
      message_failed_count = sum_jobs s (λ job. job.failed_count) items;
    }

pub record BatchSummary : Type 0 where
  pub batch_id : String
  pub batch_name : Option String
  pub status : JobStatus
  pub total_rows : ℕ
  pub counts : Counts
  pub created_at : ℕ
  pub updated_at : ℕ

-- `int(base_row.get("total_rows") or counts["total_rows_actual"])`: a stored 0 gives way.
unfoldable pub batch_summary_row : BatchRow → Store → BatchSummary
unfolding batch_summary_counts derive_batch_status
batch_summary_row base s =
    let counts = batch_summary_counts base.batch_id s in
    let total = if base.total_rows == 0 then counts.total_rows_actual else base.total_rows in
    record {
      batch_id = base.batch_id;
      batch_name = base.batch_name;
      status =
          derive_batch_status total counts.pending_rows counts.running_rows counts.completed_rows
            counts.failed_rows;
      total_rows = total;
      counts = counts;
      created_at = base.created_at;
      updated_at = base.updated_at;
    }

unfoldable pub get_batch : String → Store → Option BatchSummary
unfolding batch_summary_row
get_batch batch_id s = elim (find_where (batch_is batch_id) s.batches) [
  | none ↦ none
  | some base ↦ some (batch_summary_row base s)
]

-- `if submit_error:` and `elif job_status:` of `list_batch_items`
unfoldable pub item_status : BatchItemRow → Store → JobStatus
unfolding joined_job
item_status item s = elim item.submit_error [
  | none ↦ elim (joined_job item s) [ none ↦ pending | some job ↦ job.status ]
  | some error ↦
      if error == ""
      then (elim (joined_job item s) [ none ↦ pending | some job ↦ job.status ])
      else failed
]

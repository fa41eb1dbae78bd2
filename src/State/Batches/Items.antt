-- ===== src/State/Batches/Items.antt =====
-- engine/state.py: `list_batch_items`.
pub mod Agreement
use groupware_migrator.Base.{
  ℕ, String, Bool, Option, none, some, List, [], ◌∷◌, ltb, ◌==◌, string_eq, if◌then◌else◌, map,
}
use groupware_migrator.Domain.Types.{JobStatus}
use groupware_migrator.State.Schema.{JobRow, BatchItemRow, Store}
use groupware_migrator.State.Batches.{batch_rows, joined_job, item_status}

pub record BatchItem : Type 0 where
  pub batch_id : String
  pub row_number : ℕ
  pub job_id : Option String
  pub job_name : Option String
  pub source_username : String
  pub destination_username : String
  pub status : JobStatus
  pub migrated_count : ℕ
  pub skipped_count : ℕ
  pub failed_count : ℕ
  pub last_error : Option String
  pub created_at : ℕ
  pub updated_at : ℕ
  pub started_at : Option ℕ
  pub finished_at : Option ℕ

-- a column of the joined row, where there is one
unfoldable pub column : {A : Type 0} → A → (JobRow → A) → Option JobRow → A
column default f none = default
column default f (some job) = f job

-- `submit_error or row["last_error"]`
unfoldable pub or_text : Option String → Option String → Option String
or_text none other = other
or_text (some text) other = if text == "" then other else some text

unfoldable pub item_view : Store → BatchItemRow → BatchItem
unfolding joined_job item_status column or_text
item_view s item =
    let job = joined_job item s in
    record {
      batch_id = item.batch_id;
      row_number = item.row_number;
      job_id = item.job_id;
      job_name = item.job_name;
      source_username = item.source_username;
      destination_username = item.destination_username;
      status = item_status item s;
      migrated_count = column 0 (λ j. j.migrated_count) job;
      skipped_count = column 0 (λ j. j.skipped_count) job;
      failed_count = column 0 (λ j. j.failed_count) job;
      last_error = or_text item.submit_error (column none (λ j. j.last_error) job);
      created_at = column item.created_at (λ j. j.created_at) job;
      updated_at = column item.updated_at (λ j. j.updated_at) job;
      started_at = column none (λ j. j.started_at) job;
      finished_at = column none (λ j. j.finished_at) job;
    }

-- ORDER BY bi.row_number ASC
unfoldable pub insert_row : BatchItemRow → List BatchItemRow → List BatchItemRow
insert_row item [] = item ∷ []
insert_row item (i ∷ items) =
    let rest = insert_row item items in
    if ltb i.row_number item.row_number then i ∷ rest else item ∷ i ∷ items

unfoldable pub by_row_number : List BatchItemRow → List BatchItemRow
unfolding insert_row
by_row_number [] = []
by_row_number (item ∷ items) = insert_row item (by_row_number items)

unfoldable pub list_batch_items : String → Store → List BatchItem
unfolding item_view by_row_number
list_batch_items batch_id s = map (item_view s) (by_row_number (batch_rows batch_id s))

-- ===== src/State/Progress.antt =====
-- engine/state.py: what a run remembers, in the tables `checkpoints`, `message_migrations` and
-- `sync_cursors`.
pub mod Lookup
use groupware_migrator.Base.{
  String, string_eq, Bool, true, false, ◌&&◌, Option, none, some, List, [], ◌∷◌, ◌++◌, ◌==◌,
  find_where, any_where, update_where, Result, ok, err, ◌>>=◌, value_error, if◌then◌else◌,
}
use Prim.Native.String.{◌++◌ as str_append}
use groupware_migrator.Domain.Types.{MigrationRequest, completed}
use groupware_migrator.State.Schema.{CheckpointRow, SyncCursorRow, MessageRow, Store}
use groupware_migrator.State.Jobs.{is_status, get_job}

abbrev pub checkpoint_is : String → String → CheckpointRow → Bool
checkpoint_is job_id mailbox row = row.job_id == job_id && row.source_mailbox == mailbox

abbrev pub message_is : String → String → MessageRow → Bool
message_is job_id fingerprint row = row.job_id == job_id && row.fingerprint == fingerprint

abbrev pub cursor_is : String → String → SyncCursorRow → Bool
cursor_is sync_key mailbox row = row.sync_key == sync_key && row.source_mailbox == mailbox

unfoldable pub has_fingerprint : String → String → Store → Bool
has_fingerprint job_id fingerprint s = any_where (message_is job_id fingerprint) s.messages

-- INSERT OR IGNORE: the flag says whether a row was inserted.
unfoldable pub record_message :
    String → String → String → String → String → Option String → Store → Store × Bool
record_message job_id fingerprint source_mailbox source_id destination_mailbox destination_id s =
    if any_where (message_is job_id fingerprint) s.messages then (s, false) else (
      record s {
        messages =
            s.messages
            ++ record {
              job_id = job_id;
              fingerprint = fingerprint;
              source_mailbox = source_mailbox;
              source_id = source_id;
              destination_mailbox = destination_mailbox;
              destination_id = destination_id;
              migrated_at = s.clock;
            }
              ∷ [];
      },
      true,
    )

-- INSERT ... ON CONFLICT(job_id, source_mailbox) DO UPDATE
unfoldable pub set_checkpoint : String → String → String → Store → Store
set_checkpoint job_id mailbox source_id s = record s {
  checkpoints =
      if any_where (checkpoint_is job_id mailbox) s.checkpoints
      then update_where (checkpoint_is job_id mailbox)
          (λ row. record row { last_source_id = some source_id; updated_at = s.clock })
          s.checkpoints
      else s.checkpoints
        ++ record {
          job_id = job_id;
          source_mailbox = mailbox;
          last_source_id = some source_id;
          updated_at = s.clock;
        }
          ∷ [];
}

abbrev pub checkpoint_value : Option CheckpointRow → Option String
checkpoint_value none = none
checkpoint_value (some row) = row.last_source_id

unfoldable pub get_checkpoint : String → String → Store → Option String
get_checkpoint job_id mailbox s =
    checkpoint_value (find_where (checkpoint_is job_id mailbox) s.checkpoints)

-- WHERE job_id = ? AND last_source_id IS NOT NULL. The result is a dictionary, and its callers do
-- not depend on the order of its entries.
unfoldable pub checkpoint_entries : String → List CheckpointRow → List (String × String)
checkpoint_entries job_id [] = []
checkpoint_entries job_id (row ∷ rows) =
    let rest = checkpoint_entries job_id rows in
    if row.job_id == job_id
    then (elim row.last_source_id [ none ↦ rest | some id ↦ (row.source_mailbox, id) ∷ rest ])
    else rest

unfoldable pub get_job_checkpoints : String → Store → List (String × String)
unfolding checkpoint_entries
get_job_checkpoints job_id s = checkpoint_entries job_id s.checkpoints

unfoldable pub set_sync_cursor : String → String → String → Store → Store
set_sync_cursor sync_key mailbox source_id s = record s {
  sync_cursors =
      if any_where (cursor_is sync_key mailbox) s.sync_cursors
      then update_where (cursor_is sync_key mailbox)
          (λ row. record row { last_source_id = source_id; updated_at = s.clock }) s.sync_cursors
      else s.sync_cursors
        ++ record {
          sync_key = sync_key;
          source_mailbox = mailbox;
          last_source_id = source_id;
          updated_at = s.clock;
        }
          ∷ [];
}

abbrev pub cursor_value : Option SyncCursorRow → Option String
cursor_value none = none
cursor_value (some row) = some row.last_source_id

unfoldable pub get_sync_cursor : String → String → Store → Option String
get_sync_cursor sync_key mailbox s =
    cursor_value (find_where (cursor_is sync_key mailbox) s.sync_cursors)

unfoldable pub cursor_entries : String → List SyncCursorRow → List (String × String)
cursor_entries sync_key [] = []
cursor_entries sync_key (row ∷ rows) =
    let rest = cursor_entries sync_key rows in
    if row.sync_key == sync_key then (row.source_mailbox, row.last_source_id) ∷ rest else rest

unfoldable pub list_sync_cursors : String → Store → List (String × String)
unfolding cursor_entries
list_sync_cursors sync_key s = cursor_entries sync_key s.sync_cursors

-- `if base_job_id:`
abbrev pub truthy : Option String → Option String
truthy none = none
truthy (some s) = if s == "" then none else some s

-- the loop of `update_sync_cursors_from_job`
unfoldable pub set_sync_cursors : String → List (String × String) → Store → Store
unfolding set_sync_cursor
set_sync_cursors sync_key [] s = s
set_sync_cursors sync_key ((mailbox, source_id) ∷ rest) s =
    set_sync_cursors sync_key rest (set_sync_cursor sync_key mailbox source_id s)

-- `build_sync_key` hashes what identifies the request, or raises: here it is any such function of the
-- request, and `sync_key_for_request` of SyncKey is the one of the source.
module _ (build_sync_key : MigrationRequest → Result String) where
  unfoldable pub resolve_incremental_cursors :
      MigrationRequest → Option String → Store → Result (List (String × String))
  unfolding is_status get_job get_job_checkpoints list_sync_cursors
  resolve_incremental_cursors request base_job_id s = elim (truthy base_job_id) [
    | none ↦ (build_sync_key request >>= λ sync_key. ok (list_sync_cursors sync_key s))
    | some id ↦ elim (get_job id s) [
      | none ↦ err (value_error (str_append (str_append "Base job " id) " does not exist."))
      | some row ↦
          if is_status row.status completed
          then ok (get_job_checkpoints id s)
          else err (
              value_error (
                str_append (str_append "Base job " id)
                  " is not completed; incremental sync requires a completed base job."))
    ]
  ]

  unfoldable pub update_sync_cursors_from_job : MigrationRequest → String → Store → Result Store
  unfolding get_job_checkpoints set_sync_cursors
  update_sync_cursors_from_job request job_id s = do
    sync_key ← build_sync_key request
    ok (set_sync_cursors sync_key (get_job_checkpoints job_id s) s)

-- ===== src/State/Progress/Lookup.antt =====
-- engine/state.py: what the checkpoints, cursors and fingerprints say after a write.
use groupware_migrator.Base.{
  String, ◌≡◌, refl, ap, ◌∙◌, inl, inr, Bool, true, false, not, ◌&&◌, ◌||◌, Option, none, some,
  arith, if◌then◌else◌, Bool-cases, ◌==◌, nat_eq, string_eq, find_where, any_where,
  any_where-append,
}
use groupware_migrator.Base.Keyed.{find_where-upsert, at_key, written, pair_eq}
use groupware_migrator.State.Schema.{CheckpointRow, SyncCursorRow, Store}
use groupware_migrator.State.Progress.{
  message_is, has_fingerprint, record_message, set_checkpoint, checkpoint_value, get_checkpoint,
  set_sync_cursor, cursor_value, get_sync_cursor,
}

abbrev checkpoint_row : CheckpointRow → String × String
checkpoint_row row = (row.job_id, row.source_mailbox)

abbrev cursor_row : SyncCursorRow → String × String
cursor_row row = (row.sync_key, row.source_mailbox)

-- A checkpoint that was set is read back under its job and mailbox, and under no other.
pub get_checkpoint-set_checkpoint :
    (k n id j m : String) (s : Store)
    → get_checkpoint j m (set_checkpoint k n id s)
      ≡ (if k == j && n == m then some id else get_checkpoint j m s)
unfolding get_checkpoint set_checkpoint
get_checkpoint-set_checkpoint k n id j m s =
    let f : CheckpointRow → CheckpointRow =
      λ row. record row { last_source_id = some id; updated_at = s.clock } in
    let new : CheckpointRow = record {
      job_id = k;
      source_mailbox = n;
      last_source_id = some id;
      updated_at = s.clock;
    } in
    let found = find_where (at_key checkpoint_row (k, n)) s.checkpoints in
    ap checkpoint_value
      (find_where-upsert checkpoint_row (k, n) (j, m) f new s.checkpoints (λ row. refl) refl)
    ∙ value (k == j && n == m) f new found (find_where (at_key checkpoint_row (j, m)) s.checkpoints)
        (λ row. refl) refl
  where
    value :
        (b : Bool) (f : CheckpointRow → CheckpointRow) (new : CheckpointRow)
        (o o' : Option CheckpointRow)
        → ((row : CheckpointRow) → (f row).last_source_id ≡ some id)
        → new.last_source_id ≡ some id
        → checkpoint_value (if b then some (written checkpoint_row f new o) else o')
          ≡ (if b then some id else checkpoint_value o')
    value true f new none o' hf hn = hn
    value true f new (some row) o' hf hn = hf row
    value false f new o o' hf hn = refl

-- A sync cursor that was set is read back under its sync key and mailbox, and under no other.
pub get_sync_cursor-set_sync_cursor :
    (k n id j m : String) (s : Store)
    → get_sync_cursor j m (set_sync_cursor k n id s)
      ≡ (if k == j && n == m then some id else get_sync_cursor j m s)
unfolding get_sync_cursor set_sync_cursor
get_sync_cursor-set_sync_cursor k n id j m s =
    let f : SyncCursorRow → SyncCursorRow =
      λ row. record row { last_source_id = id; updated_at = s.clock } in
    let new : SyncCursorRow = record {
      sync_key = k;
      source_mailbox = n;
      last_source_id = id;
      updated_at = s.clock;
    } in
    let found = find_where (at_key cursor_row (k, n)) s.sync_cursors in
    ap cursor_value
      (find_where-upsert cursor_row (k, n) (j, m) f new s.sync_cursors (λ row. refl) refl)
    ∙ value (k == j && n == m) f new found (find_where (at_key cursor_row (j, m)) s.sync_cursors)
        (λ row. refl) refl
  where
    value :
        (b : Bool) (f : SyncCursorRow → SyncCursorRow) (new : SyncCursorRow)
        (o o' : Option SyncCursorRow)
        → ((row : SyncCursorRow) → (f row).last_source_id ≡ id)
        → new.last_source_id ≡ id
        → cursor_value (if b then some (written cursor_row f new o) else o')
          ≡ (if b then some id else cursor_value o')
    value true f new none o' hf hn = ap some hn
    value true f new (some row) o' hf hn = ap some (hf row)
    value false f new o o' hf hn = refl

or_false : (a b : Bool) → (a || (b || false)) ≡ (a || b)
or_false a b = ground arith

-- After a fingerprint was recorded, exactly the fingerprints known before and that one are known.
pub has_fingerprint-record_message :
    (k fp mailbox id target : String) (result : Option String) (j fp' : String) (s : Store)
    → has_fingerprint j fp' (record_message k fp mailbox id target result s).0
      ≡ (has_fingerprint j fp' s || (k == j && fp == fp'))
unfolding has_fingerprint record_message any_where
has_fingerprint-record_message k fp mailbox id target result j fp' s =
    elim (Bool-cases (any_where (message_is k fp) s.messages)) [
      | inl known ↦ ground (arith, known, string_eq.beq_iff k j, string_eq.beq_iff fp fp')
      | inr new ↦ rw new (
          any_where-append (message_is j fp') s.messages _
          ∙ or_false (any_where (message_is j fp') s.messages) (k == j && fp == fp'))
    ]

-- The flag of `record_message` says whether the fingerprint was new.
pub record_message-flag :
    (k fp mailbox id target : String) (result : Option String) (s : Store)
    → (record_message k fp mailbox id target result s).1 ≡ not (has_fingerprint k fp s)
unfolding has_fingerprint record_message
record_message-flag k fp mailbox id target result s = ground arith

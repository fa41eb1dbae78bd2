-- ===== src/Tests/Accounts.antt =====
-- Users, API keys, recovery codes and the clean-up, on a small store.
use groupware_migrator.Base.{
  ◌++◌, ◌+◌, String, ◌≡◌, refl, ◌≢◌, true, false, none, some, [], ◌∷◌, nat_eq, string_eq, length,
  find_where, any_where, count_where, pos,
}
use groupware_migrator.Domain.Types.{running, completed}
use groupware_migrator.State.Schema.{UserRow, JobRow, Store}
use groupware_migrator.State.Jobs.{get_job}
use groupware_migrator.State.Accounts.{
  get_user_by_id, digest, create_api_key, validate_api_key, revoke_api_key,
  consume_totp_recovery_code,
}
use groupware_migrator.State.Accounts.RecoveryCodes.{consume_totp_recovery_code-once}
use groupware_migrator.State.Accounts.Keys.{
  identity_of, validate_api_key-create_api_key, validate_api_key-revoke_api_key,
}
use groupware_migrator.State.Listings.{cleanup_old_records}
use groupware_migrator.State.Listings.Kept.{IsRecent, cleanup_old_records-keeps}
use groupware_migrator.Tests.Fixtures.{test_library, job, store_of}

-- The codes are the texts "A" and "B", of which the test digests are "c" and "a".
abbrev user : UserRow
user = record {
  id = "u1";
  email = "ann@example.org";
  password_hash = "h";
  is_admin = false;
  created_at = 0;
  is_active = false;
  role = "operator";
  totp_secret = some "t";
  totp_enabled = true;
  totp_recovery = some ("c" ∷ "a" ∷ []);
  auth_backend = "local";
}

abbrev accounts : Store
accounts = record (store_of []) { users = user ∷ [] }

consume_totp_recovery_code-once_example :
    let (s', accepted) = consume_totp_recovery_code test_library "u1" "A" accounts in
    (accepted ≡ true)
    × ((consume_totp_recovery_code test_library "u1" "A" s').1 ≡ false)
    × ((code' : String)
        → digest test_library "A" ≢ digest test_library code'
        → (consume_totp_recovery_code test_library "u1" code' s').1
          ≡ (consume_totp_recovery_code test_library "u1" code' accounts).1)
unfolding get_user_by_id find_where count_where
consume_totp_recovery_code-once_example =
    consume_totp_recovery_code-once test_library "u1" "A" ("c" ∷ "a" ∷ []) accounts refl refl

abbrev with_key : Store
with_key = record accounts {
  api_keys =
      record {
        id = "k1";
        user_id = "u1";
        key_hash = "c";
        label = "ci";
        created_at = 1000;
        last_used_at = none;
      }
      ∷ [];
}

validate_api_key-create_api_key_example :
    (validate_api_key test_library "A" with_key).0 ≡ some (identity_of user)
unfolding create_api_key get_user_by_id find_where any_where
validate_api_key-create_api_key_example =
    validate_api_key-create_api_key test_library "k1" "A" "u1" "ci" accounts with_key user refl refl

abbrev two_keys : Store
two_keys = record with_key {
  api_keys =
      with_key.api_keys
      ++ record {
        id = "k2";
        user_id = "u1";
        key_hash = "a";
        label = "laptop";
        created_at = 1000;
        last_used_at = some 2000;
      }
        ∷ [];
}

validate_api_key-revoke_api_key_example :
    let s' = (revoke_api_key "k1" "u1" two_keys).0 in
    ((validate_api_key test_library "A" s').0 ≡ none)
    × ((validate_api_key test_library "B" s').0 ≡ (validate_api_key test_library "B" two_keys).0)
validate_api_key-revoke_api_key_example =
    validate_api_key-revoke_api_key test_library "k1" "u1" "A" "B" two_keys
      ((λ h. refl), ((λ h. absurd (cc (h))), tt)) ((λ h. absurd (cc (h))), ((λ h. refl), tt))

abbrev old_jobs : Store
old_jobs =
    record (store_of
      (record (job "j1" completed) { finished_at = some 900 } ∷ job "j2" running ∷ [])) {
        clock = 100_000_000_000;
      }

cleanup_old_records-keeps_example :
    let (s', counts) = cleanup_old_records (pos 0) old_jobs in
    ((job_id : String) (row : JobRow)
      → get_job job_id old_jobs ≡ some row
      → IsRecent (pos 0) old_jobs.clock row
      → get_job job_id s' ≡ some row)
    × (length s'.jobs + counts.jobs_deleted ≡ 2)
    × (length s'.batches + counts.batches_deleted ≡ 0)
    × (length s'.admin_audit_events + counts.admin_events_deleted ≡ 0)
cleanup_old_records-keeps_example = cleanup_old_records-keeps (pos 0) old_jobs

cleanup_example : (cleanup_old_records (pos 0) old_jobs).1.jobs_deleted ≡ 1
unfolding cleanup_old_records count_where
cleanup_example = refl

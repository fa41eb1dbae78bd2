-- ===== src/State/Accounts.antt =====
-- engine/state.py: users, their API keys, second factors, notification preferences, and the log of
-- the administrators.
pub mod RecoveryCodes
pub mod Keys
use groupware_migrator.Base.{
  string_eq, ℕ, ◌+◌, min, max, String, Bool, true, false, ◌&&◌, ◌||◌, Option, none, some, List, [],
  ◌∷◌, ◌++◌, map, if◌then◌else◌, ◌==◌, is_some, is_none, length, take, find_where, update_where,
  any_where, delete_where, integrity_error, Result, ok, err, ℤ, pos_part, Fields,
}
use groupware_migrator.Base.Text.{strip}
use groupware_migrator.Engine.Idempotency.{Library}
use groupware_migrator.State.Schema.{UserRow, ApiKeyRow, AdminAuditRow, NotificationPrefsRow, Store}

abbrev pub user_is : String → UserRow → Bool
user_is user_id row = row.id == user_id

abbrev pub email_is : String → UserRow → Bool
email_is email row = row.email == email

unfoldable pub get_user_by_id : String → Store → Option UserRow
get_user_by_id user_id s = find_where (user_is user_id) s.users

unfoldable pub count_users : Store → ℕ
count_users s = length s.users

-- UPDATE users SET ... WHERE ..., and `cursor.rowcount > 0`
unfoldable pub update_users : (UserRow → Bool) → (UserRow → UserRow) → Store → Store × Bool
update_users which f s =
    (record s { users = update_where which f s.users }, any_where which s.users)

-- `role if role else ("admin" if is_admin else "operator")`
unfoldable pub effective_role : String → Bool → String
effective_role role is_admin =
    if role == "" then (if is_admin then "admin" else "operator") else role

unfoldable pub change_password : String → String → Store → Store × Bool
unfolding update_users
change_password user_id new_password_hash =
    update_users (user_is user_id) (λ row. record row { password_hash = new_password_hash })

abbrev is_admin_role : String → Bool
is_admin_role role = role == "admin" || role == "super_admin"

abbrev or_same {ℓ} : {A : Type ℓ} → A → Option A → A
or_same old none = old
or_same old (some new) = new

-- `is_admin` follows the role, unless it is given itself.
abbrev pub new_is_admin : Bool → Option Bool → Option String → Bool
new_is_admin old (some is_admin) role = is_admin
new_is_admin old none none = old
new_is_admin old none (some role) = is_admin_role role

unfoldable pub updated_user : Option Bool → Option Bool → Option String → UserRow → UserRow
updated_user is_admin is_active role row = record row {
  is_admin = new_is_admin row.is_admin is_admin role;
  is_active = or_same row.is_active is_active;
  role = or_same row.role role;
}

-- `if not updates: return False`
unfoldable pub update_user :
    String → Option Bool → Option Bool → Option String → Store → Store × Bool
unfolding update_users updated_user
update_user user_id is_admin is_active role s =
    if is_none is_admin && is_none is_active && is_none role
    then (s, false)
    else update_users (user_is user_id) (updated_user is_admin is_active role) s

unfoldable pub enable_totp : String → Store → Store × Bool
unfolding update_users
enable_totp user_id =
    update_users (λ row. user_is user_id row && is_some row.totp_secret)
      (λ row. record row { totp_enabled = true })

unfoldable pub disable_totp : String → Store → Store × Bool
unfolding update_users
disable_totp user_id =
    update_users (user_is user_id)
      (λ row. record row { totp_secret = none; totp_enabled = false; totp_recovery = none })

-- `hashed_codes.remove(code_hash)` takes the first one away.
unfoldable pub remove_first : String → List String → List String
remove_first x [] = []
remove_first x (y ∷ ys) = let rest = remove_first x ys in if y == x then ys else y ∷ rest

abbrev pub member : String → List String → Bool
member x xs = any_where (λ y. y == x) xs

-- the payload that `validate_api_key` returns
pub record Identity : Type 0 where
  pub sub : String
  pub email : String
  pub is_admin : Bool

abbrev pub key_is : String → ApiKeyRow → Bool
key_is key_id row = row.id == key_id

abbrev pub hash_is : String → ApiKeyRow → Bool
hash_is key_hash row = row.key_hash == key_hash

module _ (lib : Library) where
  abbrev pub digest : String → String
  digest text = lib.sha256 (lib.encode text)

  -- `email.lower().strip()`
  unfoldable pub normal_email : String → String
  unfolding strip
  normal_email email = strip (lib.lower email)

  unfoldable pub get_user_by_email : String → Store → Option UserRow
  unfolding normal_email
  get_user_by_email email s = find_where (email_is (normal_email email)) s.users

  -- A row of that id or that address makes the INSERT fail.
  unfoldable pub create_user :
      String → String → String → Bool → String → String → Store → Result Store
  unfolding normal_email effective_role
  create_user id email password_hash is_admin role auth_backend s =
      if any_where (user_is id) s.users || any_where (email_is (normal_email email)) s.users
      then err (integrity_error "UNIQUE constraint failed: users")
      else ok (record s {
        users =
            s.users
            ++ record {
              id = id;
              email = normal_email email;
              password_hash = password_hash;
              is_admin = is_admin;
              created_at = s.clock;
              is_active = true;
              role = effective_role role is_admin;
              totp_secret = none;
              totp_enabled = false;
              totp_recovery = none;
              auth_backend = auth_backend;
            }
              ∷ [];
      })

  -- `key_id` and `raw_key` are the random id and the random key.
  unfoldable pub create_api_key : String → String → String → String → Store → Result Store
  create_api_key key_id raw_key user_id label s =
      if any_where (key_is key_id) s.api_keys || any_where (hash_is (digest raw_key)) s.api_keys
      then err (integrity_error "UNIQUE constraint failed: api_keys")
      else ok (record s {
        api_keys =
            s.api_keys
            ++ record {
              id = key_id;
              user_id = user_id;
              key_hash = digest raw_key;
              label = label;
              created_at = s.clock;
              last_used_at = none;
            }
              ∷ [];
      })

  -- what the JOIN makes of the key's row and its user's
  unfoldable pub found_key : ApiKeyRow → Option UserRow → Store → Option Identity × Store
  found_key key none s = (none, s)
  found_key key (some user) s = (
    some (record { sub = user.id; email = user.email; is_admin = user.is_admin }),
    record s {
      api_keys =
          update_where (key_is key.id) (λ row. record row { last_used_at = some s.clock })
            s.api_keys;
    },
  )

  unfoldable pub validate_api_key : String → Store → Option Identity × Store
  validate_api_key raw_key s = elim (find_where (hash_is (digest raw_key)) s.api_keys) [
    | none ↦ (none, s)
    | some key ↦ found_key key (get_user_by_id key.user_id s) s
  ]

  unfoldable pub set_totp_secret : String → String → List String → Store → Store
  unfolding update_users
  set_totp_secret user_id secret recovery_codes s =
      (update_users (user_is user_id)
        (λ row. record row {
          totp_secret = some secret;
          totp_recovery = some (map digest recovery_codes);
          totp_enabled = false;
        })
        s).0

  -- `not user.get("totp_recovery_json")`
  abbrev recovery_of : Option UserRow → Option (List String)
  recovery_of none = none
  recovery_of (some user) = user.totp_recovery

  -- What is left of the codes, if the code is among them.
  unfoldable pub checked_codes : String → List String → Option (List String)
  unfolding remove_first
  checked_codes code codes =
      if member (digest code) codes then some (remove_first (digest code) codes) else none

  -- The part of `consume_totp_recovery_code` up to its UPDATE, of which only `get_user_by_id` holds the
  -- lock.
  unfoldable pub read_codes : String → String → Store → Option (List String)
  unfolding checked_codes
  read_codes user_id code s = elim (recovery_of (get_user_by_id user_id s)) [
    | none ↦ none
    | some codes ↦ checked_codes code codes
  ]

  -- The UPDATE, which holds the lock again, where one is made.
  unfoldable pub write_codes : String → Option (List String) → Store → Store × Bool
  unfolding update_users
  write_codes user_id none s = (s, false)
  write_codes user_id (some codes) s = (
    (update_users (user_is user_id) (λ row. record row { totp_recovery = some codes }) s).0,
    true,
  )

  -- The two steps with no other call between them.
  unfoldable pub consume_totp_recovery_code : String → String → Store → Store × Bool
  unfolding read_codes write_codes
  consume_totp_recovery_code user_id code s = write_codes user_id (read_codes user_id code s) s

-- The flag is `cursor.rowcount > 0`.
unfoldable pub revoke_api_key : String → String → Store → Store × Bool
revoke_api_key key_id user_id s = (
  record s {
    api_keys = delete_where (λ row. key_is key_id row && row.user_id == user_id) s.api_keys;
  },
  any_where (λ row. key_is key_id row && row.user_id == user_id) s.api_keys,
)

abbrev pub prefs_are : String → NotificationPrefsRow → Bool
prefs_are user_id row = row.user_id == user_id

abbrev pub no_prefs : String → NotificationPrefsRow
no_prefs user_id = record {
  user_id = user_id;
  on_completed = false;
  on_failed = false;
  on_cancelled = false;
}

unfoldable pub get_notification_prefs : String → Store → NotificationPrefsRow
get_notification_prefs user_id s = elim (find_where (prefs_are user_id) s.notification_prefs) [
  | none ↦ no_prefs user_id
  | some row ↦ row
]

-- INSERT ... ON CONFLICT(user_id) DO UPDATE
unfoldable pub set_notification_prefs : NotificationPrefsRow → Store → Store
set_notification_prefs new s = record s {
  notification_prefs =
      if any_where (prefs_are new.user_id) s.notification_prefs
      then update_where (prefs_are new.user_id) (λ row. new) s.notification_prefs
      else s.notification_prefs ++ new ∷ [];
}

unfoldable pub log_admin_action : String → String → Option String → Fields → Store → Store
log_admin_action admin_id action target_id details s = record s {
  admin_audit_events =
      s.admin_audit_events
      ++ record {
        admin_id = admin_id;
        action = action;
        target_id = target_id;
        details = details;
        created_at = s.clock;
      }
        ∷ [];
}

-- `max(min(limit, most), 1)`
unfoldable pub safe_limit : ℤ → ℕ → ℕ
safe_limit limit most = max (min (pos_part limit) most) 1

-- ORDER BY id DESC: the rows are in the order of their ids.
unfoldable pub newest_first {ℓ} : {A : Type ℓ} → List A → List A
newest_first [] = []
newest_first (x ∷ xs) = newest_first xs ++ x ∷ []

unfoldable pub list_admin_audit_events : ℤ → Store → List AdminAuditRow
unfolding newest_first safe_limit
list_admin_audit_events limit s = take (safe_limit limit 500) (newest_first s.admin_audit_events)

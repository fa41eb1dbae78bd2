-- ===== src/State/Schema.antt =====
-- engine/state.py: the rows of the tables, and the store that holds them.
use groupware_migrator.Base.{ℕ, String, Bool, Option, List, Json, Fields}
use groupware_migrator.Domain.Types.{JobStatus}

-- A time is a number of microseconds; ISO texts of UTC times compare in the same order.
pub record JobRow : Type 0 where
  pub job_id : String
  pub job_name : Option String
  pub status : JobStatus
  pub source_protocol : String
  pub destination_protocol : String
  pub request_json : Json
  pub plan_json : Json
  pub dry_run : Bool
  pub migrated_count : ℕ
  pub skipped_count : ℕ
  pub failed_count : ℕ
  pub created_at : ℕ
  pub updated_at : ℕ
  pub started_at : Option ℕ
  pub finished_at : Option ℕ
  pub last_error : Option String
  pub user_id : Option String
  pub retry_count : ℕ
  pub priority : String

pub record CheckpointRow : Type 0 where
  pub job_id : String
  pub source_mailbox : String
  pub last_source_id : Option String
  pub updated_at : ℕ

pub record SyncCursorRow : Type 0 where
  pub sync_key : String
  pub source_mailbox : String
  pub last_source_id : String
  pub updated_at : ℕ

pub record MessageRow : Type 0 where
  pub job_id : String
  pub fingerprint : String
  pub source_mailbox : String
  pub source_id : String
  pub destination_mailbox : String
  pub destination_id : Option String
  pub migrated_at : ℕ

-- `event_id` is the position in the table.
pub record AuditEventRow : Type 0 where
  pub job_id : String
  pub event_type : String
  pub event_level : String
  pub payload : Fields
  pub created_at : ℕ

pub record BatchRow : Type 0 where
  pub batch_id : String
  pub batch_name : Option String
  pub total_rows : ℕ
  pub created_at : ℕ
  pub updated_at : ℕ
  pub user_id : Option String

pub record BatchItemRow : Type 0 where
  pub batch_id : String
  pub row_number : ℕ
  pub job_id : Option String
  pub job_name : Option String
  pub source_username : String
  pub destination_username : String
  pub submit_error : Option String
  pub created_at : ℕ
  pub updated_at : ℕ

pub record UserRow : Type 0 where
  pub id : String
  pub email : String
  pub password_hash : String
  pub is_admin : Bool
  pub created_at : ℕ
  pub is_active : Bool
  pub role : String
  pub totp_secret : Option String
  pub totp_enabled : Bool
  pub totp_recovery : Option (List String)
  pub auth_backend : String

pub record ApiKeyRow : Type 0 where
  pub id : String
  pub user_id : String
  pub key_hash : String
  pub label : String
  pub created_at : ℕ
  pub last_used_at : Option ℕ

pub record AdminAuditRow : Type 0 where
  pub admin_id : String
  pub action : String
  pub target_id : Option String
  pub details : Fields
  pub created_at : ℕ

pub record ScheduleRow : Type 0 where
  pub id : String
  pub name : String
  pub schedule_type : String
  pub schedule_expr : String
  pub request_json : Json
  pub is_active : Bool
  pub user_id : Option String
  pub created_at : ℕ
  pub updated_at : ℕ
  pub next_run_at : ℕ
  pub last_run_at : Option ℕ
  pub last_run_job_id : Option String

pub record WebhookRow : Type 0 where
  pub id : String
  pub user_id : Option String
  pub label : String
  pub url : String
  pub secret : String
  pub events : List String
  pub is_active : Bool
  pub created_at : ℕ
  pub last_delivery_at : Option ℕ
  pub last_delivery_status : Option ℕ

pub record DeliveryRow : Type 0 where
  pub webhook_id : String
  pub event_type : String
  pub payload_json : String
  pub response_status : Option ℕ
  pub error : Option String
  pub attempt : ℕ
  pub delivered_at : ℕ

pub record OrganizationRow : Type 0 where
  pub id : String
  pub name : String
  pub slug : String
  pub created_by : String
  pub created_at : ℕ

pub record MembershipRow : Type 0 where
  pub org_id : String
  pub user_id : String
  pub role : String
  pub joined_at : ℕ

pub record NotificationPrefsRow : Type 0 where
  pub user_id : String
  pub on_completed : Bool
  pub on_failed : Bool
  pub on_cancelled : Bool

pub record OidcProviderRow : Type 0 where
  pub id : String
  pub name : String
  pub client_id : String
  pub client_secret : String
  pub issuer : String
  pub discovery_url : String
  pub scope : String
  pub admin_claim : String
  pub admin_claim_value : String
  pub created_at : ℕ

-- `clock` is what `_utcnow_iso` reads.
pub record Store : Type 0 where
  pub clock : ℕ
  pub jobs : List JobRow
  pub checkpoints : List CheckpointRow
  pub sync_cursors : List SyncCursorRow
  pub messages : List MessageRow
  pub audit_events : List AuditEventRow
  pub batches : List BatchRow
  pub batch_items : List BatchItemRow
  pub users : List UserRow
  pub api_keys : List ApiKeyRow
  pub admin_audit_events : List AdminAuditRow
  pub scheduled_jobs : List ScheduleRow
  pub webhooks : List WebhookRow
  pub webhook_deliveries : List DeliveryRow
  pub organizations : List OrganizationRow
  pub org_memberships : List MembershipRow
  pub notification_prefs : List NotificationPrefsRow
  pub oidc_providers : List OidcProviderRow

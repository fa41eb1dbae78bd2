-- ===== src/Tests/Fixtures.antt =====
-- Concrete connectors, requests and stores for the tests.
use Prim.Native.Char.{code}
use groupware_migrator.Base.{
  ℕ, zero, suc, ◌+◌, ◌%◌, String, Bool, true, false, none, some, List, [], ◌∷◌, ◌++◌, if◌then◌else◌,
  ◌==◌, nat_eq, string_eq, runtime_error, ok, err, pos, null, type_error,
}
use groupware_migrator.Domain.FromDict.{Builtins}
use groupware_migrator.Domain.Types.{
  Bytes, SourceKind, SourceProtocol, DestinationKind, DestinationProtocol, ConnectionConfig,
  MigrationOptions, MigrationRequest, MigrationPlanItem, SourceItem, full, mail, modern, password,
  JobStatus, pending, running,
}
use groupware_migrator.State.Schema.{JobRow, Store}
use groupware_migrator.Engine.Connectors.{SourceConnector, DestinationConnector}
use groupware_migrator.Engine.Idempotency.{Library}
use groupware_migrator.Engine.Runner.Items.{RunState}
use groupware_migrator.Engine.Background.{Manager}

abbrev codes : String → Bytes
codes String.[] = []
codes (String.◌∷◌ c s) = code c ∷ codes s

abbrev sum_codes : Bytes → ℕ
sum_codes [] = 0
sum_codes (b ∷ bytes) = b + sum_codes bytes

abbrev letter : ℕ → String
letter zero = "a"
letter (suc zero) = "b"
letter _ = "c"

-- a digest that tells the test items apart
abbrev pub test_library : Library
test_library = record {
  sha256 = λ bytes. letter (sum_codes bytes % 3);
  encode = codes;
  lower = λ s. s;
  casefold = λ s. s;
  header_message_id = λ bytes. none;
}

abbrev pub account : ConnectionConfig
account = record {
  host = "mail.example.org";
  port = pos 993;
  username = "ann";
  password = some "secret";
  use_ssl = true;
  tls_profile = modern;
  auth_mode = password;
  oauth_access_token = none;
  oauth_refresh_token = none;
  oauth_client_id = none;
  oauth_client_secret = none;
  oauth_token_url = none;
  oauth_scope = none;
  timeout_seconds = pos 30;
}

abbrev pub options : Bool → MigrationOptions
options dry_run = record {
  sync_mode = full;
  incremental_base_job_id = none;
  dry_run = dry_run;
  max_errors = pos 25;
  pop3_destination_mailbox = "INBOX";
  max_retries = pos 2;
}

abbrev pub request : Bool → MigrationRequest
request dry_run = record {
  source = record {
    protocol = SourceKind.known SourceProtocol.imap;
    connection = account;
    include_collections = none;
    provider_id = none;
  };
  destination = record {
    protocol = DestinationKind.known DestinationProtocol.imap;
    connection = account;
    root_collection = "";
    provider_id = none;
  };
  workload = mail;
  folder_mapping = [];
  options = options dry_run;
  job_name = some "ann";
}

abbrev pub item : String → ℕ → SourceItem
item source_id byte = record {
  source_collection = "INBOX";
  source_id = source_id;
  raw_payload = byte ∷ [];
  content_type = none;
  version_token = none;
  item_key = none;
  metadata = [];
}

abbrev pub inbox : MigrationPlanItem
inbox = record {
  source_collection = "INBOX";
  destination_collection = "INBOX";
  estimated_items = 2;
}

abbrev pub items : List SourceItem
items = item "1" 65 ∷ item "2" 66 ∷ []

abbrev pub source : SourceConnector
source = record {
  validate = ok tt;
  list_collections = ok (record { name = "INBOX"; estimated_items = pos 2 } ∷ []);
  iter_items = λ name resume_from. (items, none);
  estimate_pending_items = λ name resume_from. ok none;
}

-- It keeps the ids that it has stored, and refuses one of them.
abbrev pub mailbox : String → DestinationConnector (List String)
mailbox refused = record {
  validate = λ d. (ok tt, d);
  ensure_collection = λ name d. (ok tt, d);
  upsert_item = λ name source_id payload metadata d.
      if source_id == refused
      then (err (runtime_error "refused"), d)
      else (ok (some source_id), d ++ source_id ∷ []);
}

abbrev pub empty_store : Store
empty_store = record {
  clock = 1000;
  jobs = [];
  checkpoints = [];
  sync_cursors = [];
  messages = [];
  audit_events = [];
  batches = [];
  batch_items = [];
  users = [];
  api_keys = [];
  admin_audit_events = [];
  scheduled_jobs = [];
  webhooks = [];
  webhook_deliveries = [];
  organizations = [];
  oidc_providers = [];
  org_memberships = [];
  notification_prefs = [];
}

abbrev pub job : String → JobStatus → JobRow
job id status = record {
  job_id = id;
  job_name = none;
  status = status;
  source_protocol = "imap";
  destination_protocol = "imap";
  request_json = null;
  plan_json = null;
  dry_run = false;
  migrated_count = 0;
  skipped_count = 0;
  failed_count = 0;
  created_at = 900;
  updated_at = 900;
  started_at = none;
  finished_at = none;
  last_error = none;
  user_id = none;
  retry_count = 0;
  priority = "normal";
}

abbrev pub store_of : List JobRow → Store
store_of rows = record empty_store { jobs = rows }

abbrev pub run_state : RunState (List String)
run_state = record {
  store = store_of (job "j1" running ∷ job "j2" pending ∷ []);
  destination = [];
  error_messages = [];
  run_failures = 0;
}

abbrev pub manager : Manager
manager = record {
  store = store_of (job "j1" pending ∷ []);
  accepting = true;
  futures = [];
  stop_events = [];
  job_contexts = [];
  active = [];
  next_future = 0;
  timers = [];
  has_webhook_manager = false;
  has_mail_manager = false;
  webhooks_fired = [];
  mails_fired = [];
}

abbrev pub python : Builtins
python = record {
  lower = λ s. s;
  int_of_text = λ s. ok (pos 5);
  repr = λ v. "...";
  no_dict = λ v. type_error "no dictionary";
  not_iterable = λ v. type_error "not iterable";
}

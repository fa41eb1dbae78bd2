-- ===== src/Domain/ToDict.antt =====
-- models/domain.py: the `to_dict` methods, and what a redacted dictionary gives away.
use groupware_migrator.Base.{
  Error, other, Result, ok, err, String, Bool, true, ◌&&◌, ◌≡◌, Option, none, some, List, [], ◌∷◌,
  arith, is_some, Json, null, bool, num, str, arr, obj, Items, nil, cons, Fields, end, field,
  strings, str_or_null, nat, if◌then◌else◌,
}
use groupware_migrator.Domain.Types.{
  SourceProtocol, DestinationProtocol, SourceKind, DestinationKind, WorkloadType, mail, calendar,
  tasks, contacts, notes, TlsProfile, modern, compatibility, AuthMode, password, oauth2, SyncMode,
  full, incremental, JobStatus, pending, running, completed, failed, cancelled, ConnectionConfig,
  SourceEndpoint, DestinationEndpoint, MigrationOptions, MigrationRequest, MigrationPlanItem,
  MigrationPlan, total_estimated_items,
}

-- the `.value` of each member
unfoldable pub source_value : SourceProtocol → String
source_value SourceProtocol.imap = "imap"
source_value SourceProtocol.pop3 = "pop3"
source_value SourceProtocol.caldav = "caldav"
source_value SourceProtocol.carddav = "carddav"
source_value SourceProtocol.msgraph = "msgraph"
source_value SourceProtocol.ews = "ews"

unfoldable pub destination_value : DestinationProtocol → String
destination_value DestinationProtocol.imap = "imap"
destination_value DestinationProtocol.caldav = "caldav"
destination_value DestinationProtocol.carddav = "carddav"

-- `str(self.protocol)`
unfoldable pub source_str : SourceKind → String
source_str (SourceKind.known p) = source_value p
source_str (SourceKind.plugin s) = s

unfoldable pub destination_str : DestinationKind → String
destination_str (DestinationKind.known p) = destination_value p
destination_str (DestinationKind.plugin s) = s

abbrev pub no_value : Error
no_value = other "'str' object has no attribute 'value'"

-- `protocol.value`: the protocol of a plugin is a text, which has no such attribute.
unfoldable pub source_protocol_value : SourceKind → Result String
unfolding source_value
source_protocol_value (SourceKind.known p) = ok (source_value p)
source_protocol_value (SourceKind.plugin s) = err no_value

unfoldable pub destination_protocol_value : DestinationKind → Result String
unfolding destination_value
destination_protocol_value (DestinationKind.known p) = ok (destination_value p)
destination_protocol_value (DestinationKind.plugin s) = err no_value

unfoldable pub workload_value : WorkloadType → String
workload_value mail = "mail"
workload_value calendar = "calendar"
workload_value tasks = "tasks"
workload_value contacts = "contacts"
workload_value notes = "notes"

unfoldable pub tls_value : TlsProfile → String
tls_value modern = "modern"
tls_value compatibility = "compatibility"

unfoldable pub auth_value : AuthMode → String
auth_value password = "password"
auth_value oauth2 = "oauth2"

unfoldable pub sync_value : SyncMode → String
sync_value full = "full"
sync_value incremental = "incremental"

unfoldable pub status_value : JobStatus → String
status_value pending = "pending"
status_value running = "running"
status_value completed = "completed"
status_value failed = "failed"
status_value cancelled = "cancelled"

abbrev redacted : Bool → Option String → Option String
redacted redact secret = if redact && is_some secret then some "***redacted***" else secret

unfoldable pub connection_to_dict : Bool → ConnectionConfig → Json
connection_to_dict redact c = obj (
    field "host" (str c.host) (
      field "port" (num c.port) (
        field "username" (str c.username) (
          field "password" (str_or_null (redacted redact c.password)) (
            field "use_ssl" (bool c.use_ssl) (
              field "tls_profile" (str (tls_value c.tls_profile)) (
                field "auth_mode" (str (auth_value c.auth_mode)) (
                  field "oauth_access_token" (str_or_null (redacted redact c.oauth_access_token)) (
                    field "oauth_refresh_token"
                      (str_or_null (redacted redact c.oauth_refresh_token))
                      (field "oauth_client_id" (str_or_null c.oauth_client_id) (
                        field "oauth_client_secret"
                          (str_or_null (redacted redact c.oauth_client_secret))
                          (field "oauth_token_url" (str_or_null c.oauth_token_url) (
                            field "oauth_scope" (str_or_null c.oauth_scope)
                              (field "timeout_seconds" (num c.timeout_seconds) end))))))))))))))

abbrev pub list_or_null : Option (List String) → Json
list_or_null none = null
list_or_null (some names) = arr (strings names)

unfoldable pub dict : List (String × String) → Fields
dict [] = end
dict ((k, v) ∷ m) = field k (str v) (dict m)

unfoldable pub source_to_dict : Bool → SourceEndpoint → Json
source_to_dict redact e = obj (
    field "protocol" (str (source_str e.protocol)) (
      field "connection" (connection_to_dict redact e.connection) (
        field "include_collections" (list_or_null e.include_collections) (
          field "include_mailboxes" (list_or_null e.include_collections)
            (field "provider_id" (str_or_null e.provider_id) end)))))

unfoldable pub destination_to_dict : Bool → DestinationEndpoint → Json
destination_to_dict redact e = obj (
    field "protocol" (str (destination_str e.protocol)) (
      field "connection" (connection_to_dict redact e.connection) (
        field "root_collection" (str e.root_collection) (
          field "root_mailbox" (str e.root_collection)
            (field "provider_id" (str_or_null e.provider_id) end)))))

unfoldable pub options_to_dict : MigrationOptions → Json
options_to_dict o = obj (
    field "sync_mode" (str (sync_value o.sync_mode)) (
      field "incremental_base_job_id" (str_or_null o.incremental_base_job_id) (
        field "dry_run" (bool o.dry_run) (
          field "max_errors" (num o.max_errors) (
            field "pop3_destination_mailbox" (str o.pop3_destination_mailbox)
              (field "max_retries" (num o.max_retries) end))))))

unfoldable pub request_to_dict : Bool → MigrationRequest → Json
request_to_dict redact r = obj (
    field "job_name" (str_or_null r.job_name) (
      field "source" (source_to_dict redact r.source) (
        field "destination" (destination_to_dict redact r.destination) (
          field "workload" (str (workload_value r.workload)) (
            field "folder_mapping" (obj (dict r.folder_mapping)) (
              field "collection_mapping" (obj (dict r.folder_mapping))
                (field "options" (options_to_dict r.options) end)))))))

unfoldable pub plan_item_to_dict : MigrationPlanItem → Json
plan_item_to_dict i = obj (
    field "source_collection" (str i.source_collection) (
      field "destination_collection" (str i.destination_collection) (
        field "estimated_items" (nat i.estimated_items) (
          field "source_mailbox" (str i.source_collection) (
            field "destination_mailbox" (str i.destination_collection)
              (field "estimated_messages" (nat i.estimated_items) end))))))

unfoldable pub plan_items_to_dict : List MigrationPlanItem → Items
plan_items_to_dict [] = nil
plan_items_to_dict (i ∷ is) = cons (plan_item_to_dict i) (plan_items_to_dict is)

unfoldable pub plan_to_dict : MigrationPlan → Json
plan_to_dict p = obj (
    field "items" (arr (plan_items_to_dict p)) (
      field "total_estimated_items" (nat (total_estimated_items p))
        (field "total_estimated_messages" (nat (total_estimated_items p)) end)))

-- `b` is `a` with other values for the secrets that `a` has.
pub record SamePublic (a b : ConnectionConfig) : Type 0 where
  pub host : a.host ≡ b.host
  pub port : a.port ≡ b.port
  pub username : a.username ≡ b.username
  pub use_ssl : a.use_ssl ≡ b.use_ssl
  pub tls_profile : a.tls_profile ≡ b.tls_profile
  pub auth_mode : a.auth_mode ≡ b.auth_mode
  pub oauth_client_id : a.oauth_client_id ≡ b.oauth_client_id
  pub oauth_token_url : a.oauth_token_url ≡ b.oauth_token_url
  pub oauth_scope : a.oauth_scope ≡ b.oauth_scope
  pub timeout_seconds : a.timeout_seconds ≡ b.timeout_seconds
  pub has_password : is_some a.password ≡ is_some b.password
  pub has_access_token : is_some a.oauth_access_token ≡ is_some b.oauth_access_token
  pub has_refresh_token : is_some a.oauth_refresh_token ≡ is_some b.oauth_refresh_token
  pub has_client_secret : is_some a.oauth_client_secret ≡ is_some b.oauth_client_secret

redacted_lem :
    (x y : Option String)
    → is_some x ≡ is_some y
    → str_or_null (redacted true x) ≡ str_or_null (redacted true y)
redacted_lem x y h = ground arith

connection-redacted :
    (a b : ConnectionConfig)
    → SamePublic a b
    → connection_to_dict true a ≡ connection_to_dict true b
unfolding connection_to_dict
connection-redacted a b h = cc (
  h.host,
  h.port,
  h.username,
  h.use_ssl,
  h.tls_profile,
  h.auth_mode,
  h.oauth_client_id,
  h.oauth_token_url,
  h.oauth_scope,
  h.timeout_seconds,
  redacted_lem a.password b.password h.has_password,
  redacted_lem a.oauth_access_token b.oauth_access_token h.has_access_token,
  redacted_lem a.oauth_refresh_token b.oauth_refresh_token h.has_refresh_token,
  redacted_lem a.oauth_client_secret b.oauth_client_secret h.has_client_secret,
)

-- The request with other connections.
abbrev pub with_connections :
    MigrationRequest → ConnectionConfig → ConnectionConfig → MigrationRequest
with_connections r s d = record r {
  source = record {
    protocol = r.source.protocol;
    connection = s;
    include_collections = r.source.include_collections;
    provider_id = r.source.provider_id;
  };
  destination = record {
    protocol = r.destination.protocol;
    connection = d;
    root_collection = r.destination.root_collection;
    provider_id = r.destination.provider_id;
  };
}

-- The redacted dictionary of a request does not depend on the values of the passwords, access
-- tokens, refresh tokens and client secrets of its two connections: only on which of them are set.
pub request_to_dict-redacted :
    (r : MigrationRequest) (s s' d d' : ConnectionConfig)
    → SamePublic s s'
    → SamePublic d d'
    → request_to_dict true (with_connections r s d)
      ≡ request_to_dict true (with_connections r s' d')
unfolding request_to_dict source_to_dict destination_to_dict
request_to_dict-redacted r s s' d d' hs hd =
    cc (connection-redacted s s' hs, connection-redacted d d' hd)

-- ===== src/Domain/FromDict.antt =====
-- models/domain.py: the `from_dict` constructors.
pub mod RoundTrip
pub mod Clean
use groupware_migrator.Base.{
  string_eq, ◌>>=◌, ◌>>◌, zero, ◌+◌, ◌-◌, ◌<◌, String, Bool, true, false, not, Option, none, some,
  List, [], ◌∷◌, if◌then◌else◌, ◌==◌, Error, value_error, type_error, key_error, Result, ok, err, ℤ,
  pos, negsuc, pos_part, at_least_one, Json, null, bool, num, str, arr, obj, Items, nil, cons,
  Fields, end, field, get,
}
use groupware_migrator.Base.Text.{strip, decimal, ◌<>◌}
use groupware_migrator.Domain.Types.{
  SourceProtocol, DestinationProtocol, SourceKind, DestinationKind, WorkloadType, mail, calendar,
  tasks, contacts, notes, TlsProfile, modern, compatibility, AuthMode, password, oauth2, SyncMode,
  full, incremental, ConnectionConfig, SourceEndpoint, DestinationEndpoint, MigrationOptions,
  MigrationRequest,
}
use groupware_migrator.Domain.Workload.{infer_workload, validate_workload_protocols}

-- What Python gives: `str.lower`, `int` of a text, `str` of a list or a dictionary, and the exception
-- of using a value as a dictionary, or of iterating over it, where it cannot be.
pub record Builtins : Type 0 where
  pub lower : String → String
  pub int_of_text : String → Result ℤ
  pub repr : Json → String
  pub no_dict : Json → Error
  pub not_iterable : Json → Error

-- `payload.get(key, default)`
unfoldable pub get_or : String → Json → Fields → Json
unfolding get
get_or key default payload = elim (get key payload) [ none ↦ default | some v ↦ v ]

-- `payload[key]`
unfoldable pub item_of : String → Fields → Result Json
unfolding get
item_of key payload = elim (get key payload) [
  | none ↦ err (key_error ("'" <> key <> "'"))
  | some v ↦ ok v
]

-- `str(i)`
unfoldable pub int_text : ℤ → String
unfolding decimal
int_text (pos n) = decimal n
int_text (negsuc n) = "-" <> decimal (n + 1)

-- `bool(value)`
unfoldable pub truth : Json → Bool
truth null = false
truth (bool b) = b
truth (num (pos zero)) = false
truth (num _) = true
truth (str s) = not (s == "")
truth (arr nil) = false
truth (arr (cons _ _)) = true
truth (obj end) = false
truth (obj (field _ _ _)) = true

unfoldable pub source_of_text : String → SourceKind
source_of_text s =
    if s == "imap"
    then SourceKind.known SourceProtocol.imap
    else if s == "pop3"
    then SourceKind.known SourceProtocol.pop3
    else if s == "caldav"
    then SourceKind.known SourceProtocol.caldav
    else if s == "carddav"
    then SourceKind.known SourceProtocol.carddav
    else if s == "msgraph"
    then SourceKind.known SourceProtocol.msgraph
    else if s == "ews"
    then SourceKind.known SourceProtocol.ews
    else SourceKind.plugin s

unfoldable pub destination_of_text : String → DestinationKind
destination_of_text s =
    if s == "imap"
    then DestinationKind.known DestinationProtocol.imap
    else if s == "caldav"
    then DestinationKind.known DestinationProtocol.caldav
    else if s == "carddav"
    then DestinationKind.known DestinationProtocol.carddav
    else DestinationKind.plugin s

unfoldable pub tls_of_text : String → TlsProfile
tls_of_text s = if s == "compatibility" then compatibility else modern

unfoldable pub auth_of_text : String → AuthMode
auth_of_text s = if s == "oauth2" then oauth2 else password

unfoldable pub sync_of_text : String → SyncMode
sync_of_text s = if s == "incremental" then incremental else full

-- `WorkloadType(s)`
unfoldable pub workload_of_text : String → Result WorkloadType
workload_of_text s =
    if s == "mail"
    then ok mail
    else if s == "calendar"
    then ok calendar
    else if s == "tasks"
    then ok tasks
    else if s == "contacts"
    then ok contacts
    else if s == "notes"
    then ok notes
    else err (value_error ("'" <> s <> "' is not a valid WorkloadType"))

-- `normalized or None`, of a text that is stripped first
unfoldable pub trimmed : Option String → Option String
unfolding strip
trimmed none = none
trimmed (some s) = if strip s == "" then none else some (strip s)

unfoldable pub default_source_port : SourceKind → ℤ
default_source_port (SourceKind.known SourceProtocol.imap) = pos 993
default_source_port (SourceKind.known SourceProtocol.pop3) = pos 995
default_source_port _ = pos 443

unfoldable pub default_destination_port : DestinationKind → ℤ
default_destination_port (DestinationKind.known DestinationProtocol.imap) = pos 993
default_destination_port _ = pos 443

-- `if auth_mode is AuthMode.PASSWORD and not password`; a trimmed password is not empty.
unfoldable pub require_password : AuthMode → Option String → Result (Unit {0})
require_password password none = err (value_error "Missing required field: password.")
require_password password (some s) = ok tt
require_password oauth2 _ = ok tt

unfoldable pub characters : String → List String
characters String.[] = []
characters (String.◌∷◌ c s) = String.◌∷◌ c "" ∷ characters s

unfoldable pub keys : Fields → List String
keys end = []
keys (field k v fields) = k ∷ keys fields

module _ (py : Builtins) where
  -- `str(value)`
  unfoldable pub text_of : Json → String
  unfolding int_text
  text_of null = "None"
  text_of (bool true) = "True"
  text_of (bool false) = "False"
  text_of (num i) = int_text i
  text_of (str s) = s
  text_of (arr items) = py.repr (arr items)
  text_of (obj fields) = py.repr (obj fields)

  -- `int(value)`
  unfoldable pub int_of : Json → Result ℤ
  int_of null = err (
      type_error
        "int() argument must be a string, a bytes-like object or a real number, not 'NoneType'")
  int_of (bool b) = ok (pos (if b then 1 else 0))
  int_of (num i) = ok i
  int_of (str s) = py.int_of_text s
  int_of (arr items) = err (
      type_error
        "int() argument must be a string, a bytes-like object or a real number, not 'list'")
  int_of (obj fields) = err (
      type_error
        "int() argument must be a string, a bytes-like object or a real number, not 'dict'")

  unfoldable pub fields_of : Json → Result Fields
  fields_of (obj fields) = ok fields
  fields_of value = err (py.no_dict value)

  -- `optional_string(payload.get(key))`
  unfoldable pub optional_string : Option Json → Option String
  unfolding trimmed text_of
  optional_string none = none
  optional_string (some null) = none
  optional_string (some v) = trimmed (some (text_of v))

  unfoldable pub connection_from_dict : ℤ → Json → Result ConnectionConfig
  unfolding get get_or item_of truth tls_of_text auth_of_text text_of int_of fields_of
      optional_string require_password
  connection_from_dict default_port value = do
    payload ← fields_of value
    let tls_profile = tls_of_text (py.lower (text_of (get_or "tls_profile" (str "modern") payload)))
    let auth_mode = auth_of_text (py.lower (text_of (get_or "auth_mode" (str "password") payload)))
    let secret = optional_string (get "password" payload)
    require_password auth_mode secret
    host ← item_of "host" payload
    port ← int_of (get_or "port" (num default_port) payload)
    username ← item_of "username" payload
    timeout ← int_of (get_or "timeout_seconds" (num (pos 30)) payload)
    ok (record {
      host = text_of host;
      port = port;
      username = text_of username;
      password = secret;
      use_ssl = truth (get_or "use_ssl" (bool true) payload);
      tls_profile = tls_profile;
      auth_mode = auth_mode;
      oauth_access_token = optional_string (get "oauth_access_token" payload);
      oauth_refresh_token = optional_string (get "oauth_refresh_token" payload);
      oauth_client_id = optional_string (get "oauth_client_id" payload);
      oauth_client_secret = optional_string (get "oauth_client_secret" payload);
      oauth_token_url = optional_string (get "oauth_token_url" payload);
      oauth_scope = optional_string (get "oauth_scope" payload);
      timeout_seconds = timeout;
    })

  -- `str(payload[key]) if key in payload else None`: a null is no missing key.
  unfoldable pub text_if_present : String → Fields → Option String
  unfolding get text_of
  text_if_present key payload = elim (get key payload) [ none ↦ none | some v ↦ some (text_of v) ]

  unfoldable pub texts_of : Items → List String
  unfolding text_of
  texts_of nil = []
  texts_of (cons v items) = text_of v ∷ texts_of items

  -- `None`, or `[str(name) for name in value]`: a text gives its characters, a dictionary its keys.
  unfoldable pub names_of : Json → Result (Option (List String))
  unfolding texts_of characters keys
  names_of null = ok none
  names_of (arr items) = ok (some (texts_of items))
  names_of (str s) = ok (some (characters s))
  names_of (obj fields) = ok (some (keys fields))
  names_of value = err (py.not_iterable value)

  unfoldable pub source_from_dict : Json → Result SourceEndpoint
  unfolding item_of get_or source_of_text connection_from_dict names_of text_if_present
      default_source_port fields_of
  source_from_dict value = do
    payload ← fields_of value
    raw ← item_of "protocol" payload
    let protocol = source_of_text (py.lower (text_of raw))
    connection_value ← item_of "connection" payload
    connection ← connection_from_dict (default_source_port protocol) connection_value
    include_collections ←
        names_of (get_or "include_collections" (get_or "include_mailboxes" null payload) payload)
    ok (record {
      protocol = protocol;
      connection = connection;
      include_collections = include_collections;
      provider_id = text_if_present "provider_id" payload;
    })

  unfoldable pub destination_from_dict : Json → Result DestinationEndpoint
  unfolding item_of get_or destination_of_text connection_from_dict text_if_present
      default_destination_port fields_of
  destination_from_dict value = do
    payload ← fields_of value
    raw ← item_of "protocol" payload
    let protocol = destination_of_text (py.lower (text_of raw))
    connection_value ← item_of "connection" payload
    connection ← connection_from_dict (default_destination_port protocol) connection_value
    ok (record {
      protocol = protocol;
      connection = connection;
      root_collection =
          text_of
            (get_or "root_collection" (get_or "root_mailbox" (str "Migrated") payload) payload);
      provider_id = text_if_present "provider_id" payload;
    })

  -- `payload or {}`
  unfoldable pub options_payload : Option Json → Result Fields
  unfolding truth fields_of
  options_payload none = ok end
  options_payload (some value) = if truth value then fields_of value else ok end

  unfoldable pub options_from_dict : Option Json → Result MigrationOptions
  unfolding get get_or sync_of_text optional_string truth int_of options_payload
  options_from_dict value = do
    payload ← options_payload value
    max_errors ← int_of (get_or "max_errors" (num (pos 25)) payload)
    max_retries ← int_of (get_or "max_retries" (num (pos 0)) payload)
    ok (record {
      sync_mode = sync_of_text (py.lower (text_of (get_or "sync_mode" (str "full") payload)));
      incremental_base_job_id = optional_string (get "incremental_base_job_id" payload);
      dry_run = truth (get_or "dry_run" (bool false) payload);
      max_errors = pos (at_least_one max_errors);
      pop3_destination_mailbox =
          text_of (get_or "pop3_destination_mailbox" (str "POP3-Inbox") payload);
      max_retries = pos (pos_part max_retries);
    })

  unfoldable pub entries : Fields → List (String × String)
  unfolding text_of
  entries end = []
  entries (field k v fields) = (k, text_of v) ∷ entries fields

  -- `payload.get("workload")`: none and null ask for the inferred one.
  unfoldable pub workload_from : Option Json → SourceKind → DestinationKind → Result WorkloadType
  unfolding infer_workload workload_of_text text_of strip
  workload_from none s d = ok (infer_workload s d)
  workload_from (some null) s d = ok (infer_workload s d)
  workload_from (some value) s d = workload_of_text (py.lower (strip (text_of value)))

  unfoldable pub request_from_dict : Json → Result MigrationRequest
  unfolding get get_or item_of fields_of entries source_from_dict destination_from_dict
      workload_from validate_workload_protocols options_from_dict text_if_present
  request_from_dict value = do
    payload ← fields_of value
    mapping ←
        fields_of (get_or "folder_mapping" (get_or "collection_mapping" (obj end) payload) payload)
    source_value ← item_of "source" payload
    source ← source_from_dict source_value
    destination_value ← item_of "destination" payload
    destination ← destination_from_dict destination_value
    workload ← workload_from (get "workload" payload) source.protocol destination.protocol
    validate_workload_protocols workload source.protocol destination.protocol
    options ← options_from_dict (get "options" payload)
    ok (record {
      source = source;
      destination = destination;
      workload = workload;
      folder_mapping = entries mapping;
      options = options;
      job_name = text_if_present "job_name" payload;
    })

-- ===== src/Domain/FromDict/RoundTrip.antt =====
-- models/domain.py: a request that is written as a dictionary and read again.
use groupware_migrator.Base.{
  String, ◌≡◌, refl, ap, false, Option, none, some, List, [], ◌∷◌, nat_eq, string_eq, ok, ℤ, pos,
  pos_part, at_least_one, str, get, strings, str_or_null,
}
use groupware_migrator.Base.Text.{strip}
use groupware_migrator.Domain.Types.{
  SourceKind, DestinationKind, WorkloadType, mail, calendar, tasks, contacts, notes, TlsProfile,
  modern, compatibility, AuthMode, password, oauth2, SyncMode, full, incremental, ConnectionConfig,
  SourceEndpoint, DestinationEndpoint, MigrationOptions, MigrationRequest,
}
use groupware_migrator.Domain.Workload.{validate_workload_protocols}
use groupware_migrator.Domain.ToDict.{
  source_str, destination_str, workload_value, tls_value, auth_value, sync_value,
  connection_to_dict, list_or_null, dict, source_to_dict, destination_to_dict, options_to_dict,
  request_to_dict,
}
use groupware_migrator.Domain.FromDict.{
  default_source_port, default_destination_port, truth, Builtins, get_or, item_of, source_of_text,
  destination_of_text, tls_of_text, auth_of_text, sync_of_text, workload_of_text, trimmed,
  require_password, text_of, int_of, fields_of, optional_string, texts_of, names_of,
  connection_from_dict, text_if_present, source_from_dict, destination_from_dict, options_payload,
  options_from_dict, entries, workload_from, request_from_dict,
}

-- `str.lower` leaves the values of the enumerations as they are.
pub record KeepsValues (py : Builtins) : Type 0 where
  pub tls : (t : TlsProfile) → py.lower (tls_value t) ≡ tls_value t
  pub auth : (a : AuthMode) → py.lower (auth_value a) ≡ auth_value a
  pub sync : (m : SyncMode) → py.lower (sync_value m) ≡ sync_value m
  pub workload : (w : WorkloadType) → py.lower (workload_value w) ≡ workload_value w

-- The texts of a connection have no space around them and are not empty, and there is a password where
-- one is needed.
pub record IsCleanConnection (c : ConnectionConfig) : Type 0 where
  pub password_given : require_password c.auth_mode c.password ≡ ok tt
  pub password : trimmed c.password ≡ c.password
  pub access_token : trimmed c.oauth_access_token ≡ c.oauth_access_token
  pub refresh_token : trimmed c.oauth_refresh_token ≡ c.oauth_refresh_token
  pub client_id : trimmed c.oauth_client_id ≡ c.oauth_client_id
  pub client_secret : trimmed c.oauth_client_secret ≡ c.oauth_client_secret
  pub token_url : trimmed c.oauth_token_url ≡ c.oauth_token_url
  pub scope : trimmed c.oauth_scope ≡ c.oauth_scope

tls-value : (t : TlsProfile) → tls_of_text (tls_value t) ≡ t
unfolding tls_of_text tls_value
tls-value modern = refl
tls-value compatibility = refl

auth-value : (a : AuthMode) → auth_of_text (auth_value a) ≡ a
unfolding auth_of_text auth_value
auth-value password = refl
auth-value oauth2 = refl

sync-value : (m : SyncMode) → sync_of_text (sync_value m) ≡ m
unfolding sync_of_text sync_value
sync-value full = refl
sync-value incremental = refl

module _ (py : Builtins) (lower : KeepsValues py) where
  optional-or_null :
      (o : Option String) → trimmed o ≡ o → optional_string py (some (str_or_null o)) ≡ o
  unfolding optional_string text_of trimmed
  optional-or_null none h = refl
  optional-or_null (some s) h = h

  connection-RoundTrip :
      (port : ℤ) (c : ConnectionConfig)
      → IsCleanConnection c
      → connection_from_dict py port (connection_to_dict false c) ≡ ok c
  unfolding connection_from_dict connection_to_dict get get_or item_of fields_of text_of int_of
      truth
  connection-RoundTrip port c h =
      rw
        (
          lower.tls c.tls_profile,
          lower.auth c.auth_mode,
          tls-value c.tls_profile,
          auth-value c.auth_mode,
          optional-or_null c.password h.password,
          optional-or_null c.oauth_access_token h.access_token,
          optional-or_null c.oauth_refresh_token h.refresh_token,
          optional-or_null c.oauth_client_id h.client_id,
          optional-or_null c.oauth_client_secret h.client_secret,
          optional-or_null c.oauth_token_url h.token_url,
          optional-or_null c.oauth_scope h.scope,
          h.password_given,
        )
        refl

  texts-strings : (names : List String) → texts_of py (strings names) ≡ names
  unfolding texts_of strings text_of
  texts-strings [] = refl
  texts-strings (s ∷ names) = ap (λ rest. s ∷ rest) (texts-strings names)

  names-list_or_null : (names : Option (List String)) → names_of py (list_or_null names) ≡ ok names
  unfolding names_of
  names-list_or_null none = refl
  names-list_or_null (some names) = ap (λ texts. ok (some texts)) (texts-strings names)

  entries-dict : (m : List (String × String)) → entries py (dict m) ≡ m
  unfolding entries dict text_of
  entries-dict [] = refl
  entries-dict ((k, v) ∷ m) = ap (λ rest. (k, v) ∷ rest) (entries-dict m)

-- `str(None)`, where the field is a null
abbrev pub or_none_text : Option String → Option String
or_none_text none = some "None"
or_none_text (some s) = some s

module _ (py : Builtins) (lower : KeepsValues py) where
  text_if_null : (o : Option String) → some (text_of py (str_or_null o)) ≡ or_none_text o
  unfolding text_of
  text_if_null none = refl
  text_if_null (some s) = refl

  source-RoundTrip :
      (e : SourceEndpoint)
      → IsCleanConnection e.connection
      → source_of_text (py.lower (source_str e.protocol)) ≡ e.protocol
      → source_from_dict py (source_to_dict false e)
        ≡ ok (record e { provider_id = or_none_text e.provider_id })
  unfolding source_from_dict source_to_dict get get_or item_of fields_of text_of text_if_present
  source-RoundTrip e clean protocol =
      rw
        (
          protocol,
          connection-RoundTrip py lower (default_source_port e.protocol) e.connection clean,
          names-list_or_null py lower e.include_collections,
          text_if_null e.provider_id,
        )
        refl

  destination-RoundTrip :
      (e : DestinationEndpoint)
      → IsCleanConnection e.connection
      → destination_of_text (py.lower (destination_str e.protocol)) ≡ e.protocol
      → destination_from_dict py (destination_to_dict false e)
        ≡ ok (record e { provider_id = or_none_text e.provider_id })
  unfolding destination_from_dict destination_to_dict get get_or item_of fields_of text_of
      text_if_present
  destination-RoundTrip e clean protocol =
      rw
        (
          protocol,
          connection-RoundTrip py lower (default_destination_port e.protocol) e.connection clean,
          text_if_null e.provider_id,
        )
        refl

-- The numbers are in range, and the base job is no empty text.
pub record IsCleanOptions (o : MigrationOptions) : Type 0 where
  pub base_job : trimmed o.incremental_base_job_id ≡ o.incremental_base_job_id
  pub max_errors : pos (at_least_one o.max_errors) ≡ o.max_errors
  pub max_retries : pos (pos_part o.max_retries) ≡ o.max_retries

module _ (py : Builtins) (lower : KeepsValues py) where
  options-RoundTrip :
      (o : MigrationOptions)
      → IsCleanOptions o
      → options_from_dict py (some (options_to_dict o)) ≡ ok o
  unfolding options_from_dict options_to_dict options_payload truth get get_or fields_of text_of
      int_of
  options-RoundTrip o h =
      rw
        (
          lower.sync o.sync_mode,
          sync-value o.sync_mode,
          optional-or_null py lower o.incremental_base_job_id h.base_job,
          h.max_errors,
          h.max_retries,
        )
        refl

  workload-RoundTrip :
      (w : WorkloadType) (s : SourceKind) (d : DestinationKind)
      → workload_from py (some (str (workload_value w))) s d ≡ ok w
  unfolding workload_from workload_of_text text_of workload_value strip
  workload-RoundTrip mail s d = rw (lower.workload mail) refl
  workload-RoundTrip calendar s d = rw (lower.workload calendar) refl
  workload-RoundTrip tasks s d = rw (lower.workload tasks) refl
  workload-RoundTrip contacts s d = rw (lower.workload contacts) refl
  workload-RoundTrip notes s d = rw (lower.workload notes) refl

-- A request as the constructors make it.
pub record IsClean (py : Builtins) (r : MigrationRequest) : Type 0 where
  pub source : IsCleanConnection r.source.connection
  pub destination : IsCleanConnection r.destination.connection
  pub source_protocol : source_of_text (py.lower (source_str r.source.protocol)) ≡ r.source.protocol
  pub destination_protocol :
      destination_of_text (py.lower (destination_str r.destination.protocol))
      ≡ r.destination.protocol
  pub supported :
      validate_workload_protocols r.workload r.source.protocol r.destination.protocol ≡ ok tt
  pub options : IsCleanOptions r.options

-- the request with the text "None" for a missing name and missing providers
abbrev pub with_none_texts : MigrationRequest → MigrationRequest
with_none_texts r = record r {
  source = record r.source { provider_id = or_none_text r.source.provider_id };
  destination = record r.destination { provider_id = or_none_text r.destination.provider_id };
  job_name = or_none_text r.job_name;
}

-- A clean request that is written as a dictionary and read again is the same request, but a missing job
-- name and missing provider ids become the text "None".
pub request_from_dict-request_to_dict :
    (py : Builtins) (r : MigrationRequest)
    → KeepsValues py
    → IsClean py r
    → request_from_dict py (request_to_dict false r) ≡ ok (with_none_texts r)
unfolding request_from_dict request_to_dict get get_or item_of fields_of text_if_present
request_from_dict-request_to_dict py r lower h =
    rw
      (
        source-RoundTrip py lower r.source h.source h.source_protocol,
        destination-RoundTrip py lower r.destination h.destination h.destination_protocol,
        workload-RoundTrip py lower r.workload r.source.protocol r.destination.protocol,
        h.supported,
        options-RoundTrip py lower r.options h.options,
        entries-dict py lower r.folder_mapping,
        text_if_null py lower r.job_name,
      )
      refl

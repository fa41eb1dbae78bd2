-- ===== src/Domain/FromDict/Clean.antt =====
-- models/domain.py: what every request satisfies that a constructor has accepted.
use groupware_migrator.Base.{
  String, ◌≡◌, refl, ap, inl, inr, false, Option, none, some, arith, Bool-cases, ◌==◌, nat_eq,
  string_eq, ok, ℤ, pos, at_least_one, Json, null, bool, num, str, arr, obj, end, get,
}
use groupware_migrator.Base.Ensures.{Ensures, Ensures-ok, Ensures-bind}
use groupware_migrator.Base.Text.{strip}
use groupware_migrator.Base.Strip.{strip_idem}
use groupware_migrator.Domain.Types.{SourceEndpoint, DestinationEndpoint, MigrationRequest}
use groupware_migrator.Domain.Workload.{validate_workload_protocols}
use groupware_migrator.Domain.ToDict.{
  source_str, destination_str, source_value, destination_value, request_to_dict,
}
use groupware_migrator.Domain.FromDict.{
  default_source_port, default_destination_port, Builtins, get_or, item_of, source_of_text,
  destination_of_text, auth_of_text, trimmed, require_password, text_of, int_of, fields_of,
  optional_string, names_of, connection_from_dict, source_from_dict, destination_from_dict,
  options_payload, options_from_dict, workload_from, request_from_dict,
}
use groupware_migrator.Domain.FromDict.RoundTrip.{
  KeepsValues, IsCleanConnection, IsCleanOptions, IsClean, with_none_texts,
  request_from_dict-request_to_dict,
}

trimmed_idem : (o : Option String) → trimmed (trimmed o) ≡ trimmed o
unfolding trimmed
trimmed_idem none = refl
trimmed_idem (some s) = elim (Bool-cases (strip s == "")) [
  | inl e ↦ rw e refl
  | inr e ↦ rw e (rw (strip_idem s) (rw e refl))
]

source_str-of_text : (s : String) → source_str (source_of_text s) ≡ s
unfolding source_str source_of_text source_value
source_str-of_text s = ground (
  arith,
  string_eq.beq_iff s "imap",
  string_eq.beq_iff s "pop3",
  string_eq.beq_iff s "caldav",
  string_eq.beq_iff s "carddav",
  string_eq.beq_iff s "msgraph",
  string_eq.beq_iff s "ews",
)

destination_str-of_text : (s : String) → destination_str (destination_of_text s) ≡ s
unfolding destination_str destination_of_text destination_value
destination_str-of_text s =
    ground (
      arith,
      string_eq.beq_iff s "imap",
      string_eq.beq_iff s "caldav",
      string_eq.beq_iff s "carddav",
    )

at_least_one_idem : (i : ℤ) → pos (at_least_one (pos (at_least_one i))) ≡ pos (at_least_one i)
at_least_one_idem i = ap pos (omega arith)

module _ (py : Builtins) where
  optional-trimmed : (o : Option Json) → trimmed (optional_string py o) ≡ optional_string py o
  unfolding optional_string
  optional-trimmed none = refl
  optional-trimmed (some null) = refl
  optional-trimmed (some (bool b)) = trimmed_idem (some (text_of py (bool b)))
  optional-trimmed (some (num i)) = trimmed_idem (some (text_of py (num i)))
  optional-trimmed (some (str s)) = trimmed_idem (some (text_of py (str s)))
  optional-trimmed (some (arr items)) = trimmed_idem (some (text_of py (arr items)))
  optional-trimmed (some (obj fields)) = trimmed_idem (some (text_of py (obj fields)))

  connection-IsClean :
      (port : ℤ) (v : Json) → Ensures IsCleanConnection (connection_from_dict py port v)
  unfolding connection_from_dict
  connection-IsClean port v = Ensures-bind (fields_of py v) _ λ payload _.
      Ensures-bind
        (require_password
          (auth_of_text (py.lower (text_of py (get_or "auth_mode" (str "password") payload))))
          (optional_string py (get "password" payload)))
        _
        λ given has_password. Ensures-bind (item_of "host" payload) _ λ host _.
          Ensures-bind (int_of py (get_or "port" (num port) payload)) _ λ number _.
            Ensures-bind (item_of "username" payload) _ λ username _.
              Ensures-bind (int_of py (get_or "timeout_seconds" (num (pos 30)) payload)) _
                λ timeout _. Ensures-ok _ (record {
                  password_given = has_password;
                  password = optional-trimmed (get "password" payload);
                  access_token = optional-trimmed (get "oauth_access_token" payload);
                  refresh_token = optional-trimmed (get "oauth_refresh_token" payload);
                  client_id = optional-trimmed (get "oauth_client_id" payload);
                  client_secret = optional-trimmed (get "oauth_client_secret" payload);
                  token_url = optional-trimmed (get "oauth_token_url" payload);
                  scope = optional-trimmed (get "oauth_scope" payload);
                })

  source-IsClean :
      ((s : String) → py.lower (py.lower s) ≡ py.lower s)
      → (v : Json)
      → Ensures
          (λ (e : SourceEndpoint).
            IsCleanConnection e.connection
            × (source_of_text (py.lower (source_str e.protocol)) ≡ e.protocol))
          (source_from_dict py v)
  unfolding source_from_dict
  source-IsClean twice v = Ensures-bind (fields_of py v) _ λ payload _.
      Ensures-bind (item_of "protocol" payload) _ λ raw _.
        Ensures-bind (item_of "connection" payload) _ λ value _.
          Ensures-bind
            (connection_from_dict py
              (default_source_port (source_of_text (py.lower (text_of py raw)))) value)
            _
            λ c made.
              Ensures-bind
                (names_of py
                  (get_or "include_collections" (get_or "include_mailboxes" null payload) payload))
                _
                λ names _. Ensures-ok _ (
                  (connection-IsClean
                        (default_source_port (source_of_text (py.lower (text_of py raw))))
                        value).result
                      c made,
                  rw (source_str-of_text (py.lower (text_of py raw)))
                      (rw (twice (text_of py raw)) refl),
                )

  destination-IsClean :
      ((s : String) → py.lower (py.lower s) ≡ py.lower s)
      → (v : Json)
      → Ensures
          (λ (e : DestinationEndpoint).
            IsCleanConnection e.connection
            × (destination_of_text (py.lower (destination_str e.protocol)) ≡ e.protocol))
          (destination_from_dict py v)
  unfolding destination_from_dict
  destination-IsClean twice v = Ensures-bind (fields_of py v) _ λ payload _.
      Ensures-bind (item_of "protocol" payload) _ λ raw _.
        Ensures-bind (item_of "connection" payload) _ λ value _.
          Ensures-bind
            (connection_from_dict py
              (default_destination_port (destination_of_text (py.lower (text_of py raw)))) value)
            _
            λ c made. Ensures-ok _ (
              (connection-IsClean
                    (default_destination_port (destination_of_text (py.lower (text_of py raw))))
                    value).result
                  c made,
              rw (destination_str-of_text (py.lower (text_of py raw)))
                  (rw (twice (text_of py raw)) refl),
            )

  options-IsClean : (v : Option Json) → Ensures IsCleanOptions (options_from_dict py v)
  unfolding options_from_dict
  options-IsClean v = Ensures-bind (options_payload py v) _ λ payload _.
      Ensures-bind (int_of py (get_or "max_errors" (num (pos 25)) payload)) _ λ max_errors _.
        Ensures-bind (int_of py (get_or "max_retries" (num (pos 0)) payload)) _ λ max_retries _.
          Ensures-ok _ (record {
            base_job = optional-trimmed (get "incremental_base_job_id" payload);
            max_errors = at_least_one_idem max_errors;
            max_retries = refl;
          })

  -- In every request that the constructors accept, the protocols and the workload go together, the
  -- optional texts of the connections and the base job id are stripped and not empty, a password is there
  -- if the mode of authentication needs one, `max_errors` is at least 1 and `max_retries` at least 0.
  -- Lower case is idempotent. Nothing is said of hosts, user names, ports, timeouts and the root collection,
  -- which are taken as they are.
  pub request_from_dict-IsClean :
      ((s : String) → py.lower (py.lower s) ≡ py.lower s)
      → (v : Json) (r : MigrationRequest) → request_from_dict py v ≡ ok r
      → IsClean py r
  unfolding request_from_dict
  request_from_dict-IsClean twice v = (go v).result
    where
      go : (v : Json) → Ensures (IsClean py) (request_from_dict py v)
      go v = Ensures-bind (fields_of py v) _ λ payload _.
          Ensures-bind
            (fields_of py
              (get_or "folder_mapping" (get_or "collection_mapping" (obj end) payload) payload))
            _
            λ mapping _. Ensures-bind (item_of "source" payload) _ λ source_value _.
              Ensures-bind (source_from_dict py source_value) _ λ source source_made.
                Ensures-bind (item_of "destination" payload) _ λ destination_value _.
                  Ensures-bind (destination_from_dict py destination_value) _
                    λ destination destination_made.
                      Ensures-bind
                        (workload_from py (get "workload" payload) source.protocol
                          destination.protocol)
                        _
                        λ workload _.
                          Ensures-bind
                            (validate_workload_protocols workload source.protocol
                              destination.protocol)
                            _
                            λ done valid.
                              Ensures-bind (options_from_dict py (get "options" payload)) _
                                λ options options_made.
                                  let source_clean =
                                    (source-IsClean twice source_value).result source source_made in
                                  let destination_clean =
                                    (destination-IsClean twice destination_value).result destination
                                      destination_made in
                                  Ensures-ok _ (record {
                                    source = source_clean.0;
                                    destination = destination_clean.0;
                                    source_protocol = source_clean.1;
                                    destination_protocol = destination_clean.1;
                                    supported = valid;
                                    options =
                                        (options-IsClean (get "options" payload)).result options
                                          options_made;
                                  })

-- A request that was read, written as a dictionary and read again is the request as it was read first,
-- but that a missing job name or provider id is then the text "None". The lower case of a text in lower
-- case is the same text, as are the values of the enumerations.
pub request_read_again :
    (py : Builtins) (v : Json) (r : MigrationRequest)
    → KeepsValues py
    → ((s : String) → py.lower (py.lower s) ≡ py.lower s)
    → request_from_dict py v ≡ ok r
    → request_from_dict py (request_to_dict false r) ≡ ok (with_none_texts r)
request_read_again py v r keeps twice read =
    request_from_dict-request_to_dict py r keeps (request_from_dict-IsClean py twice v r read)

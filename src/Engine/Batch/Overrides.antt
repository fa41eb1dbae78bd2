-- ===== src/Engine/Batch/Overrides.antt =====
-- engine/batch.py, `_apply_row_overrides`: the payload of a row's request.
use groupware_migrator.Base.{
  ℕ, String, Bool, true, false, not, none, some, List, [], ◌∷◌, if◌then◌else◌, ◌==◌, nat_eq,
  string_eq, Result, ok, ◌>>=◌, pos, Json, null, bool, num, str, arr, obj, Fields, end, get,
  strings,
}
use groupware_migrator.Base.Text.{strip, decimal, ◌<>◌}
use groupware_migrator.Domain.FromDict.{Builtins, get_or, truth, text_of, int_of, fields_of}
use groupware_migrator.Engine.Batch.Texts.{
  Row, row_value, parse_bool, parse_int, parse_mailbox_list, parse_folder_mapping, set_field,
}

-- `payload.setdefault(key, value)`, without its result
unfoldable pub set_default : String → Json → Fields → Fields
unfolding get set_field
set_default key value fields = elim (get key fields) [
  | none ↦ set_field key value fields
  | some v ↦ fields
]

-- The dictionaries that the rows change, each without those that are inside it. The connections and the
-- options are only known to be dictionaries when they are used.
pub record Parts : Type 0 where
  pub payload : Fields
  pub source : Fields
  pub source_connection : Json
  pub destination : Fields
  pub destination_connection : Json
  pub options : Json

module _ (py : Builtins) where
  -- the calls of `setdefault`
  unfoldable pub parts_of : Fields → Result Parts
  unfolding set_default get_or fields_of
  parts_of base = do
    let payload =
        set_default "options" (obj end)
          (set_default "destination" (obj end) (set_default "source" (obj end) base))
    source ← fields_of py (get_or "source" (obj end) base)
    destination ← fields_of py (get_or "destination" (obj end) base)
    ok (record {
      payload = payload;
      source = set_default "connection" (obj end) source;
      source_connection = get_or "connection" (obj end) source;
      destination =
          set_default "connection" (obj end) (set_default "protocol" (str "imap") destination);
      destination_connection = get_or "connection" (obj end) destination;
      options = get_or "options" (obj end) base;
    })

  -- `part[key] = value`
  unfoldable pub assign : String → Json → Json → Result Json
  unfolding fields_of set_field
  assign key value part = do fields ← fields_of py part; ok (obj (set_field key value fields))

  abbrev pub same_text : String → String
  same_text s = s

  -- an override by a text, as it is or in lower case
  unfoldable pub override : Row → List String → String → (String → String) → Json → Result Json
  unfolding row_value assign
  override row names key f part =
      if row_value row names == "" then ok part else assign key (str (f (row_value row names))) part

  -- the same for a dictionary that is known to be one
  unfoldable pub override_in : Row → List String → String → (String → String) → Fields → Fields
  unfolding row_value set_field
  override_in row names key f fields =
      if row_value row names == ""
      then fields
      else set_field key (str (f (row_value row names))) fields

  unfoldable pub override_port : Row → String → Json → Result Json
  unfolding row_value assign
  override_port row name part =
      if row_value row (name ∷ []) == ""
      then ok part
      else (py.int_of_text (row_value row (name ∷ [])) >>= λ port. assign "port" (num port) part)

  -- `_parse_bool` is given what the dictionary says, or else the default.
  unfoldable pub override_bool : Row → String → String → Bool → Json → Result Json
  unfolding row_value assign parse_bool truth get_or fields_of
  override_bool row name key default part =
      if row_value row (name ∷ []) == ""
      then ok part
      else (fields_of py part >>= λ fields.
          parse_bool py (row_value row (name ∷ [])) (truth (get_or key (bool default) fields))
          >>= λ b. assign key (bool b) part)

  -- overrides of one dictionary one after the other: each key, with what is done to its text
  unfoldable pub override_all :
      Row → String → List (String × (String → String)) → Json → Result Json
  unfolding override
  override_all row side [] part = ok part
  override_all row side ((key, f) ∷ keys) part =
      override row ((side <> key) ∷ []) key f part >>= override_all row side keys

  abbrev pub credentials : List (String × (String → String))
  credentials = ("username", same_text) ∷ ("password", same_text) ∷ []

  abbrev pub authentication : List (String × (String → String))
  authentication =
      ("tls_profile", py.lower)
      ∷ ("auth_mode", py.lower)
      ∷ ("oauth_access_token", same_text)
      ∷ ("oauth_refresh_token", same_text)
      ∷ ("oauth_client_id", same_text)
      ∷ ("oauth_client_secret", same_text)
      ∷ ("oauth_token_url", same_text)
      ∷ ("oauth_scope", same_text)
      ∷ []

  -- the overrides of a connection; `side` is "source_" or "destination_"
  unfoldable pub override_connection : Row → String → Json → Result Json
  unfolding override override_port override_bool override_all
  override_connection row side connection = do
    c ← override row ((side <> "host") ∷ []) "host" same_text connection
    c ← override_port row (side <> "port") c
    c ← override_all row side credentials c
    c ← override_bool row (side <> "use_ssl") "use_ssl" true c
    override_all row side authentication c

  -- a value under its two names
  abbrev set_both : String → String → Json → Fields → Fields
  set_both name old_name value fields = set_field old_name value (set_field name value fields)

  unfoldable pub override_source : Row → Fields → Fields
  unfolding override_in row_value parse_mailbox_list set_field
  override_source row source =
      let names = row_value row ("source_include_collections" ∷ "source_include_mailboxes" ∷ []) in
      let new =
        override_in row ("source_provider_id" ∷ []) "provider_id" same_text
          (override_in row ("source_protocol" ∷ []) "protocol" py.lower source) in
      if names == ""
      then new
      else set_both "include_collections" "include_mailboxes"
          (arr (strings (parse_mailbox_list names))) new

  unfoldable pub override_destination : Row → Fields → Fields
  unfolding override_in row_value set_field
  override_destination row destination =
      let root = row_value row ("destination_root_collection" ∷ "destination_root_mailbox" ∷ []) in
      let new =
        override_in row ("destination_provider_id" ∷ []) "provider_id" same_text
          (override_in row ("destination_protocol" ∷ []) "protocol" py.lower destination) in
      if root == "" then new else set_both "root_collection" "root_mailbox" (str root) new

  unfoldable pub override_mapping : Row → Fields → Result Fields
  unfolding row_value parse_folder_mapping set_field
  override_mapping row payload =
      let raw = row_value row ("collection_mapping" ∷ "folder_mapping" ∷ []) in
      if raw == ""
      then ok payload
      else (parse_folder_mapping raw >>= λ mapping.
          ok (set_both "folder_mapping" "collection_mapping" (obj mapping) payload))

  -- `_parse_int` is given `int` of what the options say, or else 25.
  unfoldable pub override_max_errors : Row → Json → Result Json
  unfolding row_value assign parse_int get_or int_of fields_of
  override_max_errors row options =
      let raw = row_value row ("max_errors" ∷ []) in
      if raw == ""
      then ok options
      else (fields_of py options >>= λ fields.
          int_of py (get_or "max_errors" (num (pos 25)) fields) >>= λ fallback.
          parse_int py raw fallback >>= λ n. assign "max_errors" (num n) options)

  unfoldable pub override_options : Row → Json → Result Json
  unfolding override override_bool override_max_errors
  override_options row options = do
    o ← override row ("pop3_destination_mailbox" ∷ []) "pop3_destination_mailbox" same_text options
    o ← override row ("sync_mode" ∷ []) "sync_mode" py.lower o
    o ← override row ("incremental_base_job_id" ∷ []) "incremental_base_job_id" same_text o
    o ← override_bool row "dry_run" "dry_run" false o
    override_max_errors row o

  abbrev or_source : String → String
  or_source s = if s == "" then "source" else s

  -- `payload.get("job_name")`, as a test
  abbrev pub has_name : Fields → Bool
  has_name payload = truth (get_or "job_name" null payload)

  unfoldable pub named : Row → ℕ → Json → Fields → Result Fields
  unfolding row_value set_field get_or truth text_of fields_of strip decimal
  named row row_number connection payload =
      if not (row_value row ("job_name" ∷ []) == "")
      then ok (set_field "job_name" (str (row_value row ("job_name" ∷ []))) payload)
      else if has_name payload
      then ok payload
      else (fields_of py connection >>= λ fields. ok (
          set_field "job_name"
            (str (
              "batch-row-"
              <> decimal row_number
              <> "-"
              <> or_source (strip (text_of py (get_or "username" (str "") fields)))))
            payload))

  unfoldable pub apply_row_overrides : Fields → Row → ℕ → Result Fields
  unfolding parts_of override_in override_source override_connection override_destination
      override_mapping override_options named set_field
  apply_row_overrides base row row_number = do
    p ← parts_of base
    let payload = override_in row ("workload" ∷ []) "workload" py.lower p.payload
    source_connection ← override_connection row "source_" p.source_connection
    destination_connection ← override_connection row "destination_" p.destination_connection
    payload ← override_mapping row payload
    options ← override_options row p.options
    let source = set_field "connection" source_connection (override_source row p.source)
    let destination =
        set_field "connection" destination_connection (override_destination row p.destination)
    named row row_number source_connection (
        set_field "options" options
          (set_field "destination" (obj destination) (set_field "source" (obj source) payload)))

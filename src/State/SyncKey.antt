-- ===== src/State/SyncKey.antt =====
-- engine/state.py: the key under which the cursors between jobs are kept.
use groupware_migrator.Base.{
  String, Option, none, some, List, [], nat_eq, string_eq, Result, ok, ◌>>=◌, Json, num, str, arr,
  obj, end, field, strings, str_or_null,
}
use groupware_migrator.Domain.Types.{MigrationRequest}
use groupware_migrator.Domain.ToDict.{
  source_protocol_value, destination_protocol_value, workload_value, dict,
}
use groupware_migrator.Engine.Idempotency.{Library}

-- `sorted` of a list of texts, and `json.dumps` with sorted keys.
pub record Encoders : Type 0 where
  pub sorted : List String → List String
  pub dumps : Json → String

-- `request.source.include_collections or []`
abbrev or_nothing : Option (List String) → List String
or_nothing none = []
or_nothing (some names) = names

-- The mapping is written with its keys sorted, which `dumps` does in any case.
unfoldable pub request_sync_identity : Encoders → MigrationRequest → Result Json
unfolding workload_value source_protocol_value destination_protocol_value dict strings
request_sync_identity e r = do
  source_protocol ← source_protocol_value r.source.protocol
  destination_protocol ← destination_protocol_value r.destination.protocol
  let names = arr (strings (e.sorted (or_nothing r.source.include_collections)))
  let mapping = obj (dict r.folder_mapping)
  ok (
      obj (
        field "workload" (str (workload_value r.workload)) (
          field "source_protocol" (str source_protocol) (
            field "source_host" (str r.source.connection.host) (
              field "source_port" (num r.source.connection.port) (
                field "source_username" (str r.source.connection.username) (
                  field "source_provider_id" (str_or_null r.source.provider_id) (
                    field "source_include_collections" names (
                      field "source_include_mailboxes" names (
                        field "destination_protocol" (str destination_protocol) (
                          field "destination_host" (str r.destination.connection.host) (
                            field "destination_port" (num r.destination.connection.port) (
                              field "destination_username" (str r.destination.connection.username) (
                                field "destination_provider_id"
                                  (str_or_null r.destination.provider_id)
                                  (field "destination_root_collection"
                                    (str r.destination.root_collection)
                                    (field "destination_root_mailbox"
                                      (str r.destination.root_collection)
                                      (field "collection_mapping" mapping (
                                        field "folder_mapping" mapping (
                                          field "pop3_destination_mailbox"
                                            (str r.options.pop3_destination_mailbox)
                                            end)))))))))))))))))))

unfoldable pub sync_key_for_request : Library → Encoders → MigrationRequest → Result String
unfolding request_sync_identity
sync_key_for_request lib e r = do
  identity ← request_sync_identity e r
  ok (lib.sha256 (lib.encode (e.dumps identity)))

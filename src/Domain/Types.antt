-- ===== src/Domain/Types.antt =====
-- models/domain.py: the enumerations and the dataclasses.
use groupware_migrator.Base.{
  String, Bool, Option, none, some, List, ℕ, ◌+◌, [], ◌∷◌, ℤ, ◌==◌, string_eq, if◌then◌else◌,
}

pub data SourceProtocol : Type 0 where
  imap pop3 caldav carddav msgraph ews : SourceProtocol

pub data DestinationProtocol : Type 0 where
  imap caldav carddav : DestinationProtocol

-- `SourceProtocol | str`: `plugin` holds a name that is no member of the enumeration.
pub data SourceKind : Type 0 where
  known : SourceProtocol → SourceKind
  plugin : String → SourceKind

pub data DestinationKind : Type 0 where
  known : DestinationProtocol → DestinationKind
  plugin : String → DestinationKind

pub data WorkloadType : Type 0 where
  mail calendar tasks contacts notes : WorkloadType

pub data TlsProfile : Type 0 where
  modern compatibility : TlsProfile

pub data AuthMode : Type 0 where
  password oauth2 : AuthMode

pub data SyncMode : Type 0 where
  full incremental : SyncMode

pub data JobStatus : Type 0 where
  pending running completed failed cancelled : JobStatus

pub record ConnectionConfig : Type 0 where
  pub host : String
  pub port : ℤ
  pub username : String
  pub password : Option String
  pub use_ssl : Bool
  pub tls_profile : TlsProfile
  pub auth_mode : AuthMode
  pub oauth_access_token : Option String
  pub oauth_refresh_token : Option String
  pub oauth_client_id : Option String
  pub oauth_client_secret : Option String
  pub oauth_token_url : Option String
  pub oauth_scope : Option String
  pub timeout_seconds : ℤ

pub record SourceEndpoint : Type 0 where
  pub protocol : SourceKind
  pub connection : ConnectionConfig
  pub include_collections : Option (List String)
  pub provider_id : Option String

pub record DestinationEndpoint : Type 0 where
  pub protocol : DestinationKind
  pub connection : ConnectionConfig
  pub root_collection : String
  pub provider_id : Option String

pub record MigrationOptions : Type 0 where
  pub sync_mode : SyncMode
  pub incremental_base_job_id : Option String
  pub dry_run : Bool
  pub max_errors : ℤ
  pub pop3_destination_mailbox : String
  pub max_retries : ℤ

pub record MigrationRequest : Type 0 where
  pub source : SourceEndpoint
  pub destination : DestinationEndpoint
  pub workload : WorkloadType
  pub folder_mapping : List (String × String)
  pub options : MigrationOptions
  pub job_name : Option String

pub record CollectionSnapshot : Type 0 where
  pub name : String
  pub estimated_items : ℤ

pub record MigrationPlanItem : Type 0 where
  pub source_collection : String
  pub destination_collection : String
  pub estimated_items : ℕ

abbrev pub MigrationPlan : Type 0
MigrationPlan = List MigrationPlanItem

unfoldable pub total_estimated_items : MigrationPlan → ℕ
total_estimated_items [] = 0
total_estimated_items (item ∷ items) = item.estimated_items + total_estimated_items items

abbrev pub Bytes : Type 0
Bytes = List ℕ

pub record SourceItem : Type 0 where
  pub source_collection : String
  pub source_id : String
  pub raw_payload : Bytes
  pub content_type : Option String
  pub version_token : Option String
  pub item_key : Option String
  pub metadata : List (String × String)

pub record MigrationReport : Type 0 where
  pub job_id : String
  pub status : JobStatus
  pub migrated_count : ℕ
  pub skipped_count : ℕ
  pub failed_count : ℕ
  pub dry_run : Bool
  pub started_at : Option ℕ
  pub finished_at : Option ℕ
  pub error_messages : List String

-- `mapping.get(key)` on a `dict[str, str]`.
unfoldable pub dict_get : String → List (String × String) → Option String
dict_get k [] = none
dict_get k ((j, v) ∷ m) = if j == k then some v else dict_get k m

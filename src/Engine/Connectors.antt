-- ===== src/Engine/Connectors.antt =====
-- connectors/base.py: the two interfaces through which the engine reaches the servers.
use groupware_migrator.Base.{String, Option, List, Result, Error, ℤ}
use groupware_migrator.Domain.Types.{Bytes, CollectionSnapshot, SourceItem}

-- What one run sees of the source. `iter_items` gives the items that the generator yields, and the
-- exception that ends it, if one does.
pub record SourceConnector : Type 0 where
  pub validate : Result (Unit {0})
  pub list_collections : Result (List CollectionSnapshot)
  pub iter_items : String → Option String → List SourceItem × Option Error
  pub estimate_pending_items : String → String → Result (Option ℤ)

-- The destination has a state `D` of its own, which every call may change, failing ones included.
pub record DestinationConnector (D : Type 0) : Type 0 where
  pub validate : D → Result (Unit {0}) × D
  pub ensure_collection : String → D → Result (Unit {0}) × D
  pub upsert_item :
      String → String → Bytes → List (String × String) → D → Result (Option String) × D

-- ===== src/Engine/Planner.antt =====
-- engine/planner.py
pub mod Routes
use groupware_migrator.Base.{
  ℕ, String, string_eq, Bool, true, false, not, Option, none, some, List, [], ◌∷◌, ◌++◌, ◌==◌,
  any_where, select_where, Result, ok, ◌>>=◌, ℤ, pos_part, if◌then◌else◌,
}
use groupware_migrator.Base.Text.{is_char, strip_chars, strip, replace_char, ◌<>◌}
use groupware_migrator.Domain.Types.{
  SourceProtocol, SyncMode, full, incremental, MigrationRequest, MigrationPlan, CollectionSnapshot,
  dict_get,
}
use groupware_migrator.Domain.Workload.{is_source}
use groupware_migrator.Engine.Connectors.{SourceConnector}
use groupware_migrator.State.Progress.{truthy}

unfoldable pub normalize_collection_name : String → String
unfolding is_char strip strip_chars
normalize_collection_name name = strip_chars (is_char b'/') (strip name)

unfoldable pub join_collections : String → String → String
unfolding normalize_collection_name
join_collections root collection =
    let root' = normalize_collection_name root in
    let collection' = normalize_collection_name collection in
    if root' == ""
    then (if collection' == "" then "INBOX" else collection')
    else if collection' == ""
    then root'
    else root' <> "/" <> collection'

-- The dictionary `folder_mapping`, with the collection itself where it has no entry.
abbrev pub mapped : List (String × String) → String → String
mapped mapping name = elim (dict_get name mapping) [ none ↦ name | some target ↦ target ]

unfoldable pub resolve_destination_collection : MigrationRequest → String → String
unfolding is_source dict_get join_collections
resolve_destination_collection request source_collection =
    join_collections request.destination.root_collection (
      if is_source SourceProtocol.pop3 request.source.protocol
      then request.options.pop3_destination_mailbox
      else mapped request.folder_mapping source_collection)

unfoldable pub is_incremental : SyncMode → Bool
is_incremental full = false
is_incremental incremental = true

-- `if pending_estimate is not None`
abbrev estimate_or : ℕ → Option ℤ → ℕ
estimate_or n none = n
estimate_or n (some pending) = pos_part pending

unfoldable pub estimated_items :
    MigrationRequest → SourceConnector → List (String × String) → CollectionSnapshot → Result ℕ
unfolding is_incremental dict_get
estimated_items request source cursors snapshot =
    if is_incremental request.options.sync_mode
    then (elim (truthy (dict_get snapshot.name cursors)) [
      | none ↦ ok (pos_part snapshot.estimated_items)
      | some resume_from ↦ do
        pending ← source.estimate_pending_items snapshot.name resume_from
        ok (estimate_or (pos_part snapshot.estimated_items) pending)
    ])
    else ok (pos_part snapshot.estimated_items)

-- the loop of `build_plan`
unfoldable pub plan_items :
    MigrationRequest
    → SourceConnector
    → List (String × String)
    → List CollectionSnapshot
    → Result MigrationPlan
unfolding estimated_items resolve_destination_collection
plan_items request source cursors [] = ok []
plan_items request source cursors (snapshot ∷ snapshots) = do
  estimate ← estimated_items request source cursors snapshot
  rest ← plan_items request source cursors snapshots
  ok (
      record {
        source_collection = snapshot.name;
        destination_collection = resolve_destination_collection request snapshot.name;
        estimated_items = estimate;
      }
      ∷ rest)

-- `casefold` is Python's.
module _ (casefold : String → String) where
  abbrev pub not_empty : String → Bool
  not_empty s = not (s == "")

  -- The set as a list: only membership is asked of it.
  unfoldable pub collection_match_variants : String → List String
  unfolding normalize_collection_name replace_char
  collection_match_variants collection =
      let name = normalize_collection_name collection in
      select_where not_empty (
        casefold name
        ∷ casefold (replace_char b'/' "." name)
        ∷ casefold (replace_char b'.' "/" name)
        ∷ [])

  abbrev pub member : String → List String → Bool
  member s names = any_where (λ t. t == s) names

  unfoldable pub requested : List String → List String
  unfolding collection_match_variants
  requested [] = []
  requested (name ∷ names) = collection_match_variants name ++ requested names

  abbrev pub is_requested : List String → CollectionSnapshot → Bool
  is_requested names snapshot =
      any_where (λ v. member v (requested names)) (collection_match_variants snapshot.name)

  -- `if request.source.include_collections:`: no list and an empty list keep everything.
  unfoldable pub filter_collections :
      MigrationRequest → List CollectionSnapshot → List CollectionSnapshot
  unfolding requested collection_match_variants
  filter_collections request snapshots = elim request.source.include_collections [
    | none ↦ snapshots
    | some [] ↦ snapshots
    | some (name ∷ names) ↦ select_where (is_requested (name ∷ names)) snapshots
  ]

  unfoldable pub build_plan :
      MigrationRequest → SourceConnector → List (String × String) → Result MigrationPlan
  unfolding filter_collections plan_items
  build_plan request source cursors = do
    snapshots ← source.list_collections
    plan_items request source cursors (filter_collections request snapshots)

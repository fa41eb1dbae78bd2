-- ===== src/Engine/Planner/Routes.antt =====
-- engine/planner.py: which collections are planned, and where they go.
use text.Mathlib.TextLemmas.{cons-append}
use groupware_migrator.Base.{
  ℕ, String, ◌≡◌, refl, sym, ap, ◌∙◌, ◌≢◌, inl, inr, Bool, true, false, ◌||◌, List, [], ◌∷◌, ◌++◌,
  map, arith, if◌then◌else◌, Bool-cases, ◌==◌, nat_eq, string_eq, ==-refl, select_where, any_where,
  any_where-append, ok, Result-cases,
}
use groupware_migrator.Base.Text.{◌<>◌}
use groupware_migrator.Domain.Types.{
  SourceProtocol, MigrationRequest, MigrationPlan, CollectionSnapshot,
}
use groupware_migrator.Domain.Workload.{is_source}
use groupware_migrator.Engine.Connectors.{SourceConnector}
use groupware_migrator.Engine.Planner.{
  mapped, normalize_collection_name, join_collections, resolve_destination_collection,
  estimated_items, plan_items, collection_match_variants, member, requested, is_requested,
  filter_collections, build_plan, not_empty,
}

-- The source and the destination of every item of a plan.
abbrev pub routes : MigrationPlan → List (String × String)
routes plan = map (λ item. (item.source_collection, item.destination_collection)) plan

abbrev pub routes_of : MigrationRequest → List CollectionSnapshot → List (String × String)
routes_of request snapshots =
    map (λ snapshot. (snapshot.name, resolve_destination_collection request snapshot.name))
      snapshots

-- the plan of the first collection and the rest
abbrev planned : MigrationRequest → CollectionSnapshot → ℕ → MigrationPlan → MigrationPlan
planned request snapshot n rest =
    record {
      source_collection = snapshot.name;
      destination_collection = resolve_destination_collection request snapshot.name;
      estimated_items = n;
    }
    ∷ rest

plan_items-routes :
    (request : MigrationRequest) (source : SourceConnector) (cursors : List (String × String))
    (snapshots : List CollectionSnapshot) (plan : MigrationPlan)
    → plan_items request source cursors snapshots ≡ ok plan
    → routes plan ≡ routes_of request snapshots
unfolding plan_items
plan_items-routes request source cursors [] plan h = let eq : [] ≡ plan = cc h in ap routes (sym eq)
plan_items-routes request source cursors (snapshot ∷ snapshots) plan h =
    elim (Result-cases (estimated_items request source cursors snapshot)) [
      | inl (exc, e) ↦ absurd (cc (h, e))
      | inr (n, e) ↦ elim (Result-cases (plan_items request source cursors snapshots)) [
        | inl (exc, f) ↦ absurd (cc (rw e at h, f))
        | inr (rest, f) ↦
            let ih = plan_items-routes request source cursors snapshots rest f in
            let made = rw (e, f) at h in
            let eq : planned request snapshot n rest ≡ plan = cc made in
            rw (← eq) (
              ap (λ l. (snapshot.name, resolve_destination_collection request snapshot.name) ∷ l)
                ih)
      ]
    ]

-- The planned collections are those that pass the filter, in the order in which the source lists
-- them, each with its resolved destination: the cursors decide only the estimates.
pub build_plan-routes :
    (casefold : String → String) (request : MigrationRequest) (source : SourceConnector)
    (cursors : List (String × String)) (snapshots : List CollectionSnapshot) (plan : MigrationPlan)
    → source.list_collections ≡ ok snapshots
    → build_plan casefold request source cursors ≡ ok plan
    → routes plan ≡ routes_of request (filter_collections casefold request snapshots)
unfolding build_plan
build_plan-routes casefold request source cursors snapshots plan listed h =
    plan_items-routes request source cursors (filter_collections casefold request snapshots) plan
      (simp listed at h)

abbrev is_nothing : String → Bool
is_nothing String.[] = true
is_nothing (String.◌∷◌ c s) = false

append_nonempty : (a b : String) → (a == "") ≡ false → a <> b ≢ ""
append_nonempty String.[] b h = absurd (cc h)
append_nonempty (String.◌∷◌ c a) b h =
    λ e. let bad : false ≡ true = ap is_nothing (sym (cons-append c a b) ∙ e) in cc bad

different : (a b : String) → (a == b) ≡ false → a ≢ b
different a b h e = let same = (string_eq.beq_iff a b).1 e in absurd (cc (h, same))

-- the three results of `_join_collections`, for normalized names
named :
    (root collection : String)
    → (if root == ""
        then (if collection == "" then "INBOX" else collection)
        else if collection == ""
        then root
        else root <> "/" <> collection)
      ≢ ""
named root collection = elim (Bool-cases (root == "")) [
  | inl no_root ↦ elim (Bool-cases (collection == "")) [
    | inl none_left ↦
        rw (no_root, none_left) (λ e. let bad : false ≡ true = ap is_nothing e in cc bad)
    | inr some_left ↦ rw (no_root, some_left) (λ e. different collection "" some_left e)
  ]
  | inr some_root ↦ elim (Bool-cases (collection == "")) [
    | inl none_left ↦ rw (some_root, none_left) (λ e. different root "" some_root e)
    | inr some_left ↦ rw (some_root, some_left) (append_nonempty root ("/" <> collection) some_root)
  ]
]

-- A collection never goes to a destination without a name.
pub resolve_destination_collection-≢-empty :
    (request : MigrationRequest) (name : String) → resolve_destination_collection request name ≢ ""
unfolding resolve_destination_collection join_collections
resolve_destination_collection-≢-empty request name =
    named (normalize_collection_name request.destination.root_collection) (
      normalize_collection_name (
        if is_source SourceProtocol.pop3 request.source.protocol
        then request.options.pop3_destination_mailbox
        else mapped request.folder_mapping name))

keep_first :
    (p : String → Bool) (x : String) (xs : List String)
    → p x ≡ true
    → select_where p (x ∷ xs) ≡ x ∷ select_where p xs
unfolding select_where
keep_first p x xs h = rw h refl

or_true : (b : Bool) → (b || true) ≡ true
or_true b = ground arith

module _ (casefold : String → String) where
  abbrev folded : String → String
  folded name = casefold (normalize_collection_name name)

  member-append :
      (s : String) (xs ys : List String)
      → member casefold s (xs ++ ys) ≡ (member casefold s xs || member casefold s ys)
  member-append s xs ys = any_where-append (λ t. t == s) xs ys

  -- A collection whose folded name is not empty has that name among its variants, first.
  first_variant :
      (name : String)
      → (folded name == "") ≡ false
      → (rest : List String) × (collection_match_variants casefold name ≡ folded name ∷ rest)
  unfolding collection_match_variants
  first_variant name h = (_, keep_first (not_empty casefold) (folded name) _ (rw h refl))

  variant_of_itself :
      (name : String)
      → (folded name == "") ≡ false
      → member casefold (folded name) (collection_match_variants casefold name) ≡ true
  unfolding any_where
  variant_of_itself name h =
      let (rest, e) = first_variant name h in rw e (rw (==-refl (folded name)) refl)

  member-requested :
      (name : String) (names : List String)
      → (folded name == "") ≡ false
      → member casefold name names ≡ true
      → member casefold (folded name) (requested casefold names) ≡ true
  unfolding requested any_where
  member-requested name [] h at = absurd (cc at)
  member-requested name (n ∷ names) h at =
      rw
        (member-append (folded name) (collection_match_variants casefold n)
          (requested casefold names))
        (elim (Bool-cases (n == name)) [
          | inl same ↦ rw ((string_eq.beq_iff n name).0 same) (rw (variant_of_itself name h) refl)
          | inr differs ↦ rw (member-requested name names h (rw differs at at)) (or_true _)
        ])

  -- A collection that the list of names holds passes the filter, unless its normalized name folds to
  -- nothing.
  pub is_requested-named :
      (names : List String) (snapshot : CollectionSnapshot)
      → (folded snapshot.name == "") ≡ false
      → member casefold snapshot.name names ≡ true
      → is_requested casefold names snapshot ≡ true
  unfolding any_where
  is_requested-named names snapshot h at =
      let (rest, e) = first_variant snapshot.name h in
      rw (is_requested, e) (rw (member-requested snapshot.name names h at) refl)

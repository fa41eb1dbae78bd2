-- ===== src/State/OidcProviders.antt =====
-- engine/state.py: the operations on the `oidc_providers` table.
use groupware_migrator.Base.{
  ℕ, String, Bool, ◌≡◌, refl, inl, inr, Bool-cases, Option, none, List, [], ◌∷◌, ◌++◌, leb,
  if◌then◌else◌, ◌==◌, nat_eq, string_eq, find_where, select_where, any_where, delete_where,
  integrity_error, Result, ok, err,
}
use groupware_migrator.State.Schema.{OidcProviderRow, Store}

-- The arguments of `create_oidc_provider`.
pub record NewProvider : Type 0 where
  pub name : String
  pub client_id : String
  pub client_secret : String
  pub issuer : String
  pub discovery_url : String
  pub scope : String
  pub admin_claim : String
  pub admin_claim_value : String

abbrev pub provider_is : String → OidcProviderRow → Bool
provider_is provider_id row = row.id == provider_id

unfoldable pub new_provider : String → NewProvider → ℕ → OidcProviderRow
new_provider id p now = record {
  id = id;
  name = p.name;
  client_id = p.client_id;
  client_secret = p.client_secret;
  issuer = p.issuer;
  discovery_url = p.discovery_url;
  scope = p.scope;
  admin_claim = p.admin_claim;
  admin_claim_value = p.admin_claim_value;
  created_at = now;
}

-- `id` is what `uuid.uuid4` gives.
unfoldable pub create_oidc_provider : String → NewProvider → Store → Result Store
unfolding new_provider
create_oidc_provider id p s =
    if any_where (provider_is id) s.oidc_providers
    then err (integrity_error "UNIQUE constraint failed: oidc_providers.id")
    else ok (record s { oidc_providers = s.oidc_providers ++ new_provider id p s.clock ∷ [] })

-- ORDER BY created_at
unfoldable pub insert_oldest : OidcProviderRow → List OidcProviderRow → List OidcProviderRow
insert_oldest row [] = row ∷ []
insert_oldest row (r ∷ rows) =
    let rest = insert_oldest row rows in
    if leb row.created_at r.created_at then row ∷ r ∷ rows else r ∷ rest

unfoldable pub oldest_first : List OidcProviderRow → List OidcProviderRow
unfolding insert_oldest
oldest_first [] = []
oldest_first (row ∷ rows) = insert_oldest row (oldest_first rows)

unfoldable pub list_oidc_providers : Store → List OidcProviderRow
unfolding oldest_first
list_oidc_providers s = oldest_first s.oidc_providers

unfoldable pub get_oidc_provider : String → Store → Option OidcProviderRow
get_oidc_provider provider_id s = find_where (provider_is provider_id) s.oidc_providers

unfoldable pub delete_oidc_provider : String → Store → Store × Bool
delete_oidc_provider provider_id s = (
  record s { oidc_providers = delete_where (provider_is provider_id) s.oidc_providers },
  any_where (provider_is provider_id) s.oidc_providers,
)

find_where-delete_where :
    (k : String) (rows : List OidcProviderRow)
    → find_where (provider_is k) (delete_where (provider_is k) rows) ≡ none
unfolding find_where select_where
find_where-delete_where k [] = refl
find_where-delete_where k (row ∷ rows) = elim (Bool-cases (row.id == k)) [
  | inl e ↦ rw e (find_where-delete_where k rows)
  | inr e ↦ rw e (rw e (find_where-delete_where k rows))
]

-- A deleted provider is not found.
pub get_oidc_provider-delete_oidc_provider :
    (id : String) (s : Store) → get_oidc_provider id (delete_oidc_provider id s).0 ≡ none
unfolding get_oidc_provider delete_oidc_provider
get_oidc_provider-delete_oidc_provider id s = find_where-delete_where id s.oidc_providers

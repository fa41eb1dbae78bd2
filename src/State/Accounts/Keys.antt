-- ===== src/State/Accounts/Keys.antt =====
-- engine/state.py, API keys: a key stands for its user from its creation to its revocation.
use mathlib.Core.Option
use groupware_migrator.Base.{
  ℕ, String, ◌≡◌, refl, sym, ap, ◌∙◌, ◌≢◌, inl, inr, Bool, true, false, ◌&&◌, ◌||◌, none, some,
  List, [], ◌∷◌, ◌++◌, arith, Bool-cases, ◌==◌, nat_eq, string_eq, ==-refl, find_where, All, Option,
  select_where, any_where, delete_where, ok, guard_ok,
}
use groupware_migrator.Engine.Idempotency.{Library}
use groupware_migrator.State.Schema.{UserRow, ApiKeyRow, Store}
use groupware_migrator.State.Accounts.{
  get_user_by_id, Identity, key_is, hash_is, digest, create_api_key, found_key, validate_api_key,
  revoke_api_key,
}

-- the payload for a user
abbrev pub identity_of : UserRow → Identity
identity_of user = record { sub = user.id; email = user.email; is_admin = user.is_admin }

find_where_new :
    (p : ApiKeyRow → Bool) (rows : List ApiKeyRow) (row : ApiKeyRow)
    → any_where p rows ≡ false
    → p row ≡ true
    → find_where p (rows ++ row ∷ []) ≡ some row
unfolding find_where any_where
find_where_new p [] row fresh is = rw is refl
find_where_new p (r ∷ rows) row fresh is = elim (Bool-cases (p r)) [
  | inl e ↦ absurd (true_false (sym (rw e refl) ∙ fresh))
  | inr e ↦ rw e (find_where_new p rows row (sym (rw e refl) ∙ fresh) is)
]
  where
    true_false : true ≢ false
    true_false h = cc

find_deleted :
    (p q : ApiKeyRow → Bool) (rows : List ApiKeyRow)
    → All (λ row. p row ≡ true → q row ≡ true) rows
    → find_where p (delete_where q rows) ≡ none
unfolding find_where select_where
find_deleted p q [] h = refl
find_deleted p q (r ∷ rows) h = elim (Bool-cases (p r)) [
  | inl e ↦ rw (h.0 e) (find_deleted p q rows h.1)
  | inr e ↦ elim (Bool-cases (q r)) [
    | inl e' ↦ rw e' (find_deleted p q rows h.1)
    | inr e' ↦ rw e' (rw e (find_deleted p q rows h.1))
  ]
]

find_kept :
    (p q : ApiKeyRow → Bool) (rows : List ApiKeyRow)
    → All (λ row. p row ≡ true → q row ≡ false) rows
    → find_where p (delete_where q rows) ≡ find_where p rows
unfolding find_where select_where
find_kept p q [] h = refl
find_kept p q (r ∷ rows) h = elim (Bool-cases (p r)) [
  | inl e ↦ rw (h.0 e) (rw e refl)
  | inr e ↦ elim (Bool-cases (q r)) [
    | inl e' ↦ rw e' (rw e (find_kept p q rows h.1))
    | inr e' ↦ rw e' (rw e (find_kept p q rows h.1))
  ]
]

module _ (lib : Library) (key_id raw_key user_id label : String) where
  abbrev key_row : ℕ → ApiKeyRow
  key_row now = record {
    id = key_id;
    user_id = user_id;
    key_hash = digest lib raw_key;
    label = label;
    created_at = now;
    last_used_at = none;
  }

  found_key_identity :
      (key : ApiKeyRow) (user : UserRow) (s : Store)
      → (found_key lib key (some user) s).0 ≡ some (identity_of user)
  unfolding found_key
  found_key_identity key user s = refl

  or_false : (a b : Bool) → (a || b) ≡ false → b ≡ false
  or_false a b h = ground arith

  validate_found :
      (s : Store) (key : ApiKeyRow) (user : UserRow)
      → find_where (hash_is (digest lib raw_key)) s.api_keys ≡ some key
      → get_user_by_id key.user_id s ≡ some user
      → (validate_api_key lib raw_key s).0 ≡ some (identity_of user)
  unfolding validate_api_key
  validate_found s key user found known =
      rw (found, validate_api_key) (rw known (found_key_identity key user s))

  -- A key that has been created for a user in the table is accepted for that user, whether the user is
  -- active or not.
  pub validate_api_key-create_api_key :
      (s s' : Store) (user : UserRow)
      → create_api_key lib key_id raw_key user_id label s ≡ ok s'
      → get_user_by_id user_id s ≡ some user
      → (validate_api_key lib raw_key s').0 ≡ some (identity_of user)
  unfolding create_api_key get_user_by_id
  validate_api_key-create_api_key s s' user made known =
      let (guard, new) = guard_ok _ _ _ s' made in
      let fresh =
        or_false (any_where (key_is key_id) s.api_keys)
          (any_where (hash_is (digest lib raw_key)) s.api_keys) guard in
      validate_found s' (key_row s.clock) user
        (ap (λ (t : Store). find_where (hash_is (digest lib raw_key)) t.api_keys) (sym new)
          ∙ find_where_new (hash_is (digest lib raw_key)) s.api_keys (key_row s.clock) fresh
              (==-refl (digest lib raw_key)))
        (ap (get_user_by_id user_id) (sym new) ∙ known)

-- the rows that the revocation deletes
abbrev pub is_revoked : String → String → ApiKeyRow → Bool
is_revoked key_id user_id row = key_is key_id row && row.user_id == user_id

-- the payload for the row that a key's hash finds
abbrev identity_in : Store → Option ApiKeyRow → Option Identity
identity_in s none = none
identity_in s (some key) = Option.map identity_of (get_user_by_id key.user_id s)

found_key-map :
    (lib : Library) (key : ApiKeyRow) (user : Option UserRow) (s : Store)
    → (found_key lib key user s).0 ≡ Option.map identity_of user
unfolding found_key
found_key-map lib key none s = refl
found_key-map lib key (some user) s = refl

validate_as :
    (lib : Library) (raw_key : String) (s : Store) (found : Option ApiKeyRow)
    → find_where (hash_is (digest lib raw_key)) s.api_keys ≡ found
    → (validate_api_key lib raw_key s).0 ≡ identity_in s found
unfolding validate_api_key
validate_as lib raw_key s none h = rw (h, validate_api_key) refl
validate_as lib raw_key s (some key) h =
    rw (h, validate_api_key) (found_key-map lib key (get_user_by_id key.user_id s) s)

-- Once a user has revoked a key, it is refused, whatever has happened since it was created, as long as
-- the rows of its hash are those of its id and user. A key of which no row has that id and user is
-- accepted as before, for the same user.
pub validate_api_key-revoke_api_key :
    (lib : Library) (key_id user_id raw_key other_key : String) (s : Store)
    → All
        (λ row. hash_is (digest lib raw_key) row ≡ true → is_revoked key_id user_id row ≡ true)
        s.api_keys
    → All
        (λ row. hash_is (digest lib other_key) row ≡ true → is_revoked key_id user_id row ≡ false)
        s.api_keys
    → let s' = (revoke_api_key key_id user_id s).0 in
      ((validate_api_key lib raw_key s').0 ≡ none)
      × ((validate_api_key lib other_key s').0 ≡ (validate_api_key lib other_key s).0)
unfolding revoke_api_key get_user_by_id
validate_api_key-revoke_api_key lib key_id user_id raw_key other_key s own others =
    let s' = (revoke_api_key key_id user_id s).0 in
    let found = find_where (hash_is (digest lib other_key)) s.api_keys in
    (
      validate_as lib raw_key s' none
          (find_deleted (hash_is (digest lib raw_key)) (is_revoked key_id user_id) s.api_keys own),
      validate_as lib other_key s' found (
            find_kept (hash_is (digest lib other_key)) (is_revoked key_id user_id) s.api_keys
              others)
          ∙ sym (validate_as lib other_key s found refl),
    )

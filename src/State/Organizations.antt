-- ===== src/State/Organizations.antt =====
-- engine/state.py: the operations on the `organizations` and `org_memberships` tables.
use groupware_migrator.Base.{
  ℕ, String, Bool, true, ◌&&◌, ◌||◌, Option, none, some, List, [], ◌∷◌, ◌++◌, if◌then◌else◌, ◌==◌,
  nat_eq, string_eq, find_where, any_where, delete_where, integrity_error, Result, ok, err,
}
use groupware_migrator.Base.Text.{strip}
use groupware_migrator.Engine.Idempotency.{Library}
use groupware_migrator.State.Schema.{OrganizationRow, MembershipRow, UserRow, Store}
use groupware_migrator.State.Accounts.{user_is}

abbrev pub org_is : String → OrganizationRow → Bool
org_is org_id row = row.id == org_id

abbrev pub slug_is : String → OrganizationRow → Bool
slug_is slug row = row.slug == slug

abbrev pub membership_is : String → String → MembershipRow → Bool
membership_is org_id user_id row = row.org_id == org_id && row.user_id == user_id

module _ (lib : Library) where
  -- `slug.lower().strip()`
  unfoldable pub normal_slug : String → String
  unfolding strip
  normal_slug slug = strip (lib.lower slug)

  unfoldable pub create_org : String → String → String → String → Store → Result Store
  unfolding normal_slug
  create_org id name slug created_by s =
      if any_where (org_is id) s.organizations
        || any_where (slug_is (normal_slug slug)) s.organizations
      then err (integrity_error "UNIQUE constraint failed: organizations")
      else if any_where (membership_is id created_by) s.org_memberships
      then err (
          integrity_error
            "UNIQUE constraint failed: org_memberships.org_id, org_memberships.user_id")
      else ok (record s {
        organizations =
            s.organizations
            ++ record {
              id = id;
              name = name;
              slug = normal_slug slug;
              created_by = created_by;
              created_at = s.clock;
            }
              ∷ [];
        org_memberships =
            s.org_memberships
            ++ record { org_id = id; user_id = created_by; role = "owner"; joined_at = s.clock }
              ∷ [];
      })

  unfoldable pub get_org_by_slug : String → Store → Option OrganizationRow
  unfolding normal_slug
  get_org_by_slug slug s = find_where (slug_is (normal_slug slug)) s.organizations

unfoldable pub get_org : String → Store → Option OrganizationRow
get_org org_id s = find_where (org_is org_id) s.organizations

abbrev role_of : Option MembershipRow → Option String
role_of none = none
role_of (some row) = some row.role

unfoldable pub get_org_member_role : String → String → Store → Option String
get_org_member_role org_id user_id s =
    role_of (find_where (membership_is org_id user_id) s.org_memberships)

-- INSERT OR IGNORE. The answer is true also where the row was there.
unfoldable pub add_org_member : String → String → String → Store → Store × Bool
add_org_member org_id user_id role s =
    if any_where (membership_is org_id user_id) s.org_memberships then (s, true) else (
      record s {
        org_memberships =
            s.org_memberships
            ++ record { org_id = org_id; user_id = user_id; role = role; joined_at = s.clock } ∷ [];
      },
      true,
    )

unfoldable pub remove_org_member : String → String → Store → Store × Bool
remove_org_member org_id user_id s = (
  record s { org_memberships = delete_where (membership_is org_id user_id) s.org_memberships },
  any_where (membership_is org_id user_id) s.org_memberships,
)

unfoldable pub delete_org : String → Store → Store × Bool
delete_org org_id s = (
  record s { organizations = delete_where (org_is org_id) s.organizations },
  any_where (org_is org_id) s.organizations,
)

-- the rows of `list_org_members`: the JOIN drops a membership of which the user is gone
pub record Member : Type 0 where
  pub id : String
  pub email : String
  pub user_role : String
  pub org_role : String
  pub joined_at : ℕ

abbrev joined_member : MembershipRow → Option UserRow → List Member
joined_member m none = []
joined_member m (some u) =
    record {
      id = u.id;
      email = u.email;
      user_role = u.role;
      org_role = m.role;
      joined_at = m.joined_at;
    }
    ∷ []

unfoldable pub members_from : String → List UserRow → List MembershipRow → List Member
members_from org_id users [] = []
members_from org_id users (m ∷ ms) =
    let rest = members_from org_id users ms in
    if m.org_id == org_id
    then joined_member m (find_where (user_is m.user_id) users) ++ rest
    else rest

-- ORDER BY joined_at ASC, where the rows were inserted in that order
unfoldable pub list_org_members : String → Store → List Member
unfolding members_from
list_org_members org_id s = members_from org_id s.users s.org_memberships

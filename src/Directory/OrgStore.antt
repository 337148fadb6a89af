-- ===== src/Directory/OrgStore.antt =====
-- `MemoryOrgStore` of internal/directory/memory_store.go. Each operation holds the store's lock
-- from its first statement to its last, so it is one step. Stored relations are shared between the
-- two tables and never written to, so a relation is a value.
pub mod Invariant
pub mod Paths
pub mod Members
use Prim.Native.String.{◌++◌}
use auth_imp.Base.{
  ℕ, String, Bool, true, false, Option, none, some, List, not, ◌==◌, if◌then◌else◌, select, any,
}
use auth_imp.Base.Int.{ℤ}
use auth_imp.Errors.{Error, Result, ok, err}
use auth_imp.Dict
use auth_imp.Dict.{Dict}
use auth_imp.Dict.Order.{Order}
use auth_imp.Model.{Time, Organization, UserOrgRelation}
use auth_imp.Page.{page}
use auth_imp.Directory.Membership.{rows, append_row, drop_rows, drop_each}

pub record MemoryOrgStore : Type 0 where
  pub orgs : Dict Organization
  -- by organisation
  pub members : Dict (List UserOrgRelation)
  -- by user
  pub user_orgs : Dict (List UserOrgRelation)

-- `NewMemoryOrgStore`
abbrev pub new : MemoryOrgStore
new = record { orgs = Dict.empty; members = Dict.empty; user_orgs = Dict.empty }

abbrev pub org_of : UserOrgRelation → String
org_of r = r.org_id

abbrev pub user_of : UserOrgRelation → String
user_of r = r.user_id

-- The organisation that `Create` stores, with its path.
abbrev pub placed : Time → Organization → String → Organization
placed now org path = record org { created_at = now; updated_at = now; path = path }

unfoldable pub store_new :
    Time → Organization → String → MemoryOrgStore → Result Organization × MemoryOrgStore
store_new now org path s =
    let created = placed now org path in
    (ok created, record s { orgs = Dict.put s.orgs org.id created })

unfoldable pub create : Time → Organization → MemoryOrgStore → Result Organization × MemoryOrgStore
unfolding store_new
create now org s = elim (Dict.get s.orgs org.id) [
  | some _ ↦ (err Error.org_already_exists, s)
  | none ↦
      if org.parent_id == ""
      then store_new now org ("/" ++ org.id) s
      else elim (Dict.get s.orgs org.parent_id) [
        | none ↦ (err (Error.parent_not_found org.parent_id), s)
        | some parent ↦ store_new now org (parent.path ++ ("/" ++ org.id)) s
      ]
]

unfoldable pub get_by_id : String → MemoryOrgStore → Result Organization
get_by_id id s = elim (Dict.get s.orgs id) [ none ↦ err Error.org_not_found | some org ↦ ok org ]

-- The fields of `org` that are not empty, put over the stored ones. The path stays.
unfoldable pub overlay : Time → Organization → Organization → Organization
overlay now org existing = record existing {
  name = if org.name == "" then existing.name else org.name;
  parent_id = if org.parent_id == "" then existing.parent_id else org.parent_id;
  updated_at = now;
}

unfoldable pub update : Time → Organization → MemoryOrgStore → Result (Unit {0}) × MemoryOrgStore
unfolding overlay
update now org s = elim (Dict.get s.orgs org.id) [
  | none ↦ (err Error.org_not_found, s)
  | some existing ↦ (ok tt, record s { orgs = Dict.put s.orgs org.id (overlay now org existing) })
]

-- `removeUserOrgRelation`
unfoldable pub remove_user_org_relation :
    String → String → Dict (List UserOrgRelation) → Dict (List UserOrgRelation)
remove_user_org_relation user_id org_id = drop_rows org_of user_id org_id

unfoldable pub delete : String → MemoryOrgStore → Result (Unit {0}) × MemoryOrgStore
delete id s = elim (Dict.get s.orgs id) [
  | none ↦ (err Error.org_not_found, s)
  | some _ ↦ (
    ok tt,
    record {
      orgs = Dict.remove s.orgs id;
      members = Dict.remove s.members id;
      user_orgs = drop_each org_of user_of id (rows s.members id) s.user_orgs;
    },
  )
]

unfoldable pub list : Order Organization → ℤ → ℤ → MemoryOrgStore → Result (List Organization × ℕ)
list order offset limit s = page (order (Dict.values s.orgs)) offset limit

unfoldable pub list_children : Order Organization → String → MemoryOrgStore → List Organization
list_children order parent_id s =
    select (λ o. o.parent_id == parent_id) (order (Dict.values s.orgs))

unfoldable pub add_member : UserOrgRelation → MemoryOrgStore → Result (Unit {0}) × MemoryOrgStore
add_member rel s = elim (Dict.get s.orgs rel.org_id) [
  | none ↦ (err Error.org_not_found, s)
  | some _ ↦
      if any (λ r. r.user_id == rel.user_id) (rows s.members rel.org_id)
      then (err Error.member_exists, s)
      else (
        ok tt,
        record s {
          members = append_row s.members rel.org_id rel;
          user_orgs = append_row s.user_orgs rel.user_id rel;
        },
      )
]

unfoldable pub remove_member : String → String → MemoryOrgStore → Result (Unit {0}) × MemoryOrgStore
unfolding remove_user_org_relation
remove_member org_id user_id s =
    if any (λ r. r.user_id == user_id) (rows s.members org_id)
    then (
      ok tt,
      record s {
        members = drop_rows user_of org_id user_id s.members;
        user_orgs = remove_user_org_relation user_id org_id s.user_orgs;
      },
    )
    else (err Error.member_not_found, s)

unfoldable pub list_members : String → MemoryOrgStore → Result (List UserOrgRelation)
list_members org_id s = elim (Dict.get s.orgs org_id) [
  | none ↦ err Error.org_not_found
  | some _ ↦ ok (rows s.members org_id)
]

unfoldable pub get_user_orgs : String → MemoryOrgStore → List UserOrgRelation
get_user_orgs user_id s = rows s.user_orgs user_id

-- ===== src/Tests/Services.antt =====
-- The services (internal/service, internal/auth) at one user and one organisation.
use auth_imp.Base.{◌≡◌, ◌↔◌, ◌≤◌, false, List, [], ◌∷◌, ◌==◌, any, length, refl}
use auth_imp.Base.Int.{pos}
use auth_imp.Errors.{ok}
use auth_imp.Dict
use auth_imp.Page.{page, slice, cut_end}
use auth_imp.Model.{
  User, CreateUserRequest, UpdateUserRequest, UserOrgRelation, AddOrgMemberRequest,
}
use auth_imp.UserStore
use auth_imp.UserStore.{MemoryStore, live, live_users}
use auth_imp.UserStore.Reads.{IsLive}
use auth_imp.UserService
use auth_imp.UserService.Credentials.{
  IsActive, verify_credentials_iff, verify_credentials-create_user,
}
use auth_imp.UserService.Sessions.{update_user_offline}
use auth_imp.UserService.Lists.{list_users-length}
use auth_imp.Auth.{hash_password}
use auth_imp.Directory.OrgStore
use auth_imp.Directory.GroupStore
use auth_imp.DirectoryService
use auth_imp.DirectoryService.{DirectoryService, new_relation}
use auth_imp.DirectoryService.Joins.{asked_relation, IsJoined, add_org_member_iff}
use auth_imp.Tests.Orgs
use auth_imp.Tests.Users.{stored_alice, one_user, one_user-IsUserStore, as_entered}

verify_credentials_iff_example :
    (UserService.verify_credentials "alice" "wonderland" one_user ≡ ok stored_alice) ↔ (
      IsLive one_user stored_alice
      × (stored_alice.username ≡ "alice")
      × IsActive stored_alice
      × (stored_alice.password_hash ≡ "wonderland"))
verify_credentials_iff_example =
    verify_credentials_iff one_user one_user-IsUserStore "alice" "wonderland" stored_alice

abbrev carol_request : CreateUserRequest
carol_request = record {
  username = "carol";
  email = "carol@x.org";
  password = "looking glass";
  display_name = "Carol";
}

abbrev carol : User
carol = record (UserService.new_user "u3" carol_request "looking glass") {
  created_at = 9;
  updated_at = 9;
}

carol_created : (UserService.create_user 9 "u3" carol_request one_user).0 ≡ ok carol
unfolding UserService.create_user hash_password UserStore.create UserStore.load_or_store
    UserStore.stamp_new Dict.get Dict.put Dict.empty
carol_created = refl

verify_credentials-create_user_example :
    UserService.verify_credentials "carol" "looking glass"
      (UserService.create_user 9 "u3" carol_request one_user).1
    ≡ ok carol
verify_credentials-create_user_example =
    verify_credentials-create_user 9 "u3" carol_request one_user carol carol_created

abbrev new_name : UpdateUserRequest
new_name = record { email = ""; display_name = "Alice"; status = "" }

abbrev renamed : User
renamed = record stored_alice { display_name = "Alice"; updated_at = 11 }

name_changed : (UserService.update_user 11 "u1" new_name one_user).0 ≡ ok renamed
unfolding UserService.update_user UserStore.update UserStore.update_existing UserStore.overlay
    UserStore.get_by_id UserStore.create UserStore.load_or_store UserStore.stamp_new Dict.get
    Dict.put Dict.empty
name_changed = refl

update_user_offline_example :
    (UserStore.get_by_id "u1" (UserService.update_user 11 "u1" new_name one_user).1 ≡ ok renamed)
    × (renamed.is_online ≡ false)
update_user_offline_example = update_user_offline 11 "u1" one_user new_name renamed name_changed

abbrev deletion : UpdateUserRequest
deletion = record { email = ""; display_name = ""; status = "deleted" }

users_listed :
    UserService.list_users (λ t. t) as_entered "" (pos 0) (pos 0) one_user
    ≡ ok (stored_alice ∷ [], 1)
unfolding UserService.list_users UserStore.list UserStore.live_users page slice cut_end
    UserStore.create UserStore.load_or_store UserStore.stamp_new Dict.values Dict.get Dict.put
    Dict.empty
users_listed = refl

list_users-length_example : length (stored_alice ∷ []) ≤ 100
list_users-length_example =
    list_users-length (λ t. t) as_entered "" one_user (pos 0) (pos 0) (stored_alice ∷ []) 1
      users_listed

abbrev new_directory : DirectoryService
new_directory = record {
  org_store = OrgStore.new;
  group_store = GroupStore.new;
  user_store = one_user;
}

abbrev pub directory : DirectoryService
directory = record new_directory { org_store = Orgs.with_member }

abbrev joining : AddOrgMemberRequest
joining = record { user_id = "u1"; role = ""; is_primary = false }

add_org_member_iff_example :
    ((rels : List UserOrgRelation) × IsJoined
        (asked_relation "o2" joining)
        rels
        (DirectoryService.add_org_member "o2" joining directory)
        directory)
    ↔ ((u : User) × (UserStore.get_by_id "u1" directory.user_store ≡ ok u))
      × ((rels : List UserOrgRelation) × (OrgStore.list_members "o2" directory.org_store ≡ ok rels)
          × (any (λ r. r.user_id == "u1") rels ≡ false))
add_org_member_iff_example = add_org_member_iff "o2" joining directory

-- ===== src/Idpctl/Commands.antt =====
-- The commands of cmd/idpctl/auth.go, user.go, org.go and group.go, each with its arguments.
use Prim.Native.String.{String, ◌++◌}
use auth_imp.Base.{Option, none, some, Bool, List, [], ◌∷◌, if◌then◌else◌}
use auth_imp.Base.Int.{ℤ}
use auth_imp.Idpctl.{texts, object, Action, rest_call, uds_call, crash}

-- `"key":"value"` in a body, as the commands print it: quotes in the value are not escaped.
abbrev pub entry : String → String → String
entry key value = "\"" ++ (key ++ ("\":\"" ++ (value ++ "\"")))

-- The body with the entries of a list.
abbrev pub one_entry : String → String → String
one_entry key value = "{" ++ (entry key value ++ "}")

abbrev pub two_entries : String → String → String → String → String
two_entries key value other text = "{" ++ (entry key value ++ ("," ++ (entry other text ++ "}")))

-- `encoding/json` on the objects of a payload, and `%d`.
module _ {Object : Type 0} (unmarshal : String → Option Object)
    (set_entry : String → String → Object → Object) (itoa : ℤ → String) where
  unfoldable pub auth_login : Bool → String → String → Action Object
  auth_login use_uds username password =
      if use_uds
      then uds_call "auth" (texts (("username", username) ∷ ("password", password) ∷ []))
      else rest_call "POST" "/api/v1/auth/login"
          (some (two_entries "username" username "password" password))

  unfoldable pub user_create : String → String → String → Action Object
  user_create username password email = rest_call "POST" "/api/v1/users" (
      some (
        "{"
        ++ (entry "username" username
            ++ ("," ++ (entry "password" password ++ ("," ++ (entry "email" email ++ "}")))))))

  unfoldable pub user_get : Bool → String → Action Object
  user_get use_uds id =
      if use_uds
      then uds_call "get_user" (texts (("username", id) ∷ []))
      else rest_call "GET" ("/api/v1/users/" ++ id) none

  unfoldable pub user_list : ℤ → ℤ → Action Object
  user_list page page_size =
      rest_call "GET" ("/api/v1/users?page=" ++ (itoa page ++ ("&page_size=" ++ itoa page_size)))
        none

  unfoldable pub user_update : String → String → Action Object
  user_update id json = rest_call "PUT" ("/api/v1/users/" ++ id) (some json)

  unfoldable pub user_delete : String → Action Object
  user_delete id = rest_call "DELETE" ("/api/v1/users/" ++ id) none

  unfoldable pub user_online_count : Action Object
  user_online_count = rest_call "GET" "/api/v1/users/online/count" none

  -- The body of `org create`.
  abbrev pub org_body : String → Option String → String
  org_body name none = one_entry "name" name
  org_body name (some parent) = two_entries "name" name "parent_id" parent

  unfoldable pub org_create : Bool → String → Option String → Action Object
  org_create use_uds name parent =
      let body = org_body name parent in
      if use_uds
      then uds_call "create_org" (object (unmarshal body))
      else rest_call "POST" "/api/v1/directory/organizations" (some body)

  unfoldable pub org_get : Bool → String → Action Object
  org_get use_uds id =
      if use_uds
      then uds_call "get_org" (texts (("org_id", id) ∷ []))
      else rest_call "GET" ("/api/v1/directory/organizations/" ++ id) none

  -- The query and the payload of `org list`.
  abbrev pub parent_query : Option String → String
  parent_query none = ""
  parent_query (some parent) = "?parent_id=" ++ parent

  abbrev pub parent_payload : Option String → List (String × String)
  parent_payload none = []
  parent_payload (some parent) = ("parent_id", parent) ∷ []

  unfoldable pub org_list : Bool → Option String → Action Object
  org_list use_uds parent =
      if use_uds
      then uds_call "list_orgs" (texts (parent_payload parent))
      else rest_call "GET" ("/api/v1/directory/organizations" ++ parent_query parent) none

  unfoldable pub org_members : Bool → String → Action Object
  org_members use_uds id =
      if use_uds
      then uds_call "list_org_members" (texts (("org_id", id) ∷ []))
      else rest_call "GET" ("/api/v1/directory/organizations/" ++ (id ++ "/members")) none

  -- The role that is given, or `member`.
  abbrev pub role_of : Option String → String
  role_of none = "member"
  role_of (some role) = role

  -- `payload["org_id"] = id`, on a map that is nil where the body did not decode.
  abbrev pub with_org_id : String → Option Object → Action Object
  with_org_id id none = crash
  with_org_id id (some payload) =
      uds_call "add_org_member" (object (some (set_entry "org_id" id payload)))

  unfoldable pub org_add_member : Bool → String → String → Option String → Action Object
  org_add_member use_uds id user_id role =
      let body = two_entries "user_id" user_id "role" (role_of role) in
      if use_uds
      then with_org_id id (unmarshal body)
      else rest_call "POST" ("/api/v1/directory/organizations/" ++ (id ++ "/members")) (some body)

  unfoldable pub org_remove_member : Bool → String → String → Action Object
  org_remove_member use_uds id user_id =
      if use_uds
      then uds_call "remove_org_member" (texts (("org_id", id) ∷ ("user_id", user_id) ∷ []))
      else rest_call "DELETE"
          ("/api/v1/directory/organizations/" ++ (id ++ ("/members/" ++ user_id))) none

  unfoldable pub org_delete : String → Action Object
  org_delete id = rest_call "DELETE" ("/api/v1/directory/organizations/" ++ id) none

  unfoldable pub group_create : Bool → String → String → Action Object
  group_create use_uds name kind =
      let body = two_entries "name" name "type" kind in
      if use_uds
      then uds_call "create_group" (object (unmarshal body))
      else rest_call "POST" "/api/v1/directory/groups" (some body)

  unfoldable pub group_get : Bool → String → Action Object
  group_get use_uds id =
      if use_uds
      then uds_call "get_group" (texts (("group_id", id) ∷ []))
      else rest_call "GET" ("/api/v1/directory/groups/" ++ id) none

  unfoldable pub group_list : Bool → Action Object
  group_list use_uds =
      if use_uds
      then uds_call "list_groups" (texts [])
      else rest_call "GET" "/api/v1/directory/groups" none

  unfoldable pub group_members : Bool → String → Action Object
  group_members use_uds id =
      if use_uds
      then uds_call "list_group_members" (texts (("group_id", id) ∷ []))
      else rest_call "GET" ("/api/v1/directory/groups/" ++ (id ++ "/members")) none

  unfoldable pub group_add_member : Bool → String → String → Action Object
  group_add_member use_uds id user_id =
      if use_uds
      then uds_call "add_group_member" (texts (("group_id", id) ∷ ("user_id", user_id) ∷ []))
      else rest_call "POST" ("/api/v1/directory/groups/" ++ (id ++ "/members"))
          (some (one_entry "user_id" user_id))

  unfoldable pub group_remove_member : Bool → String → String → Action Object
  group_remove_member use_uds id user_id =
      if use_uds
      then uds_call "remove_group_member" (texts (("group_id", id) ∷ ("user_id", user_id) ∷ []))
      else rest_call "DELETE" ("/api/v1/directory/groups/" ++ (id ++ ("/members/" ++ user_id))) none

  unfoldable pub group_delete : String → Action Object
  group_delete id = rest_call "DELETE" ("/api/v1/directory/groups/" ++ id) none

-- `AddCommand` of the four groups, and of the root.
pub data Command : Type 0 where
  auth_login_command : String → String → Command
  user_create_command : String → String → String → Command
  user_get_command : String → Command
  user_list_command : ℤ → ℤ → Command
  user_update_command : String → String → Command
  user_delete_command : String → Command
  user_online_count_command : Command
  org_create_command : String → Option String → Command
  org_get_command : String → Command
  org_list_command : Option String → Command
  org_members_command : String → Command
  org_add_member_command : String → String → Option String → Command
  org_remove_member_command : String → String → Command
  org_delete_command : String → Command
  group_create_command : String → String → Command
  group_get_command : String → Command
  group_list_command : Command
  group_members_command : String → Command
  group_add_member_command : String → String → Command
  group_remove_member_command : String → String → Command
  group_delete_command : String → Command

module _ {Object : Type 0} (unmarshal : String → Option Object)
    (set_entry : String → String → Object → Object) (itoa : ℤ → String) where
  unfoldable pub run : Bool → Command → Action Object
  run uds (auth_login_command name secret) = auth_login unmarshal set_entry itoa uds name secret
  run uds (user_create_command name secret email) =
      user_create unmarshal set_entry itoa name secret email
  run uds (user_get_command id) = user_get unmarshal set_entry itoa uds id
  run uds (user_list_command page size) = user_list unmarshal set_entry itoa page size
  run uds (user_update_command id json) = user_update unmarshal set_entry itoa id json
  run uds (user_delete_command id) = user_delete unmarshal set_entry itoa id
  run uds user_online_count_command = user_online_count unmarshal set_entry itoa
  run uds (org_create_command name parent) = org_create unmarshal set_entry itoa uds name parent
  run uds (org_get_command id) = org_get unmarshal set_entry itoa uds id
  run uds (org_list_command parent) = org_list unmarshal set_entry itoa uds parent
  run uds (org_members_command id) = org_members unmarshal set_entry itoa uds id
  run uds (org_add_member_command id user_id role) =
      org_add_member unmarshal set_entry itoa uds id user_id role
  run uds (org_remove_member_command id user_id) =
      org_remove_member unmarshal set_entry itoa uds id user_id
  run uds (org_delete_command id) = org_delete unmarshal set_entry itoa id
  run uds (group_create_command name kind) = group_create unmarshal set_entry itoa uds name kind
  run uds (group_get_command id) = group_get unmarshal set_entry itoa uds id
  run uds group_list_command = group_list unmarshal set_entry itoa uds
  run uds (group_members_command id) = group_members unmarshal set_entry itoa uds id
  run uds (group_add_member_command id user_id) =
      group_add_member unmarshal set_entry itoa uds id user_id
  run uds (group_remove_member_command id user_id) =
      group_remove_member unmarshal set_entry itoa uds id user_id
  run uds (group_delete_command id) = group_delete unmarshal set_entry itoa id

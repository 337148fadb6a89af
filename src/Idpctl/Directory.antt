-- ===== src/Idpctl/Directory.antt =====
-- The organisations and the groups of the client over HTTP: where its requests go.
use Prim.Native.String.{String, ◌++◌}
use text.Mathlib.TextLemmas.{append_assoc}
use auth_imp.Base.{◌≡◌, refl, ap, ◌∙◌, subst, Bool, true, false, Option, arith}
use auth_imp.Base.Int.{ℤ}
use auth_imp.Auth.{Service, Jwt}
use auth_imp.Uds.Handlers.{Services}
use auth_imp.Api.Http.{Binder, Env}
use auth_imp.Api.Router.{Request, Tree, routes, in_group, serve, unrouted}
use auth_imp.Api.Router.Tree.{IsTree, literal, clash, all_clash, serve-unrouted}
use auth_imp.Idpctl.{Action, rest_call, uds_call, crash}
use auth_imp.Idpctl.Commands.{
  run, Command, auth_login_command, user_create_command, user_get_command, user_list_command,
  user_update_command, user_delete_command, user_online_count_command, org_create_command,
  org_get_command, org_list_command, org_members_command, org_add_member_command,
  org_remove_member_command, org_delete_command, group_create_command, group_get_command,
  group_list_command, group_members_command, group_add_member_command, group_remove_member_command,
  group_delete_command, org_create, org_get, org_list, org_members, org_add_member,
  org_remove_member, org_delete, group_create, group_get, group_list, group_members,
  group_add_member, group_remove_member, group_delete,
}

abbrev pub front : String
front = "/api/v1/directory"

-- The commands of the groups `org` and `group`.
abbrev pub is_directory : Command → Bool
is_directory (auth_login_command _ _) = false
is_directory (user_create_command _ _ _) = false
is_directory (user_get_command _) = false
is_directory (user_list_command _ _) = false
is_directory (user_update_command _ _) = false
is_directory (user_delete_command _) = false
is_directory user_online_count_command = false
is_directory (org_create_command _ _) = true
is_directory (org_get_command _) = true
is_directory (org_list_command _) = true
is_directory (org_members_command _) = true
is_directory (org_add_member_command _ _ _) = true
is_directory (org_remove_member_command _ _) = true
is_directory (org_delete_command _) = true
is_directory (group_create_command _ _) = true
is_directory (group_get_command _) = true
is_directory group_list_command = true
is_directory (group_members_command _) = true
is_directory (group_add_member_command _ _) = true
is_directory (group_remove_member_command _ _) = true
is_directory (group_delete_command _) = true

-- A request over HTTP goes to a path under `front`.
abbrev IsUnder : {Object : Type 0} → Action Object → Type 0
IsUnder (rest_call _ path _) = (rest : String) × (path ≡ front ++ rest)
IsUnder (uds_call _ _) = Unit
IsUnder crash = Unit

module _ {Object : Type 0} (unmarshal : String → Option Object)
    (set_entry : String → String → Object → Object) (itoa : ℤ → String) where
  run-IsUnder :
      (command : Command)
      → is_directory command ≡ true
      → IsUnder (run unmarshal set_entry itoa false command)
  unfolding run org_create org_get org_list org_members org_add_member org_remove_member org_delete
      group_create group_get group_list group_members group_add_member group_remove_member
      group_delete
  run-IsUnder (auth_login_command _ _) e = absurd (ground (arith, e))
  run-IsUnder (user_create_command _ _ _) e = absurd (ground (arith, e))
  run-IsUnder (user_get_command _) e = absurd (ground (arith, e))
  run-IsUnder (user_list_command _ _) e = absurd (ground (arith, e))
  run-IsUnder (user_update_command _ _) e = absurd (ground (arith, e))
  run-IsUnder (user_delete_command _) e = absurd (ground (arith, e))
  run-IsUnder user_online_count_command e = absurd (ground (arith, e))
  run-IsUnder (org_create_command _ _) e = ("/organizations", refl)
  run-IsUnder (org_get_command _) e = (_, append_assoc front "/organizations/" _)
  run-IsUnder (org_list_command parent) e = (_, append_assoc front "/organizations" _)
  run-IsUnder (org_members_command _) e = (_, append_assoc front "/organizations/" _)
  run-IsUnder (org_add_member_command _ _ _) e = (_, append_assoc front "/organizations/" _)
  run-IsUnder (org_remove_member_command _ _) e = (_, append_assoc front "/organizations/" _)
  run-IsUnder (org_delete_command _) e = (_, append_assoc front "/organizations/" _)
  run-IsUnder (group_create_command _ _) e = ("/groups", refl)
  run-IsUnder (group_get_command _) e = (_, append_assoc front "/groups/" _)
  run-IsUnder group_list_command e = ("/groups", refl)
  run-IsUnder (group_members_command _) e = (_, append_assoc front "/groups/" _)
  run-IsUnder (group_add_member_command _ _) e = (_, append_assoc front "/groups/" _)
  run-IsUnder (group_remove_member_command _ _) e = (_, append_assoc front "/groups/" _)
  run-IsUnder (group_delete_command _) e = (_, append_assoc front "/groups/" _)

  module _ {Raw : Type 0} (jwt : Jwt) (read_token : String → jwt.Token) (auth : Service)
      (binder : Binder Raw) (env : Env) (tree : Tree) (url_path : String → String) where
    -- The client's requests over HTTP for organisations and groups reach no handler: the path of each
    -- begins with `/api/v1/directory`, as the server sees it too, where gin finds no route, and nothing
    -- changes. The tree of the routes is one that gin's documentation allows, and the server's view of
    -- a path keeps this beginning.
    pub serve-run :
        (command : Command) (method path : String) (body : Option String) (request : Request Raw)
        (s : Services)
        → IsTree tree
        → ((rest : String) → (seen : String) × (url_path (front ++ rest) ≡ front ++ seen))
        → is_directory command ≡ true
        → run unmarshal set_entry itoa false command ≡ rest_call method path body
        → request.path ≡ url_path path
        → serve jwt read_token auth binder env tree request s ≡ (unrouted, s)
    unfolding all_clash routes in_group literal clash
    serve-run command method path body request s law keeps mine sends at =
        let (rest, under) = subst IsUnder sends (run-IsUnder command mine) in
        let (seen, kept) = keeps rest in
        serve-unrouted jwt read_token auth binder env tree front seen request s law refl
          (at ∙ ap url_path under ∙ kept)

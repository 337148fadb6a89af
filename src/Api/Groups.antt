-- ===== src/Api/Groups.antt =====
-- The group half of `DirectoryHandler` in internal/api/directory_handler.go.
use auth_imp.Errors
use auth_imp.Errors.{Error}
use auth_imp.DirectoryService
use auth_imp.Uds.Handlers.{Services}
use auth_imp.Api.Http.{
  Body, Answer, json, Binder, Context, Env, Handled, binding, answer_with, with_directory,
}
use auth_imp.Api.Users.{fail, int_query}

-- The answers to the errors of the directory service.
module _ {Token : Type 0} where
  abbrev pub group_failure : Error → Answer Token
  group_failure Error.group_not_found = fail 404 "group not found"
  group_failure e = fail 500 (Errors.message e)

  abbrev pub add_group_member_failure : Error → Answer Token
  add_group_member_failure Error.user_not_found = fail 404 "user not found"
  add_group_member_failure Error.group_not_found = fail 404 "group not found"
  add_group_member_failure Error.member_exists = fail 409 "user is already a member"
  add_group_member_failure e = fail 500 (Errors.message e)

  abbrev pub remove_group_member_failure : Error → Answer Token
  remove_group_member_failure Error.member_not_found = fail 404 "member not found"
  remove_group_member_failure e = fail 500 (Errors.message e)

module _ {Raw Token : Type 0} (binder : Binder Raw) (env : Env) (c : Context Raw) where
  unfoldable pub create_group : Services → Handled Token
  create_group s = binding (binder.create_group c.body) s (λ req.
      with_directory (λ e. fail 500 (Errors.message e)) (λ o. json 201 (Body.group o)) s
        (DirectoryService.create_group env.call.now env.call.id req s.directory))

  unfoldable pub get_group : Services → Handled Token
  get_group s = (
    answer_with group_failure (λ o. json 200 (Body.group o))
        (DirectoryService.get_group (c.param "id") s.directory),
    s,
  )

  unfoldable pub update_group : Services → Handled Token
  update_group s = binding (binder.update_group c.body) s (λ req.
      with_directory group_failure (λ o. json 200 (Body.group o)) s
        (DirectoryService.update_group env.call.now (c.param "id") req s.directory))

  unfoldable pub delete_group : Services → Handled Token
  delete_group s =
      with_directory group_failure (λ _. json 204 Body.no_body) s
        (DirectoryService.delete_group (c.param "id") s.directory)

  unfoldable pub list_groups : Services → Handled Token
  list_groups s =
      let offset = int_query c "offset" "0" in
      let limit = int_query c "limit" "20" in
      (
        answer_with (λ e. fail 500 (Errors.message e))
            (λ (os, total).
              json 200 (
                Body.groups (record { total = total; offset = offset; limit = limit; items = os })))
            (DirectoryService.list_groups env.call.group_order offset limit s.directory),
        s,
      )

  unfoldable pub add_group_member : Services → Handled Token
  add_group_member s = binding (binder.add_group_member c.body) s (λ req.
      with_directory add_group_member_failure (λ r. json 201 (Body.member r)) s
        (DirectoryService.add_group_member env.call.now (c.param "id") req s.directory))

  unfoldable pub remove_group_member : Services → Handled Token
  remove_group_member s =
      with_directory remove_group_member_failure (λ _. json 204 Body.no_body) s
        (DirectoryService.remove_group_member (c.param "id") (c.param "userId") s.directory)

  unfoldable pub list_group_members : Services → Handled Token
  list_group_members s = (
    answer_with group_failure (λ details. json 200 (Body.group_members details))
        (DirectoryService.list_group_members (c.param "id") s.directory),
    s,
  )

  unfoldable pub get_user_groups : Services → Handled Token
  get_user_groups s =
      (json 200 (Body.memberships (DirectoryService.get_user_groups (c.param "id") s.directory)), s)

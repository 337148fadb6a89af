-- ===== src/Api/Orgs.antt =====
-- The organisation half of `DirectoryHandler` in internal/api/directory_handler.go.
use auth_imp.Errors
use auth_imp.Errors.{Error}
use auth_imp.DirectoryService
use auth_imp.Uds.Handlers.{Services}
use auth_imp.Api.Http.{
  Body, Answer, json, Binder, Context, Env, Handled, binding, answer_with, with_directory,
}
use auth_imp.Api.Users.{fail, int_query}

-- The answers to the errors of the directory service.
module _ {Token : Type 0} where
  abbrev pub org_failure : Error → Answer Token
  org_failure Error.org_not_found = fail 404 "organization not found"
  org_failure e = fail 500 (Errors.message e)

  abbrev pub add_org_member_failure : Error → Answer Token
  add_org_member_failure Error.user_not_found = fail 404 "user not found"
  add_org_member_failure Error.org_not_found = fail 404 "organization not found"
  add_org_member_failure Error.member_exists = fail 409 "user is already a member"
  add_org_member_failure e = fail 500 (Errors.message e)

  abbrev pub remove_org_member_failure : Error → Answer Token
  remove_org_member_failure Error.member_not_found = fail 404 "member not found"
  remove_org_member_failure e = fail 500 (Errors.message e)

module _ {Raw Token : Type 0} (binder : Binder Raw) (env : Env) (c : Context Raw) where
  unfoldable pub create_org : Services → Handled Token
  create_org s = binding (binder.create_org c.body) s (λ req.
      with_directory (λ e. fail 400 (Errors.message e)) (λ o. json 201 (Body.org o)) s
        (DirectoryService.create_org env.call.now env.call.id req s.directory))

  unfoldable pub get_org : Services → Handled Token
  get_org s = (
    answer_with org_failure (λ o. json 200 (Body.org o))
        (DirectoryService.get_org (c.param "id") s.directory),
    s,
  )

  unfoldable pub update_org : Services → Handled Token
  update_org s = binding (binder.update_org c.body) s (λ req.
      with_directory org_failure (λ o. json 200 (Body.org o)) s
        (DirectoryService.update_org env.call.now (c.param "id") req s.directory))

  unfoldable pub delete_org : Services → Handled Token
  delete_org s =
      with_directory org_failure (λ _. json 204 Body.no_body) s
        (DirectoryService.delete_org (c.param "id") s.directory)

  unfoldable pub list_orgs : Services → Handled Token
  list_orgs s =
      let offset = int_query c "offset" "0" in
      let limit = int_query c "limit" "20" in
      (
        answer_with (λ e. fail 500 (Errors.message e))
            (λ (os, total).
              json 200
                (Body.orgs (record { total = total; offset = offset; limit = limit; items = os })))
            (DirectoryService.list_orgs env.call.org_order offset limit s.directory),
        s,
      )

  unfoldable pub list_org_children : Services → Handled Token
  list_org_children s = (
    json 200 (
        Body.org_items
          (DirectoryService.list_org_children env.call.org_order (c.param "id") s.directory)),
    s,
  )

  unfoldable pub add_org_member : Services → Handled Token
  add_org_member s = binding (binder.add_org_member c.body) s (λ req.
      with_directory add_org_member_failure (λ r. json 201 (Body.relation r)) s
        (DirectoryService.add_org_member (c.param "id") req s.directory))

  unfoldable pub remove_org_member : Services → Handled Token
  remove_org_member s =
      with_directory remove_org_member_failure (λ _. json 204 Body.no_body) s
        (DirectoryService.remove_org_member (c.param "id") (c.param "userId") s.directory)

  unfoldable pub list_org_members : Services → Handled Token
  list_org_members s = (
    answer_with org_failure (λ details. json 200 (Body.org_members details))
        (DirectoryService.list_org_members (c.param "id") s.directory),
    s,
  )

  unfoldable pub get_user_orgs : Services → Handled Token
  get_user_orgs s =
      (json 200 (Body.relations (DirectoryService.get_user_orgs (c.param "id") s.directory)), s)

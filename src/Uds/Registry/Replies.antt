-- ===== src/Uds/Registry/Replies.antt =====
-- What holds of the response to every request.
use auth_imp.Base.{inl, inr, refl, Option-cases}
use auth_imp.Uds.Payloads.{Decoder, JsonRequest}
use auth_imp.Uds.Handlers.{Services, Call}
use auth_imp.Uds.Registry.{lookup, handlers, handle}
use auth_imp.Uds.Registry.Each.{EachHandler, none_left, ◌⊗◌, lookup-EachHandler}
use auth_imp.Uds.Registry.Answers.{
  IsAnswer, IsHandler, auth_lem, get_user_lem, trigger_sync_lem, ping_lem, create_org_lem,
  get_org_lem, list_orgs_lem, add_org_member_lem, remove_org_member_lem, list_org_members_lem,
  get_user_orgs_lem, create_group_lem, get_group_lem, list_groups_lem, add_group_member_lem,
  remove_group_member_lem, list_group_members_lem, get_user_groups_lem,
}

module _ {Raw : Type 0} (decoder : Decoder Raw) (call : Call) where
  handlers-all : EachHandler (IsHandler decoder call) (handlers decoder call)
  unfolding handlers
  handlers-all =
      auth_lem decoder call
      ⊗ get_user_lem decoder call
      ⊗ trigger_sync_lem decoder call
      ⊗ ping_lem decoder call
      ⊗ create_org_lem decoder call
      ⊗ get_org_lem decoder call
      ⊗ list_orgs_lem decoder call
      ⊗ add_org_member_lem decoder call
      ⊗ remove_org_member_lem decoder call
      ⊗ list_org_members_lem decoder call
      ⊗ get_user_orgs_lem decoder call
      ⊗ create_group_lem decoder call
      ⊗ get_group_lem decoder call
      ⊗ list_groups_lem decoder call
      ⊗ add_group_member_lem decoder call
      ⊗ remove_group_member_lem decoder call
      ⊗ list_group_members_lem decoder call
      ⊗ get_user_groups_lem decoder call
      ⊗ none_left

  -- The response to every request, also one with an unknown action or with a payload that does not
  -- decode, carries the request's id; it is an error without a payload and every store is as it
  -- was, or it is no error and has no error text. A handler that panics leaves every store as it
  -- was.
  pub handle-IsAnswer :
      (req : JsonRequest Raw) (s : Services) → IsAnswer req.request_id s (handle decoder call req s)
  unfolding handle IsAnswer
  handle-IsAnswer req s = elim (Option-cases (lookup req.action (handlers decoder call))) [
    | inl e ↦ rw (e, handle) (refl, inl (refl, refl, refl))
    | inr (h, e) ↦
        rw (e, handle)
          (lookup-EachHandler req.action (handlers decoder call) handlers-all h e req.payload
            req.request_id s)
  ]

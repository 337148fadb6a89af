-- ===== src/System/Sockets.antt =====
-- What a request over the socket does to the directory.
use auth_imp.Base.{String, inl, inr, refl, Bool, true, false, Option, none, some, Option-cases}
use auth_imp.Errors.{Result}
use auth_imp.DirectoryService.{DirectoryService}
use auth_imp.DirectoryService.Stores.{
  Step, create_org_step, add_org_member_step, remove_org_member_step, create_group_step,
  add_group_member_step, remove_group_member_step,
}
use auth_imp.Uds.Payloads.{Decoder, ResponsePayload, JsonRequest}
use auth_imp.Uds.Handlers.{
  Services, Call, Reply, decoded, required, with_jobs, with_directory, handle_auth, handle_get_user,
  handle_trigger_sync, handle_ping,
}
use auth_imp.Uds.Handlers.Orgs.{
  handle_create_org, handle_get_org, handle_list_orgs, handle_add_org_member,
  handle_remove_org_member, handle_list_org_members, handle_get_user_orgs,
}
use auth_imp.Uds.Handlers.Groups.{
  handle_create_group, handle_get_group, handle_list_groups, handle_add_group_member,
  handle_remove_group_member, handle_list_group_members, handle_get_user_groups,
}
use auth_imp.Uds.Registry.{ActionHandler, lookup, handlers, handle}
use auth_imp.Uds.Registry.Each.{EachHandler, none_left, ◌⊗◌, lookup-EachHandler}
use auth_imp.System.Moves.{Moves}

abbrev Moved : Services → Reply × Services → Type 0
Moved s (_, t) = Moves s.directory t.directory

module _ (s : Services) where
  decoded-Moved :
      {P : Type 0} (action request_id : String) (o : Option P) (f : P → Reply × Services)
      → ((p : P) → Moved s (f p))
      → Moved s (decoded action request_id o s f)
  unfolding decoded
  decoded-Moved action request_id none f h = inl refl
  decoded-Moved action request_id (some p) f h = h p

  required-Moved :
      (missing : Bool) (text request_id : String) (r : Reply × Services)
      → Moved s r
      → Moved s (required missing text request_id s r)
  unfolding required
  required-Moved true text request_id r h = inl refl
  required-Moved false text request_id r h = h

  with_directory-Moved :
      {A : Type 0} (request_id what : String) (payload : A → ResponsePayload)
      (p : Result A × DirectoryService)
      → Step s.directory p.1
      → Moved s (with_directory request_id what payload s p)
  unfolding with_directory
  with_directory-Moved request_id what payload (r, t) h = inr h

module _ {Raw : Type 0} (decoder : Decoder Raw) (call : Call) where
  abbrev Holds : ActionHandler Raw → Type 0
  Holds h = (raw : Raw) (request_id : String) (s : Services) → Moved s (h raw request_id s)

  auth_lem : Holds (handle_auth decoder call)
  unfolding handle_auth
  auth_lem raw rid s = decoded-Moved s _ _ _ _ (λ p. required-Moved s _ _ _ _ (inl refl))

  get_user_lem : Holds (handle_get_user decoder call)
  unfolding handle_get_user
  get_user_lem raw rid s = decoded-Moved s _ _ _ _ (λ p. required-Moved s _ _ _ _ (inl refl))

  trigger_sync_lem : Holds (handle_trigger_sync decoder call)
  unfolding handle_trigger_sync with_jobs
  trigger_sync_lem raw rid s = decoded-Moved s _ _ _ _ (λ p. required-Moved s _ _ _ _ (inl refl))

  ping_lem : Holds (handle_ping decoder call)
  unfolding handle_ping
  ping_lem raw rid s = inl refl

  create_org_lem : Holds (handle_create_org decoder call)
  unfolding handle_create_org
  create_org_lem raw rid s = decoded-Moved s _ _ _ _ (λ p.
      required-Moved s _ _ _ _ (with_directory-Moved s _ _ _ _ (create_org_step _ _ _ s.directory)))

  get_org_lem : Holds (handle_get_org decoder call)
  unfolding handle_get_org
  get_org_lem raw rid s = decoded-Moved s _ _ _ _ (λ p. required-Moved s _ _ _ _ (inl refl))

  list_orgs_lem : Holds (handle_list_orgs decoder call)
  unfolding handle_list_orgs
  list_orgs_lem raw rid s = inl refl

  add_org_member_lem : Holds (handle_add_org_member decoder call)
  unfolding handle_add_org_member
  add_org_member_lem raw rid s = decoded-Moved s _ _ _ _ (λ p.
      required-Moved s _ _ _ _
        (with_directory-Moved s _ _ _ _ (add_org_member_step _ _ s.directory)))

  remove_org_member_lem : Holds (handle_remove_org_member decoder call)
  unfolding handle_remove_org_member
  remove_org_member_lem raw rid s = decoded-Moved s _ _ _ _ (λ p.
      required-Moved s _ _ _ _
        (with_directory-Moved s _ _ _ _ (remove_org_member_step _ _ s.directory)))

  list_org_members_lem : Holds (handle_list_org_members decoder call)
  unfolding handle_list_org_members
  list_org_members_lem raw rid s =
      decoded-Moved s _ _ _ _ (λ p. required-Moved s _ _ _ _ (inl refl))

  get_user_orgs_lem : Holds (handle_get_user_orgs decoder call)
  unfolding handle_get_user_orgs
  get_user_orgs_lem raw rid s = decoded-Moved s _ _ _ _ (λ p. required-Moved s _ _ _ _ (inl refl))

  create_group_lem : Holds (handle_create_group decoder call)
  unfolding handle_create_group
  create_group_lem raw rid s = decoded-Moved s _ _ _ _ (λ p.
      required-Moved s _ _ _ _
        (with_directory-Moved s _ _ _ _ (create_group_step _ _ _ s.directory)))

  get_group_lem : Holds (handle_get_group decoder call)
  unfolding handle_get_group
  get_group_lem raw rid s = decoded-Moved s _ _ _ _ (λ p. required-Moved s _ _ _ _ (inl refl))

  list_groups_lem : Holds (handle_list_groups decoder call)
  unfolding handle_list_groups
  list_groups_lem raw rid s = inl refl

  add_group_member_lem : Holds (handle_add_group_member decoder call)
  unfolding handle_add_group_member
  add_group_member_lem raw rid s = decoded-Moved s _ _ _ _ (λ p.
      required-Moved s _ _ _ _
        (with_directory-Moved s _ _ _ _ (add_group_member_step _ _ _ s.directory)))

  remove_group_member_lem : Holds (handle_remove_group_member decoder call)
  unfolding handle_remove_group_member
  remove_group_member_lem raw rid s = decoded-Moved s _ _ _ _ (λ p.
      required-Moved s _ _ _ _
        (with_directory-Moved s _ _ _ _ (remove_group_member_step _ _ s.directory)))

  list_group_members_lem : Holds (handle_list_group_members decoder call)
  unfolding handle_list_group_members
  list_group_members_lem raw rid s =
      decoded-Moved s _ _ _ _ (λ p. required-Moved s _ _ _ _ (inl refl))

  get_user_groups_lem : Holds (handle_get_user_groups decoder call)
  unfolding handle_get_user_groups
  get_user_groups_lem raw rid s = decoded-Moved s _ _ _ _ (λ p. required-Moved s _ _ _ _ (inl refl))

  handlers-move : EachHandler Holds (handlers decoder call)
  unfolding handlers
  handlers-move =
      auth_lem ⊗ get_user_lem ⊗ trigger_sync_lem ⊗ ping_lem ⊗ create_org_lem ⊗ get_org_lem
      ⊗ list_orgs_lem ⊗ add_org_member_lem ⊗ remove_org_member_lem ⊗ list_org_members_lem
      ⊗ get_user_orgs_lem ⊗ create_group_lem ⊗ get_group_lem ⊗ list_groups_lem
      ⊗ add_group_member_lem ⊗ remove_group_member_lem ⊗ list_group_members_lem
      ⊗ get_user_groups_lem ⊗ none_left

  -- A request over the socket leaves the directory as it was or takes one step of it.
  pub handle-Moves :
      (req : JsonRequest Raw) (s : Services)
      → Moves s.directory (handle decoder call req s).1.directory
  unfolding handle
  handle-Moves req s = elim (Option-cases (lookup req.action (handlers decoder call))) [
    | inl e ↦ rw (e, handle) (inl refl)
    | inr (h, e) ↦
        rw (e, handle)
          (lookup-EachHandler req.action (handlers decoder call) handlers-move h e req.payload
            req.request_id s)
  ]

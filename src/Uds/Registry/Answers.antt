-- ===== src/Uds/Registry/Answers.antt =====
-- What each handler's response is.
use auth_imp.Base.{
  String, Bool, ◌≡◌, ◌≢◌, ◌⊎◌, inl, inr, refl, ap, Option, none, some, ◌==◌, true, false, arith,
  eq_iff,
}
use auth_imp.Errors.{Error, Result, ok, err, panic}
use auth_imp.SyncJobStore.{MemorySyncJobStore}
use auth_imp.UserService
use auth_imp.SyncJobStore
use auth_imp.DirectoryService.{DirectoryService}
use auth_imp.DirectoryService.Refusals.{
  IsQuiet, create_org-IsQuiet, add_org_member-IsQuiet, remove_org_member-IsQuiet,
  create_group-IsQuiet, add_group_member-IsQuiet, remove_group_member-IsQuiet,
}
use auth_imp.Uds.Payloads.{Decoder, ResponsePayload, no_payload}
use auth_imp.Uds.Handlers.{
  Services, Call, Reply, reply, crash, respond, decoded, required, with_jobs, with_directory,
  handle_auth, handle_get_user, handle_trigger_sync, handle_ping,
}
use auth_imp.Uds.Handlers.Orgs.{
  handle_create_org, handle_get_org, handle_list_orgs, handle_add_org_member,
  handle_remove_org_member, handle_list_org_members, handle_get_user_orgs,
}
use auth_imp.Uds.Handlers.Groups.{
  handle_create_group, handle_get_group, handle_list_groups, handle_add_group_member,
  handle_remove_group_member, handle_list_group_members, handle_get_user_groups,
}
use auth_imp.Uds.Registry.{ActionHandler}

-- A response carries the id of its request. It is an error without a payload, and then the services
-- are as they were, or it is no error and has no error text. Where there is no response, the
-- services are as they were.
unfoldable pub IsAnswer : String → Services → Reply × Services → Type 0
IsAnswer request_id s (crash, t) = t ≡ s
IsAnswer request_id s (reply r, t) =
    (r.request_id ≡ request_id)
    × (((r.status ≡ "error") × (r.payload ≡ no_payload) × (t ≡ s))
        ⊎ ((r.status ≢ "error") × (r.error ≡ "")))

differ : (s t : String) → (s == t) ≡ false → s ≢ t
differ s t h e = ground (arith, eq_iff s t, h, e)

abbrev success_text : String
success_text = "success"

not_error : success_text ≢ "error"
not_error = differ "success" "error" refl

module _ {A : Type 0} (request_id : String) (s : Services) (payload : A → ResponsePayload) where
  respond-IsAnswer :
      (text : Error → String) (r : Result A)
      → IsAnswer request_id s (respond request_id text payload r, s)
  unfolding IsAnswer respond
  respond-IsAnswer text (ok a) = (refl, inr (not_error, refl))
  respond-IsAnswer text (err e) = (refl, inl (refl, refl, refl))
  respond-IsAnswer text panic = refl

  with_directory-IsAnswer :
      (what : String) (p : Result A × DirectoryService)
      → IsQuiet s.directory p
      → IsAnswer request_id s (with_directory request_id what payload s p)
  unfolding IsAnswer with_directory respond
  with_directory-IsAnswer what (ok a, d) q = (refl, inr (not_error, refl))
  with_directory-IsAnswer what (err e, d) q =
      (refl, inl (refl, refl, ap (λ l. record s { directory = l }) q))
  with_directory-IsAnswer what (panic, d) q = ap (λ l. record s { directory = l }) q

decoded-IsAnswer :
    {P : Type 0} (action request_id : String) (o : Option P) (s : Services)
    (f : P → Reply × Services)
    → ((p : P) → IsAnswer request_id s (f p))
    → IsAnswer request_id s (decoded action request_id o s f)
unfolding IsAnswer decoded
decoded-IsAnswer action request_id none s f h = (refl, inl (refl, refl, refl))
decoded-IsAnswer action request_id (some p) s f h = h p

required-IsAnswer :
    (missing : Bool) (text request_id : String) (s : Services) (r : Reply × Services)
    → IsAnswer request_id s r
    → IsAnswer request_id s (required missing text request_id s r)
unfolding IsAnswer required
required-IsAnswer true text request_id s r h = (refl, inl (refl, refl, refl))
required-IsAnswer false text request_id s r h = h

module _ {Raw : Type 0} (decoder : Decoder Raw) (call : Call) where
  -- Every handler's answer is one.
  abbrev pub IsHandler : ActionHandler Raw → Type 0
  IsHandler h =
      (raw : Raw) (request_id : String) (s : Services) → IsAnswer request_id s (h raw request_id s)

  pub auth_lem : IsHandler (handle_auth decoder call)
  unfolding handle_auth
  auth_lem raw rid s =
      decoded-IsAnswer _ rid _ s _
        (λ p. required-IsAnswer _ _ rid s _ (respond-IsAnswer rid s _ _ _))

  pub get_user_lem : IsHandler (handle_get_user decoder call)
  unfolding handle_get_user
  get_user_lem raw rid s =
      decoded-IsAnswer _ rid _ s _
        (λ p. required-IsAnswer _ _ rid s _ (respond-IsAnswer rid s _ _ _))

  pub trigger_sync_lem : IsHandler (handle_trigger_sync decoder call)
  unfolding IsAnswer handle_trigger_sync with_jobs respond UserService.create_sync_job
      SyncJobStore.create
  trigger_sync_lem raw rid s =
      decoded-IsAnswer _ rid _ s _
        (λ p. required-IsAnswer _ _ rid s _ (refl, inr (not_error, refl)))

  pub ping_lem : IsHandler (handle_ping decoder call)
  unfolding handle_ping IsAnswer
  ping_lem raw rid s = (refl, inr (differ "pong" "error" refl, refl))

  pub create_org_lem : IsHandler (handle_create_org decoder call)
  unfolding handle_create_org
  create_org_lem raw rid s = decoded-IsAnswer _ rid _ s _ (λ p.
      required-IsAnswer _ _ rid s _
        (with_directory-IsAnswer rid s _ _ _ (create_org-IsQuiet s.directory _ _ _)))

  pub get_org_lem : IsHandler (handle_get_org decoder call)
  unfolding handle_get_org
  get_org_lem raw rid s =
      decoded-IsAnswer _ rid _ s _
        (λ p. required-IsAnswer _ _ rid s _ (respond-IsAnswer rid s _ _ _))

  pub list_orgs_lem : IsHandler (handle_list_orgs decoder call)
  unfolding handle_list_orgs
  list_orgs_lem raw rid s = respond-IsAnswer rid s _ _ _

  pub add_org_member_lem : IsHandler (handle_add_org_member decoder call)
  unfolding handle_add_org_member
  add_org_member_lem raw rid s = decoded-IsAnswer _ rid _ s _ (λ p.
      required-IsAnswer _ _ rid s _
        (with_directory-IsAnswer rid s _ _ _ (add_org_member-IsQuiet s.directory _ _)))

  pub remove_org_member_lem : IsHandler (handle_remove_org_member decoder call)
  unfolding handle_remove_org_member
  remove_org_member_lem raw rid s = decoded-IsAnswer _ rid _ s _ (λ p.
      required-IsAnswer _ _ rid s _
        (with_directory-IsAnswer rid s _ _ _ (remove_org_member-IsQuiet s.directory _ _)))

  pub list_org_members_lem : IsHandler (handle_list_org_members decoder call)
  unfolding handle_list_org_members
  list_org_members_lem raw rid s =
      decoded-IsAnswer _ rid _ s _
        (λ p. required-IsAnswer _ _ rid s _ (respond-IsAnswer rid s _ _ _))

  pub get_user_orgs_lem : IsHandler (handle_get_user_orgs decoder call)
  unfolding handle_get_user_orgs
  get_user_orgs_lem raw rid s =
      decoded-IsAnswer _ rid _ s _
        (λ p. required-IsAnswer _ _ rid s _ (respond-IsAnswer rid s _ _ _))

  pub create_group_lem : IsHandler (handle_create_group decoder call)
  unfolding handle_create_group
  create_group_lem raw rid s = decoded-IsAnswer _ rid _ s _ (λ p.
      required-IsAnswer _ _ rid s _
        (with_directory-IsAnswer rid s _ _ _ (create_group-IsQuiet s.directory _ _ _)))

  pub get_group_lem : IsHandler (handle_get_group decoder call)
  unfolding handle_get_group
  get_group_lem raw rid s =
      decoded-IsAnswer _ rid _ s _
        (λ p. required-IsAnswer _ _ rid s _ (respond-IsAnswer rid s _ _ _))

  pub list_groups_lem : IsHandler (handle_list_groups decoder call)
  unfolding handle_list_groups
  list_groups_lem raw rid s = respond-IsAnswer rid s _ _ _

  pub add_group_member_lem : IsHandler (handle_add_group_member decoder call)
  unfolding handle_add_group_member
  add_group_member_lem raw rid s = decoded-IsAnswer _ rid _ s _ (λ p.
      required-IsAnswer _ _ rid s _
        (with_directory-IsAnswer rid s _ _ _ (add_group_member-IsQuiet s.directory _ _ _)))

  pub remove_group_member_lem : IsHandler (handle_remove_group_member decoder call)
  unfolding handle_remove_group_member
  remove_group_member_lem raw rid s = decoded-IsAnswer _ rid _ s _ (λ p.
      required-IsAnswer _ _ rid s _
        (with_directory-IsAnswer rid s _ _ _ (remove_group_member-IsQuiet s.directory _ _)))

  pub list_group_members_lem : IsHandler (handle_list_group_members decoder call)
  unfolding handle_list_group_members
  list_group_members_lem raw rid s =
      decoded-IsAnswer _ rid _ s _
        (λ p. required-IsAnswer _ _ rid s _ (respond-IsAnswer rid s _ _ _))

  pub get_user_groups_lem : IsHandler (handle_get_user_groups decoder call)
  unfolding handle_get_user_groups
  get_user_groups_lem raw rid s =
      decoded-IsAnswer _ rid _ s _
        (λ p. required-IsAnswer _ _ rid s _ (respond-IsAnswer rid s _ _ _))

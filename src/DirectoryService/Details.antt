-- ===== src/DirectoryService/Details.antt =====
-- Lists of members, and what they say of a user that is deleted.
use auth_imp.Base.{
  String, ◌≡◌, refl, ap, ◌∙◌, sym, inl, inr, List, [], ◌∷◌, map, ◌==◌, if◌then◌else◌, arith, eq_iff,
  text_cases, Option-cases, Bool-cases,
}
use auth_imp.Errors.{Error, Result, Result-cases, ok, err, panic}
use auth_imp.Dict
use auth_imp.Dict.{get-put, dict_laws}
use auth_imp.Model.{user_status_deleted, Time, User, UserOrgRelation, OrgMemberDetail}
use auth_imp.UserStore
use auth_imp.UserStore.{MemoryStore}
use auth_imp.Directory.OrgStore
use auth_imp.Directory.OrgStore.{MemoryOrgStore}
use auth_imp.DirectoryService.{DirectoryService, org_detail, list_org_members}

-- A deletion, refused or not, leaves nobody under the id and every other user as it was.
get_by_id-delete :
    (now : Time) (id k : String) (s : MemoryStore)
    → UserStore.get_by_id k (UserStore.delete now id s).1
      ≡ (if k == id then err Error.user_not_found else UserStore.get_by_id k s)
unfolding UserStore.get_by_id UserStore.delete
get_by_id-delete now id k s = elim (Option-cases (UserStore.live (Dict.get s.users id))) [
  | inl e ↦ elim (text_cases k id) [
    | inl (here, same) ↦ rw (e, UserStore.delete, here, same) (ap UserStore.found e)
    | inr (apart, _) ↦ rw (e, UserStore.delete, apart) refl
  ]
  | inr (u, e) ↦
      rw (e, UserStore.delete)
        (ground (
          arith,
          text_cases k id,
          eq_iff k id,
          eq_iff id k,
          get-put s.users id (record u { status = user_status_deleted; updated_at = now }) k,
        ))
]

map-map :
    {A B C : Type 0} (f : B → C) (g : A → B) (h : A → C)
    → ((a : A) → f (g a) ≡ h a)
    → (xs : List A) → map f (map g xs) ≡ map h xs
map-map f g h e [] = refl
map-map f g h e (x ∷ xs) = rw (e x, map-map f g h e xs)

-- What a list of members says where a user is deleted.
abbrev pub forget_in_org : String → OrgMemberDetail → OrgMemberDetail
forget_in_org id d =
    if d.relation.user_id == id then org_detail d.relation (err Error.user_not_found) else d

forget-detail :
    (id : String) (rel : UserOrgRelation) (r : Result User)
    → forget_in_org id (org_detail rel r)
      ≡ org_detail rel (if rel.user_id == id then err Error.user_not_found else r)
forget-detail id rel (ok u) = elim (Bool-cases (rel.user_id == id)) [
  | inl e ↦ rw e refl
  | inr e ↦ rw e refl
]
forget-detail id rel (err _) = elim (Bool-cases (rel.user_id == id)) [
  | inl e ↦ rw e refl
  | inr e ↦ rw e refl
]
forget-detail id rel panic = elim (Bool-cases (rel.user_id == id)) [
  | inl e ↦ rw e refl
  | inr e ↦ rw e refl
]

abbrev pub forgotten : {A : Type 0} → (A → A) → Result (List A) → Result (List A)
forgotten f (ok xs) = ok (map f xs)
forgotten f (err e) = err e
forgotten f panic = panic

-- The deletion of a user does not touch its memberships: the list of an organisation's members
-- keeps every relation, in the same order, and only shows the deleted user's with an empty name,
-- email and status.
pub list_org_members-delete_user :
    (now : Time) (id org_id : String) (s : DirectoryService)
    → list_org_members org_id (record s { user_store = (UserStore.delete now id s.user_store).1 })
      ≡ forgotten (forget_in_org id) (list_org_members org_id s)
unfolding list_org_members
list_org_members-delete_user now id org_id s =
    elim (Result-cases (OrgStore.list_members org_id s.org_store)) [
      | inl (rels, e) ↦
          rw (e, list_org_members)
            (ap (λ l. ok l)
              (sym (
                map-map (forget_in_org id)
                  (λ rel. org_detail rel (UserStore.get_by_id rel.user_id s.user_store)) _
                  (λ rel.
                    forget-detail id rel (UserStore.get_by_id rel.user_id s.user_store)
                    ∙ ap (λ r. org_detail rel r)
                        (sym (get_by_id-delete now id rel.user_id s.user_store)))
                  rels)))
      | inr (inl (_, e)) ↦ rw (e, list_org_members) refl
      | inr (inr e) ↦ rw (e, list_org_members) refl
    ]

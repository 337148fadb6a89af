-- ===== src/Api/Http.antt =====
-- What the handlers of internal/api take from a `gin.Context` and put into it. The reading of a JSON
-- body with the tests of its `binding` tags (`ShouldBindJSON`) belongs to gin, and is a parameter.
use auth_imp.Base.{ℕ, String, Option, List, ◌≡◌, ◌⊎◌, inl, inr, refl}
use auth_imp.Base.Int.{ℤ}
use auth_imp.Errors.{Error, Result, ok, err, panic}
use auth_imp.Dict.Order.{Order}
use auth_imp.Model.{
  User, Organization, Group, UserOrgRelation, GroupMember, SyncJob, LoginResponse, OrgMemberDetail,
  GroupMemberDetail, CreateUserRequest, UpdateUserRequest, LoginRequest, CreateSyncJobRequest,
  CreateOrgRequest, UpdateOrgRequest, AddOrgMemberRequest, CreateGroupRequest, UpdateGroupRequest,
  AddGroupMemberRequest,
}
use auth_imp.UserStore.{MemoryStore}
use auth_imp.SyncJobStore.{MemorySyncJobStore}
use auth_imp.DirectoryService.{DirectoryService}
use auth_imp.Uds.Handlers.{Services, Call}

-- A list with its place in the whole list: the JSON object with `total`, `offset`, `limit` and
-- `items`.
pub record Listing (A : Type 0) : Type 0 where
  pub total : ℕ
  pub offset : ℤ
  pub limit : ℤ
  pub items : List A

-- The JSON bodies of the responses. `items` stands for the object with `items` and `total`.
pub data Body (Token : Type 0) : Type 0 where
  no_body : Body Token
  status : String → Body Token
  error : String → Body Token
  user : User → Body Token
  users : Listing User → Body Token
  login : LoginResponse Token → Body Token
  sync_job : SyncJob → Body Token
  count : ℕ → Body Token
  message : String → Body Token
  online : String → Body Token
  org : Organization → Body Token
  orgs : Listing Organization → Body Token
  org_items : List Organization → Body Token
  relation : UserOrgRelation → Body Token
  relations : List UserOrgRelation → Body Token
  org_members : List OrgMemberDetail → Body Token
  group : Group → Body Token
  groups : Listing Group → Body Token
  member : GroupMember → Body Token
  memberships : List GroupMember → Body Token
  group_members : List GroupMemberDetail → Body Token

-- A handler writes a response or panics.
pub data Answer (Token : Type 0) : Type 0 where
  json : ℕ → Body Token → Answer Token
  crash : Answer Token

-- `ShouldBindJSON`: the struct, or the text of the error.
pub data Bound (P : Type 0) : Type 0 where
  bound : P → Bound P
  unbound : String → Bound P

pub Bound-cases :
    {P : Type 0} (b : Bound P) → ((p : P) × (b ≡ bound p)) ⊎ ((text : String) × (b ≡ unbound text))
Bound-cases (bound p) = inl (p, refl)
Bound-cases (unbound text) = inr (text, refl)

-- The bodies as gin reads them.
pub record Binder (Raw : Type 0) : Type 0 where
  pub create_user : Raw → Bound CreateUserRequest
  pub update_user : Raw → Bound UpdateUserRequest
  pub login : Raw → Bound LoginRequest
  pub create_sync_job : Raw → Bound CreateSyncJobRequest
  pub create_org : Raw → Bound CreateOrgRequest
  pub update_org : Raw → Bound UpdateOrgRequest
  pub add_org_member : Raw → Bound AddOrgMemberRequest
  pub create_group : Raw → Bound CreateGroupRequest
  pub update_group : Raw → Bound UpdateGroupRequest
  pub add_group_member : Raw → Bound AddGroupMemberRequest

-- What a handler reads of its context: `Param`, `Query` (empty where it is missing), `DefaultQuery`,
-- the body, and what the middleware has set under `user_id`.
pub record Context (Raw : Type 0) : Type 0 where
  pub param : String → String
  pub query : String → Option String
  pub body : Raw
  pub user_id : String

-- What a call finds: a socket's call, the order in which the map of users is met, and
-- `strings.ToLower`.
pub record Env : Type 0 where
  pub call : Call
  pub user_order : Order User
  pub lower : String → String

abbrev pub Handled : Type 0 → Type 0
Handled Token = Answer Token × Services

module _ {Token : Type 0} where
  -- A body that does not bind is refused.
  unfoldable pub binding : {P : Type 0} → Bound P → Services → (P → Handled Token) → Handled Token
  binding (bound p) s f = f p
  binding (unbound text) s f = (json 400 (Body.error text), s)

  -- The answer to a service's result.
  unfoldable pub answer_with :
      {A : Type 0} → (Error → Answer Token) → (A → Answer Token) → Result A → Answer Token
  answer_with failure done (ok a) = done a
  answer_with failure done (err e) = failure e
  answer_with failure done panic = crash

  -- The answer, and the services with the store that the call left.
  unfoldable pub with_users :
      {A : Type 0}
      → (Error → Answer Token)
      → (A → Answer Token)
      → Services
      → Result A × MemoryStore
      → Handled Token
  with_users failure done s (r, store) = (
    answer_with failure done r,
    record s { directory = record s.directory { user_store = store } },
  )

  unfoldable pub with_jobs :
      {A : Type 0}
      → (Error → Answer Token)
      → (A → Answer Token)
      → Services
      → Result A × MemorySyncJobStore
      → Handled Token
  with_jobs failure done s (r, jobs) = (answer_with failure done r, record s { sync_jobs = jobs })

  unfoldable pub with_directory :
      {A : Type 0}
      → (Error → Answer Token)
      → (A → Answer Token)
      → Services
      → Result A × DirectoryService
      → Handled Token
  with_directory failure done s (r, directory) =
      (answer_with failure done r, record s { directory = directory })

-- ===== src/Model.antt =====
-- The entities and requests of internal/model/models.go. A time is the number that the clock
-- showed; a status, a role and an identifier are texts, as in the source.
use auth_imp.Base.{ℕ, String, Bool, Option}
use auth_imp.Base.Int.{ℤ}

-- `time.Time`
abbrev pub Time : Type 0
Time = ℕ

abbrev pub user_status_active : String
user_status_active = "active"

abbrev pub user_status_disabled : String
user_status_disabled = "disabled"

abbrev pub user_status_deleted : String
user_status_deleted = "deleted"

pub record User : Type 0 where
  pub id : String
  pub username : String
  pub email : String
  pub password_hash : String
  pub display_name : String
  pub status : String
  pub is_online : Bool
  pub external_id : String
  pub source_system : String
  pub created_at : Time
  pub updated_at : Time

-- `&model.User{ID: id}`: every other field has its zero value.
abbrev pub zero_user : String → User
zero_user id = record {
  id = id;
  username = "";
  email = "";
  password_hash = "";
  display_name = "";
  status = "";
  is_online = Bool.false;
  external_id = "";
  source_system = "";
  created_at = 0;
  updated_at = 0;
}

pub record Organization : Type 0 where
  pub id : String
  pub name : String
  pub parent_id : String
  pub path : String
  pub external_id : String
  pub source_system : String
  pub created_at : Time
  pub updated_at : Time

pub record Group : Type 0 where
  pub id : String
  pub name : String
  pub description : String
  -- the field `Type`
  pub kind : String
  pub created_at : Time
  pub updated_at : Time

pub record UserOrgRelation : Type 0 where
  pub user_id : String
  pub org_id : String
  pub role : String
  pub is_primary : Bool

pub record GroupMember : Type 0 where
  pub group_id : String
  pub user_id : String
  pub role : String
  pub joined_at : Time

abbrev pub sync_job_status_pending : String
sync_job_status_pending = "pending"

abbrev pub sync_type_incremental : String
sync_type_incremental = "incremental"

pub record SyncJob : Type 0 where
  pub id : String
  pub source_system : String
  pub sync_type : String
  pub status : String
  pub started_at : Option Time
  pub finished_at : Option Time
  pub error_message : String
  pub created_at : Time
  pub updated_at : Time

pub record CreateUserRequest : Type 0 where
  pub username : String
  pub email : String
  pub password : String
  pub display_name : String

pub record UpdateUserRequest : Type 0 where
  pub email : String
  pub display_name : String
  pub status : String

pub record LoginRequest : Type 0 where
  pub username : String
  pub password : String

-- The token is what the JWT library makes.
pub record LoginResponse (Token : Type 0) : Type 0 where
  pub token : Token
  pub expires : ℤ
  pub user : User

pub record CreateSyncJobRequest : Type 0 where
  pub source_system : String
  pub sync_type : String

pub record CreateOrgRequest : Type 0 where
  pub name : String
  pub parent_id : String
  pub external_id : String
  pub source_system : String

pub record UpdateOrgRequest : Type 0 where
  pub name : String
  pub parent_id : String

pub record AddOrgMemberRequest : Type 0 where
  pub user_id : String
  pub role : String
  pub is_primary : Bool

pub record CreateGroupRequest : Type 0 where
  pub name : String
  pub description : String
  pub kind : String

pub record UpdateGroupRequest : Type 0 where
  pub name : String
  pub description : String
  pub kind : String

pub record AddGroupMemberRequest : Type 0 where
  pub user_id : String
  pub role : String

-- The embedded relation, and what is known of its user.
pub record OrgMemberDetail : Type 0 where
  pub relation : UserOrgRelation
  pub username : String
  pub email : String
  pub display_name : String
  pub status : String

pub record GroupMemberDetail : Type 0 where
  pub member : GroupMember
  pub username : String
  pub email : String
  pub display_name : String
  pub status : String

-- ===== src/Errors.antt =====
-- The errors that the stores and the services return (internal/user/store.go,
-- internal/directory/store.go, internal/service/user.go and the `errors.New` and `fmt.Errorf`
-- calls of their callees), and Go's pair of a value and an error as a result.
use auth_imp.Base.{String, ◌≡◌, refl, ◌⊎◌, inl, inr}
use Prim.Native.String.{◌++◌}

pub data Error : Type 0 where
  user_not_found user_already_exists sync_job_not_found : Error
  org_not_found org_already_exists group_not_found group_already_exists : Error
  member_not_found member_exists : Error
  parent_not_found : String → Error
  invalid_credentials user_disabled password_too_short : Error
  -- An error of the JWT library, with its text.
  token_error : String → Error

-- `err.Error()`
unfoldable pub message : Error → String
message Error.user_not_found = "user not found"
message Error.user_already_exists = "user already exists"
message Error.sync_job_not_found = "sync job not found"
message Error.org_not_found = "organization not found"
message Error.org_already_exists = "organization already exists"
message Error.group_not_found = "group not found"
message Error.group_already_exists = "group already exists"
message Error.member_not_found = "member not found"
message Error.member_exists = "member already exists"
message (Error.parent_not_found id) = "parent organization " ++ (id ++ " not found")
message Error.invalid_credentials = "invalid credentials"
message Error.user_disabled = "user is disabled"
message Error.password_too_short = "password must be at least 8 characters"
message (Error.token_error text) = text

-- A call returns a value, returns an error, or panics (a slice bound out of range).
pub data Result {ℓ} (A : Type ℓ) : Type ℓ where
  ok : A → Result A
  err : Error → Result A
  panic : Result A

pub Result-cases {ℓ} :
    {A : Type ℓ} (r : Result A) → ((a : A) × (r ≡ ok a)) ⊎ ((e : Error) × (r ≡ err e)) ⊎ (r ≡ panic)
Result-cases (ok a) = inl (a, refl)
Result-cases (err e) = inr (inl (e, refl))
Result-cases panic = inr (inr refl)

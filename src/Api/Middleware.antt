-- ===== src/Api/Middleware.antt =====
-- `JWTMiddleware` of internal/api/handler.go. The text of a token becomes a token of the JWT library
-- by `read_token`.
use Prim.Native.Char.{code}
use Prim.Native.String.{String}
use auth_imp.Base.{◌≡◌, ◌⊎◌, inl, inr, refl, eqb, ◌==◌, if◌then◌else◌}
use auth_imp.Errors.{Result, ok, err, panic}
use auth_imp.Model.{Time}
use auth_imp.Auth.{Claims, Service, Jwt, validate_token}
use auth_imp.Api.Http.{Answer, crash}
use auth_imp.Api.Users.{fail}

-- The text behind the prefix, or `whole` where the prefix does not stand or nothing follows it.
unfoldable pub behind_prefix : String → String → String → String
behind_prefix whole String.[] String.[] = whole
behind_prefix whole String.[] s = s
behind_prefix whole (String.◌∷◌ p ps) String.[] = whole
behind_prefix whole (String.◌∷◌ p ps) (String.◌∷◌ c s) =
    let rest = behind_prefix whole ps s in if eqb (code p) (code c) then rest else whole

-- `if len(tokenStr) > 7 && tokenStr[:7] == "Bearer "`
unfoldable pub bearer : String → String
unfolding behind_prefix
bearer header = behind_prefix header "Bearer " header

-- The request goes on with the claims, or is answered at once.
pub data Passed (Token : Type 0) : Type 0 where
  allowed : Claims → Passed Token
  denied : Answer Token → Passed Token

module _ (jwt : Jwt) (read_token : String → jwt.Token) (auth : Service) where
  open jwt use {Token}

  abbrev checked : Result Claims → Passed Token
  checked (ok claims) = allowed claims
  checked (err e) = denied (fail 401 "invalid token")
  checked panic = denied crash

  unfoldable pub jwt_middleware : Time → String → Passed Token
  unfolding bearer
  jwt_middleware now header =
      let token = bearer header in
      if token == ""
      then denied (fail 401 "missing authorization token")
      else checked (validate_token jwt auth now (read_token token))

pub Passed-cases :
    {Token : Type 0} (p : Passed Token)
    → ((claims : Claims) × (p ≡ allowed claims)) ⊎ ((a : Answer Token) × (p ≡ denied a))
Passed-cases (allowed claims) = inl (claims, refl)
Passed-cases (denied a) = inr (a, refl)

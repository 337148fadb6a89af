-- ===== src/Idpctl.antt =====
-- The command line client (cmd/idpctl). A command sends one request, over HTTP or over the socket;
-- the packages that parse its arguments and send what it asks for are left out. The values of
-- `--use-uds` and of the arguments are what a command is called with.
pub mod Commands
pub mod Directory
pub mod Actions
pub mod Tokens
use Prim.Native.Char.{code}
use Prim.Native.String.{String, ◌++◌}
use auth_imp.Base.{ℕ, Option, none, some, Bool, List, leb, eqb, ◌==◌, ◌&&◌, if◌then◌else◌}

-- A payload of the socket's requests: the entries of a map of texts, or a JSON object that was
-- decoded from a text, nothing where that failed.
pub data Payload (Object : Type 0) : Type 0 where
  texts : List (String × String) → Payload Object
  object : Option Object → Payload Object

-- What a command does: it sends a request with `restCall` (the method, the path with its query, and
-- the body), or with `udsCall`, or it panics.
pub data Action (Object : Type 0) : Type 0 where
  rest_call : String → String → Option String → Action Object
  uds_call : String → Payload Object → Action Object
  crash : Action Object

-- `strings.Trim(token, `"`)`
abbrev pub is_quote : ℕ → Bool
is_quote c = eqb c b'"'

unfoldable pub trim_left : String → String
trim_left String.[] = String.[]
trim_left (String.◌∷◌ c s) =
    let rest = trim_left s in if is_quote (code c) then rest else String.◌∷◌ c s

-- A character before what is left of the text behind it.
abbrev pub keep : String → ℕ → String → String
keep one c String.[] = if is_quote c then String.[] else one
keep one c rest = one ++ rest

unfoldable pub trim_right : String → String
trim_right String.[] = String.[]
trim_right (String.◌∷◌ c s) = keep (String.◌∷◌ c String.[]) (code c) (trim_right s)

unfoldable pub trim : String → String
unfolding trim_left trim_right
trim s = trim_right (trim_left s)

-- The header `Authorization` that `restCall` sets; empty where it sets none.
unfoldable pub authorization : String → String
unfolding trim
authorization token = if token == "" then "" else "Bearer " ++ trim token

-- What `restCall` returns for a response: its body, or the error that reports its status.
unfoldable pub rest_result : {Body : Type 0} → ℕ → Body → Option Body
rest_result status body = if leb 400 status then none else some body

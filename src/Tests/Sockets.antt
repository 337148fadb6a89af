-- ===== src/Tests/Sockets.antt =====
-- The socket's framings, handshake and actions (internal/uds) on short messages.
use auth_imp.Base.{
  true, ℕ, zero, suc, ◌%◌, ◌^◌, ◌<◌, String, ◌≡◌, ◌≢◌, Option, none, some, List, [], ◌∷◌, ◌++◌,
  length, refl, ap, arith,
}
use auth_imp.Base.Int.{pos}
use auth_imp.SyncJobStore
use auth_imp.Uds.Codec.{
  Byte, joined, before_newline, max_json_message_size, got, failed, too_large, max_message_size,
  newline, read_length_prefixed, write_length_prefixed, read_request_line, drop_cr,
}
use auth_imp.Uds.Codec.Frames.{read-write_too_large}
use auth_imp.Uds.Codec.Lines.{read_request_line-parts}
use auth_imp.Uds.Handshake.{
  Format, HandshakeRequest, HandshakeResponse, agreed, open_brace, perform_handshake,
}
use auth_imp.Uds.Handshake.Formats.{perform_handshake-misread}
use auth_imp.Uds.Payloads.{Decoder, JsonRequest}
use auth_imp.Uds.Handlers.{Services, Call}
use auth_imp.Uds.Registry.{handle}
use auth_imp.Uds.Registry.Answers.{IsAnswer}
use auth_imp.Uds.Registry.Replies.{handle-IsAnswer}
use auth_imp.Tests.Services.{directory}

abbrev body : List Byte
body = 1 ∷ 2 ∷ 3 ∷ []

abbrev behind : List Byte
behind = 9 ∷ []

zeros : ℕ → List Byte
zeros zero = []
zeros (suc n) = 0 ∷ zeros n

length-zeros : (n : ℕ) → length (zeros n) ≡ n
unfolding zeros
length-zeros zero = refl
length-zeros (suc n) = ap (λ k. suc k) (length-zeros n)

long : max_message_size < length (zeros 1_048_577)
long = omega (arith, length-zeros 1_048_577)

below_wrap : length (zeros 1_048_577) < 2 ^ 32
below_wrap = omega (arith, length-zeros 1_048_577)

read-write_too_large_example :
    read_length_prefixed (write_length_prefixed (zeros 1_048_577) ++ behind) ≡ failed too_large
read-write_too_large_example = read-write_too_large (zeros 1_048_577) behind long below_wrap

-- "{", "}" and a newline in two reads, with a byte of the next request behind the newline.

abbrev first_part : List (List Byte)
first_part = (123 ∷ []) ∷ []

in_parts : before_newline (joined first_part ++ 125 ∷ []) ≡ none
unfolding before_newline joined
in_parts = refl

parts_short : length (joined first_part ++ 125 ∷ []) < max_json_message_size
unfolding joined
parts_short = omega arith

read_request_line-parts_example :
    read_request_line (first_part ++ ((125 ∷ []) ++ newline ∷ behind) ∷ [])
    ≡ got (drop_cr (joined first_part ++ 125 ∷ []), [])
read_request_line-parts_example =
    read_request_line-parts first_part (125 ∷ []) behind [] in_parts parts_short

abbrev hello : HandshakeRequest
hello = record { version = "1.0"; format = "protobuf"; supported_versions = [] }

abbrev unmarshal : List Byte → Option HandshakeRequest
unmarshal _ = some hello

abbrev one_frame : List (List Byte)
one_frame = write_length_prefixed body ∷ []

-- A body of 123 bytes
abbrev unlucky : List (List Byte)
unlucky = write_length_prefixed (zeros 123) ∷ []

unlucky_read : joined unlucky ≡ write_length_prefixed (zeros 123) ++ []
unfolding joined
unlucky_read = refl

unlucky_byte : length (zeros 123) % 256 ≡ open_brace
unlucky_byte = omega (arith, length-zeros 123)

abbrev welcome : HandshakeResponse
welcome = record { status = "ok"; version = "1.0"; format = "protobuf"; error_message = "" }

perform_handshake-misread_example :
    perform_handshake unmarshal true unlucky ≢ agreed Format.protobuf welcome []
perform_handshake-misread_example =
    perform_handshake-misread unmarshal true unlucky (zeros 123) [] welcome [] unlucky_read
      unlucky_byte

-- Payloads that all decode to the same ids.
abbrev pub decoder : Decoder String
decoder = record {
  auth = λ raw. some (record { username = raw; password = raw });
  get_user = λ raw. some (record { user_id = raw; username = "" });
  trigger_sync = λ raw. some (record { source_system = raw; sync_type = "" });
  create_org = λ raw. some (record { name = raw; parent_id = "" });
  get_org = λ raw. some (record { org_id = raw });
  list_orgs = λ raw. record { offset = pos 0; limit = pos 0 };
  add_org_member = λ raw. some (record { org_id = "o2"; user_id = raw; role = "" });
  remove_org_member = λ raw. some (record { org_id = "o1"; user_id = raw });
  list_org_members = λ raw. some (record { org_id = raw });
  get_user_orgs = λ raw. some (record { user_id = raw });
  create_group = λ raw. none;
  get_group = λ raw. none;
  list_groups = λ raw. record { offset = pos 0; limit = pos 0 };
  add_group_member = λ raw. none;
  remove_group_member = λ raw. none;
  list_group_members = λ raw. none;
  get_user_groups = λ raw. none;
}

abbrev pub call : Call
call = record { now = 20; id = "n1"; org_order = λ xs. xs; group_order = λ xs. xs }

abbrev pub services : Services
services = record { directory = directory; sync_jobs = SyncJobStore.new }

abbrev pub request : JsonRequest String
request = record { action = "add_org_member"; payload = "u1"; request_id = "r1" }

handle-IsAnswer_example : IsAnswer "r1" services (handle decoder call request services)
handle-IsAnswer_example = handle-IsAnswer decoder call request services

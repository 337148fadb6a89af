-- ===== src/Tests/Packets.antt =====
-- Packets (internal/udp/server.go) for one user.
use auth_imp.Base.{
  String, ◌≡◌, ◌⊎◌, refl, some, true, false, any, eqb, List, ◌∷◌, ◌++◌, ◌==◌, if◌then◌else◌,
}
use auth_imp.Errors.{ok}
use auth_imp.Dict
use auth_imp.Model.{User}
use auth_imp.UserStore.{MemoryStore}
use auth_imp.UserService.Sessions.{marked}
use auth_imp.Uds.Codec.{Byte}
use auth_imp.Udp.{parse_auth_request, process_packet}
use auth_imp.Udp.Form
use auth_imp.UserStore
use auth_imp.UserService
use auth_imp.Auth.{verify_password}
use auth_imp.Udp.Form.{bytes, same_bytes, unhex}
use auth_imp.Udp.Queries.{Encodes, escape, plain-Encodes, field, parse_auth_request-Encodes}
use auth_imp.Udp.Logins.{Names, process_packet-answers}
use auth_imp.Tests.Users.{one_user, one_user-IsUserStore}

abbrev packet : List Byte
packet = bytes "login -d username=alice&pass_word=wonderland"

-- The two texts of the packet.
abbrev text : List Byte → String
text bs = if same_bytes bs (bytes "alice") then "alice" else "wonderland"

process_packet-answers_example :
    ((u : User) × Names text 7 packet one_user u
      × ((process_packet text 7 packet one_user).0 ≡ ok "OK")
      × ((j : String)
          → Dict.get (process_packet text 7 packet one_user).1.users j
            ≡ (if u.id == j then some (marked 7 true u) else Dict.get one_user.users j)))
    ⊎ (((u : User) → ¬ Names text 7 packet one_user u)
        × (process_packet text 7 packet one_user ≡ (ok "FAIL", one_user)))
process_packet-answers_example = process_packet-answers text 7 packet one_user one_user-IsUserStore

answered : (process_packet text 7 packet one_user).0 ≡ ok "OK"
unfolding process_packet parse_auth_request Form.split_n Form.strip Form.parse_query Form.parts
    Form.read_parts Form.read_part Form.cut Form.unescape Form.unescape_from Form.values_get bytes
    same_bytes unhex UserService.verify_credentials verify_password UserStore.get_by_username
    UserStore.get_by_id UserStore.create UserStore.load_or_store UserStore.stamp_new Dict.get
    Dict.put Dict.empty
answered = refl

-- The letter a as an escape.
escaped_a : Encodes (bytes "%61lice") (b'a' ∷ bytes "lice")
unfolding bytes unhex
escaped_a = escape b'6' b'1' 6 1 refl refl (plain-Encodes (bytes "lice") refl)

secret : Encodes (bytes "pw") (b'p' ∷ bytes "w")
unfolding bytes
secret = plain-Encodes (bytes "pw") refl

no_space : any (λ c. eqb c b' ') (bytes "login") ≡ false
unfolding bytes
no_space = refl

parse_auth_request-Encodes_example :
    parse_auth_request (
      bytes "login"
      ++ (bytes " -d "
          ++ (field (bytes "username") (bytes "%61lice")
              ++ b'&' ∷ field (bytes "pass_word") (bytes "pw"))))
    ≡ some (b'a' ∷ bytes "lice", b'p' ∷ bytes "w")
parse_auth_request-Encodes_example =
    parse_auth_request-Encodes (bytes "login") b'a' (bytes "lice") b'p' (bytes "w") no_space
      escaped_a secret

-- ===== src/Udp.antt =====
-- The UDP server (internal/udp/server.go): a packet asks for a login by a form behind ` -d `. What
-- the source holds as a Go string is a list of bytes here, until the user service is called: `text`
-- stands for the text that the bytes of a string encode.
pub mod Form
pub mod Queries
pub mod Logins
use auth_imp.Base.{ℕ, String, true, List, [], ◌∷◌, Option, none, some, take}
use auth_imp.Errors.{Result, ok, err, panic}
use auth_imp.Model.{Time}
use auth_imp.UserStore.{MemoryStore}
use auth_imp.UserService
use auth_imp.Uds.Codec.{Byte}
use Form.{bytes, split_n, parse_query, values_get}

-- What a call of `ReadFromUDP` gives.
pub data Read : Type 0 where
  packet : List Byte → Read
  read_error : Read

-- The length of the pool's buffers.
abbrev pub buffer_size : ℕ
buffer_size = 2048

-- The packets that the loop hands on, each cut at the length of the buffer, up to the first error.
unfoldable pub handle_packets : List Read → List (List Byte)
handle_packets [] = []
handle_packets (packet received ∷ reads) = take buffer_size received ∷ handle_packets reads
handle_packets (read_error ∷ reads) = []

-- `if password == "" { password = values.Get("pass_wd") }`
abbrev pub or_else : List Byte → List Byte → List Byte
or_else [] other = other
or_else first other = first

-- `if username == "" || password == ""`
abbrev pub credentials : List Byte → List Byte → Option (List Byte × List Byte)
credentials [] password = none
credentials username [] = none
credentials username password = some (username, password)

unfoldable pub parse_auth_request : List Byte → Option (List Byte × List Byte)
unfolding split_n parse_query values_get
parse_auth_request msg = elim (split_n (bytes " -d ") msg) [
  | none ↦ none
  | some form ↦ elim (parse_query form) [
    | none ↦ none
    | some values ↦
        credentials (values_get values (bytes "username"))
          (or_else (values_get values (bytes "pass_word")) (values_get values (bytes "pass_wd")))
  ]
]

-- `processPacket`: what is sent back, and the users. The error of `SetOnline` is only logged.
unfoldable pub process_packet :
    (List Byte → String) → Time → List Byte → MemoryStore → Result String × MemoryStore
process_packet text now received s = elim (parse_auth_request received) [
  | none ↦ (ok "FAIL", s)
  | some (username, password) ↦
      elim (UserService.verify_credentials (text username) (text password) s) [
        | ok user ↦ (ok "OK", (UserService.set_online now user.id true s).1)
        | err _ ↦ (ok "FAIL", s)
        | panic ↦ (panic, s)
      ]
]

-- ===== src/Lib.antt =====
-- auth-imp, an identity directory in Go: users, organisations, groups and sync jobs in stores in
-- memory, two services over them, and front ends (REST, UDP, a Unix socket), with a command line
-- client.
--
-- The parts and the files that model them:
--   * internal/model/models.go: Model. A time is a number, an id, a role and a status are texts.
--   * the sentinel errors of internal/user/store.go, internal/directory/store.go and
--     internal/service/user.go: Errors, with `Result` for Go's pair of a value and an error. It has a
--     third case, a panic, for a slice bound out of range.
--   * Go's maps and sync.Map: Dict, an association list with distinct keys. Go meets the entries of a
--     map in any order; a listing takes the order as an argument (Dict/Order), which theorems only
--     assume to be a permutation.
--   * the paging at the end of each List: Page.
--   * MemoryStore of internal/user/memory_store.go: UserStore (Create is `create`, GetByID is
--     `get_by_id`, and so on, also below). UserStore/Index and UserStore/Outcomes hold lemmas, the
--     other children what is proved of the operations. UserStore/Concurrent has concurrent calls of
--     Create, one map operation at a time, and UserStore/Edits those of Update and Delete.
--   * MemorySyncJobStore of internal/user/memory_store.go: SyncJobStore.
--   * MemoryOrgStore and MemoryGroupStore of internal/directory/memory_store.go:
--     Directory/OrgStore and Directory/GroupStore. Both keep each relation in two tables, by owner
--     and by user; Directory/Membership has the tables and what keeps one the mirror of the other.
--   * internal/auth/service.go: Auth. The JWT library is the parameter `Jwt`, and Auth/Tokens names
--     what is asked of it (`IsJwt`: a signed token parses under its key until it expires).
--   * internal/service/user.go: UserService. internal/service/directory.go: DirectoryService, whose
--     state is the three stores.
--   * internal/uds/codec.go: Uds/Codec for the two framings, Uds/Codecs for the two codecs on them,
--     Uds/Payloads for the messages.
--   * the connections of Server in internal/uds/server.go: Uds/Server. A goroutine that waits for a
--     handshake is named by its socket, one behind it by the id of its connection. Uds/Server/Loop has
--     the loop of a connection.
--   * performHandshake and validateHandshake of internal/uds/server.go: Uds/Handshake, and
--     lengthPrefixedReader: Uds/Reader.
--   * internal/uds/handler.go: Uds/Handlers for the actions, Uds/Registry for their table.
--   * internal/api: Api. Api/Users and Api/Orgs, Api/Groups have the handlers of handler.go and
--     directory_handler.go, Api/Middleware JWTMiddleware, Api/Router the routes of router.go and a
--     request's way through them (`serve`). Api/Http has what is shared with gin, Api/Numbers
--     `strconv.Atoi`.
--   * internal/udp/server.go: Udp, with what it takes from strings and net/url in Udp/Form.
--   * cmd/main.go: Service. The three front ends share one record of stores, `Services`; System has
--     the steps that their requests take on it, and the runs from the start of the process.
--   * cmd/idpctl: Idpctl, with a function for each command in Idpctl/Commands.
--   * Base has the shared names, the tests on numbers and texts, lists measured by native numbers,
--     and Go's `int`, whose sum wraps at 64 bits. Tests has concrete runs.
--
-- An operation takes the store and returns its result with the store after it. What the code reads
-- from outside is an argument: the clock, a new id, the order of a map, `strings.ToLower`, the
-- decoding of JSON, what each read of a connection returns, and whether a write succeeds. The clock
-- shows one time during a call, a number of nanoseconds. A duration, a second of a token, a limit on
-- connections and their count are signed (Base/Int), and the count wraps at 64 bits. A user, an
-- organisation or a relation is a value, since the stores copy at their borders or never write to
-- what they share. Every loop is a structural recursion on what it meets. The callers of two readers
-- count: `read_requests` the requests it asks for, and `drained` of Uds/Reader its reads, of which
-- each but the last takes a byte, so that one more than the bytes is enough.
--
-- Parameters stand for other code, too: gin's binding of a body (`Binder`), its tree of patterns
-- (`Tree`; where a theorem needs what gin documents of it, `IsTree`), the text of a token as the JWT
-- library reads it, and the text that bytes encode.
--
-- Not modelled: the interleaving of concurrent calls in general (a call of a store is one step, but
-- in UserStore/Concurrent and UserStore/Edits), the start and the stop of the front ends, the
-- profiling endpoints, the SQL store, which hands SQL to a database, the network and the printing of
-- the command line client, and the generated protocol buffers. JSON and the JWT format are the
-- libraries' own.
pub mod Base
pub mod Errors
pub mod Dict
pub mod Model
pub mod Page
pub mod UserStore
pub mod Directory
pub mod SyncJobStore
pub mod Auth
pub mod UserService
pub mod DirectoryService
pub mod Uds
pub mod Api
pub mod Udp
pub mod Idpctl
pub mod Service
pub mod System
mod Tests

-- ===== src/System/Runs.antt =====
-- Runs of the whole service, from the start of the process on, with requests that follow one another.
-- How the operations of the user store interleave is the subject of UserStore/Concurrent.antt.
use auth_imp.Base.{String, true, ◌≡◌, inl, inr, refl, subst, sym, some, List, Option-cases}
use auth_imp.Errors.{Result-cases}
use auth_imp.Model.{Time}
use auth_imp.Auth.{Service, Jwt}
use auth_imp.UserStore.Invariant as UserRuns
use auth_imp.UserStore.Invariant.{IsUserStore, Reach-IsUserStore}
use auth_imp.UserService.{verify_credentials, set_online, online_mark}
use auth_imp.Directory.OrgStore.Invariant.{IsOrgStore, Reach-IsOrgStore}
use auth_imp.Directory.OrgStore.Paths.{IsPathed, Reach-IsPathed}
use auth_imp.Directory.GroupStore.Invariant.{IsGroupStore, Reach-IsGroupStore}
use auth_imp.DirectoryService.{DirectoryService}
use auth_imp.DirectoryService.Stores as Directory
use auth_imp.Uds.Codec.{Byte}
use auth_imp.Uds.Payloads.{Decoder, JsonRequest}
use auth_imp.Uds.Handlers.{Services, Call}
use auth_imp.Uds.Registry.{handle}
use auth_imp.Udp.{parse_auth_request, process_packet}
use auth_imp.Api.Http.{Binder, Env}
use auth_imp.Api.Router.{Request, Tree, serve}
use auth_imp.Service.{services}
use auth_imp.Service.Bootstrap.{services-user_step}
use auth_imp.System.Moves.{Moves, users-Moves}
use auth_imp.System.Handlers.{IsFresh}
use auth_imp.System.Requests.{serve-Moves}
use auth_imp.System.Sockets.{handle-Moves}

-- The services after a packet.
abbrev pub after_packet : (List Byte → String) → Time → List Byte → Services → Services
after_packet text now received s = record s {
  directory = record s.directory {
    user_store = (process_packet text now received s.directory.user_store).1;
  };
}

packet-Moves :
    (text : List Byte → String) (now : Time) (received : List Byte) (s : Services)
    → Moves s.directory (after_packet text now received s).directory
unfolding process_packet set_online
packet-Moves text now received s =
    users-Moves s.directory _ (elim (Option-cases (parse_auth_request received)) [
      | inl e ↦ rw (e, process_packet) (inl refl)
      | inr ((name, password), e) ↦
          elim (Result-cases
            (verify_credentials (text name) (text password) s.directory.user_store)) [
              | inl (u, f) ↦
                  rw (e, process_packet, f)
                    (inr (UserRuns.update_step now (online_mark u.id true) s.directory.user_store))
              | inr (inl (_, f)) ↦ rw (e, process_packet, f) (inl refl)
              | inr (inr f) ↦ rw (e, process_packet, f) (inl refl)
            ]
    ])

module _ {Raw SocketRaw : Type 0} (jwt : Jwt) (read_token : String → jwt.Token) (auth : Service)
    (binder : Binder Raw) (tree : Tree) (decoder : Decoder SocketRaw)
    (text : List Byte → String) where
  -- One request to one of the front ends; a request over HTTP comes with a new id.
  pub data Step : Services → Services → Type 0 where
    rest_step :
        (env : Env) (request : Request Raw) (s : Services)
        → IsFresh env.call.id s
        → Step s (serve jwt read_token auth binder env tree request s).1
    socket_step :
        (call : Call) (req : JsonRequest SocketRaw) (s : Services)
        → Step s (handle decoder call req s).1
    packet_step :
        (now : Time) (received : List Byte) (s : Services)
        → Step s (after_packet text now received s)

  -- The states that requests reach from the start of the process.
  pub data Reach : Services → Type 0 where
    started : (now : Time) (id : String) (s : Services) → services now id ≡ some s → Reach s
    next : {s t : Services} → Reach s → Step s t → Reach t

  Step-Moves : {s t : Services} → Step s t → Moves s.directory t.directory
  Step-Moves (rest_step env request s fresh) =
      serve-Moves jwt read_token auth binder env tree request s fresh
  Step-Moves (socket_step call req s) = handle-Moves decoder call req s
  Step-Moves (packet_step now received s) = packet-Moves text now received s

  after_move : {s t : DirectoryService} → Directory.Reach s → Moves s t → Directory.Reach t
  after_move r (inl same) = subst Directory.Reach (sym same) r
  after_move r (inr step) = Directory.next r step

  -- In every state that requests of the three front ends reach from the start of the process, each
  -- request over HTTP coming with an id under which no user is stored, the directory is one that its
  -- own calls reach from empty stores.
  pub Reach-Directory : {s : Services} → Reach s → Directory.Reach s.directory
  Reach-Directory (started now id s e) = services-user_step now id s e
  Reach-Directory (next r step) = after_move (Reach-Directory r) (Step-Moves step)

  -- In every state that requests of the three front ends reach from the start of the process, each
  -- request over HTTP coming with an id under which no user is stored, the invariants of the three
  -- stores hold: users stand under their ids, and the two indexes hold them exactly; organisations
  -- and groups have members that the tables by user show alike; and the path of each stored
  -- organisation ends in a slash and its id.
  pub Reach-invariants :
      {s : Services}
      → Reach s
      → IsUserStore s.directory.user_store
        × IsOrgStore s.directory.org_store
        × IsPathed s.directory.org_store
        × IsGroupStore s.directory.group_store
  Reach-invariants r =
      let (orgs, groups, users) = Directory.Reach-StoresReach (Reach-Directory r) in
      (
        Reach-IsUserStore users,
        Reach-IsOrgStore orgs,
        Reach-IsPathed orgs,
        Reach-IsGroupStore groups,
      )

-- ===== src/UserStore/Concurrent.antt =====
-- Concurrent calls of `Create` of `MemoryStore` (internal/user/memory_store.go). Each operation of
-- a sync.Map is atomic, and calls interleave between them.
pub mod Unique
pub mod Claims
pub mod Ends
pub mod Runs
use auth_imp.Base.{String, Bool, true, false, Option, none, some, if◌then◌else◌}
use auth_imp.Dict
use auth_imp.Dict.{Dict}
use auth_imp.Model.{Time, User}
use auth_imp.UserStore.{MemoryStore, new, load_or_store, stamp_new}

-- What a call of `Create` does next.
pub data Next : Type 0 where
  claim_username claim_email undo_username store_user : Next

pub record Call : Type 0 where
  pub user : User
  pub after : Next

-- The store, and the calls that have not returned, by the id of their users.
pub record Run : Type 0 where
  pub store : MemoryStore
  pub calls : Dict Call

abbrev pub idle : Run
idle = record { store = new; calls = Dict.empty }

unfoldable pub begin : User → Run → Run
begin user r = record r {
  calls = Dict.put r.calls user.id (record { user = user; after = Next.claim_username });
}

-- The call goes on, or returns.
abbrev pub go_on : Call → Next → Dict Call → Dict Call
go_on c next calls = Dict.put calls c.user.id (record c { after = next })

abbrev pub return : Call → Dict Call → Dict Call
return c calls = Dict.remove calls c.user.id

-- The next operation of a call.
unfoldable pub perform : Time → Call → Next → Run → Run
unfolding load_or_store
perform now c Next.claim_username r =
    let (taken, by_username) = load_or_store r.store.by_username c.user.username c.user.id in
    if taken then record r { calls = return c r.calls } else record {
      store = record r.store { by_username = by_username };
      calls = go_on c Next.claim_email r.calls;
    }
perform now c Next.claim_email r =
    let (taken, by_email) = load_or_store r.store.by_email c.user.email c.user.id in
    if taken then record r { calls = go_on c Next.undo_username r.calls } else record {
      store = record r.store { by_email = by_email };
      calls = go_on c Next.store_user r.calls;
    }
perform now c Next.undo_username r = record {
  store = record r.store { by_username = Dict.remove r.store.by_username c.user.username };
  calls = return c r.calls;
}
perform now c Next.store_user r = record {
  store = record r.store { users = Dict.put r.store.users c.user.id (stamp_new now c.user) };
  calls = return c r.calls;
}

-- ===== src/UserStore/Concurrent/Unique.antt =====
-- What the indexes guarantee under every interleaving.
use auth_imp.Base.{String, ◌≡◌, Bool, true, false, none, some, arith, eq_iff}
use auth_imp.Dict
use auth_imp.Dict.{Dict, get-put, get-remove, get-empty}
use auth_imp.Model.{User}
use auth_imp.UserStore.Concurrent.{Next, Call, Run, idle, begin, return}

-- Whether a call holds the username, and the email, in the index.
abbrev pub has_username : Next → Bool
has_username Next.claim_username = false
has_username _ = true

abbrev pub has_email : Next → Bool
has_email Next.store_user = true
has_email _ = false

-- Each stored user and each call that went that far holds its username and its email.
pub record IsHeld (r : Run) : Type 0 where
  pub stored_username :
      (i : String) (u : User)
      → Dict.get r.store.users i ≡ some u
      → Dict.get r.store.by_username u.username ≡ some i
  pub stored_email :
      (i : String) (u : User)
      → Dict.get r.store.users i ≡ some u
      → Dict.get r.store.by_email u.email ≡ some i
  pub keyed :
      (i : String) (c : Call)
      → Dict.get r.calls i ≡ some c
      → (c.user.id ≡ i) × (Dict.get r.store.users i ≡ none)
  pub call_username :
      (i : String) (c : Call)
      → Dict.get r.calls i ≡ some c
      → has_username c.after ≡ true
      → Dict.get r.store.by_username c.user.username ≡ some i
  pub call_email :
      (i : String) (c : Call)
      → Dict.get r.calls i ≡ some c
      → has_email c.after ≡ true
      → Dict.get r.store.by_email c.user.email ≡ some i

pub idle-IsHeld : IsHeld idle
idle-IsHeld = record {
  stored_username = λ i u e. absurd (ground (arith, e, get-empty {V = User} i));
  stored_email = λ i u e. absurd (ground (arith, e, get-empty {V = User} i));
  keyed = λ i c e. absurd (ground (arith, e, get-empty {V = Call} i));
  call_username = λ i c e. absurd (ground (arith, e, get-empty {V = Call} i));
  call_email = λ i c e. absurd (ground (arith, e, get-empty {V = Call} i));
}

pub begin-IsHeld :
    (user : User) (r : Run)
    → Dict.get r.store.users user.id ≡ none
    → IsHeld r
    → IsHeld (begin user r)
unfolding begin
begin-IsHeld user r fresh h =
    let c : Call = record { user = user; after = Next.claim_username } in
    record {
      stored_username = h.stored_username;
      stored_email = h.stored_email;
      keyed = λ i d e.
          ground (arith, e, get-put r.calls user.id c i, eq_iff user.id i, h.keyed i d, fresh);
      call_username = λ i d e held.
          ground
            (arith, e, held, get-put r.calls user.id c i, eq_iff user.id i, h.call_username i d);
      call_email = λ i d e held.
          ground (arith, e, held, get-put r.calls user.id c i, eq_iff user.id i, h.call_email i d);
    }

-- A call that is under way has its id to itself, and what it has claimed.
module _ (c : Call) (r : Run) (h : IsHeld r) (called : Dict.get r.calls c.user.id ≡ some c) where
  pub free_id : Dict.get r.store.users c.user.id ≡ none
  free_id = (h.keyed c.user.id c called).1

  pub own_username :
      has_username c.after ≡ true → Dict.get r.store.by_username c.user.username ≡ some c.user.id
  own_username = h.call_username c.user.id c called

  pub own_email : has_email c.after ≡ true → Dict.get r.store.by_email c.user.email ≡ some c.user.id
  own_email = h.call_email c.user.id c called

  pub gone-IsHeld : IsHeld (record r { calls = return c r.calls })
  gone-IsHeld = record {
    stored_username = h.stored_username;
    stored_email = h.stored_email;
    keyed = λ i d e. ground (arith, e, get-remove r.calls c.user.id i, h.keyed i d);
    call_username =
        λ i d e held. ground (arith, e, held, get-remove r.calls c.user.id i, h.call_username i d);
    call_email =
        λ i d e held. ground (arith, e, held, get-remove r.calls c.user.id i, h.call_email i d);
  }

-- ===== src/UserStore/Concurrent/Runs.antt =====
-- Every interleaving of calls of `Create`.
use auth_imp.Base.{String, ◌≡◌, ◌⊎◌, inl, inr, refl, none, some, Option-cases, arith}
use auth_imp.Dict
use auth_imp.Model.{Time, User}
use auth_imp.UserStore.{load_or_store, stamp_new}
use auth_imp.UserStore.Concurrent.{Next, Call, Run, idle, begin, perform}
use auth_imp.UserStore.Concurrent.Unique.{IsHeld, idle-IsHeld, begin-IsHeld, gone-IsHeld}
use auth_imp.UserStore.Concurrent.Claims.{claimed_username-IsHeld, claimed_email-IsHeld}
use auth_imp.UserStore.Concurrent.Ends.{refused_email-IsHeld, undone-IsHeld, stored-IsHeld}

-- A call begins for a user under whose id nothing is stored and no other call runs, or a call that
-- has not returned does its next operation.
pub data Step : Run → Run → Type 0 where
  begin_step :
      (user : User) (r : Run)
      → Dict.get r.store.users user.id ≡ none
      → Dict.get r.calls user.id ≡ none
      → Step r (begin user r)
  perform_step :
      (now : Time) (c : Call) (r : Run)
      → Dict.get r.calls c.user.id ≡ some c
      → Step r (perform now c c.after r)

pub data Reach : Run → Type 0 where
  start : Reach idle
  next : {r t : Run} → Reach r → Step r t → Reach t

stamp_new-names :
    (now : Time) (u : User)
    → ((stamp_new now u).username ≡ u.username) × ((stamp_new now u).email ≡ u.email)
unfolding stamp_new
stamp_new-names now u = (refl, refl)

perform-IsHeld :
    (now : Time) (c : Call) (after : Next) (r : Run)
    → IsHeld r
    → Dict.get r.calls c.user.id ≡ some c
    → c.after ≡ after
    → IsHeld (perform now c after r)
unfolding perform load_or_store
perform-IsHeld now c Next.claim_username r h called at =
    elim (Option-cases (Dict.get r.store.by_username c.user.username)) [
      | inl free ↦ rw (free, load_or_store) (claimed_username-IsHeld c r h called free at)
      | inr (_, taken) ↦ rw (taken, load_or_store) (gone-IsHeld c r h called)
    ]
perform-IsHeld now c Next.claim_email r h called at =
    elim (Option-cases (Dict.get r.store.by_email c.user.email)) [
      | inl free ↦ rw (free, load_or_store) (claimed_email-IsHeld c r h called free at)
      | inr (_, taken) ↦ rw (taken, load_or_store) (refused_email-IsHeld c r h called at)
    ]
perform-IsHeld now c Next.undo_username r h called at = undone-IsHeld c r h called at
perform-IsHeld now c Next.store_user r h called at =
    stored-IsHeld c r h called (stamp_new now c.user) (stamp_new-names now c.user).0
      (stamp_new-names now c.user).1 at

Step-IsHeld : {r t : Run} → Step r t → IsHeld r → IsHeld t
Step-IsHeld (begin_step user r fresh _) h = begin-IsHeld user r fresh h
Step-IsHeld (perform_step now c r called) h = perform-IsHeld now c c.after r h called refl

Reach-IsHeld : {r : Run} → Reach r → IsHeld r
Reach-IsHeld start = idle-IsHeld
Reach-IsHeld (next r step) = Step-IsHeld step (Reach-IsHeld r)

-- Under every interleaving of the map operations of concurrent calls of `Create`, each of which is
-- begun with an id under which nothing is stored and no call runs, no two stored users share a
-- username or an email.
pub concurrent_unique :
    (r : Run) (i j : String) (u v : User)
    → Reach r
    → Dict.get r.store.users i ≡ some u
    → Dict.get r.store.users j ≡ some v
    → (u.username ≡ v.username) ⊎ (u.email ≡ v.email)
    → i ≡ j
concurrent_unique r i j u v reached stored_u stored_v (inl same) =
    let h = Reach-IsHeld reached in
    ground (arith, h.stored_username i u stored_u, h.stored_username j v stored_v, same)
concurrent_unique r i j u v reached stored_u stored_v (inr same) =
    let h = Reach-IsHeld reached in
    ground (arith, h.stored_email i u stored_u, h.stored_email j v stored_v, same)

-- ===== src/Tests/Interleavings.antt =====
-- Two calls of `Create` (internal/user/memory_store.go) with one email, operation by operation.
use auth_imp.Base.{◌≡◌, inl, refl, none, some}
use auth_imp.Dict
use auth_imp.Dict.{get-empty}
use auth_imp.Model.{User}
use auth_imp.UserStore.{load_or_store, stamp_new}
use auth_imp.UserStore.Concurrent.{Next, Call, Run, idle, begin, perform}
use auth_imp.UserStore.Concurrent.Runs.{
  Reach, start, next, begin_step, perform_step, concurrent_unique,
}
use auth_imp.Tests.Users.{first_id, alice, stored_alice, bob}

abbrev call : User → Next → Call
call user after = record { user = user; after = after }

abbrev both : Run
both = begin bob (begin alice idle)

abbrev alice_named : Run
alice_named = perform 1 (call alice Next.claim_username) Next.claim_username both

abbrev both_named : Run
both_named = perform 2 (call bob Next.claim_username) Next.claim_username alice_named

abbrev alice_mailed : Run
alice_mailed = perform 3 (call alice Next.claim_email) Next.claim_email both_named

abbrev bob_stopped : Run
bob_stopped = perform 4 (call bob Next.claim_email) Next.claim_email alice_mailed

abbrev alice_done : Run
alice_done = perform 5 (call alice Next.store_user) Next.store_user bob_stopped

bob_new : Dict.get (begin alice idle).calls "u2" ≡ none
unfolding begin Dict.get Dict.put Dict.remove Dict.empty
bob_new = refl

bob_unstored : Dict.get (begin alice idle).store.users "u2" ≡ none
unfolding begin Dict.get Dict.empty
bob_unstored = refl

alice_calls : Dict.get both.calls "u1" ≡ some (call alice Next.claim_username)
unfolding begin Dict.get Dict.put Dict.remove Dict.empty
alice_calls = refl

bob_calls : Dict.get alice_named.calls "u2" ≡ some (call bob Next.claim_username)
unfolding begin perform load_or_store Dict.get Dict.put Dict.remove Dict.empty
bob_calls = refl

alice_goes_on : Dict.get both_named.calls "u1" ≡ some (call alice Next.claim_email)
unfolding begin perform load_or_store Dict.get Dict.put Dict.remove Dict.empty
alice_goes_on = refl

bob_goes_on : Dict.get alice_mailed.calls "u2" ≡ some (call bob Next.claim_email)
unfolding begin perform load_or_store Dict.get Dict.put Dict.remove Dict.empty
bob_goes_on = refl

alice_stores : Dict.get bob_stopped.calls "u1" ≡ some (call alice Next.store_user)
unfolding begin perform load_or_store Dict.get Dict.put Dict.remove Dict.empty
alice_stores = refl

bob_undoes : Dict.get alice_done.calls "u2" ≡ some (call bob Next.undo_username)
unfolding begin perform load_or_store Dict.get Dict.put Dict.remove Dict.empty
bob_undoes = refl

alice_done-Reach : Reach alice_done
alice_done-Reach =
    let begun =
      next
        (next start (begin_step alice idle (get-empty {V = User} "u1") (get-empty {V = Call} "u1")))
        (begin_step bob (begin alice idle) bob_unstored bob_new) in
    let named =
      next (next begun (perform_step 1 (call alice Next.claim_username) both alice_calls))
        (perform_step 2 (call bob Next.claim_username) alice_named bob_calls) in
    let mailed =
      next (next named (perform_step 3 (call alice Next.claim_email) both_named alice_goes_on))
        (perform_step 4 (call bob Next.claim_email) alice_mailed bob_goes_on) in
    next mailed (perform_step 5 (call alice Next.store_user) bob_stopped alice_stores)

alice_in : Dict.get alice_done.store.users "u1" ≡ some stored_alice
unfolding begin perform load_or_store stamp_new Dict.get Dict.put Dict.remove Dict.empty
alice_in = refl

concurrent_unique_example : first_id ≡ "u1"
concurrent_unique_example =
    concurrent_unique alice_done "u1" "u1" stored_alice stored_alice alice_done-Reach alice_in
      alice_in (inl refl)

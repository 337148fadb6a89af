-- ===== src/Tests/Users.antt =====
-- The user store (internal/user/memory_store.go) at two users.
use mathlib.Core.List.Permᴰ as Permᴰ
use auth_imp.Base.{
  String, ◌≡◌, ◌≢◌, ◌↔◌, inr, some, true, List, length, take, drop, ◌<◌, ◌^◌, refl, arith, eq_iff,
}
use auth_imp.Base.Int.{pos}
use auth_imp.Errors.{Error, ok, err}
use auth_imp.Dict
use auth_imp.Dict.{get-empty}
use auth_imp.Dict.Order.{IsOrder}
use auth_imp.Model.{User, zero_user}
use auth_imp.UserStore
use auth_imp.UserStore.{MemoryStore, live, live_users}
use auth_imp.UserStore.Invariant.{IsUserStore, Reach, start, next, create_step, Reach-IsUserStore}
use auth_imp.UserStore.Reads.{IsLive, get_by_username_iff}
use auth_imp.UserStore.Creates.{IsTaken, create_found, create_refused_iff}
use auth_imp.UserStore.Updates.{update-moves_email}
use auth_imp.UserStore.Deletes.{soft_delete_effect}
use auth_imp.UserStore.Listing.{list-page}

abbrev pub first_id : String
first_id = "u1"

abbrev pub alice : User
alice = record (zero_user "u1") {
  username = "alice";
  email = "alice@x.org";
  password_hash = "wonderland";
  status = "active";
}

-- Another id, with the email of the first user.
abbrev pub bob : User
bob = record (zero_user "u2") { username = "bob"; email = "alice@x.org"; status = "active" }

abbrev pub stored_alice : User
stored_alice = record alice { created_at = 5; updated_at = 5 }

abbrev pub one_user : MemoryStore
one_user = (UserStore.create 5 alice UserStore.new).1

pub one_user-Reach : Reach one_user
one_user-Reach = next start (create_step 5 alice UserStore.new (get-empty {V = User} "u1"))

-- `List` meets the map in the order of its entries.
abbrev pub as_entered : List User → List User
as_entered us = us

pub as_entered-IsOrder : IsOrder as_entered
as_entered-IsOrder us = Permᴰ.refl us

alice_found : UserStore.get_by_username "alice" one_user ≡ ok stored_alice
unfolding UserStore.create UserStore.load_or_store UserStore.stamp_new UserStore.get_by_username
    UserStore.get_by_id Dict.get Dict.put Dict.empty
alice_found = refl

alice_stored : Dict.get one_user.users "u1" ≡ some stored_alice
unfolding UserStore.create UserStore.load_or_store UserStore.stamp_new Dict.get Dict.put Dict.empty
alice_stored = refl

Reach-IsUserStore_example : IsUserStore one_user
Reach-IsUserStore_example = Reach-IsUserStore one_user-Reach

get_by_username_iff_example :
    (UserStore.get_by_username "alice" one_user ≡ ok stored_alice)
    ↔ (IsLive one_user stored_alice × (stored_alice.username ≡ "alice"))
get_by_username_iff_example =
    get_by_username_iff one_user (Reach-IsUserStore one_user-Reach) "alice" stored_alice

pub one_user-IsUserStore : IsUserStore one_user
one_user-IsUserStore = Reach-IsUserStore one_user-Reach

pub alice_live : live (Dict.get one_user.users "u1") ≡ some stored_alice
unfolding UserStore.create UserStore.load_or_store UserStore.stamp_new Dict.get Dict.put Dict.empty
alice_live = refl

pub not_deleted : alice.status ≢ "deleted"
not_deleted h = ground (arith, eq_iff alice.status "deleted", h)

alice_created : (UserStore.create 5 alice UserStore.new).0 ≡ ok stored_alice
unfolding UserStore.create UserStore.load_or_store UserStore.stamp_new Dict.get Dict.put Dict.empty
alice_created = refl

bob_refused : (UserStore.create 6 bob one_user).0 ≡ err Error.user_already_exists
unfolding UserStore.create UserStore.load_or_store UserStore.stamp_new Dict.get Dict.put Dict.empty
bob_refused = refl

create_found_example :
    (UserStore.get_by_id "u1" one_user ≡ ok stored_alice)
    × (UserStore.get_by_username "alice" one_user ≡ ok stored_alice)
    × (UserStore.get_by_email "alice@x.org" one_user ≡ ok stored_alice)
create_found_example = create_found 5 alice UserStore.new stored_alice not_deleted alice_created

create_refused_iff_example :
    ((UserStore.create 6 bob one_user).0 ≡ err Error.user_already_exists) ↔ IsTaken one_user bob
create_refused_iff_example = create_refused_iff 6 bob one_user one_user-IsUserStore

-- A change of the first user's email.
abbrev new_mail : User
new_mail = record (zero_user "u1") { email = "a@y.org" }

mail_changed : (UserStore.update 7 new_mail one_user).0 ≡ ok tt
unfolding UserStore.create UserStore.load_or_store UserStore.stamp_new UserStore.update
    UserStore.update_existing UserStore.overlay Dict.get Dict.put Dict.remove Dict.empty
mail_changed = refl

mail_moves : UserStore.moves_email new_mail stored_alice ≡ true
mail_moves = refl

update-moves_email_example :
    (UserStore.get_by_email "alice@x.org" (UserStore.update 7 new_mail one_user).1
      ≡ err Error.user_not_found)
    × (UserStore.get_by_email "a@y.org" (UserStore.update 7 new_mail one_user).1
        ≡ UserStore.get_by_id "u1" (UserStore.update 7 new_mail one_user).1)
update-moves_email_example =
    update-moves_email 7 new_mail one_user stored_alice alice_live mail_moves mail_changed

soft_delete_effect_example :
    ((UserStore.delete 8 "u1" one_user).0 ≡ ok tt)
    × (UserStore.get_by_id "u1" (UserStore.delete 8 "u1" one_user).1 ≡ err Error.user_not_found)
    × (UserStore.get_by_username "alice" (UserStore.delete 8 "u1" one_user).1
        ≡ err Error.user_not_found)
    × (UserStore.get_by_email "alice@x.org" (UserStore.delete 8 "u1" one_user).1
        ≡ err Error.user_not_found)
    × ((UserStore.create 8 bob (UserStore.delete 8 "u1" one_user).1).0
        ≡ err Error.user_already_exists)
soft_delete_effect_example =
    soft_delete_effect 8 "u1" one_user one_user-IsUserStore stored_alice alice_live bob (inr refl)

few_users : length (live_users (λ us. us) one_user) < 2 ^ 63
unfolding UserStore.create UserStore.load_or_store UserStore.stamp_new UserStore.live_users Dict.put
    Dict.empty Dict.values Dict.get
few_users = omega arith

list-page_example :
    UserStore.list as_entered (pos 0) (pos 20) one_user
    ≡ ok
        (take 20 (drop 0 (live_users as_entered one_user)), length (live_users (λ us. us) one_user))
list-page_example = list-page as_entered one_user 0 20 as_entered-IsOrder few_users (omega arith)

-- ===== src/Tests/Races.antt =====
-- Calls of `Update` and `Delete` (internal/user/memory_store.go) that interleave, at one user.
use auth_imp.Base.{◌≡◌, refl}
use auth_imp.Errors.{ok}
use auth_imp.Model.{User, zero_user}
use auth_imp.UserStore
use auth_imp.UserStore.{live, moves_email}
use auth_imp.UserStore.Edits.{returned}
use auth_imp.UserStore.Edits.Races.{raced, delete_undone}
use auth_imp.Tests.Users.{one_user, stored_alice, alice_live}

abbrev rename : User
rename = record (zero_user "u1") { display_name = "Alice" }

delete_undone_example :
    ((raced 7 rename stored_alice one_user alice_live refl).first ≡ returned (ok tt))
    × ((raced 7 rename stored_alice one_user alice_live refl).second ≡ returned (ok tt))
    × (UserStore.get_by_id "u1" (raced 7 rename stored_alice one_user alice_live refl).store
        ≡ ok (UserStore.overlay 7 rename stored_alice))
delete_undone_example = delete_undone 7 rename stored_alice one_user alice_live refl refl

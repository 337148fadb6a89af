-- ===== src/UserStore/Concurrent/Ends.antt =====
-- How a call ends under every interleaving: it gives its username back, or it stores its user.
use auth_imp.Base.{◌≡◌, refl, some, arith, eq_iff}
use auth_imp.Dict
use auth_imp.Dict.{Dict, get-put, get-remove, get-empty}
use auth_imp.Model.{User}
use auth_imp.UserStore.Concurrent.{Next, Call, Run, go_on, return}
use auth_imp.UserStore.Concurrent.Unique
use auth_imp.UserStore.Concurrent.Unique.{IsHeld}

module _ (c : Call) (r : Run) (h : IsHeld r) (called : Dict.get r.calls c.user.id ≡ some c) where
  -- The call has met a taken email.
  pub refused_email-IsHeld :
      c.after ≡ Next.claim_email → IsHeld (record r { calls = go_on c Next.undo_username r.calls })
  refused_email-IsHeld at =
      let d : Call = record c { after = Next.undo_username } in
      let own = Unique.own_username c r h called (rw at refl) in
      record {
        stored_username = h.stored_username;
        stored_email = h.stored_email;
        keyed = λ i x e. ground (
          arith,
          e,
          get-put r.calls c.user.id d i,
          eq_iff c.user.id i,
          h.keyed i x,
          Unique.free_id c r h called,
        );
        call_username = λ i x e held. ground (
          arith,
          e,
          held,
          get-put r.calls c.user.id d i,
          eq_iff c.user.id i,
          h.call_username i x,
          own,
        );
        call_email = λ i x e held.
            ground
              (arith, e, held, get-put r.calls c.user.id d i, eq_iff c.user.id i, h.call_email i x);
      }

  -- The call has taken its username back, which only it had, and returns.
  pub undone-IsHeld :
      c.after ≡ Next.undo_username
      → IsHeld (record {
        store = record r.store { by_username = Dict.remove r.store.by_username c.user.username };
        calls = return c r.calls;
      })
  undone-IsHeld at =
      let own = Unique.own_username c r h called (rw at refl) in
      record {
        stored_username = λ i u e. ground (
          arith,
          e,
          get-remove r.store.by_username c.user.username u.username,
          h.stored_username i u e,
          own,
          Unique.free_id c r h called,
          eq_iff c.user.username u.username,
        );
        stored_email = h.stored_email;
        keyed = λ i x e. ground (arith, e, get-remove r.calls c.user.id i, h.keyed i x);
        call_username = λ i x e held. ground (
          arith,
          e,
          held,
          get-remove r.calls c.user.id i,
          eq_iff c.user.id i,
          h.call_username i x,
          own,
          get-remove r.store.by_username c.user.username x.user.username,
          eq_iff c.user.username x.user.username,
        );
        call_email =
            λ i x e held. ground (arith, e, held, get-remove r.calls c.user.id i, h.call_email i x);
      }

  -- The call has stored its user, and returns.
  pub stored-IsHeld :
      (u : User)
      → u.username ≡ c.user.username
      → u.email ≡ c.user.email
      → c.after ≡ Next.store_user
      → IsHeld (record {
        store = record r.store { users = Dict.put r.store.users c.user.id u };
        calls = return c r.calls;
      })
  stored-IsHeld u same_name same_mail at =
      let own_name = Unique.own_username c r h called (rw at refl) in
      let own_mail = Unique.own_email c r h called (rw at refl) in
      record {
        stored_username = λ i v e. ground (
          arith,
          e,
          get-put r.store.users c.user.id u i,
          eq_iff c.user.id i,
          h.stored_username i v,
          own_name,
          same_name,
        );
        stored_email = λ i v e. ground (
          arith,
          e,
          get-put r.store.users c.user.id u i,
          eq_iff c.user.id i,
          h.stored_email i v,
          own_mail,
          same_mail,
        );
        keyed = λ i x e. ground (
          arith,
          e,
          get-remove r.calls c.user.id i,
          get-put r.store.users c.user.id u i,
          eq_iff c.user.id i,
          h.keyed i x,
        );
        call_username = λ i x e held.
            ground (arith, e, held, get-remove r.calls c.user.id i, h.call_username i x);
        call_email =
            λ i x e held. ground (arith, e, held, get-remove r.calls c.user.id i, h.call_email i x);
      }

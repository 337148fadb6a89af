-- ===== src/UserStore/Concurrent/Claims.antt =====
-- What a call claims in the indexes, one after the other, under every interleaving.
use auth_imp.Base.{◌≡◌, refl, none, some, arith, eq_iff, eq_refl}
use auth_imp.Dict
use auth_imp.Dict.{Dict, get-put, get-remove, get-empty}
use auth_imp.UserStore.Concurrent.{Next, Call, Run, go_on}
use auth_imp.UserStore.Concurrent.Unique
use auth_imp.UserStore.Concurrent.Unique.{IsHeld}

module _ (c : Call) (r : Run) (h : IsHeld r) (called : Dict.get r.calls c.user.id ≡ some c) where
  -- The call has put its username under its id, where nothing stood.
  pub claimed_username-IsHeld :
      Dict.get r.store.by_username c.user.username ≡ none
      → c.after ≡ Next.claim_username
      → IsHeld (record {
        store = record r.store {
          by_username = Dict.put r.store.by_username c.user.username c.user.id;
        };
        calls = go_on c Next.claim_email r.calls;
      })
  claimed_username-IsHeld free at =
      let d : Call = record c { after = Next.claim_email } in
      record {
        stored_username = λ i u e. ground (
          arith,
          get-put r.store.by_username c.user.username c.user.id u.username,
          h.stored_username i u e,
          free,
          eq_iff c.user.username u.username,
        );
        stored_email = h.stored_email;
        keyed = λ i x e. ground (
          arith,
          e,
          get-put r.calls c.user.id d i,
          eq_iff c.user.id i,
          h.keyed i x,
          Unique.free_id c r h called,
        );
        call_username = λ i x e held. ground (
          arith,
          e,
          held,
          get-put r.calls c.user.id d i,
          eq_iff c.user.id i,
          h.call_username i x,
          free,
          get-put r.store.by_username c.user.username c.user.id x.user.username,
          eq_iff c.user.username x.user.username,
          eq_refl c.user.username,
        );
        call_email = λ i x e held.
            ground
              (arith, e, held, get-put r.calls c.user.id d i, eq_iff c.user.id i, h.call_email i x);
      }

  -- The call has put its email under its id, where nothing stood.
  pub claimed_email-IsHeld :
      Dict.get r.store.by_email c.user.email ≡ none
      → c.after ≡ Next.claim_email
      → IsHeld (record {
        store = record r.store { by_email = Dict.put r.store.by_email c.user.email c.user.id };
        calls = go_on c Next.store_user r.calls;
      })
  claimed_email-IsHeld free at =
      let d : Call = record c { after = Next.store_user } in
      let own = Unique.own_username c r h called (rw at refl) in
      record {
        stored_username = h.stored_username;
        stored_email = λ i u e. ground (
          arith,
          get-put r.store.by_email c.user.email c.user.id u.email,
          h.stored_email i u e,
          free,
          eq_iff c.user.email u.email,
        );
        keyed = λ i x e. ground (
          arith,
          e,
          get-put r.calls c.user.id d i,
          eq_iff c.user.id i,
          h.keyed i x,
          Unique.free_id c r h called,
        );
        call_username = λ i x e held. ground (
          arith,
          e,
          held,
          get-put r.calls c.user.id d i,
          eq_iff c.user.id i,
          h.call_username i x,
          own,
        );
        call_email = λ i x e held. ground (
          arith,
          e,
          held,
          get-put r.calls c.user.id d i,
          eq_iff c.user.id i,
          h.call_email i x,
          free,
          get-put r.store.by_email c.user.email c.user.id x.user.email,
          eq_iff c.user.email x.user.email,
          eq_refl c.user.email,
        );
      }

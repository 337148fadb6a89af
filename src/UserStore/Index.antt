-- ===== src/UserStore/Index.antt =====
-- What the username index and the email index mean, and the updates that keep it.
use auth_imp.Base.{String, ◌≡◌, none, some, arith, inl, inr, eq_iff, text_cases}
use auth_imp.Dict
use auth_imp.Dict.{Dict, get-put, get-remove, get-empty}
use auth_imp.Model.{User}

-- `index` takes the field of each stored user to the key under which the user is stored, and
-- holds nothing else.
pub record IsIndex (field : User → String) (users : Dict User) (index : Dict String) : Type 0 where
  pub complete :
      (i : String) (u : User) → Dict.get users i ≡ some u → Dict.get index (field u) ≡ some i
  pub sound :
      (k i : String)
      → Dict.get index k ≡ some i
      → (u : User) × (Dict.get users i ≡ some u) × (field u ≡ k)

module _ (field : User → String) (users : Dict User) (index : Dict String)
    (h : IsIndex field users index) (i : String) (new : User) where
  -- A new user under a new key.
  module _ (free_id : Dict.get users i ≡ none) (free_key : Dict.get index (field new) ≡ none) where
    complete_new :
        (j : String) (v : User)
        → Dict.get (Dict.put users i new) j ≡ some v
        → Dict.get (Dict.put index (field new) i) (field v) ≡ some j
    complete_new j v e = ground (
      arith,
      get-put users i new j,
      get-put index (field new) i (field v),
      h.complete j v,
      eq_iff i j,
      eq_iff (field new) (field v),
      free_id,
      free_key,
      e,
    )

    sound_new :
        (k j : String)
        → Dict.get (Dict.put index (field new) i) k ≡ some j
        → (u : User) × (Dict.get (Dict.put users i new) j ≡ some u) × (field u ≡ k)
    sound_new k j e = elim (text_cases (field new) k) [
      | inl same ↦ (
        new,
        ground (arith, e, get-put users i new j, get-put index (field new) i k, eq_iff i j),
        same.1,
      )
      | inr other ↦
          let (u, stored, key) = h.sound k j (ground (arith, e, get-put index (field new) i k)) in
          (u, ground (arith, stored, free_id, get-put users i new j, eq_iff i j), key)
    ]

    pub put-new-IsIndex : IsIndex field (Dict.put users i new) (Dict.put index (field new) i)
    put-new-IsIndex = record { complete = complete_new; sound = sound_new }

  module _ (old : User) (stored : Dict.get users i ≡ some old) where
    -- A stored user is overwritten, and keeps its key.
    pub put_same-IsIndex : field new ≡ field old → IsIndex field (Dict.put users i new) index
    put_same-IsIndex same = record {
      complete = λ j v e. ground (
        arith,
        same,
        stored,
        get-put users i new j,
        h.complete j v,
        h.complete i old,
        eq_iff i j,
      );
      sound = λ k j e.
          let (u, at, key) = h.sound k j e in
          elim (text_cases i j) [
            | inl here ↦ (
              new,
              ground (arith, here, get-put users i new j),
              ground (arith, same, stored, at, key, here),
            )
            | inr there ↦ (u, ground (arith, at, there, get-put users i new j), key)
          ];
    }

    -- A stored user is overwritten, and moves to a key that is free.
    module _ (free_key : Dict.get index (field new) ≡ none) where
      complete_moved :
          (j : String) (v : User)
          → Dict.get (Dict.put users i new) j ≡ some v
          → Dict.get (Dict.remove (Dict.put index (field new) i) (field old)) (field v) ≡ some j
      complete_moved j v e = ground (
        arith,
        e,
        stored,
        free_key,
        get-put users i new j,
        get-remove (Dict.put index (field new) i) (field old) (field v),
        get-put index (field new) i (field v),
        h.complete j v,
        h.complete i old,
        eq_iff i j,
        eq_iff (field old) (field v),
        eq_iff (field new) (field v),
      )

      sound_moved :
          (k j : String)
          → Dict.get (Dict.remove (Dict.put index (field new) i) (field old)) k ≡ some j
          → (u : User) × (Dict.get (Dict.put users i new) j ≡ some u) × (field u ≡ k)
      sound_moved k j e = elim (text_cases (field new) k) [
        | inl same ↦ (
          new,
          ground (
            arith,
            e,
            same,
            get-put users i new j,
            get-put index (field new) i k,
            eq_iff i j,
            get-remove (Dict.put index (field new) i) (field old) k,
          ),
          same.1,
        )
        | inr other ↦
            let (u, at, key) = h.sound k j (
              ground (
                arith,
                e,
                other,
                get-put index (field new) i k,
                get-remove (Dict.put index (field new) i) (field old) k,
              )) in
            (
              u,
              ground (
                arith,
                e,
                at,
                key,
                stored,
                get-put users i new j,
                eq_iff i j,
                eq_iff (field old) k,
                get-remove (Dict.put index (field new) i) (field old) k,
              ),
              key,
            )
      ]

      pub put_moved-IsIndex :
          IsIndex field
            (Dict.put users i new)
            (Dict.remove (Dict.put index (field new) i) (field old))
      put_moved-IsIndex = record { complete = complete_moved; sound = sound_moved }

-- An entry that is put under a free key and taken back leaves the index as it was.
pub rollback-IsIndex :
    (field : User → String) (users : Dict User) (index : Dict String) (k i : String)
    → IsIndex field users index
    → Dict.get index k ≡ none
    → IsIndex field users (Dict.remove (Dict.put index k i) k)
rollback-IsIndex field users index k i h free = record {
  complete = λ j v e. ground (
    arith,
    e,
    free,
    h.complete j v,
    get-remove (Dict.put index k i) k (field v),
    get-put index k i (field v),
    eq_iff k (field v),
  );
  sound = λ l j e. h.sound l j (
      ground
        (arith, e, free, get-remove (Dict.put index k i) k l, get-put index k i l, eq_iff k l));
}

pub empty-IsIndex : (field : User → String) → IsIndex field Dict.empty Dict.empty
empty-IsIndex field = record {
  complete = λ j v e. absurd (ground (arith, e, get-empty {V = User} j));
  sound = λ k j e. absurd (ground (arith, e, get-empty {V = String} k));
}

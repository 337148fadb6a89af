-- ===== src/Uds/Registry/Each.antt =====
-- What holds of each registered handler holds of the one that an action finds.
use mathlib.Core.Option.{some-injective}
use auth_imp.Base.{String, ◌≡◌, inl, inr, List, [], ◌∷◌, some, Bool-cases, arith, subst, ◌==◌}
use auth_imp.Uds.Registry.{ActionHandler, lookup}

infixr 5 ◌⊗◌
pub data EachHandler {Raw : Type 0} (P : ActionHandler Raw → Type 0)
    : List (String × ActionHandler Raw) → Type 0 where
  none_left : EachHandler P []
  ◌⊗◌ :
      {action : String} {h : ActionHandler Raw} {hs : List (String × ActionHandler Raw)}
      → P h
      → EachHandler P hs
      → EachHandler P ((action, h) ∷ hs)

pub lookup-EachHandler :
    {Raw : Type 0} {P : ActionHandler Raw → Type 0} (action : String)
    (hs : List (String × ActionHandler Raw))
    → EachHandler P hs
    → (h : ActionHandler Raw) → lookup action hs ≡ some h
    → P h
unfolding lookup
lookup-EachHandler action [] all h e = absurd (ground (arith, e))
lookup-EachHandler {P = P} action ((name, g) ∷ hs) (first ⊗ later) h e =
    elim (Bool-cases (name == action)) [
      | inl same ↦ subst P (some-injective g h (rw (same, lookup) at e)) first
      | inr apart ↦ lookup-EachHandler action hs later h (rw (apart, lookup) at e)
    ]

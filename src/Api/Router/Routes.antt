-- ===== src/Api/Router/Routes.antt =====
-- What holds of each registered route holds of the one that a request finds.
use mathlib.Core.Option.{some-injective}
use auth_imp.Base.{
  String, ◌≡◌, inl, inr, Bool-cases, List, [], ◌∷◌, some, subst, arith, ap, eq_iff, ◌==◌, ◌&&◌,
}
use auth_imp.Api.Router.{Route, route_at}

infixr 5 ◌⊗◌
pub data EachRoute {Raw Token : Type 0} (P : Route Raw Token → Type 0)
    : List (Route Raw Token) → Type 0 where
  none_left : EachRoute P []
  ◌⊗◌ :
      {r : Route Raw Token} {rs : List (Route Raw Token)}
      → P r
      → EachRoute P rs
      → EachRoute P (r ∷ rs)

pub route_at-EachRoute :
    {Raw Token : Type 0} {P : Route Raw Token → Type 0} (method pattern : String)
    (rs : List (Route Raw Token))
    → EachRoute P rs
    → (r : Route Raw Token) → route_at method pattern rs ≡ some r
    → P r
unfolding route_at
route_at-EachRoute method pattern [] all r e = absurd (ground (arith, e))
route_at-EachRoute {P = P} method pattern (q ∷ rs) (first ⊗ later) r e =
    elim (Bool-cases (q.method == method && q.pattern == pattern)) [
      | inl same ↦ subst P (some-injective q r (rw (same, route_at) at e)) first
      | inr apart ↦ route_at-EachRoute method pattern rs later r (rw (apart, route_at) at e)
    ]

-- The route that is found is under the method and the pattern.
pub route_at-found :
    {Raw Token : Type 0} (method pattern : String) (rs : List (Route Raw Token))
    (r : Route Raw Token)
    → route_at method pattern rs ≡ some r
    → (r.method ≡ method) × (r.pattern ≡ pattern)
unfolding route_at
route_at-found method pattern [] r e = absurd (ground (arith, e))
route_at-found method pattern (q ∷ rs) r e =
    elim (Bool-cases (q.method == method && q.pattern == pattern)) [
      | inl same ↦
          let found = some-injective q r (rw (same, route_at) at e) in
          (
            ground (arith, same, ap (λ (x : Route _ _). x.method) found, eq_iff q.method method),
            ground (arith, same, ap (λ (x : Route _ _). x.pattern) found, eq_iff q.pattern pattern),
          )
      | inr apart ↦ route_at-found method pattern rs r (rw (apart, route_at) at e)
    ]

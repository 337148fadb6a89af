-- ===== src/Api/Router/Tree.antt =====
-- What gin's documentation says of the tree of a method: a path matches a pattern that is registered,
-- and begins with what stands in the pattern before its first parameter.
use Prim.Native.Char.{code}
use Prim.Native.String.{String, ◌++◌}
use text.Mathlib.TextLemmas.{cons-append}
use mathlib.Core.Logic.{◌≢◌}
use auth_imp.Base.{
  ◌≡◌, refl, inl, inr, List, [], ◌∷◌, some, Bool, true, false, eqb, ◌&&◌, ◌==◌, Bool-cases, arith,
  In, if◌then◌else◌, Option-cases, ℕ, sym, ap, ◌∙◌, subst,
}
use auth_imp.Auth.{Service, Jwt}
use auth_imp.Uds.Handlers.{Services}
use auth_imp.Api.Http.{Binder, Env}
use auth_imp.Api.Router.{Route, Request, Tree, patterns, routes, serve, unrouted}
use auth_imp.Api.Router.Routes.{EachRoute, none_left, ◌⊗◌}

-- What stands before the first parameter.
unfoldable pub literal : String → String
literal String.[] = String.[]
literal (String.◌∷◌ c s) =
    let rest = literal s in if eqb (code c) b':' then String.[] else String.◌∷◌ c rest

pub record IsTree (tree : Tree) : Type 0 where
  pub registered :
      (ps : List String) (path pattern : String) (param : String → String)
      → tree ps path ≡ some (pattern, param)
      → In pattern ps
  pub begins :
      (ps : List String) (path pattern : String) (param : String → String)
      → tree ps path ≡ some (pattern, param)
      → (rest : String) × (path ≡ literal pattern ++ rest)

-- The texts differ in a place that both have.
unfoldable pub clash : String → String → Bool
clash String.[] t = false
clash s String.[] = false
clash (String.◌∷◌ c s) (String.◌∷◌ d t) =
    let later = clash s t in if eqb (code c) (code d) then later else true

first_code : String → ℕ
first_code String.[] = 0
first_code (String.◌∷◌ c s) = code c

behind_first : String → String
behind_first String.[] = String.[]
behind_first (String.◌∷◌ c s) = s

pub clash-append : (s t u v : String) → clash s t ≡ true → s ++ u ≢ t ++ v
unfolding clash first_code behind_first
clash-append String.[] t u v e = absurd (ground (arith, e))
clash-append (String.◌∷◌ c s) String.[] u v e = absurd (ground (arith, e))
clash-append (String.◌∷◌ c s) (String.◌∷◌ d t) u v e = λ same.
    let exposed : Path String (String.◌∷◌ c (s ++ u)) (String.◌∷◌ d (t ++ v)) =
      sym (cons-append c s u) ∙ same ∙ cons-append d t v in
    let heads : code c ≡ code d = ap first_code exposed in
    clash-append s t u v (ground (arith, e, heads)) (ap behind_first exposed)

-- What holds of every registered pattern holds of those of a method.
pub In-patterns :
    {Raw Token : Type 0} (P : String → Type 0) (method pattern : String)
    (rs : List (Route Raw Token))
    → EachRoute (λ r. P r.pattern) rs
    → In pattern (patterns method rs)
    → P pattern
unfolding patterns
In-patterns P method pattern [] all m = elim m [ ]
In-patterns P method pattern (r ∷ rs) (first ⊗ later) m = elim (Bool-cases (r.method == method)) [
  | inr other ↦ In-patterns P method pattern rs later (rw (other, patterns) at m)
  | inl same ↦ elim (rw (same, patterns) at m) [
    | inl e ↦ subst P (sym e) first
    | inr back ↦ In-patterns P method pattern rs later back
  ]
]

module _ {Raw : Type 0} (jwt : Jwt) (read_token : String → jwt.Token) (auth : Service)
    (binder : Binder Raw) (env : Env) where
  -- Every pattern differs from the text before its first parameter.
  unfoldable pub all_clash : String → List (Route Raw jwt.Token) → Bool
  unfolding clash literal
  all_clash front [] = true
  all_clash front (r ∷ rs) = clash (literal r.pattern) front && all_clash front rs

  all_clash-EachRoute :
      (front : String) (rs : List (Route Raw jwt.Token))
      → all_clash front rs ≡ true
      → EachRoute (λ r. clash (literal r.pattern) front ≡ true) rs
  unfolding all_clash
  all_clash-EachRoute front [] e = none_left
  all_clash-EachRoute front (r ∷ rs) e =
      ground (arith, e) ⊗ all_clash-EachRoute front rs (ground (arith, e))

  -- A path that begins like no pattern is answered by gin.
  pub serve-unrouted :
      (tree : Tree) (front rest : String) (request : Request Raw) (s : Services)
      → IsTree tree
      → all_clash front (routes jwt read_token auth binder env) ≡ true
      → request.path ≡ front ++ rest
      → serve jwt read_token auth binder env tree request s ≡ (unrouted, s)
  unfolding serve
  serve-unrouted tree front rest request s law apart at =
      let rs = routes jwt read_token auth binder env in
      let ps = patterns request.method rs in
      elim (Option-cases (tree ps request.path)) [
        | inl e ↦ rw (e, serve) refl
        | inr ((pattern, param), e) ↦
            let differs : clash (literal pattern) front ≡ true =
              In-patterns (λ p. clash (literal p) front ≡ true) request.method pattern rs
                (all_clash-EachRoute front rs apart)
                (law.registered ps request.path pattern param e) in
            let (more, begun) = law.begins ps request.path pattern param e in
            absurd (clash-append (literal pattern) front more rest differs (sym begun ∙ at))
      ]

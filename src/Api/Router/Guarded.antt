-- ===== src/Api/Router/Guarded.antt =====
-- The routes behind `JWTMiddleware`.
use auth_imp.Base.{
  String, ◌≡◌, ◌⊎◌, inl, inr, refl, subst, Bool-cases, Option-cases, List, [], ◌∷◌, some, arith,
  ◌==◌, ◌&&◌, true, Bool,
}
use auth_imp.Errors.{Result-cases, panic}
use auth_imp.Auth.{Service, Jwt, validate_token}
use auth_imp.Uds.Handlers.{Services}
use auth_imp.Api.Http.{Answer, json, crash, Binder, Env}
use auth_imp.Api.Middleware.{Passed, allowed, denied, bearer, jwt_middleware}
use auth_imp.Api.Router.{
  Route, Request, Response, written, unrouted, Tree, patterns, route_at, recovered, routes, past,
  run, serve,
}
use auth_imp.Api.Router.Routes.{EachRoute, none_left, ◌⊗◌, route_at-EachRoute, route_at-found}

-- The two routes before which the middleware does not stand.
abbrev pub IsOpen : String → String → Type 0
IsOpen method pattern =
    ((method ≡ "GET") × (pattern ≡ "/health"))
    ⊎ ((method ≡ "POST") × (pattern ≡ "/api/v1/auth/login"))

module _ {Raw : Type 0} (jwt : Jwt) (read_token : String → jwt.Token) (auth : Service)
    (binder : Binder Raw) (env : Env) where
  open jwt use {Token}

  abbrev IsGuarded : Route Raw Token → Type 0
  IsGuarded r = (r.guarded ≡ true) ⊎ IsOpen r.method r.pattern

  all_guarded : List (Route Raw Token) → Bool
  all_guarded [] = true
  all_guarded (r ∷ rs) = r.guarded && all_guarded rs

  all_guarded-EachRoute :
      (rs : List (Route Raw Token)) → all_guarded rs ≡ true → EachRoute IsGuarded rs
  unfolding all_guarded
  all_guarded-EachRoute [] e = none_left
  all_guarded-EachRoute (r ∷ rs) e =
      inl (ground (arith, e)) ⊗ all_guarded-EachRoute rs (ground (arith, e))

  routes-IsGuarded : EachRoute IsGuarded (routes jwt read_token auth binder env)
  unfolding routes all_guarded
  routes-IsGuarded = inr (inl (refl, refl)) ⊗ inr (inr (refl, refl)) ⊗ all_guarded-EachRoute _ refl

  -- A request that the middleware answers.
  module _ (request : Request Raw) where
    abbrev IsRefusal : Answer Token → Type 0
    IsRefusal (json code _) = code ≡ 401
    IsRefusal crash =
        validate_token jwt auth env.call.now (read_token (bearer request.authorization)) ≡ panic

    abbrev Passes : Passed Token → Type 0
    Passes (allowed _) = Unit
    Passes (denied a) = IsRefusal a

    abbrev passed : Passed Token
    passed = jwt_middleware jwt read_token auth env.call.now request.authorization

    middleware-Passes : Passes passed
    unfolding jwt_middleware
    middleware-Passes =
        let token = bearer request.authorization in
        elim (Bool-cases (token == "")) [
          | inl blank ↦ rw (blank, jwt_middleware) refl
          | inr given ↦
              elim (Result-cases (validate_token jwt auth env.call.now (read_token token))) [
                | inl (claims, e) ↦ rw (given, jwt_middleware, e) tt
                | inr (inl (_, e)) ↦ rw (given, jwt_middleware, e) refl
                | inr (inr e) ↦ rw (given, jwt_middleware, e) e
              ]
        ]

    -- The response is 401, or 500 where the JWT library panics, and nothing has changed; or no route
    -- was found.
    abbrev pub IsTurnedAway : Services → Response Token × Services → Type 0
    IsTurnedAway s (written code _, t) =
        ((code ≡ 401)
          ⊎ ((code ≡ 500)
              × (validate_token jwt auth env.call.now (read_token (bearer request.authorization))
                  ≡ panic)))
        × (t ≡ s)
    IsTurnedAway s (unrouted, t) = t ≡ s

    recovered-IsTurnedAway :
        (s : Services) (a : Answer Token) → IsRefusal a → IsTurnedAway s (recovered (a, s))
    unfolding recovered
    recovered-IsTurnedAway s (json code _) h = (inl h, refl)
    recovered-IsTurnedAway s crash h = (inr (refl, h), refl)

    -- A request without a token that the middleware accepts is answered with 401, or with 500 where
    -- the JWT library panics, or by gin where no route is found, and changes nothing; unless what it
    -- asks for is `GET /health` or `POST /api/v1/auth/login`, as the tree of the routes has it.
    pub serve-IsTurnedAway :
        (a : Answer Token) (tree : Tree) (s : Services)
        → passed ≡ denied a
        → IsTurnedAway s (serve jwt read_token auth binder env tree request s)
          ⊎ ((pattern : String) × (param : String → String) × (tree
                  (patterns request.method (routes jwt read_token auth binder env))
                  request.path
                ≡ some (pattern, param))
              × IsOpen request.method pattern)
    unfolding serve run past
    serve-IsTurnedAway a tree s refused =
        let rs = routes jwt read_token auth binder env in
        elim (Option-cases (tree (patterns request.method rs) request.path)) [
          | inl e ↦ inl (rw (e, serve) refl)
          | inr ((pattern, param), e) ↦ elim (Option-cases (route_at request.method pattern rs)) [
            | inl f ↦ inl (rw (e, serve, f) refl)
            | inr (route, f) ↦
                elim (route_at-EachRoute request.method pattern rs routes-IsGuarded route f) [
                  | inl guarded ↦ inl (
                      rw (e, serve, f, run, guarded, refused, past)
                        (recovered-IsTurnedAway s a (subst Passes refused middleware-Passes)))
                  | inr is_open ↦ inr (
                    pattern,
                    param,
                    e,
                    (let found = route_at-found request.method pattern rs route f in
                        subst (λ m. IsOpen m pattern) found.0
                          (subst (λ p. IsOpen route.method p) found.1 is_open)),
                  )
                ]
          ]
        ]

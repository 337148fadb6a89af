-- ===== src/Tests/Client.antt =====
-- Commands of the client (cmd/idpctl).
use Prim.Native.Char.{code}
use Prim.Native.String.{String, ◌++◌}
use text.Mathlib.TextLemmas.{nil-append, cons-append}
use mathlib.Core.Logic.{◌≢◌}
use auth_imp.Base.{
  ◌≡◌, refl, sym, ap, ◌∙◌, inl, inr, false, none, some, List, [], ◌∷◌, Bool-cases, eqb, ◌==◌,
  eq_iff, arith, In, Option,
}
use auth_imp.Base.Int.{ℤ}
use auth_imp.Api.Router.{Request, serve, unrouted}
use auth_imp.Api.Router.Tree.{IsTree, literal}
use auth_imp.Api.Middleware.{bearer}
use auth_imp.Idpctl.{authorization, rest_call}
use auth_imp.Idpctl.Commands.{run, org_get, org_get_command}
use auth_imp.Idpctl.Directory.{serve-run}
use auth_imp.Idpctl.Tokens.{bearer-authorization}
use auth_imp.Tests.Rest.{Raw, binder, env, read_token, exact, services}
use auth_imp.Tests.Tokens.{plain_jwt, service}

abbrev unmarshal : String → Option String
unmarshal text = some text

abbrev set_entry : String → String → String → String
set_entry key value object = object

abbrev itoa : ℤ → String
itoa _ = "1"

some_text : ◌≢◌ {A = String} "t" ""
some_text = ground (arith, eq_iff "t" "")

bearer-authorization_example :
    (bearer (authorization "t") ≡ "t") × (bearer (authorization ("\"" ++ ("t" ++ "\""))) ≡ "t")
bearer-authorization_example = bearer-authorization "t" some_text refl

-- `exact` is a tree as gin's documentation has it.

literal-append : (p : String) → (rest : String) × (p ≡ literal p ++ rest)
unfolding literal
literal-append String.[] = (String.[], sym (nil-append String.[]))
literal-append (String.◌∷◌ c s) = elim (Bool-cases (eqb (code c) b':')) [
  | inl e ↦ rw e (String.◌∷◌ c s, sym (nil-append (String.◌∷◌ c s)))
  | inr e ↦
      let (rest, same) = literal-append s in
      rw e (rest, ap (λ t. String.◌∷◌ c t) same ∙ sym (cons-append c (literal s) rest))
]

pattern_of : Option (String × (String → String)) → String
pattern_of none = ""
pattern_of (some (pattern, param)) = pattern

exact-found :
    (ps : List String) (path pattern : String) (param : String → String)
    → exact ps path ≡ some (pattern, param)
    → In pattern ps × (pattern ≡ path)
unfolding exact pattern_of
exact-found [] path pattern param e = absurd (ground (arith, e))
exact-found (p ∷ ps) path pattern param e = elim (Bool-cases (p == path)) [
  | inl same ↦
      let first : p ≡ pattern = ap pattern_of (rw (same, exact) at e) in
      (inl (sym first), sym first ∙ (eq_iff p path).0 same)
  | inr apart ↦
      let (met, is) = exact-found ps path pattern param (rw (apart, exact) at e) in (inr met, is)
]

exact-IsTree : IsTree exact
exact-IsTree = record {
  registered = λ ps path pattern param e. (exact-found ps path pattern param e).0;
  begins = λ ps path pattern param e.
      let (rest, at) = literal-append pattern in
      (rest, sym (exact-found ps path pattern param e).1 ∙ at);
}

abbrev asked : Request Raw
asked = record {
  method = "GET";
  path = "/api/v1/directory/organizations/o1";
  authorization = "Bearer t";
  query = λ _. none;
  body = ("", "");
}

sent :
    run unmarshal set_entry itoa false (org_get_command "o1")
    ≡ rest_call "GET" "/api/v1/directory/organizations/o1" none
unfolding run org_get
sent = refl

serve-run_example :
    serve plain_jwt read_token service binder env exact asked services ≡ (unrouted, services)
serve-run_example =
    serve-run unmarshal set_entry itoa plain_jwt read_token service binder env exact (λ url. url)
      (org_get_command "o1") "GET" "/api/v1/directory/organizations/o1" none asked services
      exact-IsTree (λ rest. (rest, refl)) refl sent refl

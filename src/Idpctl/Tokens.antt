-- ===== src/Idpctl/Tokens.antt =====
-- The token of the client's flag, as the server reads it.
use Prim.Native.Char.{Char, code}
use Prim.Native.String.{String, ◌++◌}
use text.Mathlib.TextLemmas.{nil-append, cons-append, append-nil, cons-ne-nil}
use mathlib.Core.Logic.{◌≢◌}
use auth_imp.Base.{◌≡◌, refl, ap, ◌∙◌, sym, Bool, true, false, not, ◌&&◌, arith, ne→test}
use auth_imp.Api.Middleware.{bearer}
use auth_imp.Api.Session.{bearer_token}
use auth_imp.Idpctl.{is_quote, keep, trim_left, trim_right, trim, authorization}

-- No quote stands in the text.
abbrev pub no_quotes : String → Bool
no_quotes String.[] = true
no_quotes (String.◌∷◌ c s) = not (is_quote (code c)) && no_quotes s

abbrev quote : String
quote = "\""

keep-same :
    (c : Char) (s : String)
    → is_quote (code c) ≡ false
    → keep (String.◌∷◌ c String.[]) (code c) s ≡ String.◌∷◌ c s
keep-same c String.[] e = ground (arith, e)
keep-same c (String.◌∷◌ d s) e =
    cons-append c String.[] (String.◌∷◌ d s)
    ∙ ap (λ t. String.◌∷◌ c t) (nil-append (String.◌∷◌ d s))

trim_right-same : (t : String) → no_quotes t ≡ true → trim_right t ≡ t
unfolding trim_right
trim_right-same String.[] e = refl
trim_right-same (String.◌∷◌ c t) e =
    rw (trim_right-same t (ground (arith, e))) (keep-same c t (ground (arith, e)))

trim_right-quoted : (t : String) → no_quotes t ≡ true → trim_right (t ++ quote) ≡ t
unfolding trim_right
trim_right-quoted String.[] e = refl
trim_right-quoted (String.◌∷◌ c t) e =
    rw (cons-append c t quote, trim_right, trim_right-quoted t (ground (arith, e)))
      (keep-same c t (ground (arith, e)))

trim_left-same : (t rest : String) → t ≢ "" → no_quotes t ≡ true → trim_left (t ++ rest) ≡ t ++ rest
unfolding trim_left
trim_left-same String.[] rest given e = absurd (given refl)
trim_left-same (String.◌∷◌ c t) rest given e = rw (cons-append c t rest) (ground (arith, e))

trim-same : (t : String) → t ≢ "" → no_quotes t ≡ true → trim t ≡ t
unfolding trim
trim-same t given e =
    let left : trim_left t ≡ t = rw (append-nil t) at (trim_left-same t "" given e) in
    ap trim_right left ∙ trim_right-same t e

one-append : (c : Char) (x : String) → String.◌∷◌ c String.[] ++ x ≡ String.◌∷◌ c x
one-append c x = cons-append c "" x ∙ ap (λ t. String.◌∷◌ c t) (nil-append x)

append-ne-nil : (c : Char) (x : String) → String.◌∷◌ c String.[] ++ x ≢ ""
append-ne-nil c x =
    λ p. let nil : String.◌∷◌ c x ≡ "" = sym (one-append c x) ∙ p in cons-ne-nil c x nil

trim-quoted : (t : String) → t ≢ "" → no_quotes t ≡ true → trim (quote ++ (t ++ quote)) ≡ t
unfolding trim trim_left
trim-quoted t given e =
    ap trim_right (ap trim_left (one-append _ (t ++ quote)) ∙ trim_left-same t quote given e)
    ∙ trim_right-quoted t e

-- A token without a quote in it that is not empty is what the server takes from the client's header,
-- whether it was given to the client as it is or in the quotes of a JSON text.
pub bearer-authorization :
    (token : String)
    → token ≢ ""
    → no_quotes token ≡ true
    → (bearer (authorization token) ≡ token)
      × (bearer (authorization ("\"" ++ (token ++ "\""))) ≡ token)
unfolding authorization
bearer-authorization token given e =
    let quoted = quote ++ (token ++ quote) in
    let filled : quoted ≢ "" = append-ne-nil _ (token ++ quote) in
    let set : authorization quoted ≡ "Bearer " ++ token =
      rw (authorization, ne→test filled, trim-quoted token given e) refl in
    (
      rw (authorization, ne→test given, trim-same token given e) (bearer_token token given),
      ap bearer set ∙ bearer_token token given,
    )

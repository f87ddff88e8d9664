-- ===== src/Cors.antt =====
-- src/cors.rs: the compiled CORS policy. `max_age` is printed by `i64::to_string`.
pub mod Policy
mod Tests
use oxide_http.Prelude.{
  ℕ, suc, ℤ, to_string, Text, codes, text_eq, join, decimal, Option, none, some, List, [], ◌∷◌,
  ◌++◌, map, Bool, true, false, not, if◌then◌else◌, any,
}
use mathlib.Core.Option

pub record CorsOptions : Type 0 where
  pub origins : List Text
  pub methods : List Text
  pub allowed_headers : Option (List Text)
  pub exposed_headers : Option (List Text)
  pub credentials : Bool
  pub max_age : Option ℤ

pub record Cors : Type 0 where
  pub any_origin : Bool
  pub origins : List Text
  pub methods : Text
  pub allowed_headers : Option Text
  pub exposed_headers : Option Text
  pub credentials : Bool
  pub max_age : Option Text

abbrev pub star : Text
star = codes "*"

abbrev commas : List Text → Text
commas v = join (codes ", ") v

unfoldable pub new : CorsOptions → Cors
unfolding to_string
new o = record {
  any_origin = any (λ x. text_eq x star) o.origins;
  origins = o.origins;
  methods = commas o.methods;
  allowed_headers = Option.map commas o.allowed_headers;
  exposed_headers = Option.map commas o.exposed_headers;
  credentials = o.credentials;
  max_age = Option.map to_string o.max_age;
}

pub listed_origin : Cors → Option Text → Option Text
listed_origin c none = none
listed_origin c (some o) = if any (λ x. text_eq x o) c.origins then some o else none

unfoldable pub resolve_origin : Cors → Option Text → Option Text
unfolding listed_origin
resolve_origin c origin =
    if c.any_origin then (if c.credentials then none else some star) else listed_origin c origin

abbrev pub Headers : Type 0
Headers = List (Text × Text)

abbrev pub acao : Text
acao = codes "access-control-allow-origin"

abbrev pub acac : Text
acac = codes "access-control-allow-credentials"

-- A header that may be left out.
optional : Text → Option Text → Headers
optional name none = []
optional name (some v) = (name, v) ∷ []

when : Bool → Text → Text → Headers
when true name v = (name, v) ∷ []
when false name v = []

or_else : Option Text → Option Text → Option Text
or_else none b = b
or_else (some a) b = some a

preflight_headers : Cors → Option Text → Text → Headers
unfolding optional when or_else
preflight_headers c req_headers origin =
    (acao, origin)
    ∷ (codes "access-control-allow-methods", c.methods)
    ∷ (optional (codes "access-control-allow-headers") (or_else c.allowed_headers req_headers)
        ++ (optional (codes "access-control-max-age") c.max_age
            ++ (when c.credentials acac (codes "true")
                ++ when (not c.any_origin) (codes "vary") (codes "origin"))))

unfoldable pub preflight : Cors → Option Text → Option Text → Option Headers
unfolding resolve_origin preflight_headers
preflight c origin req_headers =
    Option.map (preflight_headers c req_headers) (resolve_origin c origin)

actual_headers : Cors → Text → Headers
unfolding optional when
actual_headers c origin =
    (acao, origin)
    ∷ (when c.credentials acac (codes "true")
        ++ (optional (codes "access-control-expose-headers") c.exposed_headers
            ++ when (not c.any_origin) (codes "vary") (codes "origin")))

unfoldable pub actual : Cors → Option Text → Headers
unfolding resolve_origin actual_headers
actual c origin = elim (resolve_origin c origin) [ none ↦ [] | some o ↦ actual_headers c o ]

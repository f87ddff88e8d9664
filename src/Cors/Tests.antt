-- ===== src/Cors/Tests.antt =====
-- src/cors.rs: policies on small inputs.
use oxide_http.Prelude.{Text, codes, none, some, [], ◌∷◌, true, ◌≡◌, refl, inl, text_eq}
use oxide_http.Cors.{CorsOptions, new, resolve_origin, actual, acac}
use oxide_http.Cors.Policy.{header, Trusted, credentials-Trusted}

abbrev site : Text
site = codes "https://a.example"

abbrev options : CorsOptions
options = record {
  origins = site ∷ [];
  methods = codes "GET" ∷ [];
  allowed_headers = none;
  exposed_headers = none;
  credentials = true;
  max_age = none;
}

answered : header acac (actual (new options) (some site)) ≡ some (codes "true")
unfolding header actual new resolve_origin text_eq
answered = refl

credentials_example : Trusted options (some site) (actual (new options) (some site))
credentials_example =
    credentials-Trusted options (some site) none (actual (new options) (some site)) (inl refl)
      answered

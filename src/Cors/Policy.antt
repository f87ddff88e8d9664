-- ===== src/Cors/Policy.antt =====
-- src/cors.rs: which origins are answered, and with what.
use oxide_http.Prelude.{
  Text, codes, text_eq, text_eq_iff, Option, none, some, List, [], ◌∷◌, true, false, ◌≡◌, ◌≢◌, refl,
  sym, ◌∙◌, ap, ◌⊎◌, ◌↔◌, inl, inr, Bool-cases, Option-cases, arith, any, Any, subst, if◌then◌else◌,
  unwrap_or,
}
use oxide_http.Cors.{
  CorsOptions, Cors, Headers, star, new, resolve_origin, listed_origin, acao, acac, preflight,
  actual,
}

-- The value of the first header of a name.
unfoldable pub header : Text → Headers → Option Text
header name [] = none
header name ((k, v) ∷ hs) = if text_eq k name then some v else header name hs

abbrev pub IsListed : Text → List Text → Type 0
IsListed o origins = Any (λ x. x ≡ o) origins

any-IsListed :
    (o : Text) (origins : List Text) → (any (λ x. text_eq x o) origins ≡ true) ↔ IsListed o origins
any-IsListed o [] = (λ h. cc, λ h. absurd h)
any-IsListed o (x ∷ xs) =
    let (to, from) = any-IsListed o xs in
    (
      λ h. elim (Bool-cases (text_eq x o)) [
        | inl same ↦ inl ((text_eq_iff x o).0 same)
        | inr other ↦ inr (to (ground arith))
      ],
      λ h. elim h [
        | inl e ↦ ground (arith, text_eq_iff x o)
        | inr later ↦ ground (arith, from later)
      ],
    )

not-any-IsListed :
    (o : Text) (origins : List Text) → any (λ x. text_eq x o) origins ≡ false → ¬ IsListed o origins
not-any-IsListed o origins h l = cc (h, (any-IsListed o origins).1 l)

-- The answer that a policy means to give: `*` for every origin unless cookies are allowed, or the
-- origin itself, if it is listed.
abbrev pub Allows : CorsOptions → Option Text → Text → Type 0
Allows o origin v =
    (IsListed star o.origins × (o.credentials ≡ false) × (v ≡ star))
    ⊎ ((¬ IsListed star o.origins) × (origin ≡ some v) × IsListed v o.origins)

resolve_origin-any :
    (o : CorsOptions) (origin : Option Text)
    → any (λ x. text_eq x star) o.origins ≡ true
    → resolve_origin (new o) origin ≡ (if o.credentials then none else some star)
unfolding resolve_origin new
resolve_origin-any o origin h = ground arith

resolve_origin-listed :
    (o : CorsOptions) (origin : Option Text)
    → any (λ x. text_eq x star) o.origins ≡ false
    → resolve_origin (new o) origin ≡ listed_origin (new o) origin
unfolding resolve_origin new
resolve_origin-listed o origin h = ground arith

listed_origin_iff :
    (o : CorsOptions) (origin : Option Text) (v : Text)
    → (listed_origin (new o) origin ≡ some v) ↔ ((origin ≡ some v) × IsListed v o.origins)
unfolding listed_origin new
listed_origin_iff o none v = (λ e. cc, λ p. cc (p.0))
listed_origin_iff o (some u) v = (
  λ e. elim (Bool-cases (any (λ x. text_eq x u) o.origins)) [
    | inl found ↦
        let same : u ≡ v = ground arith in
        (
          ap some same,
          subst (λ (w : Text). IsListed w o.origins) same ((any-IsListed u o.origins).0 found),
        )
    | inr missing ↦ cc (rw missing at e)
  ],
  λ p.
      let same : u ≡ v = cc (p.0) in
      rw ((any-IsListed u o.origins).1 (subst (λ (w : Text). IsListed w o.origins) (sym same) p.1))
        (ap some same),
)

-- An origin is answered exactly as the policy means to: `*` where every origin is allowed and
-- cookies are not, itself where it is listed, and otherwise not at all.
pub resolve_origin_iff :
    (o : CorsOptions) (origin : Option Text) (v : Text)
    → (resolve_origin (new o) origin ≡ some v) ↔ Allows o origin v
resolve_origin_iff o origin v = elim (Bool-cases (any (λ x. text_eq x star) o.origins)) [
  | inl every ↦
      let listed = (any-IsListed star o.origins).0 every in
      let answer = resolve_origin-any o origin every in
      (
        λ e. inl (listed, ground arith, ground arith),
        λ p. elim p [ inl q ↦ ground (arith, q.1, q.2) | inr q ↦ absurd (q.0 listed) ],
      )
  | inr some_only ↦
      let unlisted = not-any-IsListed star o.origins some_only in
      let answer = resolve_origin-listed o origin some_only in
      let (to, from) = listed_origin_iff o origin v in
      (
        λ e. inr (unlisted, (to (sym answer ∙ e)).0, (to (sym answer ∙ e)).1),
        λ p. elim p [ inl q ↦ absurd (unlisted q.0) | inr q ↦ answer ∙ from (q.1, q.2) ],
      )
]

header-acac :
    (c : Cors) (origin : Option Text) (req : Option Text)
    → (header acac (actual c origin) ≡ some (codes "true") → c.credentials ≡ true)
      × (header acac (unwrap_or (preflight c origin req) []) ≡ some (codes "true")
          → c.credentials ≡ true)
unfolding header actual preflight text_eq
header-acac c origin req = (λ e. ground arith, λ e. ground arith)

-- The allowed origin in the headers of an answer, and in those of a preflight's answer, is the
-- resolved origin, and it is absent exactly where none is resolved.
header-acao :
    (c : Cors) (origin req : Option Text)
    → (header acao (actual c origin) ≡ resolve_origin c origin)
      × (header acao (unwrap_or (preflight c origin req) []) ≡ resolve_origin c origin)
unfolding header actual preflight text_eq
header-acao c origin req = elim (Option-cases (resolve_origin c origin)) [
  | inl refused ↦ ground arith
  | inr (o, allowed) ↦ ground arith
]

-- A credentialed answer: cookies may be sent, and the reply read, by the origin that it names.
pub record Trusted (o : CorsOptions) (origin : Option Text) (answer : Headers) : Type 0 where
  pub who : Text
  pub asked : origin ≡ some who
  pub listed : IsListed who o.origins
  pub never_star : who ≢ star
  pub named : header acao answer ≡ some who

resolved-Trusted :
    (o : CorsOptions) (origin : Option Text) (answer : Headers) (v : Text)
    → o.credentials ≡ true
    → resolve_origin (new o) origin ≡ some v
    → header acao answer ≡ some v
    → Trusted o origin answer
resolved-Trusted o origin answer v cred allowed named =
    elim ((resolve_origin_iff o origin v).0 allowed) [
      | inl q ↦ cc (q.1, cred)
      | inr q ↦ record {
        who = v;
        asked = q.1;
        listed = q.2;
        never_star = λ e. q.0 (subst (λ (w : Text). IsListed w o.origins) e q.2);
        named = named;
      }
    ]

actual-nil :
    (c : Cors) (origin : Option Text) → resolve_origin c origin ≡ none → actual c origin ≡ []
unfolding actual
actual-nil c origin e = rw (e, actual) refl

preflight-none :
    (c : Cors) (origin req : Option Text)
    → resolve_origin c origin ≡ none
    → preflight c origin req ≡ none
unfolding preflight
preflight-none c origin req e = rw (e, preflight) refl

credentials-new : (o : CorsOptions) → (new o).credentials ≡ o.credentials
unfolding new
credentials-new o = refl

header-nil : (name : Text) → header name [] ≡ none
unfolding header
header-nil name = refl

-- Cookies are allowed only to an origin that the options list by name, in answers to a preflight
-- and in any other: never to `*`, nor to an origin that was merely reflected.
pub credentials-Trusted :
    (o : CorsOptions) (origin req : Option Text) (answer : Headers)
    → (answer ≡ actual (new o) origin) ⊎ (preflight (new o) origin req ≡ some answer)
    → header acac answer ≡ some (codes "true")
    → Trusted o origin answer
credentials-Trusted o origin req answer made e =
    let (cred, cred') = header-acac (new o) origin req in
    let (who, who') = header-acao (new o) origin req in
    elim (Option-cases (resolve_origin (new o) origin)) [
      | inl refused ↦ elim made [
        | inl p ↦ cc (e, p, actual-nil (new o) origin refused, header-nil acac)
        | inr p ↦ cc (p, preflight-none (new o) origin req refused)
      ]
      | inr (v, allowed) ↦ elim made [
        | inl p ↦
            resolved-Trusted o origin answer v
              (sym (credentials-new o) ∙ cred (ap (header acac) (sym p) ∙ e)) allowed
              (ap (header acao) p ∙ who ∙ allowed)
        | inr p ↦
            let same : unwrap_or (preflight (new o) origin req) [] ≡ answer =
              ap (λ (h : Option Headers). unwrap_or h []) p in
            resolved-Trusted o origin answer v
              (sym (credentials-new o) ∙ cred' (ap (header acac) same ∙ e)) allowed
              (ap (header acao) (sym same) ∙ who' ∙ allowed)
      ]
    ]

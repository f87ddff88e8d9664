-- ===== src/Server/Routing.antt =====
-- src/server.rs, `handle`, `handle_inner`, `route_and_dispatch` and `apply_cors`: what becomes of a
-- request before and after its dispatch. `replied` stands for an answer given here, `dispatched`
-- for a call of `dispatch`.
pub mod Answers
use oxide_http.Prelude.{
  ℕ, ℤ, negsuc, Text, codes, text_eq, to_uppercase, join, Option, none, some, List, [], ◌∷◌, ◌++◌,
  map, retain, Bool, true, false, not, ◌&&◌, ltb, if◌then◌else◌, is_some, is_empty, to_lowercase,
}
use oxide_http.Cors.{Cors, preflight, actual}
use oxide_http.Health.{Readiness, set_overloaded}
use oxide_http.Overload.{Limiter, should_shed}
use oxide_http.Router.{Matchit, Routes, Matched, match_route, allowed_methods}
use oxide_http.Server.{
  Http, ResBody, full, Response, status_text, builder_or_500, pairs_response, header_str,
  get_header, content_length, overloaded_response,
}

pub data Routed : Type 0 where
  dispatched : (leaf : ℤ) → (params : List (Text × Text)) → (head : Bool) → Routed
  not_found : Routed
  options : (allow : List Text) → Routed
  not_allowed : (allow : List Text) → Routed

-- A path under which the method has no route.
unmatched : Bool → Text → List Text → Routed
unmatched has_not_found method allowed =
    if is_empty allowed
    then (if has_not_found then dispatched (negsuc 0) [] false else not_found)
    else if text_eq method (codes "OPTIONS")
    then options allowed
    else not_allowed allowed

unfoldable pub route_and_dispatch :
    (matchit : Matchit) → Routes matchit → Bool → Text → Text → Routed
unfolding match_route allowed_methods unmatched
route_and_dispatch matchit r has_not_found method path =
    let rest : Routed = unmatched has_not_found method (allowed_methods matchit r path) in
    elim (match_route matchit r method path) [
      | some m ↦ dispatched m.leaf_id m.params false
      | none ↦
          if text_eq method (codes "HEAD")
          then elim (match_route matchit r (codes "GET") path) [
            | some m ↦ dispatched m.leaf_id m.params true
            | none ↦ rest
          ]
          else rest
    ]

module _ (http : Http) where
  allow_header : List Text → List (Text × Text)
  unfolding join
  allow_header allowed = (codes "allow", join (codes ", ") allowed) ∷ []

  -- The answers that `route_and_dispatch` gives itself, around those of `dispatch`.
  unfoldable pub respond_routed : (ℤ → List (Text × Text) → Bool → Response) → Routed → Response
  unfolding builder_or_500 allow_header
  respond_routed dispatch (dispatched leaf params head) = dispatch leaf params head
  respond_routed dispatch not_found = status_text 404 (codes "Not Found")
  respond_routed dispatch (options allowed) =
      builder_or_500 http (record { status = 204; headers = allow_header allowed; body = full [] })
  respond_routed dispatch (not_allowed allowed) = builder_or_500 http (record {
    status = 405;
    headers = allow_header allowed;
    body = full (codes "Method Not Allowed");
  })

  -- The headers of the policy that hyper accepts.
  unfoldable pub apply_cors : Option Cors → Option Text → Response → Response
  unfolding actual
  apply_cors none origin r = r
  apply_cors (some cors) origin r =
      let added : List (Text × Text) =
        retain (λ (h : Text × Text). http.valid_header h.0 h.1) (actual cors origin) in
      record r { headers = r.headers ++ map (λ h. (to_lowercase h.0, h.1)) added }

  abbrev pub is_preflight : Text → List (Text × Text) → Bool
  is_preflight method headers =
      text_eq method (codes "OPTIONS")
      && is_some (get_header (codes "access-control-request-method") headers)

  preflight_reply : Cors → Option Text → List (Text × Text) → Response
  unfolding preflight pairs_response header_str
  preflight_reply cors origin headers =
      elim (preflight cors origin
        (header_str http (codes "access-control-request-headers") headers)) [
          | some hs ↦ pairs_response http 204 hs
          | none ↦ status_text 403 (codes "Forbidden")
        ]

  abbrev pub over_limit : Option ℕ → Option ℕ → Bool
  over_limit (some limit) (some cl) = ltb limit cl
  over_limit limit cl = false

  -- `route_and_dispatch` as an action on a world, which holds all that a dispatch reads and changes:
  -- the body, the caches, the bridge and JS.
  abbrev pub Action : Type 0 → Type 0
  Action World = World → Response × World

  module _ {World : Type 0} (route_and_dispatch : Action World) where
    -- The rest of `handle_inner`: a declared length over the limit is refused unread.
    after_preflight : Option Cors → Option ℕ → Option Text → List (Text × Text) → Action World
    unfolding apply_cors content_length
    after_preflight cors body_limit origin headers w =
        if over_limit body_limit (content_length http headers)
        then (apply_cors cors origin (status_text 413 (codes "Payload Too Large")), w)
        else (let (response, w') = route_and_dispatch w in (apply_cors cors origin response, w'))

    unfoldable pub handle_inner : Option Cors → Option ℕ → Text → List (Text × Text) → Action World
    unfolding preflight_reply after_preflight header_str
    handle_inner none body_limit method headers w =
        after_preflight none body_limit (header_str http (codes "origin") headers) headers w
    handle_inner (some cors) body_limit method headers w =
        let origin : Option Text = header_str http (codes "origin") headers in
        if is_preflight method headers
        then (preflight_reply cors origin headers, w)
        else after_preflight (some cors) body_limit origin headers w

-- What `acquire` gave to a request.
pub data SlotResult : Type 0 where
  unlimited : SlotResult
  acquired : SlotResult
  refused : SlotResult

-- `handle`: a probe's answer, or the limiter's decision, with its effect on readiness.
unfoldable pub handle :
    Http → Option Response → SlotResult → ℕ → Limiter → Readiness → Response → Response × Readiness
unfolding overloaded_response set_overloaded should_shed
handle http (some probe) slot now limiter readiness response = (probe, readiness)
handle http none unlimited now limiter readiness response = (response, readiness)
handle http none acquired now limiter readiness response =
    (response, set_overloaded readiness false)
handle http none refused now limiter readiness response = (
  overloaded_response http limiter.retry_after,
  set_overloaded readiness (should_shed now limiter),
)

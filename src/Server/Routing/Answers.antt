-- ===== src/Server/Routing/Answers.antt =====
-- src/server.rs, `route_and_dispatch`: which paths are 404, and what a 405 offers.
use oxide_http.Prelude.{
  ℕ, Text, codes, text_eq, Option, none, some, List, [], ◌∷◌, Bool, true, false, is_some, ◌≡◌, refl,
  sym, ◌∙◌, arith, ◌↔◌, ◌⊎◌, inl, inr, Bool-cases, Option-cases,
}
use oxide_http.Router.Build.{build-DistinctTrees}
use oxide_http.Router.{
  RouteDef, build, built, Matchit, Routes, Matched, match_route, allowed_methods,
}
use oxide_http.Router.Allowed.{DistinctTrees, allowed_methods-nil_iff}
use oxide_http.Cors.{Cors}
use oxide_http.Server.{Http, content_length, header_str}
use oxide_http.Server.Routing.{
  Action, apply_cors, is_preflight, over_limit, handle_inner, Routed, dispatched, not_found,
  route_and_dispatch, unmatched,
}

module _ (matchit : Matchit) (r : Routes matchit) (has_not_found : Bool) (method path : Text) where
  abbrev answer : Routed
  answer = route_and_dispatch matchit r has_not_found method path

  direct :
      (m : Matched)
      → match_route matchit r method path ≡ some m
      → answer ≡ dispatched m.leaf_id m.params false
  unfolding route_and_dispatch
  direct m e = rw (e, route_and_dispatch) refl

  derived_head :
      (m : Matched)
      → match_route matchit r method path ≡ none
      → text_eq method (codes "HEAD") ≡ true
      → match_route matchit r (codes "GET") path ≡ some m
      → answer ≡ dispatched m.leaf_id m.params true
  unfolding route_and_dispatch
  derived_head m e h g = rw (e, h, g, route_and_dispatch) refl

  left_over :
      match_route matchit r method path ≡ none
      → (text_eq method (codes "HEAD") ≡ false) ⊎ (match_route matchit r (codes "GET") path ≡ none)
      → answer ≡ unmatched has_not_found method (allowed_methods matchit r path)
  unfolding route_and_dispatch
  left_over e (inl other) = rw (e, other, route_and_dispatch) refl
  left_over e (inr missing) = elim (Bool-cases (text_eq method (codes "HEAD"))) [
    | inl h ↦ rw (e, h, missing, route_and_dispatch) refl
    | inr other ↦ rw (e, other, route_and_dispatch) refl
  ]

  unmatched-not_found :
      (allowed : List Text)
      → (unmatched has_not_found method allowed ≡ not_found)
        ↔ ((has_not_found ≡ false) × (allowed ≡ []))
  unfolding unmatched
  unmatched-not_found [] = (λ e. (ground arith, refl), λ p. ground (arith, p.0))
  unmatched-not_found (m ∷ ms) = (λ e. absurd (ground arith), λ p. cc (p.1))

  not_found_distinct :
      DistinctTrees matchit r.by_method
      → (route_and_dispatch matchit r has_not_found method path ≡ not_found)
        ↔ ((has_not_found ≡ false) × ((m : Text) → match_route matchit r m path ≡ none))
  not_found_distinct d = (
    λ e. elim (Option-cases (match_route matchit r method path)) [
      | inr (m, found) ↦ cc (direct m found, e)
      | inl missing ↦ elim (Bool-cases (text_eq method (codes "HEAD"))) [
        | inr other ↦ conclude (sym (left_over missing (inl other)) ∙ e)
        | inl h ↦ elim (Option-cases (match_route matchit r (codes "GET") path)) [
          | inr (m, found) ↦ cc (derived_head m missing h found, e)
          | inl nothing ↦ conclude (sym (left_over missing (inr nothing)) ∙ e)
        ]
      ]
    ],
    λ p.
        left_over (p.1 method) (inr (p.1 (codes "GET")))
        ∙ (unmatched-not_found (allowed_methods matchit r path)).1
            (p.0, (allowed_methods-nil_iff matchit r path d).1 p.1),
  )
    where
      conclude :
          unmatched has_not_found method (allowed_methods matchit r path) ≡ not_found
          → (has_not_found ≡ false) × ((m : Text) → match_route matchit r m path ≡ none)
      conclude e =
          let (unset, nil) = (unmatched-not_found (allowed_methods matchit r path)).0 e in
          (unset, (allowed_methods-nil_iff matchit r path d).0 nil)

  -- With the routes of a build: a request is answered 404 exactly when no handler for unknown paths
  -- is set and its path is routed under no method at all.
  pub not_found_iff :
      (defs : List RouteDef)
      → build matchit defs ≡ built r
      → (route_and_dispatch matchit r has_not_found method path ≡ not_found)
        ↔ ((has_not_found ≡ false) × ((m : Text) → match_route matchit r m path ≡ none))
  not_found_iff defs made = not_found_distinct (build-DistinctTrees matchit defs r made)

module _ (http : Http) (body_limit : Option ℕ) (method : Text) (headers : List (Text × Text)) where
  -- A request that is answered at the edge: a preflight where a policy is set, or one whose declared
  -- length is over the limit.
  abbrev pub AtEdge : Option Cors → Type 0
  AtEdge cors =
      ((is_some cors ≡ true) × (is_preflight http method headers ≡ true))
      ⊎ (over_limit http body_limit (content_length http headers) ≡ true)

  -- At the edge the world stays as it is and the answer is one for all actions; and elsewhere the
  -- action runs once, and its answer gets the policy's headers.
  abbrev pub Edged :
      {World : Type 0} → Option Cors → (act other : Action http World) → World → Type 0
  Edged cors act other w =
      (AtEdge cors
        × ((handle_inner http act cors body_limit method headers w).1 ≡ w)
        × ((handle_inner http act cors body_limit method headers w).0
            ≡ (handle_inner http other cors body_limit method headers w).0))
      ⊎ (¬ (AtEdge cors)
          × (handle_inner http act cors body_limit method headers w ≡ (
            apply_cors http cors (header_str http (codes "origin") headers) (act w).0,
            (act w).1,
          )))

-- ===== src/Config/Collisions/Probes.antt =====
-- src/lib.rs and src/server.rs: once `listen` has checked the paths, what the probes answer is not
-- taken from a route.
use oxide_http.Prelude.{
  Text, codes, text_eq_iff, none, some, List, true, is_empty, Bool-cases, Option-cases, ◌≡◌, refl,
  ◌↔◌, ◌⊎◌, inl, inr, arith, ok,
}
use oxide_http.Prelude.Results.{step_ok}
use oxide_http.Health.{HealthPaths, Readiness}
use oxide_http.Router.{Matchit, RouteDef, Routes, match_route}
use oxide_http.Server.{Http, Response, admin_response, serves}
use oxide_http.Config.Collisions.{claimed_by, check_endpoint, check_paths, check_collisions}

module _ (matchit : Matchit) (routes : Routes matchit) (defs : List RouteDef) where
  -- No route is reached under a path by a method that the probes answer.
  abbrev pub Unclaimed : Text → Type 0
  Unclaimed path =
      (match_route matchit routes (codes "GET") path ≡ none)
      × (match_route matchit routes (codes "HEAD") path ≡ none)

  -- A path that is switched off, or free of routes.
  abbrev pub Free : Text → Type 0
  Free path = (is_empty path ≡ true) ⊎ Unclaimed path

  claimed_by-none : (path : Text) → (claimed_by matchit routes path ≡ none) ↔ Unclaimed path
  unfolding claimed_by
  claimed_by-none path = elim (Option-cases (match_route matchit routes (codes "GET") path)) [
    | inl free ↦ (λ e. (free, rw (free, claimed_by) at e), λ h. rw (h.0, claimed_by) h.1)
    | inr (m, taken) ↦ (λ e. cc (rw (taken, claimed_by) at e), λ h. cc (h.0, taken))
  ]

  check_endpoint_iff :
      (name path : Text) → (check_endpoint matchit routes defs name path ≡ ok tt) ↔ Free path
  unfolding check_endpoint
  check_endpoint_iff name path = elim (Bool-cases (is_empty path)) [
    | inl off ↦ (λ e. inl off, λ h. rw off refl)
    | inr on ↦ elim (Option-cases (claimed_by matchit routes path)) [
      | inl free ↦ (λ e. inr ((claimed_by-none path).0 free), λ h. rw (on, free) refl)
      | inr (m, taken) ↦ (
        λ e. cc (rw (on, taken) at e),
        λ h. elim h [ inl off ↦ cc (off, on) | inr u ↦ cc ((claimed_by-none path).1 u, taken) ],
      )
    ]
  ]

  check_collisions_sound :
      (p : HealthPaths)
      → check_collisions matchit routes defs none p ≡ ok tt
      → Free p.health × Free p.ready × Free p.metrics
  unfolding check_collisions check_paths
  check_collisions_sound p e =
      let (u, e1, r1) =
        step_ok (check_endpoint matchit routes defs (codes "health") p.health) _ e in
      let (v, e2, r2) =
        step_ok (check_endpoint matchit routes defs (codes "readiness") p.ready) _ r1 in
      (
        (check_endpoint_iff (codes "health") p.health).0 e1,
        (check_endpoint_iff (codes "readiness") p.ready).0 e2,
        (check_endpoint_iff (codes "metrics") p.metrics).0 r2,
      )

  check_collisions_complete :
      (p : HealthPaths)
      → Free p.health
      → Free p.ready
      → Free p.metrics
      → check_collisions matchit routes defs none p ≡ ok tt
  unfolding check_collisions check_paths
  check_collisions_complete p h r m =
      rw
        (
          (check_endpoint_iff (codes "health") p.health).1 h,
          (check_endpoint_iff (codes "readiness") p.ready).1 r,
        )
        ((check_endpoint_iff (codes "metrics") p.metrics).1 m)

  -- Without an admin port, `listen` accepts the probes' paths exactly when each is switched off or
  -- has no route under GET and HEAD.
  pub check_collisions_iff :
      (p : HealthPaths)
      → (check_collisions matchit routes defs none p ≡ ok tt)
        ↔ (Free p.health × Free p.ready × Free p.metrics)
  check_collisions_iff p = (check_collisions_sound p, λ h. check_collisions_complete p h.0 h.1 h.2)

  module _ (http : Http) where
    serves-Unclaimed :
        (endpoint path : Text) → serves http endpoint path ≡ true → Free endpoint → Unclaimed path
    serves-Unclaimed endpoint path s (inl off) = cc (rw off at s)
    serves-Unclaimed endpoint path s (inr u) =
        let same : path ≡ endpoint = (text_eq_iff path endpoint).0 (ground arith) in rw same u

    admin_response-serves :
        (p : HealthPaths) (readiness : Readiness) (metrics_text method path : Text) (r : Response)
        → admin_response http p readiness metrics_text method path ≡ some r
        → (serves http p.health path ≡ true)
          ⊎ (serves http p.ready path ≡ true)
          ⊎ (serves http p.metrics path ≡ true)
    unfolding admin_response
    admin_response-serves p readiness metrics_text method path r e = ground arith

    -- Once `listen` has accepted the probes' paths of a server without an admin port, no request
    -- that a probe answers could have reached a route by GET or HEAD.
    pub probe_unrouted :
        (p : HealthPaths) (readiness : Readiness) (metrics_text method path : Text) (r : Response)
        → check_collisions matchit routes defs none p ≡ ok tt
        → admin_response http p readiness metrics_text method path ≡ some r
        → (match_route matchit routes (codes "GET") path ≡ none)
          × (match_route matchit routes (codes "HEAD") path ≡ none)
    probe_unrouted p readiness metrics_text method path r accepted e =
        let (health, ready, metrics) = check_collisions_sound p accepted in
        elim (admin_response-serves p readiness metrics_text method path r e) [
          | inl s ↦ serves-Unclaimed p.health path s health
          | inr (inl s) ↦ serves-Unclaimed p.ready path s ready
          | inr (inr s) ↦ serves-Unclaimed p.metrics path s metrics
        ]

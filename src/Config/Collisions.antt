-- ===== src/Config/Collisions.antt =====
-- src/lib.rs, `listen`: no route may lie under a probe of the main port.
pub mod Probes
use oxide_http.Prelude.{
  ℕ, ℤ, pos, negsuc, Text, codes, text_eq, Option, none, some, List, [], ◌∷◌, ◌++◌, Bool, true,
  false, not, ◌&&◌, if◌then◌else◌, is_empty, get_elem?, Result, ok, err,
}
use oxide_http.Prelude.Results.{◌>>◌}
use oxide_http.Health.{HealthPaths}
use oxide_http.Router.{Matchit, RouteDef, Routes, Matched, match_route}

-- `usize::try_from` of the id.
index_of : ℤ → Option ℕ
index_of (pos n) = some n
index_of (negsuc n) = none

route_at : List RouteDef → Option ℕ → Option RouteDef
route_at defs none = none
route_at defs (some i) = get_elem? defs i

route_name : List RouteDef → ℤ → Text
unfolding index_of route_at
route_name defs id = elim (route_at defs (index_of id)) [
  | some r ↦ codes "route " ++ (r.method ++ (codes " " ++ r.path))
  | none ↦ codes "a route"
]

collision_error : List RouteDef → ℤ → Text → Text → Text
unfolding route_name
collision_error defs leaf_id name endpoint =
    route_name defs leaf_id
    ++ (codes " collides with the "
        ++ (name
            ++ (codes " endpoint ("
                ++ (endpoint
                    ++ codes
                        "): the probe is answered before routing, so the route would never run. Rename the route, disable the endpoint with an empty path, or move probes to a separate port via health.port"))))

module _ (matchit : Matchit) where
  -- The route that GET, or else HEAD, would reach.
  unfoldable pub claimed_by : Routes matchit → Text → Option Matched
  unfolding match_route
  claimed_by routes endpoint = elim (match_route matchit routes (codes "GET") endpoint) [
    | some m ↦ some m
    | none ↦ match_route matchit routes (codes "HEAD") endpoint
  ]

  unfoldable pub check_endpoint : Routes matchit → List RouteDef → Text → Text → Result (Unit {0})
  unfolding claimed_by collision_error
  check_endpoint routes defs name endpoint =
      if is_empty endpoint then ok tt else elim (claimed_by routes endpoint) [
        | some m ↦ err (collision_error defs m.leaf_id name endpoint)
        | none ↦ ok tt
      ]

  check_paths : Routes matchit → List RouteDef → HealthPaths → Result (Unit {0})
  unfolding check_endpoint
  check_paths routes defs p = do
    check_endpoint routes defs (codes "health") p.health
    check_endpoint routes defs (codes "readiness") p.ready
    check_endpoint routes defs (codes "metrics") p.metrics

  -- With an admin port, the probes are on a socket of their own.
  unfoldable pub check_collisions :
      Routes matchit → List RouteDef → Option ℕ → HealthPaths → Result (Unit {0})
  unfolding check_paths
  check_collisions routes defs (some port) p = ok tt
  check_collisions routes defs none p = check_paths routes defs p

-- ===== src/Lifecycle/Configured.antt =====
-- src/lib.rs, `listen`: what holds of a server that has come up.
use oxide_http.Prelude.{ℕ, pos, ◌<◌, Option, none, some, [], get_or, All, ◌≡◌, unwrap_or}
use oxide_http.Bridge.{Bridge}
use oxide_http.Bridge
use oxide_http.Health.{default}
use oxide_http.Overload.{Limiter}
use oxide_http.Overload
use oxide_http.Router
use oxide_http.Router.{Routes}
use oxide_http.Router.Allowed.{DistinctTrees}
use oxide_http.Config.Limits.{IsTimed, ReadAs}
use oxide_http.Config.Leaves.Checked.{RouteOk, CacheOk}
use oxide_http.Config.Collisions.Probes.{Free}
use oxide_http.Lifecycle.{System, Listen, Shared, limiter}

-- A limiter has a slot to give.
abbrev pub LimiterOk : Option Limiter → Type 0
LimiterOk none = Unit
LimiterOk (some l) = 0 < l.permits

module _ (sys : System) where
  -- On the main port, a probe that is on has no route; with an admin port there is nothing to check.
  abbrev pub ProbesOk : Shared sys → Option ℕ → Type 0
  ProbesOk s (some port) = Unit
  ProbesOk s none =
      Free sys.matchit s.routes [] s.tuning.health_paths.health
      × Free sys.matchit s.routes [] s.tuning.health_paths.ready
      × Free sys.matchit s.routes [] s.tuning.health_paths.metrics

  pub record IsConfigured (l : Listen) (s : Shared sys) (delay : ℕ) : Type 0 where
    pub routes_ok : All RouteOk l.routes
    pub caches : (i : ℕ) → CacheOk (get_or s.cache i none)
    pub trees : DistinctTrees sys.matchit s.routes.by_method
    pub timed : IsTimed sys.tls l.options s.tuning
    pub queue_wait : unwrap_or l.options.queue_timeout (pos 1000) ≡ pos s.queue_timeout
    pub shed :
        (after : Option ℕ) × ReadAs l.options.overload_shed_after (pos 0) after
        × (s.overload ≡ limiter l.options after)
    pub pause : unwrap_or l.options.pre_shutdown_delay (pos 0) ≡ pos delay
    pub probes : ProbesOk s l.options.admin_port
    pub slots : LimiterOk s.overload
    pub idle : s.bridge ≡ Bridge.new
    pub ready : s.readiness ≡ default

-- ===== src/Lifecycle.antt =====
-- src/lib.rs, `listen`: a server from its options. Sockets, the runtime, the doorbell, the acceptor of
-- TLS and the number of workers that the machine allows are parameters; each may fail. What
-- `listen` shares with the connections and the later calls is one object, here a cell of a store.
pub mod Configured
pub mod Calls
pub mod Steps
pub mod Draining
pub mod Closing
pub mod Attached
pub mod Relisten
mod Tests
use oxide_http.Prelude.{
  ℕ, ℤ, pos, ◌+◌, as_u64, Text, codes, decimal, Option, none, some, List, [], ◌∷◌, ◌++◌, map, Bool,
  true, false, if◌then◌else◌, is_positive, keep_if, unwrap_or, length, Result, ok, err,
}
use oxide_http.Prelude.Results.{◌>>=◌, ◌>>◌}
use mathlib.Core.Option
use oxide_http.Bridge.{Bridge}
use oxide_http.Bridge
use oxide_http.Cache.{LeafCache}
use oxide_http.Cors.{Cors}
use oxide_http.Cors
use oxide_http.Health.{Readiness, default}
use oxide_http.Metrics.{Metrics}
use oxide_http.Metrics
use oxide_http.Multipart.{MultipartConfig}
use oxide_http.Overload.{Limiter}
use oxide_http.Overload
use oxide_http.Router.{Matchit, Routes, Built, built, build_error, build}
use oxide_http.Schema.{JsonSchema, LeafSchema}
use oxide_http.Config.{
  RouteDef, ListenOptions, timeout_ms, delay_ms, positive_usize, u64_of, default_queue_timeout_ms,
}
use oxide_http.Config.Leaves.{Slots, compile_routes, schemas_of}
use oxide_http.Config.Tune.{SocketOptions, Tls, Tuning, tune}
use oxide_http.Config.Collisions.{check_collisions}

pub record System : Type 1 where
  pub json : JsonSchema
  pub matchit : Matchit
  pub tls : Tls
  pub doorbell : Result (Unit {0})
  pub bind_unix : Text → Result (Unit {0})
  pub bind_tcp : Text → ℕ → SocketOptions → Result (Unit {0})
  pub worker_threads_auto : ℕ
  pub build_runtime : ℕ → Result (Unit {0})

-- `map_err` of a message in front.
abbrev named {ℓ} : {A : Type ℓ} → Text → Result A → Result A
named what (ok a) = ok a
named what (err e) = err (what ++ (codes ": " ++ e))

abbrev from_built {ℓ} : {A : Type ℓ} → Built A → Result A
from_built (built a) = ok a
from_built (build_error e) = err e

unfoldable pub limiter : ListenOptions → Option ℕ → Option Limiter
unfolding positive_usize Overload.new
limiter o shed_after =
    Option.map
      (λ limit.
        Overload.new limit (unwrap_or (positive_usize o.max_queue) 0)
          (unwrap_or (positive_usize o.retry_after) 1) shed_after)
      (positive_usize o.max_concurrent_requests)

-- The number of workers: the option, or what the machine allows.
unfoldable pub workers : ListenOptions → ℕ → ℕ
unfolding positive_usize
workers o auto = unwrap_or (positive_usize o.worker_threads) auto

-- The arguments of `listen`.
pub record Listen : Type 0 where
  pub port : ℕ
  pub host : Text
  pub routes : List RouteDef
  pub has_not_found : Bool
  pub options : ListenOptions

module _ (sys : System) where
  pub record Shared : Type 0 where
    pub bridge : Bridge
    pub routes : Routes sys.matchit
    pub has_not_found : Bool
    pub custom_ip_headers : List Text
    pub custom_country_headers : List Text
    pub request_id_header : Text
    pub body_limit : Option ℕ
    pub cors : Option Cors
    pub schemas : List (LeafSchema sys.json)
    pub multipart : List (Option MultipartConfig)
    pub cache : List (Option LeafCache)
    pub tuning : Tuning sys.tls
    pub metrics : Metrics
    pub readiness : Readiness
    pub overload : Option Limiter
    pub queue_timeout : ℕ

  -- A Unix socket is taken in place of the port.
  bind_main : Listen → SocketOptions → Option Text → Result (Unit {0})
  unfolding decimal
  bind_main l socket (some path) = named (codes "bind unix " ++ path) (sys.bind_unix path)
  bind_main l socket none =
      named (codes "bind " ++ (l.host ++ (codes ":" ++ decimal l.port)))
        (sys.bind_tcp l.host l.port socket)

  bind_admin : Listen → SocketOptions → Option ℕ → Result (Unit {0})
  unfolding decimal
  bind_admin l socket none = ok tt
  bind_admin l socket (some p) =
      named (codes "bind admin " ++ (l.host ++ (codes ":" ++ decimal p)))
        (sys.bind_tcp l.host p socket)

  abbrev pub shared_of :
      Listen
      → Slots sys.json
      → Routes sys.matchit
      → Tuning sys.tls
      → (queue_timeout : ℕ) → (shed_after : Option ℕ) → Shared
  shared_of l slots routes tuning queue_timeout shed_after = record {
    bridge = Bridge.new;
    routes = routes;
    has_not_found = l.has_not_found;
    custom_ip_headers = unwrap_or l.options.custom_ip_headers [];
    custom_country_headers = unwrap_or l.options.custom_country_headers [];
    request_id_header = unwrap_or l.options.request_id_header (codes "x-request-id");
    body_limit = u64_of l.options.body_limit;
    cors = Option.map Cors.new l.options.cors;
    schemas = schemas_of sys.json slots;
    multipart = slots.multipart;
    cache = slots.cache;
    tuning = tuning;
    metrics = Metrics.new;
    readiness = default;
    overload = limiter l.options shed_after;
    queue_timeout = queue_timeout;
  }

  -- All of `listen` between its first check and the start of the accept loop: the shared object, and
  -- the delay before the listener closes.
  unfoldable pub prepare : Listen → Result (Shared × ℕ)
  unfolding compile_routes schemas_of tune check_collisions bind_main bind_admin workers build
      limiter
  prepare l = do
    slots ← compile_routes sys.json l.routes
    routes ← from_built (build sys.matchit slots.defs)
    sys.doorbell
    tuning ← tune sys.tls l.options
    check_collisions sys.matchit routes slots.defs tuning.admin_port tuning.health_paths
    bind_main l tuning.socket l.options.unix_path
    bind_admin l tuning.socket tuning.admin_port
    sys.build_runtime (workers l.options sys.worker_threads_auto)
    queue_timeout ← delay_ms (codes "queueTimeout") l.options.queue_timeout default_queue_timeout_ms
    shed_after ← timeout_ms (codes "overloadShedAfter") l.options.overload_shed_after (pos 0)
    pre_shutdown_delay ← delay_ms (codes "preShutdownDelay") l.options.pre_shutdown_delay (pos 0)
    ok (shared_of l slots routes tuning queue_timeout shed_after, pre_shutdown_delay)

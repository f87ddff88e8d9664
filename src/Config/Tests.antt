-- ===== src/Config/Tests.antt =====
-- src/lib.rs: small options.
use oxide_http.Prelude.{
  pos, negsuc, codes, text_eq, to_uppercase, to_lowercase, none, some, [], ◌∷◌, true, ◌≡◌, refl, ok,
  err,
}
use oxide_http.Cache.Valid.{IsValid, run, clear}
use oxide_http.Cache.{LeafCache}
use oxide_http.Health.{HealthPaths, default}
use oxide_http.Router.{Routes, match_route}
use oxide_http.Server.{Http, Response, full, admin_response}
use oxide_http.Samples.{json, exact, tls, options, cached}
use oxide_http.Config.{u32_of, timeout_ms}
use oxide_http.Config.Leaves.{Slots, compile_routes}
use oxide_http.Config.Leaves.Compiled.{compile_routes-IsValid}
use oxide_http.Config.Tune.{Tuning, tuned, tune}
use oxide_http.Config.Collisions.{check_collisions}
use oxide_http.Config.Collisions.Probes.{probe_unrouted}

-- A typo is an error, and 0 is off.
refuses_negative :
    timeout_ms (codes "t") (some (negsuc 4)) (pos 30)
    ≡ err (codes "t: must be >= 0 (0 disables it), got -5")
unfolding timeout_ms
refuses_negative = refl

-- The count of files is cut to 32 bits: 2 ^ 32 files are none.
wraps_files : u32_of (some (pos 4294967296)) ≡ some 0
unfolding u32_of
wraps_files = refl

abbrev tuning : Tuning tls
tuning = tuned tls options none 10000 (some 30000) (some 30000) none (some 10000)

tunes : tune tls options ≡ ok tuning
unfolding tune
tunes = refl

abbrev leaf_cache : LeafCache
leaf_cache = record {
  config = record { ttl = 1000; vary = []; max_entries = 1024; max_body_bytes = 1048576 };
  store = [];
}

abbrev slots : Slots json
slots = record {
  schemas = some (record { body = none; query = none; params = none }) ∷ [];
  multipart = none ∷ [];
  cache = some leaf_cache ∷ [];
  defs = record { method = codes "get"; path = codes "/a"; leaf_id = pos 0 } ∷ [];
}

compiles : compile_routes json (cached ∷ []) ≡ ok slots
unfolding compile_routes to_uppercase text_eq
compiles = refl

cache_kept_example :
    IsValid (codes "x-request-id") (run (codes "x-request-id") leaf_cache (clear none ∷ []))
cache_kept_example =
    compile_routes-IsValid json (cached ∷ []) slots 0 leaf_cache (codes "x-request-id")
      (clear none ∷ []) compiles refl

abbrev routes : Routes exact
routes = record { by_method = (codes "GET", (codes "/a", pos 0) ∷ []) ∷ []; all = none }

abbrev paths : HealthPaths
paths = record { health = codes "/healthz"; ready = codes "/readyz"; metrics = [] }

free : check_collisions exact routes slots.defs none paths ≡ ok tt
unfolding check_collisions text_eq match_route
free = refl

abbrev http : Http
http = record { to_str = λ v. some v; valid_header = λ k v. true }

abbrev ready_reply : Response
ready_reply = record {
  status = 200;
  headers =
      (codes "content-type", codes "text/plain; charset=utf-8")
      ∷ (codes "cache-control", codes "no-store")
      ∷ [];
  body = full (codes "ready");
}

probed : admin_response http paths default [] (codes "GET") (codes "/readyz") ≡ some ready_reply
unfolding admin_response text_eq to_lowercase
probed = refl

probe_example :
    (match_route exact routes (codes "GET") (codes "/readyz") ≡ none)
    × (match_route exact routes (codes "HEAD") (codes "/readyz") ≡ none)
probe_example =
    probe_unrouted exact routes slots.defs http paths default [] (codes "GET") (codes "/readyz")
      ready_reply free probed

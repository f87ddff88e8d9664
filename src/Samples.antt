-- ===== src/Samples.antt =====
-- A small server to run the code of src/lib.rs on: a tree of exact paths, a validator that accepts
-- every text, and sockets that always bind.
use oxide_http.Prelude.{
  ℤ, pos, Text, codes, text_eq, Option, none, some, List, [], ◌∷◌, Bool, true, false, if◌then◌else◌,
  is_some, ok,
}
use oxide_http.Config.{RouteDef, ListenOptions}
use oxide_http.Config.Tune.{Tls}
use oxide_http.Lifecycle.{System, Listen}
use oxide_http.Router.{Matchit}
use oxide_http.Schema.{Value, string, JsonSchema}

abbrev pub Exact : Type 0
Exact = List (Text × ℤ)

abbrev pub find_exact : Exact → Text → Option (ℤ × List (Text × Text))
find_exact [] path = none
find_exact ((p, leaf) ∷ t) path =
    let rest = find_exact t path in if text_eq p path then some (leaf, []) else rest

abbrev pub exact : Matchit
exact = record {
  Tree = Exact;
  empty = [];
  insert_route = λ t p leaf. if is_some (find_exact t p) then none else some ((p, leaf) ∷ t);
  error_text = λ t p leaf. codes "conflict";
  at = find_exact;
}

abbrev pub text_of : Value → Text
text_of (string s) = s
text_of v = []

abbrev pub json : JsonSchema
json = record {
  Validator = Bool;
  from_str = λ s. ok (string s);
  print = text_of;
  validator_for = λ v. ok true;
  iter_errors = λ schema v. [];
  parse_f64 = λ s. none;
}

abbrev pub tls : Tls
tls = record { Acceptor = Text; build_acceptor = λ cert key. ok cert }

abbrev pub sys : System
sys = record {
  json = json;
  matchit = exact;
  tls = tls;
  doorbell = ok tt;
  bind_unix = λ path. ok tt;
  bind_tcp = λ host port socket. ok tt;
  worker_threads_auto = 4;
  build_runtime = λ workers. ok tt;
}

abbrev pub options : ListenOptions
options = record {
  custom_ip_headers = none;
  custom_country_headers = none;
  request_id_header = none;
  body_limit = some (pos 1000);
  cors = none;
  tls = none;
  h2c = none;
  header_read_timeout = none;
  body_read_timeout = none;
  idle_timeout = some (pos 0);
  handshake_timeout = none;
  max_headers = none;
  max_header_size = none;
  shutdown_timeout = none;
  pre_shutdown_delay = some (pos 50);
  unix_path = none;
  backlog = none;
  reuse_port = none;
  no_delay = none;
  max_connections = some (pos 2);
  proxy_protocol = none;
  worker_threads = none;
  health_path = none;
  ready_path = none;
  metrics_path = none;
  admin_port = none;
  access_log = none;
  max_concurrent_requests = some (pos 8);
  max_queue = none;
  queue_timeout = none;
  retry_after = none;
  overload_shed_after = none;
  http2 = none;
}

abbrev pub cached : RouteDef
cached = record {
  method = codes "get";
  path = codes "/a";
  leaf_id = pos 0;
  body_schema = none;
  query_schema = none;
  params_schema = none;
  multipart = none;
  cache =
      some (record { ttl_ms = pos 1000; vary = none; max_entries = none; max_body_bytes = none });
}

abbrev pub app : Listen
app = record {
  port = 3000;
  host = codes "::";
  routes = cached ∷ [];
  has_not_found = false;
  options = options;
}

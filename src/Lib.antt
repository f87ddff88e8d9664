-- ===== src/Lib.antt =====
-- A verification library of oxide-http, an HTTP server for Node.js whose network layer, routing and
-- limits are Rust. `listen` (src/lib.rs) checks its options, compiles routes and schemas, and starts
-- an accept loop (src/server.rs). A connection's bytes may begin with a PROXY prefix
-- (src/proxy_protocol.rs). Each request takes a slot of the limiter (src/overload.rs), is answered at
-- the edge or routed (src/server.rs, src/router.rs, src/cors.rs), looked up in the route's cache
-- (src/cache.rs), buffered, decoded and checked where a schema wants it (src/compress.rs,
-- src/schema.rs), and handed to JS through a queue with a doorbell (src/bridge.rs), where a handler
-- reads its body or its form (src/stream.rs, src/multipart.rs) and answers. Counters and readiness
-- stand behind the probes (src/metrics.rs, src/health.rs). `close` takes a server down in stages.
--
-- Files and code, each with a module tree of the same name for its proofs and its tests:
--   Prelude        numbers, lists and texts: `str` and `Vec` operations that the code uses;
--                  Prelude/Integers has `i64` and its casts, Prelude/Results the results with `?`
--   Config         src/lib.rs: the options and their times; Config/Leaves has the loop over the routes,
--                  Config/Tune the tuning, Config/Collisions the check of the probes' paths
--   Lifecycle      src/lib.rs: listen up to the shared state (prepare); Lifecycle/Calls has
--                  RustServer's methods, and close as the steps between its waits
--   Accept         src/server.rs: serve, serve_conn, drive and the guards of a connection, and the
--                  loop of serve_admin, which is that of serve up to its break; Accept/Builders has
--                  build_auto and build_h1
--   Listener       src/listener.rs: bind_unix, bind_tcp; Lifecycle takes what they return as a
--                  parameter
--   Cpu            src/cpu.rs: cgroup_v2, cgroup_v1, worker_threads_auto
--   Schema         src/schema.rs: compile, coerce_query, coerce_scalar, validate, errors_body
--   ProxyProtocol  src/proxy_protocol.rs: read_header, read_at_least, parse_v1, parse_v2, poll_read
--   Body           src/server.rs: read_body_task, buffer_body; src/stream.rs: BodyMsg, BodyIo::read
--   Compress       src/compress.rs: decode, read_bounded
--   Cors           src/cors.rs: Cors::new, resolve_origin, preflight, actual
--   Health         src/health.rs: Readiness and its setters, is_ready, reason
--   Idle           src/idle.rs: Activity, the guard of a request, watch_idle
--   Overload       src/overload.rs: acquire as its atomic steps, one of them the end of its connection
--                  while it waits; should_shed
--   Multipart      src/multipart.rs: parse_task, mime_allowed, ext_allowed
--   Stream         src/stream.rs: BodyIo, AbortSignal, next_part, read_part, ChannelBody
--   Bridge         src/bridge.rs: enqueue, take_batch, take_body, respond; Bridge/Doorbell has enqueue
--                  step by step and the draining loop of js/index.ts
--   Cache          src/cache.rs: key, lookup, maybe_store, purge
--   Metrics        src/metrics.rs: the counters, request_finished, encode
--   Router         src/router.rs: to_matchit, build, match_route, allowed_methods
--   Server         src/server.rs: headers, client address, replies; Server/Pipeline has dispatch up to
--                  the request's handing over, Server/Validation the leaf and the schema it meets,
--                  Server/Completion the rest of dispatch, Server/Routing has handle, handle_inner and
--                  routing, Server/Metered the metrics of interleaved requests, Server/AccessLog the
--                  log's queue and its writer, Server/Log escape_json, Server/Admin the service of
--                  serve_admin, Server/Inject the request that src/lib.rs, inject, makes
--   Samples        a small server that the tests of Config and Lifecycle run
--
-- State is a record that each operation takes and returns. Shared state under several connections is
-- a list of tasks, each at a point between two atomic operations, and a schedule that says who steps
-- next. What `listen` shares is a cell of a store, which `state` and `active` point at. A stream is the
-- list of what its reads return, a channel the list of its messages, and a receiver that goes away
-- takes a given number more of them.
--
-- Widths: the counters of metrics, of multipart and of the request ids wrap as in the code; a body's
-- length is added with saturation; the options' `i64` are integers, and their casts are written out.
-- Bounds are hypotheses where a result needs them. Fuel:
-- the loops of parse_v1, one round for each byte up to the limit of 107 and two more, and of watch_idle,
-- as many rounds as the microseconds until activity ends and three more.
--
-- Parameters: the trees of matchit, the decoders of flate2 and brotli, the JSON values, parser and
-- validators of serde_json and jsonschema, multer's fields and boundaries, the hash of a body, the
-- header checks of hyper, the acceptor of rustls, what starting the runtime and the doorbell returns,
-- the failures of system calls, the resolver of names, the files of the cgroup and the number of
-- cores, floating point arithmetic and its texts. Text operations on case and space are those on ASCII.
--
-- Not modelled: src/tls.rs, which only calls libraries; symbolic links on the way to a socket's path; a
-- client that falls silent within a PROXY prefix, which is left to the timeout around read_header; how
-- `inject` of src/server.rs drives hyper over memory; js/*.ts.
mod Prelude
pub mod Accept
pub mod Body
pub mod Bridge
pub mod Cache
pub mod Compress
pub mod Config
pub mod Cors
pub mod Cpu
pub mod Health
pub mod Idle
pub mod Lifecycle
pub mod Listener
pub mod Metrics
pub mod Multipart
pub mod Overload
pub mod ProxyProtocol
pub mod Router
pub mod Samples
pub mod Schema
pub mod Server
pub mod Stream

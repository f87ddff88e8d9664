-- ===== src/Config/Tune.antt =====
-- src/lib.rs, `listen`: the tuning of connections, sockets and probes that the options give. The
-- acceptor of `rustls` is a parameter.
use oxide_http.Prelude.{
  ℕ, ℤ, pos, as_i32, Text, codes, Option, none, some, [], Bool, true, false, if◌then◌else◌, is_some,
  is_positive, keep_if, unwrap_or, Result, ok,
}
use oxide_http.Prelude.Results.{◌>>=◌}
use mathlib.Core.Option
use oxide_http.Health.{HealthPaths, default_paths}
use oxide_http.Config.{
  TlsOptions, Http2Options, ListenOptions, timeout_ms, delay_ms, positive_usize, u32_of, u64_of,
  default_header_read_timeout_ms, default_body_read_timeout_ms, default_idle_timeout_ms,
  default_handshake_timeout_ms, default_shutdown_timeout_ms,
}

pub record SocketOptions : Type 0 where
  pub backlog : ℤ
  pub reuse_port : Bool
  pub nodelay : Bool

abbrev pub default_socket : SocketOptions
default_socket = record { backlog = pos 1024; reuse_port = false; nodelay = true }

unfoldable pub socket_options : ListenOptions → SocketOptions
unfolding as_i32
socket_options o = record {
  backlog = unwrap_or (Option.map as_i32 (keep_if is_positive o.backlog)) default_socket.backlog;
  reuse_port = unwrap_or o.reuse_port default_socket.reuse_port;
  nodelay = unwrap_or o.no_delay default_socket.nodelay;
}

-- Metrics are on the main port only when asked for.
unfoldable pub health_paths : ListenOptions → HealthPaths
unfolding default_paths
health_paths o = record {
  health = unwrap_or o.health_path default_paths.health;
  ready = unwrap_or o.ready_path default_paths.ready;
  metrics = unwrap_or o.metrics_path (if is_some o.admin_port then default_paths.metrics else []);
}

pub record Tls : Type 1 where
  pub Acceptor : Type 0
  pub build_acceptor : Text → Text → Result Acceptor

abbrev pub from_http2 : Option Http2Options → (Http2Options → Option ℤ) → Option ℤ
from_http2 none f = none
from_http2 (some h) f = f h

module _ (tls : Tls) where
  pub record Tuning : Type 0 where
    pub acceptor : Option tls.Acceptor
    pub h2c : Bool
    pub header_read_timeout : Option ℕ
    pub body_read_timeout : Option ℕ
    pub idle_timeout : Option ℕ
    pub handshake_timeout : Option ℕ
    pub max_headers : Option ℕ
    pub max_header_size : Option ℕ
    pub max_concurrent_streams : Option ℕ
    pub initial_window_size : Option ℕ
    pub max_reset_streams : Option ℕ
    pub shutdown_timeout : ℕ
    pub max_connections : Option ℕ
    pub proxy_protocol : Bool
    pub health_paths : HealthPaths
    pub admin_port : Option ℕ
    pub access_log : Bool
    pub socket : SocketOptions

  unfoldable pub tls_acceptor : Option TlsOptions → Result (Option tls.Acceptor)
  tls_acceptor none = ok none
  tls_acceptor (some t) = do acceptor ← tls.build_acceptor t.cert t.key; ok (some acceptor)

  unfoldable pub tuned :
      ListenOptions
      → Option tls.Acceptor
      → (shutdown : ℕ) → (header_read body_read idle handshake : Option ℕ) → Tuning
  unfolding socket_options health_paths positive_usize u32_of u64_of
  tuned o acceptor shutdown header_read body_read idle handshake = record {
    acceptor = acceptor;
    h2c = unwrap_or o.h2c false;
    header_read_timeout = header_read;
    body_read_timeout = body_read;
    idle_timeout = idle;
    handshake_timeout = handshake;
    max_headers = positive_usize o.max_headers;
    max_header_size = positive_usize o.max_header_size;
    max_concurrent_streams = u32_of (from_http2 o.http2 (λ h. h.max_concurrent_streams));
    initial_window_size = u32_of (from_http2 o.http2 (λ h. h.initial_window_size));
    max_reset_streams = u64_of (from_http2 o.http2 (λ h. h.max_reset_streams_per_sec));
    shutdown_timeout = shutdown;
    max_connections = positive_usize o.max_connections;
    proxy_protocol = unwrap_or o.proxy_protocol false;
    health_paths = health_paths o;
    admin_port = o.admin_port;
    access_log = unwrap_or o.access_log false;
    socket = socket_options o;
  }

  unfoldable pub tune : ListenOptions → Result Tuning
  unfolding tls_acceptor timeout_ms delay_ms tuned
  tune o = do
    acceptor ← tls_acceptor o.tls
    shutdown_timeout ←
        delay_ms (codes "shutdownTimeout") o.shutdown_timeout default_shutdown_timeout_ms
    header_read_timeout ←
        timeout_ms (codes "headerReadTimeout") o.header_read_timeout default_header_read_timeout_ms
    body_read_timeout ←
        timeout_ms (codes "bodyReadTimeout") o.body_read_timeout default_body_read_timeout_ms
    idle_timeout ← timeout_ms (codes "idleTimeout") o.idle_timeout default_idle_timeout_ms
    handshake_timeout ←
        timeout_ms (codes "handshakeTimeout") o.handshake_timeout default_handshake_timeout_ms
    ok (
        tuned o acceptor shutdown_timeout header_read_timeout body_read_timeout idle_timeout
          handshake_timeout)

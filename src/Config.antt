-- ===== src/Config.antt =====
-- src/lib.rs: the options of `listen`, as JS gives them, and what they become before anything is
-- bound. An `i64` of the options is an integer in its range. Times are milliseconds.
pub mod Limits
pub mod Leaves
pub mod Tune
pub mod Collisions
mod Tests
use oxide_http.Prelude.{
  ℕ, ℤ, pos, negsuc, is_negative, is_positive, as_u64, as_u32, as_i32, to_string, Text, codes,
  Option, none, some, List, map, ◌++◌, Bool, true, false, not, if◌then◌else◌, ltb, unwrap_or,
  keep_if, is_some, to_lowercase, Result, ok, err,
}
use mathlib.Core.Option
use oxide_http.Cors.{CorsOptions}
use oxide_http.Multipart.{MultipartConfig}

pub record CacheOptions : Type 0 where
  pub ttl_ms : ℤ
  pub vary : Option (List Text)
  pub max_entries : Option ℤ
  pub max_body_bytes : Option ℤ

pub record MultipartOptions : Type 0 where
  pub max_file_size : Option ℤ
  pub max_field_size : Option ℤ
  pub max_files : Option ℤ
  pub max_fields : Option ℤ
  pub allowed_mime_types : Option (List Text)
  pub allowed_extensions : Option (List Text)

pub record TlsOptions : Type 0 where
  pub cert : Text
  pub key : Text

pub record Http2Options : Type 0 where
  pub max_concurrent_streams : Option ℤ
  pub initial_window_size : Option ℤ
  pub max_reset_streams_per_sec : Option ℤ

-- A route as JS gives it. The wrapper numbers the leaves from 0.
pub record RouteDef : Type 0 where
  pub method : Text
  pub path : Text
  pub leaf_id : ℤ
  pub body_schema : Option Text
  pub query_schema : Option Text
  pub params_schema : Option Text
  pub multipart : Option MultipartOptions
  pub cache : Option CacheOptions

pub record ListenOptions : Type 0 where
  pub custom_ip_headers : Option (List Text)
  pub custom_country_headers : Option (List Text)
  pub request_id_header : Option Text
  pub body_limit : Option ℤ
  pub cors : Option CorsOptions
  pub tls : Option TlsOptions
  pub h2c : Option Bool
  pub header_read_timeout : Option ℤ
  pub body_read_timeout : Option ℤ
  pub idle_timeout : Option ℤ
  pub handshake_timeout : Option ℤ
  pub max_headers : Option ℤ
  pub max_header_size : Option ℤ
  pub shutdown_timeout : Option ℤ
  pub pre_shutdown_delay : Option ℤ
  pub unix_path : Option Text
  pub backlog : Option ℤ
  pub reuse_port : Option Bool
  pub no_delay : Option Bool
  pub max_connections : Option ℤ
  pub proxy_protocol : Option Bool
  pub worker_threads : Option ℤ
  pub health_path : Option Text
  pub ready_path : Option Text
  pub metrics_path : Option Text
  pub admin_port : Option ℕ
  pub access_log : Option Bool
  pub max_concurrent_requests : Option ℤ
  pub max_queue : Option ℤ
  pub queue_timeout : Option ℤ
  pub retry_after : Option ℤ
  pub overload_shed_after : Option ℤ
  pub http2 : Option Http2Options

abbrev pub default_header_read_timeout_ms : ℤ
default_header_read_timeout_ms = pos 30000

abbrev pub default_body_read_timeout_ms : ℤ
default_body_read_timeout_ms = pos 30000

abbrev pub default_idle_timeout_ms : ℤ
default_idle_timeout_ms = pos 75000

abbrev pub default_handshake_timeout_ms : ℤ
default_handshake_timeout_ms = pos 10000

abbrev pub default_shutdown_timeout_ms : ℤ
default_shutdown_timeout_ms = pos 10000

abbrev pub default_queue_timeout_ms : ℤ
default_queue_timeout_ms = pos 1000

timeout_of : Text → ℤ → Result (Option ℕ)
unfolding as_u64 to_string
timeout_of name n =
    if is_positive n
    then ok (some (as_u64 n))
    else if is_negative n
    then err (name ++ (codes ": must be >= 0 (0 disables it), got " ++ to_string n))
    else ok none

-- A protective timeout, which 0 switches off.
unfoldable pub timeout_ms : Text → Option ℤ → ℤ → Result (Option ℕ)
unfolding timeout_of
timeout_ms name v default_value = timeout_of name (unwrap_or v default_value)

delay_of : Text → ℤ → Result ℕ
unfolding as_u64 to_string
delay_of name n =
    if is_negative n
    then err (name ++ (codes ": must be >= 0, got " ++ to_string n))
    else ok (as_u64 n)

-- A delay or deadline, where 0 is no wait.
unfoldable pub delay_ms : Text → Option ℤ → ℤ → Result ℕ
unfolding delay_of
delay_ms name v default_value = delay_of name (unwrap_or v default_value)

-- `filter(|&n| n > 0).map(|n| n as usize)`.
unfoldable pub positive_usize : Option ℤ → Option ℕ
unfolding as_u64
positive_usize v = Option.map as_u64 (keep_if is_positive v)

abbrev pub not_negative : ℤ → Bool
not_negative n = not (is_negative n)

-- `filter(|&n| n >= 0).map(|n| n as u64)`, and with `as u32`.
unfoldable pub u64_of : Option ℤ → Option ℕ
unfolding as_u64
u64_of v = Option.map as_u64 (keep_if not_negative v)

unfoldable pub u32_of : Option ℤ → Option ℕ
unfolding as_u32
u32_of v = Option.map as_u32 (keep_if not_negative v)

abbrev pub lowercase_all : List Text → List Text
lowercase_all v = map to_lowercase v

unfoldable pub multipart_config : MultipartOptions → MultipartConfig
unfolding u64_of u32_of to_lowercase
multipart_config o = record {
  max_file_size = u64_of o.max_file_size;
  max_field_size = u64_of o.max_field_size;
  max_files = u32_of o.max_files;
  max_fields = u32_of o.max_fields;
  allowed_mime = Option.map lowercase_all o.allowed_mime_types;
  allowed_ext = Option.map lowercase_all o.allowed_extensions;
}

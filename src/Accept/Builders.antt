-- ===== src/Accept/Builders.antt =====
-- src/server.rs, `build_auto` and `build_h1`: what hyper is told of the limits. A field is what the
-- builder's method of that name gets, none where it is not called and hyper's default stands.
use oxide_http.Prelude.{ℕ, ◌%◌, ◌^◌, max, Option, ◌≡◌, refl}
use mathlib.Core.Option
use oxide_http.Config.Tune.{Tls, Tuning}

abbrev pub min_header_buf : ℕ
min_header_buf = 8192

pub record Http1Settings : Type 0 where
  pub header_read_timeout : Option ℕ
  pub max_headers : Option ℕ
  pub max_buf_size : Option ℕ

pub record Http2Settings : Type 0 where
  pub max_header_list_size : Option ℕ
  pub max_concurrent_streams : Option ℕ
  pub initial_stream_window_size : Option ℕ
  pub max_pending_accept_reset_streams : Option ℕ

module _ (tls : Tls) where
  unfoldable pub build_h1 : Tuning tls → Http1Settings
  build_h1 t = record {
    header_read_timeout = t.header_read_timeout;
    max_headers = t.max_headers;
    max_buf_size = Option.map (λ sz. max sz min_header_buf) t.max_header_size;
  }

  unfoldable pub build_auto : Tuning tls → Http1Settings × Http2Settings
  build_auto t = (
    record {
      header_read_timeout = t.header_read_timeout;
      max_headers = t.max_headers;
      max_buf_size = Option.map (λ sz. max sz min_header_buf) t.max_header_size;
    },
    record {
      max_header_list_size = Option.map (λ sz. sz % 2 ^ 32) t.max_header_size;
      max_concurrent_streams = t.max_concurrent_streams;
      initial_stream_window_size = t.initial_window_size;
      max_pending_accept_reset_streams = t.max_reset_streams;
    },
  )

  -- HTTP/1 has the same limits whether TLS, h2c or neither is on.
  build_auto-h1 : (t : Tuning tls) → (build_auto t).0 ≡ build_h1 t
  unfolding build_auto build_h1
  build_auto-h1 t = refl

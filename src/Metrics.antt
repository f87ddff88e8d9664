-- ===== src/Metrics.antt =====
-- src/metrics.rs: the counters behind /metrics. The counters are 64 bits wide and wrap; a gauge is
-- kept as the 64 bits of its `i64`. A duration is its nanoseconds, and so is a bucket's bound.
pub mod Table
pub mod Sums
pub mod Histogram
mod Tests
use oxide_http.Prelude.{
  ℕ, zero, suc, ◌+◌, ◌-◌, ◌/◌, ◌%◌, ◌^◌, Text, codes, text_eq, decimal, Option, none, some, List,
  [], ◌∷◌, ◌++◌, map, Bool, true, false, leb, ltb, ◌==◌, if◌then◌else◌, get_elem?, set,
}

abbrev pub methods : List Text
methods =
    codes "GET"
    ∷ codes "POST"
    ∷ codes "PUT"
    ∷ codes "PATCH"
    ∷ codes "DELETE"
    ∷ codes "HEAD"
    ∷ codes "OPTIONS"
    ∷ codes "QUERY"
    ∷ codes "other"
    ∷ []

abbrev pub other_method : ℕ
other_method = 8

abbrev pub classes : List Text
classes = codes "1xx" ∷ codes "2xx" ∷ codes "3xx" ∷ codes "4xx" ∷ codes "5xx" ∷ []

abbrev pub buckets : List ℕ
buckets =
    1000000 ∷ 5000000 ∷ 10000000 ∷ 25000000 ∷ 50000000 ∷ 100000000 ∷ 250000000 ∷ 500000000
    ∷ 1000000000 ∷ 2500000000 ∷ 5000000000 ∷ 10000000000 ∷ []

pub record Metrics : Type 0 where
  pub requests : List (List ℕ)
  pub duration_buckets : List ℕ
  pub duration_sum_micros : ℕ
  pub duration_count : ℕ
  pub in_flight : ℕ
  pub connections : ℕ
  pub request_bytes : ℕ
  pub response_bytes : ℕ
  pub cache_hits : ℕ
  pub cache_misses : ℕ

abbrev zeros {ℓ} : {A : Type ℓ} → List A → List ℕ
zeros [] = []
zeros (x ∷ xs) = 0 ∷ zeros xs

unfoldable pub new : Metrics
new = record {
  requests = map (λ m. zeros classes) methods;
  duration_buckets = zeros buckets;
  duration_sum_micros = 0;
  duration_count = 0;
  in_flight = 0;
  connections = 0;
  request_bytes = 0;
  response_bytes = 0;
  cache_hits = 0;
  cache_misses = 0;
}

-- `fetch_add(n)` and `fetch_sub(1)`.
abbrev pub fetch_add : ℕ → ℕ → ℕ
fetch_add a n = (a + n) % 2 ^ 64

abbrev pub fetch_sub_one : ℕ → ℕ
fetch_sub_one a = (a + (2 ^ 64 - 1)) % 2 ^ 64

unfoldable pub conn_opened : Metrics → Metrics
conn_opened m = record m { connections = fetch_add m.connections 1 }

unfoldable pub conn_closed : Metrics → Metrics
conn_closed m = record m { connections = fetch_sub_one m.connections }

unfoldable pub request_started : Metrics → Metrics
request_started m = record m { in_flight = fetch_add m.in_flight 1 }

unfoldable pub add_request_bytes : ℕ → Metrics → Metrics
add_request_bytes n m = record m { request_bytes = fetch_add m.request_bytes n }

unfoldable pub add_response_bytes : ℕ → Metrics → Metrics
add_response_bytes n m = record m { response_bytes = fetch_add m.response_bytes n }

unfoldable pub cache_hit : Metrics → Metrics
cache_hit m = record m { cache_hits = fetch_add m.cache_hits 1 }

unfoldable pub cache_miss : Metrics → Metrics
cache_miss m = record m { cache_misses = fetch_add m.cache_misses 1 }

-- `position(..).unwrap_or(OTHER_METHOD)`, from the index `i` on.
unfoldable pub position : Text → List Text → ℕ → ℕ
position method [] i = other_method
position method (m ∷ ms) i = if text_eq m method then i else position method ms (suc i)

unfoldable pub method_index : Text → ℕ
unfolding position
method_index method = position method methods 0

unfoldable pub class_index : ℕ → ℕ
class_index status =
    if status / 100 == 1
    then 0
    else if status / 100 == 2
    then 1
    else if status / 100 == 3
    then 2
    else if status / 100 == 4
    then 3
    else 4

-- `self.requests[m][c].fetch_add(1)`.
unfoldable pub count_request : List (List ℕ) → ℕ → ℕ → List (List ℕ)
count_request rows m c = elim (get_elem? rows m) [
  | none ↦ rows
  | some row ↦ elim (get_elem? row c) [
    | none ↦ rows
    | some n ↦ set rows m (set row c (fetch_add n 1))
  ]
]

-- The first bucket whose bound the duration does not pass.
unfoldable pub bump_bucket : List ℕ → List ℕ → ℕ → List ℕ
bump_bucket (edge ∷ edges) (n ∷ counts) elapsed =
    if leb elapsed edge then fetch_add n 1 ∷ counts else n ∷ bump_bucket edges counts elapsed
bump_bucket edges counts elapsed = counts

unfoldable pub request_finished : Text → ℕ → ℕ → Metrics → Metrics
unfolding method_index class_index count_request bump_bucket
request_finished method status elapsed m = record m {
  in_flight = fetch_sub_one m.in_flight;
  requests = count_request m.requests (method_index method) (class_index status);
  duration_buckets = bump_bucket buckets m.duration_buckets elapsed;
  duration_sum_micros = fetch_add m.duration_sum_micros (elapsed / 1000 % 2 ^ 64);
  duration_count = fetch_add m.duration_count 1;
}

-- The running sums of the buckets that `encode` prints.
unfoldable pub cumulative : ℕ → List ℕ → List ℕ
cumulative acc [] = []
cumulative acc (n ∷ counts) = fetch_add acc n ∷ cumulative (fetch_add acc n) counts

-- `encode`, over the texts of an `f64`: of a bucket's bound, and of the sum in seconds.
module _ (bound_text : ℕ → Text) (seconds_text : ℕ → Text) where
  class_lines : Text → List Text → List ℕ → Text
  class_lines method (cl ∷ cls) (v ∷ vs) =
      (if v == 0
        then []
        else codes "http_requests_total{method=\""
          ++ method
          ++ codes "\",status=\""
          ++ cl
          ++ codes "\"} "
          ++ decimal v
          ++ codes "\n")
      ++ class_lines method cls vs
  class_lines method cls vs = []

  request_lines : List Text → List (List ℕ) → Text
  unfolding class_lines
  request_lines (method ∷ ms) (row ∷ rows) = class_lines method classes row ++ request_lines ms rows
  request_lines ms rows = []

  bucket_lines : List ℕ → List ℕ → Text
  bucket_lines (edge ∷ edges) (v ∷ vs) =
      codes "http_request_duration_seconds_bucket{le=\""
      ++ bound_text edge
      ++ codes "\"} "
      ++ decimal v
      ++ codes "\n"
      ++ bucket_lines edges vs
  bucket_lines edges vs = []

  -- An `i64` from its bits.
  signed : ℕ → Text
  signed v = if ltb v (2 ^ 63) then decimal v else b'-' ∷ decimal (2 ^ 64 - v)

  family : Text → Text → Text → Text → Text
  family kind name help value =
      codes "# HELP "
      ++ name
      ++ codes " "
      ++ help
      ++ codes "\n# TYPE "
      ++ name
      ++ codes " "
      ++ kind
      ++ codes "\n"
      ++ name
      ++ codes " "
      ++ value
      ++ codes "\n"

  unfoldable pub encode : Metrics → Text
  unfolding request_lines bucket_lines signed family cumulative decimal
  encode m =
      codes "# HELP http_requests_total Total HTTP requests handled.\n"
      ++ codes "# TYPE http_requests_total counter\n"
      ++ request_lines methods m.requests
      ++ codes "# HELP http_request_duration_seconds Request handling latency.\n"
      ++ codes "# TYPE http_request_duration_seconds histogram\n"
      ++ bucket_lines buckets (cumulative 0 m.duration_buckets)
      ++ codes "http_request_duration_seconds_bucket{le=\"+Inf\"} "
      ++ decimal m.duration_count
      ++ codes "\n"
      ++ codes "http_request_duration_seconds_sum "
      ++ seconds_text m.duration_sum_micros
      ++ codes "\n"
      ++ codes "http_request_duration_seconds_count "
      ++ decimal m.duration_count
      ++ codes "\n"
      ++ family (codes "gauge") (codes "http_requests_in_flight")
          (codes "Requests currently being handled.") (signed m.in_flight)
      ++ family (codes "gauge") (codes "http_connections_active") (codes "Open connections.")
          (signed m.connections)
      ++ family (codes "counter") (codes "http_request_body_bytes_total")
          (codes "Request body bytes read.") (decimal m.request_bytes)
      ++ family (codes "counter") (codes "http_response_body_bytes_total")
          (codes "Response body bytes written.") (decimal m.response_bytes)
      ++ family (codes "counter") (codes "http_cache_hits_total")
          (codes "Native response cache hits (answered without waking JS).") (decimal m.cache_hits)
      ++ family (codes "counter") (codes "http_cache_misses_total")
          (codes "Native response cache misses on cache-enabled routes.") (decimal m.cache_misses)

-- ===== src/Server.antt =====
-- src/server.rs: the pieces that a request's handling is made of. Names and values of a request's
-- headers are those of hyper's `HeaderMap`, names in lower case. What hyper accepts as a header and
-- reads as a text is a parameter.
pub mod Client
pub mod Log
pub mod AccessLog
pub mod Admin
pub mod Inject
pub mod Reply
pub mod Pipeline
pub mod Checked
pub mod Metered
pub mod Completion
pub mod Validation
pub mod Routing
mod Tests
use oxide_http.Prelude.{
  ℕ, zero, suc, ◌+◌, ◌-◌, ◌/◌, ◌%◌, ◌<◌, Text, codes, text_eq, to_lowercase, to_uppercase, decimal,
  parse_u64, split, trim, Option, none, some, List, [], ◌∷◌, ◌++◌, map, Bool, true, false, not,
  ◌&&◌, ◌||◌, ltb, leb, ◌==◌, if◌then◌else◌, any, retain, find, is_some, is_some_and, is_empty,
  unwrap_or, length,
}
use mathlib.Core.Option
use oxide_http.Bridge.Types.{KvPair, JsResponse}
use oxide_http.Cache.{Hit}
use oxide_http.Health.{HealthPaths, Readiness, is_ready, reason}

pub record Http : Type 0 where
  pub to_str : Text → Option Text
  pub valid_header : Text → Text → Bool

pub data ResBody : Type 0 where
  full : Text → ResBody
  channel : ResBody

pub record Response : Type 0 where
  pub status : ℕ
  pub headers : List (Text × Text)
  pub body : ResBody

unfoldable pub status_text : ℕ → Text → Response
status_text code text = record { status = code; headers = []; body = full text }

-- `HeaderMap::get` of a name, and `contains_key`.
unfoldable pub get_header : Text → List (Text × Text) → Option Text
get_header name [] = none
get_header name ((k, v) ∷ hs) = if text_eq k name then some v else get_header name hs

-- `kv.key == name`, the first one.
unfoldable pub find_key : Text → List KvPair → Option Text
find_key name headers =
    Option.map (λ kv. kv.value) (find (λ (kv : KvPair). text_eq kv.key name) headers)

-- The active `Content-Encoding`.
unfoldable pub content_encoding : List KvPair → Option Text
unfolding find_key to_lowercase trim
content_encoding headers = elim (find_key (codes "content-encoding") headers) [
  | none ↦ none
  | some value ↦
      let v : Text = to_lowercase (trim value) in
      if is_empty v || text_eq v (codes "identity") then none else some v
]

-- `first_present`: the first of the names whose header has more than space.
unfoldable pub first_present : List KvPair → List Text → Option Text
unfolding find_key
first_present headers [] = none
first_present headers (name ∷ names) =
    let later = first_present headers names in
    elim (find_key (to_lowercase name) headers) [
      | none ↦ later
      | some v ↦ if is_empty (trim v) then later else some (trim v)
    ]

pub record ClientInfo : Type 0 where
  pub ip : Text
  pub ips : List Text
  pub country : Option Text

-- The first of the parts, or the peer.
abbrev pub first_or : List Text → Text → Text
first_or [] d = d
first_or (x ∷ xs) d = x

abbrev pub or_peer : List Text → Text → List Text
or_peer [] peer_ip = peer_ip ∷ []
or_peer (x ∷ xs) peer_ip = x ∷ xs

unfoldable pub client_ip_country : List KvPair → List Text → List Text → Text → ClientInfo
unfolding first_present
client_ip_country headers ip_headers country_headers peer_ip =
    let country : Option Text =
      Option.map (λ c. to_uppercase (trim c)) (first_present headers country_headers) in
    elim (first_present headers ip_headers) [
      | some val ↦
          let parts : List Text = retain (λ s. not (is_empty s)) (map trim (split b',' val)) in
          record { ip = first_or parts peer_ip; ips = or_peer parts peer_ip; country = country }
      | none ↦ record { ip = peer_ip; ips = peer_ip ∷ []; country = country }
    ]

-- The request's id, or the fresh one.
unfoldable pub request_id : List KvPair → Text → Text → Text
unfolding find_key
request_id headers id_header fresh = elim (find_key (to_lowercase id_header) headers) [
  | none ↦ fresh
  | some v ↦ if is_empty (trim v) then fresh else trim v
]

module _ (http : Http) where
  -- A builder's response, if all of its headers are accepted and its status has three digits.
  unfoldable pub builder_or_500 : Response → Response
  builder_or_500 r =
      let bad : Bool = any (λ (h : Text × Text). not (http.valid_header h.0 h.1)) r.headers in
      if bad || (ltb r.status 100 || ltb 999 r.status)
      then status_text 500 (codes "Internal Server Error")
      else record r { headers = map (λ h. (to_lowercase h.0, h.1)) r.headers }

  unfoldable pub header_str : Text → List (Text × Text) → Option Text
  unfolding get_header
  header_str name headers = elim (get_header name headers) [ none ↦ none | some v ↦ http.to_str v ]

  unfoldable pub content_length : List (Text × Text) → Option ℕ
  unfolding header_str
  content_length headers = elim (header_str (codes "content-length") headers) [
    | none ↦ none
    | some v ↦ parse_u64 v
  ]

  unfoldable pub request_has_body : List (Text × Text) → Bool
  unfolding content_length get_header
  request_has_body headers =
      is_some (get_header (codes "transfer-encoding") headers)
      || is_some_and (content_length headers) (λ n. ltb 0 n)

  unfoldable pub collect_headers : List (Text × Text) → List KvPair
  collect_headers headers =
      map (λ (h : Text × Text). record { key = h.0; value = unwrap_or (http.to_str h.1) [] })
        headers

  unfoldable pub overloaded_response : ℕ → Response
  unfolding builder_or_500
  overloaded_response retry_after = builder_or_500 (record {
    status = 503;
    headers =
        (codes "retry-after", decimal retry_after)
        ∷ (codes "content-type", codes "text/plain; charset=utf-8")
        ∷ [];
    body = full (codes "Service Unavailable");
  })

  unfoldable pub pairs_response : ℕ → List (Text × Text) → Response
  unfolding builder_or_500
  pairs_response status headers =
      builder_or_500 (record { status = status; headers = headers; body = full [] })

  abbrev plain_text : Text
  plain_text = codes "text/plain; charset=utf-8"

  abbrev admin : ℕ → Text → Text → Response
  admin status content_type text = record {
    status = status;
    headers = (codes "content-type", content_type) ∷ (codes "cache-control", codes "no-store") ∷ [];
    body = full text;
  }

  abbrev pub serves : Text → Text → Bool
  serves endpoint path = not (is_empty endpoint) && text_eq path endpoint

  -- `metrics_text` is what `Metrics::encode` prints.
  unfoldable pub admin_response : HealthPaths → Readiness → Text → Text → Text → Option Response
  unfolding builder_or_500 is_ready reason
  admin_response p readiness metrics_text method path =
      if not (text_eq method (codes "GET")) && not (text_eq method (codes "HEAD"))
      then none
      else if serves p.health path
      then some (builder_or_500 (admin 200 plain_text (codes "ok")))
      else if serves p.ready path
      then some (
          builder_or_500
            (admin (if is_ready readiness then 200 else 503) plain_text (reason readiness)))
      else if serves p.metrics path
      then some (
          builder_or_500
            (admin 200 (codes "text/plain; version=0.0.4; charset=utf-8") metrics_text))
      else none

  -- HEAD: the length that the body would have, unless a length is set or the body is streamed.
  abbrev with_length : Bool → ℕ → List (Text × Text) → List (Text × Text)
  with_length streamed len headers =
      let named : Bool =
        any (λ (h : Text × Text). text_eq (to_lowercase h.0) (codes "content-length")) headers in
      if not streamed && not named
      then headers ++ (codes "content-length", decimal len) ∷ []
      else headers

  -- A stored answer with the current request's id, and the bytes that the metrics get.
  unfoldable pub cached_response : Hit → Bool → Text → Text → Response × ℕ
  unfolding builder_or_500
  cached_response hit head id id_header =
      let headers : List (Text × Text) =
        hit.headers ++ (id_header, id) ∷ (codes "x-cache", codes "hit") ∷ [] in
      if head
      then (
        builder_or_500 (record {
          status = hit.status;
          headers = with_length false (length hit.body) headers;
          body = full [];
        }),
        0,
      )
      else (
        builder_or_500 (record { status = hit.status; headers = headers; body = full hit.body }),
        length hit.body,
      )

  abbrev js_headers : JsResponse → List (Text × Text)
  js_headers res = map (λ (kv : KvPair). (kv.key, kv.value)) (unwrap_or res.headers [])

  -- The response that JS gave, and the bytes that the metrics get at once.
  unfoldable pub build_response : JsResponse → Bool → Response × ℕ
  unfolding builder_or_500
  build_response res head =
      let headers : List (Text × Text) = js_headers res in
      let status : ℕ = unwrap_or res.status 200 in
      let streamed : Bool = unwrap_or res.streamed false in
      let body : Text = unwrap_or res.body [] in
      if head
      then (
        builder_or_500 (record {
          status = status;
          headers = with_length streamed (length body) headers;
          body = full [];
        }),
        0,
      )
      else if streamed
      then (builder_or_500 (record { status = status; headers = headers; body = channel }), 0)
      else (
        builder_or_500 (record { status = status; headers = headers; body = full body }),
        length body,
      )

-- ===== src/Server/Pipeline.antt =====
-- src/server.rs, `dispatch`: from a matched route to the request that JS gets, or to an answer
-- before it. The schema check of `jsonschema`, the boundary parser of `multer`, the decoders and
-- the hash are parameters. `read_body` is what `buffer_body` yields.
use oxide_http.Prelude.{
  ℕ, Text, codes, text_eq, Option, none, some, List, [], Bool, not, ◌&&◌, ◌||◌, if◌then◌else◌,
  is_some, is_some_and,
}
use mathlib.Core.Option
use oxide_http.Bridge.Types.{KvPair}
use oxide_http.Cache.{LeafCache, key, lookup}
use oxide_http.Body.{Event, Buffered, buffered, refused, BodyErr, buffer_body}
use oxide_http.Body
use oxide_http.Compress.{Decoders, Decoded, plain, decode_err, DecodeErr, decode}
use oxide_http.Compress
use oxide_http.Multipart.{MultipartConfig}
use oxide_http.Schema.{Validated}
use oxide_http.Server.{Http, Response, status_text, find_key, content_encoding, cached_response}

-- A leaf's schema, unless it is empty: whether it has a body part, and its check, which fails with
-- the response that lists the issues.
pub record Schema : Type 0 where
  pub has_body : Bool
  pub validate : List KvPair → List (Text × Text) → Option Text → Option Validated
  pub errors : List KvPair → List (Text × Text) → Option Text → Response

pub record Leaf : Type 0 where
  pub schema : Option Schema
  pub multipart : Option MultipartConfig
  pub cache : Option LeafCache

pub record Env : Type 0 where
  pub http : Http
  pub decoders : Decoders
  pub hash_bytes : Text → ℕ
  pub parse_boundary : Text → Option Text
  pub body_limit : Option ℕ
  pub read_timeout : Bool
  pub id_header : Text

pub record ReqData : Type 0 where
  pub method : Text
  pub path : Text
  pub query_string : Option Text
  pub query : List KvPair
  pub headers : List KvPair

-- How JS gets the request's body.
pub data BodySource : Type 0 where
  no_body : BodySource
  multipart_events : (boundary : Text) → BodySource
  whole : Text → BodySource
  streaming : BodySource

-- A request on its way to JS, with the cache key of its answer.
pub record Handed : Type 0 where
  pub validated : Validated
  pub body : BodySource
  pub cache_key : Option Text

-- Where a request is after some of the checks.
pub data Stage {ℓ} (A : Type ℓ) : Type ℓ where
  answer : Response → Stage A
  goes_on : A → Stage A

infixl 5 ◌>>=◌
abbrev pub ◌>>=◌ {ℓ κ} : {A : Type ℓ} {B : Type κ} → Stage A → (A → Stage B) → Stage B
answer r >>= f = answer r
goes_on a >>= f = f a

module _ (env : Env) (leaf : Leaf) (req : ReqData) (params : List (Text × Text)) (head : Bool)
    (id : Text) (now : ℕ) (events : List Event) (has_body : Bool) where
  abbrev pub effective_method : Text
  effective_method = if head then codes "GET" else req.method

  abbrev pub is_query : Bool
  is_query = text_eq effective_method (codes "QUERY")

  abbrev pub cacheable : Bool
  cacheable =
      is_some leaf.cache
      && not (is_some leaf.multipart)
      && (text_eq effective_method (codes "GET")
          || text_eq effective_method (codes "HEAD")
          || is_query)

  -- A lookup under the request's key: an answer, or the key of a miss.
  unfoldable pub cache_lookup : LeafCache → Option ℕ → Stage (Option Text)
  unfolding key lookup cached_response
  cache_lookup c hash =
      let k : Text =
        key c.config.vary effective_method req.path req.query_string req.headers hash in
      elim (lookup c k now).1 [
        | some hit ↦ answer (cached_response env.http hit head id env.id_header).0
        | none ↦ goes_on (some k)
      ]

  unfoldable pub early_lookup : Stage (Option Text)
  unfolding cache_lookup
  early_lookup =
      if cacheable && not is_query
      then elim leaf.cache [ some c ↦ cache_lookup c none | none ↦ goes_on none ]
      else goes_on none

  -- The boundary of a form, on a route for forms.
  unfoldable pub multipart_boundary : Stage (Option Text)
  unfolding find_key
  multipart_boundary = elim leaf.multipart [
    | none ↦ goes_on none
    | some cfg ↦ elim (find_key (codes "content-type") req.headers) [
      | none ↦ answer (status_text 415 (codes "Unsupported Media Type"))
      | some ct ↦ elim (env.parse_boundary ct) [
        | none ↦ answer (status_text 415 (codes "Unsupported Media Type"))
        | some boundary ↦ goes_on (some boundary)
      ]
    ]
  ]

  abbrev pub buffer_for_schema : Bool
  buffer_for_schema =
      not (is_some leaf.multipart) && is_some_and leaf.schema (λ s. s.has_body) && has_body

  abbrev pub buffer_for_cache : Bool
  buffer_for_cache = cacheable && is_query && has_body

  unfoldable pub body_error : BodyErr → Response
  body_error Body.too_large = status_text 413 (codes "Payload Too Large")
  body_error Body.timed_out = status_text 408 (codes "Request Timeout")
  body_error Body.cut = status_text 400 (codes "Bad Request")

  -- The bytes that came off the socket, if they are wanted here.
  unfoldable pub raw_body : Stage (Option Text)
  unfolding buffer_body body_error
  raw_body =
      if buffer_for_schema || buffer_for_cache
      then elim (buffer_body env.body_limit env.read_timeout [] events).0 [
        | buffered raw ↦ goes_on (some raw)
        | refused e ↦ answer (body_error e)
      ]
      else goes_on none

  unfoldable pub decode_error : DecodeErr → Response
  decode_error Compress.unsupported = status_text 415 (codes "Unsupported Media Type")
  decode_error Compress.too_large = status_text 413 (codes "Payload Too Large")
  decode_error Compress.invalid = status_text 400 (codes "Invalid compressed body")

  unfoldable pub decoded_of : Text → Decoded → Stage (Option Text)
  unfolding decode_error
  decoded_of raw (plain b) = goes_on (some b)
  decoded_of raw (decode_err e) = answer (decode_error e)

  -- The plain form of the body, for the schema only.
  unfoldable pub plain_body : Option Text → Stage (Option Text)
  unfolding decoded_of decode content_encoding
  plain_body none = goes_on none
  plain_body (some raw) =
      if buffer_for_schema
      then elim (content_encoding req.headers) [
        | none ↦ goes_on (some raw)
        | some enc ↦ decoded_of raw (decode env.decoders enc raw env.body_limit)
      ]
      else goes_on none

  unfoldable pub late_lookup : Option Text → Option Text → Stage (Option Text)
  unfolding cache_lookup
  late_lookup key0 raw =
      if cacheable && is_query
      then elim leaf.cache [
        | some c ↦ cache_lookup c (Option.map env.hash_bytes raw)
        | none ↦ goes_on key0
      ]
      else goes_on key0

  unfoldable pub check_schema : Option Text → Stage Validated
  check_schema decoded = elim leaf.schema [
    | none ↦ goes_on (record { body = none; query = none; params = none })
    | some s ↦ elim (s.validate req.query params decoded) [
      | some v ↦ goes_on v
      | none ↦ answer (s.errors req.query params decoded)
    ]
  ]

  unfoldable pub body_source : Option Text → Option Text → BodySource
  body_source (some boundary) raw = multipart_events boundary
  body_source none (some raw) = whole raw
  body_source none none = if has_body then streaming else no_body

  unfoldable pub dispatch : Stage Handed
  unfolding early_lookup multipart_boundary raw_body plain_body late_lookup check_schema body_source
  dispatch = do
    key0 ← early_lookup
    boundary ← multipart_boundary
    raw ← raw_body
    decoded ← plain_body raw
    key1 ← late_lookup key0 raw
    v ← check_schema decoded
    goes_on (record { validated = v; body = body_source boundary raw; cache_key = key1 })

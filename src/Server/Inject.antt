-- ===== src/Server/Inject.antt =====
-- src/lib.rs, `inject`: the request that is driven over memory. What hyper finds malformed is a
-- parameter.
use oxide_http.Prelude.{
  Text, codes, text_eq, to_lowercase, Option, none, some, List, [], ◌∷◌, ◌++◌, map, any, unwrap_or,
  Bool, true, false, if◌then◌else◌, Bool-cases, Result, ok, err, ◌≡◌, refl, inl, inr,
}
use oxide_http.Bridge.Types.{KvPair}
use oxide_http.Server.{get_header}

pub record Injected : Type 0 where
  pub method : Text
  pub uri : Text
  pub headers : List (Text × Text)
  pub body : Text

unfoldable pub is_host : KvPair → Bool
unfolding text_eq to_lowercase
is_host kv = text_eq (to_lowercase kv.key) (codes "host")

abbrev named : KvPair → Text × Text
named kv = (to_lowercase kv.key, kv.value)

abbrev placeholder : List (Text × Text)
placeholder = (codes "host", codes "inject.local") ∷ []

unfoldable pub with_host : List KvPair → List (Text × Text)
unfolding is_host
with_host headers =
    if any is_host headers then map named headers else map named headers ++ placeholder

unfoldable pub inject_request :
    (malformed : Injected → Option Text) → Text → Text → List KvPair → Option Text → Result Injected
unfolding with_host
inject_request malformed method path headers body =
    let req : Injected = record {
      method = method;
      uri = path;
      headers = with_host headers;
      body = unwrap_or body [];
    } in
    elim (malformed req) [ some e ↦ err (codes "inject: malformed request: " ++ e) | none ↦ ok req ]

-- The caller's host, the first one, or else the placeholder.
abbrev host_of : List KvPair → Text
host_of [] = codes "inject.local"
host_of (kv ∷ headers) = if is_host kv then kv.value else host_of headers

named_host :
    (headers : List KvPair)
    → any is_host headers ≡ true
    → get_header (codes "host") (map named headers) ≡ some (host_of headers)
unfolding get_header is_host
named_host [] = λ e. cc e
named_host (kv ∷ headers) = elim (Bool-cases (is_host kv)) [
  | inl host ↦ rw (host, is_host) (λ e. refl)
  | inr other ↦ rw (other, is_host) (λ e. named_host headers e)
]

hostless :
    (headers : List KvPair)
    → any is_host headers ≡ false
    → get_header (codes "host") (map named headers ++ placeholder) ≡ some (host_of headers)
unfolding get_header is_host
hostless [] = λ e. refl
hostless (kv ∷ headers) = elim (Bool-cases (is_host kv)) [
  | inl host ↦ rw (host, is_host) (λ e. cc e)
  | inr other ↦ rw (other, is_host) (λ e. hostless headers e)
]

-- An injected request has a host: the caller's, under any case of the name, or else the placeholder.
with_host-host_of :
    (headers : List KvPair) → get_header (codes "host") (with_host headers) ≡ some (host_of headers)
unfolding with_host
with_host-host_of headers = elim (Bool-cases (any is_host headers)) [
  | inl own ↦ rw (own, with_host) (named_host headers own)
  | inr none_own ↦ rw (none_own, with_host) (hostless headers none_own)
]

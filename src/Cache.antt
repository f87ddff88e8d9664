-- ===== src/Cache.antt =====
-- src/cache.rs: the native per-route response cache. `Instant`s are milliseconds. The
-- `HashMap` is an association list with one pair to a key; its iteration order is not specified,
-- so `maybe_store` takes the position of the key that `keys().next()` yields.
pub mod Key
pub mod Map
pub mod Eligible
pub mod Replay
pub mod Room
pub mod Valid
pub mod Isolation
mod Tests
use oxide_http.Prelude.{
  ℕ, zero, suc, ◌+◌, ◌-◌, ◌/◌, ◌%◌, Text, codes, text_eq, to_lowercase, contains, Option, none,
  some, List, [], ◌∷◌, ◌++◌, Bool, true, false, not, ◌&&◌, ◌||◌, ltb, leb, ◌==◌, if◌then◌else◌,
  length, retain, get_elem?, unwrap_or,
}
use oxide_http.Bridge.Types.{KvPair, JsResponse}

pub record CacheConfig : Type 0 where
  pub ttl : ℕ
  pub vary : List Text
  pub max_entries : ℕ
  pub max_body_bytes : ℕ

pub record Entry : Type 0 where
  pub path : Text
  pub status : ℕ
  pub headers : List (Text × Text)
  pub body : Text
  pub expires : ℕ

pub record Hit : Type 0 where
  pub status : ℕ
  pub headers : List (Text × Text)
  pub body : Text

abbrev pub Store : Type 0
Store = List (Text × Entry)

pub record LeafCache : Type 0 where
  pub config : CacheConfig
  pub store : Store

unfoldable pub new : CacheConfig → LeafCache
new config = record { config = config; store = [] }

-- The lines of a key end in a newline, the values of one header in a unit separator.
abbrev pub newline : ℕ
newline = 10

abbrev pub unit_separator : ℕ
unit_separator = 31

-- One hexadecimal digit, and a number in a fixed count of them: `{h:016x}` of a `u64`.
hex_digit : ℕ → ℕ
hex_digit d = if ltb d 10 then d + 48 else d + 87

hex : ℕ → ℕ → Text
unfolding hex_digit
hex zero h = []
hex (suc n) h = hex n (h / 16) ++ hex_digit (h % 16) ∷ []

-- The values of the header `name`, in order.
pub values_of : Text → List KvPair → List Text
values_of name [] = []
values_of name (kv ∷ headers) =
    if text_eq kv.key name then kv.value ∷ values_of name headers else values_of name headers

pub join_values : List Text → Text
join_values [] = []
join_values (v ∷ vs) = v ++ unit_separator ∷ join_values vs

pub vary_part : List Text → List KvPair → Text
unfolding values_of join_values
vary_part [] headers = []
vary_part (name ∷ names) headers =
    newline ∷ (join_values (values_of name headers) ++ vary_part names headers)

pub hash_part : Option ℕ → Text
unfolding hex
hash_part none = []
hash_part (some h) = newline ∷ hex 16 h

unfoldable pub key : List Text → Text → Text → Option Text → List KvPair → Option ℕ → Text
unfolding vary_part hash_part
key vary method path query_string headers body_hash =
    method
    ++ newline
      ∷ (path
          ++ newline
            ∷ (unwrap_or query_string [] ++ (vary_part vary headers ++ hash_part body_hash)))

-- `HashMap::get`, `remove`, `contains_key` and `insert`.
pub get : Text → Store → Option Entry
get k [] = none
get k ((j, e) ∷ m) = if text_eq j k then some e else get k m

unfoldable pub remove : Text → Store → Store
remove k m = retain (λ p. not (text_eq p.0 k)) m

pub contains_key : Text → Store → Bool
contains_key k [] = false
contains_key k ((j, e) ∷ m) = text_eq j k || contains_key k m

unfoldable pub insert : Text → Entry → Store → Store
unfolding remove
insert k e m = (k, e) ∷ remove k m

abbrev pub hit_of : Entry → Hit
hit_of e = record { status = e.status; headers = e.headers; body = e.body }

-- `lookup` at the time `now`: an expired entry is removed on the way.
lookup_at : LeafCache → Text → ℕ → Option Entry → LeafCache × Option Hit
lookup_at c k now none = (c, none)
lookup_at c k now (some e) =
    if ltb now e.expires
    then (c, some (hit_of e))
    else (record c { store = remove k c.store }, none)

unfoldable pub lookup : LeafCache → Text → ℕ → LeafCache × Option Hit
unfolding lookup_at
lookup c k now = lookup_at c k now (get k c.store)

-- The loop over the response's headers; `none` is the early return.
pub stored_headers : Text → List KvPair → Option (List (Text × Text))
stored_headers request_id_header [] = some []
stored_headers request_id_header (kv ∷ pairs) =
    let name = to_lowercase kv.key in
    let v = to_lowercase kv.value in
    let rest = stored_headers request_id_header pairs in
    if text_eq name (codes "set-cookie")
    then none
    else if text_eq name (codes "cache-control")
        && (contains v (codes "no-store") || contains v (codes "private"))
    then none
    else if text_eq name request_id_header
    then rest
    else elim rest [ none ↦ none | some hs ↦ some ((name, kv.value) ∷ hs) ]

abbrev pub body_len : JsResponse → ℕ
body_len res = length (unwrap_or res.body [])

-- Whether the response may be stored, and under which headers.
unfoldable pub eligible : CacheConfig → Text → JsResponse → Option (List (Text × Text))
unfolding stored_headers
eligible config request_id_header res =
    if not (unwrap_or res.status 200 == 200) || unwrap_or res.streamed false
    then none
    else if ltb config.max_body_bytes (body_len res)
    then none
    else stored_headers request_id_header (unwrap_or res.headers [])

-- The key that the map's iterator yields first.
first_key : ℕ → Store → Option Text
first_key slot m = elim (get_elem? m (slot % length m)) [ none ↦ none | some p ↦ some p.0 ]

pub drop_one : ℕ → Store → Store
unfolding first_key remove
drop_one slot m = elim (first_key slot m) [ none ↦ m | some k ↦ remove k m ]

-- Expired entries go first; if the cap still holds, an arbitrary one.
unfoldable pub make_room : CacheConfig → ℕ → ℕ → Text → Store → Store
unfolding drop_one
make_room config slot now k m =
    if leb config.max_entries (length m) && not (contains_key k m)
    then (let live = retain (λ (p : Text × Entry). ltb now p.1.expires) m in
        if leb config.max_entries (length live) then drop_one slot live else live)
    else m

-- `now` is read for `expires`, `later` for the sweep.
unfoldable pub maybe_store : ℕ → ℕ → ℕ → Text → Text → JsResponse → Text → LeafCache → LeafCache
unfolding eligible make_room insert
maybe_store slot now later k path res request_id_header c =
    elim (eligible c.config request_id_header res) [
      | none ↦ c
      | some headers ↦ record c {
        store =
            insert k
              (record {
                path = path;
                status = unwrap_or res.status 200;
                headers = headers;
                body = unwrap_or res.body [];
                expires = now + c.config.ttl;
              })
              (make_room c.config slot later k c.store);
      }
    ]

unfoldable pub purge : Option Text → LeafCache → LeafCache × ℕ
purge none c = (record c { store = [] }, length c.store)
purge (some p) c =
    let kept = retain (λ (q : Text × Entry). not (text_eq q.1.path p)) c.store in
    (record c { store = kept }, length c.store - length kept)

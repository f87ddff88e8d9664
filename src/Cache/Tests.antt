-- ===== src/Cache/Tests.antt =====
-- src/cache.rs: runs of the cache on small inputs.
use oxide_http.Prelude.{
  ◌+◌, ◌<◌, Text, codes, none, some, [], ◌∷◌, ◌≡◌, ◌↔◌, ◌⊎◌, refl, arith, length, keep_if,
}
use oxide_http.Bridge.Types.{JsResponse}
use oxide_http.Cache.{CacheConfig, LeafCache, new, get, lookup, maybe_store, purge}
use oxide_http.Cache.Key.{Variant, IsKeyable, SameVariant, key_of, key_iff}
use oxide_http.Cache.Eligible.{IsStorable}
use oxide_http.Cache.Replay.{live, replay_of, cached_iff}
use oxide_http.Cache.Isolation.{IsEvicted, elsewhere, maybe_store_isolated, purge_lem}

abbrev config : CacheConfig
config = record { ttl = 1000; vary = codes "accept" ∷ []; max_entries = 2; max_body_bytes = 100 }

abbrev get_a : Variant
get_a = record {
  method = codes "GET";
  path = codes "/a";
  query_string = none;
  headers = record { key = codes "accept"; value = codes "text" } ∷ [];
  body_hash = none;
}

get_a-IsKeyable : IsKeyable get_a
get_a-IsKeyable = record {
  method = ground arith;
  path = ground arith;
  query = tt;
  lines = ground arith;
  units = ground arith;
  hash = tt;
}

key_example :
    (key_of (codes "accept" ∷ []) get_a ≡ key_of (codes "accept" ∷ []) get_a)
    ↔ SameVariant (codes "accept" ∷ []) get_a get_a
key_example = key_iff (codes "accept" ∷ []) get_a get_a get_a-IsKeyable get_a-IsKeyable

abbrev reply : JsResponse
reply = record {
  status = none;
  headers = some (record { key = codes "X-Id"; value = codes "7" } ∷ []);
  body = some (codes "hi");
  streamed = none;
}

abbrev x_id : Text
x_id = codes "x-id"

abbrev k : Text
k = codes "k"

abbrev j : Text
j = codes "j"

new-absent : get k (new config).store ≡ none
unfolding new get
new-absent = refl

abbrev once : LeafCache
once = maybe_store 0 5 5 k (codes "/a") reply x_id (new config)

cached_example :
    ((lookup once k 9).1 ≡ some (replay_of x_id reply))
    ↔ (IsStorable config reply × (9 < 5 + 1000) × (replay_of x_id reply ≡ replay_of x_id reply))
unfolding new
cached_example =
    cached_iff 0 5 5 k (codes "/a") reply x_id (new config) 9 (replay_of x_id reply) new-absent

isolated_example :
    (get j (maybe_store 0 5 5 k (codes "/a") reply x_id (new config)).store
      ≡ get j (new config).store)
    ⊎ (IsStorable config reply
        × IsEvicted config 5 k j
            (new config).store
            (maybe_store 0 5 5 k (codes "/a") reply x_id (new config)).store)
unfolding new
isolated_example =
    maybe_store_isolated 0 5 5 k j (codes "/a") reply x_id (new config) tt (ground arith)

purge_example :
    ((lookup (purge (some (codes "/a")) (new config)).0 j 9).1
      ≡ live 9 (keep_if (elsewhere (codes "/a")) (get j (new config).store)))
    × ((purge (some (codes "/a")) (new config)).1
          + length (purge (some (codes "/a")) (new config)).0.store
        ≡ length (new config).store)
unfolding new
purge_example = purge_lem (codes "/a") (new config) j 9 tt

-- ===== src/Cache/Valid.antt =====
-- src/cache.rs: what holds of a leaf's cache whatever is done to it.
use oxide_http.Prelude.{
  to_lowercase, contains, codes, false, ℕ, ◌≤◌, ◌<◌, Text, text_eq, text_eq_iff, Option, none, some,
  List, [], ◌∷◌, not, Bool-cases, Option-cases, ◌≡◌, refl, ◌∙◌, ◌≢◌, inl, inr, arith, ltb, length,
  length-retain-le, All, All-retain,
}
use oxide_http.Bridge.Types.{KvPair, JsResponse}
use oxide_http.Cache.{
  CacheConfig, Entry, Store, LeafCache, new, get, remove, lookup, eligible, make_room, maybe_store,
  purge,
}
use oxide_http.Cache.Map.{
  length-insert, All-insert, Distinct, Distinct-retain, Distinct-remove, Distinct-insert,
}
use oxide_http.Cache.Eligible.{strip, eligible_iff, set_cookie, cache_control, IsShareable}
use oxide_http.Cache.Replay.{maybe_store-stored, maybe_store-skipped, entry_of}
use oxide_http.Cache.Room.{All-make_room, length-remove-le, length-make_room, Distinct-make_room}

-- A header of the stored copy under which the handler did not opt out of sharing.
abbrev pub NotOptedOut : Text × Text → Type 0
NotOptedOut h =
    h.0 ≡ cache_control
    → (contains (to_lowercase h.1) (codes "no-store") ≡ false)
      × (contains (to_lowercase h.1) (codes "private") ≡ false)

-- What a client may be given: a plain 200 within the size limit, with no cookie, no cache-control of
-- `no-store` or `private`, and without the id of the request that produced it.
pub record IsServable (config : CacheConfig) (rid : Text) (e : Entry) : Type 0 where
  pub plain : e.status ≡ 200
  pub fits : length e.body ≤ config.max_body_bytes
  pub no_cookie : All (λ (h : Text × Text). h.0 ≢ set_cookie) e.headers
  pub no_opt_out : All NotOptedOut e.headers
  pub no_request_id : All (λ (h : Text × Text). h.0 ≢ rid) e.headers

pub record IsValid (rid : Text) (c : LeafCache) : Type 0 where
  pub bounded : length c.store ≤ c.config.max_entries
  pub distinct : Distinct c.store
  pub servable : All (λ (p : Text × Entry). IsServable c.config rid p.1) c.store

strip-no_cookie :
    (rid : Text) (pairs : List KvPair)
    → All IsShareable pairs
    → All (λ (h : Text × Text). h.0 ≢ set_cookie) (strip rid pairs)
strip-no_cookie rid [] h = tt
strip-no_cookie rid (kv ∷ pairs) h = elim (Bool-cases (text_eq (to_lowercase kv.key) rid)) [
  | inl own ↦ rw own (strip-no_cookie rid pairs h.1)
  | inr other ↦ rw other (h.0.no_cookie, strip-no_cookie rid pairs h.1)
]

strip-NotOptedOut :
    (rid : Text) (pairs : List KvPair) → All IsShareable pairs → All NotOptedOut (strip rid pairs)
strip-NotOptedOut rid [] h = tt
strip-NotOptedOut rid (kv ∷ pairs) h = elim (Bool-cases (text_eq (to_lowercase kv.key) rid)) [
  | inl own ↦ rw own (strip-NotOptedOut rid pairs h.1)
  | inr other ↦ rw other (h.0.no_opt_out, strip-NotOptedOut rid pairs h.1)
]

strip-no_request_id :
    (rid : Text) (pairs : List KvPair) → All (λ (h : Text × Text). h.0 ≢ rid) (strip rid pairs)
strip-no_request_id rid [] = tt
strip-no_request_id rid (kv ∷ pairs) = elim (Bool-cases (text_eq (to_lowercase kv.key) rid)) [
  | inl own ↦ rw own (strip-no_request_id rid pairs)
  | inr other ↦
      rw other
        (ground (arith, text_eq_iff (to_lowercase kv.key) rid), strip-no_request_id rid pairs)
]

lookup-IsValid :
    (rid : Text) (c : LeafCache) (k : Text) (t : ℕ) → IsValid rid c → IsValid rid (lookup c k t).0
unfolding lookup
lookup-IsValid rid c k t v = elim (Option-cases (get k c.store)) [
  | inl missing ↦ rw missing v
  | inr (e, found) ↦ elim (Bool-cases (ltb t e.expires)) [
    | inl fresh ↦ rw (found, fresh) v
    | inr stale ↦
        rw (found, stale)
          (record {
            bounded = omega (arith, length-remove-le k c.store, v.bounded);
            distinct = Distinct-remove k c.store v.distinct;
            servable = unfold remove in All-retain _ _ c.store v.servable;
          })
  ]
]

purge-IsValid :
    (rid : Text) (c : LeafCache) (path : Option Text) → IsValid rid c → IsValid rid (purge path c).0
unfolding purge
purge-IsValid rid c none v = record { bounded = omega arith; distinct = tt; servable = tt }
purge-IsValid rid c (some p) v = record {
  bounded =
      omega (
        arith,
        length-retain-le (λ (q : Text × Entry). not (text_eq q.1.path p)) c.store,
        v.bounded,
      );
  distinct = Distinct-retain _ c.store v.distinct;
  servable = All-retain _ _ c.store v.servable;
}

module _ (slot now later : ℕ) (k path : Text) (res : JsResponse) (rid : Text) (c : LeafCache) where
  maybe_store-IsValid :
      0 < c.config.max_entries
      → IsValid rid c
      → IsValid rid (maybe_store slot now later k path res rid c)
  maybe_store-IsValid pos v = elim (Option-cases (eligible c.config rid res)) [
    | inl skipped ↦ rw (maybe_store-skipped slot now later k path res rid c skipped) v
    | inr (hs, stored) ↦
        let room : Store = make_room c.config slot later k c.store in
        let entry : Entry = entry_of slot now later k path res rid c hs in
        let (ok, same) = (eligible_iff c.config rid res hs).0 stored in
        rw (maybe_store-stored slot now later k path res rid c hs stored) (record {
          bounded = rw length-insert (length-make_room c.config slot later k c.store pos v.bounded);
          distinct =
              Distinct-insert k entry room
                (Distinct-make_room c.config slot later k c.store v.distinct);
          servable =
              All-insert (λ p. IsServable c.config rid p.1) k entry room
                (record {
                  plain = ok.plain;
                  fits = ok.fits;
                  no_cookie = rw same (strip-no_cookie rid _ ok.shareable);
                  no_opt_out = rw same (strip-NotOptedOut rid _ ok.shareable);
                  no_request_id = rw same (strip-no_request_id rid _);
                })
                (All-make_room _ k c.config slot later c.store v.servable);
        })
  ]

-- What a server does to a leaf's cache. Each operation brings the times at which it reads the
-- clock, and a store the map's iteration order.
pub data Op : Type 0 where
  store : (slot now later : ℕ) (k path : Text) (res : JsResponse) → Op
  look : (k : Text) (now : ℕ) → Op
  clear : (path : Option Text) → Op

pub step : Text → LeafCache → Op → LeafCache
step rid c (store slot now later k path res) = maybe_store slot now later k path res rid c
step rid c (look k now) = (lookup c k now).0
step rid c (clear path) = (purge path c).0

unfoldable pub run : Text → LeafCache → List Op → LeafCache
unfolding step
run rid c [] = c
run rid c (op ∷ ops) = run rid (step rid c op) ops

config-step : (rid : Text) (c : LeafCache) (op : Op) → (step rid c op).config ≡ c.config
unfolding step maybe_store lookup purge
config-step rid c (store slot now later k path res) = ground arith
config-step rid c (look k now) = ground arith
config-step rid c (clear none) = refl
config-step rid c (clear (some p)) = refl

step-IsValid :
    (rid : Text) (c : LeafCache) (op : Op)
    → 0 < c.config.max_entries
    → IsValid rid c
    → IsValid rid (step rid c op)
unfolding step
step-IsValid rid c (store slot now later k path res) pos v =
    maybe_store-IsValid slot now later k path res rid c pos v
step-IsValid rid c (look k now) pos v = lookup-IsValid rid c k now v
step-IsValid rid c (clear path) pos v = purge-IsValid rid c path v

run-IsValid :
    (rid : Text) (c : LeafCache) (ops : List Op)
    → 0 < c.config.max_entries
    → IsValid rid c
    → IsValid rid (run rid c ops) × ((run rid c ops).config ≡ c.config)
unfolding run
run-IsValid rid c [] pos v = (v, refl)
run-IsValid rid c (op ∷ ops) pos v =
    let same = config-step rid c op in
    let (valid, kept) =
      run-IsValid rid (step rid c op) ops (rw same pos) (step-IsValid rid c op pos v) in
    (valid, kept ∙ same)

-- Whatever is stored, looked up and purged, and in whatever order the map yields its keys: a
-- cache with a positive cap never holds more entries than the cap, holds one entry to a key, and
-- each entry is a plain 200 within the body limit, with no cookie and no request id.
pub run-new-IsValid :
    (config : CacheConfig) (rid : Text) (ops : List Op)
    → 0 < config.max_entries
    → IsValid rid (run rid (new config) ops)
unfolding new
run-new-IsValid config rid ops pos =
    (run-IsValid rid (new config) ops pos
      (record { bounded = omega arith; distinct = tt; servable = tt })).0

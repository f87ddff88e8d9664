-- ===== src/Cache/Replay.antt =====
-- src/cache.rs: what `lookup` answers after `maybe_store`.
use oxide_http.Prelude.{
  ℕ, ◌+◌, ◌<◌, Text, Option, none, some, List, [], Option-cases, ◌≡◌, refl, ◌∙◌, ap, ◌↔◌, inl, inr,
  arith, unwrap_or, ltb, if◌then◌else◌,
}
use oxide_http.Bridge.Types.{JsResponse}
use oxide_http.Cache.{
  Entry, Hit, LeafCache, get, insert, hit_of, lookup, eligible, make_room, maybe_store,
}
use oxide_http.Cache.Map.{get-insert_self}
use oxide_http.Cache.Eligible.{IsStorable, strip, eligible_iff}

-- An entry answers until it expires.
abbrev pub live : ℕ → Option Entry → Option Hit
live t none = none
live t (some e) = if ltb t e.expires then some (hit_of e) else none

pub lookup-live : (c : LeafCache) (k : Text) (t : ℕ) → (lookup c k t).1 ≡ live t (get k c.store)
unfolding lookup
lookup-live c k t = ground arith

-- The answer that replays a response.
abbrev pub replay_of : Text → JsResponse → Hit
replay_of rid res = record {
  status = unwrap_or res.status 200;
  headers = strip rid (unwrap_or res.headers []);
  body = unwrap_or res.body [];
}

module _ (slot now later : ℕ) (k path : Text) (res : JsResponse) (rid : Text) (c : LeafCache) where
  abbrev pub after : LeafCache
  after = maybe_store slot now later k path res rid c

  abbrev pub entry_of : List (Text × Text) → Entry
  entry_of hs = record {
    path = path;
    status = unwrap_or res.status 200;
    headers = hs;
    body = unwrap_or res.body [];
    expires = now + c.config.ttl;
  }

  pub maybe_store-stored :
      (hs : List (Text × Text))
      → eligible c.config rid res ≡ some hs
      → after
        ≡ record c { store = insert k (entry_of hs) (make_room c.config slot later k c.store) }
  unfolding maybe_store
  maybe_store-stored hs e = ground arith

  pub maybe_store-skipped : eligible c.config rid res ≡ none → after ≡ c
  unfolding maybe_store
  maybe_store-skipped e = ground arith

  -- After a response was offered under a key that the cache did not hold, that key is a hit
  -- exactly when the response may be stored and its time is not over, and the hit replays it.
  pub cached_iff :
      (t : ℕ) (h : Hit)
      → get k c.store ≡ none
      → ((lookup (maybe_store slot now later k path res rid c) k t).1 ≡ some h)
        ↔ (IsStorable c.config res × (t < now + c.config.ttl) × (h ≡ replay_of rid res))
  cached_iff t h absent = elim (Option-cases (eligible c.config rid res)) [
    | inl skipped ↦ (
      λ e. cc (e, lookup-live after k t, maybe_store-skipped skipped, absent),
      λ p. cc (
        (eligible_iff c.config rid res (strip rid (unwrap_or res.headers []))).1 (p.0, refl),
        skipped,
      ),
    )
    | inr (hs, stored) ↦
        let (ok, same) = (eligible_iff c.config rid res hs).0 stored in
        let found : get k after.store ≡ some (entry_of hs) =
          ap (λ (d : LeafCache). get k d.store) (maybe_store-stored hs stored)
          ∙ get-insert_self k (entry_of hs) (make_room c.config slot later k c.store) in
        let answer : (lookup after k t).1
            ≡ (if ltb t (now + c.config.ttl) then some (hit_of (entry_of hs)) else none) =
          lookup-live after k t ∙ ap (live t) found in
        (λ e. (ok, ground arith, ground arith), λ p. ground (arith, answer, same))
  ]

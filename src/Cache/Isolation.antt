-- ===== src/Cache/Isolation.antt =====
-- src/cache.rs: what one key's store and a purge do to the answers under the other keys.
use oxide_http.Prelude.{
  ℕ, ◌+◌, ◌≤◌, leb, ◌&&◌, Bool-cases, true, false, refl, sym, Text, text_eq, text_eq_iff, Option,
  none, some, Bool, not, Option-cases, keep_if, ◌≡◌, ◌∙◌, ap, ◌≢◌, ◌⊎◌, inl, inr, arith, ltb,
  length, length-retain-le, retain,
}
use oxide_http.Bridge.Types.{JsResponse}
use oxide_http.Cache.{
  Entry, Store, LeafCache, CacheConfig, get, lookup, eligible, contains_key, drop_one, make_room,
  maybe_store, purge,
}
use oxide_http.Cache.Eligible.{IsStorable, eligible_iff}
use oxide_http.Cache.Map.{get-remove, get-insert, get-retain, Distinct}
use oxide_http.Cache.Replay.{live, lookup-live, maybe_store-stored, maybe_store-skipped, entry_of}
use oxide_http.Cache.Room.{drop_one-cases}

-- An answer is kept or lost, and never replaced by another.
abbrev pub KeptOrLost {ℓ} : {A : Type ℓ} → Option A → Option A → Type ℓ
KeptOrLost new old = (new ≡ old) ⊎ (new ≡ none)

get-drop_one : (slot : ℕ) (j : Text) (m : Store) → KeptOrLost (get j (drop_one slot m)) (get j m)
get-drop_one slot j m = elim (drop_one-cases slot m) [
  | inl same ↦ inl (ap (get j) same)
  | inr (k, gone) ↦ ground (arith, gone, get-remove k j m)
]

-- How a full cache loses an entry to a new key: it has expired, or so few have that the cap still
-- holds, and it was the one to go.
pub record IsEvicted (config : CacheConfig) (t : ℕ) (k j : Text) (old new : Store) : Type 0 where
  full : config.max_entries ≤ length old
  new_key : contains_key k old ≡ false
  lost : get j new ≡ none
  cause :
      ((e : Entry) × (get j old ≡ some e) × (e.expires ≤ t))
      ⊎ (config.max_entries ≤ length (retain (λ (p : Text × Entry). ltb t p.1.expires) old))

module _ (config : CacheConfig) (slot t : ℕ) (k j : Text) (m : Store) where
  abbrev unexpired : Store
  unexpired = retain (λ (p : Text × Entry). ltb t p.1.expires) m

  make_room-roomy :
      (leb config.max_entries (length m) && not (contains_key k m)) ≡ false
      → make_room config slot t k m ≡ m
  unfolding make_room
  make_room-roomy h = rw (h, make_room) refl

  make_room-swept :
      (leb config.max_entries (length m) && not (contains_key k m)) ≡ true
      → leb config.max_entries (length unexpired) ≡ false
      → make_room config slot t k m ≡ unexpired
  unfolding make_room
  make_room-swept h g = rw (h, g, make_room) refl

  make_room-dropped :
      (leb config.max_entries (length m) && not (contains_key k m)) ≡ true
      → leb config.max_entries (length unexpired) ≡ true
      → make_room config slot t k m ≡ drop_one slot unexpired
  unfolding make_room
  make_room-dropped h g = rw (h, g, make_room) refl

  swept-cases :
      Distinct m
      → (get j unexpired ≡ get j m)
        ⊎ ((get j unexpired ≡ none) × ((e : Entry) × (get j m ≡ some e) × (e.expires ≤ t)))
  swept-cases h =
      let swept : get j unexpired ≡ keep_if (λ e. ltb t e.expires) (get j m) =
        get-retain (λ e. ltb t e.expires) j m h in
      elim (Option-cases (get j m)) [
        | inl missing ↦ inl (swept ∙ (ap (keep_if (λ e. ltb t e.expires)) missing ∙ sym missing))
        | inr (e, found) ↦ elim (Bool-cases (ltb t e.expires)) [
          | inl fresh ↦ inl (swept ∙ rw (found, fresh) refl)
          | inr stale ↦ inr (
            swept ∙ (ap (keep_if (λ e. ltb t e.expires)) found ∙ rw stale refl),
            (e, found, ground arith),
          )
        ]
      ]

  make_room-cases :
      Distinct m
      → (get j (make_room config slot t k m) ≡ get j m)
        ⊎ IsEvicted config t k j m (make_room config slot t k m)
  make_room-cases h =
      elim (Bool-cases (leb config.max_entries (length m) && not (contains_key k m))) [
        | inr roomy ↦ inl (ap (get j) (make_room-roomy roomy))
        | inl full ↦ elim (Bool-cases (leb config.max_entries (length unexpired))) [
          | inr swept ↦ rw (make_room-swept full swept) (elim (swept-cases h) [
            | inl kept ↦ inl kept
            | inr (gone, expired) ↦ inr (record {
              full = ground arith;
              new_key = ground arith;
              lost = gone;
              cause = inl expired;
            })
          ])
          | inl dropping ↦
              rw (make_room-dropped full dropping) (elim (get-drop_one slot j unexpired) [
                | inr gone ↦ inr (record {
                  full = ground arith;
                  new_key = ground arith;
                  lost = gone;
                  cause = inr (ground arith);
                })
                | inl same ↦ elim (swept-cases h) [
                  | inl kept ↦ inl (same ∙ kept)
                  | inr (gone, expired) ↦ inr (record {
                    full = ground arith;
                    new_key = ground arith;
                    lost = same ∙ gone;
                    cause = inl expired;
                  })
                ]
              ])
        ]
      ]

module _ (slot now later : ℕ) (k j path : Text) (res : JsResponse) (rid : Text) (c : LeafCache)
    (distinct : Distinct c.store) (other : k ≢ j) where
  abbrev stored : LeafCache
  stored = maybe_store slot now later k path res rid c

  -- In a store with one entry to a key: storing under one key leaves every other key's entry as it
  -- was, unless the response may be stored, its key is new and the cache is full; and then the entry
  -- is lost, not replaced, and only if it has expired, or if the entries that have not fill the cache.
  pub maybe_store_isolated :
      (get j (maybe_store slot now later k path res rid c).store ≡ get j c.store)
      ⊎ (IsStorable c.config res
          × IsEvicted c.config later k j c.store
              (maybe_store slot now later k path res rid c).store)
  maybe_store_isolated = elim (Option-cases (eligible c.config rid res)) [
    | inl skipped ↦ inl (
        ap (λ (d : LeafCache). get j d.store)
          (maybe_store-skipped slot now later k path res rid c skipped))
    | inr (hs, kept) ↦
        let room : Store = make_room c.config slot later k c.store in
        let entry : Entry = entry_of slot now later k path res rid c hs in
        let there : get j stored.store ≡ get j room =
          ap (λ (d : LeafCache). get j d.store)
            (maybe_store-stored slot now later k path res rid c hs kept)
          ∙ ground (arith, get-insert k j entry room, text_eq_iff k j, other) in
        elim (make_room-cases c.config slot later k j c.store distinct) [
          | inl same ↦ inl (there ∙ same)
          | inr evicted ↦ inr (
            ((eligible_iff c.config rid res hs).0 kept).0,
            record {
              full = evicted.full;
              new_key = evicted.new_key;
              lost = there ∙ evicted.lost;
              cause = evicted.cause;
            },
          )
        ]
  ]

abbrev pub elsewhere : Text → Entry → Bool
elsewhere p e = not (text_eq e.path p)

-- In a store with one entry to a key: purging a path removes exactly the entries stored under
-- it, leaves every other answer as it was, and reports how many were removed.
pub purge_lem :
    (p : Text) (c : LeafCache) (j : Text) (t : ℕ)
    → Distinct c.store
    → ((lookup (purge (some p) c).0 j t).1 ≡ live t (keep_if (elsewhere p) (get j c.store)))
      × ((purge (some p) c).1 + length (purge (some p) c).0.store ≡ length c.store)
unfolding purge
purge_lem p c j t h = (
  lookup-live (purge (some p) c).0 j t ∙ ap (live t) (get-retain (elsewhere p) j c.store h),
  omega (arith, length-retain-le (λ (q : Text × Entry). elsewhere p q.1) c.store),
)

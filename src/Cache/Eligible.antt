-- ===== src/Cache/Eligible.antt =====
-- src/cache.rs: which responses `maybe_store` keeps, and which of their headers.
use oxide_http.Prelude.{
  ◌≤◌, Text, codes, text_eq, text_eq_iff, to_lowercase, contains, none, some, List, [], ◌∷◌, map,
  Bool, true, false, not, ◌&&◌, ◌||◌, Bool-cases, Option-cases, ◌≡◌, refl, sym, ◌∙◌, ◌≢◌, ◌↔◌, inl,
  inr, arith, unwrap_or, All, retain, ap,
}
use mathlib.Core.Option
use oxide_http.Bridge.Types.{KvPair, JsResponse}
use oxide_http.Cache.{CacheConfig, stored_headers, body_len, eligible}

abbrev pub set_cookie : Text
set_cookie = codes "set-cookie"

abbrev pub cache_control : Text
cache_control = codes "cache-control"

-- A header under which the handler lets the response be shared between clients.
pub record IsShareable (kv : KvPair) : Type 0 where
  pub no_cookie : to_lowercase kv.key ≢ set_cookie
  pub no_opt_out :
      to_lowercase kv.key ≡ cache_control
      → (contains (to_lowercase kv.value) (codes "no-store") ≡ false)
        × (contains (to_lowercase kv.value) (codes "private") ≡ false)

-- A plain 200 whose body fits and whose headers all let it be shared.
pub record IsStorable (config : CacheConfig) (res : JsResponse) : Type 0 where
  pub plain : unwrap_or res.status 200 ≡ 200
  pub whole : unwrap_or res.streamed false ≡ false
  pub fits : body_len res ≤ config.max_body_bytes
  pub shareable : All IsShareable (unwrap_or res.headers [])

-- The stored copy of the headers: names in lower case, without the request's own id.
abbrev pub lowered : KvPair → Text × Text
lowered kv = (to_lowercase kv.key, kv.value)

abbrev pub strip : Text → List KvPair → List (Text × Text)
strip request_id_header pairs =
    map lowered (retain (λ kv. not (text_eq (to_lowercase kv.key) request_id_header)) pairs)

-- Whether one header ends the copying.
blocks : Text → Text → Bool
blocks name v =
    text_eq name set_cookie
    || (text_eq name cache_control
        && (contains v (codes "no-store") || contains v (codes "private")))

blocks_iff :
    (kv : KvPair) → (blocks (to_lowercase kv.key) (to_lowercase kv.value) ≡ false) ↔ IsShareable kv
unfolding blocks
blocks_iff kv = (
  λ h. record {
    no_cookie = ground (arith, text_eq_iff (to_lowercase kv.key) set_cookie);
    no_opt_out = λ e. ground (arith, text_eq_iff (to_lowercase kv.key) cache_control);
  },
  λ s. ground (
    arith,
    text_eq_iff (to_lowercase kv.key) set_cookie,
    text_eq_iff (to_lowercase kv.key) cache_control,
    s.no_cookie,
    s.no_opt_out,
  ),
)

module _ (rid : Text) where
  stored_headers-blocked :
      (kv : KvPair) (pairs : List KvPair)
      → blocks (to_lowercase kv.key) (to_lowercase kv.value) ≡ true
      → stored_headers rid (kv ∷ pairs) ≡ none
  unfolding stored_headers blocks
  stored_headers-blocked kv pairs h = ground arith

  stored_headers-skipped :
      (kv : KvPair) (pairs : List KvPair)
      → blocks (to_lowercase kv.key) (to_lowercase kv.value) ≡ false
      → text_eq (to_lowercase kv.key) rid ≡ true
      → stored_headers rid (kv ∷ pairs) ≡ stored_headers rid pairs
  unfolding stored_headers blocks
  stored_headers-skipped kv pairs h e = ground arith

  stored_headers-copied :
      (kv : KvPair) (pairs : List KvPair)
      → blocks (to_lowercase kv.key) (to_lowercase kv.value) ≡ false
      → text_eq (to_lowercase kv.key) rid ≡ false
      → stored_headers rid (kv ∷ pairs)
        ≡ Option.map (λ hs. lowered kv ∷ hs) (stored_headers rid pairs)
  unfolding stored_headers blocks
  stored_headers-copied kv pairs h e = ground arith

  stored_headers-nil : stored_headers rid [] ≡ some []
  unfolding stored_headers
  stored_headers-nil = refl

  stored_headers_sound :
      (pairs : List KvPair) {hs : List (Text × Text)}
      → stored_headers rid pairs ≡ some hs
      → All IsShareable pairs × (hs ≡ strip rid pairs)
  stored_headers_sound [] e = (tt, cc stored_headers-nil)
  stored_headers_sound (kv ∷ pairs) {hs} e =
      elim (Bool-cases (blocks (to_lowercase kv.key) (to_lowercase kv.value))) [
        | inl bad ↦ cc (stored_headers-blocked kv pairs bad)
        | inr good ↦ elim (Bool-cases (text_eq (to_lowercase kv.key) rid)) [
          | inl own ↦
              let (safe, same) =
                stored_headers_sound pairs (sym (stored_headers-skipped kv pairs good own) ∙ e) in
              (((blocks_iff kv).0 good, safe), rw own same)
          | inr other ↦ elim (Option-cases (stored_headers rid pairs)) [
            | inl missed ↦ cc (stored_headers-copied kv pairs good other, missed)
            | inr (gs, found) ↦
                let (safe, same) = stored_headers_sound pairs found in
                (
                  ((blocks_iff kv).0 good, safe),
                  rw other (cc (stored_headers-copied kv pairs good other, found, same, e)),
                )
          ]
        ]
      ]

  stored_headers_complete :
      (pairs : List KvPair)
      → All IsShareable pairs
      → stored_headers rid pairs ≡ some (strip rid pairs)
  stored_headers_complete [] h = stored_headers-nil
  stored_headers_complete (kv ∷ pairs) h =
      let good = (blocks_iff kv).1 h.0 in
      let later = stored_headers_complete pairs h.1 in
      elim (Bool-cases (text_eq (to_lowercase kv.key) rid)) [
        | inl own ↦ rw own (stored_headers-skipped kv pairs good own ∙ later)
        | inr other ↦ rw other (cc (stored_headers-copied kv pairs good other, later))
      ]

module _ (config : CacheConfig) (rid : Text) (res : JsResponse) (hs : List (Text × Text)) where
  eligible-stored_headers :
      eligible config rid res ≡ some hs
      → (unwrap_or res.status 200 ≡ 200)
        × (unwrap_or res.streamed false ≡ false)
        × (body_len res ≤ config.max_body_bytes)
        × (stored_headers rid (unwrap_or res.headers []) ≡ some hs)
  unfolding eligible
  eligible-stored_headers e = ground arith

  stored_headers-eligible :
      unwrap_or res.status 200 ≡ 200
      → unwrap_or res.streamed false ≡ false
      → body_len res ≤ config.max_body_bytes
      → eligible config rid res ≡ stored_headers rid (unwrap_or res.headers [])
  unfolding eligible
  stored_headers-eligible a b c = ground arith

  -- A response is stored exactly when it is a plain 200 that fits and may be shared, and then
  -- under its own headers, names in lower case, without the request id.
  pub eligible_iff :
      (eligible config rid res ≡ some hs)
      ↔ (IsStorable config res × (hs ≡ strip rid (unwrap_or res.headers [])))
  eligible_iff = (
    λ e.
        let (plain, whole, fits, found) = eligible-stored_headers e in
        let (shareable, same) = stored_headers_sound rid (unwrap_or res.headers []) found in
        (record { plain = plain; whole = whole; fits = fits; shareable = shareable }, same),
    λ p.
        stored_headers-eligible p.0.plain p.0.whole p.0.fits
        ∙ stored_headers_complete rid (unwrap_or res.headers []) p.0.shareable
        ∙ ap some (sym p.1),
  )

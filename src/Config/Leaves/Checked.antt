-- ===== src/Config/Leaves/Checked.antt =====
-- src/lib.rs, `listen`: what is known of the leaves once every route has been compiled.
use oxide_http.Prelude.{
  as_u64, ℕ, ℤ, pos, negsuc, ◌<◌, ◌*◌, as_u64, Text, Option, none, some, [], true, false, ltb,
  is_positive, unwrap_or, length, set, get_or, length-set, get_or-set_here, get_or-set_other,
  Bool-cases, ◌≡◌, refl, sym, ◌∙◌, ap, subst, inl, inr, arith, ok,
}
use oxide_http.Prelude.Results.{step_ok}
use mathlib.Core.Option
use native.Mathlib.Decide.{ℕ_discrete}
use oxide_http.Cache.{LeafCache, new}
use oxide_http.Multipart.{MultipartConfig}
use oxide_http.Schema.{JsonSchema, LeafSchema, build, compile}
use oxide_http.Config.{CacheOptions, MultipartOptions, RouteDef, positive_usize, multipart_config}
use oxide_http.Config.Leaves.{
  cache_config, leaf_cache, is_cache_method, check_form, check_cache_options, check_cache, Slots,
  fill_slot,
}

-- A route for forms has no schema for its body.
abbrev pub FormOptions : Option MultipartOptions → Option Text → Type 0
FormOptions none body = Unit
FormOptions (some o) body = body ≡ none

-- A cached route has a method that may be served from a cache, and a lifetime.
abbrev pub CachedOptions : Text → Option CacheOptions → Type 0
CachedOptions method none = Unit
CachedOptions method (some c) = (is_cache_method method ≡ true) × (is_positive c.ttl_ms ≡ true)

abbrev pub RouteOk : RouteDef → Type 0
RouteOk r = FormOptions r.multipart r.body_schema × CachedOptions r.method r.cache

-- An empty cache that can hold something.
abbrev pub CacheOk : Option LeafCache → Type 0
CacheOk none = Unit
CacheOk (some c) =
    (0 < c.config.ttl) × (0 < c.config.max_entries) × (0 < c.config.max_body_bytes) × (c.store ≡ [])

pub check_form-FormOptions :
    (r : RouteDef) → check_form r ≡ ok tt → FormOptions r.multipart r.body_schema
unfolding check_form
check_form-FormOptions r e = go r.multipart r.body_schema refl refl
  where
    go :
        (m : Option MultipartOptions) (b : Option Text)
        → r.multipart ≡ m
        → r.body_schema ≡ b
        → FormOptions m b
    go none b p q = tt
    go (some o) none p q = refl
    go (some o) (some b) p q = cc (rw (p, q) at e)

check_cache_options-CachedOptions :
    (r : RouteDef) (c : Option CacheOptions)
    → check_cache_options r c ≡ ok tt
    → CachedOptions r.method c
unfolding check_cache_options
check_cache_options-CachedOptions r none e = tt
check_cache_options-CachedOptions r (some c) e = elim (Bool-cases (is_cache_method r.method)) [
  | inr other ↦ cc (rw other at e)
  | inl safe ↦ elim (Bool-cases (is_positive c.ttl_ms)) [
    | inl lasts ↦ (safe, lasts)
    | inr none_left ↦ cc (rw (safe, none_left) at e)
  ]
]

pub check_cache-CachedOptions :
    (r : RouteDef) → check_cache r ≡ ok tt → CachedOptions r.method r.cache
unfolding check_cache
check_cache-CachedOptions r e = check_cache_options-CachedOptions r r.cache e

as_u64-positive : (z : ℤ) → is_positive z ≡ true → 0 < as_u64 z
unfolding as_u64
as_u64-positive (pos n) h = ground arith
as_u64-positive (negsuc n) h = cc

positive_usize-positive : (v : Option ℤ) (d : ℕ) → 0 < d → 0 < unwrap_or (positive_usize v) d
unfolding positive_usize
positive_usize-positive none d h = h
positive_usize-positive (some z) d h = elim (Bool-cases (is_positive z)) [
  | inl above ↦ rw (above) (as_u64-positive z above)
  | inr below ↦ rw (below) h
]

pub positive_usize-some : (v : Option ℤ) (n : ℕ) → positive_usize v ≡ some n → 0 < n
unfolding positive_usize
positive_usize-some none n e = cc
positive_usize-some (some z) n e = elim (Bool-cases (is_positive z)) [
  | inl above ↦
      let same : as_u64 z ≡ n = ground (arith, rw above at e) in
      subst (λ m. 0 < m) same (as_u64-positive z above)
  | inr below ↦ cc (rw below at e)
]

leaf_cache-CacheOk :
    (method : Text) (o : Option CacheOptions)
    → CachedOptions method o
    → CacheOk (Option.map leaf_cache o)
unfolding leaf_cache cache_config new
leaf_cache-CacheOk method none h = tt
leaf_cache-CacheOk method (some c) h = (
  as_u64-positive c.ttl_ms h.1,
  positive_usize-positive c.max_entries 1024 (omega arith),
  positive_usize-positive c.max_body_bytes (1024 * 1024) (omega arith),
  refl,
)

module _ (json : JsonSchema) where
  -- A leaf for forms has no schema for its body.
  abbrev pub FormOk : Option MultipartConfig → Option (LeafSchema json) → Type 0
  FormOk none s = Unit
  FormOk (some m) none = Unit
  FormOk (some m) (some s) = s.body ≡ none

  pub record LeafOk (s : Slots json) (i : ℕ) : Type 0 where
    pub form : FormOk (get_or s.multipart i none) (get_or s.schemas i none)
    pub cached : CacheOk (get_or s.cache i none)

  pub build-body :
      (body query params : Option Text) (leaf : LeafSchema json)
      → build json (record { body = body; query = query; params = params }) ≡ ok leaf
      → body ≡ none
      → leaf.body ≡ none
  unfolding build compile
  build-body none query params leaf e absent =
      let (c1, e1, r1) = step_ok (compile json query) _ e in
      let (c2, e2, r2) = step_ok (compile json params) _ r1 in
      let built_is : record { body = none; query = c1; params = c2 } ≡ leaf = cc (r2) in
      ap (λ (s : LeafSchema json). s.body) (sym built_is)
  build-body (some t) query params leaf e absent = cc

  FormOk-filled :
      (m : Option MultipartOptions) (body : Option Text) (leaf : LeafSchema json)
      → FormOptions m body
      → (body ≡ none → leaf.body ≡ none)
      → FormOk (Option.map multipart_config m) (some leaf)
  FormOk-filled none body leaf h f = tt
  FormOk-filled (some o) body leaf h f = f h

  -- The slots of n leaves, each of them in order.
  pub record IsSound (n : ℕ) (s : Slots json) : Type 0 where
    pub schemas_sized : length s.schemas ≡ n
    pub forms_sized : length s.multipart ≡ n
    pub caches_sized : length s.cache ≡ n
    pub leaves : (i : ℕ) → LeafOk s i

  fill_slot-out :
      (n : ℕ) (r : RouteDef) (leaf : LeafSchema json) (s : Slots json)
      → ltb (as_u64 r.leaf_id) n ≡ false
      → fill_slot json n r leaf s ≡ s
  unfolding fill_slot
  fill_slot-out n r leaf s h = rw h refl

  fill_slot-in :
      (n : ℕ) (r : RouteDef) (leaf : LeafSchema json) (s : Slots json)
      → ltb (as_u64 r.leaf_id) n ≡ true
      → fill_slot json n r leaf s ≡ record s {
        schemas = set s.schemas (as_u64 r.leaf_id) (some leaf);
        multipart = set s.multipart (as_u64 r.leaf_id) (Option.map multipart_config r.multipart);
        cache = set s.cache (as_u64 r.leaf_id) (Option.map leaf_cache r.cache);
      }
  unfolding fill_slot
  fill_slot-in n r leaf s h = rw h refl

  module _ (n : ℕ) (r : RouteDef) (leaf : LeafSchema json) (s : Slots json) where
    LeafOk-filled :
        (i : ℕ)
        → (as_u64 r.leaf_id) < n
        → RouteOk r
        → (r.body_schema ≡ none → leaf.body ≡ none)
        → IsSound n s
        → LeafOk
            (record s {
              schemas = set s.schemas (as_u64 r.leaf_id) (some leaf);
              multipart =
                  set s.multipart (as_u64 r.leaf_id) (Option.map multipart_config r.multipart);
              cache = set s.cache (as_u64 r.leaf_id) (Option.map leaf_cache r.cache);
            })
            i
    LeafOk-filled i within good plain h = elim (ℕ_discrete (as_u64 r.leaf_id) i) [
      | yes here ↦
          let at_schema =
            get_or-set_here s.schemas (as_u64 r.leaf_id) (some leaf) none
              (omega (arith, h.schemas_sized)) in
          let at_form =
            get_or-set_here s.multipart (as_u64 r.leaf_id) (Option.map multipart_config r.multipart)
              none (omega (arith, h.forms_sized)) in
          let at_cache =
            get_or-set_here s.cache (as_u64 r.leaf_id) (Option.map leaf_cache r.cache) none
              (omega (arith, h.caches_sized)) in
          rw (← here) (record {
            form =
                rw (at_schema, at_form) (FormOk-filled r.multipart r.body_schema leaf good.0 plain);
            cached = rw at_cache (leaf_cache-CacheOk r.method r.cache good.1);
          })
      | no other ↦ record {
        form =
            rw
              (
                get_or-set_other s.schemas (as_u64 r.leaf_id) i (some leaf) none other,
                get_or-set_other s.multipart (as_u64 r.leaf_id) i
                    (Option.map multipart_config r.multipart) none other,
              )
              (h.leaves i).form;
        cached =
            rw
              (get_or-set_other s.cache (as_u64 r.leaf_id) i (Option.map leaf_cache r.cache) none
                other)
              (h.leaves i).cached;
      }
    ]

    pub fill_slot-IsSound :
        RouteOk r
        → (r.body_schema ≡ none → leaf.body ≡ none)
        → IsSound n s
        → IsSound n (fill_slot json n r leaf s)
    fill_slot-IsSound good plain h = elim (Bool-cases (ltb (as_u64 r.leaf_id) n)) [
      | inr out ↦ rw (fill_slot-out n r leaf s out) h
      | inl within ↦ rw (fill_slot-in n r leaf s within) (record {
        schemas_sized = length-set s.schemas (as_u64 r.leaf_id) (some leaf) ∙ h.schemas_sized;
        forms_sized =
            length-set s.multipart (as_u64 r.leaf_id) (Option.map multipart_config r.multipart)
            ∙ h.forms_sized;
        caches_sized =
            length-set s.cache (as_u64 r.leaf_id) (Option.map leaf_cache r.cache) ∙ h.caches_sized;
        leaves = λ i. LeafOk-filled i (ground arith) good plain h;
      })
    ]

-- ===== src/Config/Leaves/Compiled.antt =====
-- src/lib.rs, `listen`: what the loop over the routes lets through.
use oxide_http.Prelude.{
  ℕ, zero, suc, ◌++◌, Text, Option, none, some, List, [], ◌∷◌, length, get_or, All, ◌≡◌, refl, sym,
  ap, subst, ok,
}
use oxide_http.Prelude.Results.{step_ok}
use oxide_http.Cache.{LeafCache, new}
use oxide_http.Multipart.{MultipartConfig}
use oxide_http.Cache.Valid.{IsValid, run-new-IsValid, Op, run}
use oxide_http.Schema.{JsonSchema, LeafSchema, build}
use oxide_http.Config.{RouteDef}
use oxide_http.Config.Leaves.{
  schema_def, check_form, check_cache, Slots, fill_slot, add_leaf, add_leaves, compile_routes,
  router_def, nones,
}
use oxide_http.Config.Leaves.Checked.{
  RouteOk, CacheOk, LeafOk, IsSound, check_form-FormOptions, check_cache-CachedOptions, build-body,
  fill_slot-IsSound,
}

module _ (A : Type 0) where
  get_or-nones :
      (routes : List RouteDef) (i : ℕ) → get_or {A = Option A} (nones routes) i none ≡ none
  get_or-nones [] i = refl
  get_or-nones (r ∷ routes) zero = refl
  get_or-nones (r ∷ routes) (suc i) = get_or-nones routes i

  length-nones : (routes : List RouteDef) → length {A = Option A} (nones routes) ≡ length routes
  length-nones [] = refl
  length-nones (r ∷ routes) = ap suc (length-nones routes)

new-empty : (c : LeafCache) → c.store ≡ [] → new c.config ≡ c
unfolding new
new-empty c e = λ i. record { config = c.config; store = sym e i }

module _ (json : JsonSchema) where
  abbrev with_def : Slots json → RouteDef → Slots json
  with_def s r = record s { defs = s.defs ++ router_def json r ∷ [] }

  IsSound-with_def :
      (n : ℕ) (s : Slots json) (r : RouteDef) → IsSound json n s → IsSound json n (with_def s r)
  IsSound-with_def n s r h = record {
    schemas_sized = h.schemas_sized;
    forms_sized = h.forms_sized;
    caches_sized = h.caches_sized;
    leaves = λ i. record { form = (h.leaves i).form; cached = (h.leaves i).cached };
  }

  add_leaf-IsSound :
      (n : ℕ) (r : RouteDef) (s s' : Slots json)
      → add_leaf json n r s ≡ ok s'
      → IsSound json n s
      → RouteOk r × IsSound json n s'
  unfolding add_leaf
  add_leaf-IsSound n r s s' e h =
      let (u, e1, r1) = step_ok (check_form r) _ e in
      let (leaf, e2, r2) = step_ok (build json (schema_def r)) _ r1 in
      let (v, e3, r3) =
        step_ok (check_cache r) (λ w. ok (with_def (fill_slot json n r leaf s) r)) r2 in
      let good : RouteOk r = (check_form-FormOptions r e1, check_cache-CachedOptions r e3) in
      let filled : IsSound json n (fill_slot json n r leaf s) =
        fill_slot-IsSound json n r leaf s good
          (build-body json r.body_schema r.query_schema r.params_schema leaf e2) h in
      let same : with_def (fill_slot json n r leaf s) r ≡ s' = cc (r3) in
      (good, subst (IsSound json n) same (IsSound-with_def n (fill_slot json n r leaf s) r filled))

  add_leaves-IsSound :
      (n : ℕ) (routes : List RouteDef) (s s' : Slots json)
      → add_leaves json n routes s ≡ ok s'
      → IsSound json n s
      → All RouteOk routes × IsSound json n s'
  unfolding add_leaves
  add_leaves-IsSound n [] s s' e h =
      let same : s ≡ s' = cc (e) in (tt, subst (IsSound json n) same h)
  add_leaves-IsSound n (r ∷ routes) s s' e h =
      let (s1, e1, r1) = step_ok (add_leaf json n r s) (add_leaves json n routes) e in
      let (good, h1) = add_leaf-IsSound n r s s1 e1 h in
      let (rest, h2) = add_leaves-IsSound n routes s1 s' r1 h1 in ((good, rest), h2)

  compile_routes-IsSound :
      (routes : List RouteDef) (s : Slots json)
      → compile_routes json routes ≡ ok s
      → All RouteOk routes × IsSound json (length routes) s
  unfolding compile_routes
  compile_routes-IsSound routes s e = add_leaves-IsSound (length routes) routes _ s e (record {
    schemas_sized = length-nones (LeafSchema json) routes;
    forms_sized = length-nones MultipartConfig routes;
    caches_sized = length-nones LeafCache routes;
    leaves = λ i. record {
      form = rw (get_or-nones (LeafSchema json) routes i, get_or-nones MultipartConfig routes i) tt;
      cached = rw (get_or-nones LeafCache routes i) tt;
    };
  })

  -- Once the routes are compiled, no route for forms has a schema for its body, every cached route
  -- has the method GET, HEAD, QUERY or ALL and a lifetime above 0, and so for the leaves: a leaf for
  -- forms checks no body, and the cache of a leaf is empty, with a lifetime and room for an entry.
  pub compile_routes-LeafOk :
      (routes : List RouteDef) (s : Slots json) (i : ℕ)
      → compile_routes json routes ≡ ok s
      → All RouteOk routes × LeafOk json s i
  compile_routes-LeafOk routes s i e =
      let (good, sound) = compile_routes-IsSound routes s e in (good, sound.leaves i)

  -- Whatever is done to the cache of a leaf that `listen` has set up, it stays within its number of
  -- entries, holds one entry to a key, and every entry is a plain 200 within the body limit, without a
  -- cookie, without a cache-control of `no-store` or `private`, and without a header whose name, which
  -- is stored in lower case, is the configured name of the request id as it stands.
  pub compile_routes-IsValid :
      (routes : List RouteDef) (s : Slots json) (i : ℕ) (c : LeafCache) (rid : Text) (ops : List Op)
      → compile_routes json routes ≡ ok s
      → get_or s.cache i none ≡ some c
      → IsValid rid (run rid c ops)
  compile_routes-IsValid routes s i c rid ops e here =
      let (good, sound) = compile_routes-IsSound routes s e in
      let found : CacheOk (some c) = subst CacheOk here (sound.leaves i).cached in
      let (lasts, holds, wide, empty) = found in
      let same : new c.config ≡ c = new-empty c empty in
      subst (λ (d : LeafCache). IsValid rid (run rid d ops)) same
        (run-new-IsValid c.config rid ops holds)

-- ===== src/Config/Leaves.antt =====
-- src/lib.rs, `listen`: the loop over the routes, which compiles the schemas, forms and caches of the
-- leaves and checks the options of each route.
pub mod Checked
pub mod Compiled
use oxide_http.Prelude.{
  ℕ, as_u64, Text, codes, text_eq, to_uppercase, to_lowercase, Option, none, some, List, [], ◌∷◌,
  ◌++◌, map, Bool, true, false, not, ◌&&◌, ◌||◌, ltb, ◌*◌, if◌then◌else◌, is_some, is_positive,
  unwrap_or, length, set, String, Result, ok, err,
}
use oxide_http.Prelude.Results.{◌>>=◌, ◌>>◌}
use mathlib.Core.Option
use oxide_http.Cache.{CacheConfig, LeafCache, new}
use oxide_http.Multipart.{MultipartConfig}
use oxide_http.Router
use oxide_http.Schema.{JsonSchema, LeafSchema, SchemaDef, build}
use oxide_http.Config.{
  CacheOptions, MultipartOptions, RouteDef, positive_usize, lowercase_all, multipart_config,
}

unfoldable pub cache_config : CacheOptions → CacheConfig
unfolding as_u64 positive_usize to_lowercase
cache_config c = record {
  ttl = as_u64 c.ttl_ms;
  vary = lowercase_all (unwrap_or c.vary []);
  max_entries = unwrap_or (positive_usize c.max_entries) 1024;
  max_body_bytes = unwrap_or (positive_usize c.max_body_bytes) (1024 * 1024);
}

unfoldable pub leaf_cache : CacheOptions → LeafCache
unfolding cache_config new
leaf_cache c = new (cache_config c)

route_error : RouteDef → String → Result (Unit {0})
route_error r why =
    err (codes "route " ++ (r.method ++ (codes " " ++ (r.path ++ (codes ": " ++ codes why)))))

unfoldable pub is_cache_method : Text → Bool
unfolding to_uppercase
is_cache_method method =
    let m : Text = to_uppercase method in
    text_eq m (codes "GET")
    || (text_eq m (codes "HEAD") || (text_eq m (codes "QUERY") || text_eq m (codes "ALL")))

unfoldable pub check_form : RouteDef → Result (Unit {0})
unfolding route_error
check_form r =
    if is_some r.multipart && is_some r.body_schema
    then route_error r
        "schema.body is not supported on a multipart route — validate the parsed parts inside the handler"
    else ok tt

check_cache_options : RouteDef → Option CacheOptions → Result (Unit {0})
unfolding route_error is_cache_method
check_cache_options r none = ok tt
check_cache_options r (some c) =
    if not (is_cache_method r.method)
    then route_error r
        "cache is only supported on GET/HEAD/QUERY (and ALL, where only safe methods are served from it)"
    else if not (is_positive c.ttl_ms)
    then route_error r "cache.ttl must be > 0"
    else ok tt

unfoldable pub check_cache : RouteDef → Result (Unit {0})
unfolding check_cache_options
check_cache r = check_cache_options r r.cache

abbrev pub schema_def : RouteDef → SchemaDef
schema_def r = record { body = r.body_schema; query = r.query_schema; params = r.params_schema }

-- `(0..n).map(|_| None)`.
abbrev pub nones : {A : Type 0} → List RouteDef → List (Option A)
nones routes = map (λ r. none) routes

module _ (json : JsonSchema) where
  -- The slots of the leaves, and the definitions that the router gets.
  pub record Slots : Type 0 where
    pub schemas : List (Option (LeafSchema json))
    pub multipart : List (Option MultipartConfig)
    pub cache : List (Option LeafCache)
    pub defs : List Router.RouteDef

  abbrev pub router_def : RouteDef → Router.RouteDef
  router_def r = record { method = r.method; path = r.path; leaf_id = r.leaf_id }

  -- `as usize`: a negative id is beyond every slot.
  unfoldable pub fill_slot : ℕ → RouteDef → LeafSchema json → Slots → Slots
  unfolding multipart_config leaf_cache as_u64
  fill_slot n r leaf s =
      let index : ℕ = as_u64 r.leaf_id in
      if ltb index n
      then record s {
        schemas = set s.schemas index (some leaf);
        multipart = set s.multipart index (Option.map multipart_config r.multipart);
        cache = set s.cache index (Option.map leaf_cache r.cache);
      }
      else s

  -- One round of the loop.
  unfoldable pub add_leaf : ℕ → RouteDef → Slots → Result Slots
  unfolding check_form check_cache build fill_slot
  add_leaf n r s = do
    check_form r
    leaf ← build json (schema_def r)
    check_cache r
    let filled = fill_slot n r leaf s
    ok (record filled { defs = filled.defs ++ router_def r ∷ [] })

  unfoldable pub add_leaves : ℕ → List RouteDef → Slots → Result Slots
  unfolding add_leaf
  add_leaves n [] s = ok s
  add_leaves n (r ∷ routes) s = add_leaf n r s >>= add_leaves n routes

  unfoldable pub compile_routes : List RouteDef → Result Slots
  unfolding add_leaves
  compile_routes routes =
      add_leaves (length routes) routes (record {
        schemas = nones routes;
        multipart = nones routes;
        cache = nones routes;
        defs = [];
      })

  abbrev no_schema : LeafSchema json
  no_schema = record { body = none; query = none; params = none }

  -- `unwrap_or_default` of each slot.
  unfoldable pub schemas_of : Slots → List (LeafSchema json)
  schemas_of s = map (λ (o : Option (LeafSchema json)). unwrap_or o no_schema) s.schemas

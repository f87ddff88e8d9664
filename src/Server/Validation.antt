-- ===== src/Server/Validation.antt =====
-- src/server.rs, `dispatch` and `validation_response`: which leaf a request meets, and how its
-- schema of src/schema.rs serves the checks of `dispatch`.
use oxide_http.Prelude.{
  ℕ, ℤ, pos, negsuc, Text, codes, Option, none, some, List, [], ◌∷◌, Bool, true, false,
  if◌then◌else◌, ◌≡◌, refl, get_elem?, arith,
}
use mathlib.Core.Option
use oxide_http.Cache.{LeafCache}
use oxide_http.Body.{Event, buffered, buffer_body}
use oxide_http.Multipart.{MultipartConfig}
use oxide_http.Schema.{
  JsonSchema, LeafSchema, Issue, Validated, Verdict, valid, invalid, validate, schema_is_empty,
  has_body, errors_body,
}
use oxide_http.Schema.Outcome.{Accepts, validate_iff}
use oxide_http.Server.{Http, full, Response, builder_or_500}
use oxide_http.Server.Pipeline.{
  Schema, Leaf, Env, ReqData, whole, Handed, goes_on, dispatch, buffer_for_schema,
}
use oxide_http.Server.Checked.{PlainOf, dispatch-validated}

-- An index by `leaf_id`, which is negative for the handler of unknown paths.
unfoldable pub slot {ℓ} : {A : Type ℓ} → List A → ℤ → Option A
slot xs (pos n) = get_elem? xs n
slot xs (negsuc n) = none

abbrev pub flatten {ℓ} : {A : Type ℓ} → Option (Option A) → Option A
flatten none = none
flatten (some o) = o

abbrev pub accepted : Verdict → Option Validated
accepted (valid v) = some v
accepted (invalid issues) = none

module _ (json : JsonSchema) (http : Http) where
  unfoldable pub validation_response : List Issue → Response
  unfolding builder_or_500 errors_body
  validation_response issues = builder_or_500 http (record {
    status = 400;
    headers = (codes "content-type", codes "application/json; charset=utf-8") ∷ [];
    body = full (errors_body json issues);
  })

  -- An accepted request has no refusal.
  unfoldable pub refusal : Verdict → Response
  unfolding validation_response
  refusal (valid v) = validation_response []
  refusal (invalid issues) = validation_response issues

  abbrev pub serving : LeafSchema json → Schema
  serving s = record {
    has_body = has_body json s;
    validate = λ query params body. accepted (validate json s query params body);
    errors = λ query params body. refusal (validate json s query params body);
  }

  -- A schema without parts counts as none.
  unfoldable pub served : LeafSchema json → Option Schema
  unfolding validate has_body schema_is_empty refusal
  served s = if schema_is_empty json s then none else some (serving s)

  unfoldable pub select_leaf :
      List (LeafSchema json) → List (Option MultipartConfig) → List (Option LeafCache) → ℤ → Leaf
  unfolding slot served
  select_leaf schemas multipart cache leaf_id = record {
    schema = flatten (Option.map served (slot schemas leaf_id));
    multipart = flatten (slot multipart leaf_id);
    cache = flatten (slot cache leaf_id);
  }

  accepted-valid :
      (verdict : Verdict) (v : Validated) → accepted verdict ≡ some v → verdict ≡ valid v
  accepted-valid (valid w) v e = cc
  accepted-valid (invalid issues) v e = cc

  module _ (schemas : List (LeafSchema json)) (forms : List (Option MultipartConfig))
      (caches : List (Option LeafCache)) (leaf_id : ℤ) where
    abbrev pub leaf : Leaf
    leaf = select_leaf schemas forms caches leaf_id

    select_leaf-serving :
        (s : LeafSchema json)
        → slot schemas leaf_id ≡ some s
        → schema_is_empty json s ≡ false
        → leaf.schema ≡ some (serving s)
    unfolding select_leaf served
    select_leaf-serving s here parts = rw here (rw (parts, served) refl)

    select_leaf-plain : flatten (slot forms leaf_id) ≡ none → leaf.multipart ≡ none
    unfolding select_leaf
    select_leaf-plain e = e

    has_body-parts : (s : LeafSchema json) → has_body json s ≡ true → schema_is_empty json s ≡ false
    unfolding has_body schema_is_empty
    has_body-parts s h = ground arith

    module _ (env : Env) (req : ReqData) (params : List (Text × Text)) (head : Bool) (id : Text)
        (now : ℕ) (events : List Event) where
      buffered_for_schema :
          (s : LeafSchema json)
          → leaf.schema ≡ some (serving s)
          → leaf.multipart ≡ none
          → has_body json s ≡ true
          → buffer_for_schema env leaf req params head id now events true ≡ true
      buffered_for_schema s here plain_leaf checks = rw (here, plain_leaf, checks) refl

      -- A request with a body, on a route that takes no form and whose schema has a body part,
      -- reaches JS only if its body came whole, in time and within the limit, and its query, its
      -- path parameters and the plain form of that body are accepted by the schema. JS gets the
      -- bytes that came and the values that the schema accepted.
      pub dispatch-Accepts :
          (s : LeafSchema json) (h : Handed)
          → slot schemas leaf_id ≡ some s
          → has_body json s ≡ true
          → flatten (slot forms leaf_id) ≡ none
          → dispatch env leaf req params head id now events true ≡ goes_on h
          → (raw : Text) × (b : Text) × ((buffer_body env.body_limit env.read_timeout [] events).0
              ≡ buffered raw)
            × PlainOf env leaf req params head id now events true raw b
            × Accepts json s req.query params (some b) h.validated
            × (h.body ≡ whole raw)
      dispatch-Accepts s h here checks no_form e =
          let serves : leaf.schema ≡ some (serving s) =
            select_leaf-serving s here (has_body-parts s checks) in
          let plain_leaf : leaf.multipart ≡ none = select_leaf-plain no_form in
          let (raw, b, came, plain_form, checked, given) =
            dispatch-validated env leaf req params head id now events true (serving s) h serves
              plain_leaf (buffered_for_schema s serves plain_leaf checks) e in
          let is_valid : validate json s req.query params (some b) ≡ valid h.validated =
            accepted-valid (validate json s req.query params (some b)) h.validated checked in
          (
            raw,
            b,
            came,
            plain_form,
            (validate_iff json s req.query params (some b) h.validated).0 is_valid,
            given,
          )

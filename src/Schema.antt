-- ===== src/Schema.antt =====
-- src/schema.rs: the check of a route's body, query and path parameters. `serde_json`'s parser and
-- printer, `jsonschema` and the parser of `f64` are a parameter. An `f64` is its 64 bits. A JSON
-- object is the sorted map of `serde_json`, one field to a key.
pub mod Coercion
pub mod Outcome
mod Tests
use oxide_http.Prelude.{
  ℕ, ℤ, ◌+◌, ◌/◌, ◌%◌, ◌^◌, Text, codes, text_eq, to_lowercase, parse_i64, Option, none, some, List,
  [], ◌∷◌, ◌++◌, map, Bool, true, false, not, ◌&&◌, ◌||◌, ◌==◌, if◌then◌else◌, is_some, is_empty,
  Result, ok, err,
}
use oxide_http.Prelude.Results.{◌>>=◌}
use mathlib.Core.Option
use oxide_http.Bridge.Types.{KvPair}
use oxide_http.Router.{text_le}

mutual
  -- `serde_json::Value`.
  pub data Value : Type 0 where
    null : Value
    bool : Bool → Value
    int : ℤ → Value
    float : (bits : ℕ) → Value
    string : Text → Value
    array : Values → Value
    object : Fields → Value

  pub data Values : Type 0 where
    nil : Values
    cons : Value → Values → Values

  pub data Fields : Type 0 where
    end : Fields
    field : Text → Value → Fields → Fields

-- What `iter_errors` tells of an error: where, the message, and the `Debug` form of its kind.
pub record SchemaError : Type 0 where
  pub instance_path : Text
  pub message : Text
  pub kind : Text

pub record JsonSchema : Type 1 where
  pub Validator : Type 0
  pub from_str : Text → Result Value
  pub print : Value → Text
  pub validator_for : Value → Result Validator
  pub iter_errors : Validator → Value → List SchemaError
  pub parse_f64 : Text → Option ℕ

-- `Map::get`, and `Map::insert`, which replaces.
unfoldable pub get_field : Text → Fields → Option Value
get_field k end = none
get_field k (field key v fs) = if text_eq key k then some v else get_field k fs

unfoldable pub insert_field : Text → Value → Fields → Fields
unfolding text_le
insert_field k v end = field k v end
insert_field k v (field key w fs) =
    let rest = insert_field k v fs in
    if text_eq key k
    then field k v fs
    else if text_le k key
    then field k v (field key w fs)
    else field key w rest

-- `Value::get` of a key, and `as_str`.
abbrev pub get : Text → Value → Option Value
get k (object fs) = get_field k fs
get k v = none

abbrev pub as_str : Value → Option Text
as_str (string s) = some s
as_str v = none

abbrev pub as_array : List Value → Values
as_array [] = nil
as_array (v ∷ vs) = cons v (as_array vs)

pub record Issue : Type 0 where
  pub location : Text
  pub path : Text
  pub message : Text
  pub code : Text

pub record Validated : Type 0 where
  pub body : Option Text
  pub query : Option Text
  pub params : Option Text

pub data Verdict : Type 0 where
  valid : Validated → Verdict
  invalid : List Issue → Verdict

pub record SchemaDef : Type 0 where
  pub body : Option Text
  pub query : Option Text
  pub params : Option Text

-- `trim_start_matches` and `replace` of one byte.
skip_slashes : Text → Text
skip_slashes [] = []
skip_slashes (c ∷ s) = if c == b'/' then skip_slashes s else c ∷ s

unfoldable pub pointer_to_path : Text → Text
unfolding skip_slashes
pointer_to_path ptr = map (λ c. if c == b'/' then b'.' else c) (skip_slashes ptr)

-- The piece before the first space or bracket.
up_to_bracket : Text → Text
up_to_bracket [] = []
up_to_bracket (c ∷ s) = if c == 32 || c == b'(' || c == b'{' then [] else c ∷ up_to_bracket s

unfoldable pub kind_code : Text → Text
unfolding up_to_bracket to_lowercase
kind_code dbg = to_lowercase (up_to_bracket dbg)

-- `json!` of an `f64`: no JSON number is infinite or NaN.
abbrev pub json_f64 : ℕ → Value
json_f64 bits = if bits / 2 ^ 52 % 2048 == 2047 then null else float bits

-- The `type` that a property's schema names.
unfoldable pub type_name : Option Value → Option Text
unfolding get_field
type_name none = none
type_name (some s) = elim (get (codes "type") s) [ none ↦ none | some t ↦ as_str t ]

unfoldable pub prop_schema : Value → Text → Option Value
unfolding get_field
prop_schema schema key = elim (get (codes "properties") schema) [
  | none ↦ none
  | some props ↦ get key props
]

module _ (json : JsonSchema) where
  pub record Compiled : Type 0 where
    pub validator : json.Validator
    pub schema : Value

  pub record LeafSchema : Type 0 where
    pub body : Option json.Validator
    pub query : Option Compiled
    pub params : Option Compiled

  unfoldable pub compile : Option Text → Result (Option Compiled)
  compile none = ok none
  compile (some s) = elim (json.from_str s) [
    | err e ↦ err (codes "invalid JSON Schema: " ++ e)
    | ok schema ↦ elim (json.validator_for schema) [
      | err e ↦ err (codes "schema compilation: " ++ e)
      | ok v ↦ ok (some (record { validator = v; schema = schema }))
    ]
  ]

  unfoldable pub build : SchemaDef → Result LeafSchema
  unfolding compile
  build def = do
    body ← compile def.body
    query ← compile def.query
    params ← compile def.params
    ok (record {
      body = Option.map (λ (c : Compiled). c.validator) body;
      query = query;
      params = params;
    })

  unfoldable pub schema_is_empty : LeafSchema → Bool
  schema_is_empty s = not (is_some s.body) && (not (is_some s.query) && not (is_some s.params))

  unfoldable pub has_body : LeafSchema → Bool
  has_body s = is_some s.body

  unfoldable pub coerce_integer : Text → Value
  unfolding parse_i64
  coerce_integer raw = elim (parse_i64 raw) [ some n ↦ int n | none ↦ string raw ]

  unfoldable pub coerce_number : Text → Value
  coerce_number raw = elim (json.parse_f64 raw) [ some bits ↦ json_f64 bits | none ↦ string raw ]

  unfoldable pub coerce_boolean : Text → Value
  coerce_boolean raw =
      if text_eq raw (codes "true")
      then bool true
      else if text_eq raw (codes "false")
      then bool false
      else string raw

  unfoldable pub coerce_as : Option Text → Text → Value
  unfolding coerce_integer coerce_number coerce_boolean
  coerce_as none raw = string raw
  coerce_as (some ty) raw =
      if text_eq ty (codes "integer")
      then coerce_integer raw
      else if text_eq ty (codes "number")
      then coerce_number raw
      else if text_eq ty (codes "boolean")
      then coerce_boolean raw
      else string raw

  unfoldable pub coerce_scalar : Text → Option Value → Value
  unfolding coerce_as type_name
  coerce_scalar raw prop = coerce_as (type_name prop) raw

  -- The loop of `coerce_query` over the pairs, and of `coerce_params` over the map.
  unfoldable pub coerce_pairs : Value → Fields → List (Text × Text) → Fields
  unfolding coerce_scalar insert_field prop_schema
  coerce_pairs schema m [] = m
  coerce_pairs schema m ((k, v) ∷ pairs) =
      coerce_pairs schema (insert_field k (coerce_scalar v (prop_schema schema k)) m) pairs

  unfoldable pub coerce_query : List KvPair → Value → Value
  unfolding coerce_pairs
  coerce_query pairs schema =
      object (coerce_pairs schema end (map (λ (kv : KvPair). (kv.key, kv.value)) pairs))

  unfoldable pub coerce_params : List (Text × Text) → Value → Value
  unfolding coerce_pairs
  coerce_params params schema = object (coerce_pairs schema end params)

  abbrev pub issue_of : Text → SchemaError → Issue
  issue_of location e = record {
    location = location;
    path = pointer_to_path e.instance_path;
    message = e.message;
    code = kind_code e.kind;
  }

  unfoldable pub collect : json.Validator → Value → Text → List Issue
  unfolding pointer_to_path kind_code
  collect validator instance_value location =
      map (issue_of location) (json.iter_errors validator instance_value)

  -- What one part of the schema gives: the text of the checked value, and the issues.
  unfoldable pub check_part : Option Compiled → (Value → Value) → Text → Option Text × List Issue
  unfolding collect
  check_part none coerce location = (none, [])
  check_part (some c) coerce location =
      (some (json.print (coerce c.schema)), collect c.validator (coerce c.schema) location)

  unfoldable pub check_body : Option json.Validator → Option Text → Option Text × List Issue
  unfolding collect
  check_body none body = (none, [])
  check_body (some v) none = (
    none,
    record {
      location = codes "body";
      path = [];
      message = codes "body is required";
      code = codes "required";
    }
        ∷ [],
  )
  check_body (some v) (some bytes) = elim (json.from_str bytes) [
    | ok value ↦ (some (json.print value), collect v value (codes "body"))
    | err e ↦ (
      none,
      record {
        location = codes "body";
        path = [];
        message = codes "invalid JSON: " ++ e;
        code = codes "invalid_json";
      }
          ∷ [],
    )
  ]

  unfoldable pub validate : LeafSchema → List KvPair → List (Text × Text) → Option Text → Verdict
  unfolding check_part check_body coerce_query coerce_params
  validate s query params body =
      let q = check_part s.query (coerce_query query) (codes "query") in
      let p = check_part s.params (coerce_params params) (codes "params") in
      let b = check_body s.body body in
      let issues : List Issue = q.1 ++ (p.1 ++ b.1) in
      if is_empty issues
      then valid (record { body = b.0; query = q.0; params = p.0 })
      else invalid issues

  issue_value : Issue → Value
  unfolding insert_field
  issue_value i = object (
      insert_field (codes "code") (string i.code) (
        insert_field (codes "message") (string i.message) (
          insert_field (codes "path") (string i.path)
            (insert_field (codes "in") (string i.location) end))))

  unfoldable pub errors_body : List Issue → Text
  unfolding insert_field issue_value
  errors_body issues = json.print (
      object (
        insert_field (codes "issues") (array (as_array (map issue_value issues)))
          (insert_field (codes "error") (string (codes "validation")) end)))

-- ===== src/Schema/Tests.antt =====
-- Checks of src/schema.rs at concrete schemas. The validator here asks for an integer `age`.
use oxide_http.Prelude.{
  ℤ, pos, Text, codes, text_eq, parse_i64, to_string, String, Option, none, some, List, [], ◌∷◌,
  map, ◌≡◌, refl, ◌↔◌, if◌then◌else◌, is_empty, arith, ok, err,
}
use mathlib.Core.Option
use oxide_http.Bridge.Types.{KvPair}
use oxide_http.Schema.{
  Value, int, string, object, end, field, SchemaError, JsonSchema, Issue, Validated, valid, invalid,
  LeafSchema, get, type_name, prop_schema, coerce_scalar, coerce_query, validate,
}
use oxide_http.Schema.Coercion.{last_value, coerce_query-last, an_integer, coerce_scalar-Typed}
use oxide_http.Schema.Outcome.{Accepts, validate_iff}

abbrev age : Text
age = codes "age"

abbrev wrong_type : SchemaError
wrong_type = record {
  instance_path = codes "/age";
  message = codes "not an integer";
  kind = codes "Type {..}";
}

abbrev age_errors : Option Value → List SchemaError
age_errors (some (int z)) = []
age_errors v = wrong_type ∷ []

abbrev printed : Value → Text
printed (int z) = to_string z
printed v = codes "{}"

abbrev json : JsonSchema
json = record {
  Validator = Value;
  from_str = λ s. if is_empty s then err (codes "EOF") else ok (string s);
  print = printed;
  validator_for = λ v. ok v;
  iter_errors = λ schema v. age_errors (get age v);
  parse_f64 = λ s. none;
}

abbrev integer_type : Value
integer_type = object (field (codes "type") (string (codes "integer")) end)

abbrev schema : Value
schema = object (field (codes "properties") (object (field age integer_type end)) end)

abbrev leaf : LeafSchema json
leaf = record {
  body = none;
  query = some (record { validator = schema; schema = schema });
  params = none;
}

abbrev asks : String → List KvPair
asks v = record { key = age; value = codes "1" } ∷ record { key = age; value = codes v } ∷ []

abbrev out : Validated
out = record { body = none; query = some (codes "{}"); params = none }

abbrev wrong : Issue
wrong = record {
  location = codes "query";
  path = age;
  message = codes "not an integer";
  code = codes "type";
}

last_wins : coerce_query json (asks "-42") schema ≡ object (field age (int (ℤ.negsuc 41)) end)
unfolding coerce_query text_eq parse_i64
last_wins = refl

accepts_42 : validate json leaf (asks "42") [] none ≡ valid out
unfolding validate text_eq parse_i64
accepts_42 = refl

refuses_forty : validate json leaf (asks "forty") [] none ≡ invalid (wrong ∷ [])
unfolding validate text_eq parse_i64
refuses_forty = refl

coerced_example :
    get age (coerce_query json (asks "42") schema)
    ≡ Option.map
        (λ v. coerce_scalar json v (prop_schema schema age))
        (last_value age (map (λ (kv : KvPair). (kv.key, kv.value)) (asks "42")))
coerced_example = coerce_query-last json schema (asks "42") age

named_integer : type_name (some integer_type) ≡ some (codes "integer")
unfolding type_name text_eq
named_integer = refl

typed_value_example : coerce_scalar json (to_string (pos 42)) (some integer_type) ≡ int (pos 42)
typed_value_example =
    coerce_scalar-Typed json {ty = codes "integer"} {raw = to_string (pos 42)} {v = int (pos 42)}
      (some integer_type) named_integer (an_integer {z = pos 42} (omega arith))

accepted_example :
    (validate json leaf (asks "42") [] none ≡ valid out) ↔ Accepts json leaf (asks "42") [] none out
accepted_example = validate_iff json leaf (asks "42") [] none out

-- ===== src/Schema/Coercion.antt =====
-- src/schema.rs, `coerce_query`, `coerce_params` and `coerce_scalar`: what the texts of a query or a
-- path become before they are checked.
use oxide_http.Prelude.{
  ℤ, InRange, to_string, parse_i64-to_string, Text, codes, text_eq, text_eq_iff, Option, none, some,
  List, [], ◌∷◌, map, true, false, if◌then◌else◌, Bool-cases, Option-cases, ◌≡◌, refl, ◌∙◌, ap, inl,
  inr,
}
use mathlib.Core.Option
use oxide_http.Bridge.Types.{KvPair}
use oxide_http.Schema.{
  Value, bool, int, string, Fields, end, field, JsonSchema, get, get_field, insert_field, type_name,
  prop_schema, coerce_integer, coerce_boolean, coerce_as, coerce_scalar, coerce_pairs, coerce_query,
}
use oxide_http.Router.{text_le}

abbrev pub found_or {ℓ} : {A : Type ℓ} → Option A → Option A → Option A
found_or none o = o
found_or (some a) o = some a

-- A lookup after an insertion.
get_field-insert_field :
    (j k : Text) (v : Value) (fs : Fields)
    → get_field j (insert_field k v fs) ≡ (if text_eq k j then some v else get_field j fs)
unfolding get_field insert_field
get_field-insert_field j k v end = refl
get_field-insert_field j k v (field key w fs) =
    let ih : get_field j (insert_field k v fs) ≡ (if text_eq k j then some v else get_field j fs) =
      get_field-insert_field j k v fs in
    elim (Bool-cases (text_eq key k)) [
      | inl same ↦
          let e : key ≡ k = (text_eq_iff key k).0 same in
          elim (Bool-cases (text_eq k j)) [
            | inl here ↦ rw (same, here) refl
            | inr other ↦
                let other' : text_eq key j ≡ false = rw e other in rw (same, other, other') refl
          ]
      | inr differs ↦ elim (Bool-cases (text_eq k j)) [
        | inl here ↦
            let e : k ≡ j = (text_eq_iff k j).0 here in
            let away : text_eq key j ≡ false = rw (← e) differs in
            elim (Bool-cases (text_le k key)) [
              | inl before ↦ rw (differs, before, here) refl
              | inr after ↦ rw (differs, after, away) ih
            ]
        | inr other ↦ elim (Bool-cases (text_le k key)) [
          | inl before ↦ rw (differs, before, other) refl
          | inr after ↦ elim (Bool-cases (text_eq key j)) [
            | inl found ↦ rw (differs, after, other, found) refl
            | inr away ↦ rw (differs, after, away) ih
          ]
        ]
      ]
    ]

-- The value of the last pair with the key.
abbrev pub last_value : Text → List (Text × Text) → Option Text
last_value j [] = none
last_value j ((k, v) ∷ pairs) = found_or (last_value j pairs) (if text_eq k j then some v else none)

module _ (json : JsonSchema) (schema : Value) where
  abbrev pub coerced : Text → Text → Value
  coerced j v = coerce_scalar json v (prop_schema schema j)

  get_field-coerce_pairs :
      (j : Text) (m : Fields) (pairs : List (Text × Text))
      → get_field j (coerce_pairs json schema m pairs)
        ≡ found_or (Option.map (coerced j) (last_value j pairs)) (get_field j m)
  unfolding coerce_pairs
  get_field-coerce_pairs j m [] = refl
  get_field-coerce_pairs j m ((k, v) ∷ pairs) =
      get_field-coerce_pairs j (insert_field k (coerced k v) m) pairs
      ∙ ap (found_or (Option.map (coerced j) (last_value j pairs)))
          (get_field-insert_field j k (coerced k v) m)
      ∙ elim (Option-cases (last_value j pairs)) [
        | inr (w, later) ↦ rw later refl
        | inl nowhere ↦ elim (Bool-cases (text_eq k j)) [
          | inl here ↦ rw (nowhere, here, (text_eq_iff k j).0 here) refl
          | inr other ↦ rw (nowhere, other) refl
        ]
      ]

  -- The object that a query becomes has exactly the keys of its pairs, and under each the last
  -- pair's value, coerced by the type that the schema gives to that property.
  pub coerce_query-last :
      (query : List KvPair) (j : Text)
      → get j (coerce_query json query schema)
        ≡ Option.map
            (λ v. coerce_scalar json v (prop_schema schema j))
            (last_value j (map (λ (kv : KvPair). (kv.key, kv.value)) query))
  unfolding coerce_query
  coerce_query-last query j =
      let pairs : List (Text × Text) = map (λ (kv : KvPair). (kv.key, kv.value)) query in
      get_field-coerce_pairs j end pairs ∙ elim (Option-cases (last_value j pairs)) [
        | inl nowhere ↦ rw nowhere refl
        | inr (w, found) ↦ rw found refl
      ]

-- The typed values that a client may write in a query, with the type that reads each.
pub data Typed : Text → Text → Value → Type 0 where
  an_integer : {z : ℤ} → InRange z → Typed (codes "integer") (to_string z) (int z)
  a_true : Typed (codes "boolean") (codes "true") (bool true)
  a_false : Typed (codes "boolean") (codes "false") (bool false)
  a_string : {s : Text} → Typed (codes "string") s (string s)

module _ (json : JsonSchema) where
  coerce_integer-to_string : (z : ℤ) → InRange z → coerce_integer json (to_string z) ≡ int z
  unfolding coerce_integer
  coerce_integer-to_string z h = rw (parse_i64-to_string z h, coerce_integer) refl

  coerce_as-Typed : {ty raw : Text} {v : Value} → Typed ty raw v → coerce_as json (some ty) raw ≡ v
  unfolding coerce_as coerce_boolean text_eq
  coerce_as-Typed (an_integer {z} h) = coerce_integer-to_string z h
  coerce_as-Typed a_true = refl
  coerce_as-Typed a_false = refl
  coerce_as-Typed a_string = refl

  -- An integer of 64 bits, a Boolean or a text that a client writes under a property of that type
  -- comes back as the value that it writes.
  pub coerce_scalar-Typed :
      {ty raw : Text} {v : Value} (prop : Option Value)
      → type_name prop ≡ some ty
      → Typed ty raw v
      → coerce_scalar json raw prop ≡ v
  unfolding coerce_scalar
  coerce_scalar-Typed prop named t = rw named (coerce_as-Typed t)

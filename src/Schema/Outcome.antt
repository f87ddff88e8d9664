-- ===== src/Schema/Outcome.antt =====
-- src/schema.rs, `LeafSchema::validate`: which requests it accepts, and what a refusal lists.
use oxide_http.Prelude.{
  Text, codes, Option, none, some, List, [], ◌∷◌, ◌++◌, map, true, false, Bool-cases, ◌≡◌, refl,
  sym, ◌∙◌, ap, ◌↔◌, ◌≢◌, inl, inr, is_empty, is_some, subst, ok, err, Result-cases, All,
  All-append, ◌⊎◌,
}
use oxide_http.Bridge.Types.{KvPair}
use oxide_http.Schema.{
  Value, SchemaError, JsonSchema, Issue, Validated, valid, invalid, Compiled, LeafSchema, collect,
  check_part, check_body, coerce_query, coerce_params, issue_of, validate,
}

append-nil_parts : {A : Type 0} (xs ys : List A) → xs ++ ys ≡ [] → (xs ≡ []) × (ys ≡ [])
append-nil_parts [] ys e = (refl, e)
append-nil_parts (x ∷ xs) ys e = cc

map-nil : {A B : Type 0} (f : A → B) (xs : List A) → map f xs ≡ [] → xs ≡ []
map-nil f [] e = refl
map-nil f (x ∷ xs) e = cc

is_empty_iff : {A : Type 0} (xs : List A) → (is_empty xs ≡ true) ↔ (xs ≡ [])
is_empty_iff [] = (λ e. refl, λ e. refl)
is_empty_iff (x ∷ xs) = (λ e. cc, λ e. cc)

module _ (json : JsonSchema) where
  -- A part without a schema gives nothing; another has no errors and gives its printed value.
  abbrev pub PartAccepts : Option (Compiled json) → (Value → Value) → Option Text → Type 0
  PartAccepts none coerce out = out ≡ none
  PartAccepts (some c) coerce out =
      (json.iter_errors c.validator (coerce c.schema) ≡ [])
      × (out ≡ some (json.print (coerce c.schema)))

  -- A body part asks for a body that is JSON.
  abbrev pub BodyAccepts : Option json.Validator → Option Text → Option Text → Type 0
  BodyAccepts none body out = out ≡ none
  BodyAccepts (some v) body out =
      (bytes : Text) × (value : Value) × (body ≡ some bytes)
      × (json.from_str bytes ≡ ok value)
      × (json.iter_errors v value ≡ [])
      × (out ≡ some (json.print value))

  pub record Accepts (s : LeafSchema json) (query : List KvPair) (params : List (Text × Text))
      (body : Option Text) (out : Validated) : Type 0 where
    pub query_ok : PartAccepts s.query (coerce_query json query) out.query
    pub params_ok : PartAccepts s.params (coerce_params json params) out.params
    pub body_ok : BodyAccepts s.body body out.body

  collect-nil :
      (v : json.Validator) (value : Value) (location : Text)
      → (collect json v value location ≡ []) ↔ (json.iter_errors v value ≡ [])
  unfolding collect
  collect-nil v value location = (
    map-nil (issue_of json location) (json.iter_errors v value),
    λ e. ap (map (issue_of json location)) e,
  )

  check_part-PartAccepts :
      (c : Option (Compiled json)) (coerce : Value → Value) (location : Text) (out : Option Text)
      → ((check_part json c coerce location).1 ≡ []) × ((check_part json c coerce location).0 ≡ out)
        ↔ PartAccepts c coerce out
  unfolding check_part
  check_part-PartAccepts none coerce location out = (λ h. sym h.1, λ h. (refl, sym h))
  check_part-PartAccepts (some c) coerce location out =
      let (to, from) = collect-nil c.validator (coerce c.schema) location in
      (λ h. (to h.0, sym h.1), λ h. (from h.0, sym h.1))

  check_body-parsed :
      (v : json.Validator) (bytes : Text) (value : Value)
      → json.from_str bytes ≡ ok value
      → check_body json (some v) (some bytes)
        ≡ (some (json.print value), collect json v value (codes "body"))
  unfolding check_body
  check_body-parsed v bytes value e = rw (e, check_body) refl

  check_body-malformed :
      (v : json.Validator) (bytes e : Text)
      → json.from_str bytes ≡ err e
      → is_empty (check_body json (some v) (some bytes)).1 ≡ false
  unfolding check_body
  check_body-malformed v bytes e bad = rw (bad, check_body) refl

  check_body-BodyAccepts :
      (v : Option json.Validator) (body out : Option Text)
      → ((check_body json v body).1 ≡ []) × ((check_body json v body).0 ≡ out)
        ↔ BodyAccepts v body out
  unfolding check_body
  check_body-BodyAccepts none body out = (λ h. sym h.1, λ h. (refl, sym h))
  check_body-BodyAccepts (some v) none out = (λ h. cc (h.0), λ h. cc (h.2))
  check_body-BodyAccepts (some v) (some bytes) out = elim (Result-cases (json.from_str bytes)) [
    | inl (value, parsed) ↦
        let (to, from) = collect-nil v value (codes "body") in
        rw (check_body-parsed v bytes value parsed) (
          λ h. (bytes, value, refl, parsed, to h.0, sym h.1),
          λ h.
              let (bytes', value', sent, read, clean, out_is) = h in
              let same : value' ≡ value = cc (sent, read, parsed) in
              (
                from (subst (λ (w : Value). json.iter_errors v w ≡ []) same clean),
                sym (out_is ∙ ap (λ (w : Value). some (json.print w)) same),
              ),
        )
    | inr (e, bad) ↦ (
      λ h. cc (check_body-malformed v bytes e bad, ap is_empty h.0),
      λ h. let (bytes', value', sent, read, clean, out_is) = h in cc (sent, read, bad),
    )
  ]

  -- Every issue of a part bears its name.
  collect-All :
      (P : Issue → Type 0) (location : Text)
      → ((i : Issue) → i.location ≡ location → P i)
      → (es : List SchemaError) → All P (map (issue_of json location) es)
  collect-All P location h [] = tt
  collect-All P location h (e ∷ es) =
      (h (issue_of json location e) refl, collect-All P location h es)

  check_part-All :
      (P : Issue → Type 0) (c : Option (Compiled json)) (coerce : Value → Value) (location : Text)
      → ((i : Issue) → i.location ≡ location → is_some c ≡ true → P i)
      → All P (check_part json c coerce location).1
  unfolding check_part collect
  check_part-All P none coerce location h = tt
  check_part-All P (some c) coerce location h =
      collect-All P location (λ i e. h i e refl) (json.iter_errors c.validator (coerce c.schema))

  check_body-All :
      (P : Issue → Type 0) (v : Option json.Validator) (body : Option Text)
      → ((i : Issue) → i.location ≡ codes "body" → is_some v ≡ true → P i)
      → All P (check_body json v body).1
  unfolding check_body collect
  check_body-All P none body h = tt
  check_body-All P (some v) none h = (h _ refl refl, tt)
  check_body-All P (some v) (some bytes) h = elim (Result-cases (json.from_str bytes)) [
    | inl (value, parsed) ↦
        rw (parsed, check_body)
          (collect-All P (codes "body") (λ i e. h i e refl) (json.iter_errors v value))
    | inr (e, bad) ↦ rw (bad, check_body) (h _ refl refl, tt)
  ]

  module _ (s : LeafSchema json) (query : List KvPair) (params : List (Text × Text))
      (body : Option Text) where
    abbrev q : Option Text × List Issue
    q = check_part json s.query (coerce_query json query) (codes "query")

    abbrev p : Option Text × List Issue
    p = check_part json s.params (coerce_params json params) (codes "params")

    abbrev b : Option Text × List Issue
    b = check_body json s.body body

    abbrev all_issues : List Issue
    all_issues = q.1 ++ (p.1 ++ b.1)

    validate-clean :
        all_issues ≡ []
        → validate json s query params body
          ≡ valid (record { body = b.0; query = q.0; params = p.0 })
    unfolding validate
    validate-clean e = rw e refl

    validate-dirty :
        is_empty all_issues ≡ false → validate json s query params body ≡ invalid all_issues
    unfolding validate
    validate-dirty e = rw e refl

    clean_parts : all_issues ≡ [] → (q.1 ≡ []) × (p.1 ≡ []) × (b.1 ≡ [])
    clean_parts e =
        let (eq, rest) = append-nil_parts q.1 (p.1 ++ b.1) e in
        let (ep, eb) = append-nil_parts p.1 b.1 rest in (eq, ep, eb)

    Accepts-clean :
        (out : Validated)
        → all_issues ≡ []
        → record { body = b.0; query = q.0; params = p.0 } ≡ out
        → Accepts s query params body out
    Accepts-clean out e same =
        let (eq, ep, eb) = clean_parts e in
        record {
          query_ok =
              (check_part-PartAccepts s.query (coerce_query json query) (codes "query") out.query).0
                (eq, ap (λ (v : Validated). v.query) same);
          params_ok =
              (check_part-PartAccepts s.params (coerce_params json params) (codes "params")
                  out.params).0
                (ep, ap (λ (v : Validated). v.params) same);
          body_ok =
              (check_body-BodyAccepts s.body body out.body).0
                (eb, ap (λ (v : Validated). v.body) same);
        }

    validate_sound :
        (out : Validated)
        → validate json s query params body ≡ valid out
        → Accepts s query params body out
    validate_sound out e = elim (Bool-cases (is_empty all_issues)) [
      | inl clean ↦
          let none_left : all_issues ≡ [] = (is_empty_iff all_issues).0 clean in
          let same : valid (record { body = b.0; query = q.0; params = p.0 }) ≡ valid out =
            sym (validate-clean none_left) ∙ e in
          Accepts-clean out none_left (cc (same))
      | inr dirty ↦ cc (sym (validate-dirty dirty) ∙ e)
    ]

    validate_complete :
        (out : Validated)
        → Accepts s query params body out
        → validate json s query params body ≡ valid out
    validate_complete out a =
        let (eq, oq) =
          (check_part-PartAccepts s.query (coerce_query json query) (codes "query") out.query).1
            a.query_ok in
        let (ep, op) =
          (check_part-PartAccepts s.params (coerce_params json params) (codes "params")
              out.params).1
            a.params_ok in
        let (eb, ob) = (check_body-BodyAccepts s.body body out.body).1 a.body_ok in
        let none_left : all_issues ≡ [] =
          ap (λ (l : List Issue). l ++ (p.1 ++ b.1)) eq
          ∙ ap (λ (l : List Issue). l ++ b.1) ep
          ∙ eb in
        validate-clean none_left ∙ λ i. valid (record { body = ob i; query = oq i; params = op i })

    -- A request is valid exactly when each part that the schema has is there and free of errors: the
    -- query and the path parameters after their coercion, the body as the JSON that it is parsed to.
    -- JS gets the printed values of those parts, and nothing for a part without a schema.
    pub validate_iff :
        (out : Validated)
        → (validate json s query params body ≡ valid out) ↔ Accepts s query params body out
    validate_iff out = (validate_sound out, validate_complete out)

    -- The part that an issue names has a schema.
    abbrev pub Reported : Issue → Type 0
    Reported i =
        ((i.location ≡ codes "query") × (is_some s.query ≡ true))
        ⊎ ((i.location ≡ codes "params") × (is_some s.params ≡ true))
        ⊎ ((i.location ≡ codes "body") × (is_some s.body ≡ true))

    -- A refusal lists at least one issue, and each names a part that has a schema.
    validate-invalid :
        (issues : List Issue)
        → validate json s query params body ≡ invalid issues
        → (issues ≢ []) × All Reported issues
    validate-invalid issues e = elim (Bool-cases (is_empty all_issues)) [
      | inl clean ↦ cc (sym (validate-clean ((is_empty_iff all_issues).0 clean)) ∙ e)
      | inr dirty ↦
          let same : all_issues ≡ issues = cc (sym (validate-dirty dirty) ∙ e) in
          (
            λ none_left. cc (dirty, ap is_empty (same ∙ none_left)),
            subst (All Reported) same (
                All-append Reported q.1 (p.1 ++ b.1)
                  (check_part-All Reported s.query (coerce_query json query) (codes "query")
                    (λ i l h. inl (l, h)))
                  (All-append Reported p.1 b.1
                    (check_part-All Reported s.params (coerce_params json params) (codes "params")
                      (λ i l h. inr (inl (l, h))))
                    (check_body-All Reported s.body body (λ i l h. inr (inr (l, h)))))),
          )
    ]

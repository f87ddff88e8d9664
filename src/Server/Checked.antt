-- ===== src/Server/Checked.antt =====
-- src/server.rs, `dispatch`: what has been checked of a request that reaches JS.
use oxide_http.Prelude.{
  ℕ, Text, Option, none, some, List, [], Bool, true, ◌≡◌, refl, sym, ◌∙◌, ap, ◌⊎◌, inl, inr, arith,
  Option-cases,
}
use oxide_http.Body.{Event, Buffered, buffered, refused, buffer_body}
use oxide_http.Compress.{Decoded, plain, decode_err, decode}
use oxide_http.Schema.{Validated}
use oxide_http.Server.{content_encoding}
use oxide_http.Server.Pipeline.{
  Schema, Leaf, Env, ReqData, whole, Handed, Stage, answer, goes_on, ◌>>=◌, raw_body, plain_body,
  check_schema, dispatch, buffer_for_schema, early_lookup, multipart_boundary, late_lookup,
  body_source, decoded_of,
}

bind-inv {ℓ κ} :
    {A : Type ℓ} {B : Type κ} (m : Stage A) (f : A → Stage B) {b : B}
    → (m >>= f) ≡ goes_on b
    → (a : A) × (m ≡ goes_on a) × (f a ≡ goes_on b)
bind-inv (answer r) f e = cc
bind-inv (goes_on a) f e = (a, refl, e)

module _ (env : Env) (leaf : Leaf) (req : ReqData) (params : List (Text × Text)) (head : Bool)
    (id : Text) (now : ℕ) (events : List Event) (has_body : Bool) where
  -- The plain form of a body: itself, or what its encoding decodes to within the limit.
  abbrev pub PlainOf : Text → Text → Type 0
  PlainOf raw b =
      ((content_encoding req.headers ≡ none) × (b ≡ raw))
      ⊎ ((enc : Text) × (content_encoding req.headers ≡ some enc)
          × (decode env.decoders enc raw env.body_limit ≡ plain b))

  raw_body-buffered :
      (raw : Option Text)
      → buffer_for_schema env leaf req params head id now events has_body ≡ true
      → raw_body env leaf req params head id now events has_body ≡ goes_on raw
      → (b : Text) × (raw ≡ some b)
        × ((buffer_body env.body_limit env.read_timeout [] events).0 ≡ buffered b)
  unfolding raw_body
  raw_body-buffered raw wanted e = go (buffer_body env.body_limit env.read_timeout [] events).0 refl
    where
      go :
          (r : Buffered)
          → (buffer_body env.body_limit env.read_timeout [] events).0 ≡ r
          → (b : Text) × (raw ≡ some b)
            × ((buffer_body env.body_limit env.read_timeout [] events).0 ≡ buffered b)
      go (buffered b) h = (b, ground (arith, rw (wanted, h) at e), h)
      go (refused x) h = cc (rw (wanted, h) at e)

  plain_body-PlainOf :
      (raw : Text) (decoded : Option Text)
      → buffer_for_schema env leaf req params head id now events has_body ≡ true
      → plain_body env leaf req params head id now events has_body (some raw) ≡ goes_on decoded
      → (b : Text) × (decoded ≡ some b) × PlainOf raw b
  unfolding plain_body decoded_of
  plain_body-PlainOf raw decoded wanted e = elim (Option-cases (content_encoding req.headers)) [
    | inl identity ↦ (raw, ground (arith, rw (wanted, identity) at e), inl (identity, refl))
    | inr (enc, named) ↦ go enc named (decode env.decoders enc raw env.body_limit) refl
  ]
    where
      go :
          (enc : Text)
          → content_encoding req.headers ≡ some enc
          → (d : Decoded) → decode env.decoders enc raw env.body_limit ≡ d
          → (b : Text) × (decoded ≡ some b) × PlainOf raw b
      go enc named (plain b) h =
          (b, ground (arith, rw (wanted, named, h) at e), inr (enc, named, h))
      go enc named (decode_err x) h = cc (rw (wanted, named, h) at e)

  abbrev D : Stage Handed
  D = dispatch env leaf req params head id now events has_body

  -- The stages that a request passed.
  record Passed (h : Handed) : Type 0 where
    boundary : Option Text
    raw : Option Text
    decoded : Option Text
    cut : multipart_boundary env leaf req params head id now events has_body ≡ goes_on boundary
    read : raw_body env leaf req params head id now events has_body ≡ goes_on raw
    plain_form : plain_body env leaf req params head id now events has_body raw ≡ goes_on decoded
    valid :
        check_schema env leaf req params head id now events has_body decoded ≡ goes_on h.validated
    given : h.body ≡ body_source env leaf req params head id now events has_body boundary raw

  dispatch-Passed : (h : Handed) → D ≡ goes_on h → Passed h
  unfolding dispatch
  dispatch-Passed h e =
      let (key0, e0, r0) =
        bind-inv (early_lookup env leaf req params head id now events has_body) _ e in
      let (boundary, e1, r1) =
        bind-inv (multipart_boundary env leaf req params head id now events has_body) _ r0 in
      let (raw, e2, r2) =
        bind-inv (raw_body env leaf req params head id now events has_body) _ r1 in
      let (decoded, e3, r3) =
        bind-inv (plain_body env leaf req params head id now events has_body raw) _ r2 in
      let (key1, e4, r4) =
        bind-inv (late_lookup env leaf req params head id now events has_body key0 raw) _ r3 in
      let (v, e5, r5) =
        bind-inv (check_schema env leaf req params head id now events has_body decoded) _ r4 in
      let same : record {
        validated = v;
        body = body_source env leaf req params head id now events has_body boundary raw;
        cache_key = key1;
      }
          ≡ h =
        cc (r5) in
      record {
        boundary = boundary;
        raw = raw;
        decoded = decoded;
        cut = e1;
        read = e2;
        plain_form = e3;
        valid = e5 ∙ ap (λ (g : Handed). goes_on g.validated) same;
        given = ap (λ (g : Handed). g.body) (sym same);
      }

  no_form :
      (boundary : Option Text)
      → leaf.multipart ≡ none
      → multipart_boundary env leaf req params head id now events has_body ≡ goes_on boundary
      → boundary ≡ none
  unfolding multipart_boundary
  no_form boundary m e = ground (arith, rw m at e)

  schema_valid :
      (s : Schema) (decoded : Option Text) (v : Validated)
      → leaf.schema ≡ some s
      → check_schema env leaf req params head id now events has_body decoded ≡ goes_on v
      → s.validate req.query params decoded ≡ some v
  unfolding check_schema
  schema_valid s decoded v here e = elim (Option-cases (s.validate req.query params decoded)) [
    | inl bad ↦ cc (rw (here, bad) at e)
    | inr (w, good) ↦ ground (arith, good, rw (here, good) at e)
  ]

  -- On a route whose schema has a body part and that takes no form, a request with a body
  -- reaches JS only if the body came whole, in time and within the limit, its plain form has
  -- passed the schema, and then JS gets the bytes that the client sent and the values that the
  -- schema gave.
  pub dispatch-validated :
      (s : Schema) (h : Handed)
      → leaf.schema ≡ some s
      → leaf.multipart ≡ none
      → buffer_for_schema env leaf req params head id now events has_body ≡ true
      → dispatch env leaf req params head id now events has_body ≡ goes_on h
      → (raw : Text) × (b : Text) × ((buffer_body env.body_limit env.read_timeout [] events).0
          ≡ buffered raw)
        × PlainOf raw b
        × (s.validate req.query params (some b) ≡ some h.validated)
        × (h.body ≡ whole raw)
  unfolding body_source
  dispatch-validated s h here not_form wanted e =
      let p = dispatch-Passed h e in
      let (raw, is_raw, came) = raw_body-buffered p.raw wanted p.read in
      let form : plain_body env leaf req params head id now events has_body (some raw)
          ≡ goes_on p.decoded =
        rw is_raw at p.plain_form in
      let (b, is_plain, plain_of) = plain_body-PlainOf raw p.decoded wanted form in
      let valid : s.validate req.query params (some b) ≡ some h.validated =
        schema_valid s (some b) h.validated here (rw is_plain at p.valid) in
      let given : h.body ≡ whole raw =
        p.given
        ∙ ap
            (λ (o : Option Text).
              body_source env leaf req params head id now events has_body o p.raw)
            (no_form p.boundary not_form p.cut)
        ∙ ap
            (λ (o : Option Text).
              body_source env leaf req params head id now events has_body none o)
            is_raw in
      (raw, b, came, plain_of, valid, given)

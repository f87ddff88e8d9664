-- ===== src/Cache/Key.antt =====
-- src/cache.rs, `LeafCache::key`: when two requests share an entry.
use native.Mathlib.Nat.{pow-suc}
use oxide_http.Prelude.{
  ℕ, zero, suc, ◌*◌, ◌/◌, ◌%◌, ◌^◌, ◌<◌, Text, Option, none, some, List, [], ◌∷◌, ◌++◌, Bool-cases,
  ◌≡◌, refl, ap, ◌≢◌, ◌↔◌, inl, inr, arith, unwrap_or, All, Free, Ends, split_at, split_end,
  snoc_injective, append-cons-ne-nil, text_eq, All-append, sym, append_assoc,
}
use oxide_http.Bridge.Types.{KvPair}
use oxide_http.Cache.{
  newline, unit_separator, hex_digit, hex, values_of, join_values, vary_part, hash_part, key,
}

-- What a request brings to its key.
pub record Variant : Type 0 where
  pub method : Text
  pub path : Text
  pub query_string : Option Text
  pub headers : List KvPair
  pub body_hash : Option ℕ

abbrev pub key_of : List Text → Variant → Text
key_of vary v = key vary v.method v.path v.query_string v.headers v.body_hash

abbrev pub IsU64 : Option ℕ → Type 0
IsU64 none = Unit
IsU64 (some h) = h < 2 ^ 64

-- HTTP admits no line feed and no unit separator in these parts of a request.
pub record IsKeyable (v : Variant) : Type 0 where
  pub method : Free newline v.method
  pub path : Free newline v.path
  pub query : Free newline (unwrap_or v.query_string [])
  pub lines : All (λ (kv : KvPair). Free newline kv.value) v.headers
  pub units : All (λ (kv : KvPair). Free unit_separator kv.value) v.headers
  pub hash : IsU64 v.body_hash

-- The requests that are meant to share an entry.
pub record SameVariant (vary : List Text) (a b : Variant) : Type 0 where
  pub method : a.method ≡ b.method
  pub path : a.path ≡ b.path
  pub query : unwrap_or a.query_string [] ≡ unwrap_or b.query_string []
  pub varied : All (λ name. values_of name a.headers ≡ values_of name b.headers) vary
  pub hash : a.body_hash ≡ b.body_hash

hex_digit_injective : (a b : ℕ) → a < 16 → b < 16 → hex_digit a ≡ hex_digit b → a ≡ b
unfolding hex_digit
hex_digit_injective a b p q e = ground arith

hex_injective : (n a b : ℕ) → a < 16 ^ n → b < 16 ^ n → hex n a ≡ hex n b → a ≡ b
unfolding hex
hex_injective zero a b p q e = omega arith
hex_injective (suc n) a b p q e =
    let (front, last) = snoc_injective (hex n (a / 16)) (hex n (b / 16)) e in
    let p' : a < 16 * 16 ^ n = omega (arith, pow-suc 16 n) in
    let q' : b < 16 * 16 ^ n = omega (arith, pow-suc 16 n) in
    let high : a / 16 ≡ b / 16 =
      hex_injective n (a / 16) (b / 16) (omega arith) (omega arith) front in
    let low : a % 16 ≡ b % 16 =
      hex_digit_injective (a % 16) (b % 16) (omega arith) (omega arith) last in
    omega arith

hash_part_injective : (a b : Option ℕ) → IsU64 a → IsU64 b → hash_part a ≡ hash_part b → a ≡ b
unfolding hash_part
hash_part_injective none none p q e = refl
hash_part_injective none (some h) p q e = cc
hash_part_injective (some h) none p q e = cc
hash_part_injective (some g) (some h) p q e = ap some (hex_injective 16 g h p q (cc))

hash_part-Ends : (h : Option ℕ) → Ends newline (hash_part h)
unfolding hash_part
hash_part-Ends none = inl refl
hash_part-Ends (some h) = inr (hex 16 h, refl)

join_values_injective :
    (vs ws : List Text)
    → All (Free unit_separator) vs
    → All (Free unit_separator) ws
    → join_values vs ≡ join_values ws
    → vs ≡ ws
unfolding join_values
join_values_injective [] [] p q e = refl
join_values_injective [] (w ∷ ws) p q e = absurd (append-cons-ne-nil w _ _ (sym e))
join_values_injective (v ∷ vs) [] p q e = absurd (append-cons-ne-nil v _ _ e)
join_values_injective (v ∷ vs) (w ∷ ws) p q e =
    let (here, later) = split_at unit_separator v w _ _ p.0 q.0 e in
    let rest = join_values_injective vs ws p.1 q.1 later in cc

join_values-Free : (vs : List Text) → All (Free newline) vs → Free newline (join_values vs)
unfolding join_values
join_values-Free [] h = tt
join_values-Free (v ∷ vs) h =
    All-append (λ c. c ≢ newline) v (unit_separator ∷ join_values vs) h.0
      (omega arith, join_values-Free vs h.1)

values_of-All {κ} :
    (P : Text → Type κ) (name : Text) (headers : List KvPair)
    → All (λ (kv : KvPair). P kv.value) headers
    → All P (values_of name headers)
unfolding values_of
values_of-All P name [] h = tt
values_of-All P name (kv ∷ headers) h = elim (Bool-cases (text_eq kv.key name)) [
  | inl same ↦ rw same (h.0, values_of-All P name headers h.1)
  | inr other ↦ rw other (values_of-All P name headers h.1)
]

tail-Ends :
    (names : List Text) (headers : List KvPair) (t : Text)
    → Ends newline t
    → Ends newline (vary_part names headers ++ t)
unfolding vary_part
tail-Ends [] headers t h = h
tail-Ends (name ∷ names) headers t h = inr (_, refl)

vary_part_injective :
    (names : List Text) (a b : Variant)
    → IsKeyable a
    → IsKeyable b
    → vary_part names a.headers ++ hash_part a.body_hash
      ≡ vary_part names b.headers ++ hash_part b.body_hash
    → All (λ name. values_of name a.headers ≡ values_of name b.headers) names
      × (a.body_hash ≡ b.body_hash)
unfolding vary_part
vary_part_injective [] a b ha hb e =
    (tt, hash_part_injective a.body_hash b.body_hash ha.hash hb.hash e)
vary_part_injective (name ∷ names) a b ha hb e =
    let ja : Text = join_values (values_of name a.headers) in
    let jb : Text = join_values (values_of name b.headers) in
    let va : Text = vary_part names a.headers in
    let vb : Text = vary_part names b.headers in
    let ka : Text = hash_part a.body_hash in
    let kb : Text = hash_part b.body_hash in
    let e' : ja ++ (va ++ ka) ≡ jb ++ (vb ++ kb) =
      cc (append_assoc ja va ka, append_assoc jb vb kb) in
    let (here, later) =
      split_end newline ja jb (va ++ ka) (vb ++ kb)
        (join_values-Free _ (values_of-All (Free newline) name a.headers ha.lines))
        (join_values-Free _ (values_of-All (Free newline) name b.headers hb.lines))
        (tail-Ends names a.headers ka (hash_part-Ends a.body_hash))
        (tail-Ends names b.headers kb (hash_part-Ends b.body_hash)) e' in
    let (rest, hash) = vary_part_injective names a b ha hb later in
    (
      (
        join_values_injective (values_of name a.headers) (values_of name b.headers)
            (values_of-All (Free unit_separator) name a.headers ha.units)
            (values_of-All (Free unit_separator) name b.headers hb.units) here,
        rest,
      ),
      hash,
    )

vary_part_congruent :
    (names : List Text) (a b : List KvPair)
    → All (λ name. values_of name a ≡ values_of name b) names
    → vary_part names a ≡ vary_part names b
unfolding vary_part
vary_part_congruent [] a b h = refl
vary_part_congruent (name ∷ names) a b h = cc (h.0, vary_part_congruent names a b h.1)

key-SameVariant :
    (vary : List Text) (a b : Variant)
    → IsKeyable a
    → IsKeyable b
    → key_of vary a ≡ key_of vary b
    → SameVariant vary a b
unfolding key
key-SameVariant vary a b ha hb e =
    let (method, e1) = split_at newline a.method b.method _ _ ha.method hb.method e in
    let (path, e2) = split_at newline a.path b.path _ _ ha.path hb.path e1 in
    let (query, e3) =
      split_end newline (unwrap_or a.query_string []) (unwrap_or b.query_string []) _ _ ha.query
        hb.query (tail-Ends vary a.headers _ (hash_part-Ends a.body_hash))
        (tail-Ends vary b.headers _ (hash_part-Ends b.body_hash)) e2 in
    let (varied, hash) = vary_part_injective vary a b ha hb e3 in
    record { method = method; path = path; query = query; varied = varied; hash = hash }

SameVariant-key :
    (vary : List Text) (a b : Variant) → SameVariant vary a b → key_of vary a ≡ key_of vary b
unfolding key
SameVariant-key vary a b s =
    cc (s.method, s.path, s.query, s.hash, vary_part_congruent vary a.headers b.headers s.varied)

-- Two requests whose parts hold no separator have one key exactly when they agree in the method,
-- the path, the query string (absent and empty count as one), the body's hash and, for each
-- header that the route varies on, in its values and their order.
pub key_iff :
    (vary : List Text) (a b : Variant)
    → IsKeyable a
    → IsKeyable b
    → (key_of vary a ≡ key_of vary b) ↔ SameVariant vary a b
key_iff vary a b ha hb = (key-SameVariant vary a b ha hb, SameVariant-key vary a b)

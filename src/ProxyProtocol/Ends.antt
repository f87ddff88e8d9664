-- ===== src/ProxyProtocol/Ends.antt =====
-- src/proxy_protocol.rs: reading a prefix ends.
use oxide_http.Prelude.{
  Bool, if◌then◌else◌, ℕ, zero, suc, ◌+◌, ◌≤◌, ◌<◌, Text, List, [], ◌∷◌, ◌++◌, ◌≡◌, ◌≢◌, refl, sym,
  ◌∙◌, arith, length, take, true, false, Option-cases, Bool-cases, inl, inr, ltb, split, ◌⊎◌,
}
use oxide_http.ProxyProtocol.Addr.{is_utf8}
use oxide_http.ProxyProtocol.V1.{v1_end-found, v1_end-more, v1_end-long, v1_end-cut}
use oxide_http.ProxyProtocol.{
  bytes, failed, Source, Outcome, done, rejected, out_of_fuel, ◌>>=◌, max_v1, v1_fuel, find_crlf,
  read_at_least, v1_end, v1_words, v1_line, parse_v1, parse_v2, read_header,
}

-- The loop ends by itself: with the fuel given, it never runs out.
read_at_least-ends :
    (src : Source) (buf : Text) (want : ℕ) → read_at_least src buf want ≢ out_of_fuel
unfolding read_at_least
read_at_least-ends [] buf want = ground arith
read_at_least-ends (failed ∷ src) buf want = ground arith
read_at_least-ends (bytes [] ∷ src) buf want = ground arith
read_at_least-ends (bytes (c ∷ cs) ∷ src) buf want =
    ground (arith, read_at_least-ends src (buf ++ c ∷ cs) want)

read_at_least-enough :
    (src : Source) (buf : Text) (want : ℕ) (src' : Source) (buf' : Text)
    → read_at_least src buf want ≡ done (src', buf')
    → want ≤ length buf'
unfolding read_at_least
read_at_least-enough [] buf want src' buf' e = ground arith
read_at_least-enough (failed ∷ src) buf want src' buf' e = ground arith
read_at_least-enough (bytes [] ∷ src) buf want src' buf' e = ground arith
read_at_least-enough (bytes (c ∷ cs) ∷ src) buf want src' buf' e =
    ground (arith, read_at_least-enough src (buf ++ c ∷ cs) want src' buf')

read_at_least-cases :
    (src : Source) (buf : Text) (want : ℕ)
    → (read_at_least src buf want ≡ rejected)
      ⊎ ((src' : Source) × (buf' : Text) × (read_at_least src buf want ≡ done (src', buf'))
          × (want ≤ length buf'))
read_at_least-cases src buf want = go (read_at_least src buf want) refl
  where
    go :
        (o : Outcome (Source × Text))
        → read_at_least src buf want ≡ o
        → (read_at_least src buf want ≡ rejected)
          ⊎ ((src' : Source) × (buf' : Text) × (read_at_least src buf want ≡ done (src', buf'))
              × (want ≤ length buf'))
    go (done (src', buf')) e = inr (src', buf', e, read_at_least-enough src buf want src' buf' e)
    go rejected e = inl e
    go out_of_fuel e = absurd (read_at_least-ends src buf want e)

v1_end-ends :
    (fuel : ℕ) (src : Source) (buf : Text)
    → max_v1 < fuel + length buf
    → v1_end (suc fuel) src buf ≢ out_of_fuel
v1_end-ends zero src buf h e = elim (Option-cases (find_crlf buf)) [
  | inr (i, here) ↦ cc (v1_end-found zero src buf i here)
  | inl missing ↦ cc (v1_end-long zero src buf missing (ground arith))
]
v1_end-ends (suc fuel) src buf h e = elim (Option-cases (find_crlf buf)) [
  | inr (i, here) ↦ cc (v1_end-found (suc fuel) src buf i here)
  | inl missing ↦ elim (Bool-cases (ltb max_v1 (length buf))) [
    | inl long ↦ cc (v1_end-long (suc fuel) src buf missing long)
    | inr short ↦ elim (read_at_least-cases src buf (length buf + 1)) [
      | inl cut ↦ cc (v1_end-cut (suc fuel) src buf missing short cut)
      | inr (src', buf', read, enough) ↦
          v1_end-ends fuel src' buf' (omega arith)
            (sym (v1_end-more (suc fuel) src src' buf buf' missing short read) ∙ e)
    ]
  ]
]

v1_words-ends : (words : List Text) → v1_words words ≢ out_of_fuel
unfolding v1_words
v1_words-ends [] = ground arith
v1_words-ends (p ∷ []) = ground arith
v1_words-ends (p ∷ family ∷ words) = ground arith

v1_line-ends : (line : Text) → v1_line line ≢ out_of_fuel
unfolding v1_line
v1_line-ends line e = elim (Bool-cases (is_utf8 line)) [
  | inl ok ↦ v1_words-ends (split b' ' line) (rw ok at e)
  | inr bad ↦ cc (rw bad at e)
]

bind-ends {ℓ κ} :
    {A : Type ℓ} {B : Type κ} (m : Outcome A) (f : A → Outcome B)
    → m ≢ out_of_fuel
    → ((a : A) → f a ≢ out_of_fuel)
    → (m >>= f) ≢ out_of_fuel
bind-ends (done a) f hm hf e = hf a e
bind-ends rejected f hm hf e = cc
bind-ends out_of_fuel f hm hf e = hm refl

if-ends {ℓ} :
    {A : Type ℓ} (b : Bool) {x y : Outcome A}
    → x ≢ out_of_fuel
    → y ≢ out_of_fuel
    → (if b then x else y) ≢ out_of_fuel
if-ends true hx hy = hx
if-ends false hx hy = hy

done-ends {ℓ} : {A : Type ℓ} (a : A) → done a ≢ out_of_fuel
done-ends a = cc

rejected-ends {ℓ} : (A : Type ℓ) → ◌≢◌ {A = Outcome A} rejected out_of_fuel
rejected-ends A = cc

parse_v1-ends : (src : Source) (buf : Text) → parse_v1 src buf ≢ out_of_fuel
unfolding parse_v1
parse_v1-ends src buf =
    bind-ends (v1_end v1_fuel src buf) _ (v1_end-ends 108 src buf (omega arith))
      λ r. bind-ends (v1_line (take r.0 r.2)) _ (v1_line-ends (take r.0 r.2)) (λ addr. done-ends _)

parse_v2-ends : (src : Source) (buf : Text) → parse_v2 src buf ≢ out_of_fuel
unfolding parse_v2
parse_v2-ends src buf = bind-ends (read_at_least src buf 16) _ (read_at_least-ends src buf 16) λ r.
    if-ends _ (rejected-ends _)
      (bind-ends (read_at_least r.0 r.1 _) _ (read_at_least-ends r.0 r.1 _) (λ r'. done-ends _))

-- Whatever bytes a client sends before it ends its side, and in whatever pieces, the fuel is enough.
read_header-ends : (src : Source) → read_header src ≢ out_of_fuel
unfolding read_header
read_header-ends src =
    bind-ends (read_at_least src [] 12) _ (read_at_least-ends src [] 12)
      λ r. if-ends _ (parse_v2-ends r.0 r.1) (if-ends _ (parse_v1-ends r.0 r.1) (rejected-ends _))

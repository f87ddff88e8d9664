-- ===== src/ProxyProtocol/Reading.antt =====
-- src/proxy_protocol.rs: what `read_at_least` leaves, however the bytes arrive.
use oxide_http.Prelude.{
  ℕ, ◌+◌, ◌≤◌, ◌<◌, Text, [], ◌∷◌, ◌++◌, append_assoc, Bool-cases, leb, ◌≡◌, ◌∙◌, ap, inl, inr,
  arith, All, length, length-append,
}
use oxide_http.ProxyProtocol.{Read, bytes, failed, Source, done, rejected, read_at_least}

-- The bytes that a stream still holds.
abbrev pub content : Source → Text
content [] = []
content (bytes b ∷ src) = b ++ content src
content (failed ∷ src) = content src

-- A stream that delivers bytes, in pieces of any size, until it ends.
abbrev pub Delivers : Read → Type 0
Delivers (bytes []) = ⊥
Delivers (bytes (c ∷ cs)) = Unit
Delivers failed = ⊥

abbrev pub IsLive : Source → Type 0
IsLive = All Delivers

-- After a read, the buffer and the stream hold what they held before, and the buffer enough.
pub record Reached (total : Text) (want : ℕ) (src : Source) (buf : Text) : Type 0 where
  pub live : IsLive src
  pub same : buf ++ content src ≡ total
  pub enough : want ≤ length buf

pub read_at_least_live :
    (src : Source) (buf total : Text) (want : ℕ)
    → IsLive src
    → buf ++ content src ≡ total
    → want ≤ length total
    → (src' : Source) × (buf' : Text) × (read_at_least src buf want ≡ done (src', buf'))
      × Reached total want src' buf'
unfolding read_at_least
read_at_least_live [] buf total want l e h =
    let enough : want ≤ length buf = omega (arith, ap length e, length-append buf []) in
    ([], buf, ground arith, record { live = tt; same = e; enough = enough })
read_at_least_live (bytes [] ∷ src) buf total want l e h = absurd l.0
read_at_least_live (failed ∷ src) buf total want l e h = absurd l.0
read_at_least_live (bytes (c ∷ cs) ∷ src) buf total want l e h =
    elim (Bool-cases (leb want (length buf))) [
      | inl full ↦
          (bytes (c ∷ cs) ∷ src, buf, rw full, record { live = l; same = e; enough = ground arith })
      | inr short ↦
          let (src', buf', read, r) =
            read_at_least_live src (buf ++ c ∷ cs) total want l.1
              (append_assoc buf (c ∷ cs) (content src) ∙ e) h in
          (src', buf', rw short read, r)
    ]

pub read_at_least_short :
    (src : Source) (buf : Text) (want : ℕ)
    → length buf + length (content src) < want
    → read_at_least src buf want ≡ rejected
unfolding read_at_least
read_at_least_short [] buf want h = ground arith
read_at_least_short (failed ∷ src) buf want h = ground arith
read_at_least_short (bytes [] ∷ src) buf want h = ground arith
read_at_least_short (bytes (c ∷ cs) ∷ src) buf want h = ground (
  arith,
  read_at_least_short src (buf ++ c ∷ cs) want,
  length-append buf (c ∷ cs),
  length-append (c ∷ cs) (content src),
)

-- ===== src/Compress/Bounded.antt =====
-- src/compress.rs, `read_bounded`: what is decoded, and when the decoder is given up.
use oxide_http.Prelude.{
  ℕ, ◌+◌, ◌≤◌, ◌<◌, Text, Option, some, [], ◌∷◌, ◌++◌, append_assoc, append-nil, true, false, ◌≡◌,
  sym, ◌∙◌, ap, subst, ◌↔◌, inl, inr, Bool-cases, arith, length, length-append,
}
use oxide_http.ProxyProtocol.{bytes, failed, Source}
use oxide_http.ProxyProtocol.Reading.{content, IsLive}
use oxide_http.Body.{exceeds}
use oxide_http.Body.Delivery.{Within}
use oxide_http.Body.Buffer.{fits-Within, Within-fits, Within-zero}
use oxide_http.Compress.{plain, decode_err, too_large, read_bounded}

-- Up to its end, a decoder yields bytes and no error.
abbrev pub Decodes : Source → Type 0
Decodes [] = Unit
Decodes (failed ∷ r) = ⊥
Decodes (bytes [] ∷ r) = Unit
Decodes (bytes (c ∷ cs) ∷ r) = Decodes r

-- The bytes before the end.
abbrev pub output : Source → Text
output [] = []
output (failed ∷ r) = []
output (bytes [] ∷ r) = []
output (bytes (c ∷ cs) ∷ r) = (c ∷ cs) ++ output r

module _ (limit : Option ℕ) (c : ℕ) (cs : Text) (r : Source) (out : Text) where
  read_bounded-over :
      exceeds limit (length (out ++ c ∷ cs)) ≡ true
      → read_bounded limit out (bytes (c ∷ cs) ∷ r) ≡ decode_err too_large
  unfolding read_bounded
  read_bounded-over h = ground arith

  read_bounded-fits :
      exceeds limit (length (out ++ c ∷ cs)) ≡ false
      → read_bounded limit out (bytes (c ∷ cs) ∷ r) ≡ read_bounded limit (out ++ c ∷ cs) r
  unfolding read_bounded
  read_bounded-fits h = ground arith

sound :
    (limit : Option ℕ) (out res : Text) (r : Source)
    → Within limit (length out)
    → read_bounded limit out r ≡ plain res
    → Decodes r × Within limit (length (out ++ output r)) × (res ≡ out ++ output r)
unfolding read_bounded
sound limit out res [] w e = (tt, rw append-nil w, cc (append-nil out))
sound limit out res (failed ∷ r) w e = cc
sound limit out res (bytes [] ∷ r) w e = (tt, rw append-nil w, cc (append-nil out))
sound limit out res (bytes (c ∷ cs) ∷ r) w e =
    elim (Bool-cases (exceeds limit (length (out ++ c ∷ cs)))) [
      | inl over ↦ cc (read_bounded-over limit c cs r out over, e)
      | inr fits ↦
          let (whole, within, same) =
            sound limit (out ++ c ∷ cs) res r (fits-Within limit _ fits)
              (sym (read_bounded-fits limit c cs r out fits) ∙ e) in
          let regroup = append_assoc out (c ∷ cs) (output r) in
          (whole, subst (λ (s : Text). Within limit (length s)) regroup within, same ∙ regroup)
    ]

complete :
    (limit : Option ℕ) (out : Text) (r : Source)
    → Decodes r
    → Within limit (length (out ++ output r))
    → read_bounded limit out r ≡ plain (out ++ output r)
unfolding read_bounded
complete limit out [] d w = ap plain (sym (append-nil out))
complete limit out (failed ∷ r) d w = absurd d
complete limit out (bytes [] ∷ r) d w = ap plain (sym (append-nil out))
complete limit out (bytes (c ∷ cs) ∷ r) d w =
    let regroup : (out ++ c ∷ cs) ++ output r ≡ out ++ ((c ∷ cs) ++ output r) =
      append_assoc out (c ∷ cs) (output r) in
    let w' : Within limit (length ((out ++ c ∷ cs) ++ output r)) =
      subst (λ (s : Text). Within limit (length s)) (sym regroup) w in
    let shorter : length (out ++ c ∷ cs) ≤ length ((out ++ c ∷ cs) ++ output r) =
      omega (arith, length-append (out ++ c ∷ cs) (output r)) in
    read_bounded-fits limit c cs r out (Within-fits limit _ _ shorter w')
    ∙ complete limit (out ++ c ∷ cs) r d w'
    ∙ ap plain regroup

bomb :
    (lim : ℕ) (out : Text) (r more : Source)
    → IsLive r
    → length out ≤ lim
    → lim < length out + length (content r)
    → read_bounded (some lim) out (r ++ more) ≡ decode_err too_large
bomb lim out [] more l h big = absurd (omega arith)
bomb lim out (failed ∷ r) more l h big = absurd l.0
bomb lim out (bytes [] ∷ r) more l h big = absurd l.0
bomb lim out (bytes (c ∷ cs) ∷ r) more l h big =
    elim (Bool-cases (exceeds (some lim) (length (out ++ c ∷ cs)))) [
      | inl over ↦ read_bounded-over (some lim) c cs (r ++ more) out over
      | inr fits ↦
          read_bounded-fits (some lim) c cs (r ++ more) out fits
          ∙ bomb lim (out ++ c ∷ cs) r more l.1 (ground arith)
              (omega (arith, length-append out (c ∷ cs), length-append (c ∷ cs) (content r)))
    ]

-- Decoding succeeds exactly when the decoder reaches its end without an error and its output is
-- within the limit, and then yields all of the output.
pub read_bounded_iff :
    (limit : Option ℕ) (r : Source) (res : Text)
    → (read_bounded limit [] r ≡ plain res)
      ↔ (Decodes r × Within limit (length (output r)) × (res ≡ output r))
read_bounded_iff limit r res = (
  sound limit [] res r (Within-zero limit),
  λ p. complete limit [] r p.0 p.1 ∙ ap plain (sym p.2),
)

-- A decoder that has delivered more bytes than the limit without an end or an error is given up:
-- whatever it would still produce, the answer is the refusal.
pub read_bounded_bomb :
    (lim : ℕ) (r more : Source)
    → IsLive r
    → lim < length (content r)
    → read_bounded (some lim) [] (r ++ more) ≡ decode_err too_large
read_bounded_bomb lim r more l big = bomb lim [] r more l (omega arith) (omega arith)

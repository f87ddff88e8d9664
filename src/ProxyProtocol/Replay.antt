-- ===== src/ProxyProtocol/Replay.antt =====
-- src/proxy_protocol.rs, `PrefixedIo::poll_read`: what was read too far comes first.
use oxide_http.Prelude.{
  ℕ, ◌+◌, Text, List, [], ◌∷◌, ◌++◌, append_assoc, ◌≡◌, refl, sym, ◌∙◌, ap, arith, Bool-cases, inl,
  inr, ltb, length, take, drop, min, take-append-drop, drop_all, drop-drop,
}
use oxide_http.ProxyProtocol.{Read, bytes, failed, Source, PrefixedIo, next_read, poll_read}
use oxide_http.ProxyProtocol.Reading.{content}
use oxide_http.ProxyProtocol.V2.{remaining}

-- The bytes of a read; an error brings none.
abbrev pub bytes_of : Read → Text
bytes_of (bytes b) = b
bytes_of failed = []

-- What the reads of a consumer return, one for each buffer that it brings.
pub reads : PrefixedIo → List ℕ → PrefixedIo × Text
reads io [] = (io, [])
reads io (room ∷ rooms) =
    let (io', r) = poll_read io room in
    let (io'', later) = reads io' rooms in (io'', bytes_of r ++ later)

next_read-content :
    (src : Source) → bytes_of (next_read src).1 ++ content (next_read src).0 ≡ content src
next_read-content [] = refl
next_read-content (bytes b ∷ src) = refl
next_read-content (failed ∷ src) = refl

poll_read-remaining :
    (io : PrefixedIo) (room : ℕ)
    → bytes_of (poll_read io room).1 ++ remaining (poll_read io room).0 ≡ remaining io
unfolding poll_read
poll_read-remaining io room = elim (Bool-cases (ltb io.pos (length io.prefix))) [
  | inl ahead ↦
      let rest : Text = drop io.pos io.prefix in
      let n : ℕ = min (length rest) room in
      rw ahead (
        sym (append_assoc (take n rest) (drop (io.pos + n) io.prefix) (content io.inner))
        ∙ ap (λ (t : Text). (take n rest ++ t) ++ content io.inner)
            (sym (drop-drop io.pos n io.prefix))
        ∙ ap (λ (t : Text). t ++ content io.inner) (take-append-drop n rest))
  | inr past ↦ rw (past, drop_all io.pos io.prefix (ground arith)) (next_read-content io.inner)
]

-- Whatever buffers a reader brings: what it has been given, followed by what is left, is what
-- there was to read.
pub reads-remaining :
    (io : PrefixedIo) (rooms : List ℕ)
    → (reads io rooms).1 ++ remaining (reads io rooms).0 ≡ remaining io
unfolding reads
reads-remaining io [] = refl
reads-remaining io (room ∷ rooms) =
    let io' : PrefixedIo = (poll_read io room).0 in
    append_assoc (bytes_of (poll_read io room).1) (reads io' rooms).1
      (remaining (reads io' rooms).0)
    ∙ ap (λ (t : Text). bytes_of (poll_read io room).1 ++ t) (reads-remaining io' rooms)
    ∙ poll_read-remaining io room

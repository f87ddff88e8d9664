-- ===== src/ProxyProtocol/V2.antt =====
-- src/proxy_protocol.rs, `parse_v2`: a header is read back, in whatever pieces it arrives.
use oxide_http.Prelude.{
  ℕ, ◌+◌, ◌*◌, ◌/◌, ◌≤◌, ◌<◌, Text, text_eq_refl, [], ◌∷◌, ◌++◌, ◌≡◌, refl, sym, ◌∙◌, ap, arith,
  length, length-append, take, drop, get_or, take-front, drop-front, get_or-front, length-drop,
  drop-drop, take-append, drop-append,
}
use oxide_http.ProxyProtocol.{
  Source, done, PrefixedIo, sig_v2, new, read_at_least, v2_addr, parse_v2, read_header,
}
use oxide_http.ProxyProtocol.Reading.{content, IsLive, Reached, read_at_least_live}

-- What a reader of the wrapped stream will be given.
abbrev pub remaining : PrefixedIo → Text
remaining io = drop io.pos io.prefix ++ content io.inner

-- A v2 header: version and command, family and transport, the length, the address block.
abbrev pub header_v2 : ℕ → ℕ → ℕ → ℕ → Text → Text
header_v2 ver_cmd family hi lo block = sig_v2 ++ ver_cmd ∷ family ∷ hi ∷ lo ∷ block

-- The steps of the two functions, as equations.
read_header-signed :
    (src src1 : Source) (buf1 : Text)
    → read_at_least src [] 12 ≡ done (src1, buf1)
    → take 12 buf1 ≡ sig_v2
    → read_header src ≡ parse_v2 src1 buf1
unfolding read_header
read_header-signed src src1 buf1 read signed = rw (read, signed, text_eq_refl sig_v2) refl

parse_v2-steps :
    (src src1 src2 : Source) (buf buf1 buf2 : Text) (ver_cmd family hi lo : ℕ)
    → read_at_least src buf 16 ≡ done (src1, buf1)
    → get_or buf1 12 0 ≡ ver_cmd
    → get_or buf1 13 0 ≡ family
    → get_or buf1 14 0 ≡ hi
    → get_or buf1 15 0 ≡ lo
    → ver_cmd / 16 ≡ 2
    → read_at_least src1 buf1 (16 + (hi * 256 + lo)) ≡ done (src2, buf2)
    → parse_v2 src buf
      ≡ done (
        new src2 (drop (16 + (hi * 256 + lo)) buf2),
        v2_addr ver_cmd (family / 16) (take (hi * 256 + lo) (drop 16 buf2)),
      )
unfolding parse_v2
parse_v2-steps src src1 src2 buf buf1 buf2 ver_cmd family hi lo r v f a b version r2 =
    rw (r, v, f, a, b, version, r2) refl

module _ (ver_cmd family hi lo : ℕ) (block payload : Text) (src : Source) (live : IsLive src)
    (arrives : content src ≡ header_v2 ver_cmd family hi lo (block ++ payload))
    (version : ver_cmd / 16 ≡ 2) (sized : length block ≡ hi * 256 + lo) where
  abbrev total : Text
  total = header_v2 ver_cmd family hi lo (block ++ payload)

  byte_at :
      (i : ℕ) {s : Source} {buf : Text} {want : ℕ}
      → Reached total want s buf
      → i < want
      → get_or buf i 0 ≡ get_or total i 0
  byte_at i {s} {buf} r h =
      sym (get_or-front buf (content s) i 0 (omega (arith, r.enough)))
      ∙ ap (λ (t : Text). get_or t i 0) r.same

  length-total : length total ≡ 16 + (length block + length payload)
  length-total = omega (arith, length-append block payload)

  block_at :
      {s : Source} {buf : Text}
      → Reached total (16 + (hi * 256 + lo)) s buf
      → take (hi * 256 + lo) (drop 16 buf) ≡ block
  block_at {s} {buf} r =
      let long : 16 + (hi * 256 + lo) ≤ length buf = r.enough in
      sym (take-front (hi * 256 + lo) (drop 16 buf) (content s) (omega (arith, length-drop 16 buf)))
      ∙ ap (take (hi * 256 + lo)) (sym (drop-front 16 buf (content s) (omega arith)))
      ∙ ap (λ (t : Text). take (hi * 256 + lo) (drop 16 t)) r.same
      ∙ ap (λ (n : ℕ). take n (block ++ payload)) (sym sized)
      ∙ take-append block payload

  rest_at :
      {s : Source} {buf : Text}
      → Reached total (16 + (hi * 256 + lo)) s buf
      → drop (16 + (hi * 256 + lo)) buf ++ content s ≡ payload
  rest_at {s} {buf} r =
      let n : ℕ = hi * 256 + lo in
      sym (drop-front (16 + n) buf (content s) r.enough)
      ∙ ap (drop (16 + n)) r.same
      ∙ sym (drop-drop 16 n total)
      ∙ ap (λ (n : ℕ). drop n (block ++ payload)) (sym sized)
      ∙ drop-append block payload

  -- Whatever the pieces in which a stream that delivers until its end brings a header of version
  -- 2, whose length is that of its block, and what follows it: the header is accepted, the
  -- address is the one its command and family give for its block, and what is left to read is
  -- exactly what followed the header.
  pub read_header-header_v2 :
      (io : PrefixedIo) × (read_header src ≡ done (io, v2_addr ver_cmd (family / 16) block))
      × (remaining io ≡ payload)
  unfolding new
  read_header-header_v2 =
      let (src1, buf1, read1, r1) =
        read_at_least_live src [] total 12 live arrives (omega (arith, length-total)) in
      let signed : take 12 buf1 ≡ sig_v2 =
        sym (take-front 12 buf1 (content src1) r1.enough) ∙ ap (take 12) r1.same in
      let (src2, buf2, read2, r2) =
        read_at_least_live src1 buf1 total 16 r1.live r1.same (omega (arith, length-total)) in
      let v : get_or buf2 12 0 ≡ ver_cmd = byte_at 12 r2 (omega arith) in
      let f : get_or buf2 13 0 ≡ family = byte_at 13 r2 (omega arith) in
      let a : get_or buf2 14 0 ≡ hi = byte_at 14 r2 (omega arith) in
      let b : get_or buf2 15 0 ≡ lo = byte_at 15 r2 (omega arith) in
      let (src3, buf3, read3, r3) =
        read_at_least_live src2 buf2 total (16 + (hi * 256 + lo)) r2.live r2.same
          (omega (arith, length-total, sized)) in
      (
        new src3 (drop (16 + (hi * 256 + lo)) buf3),
        read_header-signed src src1 buf1 read1 signed
            ∙ parse_v2-steps src1 src2 src3 buf1 buf2 buf3 ver_cmd family hi lo read2 v f a b
                version read3
            ∙ ap
                (λ (t : Text).
                  done
                    (new src3 (drop (16 + (hi * 256 + lo)) buf3), v2_addr ver_cmd (family / 16) t))
                (block_at r3),
        rest_at r3,
      )

-- ===== src/ProxyProtocol/V1.antt =====
-- src/proxy_protocol.rs, `parse_v1`: a line within the limit is read, in whatever pieces it
-- arrives, and the loop ends.
use oxide_http.Prelude.{
  ℕ, zero, suc, ◌+◌, ◌≤◌, ◌<◌, Text, text_eq, starts_with, [], ◌∷◌, ◌++◌, ◌≡◌, refl, sym, ◌∙◌, ap,
  arith, length, take, drop, take-front, drop-front, drop-drop, take-append, drop-append, true,
  false, none, some, Option-cases, Bool-cases, inl, inr, ltb, ◌==◌, ◌&&◌,
}
use oxide_http.ProxyProtocol.{
  Source, done, rejected, ◌>>=◌, PrefixedIo, sig_v1, sig_v2, max_v1, v1_fuel, new, find_crlf,
  read_at_least, v1_end, v1_line, parse_v1, read_header,
}
use oxide_http.ProxyProtocol.Reading.{content, IsLive, Reached, read_at_least_live}
use oxide_http.ProxyProtocol.V2.{remaining}

-- A line end in the buffer is the first of the whole, and lies inside the buffer.
find_crlf-front :
    (buf t : Text) (i : ℕ)
    → find_crlf buf ≡ some i
    → (find_crlf (buf ++ t) ≡ some i) × (i + 2 ≤ length buf)
unfolding find_crlf
find_crlf-front [] t i e = cc
find_crlf-front (a ∷ []) t i e = cc
find_crlf-front (a ∷ b ∷ s) t i e = elim (Bool-cases (a == 13 && b == 10)) [
  | inl here ↦ ground arith
  | inr on ↦ elim (Option-cases (find_crlf (b ∷ s))) [
    | inl missing ↦ ground arith
    | inr (j, found) ↦ ground (arith, find_crlf-front (b ∷ s) t j found)
  ]
]

-- Where the buffer has none, the first line end of the whole reaches past it.
find_crlf-beyond :
    (buf t : Text) (e : ℕ)
    → find_crlf buf ≡ none
    → find_crlf (buf ++ t) ≡ some e
    → length buf < e + 2
unfolding find_crlf
find_crlf-beyond [] t e none_here found = omega arith
find_crlf-beyond (a ∷ []) t e none_here found = omega arith
find_crlf-beyond (a ∷ b ∷ s) t e none_here found = elim (Option-cases (find_crlf ((b ∷ s) ++ t))) [
  | inl missing ↦ ground arith
  | inr (j, later) ↦ ground (arith, find_crlf-beyond (b ∷ s) t j (ground arith) later)
]

pub v1_end-found :
    (fuel : ℕ) (src : Source) (buf : Text) (i : ℕ)
    → find_crlf buf ≡ some i
    → v1_end (suc fuel) src buf ≡ done (i, src, buf)
unfolding v1_end
v1_end-found fuel src buf i e = rw (e, v1_end) refl

pub v1_end-more :
    (fuel : ℕ) (src src' : Source) (buf buf' : Text)
    → find_crlf buf ≡ none
    → ltb max_v1 (length buf) ≡ false
    → read_at_least src buf (length buf + 1) ≡ done (src', buf')
    → v1_end (suc fuel) src buf ≡ v1_end fuel src' buf'
unfolding v1_end
v1_end-more fuel src src' buf buf' e short r = rw (e, short, r, v1_end) refl

-- The loop finds the line's end while every byte that it waits for is below the limit.
abbrev Found : ℕ → ℕ → Source → Text → Text → Type 0
Found fuel e src buf total =
    (src' : Source) × (buf' : Text) × (v1_end (suc fuel) src buf ≡ done (e, src', buf'))
    × Reached total (e + 2) src' buf'

v1_end_here :
    (fuel e i : ℕ) (src : Source) (buf total : Text) {want : ℕ}
    → Reached total want src buf
    → find_crlf total ≡ some e
    → find_crlf buf ≡ some i
    → Found fuel e src buf total
v1_end_here fuel e i src buf total r found here =
    let (first, inside) = find_crlf-front buf (content src) i here in
    let same : i ≡ e = cc (first, ap find_crlf r.same, found) in
    (
      src,
      buf,
      v1_end-found fuel src buf i here ∙ ap (λ (j : ℕ). done (j, src, buf)) same,
      record { live = r.live; same = r.same; enough = omega arith },
    )

beyond :
    (e : ℕ) (src : Source) (buf total : Text) {want : ℕ}
    → Reached total want src buf
    → find_crlf total ≡ some e
    → find_crlf buf ≡ none
    → length buf < e + 2
beyond e src buf total r found missing =
    find_crlf-beyond buf (content src) e missing (ap find_crlf r.same ∙ found)

total_long : (e : ℕ) (total : Text) → find_crlf total ≡ some e → e + 2 ≤ length total
total_long e total found = (find_crlf-front total [] e found).1

v1_end_live :
    (fuel e : ℕ) (src : Source) (buf total : Text) {want : ℕ}
    → Reached total want src buf
    → find_crlf total ≡ some e
    → e + 2 ≤ max_v1 + 1
    → e + 2 ≤ fuel + length buf
    → Found fuel e src buf total
v1_end_live zero e src buf total r found short enough = elim (Option-cases (find_crlf buf)) [
  | inr (i, here) ↦ v1_end_here zero e i src buf total r found here
  | inl missing ↦ absurd (omega (arith, beyond e src buf total r found missing))
]
v1_end_live (suc fuel) e src buf total r found short enough = elim (Option-cases (find_crlf buf)) [
  | inr (i, here) ↦ v1_end_here (suc fuel) e i src buf total r found here
  | inl missing ↦
      let out = beyond e src buf total r found missing in
      let (src1, buf1, read, r1) =
        read_at_least_live src buf total (length buf + 1) r.live r.same
          (omega (arith, total_long e total found)) in
      let (src2, buf2, looped, r2) =
        v1_end_live fuel e src1 buf1 total r1 found short (omega (arith, r1.enough)) in
      (
        src2,
        buf2,
        v1_end-more (suc fuel) src src1 buf buf1 missing (ground arith) read ∙ looped,
        r2,
      )
]

pub v1_end-long :
    (fuel : ℕ) (src : Source) (buf : Text)
    → find_crlf buf ≡ none
    → ltb max_v1 (length buf) ≡ true
    → v1_end (suc fuel) src buf ≡ rejected
unfolding v1_end
v1_end-long fuel src buf e long = rw (e, long, v1_end) refl

pub v1_end-cut :
    (fuel : ℕ) (src : Source) (buf : Text)
    → find_crlf buf ≡ none
    → ltb max_v1 (length buf) ≡ false
    → read_at_least src buf (length buf + 1) ≡ rejected
    → v1_end (suc fuel) src buf ≡ rejected
unfolding v1_end
v1_end-cut fuel src buf e short r = rw (e, short, r, v1_end) refl

starts_with-nil : (s : Text) → starts_with s [] ≡ true
unfolding starts_with
starts_with-nil [] = refl
starts_with-nil (x ∷ s) = refl

starts_with-front : (a b p : Text) → length p ≤ length a → starts_with (a ++ b) p ≡ starts_with a p
unfolding starts_with
starts_with-front [] b [] h = starts_with-nil b
starts_with-front [] b (y ∷ p) h = absurd (omega arith)
starts_with-front (x ∷ a) b [] h = refl
starts_with-front (x ∷ a) b (y ∷ p) h =
    ap (λ t. (x == y) && t) (starts_with-front a b p (omega arith))

signed-not-v2 : (t : Text) → starts_with t sig_v1 ≡ true → text_eq (take 12 t) sig_v2 ≡ false
unfolding starts_with text_eq
signed-not-v2 [] h = cc
signed-not-v2 (c ∷ s) h = ground arith

read_header-text :
    (src src1 : Source) (buf1 : Text)
    → read_at_least src [] 12 ≡ done (src1, buf1)
    → text_eq (take 12 buf1) sig_v2 ≡ false
    → starts_with buf1 sig_v1 ≡ true
    → read_header src ≡ parse_v1 src1 buf1
unfolding read_header
read_header-text src src1 buf1 r other signed = rw (r, other, signed) refl

parse_v1-steps :
    (src src1 : Source) (buf buf1 : Text) (e : ℕ)
    → v1_end v1_fuel src buf ≡ done (e, src1, buf1)
    → parse_v1 src buf
      ≡ (v1_line (take e buf1) >>= λ addr. done (new src1 (drop (e + 2) buf1), addr))
unfolding parse_v1
parse_v1-steps src src1 buf buf1 e r = rw r refl

-- A line within the limit: the address that its words give, and nothing of what follows lost.
module _ (line payload : Text) (src : Source) (live : IsLive src)
    (arrives : content src ≡ line ++ 13 ∷ 10 ∷ payload)
    (first : find_crlf (line ++ 13 ∷ 10 ∷ payload) ≡ some (length line))
    (short : length line + 2 ≤ max_v1 + 1) (long : 12 ≤ length (line ++ 13 ∷ 10 ∷ payload))
    (signed : starts_with (line ++ 13 ∷ 10 ∷ payload) sig_v1 ≡ true) where
  abbrev total : Text
  total = line ++ 13 ∷ 10 ∷ payload

  -- Whatever the pieces in which a stream that delivers until its end brings a line of at most
  -- 106 bytes that begins with `PROXY `, its line end and what follows, 12 bytes or more in all:
  -- the outcome is that of the line's words, and what is left to read is exactly what followed
  -- the line.
  pub read_header-line :
      (io : PrefixedIo) × (read_header src ≡ (v1_line line >>= λ addr. done (io, addr)))
      × (remaining io ≡ payload)
  unfolding new
  read_header-line =
      let e : ℕ = length line in
      let (src1, buf1, read1, r1) = read_at_least_live src [] total 12 live arrives long in
      let other : text_eq (take 12 buf1) sig_v2 ≡ false =
        ap (λ (t : Text). text_eq t sig_v2)
          (sym (take-front 12 buf1 (content src1) r1.enough) ∙ ap (take 12) r1.same)
        ∙ signed-not-v2 total signed in
      let ours : starts_with buf1 sig_v1 ≡ true =
        sym (starts_with-front buf1 (content src1) sig_v1 (omega (arith, r1.enough)))
        ∙ ap (λ (t : Text). starts_with t sig_v1) r1.same
        ∙ signed in
      let (src2, buf2, looped, r2) =
        v1_end_live 108 e src1 buf1 total r1 first short (omega (arith, short)) in
      let line2 : take e buf2 ≡ line =
        sym (take-front e buf2 (content src2) (omega (arith, r2.enough)))
        ∙ ap (take e) r2.same
        ∙ take-append line (13 ∷ 10 ∷ payload) in
      (
        new src2 (drop (e + 2) buf2),
        read_header-text src src1 buf1 read1 other ours
            ∙ parse_v1-steps src1 src2 buf1 buf2 e looped
            ∙ ap (λ (t : Text). v1_line t >>= λ addr. done (new src2 (drop (e + 2) buf2), addr))
                line2,
        sym (drop-front (e + 2) buf2 (content src2) r2.enough)
            ∙ ap (drop (e + 2)) r2.same
            ∙ sym (drop-drop e 2 total)
            ∙ ap (drop 2) (drop-append line (13 ∷ 10 ∷ payload)),
      )

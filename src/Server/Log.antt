-- ===== src/Server/Log.antt =====
-- src/server.rs, `escape_json`: what the access log writes of a path is the inside of a JSON string.
use oxide_http.Prelude.{
  ℕ, ◌+◌, ◌*◌, ◌/◌, ◌%◌, ◌≤◌, ◌<◌, subst, Text, codes, [], ◌∷◌, ◌++◌, true, ltb, ◌==◌,
  if◌then◌else◌, ◌≡◌, ◌≢◌, arith, Bool-cases, inl, inr,
}

-- A hexadecimal digit of `{:04x}`.
abbrev pub hex_char : ℕ → ℕ
hex_char d = if ltb d 10 then d + 48 else d + 87

unfoldable pub escape_char : ℕ → Text
escape_char c =
    if c == b'"'
    then codes "\\\""
    else if c == b'\\'
    then codes "\\\\"
    else if c == 10
    then codes "\\n"
    else if c == 13
    then codes "\\r"
    else if c == 9
    then codes "\\t"
    else if ltb c 0x20
    then codes "\\u00" ++ hex_char (c / 16) ∷ hex_char (c % 16) ∷ []
    else c ∷ []

unfoldable pub escape_json : Text → Text
unfolding escape_char
escape_json [] = []
escape_json (c ∷ s) = escape_char c ++ escape_json s

-- The strings of RFC 8259, without their quotes, with what they stand for.
pub data JsonString : Text → Text → Type 0 where
  end : JsonString [] []
  unescaped :
      (c : ℕ) (s t : Text)
      → 0x20 ≤ c
      → c ≢ 0x22
      → c ≢ 0x5C
      → JsonString s t
      → JsonString (c ∷ s) (c ∷ t)
  quotation_mark : (s t : Text) → JsonString s t → JsonString (0x5C ∷ 0x22 ∷ s) (0x22 ∷ t)
  reverse_solidus : (s t : Text) → JsonString s t → JsonString (0x5C ∷ 0x5C ∷ s) (0x5C ∷ t)
  line_feed : (s t : Text) → JsonString s t → JsonString (0x5C ∷ 0x6E ∷ s) (0x0A ∷ t)
  carriage_return : (s t : Text) → JsonString s t → JsonString (0x5C ∷ 0x72 ∷ s) (0x0D ∷ t)
  tab : (s t : Text) → JsonString s t → JsonString (0x5C ∷ 0x74 ∷ s) (0x09 ∷ t)
  unicode :
      (h l : ℕ) (s t : Text)
      → h < 16
      → l < 16
      → JsonString s t
      → JsonString (0x5C ∷ 0x75 ∷ 0x30 ∷ 0x30 ∷ hex_char h ∷ hex_char l ∷ s) ((h * 16 + l) ∷ t)

-- Whatever the path holds, its escaped form is a JSON string that stands for the path.
pub escape_json-JsonString : (s : Text) → JsonString (escape_json s) s
unfolding escape_json
escape_json-JsonString [] = end
escape_json-JsonString (c ∷ s) = escaped c (escape_json s) s (escape_json-JsonString s)
  where
    control :
        (c : ℕ) (e s : Text)
        → ltb c 0x20 ≡ true
        → JsonString e s
        → JsonString (0x5C ∷ 0x75 ∷ 0x30 ∷ 0x30 ∷ hex_char (c / 16) ∷ hex_char (c % 16) ∷ e) (c ∷ s)
    control c e s h j =
        let whole : c / 16 * 16 + c % 16 ≡ c = omega arith in
        subst
          (λ (n : ℕ).
            JsonString (0x5C ∷ 0x75 ∷ 0x30 ∷ 0x30 ∷ hex_char (c / 16) ∷ hex_char (c % 16) ∷ e)
              (n ∷ s))
          whole (unicode (c / 16) (c % 16) e s (ground arith) (omega arith) j)

    escaped : (c : ℕ) (e s : Text) → JsonString e s → JsonString (escape_char c ++ e) (c ∷ s)
    escaped c e s j = elim (Bool-cases (c == b'"')) [
      | inl q ↦ let same : c ≡ b'"' = ground arith in rw same (quotation_mark e s j)
      | inr nq ↦ elim (Bool-cases (c == b'\\')) [
        | inl q ↦ let same : c ≡ b'\\' = ground arith in rw same (reverse_solidus e s j)
        | inr nb ↦ elim (Bool-cases (c == 10)) [
          | inl q ↦ let same : c ≡ 10 = ground arith in rw same (line_feed e s j)
          | inr nn ↦ elim (Bool-cases (c == 13)) [
            | inl q ↦ let same : c ≡ 13 = ground arith in rw same (carriage_return e s j)
            | inr nr ↦ elim (Bool-cases (c == 9)) [
              | inl q ↦ let same : c ≡ 9 = ground arith in rw same (tab e s j)
              | inr nt ↦ elim (Bool-cases (ltb c 0x20)) [
                | inl low ↦ rw (nq, nb, nn, nr, nt, low) (control c e s low j)
                | inr high ↦
                    rw (nq, nb, nn, nr, nt, high)
                      (unescaped c e s (ground arith) (ground arith) (ground arith) j)
              ]
            ]
          ]
        ]
      ]
    ]

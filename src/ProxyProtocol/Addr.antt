-- ===== src/ProxyProtocol/Addr.antt =====
-- The texts of IP addresses, as `std::net` prints them, and the UTF-8 test of `std::str`.
use oxide_http.Prelude.{
  ℕ, zero, suc, ◌+◌, ◌*◌, ◌/◌, ◌%◌, Text, codes, List, [], ◌∷◌, ◌++◌, map, Bool, true, false, ◌&&◌,
  ◌||◌, ltb, leb, ◌==◌, if◌then◌else◌, get_or, take, drop, join,
}

-- A byte in decimal.
dec_byte : ℕ → Text
dec_byte n =
    if ltb n 10
    then (48 + n) ∷ []
    else if ltb n 100
    then (48 + n / 10) ∷ (48 + n % 10) ∷ []
    else (48 + n / 100) ∷ (48 + n / 10 % 10) ∷ (48 + n % 10) ∷ []

-- The first four bytes, as `a.b.c.d`.
unfoldable pub ipv4_to_string : Text → Text
unfolding dec_byte join
ipv4_to_string a = join (codes ".") (
    dec_byte (get_or a 0 0)
    ∷ dec_byte (get_or a 1 0)
    ∷ dec_byte (get_or a 2 0)
    ∷ dec_byte (get_or a 3 0)
    ∷ [])

hex_of : ℕ → ℕ
hex_of d = if ltb d 10 then d + 48 else d + 87

-- A 16-bit segment in hexadecimal, without leading zeros.
hex_segment : ℕ → Text
unfolding hex_of
hex_segment n =
    if ltb n 16
    then hex_of n ∷ []
    else if ltb n 256
    then hex_of (n / 16) ∷ hex_of (n % 16) ∷ []
    else if ltb n 4096
    then hex_of (n / 256) ∷ hex_of (n / 16 % 16) ∷ hex_of (n % 16) ∷ []
    else hex_of (n / 4096) ∷ hex_of (n / 256 % 16) ∷ hex_of (n / 16 % 16) ∷ hex_of (n % 16) ∷ []

-- The first longest run of zero segments: where it begins and how long it is, with the current
-- run's the same, over the segments from `i` on.
zero_run : ℕ → ℕ → ℕ → ℕ → ℕ → List ℕ → ℕ × ℕ
zero_run best_at best_len at len i [] = (best_at, best_len)
zero_run best_at best_len at len i (s ∷ segs) =
    let at' : ℕ = if len == 0 then i else at in
    let longer : Bool = s == 0 && ltb best_len (len + 1) in
    zero_run (if longer then at' else best_at) (if longer then len + 1 else best_len) at'
      (if s == 0 then len + 1 else 0) (suc i) segs

-- The eight segments of the first 16 bytes.
segments_from : ℕ → Text → List ℕ
segments_from zero s = []
segments_from (suc n) s = (get_or s 0 0 * 256 + get_or s 1 0) ∷ segments_from n (drop 2 s)

colons : List ℕ → Text
unfolding hex_segment join
colons segs = join (codes ":") (map hex_segment segs)

unfoldable pub ipv6_to_string : Text → Text
unfolding ipv4_to_string segments_from zero_run colons
ipv6_to_string block =
    let segs : List ℕ = segments_from 8 block in
    let run : ℕ × ℕ = zero_run 0 0 0 0 0 segs in
    if leb 5 run.1 && run.0 == 0 && get_or segs 5 0 == 0xffff
    then codes "::ffff:" ++ ipv4_to_string (drop 12 block)
    else if ltb 1 run.1
    then colons (take run.0 segs) ++ codes "::" ++ colons (drop (run.0 + run.1) segs)
    else colons segs

-- Whether a byte stands in a range, and whether it continues a character.
abbrev within : ℕ → ℕ → ℕ → Bool
within lo hi b = leb lo b && leb b hi

abbrev cont : ℕ → Bool
cont b = within 0x80 0xBF b

second_of_three : ℕ → ℕ → Bool
second_of_three a b =
    if a == 0xE0
    then within 0xA0 0xBF b
    else if a == 0xED
    then within 0x80 0x9F b
    else within 0xE1 0xEF a && cont b

second_of_four : ℕ → ℕ → Bool
second_of_four a b =
    if a == 0xF0
    then within 0x90 0xBF b
    else if a == 0xF4
    then within 0x80 0x8F b
    else within 0xF1 0xF3 a && cont b

-- `str::from_utf8(..).is_ok()`.
unfoldable pub is_utf8 : Text → Bool
unfolding second_of_three second_of_four
is_utf8 [] = true
is_utf8 (a ∷ []) = ltb a 0x80
is_utf8 (a ∷ b ∷ []) = (ltb a 0x80 && ltb b 0x80) || (within 0xC2 0xDF a && cont b)
is_utf8 (a ∷ b ∷ c ∷ []) =
    (ltb a 0x80 && is_utf8 (b ∷ c ∷ []))
    || (within 0xC2 0xDF a && cont b && is_utf8 (c ∷ []))
    || (second_of_three a b && cont c)
is_utf8 (a ∷ b ∷ c ∷ d ∷ s) =
    let one = is_utf8 (b ∷ c ∷ d ∷ s) in
    let two = is_utf8 (c ∷ d ∷ s) in
    let three = is_utf8 (d ∷ s) in
    let four = is_utf8 s in
    if ltb a 0x80
    then one
    else if within 0xC2 0xDF a && cont b
    then two
    else if second_of_three a b && cont c
    then three
    else if second_of_four a b && cont c && cont d
    then four
    else false

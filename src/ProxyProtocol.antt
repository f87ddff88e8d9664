-- ===== src/ProxyProtocol.antt =====
-- src/proxy_protocol.rs: the PROXY prefix, v1 and v2, read from a stream. A stream is the list
-- of what its `read` calls return, in order; at its end every call returns no bytes.
pub mod Addr
pub mod Reading
pub mod V2
pub mod V1
pub mod Ends
pub mod Replay
mod Tests
use oxide_http.Prelude.{
  ℕ, zero, suc, ◌+◌, ◌*◌, ◌/◌, ◌%◌, Text, codes, text_eq, starts_with, split, Option, none, some,
  List, [], ◌∷◌, ◌++◌, Bool, true, false, not, ◌&&◌, ◌||◌, ltb, leb, ◌==◌, if◌then◌else◌, length,
  take, drop, get_or, min,
}
use oxide_http.ProxyProtocol.Addr.{ipv4_to_string, ipv6_to_string, is_utf8}

-- One call of `read`: some bytes, none at the end, or an error.
pub data Read : Type 0 where
  bytes : Text → Read
  failed : Read

abbrev pub Source : Type 0
Source = List Read

-- `Err(())` is `rejected`. The loop of `parse_v1` takes fuel.
pub data Outcome {ℓ} (A : Type ℓ) : Type ℓ where
  done : A → Outcome A
  rejected : Outcome A
  out_of_fuel : Outcome A

infixl 5 ◌>>=◌
abbrev pub ◌>>=◌ {ℓ κ} : {A : Type ℓ} {B : Type κ} → Outcome A → (A → Outcome B) → Outcome B
done a >>= f = f a
rejected >>= f = rejected
out_of_fuel >>= f = out_of_fuel

abbrev pub sig_v2 : Text
sig_v2 = 0x0D ∷ 0x0A ∷ 0x0D ∷ 0x0A ∷ 0x00 ∷ 0x0D ∷ 0x0A ∷ 0x51 ∷ 0x55 ∷ 0x49 ∷ 0x54 ∷ 0x0A ∷ []

abbrev pub sig_v1 : Text
sig_v1 = codes "PROXY "

abbrev pub max_v1 : ℕ
max_v1 = 107

-- The wrapped stream: what was read too far, and how much of it is handed on.
pub record PrefixedIo : Type 0 where
  pub inner : Source
  pub prefix : Text
  pub pos : ℕ

abbrev pub ParsedAddr : Type 0
ParsedAddr = Option Text

unfoldable pub new : Source → Text → PrefixedIo
new inner prefix = record { inner = inner; prefix = prefix; pos = 0 }

-- One `read` of a stream.
abbrev pub next_read : Source → Source × Read
next_read [] = ([], bytes [])
next_read (r ∷ src) = (src, r)

-- `PrefixedIo::poll_read` into a buffer with `room` bytes left: the leftover comes first.
unfoldable pub poll_read : PrefixedIo → ℕ → PrefixedIo × Read
poll_read me room =
    let rest = drop me.pos me.prefix in
    let n : ℕ = min (length rest) room in
    let (inner, r) = next_read me.inner in
    if ltb me.pos (length me.prefix)
    then (record me { pos = me.pos + n }, bytes (take n rest))
    else (record me { inner = inner }, r)

-- Reads until the buffer holds `want` bytes.
unfoldable pub read_at_least : Source → Text → ℕ → Outcome (Source × Text)
read_at_least [] buf want = if leb want (length buf) then done ([], buf) else rejected
read_at_least (failed ∷ src) buf want =
    if leb want (length buf) then done (failed ∷ src, buf) else rejected
read_at_least (bytes [] ∷ src) buf want =
    if leb want (length buf) then done (bytes [] ∷ src, buf) else rejected
read_at_least (bytes (c ∷ cs) ∷ src) buf want =
    let more = read_at_least src (buf ++ c ∷ cs) want in
    if leb want (length buf) then done (bytes (c ∷ cs) ∷ src, buf) else more

unfoldable pub find_crlf : Text → Option ℕ
find_crlf [] = none
find_crlf (a ∷ []) = none
find_crlf (a ∷ b ∷ s) =
    let later = find_crlf (b ∷ s) in
    if a == 13 && b == 10 then some 0 else elim later [ none ↦ none | some i ↦ some (suc i) ]

-- The loop of `parse_v1`: the end of the line, with the stream and the buffer at that moment.
pub v1_end : ℕ → Source → Text → Outcome (ℕ × Source × Text)
unfolding find_crlf read_at_least
v1_end zero src buf = out_of_fuel
v1_end (suc fuel) src buf = elim (find_crlf buf) [
  | some i ↦ done (i, src, buf)
  | none ↦ elim (ltb max_v1 (length buf)) [
    | true ↦ rejected
    | false ↦ elim (read_at_least src buf (length buf + 1)) [
      | done r ↦ v1_end fuel r.0 r.1
      | rejected ↦ rejected
      | out_of_fuel ↦ out_of_fuel
    ]
  ]
]

-- The words of the line, split at spaces.
v1_words : List Text → Outcome ParsedAddr
v1_words (p ∷ family ∷ words) =
    if not (text_eq p (codes "PROXY"))
    then rejected
    else if text_eq family (codes "TCP4") || text_eq family (codes "TCP6")
    then done (elim words [ [] ↦ none | src ∷ _ ↦ some src ])
    else if text_eq family (codes "UNKNOWN")
    then done none
    else rejected
v1_words _ = rejected

unfoldable pub v1_line : Text → Outcome ParsedAddr
unfolding v1_words
v1_line line = if is_utf8 line then v1_words (split b' ' line) else rejected

-- Every round adds a byte to the buffer, and the loop ends above `max_v1` bytes.
abbrev pub v1_fuel : ℕ
v1_fuel = max_v1 + 2

unfoldable pub parse_v1 : Source → Text → Outcome (PrefixedIo × ParsedAddr)
unfolding v1_end v1_line new
parse_v1 src buf = do
  (end, src', buf') ← v1_end v1_fuel src buf
  addr ← v1_line (take end buf')
  done (new src' (drop (end + 2) buf'), addr)

-- The source address of a v2 block.
unfoldable pub v2_addr : ℕ → ℕ → Text → ParsedAddr
v2_addr ver_cmd family block =
    if not (ver_cmd % 16 == 1)
    then none
    else if family == 1 && leb 12 (length block)
    then some (ipv4_to_string block)
    else if family == 2 && leb 36 (length block)
    then some (ipv6_to_string block)
    else none

unfoldable pub parse_v2 : Source → Text → Outcome (PrefixedIo × ParsedAddr)
unfolding v2_addr new read_at_least
parse_v2 src buf = do
  (src1, buf1) ← read_at_least src buf 16
  let ver_cmd : ℕ = get_or buf1 12 0
  let family : ℕ = get_or buf1 13 0 / 16
  let len : ℕ = get_or buf1 14 0 * 256 + get_or buf1 15 0
  if not (ver_cmd / 16 == 2) then rejected else do
    (src2, buf2) ← read_at_least src1 buf1 (16 + len)
    done (new src2 (drop (16 + len) buf2), v2_addr ver_cmd family (take len (drop 16 buf2)))

unfoldable pub read_header : Source → Outcome (PrefixedIo × ParsedAddr)
unfolding parse_v1 parse_v2 read_at_least
read_header src = do
  (src', buf) ← read_at_least src [] 12
  (if text_eq (take 12 buf) sig_v2
      then parse_v2 src' buf
      else if starts_with buf sig_v1
      then parse_v1 src' buf
      else rejected)

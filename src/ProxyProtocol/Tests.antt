-- ===== src/ProxyProtocol/Tests.antt =====
-- src/proxy_protocol.rs: the source's tests, and prefixes that arrive in pieces.
use oxide_http.Prelude.{
  Text, codes, text_eq, starts_with, split, some, none, [], ◌∷◌, ◌++◌, true, ◌≡◌, ◌/◌, refl, arith,
}
use oxide_http.ProxyProtocol.{
  done, rejected, ◌>>=◌, Source, find_crlf, v1_line, v2_addr, bytes, read_header, PrefixedIo,
  sig_v2,
}
use oxide_http.ProxyProtocol.V2.{remaining, read_header-header_v2}
use oxide_http.ProxyProtocol.V1.{read_header-line}
use oxide_http.ProxyProtocol.Addr.{is_utf8, ipv4_to_string, ipv6_to_string}

proxy_header : Unit {0}
unfolding read_header text_eq starts_with split is_utf8 ipv4_to_string ipv6_to_string
proxy_header = tt

v1_tcp4 :
    read_header (bytes (codes "PROXY TCP4 192.168.0.1 10.0.0.1 56324 443\r\nGET /") ∷ [])
    ≡ done (record { inner = []; prefix = codes "GET /"; pos = 0 }, some (codes "192.168.0.1"))
unfolding proxy_header
v1_tcp4 = refl

v1_unknown :
    read_header (bytes (codes "PROXY UNKN") ∷ bytes (codes "OWN\r") ∷ bytes (codes "\nDATA") ∷ [])
    ≡ done (record { inner = []; prefix = codes "DATA"; pos = 0 }, none)
unfolding proxy_header
v1_unknown = refl

v2_ipv4 :
    read_header (
      bytes (sig_v2 ++ 0x21 ∷ 0x11 ∷ 0 ∷ 12 ∷ 10 ∷ 1 ∷ 2 ∷ 3 ∷ [])
      ∷ bytes (1 ∷ 2 ∷ 3 ∷ 4 ∷ 5 ∷ 6 ∷ 7 ∷ 8 ∷ codes "PAY")
      ∷ [])
    ≡ done (record { inner = []; prefix = codes "PAY"; pos = 0 }, some (codes "10.1.2.3"))
unfolding proxy_header
v2_ipv4 = refl

v6 :
    ipv6_to_string (0x20 ∷ 1 ∷ 0xd ∷ 0xb8 ∷ 0 ∷ 0 ∷ 0 ∷ 0 ∷ 0 ∷ 0 ∷ 0 ∷ 0 ∷ 0 ∷ 0 ∷ 0 ∷ 1 ∷ [])
    ≡ codes "2001:db8::1"
unfolding proxy_header
v6 = refl

plain : read_header (bytes (codes "GET / HTTP/1.1\r\n") ∷ []) ≡ rejected
unfolding proxy_header
plain = refl

abbrev block : Text
block = 10 ∷ 1 ∷ 2 ∷ 3 ∷ 1 ∷ 2 ∷ 3 ∷ 4 ∷ 5 ∷ 6 ∷ 7 ∷ 8 ∷ []

abbrev v2_pieces : Source
v2_pieces =
    bytes (sig_v2 ++ 0x21 ∷ 0x11 ∷ [])
    ∷ bytes (0 ∷ 12 ∷ block ++ codes "P")
    ∷ bytes (codes "AY")
    ∷ []

header_v2_example :
    (io : PrefixedIo) × (read_header v2_pieces ≡ done (io, v2_addr 0x21 (0x11 / 16) block))
    × (remaining io ≡ codes "PAY")
header_v2_example =
    read_header-header_v2 0x21 0x11 0 12 block (codes "PAY") v2_pieces (tt, (tt, (tt, tt))) refl
      refl refl

abbrev v1_pieces : Source
v1_pieces = bytes (codes "PROXY UNKN") ∷ bytes (codes "OWN\r") ∷ bytes (codes "\nDATA") ∷ []

first_line : find_crlf (codes "PROXY UNKNOWN" ++ 13 ∷ 10 ∷ codes "DATA") ≡ some 13
unfolding find_crlf
first_line = refl

signed_line : starts_with (codes "PROXY UNKNOWN" ++ 13 ∷ 10 ∷ codes "DATA") (codes "PROXY ") ≡ true
unfolding starts_with
signed_line = refl

line_example :
    (io : PrefixedIo) × (read_header v1_pieces
      ≡ (v1_line (codes "PROXY UNKNOWN") >>= λ addr. done (io, addr)))
    × (remaining io ≡ codes "DATA")
line_example =
    read_header-line (codes "PROXY UNKNOWN") (codes "DATA") v1_pieces (tt, (tt, (tt, tt))) refl
      first_line (omega arith) (omega arith) signed_line

abbrev left_over : PrefixedIo
left_over = record { inner = bytes (codes "GE") ∷ []; prefix = codes "abc"; pos = 1 }

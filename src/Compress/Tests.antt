-- ===== src/Compress/Tests.antt =====
-- src/compress.rs: decoders on small inputs.
use oxide_http.Prelude.{codes, some, [], ◌∷◌, ◌≡◌, ◌↔◌, length}
use oxide_http.ProxyProtocol.{bytes, Source}
use oxide_http.Compress.{plain, read_bounded}
use oxide_http.Compress.Bounded.{Decodes, output, read_bounded_iff}
use oxide_http.Body.Delivery.{Within}

abbrev decoder : Source
decoder = bytes (codes "ab") ∷ bytes (codes "cd") ∷ []

read_bounded_example : (read_bounded (some 9) [] decoder ≡ plain (codes "abcd")) ↔ (
    Decodes decoder × Within (some 9) (length (output decoder)) × (codes "abcd" ≡ output decoder))
read_bounded_example = read_bounded_iff (some 9) decoder (codes "abcd")

-- ===== src/Compress.antt =====
-- src/compress.rs: decompression under the body limit. The decoders of `flate2` and `brotli` are a
-- parameter: for a compressed body, what their `read` calls return.
pub mod Bounded
mod Tests
use oxide_http.Prelude.{
  Text, codes, text_eq, ℕ, Option, List, [], ◌∷◌, ◌++◌, ◌||◌, if◌then◌else◌, length,
}
use oxide_http.ProxyProtocol.{Read, bytes, failed, Source}
use oxide_http.Body.{exceeds}

pub data DecodeErr : Type 0 where
  unsupported : DecodeErr
  invalid : DecodeErr
  too_large : DecodeErr

pub data Decoded : Type 0 where
  plain : Text → Decoded
  decode_err : DecodeErr → Decoded

pub record Decoders : Type 0 where
  pub gzip : Text → Source
  pub zlib : Text → Source
  pub brotli : Text → Source

unfoldable pub read_bounded : Option ℕ → Text → Source → Decoded
read_bounded limit out [] = plain out
read_bounded limit out (failed ∷ r) = decode_err invalid
read_bounded limit out (bytes [] ∷ r) = plain out
read_bounded limit out (bytes (c ∷ cs) ∷ r) =
    let out' : Text = out ++ c ∷ cs in
    let rest = read_bounded limit out' r in
    if exceeds limit (length out') then decode_err too_large else rest

unfoldable pub decode : Decoders → Text → Text → Option ℕ → Decoded
unfolding read_bounded
decode d encoding body limit =
    if text_eq encoding (codes "gzip") || text_eq encoding (codes "x-gzip")
    then read_bounded limit [] (d.gzip body)
    else if text_eq encoding (codes "deflate")
    then read_bounded limit [] (d.zlib body)
    else if text_eq encoding (codes "br")
    then read_bounded limit [] (d.brotli body)
    else decode_err unsupported

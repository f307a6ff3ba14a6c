-- ===== src/Command/Gzip.antt =====
-- crates/cannon/src/gz.rs. The streams are those of the crate flate2.
use cannon_rs.Prelude.{Result, ◌>>=◌, ◌≡◌, ok}

-- `GzEncoder` over a vector, and `GzDecoder` read to its end.
pub record GzStreams (Content Encoder : Type 0) : Type 0 where
  pub new_encoder : Encoder
  pub write_all : Content → Encoder → Result Encoder
  pub finish : Encoder → Result Content
  pub read_to_end : Content → Result Content

module _ {Content Encoder : Type 0} (gzip : GzStreams Content Encoder) where
  unfoldable pub compress_bytes : Content → Result Content
  compress_bytes bytes = gzip.write_all bytes gzip.new_encoder >>= λ encoder. gzip.finish encoder

  unfoldable pub decompress_bytes : Content → Result Content
  decompress_bytes compressed_bytes = gzip.read_to_end compressed_bytes

  -- What the crate documents: what was written and finished is read back.
  abbrev pub Decompresses : Type 0
  Decompresses =
      (bytes compressed : Content) (encoder : Encoder)
      → gzip.write_all bytes gzip.new_encoder ≡ ok encoder
      → gzip.finish encoder ≡ ok compressed
      → gzip.read_to_end compressed ≡ ok bytes

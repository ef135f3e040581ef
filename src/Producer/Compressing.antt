-- ===== src/Producer/Compressing.antt =====
-- src/producer.rs: compress_message, with the options of src/compression.rs. The compressors are
-- third-party code, and so are their errors, which are numbers here.
use pulsar_rdg_rs.Prelude.{ℕ, ◌%◌, Option, none, some, Result, ok, ◌>>=◌, length}
use pulsar_rdg_rs.Prelude.Int.{ℤ, pos}
use pulsar_rdg_rs.Bytes.{Bytes, u32_mod}
use pulsar_rdg_rs.Producer.Message.{ProducerMessage}

-- Compression, with the mode of lz4 and the levels of zlib and zstd.
pub data Compression : Type 0 where
  uncompressed : Compression
  lz4 : (mode : ℕ) → Compression
  zlib : (level : ℕ) → Compression
  zstd : (level : ℤ) → Compression
  snappy : Compression

abbrev pub Compressor : Type 0
Compressor = Compression → Bytes → Result ℕ Bytes

-- What a compressed message carries; `type` is the number of its CompressionType.
abbrev pub with_payload : ProducerMessage → ℕ → Bytes → ProducerMessage
with_payload m type compressed = record m {
  payload = compressed;
  uncompressed_size = some (length m.payload % u32_mod);
  compression = some (pos type);
}

module _ (compress : Compressor) where
  unfoldable pub compress_message : ProducerMessage → Option Compression → Result ℕ ProducerMessage
  compress_message m none = ok m
  compress_message m (some uncompressed) = ok m
  compress_message m (some (lz4 mode)) =
      compress (lz4 mode) m.payload >>= λ z. ok (with_payload m 1 z)
  compress_message m (some (zlib level)) =
      compress (zlib level) m.payload >>= λ z. ok (with_payload m 2 z)
  compress_message m (some (zstd level)) =
      compress (zstd level) m.payload >>= λ z. ok (with_payload m 3 z)
  compress_message m (some snappy) = compress snappy m.payload >>= λ z. ok (with_payload m 4 z)

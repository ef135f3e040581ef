-- ===== src/Consumer/Compressed.antt =====
-- A message that the producer compresses is read by the consumer's engine.
use pulsar_rdg_rs.Prelude.{
  ℕ, ◌^◌, ◌%◌, ◌<◌, ◌≡◌, refl, sym, ap, ◌∙◌, subst, Option, none, some, List, [], ◌∷◌, Result, ok,
  err, length, arith,
}
use pulsar_rdg_rs.Prelude
use pulsar_rdg_rs.Prelude.Int.{pos}
use pulsar_rdg_rs.Bytes.{Bytes, Text, u32_mod}
use pulsar_rdg_rs.Proto.{MessageIdData, MessageMetadata}
use pulsar_rdg_rs.Codec.{Payload}
use pulsar_rdg_rs.Producer.Message.{ProducerMessage}
use pulsar_rdg_rs.Producer.Sending.{message_payload}
use pulsar_rdg_rs.Producer.Compressing.{
  Compression, uncompressed, Compressor, with_payload, compress_message,
}
use pulsar_rdg_rs.Consumer.Engine.{World, CompressionType}
use pulsar_rdg_rs.Consumer.Deliver.{
  reject_chunked_message, compression_type, decompress, decompressed, payloads_of, payloads,
}

-- The algorithm of a Compression, if it has one.
abbrev pub algorithm : Compression → Option CompressionType
algorithm uncompressed = none
algorithm (Compression.lz4 mode) = some CompressionType.lz4
algorithm (Compression.zlib level) = some CompressionType.zlib
algorithm (Compression.zstd level) = some CompressionType.zstd
algorithm Compression.snappy = some CompressionType.snappy

-- The decompressors undo the compressors, when they are told the size of what was compressed.
pub record IsDecompressor (compress : Compressor) (w : World) : Type 0 where
  pub inverse :
      (c : Compression) (t : CompressionType) (bytes z : Bytes) (metadata : MessageMetadata)
      → algorithm c ≡ some t
      → compress c bytes ≡ ok z
      → metadata.uncompressed_size ≡ some (length bytes)
      → w.decompress t metadata z ≡ ok bytes

-- The payload that the engine hands on for `m` when the producer sends `sent`.
abbrev pub read_back : Text → ℕ → ℕ → ProducerMessage → ProducerMessage → Payload MessageMetadata
read_back name sequence_id now m sent = record (message_payload name sequence_id now sent) {
  payload_data = m.payload;
}

module _ (compress : Compressor) (w : World) (inverse : IsDecompressor compress w)
    (id : MessageIdData) (name : Text) (sequence_id now : ℕ) where
  payloads-uncompressed :
      (m : ProducerMessage)
      → m.compression ≡ none
      → m.num_messages_in_batch ≡ none
      → payloads w id (message_payload name sequence_id now m)
        ≡ ok ((id, message_payload name sequence_id now m) ∷ [])
  unfolding payloads message_payload compression_type reject_chunked_message decompress payloads_of
  payloads-uncompressed m c n =
      let p = message_payload name sequence_id now m in
      ap
        (λ c. Prelude.◌>>=◌ (compression_type c) λ c.
          Prelude.◌>>=◌ (decompress w c p) λ q. payloads_of w q.metadata.num_messages_in_batch id q)
        c
      ∙ ap (λ n. payloads_of w n id p) n

  payloads-compressed :
      (m : ProducerMessage) (c : Compression) (t : CompressionType) (z : Bytes) (type : ℕ)
      → algorithm c ≡ some t
      → compression_type (some (pos type)) ≡ ok (some t)
      → compress c m.payload ≡ ok z
      → length m.payload < u32_mod
      → m.num_messages_in_batch ≡ none
      → payloads w id (message_payload name sequence_id now (with_payload m type z))
        ≡ ok (
            (
              id,
              record (message_payload name sequence_id now (with_payload m type z)) {
                payload_data = m.payload;
              },
            )
            ∷ [])
  unfolding payloads message_payload reject_chunked_message decompress payloads_of
  payloads-compressed m c t z type a e q l n =
      let p = message_payload name sequence_id now (with_payload m type z) in
      ap
        (λ c. Prelude.◌>>=◌ c λ c.
          Prelude.◌>>=◌ (decompress w c p) λ q. payloads_of w q.metadata.num_messages_in_batch id q)
        e
      ∙ ap
          (λ d.
            Prelude.◌>>=◌ (decompressed p d)
              λ q. payloads_of w q.metadata.num_messages_in_batch id q)
          (inverse.inverse c t m.payload z p.metadata a q (ap some (omega arith)))
      ∙ ap (λ n. payloads_of w n id (record p { payload_data = m.payload })) n

  payloads-compressor :
      (m sent : ProducerMessage) (c : Compression) (t : CompressionType) (type : ℕ)
      (r : Result ℕ Bytes)
      → algorithm c ≡ some t
      → compression_type (some (pos type)) ≡ ok (some t)
      → compress c m.payload ≡ r
      → length m.payload < u32_mod
      → m.num_messages_in_batch ≡ none
      → Prelude.◌>>=◌ r (λ z. ok (with_payload m type z)) ≡ ok sent
      → payloads w id (message_payload name sequence_id now sent)
        ≡ ok ((id, read_back name sequence_id now m sent) ∷ [])
  payloads-compressor m sent c t type (ok z) a e q l n h =
      let same : with_payload m type z ≡ sent = cc in
      subst
        (λ sent.
          payloads w id (message_payload name sequence_id now sent)
          ≡ ok ((id, read_back name sequence_id now m sent) ∷ []))
        same (payloads-compressed m c t z type a e q l n)
  payloads-compressor m sent c t type (err x) a e q l n h = cc

  -- Let the decompressors undo the compressors when they are told the size, and let the message be
  -- no batch, not compressed by the caller, and shorter than 2^32 bytes. If the producer can
  -- compress it, by any of the algorithms or none, then the engine reads what is sent as this one
  -- message, with the payload that the message had.
  pub payloads-compress_message :
      (m sent : ProducerMessage) (compression : Option Compression)
      → m.compression ≡ none
      → m.num_messages_in_batch ≡ none
      → length m.payload < u32_mod
      → compress_message compress m compression ≡ ok sent
      → payloads w id (message_payload name sequence_id now sent)
        ≡ ok ((id, read_back name sequence_id now m sent) ∷ [])
  unfolding compress_message compression_type
  payloads-compress_message m sent none c n l h =
      let same : m ≡ sent = cc in
      subst
        (λ sent.
          payloads w id (message_payload name sequence_id now sent)
          ≡ ok ((id, read_back name sequence_id now m sent) ∷ []))
        same (unfold message_payload in payloads-uncompressed m c n)
  payloads-compress_message m sent (some uncompressed) c n l h =
      let same : m ≡ sent = cc in
      subst
        (λ sent.
          payloads w id (message_payload name sequence_id now sent)
          ≡ ok ((id, read_back name sequence_id now m sent) ∷ []))
        same (unfold message_payload in payloads-uncompressed m c n)
  payloads-compress_message m sent (some (Compression.lz4 mode)) c n l h =
      payloads-compressor m sent (Compression.lz4 mode) CompressionType.lz4 1 _ refl refl refl l n h
  payloads-compress_message m sent (some (Compression.zlib level)) c n l h =
      payloads-compressor m sent (Compression.zlib level) CompressionType.zlib 2 _ refl refl refl l
        n h
  payloads-compress_message m sent (some (Compression.zstd level)) c n l h =
      payloads-compressor m sent (Compression.zstd level) CompressionType.zstd 3 _ refl refl refl l
        n h
  payloads-compress_message m sent (some Compression.snappy) c n l h =
      payloads-compressor m sent Compression.snappy CompressionType.snappy 4 _ refl refl refl l n h

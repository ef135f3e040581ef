-- ===== src/Batch/Parsing.antt =====
-- Batches written by `BatchedMessage::serialize` and read by `parse_batched_message`.
use mathlib.Core.List.{append_assoc, append-nil}
use pulsar_rdg_rs.Prelude.{◌<◌, ◌^◌, ◌≡◌, refl, ◌∙◌, List, [], ◌∷◌, ◌++◌, length, arith, ok}
use pulsar_rdg_rs.Prelude.Int.{pos, as_u32}
use pulsar_rdg_rs.Bytes.{Bytes, done, put_u32, u32_mod, be_u32-put_u32, take_bytes-append}
use pulsar_rdg_rs.Proto.{SingleMessageMetadata}
use pulsar_rdg_rs.Codec.{Protobuf, IsProtobuf}
use pulsar_rdg_rs.Batch.{
  BatchedMessage, count, single_metadata, batched_message, parse_batched_message, serialize,
}

module _ (singles : Protobuf SingleMessageMetadata) where
  -- What the producer makes sure of: the size in the metadata is the payload's, and both parts
  -- fit their length fields.
  pub record Fits (m : BatchedMessage) : Type 0 where
    pub sized : m.metadata.payload_size ≡ pos (length m.payload)
    pub payload_fits : length m.payload < 2 ^ 31
    pub metadata_fits : singles.encoded_len m.metadata < u32_mod

  abbrev pub AllFit : List BatchedMessage → Type 0
  AllFit [] = Unit
  AllFit (m ∷ ms) = Fits m × AllFit ms

  -- The messages one after another, as `message_send_loop` writes them behind `w`.
  abbrev pub serialize_all : List BatchedMessage → Bytes → Bytes
  serialize_all [] w = w
  serialize_all (m ∷ ms) w = serialize_all ms (serialize singles m w)

module _ (singles : Protobuf SingleMessageMetadata) (is_singles : IsProtobuf singles) where
  abbrev message_bytes : BatchedMessage → Bytes
  message_bytes m =
      put_u32 (singles.encoded_len m.metadata) ++ (singles.encode m.metadata ++ m.payload)

  abbrev batch_bytes : List BatchedMessage → Bytes
  batch_bytes [] = []
  batch_bytes (m ∷ ms) = message_bytes m ++ batch_bytes ms

  serialize_all-eq :
      (ms : List BatchedMessage) (w : Bytes) → serialize_all singles ms w ≡ w ++ batch_bytes ms
  unfolding serialize
  serialize_all-eq [] w = simp append-nil
  serialize_all-eq (m ∷ ms) w = serialize_all-eq ms (serialize singles m w) ∙ simp append_assoc

  single_metadata-bytes :
      (m : BatchedMessage) (rest : Bytes)
      → Fits singles m
      → single_metadata singles
          (length (singles.encode m.metadata))
          (singles.encode m.metadata ++ rest)
        ≡ done rest m.metadata
  unfolding single_metadata
  single_metadata-bytes m rest h =
      rw
        (
          take_bytes-append (singles.encode m.metadata) rest,
          is_singles.decode-encode m.metadata,
          single_metadata,
        )
        (rw h.sized (ground arith))

  payload_len :
      (m : BatchedMessage) → Fits singles m → as_u32 m.metadata.payload_size ≡ length m.payload
  payload_len m h = rw h.sized (omega (arith, h.payload_fits))

  batched_message-bytes :
      (m : BatchedMessage) (rest : Bytes)
      → Fits singles m
      → batched_message singles (message_bytes m ++ rest) ≡ done rest m
  unfolding batched_message
  batched_message-bytes m rest h =
      let md = singles.encode m.metadata in
      rw (is_singles.encoded_len-eq-length m.metadata) (
        rw (
          append_assoc (put_u32 (length md)) (md ++ m.payload) rest,
          be_u32-put_u32 (length md) ((md ++ m.payload) ++ rest)
              (omega (arith, h.metadata_fits, is_singles.encoded_len-eq-length m.metadata)),
          append_assoc md m.payload rest,
          single_metadata-bytes m (m.payload ++ rest) h,
          payload_len m h,
          take_bytes-append m.payload rest,
        ))

  count-batch_bytes :
      (ms : List BatchedMessage) (rest : Bytes)
      → AllFit singles ms
      → count (batched_message singles) (length ms) (batch_bytes ms ++ rest) ≡ done rest ms
  unfolding count
  count-batch_bytes [] rest h = refl
  count-batch_bytes (m ∷ ms) rest h = rw (
    append_assoc (message_bytes m) (batch_bytes ms) rest,
    batched_message-bytes m (batch_bytes ms ++ rest) h.0,
    count-batch_bytes ms rest h.1,
  )

  -- A batch whose messages fit their length fields is read back as it was written.
  pub parse_batched_message-serialize_all :
      (ms : List BatchedMessage)
      → AllFit singles ms
      → parse_batched_message singles (length ms) (serialize_all singles ms []) ≡ ok ms
  unfolding parse_batched_message
  parse_batched_message-serialize_all ms h = rw (
    serialize_all-eq ms [],
    ← append-nil (batch_bytes ms),
    count-batch_bytes ms [] h,
    parse_batched_message,
  )

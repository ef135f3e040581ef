-- ===== src/Producer/Keys.antt =====
-- Keys and values that survive the way through a producer and a consumer.
use pulsar_rdg_rs.Prelude.{ℕ, ◌<◌, ◌^◌, ◌≡◌, refl, true, false, Option, none, some, [], length}
use pulsar_rdg_rs.Prelude.Int.{as_i32-small}
use pulsar_rdg_rs.Bytes.{Bytes, Text, u32_mod}
use pulsar_rdg_rs.Proto.{MessageMetadata, SingleMessageMetadata}
use pulsar_rdg_rs.Codec.{Protobuf, Payload}
use pulsar_rdg_rs.Batch.{item_payload}
use pulsar_rdg_rs.Batch.Parsing.{Fits}
use pulsar_rdg_rs.Producer.Message.{
  Base64, IsBase64, PartitionKey, text, bytes, null, Message, ProducerMessage, routing_key,
  from_metadata, from_message, to_batched, unwrap_or, key_fields, absent,
}
use pulsar_rdg_rs.Producer.Sending.{message_payload}

-- How the dead-letter path reads a value back:
-- `(!metadata.null_value.unwrap_or(false)).then_some(data)`.
unfoldable pub received_value : Payload MessageMetadata → Option Bytes
received_value p = elim (unwrap_or p.metadata.null_value false) [
  | true ↦ none
  | false ↦ some p.payload_data
]

unfoldable pub received_key : Base64 → Payload MessageMetadata → Option PartitionKey
received_key b64 p =
    from_metadata b64 p.metadata.partition_key p.metadata.partition_key_b64_encoded
      p.metadata.null_partition_key

abbrev pub and_then {ℓ κ} : {A : Type ℓ} {B : Type κ} → Option A → (A → Option B) → Option B
and_then none f = none
and_then (some a) f = f a

module _ (b64 : Base64) where
  -- The text that a keyed message is routed by is the text that travels as its partition key.
  pub routing_key-from_message :
      (m : Message)
      → and_then m.partition_key (routing_key b64) ≡ (from_message b64 m).partition_key
  unfolding routing_key from_message
  routing_key-from_message m = go m.partition_key
    where
      go : (k : Option PartitionKey) → and_then k (routing_key b64) ≡ (key_fields b64 k).0
      go none = refl
      go (some (text key)) = refl
      go (some (bytes key)) = refl
      go (some null) = refl

  module _ (is_b64 : IsBase64 b64) where
    pub from_metadata-key_fields :
        (k : Option PartitionKey)
        → from_metadata b64 (key_fields b64 k).0 (key_fields b64 k).1 (key_fields b64 k).2 ≡ k
    unfolding from_metadata key_fields
    from_metadata-key_fields none = refl
    from_metadata-key_fields (some (text key)) = refl
    from_metadata-key_fields (some (bytes key)) = rw (is_b64.decode-encode key)
    from_metadata-key_fields (some null) = refl

    value_back :
        (v : Option Bytes)
        → (elim (unwrap_or (absent b64 v) false) [ true ↦ none | false ↦ some (unwrap_or v []) ])
          ≡ v
    unfolding absent
    value_back none = refl
    value_back (some v) = refl

    -- A message sent by itself arrives with the key it was given, text, binary, null or none at
    -- all, and with its value, an absent one as absent.
    pub received-message_payload :
        (m : Message) (name : Text) (sequence_id now : ℕ)
        → let p = message_payload name sequence_id now (from_message b64 m) in
          (received_key b64 p ≡ m.partition_key) × (received_value p ≡ m.payload)
    unfolding received_key received_value message_payload from_message
    received-message_payload m name sequence_id now =
        (from_metadata-key_fields m.partition_key, value_back m.payload)

    -- So does a message sent in a batch, whatever the envelope's own metadata says.
    pub received-item_payload :
        (m : Message) (envelope : MessageMetadata)
        → let p = item_payload envelope (to_batched (from_message b64 m)) in
          (received_key b64 p ≡ m.partition_key) × (received_value p ≡ m.payload)
    unfolding received_key received_value item_payload to_batched from_message
    received-item_payload m envelope =
        (from_metadata-key_fields m.partition_key, value_back m.payload)

-- A message that the producer puts into a batch fits its length fields, as long as its payload
-- is shorter than 2 GiB and its metadata than 4 GiB.
pub to_batched-Fits :
    (singles : Protobuf SingleMessageMetadata) (m : ProducerMessage)
    → length m.payload < 2 ^ 31
    → singles.encoded_len (to_batched m).metadata < u32_mod
    → Fits singles (to_batched m)
unfolding to_batched
to_batched-Fits singles m h k = record {
  sized = as_i32-small (length m.payload) h;
  payload_fits = h;
  metadata_fits = k;
}

-- ===== src/Producer/Message.antt =====
-- src/producer.rs: `PartitionKey`, `Message`, `ProducerMessage` and the conversions between them.
-- base64 is third-party code.
use pulsar_rdg_rs.Prelude.{ℕ, ◌≡◌, Bool, true, false, Option, none, some, List, [], map, length}
use pulsar_rdg_rs.Prelude.Int.{ℤ, as_i32}
use pulsar_rdg_rs.Prelude.Maps.{Map}
use pulsar_rdg_rs.Bytes.{Bytes, Text}
use pulsar_rdg_rs.Proto.{EncryptionKeys}
use pulsar_rdg_rs.Batch.{BatchedMessage}

-- The engine's encoding, and decoding which may fail.
pub record Base64 : Type 0 where
  pub encode : Bytes → Text
  pub decode : Text → Option Bytes

pub record IsBase64 (b : Base64) : Type 0 where
  pub decode-encode : (bytes : Bytes) → b.decode (b.encode bytes) ≡ some bytes

pub data PartitionKey : Type 0 where
  text : Text → PartitionKey
  bytes : Bytes → PartitionKey
  null : PartitionKey

pub record Message : Type 0 where
  pub payload : Option Bytes
  pub properties : Map Text Text
  pub partition_key : Option PartitionKey
  pub ordering_key : Option Bytes
  pub replicate_to : List Text
  pub event_time : Option ℕ
  pub schema_version : Option Bytes
  pub deliver_at_time : Option ℤ

pub record ProducerMessage : Type 0 where
  pub payload : Bytes
  pub null_value : Option Bool
  pub partition_key_b64_encoded : Option Bool
  pub null_partition_key : Option Bool
  pub properties : Map Text Text
  pub partition_key : Option Text
  pub ordering_key : Option Bytes
  pub replicate_to : List Text
  pub compression : Option ℤ
  pub uncompressed_size : Option ℕ
  pub num_messages_in_batch : Option ℤ
  pub event_time : Option ℕ
  pub encryption_keys : List EncryptionKeys
  pub encryption_algo : Option Text
  pub encryption_param : Option Bytes
  pub schema_version : Option Bytes
  pub deliver_at_time : Option ℤ

-- ProducerMessage::default()
abbrev pub default_message : ProducerMessage
default_message = record {
  payload = [];
  null_value = none;
  partition_key_b64_encoded = none;
  null_partition_key = none;
  properties = [];
  partition_key = none;
  ordering_key = none;
  replicate_to = [];
  compression = none;
  uncompressed_size = none;
  num_messages_in_batch = none;
  event_time = none;
  encryption_keys = [];
  encryption_algo = none;
  encryption_param = none;
  schema_version = none;
  deliver_at_time = none;
}

abbrev pub unwrap_or {ℓ} : {A : Type ℓ} → Option A → A → A
unwrap_or none d = d
unwrap_or (some a) d = a

module _ (b64 : Base64) where
  -- PartitionKey::routing_key
  unfoldable pub routing_key : PartitionKey → Option Text
  routing_key (text key) = some key
  routing_key (bytes key) = some (b64.encode key)
  routing_key null = none

  unfoldable pub decode_key : Text → Option Bytes → Option PartitionKey
  decode_key key none = some (text key)
  decode_key key (some decoded) = some (bytes decoded)

  unfoldable pub no_key : Bool → Option PartitionKey
  no_key true = some null
  no_key false = none

  -- PartitionKey::from_metadata
  unfoldable pub from_metadata : Option Text → Option Bool → Option Bool → Option PartitionKey
  unfolding decode_key no_key
  from_metadata (some key) (some true) null_key = decode_key key (b64.decode key)
  from_metadata (some key) _ null_key = some (text key)
  from_metadata none _ null_key = no_key (unwrap_or null_key false)

  -- The triple that `From<Message>` makes of a key: text, base64 flag, null flag.
  unfoldable pub key_fields : Option PartitionKey → Option Text × Option Bool × Option Bool
  key_fields (some (text key)) = (some key, none, none)
  key_fields (some (bytes key)) = (some (b64.encode key), some true, none)
  key_fields (some null) = (none, none, some true)
  key_fields none = (none, none, none)

  unfoldable pub absent : Option Bytes → Option Bool
  absent none = some true
  absent (some payload) = none

  -- From<Message> for ProducerMessage
  unfoldable pub from_message : Message → ProducerMessage
  unfolding key_fields absent
  from_message m =
      let (partition_key, partition_key_b64_encoded, null_partition_key) =
        key_fields m.partition_key in
      record default_message {
        payload = unwrap_or m.payload [];
        null_value = absent m.payload;
        partition_key = partition_key;
        partition_key_b64_encoded = partition_key_b64_encoded;
        null_partition_key = null_partition_key;
        properties = m.properties;
        ordering_key = m.ordering_key;
        replicate_to = m.replicate_to;
        event_time = m.event_time;
        schema_version = m.schema_version;
        deliver_at_time = m.deliver_at_time;
      }

-- The item that `send_raw` makes of a message for a batch; its schema version is dropped.
unfoldable pub to_batched : ProducerMessage → BatchedMessage
to_batched m = record {
  metadata = record {
    properties = map (λ p. record { key = p.0; value = p.1 }) m.properties;
    partition_key = m.partition_key;
    payload_size = as_i32 (length m.payload);
    compacted_out = none;
    event_time = m.event_time;
    partition_key_b64_encoded = m.partition_key_b64_encoded;
    ordering_key = m.ordering_key;
    sequence_id = none;
    null_value = m.null_value;
    null_partition_key = m.null_partition_key;
  };
  payload = m.payload;
}

-- ===== src/Proto.antt =====
-- The messages of PulsarApi.proto that the client builds and reads, as prost makes structs of
-- them: `optional` is an `Option`, `repeated` a `Vec`, an enum its number. Strings are lists of
-- code points. `first_chunk_message_id` of MessageIdData is left out: it belongs to chunked
-- messages, which the client refuses.
use pulsar_rdg_rs.Prelude.{ℕ, Bool, Option, none, List, []}
use pulsar_rdg_rs.Prelude.Int.{ℤ}
use pulsar_rdg_rs.Bytes.{Bytes, Text}

pub record MessageIdData : Type 0 where
  pub ledger_id : ℕ
  pub entry_id : ℕ
  pub partition : Option ℤ
  pub batch_index : Option ℤ
  pub ack_set : List ℤ
  pub batch_size : Option ℤ

pub record KeyValue : Type 0 where
  pub key : Text
  pub value : Text

pub record EncryptionKeys : Type 0 where
  pub key : Text
  pub value : Bytes
  pub metadata : List KeyValue

pub record SingleMessageMetadata : Type 0 where
  pub properties : List KeyValue
  pub partition_key : Option Text
  pub payload_size : ℤ
  pub compacted_out : Option Bool
  pub event_time : Option ℕ
  pub partition_key_b64_encoded : Option Bool
  pub ordering_key : Option Bytes
  pub sequence_id : Option ℕ
  pub null_value : Option Bool
  pub null_partition_key : Option Bool

pub record MessageMetadata : Type 0 where
  pub producer_name : Text
  pub sequence_id : ℕ
  pub publish_time : ℕ
  pub properties : List KeyValue
  pub replicated_from : Option Text
  pub partition_key : Option Text
  pub replicate_to : List Text
  pub compression : Option ℤ
  pub uncompressed_size : Option ℕ
  pub num_messages_in_batch : Option ℤ
  pub event_time : Option ℕ
  pub encryption_keys : List EncryptionKeys
  pub encryption_algo : Option Text
  pub encryption_param : Option Bytes
  pub schema_version : Option Bytes
  pub partition_key_b64_encoded : Option Bool
  pub ordering_key : Option Bytes
  pub deliver_at_time : Option ℤ
  pub marker_type : Option ℤ
  pub txnid_least_bits : Option ℕ
  pub txnid_most_bits : Option ℕ
  pub highest_sequence_id : Option ℕ
  pub null_value : Option Bool
  pub uuid : Option Text
  pub num_chunks_from_msg : Option ℤ
  pub total_chunk_msg_size : Option ℤ
  pub chunk_id : Option ℤ
  pub null_partition_key : Option Bool
  pub compacted_batch_indexes : List ℤ
  pub schema_id : Option Bytes
  pub entry_hash_min : Option ℕ
  pub entry_hash_max : Option ℕ

-- MessageMetadata::default()
abbrev pub default_metadata : MessageMetadata
default_metadata = record {
  producer_name = [];
  sequence_id = 0;
  publish_time = 0;
  properties = [];
  replicated_from = none;
  partition_key = none;
  replicate_to = [];
  compression = none;
  uncompressed_size = none;
  num_messages_in_batch = none;
  event_time = none;
  encryption_keys = [];
  encryption_algo = none;
  encryption_param = none;
  schema_version = none;
  partition_key_b64_encoded = none;
  ordering_key = none;
  deliver_at_time = none;
  marker_type = none;
  txnid_least_bits = none;
  txnid_most_bits = none;
  highest_sequence_id = none;
  null_value = none;
  uuid = none;
  num_chunks_from_msg = none;
  total_chunk_msg_size = none;
  chunk_id = none;
  null_partition_key = none;
  compacted_batch_indexes = [];
  schema_id = none;
  entry_hash_min = none;
  entry_hash_max = none;
}

pub record CommandSendReceipt : Type 0 where
  pub producer_id : ℕ
  pub sequence_id : ℕ
  pub message_id : Option MessageIdData
  pub highest_sequence_id : Option ℕ

pub record CommandError : Type 0 where
  pub request_id : ℕ
  pub error : ℤ
  pub message : Text

pub record CommandMessage : Type 0 where
  pub consumer_id : ℕ
  pub message_id : MessageIdData
  pub redelivery_count : Option ℕ
  pub ack_set : List ℤ
  pub consumer_epoch : Option ℕ

pub record CommandCloseConsumer : Type 0 where
  pub consumer_id : ℕ
  pub request_id : ℕ
  pub assigned_broker_service_url : Option Text
  pub assigned_broker_service_url_tls : Option Text

pub record CommandActiveConsumerChange : Type 0 where
  pub consumer_id : ℕ
  pub is_active : Option Bool

-- Of the other commands the client's dispatch reads one id or two, which stand for them here.
pub record Requested : Type 0 where
  pub request_id : ℕ

pub record Sent : Type 0 where
  pub producer_id : ℕ
  pub sequence_id : ℕ

pub record Consumed : Type 0 where
  pub consumer_id : ℕ

pub record Present : Type 0 where

-- BaseCommand: its type and the sub-commands, in the order in which `request_key` asks for them.
pub record BaseCommand : Type 0 where
  pub command_type : ℤ
  pub subscribe : Option Requested
  pub partition_metadata : Option Requested
  pub partition_metadata_response : Option Requested
  pub lookup_topic : Option Requested
  pub lookup_topic_response : Option Requested
  pub producer : Option Requested
  pub producer_success : Option Requested
  pub unsubscribe : Option Requested
  pub seek : Option Requested
  pub close_producer : Option Requested
  pub success : Option Requested
  pub error : Option CommandError
  pub consumer_stats : Option Requested
  pub consumer_stats_response : Option Requested
  pub get_last_message_id : Option Requested
  pub get_last_message_id_response : Option Requested
  pub get_topics_of_namespace : Option Requested
  pub get_topics_of_namespace_response : Option Requested
  pub get_schema : Option Requested
  pub get_schema_response : Option Requested
  pub send : Option Sent
  pub send_error : Option Sent
  pub send_receipt : Option CommandSendReceipt
  pub active_consumer_change : Option CommandActiveConsumerChange
  pub message : Option CommandMessage
  pub flow : Option Consumed
  pub redeliver_unacknowledged_messages : Option Consumed
  pub reached_end_of_topic : Option Consumed
  pub ack : Option Consumed
  pub close_consumer : Option CommandCloseConsumer
  pub auth_challenge : Option Present
  pub connect : Option Present
  pub connected : Option Present
  pub ping : Option Present
  pub pong : Option Present

-- A command of a type that has no sub-command yet, `..Default::default()`.
abbrev pub default_command : ℤ → BaseCommand
default_command t = record {
  command_type = t;
  subscribe = none;
  partition_metadata = none;
  partition_metadata_response = none;
  lookup_topic = none;
  lookup_topic_response = none;
  producer = none;
  producer_success = none;
  unsubscribe = none;
  seek = none;
  close_producer = none;
  success = none;
  error = none;
  consumer_stats = none;
  consumer_stats_response = none;
  get_last_message_id = none;
  get_last_message_id_response = none;
  get_topics_of_namespace = none;
  get_topics_of_namespace_response = none;
  get_schema = none;
  get_schema_response = none;
  send = none;
  send_error = none;
  send_receipt = none;
  active_consumer_change = none;
  message = none;
  flow = none;
  redeliver_unacknowledged_messages = none;
  reached_end_of_topic = none;
  ack = none;
  close_consumer = none;
  auth_challenge = none;
  connect = none;
  connected = none;
  ping = none;
  pong = none;
}

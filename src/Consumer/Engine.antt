-- ===== src/Consumer/Engine.antt =====
-- src/consumer/engine.rs: the state of `ConsumerEngine`, what it does to the outside, and what the
-- outside answers. Which compressors there are is decided by the build; they are third-party code,
-- as is base64. Time is a number of milliseconds.
use pulsar_rdg_rs.Prelude.{
  ℕ, ◌+◌, Bool, true, false, Option, none, some, List, [], ◌∷◌, ◌++◌, Result, ok, err,
}
use pulsar_rdg_rs.Prelude.Int.{ℤ}
use pulsar_rdg_rs.Prelude.Maps.{Map, insert, remove}
use pulsar_rdg_rs.Bytes.{Bytes, Text}
use pulsar_rdg_rs.Proto.{MessageIdData, MessageMetadata, SingleMessageMetadata}
use pulsar_rdg_rs.Codec.{Protobuf, Payload}
use pulsar_rdg_rs.Batch.{BatchError}
use pulsar_rdg_rs.Producer.Message.{Base64, Message}
use pulsar_rdg_rs.Consumer.Ids.{id_eq}

pub record DeadLetterPolicy : Type 0 where
  pub max_redeliver_count : ℕ
  pub dead_letter_topic : Text

-- The fields of ConsumerOptions that the engine itself reads.
pub record ConsumerOptions : Type 0 where
  pub start_message_id : Option MessageIdData
  pub start_message_id_inclusive : Bool

pub record ConsumerEngine : Type 0 where
  pub topic : Text
  pub batch_size : ℕ
  pub remaining_messages : ℤ
  pub unacked_message_redelivery_delay : Option ℕ
  pub unacked_messages : Map MessageIdData ℕ
  pub dead_letter_policy : Option DeadLetterPolicy
  pub options : ConsumerOptions

pub data CompressionType : Type 0 where
  lz4 zlib zstd snappy : CompressionType

pub data EngineError : Type 0 where
  unsupported_chunked_message : Option Text → ℤ → EngineError
  unknown_compression_type : ℤ → EngineError
  decompression_failed : ℕ → EngineError
  batch_failed : BatchError → EngineError
  -- the collecting of a batch had too little fuel
  unfinished : EngineError
  tx_closed dlq_send_error : EngineError
  client_error connection_error : ℕ → EngineError

-- What becomes of a message for the dead letter topic: the send fails, its receipt does not come,
-- or it is sent.
pub data Publish : Type 0 where
  send_failed : ℕ → Publish
  no_receipt published : Publish

-- What the engine uses of the rest of the program and of third-party code. `tx_open` says whether
-- the consumer still takes messages, and `reconnected` how `reconnect` ends.
pub record World : Type 0 where
  pub singles : Protobuf SingleMessageMetadata
  pub b64 : Base64
  pub decompress : CompressionType → MessageMetadata → Bytes → Result ℕ Bytes
  pub publish : Text → Message → Publish
  pub tx_open : Bool
  pub redelivery_accepted : List MessageIdData → Bool
  pub reconnected : Result EngineError (Unit {0})
  pub now : ℕ

pub data Effect : Type 0 where
  delivered : MessageIdData → Payload MessageMetadata → Effect
  failure_delivered : EngineError → Effect
  dead_lettered : Text → Message → Effect
  acked : MessageIdData → Bool → Effect
  redelivery_asked : List MessageIdData → Effect
  flow : ℕ → Effect

-- The end of an `async fn(&mut self) -> Result<A, Error>`: the engine, what it did, its result.
pub record Done (A : Type 0) : Type 0 where
  pub engine : ConsumerEngine
  pub effects : List Effect
  pub result : Result EngineError A

abbrev pub return : {A : Type 0} → ConsumerEngine → A → Done A
return e a = record { engine = e; effects = []; result = ok a }

abbrev pub fail : {A : Type 0} → ConsumerEngine → EngineError → Done A
fail e x = record { engine = e; effects = []; result = err x }

abbrev pub with_effects : {A : Type 0} → List Effect → Done A → Done A
with_effects es d = record d { effects = es ++ d.effects }

-- What follows a `?`.
abbrev pub continue :
    {A B : Type 0}
    → ConsumerEngine
    → List Effect
    → Result EngineError A
    → (ConsumerEngine → A → Done B)
    → Done B
continue e es (ok a) k = with_effects es (k e a)
continue e es (err x) k = record { engine = e; effects = es; result = err x }

infixl 5 ◌>>=◌
abbrev pub ◌>>=◌ : {A B : Type 0} → Done A → (ConsumerEngine → A → Done B) → Done B
d >>= k = continue d.engine d.effects d.result k

-- ConsumerEngine::new
abbrev pub new : Text → ℕ → Option ℕ → Option DeadLetterPolicy → ConsumerOptions → ConsumerEngine
new topic batch_size unacked_message_redelivery_delay dead_letter_policy options = record {
  topic = topic;
  batch_size = batch_size;
  remaining_messages = ℤ.pos batch_size;
  unacked_message_redelivery_delay = unacked_message_redelivery_delay;
  unacked_messages = [];
  dead_letter_policy = dead_letter_policy;
  options = options;
}

-- ConsumerEngine::ack; a failed `send_ack` is only logged.
unfoldable pub ack : ConsumerEngine → MessageIdData → Bool → Done (Unit {0})
ack e message_id cumulative = record {
  engine = record e { unacked_messages = remove message_id e.unacked_messages };
  effects = acked message_id cumulative ∷ [];
  result = ok tt;
}

abbrev pub track : Option ℕ → ℕ → MessageIdData → Map MessageIdData ℕ → Map MessageIdData ℕ
track none now message_id m = m
track (some duration) now message_id m = insert message_id (now + duration) m

unfoldable pub send_if :
    Bool → ConsumerEngine → ℕ → MessageIdData → Payload MessageMetadata → Done (Unit {0})
send_if false e now message_id payload = fail e tx_closed
send_if true e now message_id payload = record {
  engine = record e {
    unacked_messages = track e.unacked_message_redelivery_delay now message_id e.unacked_messages;
  };
  effects = delivered message_id payload ∷ [];
  result = ok tt;
}

-- ConsumerEngine::send_to_consumer
unfoldable pub send_to_consumer :
    World → ConsumerEngine → MessageIdData → Payload MessageMetadata → Done (Unit {0})
unfolding send_if
send_to_consumer w e message_id payload = send_if w.tx_open e w.now message_id payload

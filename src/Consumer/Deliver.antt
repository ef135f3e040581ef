-- ===== src/Consumer/Deliver.antt =====
-- src/consumer/engine.rs: `process_payload`, from the decompression to the dead letter topic.
use pulsar_rdg_rs.Prelude.{
  ℕ, zero, suc, ◌+◌, ◌-◌, ◌/◌, ◌%◌, Bool, true, false, Option, none, some, List, [], ◌∷◌, ◌++◌,
  Result, ok, err, length, if◌then◌else◌, ltb, leb, ◌==◌,
}
use pulsar_rdg_rs.Prelude
use pulsar_rdg_rs.Prelude.Int.{ℤ, pos, negsuc, ltb_ℤ}
use pulsar_rdg_rs.Prelude.Maps.{Map, lookup, insert}
use pulsar_rdg_rs.Prelude.Equals.{text_eq}
use pulsar_rdg_rs.Bytes.{Bytes, Text}
use pulsar_rdg_rs.Decimal.{shown}
use pulsar_rdg_rs.Proto.{KeyValue, MessageIdData, MessageMetadata, CommandMessage}
use pulsar_rdg_rs.Codec.{Payload}
use pulsar_rdg_rs.Batch.{BatchError, Item, read_batch}
use pulsar_rdg_rs.Producer.Message.{Message, unwrap_or}
use pulsar_rdg_rs.Producer.Keys.{received_key, received_value}
use pulsar_rdg_rs.Consumer.Start.{is_before_start_message}
use pulsar_rdg_rs.Consumer.Engine.{
  World, ConsumerEngine, DeadLetterPolicy, CompressionType, lz4, zlib, zstd, snappy, EngineError,
  unsupported_chunked_message, unknown_compression_type, decompression_failed, batch_failed,
  unfinished, dlq_send_error, client_error, Publish, send_failed, no_receipt, published,
  dead_lettered, Done, return, fail, with_effects, continue, ◌>>=◌, ack, send_to_consumer,
}

abbrev pub shown_ℤ : ℤ → Text
shown_ℤ (pos n) = shown n
shown_ℤ (negsuc n) = 45 ∷ shown (suc n)

-- format!("{}:{}:{}", …), with the batch index as a fourth part if there is one.
unfoldable pub origin : MessageIdData → Text
origin id =
    shown id.ledger_id
    ++ (58
        ∷ (shown id.entry_id
            ++ (58
                ∷ (shown_ℤ (unwrap_or id.partition (negsuc 0))
                    ++ elim id.batch_index [ none ↦ [] | some index ↦ 58 ∷ shown_ℤ index ]))))

-- "REAL_TOPIC" and "ORIGIN_MESSAGE_ID"
abbrev pub real_topic : Text
real_topic = 82 ∷ 69 ∷ 65 ∷ 76 ∷ 95 ∷ 84 ∷ 79 ∷ 80 ∷ 73 ∷ 67 ∷ []

abbrev pub origin_message_id : Text
origin_message_id =
    79 ∷ 82 ∷ 73 ∷ 71 ∷ 73 ∷ 78 ∷ 95 ∷ 77 ∷ 69 ∷ 83 ∷ 83 ∷ 65 ∷ 71 ∷ 69 ∷ 95 ∷ 73 ∷ 68 ∷ []

-- `collect::<HashMap<_, _>>()`: of two values for a key the later one stays.
unfoldable pub collect_properties : List KeyValue → Map Text Text → Map Text Text
collect_properties [] m = m
collect_properties (p ∷ ps) m = collect_properties ps (insert p.key p.value m)

abbrev pub insert_absent : Option Text → Text → Text → Map Text Text → Map Text Text
insert_absent none k v m = insert k v m
insert_absent (some old) k v m = m

-- `entry(k).or_insert_with(v)`
unfoldable pub or_insert : Text → Text → Map Text Text → Map Text Text
or_insert k v m = insert_absent (lookup k m) k v m

-- The message for the dead letter topic.
unfoldable pub dead_letter_message :
    World → Text → MessageIdData → Payload MessageMetadata → Message
dead_letter_message w topic message_id p = record {
  payload = received_value p;
  properties =
      or_insert origin_message_id (origin message_id)
        (or_insert real_topic topic (collect_properties p.metadata.properties []));
  partition_key = received_key w.b64 p;
  ordering_key = p.metadata.ordering_key;
  replicate_to = [];
  event_time = p.metadata.event_time;
  schema_version = none;
  deliver_at_time = none;
}

unfoldable pub on_publish :
    Publish → ConsumerEngine → MessageIdData → Text → Message → Done (Unit {0})
unfolding ack
on_publish (send_failed x) e message_id topic m = fail e (client_error x)
on_publish no_receipt e message_id topic m = record {
  engine = e;
  effects = dead_lettered topic m ∷ [];
  result = err dlq_send_error;
}
on_publish published e message_id topic m =
    with_effects (dead_lettered topic m ∷ []) (ack e message_id false)

unfoldable pub dead_letter :
    World
    → ConsumerEngine
    → DeadLetterPolicy
    → MessageIdData
    → Payload MessageMetadata
    → Done (Unit {0})
unfolding on_publish dead_letter_message
dead_letter w e policy message_id p =
    let m = dead_letter_message w e.topic message_id p in
    on_publish (w.publish policy.dead_letter_topic m) e message_id policy.dead_letter_topic m

-- The policy, where the match on the redelivery count takes its first arm.
abbrev pub exhausted : Option ℕ → Option DeadLetterPolicy → Option DeadLetterPolicy
exhausted (some redelivery_count) (some policy) =
    if leb policy.max_redeliver_count redelivery_count then some policy else none
exhausted _ _ = none

unfoldable pub hand_over :
    World
    → ConsumerEngine
    → Option DeadLetterPolicy
    → MessageIdData
    → Payload MessageMetadata
    → Done (Unit {0})
unfolding dead_letter
hand_over w e (some policy) message_id p = dead_letter w e policy message_id p
hand_over w e none message_id p = send_to_consumer w e message_id p

-- One message of the loop over the payloads.
unfoldable pub deliver : World → ConsumerEngine → Option ℕ → Item → Done (Unit {0})
unfolding hand_over
deliver w e redelivery_count (message_id, p) =
    if is_before_start_message e.topic e.options.start_message_id
      e.options.start_message_id_inclusive message_id
    then return e tt
    else hand_over w e (exhausted redelivery_count e.dead_letter_policy) message_id p

unfoldable pub deliver_all : World → ConsumerEngine → Option ℕ → List Item → Done (Unit {0})
unfolding deliver
deliver_all w e redelivery_count [] = return e tt
deliver_all w e redelivery_count (x ∷ xs) =
    deliver w e redelivery_count x >>= λ e _. deliver_all w e redelivery_count xs

abbrev pub reject_chunks : Option Text → Option ℤ → Result EngineError (Unit {0})
reject_chunks uuid (some num_chunks) =
    if ltb_ℤ (pos 1) num_chunks then err (unsupported_chunked_message uuid num_chunks) else ok tt
reject_chunks uuid none = ok tt

-- reject_chunked_message
unfoldable pub reject_chunked_message : MessageMetadata → Result EngineError (Unit {0})
reject_chunked_message metadata = reject_chunks metadata.uuid metadata.num_chunks_from_msg

abbrev pub type_numbered : ℤ → Result EngineError (Option CompressionType)
type_numbered (pos n) =
    if n == 0
    then ok none
    else if n == 1
    then ok (some lz4)
    else if n == 2
    then ok (some zlib)
    else if n == 3
    then ok (some zstd)
    else if n == 4
    then ok (some snappy)
    else err (unknown_compression_type (pos n))
type_numbered (negsuc n) = err (unknown_compression_type (negsuc n))

-- CompressionType::try_from, and the default; `ok none` is CompressionType::None.
unfoldable pub compression_type : Option ℤ → Result EngineError (Option CompressionType)
compression_type none = ok none
compression_type (some compression) = type_numbered compression

abbrev pub decompressed :
    Payload MessageMetadata → Result ℕ Bytes → Result EngineError (Payload MessageMetadata)
decompressed p (ok bytes) = ok (record p { payload_data = bytes })
decompressed p (err x) = err (decompression_failed x)

unfoldable pub decompress :
    World
    → Option CompressionType
    → Payload MessageMetadata
    → Result EngineError (Payload MessageMetadata)
decompress w none p = ok p
decompress w (some c) p = decompressed p (w.decompress c p.metadata p.payload_data)

abbrev pub collected : Result BatchError (Option (List Item)) → Result EngineError (List Item)
collected (ok (some items)) = ok items
collected (ok none) = err unfinished
collected (err x) = err (batch_failed x)

unfoldable pub payloads_of :
    World → Option ℤ → MessageIdData → Payload MessageMetadata → Result EngineError (List Item)
payloads_of w none message_id p = ok ((message_id, p) ∷ [])
payloads_of w (some n) message_id p = collected (read_batch w.singles message_id p)

-- What `process_payload` makes of a message before it hands anything over.
unfoldable pub payloads :
    World → MessageIdData → Payload MessageMetadata → Result EngineError (List Item)
unfolding compression_type payloads_of
payloads w message_id p = Prelude.◌>>=◌ (reject_chunked_message p.metadata) λ _.
    Prelude.◌>>=◌ (compression_type p.metadata.compression) λ c.
      Prelude.◌>>=◌ (decompress w c p)
        λ p. payloads_of w p.metadata.num_messages_in_batch message_id p

-- ConsumerEngine::process_payload
unfoldable pub process_payload :
    World → ConsumerEngine → CommandMessage → Payload MessageMetadata → Done (Unit {0})
unfolding payloads
process_payload w e message p =
    continue e [] (payloads w message.message_id p)
      λ e items. deliver_all w e message.redelivery_count items

-- ===== src/Producer/Sending.antt =====
-- src/producer.rs: `message_send_loop`, one turn of it at a time, and src/connection.rs:
-- the payload that `messages::send` makes of a `ProducerMessage`.
-- The closure `send` (compression, `send_message`, and the wait for the receipt) is an argument.
use pulsar_rdg_rs.Prelude.{
  ℕ, suc, ◌==◌, Option, none, some, List, [], ◌∷◌, ◌++◌, map, length, if◌then◌else◌, Result, ok,
  err,
}
use pulsar_rdg_rs.Prelude.Int.{as_i32}
use pulsar_rdg_rs.Bytes.{Bytes, Text}
use pulsar_rdg_rs.Proto.{
  MessageIdData, SingleMessageMetadata, MessageMetadata, default_metadata, CommandSendReceipt,
}
use pulsar_rdg_rs.Codec.{Protobuf, Payload}
use pulsar_rdg_rs.Batch.{serialize}
use pulsar_rdg_rs.Producer.Message.{ProducerMessage, default_message}
use pulsar_rdg_rs.Producer.Batching.{BatchItem, single_message, flush, Sender}

pub data Reply (E : Type 0) : Type 0 where
  receipt : Sender → CommandSendReceipt → Reply E
  batch_failed : Sender → E → Reply E
  flushed : Sender → Reply E

-- `if let Some(BatchItem::Flush(_)) = batch_items.last() { batch_items.pop() … }`
unfoldable pub split_flush : List BatchItem → List BatchItem × Option Sender
split_flush [] = ([], none)
split_flush (flush tx ∷ []) = ([], some tx)
split_flush (x ∷ []) = (x ∷ [], none)
split_flush (x ∷ y ∷ xs) = (x ∷ (split_flush (y ∷ xs)).0, (split_flush (y ∷ xs)).1)

-- The loop over the items of a batch, with the receipts' senders and the payload so far.
unfoldable pub write_items :
    Protobuf SingleMessageMetadata → List BatchItem → List Sender → Bytes → List Sender × Bytes
write_items singles [] receipts payload = (receipts, payload)
write_items singles (single_message tx m ∷ xs) receipts payload =
    write_items singles xs (receipts ++ tx ∷ []) (serialize singles m payload)
write_items singles (flush tx ∷ xs) receipts payload = write_items singles xs receipts payload

unfoldable pub batch_message : Bytes → ℕ → Option Bytes → ProducerMessage
batch_message payload counter schema_version = record default_message {
  payload = payload;
  num_messages_in_batch = some (as_i32 counter);
  schema_version = schema_version;
}

unfoldable pub numbered : CommandSendReceipt → ℕ → ℕ → Option MessageIdData → CommandSendReceipt
numbered r counter index none = r
numbered r counter index (some id) = record r {
  message_id =
      some (record id { batch_index = some (as_i32 index); batch_size = some (as_i32 counter) });
}

-- `for (batch_index, tx) in receipts.into_iter().enumerate()`
unfoldable pub receipts_from :
    {E : Type 0} → CommandSendReceipt → ℕ → ℕ → List Sender → List (Reply E)
unfolding numbered
receipts_from r counter index [] = []
receipts_from r counter index (tx ∷ txs) =
    receipt tx (numbered r counter index r.message_id) ∷ receipts_from r counter (suc index) txs

unfoldable pub flush_reply : {E : Type 0} → Option Sender → List (Reply E)
flush_reply none = []
flush_reply (some tx) = flushed tx ∷ []

unfoldable pub reply_all :
    {E : Type 0} → Result E CommandSendReceipt → ℕ → List Sender → Option Sender → List (Reply E)
unfolding flush_reply
reply_all (ok r) counter receipts flush_tx =
    receipts_from r counter 0 receipts ++ flush_reply flush_tx
reply_all (err e) counter receipts flush_tx = map (λ tx. batch_failed tx e) receipts

-- One turn on a batch that `batch_process_loop` sent; an empty one is skipped.
unfoldable pub send_batch :
    {E : Type 0}
    → Protobuf SingleMessageMetadata
    → Option Bytes
    → (ProducerMessage → Result E CommandSendReceipt)
    → List BatchItem
    → List (Reply E)
unfolding flush_reply
send_batch singles schema_version send [] = []
send_batch singles schema_version send (x ∷ xs) =
    let (batch_items, flush_tx) = split_flush (x ∷ xs) in
    let counter = length batch_items in
    let (receipts, payload) = write_items singles batch_items [] [] in
    if counter == 0
    then flush_reply flush_tx
    else reply_all (send (batch_message payload counter schema_version)) counter receipts flush_tx

-- The payload of messages::send; `now` is the publish time.
unfoldable pub message_payload : Text → ℕ → ℕ → ProducerMessage → Payload MessageMetadata
message_payload producer_name sequence_id now m = record {
  metadata = record default_metadata {
    producer_name = producer_name;
    sequence_id = sequence_id;
    properties = map (λ p. record { key = p.0; value = p.1 }) m.properties;
    publish_time = now;
    partition_key = m.partition_key;
    partition_key_b64_encoded = m.partition_key_b64_encoded;
    null_partition_key = m.null_partition_key;
    null_value = m.null_value;
    ordering_key = m.ordering_key;
    replicate_to = m.replicate_to;
    compression = m.compression;
    uncompressed_size = m.uncompressed_size;
    num_messages_in_batch = m.num_messages_in_batch;
    event_time = m.event_time;
    encryption_keys = m.encryption_keys;
    encryption_algo = m.encryption_algo;
    encryption_param = m.encryption_param;
    schema_version = m.schema_version;
    deliver_at_time = m.deliver_at_time;
  };
  payload_data = m.payload;
}

-- ===== src/Tests/Batches.antt =====
-- Batches, from src/message.rs, src/producer.rs and src/consumer/batched_message_iterator.rs, at
-- concrete inputs.
use pulsar_rdg_rs.Prelude.{ℕ, ◌≡◌, refl, none, some, List, [], ◌∷◌, map, Result, ok, arith}
use pulsar_rdg_rs.Prelude.Int.{pos}
use pulsar_rdg_rs.Proto.{MessageIdData, MessageMetadata, default_metadata, CommandSendReceipt}
use pulsar_rdg_rs.Batch.{BatchedMessage, Item, read_batch, parse_batched_message}
use pulsar_rdg_rs.Batch.Parsing.{Fits, serialize_all, parse_batched_message-serialize_all}
use pulsar_rdg_rs.Producer.Message.{
  Base64, IsBase64, bytes, Message, ProducerMessage, default_message, from_message, to_batched,
}
use pulsar_rdg_rs.Producer.Keys.{to_batched-Fits}
use pulsar_rdg_rs.Producer.Batching.{BatchItem, single_message, flush}
use pulsar_rdg_rs.Producer.Sending.{message_payload, send_batch}
use pulsar_rdg_rs.Producer.Splitting.{messages, envelope, receipt_ids}
use pulsar_rdg_rs.Producer.Receipts.{item_ids, receipts-read_batch}
use pulsar_rdg_rs.Tests.Wire.{singles, singles-IsProtobuf}

abbrev pub base64 : Base64
base64 = record { encode = λ b. b; decode = some }

abbrev pub base64-IsBase64 : IsBase64 base64
base64-IsBase64 = record { decode-encode = λ b. refl }

abbrev keyed : Message
keyed = record {
  payload = none;
  properties = [];
  partition_key = some (bytes (1 ∷ 2 ∷ []));
  ordering_key = none;
  replicate_to = [];
  event_time = some 9;
  schema_version = none;
  deliver_at_time = none;
}

abbrev plain : ProducerMessage
plain = record default_message { payload = 4 ∷ 5 ∷ 6 ∷ [] }

abbrev pub one : BatchedMessage
one = to_batched (from_message base64 keyed)

abbrev pub two : BatchedMessage
two = to_batched plain

pub one-Fits : Fits singles one
unfolding to_batched from_message
one-Fits = record { sized = refl; payload_fits = omega arith; metadata_fits = omega arith }

pub two-Fits : Fits singles two
unfolding to_batched
two-Fits = to_batched-Fits singles plain (omega arith) (omega arith)

abbrev pub id : MessageIdData
id = record {
  ledger_id = 3;
  entry_id = 8;
  partition = none;
  batch_index = none;
  ack_set = [];
  batch_size = none;
}

abbrev pub of_two : MessageMetadata
of_two = record default_metadata { num_messages_in_batch = some (pos 2) }

parse_batched_message-serialize_all_example :
    parse_batched_message singles 2 (serialize_all singles (one ∷ two ∷ []) [])
    ≡ ok (one ∷ two ∷ [])
parse_batched_message-serialize_all_example =
    parse_batched_message-serialize_all singles singles-IsProtobuf (one ∷ two ∷ [])
      (one-Fits, (two-Fits, tt))

abbrev sent_receipt : CommandSendReceipt
sent_receipt = record {
  producer_id = 1;
  sequence_id = 6;
  message_id = some id;
  highest_sequence_id = none;
}

abbrev three_items : List BatchItem
three_items = single_message 11 one ∷ single_message 12 two ∷ flush 13 ∷ []

abbrev sends : ProducerMessage → Result ℕ CommandSendReceipt
sends m = ok sent_receipt

receipts-read_batch_example :
    (its : List Item) × (read_batch singles id
        (message_payload [] 6 0 (envelope singles none three_items))
      ≡ ok (some its))
    × (receipt_ids (send_batch singles none sends three_items) ≡ item_ids its)
    × (map (λ (i : Item). i.1.payload_data) its ≡ map (λ m. m.payload) (messages three_items))
receipts-read_batch_example =
    receipts-read_batch singles none sends singles-IsProtobuf three_items sent_receipt id [] 6 0 tt
      (λ e. cc) (one-Fits, (two-Fits, tt)) (omega arith) refl refl

-- ===== src/Consumer/MidBatch.antt =====
-- A consumer that is to start in the middle of a topic's last batch.
use pulsar_rdg_rs.Prelude.{
  ℕ, suc, ◌-◌, ◌^◌, ◌<◌, ◌≡◌, refl, ap, ◌∙◌, Bool, true, false, Option, none, some, List, ok,
  ==_iff, arith, length, drop, length-drop,
}
use pulsar_rdg_rs.Prelude.Int.{pos}
use pulsar_rdg_rs.Proto.{MessageIdData, MessageMetadata, CommandMessage}
use pulsar_rdg_rs.Codec.{IsProtobuf}
use pulsar_rdg_rs.Batch.{BatchedMessage, item_id}
use pulsar_rdg_rs.Batch.Parsing.{AllFit}
use pulsar_rdg_rs.Batch.Iterating.{items, length-items}
use pulsar_rdg_rs.Consumer.Start.{is_persistent_topic}
use pulsar_rdg_rs.Consumer.Engine.{World, ConsumerEngine}
use pulsar_rdg_rs.Consumer.Deliver.{
  process_payload, exhausted, reject_chunked_message, compression_type,
}
use pulsar_rdg_rs.Consumer.Expected.{IsWorking}
use pulsar_rdg_rs.Consumer.Resume.{batch_payload, delivered_all, first_index, process_payload-items}
use pulsar_rdg_rs.Consumer.Topic.{
  TopicConsumer, partly_read, position, compared, against, available, has_message_available,
}
use pulsar_rdg_rs.Consumer.Available.{not_empty}

-- A consumer of the engine `e` that has read nothing yet.
abbrev pub unread : ConsumerEngine → TopicConsumer
unread e = record {
  last_dequeued_message_id = none;
  last_message_received = none;
  messages_received = 0;
  options = e.options;
}

against-start :
    (id : MessageIdData) (n k : ℕ) (o : Option MessageIdData) (inclusive : Bool)
    → o ≡ some (item_id id n k)
    → against id (o, inclusive) ≡ inclusive
unfolding against compared item_id
against-start id n k o inclusive e =
    ap (λ o. against id (o, inclusive)) e
    ∙ rw ((==_iff id.ledger_id id.ledger_id).1 refl, (==_iff id.entry_id id.entry_id).1 refl) refl

has_message_available-unread :
    (E : Type 0) (e : ConsumerEngine) (id : MessageIdData) (n k : ℕ)
    → id.entry_id < 2 ^ 63
    → e.options.start_message_id ≡ some (item_id id n k)
    → has_message_available {E = E} (unread e) (ok id) ≡ ok e.options.start_message_id_inclusive
unfolding has_message_available partly_read available position
has_message_available-unread E e id n k h start = rw (not_empty id.entry_id h) (
    ap ok
      (against-start id n k e.options.start_message_id e.options.start_message_id_inclusive start))

-- When a consumer starts behind the k-th message of the topic's last entry, a batch of more than k
-- + 1 messages, and has read nothing, `has_message_available` says that there is nothing to read,
-- and yet the engine hands over exactly the messages of the batch behind the k-th, in order, and
-- there is one at least.
pub has_message_available-mid_batch :
    (E : Type 0) (w : World) (e : ConsumerEngine) (message : CommandMessage)
    (metadata : MessageMetadata) (ms : List BatchedMessage) (k : ℕ)
    → IsWorking w
    → IsProtobuf w.singles
    → AllFit w.singles ms
    → length ms < 2 ^ 31
    → suc k < length ms
    → message.message_id.entry_id < 2 ^ 63
    → metadata.num_messages_in_batch ≡ some (pos (length ms))
    → reject_chunked_message metadata ≡ ok tt
    → compression_type metadata.compression ≡ ok none
    → is_persistent_topic e.topic ≡ true
    → e.options.start_message_id ≡ some (item_id message.message_id (length ms) k)
    → e.options.start_message_id_inclusive ≡ false
    → exhausted message.redelivery_count e.dead_letter_policy ≡ none
    → let d = process_payload w e message (batch_payload w metadata ms) in
      let rest = drop (suc k) (items message.message_id metadata (length ms) 0 ms) in
      (has_message_available {E = E} (unread e) (ok message.message_id) ≡ ok false)
      × (d.effects ≡ delivered_all rest)
      × (0 < length rest)
has_message_available-mid_batch E w e message metadata ms k working proto fit small mid entry n
      whole plain persistent start exclusive fresh =
    let its = items message.message_id metadata (length ms) 0 ms in
    let handed =
      (process_payload-items w e message metadata ms k working proto fit small (omega arith) n whole
        plain persistent start fresh).0 in
    let count =
      length-drop (suc k) its
      ∙ ap (λ t. t - suc k) (length-items message.message_id metadata (length ms) 0 ms) in
    (
      has_message_available-unread E e message.message_id (length ms) k entry start
          ∙ ap ok exclusive,
      handed ∙ ap (λ b. delivered_all (drop (first_index b k) its)) exclusive,
      omega (arith, count),
    )

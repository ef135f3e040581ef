-- ===== src/Tests/Engines.antt =====
-- src/consumer/engine.rs: turns of a `ConsumerEngine`.
use pulsar_rdg_rs.Prelude.{
  ℕ, ◌<◌, ◌≡◌, ◌⊎◌, refl, true, false, none, some, List, [], ◌∷◌, length, drop, ok, arith,
}
use pulsar_rdg_rs.Prelude.Int.{pos, negsuc}
use pulsar_rdg_rs.Proto.{MessageIdData, MessageMetadata, CommandMessage, default_command}
use pulsar_rdg_rs.Batch.{Item, item_id}
use pulsar_rdg_rs.Batch.Iterating.{items}
use pulsar_rdg_rs.Connection.{Message}
use pulsar_rdg_rs.Consumer.Ids.{id_eq}
use pulsar_rdg_rs.Consumer.Start.{is_persistent_topic}
use pulsar_rdg_rs.Consumer.Engine.{World, ConsumerEngine, new, published}
use pulsar_rdg_rs.Consumer.Deliver.{process_payload, reject_chunked_message, compression_type}
use pulsar_rdg_rs.Consumer.Expected.{IsWorking}
use pulsar_rdg_rs.Consumer.Resume.{batch_payload, delivered_all, process_payload-items}
use pulsar_rdg_rs.Codec.{Payload}
use pulsar_rdg_rs.Consumer.Topic.{poll_next, message, has_message_available}
use pulsar_rdg_rs.Consumer.Available.{IsUpTo, IsFollowed, has_message_available_correct}
use pulsar_rdg_rs.Consumer.MidBatch.{unread, has_message_available-mid_batch}
use pulsar_rdg_rs.Tests.Wire.{singles, singles-IsProtobuf}
use pulsar_rdg_rs.Tests.Batches.{base64, one, two, one-Fits, two-Fits, id, of_two}

abbrev pub outside : World
outside = record {
  singles = singles;
  b64 = base64;
  decompress = λ c m b. ok b;
  publish = λ t m. published;
  tx_open = true;
  redelivery_accepted = λ ids. true;
  reconnected = ok tt;
  now = 50;
}

outside-IsWorking : IsWorking outside
outside-IsWorking = record { tx_stays = refl; accepts = λ t m. refl }

-- Starts after the first message of the batch of two.
abbrev pub consumer : ConsumerEngine
consumer =
    new (97 ∷ []) 1000 (some 10)
      (some (record { max_redeliver_count = 3; dead_letter_topic = 98 ∷ [] }))
      (record { start_message_id = some (item_id id 2 0); start_message_id_inclusive = false })

abbrev command : CommandMessage
command = record {
  consumer_id = 1;
  message_id = id;
  redelivery_count = some 1;
  ack_set = [];
  consumer_epoch = none;
}

abbrev two_items : List Item
two_items = items id of_two 2 0 (one ∷ two ∷ [])

process_payload-items_example :
    let d =
      process_payload outside consumer command (batch_payload outside of_two (one ∷ two ∷ [])) in
    (d.effects ≡ delivered_all (drop 1 two_items)) × (d.result ≡ ok tt)
unfolding reject_chunked_message compression_type is_persistent_topic
process_payload-items_example =
    process_payload-items outside consumer command of_two (one ∷ two ∷ []) 0 outside-IsWorking
      singles-IsProtobuf (one-Fits, (two-Fits, tt)) (omega arith) (omega arith) refl refl refl refl
      refl refl

-- A batch of 1024 messages has come when there were 200 left.
abbrev behind : ConsumerEngine
behind = record consumer { remaining_messages = negsuc 823 }

abbrev arrival : Message
arrival = record {
  command = record (default_command (pos 9)) { message = some command };
  payload = some (batch_payload outside of_two (one ∷ two ∷ []));
}

abbrev waiting : ConsumerEngine
waiting = record consumer { unacked_messages = (id, 40) ∷ (item_id id 2 1, 60) ∷ [] }

abbrev pub one_payload : Payload MessageMetadata
one_payload = record { metadata = of_two; payload_data = [] }

has_message_available_correct_example :
    let d = item_id id 2 1 in
    let answer =
      has_message_available {E = ℕ}
        (poll_next {E = ℕ} (unread consumer) 5 (message d one_payload))
        (ok id) in
    ((answer ≡ ok false) → ¬ IsFollowed d × ((i : MessageIdData) → IsUpTo i id → IsUpTo i d))
    × ((answer ≡ ok true) → IsFollowed d ⊎ ¬ IsUpTo id d)
has_message_available_correct_example =
    has_message_available_correct ℕ (unread consumer) 5 (item_id id 2 1) id one_payload
      (omega arith)

has_message_available-mid_batch_example :
    let d =
      process_payload outside consumer command (batch_payload outside of_two (one ∷ two ∷ [])) in
    (has_message_available {E = ℕ} (unread consumer) (ok id) ≡ ok false)
    × (d.effects ≡ delivered_all (drop 1 two_items))
    × (0 < length (drop 1 two_items))
unfolding reject_chunked_message compression_type is_persistent_topic
has_message_available-mid_batch_example =
    has_message_available-mid_batch ℕ outside consumer command of_two (one ∷ two ∷ []) 0
      outside-IsWorking singles-IsProtobuf (one-Fits, (two-Fits, tt)) (omega arith) (omega arith)
      (omega arith) refl refl refl refl refl refl refl

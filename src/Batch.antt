-- ===== src/Batch.antt =====
-- Batched messages: src/message.rs (`BatchedMessage`, `parse_batched_message`) and
-- src/consumer/batched_message_iterator.rs.
pub mod Parsing
pub mod Iterating
use pulsar_rdg_rs.Prelude.{
  ℕ, zero, suc, ◌+◌, ◌-◌, ◌==◌, Option, none, some, List, [], ◌∷◌, ◌++◌, length, if◌then◌else◌,
  Result, ok, err, ◌>>=◌, map_err,
}
use pulsar_rdg_rs.Prelude.Int.{ℤ, pos, as_u32, as_i32, leb_ℤ}
use pulsar_rdg_rs.Bytes.{Bytes, IResult, done, incomplete, failed, be_u32, take_bytes, put_u32}
use pulsar_rdg_rs.Bytes
use pulsar_rdg_rs.Proto.{MessageIdData, SingleMessageMetadata, MessageMetadata}
use pulsar_rdg_rs.Codec.{Protobuf, Payload}

pub record BatchedMessage : Type 0 where
  pub metadata : SingleMessageMetadata
  pub payload : Bytes

-- `expect_failed` stands for the panic of `expect("expected batched message")`.
pub data BatchError : Type 0 where
  bad_batch expect_failed : BatchError

-- nom::multi::count
unfoldable pub count {ℓ} : {A : Type ℓ} → (Bytes → IResult A) → ℕ → Bytes → IResult (List A)
count p zero i = done i []
count p (suc n) i = Bytes.◌>>=◌ (p i) λ i a. Bytes.◌>>=◌ (count p n i) λ i rest. done i (a ∷ rest)

module _ (singles : Protobuf SingleMessageMetadata) where
  -- verify(map_res(take(metadata_size), decode), payload_size >= 0)
  unfoldable pub single_metadata : ℕ → Bytes → IResult SingleMessageMetadata
  single_metadata metadata_size i = Bytes.◌>>=◌ (take_bytes metadata_size i) λ i bytes.
      elim (singles.decode bytes) [
        | none ↦ failed
        | some m ↦ if leb_ℤ (pos 0) m.payload_size then done i m else failed
      ]

  unfoldable pub batched_message : Bytes → IResult BatchedMessage
  batched_message i = Bytes.◌>>=◌ (be_u32 i) λ i metadata_size.
      Bytes.◌>>=◌ (single_metadata metadata_size i) λ i metadata.
        Bytes.◌>>=◌ (take_bytes (as_u32 metadata.payload_size) i)
          λ i payload. done i (record { metadata = metadata; payload = payload })

  unfoldable pub parse_batched_message : ℕ → Bytes → Result BatchError (List BatchedMessage)
  parse_batched_message n payload = elim (count batched_message n payload) [
    | done i ms ↦ ok ms
    | incomplete ↦ err bad_batch
    | failed ↦ err bad_batch
  ]

  -- BatchedMessage::serialize; `w` is the output.
  unfoldable pub serialize : BatchedMessage → Bytes → Bytes
  serialize m w =
      ((w ++ put_u32 (singles.encoded_len m.metadata)) ++ singles.encode m.metadata) ++ m.payload

pub record BatchedMessageIterator : Type 0 where
  pub messages : List BatchedMessage
  pub message_id : MessageIdData
  pub metadata : MessageMetadata
  pub total_messages : ℕ
  pub current_index : ℕ

unfoldable pub new_batch :
    Protobuf SingleMessageMetadata
    → MessageIdData
    → Payload MessageMetadata
    → Option ℤ
    → Result BatchError BatchedMessageIterator
new_batch singles message_id payload none = err expect_failed
new_batch singles message_id payload (some n) = do
  messages ← parse_batched_message singles (as_u32 n) payload.payload_data
  ok (record {
    messages = messages;
    message_id = message_id;
    metadata = payload.metadata;
    total_messages = as_u32 n;
    current_index = 0;
  })

-- BatchedMessageIterator::new
unfoldable pub new :
    Protobuf SingleMessageMetadata
    → MessageIdData
    → Payload MessageMetadata
    → Result BatchError BatchedMessageIterator
unfolding new_batch
new singles message_id payload =
    new_batch singles message_id payload payload.metadata.num_messages_in_batch

abbrev pub Item : Type 0
Item = MessageIdData × Payload MessageMetadata

-- The id and the payload that `next` makes for a message of the batch.
unfoldable pub item_id : MessageIdData → ℕ → ℕ → MessageIdData
item_id message_id total_messages index = record message_id {
  batch_index = some (as_i32 index);
  batch_size = some (as_i32 total_messages);
}

unfoldable pub item_payload : MessageMetadata → BatchedMessage → Payload MessageMetadata
item_payload metadata m = record {
  metadata = record metadata {
    properties = m.metadata.properties;
    partition_key = m.metadata.partition_key;
    partition_key_b64_encoded = m.metadata.partition_key_b64_encoded;
    null_partition_key = m.metadata.null_partition_key;
    null_value = m.metadata.null_value;
    ordering_key = m.metadata.ordering_key;
    event_time = m.metadata.event_time;
  };
  payload_data = m.payload;
}

next_message : BatchedMessageIterator → List BatchedMessage → Option Item × BatchedMessageIterator
next_message it [] = (none, record it { current_index = it.current_index + 1 })
next_message it (m ∷ ms) = (
  some (item_id it.message_id it.total_messages it.current_index, item_payload it.metadata m),
  record it { messages = ms; current_index = it.current_index + 1 },
)

-- Iterator::next
unfoldable pub next : BatchedMessageIterator → Option Item × BatchedMessageIterator
unfolding next_message
next it =
    if (it.total_messages - it.current_index) == 0 then (none, it) else next_message it it.messages

collect_item : Option Item → Option (List Item) → Option (List Item)
collect_item none rest = some []
collect_item (some x) none = none
collect_item (some x) (some xs) = some (x ∷ xs)

-- Iterator::collect, with the most calls of `next` that it may make; `none` if they run out.
unfoldable pub collect : ℕ → BatchedMessageIterator → Option (List Item)
unfolding collect_item
collect zero it = none
collect (suc fuel) it = let rest = collect fuel (next it).1 in collect_item (next it).0 rest

-- `BatchedMessageIterator::new(message_id, payload)?.collect()`; each message of the iterator is
-- taken once, and one more call of `next` ends it.
unfoldable pub read_batch :
    Protobuf SingleMessageMetadata
    → MessageIdData
    → Payload MessageMetadata
    → Result BatchError (Option (List Item))
read_batch singles message_id payload = do
  it ← new singles message_id payload
  ok (collect (suc (length it.messages)) it)

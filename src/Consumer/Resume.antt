-- ===== src/Consumer/Resume.antt =====
-- Where a consumer that starts at a message of a batch resumes.
use pulsar_rdg_rs.Prelude.{
  ℕ, zero, suc, ◌+◌, ◌-◌, ◌<◌, ◌^◌, ◌≡◌, refl, ap, sym, ◌∙◌, Bool, true, false, Option, none, some,
  List, [], ◌∷◌, ◌++◌, ok, length, if◌then◌else◌, ltb, drop, arith, ==_iff, lt→ltb,
}
use pulsar_rdg_rs.Prelude.Int.{pos, as_i32, as_i32-small}
use pulsar_rdg_rs.Bytes.{Text}
use pulsar_rdg_rs.Proto.{MessageIdData, MessageMetadata, CommandMessage}
use pulsar_rdg_rs.Codec.{Payload, IsProtobuf}
use pulsar_rdg_rs.Batch.{BatchedMessage, Item, item_id, item_payload}
use pulsar_rdg_rs.Batch.Parsing.{AllFit, serialize_all}
use pulsar_rdg_rs.Batch.Iterating.{items, read_batch-serialize_all}
use pulsar_rdg_rs.Consumer.Start.{
  is_before_start_message, before_start, before_index, is_persistent_topic,
}
use pulsar_rdg_rs.Consumer.Engine.{
  World, ConsumerEngine, ConsumerOptions, DeadLetterPolicy, Effect, delivered,
}
use pulsar_rdg_rs.Consumer.Deliver.{
  exhausted, process_payload, payloads, reject_chunked_message, compression_type, decompress,
  payloads_of, collected,
}
use pulsar_rdg_rs.Consumer.Expected.{
  IsWorking, handling, expected, all_expected, deliver_all-expected,
}

-- The first index of the batch that is not before a start at index `k`.
abbrev pub first_index : Bool → ℕ → ℕ
first_index true k = k
first_index false k = suc k

abbrev pub delivered_all : List Item → List Effect
delivered_all [] = []
delivered_all (x ∷ xs) = delivered x.0 x.1 ∷ delivered_all xs

before_index-items :
    (inclusive : Bool) (j k : ℕ)
    → j < 2 ^ 31
    → k < 2 ^ 31
    → before_index inclusive (some (as_i32 j)) (some (as_i32 k)) ≡ ltb j (first_index inclusive k)
unfolding before_index
before_index-items true j k h g = rw (as_i32-small j h, as_i32-small k g) (ground arith)
before_index-items false j k h g = rw (as_i32-small j h, as_i32-small k g) (ground arith)

is_before_start_message-items :
    (topic : Text) (inclusive : Bool) (id : MessageIdData) (n j k : ℕ)
    → is_persistent_topic topic ≡ true
    → j < 2 ^ 31
    → k < 2 ^ 31
    → is_before_start_message topic (some (item_id id n k)) inclusive (item_id id n j)
      ≡ ltb j (first_index inclusive k)
unfolding is_before_start_message before_start item_id
is_before_start_message-items topic inclusive id n j k p h g =
    rw (p, (==_iff id.ledger_id id.ledger_id).1 refl, (==_iff id.entry_id id.entry_id).1 refl)
      (before_index-items inclusive j k h g)

drop-empty : (d : ℕ) → drop {A = Item} d [] ≡ []
drop-empty zero = refl
drop-empty (suc d) = refl

delivered_all-drop :
    (f j : ℕ) (x : Item) (xs : List Item)
    → (if ltb j f then [] else delivered x.0 x.1 ∷ []) ++ delivered_all (drop (f - suc j) xs)
      ≡ delivered_all (drop (f - j) (x ∷ xs))
delivered_all-drop f j x xs = go (f - j) refl
  where
    zero_left : f - j ≡ 0 → (ltb j f ≡ false) × (f - suc j ≡ 0)
    zero_left e = (ground arith, omega arith)

    go :
        (d : ℕ)
        → f - j ≡ d
        → (if ltb j f then [] else delivered x.0 x.1 ∷ []) ++ delivered_all (drop (f - suc j) xs)
          ≡ delivered_all (drop d (x ∷ xs))
    go zero e = rw ((zero_left e).0, (zero_left e).1) refl
    go (suc d) e = let q : f - suc j ≡ d = omega arith in rw (lt→ltb j f (omega arith), q) refl

module _ (w : World) (count : Option ℕ) (topic : Text) (options : ConsumerOptions)
    (policy : Option DeadLetterPolicy) (id : MessageIdData) (metadata : MessageMetadata) (n k : ℕ)
    (persistent : is_persistent_topic topic ≡ true)
    (start : options.start_message_id ≡ some (item_id id n k)) (small : k < 2 ^ 31)
    (fresh : exhausted count policy ≡ none) where
  abbrev from : ℕ
  from = first_index options.start_message_id_inclusive k

  expected-item :
      (j : ℕ) (m : BatchedMessage)
      → j < 2 ^ 31
      → expected w count topic options policy (item_id id n j, item_payload metadata m)
        ≡ (if ltb j from then [] else delivered (item_id id n j) (item_payload metadata m) ∷ [])
  expected-item j m h =
      let x : Item = (item_id id n j, item_payload metadata m) in
      let inclusive = options.start_message_id_inclusive in
      ap
        (λ s.
          if is_before_start_message topic s inclusive (item_id id n j)
          then []
          else handling w count topic (exhausted count policy) x)
        start
      ∙ ap (λ b. if b then [] else handling w count topic (exhausted count policy) x)
          (is_before_start_message-items topic inclusive id n j k persistent h small)
      ∙ ap (λ o. if ltb j from then [] else handling w count topic o x) fresh

  all_expected-items :
      (ms : List BatchedMessage) (j : ℕ)
      → j + length ms < 2 ^ 31
      → all_expected w count topic options policy (items id metadata n j ms)
        ≡ delivered_all (drop (from - j) (items id metadata n j ms))
  all_expected-items [] j h = ap delivered_all (sym (drop-empty (from - j)))
  all_expected-items (m ∷ ms) j h =
      let xs = items id metadata n (suc j) ms in
      ap (λ es. es ++ all_expected w count topic options policy xs)
        (expected-item j m (omega arith))
      ∙ ap (◌++◌ _) (all_expected-items ms (suc j) (omega arith))
      ∙ delivered_all-drop from j (item_id id n j, item_payload metadata m) xs

-- The payload of a batch, uncompressed.
abbrev pub batch_payload : World → MessageMetadata → List BatchedMessage → Payload MessageMetadata
batch_payload w metadata ms = record {
  metadata = metadata;
  payload_data = serialize_all w.singles ms [];
}

payloads-batch_payload :
    (w : World) (id : MessageIdData) (metadata : MessageMetadata) (ms : List BatchedMessage)
    → IsProtobuf w.singles
    → AllFit w.singles ms
    → length ms < 2 ^ 31
    → metadata.num_messages_in_batch ≡ some (pos (length ms))
    → reject_chunked_message metadata ≡ ok tt
    → compression_type metadata.compression ≡ ok none
    → payloads w id (batch_payload w metadata ms) ≡ ok (items id metadata (length ms) 0 ms)
unfolding payloads decompress payloads_of
payloads-batch_payload w id metadata ms proto fit small n whole plain =
    rw (whole, plain)
      (ap (λ o. payloads_of w o id (batch_payload w metadata ms)) n
        ∙ ap collected (read_batch-serialize_all w.singles proto ms id metadata fit small n))

-- A consumer that starts at the k-th message of a batch of uncompressed messages and gets that
-- batch is handed the messages after the k-th, or from the k-th on if the start is inclusive, in
-- order and each once; the topic is persistent and no redelivery count is used up.
pub process_payload-items :
    (w : World) (e : ConsumerEngine) (message : CommandMessage) (metadata : MessageMetadata)
    (ms : List BatchedMessage) (k : ℕ)
    → IsWorking w
    → IsProtobuf w.singles
    → AllFit w.singles ms
    → length ms < 2 ^ 31
    → k < 2 ^ 31
    → metadata.num_messages_in_batch ≡ some (pos (length ms))
    → reject_chunked_message metadata ≡ ok tt
    → compression_type metadata.compression ≡ ok none
    → is_persistent_topic e.topic ≡ true
    → e.options.start_message_id ≡ some (item_id message.message_id (length ms) k)
    → exhausted message.redelivery_count e.dead_letter_policy ≡ none
    → let d = process_payload w e message (batch_payload w metadata ms) in
      let its = items message.message_id metadata (length ms) 0 ms in
      (d.effects ≡ delivered_all (drop (first_index e.options.start_message_id_inclusive k) its))
      × (d.result ≡ ok tt)
unfolding process_payload
process_payload-items w e message metadata ms k working proto fit small small_k n whole plain
      persistent start fresh =
    let its = items message.message_id metadata (length ms) 0 ms in
    let done = deliver_all-expected w message.redelivery_count working e its in
    rw (payloads-batch_payload w message.message_id metadata ms proto fit small n whole plain) (
      done.0
          ∙ all_expected-items w message.redelivery_count e.topic e.options e.dead_letter_policy
              message.message_id metadata (length ms) k persistent start small_k fresh ms 0
              (omega arith)
          ∙ ap (λ t. delivered_all (drop t its)) (omega arith),
      done.1,
    )

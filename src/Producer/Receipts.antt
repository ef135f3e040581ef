-- ===== src/Producer/Receipts.antt =====
-- The receipts that a producer hands out against the messages that a consumer reads.
use mathlib.Core.Path.{ap₂}
use mathlib.Core.List.{append-nil, map-append}
use pulsar_rdg_rs.Prelude.{
  ℕ, suc, ◌<◌, ◌^◌, ◌≡◌, ◌≢◌, refl, ap, ◌∙◌, Option, none, some, List, [], ◌∷◌, ◌++◌, map, length,
  Result, ok, err,
}
use pulsar_rdg_rs.Prelude.Int.{as_i32-small}
use pulsar_rdg_rs.Bytes.{Bytes, Text}
use pulsar_rdg_rs.Proto.{MessageIdData, SingleMessageMetadata, MessageMetadata, CommandSendReceipt}
use pulsar_rdg_rs.Codec.{Protobuf, IsProtobuf}
use pulsar_rdg_rs.Batch.{BatchedMessage, Item, item_id, item_payload, read_batch}
use pulsar_rdg_rs.Batch.Parsing.{AllFit}
use pulsar_rdg_rs.Batch.Iterating.{items, read_batch-serialize_all}
use pulsar_rdg_rs.Producer.Message.{ProducerMessage}
use pulsar_rdg_rs.Producer.Batching.{BatchItem, single_message, flush, Sender}
use pulsar_rdg_rs.Producer.Contents.{FlushesLast}
use pulsar_rdg_rs.Producer.Sending.{
  numbered, Reply, receipt, batch_failed, flushed, split_flush, batch_message, receipts_from,
  flush_reply, reply_all, send_batch, message_payload,
}
use pulsar_rdg_rs.Producer.Splitting.{
  send_batch-eq, senders, messages, flushes, flush_senders, split_flush-Split, reply_sender,
  receipt_ids, envelope,
}

reply_senders-receipts_from :
    (E : Type 0) (r : CommandSendReceipt) (counter index : ℕ) (txs : List Sender)
    → map (reply_sender {E = E}) (receipts_from r counter index txs) ≡ txs
unfolding receipts_from
reply_senders-receipts_from E r counter index [] = refl
reply_senders-receipts_from E r counter index (tx ∷ txs) =
    ap (◌∷◌ tx) (reply_senders-receipts_from E r counter (suc index) txs)

receipt_ids-append :
    {E : Type 0} (xs ys : List (Reply E))
    → receipt_ids (xs ++ ys) ≡ receipt_ids xs ++ receipt_ids ys
receipt_ids-append [] ys = refl
receipt_ids-append (receipt tx r ∷ xs) ys = ap (◌∷◌ r.message_id) (receipt_ids-append xs ys)
receipt_ids-append (batch_failed tx e ∷ xs) ys = receipt_ids-append xs ys
receipt_ids-append (flushed tx ∷ xs) ys = receipt_ids-append xs ys

receipt_ids-flush_reply :
    (E : Type 0) (tx : Option Sender) → receipt_ids (flush_reply {E = E} tx) ≡ []
unfolding flush_reply
receipt_ids-flush_reply E none = refl
receipt_ids-flush_reply E (some tx) = refl

-- The ids of the messages that a consumer reads.
abbrev pub item_ids : List Item → List (Option MessageIdData)
item_ids = map λ i. some i.0

message_id-numbered :
    (r : CommandSendReceipt) (counter index : ℕ) (o : Option MessageIdData) (id : MessageIdData)
    → o ≡ some id
    → (numbered r counter index o).message_id ≡ some (item_id id counter index)
unfolding numbered item_id
message_id-numbered r counter index none id e = cc
message_id-numbered r counter index (some j) id e =
    ap (λ o. (numbered r counter index o).message_id) e

receipt_ids-receipts_from :
    (E : Type 0) (r : CommandSendReceipt) (id : MessageIdData) (metadata : MessageMetadata)
    (counter index : ℕ) (xs : List BatchItem)
    → r.message_id ≡ some id
    → receipt_ids (receipts_from {E = E} r counter index (senders xs))
      ≡ item_ids (items id metadata counter index (messages xs))
unfolding receipts_from
receipt_ids-receipts_from E r id metadata counter index [] e = refl
receipt_ids-receipts_from E r id metadata counter index (single_message tx m ∷ xs) e =
    ap₂ ◌∷◌ (message_id-numbered r counter index r.message_id id e)
      (receipt_ids-receipts_from E r id metadata counter (suc index) xs e)
receipt_ids-receipts_from E r id metadata counter index (flush tx ∷ xs) e =
    receipt_ids-receipts_from E r id metadata counter index xs e

payload_data-items :
    (id : MessageIdData) (metadata : MessageMetadata) (counter index : ℕ) (ms : List BatchedMessage)
    → map (λ (i : Item). i.1.payload_data) (items id metadata counter index ms)
      ≡ map (λ m. m.payload) ms
unfolding item_payload
payload_data-items id metadata counter index [] = refl
payload_data-items id metadata counter index (m ∷ ms) =
    ap (◌∷◌ m.payload) (payload_data-items id metadata counter (suc index) ms)

module _ (singles : Protobuf SingleMessageMetadata) where
  module _ {E : Type 0} (schema_version : Option Bytes)
      (send : ProducerMessage → Result E CommandSendReceipt) where
    reply_all-ok :
        (r : CommandSendReceipt) (counter : ℕ) (txs : List Sender) (tx : Option Sender)
        → (map reply_sender (reply_all {E = E} (ok r) counter txs tx) ≡ txs ++ flush_senders tx)
          × (receipt_ids (reply_all {E = E} (ok r) counter txs tx)
              ≡ receipt_ids (receipts_from {E = E} r counter 0 txs))
    unfolding reply_all
    reply_all-ok r counter txs tx = (
      map-append reply_sender (receipts_from r counter 0 txs) (flush_reply tx)
          ∙ ap₂ ◌++◌ (reply_senders-receipts_from E r counter 0 txs) (go tx),
      receipt_ids-append (receipts_from r counter 0 txs) (flush_reply tx)
          ∙ ap (◌++◌ _) (receipt_ids-flush_reply E tx)
          ∙ append-nil _,
    )
      where
        go : (tx : Option Sender) → map (reply_sender {E = E}) (flush_reply tx) ≡ flush_senders tx
        go none = refl
        go (some t) = refl

    -- Each sender of a batch is answered once, in the order of the messages: with a receipt if the
    -- batch was sent, and then the flush request is answered too; else with the error, and the
    -- flush request is not answered. The batch has a message and a flush request at its end at
    -- most.
    pub reply_senders-send_batch :
        (xs : List BatchItem)
        → FlushesLast xs
        → messages xs ≢ []
        → ((r : CommandSendReceipt)
            → send (envelope singles schema_version xs) ≡ ok r
            → map reply_sender (send_batch singles schema_version send xs)
              ≡ senders xs ++ flushes xs)
          × ((e : E)
              → send (envelope singles schema_version xs) ≡ err e
              → send_batch singles schema_version send xs
                ≡ map (λ tx. batch_failed tx e) (senders xs))
    reply_senders-send_batch xs h ne = (
      λ r e.
          rw (send_batch-eq singles schema_version send xs h ne, e)
            ((reply_all-ok r (length (messages xs)) (senders xs) (split_flush xs).1).0
              ∙ ap (◌++◌ (senders xs)) (split_flush-Split xs h).same_flushes),
      λ x e. unfold reply_all in rw (send_batch-eq singles schema_version send xs h ne, e),
    )

    -- When a batch has been sent, the ids in the receipts are, in order, the ids under which a
    -- consumer reads the messages out of the entry that the batch became, and it reads the
    -- payloads that were handed to the producer. The batch has a message and a flush request at its
    -- end at most, its messages fit their length fields and are fewer than 2^31, and the broker's
    -- receipt has an id.
    pub receipts-read_batch :
        (is_singles : IsProtobuf singles) (xs : List BatchItem) (r : CommandSendReceipt)
        (id : MessageIdData) (name : Text) (sequence_id now : ℕ)
        → FlushesLast xs
        → messages xs ≢ []
        → AllFit singles (messages xs)
        → length (messages xs) < 2 ^ 31
        → send (envelope singles schema_version xs) ≡ ok r
        → r.message_id ≡ some id
        → (its : List Item) × (read_batch singles id
              (message_payload name sequence_id now (envelope singles schema_version xs))
            ≡ ok (some its))
          × (receipt_ids (send_batch singles schema_version send xs) ≡ item_ids its)
          × (map (λ (i : Item). i.1.payload_data) its ≡ map (λ m. m.payload) (messages xs))
    unfolding message_payload batch_message
    receipts-read_batch is_singles xs r id name sequence_id now h ne fit small e q =
        let n = length (messages xs) in
        let p = message_payload name sequence_id now (envelope singles schema_version xs) in
        (
          items id p.metadata n 0 (messages xs),
          read_batch-serialize_all singles is_singles (messages xs) id p.metadata fit small
              (ap some (as_i32-small n small)),
          rw (send_batch-eq singles schema_version send xs h ne, e)
              ((reply_all-ok r n (senders xs) (split_flush xs).1).1
                ∙ receipt_ids-receipts_from E r id p.metadata n 0 xs q),
          payload_data-items id p.metadata n 0 (messages xs),
        )

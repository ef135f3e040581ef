-- ===== src/Producer/Splitting.antt =====
-- How message_send_loop takes a batch apart.
use mathlib.Core.List.{append_assoc, append-nil}
use pulsar_rdg_rs.Prelude.{
  suc, ◌≡◌, ◌≢◌, refl, ap, ◌∙◌, Option, none, some, List, [], ◌∷◌, ◌++◌, length, arith, ==_false,
  Result,
}
use pulsar_rdg_rs.Bytes.{Bytes}
use pulsar_rdg_rs.Proto.{MessageIdData, SingleMessageMetadata, CommandSendReceipt}
use pulsar_rdg_rs.Codec.{Protobuf}
use pulsar_rdg_rs.Batch.{BatchedMessage, serialize}
use pulsar_rdg_rs.Batch.Parsing.{serialize_all}
use pulsar_rdg_rs.Producer.Message.{ProducerMessage}
use pulsar_rdg_rs.Producer.Batching.{BatchItem, single_message, flush, Sender}
use pulsar_rdg_rs.Producer.Contents.{AllSingle, FlushesLast}
use pulsar_rdg_rs.Producer.Sending.{
  Reply, receipt, batch_failed, flushed, split_flush, write_items, batch_message, reply_all,
  send_batch,
}

abbrev pub senders : List BatchItem → List Sender
senders [] = []
senders (single_message tx m ∷ xs) = tx ∷ senders xs
senders (flush tx ∷ xs) = senders xs

abbrev pub messages : List BatchItem → List BatchedMessage
messages [] = []
messages (single_message tx m ∷ xs) = m ∷ messages xs
messages (flush tx ∷ xs) = messages xs

-- The senders of the flush requests.
abbrev pub flushes : List BatchItem → List Sender
flushes [] = []
flushes (single_message tx m ∷ xs) = flushes xs
flushes (flush tx ∷ xs) = tx ∷ flushes xs

abbrev pub flush_senders : Option Sender → List Sender
flush_senders none = []
flush_senders (some tx) = tx ∷ []

abbrev pub reply_sender : {E : Type 0} → Reply E → Sender
reply_sender (receipt tx r) = tx
reply_sender (batch_failed tx e) = tx
reply_sender (flushed tx) = tx

-- The ids in the receipts.
abbrev pub receipt_ids : {E : Type 0} → List (Reply E) → List (Option MessageIdData)
receipt_ids [] = []
receipt_ids (receipt tx r ∷ rs) = r.message_id ∷ receipt_ids rs
receipt_ids (batch_failed tx e ∷ rs) = receipt_ids rs
receipt_ids (flushed tx ∷ rs) = receipt_ids rs

-- What `split_flush` makes of a batch from `batch_process_loop`.
pub record Split (xs ys : List BatchItem) (flush_tx : Option Sender) : Type 0 where
  pub singles : AllSingle ys
  pub same_senders : senders ys ≡ senders xs
  pub same_messages : messages ys ≡ messages xs
  pub same_flushes : flush_senders flush_tx ≡ flushes xs
  pub same_length : length ys ≡ length (messages xs)

pub split_flush-Split :
    (xs : List BatchItem) → FlushesLast xs → Split xs (split_flush xs).0 (split_flush xs).1
unfolding split_flush
split_flush-Split [] h = absurd h
split_flush-Split (single_message tx m ∷ []) h = record {
  singles = tt;
  same_senders = refl;
  same_messages = refl;
  same_flushes = refl;
  same_length = refl;
}
split_flush-Split (flush tx ∷ []) h = record {
  singles = tt;
  same_senders = refl;
  same_messages = refl;
  same_flushes = refl;
  same_length = refl;
}
split_flush-Split (single_message tx m ∷ y ∷ xs) h =
    let s = split_flush-Split (y ∷ xs) h in
    record {
      singles = s.singles;
      same_senders = ap (◌∷◌ tx) s.same_senders;
      same_messages = ap (◌∷◌ m) s.same_messages;
      same_flushes = s.same_flushes;
      same_length = ap suc s.same_length;
    }
split_flush-Split (flush tx ∷ y ∷ xs) h = absurd h

module _ (singles : Protobuf SingleMessageMetadata) where
  pub write_items-eq :
      (xs : List BatchItem) (receipts : List Sender) (payload : Bytes)
      → write_items singles xs receipts payload
        ≡ (receipts ++ senders xs, serialize_all singles (messages xs) payload)
  unfolding write_items
  write_items-eq [] receipts payload = rw (append-nil receipts)
  write_items-eq (single_message tx m ∷ xs) receipts payload =
      write_items-eq xs (receipts ++ tx ∷ []) (serialize singles m payload)
      ∙ rw (append_assoc receipts (tx ∷ []) (senders xs))
  write_items-eq (flush tx ∷ xs) receipts payload = write_items-eq xs receipts payload

  -- The message that carries a batch.
  abbrev pub envelope : Option Bytes → List BatchItem → ProducerMessage
  envelope schema_version xs =
      batch_message (serialize_all singles (messages xs) []) (length (messages xs)) schema_version

  module _ {E : Type 0} (schema_version : Option Bytes)
      (send : ProducerMessage → Result E CommandSendReceipt) where
    pub send_batch-eq :
        (xs : List BatchItem)
        → FlushesLast xs
        → messages xs ≢ []
        → send_batch singles schema_version send xs
          ≡ reply_all
              (send (envelope schema_version xs))
              (length (messages xs))
              (senders xs)
              (split_flush xs).1
    unfolding send_batch
    send_batch-eq [] h ne = absurd h
    send_batch-eq (x ∷ xs) h ne =
        let s = split_flush-Split (x ∷ xs) h in
        rw (
          write_items-eq (split_flush (x ∷ xs)).0 [] [],
          s.same_length,
          s.same_messages,
          s.same_senders,
          ==_false (length (messages (x ∷ xs))) 0 (positive (messages (x ∷ xs)) ne),
        )
      where
        positive : (ms : List BatchedMessage) → ms ≢ [] → length ms ≢ 0
        positive [] ne = absurd (ne refl)
        positive (m ∷ ms) ne = omega arith

-- ===== src/Batch/Iterating.antt =====
-- What a consumer gets out of a batch.
use pulsar_rdg_rs.Prelude.{
  ℕ, zero, suc, ◌+◌, ◌-◌, ◌<◌, ◌^◌, ◌%◌, ◌≡◌, refl, ap, ◌∙◌, sym, Option, none, some, List, [], ◌∷◌,
  length, arith, Result, ok, err, ◌>>=◌, ==_iff, ==_false,
}
use pulsar_rdg_rs.Prelude.Int.{pos, as_u32, ℤ}
use native.Mathlib.Numerals.{add-one}
use pulsar_rdg_rs.Bytes
use pulsar_rdg_rs.Bytes.{Bytes, IResult, done, incomplete, failed}
use pulsar_rdg_rs.Proto.{SingleMessageMetadata, MessageIdData, MessageMetadata}
use pulsar_rdg_rs.Codec.{Protobuf, IsProtobuf, Payload}
use pulsar_rdg_rs.Batch.{
  BatchedMessage, BatchedMessageIterator, BatchError, bad_batch, Item, item_id, item_payload, next,
  collect, new, new_batch, read_batch, parse_batched_message, count, batched_message,
}
use pulsar_rdg_rs.Batch.Parsing.{AllFit, serialize_all, parse_batched_message-serialize_all}

-- The messages of a batch, numbered from `index`.
abbrev pub items : MessageIdData → MessageMetadata → ℕ → ℕ → List BatchedMessage → List Item
items message_id metadata total index [] = []
items message_id metadata total index (m ∷ ms) =
    (item_id message_id total index, item_payload metadata m)
    ∷ items message_id metadata total (suc index) ms

module _ (message_id : MessageIdData) (metadata : MessageMetadata) (total : ℕ) where
  abbrev pub iterator : List BatchedMessage → ℕ → BatchedMessageIterator
  iterator ms index = record {
    messages = ms;
    message_id = message_id;
    metadata = metadata;
    total_messages = total;
    current_index = index;
  }

  next-end : (index : ℕ) → index ≡ total → next (iterator [] index) ≡ (none, iterator [] index)
  unfolding next
  next-end index e = rw ((==_iff (total - index) 0).1 (omega arith))

  next-more :
      (m : BatchedMessage) (ms : List BatchedMessage) (index : ℕ)
      → index < total
      → next (iterator (m ∷ ms) index)
        ≡ (some (item_id message_id total index, item_payload metadata m), iterator ms (index + 1))
  unfolding next
  next-more m ms index h = rw (==_false (total - index) 0 (omega arith))

  collect-items :
      (fuel : ℕ) (ms : List BatchedMessage) (index : ℕ)
      → length ms < fuel
      → index + length ms ≡ total
      → collect fuel (iterator ms index) ≡ some (items message_id metadata total index ms)
  unfolding collect
  collect-items zero ms index h e = absurd (omega arith)
  collect-items (suc fuel) [] index h e = rw (next-end index (omega arith))
  collect-items (suc fuel) (m ∷ ms) index h e = rw (
    next-more m ms index (omega arith),
    collect-items fuel ms (index + 1) (omega arith) (omega arith),
    add-one index,
  )

-- As many messages as the envelope says, or an error.
module _ {ℓ} {A : Type ℓ} (p : Bytes → IResult A) where
  length-count : (n : ℕ) (i rest : Bytes) (xs : List A) → count p n i ≡ done rest xs → length xs ≡ n
  unfolding count
  length-count zero i rest xs e = ground arith
  length-count (suc n) i rest xs e = first (λ j j' ys q. length-count n j j' ys q) (p i) e
    where
      more :
          (a : A) (r : IResult (List A))
          → ((j : Bytes) (ys : List A) → r ≡ done j ys → length ys ≡ n)
          → (Bytes.◌>>=◌ r λ i rest. done i (a ∷ rest)) ≡ done rest xs
          → length xs ≡ suc n
      more a (done j ys) ih e = ground (arith, ih j ys refl)
      more a incomplete ih e = cc
      more a failed ih e = cc

      first :
          ((j j' : Bytes) (ys : List A) → count p n j ≡ done j' ys → length ys ≡ n)
          → (r : IResult A)
          → (Bytes.◌>>=◌ r λ i a. Bytes.◌>>=◌ (count p n i) λ i rest. done i (a ∷ rest))
            ≡ done rest xs
          → length xs ≡ suc n
      first ih (done j a) e = more a (count p n j) (ih j) e
      first ih incomplete e = cc
      first ih failed e = cc

pub length-items :
    (message_id : MessageIdData) (metadata : MessageMetadata) (total index : ℕ)
    (ms : List BatchedMessage)
    → length (items message_id metadata total index ms) ≡ length ms
length-items message_id metadata total index [] = refl
length-items message_id metadata total index (m ∷ ms) =
    ap suc (length-items message_id metadata total (suc index) ms)

module _ (singles : Protobuf SingleMessageMetadata) where
  length-parse_batched_message :
      (n : ℕ) (payload : Bytes) (ms : List BatchedMessage)
      → parse_batched_message singles n payload ≡ ok ms
      → length ms ≡ n
  unfolding parse_batched_message
  length-parse_batched_message n payload ms e =
      go (count (batched_message singles) n payload) refl e
    where
      go :
          (r : IResult (List BatchedMessage))
          → count (batched_message singles) n payload ≡ r
          → (elim r [ done i ms ↦ ok ms | incomplete ↦ err bad_batch | failed ↦ err bad_batch ])
            ≡ ok ms
          → length ms ≡ n
      go (done i xs) q e = ground (arith, length-count (batched_message singles) n payload i xs q)
      go incomplete q e = cc
      go failed q e = cc

  read_batch-eq :
      (message_id : MessageIdData) (payload : Payload MessageMetadata) (n : ℤ)
      → payload.metadata.num_messages_in_batch ≡ some n
      → read_batch singles message_id payload ≡ (do
        ms ← parse_batched_message singles (as_u32 n) payload.payload_data
        ok (some (items message_id payload.metadata (as_u32 n) 0 ms)))
  unfolding read_batch new
  read_batch-eq message_id payload n e =
      ap
        (λ o. new_batch singles message_id payload o >>= λ it.
          ok (collect (suc (length it.messages)) it))
        e
      ∙ go (parse_batched_message singles (as_u32 n) payload.payload_data)
          (length-parse_batched_message (as_u32 n) payload.payload_data)
    where
      go :
          (r : Result BatchError (List BatchedMessage))
          → ((ms : List BatchedMessage) → r ≡ ok ms → length ms ≡ as_u32 n)
          → (r >>= (λ ms. ok (iterator message_id payload.metadata (as_u32 n) ms 0)) >>= λ it.
              ok (collect (suc (length it.messages)) it))
            ≡ (r >>= λ ms. ok (some (items message_id payload.metadata (as_u32 n) 0 ms)))
      go (ok ms) h = ap ok (
          collect-items message_id payload.metadata (as_u32 n) (suc (length ms)) ms 0 (omega arith)
            (omega (arith, h ms refl)))
      go (err x) h = refl

  -- Reading a batch either fails or gives exactly as many messages as the envelope's count says;
  -- the iterator always ends.
  pub read_batch-total :
      (message_id : MessageIdData) (payload : Payload MessageMetadata) (n : ℤ)
      (r : Option (List Item))
      → payload.metadata.num_messages_in_batch ≡ some n
      → read_batch singles message_id payload ≡ ok r
      → (xs : List Item) × (r ≡ some xs) × (length xs ≡ as_u32 n)
  read_batch-total message_id payload n r e h =
      go (parse_batched_message singles (as_u32 n) payload.payload_data)
        (length-parse_batched_message (as_u32 n) payload.payload_data)
        (sym (read_batch-eq message_id payload n e) ∙ h)
    where
      go :
          (p : Result BatchError (List BatchedMessage))
          → ((ms : List BatchedMessage) → p ≡ ok ms → length ms ≡ as_u32 n)
          → (p >>= λ ms. ok (some (items message_id payload.metadata (as_u32 n) 0 ms))) ≡ ok r
          → (xs : List Item) × (r ≡ some xs) × (length xs ≡ as_u32 n)
      go (ok ms) l q = (
        items message_id payload.metadata (as_u32 n) 0 ms,
        cc,
        length-items message_id payload.metadata (as_u32 n) 0 ms ∙ l ms refl,
      )
      go (err x) l q = absurd (cc)

  -- What a producer serialized into one entry comes out message by message, in order, numbered
  -- from 0, each with its own key, properties and flags; the messages fit their length fields, are
  -- fewer than 2^31, and as many as the envelope says.
  pub read_batch-serialize_all :
      (is_singles : IsProtobuf singles) (ms : List BatchedMessage) (message_id : MessageIdData)
      (metadata : MessageMetadata)
      → AllFit singles ms
      → length ms < 2 ^ 31
      → metadata.num_messages_in_batch ≡ some (pos (length ms))
      → read_batch singles message_id
          (record { metadata = metadata; payload_data = serialize_all singles ms [] })
        ≡ ok (some (items message_id metadata (length ms) 0 ms))
  read_batch-serialize_all is_singles ms message_id metadata fit small e =
      read_batch-eq message_id _ (pos (length ms)) e
      ∙ rw (count_fits) (rw (parse_batched_message-serialize_all singles is_singles ms fit))
    where
      count_fits : length ms % 2 ^ 32 ≡ length ms
      count_fits = omega arith

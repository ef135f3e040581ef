-- ===== src/Connection/Keys.antt =====
-- src/message.rs: `Message::request_key`, and src/connection.rs: `RequestKey`.
use pulsar_rdg_rs.Prelude.{
  ℕ, ◌≡◌, ◌↔◌, Bool, true, false, Option, none, some, List, [], ◌∷◌, ◌==◌, ◌&&◌, arith,
}
use pulsar_rdg_rs.Prelude.Maps.{Eq}
use pulsar_rdg_rs.Proto.{BaseCommand, Requested, Sent, Consumed}

pub data RequestKey : Type 0 where
  request_id : ℕ → RequestKey
  producer_send : ℕ → ℕ → RequestKey
  consumer : ℕ → RequestKey
  close_consumer : ℕ → ℕ → RequestKey
  auth_challenge : RequestKey

abbrev pub key_eq : RequestKey → RequestKey → Bool
key_eq (request_id a) (request_id b) = a == b
key_eq (producer_send a b) (producer_send c d) = (a == c) && (b == d)
key_eq (consumer a) (consumer b) = a == b
key_eq (close_consumer a b) (close_consumer c d) = (a == c) && (b == d)
key_eq auth_challenge auth_challenge = true
key_eq _ _ = false

pub key_eq_iff : (j k : RequestKey) → (key_eq j k ≡ true) ↔ (j ≡ k)
key_eq_iff (request_id a) (request_id b) = ground arith
key_eq_iff (producer_send a b) (producer_send c d) = ground arith
key_eq_iff (consumer a) (consumer b) = ground arith
key_eq_iff (close_consumer a b) (close_consumer c d) = ground arith
key_eq_iff _ _ = ground arith

instance abbrev pub request_key_eq : Eq RequestKey
request_key_eq = record { beq = key_eq; beq_iff = key_eq_iff }

-- The first that is there.
abbrev pub first {ℓ} : {A : Type ℓ} → List (Option A) → Option A
first [] = none
first (some a ∷ xs) = some a
first (none ∷ xs) = first xs

abbrev pub lift {ℓ κ} : {A : Type ℓ} {B : Type κ} → (A → B) → Option A → Option B
lift f none = none
lift f (some a) = some (f a)

abbrev requested : Option Requested → Option RequestKey
requested = lift λ r. request_id r.request_id

abbrev sent : Option Sent → Option RequestKey
sent = lift λ s. producer_send s.producer_id s.sequence_id

abbrev consumed : Option Consumed → Option RequestKey
consumed = lift λ c. consumer c.consumer_id

-- The arms of the match, from the first to the last that gives a key.
unfoldable pub request_key : BaseCommand → Option RequestKey
request_key c = first (
    requested c.subscribe
    ∷ requested c.partition_metadata
    ∷ requested c.partition_metadata_response
    ∷ requested c.lookup_topic
    ∷ requested c.lookup_topic_response
    ∷ requested c.producer
    ∷ requested c.producer_success
    ∷ requested c.unsubscribe
    ∷ requested c.seek
    ∷ requested c.close_producer
    ∷ requested c.success
    ∷ lift (λ e. request_id e.request_id) c.error
    ∷ requested c.consumer_stats
    ∷ requested c.consumer_stats_response
    ∷ requested c.get_last_message_id
    ∷ requested c.get_last_message_id_response
    ∷ requested c.get_topics_of_namespace
    ∷ requested c.get_topics_of_namespace_response
    ∷ requested c.get_schema
    ∷ requested c.get_schema_response
    ∷ sent c.send
    ∷ sent c.send_error
    ∷ lift (λ r. producer_send r.producer_id r.sequence_id) c.send_receipt
    ∷ lift (λ a. consumer a.consumer_id) c.active_consumer_change
    ∷ lift (λ m. consumer m.consumer_id) c.message
    ∷ consumed c.flow
    ∷ consumed c.redeliver_unacknowledged_messages
    ∷ consumed c.reached_end_of_topic
    ∷ consumed c.ack
    ∷ lift (λ k. close_consumer k.consumer_id k.request_id) c.close_consumer
    ∷ lift (λ a. auth_challenge) c.auth_challenge
    ∷ [])

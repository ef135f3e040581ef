-- ===== src/Consumer/Quiet.antt =====
-- What the handling of messages leaves alone: the count of messages and the permits asked for.
use pulsar_rdg_rs.Prelude.{
  ℕ, ◌+◌, ◌≡◌, refl, ◌∙◌, Bool, true, false, Option, none, some, List, [], ◌∷◌, ◌++◌, Result, ok,
  err, arith, Bool-cases, inl, inr,
}
use pulsar_rdg_rs.Proto.{
  MessageIdData, MessageMetadata, CommandMessage, CommandActiveConsumerChange, CommandCloseConsumer,
  Consumed,
}
use pulsar_rdg_rs.Codec.{Payload}
use pulsar_rdg_rs.Batch.{Item}
use pulsar_rdg_rs.Producer.Message.{Message}
use pulsar_rdg_rs.Consumer.Start.{is_before_start_message}
use pulsar_rdg_rs.Consumer.Engine.{
  World, ConsumerEngine, DeadLetterPolicy, EngineError, Publish, send_failed, no_receipt, published,
  Effect, delivered, failure_delivered, dead_lettered, acked, redelivery_asked, flow, Done,
  continue, ack, send_if, send_to_consumer,
}
use pulsar_rdg_rs.Consumer.Deliver.{
  on_publish, dead_letter, exhausted, hand_over, deliver, deliver_all, payloads, process_payload,
}
use pulsar_rdg_rs.Consumer.Steps.{on_kind}

-- The permits that were asked for.
abbrev pub granted : List Effect → ℕ
granted [] = 0
granted (flow n ∷ es) = n + granted es
granted (x ∷ es) = granted es

pub granted-append : (xs ys : List Effect) → granted (xs ++ ys) ≡ granted xs + granted ys
granted-append [] ys = omega arith
granted-append (flow n ∷ xs) ys = omega (arith, granted-append xs ys)
granted-append (delivered id p ∷ xs) ys = granted-append xs ys
granted-append (failure_delivered x ∷ xs) ys = granted-append xs ys
granted-append (dead_lettered t m ∷ xs) ys = granted-append xs ys
granted-append (acked id b ∷ xs) ys = granted-append xs ys
granted-append (redelivery_asked ids ∷ xs) ys = granted-append xs ys

-- What touches neither the count nor the permits.
pub record IsQuiet {A : Type 0} (e : ConsumerEngine) (d : Done A) : Type 0 where
  pub same_remaining : d.engine.remaining_messages ≡ e.remaining_messages
  pub no_permits : granted d.effects ≡ 0

IsQuiet-continue :
    {A B : Type 0} (e e' : ConsumerEngine) (es : List Effect) (r : Result EngineError A)
    (k : ConsumerEngine → A → Done B)
    → e'.remaining_messages ≡ e.remaining_messages
    → granted es ≡ 0
    → ((a : A) → IsQuiet e' (k e' a))
    → IsQuiet e (continue e' es r k)
IsQuiet-continue e e' es (ok a) k h g q = record {
  same_remaining = (q a).same_remaining ∙ h;
  no_permits = granted-append es _ ∙ omega (arith, g, (q a).no_permits);
}
IsQuiet-continue e e' es (err x) k h g q = record { same_remaining = h; no_permits = g }

send_if-IsQuiet :
    (b : Bool) (e : ConsumerEngine) (now : ℕ) (id : MessageIdData) (p : Payload MessageMetadata)
    → IsQuiet e (send_if b e now id p)
unfolding send_if
send_if-IsQuiet true e now id p = record { same_remaining = refl; no_permits = refl }
send_if-IsQuiet false e now id p = record { same_remaining = refl; no_permits = refl }

on_publish-IsQuiet :
    (o : Publish) (e : ConsumerEngine) (id : MessageIdData) (topic : _) (m : Message)
    → IsQuiet e (on_publish o e id topic m)
unfolding on_publish ack
on_publish-IsQuiet (send_failed x) e id topic m = record {
  same_remaining = refl;
  no_permits = refl;
}
on_publish-IsQuiet no_receipt e id topic m = record { same_remaining = refl; no_permits = refl }
on_publish-IsQuiet published e id topic m = record { same_remaining = refl; no_permits = refl }

module _ (w : World) (count : Option ℕ) where
  hand_over-IsQuiet :
      (e : ConsumerEngine) (o : Option DeadLetterPolicy) (x : Item)
      → IsQuiet e (hand_over w e o x.0 x.1)
  unfolding hand_over dead_letter send_to_consumer
  hand_over-IsQuiet e none x = send_if-IsQuiet w.tx_open e w.now x.0 x.1
  hand_over-IsQuiet e (some policy) x = on_publish-IsQuiet _ e x.0 policy.dead_letter_topic _

  deliver-IsQuiet : (e : ConsumerEngine) (x : Item) → IsQuiet e (deliver w e count x)
  unfolding deliver
  deliver-IsQuiet e (id, p) =
      elim (Bool-cases (
        is_before_start_message e.topic e.options.start_message_id
          e.options.start_message_id_inclusive id)) [
            | inl b ↦ rw b (record { same_remaining = refl; no_permits = refl })
            | inr b ↦ rw b (hand_over-IsQuiet e (exhausted count e.dead_letter_policy) (id, p))
          ]

  deliver_all-IsQuiet : (e : ConsumerEngine) (xs : List Item) → IsQuiet e (deliver_all w e count xs)
  unfolding deliver_all
  deliver_all-IsQuiet e [] = record { same_remaining = refl; no_permits = refl }
  deliver_all-IsQuiet e (x ∷ xs) =
      let d = deliver w e count x in
      let q = deliver-IsQuiet e x in
      IsQuiet-continue e d.engine d.effects d.result (λ e _. deliver_all w e count xs)
        q.same_remaining q.no_permits (λ _. deliver_all-IsQuiet d.engine xs)

process_payload-IsQuiet :
    (w : World) (e : ConsumerEngine) (message : CommandMessage) (p : Payload MessageMetadata)
    → IsQuiet e (process_payload w e message p)
unfolding process_payload
process_payload-IsQuiet w e message p =
    IsQuiet-continue e e [] (payloads w message.message_id p) _ refl refl
      (deliver_all-IsQuiet w message.redelivery_count e)

pub on_kind-IsQuiet :
    (w : World) (e : ConsumerEngine) (end : Option Consumed)
    (change : Option CommandActiveConsumerChange) (message : Option CommandMessage)
    (p : Option (Payload MessageMetadata)) (close : Option CommandCloseConsumer)
    → close ≡ none
    → IsQuiet e (on_kind w e end change message p close)
unfolding on_kind
on_kind-IsQuiet w e (some end) change message p close h = record {
  same_remaining = refl;
  no_permits = refl;
}
on_kind-IsQuiet w e none (some change) message p close h = record {
  same_remaining = refl;
  no_permits = refl;
}
on_kind-IsQuiet w e none none (some message) (some p) close h =
    let d = process_payload w e message p in
    let q = process_payload-IsQuiet w e message p in
    IsQuiet-continue e d.engine d.effects d.result _ q.same_remaining q.no_permits
      (λ _. record { same_remaining = refl; no_permits = refl })
on_kind-IsQuiet w e none none (some message) none close h = record {
  same_remaining = refl;
  no_permits = refl;
}
on_kind-IsQuiet w e none none none p (some close) h = cc
on_kind-IsQuiet w e none none none p none h = record { same_remaining = refl; no_permits = refl }

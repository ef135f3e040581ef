-- ===== src/Consumer/Expected.antt =====
-- What the loop of `process_payload` does about each of a message's payloads.
use mathlib.Core.Path.{ap₂}
use pulsar_rdg_rs.Prelude.{
  ℕ, ◌≡◌, refl, ap, ◌∙◌, Bool, true, false, Option, none, some, List, [], ◌∷◌, ◌++◌, Result, ok,
  err, if◌then◌else◌, Bool-cases, inl, inr,
}
use pulsar_rdg_rs.Bytes.{Text}
use pulsar_rdg_rs.Proto.{MessageIdData, MessageMetadata}
use pulsar_rdg_rs.Codec.{Payload}
use pulsar_rdg_rs.Batch.{Item}
use pulsar_rdg_rs.Producer.Message.{Message}
use pulsar_rdg_rs.Consumer.Start.{is_before_start_message}
use pulsar_rdg_rs.Consumer.Engine.{
  World, ConsumerEngine, ConsumerOptions, DeadLetterPolicy, EngineError, Publish, published, Effect,
  dead_lettered, delivered, acked, Done, continue, ack, send_if, send_to_consumer,
}
use pulsar_rdg_rs.Consumer.Deliver.{
  dead_letter_message, on_publish, dead_letter, exhausted, hand_over, deliver, deliver_all,
}

-- The outside works: the consumer takes messages and the dead letter topic accepts them.
pub record IsWorking (w : World) : Type 0 where
  pub tx_stays : w.tx_open ≡ true
  pub accepts : (topic : Text) (m : Message) → w.publish topic m ≡ published

module _ (w : World) (count : Option ℕ) where
  -- What is to be done about a message that is not before the start.
  abbrev pub handling : Text → Option DeadLetterPolicy → Item → List Effect
  handling topic none (id, p) = delivered id p ∷ []
  handling topic (some policy) (id, p) =
      dead_lettered policy.dead_letter_topic (dead_letter_message w topic id p)
      ∷ acked id false
      ∷ []

  abbrev pub expected : Text → ConsumerOptions → Option DeadLetterPolicy → Item → List Effect
  expected topic options policy x =
      if is_before_start_message topic options.start_message_id options.start_message_id_inclusive
        x.0
      then []
      else handling topic (exhausted count policy) x

  abbrev pub all_expected :
      Text → ConsumerOptions → Option DeadLetterPolicy → List Item → List Effect
  all_expected topic options policy [] = []
  all_expected topic options policy (x ∷ xs) =
      expected topic options policy x ++ all_expected topic options policy xs

  record Kept (e : ConsumerEngine) (es : List Effect) (d : Done (Unit {0})) : Type 0 where
    same_topic : d.engine.topic ≡ e.topic
    same_options : d.engine.options ≡ e.options
    same_policy : d.engine.dead_letter_policy ≡ e.dead_letter_policy
    same_effects : d.effects ≡ es
    succeeds : d.result ≡ ok tt

  send_if-Kept :
      (e : ConsumerEngine) (now : ℕ) (id : MessageIdData) (p : Payload MessageMetadata) (b : Bool)
      → b ≡ true
      → Kept e (delivered id p ∷ []) (send_if b e now id p)
  unfolding send_if
  send_if-Kept e now id p false h = cc
  send_if-Kept e now id p true h = record {
    same_topic = refl;
    same_options = refl;
    same_policy = refl;
    same_effects = refl;
    succeeds = refl;
  }

  on_publish-Kept :
      (e : ConsumerEngine) (id : MessageIdData) (topic : Text) (m : Message) (o : Publish)
      → o ≡ published
      → Kept e (dead_lettered topic m ∷ acked id false ∷ []) (on_publish o e id topic m)
  unfolding on_publish ack
  on_publish-Kept e id topic m (Publish.send_failed x) h = cc
  on_publish-Kept e id topic m Publish.no_receipt h = cc
  on_publish-Kept e id topic m published h = record {
    same_topic = refl;
    same_options = refl;
    same_policy = refl;
    same_effects = refl;
    succeeds = refl;
  }

  module _ (working : IsWorking w) where
    hand_over-Kept :
        (e : ConsumerEngine) (o : Option DeadLetterPolicy) (x : Item)
        → Kept e (handling e.topic o x) (hand_over w e o x.0 x.1)
    unfolding hand_over dead_letter send_to_consumer
    hand_over-Kept e none (id, p) = send_if-Kept e w.now id p w.tx_open working.tx_stays
    hand_over-Kept e (some policy) (id, p) =
        on_publish-Kept e id policy.dead_letter_topic (dead_letter_message w e.topic id p) _
          (working.accepts policy.dead_letter_topic (dead_letter_message w e.topic id p))

    deliver-Kept :
        (e : ConsumerEngine) (x : Item)
        → Kept e (expected e.topic e.options e.dead_letter_policy x) (deliver w e count x)
    unfolding deliver
    deliver-Kept e (id, p) =
        elim (Bool-cases (
          is_before_start_message e.topic e.options.start_message_id
            e.options.start_message_id_inclusive id)) [
              | inl b ↦ rw b (record {
                same_topic = refl;
                same_options = refl;
                same_policy = refl;
                same_effects = refl;
                succeeds = refl;
              })
              | inr b ↦ rw b (hand_over-Kept e (exhausted count e.dead_letter_policy) (id, p))
            ]

    all_expected-cong :
        (e d : ConsumerEngine) (xs : List Item)
        → d.topic ≡ e.topic
        → d.options ≡ e.options
        → d.dead_letter_policy ≡ e.dead_letter_policy
        → all_expected d.topic d.options d.dead_letter_policy xs
          ≡ all_expected e.topic e.options e.dead_letter_policy xs
    all_expected-cong e d xs t o p =
        ap (λ a. all_expected a d.options d.dead_letter_policy xs) t
        ∙ ap (λ a. all_expected e.topic a d.dead_letter_policy xs) o
        ∙ ap (λ a. all_expected e.topic e.options a xs) p

    abbrev Works : ConsumerEngine → List Item → Done (Unit {0}) → Type 0
    Works e xs d =
        (d.effects ≡ all_expected e.topic e.options e.dead_letter_policy xs) × (d.result ≡ ok tt)

    Works-continue :
        (e e' : ConsumerEngine) (x : Item) (xs : List Item) (es : List Effect)
        (r : Result EngineError (Unit {0})) (k : ConsumerEngine → Unit {0} → Done (Unit {0}))
        → es ≡ expected e.topic e.options e.dead_letter_policy x
        → r ≡ ok tt
        → ((k e' tt).effects ≡ all_expected e.topic e.options e.dead_letter_policy xs)
          × ((k e' tt).result ≡ ok tt)
        → Works e (x ∷ xs) (continue e' es r k)
    Works-continue e e' x xs es (ok tt) k h g (f, s) = (ap₂ ◌++◌ h f, s)
    Works-continue e e' x xs es (err y) k h g f = cc

    -- When the consumer takes messages and the dead letter topic accepts them, the loop over the
    -- payloads succeeds, and in their order each is dropped if it is before the start message,
    -- dead-lettered and acknowledged if its redeliveries are used up, and else delivered.
    pub deliver_all-expected :
        (e : ConsumerEngine) (xs : List Item)
        → ((deliver_all w e count xs).effects
            ≡ all_expected e.topic e.options e.dead_letter_policy xs)
          × ((deliver_all w e count xs).result ≡ ok tt)
    unfolding deliver_all
    deliver_all-expected e [] = (refl, refl)
    deliver_all-expected e (x ∷ xs) =
        let h = deliver-Kept e x in
        let d = (deliver w e count x).engine in
        let ih = deliver_all-expected d xs in
        Works-continue e d x xs _ _ (λ e _. deliver_all w e count xs) h.same_effects h.succeeds
          (ih.0 ∙ all_expected-cong e d xs h.same_topic h.same_options h.same_policy, ih.1)

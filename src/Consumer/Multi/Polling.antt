-- ===== src/Consumer/Multi/Polling.antt =====
-- The polling of `MultiTopicConsumer` in src/consumer/multi.rs.
use pulsar_rdg_rs.Prelude.{continued, ℕ, zero, suc, Option, none, some, List, [], ◌∷◌, ◌++◌, length}
use pulsar_rdg_rs.Prelude.Maps.{Map, lookup, insert}
use pulsar_rdg_rs.Prelude.Equals.{text_eq}
use pulsar_rdg_rs.Bytes.{Text}
use pulsar_rdg_rs.Consumer.Topic.{Polled, pending, closed, message, failed}
use pulsar_rdg_rs.Consumer.Multi.{
  Member, Delivered, MultiTopicConsumer, polled, poll_member, remove_consumers, update_topics,
}
use pulsar_rdg_rs.Consumer.Multi.Updating.{Answers, take_new}

-- The variables of the loop over the topics in poll_next; `missing` is what it prints.
pub record Rotation (E : Type 0) : Type 0 where
  pub existing_topics : List Text
  pub consumers : Map Text (Member E)
  pub topics_to_remove : List Text
  pub result : Option Delivered
  pub missing : List Text

unfoldable pub on_polled : {E : Type 0} → Text → Polled E → Rotation E → Rotation E
on_polled topic pending r = r
on_polled topic closed r = record r { topics_to_remove = r.topics_to_remove ++ topic ∷ [] }
on_polled topic (message id payload) r = record r { result = some (topic, id, payload) }
on_polled topic (failed e) r = record r { topics_to_remove = r.topics_to_remove ++ topic ∷ [] }

unfoldable pub visit : {E : Type 0} → ℕ → Text → Option (Member E) → Rotation E → Rotation E
unfolding on_polled poll_member polled
visit now topic none r = record r { missing = r.missing ++ topic ∷ [] }
visit now topic (some c) r =
    on_polled topic (polled c)
      (record r { consumers = insert topic (poll_member now c) r.consumers })

unfoldable pub push_back_topic : {E : Type 0} → Text → Rotation E → Rotation E
push_back_topic topic r = record r { existing_topics = r.existing_topics ++ topic ∷ [] }

-- The body of the loop; `none` is the panic of `pop_front().unwrap()`.
unfoldable pub poll_front : {E : Type 0} → ℕ → List Text → Rotation E → Option (Rotation E)
unfolding visit push_back_topic
poll_front now [] r = none
poll_front now (topic ∷ topics) r = some (
    push_back_topic topic
      (visit now topic (lookup topic r.consumers) (record r { existing_topics = topics })))

unfoldable pub rotate : {E : Type 0} → ℕ → ℕ → Rotation E → Option (Rotation E)
unfolding poll_front
rotate now zero r = some r
rotate now (suc n) r = elim r.result [
  | some found ↦ some r
  | none ↦ continued (rotate now n) (poll_front now r.existing_topics r)
]

-- A state, what a poll gives (`none` is pending), and the topics reported without a consumer.
pub record Outcome (E : Type 0) : Type 0 where
  pub state : MultiTopicConsumer E
  pub result : Option Delivered
  pub missing : List Text

unfoldable pub on_rotated : {E : Type 0} → MultiTopicConsumer E → Rotation E → Outcome E
unfolding remove_consumers
on_rotated m r = record {
  state =
      remove_consumers r.topics_to_remove
        (record m { consumers = r.consumers; existing_topics = r.existing_topics });
  result = r.result;
  missing = r.missing;
}

-- The variables before the loop.
abbrev pub start : {E : Type 0} → MultiTopicConsumer E → Rotation E
start m = record {
  existing_topics = m.existing_topics;
  consumers = m.consumers;
  topics_to_remove = [];
  result = none;
  missing = [];
}

-- poll_next behind the first two tests.
unfoldable pub poll_topics : {E : Type 0} → ℕ → MultiTopicConsumer E → Option (Outcome E)
unfolding rotate on_rotated
poll_topics now m =
    continued (λ r. some (on_rotated m r)) (rotate now (length m.existing_topics) (start m))

-- What the futures answer: before each time that the refresh timer has fired, and at the end.
unfoldable pub prepare :
    {E : Type 0}
    → List (Option (Answers E))
    → Option (Answers E)
    → MultiTopicConsumer E
    → MultiTopicConsumer E
unfolding take_new update_topics
prepare [] last m = take_new last m
prepare (answers ∷ fired) last m = prepare fired last (update_topics (take_new answers m))

unfoldable pub poll_next :
    {E : Type 0}
    → ℕ
    → List (Option (Answers E))
    → Option (Answers E)
    → MultiTopicConsumer E
    → Option (Outcome E)
unfolding prepare poll_topics
poll_next now fired last m = poll_topics now (prepare fired last m)

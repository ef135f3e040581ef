-- ===== src/Consumer/Multi.antt =====
-- src/consumer/multi.rs: `MultiTopicConsumer`, its table of consumers and its polling. A text
-- stands for a topic's name, a function for the compiled regex, and a consumer comes with the
-- channel that its engine fills. What the client answers while new consumers are made is an
-- argument.
use pulsar_rdg_rs.Prelude.{
  ℕ, zero, suc, ◌+◌, Bool, true, false, Option, none, some, List, [], ◌∷◌, ◌++◌, map, Result, ok,
  err, ◌>>=◌, leb, length, if◌then◌else◌,
}
use pulsar_rdg_rs.Prelude.Maps.{Map, lookup, insert, remove}
use pulsar_rdg_rs.Prelude.Equals.{text_eq}
use pulsar_rdg_rs.Prelude.Members.{contains, without}
use pulsar_rdg_rs.Bytes.{Text}
use pulsar_rdg_rs.Proto.{MessageIdData, MessageMetadata}
use pulsar_rdg_rs.Codec.{Payload}
use pulsar_rdg_rs.Manager.{BrokerAddress}
use pulsar_rdg_rs.Partitions.{try_join_all, lookup_partitioned_topic}
use pulsar_rdg_rs.Consumer.Topic
use pulsar_rdg_rs.Consumer.Topic.{TopicConsumer, Polled, pending, closed, message, failed}
pub mod Updating
pub mod Polling
pub mod Running
pub mod Rotating
pub mod Removing
pub mod Present
pub mod Tables
pub mod Counting
pub mod Sparing
pub mod Waiting
pub mod Serving
pub mod Delivering
pub mod Fairness
pub mod Keeping
pub mod Items
pub mod Ordering
pub mod Arriving
pub mod Lossless
pub mod Doubled

abbrev pub Body : Type 0
Body = MessageIdData × Payload MessageMetadata

abbrev pub Item : Type 0 → Type 0
Item E = Result E Body

-- A TopicConsumer with what its channel holds, and whether the engine has dropped its end.
pub record Member (E : Type 0) : Type 0 where
  pub consumer : TopicConsumer
  pub items : List (Item E)
  pub ended : Bool

-- The topic, the id and the payload of a `Message`.
abbrev pub Delivered : Type 0
Delivered = Text × MessageIdData × Payload MessageMetadata

-- What the future in `new_consumers` has captured.
pub record Update : Type 0 where
  pub topics : List Text
  pub topic_regex : Option (Text → Bool)
  pub existing_topics : List Text

pub record MultiTopicConsumer (E : Type 0) : Type 0 where
  pub topic_regex : Option (Text → Bool)
  pub consumers : Map Text (Member E)
  pub requested_topics : List Text
  pub existing_topics : List Text
  pub new_consumers : Option Update
  pub disc_messages_received : ℕ
  pub disc_last_message_received : Option ℕ

abbrev pub front : {E : Type 0} → List (Item E) → Bool → Polled E
front [] true = closed
front [] false = pending
front (ok (id, payload) ∷ items) ended = message id payload
front (err e ∷ items) ended = failed e

abbrev pub behind : {A : Type 0} → List A → List A
behind [] = []
behind (x ∷ xs) = xs

-- TopicConsumer::poll_next on the channel.
unfoldable pub polled : {E : Type 0} → Member E → Polled E
polled c = front c.items c.ended

unfoldable pub poll_member : {E : Type 0} → ℕ → Member E → Member E
unfolding polled
poll_member now c = record {
  consumer = Topic.poll_next c.consumer now (polled c);
  items = behind c.items;
  ended = c.ended;
}

abbrev pub max_option : Option ℕ → Option ℕ → Option ℕ
max_option none b = b
max_option (some a) none = some a
max_option (some a) (some b) = some (if leb a b then b else a)

abbrev pub received_total : {E : Type 0} → Map Text (Member E) → ℕ
received_total [] = 0
received_total ((topic, c) ∷ cs) = c.consumer.messages_received + received_total cs

unfoldable pub messages_received : {E : Type 0} → MultiTopicConsumer E → ℕ
messages_received m = received_total m.consumers + m.disc_messages_received

abbrev pub last_of : {E : Type 0} → Map Text (Member E) → Option ℕ → Option ℕ
last_of [] last = last
last_of ((topic, c) ∷ cs) last = max_option c.consumer.last_message_received (last_of cs last)

unfoldable pub last_message_received : {E : Type 0} → MultiTopicConsumer E → Option ℕ
last_message_received m = last_of m.consumers m.disc_last_message_received

-- The turn of add_consumers for one of them.
unfoldable pub add_consumer :
    {E : Type 0} → Text → Member E → MultiTopicConsumer E → MultiTopicConsumer E
add_consumer topic c m = record m {
  consumers = insert topic c m.consumers;
  existing_topics = m.existing_topics ++ topic ∷ [];
}

unfoldable pub add_consumers :
    {E : Type 0} → List (Text × Member E) → MultiTopicConsumer E → MultiTopicConsumer E
unfolding add_consumer
add_consumers [] m = m
add_consumers ((topic, c) ∷ cs) m = add_consumers cs (add_consumer topic c m)

-- The turns of the loop in remove_consumers.
unfoldable pub on_removed :
    {E : Type 0} → Text → Option (Member E) → MultiTopicConsumer E → MultiTopicConsumer E
on_removed topic none m = m
on_removed topic (some c) m = record m {
  consumers = remove topic m.consumers;
  disc_messages_received = m.disc_messages_received + c.consumer.messages_received;
  disc_last_message_received =
      max_option m.disc_last_message_received c.consumer.last_message_received;
}

unfoldable pub remove_each : {E : Type 0} → List Text → MultiTopicConsumer E → MultiTopicConsumer E
unfolding on_removed
remove_each [] m = m
remove_each (topic ∷ topics) m = remove_each topics (on_removed topic (lookup topic m.consumers) m)

unfoldable pub remove_consumers :
    {E : Type 0} → List Text → MultiTopicConsumer E → MultiTopicConsumer E
unfolding remove_each
remove_consumers topics m =
    remove_each topics (record m { existing_topics = without topics m.existing_topics })

unfoldable pub update_topics : {E : Type 0} → MultiTopicConsumer E → MultiTopicConsumer E
update_topics m = record m {
  new_consumers = some record {
    topics = m.requested_topics;
    topic_regex = m.topic_regex;
    existing_topics = m.existing_topics;
  };
}

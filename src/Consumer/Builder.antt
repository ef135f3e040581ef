-- ===== src/Consumer/Builder.antt =====
-- src/consumer/builder.rs: `ConsumerBuilder`, validate, build and into_reader. What the client
-- answers is an argument, and so are the names that are drawn at random. A map's keys stand in the
-- order of its entries.
use pulsar_rdg_rs.Prelude.{
  ℕ, ◌+◌, Bool, true, false, not, Option, none, some, List, [], ◌∷◌, ◌++◌, Result, ok, err, ◌>>=◌,
  ◌&&◌, ◌||◌, length, if◌then◌else◌, map_err,
}
use pulsar_rdg_rs.Prelude.Maps.{Map, insert}
use pulsar_rdg_rs.Prelude.Equals.{text_eq}
use pulsar_rdg_rs.Bytes.{Text}
use pulsar_rdg_rs.Manager.{BrokerAddress}
use pulsar_rdg_rs.Partitions.{try_join_all, lookup_partitioned_topic}
use pulsar_rdg_rs.Producer.Message.{unwrap_or}
use pulsar_rdg_rs.Consumer.Multi.{Member, MultiTopicConsumer, Update, add_consumers, update_topics}
use pulsar_rdg_rs.Consumer.Multi.Updating.{Answers, created, flatten}
use pulsar_rdg_rs.Reader.{Reader, reader_of, polling_consumer}
pub mod Building

pub data SubType : Type 0 where
  exclusive shared failover key_shared : SubType

-- The fields of ConsumerBuilder that decide something here.
pub record ConsumerBuilder : Type 0 where
  pub topics : Option (List Text)
  pub topic_regex : Option (Text → Bool)
  pub subscription : Option Text
  pub subscription_type : Option SubType
  pub consumer_id : Option ℕ
  pub consumer_name : Option Text
  pub durable : Option Bool

-- ConsumerConfig, with the field `durable` of its options.
pub record ConsumerConfig : Type 0 where
  pub subscription : Text
  pub sub_type : SubType
  pub consumer_name : Text
  pub consumer_id : Option ℕ
  pub durable : Option Bool

-- "consumer_" and "sub_" with eight random characters each.
pub record Drawn : Type 0 where
  pub consumer_name : Text
  pub subscription : Text

pub data BuilderError (E : Type 0) : Type 0 where
  no_topics_and_no_regex topic_not_found one_partition_max : BuilderError E
  client_failed : E → BuilderError E

abbrev pub is_none : {A : Type 0} → Option A → Bool
is_none none = true
is_none (some a) = false

abbrev pub is_empty : {A : Type 0} → List A → Bool
is_empty [] = true
is_empty (x ∷ xs) = false

-- The match on the id and the number of topics.
unfoldable pub id_for : Option ℕ → List (Text × BrokerAddress) → Option ℕ
id_for (some id) (topic ∷ []) = some id
id_for (some id) [] = none
id_for (some id) (t ∷ u ∷ topics) = none
id_for none topics = none

abbrev pub config_of : ConsumerBuilder → Drawn → List (Text × BrokerAddress) → ConsumerConfig
config_of b drawn topics = record {
  subscription = unwrap_or b.subscription drawn.subscription;
  sub_type = unwrap_or b.subscription_type shared;
  consumer_name = unwrap_or b.consumer_name drawn.consumer_name;
  consumer_id = id_for b.consumer_id topics;
  durable = b.durable;
}

-- `topics.into_iter().flatten()`
abbrev pub requested : ConsumerBuilder → List Text
requested b = unwrap_or b.topics []

unfoldable pub look_up :
    {E : Type 0} → Answers E → List Text → Result E (List (Text × BrokerAddress))
unfolding lookup_partitioned_topic
look_up a topics =
    try_join_all (λ topic. lookup_partitioned_topic (a.number topic) a.lookup_topic topic) topics
    >>= λ found. ok (flatten found)

-- validate: the builder's settings, and its topics with their partitions.
unfoldable pub validate :
    {E : Type 0}
    → ConsumerBuilder
    → Drawn
    → Answers E
    → Result (BuilderError E) (ConsumerConfig × List (Text × BrokerAddress))
unfolding look_up id_for
validate b drawn a =
    if is_none b.topics && is_none b.topic_regex
    then err no_topics_and_no_regex
    else (map_err client_failed (look_up a (requested b)) >>= λ topics.
        if is_empty topics && is_none b.topic_regex
        then err topic_not_found
        else ok (config_of b drawn topics, topics))

-- TopicConsumer::new for each of the topics.
abbrev pub start_consumers :
    {E : Type 0} → Answers E → List (Text × BrokerAddress) → Result E (List (Text × Member E))
start_consumers a = try_join_all (λ (topic, address). a.new topic address >>= λ c. ok (topic, c))

-- collect() into a map
abbrev pub collect :
    {E : Type 0} → List (Text × Member E) → Map Text (Member E) → Map Text (Member E)
collect [] cs = cs
collect ((topic, c) ∷ more) cs = collect more (insert topic c cs)

abbrev pub keys : {E : Type 0} → Map Text (Member E) → List Text
keys [] = []
keys ((topic, c) ∷ cs) = topic ∷ keys cs

-- Whether the only topic that was asked for is the only one that came back.
abbrev pub is_itself : {E : Type 0} → List Text → List (Text × Member E) → Bool
is_itself (only ∷ []) ((resolved, c) ∷ []) = text_eq.beq resolved only
is_itself topics consumers = false

unfoldable pub can_gain_partitions : {E : Type 0} → ConsumerBuilder → List (Text × Member E) → Bool
can_gain_partitions b consumers =
    not (is_none b.topic_regex) || not (is_itself (requested b) consumers)

-- InnerConsumer
pub data InnerConsumer (E : Type 0) : Type 0 where
  single : Text → Member E → InnerConsumer E
  multi : MultiTopicConsumer E → InnerConsumer E

abbrev pub multi_of : {E : Type 0} → ConsumerBuilder → List (Text × Member E) → MultiTopicConsumer E
multi_of b consumers = record {
  topic_regex = b.topic_regex;
  consumers = collect consumers [];
  requested_topics = requested b;
  existing_topics = keys (collect consumers []);
  new_consumers = none;
  disc_messages_received = 0;
  disc_last_message_received = none;
}

-- What update_topics leaves in new_consumers, taken and awaited.
abbrev pub first_update :
    {E : Type 0}
    → Answers E
    → Option Update
    → MultiTopicConsumer E
    → Result E (MultiTopicConsumer E)
first_update a none m = ok m
first_update a (some u) m =
    created a u >>= λ cs. ok (add_consumers cs (record m { new_consumers = none }))

abbrev pub with_regex :
    {E : Type 0}
    → Answers E
    → Option (Text → Bool)
    → MultiTopicConsumer E
    → Result E (MultiTopicConsumer E)
with_regex a none m = ok m
with_regex a (some is_match) m = first_update a (update_topics m).new_consumers (update_topics m)

abbrev pub single_or :
    {E : Type 0}
    → Bool
    → List (Text × Member E)
    → Result E (InnerConsumer E)
    → Result E (InnerConsumer E)
single_or false ((topic, c) ∷ []) rest = ok (single topic c)
single_or _ _ rest = rest

unfoldable pub build_consumer :
    {E : Type 0} → ConsumerBuilder → Drawn → Answers E → Result (BuilderError E) (InnerConsumer E)
unfolding validate can_gain_partitions update_topics created add_consumers
build_consumer b drawn a = validate b drawn a >>= λ (config, topics). map_err client_failed (
    start_consumers a topics >>= λ consumers.
    single_or (can_gain_partitions b consumers) consumers
      (with_regex a b.topic_regex (multi_of b consumers) >>= λ m. ok (multi m)))

abbrev pub for_reader : ConsumerConfig → ConsumerConfig
for_reader config = record config { durable = some false; sub_type = exclusive }

-- The last part of into_reader: `none` is the panic of `joined_topics.pop().unwrap()`.
abbrev pub reader_from :
    {E : Type 0}
    → Answers E
    → ConsumerConfig
    → List (Text × BrokerAddress)
    → Option (Result (BuilderError E) (ConsumerConfig × Reader E))
reader_from a config [] = none
reader_from a config ((topic, address) ∷ []) = some (
    map_err client_failed (a.new topic address) >>= λ c.
    ok (for_reader config, reader_of c polling_consumer))
reader_from a config (t ∷ u ∷ topics) = some (err one_partition_max)

abbrev pub on_validated :
    {E : Type 0}
    → Answers E
    → Result (BuilderError E) (ConsumerConfig × List (Text × BrokerAddress))
    → Option (Result (BuilderError E) (ConsumerConfig × Reader E))
on_validated a (ok (config, topics)) = reader_from a config topics
on_validated a (err e) = some (err e)

unfoldable pub into_reader :
    {E : Type 0}
    → ConsumerBuilder
    → Drawn
    → Answers E
    → Option (Result (BuilderError E) (ConsumerConfig × Reader E))
unfolding validate
into_reader b drawn a = on_validated a (validate b drawn a)

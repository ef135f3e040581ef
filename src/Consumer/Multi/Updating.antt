-- ===== src/Consumer/Multi/Updating.antt =====
-- The future of `update_topics` in src/consumer/multi.rs, and what a poll of it does.
use pulsar_rdg_rs.Prelude.{
  ℕ, Bool, Option, none, some, List, [], ◌∷◌, ◌++◌, Result, ok, err, ◌>>=◌, if◌then◌else◌,
}
use pulsar_rdg_rs.Prelude.Equals.{text_eq}
use pulsar_rdg_rs.Prelude.Members.{contains}
use pulsar_rdg_rs.Bytes.{Text}
use pulsar_rdg_rs.Manager.{BrokerAddress}
use pulsar_rdg_rs.Partitions.{try_join_all, lookup_partitioned_topic}
use pulsar_rdg_rs.Consumer.Multi.{Member, Update, MultiTopicConsumer, add_consumers}

-- What the client answers to the future of update_topics.
pub record Answers (E : Type 0) : Type 0 where
  pub get_topics_of_namespace : Result E (List Text)
  pub number : Text → Result E ℕ
  pub lookup_topic : Text → Result E BrokerAddress
  pub new : Text → BrokerAddress → Result E (Member E)

abbrev pub matching : (Text → Bool) → List Text → List Text
matching is_match [] = []
matching is_match (t ∷ ts) =
    let rest = matching is_match ts in if is_match t then t ∷ rest else rest

abbrev pub wanted :
    {E : Type 0} → Answers E → Option (Text → Bool) → List Text → Result E (List Text)
wanted a none topics = ok topics
wanted a (some is_match) topics =
    a.get_topics_of_namespace >>= λ all_topics. ok (topics ++ matching is_match all_topics)

abbrev pub flatten : {A : Type 0} → List (List A) → List A
flatten [] = []
flatten (xs ∷ xss) = xs ++ flatten xss

abbrev pub unknown_to : List Text → List (Text × BrokerAddress) → List (Text × BrokerAddress)
unknown_to existing [] = []
unknown_to existing ((t, address) ∷ ts) =
    let rest = unknown_to existing ts in if contains t existing then rest else (t, address) ∷ rest

-- The future of update_topics, run to its end.
unfoldable pub created : {E : Type 0} → Answers E → Update → Result E (List (Text × Member E))
unfolding lookup_partitioned_topic
created a u = wanted a u.topic_regex u.topics >>= λ topics.
    try_join_all (λ topic. lookup_partitioned_topic (a.number topic) a.lookup_topic topic) topics
    >>= λ found.
        try_join_all (λ (topic, address). a.new topic address >>= λ c. ok (topic, c))
          (unknown_to u.existing_topics (flatten found))

-- What a poll of that future gives; `none` is pending.
abbrev pub on_new_consumers :
    {E : Type 0}
    → Option (Result E (List (Text × Member E)))
    → MultiTopicConsumer E
    → MultiTopicConsumer E
on_new_consumers none m = m
on_new_consumers (some (ok cs)) m = add_consumers cs (record m { new_consumers = none })
on_new_consumers (some (err e)) m = record m { new_consumers = none }

abbrev pub on_future :
    {E : Type 0} → Option Update → Option (Answers E) → MultiTopicConsumer E → MultiTopicConsumer E
on_future none answers m = m
on_future (some u) none m = on_new_consumers none m
on_future (some u) (some a) m = on_new_consumers (some (created a u)) m

unfoldable pub take_new :
    {E : Type 0} → Option (Answers E) → MultiTopicConsumer E → MultiTopicConsumer E
unfolding add_consumers created
take_new answers m = on_future m.new_consumers answers m

-- ===== src/Tests/Builders.antt =====
-- Builders of consumers at which the theorems about them are applied.
use pulsar_rdg_rs.Prelude.{ℕ, ◌≡◌, refl, true, none, some, [], ◌∷◌}
use pulsar_rdg_rs.Partitions.{lookup_partitioned_topic, topics_of}
use pulsar_rdg_rs.Consumer.Multi.{MultiTopicConsumer}
use pulsar_rdg_rs.Consumer.Multi.Running.{Run, run}
use pulsar_rdg_rs.Consumer.Multi.Rotating.{IsValid}
use pulsar_rdg_rs.Consumer.Builder.{
  ConsumerBuilder, Drawn, multi_of, build_consumer, into_reader, validate, look_up,
  can_gain_partitions,
}
use pulsar_rdg_rs.Consumer.Builder.Building.{build_consumer-runs, into_reader-panics}
use pulsar_rdg_rs.Tests.Multis.{a, b, member, answers, events}

abbrev drawn : Drawn
drawn = record { consumer_name = 99 ∷ []; subscription = 115 ∷ [] }

-- Two topics by name.
abbrev two_topics : ConsumerBuilder
two_topics = record {
  topics = some (a ∷ b ∷ []);
  topic_regex = none;
  subscription = none;
  subscription_type = none;
  consumer_id = some 3;
  consumer_name = none;
  durable = none;
}

abbrev built : MultiTopicConsumer ℕ
built = multi_of two_topics ((a, member []) ∷ (b, member []) ∷ [])

build_consumer-runs_example :
    (r : Run ℕ) × (run events record { state = built; delivered = []; missing = [] } ≡ some r)
    × IsValid r.state
    × (r.missing ≡ [])
unfolding build_consumer validate look_up can_gain_partitions lookup_partitioned_topic topics_of
build_consumer-runs_example = build_consumer-runs ℕ two_topics drawn answers built events refl

-- A regex alone.
abbrev by_regex : ConsumerBuilder
by_regex = record two_topics { topics = none; topic_regex = some (λ topic. true) }

into_reader-panics_example : into_reader by_regex drawn answers ≡ none
into_reader-panics_example = into_reader-panics ℕ by_regex drawn answers refl refl

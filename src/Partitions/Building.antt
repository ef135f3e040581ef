-- ===== src/Partitions/Building.antt =====
-- src/producer.rs: ProducerBuilder::build and PartitionedProducer::refresh_partitions.
use pulsar_rdg_rs.Prelude.{
  ℕ, ◌-◌, Bool, false, not, Option, none, some, List, [], ◌∷◌, ◌++◌, Result, ok, err, ◌>>=◌,
  map_err, ◌||◌, leb, length, if◌then◌else◌,
}
use pulsar_rdg_rs.Prelude.Equals.{text_eq}
use pulsar_rdg_rs.Bytes.{Text}
use pulsar_rdg_rs.Manager.{BrokerAddress}
use pulsar_rdg_rs.Routing.{HashingScheme, RoutingPolicy, PartitionedProducer}
use pulsar_rdg_rs.Partitions.{sort_key, start_producers, sort_by_key}

-- The fields of ProducerBuilder that its producers are made of.
pub record ProducerBuilder : Type 0 where
  pub topic : Text
  pub routing_policy : Option RoutingPolicy
  pub hashing_scheme : HashingScheme
  pub partition_refresh : Option ℕ

pub data BuildError (E : Type 0) : Type 0 where
  client_failed : E → BuildError E
  no_topics : BuildError E

-- ProducerInner
pub data Producer : Type 0 where
  single : Text → Producer
  partitioned : PartitionedProducer → Producer

abbrev pub first_differs : Text → List (Text × BrokerAddress) → Bool
first_differs topic [] = false
first_differs topic ((first, address) ∷ partitions) = not (text_eq.beq first topic)

-- The end of build, where `random` draws the first index below the number of producers.
unfoldable pub build_from :
    {E : Type 0} → ProducerBuilder → (ℕ → ℕ) → ℕ → Bool → List Text → Result (BuildError E) Producer
build_from b random now is_partitioned [] = err no_topics
build_from b random now is_partitioned (producer ∷ producers) = ok (
    if is_partitioned
    then partitioned record {
      producers = producer ∷ producers;
      last_used_producer_index = random (length (producer ∷ producers));
      topic = b.topic;
      routing_policy = b.routing_policy;
      hashing_scheme = b.hashing_scheme;
      partition_refresh = b.partition_refresh;
      last_partition_check = now;
    }
    else single producer)

-- ProducerBuilder::build, with what the lookup of the topic's partitions gives.
unfoldable pub build :
    {E : Type 0}
    → ProducerBuilder
    → Result E (List (Text × BrokerAddress))
    → (Text → BrokerAddress → Result E (Unit {0}))
    → (ℕ → ℕ)
    → ℕ
    → Result (BuildError E) Producer
unfolding build_from sort_key
build b found start random now = map_err client_failed found >>= λ partitions.
    map_err client_failed (start_producers start partitions) >>= λ producers.
    build_from b random now (first_differs b.topic partitions) (sort_by_key sort_key producers)

abbrev pub contains : Text → List Text → Bool
contains topic [] = false
contains topic (known ∷ more) = text_eq.beq known topic || contains topic more

-- The topics that have no producer yet.
unfoldable pub unknown : List Text → List (Text × BrokerAddress) → List (Text × BrokerAddress)
unknown known [] = []
unknown known ((topic, address) ∷ found) =
    let rest = unknown known found in if contains topic known then rest else (topic, address) ∷ rest

unfoldable pub on_created :
    {E : Type 0} → PartitionedProducer → Result E (List Text) → PartitionedProducer
unfolding sort_key
on_created p (ok created) = record p { producers = sort_by_key sort_key (p.producers ++ created) }
on_created p (err e) = p

unfoldable pub on_added :
    {E : Type 0}
    → PartitionedProducer
    → (Text → BrokerAddress → Result E (Unit {0}))
    → List (Text × BrokerAddress)
    → PartitionedProducer
unfolding on_created
on_added p start [] = p
on_added p start (a ∷ added) = on_created p (start_producers start (a ∷ added))

unfoldable pub on_found :
    {E : Type 0}
    → PartitionedProducer
    → (Text → BrokerAddress → Result E (Unit {0}))
    → Result E (List (Text × BrokerAddress))
    → PartitionedProducer
unfolding on_added unknown
on_found p start (ok found) = on_added p start (unknown p.producers found)
on_found p start (err e) = p

-- Whether the interval has passed since the last check.
unfoldable pub is_due : ℕ → PartitionedProducer → Bool
is_due now p = elim p.partition_refresh [
  | none ↦ false
  | some interval ↦ leb interval (now - p.last_partition_check)
]

-- PartitionedProducer::refresh_partitions; what the lookup gives is used only if there is one.
unfoldable pub refresh_partitions :
    {E : Type 0}
    → ℕ
    → Result E (List (Text × BrokerAddress))
    → (Text → BrokerAddress → Result E (Unit {0}))
    → PartitionedProducer
    → PartitionedProducer
unfolding is_due on_found
refresh_partitions now found start p =
    if is_due now p then on_found (record p { last_partition_check = now }) start found else p

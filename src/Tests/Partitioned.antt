-- ===== src/Tests/Partitioned.antt =====
-- Partitioned topics: src/service_discovery.rs and src/producer.rs.
use pulsar_rdg_rs.Prelude.{ℕ, ◌≡◌, ◌≢◌, refl, false, none, some, [], ◌∷◌, ◌++◌, ok, arith}
use pulsar_rdg_rs.Bytes.{Bytes, Text}
use pulsar_rdg_rs.Decimal.{rsplit_once, starts_with, parse_usize, parse_number, parse_digits}
use pulsar_rdg_rs.Manager.{BrokerAddress}
use pulsar_rdg_rs.Routing.{PartitionedProducer, java_string_hash_scheme, route_by_key}
use pulsar_rdg_rs.Partitions.{
  partition_name, partition_index, is_topic_partition_name, partition_infix,
}
use pulsar_rdg_rs.Partitions.Building.{
  ProducerBuilder, partitioned, build, is_due, refresh_partitions,
}
use pulsar_rdg_rs.Partitions.Missing.{IsPart}
use pulsar_rdg_rs.Partitions.Growth.{starts}
use pulsar_rdg_rs.Partitions.Fresh.{fresh, answer, refresh_partitions-fresh}

-- A sign is read as part of the number, though the name is not a partition's.
signed : partition_index (111 ∷ (partition_infix ++ (43 ∷ 51 ∷ []))) ≡ some 3
unfolding partition_index rsplit_once starts_with parse_usize parse_number parse_digits
signed = refl

unsigned : is_topic_partition_name (111 ∷ (partition_infix ++ (43 ∷ 51 ∷ []))) ≡ false
unfolding is_topic_partition_name rsplit_once starts_with
unsigned = refl

abbrev builder : ProducerBuilder
builder = record {
  topic = 111 ∷ [];
  routing_policy = none;
  hashing_scheme = java_string_hash_scheme;
  partition_refresh = some 60;
}

-- A producer of the first two partitions, checked at 5.
abbrev two : PartitionedProducer
two = record {
  producers = partition_name (111 ∷ []) 0 ∷ partition_name (111 ∷ []) 1 ∷ [];
  last_used_producer_index = 1;
  topic = 111 ∷ [];
  routing_policy = none;
  hashing_scheme = java_string_hash_scheme;
  partition_refresh = some 60;
  last_partition_check = 5;
}

abbrev address : Text → BrokerAddress
address topic = record { url = 1 ∷ []; broker_url = topic; proxy = false }

abbrev murmur3_32 : Bytes → ℕ
murmur3_32 bytes = 0

abbrev random : ℕ → ℕ
random n = 0

two-IsPart : IsPart 3 (0 ∷ 1 ∷ [])
two-IsPart x = ground arith

is_not_empty : builder.topic ≢ []
is_not_empty e = cc

refresh_partitions-fresh_example :
    (build builder (answer {E = Text} builder address 3) starts random 70
      ≡ ok (partitioned (fresh builder random 70 3)))
    × ((refresh_partitions 70 (answer {E = Text} builder address 3) starts two).producers
        ≡ (fresh builder random 70 3).producers)
    × ((route_by_key murmur3_32
          (refresh_partitions 70 (answer {E = Text} builder address 3) starts two)
          (97 ∷ 98 ∷ [])).0
        ≡ (route_by_key murmur3_32 (fresh builder random 70 3) (97 ∷ 98 ∷ [])).0)
unfolding is_due
refresh_partitions-fresh_example =
    refresh_partitions-fresh Text builder is_not_empty address random 70 2 two (0 ∷ 1 ∷ [])
      murmur3_32 (97 ∷ 98 ∷ []) (omega arith) refl ((omega arith, tt), (tt, tt)) two-IsPart refl
      refl

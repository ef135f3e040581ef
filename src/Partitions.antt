-- ===== src/Partitions.antt =====
-- The partitions of a topic: their names and their lookup in src/service_discovery.rs, and the
-- producer that keeps one producer for each in src/producer.rs (ProducerBuilder::build,
-- PartitionedProducer::refresh_partitions). A partition's `TopicProducer` stands here as the topic
-- that it produces to. The number of partitions that the broker answers, the lookup of an address
-- and the start of a producer are arguments; an error of those has any type.
pub mod Building
pub mod Names
pub mod Sorting
pub mod Ranges
pub mod Missing
pub mod Named
pub mod Growth
pub mod Fresh
use pulsar_rdg_rs.Prelude.{
  ℕ, zero, suc, ◌+◌, ◌-◌, ◌^◌, Bool, true, false, not, Option, none, some, List, [], ◌∷◌, ◌++◌, map,
  Result, ok, err, ◌>>=◌, map_err, ◌&&◌, ◌||◌, ltb, leb, length, if◌then◌else◌,
}
use pulsar_rdg_rs.Prelude.Equals.{text_eq}
use pulsar_rdg_rs.Bytes.{Text}
use pulsar_rdg_rs.Decimal.{shown, is_ascii_digit, parse_usize, rsplit_once}
use pulsar_rdg_rs.Manager.{BrokerAddress}

-- "-partition-"
abbrev pub partition_infix : Text
partition_infix = 45 ∷ 112 ∷ 97 ∷ 114 ∷ 116 ∷ 105 ∷ 116 ∷ 105 ∷ 111 ∷ 110 ∷ 45 ∷ []

abbrev pub index_after : Option (Text × Text) → Option ℕ
index_after none = none
index_after (some ([], index)) = none
index_after (some (c ∷ prefix, index)) = parse_usize index

unfoldable pub partition_index : Text → Option ℕ
partition_index topic = index_after (rsplit_once partition_infix topic)

abbrev pub all_digits : Text → Bool
all_digits [] = true
all_digits (c ∷ cs) = is_ascii_digit c && all_digits cs

abbrev pub digits_after : Option (Text × Text) → Bool
digits_after none = false
digits_after (some ([], index)) = false
digits_after (some (c ∷ prefix, [])) = false
digits_after (some (c ∷ prefix, d ∷ index)) = all_digits (d ∷ index)

unfoldable pub is_topic_partition_name : Text → Bool
is_topic_partition_name topic = digits_after (rsplit_once partition_infix topic)

-- format!("{}-partition-{}", topic, n)
unfoldable pub partition_name : Text → ℕ → Text
partition_name topic n = topic ++ (partition_infix ++ shown n)

-- start..start + n
abbrev pub range : ℕ → ℕ → List ℕ
range start zero = []
range start (suc n) = start ∷ range (suc start) n

unfoldable pub topics_of : Text → ℕ → List Text
unfolding partition_name
topics_of topic zero = topic ∷ []
topics_of topic (suc n) = map (partition_name topic) (range 0 (suc n))

-- try_join_all; of several errors the first in the list is given.
abbrev pub try_join_all : {E A B : Type 0} → (A → Result E B) → List A → Result E (List B)
try_join_all f [] = ok []
try_join_all f (a ∷ as') = f a >>= λ b. try_join_all f as' >>= λ bs. ok (b ∷ bs)

unfoldable pub lookup_partitioned_topic :
    {E : Type 0}
    → Result E ℕ
    → (Text → Result E BrokerAddress)
    → Text
    → Result E (List (Text × BrokerAddress))
unfolding topics_of
lookup_partitioned_topic number lookup_topic topic = number >>= λ partitions.
    try_join_all (λ topic. lookup_topic topic >>= λ address. ok (topic, address))
      (topics_of topic partitions)

-- slice::sort_by_key, which is stable: `x` goes before what has its key.
abbrev pub insert_by : {A : Type 0} → (A → ℕ) → A → List A → List A
insert_by key x [] = x ∷ []
insert_by key x (y ∷ ys) =
    let rest = insert_by key x ys in if leb (key x) (key y) then x ∷ (y ∷ ys) else y ∷ rest

abbrev pub sort_by_key : {A : Type 0} → (A → ℕ) → List A → List A
sort_by_key key [] = []
sort_by_key key (x ∷ xs) = insert_by key x (sort_by_key key xs)

-- `unwrap_or(usize::MAX)`
abbrev pub or_max : Option ℕ → ℕ
or_max none = 2 ^ 64 - 1
or_max (some index) = index

unfoldable pub sort_key : Text → ℕ
unfolding partition_index
sort_key topic = or_max (partition_index topic)

-- TopicProducer::new for each of the topics.
abbrev pub start_producers :
    {E : Type 0}
    → (Text → BrokerAddress → Result E (Unit {0}))
    → List (Text × BrokerAddress)
    → Result E (List Text)
start_producers start = try_join_all (λ (topic, address). start topic address >>= λ _. ok topic)

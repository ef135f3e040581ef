-- ===== src/Tests/Routes.antt =====
-- src/routing_policy.rs and src/producer.rs: routes of concrete messages.
use pulsar_rdg_rs.Prelude.{◌%◌, ◌^◌, ◌≡◌, refl, none, some, [], ◌∷◌, arith}
use pulsar_rdg_rs.Bytes.{Text}
use pulsar_rdg_rs.Producer.Message.{Message, text}
use pulsar_rdg_rs.Routing.{
  java_string_hash_scheme, encode_utf16, fold_units, java_string_hash, PartitionedProducer,
  round_robin,
}
use pulsar_rdg_rs.Routing.Hashing.{hash_code, java_string_hash-hash_code}
use pulsar_rdg_rs.Routing.Choice.{IsUsable}

-- "ab" and a code point that takes two units.
abbrev key : Text
key = 97 ∷ 98 ∷ 0x1f600 ∷ []

abbrev three : PartitionedProducer
three = record {
  producers = (1 ∷ []) ∷ (2 ∷ []) ∷ (3 ∷ []) ∷ [];
  last_used_producer_index = 2;
  routing_policy = some round_robin;
  hashing_scheme = java_string_hash_scheme;
  topic = 9 ∷ [];
  partition_refresh = some 60;
  last_partition_check = 0;
}

abbrev to_key : Message
to_key = record {
  payload = none;
  properties = [];
  partition_key = some (text key);
  ordering_key = none;
  replicate_to = [];
  event_time = none;
  schema_version = none;
  deliver_at_time = none;
}

three-IsUsable : IsUsable three
three-IsUsable = record { some_producer = omega arith; in_range = omega arith }

java_string_hash-ab : java_string_hash (97 ∷ 98 ∷ []) ≡ 3105
unfolding java_string_hash encode_utf16 fold_units
java_string_hash-ab = refl

java_string_hash-hash_code_example : java_string_hash key ≡ hash_code (encode_utf16 key) % 2 ^ 31
java_string_hash-hash_code_example = java_string_hash-hash_code key

-- ===== src/Routing.antt =====
-- src/routing_policy.rs, and the choice of a partition in src/producer.rs (`PartitionedProducer`).
-- A partition's `TopicProducer` stands here as the topic that it produces to. The murmur3 crate's
-- hash, on the bytes of a text, and a user's own routing policy are arguments.
pub mod Hashing
pub mod Choice
use pulsar_rdg_rs.Prelude.{
  ℕ, suc, ◌+◌, ◌-◌, ◌*◌, ◌/◌, ◌%◌, ◌^◌, Bool, true, false, Option, none, some, List, [], ◌∷◌, ◌++◌,
  length, get_elem?, ltb, leb, if◌then◌else◌,
}
use pulsar_rdg_rs.Bytes.{Bytes, Text, u32_mod}
use pulsar_rdg_rs.Producer.Message.{Base64, PartitionKey, Message, routing_key}

pub data HashingScheme : Type 0 where
  java_string_hash_scheme murmur3_32_hash_scheme : HashingScheme

-- str::encode_utf16: a code point above 0xffff is two units.
unfoldable pub encode_utf16 : Text → List ℕ
encode_utf16 [] = []
encode_utf16 (c ∷ cs) =
    (if ltb c 0x10000
      then c ∷ []
      else (0xd800 + (c - 0x10000) / 0x400) ∷ (0xdc00 + (c - 0x10000) % 0x400) ∷ [])
    ++ encode_utf16 cs

-- str::as_bytes
unfoldable pub as_bytes : Text → Bytes
as_bytes [] = []
as_bytes (c ∷ cs) =
    (if ltb c 0x80
      then c ∷ []
      else if ltb c 0x800
      then (0xc0 + c / 0x40) ∷ (0x80 + c % 0x40) ∷ []
      else if ltb c 0x10000
      then (0xe0 + c / 0x1000) ∷ (0x80 + c / 0x40 % 0x40) ∷ (0x80 + c % 0x40) ∷ []
      else (0xf0 + c / 0x40000)
        ∷ (0x80 + c / 0x1000 % 0x40)
        ∷ (0x80 + c / 0x40 % 0x40)
        ∷ (0x80 + c % 0x40)
        ∷ [])
    ++ as_bytes cs

-- The loop over the units. The `i32` is kept as its bit pattern, below 2^32, on which wrapping
-- multiplication and addition are those of numbers modulo 2^32.
unfoldable pub fold_units : ℕ → List ℕ → ℕ
fold_units h [] = h
fold_units h (unit ∷ units) = fold_units ((h * 31 % u32_mod + unit) % u32_mod) units

-- `h & i32::MAX` clears the highest of the 32 bits.
abbrev pub mask : ℕ → ℕ
mask h = h % 2 ^ 31

unfoldable pub java_string_hash : Text → ℕ
java_string_hash key = mask (fold_units 0 (encode_utf16 key))

-- RoutingPolicy; a custom policy maps a message and the number of producers to an index.
pub data RoutingPolicy : Type 0 where
  round_robin single : RoutingPolicy
  custom : (Message → ℕ → ℕ) → RoutingPolicy

-- PartitionedProducer, with the options that the choice depends on; the handle of the client and
-- the name are passed on only. Times are numbers.
pub record PartitionedProducer : Type 0 where
  pub producers : List Text
  pub last_used_producer_index : ℕ
  pub topic : Text
  pub routing_policy : Option RoutingPolicy
  pub hashing_scheme : HashingScheme
  pub partition_refresh : Option ℕ
  pub last_partition_check : ℕ

-- PartitionedProducer::get_next_round_robin_producer; `none` is the panic of `unwrap`.
unfoldable pub get_next_round_robin_producer :
    PartitionedProducer → Option Text × PartitionedProducer
get_next_round_robin_producer p =
    let index = p.last_used_producer_index + 1 in
    let index' = (if leb (length p.producers) index then 0 else index) in
    (get_elem? p.producers index', record p { last_used_producer_index = index' })

unfoldable pub sign_safe_mod : ℕ → ℕ → ℕ
sign_safe_mod hash partition_count = hash % partition_count

module _ (murmur3_32 : Bytes → ℕ) where
  unfoldable pub murmur3_32_hash : Text → ℕ
  murmur3_32_hash key = mask (murmur3_32 (as_bytes key))

  -- HashingScheme::make_hash
  unfoldable pub make_hash : HashingScheme → Text → ℕ
  make_hash java_string_hash_scheme key = java_string_hash key
  make_hash murmur3_32_hash_scheme key = murmur3_32_hash key

  -- RoutingPolicy::compute_partition_index_for_key
  unfoldable pub compute_partition_index_for_key : Text → ℕ → HashingScheme → ℕ
  unfolding sign_safe_mod
  compute_partition_index_for_key key partition_count hashing_scheme =
      sign_safe_mod (make_hash hashing_scheme key) partition_count

-- PartitionedProducer::route_by_key; with no producers `NonZeroUsize::new` fails and `expect`
-- panics, which is `none` here too.
unfoldable pub route_by_key :
    (Bytes → ℕ) → PartitionedProducer → Text → Option Text × PartitionedProducer
route_by_key murmur3_32 p key = (
  get_elem? p.producers
      (compute_partition_index_for_key murmur3_32 key (length p.producers) p.hashing_scheme),
  p,
)

abbrev pub message_key : Base64 → Option PartitionKey → Option Text
message_key b64 none = none
message_key b64 (some key) = routing_key b64 key

unfoldable pub hash_routed_key : Base64 → Option RoutingPolicy → Message → Option Text
hash_routed_key b64 (some (custom policy)) message = none
hash_routed_key b64 _ message = message_key b64 message.partition_key

unfoldable pub by_policy :
    PartitionedProducer → Message → Option RoutingPolicy → Option Text × PartitionedProducer
by_policy p message (some single) = (get_elem? p.producers p.last_used_producer_index, p)
by_policy p message (some (custom policy)) =
    (get_elem? p.producers (policy message (length p.producers)), p)
by_policy p message _ = get_next_round_robin_producer p

unfoldable pub by_key :
    (Bytes → ℕ) → PartitionedProducer → Message → Option Text → Option Text × PartitionedProducer
by_key murmur3_32 p message (some key) = route_by_key murmur3_32 p key
by_key murmur3_32 p message none = by_policy p message p.routing_policy

-- PartitionedProducer::choose_partition
unfoldable pub choose_partition :
    Base64 → (Bytes → ℕ) → PartitionedProducer → Message → Option Text × PartitionedProducer
choose_partition b64 murmur3_32 p message =
    by_key murmur3_32 p message (hash_routed_key b64 p.routing_policy message)
